-- ===== src/Access/Gate/Decision.antt =====
-- The gate decides as `canAccessNs` does, and fails closed.
use aliangboard.Base.{
  String, ◌≡◌, refl, ap, ap₂, sym, ◌∙◌, Bool, true, false, ◌&&◌, none, some, List, [], ◌∷◌, ◌++◌,
  ◌==◌, eq_iff, if◌then◌else◌, filter, filter-append, arith, Bool-cases, Option-cases, inl, inr,
}
use aliangboard.Access.Store.{
  Db, User, Cluster, Grant, Member, active_user, is_assigned, cluster_row, joined, group_grants,
}
use aliangboard.Access.Levels.{is_enough, best_level}
use aliangboard.Access.Grants.{grant_rows, can_access_cluster, can_access_ns}
use aliangboard.Access.Grants.Best.{on_cluster}
use aliangboard.Access.Grants.Entitled.{can_access_ns-eq-best}
use aliangboard.Access.Gate.{
  Stmts, Session, Request, Query, thrown, rows, prepare, gate_rows, allow, allow_by_role,
  allow_by_namespace, allow_by_assignment, allow_by_level, enforce, try_gate, gate_k8s_session,
  is_level,
}

-- The gate's statement picks the rows of `authz.mjs` that are on the cluster.
filter-joined :
    (p : Grant → Bool) (uid : String) (g : Grant) (ms : List Member)
    → filter p (joined g uid ms) ≡ (if p g then joined g uid ms else [])
filter-joined p uid g [] = ground arith
filter-joined p uid g (m ∷ ms) = ground (arith, filter-joined p uid g ms)

group_grants-filter :
    (p : Grant → Bool) (uid : String) (ms : List Member) (gs : List Grant)
    → group_grants p uid ms gs ≡ filter p (group_grants (λ _. true) uid ms gs)
group_grants-filter p uid ms [] = refl
group_grants-filter p uid ms (g ∷ gs) = ground (
  arith,
  group_grants-filter p uid ms gs,
  filter-joined p uid g ms,
  filter-append p (joined g uid ms) (group_grants (λ _. true) uid ms gs),
)

direct-filter :
    (uid cid : String) (gs : List Grant)
    → filter (λ g. g.subject_type == "user" && g.subject_id == uid && g.cluster_id == cid) gs
      ≡ on_cluster cid (filter (λ g. g.subject_type == "user" && g.subject_id == uid) gs)
direct-filter uid cid [] = refl
direct-filter uid cid (g ∷ gs) = ground (arith, direct-filter uid cid gs)

gate_rows-eq-on_cluster :
    (db : Db) (uid cid : String) → gate_rows db uid cid ≡ on_cluster cid (grant_rows db uid)
unfolding gate_rows grant_rows
gate_rows-eq-on_cluster db uid cid =
    ap₂ (λ xs ys. xs ++ ys) (direct-filter uid cid db.grants)
      (group_grants-filter (λ g. g.cluster_id == cid) uid db.members db.grants)
    ∙ sym (
        filter-append (λ g. g.cluster_id == cid)
          (filter (λ g. g.subject_type == "user" && g.subject_id == uid) db.grants)
          (group_grants (λ _. true) uid db.members db.grants))

-- What `allow` answers; an exception counts as a refusal.
abbrev pub granted : Query Bool → Bool
granted thrown = false
granted (rows b) = b

-- Whatever the statements do, on a cluster in allowlist mode the gate lets a session with an owner
-- through exactly when `allow` says so.
pub gate_k8s_session-eq-allow :
    (s : Stmts) (session : Session) (r : Request) (mode : String)
    → (session.user_id == "") ≡ false
    → s.cluster_mode session.cluster_id ≡ rows (some mode)
    → mode ≡ "allowlist"
    → is_level r.level ≡ true
    → (gate_k8s_session s session r).0 ≡ granted (allow s session r.namespace r.level)
unfolding gate_k8s_session try_gate enforce
gate_k8s_session-eq-allow s session r mode named listed m level =
    ground (arith, eq_iff mode "allowlist")

allow_by_level-prepare :
    (db : Db) (session : Session) (ns level : String)
    → granted (allow_by_level (prepare db) session ns level)
      ≡ is_enough
          (best_level ns none (on_cluster session.cluster_id (grant_rows db session.user_id)))
          level
unfolding allow_by_level prepare
allow_by_level-prepare db session ns level =
    ap (λ gs. is_enough (best_level ns none gs) level)
      (gate_rows-eq-on_cluster db session.user_id session.cluster_id)

module _ (db : Db) (session : Session) (ns level : String) (c : Cluster) where
  allow-prepare_plain :
      (u : User)
      → active_user db session.user_id ≡ some u
      → (u.role == "admin") ≡ false
      → granted (allow (prepare db) session (some ns) level) ≡ (
          is_assigned db session.user_id session.cluster_id
          && granted (allow_by_level (prepare db) session ns level))
  unfolding allow allow_by_role allow_by_namespace allow_by_assignment prepare
  allow-prepare_plain u active plain =
      elim (Bool-cases (is_assigned db session.user_id session.cluster_id)) [
        | inl assigned ↦ rw (active, plain, assigned) refl
        | inr unassigned ↦ rw (active, plain, unassigned) refl
      ]

  allow-prepare :
      (session.user_id == "") ≡ false
      → cluster_row db session.cluster_id ≡ some c
      → c.ns_auth_mode ≡ "allowlist"
      → granted (allow (prepare db) session (some ns) level)
        ≡ can_access_ns db session.user_id session.cluster_id ns level
  unfolding allow allow_by_role prepare can_access_ns can_access_cluster
  allow-prepare named row mode = elim (Option-cases (active_user db session.user_id)) [
    | inl nobody ↦ ground arith
    | inr (u, active) ↦ elim (Bool-cases (u.role == "admin")) [
      | inl admin ↦ ground arith
      | inr plain ↦
          allow-prepare_plain u active plain
          ∙ (ap (λ b. is_assigned db session.user_id session.cluster_id && b)
                (allow_by_level-prepare db session ns level)
              ∙ sym (
                  can_access_ns-eq-best db session.user_id session.cluster_id ns level u c named row
                    mode active plain))
    ]
  ]

-- Over the tables, on a cluster in allowlist mode, the gate lets a session with an owner through for
-- a namespace and a level exactly when `canAccessNs` grants the owner that level there.
pub gate_k8s_session-eq-can_access_ns :
    (db : Db) (session : Session) (r : Request) (ns : String) (c : Cluster)
    → (session.user_id == "") ≡ false
    → cluster_row db session.cluster_id ≡ some c
    → c.ns_auth_mode ≡ "allowlist"
    → r.namespace ≡ some ns
    → is_level r.level ≡ true
    → (gate_k8s_session (prepare db) session r).0
      ≡ can_access_ns db session.user_id session.cluster_id ns r.level
unfolding prepare
gate_k8s_session-eq-can_access_ns db session r ns c named row mode asked level =
    gate_k8s_session-eq-allow (prepare db) session r c.ns_auth_mode named (listed row) mode level
    ∙ (rw asked (allow-prepare db session ns r.level c named row mode))
  where
    listed :
        cluster_row db session.cluster_id ≡ some c
        → (prepare db).cluster_mode session.cluster_id ≡ rows (some c.ns_auth_mode)
    listed e = rw e refl
