-- ===== src/Access/Grants/Entitled.antt =====
-- Who may act on a namespace, said from the tables alone, and `canAccessNs` held to it.
use aliangboard.Base.{
  String, ◌≡◌, refl, ap, ap₂, ◌∙◌, ◌↔◌, ◌⊎◌, inl, inr, Bool, true, false, ◌&&◌, ◌||◌, none, some,
  List, [], ◌∷◌, ◌==◌, eq_iff, filter, any, any-append, any-filter, any-or, any-cong, any_iff,
  any_iff_All, Any, All-map, All, All-append, All-filter, arith, Bool-cases,
}
use aliangboard.Access.Store.{
  Db, User, Cluster, Grant, Member, Assignment, active_user, cluster_row, is_assigned, joined,
  group_grants,
}
use aliangboard.Access.Levels.{IsLevel, is_enough, level_rank, ge_rank, best_level}
use aliangboard.Access.Grants.{can_access_ns, can_access_cluster, grant_rows}
use aliangboard.Access.Grants.Best.{on_cluster, get_level-effective_grants, is_enough-best_level}

-- `operate` covers both levels, `view` itself.
abbrev pub Covers : String → String → Type 0
Covers level need = (level ≡ "operate") ⊎ (need ≡ "view")

abbrev pub IsGrantee : Db → String → Grant → Type 0
IsGrantee db uid g =
    ((g.subject_type ≡ "user") × (g.subject_id ≡ uid))
    ⊎ ((g.subject_type ≡ "group")
        × Any (λ (m : Member). (m.group_id ≡ g.subject_id) × (m.user_id ≡ uid)) db.members)

abbrev pub IsGrantOn : String → String → String → Grant → Type 0
IsGrantOn cid ns need g = (g.cluster_id ≡ cid) × (g.namespace ≡ ns) × Covers g.level need

-- The user is assigned to the cluster, and a grant to the user or to a group of the user covers
-- the level on the namespace.
pub record Entitled (db : Db) (uid cid ns need : String) : Type 0 where
  pub assigned : Any (λ (a : Assignment). (a.user_id ≡ uid) × (a.cluster_id ≡ cid)) db.assignments
  pub grant : Any (λ g. IsGrantOn cid ns need g × IsGrantee db uid g) db.grants

covers : String → String → Bool
covers level need = ge_rank (level_rank level) (level_rank need)

is_member : String → List Member → Grant → Bool
is_member uid ms g = any (λ m. m.group_id == g.subject_id && m.user_id == uid) ms

any-joined :
    (p : Grant → Bool) (g : Grant) (uid : String) (ms : List Member)
    → any p (joined g uid ms) ≡ (is_member uid ms g && p g)
unfolding is_member
any-joined p g uid [] = refl
any-joined p g uid (m ∷ ms) = ground (arith, any-joined p g uid ms)

any-group_grants :
    (p : Grant → Bool) (uid : String) (ms : List Member) (gs : List Grant)
    → any p (group_grants (λ _. true) uid ms gs)
      ≡ any (λ g. (g.subject_type == "group" && is_member uid ms g) && p g) gs
any-group_grants p uid ms [] = refl
any-group_grants p uid ms (g ∷ gs) = ground (
  arith,
  any-group_grants p uid ms gs,
  any-joined p g uid ms,
  any-append p (joined g uid ms) (group_grants (λ _. true) uid ms gs),
)

is_grantee : Db → String → Grant → Bool
is_grantee db uid g =
    (g.subject_type == "user" && g.subject_id == uid)
    || (g.subject_type == "group" && is_member uid db.members g)

any-grant_rows :
    (p : Grant → Bool) (db : Db) (uid : String)
    → any p (grant_rows db uid)
      ≡ any
          (λ g.
            ((g.subject_type == "user" && g.subject_id == uid) && p g)
            || ((g.subject_type == "group" && is_member uid db.members g) && p g))
          db.grants
unfolding grant_rows
any-grant_rows p db uid =
    let direct = λ (g : Grant). g.subject_type == "user" && g.subject_id == uid in
    let grouped = λ (g : Grant). g.subject_type == "group" && is_member uid db.members g in
    any-append p (filter direct db.grants) (group_grants (λ _. true) uid db.members db.grants)
    ∙ (ap₂ (λ a b. a || b) (any-filter p direct db.grants)
          (any-group_grants p uid db.members db.grants)
        ∙ any-or (λ g. direct g && p g) (λ g. grouped g && p g) db.grants)

All-joined :
    (P : Grant → Type 0) (g : Grant) (uid : String) (ms : List Member)
    → P g
    → All P (joined g uid ms)
All-joined P g uid [] h = tt
All-joined P g uid (m ∷ ms) h = elim (Bool-cases (m.group_id == g.subject_id && m.user_id == uid)) [
  | inl yes_m ↦ rw yes_m (h, All-joined P g uid ms h)
  | inr no_m ↦ rw no_m (All-joined P g uid ms h)
]

All-group_grants :
    (P : Grant → Type 0) (uid : String) (ms : List Member) (gs : List Grant)
    → All P gs
    → All P (group_grants (λ _. true) uid ms gs)
All-group_grants P uid ms [] h = tt
All-group_grants P uid ms (g ∷ gs) (p, h) = elim (Bool-cases (g.subject_type == "group" && true)) [
  | inl group ↦ rw group (
      All-append P (joined g uid ms) (group_grants (λ _. true) uid ms gs) (All-joined P g uid ms p)
        (All-group_grants P uid ms gs h))
  | inr other ↦ rw other (All-group_grants P uid ms gs h)
]

pub All-grant_rows :
    (P : Grant → Type 0) (db : Db) (uid : String) → All P db.grants → All P (grant_rows db uid)
unfolding grant_rows
All-grant_rows P db uid h =
    All-append P _ (group_grants (λ _. true) uid db.members db.grants)
      (All-filter P (λ g. g.subject_type == "user" && g.subject_id == uid) db.grants h)
      (All-group_grants P uid db.members db.grants h)

covers_iff :
    (level need : String)
    → IsLevel level
    → IsLevel need
    → (covers level need ≡ true) ↔ Covers level need
unfolding covers
covers_iff level need l n =
    ground (
      arith,
      eq_iff level "operate",
      eq_iff need "view",
      eq_iff level "view",
      eq_iff need "operate",
    )

is_member_iff :
    (db : Db) (uid : String) (g : Grant)
    → (is_member uid db.members g ≡ true)
      ↔ Any (λ (m : Member). (m.group_id ≡ g.subject_id) × (m.user_id ≡ uid)) db.members
unfolding is_member
is_member_iff db uid g =
    any_iff (λ m. m.group_id == g.subject_id && m.user_id == uid)
      (λ m. (m.group_id ≡ g.subject_id) × (m.user_id ≡ uid))
      (λ m. ground (arith, eq_iff m.group_id g.subject_id, eq_iff m.user_id uid)) db.members

-- One row of the grants is enough exactly when it entitles the user.
grant_iff :
    (db : Db) (uid cid ns need : String) (g : Grant)
    → IsLevel g.level
    → IsLevel need
    → ((g.cluster_id == cid && (g.namespace == ns && covers g.level need)) && is_grantee db uid g
        ≡ true)
      ↔ (IsGrantOn cid ns need g × IsGrantee db uid g)
unfolding is_grantee
grant_iff db uid cid ns need g l n = ground (
  arith,
  is_member_iff db uid g,
  covers_iff g.level need l n,
  eq_iff g.cluster_id cid,
  eq_iff g.namespace ns,
  eq_iff g.subject_type "user",
  eq_iff g.subject_id uid,
  eq_iff g.subject_type "group",
)

-- The Boolean that the code computes, as one test on each row of the grants.
row_test : Db → String → String → String → String → Grant → Bool
row_test db uid cid ns need g =
    (g.cluster_id == cid && (g.namespace == ns && covers g.level need)) && is_grantee db uid g

any-row_test :
    (db : Db) (uid cid ns need : String)
    → any
        (λ g. g.namespace == ns && ge_rank (level_rank g.level) (level_rank need))
        (on_cluster cid (grant_rows db uid))
      ≡ any (row_test db uid cid ns need) db.grants
unfolding row_test is_grantee covers
any-row_test db uid cid ns need =
    let p = λ (g : Grant). g.namespace == ns && ge_rank (level_rank g.level) (level_rank need) in
    let here_p = λ (g : Grant). g.cluster_id == cid && p g in
    any-filter p (λ g. g.cluster_id == cid) (grant_rows db uid)
    ∙ (any-grant_rows here_p db uid ∙ any-cong _ _ (λ g. ground arith) db.grants)

row_test_iff :
    (db : Db) (uid cid ns need : String)
    → IsLevel need
    → All (λ g. IsLevel g.level) db.grants
    → (any (row_test db uid cid ns need) db.grants ≡ true)
      ↔ Any (λ g. IsGrantOn cid ns need g × IsGrantee db uid g) db.grants
unfolding row_test
row_test_iff db uid cid ns need n ls =
    any_iff_All (row_test db uid cid ns need) (λ g. IsGrantOn cid ns need g × IsGrantee db uid g)
      db.grants
      (All-map (λ g. IsLevel g.level)
        (λ g.
          (row_test db uid cid ns need g ≡ true) ↔ (IsGrantOn cid ns need g × IsGrantee db uid g))
        (λ g l. grant_iff db uid cid ns need g l n) db.grants ls)

assigned_iff :
    (db : Db) (uid cid : String)
    → (is_assigned db uid cid ≡ true)
      ↔ Any (λ (a : Assignment). (a.user_id ≡ uid) × (a.cluster_id ≡ cid)) db.assignments
unfolding is_assigned
assigned_iff db uid cid =
    any_iff (λ a. a.user_id == uid && a.cluster_id == cid)
      (λ a. (a.user_id ≡ uid) × (a.cluster_id ≡ cid))
      (λ a. ground (arith, eq_iff a.user_id uid, eq_iff a.cluster_id cid)) db.assignments

module _ (db : Db) (uid cid ns need : String) (u : User) (c : Cluster) (named : (uid == "") ≡ false)
    (row : cluster_row db cid ≡ some c) (mode : c.ns_auth_mode ≡ "allowlist")
    (active : active_user db uid ≡ some u) (plain : (u.role == "admin") ≡ false) where
  pub can_access_ns-eq-best : can_access_ns db uid cid ns need ≡ (
      is_assigned db uid cid
      && is_enough (best_level ns none (on_cluster cid (grant_rows db uid))) need)
  unfolding can_access_ns can_access_cluster
  can_access_ns-eq-best = elim (Bool-cases (is_assigned db uid cid)) [
    | inl assigned ↦ ground (
      arith,
      get_level-effective_grants db uid cid ns u c named active plain row assigned,
      ap (λ m. m == "open") mode,
      ap (λ m. m == "") mode,
    )
    | inr unassigned ↦ ground arith
  ]

  -- On a cluster in allowlist mode `canAccessNs` lets an active user who is no admin through
  -- exactly when the tables entitle the user: an assignment to the cluster, and a grant to the user
  -- or to one of the user's groups that covers the level on the namespace.
  pub can_access_ns_iff_Entitled :
      IsLevel need
      → All (λ g. IsLevel g.level) db.grants
      → (can_access_ns db uid cid ns need ≡ true) ↔ Entitled db uid cid ns need
  can_access_ns_iff_Entitled n ls =
      let decided =
        is_enough-best_level ns need none (on_cluster cid (grant_rows db uid)) tt n (
          All-filter (λ g. IsLevel g.level) (λ g. g.cluster_id == cid) (grant_rows db uid)
            (All-grant_rows (λ g. IsLevel g.level) db uid ls))
        ∙ any-row_test db uid cid ns need in
      let (to_assigned, from_assigned) = assigned_iff db uid cid in
      let (to_grant, from_grant) = row_test_iff db uid cid ns need n ls in
      (
        (λ h. record {
          assigned = to_assigned (ground (arith, can_access_ns-eq-best));
          grant = to_grant (ground (arith, can_access_ns-eq-best, decided));
        }),
        (λ e.
            ground (
              arith,
              can_access_ns-eq-best,
              decided,
              from_assigned e.assigned,
              from_grant e.grant,
            )),
      )
