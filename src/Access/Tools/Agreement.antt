-- ===== src/Access/Tools/Agreement.antt =====
-- The list of namespaces that a tool shows agrees with the check that guards each of them.
pub mod Modes
use aliangboard.Base.{
  String, ◌≡◌, refl, ap, sym, subst, ◌∙◌, ◌⊎◌, inl, inr, Bool, true, false, not, ◌&&◌, ◌||◌, Option,
  none, some, List, [], ◌∷◌, ◌==◌, eq_iff, if◌then◌else◌, contains, keys, contains-keys, find,
  filter, lookup, insert, lookup-insert, is_some, Any, All, All-append, All-filter, arith,
  Bool-cases, Option-cases,
}
use aliangboard.Access.Store.{
  Db, User, Cluster, Assignment, Grant, active_user, cluster_row, is_assigned,
}
use aliangboard.Access.Levels.{
  is_enough, level_rank, IsLevel, IsLevelIfAny, level_rank_of_IsLevel, raise, raise-IsLevel,
  best_level,
}
use aliangboard.Access.Grants.{
  Entry, matching, cluster_rows, add_grant, add_clusters, cluster_grants, add_grants,
  effective_grants, grant_rows, get_level, get_cluster, can_access_ns, can_access_cluster, is_admin,
  mode_of,
}
use aliangboard.Access.Grants.Best.{
  on_cluster, get_level-effective_grants, lookup-add_grant, raised, is_some-add_clusters,
  add_grants-none, any-cluster_rows,
}
use aliangboard.Access.Grants.Entitled.{can_access_ns-eq-best, All-grant_rows}
use aliangboard.Access.Tools.{
  tool_check, tool_namespaces, passes, entry_namespaces, user_row, session_owner_valid,
}
use aliangboard.Access.Tools.Agreement.Modes.{
  HasMode, IsKey, cluster_grants-HasMode, cluster_grants-none, cluster_grants-some,
}

-- A namespace is shown: there is no restriction, or it is listed.
abbrev pub is_shown : Option (List String) → String → Bool
is_shown none ns = true
is_shown (some names) ns = contains names ns

best_level-IsLevel :
    (ns : String) (best : Option String) (gs : List Grant)
    → IsLevelIfAny best
    → All (λ g. IsLevel g.level) gs
    → IsLevelIfAny (best_level ns best gs)
unfolding best_level
best_level-IsLevel ns best [] b h = b
best_level-IsLevel ns best (g ∷ gs) b (l, h) = elim (Bool-cases (g.namespace == ns)) [
  | inl same ↦
      rw same (best_level-IsLevel ns (raise best g.level) gs (raise-IsLevel best g.level b l) h)
  | inr other ↦ rw other (best_level-IsLevel ns best gs b h)
]

-- Any level at all is enough to view.
is_enough_view : (best : Option String) → IsLevelIfAny best → is_enough best "view" ≡ is_some best
is_enough_view none b = refl
is_enough_view (some level) b = ground (arith, level_rank_of_IsLevel level b)

module _ (db : Db) (uid cid ns : String) (u : User) (c : Cluster) (named : (uid == "") ≡ false)
    (row : cluster_row db cid ≡ some c) (key : IsKey cid c.ns_auth_mode db.clusters)
    (active : active_user db uid ≡ some u) (plain : (u.role == "admin") ≡ false)
    (levels : All (λ g. IsLevel g.level) db.grants) where
  effective-plain :
      get_cluster (effective_grants db uid).clusters cid ≡ lookup cid (cluster_grants db uid)
  unfolding effective_grants
  effective-plain = rw (named, active, plain) refl

  -- In allowlist mode: the listed namespaces are those with any level at all.
  allowlist_agrees :
      c.ns_auth_mode ≡ "allowlist"
      → is_shown (entry_namespaces (lookup cid (cluster_grants db uid))) ns
        ≡ can_access_ns db uid cid ns "view"
  allowlist_agrees mode = elim (Bool-cases (is_assigned db uid cid)) [
    | inr unassigned ↦ ground (
      arith,
      cluster_grants-none db uid cid unassigned,
      can_access_ns-eq-best db uid cid ns "view" u c named row mode active plain,
    )
    | inl assigned ↦
        let (e, found) = cluster_grants-some db uid cid c row assigned in
        let has : HasMode c.ns_auth_mode (some e) =
          rw found at (cluster_grants-HasMode db uid cid c.ns_auth_mode key) in
        let best = best_level ns none (on_cluster cid (grant_rows db uid)) in
        let held : lookup ns e.ns ≡ best =
          ap (λ o. get_level o ns) (sym found ∙ sym effective-plain)
          ∙ get_level-effective_grants db uid cid ns u c named active plain row assigned in
        let enough = is_enough_view best (
          best_level-IsLevel ns none (on_cluster cid (grant_rows db uid)) tt (
            All-filter (λ g. IsLevel g.level) (λ g. g.cluster_id == cid) (grant_rows db uid)
              (All-grant_rows (λ g. IsLevel g.level) db uid levels))) in
        let listed : is_shown (entry_namespaces (some e)) ns ≡ contains (keys e.ns) ns =
          ground (arith, eq_iff e.mode "open", ap (λ m. m == "open") (has ∙ mode)) in
        ap (λ o. is_shown (entry_namespaces o) ns) found
        ∙ (listed
            ∙ (contains-keys ns e.ns
                ∙ (ap is_some held
                    ∙ (sym enough
                        ∙ sym (
                            can_access_ns-eq-best db uid cid ns "view" u c named row mode active
                              plain
                            ∙ rw assigned refl)))))
  ]

  -- In open mode nothing is hidden from those who are assigned.
  open_agrees :
      c.ns_auth_mode ≡ "open"
      → is_shown (entry_namespaces (lookup cid (cluster_grants db uid))) ns
        ≡ can_access_ns db uid cid ns "view"
  unfolding can_access_ns can_access_cluster
  open_agrees mode = elim (Bool-cases (is_assigned db uid cid)) [
    | inr unassigned ↦ ground (arith, cluster_grants-none db uid cid unassigned)
    | inl assigned ↦
        let (e, found) = cluster_grants-some db uid cid c row assigned in
        let has : HasMode c.ns_auth_mode (some e) =
          rw found at (cluster_grants-HasMode db uid cid c.ns_auth_mode key) in
        ground (
          arith,
          ap (λ m. m == "open") (has ∙ mode),
          ap (λ m. m == "open") mode,
          ap (λ m. m == "") mode,
        )
  ]

  plain_agrees :
      (c.ns_auth_mode ≡ "allowlist") ⊎ (c.ns_auth_mode ≡ "open")
      → (cid == "") ≡ false
      → is_shown (tool_namespaces db uid cid) ns ≡ can_access_ns db uid cid ns "view"
  unfolding tool_namespaces effective_grants
  plain_agrees mode bound = rw (bound, named, active, plain) (by_mode mode)
    where
      by_mode :
          (c.ns_auth_mode ≡ "allowlist") ⊎ (c.ns_auth_mode ≡ "open")
          → is_shown (entry_namespaces (lookup cid (cluster_grants db uid))) ns
            ≡ can_access_ns db uid cid ns "view"
      by_mode (inl m) = allowlist_agrees m
      by_mode (inr m) = open_agrees m

module _ (db : Db) (uid cid ns : String) where
  -- One who is no active user is shown nothing and may view nothing.
  missing_agrees :
      (cid == "") ≡ false
      → (uid == "") ≡ false
      → active_user db uid ≡ none
      → is_shown (tool_namespaces db uid cid) ns ≡ can_access_ns db uid cid ns "view"
  unfolding tool_namespaces effective_grants can_access_ns can_access_cluster
  missing_agrees bound named missing = rw (bound, named, missing) refl

  anonymous_agrees :
      (cid == "") ≡ false
      → (uid == "") ≡ true
      → is_shown (tool_namespaces db uid cid) ns ≡ can_access_ns db uid cid ns "view"
  unfolding tool_namespaces effective_grants can_access_ns can_access_cluster
  anonymous_agrees bound nobody = rw (bound, nobody) refl

  admin_agrees :
      (u : User)
      → (cid == "") ≡ false
      → (uid == "") ≡ false
      → active_user db uid ≡ some u
      → (u.role == "admin") ≡ true
      → is_shown (tool_namespaces db uid cid) ns ≡ can_access_ns db uid cid ns "view"
  unfolding tool_namespaces effective_grants can_access_ns can_access_cluster
  admin_agrees u bound named active admin = rw (bound, named, active, admin) refl

bound_agrees :
    (db : Db) (uid cid ns : String) (c : Cluster)
    → cluster_row db cid ≡ some c
    → IsKey cid c.ns_auth_mode db.clusters
    → All (λ g. IsLevel g.level) db.grants
    → (c.ns_auth_mode ≡ "allowlist") ⊎ (c.ns_auth_mode ≡ "open")
    → (cid == "") ≡ false
    → is_shown (tool_namespaces db uid cid) ns ≡ can_access_ns db uid cid ns "view"
bound_agrees db uid cid ns c row key levels mode bound = elim (Bool-cases (uid == "")) [
  | inl nobody ↦ anonymous_agrees db uid cid ns bound nobody
  | inr named ↦ elim (Option-cases (active_user db uid)) [
    | inl missing ↦ missing_agrees db uid cid ns bound named missing
    | inr (u, active) ↦ elim (Bool-cases (u.role == "admin")) [
      | inl admin ↦ admin_agrees db uid cid ns u bound named active admin
      | inr plain ↦ plain_agrees db uid cid ns u c named row key active plain levels mode bound
    ]
  ]
]

-- On a cluster that is in the table under one mode, open or allowlist, `namespaces()` shows a
-- namespace exactly when `check` lets the principal view it, whoever the principal is.
pub tool_namespaces-tool_check :
    (db : Db) (uid cid ns tool : String) (c : Cluster)
    → cluster_row db cid ≡ some c
    → (c.ns_auth_mode ≡ "allowlist") ⊎ (c.ns_auth_mode ≡ "open")
    → IsKey cid c.ns_auth_mode db.clusters
    → All (λ g. IsLevel g.level) db.grants
    → is_shown (tool_namespaces db uid cid) ns ≡ passes (tool_check db uid cid ns "view" tool)
unfolding tool_namespaces tool_check
tool_namespaces-tool_check db uid cid ns tool c row mode key levels =
    elim (Bool-cases (cid == "")) [
      | inl blank ↦ ground arith
      | inr bound ↦ ground (arith, bound_agrees db uid cid ns c row key levels mode bound)
    ]
