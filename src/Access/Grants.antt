-- ===== src/Access/Grants.antt =====
-- server/authz.mjs: the grants that a user has, and the decisions on a cluster and on a namespace.
-- A principal is its user's id, the empty text where it has none.
pub mod Best
pub mod Entitled
use aliangboard.Base.{
  String, Bool, true, false, not, ◌&&◌, ◌||◌, Option, none, some, List, [], ◌∷◌, ◌++◌, ◌==◌,
  if◌then◌else◌, filter, find, any, lookup, insert, get_or,
}
use aliangboard.Access.Store.{
  Db, User, Cluster, Assignment, Grant, active_user, cluster_row, is_assigned, group_grants,
}
use aliangboard.Access.Levels.{is_better, is_enough}

-- What `effectiveGrants` keeps for one cluster: its mode, and a level for each namespace.
pub record Entry : Type 0 where
  pub mode : String
  pub ns : List (String × String)

pub data Clusters : Type 0 where
  all_clusters : Clusters
  mapped : List (String × Entry) → Clusters

pub record Grants : Type 0 where
  pub role : String
  pub clusters : Clusters

-- The rows of `user_clusters` joined with `clusters`, as `(id, mode)`.
abbrev pub matching : String → List Cluster → List (String × String)
matching id [] = []
matching id (c ∷ cs) =
    if c.id == id then (c.id, c.ns_auth_mode) ∷ matching id cs else matching id cs

unfoldable pub cluster_rows : String → List Assignment → List Cluster → List (String × String)
cluster_rows user_id [] cs = []
cluster_rows user_id (a ∷ as') cs =
    if a.user_id == user_id
    then matching a.cluster_id cs ++ cluster_rows user_id as' cs
    else cluster_rows user_id as' cs

-- `for (…) clusters.set(id, { mode, ns: new Map() })`
unfoldable pub add_clusters : List (String × Entry) → List (String × String) → List (String × Entry)
add_clusters m [] = m
add_clusters m ((id, mode) ∷ rows) =
    add_clusters (insert id (record { mode = mode; ns = [] }) m) rows

-- Grants to the user, then grants to the user's groups.
unfoldable pub grant_rows : Db → String → List Grant
grant_rows db user_id =
    filter (λ g. g.subject_type == "user" && g.subject_id == user_id) db.grants
    ++ group_grants (λ _. true) user_id db.members db.grants

abbrev pub add_level : String → String → List (String × String) → List (String × String)
add_level ns level m = if is_better (lookup ns m) level then insert ns level m else m

-- One round of the loop over the grants; a grant on a cluster that is not assigned is skipped.
abbrev pub add_grant : List (String × Entry) → Grant → List (String × Entry)
add_grant m g = elim (lookup g.cluster_id m) [
  | none ↦ m
  | some entry ↦
      insert g.cluster_id (record entry { ns = add_level g.namespace g.level entry.ns }) m
]

unfoldable pub add_grants : List (String × Entry) → List Grant → List (String × Entry)
add_grants m [] = m
add_grants m (g ∷ gs) = add_grants (add_grant m g) gs

unfoldable pub cluster_grants : Db → String → List (String × Entry)
cluster_grants db user_id =
    add_grants (add_clusters [] (cluster_rows user_id db.assignments db.clusters))
      (grant_rows db user_id)

unfoldable pub effective_grants : Db → String → Grants
effective_grants db user_id =
    if user_id == ""
    then record { role = "user"; clusters = mapped [] }
    else elim (active_user db user_id) [
      | none ↦ record { role = "user"; clusters = mapped [] }
      | some u ↦
          if u.role == "admin"
          then record { role = "admin"; clusters = all_clusters }
          else record { role = "user"; clusters = mapped (cluster_grants db user_id) }
    ]

unfoldable pub can_access_cluster : Db → String → String → Bool
can_access_cluster db user_id cluster_id =
    if user_id == "" then false else elim (active_user db user_id) [
      | none ↦ false
      | some u ↦ if u.role == "admin" then true else is_assigned db user_id cluster_id
    ]

-- `effectiveGrants(db, principal).clusters.get(clusterId)`; the code reads it for no admin.
abbrev pub get_cluster : Clusters → String → Option Entry
get_cluster all_clusters cluster_id = none
get_cluster (mapped m) cluster_id = lookup cluster_id m

abbrev pub get_level : Option Entry → String → Option String
get_level none ns = none
get_level (some entry) ns = lookup ns entry.ns

-- `cluster?.nsAuthMode || 'open'`
abbrev pub mode_of : Option Cluster → String
mode_of none = "open"
mode_of (some c) = if c.ns_auth_mode == "" then "open" else c.ns_auth_mode

-- `row.role === 'admin'`, after `canAccessCluster` has found the row.
abbrev pub is_admin : Option User → Bool
is_admin none = false
is_admin (some u) = u.role == "admin"

unfoldable pub can_access_ns : Db → String → String → String → String → Bool
can_access_ns db user_id cluster_id ns need =
    if not (can_access_cluster db user_id cluster_id)
    then false
    else if is_admin (active_user db user_id)
    then true
    else if mode_of (cluster_row db cluster_id) == "open"
    then true
    else is_enough (get_level (get_cluster (effective_grants db user_id).clusters cluster_id) ns)
        need
