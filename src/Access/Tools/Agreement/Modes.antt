-- ===== src/Access/Tools/Agreement/Modes.antt =====
-- The modes and the entries that `effectiveGrants` (server/authz.mjs) keeps for a cluster.
use aliangboard.Base.{
  String, ◌≡◌, refl, ◌∙◌, inl, inr, Bool, true, false, Option, none, some, List, [], ◌∷◌, ◌==◌,
  eq_iff, if◌then◌else◌, lookup, insert, lookup-insert, is_some, All, All-append, arith, Bool-cases,
  Option-cases,
}
use aliangboard.Access.Store.{Db, Cluster, Assignment, Grant, cluster_row, is_assigned}
use aliangboard.Access.Grants.{
  Entry, matching, cluster_rows, add_grant, add_clusters, cluster_grants, add_grants, grant_rows,
}
use aliangboard.Access.Grants.Best.{
  lookup-add_grant, raised, is_some-add_clusters, add_grants-none, any-cluster_rows,
}

-- The mode that `effectiveGrants` keeps for a cluster is the cluster's.
abbrev pub HasMode : String → Option Entry → Type 0
HasMode mode none = Unit
HasMode mode (some e) = e.mode ≡ mode

HasMode-insert :
    (cid mode id m' : String) (m : List (String × Entry))
    → (id ≡ cid → m' ≡ mode)
    → HasMode mode (lookup cid m)
    → HasMode mode (lookup cid (insert id (record { mode = m'; ns = [] }) m))
HasMode-insert cid mode id m' m same h = elim (Bool-cases (id == cid)) [
  | inl it ↦
      rw (lookup-insert id cid (record { mode = m'; ns = [] }) m, it) (same ((eq_iff id cid).0 it))
  | inr other ↦ rw (lookup-insert id cid (record { mode = m'; ns = [] }) m, other) h
]

add_clusters-HasMode :
    (cid mode : String) (m : List (String × Entry)) (rows : List (String × String))
    → All (λ r. r.0 ≡ cid → r.1 ≡ mode) rows
    → HasMode mode (lookup cid m)
    → HasMode mode (lookup cid (add_clusters m rows))
unfolding add_clusters
add_clusters-HasMode cid mode m [] same h = h
add_clusters-HasMode cid mode m ((id, m') ∷ rows) (s, same) h =
    add_clusters-HasMode cid mode (insert id (record { mode = m'; ns = [] }) m) rows same
      (HasMode-insert cid mode id m' m s h)

add_grants-HasMode :
    (cid mode : String) (m : List (String × Entry)) (gs : List Grant)
    → HasMode mode (lookup cid m)
    → HasMode mode (lookup cid (add_grants m gs))
unfolding add_grants
add_grants-HasMode cid mode m [] h = h
add_grants-HasMode cid mode m (g ∷ gs) h =
    add_grants-HasMode cid mode (add_grant m g) gs
      (rw (lookup-add_grant cid m g) (kept (g.cluster_id == cid) (lookup cid m) h))
  where
    kept :
        (b : Bool) (o : Option Entry) → HasMode mode o → HasMode mode (if b then raised g o else o)
    kept true none k = tt
    kept true (some e) k = k
    kept false o k = k

-- The rows of a cluster all have its mode: what a primary key gives.
abbrev pub IsKey : String → String → List Cluster → Type 0
IsKey cid mode = All (λ (c : Cluster). c.id ≡ cid → c.ns_auth_mode ≡ mode)

matching-All :
    (cid mode id : String) (cs : List Cluster)
    → IsKey cid mode cs
    → All (λ r. r.0 ≡ cid → r.1 ≡ mode) (matching id cs)
matching-All cid mode id [] h = tt
matching-All cid mode id (c ∷ cs) (k, h) = elim (Bool-cases (c.id == id)) [
  | inl same ↦ rw same (k, matching-All cid mode id cs h)
  | inr other ↦ rw other (matching-All cid mode id cs h)
]

cluster_rows-All :
    (cid mode uid : String) (as' : List Assignment) (cs : List Cluster)
    → IsKey cid mode cs
    → All (λ r. r.0 ≡ cid → r.1 ≡ mode) (cluster_rows uid as' cs)
unfolding cluster_rows
cluster_rows-All cid mode uid [] cs h = tt
cluster_rows-All cid mode uid (a ∷ as') cs h = elim (Bool-cases (a.user_id == uid)) [
  | inl mine ↦ rw mine (
      All-append (λ r. r.0 ≡ cid → r.1 ≡ mode) (matching a.cluster_id cs) (cluster_rows uid as' cs)
        (matching-All cid mode a.cluster_id cs h) (cluster_rows-All cid mode uid as' cs h))
  | inr other ↦ rw other (cluster_rows-All cid mode uid as' cs h)
]

pub cluster_grants-HasMode :
    (db : Db) (uid cid mode : String)
    → IsKey cid mode db.clusters
    → HasMode mode (lookup cid (cluster_grants db uid))
unfolding cluster_grants
cluster_grants-HasMode db uid cid mode h =
    add_grants-HasMode cid mode (add_clusters [] (cluster_rows uid db.assignments db.clusters))
      (grant_rows db uid)
      (add_clusters-HasMode cid mode [] (cluster_rows uid db.assignments db.clusters)
        (cluster_rows-All cid mode uid db.assignments db.clusters h) tt)

-- A cluster that is not assigned has no entry.
pub cluster_grants-none :
    (db : Db) (uid cid : String)
    → is_assigned db uid cid ≡ false
    → lookup cid (cluster_grants db uid) ≡ none
unfolding cluster_grants is_assigned
cluster_grants-none db uid cid h =
    let rows = cluster_rows uid db.assignments db.clusters in
    let m = add_clusters [] rows in
    let absent : is_some (lookup cid m) ≡ false =
      is_some-add_clusters cid [] rows
      ∙ (any-cluster_rows uid cid db.assignments db.clusters ∙ rw h refl) in
    add_grants-none cid m (grant_rows db uid) (ground arith)

add_grants-present :
    (cid : String) (m : List (String × Entry)) (gs : List Grant)
    → is_some (lookup cid m) ≡ true
    → (e : Entry) × (lookup cid (add_grants m gs) ≡ some e)
unfolding add_grants
add_grants-present cid m [] h = elim (Option-cases (lookup cid m)) [
  | inl missing ↦ absurd (ground arith)
  | inr there ↦ there
]
add_grants-present cid m (g ∷ gs) h =
    add_grants-present cid (add_grant m g) gs
      (rw (lookup-add_grant cid m g) (kept (g.cluster_id == cid) (lookup cid m) h))
  where
    kept :
        (b : Bool) (o : Option Entry)
        → is_some o ≡ true
        → is_some (if b then raised g o else o) ≡ true
    kept true none k = k
    kept true (some e) k = refl
    kept false o k = k

pub cluster_grants-some :
    (db : Db) (uid cid : String) (c : Cluster)
    → cluster_row db cid ≡ some c
    → is_assigned db uid cid ≡ true
    → (e : Entry) × (lookup cid (cluster_grants db uid) ≡ some e)
unfolding cluster_grants is_assigned cluster_row
cluster_grants-some db uid cid c row assigned =
    let rows = cluster_rows uid db.assignments db.clusters in
    let m = add_clusters [] rows in
    let present : is_some (lookup cid m) ≡ true =
      is_some-add_clusters cid [] rows
      ∙ (any-cluster_rows uid cid db.assignments db.clusters ∙ rw (assigned, row) refl) in
    elim (Option-cases (lookup cid m)) [
      | inl missing ↦ absurd (ground arith)
      | inr (e, found) ↦ add_grants-present cid m (grant_rows db uid) present
    ]
