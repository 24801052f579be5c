-- ===== src/Access/Grants/Best.antt =====
-- The level that `effectiveGrants` keeps for a namespace is the best one of the grants on it.
use aliangboard.Base.{
  String, ◌≡◌, subst, refl, ap, ◌∙◌, Bool, true, false, ◌&&◌, ◌||◌, Option, none, some, List, [],
  ◌∷◌, ◌==◌, eq_iff, if◌then◌else◌, filter, find, any, any-append, lookup, insert, lookup-insert,
  is_some, arith, Bool-cases, Option-cases, inl, inr, All,
}
use aliangboard.Access.Store.{
  Db, User, Cluster, Assignment, Grant, active_user, is_assigned, cluster_row,
}
use aliangboard.Access.Levels.{
  is_enough, raise, level_rank, ge_rank, IsLevel, IsLevelIfAny, is_enough-raise, raise-IsLevel,
  best_level,
}
use aliangboard.Access.Grants.{
  Entry, cluster_rows, add_clusters, grant_rows, add_level, add_grant, add_grants, cluster_grants,
  effective_grants, get_level, get_cluster, matching,
}

abbrev pub on_cluster : String → List Grant → List Grant
on_cluster cluster_id = filter (λ g. g.cluster_id == cluster_id)

lookup-add_level :
    (k ns level : String) (m : List (String × String))
    → lookup k (add_level ns level m) ≡ (if ns == k then raise (lookup k m) level else lookup k m)
lookup-add_level k ns level m = ground (arith, lookup-insert ns k level m, eq_iff ns k)

abbrev pub raised : Grant → Option Entry → Option Entry
raised g none = none
raised g (some e) = some (record e { ns = add_level g.namespace g.level e.ns })

pub lookup-add_grant :
    (cid : String) (m : List (String × Entry)) (g : Grant)
    → lookup cid (add_grant m g)
      ≡ (if g.cluster_id == cid then raised g (lookup cid m) else lookup cid m)
lookup-add_grant cid m g = elim (Option-cases (lookup g.cluster_id m)) [
  | inl absent ↦ elim (Bool-cases (g.cluster_id == cid)) [
    | inl same ↦ ground (arith, eq_iff g.cluster_id cid)
    | inr other ↦ ground arith
  ]
  | inr (e, present) ↦
      let next = record e { ns = add_level g.namespace g.level e.ns } in
      let law = lookup-insert g.cluster_id cid next m in
      elim (Bool-cases (g.cluster_id == cid)) [
        | inl same ↦
            let at_cid : lookup cid m ≡ some e =
              subst (λ c. lookup c m ≡ some e) ((eq_iff g.cluster_id cid).0 same) present in
            rw (present, add_grant) (law ∙ rw (same, at_cid) refl)
        | inr other ↦ rw (present, add_grant) (law ∙ rw other refl)
      ]
]

-- Grants on an unassigned cluster leave it out; those on an assigned one raise its levels in turn.
pub add_grants-none :
    (cid : String) (m : List (String × Entry)) (gs : List Grant)
    → lookup cid m ≡ none
    → lookup cid (add_grants m gs) ≡ none
unfolding add_grants
add_grants-none cid m [] h = h
add_grants-none cid m (g ∷ gs) h =
    add_grants-none cid (add_grant m g) gs (ground (arith, lookup-add_grant cid m g))

pub add_grants-some :
    (cid ns : String) (m : List (String × Entry)) (gs : List Grant) (e : Entry)
    → lookup cid m ≡ some e
    → get_level (lookup cid (add_grants m gs)) ns
      ≡ best_level ns (lookup ns e.ns) (on_cluster cid gs)
unfolding add_grants best_level
add_grants-some cid ns m [] e h = rw h refl
add_grants-some cid ns m (g ∷ gs) e h = elim (Bool-cases (g.cluster_id == cid)) [
  | inl same ↦
      let next = record e { ns = add_level g.namespace g.level e.ns } in
      let found : lookup cid (add_grant m g) ≡ some next =
        lookup-add_grant cid m g ∙ rw (same, h) refl in
      rw same (
        add_grants-some cid ns (add_grant m g) gs next found
        ∙ ap (λ b. best_level ns b (on_cluster cid gs))
            (lookup-add_level ns g.namespace g.level e.ns))
  | inr other ↦
      rw other (
        add_grants-some cid ns (add_grant m g) gs e (lookup-add_grant cid m g ∙ rw (other, h) refl))
]

abbrev Fresh : Option Entry → Type 0
Fresh none = Unit
Fresh (some e) = e.ns ≡ []

Fresh-insert :
    (cid id mode : String) (m : List (String × Entry))
    → Fresh (lookup cid m)
    → Fresh (lookup cid (insert id (record { mode = mode; ns = [] }) m))
Fresh-insert cid id mode m h =
    rw (lookup-insert id cid (record { mode = mode; ns = [] }) m) (go (id == cid))
  where
    go : (b : Bool) → Fresh (if b then some (record { mode = mode; ns = [] }) else lookup cid m)
    go true = refl
    go false = h

add_clusters-Fresh :
    (cid : String) (m : List (String × Entry)) (rows : List (String × String))
    → Fresh (lookup cid m)
    → Fresh (lookup cid (add_clusters m rows))
unfolding add_clusters
add_clusters-Fresh cid m [] h = h
add_clusters-Fresh cid m ((id, mode) ∷ rows) h =
    add_clusters-Fresh cid (insert id (record { mode = mode; ns = [] }) m) rows
      (Fresh-insert cid id mode m h)

pub is_some-add_clusters :
    (cid : String) (m : List (String × Entry)) (rows : List (String × String))
    → is_some (lookup cid (add_clusters m rows))
      ≡ (is_some (lookup cid m) || any (λ r. r.0 == cid) rows)
unfolding add_clusters
is_some-add_clusters cid m [] = ground arith
is_some-add_clusters cid m ((id, mode) ∷ rows) = ground (
  arith,
  is_some-add_clusters cid (insert id (record { mode = mode; ns = [] }) m) rows,
  lookup-insert id cid (record { mode = mode; ns = [] }) m,
)

any-matching :
    (cid id : String) (cs : List Cluster)
    → any (λ r. r.0 == cid) (matching id cs) ≡ (id == cid && is_some (find (λ c. c.id == cid) cs))
any-matching cid id [] = ground arith
any-matching cid id (c ∷ cs) =
    ground (arith, any-matching cid id cs, eq_iff id cid, eq_iff c.id cid, eq_iff c.id id)

pub any-cluster_rows :
    (uid cid : String) (as' : List Assignment) (cs : List Cluster)
    → any (λ r. r.0 == cid) (cluster_rows uid as' cs) ≡ (
        any (λ a. a.user_id == uid && a.cluster_id == cid) as'
        && is_some (find (λ c. c.id == cid) cs))
unfolding cluster_rows
any-cluster_rows uid cid [] cs = refl
any-cluster_rows uid cid (a ∷ as') cs = ground (
  arith,
  any-cluster_rows uid cid as' cs,
  any-matching cid a.cluster_id cs,
  any-append (λ (r : String × String). r.0 == cid) (matching a.cluster_id cs)
      (cluster_rows uid as' cs),
)

or_assoc : (a b c : Bool) → ((a || b) || c) ≡ (a || (b || c))
or_assoc a b c = ground arith

-- Where the code takes a grant in, one that is enough, or what was held before, decides.
pub is_enough-best_level :
    (ns need : String) (best : Option String) (gs : List Grant)
    → IsLevelIfAny best
    → IsLevel need
    → All (λ g. IsLevel g.level) gs
    → is_enough (best_level ns best gs) need ≡ (
        is_enough best need
        || any (λ g. g.namespace == ns && ge_rank (level_rank g.level) (level_rank need)) gs)
unfolding best_level
is_enough-best_level ns need best [] b n ls = ground arith
is_enough-best_level ns need best (g ∷ gs) b n (l, ls) = elim (Bool-cases (g.namespace == ns)) [
  | inl same ↦
      let up = raise-IsLevel best g.level b l in
      rw same (
        is_enough-best_level ns need (raise best g.level) gs up n ls
        ∙ rw (is_enough-raise best g.level need b l n) (or_assoc (is_enough best need) _ _))
  | inr other ↦ rw other (is_enough-best_level ns need best gs b n ls)
]

-- On a cluster that exists and is assigned to an active user who is no admin, the level that
-- `effectiveGrants` holds for a namespace is the best of the user's grants on it.
pub get_level-effective_grants :
    (db : Db) (uid cid ns : String) (u : User) (c : Cluster)
    → (uid == "") ≡ false
    → active_user db uid ≡ some u
    → (u.role == "admin") ≡ false
    → cluster_row db cid ≡ some c
    → is_assigned db uid cid ≡ true
    → get_level (get_cluster (effective_grants db uid).clusters cid) ns
      ≡ best_level ns none (on_cluster cid (grant_rows db uid))
unfolding effective_grants cluster_grants is_assigned cluster_row
get_level-effective_grants db uid cid ns u c named active plain row assigned =
    let rows = cluster_rows uid db.assignments db.clusters in
    let m = add_clusters [] rows in
    let present : is_some (lookup cid m) ≡ true =
      is_some-add_clusters cid [] rows
      ∙ (any-cluster_rows uid cid db.assignments db.clusters ∙ rw (assigned, row) refl) in
    rw (named, active, plain)
      (elim (Option-cases (lookup cid m)) [
        | inl missing ↦ ground arith
        | inr (e, found) ↦
            let empty : e.ns ≡ [] = subst Fresh found (add_clusters-Fresh cid [] rows tt) in
            add_grants-some cid ns m (grant_rows db uid) e found ∙ rw empty refl
      ])
