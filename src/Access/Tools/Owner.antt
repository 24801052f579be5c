-- ===== src/Access/Tools/Owner.antt =====
-- The check of a session's owner (server/session-guard.mjs) held to the access to its cluster.
use aliangboard.Base.{
  String, ◌≡◌, refl, ap, sym, inl, inr, Bool, true, false, not, ◌&&◌, none, some, List, [], ◌∷◌,
  ◌==◌, eq_iff, if◌then◌else◌, find, All, arith, Bool-cases, Option-cases,
}
use aliangboard.Access.Store.{Db, User, active_user}
use aliangboard.Access.Grants.{can_access_cluster}
use aliangboard.Access.Tools.{user_row, session_owner_valid}

-- Where every row of an id is one disabled row, no row of it is enabled.
find_disabled :
    (uid : String) (us : List User) (u : User)
    → All (λ v. v.id ≡ uid → v ≡ u) us
    → u.disabled ≡ true
    → find (λ v. v.id == uid && not v.disabled) us ≡ none
find_disabled uid [] u h off = refl
find_disabled uid (v ∷ us) u (same, h) off = elim (Bool-cases (v.id == uid)) [
  | inl it ↦
      rw (it, ap (λ w. w.disabled) (same ((eq_iff v.id uid).0 it)), off)
        (find_disabled uid us u h off)
  | inr other ↦ rw other (find_disabled uid us u h off)
]

find_active :
    (uid : String) (us : List User) (u : User)
    → All (λ v. v.id ≡ uid → v ≡ u) us
    → find (λ v. v.id == uid) us ≡ some u
    → find (λ v. v.id == uid && not v.disabled) us ≡ (if u.disabled then none else some u)
find_active uid [] u h e = cc
find_active uid (v ∷ us) u (same, h) e = elim (Bool-cases (v.id == uid)) [
  | inl it ↦
      let first : v ≡ u = same ((eq_iff v.id uid).0 it) in
      by_flag v.disabled it first (ap (λ w. w.disabled) first)
  | inr other ↦ ground (arith, find_active uid us u h)
]
  where
    by_flag :
        (b : Bool)
        → (v.id == uid) ≡ true
        → v ≡ u
        → b ≡ u.disabled
        → (if v.id == uid && not b then some v else find (λ w. w.id == uid && not w.disabled) us)
          ≡ (if u.disabled then none else some u)
    by_flag true it first flag = rw (it, sym flag) (find_disabled uid us u h (sym flag))
    by_flag false it first flag = ground (arith, it, flag, ap some first)

find_missing :
    (uid : String) (us : List User)
    → find (λ v. v.id == uid) us ≡ none
    → find (λ v. v.id == uid && not v.disabled) us ≡ none
find_missing uid [] e = refl
find_missing uid (v ∷ us) e = ground (arith, find_missing uid us)

-- Where users' ids are a key, a session with an owner and a cluster is valid exactly when the owner
-- has access to the cluster.
pub session_owner_valid-eq-can_access_cluster :
    (db : Db) (uid cid : String)
    → (uid == "") ≡ false
    → (cid == "") ≡ false
    → ((u : User) → user_row db uid ≡ some u → All (λ v. v.id ≡ uid → v ≡ u) db.users)
    → session_owner_valid db uid cid ≡ can_access_cluster db uid cid
unfolding session_owner_valid can_access_cluster user_row active_user
session_owner_valid-eq-can_access_cluster db uid cid named bound key =
    elim (Option-cases (find (λ v. v.id == uid) db.users)) [
      | inl missing ↦ ground (arith, find_missing uid db.users missing)
      | inr (u, found) ↦ ground (arith, find_active uid db.users u (key u found) found)
    ]
