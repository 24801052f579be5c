-- ===== src/Sessions/Reaper/Order.antt =====
-- The sessions of one user in the order of their last activity, as `enforceSessionCap` goes through
-- them.
use aliangboard.Base.{
  ℕ, suc, ◌≤◌, String, ◌≡◌, refl, ap, sym, ◌∙◌, not, Option, none, some, List, [], ◌∷◌, ◌==◌,
  eq_iff, if◌then◌else◌, filter, length, lookup, leb, All, All-map, arith, Bool-cases, inl, inr,
}
use aliangboard.Sessions.Store.{Record}
use aliangboard.Sessions.Reaper.{last_active, sessions_of, place, sort}
use aliangboard.Sessions.Reaper.Removal.{IsMap}

-- The times do not decrease.
abbrev pub IsSorted : List (String × ℕ) → Type 0
IsSorted [] = Unit
IsSorted (x ∷ xs) = All (λ y. x.1 ≤ y.1) xs × IsSorted xs

pub lookup-place :
    (x : String × ℕ) (xs : List (String × ℕ)) (t : String)
    → lookup x.0 xs ≡ none
    → lookup t (place x xs) ≡ (if x.0 == t then some x.1 else lookup t xs)
lookup-place x [] t fresh = refl
lookup-place x (y ∷ ys) t fresh = elim (Bool-cases (leb x.1 y.1)) [
  | inl first ↦ rw first refl
  | inr later ↦ rw later (elim (Bool-cases (y.0 == x.0)) [
    | inl same ↦ absurd (ground arith)
    | inr apart ↦
        let rest = lookup-place x ys t (rw apart at fresh) in
        ground (arith, rest, eq_iff y.0 x.0, eq_iff y.0 t, eq_iff x.0 t)
  ])
]

place-IsMap :
    (x : String × ℕ) (xs : List (String × ℕ)) → lookup x.0 xs ≡ none → IsMap xs → IsMap (place x xs)
place-IsMap x [] fresh h = (refl, tt)
place-IsMap x (y ∷ ys) fresh (new, h) = elim (Bool-cases (leb x.1 y.1)) [
  | inl first ↦ rw first (fresh, (new, h))
  | inr later ↦ rw later (elim (Bool-cases (y.0 == x.0)) [
    | inl same ↦ absurd (ground arith)
    | inr apart ↦
        let fresh_ys : lookup x.0 ys ≡ none = rw apart at fresh in
        (
          lookup-place x ys y.0 fresh_ys ∙ ground (arith, eq_iff x.0 y.0, eq_iff y.0 x.0),
          place-IsMap x ys fresh_ys h,
        )
  ])
]

place-All :
    (P : String × ℕ → Type 0) (x : String × ℕ) (xs : List (String × ℕ))
    → P x
    → All P xs
    → All P (place x xs)
place-All P x [] p h = (p, tt)
place-All P x (y ∷ ys) p (q, h) = elim (Bool-cases (leb x.1 y.1)) [
  | inl first ↦ rw first (p, (q, h))
  | inr later ↦ rw later (q, place-All P x ys p h)
]

place-IsSorted : (x : String × ℕ) (xs : List (String × ℕ)) → IsSorted xs → IsSorted (place x xs)
place-IsSorted x [] h = (tt, tt)
place-IsSorted x (y ∷ ys) (le, h) = elim (Bool-cases (leb x.1 y.1)) [
  | inl first ↦
      let at_most : x.1 ≤ y.1 = ground arith in
      rw first
        ((at_most, All-map (λ z. y.1 ≤ z.1) (λ z. x.1 ≤ z.1) (λ z k. omega arith) ys le), (le, h))
  | inr later ↦
      let at_least : y.1 ≤ x.1 = ground arith in
      rw later (place-All (λ z. y.1 ≤ z.1) x ys at_least le, place-IsSorted x ys h)
]

sort_lem :
    (xs : List (String × ℕ)) (t : String)
    → IsMap xs
    → (lookup t (sort xs) ≡ lookup t xs) × IsMap (sort xs) × IsSorted (sort xs)
sort_lem [] t h = (refl, tt, tt)
sort_lem (x ∷ xs) t (fresh, h) =
    let (at_t, _, _) = sort_lem xs t h in
    let (at_x, map, sorted) = sort_lem xs x.0 h in
    (
      lookup-place x (sort xs) t (at_x ∙ fresh) ∙ ap (λ o. if x.0 == t then some x.1 else o) at_t,
      place-IsMap x (sort xs) (at_x ∙ fresh) map,
      place-IsSorted x (sort xs) sorted,
    )

length-place : (x : String × ℕ) (xs : List (String × ℕ)) → length (place x xs) ≡ suc (length xs)
length-place x [] = refl
length-place x (y ∷ ys) = ground (arith, length-place x ys)

pub length-sort : (xs : List (String × ℕ)) → length (sort xs) ≡ length xs
length-sort [] = refl
length-sort (x ∷ xs) = ground (arith, length-place x (sort xs), length-sort xs)

-- The time of a user's session.
abbrev pub active_at : String → Option Record → Option ℕ
active_at user_id none = none
active_at user_id (some rec) = if rec.user_id == user_id then some (last_active rec) else none

pub lookup-sessions_of :
    (user_id : String) (recs : List (String × Record)) (t : String)
    → IsMap recs
    → lookup t (sessions_of user_id recs) ≡ active_at user_id (lookup t recs)
lookup-sessions_of user_id [] t h = refl
lookup-sessions_of user_id ((k, rec) ∷ recs) t (fresh, h) =
    ground (arith, lookup-sessions_of user_id recs t h, eq_iff k t, ap (λ x. lookup x recs))

sessions_of-IsMap :
    (user_id : String) (recs : List (String × Record))
    → IsMap recs
    → IsMap (sessions_of user_id recs)
sessions_of-IsMap user_id [] h = tt
sessions_of-IsMap user_id ((k, rec) ∷ recs) (fresh, h) =
    elim (Bool-cases (rec.user_id == user_id)) [
      | inl mine ↦ rw mine (
        lookup-sessions_of user_id recs k h ∙ ap (active_at user_id) fresh,
        sessions_of-IsMap user_id recs h,
      )
      | inr other ↦ rw other (sessions_of-IsMap user_id recs h)
    ]

-- The sorted sessions of a user: each of them with its time, once, in order.
pub sort-sessions_of :
    (user_id : String) (recs : List (String × Record)) (t : String)
    → IsMap recs
    → (lookup t (sort (sessions_of user_id recs)) ≡ active_at user_id (lookup t recs))
      × IsMap (sort (sessions_of user_id recs))
      × IsSorted (sort (sessions_of user_id recs))
sort-sessions_of user_id recs t h =
    let mine = sessions_of user_id recs in
    let (at_t, map, sorted) = sort_lem mine t (sessions_of-IsMap user_id recs h) in
    (at_t ∙ lookup-sessions_of user_id recs t h, map, sorted)

-- At most one session of a map is the one to keep.
none_kept :
    (keep : String) (xs : List (String × ℕ))
    → lookup keep xs ≡ none
    → length (filter (λ x. not (x.0 == keep)) xs) ≡ length xs
none_kept keep [] h = refl
none_kept keep (x ∷ xs) h = ground (arith, none_kept keep xs)

pub one_kept :
    (keep : String) (xs : List (String × ℕ))
    → IsMap xs
    → length xs ≤ suc (length (filter (λ x. not (x.0 == keep)) xs))
one_kept keep [] h = omega arith
one_kept keep (x ∷ xs) (fresh, h) = elim (Bool-cases (x.0 == keep)) [
  | inl same ↦
      ground
        (arith, none_kept keep xs (ap (λ k. lookup k xs) (sym ((eq_iff x.0 keep).0 same)) ∙ fresh))
  | inr other ↦ ground (arith, one_kept keep xs h)
]
