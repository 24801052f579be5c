-- ===== src/Access/Tools/Sweep.antt =====
-- The sweep of orphaned rows: it leaves no orphan, and it changes nobody's access.
use aliangboard.Base.{
  String, ◌≡◌, refl, ◌↔◌, inl, inr, Bool, true, not, List, [], ◌∷◌, contains, filter, length, Any,
  here, there, All, arith, Bool-cases,
}
use aliangboard.Access.Store.{Db, Grant, Member}
use aliangboard.Access.Grants.Entitled.{Entitled, IsGrantee}
use aliangboard.Access.Tools.{user_ids, is_orphan_member, is_orphan_grant, sweep_orphan_grants}

module _ {ℓ κ} {A : Type ℓ} (P : A → Type κ) (p : A → Bool) where
  filter-Any : (xs : List A) → Any P (filter p xs) → Any P xs
  filter-Any [] a = a
  filter-Any (x ∷ xs) a = elim (Bool-cases (p x)) [
    | inl kept ↦ elim (rw kept at a) [ here px ↦ here px | there b ↦ there (filter-Any xs b) ]
    | inr dropped ↦ there (filter-Any xs (rw dropped at a))
  ]

  Any-filter : ((x : A) → P x → p x ≡ true) → (xs : List A) → Any P xs → Any P (filter p xs)
  Any-filter keeps [] a = a
  Any-filter keeps (x ∷ xs) (here px) = rw (keeps x px) (here px)
  Any-filter keeps (x ∷ xs) (there a) = elim (Bool-cases (p x)) [
    | inl kept ↦ rw kept (there (Any-filter keeps xs a))
    | inr dropped ↦ rw dropped (Any-filter keeps xs a)
  ]

module _ {ℓ κ μ} {A : Type ℓ} (P : A → Type κ) (Q : A → Type μ) where
  Any-map : ((x : A) → P x → Q x) → (xs : List A) → Any P xs → Any Q xs
  Any-map f [] a = elim a [ ]
  Any-map f (x ∷ xs) (here px) = here (f x px)
  Any-map f (x ∷ xs) (there a) = there (Any-map f xs a)

module _ {ℓ} {A : Type ℓ} (p : A → Bool) where
  filter_kept :
      (xs : List A)
      → filter (λ x. not (p x)) (filter (λ x. not (p x)) xs) ≡ filter (λ x. not (p x)) xs
  filter_kept [] = refl
  filter_kept (x ∷ xs) = ground (arith, filter_kept xs)

  length-filter_kept : (xs : List A) → length (filter p (filter (λ x. not (p x)) xs)) ≡ 0
  length-filter_kept [] = refl
  length-filter_kept (x ∷ xs) = ground (arith, length-filter_kept xs)

-- A second sweep finds nothing: it deletes no row and leaves the tables as they are.
pub sweep_orphan_grants_twice :
    (db : Db) → sweep_orphan_grants (sweep_orphan_grants db).0 ≡ ((sweep_orphan_grants db).0, 0, 0)
unfolding sweep_orphan_grants is_orphan_member is_orphan_grant
sweep_orphan_grants_twice db =
    let ms = filter_kept (is_orphan_member db) db.members in
    let gs = filter_kept (is_orphan_grant db) db.grants in
    let no_member = length-filter_kept (is_orphan_member db) db.members in
    let no_grant = length-filter_kept (is_orphan_grant db) db.grants in
    λ i. (record db { members = ms i; grants = gs i }, no_member i, no_grant i)

-- A member of a group that exists.
abbrev pub HasGroup : Db → Type 0
HasGroup db = All (λ (m : Member). contains db.groups m.group_id ≡ true) db.members

group_of_member :
    (groups : List String) (uid gid : String) (ms : List Member)
    → All (λ (m : Member). contains groups m.group_id ≡ true) ms
    → Any (λ (m : Member). (m.group_id ≡ gid) × (m.user_id ≡ uid)) ms
    → contains groups gid ≡ true
group_of_member groups uid gid [] h a = elim a [ ]
group_of_member groups uid gid (m ∷ ms) (k, h) (here (same, mine)) = rw same at k
group_of_member groups uid gid (m ∷ ms) (k, h) (there a) = group_of_member groups uid gid ms h a

module _ (db : Db) (uid cid ns need : String) where
  IsGrantee-before : (g : Grant) → IsGrantee (sweep_orphan_grants db).0 uid g → IsGrantee db uid g
  unfolding sweep_orphan_grants
  IsGrantee-before g (inl direct) = inl direct
  IsGrantee-before g (inr (group, m)) = inr (group, filter-Any _ _ db.members m)

  IsGrantee-after :
      contains (user_ids db.users) uid ≡ true
      → (g : Grant) → IsGrantee db uid g
      → IsGrantee (sweep_orphan_grants db).0 uid g
  unfolding sweep_orphan_grants is_orphan_member
  IsGrantee-after exists g (inl direct) = inl direct
  IsGrantee-after exists g (inr (group, m)) =
      inr (group, Any-filter _ _ (λ x k. rw (k.1, exists) refl) db.members m)

  grant_kept :
      contains (user_ids db.users) uid ≡ true
      → HasGroup db
      → (g : Grant) → IsGrantee db uid g
      → not (is_orphan_grant db g) ≡ true
  unfolding is_orphan_grant
  grant_kept exists groups g (inl (direct, mine)) = rw (direct, mine, exists) refl
  grant_kept exists groups g (inr (group, m)) =
      rw (group, group_of_member db.groups uid g.subject_id db.members groups m) refl

  -- For a user that exists, where members are only of groups that exist, the sweep changes nothing:
  -- the tables entitle the user after it exactly to what they did before.
  pub sweep_orphan_grants-Entitled :
      contains (user_ids db.users) uid ≡ true
      → HasGroup db
      → Entitled (sweep_orphan_grants db).0 uid cid ns need ↔ Entitled db uid cid ns need
  unfolding sweep_orphan_grants
  sweep_orphan_grants-Entitled exists groups = (
    (λ e. record {
      assigned = e.assigned;
      grant =
          Any-map _ _ (λ g k. (k.0, IsGrantee-before g k.1)) db.grants
            (filter-Any _ (λ g. not (is_orphan_grant db g)) db.grants e.grant);
    }),
    (λ e. record {
      assigned = e.assigned;
      grant =
          Any-filter _ (λ g. not (is_orphan_grant db g))
            (λ g k. grant_kept exists groups g (IsGrantee-before g k.1)) db.grants
            (Any-map _ _ (λ g k. (k.0, IsGrantee-after exists g k.1)) db.grants e.grant);
    }),
  )
