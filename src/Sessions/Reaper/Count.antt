-- ===== src/Sessions/Reaper/Count.antt =====
-- How many sessions the cap on a user's sessions leaves, and the theorems on the cap.
use aliangboard.Base.{
  ℕ, suc, ◌+◌, ◌-◌, ◌≤◌, min, String, ◌≡◌, refl, ap, sym, ◌∙◌, true, false, not, none, some, List,
  [], ◌∷◌, ◌==◌, eq_iff, eq_refl, subst, filter, length, lookup, erase, lookup-erase, leb, eqb,
  arith, Bool-cases, Option-cases, inl, inr, is_some, ◌⊎◌,
}
use aliangboard.Sessions.Store.{Record, Store, remove_session_record}
use aliangboard.Sessions.Reaper.{sessions_of, sort, evict, enforce_session_cap}
use aliangboard.Sessions.Reaper.Removal.{IsMap, platform-remove_session_record}
use aliangboard.Sessions.Reaper.Order.{active_at, sort-sessions_of, length-sort, one_kept}
use aliangboard.Sessions.Reaper.Cap.{lookup-remove, evict_keeps, evict_order}

-- How many sessions a user has.
abbrev pub count : String → List (String × Record) → ℕ
count user_id m = length (sessions_of user_id m)

erase_missing : (t : String) (m : List (String × Record)) → lookup t m ≡ none → erase t m ≡ m
erase_missing t [] h = refl
erase_missing t ((k, rec) ∷ m) h = elim (Bool-cases (k == t)) [
  | inl same ↦ absurd (ground (arith, h, same))
  | inr other ↦ rw other (ap (λ rest. (k, rec) ∷ rest) (erase_missing t m (rw other at h)))
]

erase-IsMap : (t : String) (m : List (String × Record)) → IsMap m → IsMap (erase t m)
erase-IsMap t [] h = tt
erase-IsMap t ((k, rec) ∷ m) (fresh, h) = elim (Bool-cases (k == t)) [
  | inl same ↦ rw same (erase-IsMap t m h)
  | inr other ↦ rw other (lookup-erase t k m ∙ ground (arith, fresh), erase-IsMap t m h)
]

count-erase :
    (user_id t : String) (m : List (String × Record)) (a : ℕ)
    → IsMap m
    → active_at user_id (lookup t m) ≡ some a
    → suc (count user_id (erase t m)) ≡ count user_id m
count-erase user_id t [] a h e = cc
count-erase user_id t ((k, rec) ∷ m) a (fresh, h) e = elim (Bool-cases (k == t)) [
  | inl same ↦
      let rest = erase_missing t m (ap (λ x. lookup x m) (sym ((eq_iff k t).0 same)) ∙ fresh) in
      ground (arith, e, same, ap (count user_id) rest)
  | inr other ↦ ground (arith, other, count-erase user_id t m a h (rw other at e))
]

module _ (total max : ℕ) (keep : String) (now : ℕ) (user_id : String) where
  evict-count :
      (s : Store) (n : ℕ) (mine : List (String × ℕ))
      → IsMap s.platform
      → IsMap mine
      → ((t : String) (a : ℕ)
          → lookup t mine ≡ some a
          → active_at user_id (lookup t s.platform) ≡ some a)
      → count user_id s.platform + n ≡ total
      → total ≤ n + max + length (filter (λ x. not (x.0 == keep)) mine)
      → (count user_id (evict total max keep now s n mine).0.platform
          ≡ min (count user_id s.platform) max)
        × (count user_id (evict total max keep now s n mine).0.platform
              + (evict total max keep now s n mine).1
            ≡ total)
  unfolding evict
  evict-count s n [] map distinct has counted room = (ground arith, counted)
  evict-count s n ((k, a) ∷ mine) map (fresh, distinct) has counted room =
      elim (Bool-cases (leb (total - n) max)) [
        | inl enough ↦ rw enough (ground (arith, enough), counted)
        | inr more ↦ elim (Bool-cases (k == keep)) [
          | inl kept ↦
              rw (more, kept)
                (evict-count s n mine map distinct later counted (ground (arith, room, kept)))
          | inr passed ↦
              let one = ap (count user_id) (platform-remove_session_record now s k) in
              let less = count-erase user_id k s.platform a map (has k a (rw (eq_refl k) refl)) in
              let (left, all_counted) =
                evict-count (remove_session_record now s k) (suc n) mine
                  (subst IsMap (sym (platform-remove_session_record now s k))
                    (erase-IsMap k s.platform map))
                  distinct still (ground (arith, one, less, counted))
                  (ground (arith, room, passed)) in
              rw (more, passed) (ground (arith, left, one, less, more, counted), all_counted)
        ]
      ]
    where
      later :
          (t : String) (c : ℕ)
          → lookup t mine ≡ some c
          → active_at user_id (lookup t s.platform) ≡ some c
      later t c e = elim (Bool-cases (k == t)) [
        | inl same ↦
            absurd (ground (arith, e, fresh, ap (λ x. lookup x mine) ((eq_iff k t).0 same)))
        | inr other ↦ has t c (rw other e)
      ]

      still :
          (t : String) (c : ℕ)
          → lookup t mine ≡ some c
          → active_at user_id (lookup t (remove_session_record now s k).platform) ≡ some c
      still t c e = elim (Bool-cases (k == t)) [
        | inl same ↦
            absurd (ground (arith, e, fresh, ap (λ x. lookup x mine) ((eq_iff k t).0 same)))
        | inr other ↦
            ap (active_at user_id) (lookup-remove now s k t ∙ rw other refl) ∙ has t c (rw other e)
      ]

sorted_count :
    (user_id : String) (m : List (String × Record))
    → length (sort (sessions_of user_id m)) ≡ count user_id m
sorted_count user_id m = length-sort (sessions_of user_id m)

module _ (user_id : String) (max : ℕ) (keep : String) (now : ℕ) (s : Store)
    (map : IsMap s.platform) where
  -- A cap of at least one leaves a user with as many sessions as there were, or as many as the cap
  -- where there were more, and counts those that it evicts.
  pub count-enforce_session_cap :
      1 ≤ max
      → (count user_id (enforce_session_cap user_id max keep now s).0.platform
          ≡ min (count user_id s.platform) max)
        × (count user_id (enforce_session_cap user_id max keep now s).0.platform
              + (enforce_session_cap user_id max keep now s).1
            ≡ count user_id s.platform)
  unfolding enforce_session_cap
  count-enforce_session_cap some_max =
      let on : eqb max 0 ≡ false = ground arith in
      elim (Bool-cases (leb (count user_id s.platform) max)) [
        | inl few ↦ rw (on, few) (ground (arith, few), omega arith)
        | inr many ↦
            let mine = sessions_of user_id s.platform in
            let (_, distinct, _) = sort-sessions_of user_id s.platform "" map in
            rw (on, many)
              (evict-count (length mine) max keep now user_id s 0 (sort mine) map distinct
                (λ t a e. sym ((sort-sessions_of user_id s.platform t map).0) ∙ e) (omega arith)
                (omega (
                  arith,
                  some_max,
                  sorted_count user_id s.platform,
                  one_kept keep (sort mine) distinct,
                )))
      ]

  -- The session to keep is kept, and the sessions of other users are left alone.
  pub lookup-enforce_session_cap :
      (t : String)
      → ((t == keep) ≡ true) ⊎ (active_at user_id (lookup t s.platform) ≡ none)
      → lookup t (enforce_session_cap user_id max keep now s).0.platform ≡ lookup t s.platform
  unfolding enforce_session_cap
  lookup-enforce_session_cap t h = elim (Bool-cases (eqb max 0)) [
    | inl off ↦ rw off refl
    | inr on ↦ elim (Bool-cases (leb (count user_id s.platform) max)) [
      | inl few ↦ rw (on, few) refl
      | inr many ↦
          rw (on, many)
            (evict_keeps (count user_id s.platform) max keep now t s 0
              (sort (sessions_of user_id s.platform)) (either h))
    ]
  ]
    where
      either :
          ((t == keep) ≡ true) ⊎ (active_at user_id (lookup t s.platform) ≡ none)
          → ((t == keep) ≡ true) ⊎ (lookup t (sort (sessions_of user_id s.platform)) ≡ none)
      either (inl it) = inl it
      either (inr other) = inr ((sort-sessions_of user_id s.platform t map).0 ∙ other)

  -- A session of the user that is evicted was not active after one of the user's that stays, except
  -- the one to keep.
  pub enforce_session_cap-order :
      (out stays : String) (a b : ℕ)
      → active_at user_id (lookup out s.platform) ≡ some a
      → active_at user_id (lookup stays s.platform) ≡ some b
      → (stays == keep) ≡ false
      → is_some (lookup out (enforce_session_cap user_id max keep now s).0.platform) ≡ false
      → is_some (lookup stays (enforce_session_cap user_id max keep now s).0.platform) ≡ true
      → a ≤ b
  unfolding enforce_session_cap
  enforce_session_cap-order out stays a b at_out at_stays other gone held =
      elim (Bool-cases (eqb max 0)) [
        | inl off ↦ absurd (untouched (rw off at gone))
        | inr on ↦ elim (Bool-cases (leb (count user_id s.platform) max)) [
          | inl few ↦ absurd (untouched (rw (on, few) at gone))
          | inr many ↦
              let (found_out, _, sorted) = sort-sessions_of user_id s.platform out map in
              let (found_stays, _, _) = sort-sessions_of user_id s.platform stays map in
              evict_order (count user_id s.platform) max keep now s 0
                (sort (sessions_of user_id s.platform)) out stays a b sorted (found_out ∙ at_out)
                (found_stays ∙ at_stays) other there (rw (on, many) at gone) (rw (on, many) at held)
        ]
      ]
    where
      there : is_some (lookup out s.platform) ≡ true
      there = elim (Option-cases (lookup out s.platform)) [
        | inl missing ↦ absurd (ground (arith, at_out, missing))
        | inr (rec, found) ↦ rw found refl
      ]

      untouched : is_some (lookup out s.platform) ≡ false → ⊥
      untouched h = ground (arith, there, h)
