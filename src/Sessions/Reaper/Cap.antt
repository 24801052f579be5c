-- ===== src/Sessions/Reaper/Cap.antt =====
-- The cap on a user's sessions: who stays, how many stay, and which go.
use aliangboard.Base.{
  ℕ, suc, ◌-◌, ◌≤◌, String, ◌≡◌, refl, ap, ◌∙◌, true, false, none, some, List, [], ◌∷◌, ◌==◌,
  eq_iff, if◌then◌else◌, lookup, lookup-erase, leb, arith, Bool-cases, inl, inr, ◌⊎◌, is_some,
  All_lookup,
}
use mathlib.Core.Option.{some-injective}
use aliangboard.Sessions.Store.{Store, remove_session_record}
use aliangboard.Sessions.Reaper.{evict}
use aliangboard.Sessions.Reaper.Removal.{platform-remove_session_record}
use aliangboard.Sessions.Reaper.Order.{IsSorted}

pub lookup-remove :
    (now : ℕ) (s : Store) (token t : String)
    → lookup t (remove_session_record now s token).platform
      ≡ (if token == t then none else lookup t s.platform)
lookup-remove now s token t =
    ap (lookup t) (platform-remove_session_record now s token) ∙ lookup-erase token t s.platform

-- What holds of a session at the start of the loop and is kept by each removal in it.
module _ (total max : ℕ) (keep : String) (now : ℕ) where
  pub evict_keeps :
      (t : String) (s : Store) (n : ℕ) (mine : List (String × ℕ))
      → ((t == keep) ≡ true) ⊎ (lookup t mine ≡ none)
      → lookup t (evict total max keep now s n mine).0.platform ≡ lookup t s.platform
  unfolding evict
  evict_keeps t s n [] h = refl
  evict_keeps t s n ((k, a) ∷ mine) h = elim (Bool-cases (leb (total - n) max)) [
    | inl enough ↦ rw enough refl
    | inr more ↦ rw more (elim (Bool-cases (k == keep)) [
      | inl kept ↦ rw kept (evict_keeps t s n mine (tail h))
      | inr other ↦ rw other (
          evict_keeps t (remove_session_record now s k) (suc n) mine (tail h)
          ∙ (lookup-remove now s k t ∙ unmoved other h))
    ])
  ]
    where
      tail :
          ((t == keep) ≡ true) ⊎ (lookup t ((k, a) ∷ mine) ≡ none)
          → ((t == keep) ≡ true) ⊎ (lookup t mine ≡ none)
      tail (inl it) = inl it
      tail (inr fresh) = inr (ground (arith, fresh))

      unmoved :
          (k == keep) ≡ false
          → ((t == keep) ≡ true) ⊎ (lookup t ((k, a) ∷ mine) ≡ none)
          → (if k == t then none else lookup t s.platform) ≡ lookup t s.platform
      unmoved other (inl it) = ground (arith, it, eq_iff t keep, eq_iff k t, eq_iff k keep)
      unmoved other (inr fresh) = ground (arith, fresh)

  -- What is gone stays gone.
  evict_gone :
      (t : String) (s : Store) (n : ℕ) (mine : List (String × ℕ))
      → lookup t s.platform ≡ none
      → lookup t (evict total max keep now s n mine).0.platform ≡ none
  unfolding evict
  evict_gone t s n [] gone = gone
  evict_gone t s n ((k, a) ∷ mine) gone =
      let later = evict_gone t s n mine gone in
      let removed =
        evict_gone t (remove_session_record now s k) (suc n) mine
          (lookup-remove now s k t ∙ ground arith) in
      ground (arith, later, removed)

  -- The session that goes was not active after one that stays and is not to be kept.
  pub evict_order :
      (s : Store) (n : ℕ) (mine : List (String × ℕ)) (out stays : String) (a b : ℕ)
      → IsSorted mine
      → lookup out mine ≡ some a
      → lookup stays mine ≡ some b
      → (stays == keep) ≡ false
      → is_some (lookup out s.platform) ≡ true
      → is_some (lookup out (evict total max keep now s n mine).0.platform) ≡ false
      → is_some (lookup stays (evict total max keep now s n mine).0.platform) ≡ true
      → a ≤ b
  unfolding evict
  evict_order s n [] out stays a b sorted at_out at_stays other there gone held = cc
  evict_order s n ((k, c) ∷ mine) out stays a b (le, sorted) at_out at_stays other there gone held =
      elim (Bool-cases (leb (total - n) max)) [
        | inl enough ↦ absurd (ground (arith, there, rw enough at gone))
        | inr more ↦ elim (Bool-cases (k == keep)) [
          | inl kept ↦
              let gone_later : is_some (lookup out (evict total max keep now s n mine).0.platform)
                  ≡ false =
                rw (more, kept) at gone in
              let held_later : is_some (lookup stays (evict total max keep now s n mine).0.platform)
                  ≡ true =
                rw (more, kept) at held in
              let stays_later : lookup stays mine ≡ some b =
                ground (
                  arith,
                  at_stays,
                  kept,
                  other,
                  eq_iff k keep,
                  eq_iff k stays,
                  eq_iff stays keep,
                ) in
              elim (Bool-cases (out == keep)) [
                | inl it ↦ absurd (
                    ground
                      (arith, there, gone_later, ap is_some (evict_keeps out s n mine (inl it))))
                | inr apart ↦
                    evict_order s n mine out stays a b sorted
                      (ground
                        (arith, at_out, kept, apart, eq_iff k keep, eq_iff k out, eq_iff out keep))
                      stays_later other there gone_later held_later
              ]
          | inr passed ↦
              let after = remove_session_record now s k in
              let gone_later : is_some
                    (lookup out (evict total max keep now after (suc n) mine).0.platform)
                  ≡ false =
                rw (more, passed) at gone in
              let held_later : is_some
                    (lookup stays (evict total max keep now after (suc n) mine).0.platform)
                  ≡ true =
                rw (more, passed) at held in
              elim (Bool-cases (k == stays)) [
                | inl it ↦ absurd (
                    ground (
                      arith,
                      held_later,
                      evict_gone stays after (suc n) mine
                          (lookup-remove now s k stays ∙ rw it refl),
                    ))
                | inr apart ↦
                    let stays_later : lookup stays mine ≡ some b = rw apart at at_stays in
                    elim (Bool-cases (k == out)) [
                      | inl first ↦
                          let c_is_a = some-injective c a (rw first at at_out) in
                          let c_le_b = All_lookup (λ _ y. c ≤ y) mine stays le stays_later in
                          omega (arith, c_is_a, c_le_b)
                      | inr out_later ↦
                          evict_order after (suc n) mine out stays a b sorted
                            (rw out_later at at_out) stays_later other
                            (ap is_some (lookup-remove now s k out) ∙ rw out_later there) gone_later
                            held_later
                    ]
              ]
        ]
      ]
