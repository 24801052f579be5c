-- ===== src/Retry/Bounds.antt =====
-- How often the ladder calls, what it accounts, and what it never repeats.
use aliangboard.Base.{
  ℕ, suc, ◌+◌, ◌≤◌, max, inl, inr, Bool, List, [], ◌∷◌, length, get_or, ltb, arith, Bool-cases,
  if-elim,
}
use aliangboard.Retry.{
  Failure, Outcome, answered, failed, ErrKind, cancel, timeout, transient, rate, client, network,
  err_kind, Run, sleep_interruptible, free_retry, by_kind, after_call, ladder, chat_with_retry,
}

-- A run that goes on from `n` calls with at most `more` left, within the budget.
record IsWithin {ℓ} {A : Type ℓ} (budget n more : ℕ) (run : Run A) : Type 0 where
  at_least : n ≤ run.calls
  at_most : run.calls ≤ n + more
  budgeted : run.spent ≤ budget

module _ {ℓ} {A : Type ℓ} (chat : ℕ → Outcome A) (budget : ℕ) where
  after_call-IsWithin :
      (o : Outcome A) (n more spent : ℕ) (climb : Failure → Run A)
      → spent ≤ budget
      → 1 ≤ more
      → ((e : Failure) → IsWithin budget n more (climb e))
      → IsWithin budget n more (after_call chat o n spent climb)
  after_call-IsWithin (answered a) n more spent climb h room rest = record {
    at_least = omega arith;
    at_most = omega arith;
    budgeted = h;
  }
  after_call-IsWithin (failed e) n more spent climb h room rest =
      if-elim (IsWithin budget n more) e.saw_delta
        (record { at_least = omega arith; at_most = omega arith; budgeted = h })
        (kinds (err_kind e))
    where
      free : IsWithin budget n more (free_retry chat n spent)
      free = record { at_least = omega arith; at_most = omega (arith, room); budgeted = h }

      kinds : (kind : ErrKind) → IsWithin budget n more (by_kind chat kind e n spent climb)
      kinds cancel = record { at_least = omega arith; at_most = omega arith; budgeted = h }
      kinds timeout = free
      kinds transient = rest e
      kinds rate = rest e
      kinds client = free
      kinds network = rest e

module _ {ℓ} {A : Type ℓ} (chat : ℕ → Outcome A) (jitter : ℕ → ℕ → ℕ) (should_abort : ℕ → Bool)
    (slice budget : ℕ) where
  ladder-IsWithin :
      (ds : List ℕ) (n k spent now : ℕ) (last : Failure)
      → spent ≤ budget
      → IsWithin budget n
          (suc (length ds))
          (ladder chat jitter should_abort slice budget ds n k spent now last)
  unfolding ladder
  ladder-IsWithin [] n k spent now last h = record {
    at_least = omega arith;
    at_most = omega arith;
    budgeted = h;
  }
  ladder-IsWithin (d ∷ ds) n k spent now last h =
      let floor = get_or last.retry_after_ms 0 in
      let account = max d floor in
      let wait = sleep_interruptible should_abort slice now (max (jitter k d) floor) in
      elim (Bool-cases (ltb budget (spent + account))) [
        | inl over ↦
            rw over (record { at_least = omega arith; at_most = omega arith; budgeted = h })
        | inr under ↦
            let fits : spent + account ≤ budget = ground arith in
            let next : (e : Failure)
                → IsWithin budget (suc n) (suc (length ds)) (
                    ladder chat jitter should_abort slice budget ds (suc n) (suc k)
                      (spent + account) wait.0 e) =
              λ e. ladder-IsWithin ds (suc n) (suc k) (spent + account) wait.0 e fits in
            let called =
              after_call-IsWithin chat budget (chat n) (suc n) (suc (length ds)) (spent + account) _
                fits (omega arith) next in
            rw under (
              if-elim (IsWithin budget n (suc (suc (length ds)))) wait.1
                (record { at_least = omega arith; at_most = omega arith; budgeted = fits })
                (record {
                  at_least = omega (arith, called.at_least);
                  at_most = omega (arith, called.at_most);
                  budgeted = called.budgeted;
                }))
      ]

  -- There is at least one call and at most one for each rung and two more, and the time accounted to
  -- the ladder stays within the budget, whatever the calls answer.
  pub chat_with_retry-bounds :
      (delays : List ℕ)
      → let run = chat_with_retry chat jitter should_abort slice budget delays in
        (1 ≤ run.calls) × (run.calls ≤ 2 + length delays) × (run.spent ≤ budget)
  unfolding chat_with_retry
  chat_with_retry-bounds delays =
      let within =
        after_call-IsWithin chat budget (chat 0) 1 (suc (length delays)) 0
          (λ e. ladder chat jitter should_abort slice budget delays 1 0 0 0 e) (omega arith)
          (omega arith) (λ e. ladder-IsWithin delays 1 0 0 0 e (omega arith)) in
      (within.at_least, omega (arith, within.at_most), within.budgeted)
