-- ===== src/Retry/Final.antt =====
-- An answer, a failure after a part of an answer, and a cancellation end the run.
use aliangboard.Base.{
  ℕ, suc, ◌+◌, ◌≤◌, ◌<◌, max, ◌≡◌, refl, ap, subst, ◌⊎◌, inl, inr, Bool, true, false, List, [], ◌∷◌,
  if◌then◌else◌, get_or, ltb, arith, Bool-cases, if-elim,
}
use aliangboard.Retry.{
  Failure, Outcome, answered, failed, ErrKind, cancel, timeout, transient, rate, client, network,
  err_kind, Reply, thrown, exhausted, aborted, Run, reply_of, sleep_interruptible, free_retry, stop,
  by_kind, after_call, ladder, chat_with_retry,
}

-- What may not be followed by another call.
abbrev pub IsFinal {ℓ} : {A : Type ℓ} → Outcome A → Type 0
IsFinal (answered _) = Unit
IsFinal (failed e) = (e.saw_delta ≡ true) ⊎ (err_kind e ≡ cancel)

module _ {ℓ} {A : Type ℓ} (chat : ℕ → Outcome A) where
  -- From call `n` on, a final outcome is that of the last call, and the reply is its.
  abbrev IsEnding : ℕ → Run A → Type ℓ
  IsEnding n run =
      (i : ℕ)
      → n ≤ i
      → i < run.calls
      → IsFinal (chat i)
      → (suc i ≡ run.calls) × (run.reply ≡ reply_of (chat i))

  stop-IsEnding : (n spent : ℕ) (reply : Reply A) → IsEnding n (stop reply n spent)
  stop-IsEnding n spent reply i le lt f = absurd (omega (arith, le, lt))

  last-IsEnding : (n spent : ℕ) → IsEnding n (stop (reply_of (chat n)) (suc n) spent)
  last-IsEnding n spent i le lt f =
      let same : n ≡ i = omega (arith, le, lt) in
      (omega (arith, le, lt), ap (λ j. reply_of (chat j)) same)

  -- A call that is not final only passes on what follows it.
  not_final : (n : ℕ) (run : Run A) → (IsFinal (chat n) → ⊥) → IsEnding (suc n) run → IsEnding n run
  not_final n run not_it rest i le lt f = elim (Bool-cases (ltb n i)) [
    | inl later ↦ rest i (ground arith) lt f
    | inr now ↦
        let same : i ≡ n = ground arith in absurd (not_it (subst (λ j. IsFinal (chat j)) same f))
  ]

  after_call-IsEnding :
      (o : Outcome A) (n spent : ℕ) (climb : Failure → Run A)
      → chat n ≡ o
      → ((e : Failure) → IsEnding (suc n) (climb e))
      → IsEnding n (after_call chat o (suc n) spent climb)
  after_call-IsEnding (answered a) n spent climb it rest =
      subst (λ o. IsEnding n (stop (reply_of o) (suc n) spent)) it (last-IsEnding n spent)
  after_call-IsEnding (failed e) n spent climb it rest = flags e.saw_delta refl
    where
      thrown_now : IsEnding n (stop (thrown e) (suc n) spent)
      thrown_now =
          subst (λ o. IsEnding n (stop (reply_of o) (suc n) spent)) it (last-IsEnding n spent)

      open_still : e.saw_delta ≡ false → (err_kind e ≡ cancel → ⊥) → IsFinal (chat n) → ⊥
      open_still unseen no_cancel f = decided (subst IsFinal it f)
        where
          decided : (e.saw_delta ≡ true) ⊎ (err_kind e ≡ cancel) → ⊥
          decided (inl seen) = ground (arith, seen, unseen)
          decided (inr c) = no_cancel c

      kinds :
          (kind : ErrKind)
          → err_kind e ≡ kind
          → e.saw_delta ≡ false
          → IsEnding n (by_kind chat kind e (suc n) spent climb)
      kinds cancel k unseen = thrown_now
      kinds timeout k unseen =
          not_final n (free_retry chat (suc n) spent) (open_still unseen (λ c. cc))
            (last-IsEnding (suc n) spent)
      kinds transient k unseen = not_final n (climb e) (open_still unseen (λ c. cc)) (rest e)
      kinds rate k unseen = not_final n (climb e) (open_still unseen (λ c. cc)) (rest e)
      kinds client k unseen =
          not_final n (free_retry chat (suc n) spent) (open_still unseen (λ c. cc))
            (last-IsEnding (suc n) spent)
      kinds network k unseen = not_final n (climb e) (open_still unseen (λ c. cc)) (rest e)

      flags :
          (b : Bool)
          → e.saw_delta ≡ b
          → IsEnding n (
              if b
              then stop (thrown e) (suc n) spent
              else by_kind chat (err_kind e) e (suc n) spent climb)
      flags true seen = thrown_now
      flags false unseen = kinds (err_kind e) refl unseen

module _ {ℓ} {A : Type ℓ} (chat : ℕ → Outcome A) (jitter : ℕ → ℕ → ℕ) (should_abort : ℕ → Bool)
    (slice budget : ℕ) where
  ladder-IsEnding :
      (ds : List ℕ) (n k spent now : ℕ) (last : Failure)
      → IsEnding chat n (ladder chat jitter should_abort slice budget ds n k spent now last)
  unfolding ladder
  ladder-IsEnding [] n k spent now last = stop-IsEnding chat n spent (exhausted last k spent)
  ladder-IsEnding (d ∷ ds) n k spent now last =
      let floor = get_or last.retry_after_ms 0 in
      let account = max d floor in
      let wait = sleep_interruptible should_abort slice now (max (jitter k d) floor) in
      if-elim (IsEnding chat n) (ltb budget (spent + account))
        (stop-IsEnding chat n spent (exhausted last k spent))
        (if-elim (IsEnding chat n) wait.1 (stop-IsEnding chat n (spent + account) aborted) (
          after_call-IsEnding chat (chat n) n (spent + account) _ refl
            (λ e. ladder-IsEnding ds (suc n) (suc k) (spent + account) wait.0 e)))

  -- A call that answers, that fails after a part of its answer was handed on, or that was cancelled is
  -- the last call of the run, and the run returns its answer or throws its exception.
  pub chat_with_retry-IsFinal :
      (delays : List ℕ) (i : ℕ)
      → let run = chat_with_retry chat jitter should_abort slice budget delays in
        i < run.calls → IsFinal (chat i) → (suc i ≡ run.calls) × (run.reply ≡ reply_of (chat i))
  unfolding chat_with_retry
  chat_with_retry-IsFinal delays i lt f =
      after_call-IsEnding chat (chat 0) 0 0
        (λ e. ladder chat jitter should_abort slice budget delays 1 0 0 0 e) refl
        (λ e. ladder-IsEnding delays 1 0 0 0 e) i (omega arith) lt f
