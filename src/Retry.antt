-- ===== src/Retry.antt =====
-- server/llm-retry.mjs: the ladder of retries around a call of the model.
-- What the calls answer, the jitter and the question whether to stop are parameters: call `n` answers
-- `chat n`, a delay `d` on rung `k` is scattered to `jitter k d`, and `should_abort t` is asked after
-- `t` milliseconds of waiting.
pub mod Bounds
pub mod Final
pub mod Sleep
use aliangboard.Base.{
  ℕ, zero, suc, ◌+◌, ◌-◌, min, max, String, Bool, true, false, not, ◌&&◌, ◌||◌, Option, none, some,
  List, [], ◌∷◌, ◌==◌, if◌then◌else◌, leb, ltb, eqb, get_or,
}

-- An exception of a call: its name, its HTTP status, `retryAfterMs`, and whether a part of the answer
-- had been handed on before it (`sawDelta`).
pub record Failure : Type 0 where
  pub name : String
  pub status : Option ℕ
  pub retry_after_ms : Option ℕ
  pub saw_delta : Bool

pub data Outcome {ℓ} (A : Type ℓ) : Type ℓ where
  answered : A → Outcome A
  failed : Failure → Outcome A

pub data ErrKind : Type 0 where
  cancel : ErrKind
  timeout : ErrKind
  transient : ErrKind
  rate : ErrKind
  client : ErrKind
  network : ErrKind

abbrev pub status_kind : Option ℕ → ErrKind
status_kind none = network
status_kind (some s) =
    if leb 500 s
    then transient
    else if eqb s 429
    then rate
    else if leb 400 s
    then client
    else network

unfoldable pub err_kind : Failure → ErrKind
err_kind e =
    if e.name == "CancelledError" || e.name == "InvalidatedError"
    then cancel
    else if e.name == "IdleTimeoutError"
        || e.name == "StreamDeadlineError"
        || e.name == "TimeoutError"
    then timeout
    else status_kind e.status

-- What `chatWithRetry` does in the end: it returns, throws the exception of a call, throws the last one
-- as the ladder is at its end (with the number of retries and the time accounted, which
-- `enrichExhausted` adds to the message of `transient` and `rate`), or is stopped in a wait.
pub data Reply {ℓ} (A : Type ℓ) : Type ℓ where
  returned : A → Reply A
  thrown : Failure → Reply A
  exhausted : Failure → ℕ → ℕ → Reply A
  aborted : Reply A

-- The reply, how many calls were made, and the time accounted to the ladder.
pub record Run {ℓ} (A : Type ℓ) : Type ℓ where
  pub reply : Reply A
  pub calls : ℕ
  pub spent : ℕ

abbrev pub reply_of {ℓ} : {A : Type ℓ} → Outcome A → Reply A
reply_of (answered a) = returned a
reply_of (failed e) = thrown e

-- `sleepInterruptible`: slices of a wait, with a question before each and after the last. The fuel is
-- the wait itself, since a slice takes at least one millisecond.
unfoldable pub sleep : (ℕ → Bool) → ℕ → ℕ → ℕ → ℕ → ℕ × Bool
sleep should_abort slice zero now left = (now, should_abort now)
sleep should_abort slice (suc fuel) now left =
    let rest = sleep should_abort slice fuel (now + min slice left) (left - min slice left) in
    if eqb left 0 then (now, should_abort now) else if should_abort now then (now, true) else rest

abbrev pub sleep_interruptible : (ℕ → Bool) → ℕ → ℕ → ℕ → ℕ × Bool
sleep_interruptible should_abort slice now ms = sleep should_abort slice ms now ms

abbrev pub stop {ℓ} : {A : Type ℓ} → Reply A → ℕ → ℕ → Run A
stop reply n spent = record { reply = reply; calls = n; spent = spent }

module _ {ℓ} {A : Type ℓ} (chat : ℕ → Outcome A) where
  -- One more call without a wait, whose exception is final.
  abbrev pub free_retry : ℕ → ℕ → Run A
  free_retry n spent = stop (reply_of (chat n)) (suc n) spent

  -- What follows a call that failed before a part of its answer was handed on; `climb` goes on with
  -- the ladder.
  abbrev pub by_kind : ErrKind → Failure → ℕ → ℕ → (Failure → Run A) → Run A
  by_kind cancel e n spent climb = stop (thrown e) n spent
  by_kind timeout e n spent climb = free_retry n spent
  by_kind transient e n spent climb = climb e
  by_kind rate e n spent climb = climb e
  by_kind client e n spent climb = free_retry n spent
  by_kind network e n spent climb = climb e

  abbrev pub after_call : Outcome A → ℕ → ℕ → (Failure → Run A) → Run A
  after_call (answered a) n spent climb = stop (returned a) n spent
  after_call (failed e) n spent climb =
      if e.saw_delta then stop (thrown e) n spent else by_kind (err_kind e) e n spent climb

module _ {ℓ} {A : Type ℓ} (chat : ℕ → Outcome A) (jitter : ℕ → ℕ → ℕ) (should_abort : ℕ → Bool)
    (slice budget : ℕ) where
  -- The rungs that are left; `n` calls have been made, `last` is the exception of the last.
  unfoldable pub ladder : List ℕ → ℕ → ℕ → ℕ → ℕ → Failure → Run A
  ladder [] n k spent now last = stop (exhausted last k spent) n spent
  ladder (d ∷ ds) n k spent now last =
      let floor = get_or last.retry_after_ms 0 in
      let account = max d floor in
      let wait = sleep_interruptible should_abort slice now (max (jitter k d) floor) in
      if ltb budget (spent + account)
      then stop (exhausted last k spent) n spent
      else if wait.1
      then stop aborted n (spent + account)
      else after_call chat (chat n) (suc n) (spent + account)
          (λ e. ladder ds (suc n) (suc k) (spent + account) wait.0 e)

  -- `chatWithRetry`: the first call, and what follows it.
  unfoldable pub chat_with_retry : List ℕ → Run A
  chat_with_retry delays = after_call chat (chat 0) 1 0 (λ e. ladder delays 1 0 0 0 e)
