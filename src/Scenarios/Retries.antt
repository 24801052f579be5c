-- ===== src/Scenarios/Retries.antt =====
-- The ladder of retries on a call that fails once.
use aliangboard.Base.{
  ℕ, zero, suc, ◌+◌, ◌≤◌, String, ◌≡◌, Bool, false, none, some, [], ◌∷◌, length, arith,
}
use aliangboard.Retry.{
  Failure, Outcome, answered, failed, reply_of, chat_with_retry, ladder, sleep, err_kind,
  sleep_interruptible,
}
use aliangboard.Retry.Bounds.{chat_with_retry-bounds}
use aliangboard.Retry.Final.{chat_with_retry-IsFinal}
use aliangboard.Retry.Sleep.{sleep_interruptible_lem}

abbrev busy : Failure
busy = record { name = "Error"; status = some 503; retry_after_ms = none; saw_delta = false }

abbrev second_time : ℕ → Outcome String
second_time zero = failed busy
second_time (suc n) = answered "ok"

abbrev half : ℕ → ℕ → ℕ
half k d = d

abbrev go_on : ℕ → Bool
go_on t = false

chat_with_retry-bounds_example :
    (1 ≤ (chat_with_retry second_time half go_on 1 100 (3 ∷ 5 ∷ [])).calls)
    × ((chat_with_retry second_time half go_on 1 100 (3 ∷ 5 ∷ [])).calls
        ≤ 2 + length {A = ℕ} (3 ∷ 5 ∷ []))
    × ((chat_with_retry second_time half go_on 1 100 (3 ∷ 5 ∷ [])).spent ≤ 100)
chat_with_retry-bounds_example = chat_with_retry-bounds second_time half go_on 1 100 (3 ∷ 5 ∷ [])

chat_with_retry-IsFinal_example :
    (2 ≡ (chat_with_retry second_time half go_on 1 100 (3 ∷ 5 ∷ [])).calls)
    × ((chat_with_retry second_time half go_on 1 100 (3 ∷ 5 ∷ [])).reply ≡ reply_of (second_time 1))
unfolding chat_with_retry ladder sleep err_kind
chat_with_retry-IsFinal_example =
    chat_with_retry-IsFinal second_time half go_on 1 100 (3 ∷ 5 ∷ []) 1 (omega arith) tt

sleep_interruptible_lem_example :
    ((sleep_interruptible go_on 2 0 5).1 ≡ false → (sleep_interruptible go_on 2 0 5).0 ≡ 0 + 5)
    × (go_on (sleep_interruptible go_on 2 0 5).0 ≡ (sleep_interruptible go_on 2 0 5).1)
    × ((sleep_interruptible go_on 2 0 5).0 ≤ 0 + 5)
sleep_interruptible_lem_example = sleep_interruptible_lem go_on 2 0 5 (omega arith)
