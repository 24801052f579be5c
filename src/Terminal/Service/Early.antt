-- ===== src/Terminal/Service/Early.antt =====
-- A round of the sweep on a terminal that nobody uses, whatever its timeouts have left: it leaves the
-- terminal as it is or brings it nearer to its eviction.
use aliangboard.Base.{
  ℕ, suc, ◌≤◌, Bool, true, false, ◌&&◌, ◌||◌, Option, none, some, [], ◌≡◌, refl, arith, if-split,
  ◌⊎◌, inl, inr, if◌then◌else◌,
}
use aliangboard.Terminal.{SessionPolicy, Reap, max_lifetime, attached_idle, detached_idle, keep}
use aliangboard.Terminal.Service.{
  Status, creating, attached, detached, detached_timeout, closing, lost, closed, is_status,
  Terminal,
}
use aliangboard.Terminal.Service.Valid.{has_ended}
use aliangboard.Terminal.Service.Operations.{claim_close}
use aliangboard.Terminal.Service.Sweep.{
  Round, sweep_stages, sweep_verdict, sweep_one, is_left, is_stuck, is_detached_long,
  is_backend_idle, is_evicted, closed_tombstone_min,
}
use aliangboard.Terminal.Service.Idle.{
  IsIdle, rounds_left, Progress, nearer, lost-Progress, close-Progress, claimed-Progress,
  timeout-Progress,
}
use aliangboard.Terminal.Service.Nearer.{
  IsLimit, later, left-Progress, attached_rounds, creating_rounds, lower,
}

-- The terminal as it was, or nearer to its eviction.
abbrev pub Same : Terminal → ℕ → ℕ → Option Terminal → Type 0
Same t now rounds o = (o ≡ some t) ⊎ Progress now rounds o

abbrev RoundSame : Terminal → ℕ → ℕ → Round → Type 0
RoundSame t now rounds r = Same t now rounds r.kept

detached_rounds : (s : Status) → is_status s detached ≡ true → rounds_left s ≡ 3
detached_rounds detached h = refl
detached_rounds s h = absurd (ground arith)

timeout_rounds : (s : Status) → is_status s detached_timeout ≡ true → rounds_left s ≡ 2
timeout_rounds detached_timeout h = refl
timeout_rounds s h = absurd (ground arith)

live_rounds : (s : Status) → has_ended s ≡ false → is_status s closing ≡ false → 2 ≤ rounds_left s
live_rounds creating a b = omega arith
live_rounds attached a b = omega arith
live_rounds detached a b = omega arith
live_rounds detached_timeout a b = omega arith
live_rounds closing a b = absurd (ground arith)
live_rounds lost a b = absurd (ground arith)
live_rounds closed a b = absurd (ground arith)

sweep_stages-RoundSame :
    (policy : SessionPolicy) (now : ℕ) (t : Terminal) (rounds : ℕ)
    → IsIdle now t
    → rounds_left t.status ≤ suc rounds
    → RoundSame t now rounds (sweep_stages policy now t [] [])
unfolding sweep_stages
sweep_stages-RoundSame policy now t rounds idle bound =
    if-split (RoundSame t now rounds) (is_detached_long policy now t)
      (λ long.
        let here : is_status t.status detached ≡ true = ground arith in
        inr (
          nearer (omega (arith, bound, detached_rounds t.status here))
            (timeout-Progress now "reaped-detached-idle" t idle here)))
      (λ short.
        if-split (RoundSame t now rounds) (is_backend_idle policy now t && (claim_close now t).0)
          (λ unused.
            let here : is_status t.status detached_timeout ≡ true = ground arith in
            inr (
              nearer (omega (arith, bound, timeout_rounds t.status here))
                (claimed-Progress now "reaped-backend-idle" t idle (ground arith))))
          (λ used. inl refl))

sweep_verdict-RoundSame :
    (verdict : Reap) (policy : SessionPolicy) (now : ℕ) (t : Terminal) (rounds : ℕ)
    → IsIdle now t
    → has_ended t.status ≡ false
    → rounds_left t.status ≤ suc rounds
    → RoundSame t now rounds (sweep_verdict verdict policy now t [] [])
unfolding sweep_verdict
sweep_verdict-RoundSame max_lifetime policy now t rounds idle live bound = inr (
    nearer (omega (arith, bound, live_rounds t.status live idle.not_closing))
      (close-Progress now "reaped-max-lifetime" t true idle (ground arith)))
sweep_verdict-RoundSame attached_idle policy now t rounds idle live bound =
    if-split (RoundSame t now rounds) (is_status t.status attached)
      (λ here. inr (
        nearer (omega (arith, bound, live_rounds t.status live idle.not_closing))
          (close-Progress now "reaped-attached-idle" t true idle (ground arith))))
      (λ other. sweep_stages-RoundSame policy now t rounds idle bound)
sweep_verdict-RoundSame detached_idle policy now t rounds idle live bound =
    sweep_stages-RoundSame policy now t rounds idle bound
sweep_verdict-RoundSame keep policy now t rounds idle live bound =
    sweep_stages-RoundSame policy now t rounds idle bound

evicted-Same :
    (b : Bool) (t : Terminal) (now rounds : ℕ) → Same t now rounds (if b then none else some t)
evicted-Same true t now rounds = inr tt
evicted-Same false t now rounds = inl refl

-- A round at any later time.
pub sweep_one-Same :
    (policy : SessionPolicy) (tombstone : Option ℕ) (limit : ℕ)
    (lim : IsLimit policy tombstone limit) (since now : ℕ) (t : Terminal) (rounds : ℕ)
    → since ≤ now
    → IsIdle since t
    → rounds_left t.status ≤ suc rounds
    → RoundSame t now rounds (sweep_one policy tombstone now t)
unfolding sweep_one
sweep_one-Same policy tombstone limit lim since now t rounds le idle bound =
    let idle_now = later policy tombstone limit lim since now t le idle in
    if-split (RoundSame t now rounds) (is_status t.status closed || is_status t.status lost)
      (λ over. evicted-Same (is_evicted (closed_tombstone_min tombstone) now t) t now rounds)
      (λ runs.
        if-split (RoundSame t now rounds) (is_left t)
          (λ left.
            let here : is_status t.status attached ≡ true = ground arith in
            inr (
              lower policy tombstone limit lim now 3 rounds _
                (omega (arith, bound, attached_rounds policy tombstone limit lim t.status here))
                (left-Progress policy tombstone limit lim now t idle_now here _)))
          (λ used.
            if-split (RoundSame t now rounds) (is_stuck now t)
              (λ stuck.
                let here : is_status t.status creating ≡ true = ground arith in
                inr (
                  nearer
                    (omega (arith, bound, creating_rounds policy tombstone limit lim t.status here))
                    (lost-Progress now "reconcile-create-timeout" t idle_now here)))
              (λ going. sweep_verdict-RoundSame _ policy now t rounds idle_now runs bound)))
