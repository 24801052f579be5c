-- ===== src/Terminal/Service/Eviction.antt =====
-- A terminal that nobody uses leaves the service, however the rounds of the sweep are spaced.
use mathlib.Core.Option.{some-injective}
use aliangboard.Base.{
  ℕ, zero, suc, ◌+◌, ◌*◌, ◌≤◌, ◌<◌, false, Option, none, some, List, [], ◌∷◌, ◌≡◌, refl, arith, ◌⊎◌,
  inl, inr, Bool-cases, ltb, ltb→lt, subst, sym,
}
use aliangboard.Terminal.{SessionPolicy}
use aliangboard.Terminal.Service.{
  Status, creating, attached, detached, detached_timeout, closing, lost, closed, is_status,
  Terminal,
}
use aliangboard.Terminal.Service.Sweep.{sweep_one}
use aliangboard.Terminal.Service.Nearer.{IsLimit, sweep_one-Progress}
use aliangboard.Terminal.Service.Early.{Same, sweep_one-Same}
use aliangboard.Terminal.Service.Idle.{IsIdle, rounds_left, Progress}

-- The rounds at the given times, up to the eviction.
abbrev pub sweep_until : SessionPolicy → Option ℕ → List ℕ → Terminal → Option Terminal
sweep_until policy tombstone [] t = some t
sweep_until policy tombstone (now ∷ times) t = elim (sweep_one policy tombstone now t).kept [
  | none ↦ none
  | some u ↦ sweep_until policy tombstone times u
]

-- Each round is at most `gap` after the one before, the first after `prev`.
abbrev pub IsPaced : ℕ → ℕ → List ℕ → Type 0
IsPaced gap prev [] = Unit
IsPaced gap prev (now ∷ times) = (prev ≤ now) × (now ≤ prev + gap) × IsPaced gap now times

abbrev pub last_round : ℕ → List ℕ → ℕ
last_round prev [] = prev
last_round prev (now ∷ times) = last_round now times

some_left : (s : Status) → is_status s closing ≡ false → 1 ≤ rounds_left s
some_left creating h = omega arith
some_left attached h = omega arith
some_left detached h = omega arith
some_left detached_timeout h = omega arith
some_left closing h = absurd (ground arith)
some_left lost h = omega arith
some_left closed h = omega arith

-- The time that a number of rounds nearer may take.
abbrev time_for : ℕ → ℕ → ℕ
time_for zero d = 0
time_for (suc rounds) d = d + time_for rounds d

module _ (policy : SessionPolicy) (tombstone : Option ℕ) (limit gap : ℕ)
    (lim : IsLimit policy tombstone limit) where
  -- A round that is late enough brings the terminal nearer, and any other may.
  round-Same :
      (since now : ℕ) (t : Terminal) (rounds : ℕ)
      → since ≤ now
      → IsIdle since t
      → rounds_left t.status ≤ suc rounds
      → let o = (sweep_one policy tombstone now t).kept in
        ((now ≤ since + limit) × Same t now rounds o) ⊎ Progress now rounds o
  round-Same since now t rounds le idle bound = elim (Bool-cases (ltb (since + limit) now)) [
    | inl late ↦ inr (
        sweep_one-Progress policy tombstone limit lim since now t rounds
          (ltb→lt (since + limit) now late) idle bound)
    | inr early ↦
        inl
          (ground arith, sweep_one-Same policy tombstone limit lim since now t rounds le idle bound)
  ]

  after_round :
      (t : Terminal) (now rounds early : ℕ) (times : List ℕ) (o : Option Terminal)
      → (now ≤ early → sweep_until policy tombstone times t ≡ none)
      → ((u : Terminal)
          → IsIdle now u
          → rounds_left u.status ≤ rounds
          → sweep_until policy tombstone times u ≡ none)
      → ((now ≤ early) × Same t now rounds o) ⊎ Progress now rounds o
      → (elim o [ none ↦ none | some u ↦ sweep_until policy tombstone times u ]) ≡ none
  after_round t now rounds early times none still near p = refl
  after_round t now rounds early times (some u) still near (inr (idle, bound)) = near u idle bound
  after_round t now rounds early times (some u) still near (inl (le, inr (idle, bound))) =
      near u idle bound
  after_round t now rounds early times (some u) still near (inl (le, inl same)) =
      subst (λ v. sweep_until policy tombstone times v ≡ none) (sym (some-injective u t same))
        (still le)

  rounds-evict :
      (rounds since prev : ℕ) (times : List ℕ) (t : Terminal)
      → IsIdle since t
      → since ≤ prev
      → prev ≤ since + limit
      → IsPaced gap prev times
      → rounds_left t.status ≤ rounds
      → since + time_for rounds (limit + gap) < last_round prev times
      → sweep_until policy tombstone times t ≡ none
  rounds-evict zero since prev times t idle le near paced bound long =
      absurd (omega (arith, some_left t.status idle.not_closing, bound))
  rounds-evict (suc rounds) since prev [] t idle le near paced bound long =
      absurd (omega (arith, near, long))
  rounds-evict (suc rounds) since prev (now ∷ times) t idle le near (after, soon, paced) bound
        long =
      after_round t now rounds (since + limit) times (sweep_one policy tombstone now t).kept
        (λ early.
          rounds-evict (suc rounds) since now times t idle (omega (arith, le, after)) early paced
            bound long)
        (λ u idle_u bound_u.
          rounds-evict rounds now now times u idle_u (omega arith) (omega arith) paced bound_u
            (omega (arith, near, soon, long)))
        (round-Same since now t rounds (omega (arith, le, after)) idle bound)

  -- With all three timeouts in use, a terminal that nobody is attached to, waits for or has begun to
  -- close at `prev` leaves the service, in whatever status it is: the rounds of the sweep from then on,
  -- each at most `gap` after the one before, evict it where the last of them is more than four
  -- times `limit + gap` after `prev`, for a `limit` that is at least a minute and that none of the three
  -- timeouts exceeds.
  pub sweep_until-evicts :
      (prev : ℕ) (times : List ℕ) (t : Terminal)
      → IsIdle prev t
      → IsPaced gap prev times
      → prev + 4 * (limit + gap) < last_round prev times
      → sweep_until policy tombstone times t ≡ none
  sweep_until-evicts prev times t idle paced long =
      rounds-evict 4 prev prev times t idle (omega arith) (omega arith) paced (at_most t.status)
        (omega (arith, long))
    where
      at_most : (s : Status) → rounds_left s ≤ 4
      at_most creating = omega arith
      at_most attached = omega arith
      at_most detached = omega arith
      at_most detached_timeout = omega arith
      at_most closing = omega arith
      at_most lost = omega arith
      at_most closed = omega arith
