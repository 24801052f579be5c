-- ===== src/Retry/Sleep.antt =====
-- The waits of the ladder: their length, and how soon a stop is noticed.
use aliangboard.Base.{
  ℕ, zero, suc, ◌+◌, ◌-◌, ◌≤◌, min, ◌≡◌, refl, Bool, false, eqb, arith, Bool-cases, inl, inr,
}
use aliangboard.Retry.{sleep, sleep_interruptible}

module _ (should_abort : ℕ → Bool) (slice : ℕ) where
  sleep_lem :
      (fuel now left : ℕ)
      → 1 ≤ slice
      → left ≤ fuel
      → ((sleep should_abort slice fuel now left).1 ≡ false
          → (sleep should_abort slice fuel now left).0 ≡ now + left)
        × (should_abort (sleep should_abort slice fuel now left).0
            ≡ (sleep should_abort slice fuel now left).1)
        × ((sleep should_abort slice fuel now left).0 ≤ now + left)
  unfolding sleep
  sleep_lem zero now left some_slice enough = (λ _. omega (arith, enough), refl, omega arith)
  sleep_lem (suc fuel) now left some_slice enough = elim (Bool-cases (eqb left 0)) [
    | inl over ↦ rw over (λ _. ground arith, refl, omega arith)
    | inr more ↦ elim (Bool-cases (should_abort now)) [
      | inl stopped ↦ rw (more, stopped) (λ e. cc, stopped, omega arith)
      | inr goes_on ↦
          let positive : 1 ≤ left = ground arith in
          let (whole, asked, bound) =
            sleep_lem fuel (now + min slice left) (left - min slice left) some_slice
              (omega (arith, positive, some_slice, enough)) in
          rw (more, goes_on) (λ e. omega (arith, whole e), asked, omega (arith, bound))
    ]
  ]

  -- A wait of slices of at least one millisecond that is not stopped lasts exactly as long as it was
  -- asked to, none lasts longer, and it is stopped exactly where the last question was answered so.
  pub sleep_interruptible_lem :
      (now ms : ℕ)
      → 1 ≤ slice
      → let out = sleep_interruptible should_abort slice now ms in
        (out.1 ≡ false → out.0 ≡ now + ms) × (should_abort out.0 ≡ out.1) × (out.0 ≤ now + ms)
  sleep_interruptible_lem now ms some_slice = sleep_lem ms now ms some_slice (omega arith)
