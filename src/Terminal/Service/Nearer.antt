-- ===== src/Terminal/Service/Nearer.antt =====
-- One round of the sweep brings a terminal that nobody uses nearer to its eviction.
use aliangboard.Base.{
  ℕ, suc, ◌+◌, ◌*◌, ◌≤◌, ◌<◌, String, true, false, ◌&&◌, ◌||◌, Option, none, some, List, [], ◌∷◌,
  ◌≡◌, refl, ap, arith, if-elim, if-split, length, get_or, is_some,
}
use aliangboard.Terminal.{
  SessionPolicy, Reap, max_lifetime, attached_idle, detached_idle, keep, is_over,
}
use aliangboard.Terminal.Service.{
  Status, creating, attached, detached, detached_timeout, closing, lost, closed, is_status,
  Terminal, Effect, move,
}
use aliangboard.Terminal.Service.Valid.{has_ended}
use aliangboard.Terminal.Service.Operations.{claim_close}
use aliangboard.Terminal.Service.Sweep.{
  Round, sweep_stages, sweep_verdict, sweep_one, is_evicted, closed_tombstone_min, is_left,
  is_stuck, is_detached_long, is_backend_idle,
}
use aliangboard.Terminal.Service.Idle.{
  IsIdle, rounds_left, Progress, nearer, lost-Progress, claim_close-free, close-Progress,
  claimed-Progress, timeout-Progress, detach-Progress,
}

abbrev RoundProgress : ℕ → ℕ → Round → Type 0
RoundProgress now rounds r = Progress now rounds r.kept

-- The stages, where what neither of them takes is near enough already.
sweep_stages-Progress :
    (policy : SessionPolicy) (now : ℕ) (t : Terminal) (fx : List Effect) (actions : List String)
    (rounds : ℕ)
    → IsIdle now t
    → 1 ≤ rounds
    → (is_detached_long policy now t ≡ true → 2 ≤ rounds)
    → (is_detached_long policy now t ≡ false
        → (is_backend_idle policy now t && (claim_close now t).0) ≡ false
        → rounds_left t.status ≤ rounds)
    → RoundProgress now rounds (sweep_stages policy now t fx actions)
unfolding sweep_stages
sweep_stages-Progress policy now t fx actions rounds idle some_left two_left near =
    if-split (RoundProgress now rounds) (is_detached_long policy now t)
      (λ long.
        nearer (two_left long) (timeout-Progress now "reaped-detached-idle" t idle (ground arith)))
      (λ short.
        if-split (RoundProgress now rounds) (is_backend_idle policy now t && (claim_close now t).0)
          (λ unused.
            nearer some_left (claimed-Progress now "reaped-backend-idle" t idle (ground arith)))
          (λ used. (idle, near short used)))

sweep_verdict-Progress :
    (verdict : Reap) (policy : SessionPolicy) (now : ℕ) (t : Terminal) (fx : List Effect)
    (actions : List String) (rounds : ℕ)
    → IsIdle now t
    → is_status t.status closed ≡ false
    → 1 ≤ rounds
    → RoundProgress now rounds (sweep_stages policy now t fx actions)
    → RoundProgress now rounds (sweep_verdict verdict policy now t fx actions)
unfolding sweep_verdict
sweep_verdict-Progress max_lifetime policy now t fx actions rounds idle open_still some_left
      stages =
    nearer some_left (close-Progress now "reaped-max-lifetime" t true idle open_still)
sweep_verdict-Progress attached_idle policy now t fx actions rounds idle open_still some_left
      stages =
    if-elim (RoundProgress now rounds) (is_status t.status attached)
      (nearer some_left (close-Progress now "reaped-attached-idle" t true idle open_still)) stages
sweep_verdict-Progress detached_idle policy now t fx actions rounds idle open_still some_left
      stages =
    stages
sweep_verdict-Progress keep policy now t fx actions rounds idle open_still some_left stages = stages

-- A limit that no threshold in use exceeds.
pub record IsLimit (policy : SessionPolicy) (tombstone : Option ℕ) (limit : ℕ) : Type 0 where
  pub stage_one : 0 < policy.detached_idle_min
  pub stage_two : 0 < policy.backend_idle_min
  pub evicts : 0 < closed_tombstone_min tombstone
  pub stage_one_below : policy.detached_idle_min * 60000 ≤ limit
  pub stage_two_below : policy.backend_idle_min * 60000 ≤ limit
  pub evicts_below : closed_tombstone_min tombstone * 60000 ≤ limit
  pub creation_below : 60000 ≤ limit

module _ (policy : SessionPolicy) (tombstone : Option ℕ) (limit : ℕ)
    (lim : IsLimit policy tombstone limit) where
  is_over_since :
      (minutes prev now : ℕ) (o : Option ℕ)
      → 0 < minutes
      → minutes * 60000 ≤ limit
      → prev + limit < now
      → is_some o ≡ true
      → get_or o 0 ≤ prev
      → is_over minutes (get_or o now) now ≡ true
  is_over_since minutes prev now none on below gap set before = absurd (ground arith)
  is_over_since minutes prev now (some since) on below gap set before = ground arith

  evicted_since :
      (prev now : ℕ) (t : Terminal)
      → prev + limit < now
      → is_some t.ended_at ≡ true
      → get_or t.ended_at 0 ≤ prev
      → is_evicted (closed_tombstone_min tombstone) now t ≡ true
  evicted_since prev now t gap set before = by_end t.ended_at refl set before
    where
      by_end :
          (o : Option ℕ)
          → t.ended_at ≡ o
          → is_some o ≡ true
          → get_or o 0 ≤ prev
          → is_evicted (closed_tombstone_min tombstone) now t ≡ true
      by_end none e set before = absurd (ground arith)
      by_end (some ended) e set before = rw e (ground (arith, lim.evicts, lim.evicts_below))

  pub later : (prev now : ℕ) (t : Terminal) → prev ≤ now → IsIdle prev t → IsIdle now t
  later prev now t le idle = record {
    unattended = idle.unattended;
    no_waiter = idle.no_waiter;
    unclaimed = idle.unclaimed;
    not_closing = idle.not_closing;
    created_before = omega (arith, idle.created_before);
    detached_anchor = idle.detached_anchor;
    detached_before = omega (arith, idle.detached_before);
    idle_anchor = idle.idle_anchor;
    idle_before = omega (arith, idle.idle_before);
    end_anchor = idle.end_anchor;
    ended_before = omega (arith, idle.ended_before);
  }

  pub left-Progress :
      (now : ℕ) (t : Terminal)
      → IsIdle now t
      → is_status t.status attached ≡ true
      → let (u, fx) = move now detached "reconcile-detached" t in
        (verdict : Reap)
        → RoundProgress now 3 (sweep_verdict verdict policy now u fx ("reconcile-detached" ∷ []))
  left-Progress now t idle from verdict =
      let (idle_u, is_detached, since) = detach-Progress now "reconcile-detached" t idle from in
      let u = (move now detached "reconcile-detached" t).0 in
      let fx = (move now detached "reconcile-detached" t).1 in
      sweep_verdict-Progress verdict policy now u fx ("reconcile-detached" ∷ []) 3 idle_u
        (ground arith) (omega arith)
        (sweep_stages-Progress policy now u fx ("reconcile-detached" ∷ []) 3 idle_u (omega arith)
          (λ long. omega arith) (λ short used. detached_rounds u.status is_detached))
    where
      detached_rounds : (s : Status) → is_status s detached ≡ true → rounds_left s ≤ 3
      detached_rounds detached h = omega arith
      detached_rounds s h = absurd (ground arith)

  -- The stages of a round, for a terminal that is at one of them.
  staged-Progress :
      (s : Status) (prev now : ℕ) (t : Terminal) (rounds : ℕ)
      → t.status ≡ s
      → prev + limit < now
      → IsIdle prev t
      → (is_status s detached || is_status s detached_timeout) ≡ true
      → rounds_left s ≤ suc rounds
      → RoundProgress now rounds (sweep_stages policy now t [] [])
  staged-Progress detached prev now t rounds e gap idle staged bound =
      let here = ap (λ s. is_status s detached) e in
      let over =
        is_over_since policy.detached_idle_min prev now t.detached_since lim.stage_one
          lim.stage_one_below gap (idle.detached_anchor here) idle.detached_before in
      sweep_stages-Progress policy now t [] [] rounds (later prev now t (omega (arith, gap)) idle)
        (omega (arith, bound)) (λ long. omega (arith, bound))
        (λ short used. absurd (ground (arith, here, over, short)))
  staged-Progress detached_timeout prev now t rounds e gap idle staged bound =
      let here = ap (λ s. is_status s detached_timeout) e in
      let over =
        is_over_since policy.backend_idle_min prev now t.backend_idle_since lim.stage_two
          lim.stage_two_below gap (idle.idle_anchor here) idle.idle_before in
      let free : t.closing ≡ false = ground (arith, idle.unclaimed, here) in
      sweep_stages-Progress policy now t [] [] rounds (later prev now t (omega (arith, gap)) idle)
        (omega (arith, bound)) (λ long. absurd (ground (arith, here, long)))
        (λ short used. absurd (ground (arith, here, over, used, claim_close-free now t here free)))
  staged-Progress s prev now t rounds e gap idle staged bound = absurd (ground arith)

  pub attached_rounds : (s : Status) → is_status s attached ≡ true → rounds_left s ≡ 4
  attached_rounds attached h = refl
  attached_rounds s h = absurd (ground arith)

  pub creating_rounds : (s : Status) → is_status s creating ≡ true → rounds_left s ≡ 2
  creating_rounds creating h = refl
  creating_rounds s h = absurd (ground arith)

  pub lower : (now m n : ℕ) (o : Option Terminal) → m ≤ n → Progress now m o → Progress now n o
  lower now m n none h p = tt
  lower now m n (some t) h p = nearer h p

  some_rounds :
      (s : Status)
      → (is_status s detached || is_status s detached_timeout) ≡ true
      → 2 ≤ rounds_left s
  some_rounds detached h = omega arith
  some_rounds detached_timeout h = omega arith
  some_rounds s h = absurd (ground arith)

  other_stage :
      (s : Status)
      → has_ended s ≡ false
      → is_status s attached ≡ false
      → is_status s creating ≡ false
      → is_status s closing ≡ false
      → (is_status s detached || is_status s detached_timeout) ≡ true
  other_stage detached a b c d = ground arith
  other_stage detached_timeout a b c d = ground arith
  other_stage s a b c d = absurd (ground arith)

  -- One round evicts an idle terminal or brings it nearer to its eviction.
  pub sweep_one-Progress :
      (prev now : ℕ) (t : Terminal) (rounds : ℕ)
      → prev + limit < now
      → IsIdle prev t
      → rounds_left t.status ≤ suc rounds
      → RoundProgress now rounds (sweep_one policy tombstone now t)
  unfolding sweep_one
  sweep_one-Progress prev now t rounds gap idle bound =
      if-split (RoundProgress now rounds) (is_status t.status closed || is_status t.status lost)
        (λ over. rw (evicted_since prev now t gap (idle.end_anchor over) idle.ended_before) tt)
        (λ runs.
          if-split (RoundProgress now rounds) (is_left t)
            (λ left.
              lower now 3 rounds _ (omega (arith, bound, attached_rounds t.status (ground arith)))
                (left-Progress now t idle_now (ground arith) _))
            (λ used.
              if-split (RoundProgress now rounds) (is_stuck now t)
                (λ stuck.
                  nearer (omega (arith, bound, creating_rounds t.status (ground arith)))
                    (lost-Progress now "reconcile-create-timeout" t idle_now (ground arith)))
                (λ going.
                  let staged = at_stage used going runs in
                  sweep_verdict-Progress _ policy now t [] [] rounds idle_now (ground arith)
                    (omega (arith, bound, some_rounds t.status staged))
                    (staged-Progress t.status prev now t rounds refl gap idle staged bound))))
    where
      idle_now : IsIdle now t
      idle_now = later prev now t (omega (arith, gap)) idle

      at_stage :
          is_left t ≡ false
          → is_stuck now t ≡ false
          → has_ended t.status ≡ false
          → (is_status t.status detached || is_status t.status detached_timeout) ≡ true
      at_stage used going runs =
          other_stage t.status runs
            (ground (arith, ap length idle.unattended, idle.no_waiter, used))
            (ground (arith, idle.no_waiter, idle.created_before, lim.creation_below, going))
            idle.not_closing
