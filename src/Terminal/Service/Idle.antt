-- ===== src/Terminal/Service/Idle.antt =====
-- A terminal that nobody uses, and what one round of the sweep makes of it.
use aliangboard.Base.{
  ℕ, suc, ◌≤◌, String, Bool, true, false, ◌||◌, not, Option, none, some, [], ◌≡◌, refl, sym, subst,
  inl, inr, arith, Bool-cases, get_or, is_some, if◌then◌else◌,
}
use aliangboard.Terminal.Service.{
  Status, creating, attached, detached, detached_timeout, closing, lost, closed, is_status,
  can_transition, Terminal, move, finish,
}
use aliangboard.Terminal.Service.Valid.{has_ended, move-enters, can_detach, can_close, can_claim}
use aliangboard.Terminal.Service.Operations.{claim_close, mark_lost}

-- At `prev` nobody is attached or waits, nobody closes it, and no anchor lies in the future.
pub record IsIdle (prev : ℕ) (t : Terminal) : Type 0 where
  pub unattended : t.conn_ids ≡ []
  pub no_waiter : t.waiters ≡ 0
  pub unclaimed : t.closing ≡ true → has_ended t.status ≡ true
  pub not_closing : is_status t.status closing ≡ false
  pub created_before : t.created_at ≤ prev
  pub detached_anchor : is_status t.status detached ≡ true → is_some t.detached_since ≡ true
  pub detached_before : get_or t.detached_since 0 ≤ prev
  pub idle_anchor : is_status t.status detached_timeout ≡ true → is_some t.backend_idle_since ≡ true
  pub idle_before : get_or t.backend_idle_since 0 ≤ prev
  pub end_anchor : has_ended t.status ≡ true → is_some t.ended_at ≡ true
  pub ended_before : get_or t.ended_at 0 ≤ prev

-- How many rounds it may still take.
abbrev pub rounds_left : Status → ℕ
rounds_left attached = 4
rounds_left detached = 3
rounds_left creating = 2
rounds_left detached_timeout = 2
rounds_left closing = 0
rounds_left lost = 1
rounds_left closed = 1

-- What a round keeps is idle and nearer to its eviction.
abbrev pub Progress : ℕ → ℕ → Option Terminal → Type 0
Progress now rounds none = Unit
Progress now rounds (some t) = IsIdle now t × (rounds_left t.status ≤ rounds)

pub finish-IsIdle :
    (now : ℕ) (to : Status) (reason : String) (t : Terminal)
    → IsIdle now t
    → has_ended to ≡ true
    → (claim : Bool) (from : Status) (version : ℕ)
    → let u = record t { status = from; closing = claim; status_version = version } in
      IsIdle now (finish now to reason u).0
finish-IsIdle now to reason t idle ended claim from version = record {
  unattended = refl;
  no_waiter = idle.no_waiter;
  unclaimed = λ h. ended;
  not_closing = ground arith;
  created_before = idle.created_before;
  detached_anchor = λ h. absurd (ground arith);
  detached_before = idle.detached_before;
  idle_anchor = λ h. absurd (ground arith);
  idle_before = idle.idle_before;
  end_anchor = λ h. (end_by t.ended_at idle.ended_before).0;
  ended_before = (end_by t.ended_at idle.ended_before).1;
}
  where
    end_by :
        (e : Option ℕ)
        → get_or e 0 ≤ now
        → let ended_at = if is_some e then e else some now in
          (is_some ended_at ≡ true) × (get_or ended_at 0 ≤ now)
    end_by none h = (refl, omega arith)
    end_by (some e) h = (refl, h)

-- Closing ends the idle terminal, claimed or not.
pub close-Progress :
    (now : ℕ) (reason : String) (t : Terminal) (claim : Bool)
    → IsIdle now t
    → is_status t.status closed ≡ false
    → Progress now 1 (some (move now closed reason (record t { closing = claim })).0)
close-Progress now reason t claim idle open_still =
    subst (λ (u : Terminal). Progress now 1 (some u))
      (sym (
        move-enters now closed reason (record t { closing = claim }) open_still
          (can_close t.status open_still)))
      (
        finish-IsIdle now closed reason t idle refl claim t.status (suc t.status_version),
        omega arith,
      )

claim_close-granted :
    (now : ℕ) (t : Terminal)
    → (claim_close now t).0 ≡ true
    → (claim_close now t).1
      ≡ record t { closing = true; status = closing; status_version = suc t.status_version }
unfolding claim_close
claim_close-granted now t granted =
    elim (Bool-cases (not (is_status t.status detached_timeout) || t.closing)) [
      | inl refused ↦ absurd (ground (arith, granted, refused))
      | inr fine ↦ rw fine (
          move-enters now closing "reaped-backend-idle" (record t { closing = true }) (ground arith)
            (can_claim t.status (ground arith)))
    ]

pub claimed-Progress :
    (now : ℕ) (reason : String) (t : Terminal)
    → IsIdle now t
    → (claim_close now t).0 ≡ true
    → Progress now 1 (some (move now closed reason (claim_close now t).1).0)
unfolding can_transition
claimed-Progress now reason t idle granted =
    subst (λ (u : Terminal). Progress now 1 (some (move now closed reason u).0))
      (sym (claim_close-granted now t granted))
      (subst (λ (u : Terminal). Progress now 1 (some u))
        (sym (
          move-enters now closed reason
            (record t { closing = true; status = closing; status_version = suc t.status_version })
            refl refl))
        (
          finish-IsIdle now closed reason t idle refl true closing (suc (suc t.status_version)),
          omega arith,
        ))

can_time_out :
    (from : Status) → is_status from detached ≡ true → can_transition from detached_timeout ≡ true
unfolding can_transition
can_time_out detached h = ground arith
can_time_out from h = absurd (ground arith)

pub timeout-Progress :
    (now : ℕ) (reason : String) (t : Terminal)
    → IsIdle now t
    → is_status t.status detached ≡ true
    → Progress now 2 (some (move now detached_timeout reason t).0)
timeout-Progress now reason t idle from =
    subst (λ (u : Terminal). Progress now 2 (some u))
      (sym (move-enters now detached_timeout reason t (ground arith) (can_time_out t.status from)))
      (
        record {
          unattended = idle.unattended;
          no_waiter = idle.no_waiter;
          unclaimed = λ h. absurd (ground (arith, idle.unclaimed h));
          not_closing = refl;
          created_before = idle.created_before;
          detached_anchor = λ h. absurd (ground arith);
          detached_before = idle.detached_before;
          idle_anchor = λ h. refl;
          idle_before = omega arith;
          end_anchor = λ h. absurd (ground arith);
          ended_before = idle.ended_before;
        },
        omega arith,
      )

pub detach-Progress :
    (now : ℕ) (reason : String) (t : Terminal)
    → IsIdle now t
    → is_status t.status attached ≡ true
    → let u = (move now detached reason t).0 in
      IsIdle now u × (is_status u.status detached ≡ true) × (u.detached_since ≡ some now)
detach-Progress now reason t idle from =
    subst
      (λ (u : Terminal).
        IsIdle now u × (is_status u.status detached ≡ true) × (u.detached_since ≡ some now))
      (sym (move-enters now detached reason t (ground arith) (can_detach t.status from)))
      (
        record {
          unattended = idle.unattended;
          no_waiter = idle.no_waiter;
          unclaimed = λ h. absurd (ground (arith, idle.unclaimed h));
          not_closing = refl;
          created_before = idle.created_before;
          detached_anchor = λ h. refl;
          detached_before = omega arith;
          idle_anchor = λ h. absurd (ground arith);
          idle_before = idle.idle_before;
          end_anchor = λ h. absurd (ground arith);
          ended_before = idle.ended_before;
        },
        refl,
        refl,
      )

-- The claim of a terminal that has timed out and is not claimed is granted.
pub claim_close-free :
    (now : ℕ) (t : Terminal)
    → is_status t.status detached_timeout ≡ true
    → t.closing ≡ false
    → (claim_close now t).0 ≡ true
unfolding claim_close
claim_close-free now t timed_out free = ground arith

can_lose : (from : Status) → is_status from creating ≡ true → can_transition from lost ≡ true
unfolding can_transition
can_lose creating h = ground arith
can_lose from h = absurd (ground arith)

pub lost-Progress :
    (now : ℕ) (reason : String) (t : Terminal)
    → IsIdle now t
    → is_status t.status creating ≡ true
    → Progress now 1 (some (mark_lost now reason t).0)
unfolding mark_lost
lost-Progress now reason t idle from =
    subst (λ (u : Terminal). Progress now 1 (some u))
      (sym (move-enters now lost reason failed (ground arith) (can_lose t.status from)))
      (
        finish-IsIdle now lost reason failed idle_failed refl t.closing t.status
            (suc t.status_version),
        omega arith,
      )
  where
    failed : Terminal
    failed = record t { last_error = some reason }

    idle_failed : IsIdle now failed
    idle_failed = record {
      unattended = idle.unattended;
      no_waiter = idle.no_waiter;
      unclaimed = idle.unclaimed;
      not_closing = idle.not_closing;
      created_before = idle.created_before;
      detached_anchor = idle.detached_anchor;
      detached_before = idle.detached_before;
      idle_anchor = idle.idle_anchor;
      idle_before = idle.idle_before;
      end_anchor = idle.end_anchor;
      ended_before = idle.ended_before;
    }

pub nearer :
    {now m n : ℕ} {t : Terminal} → m ≤ n → Progress now m (some t) → Progress now n (some t)
nearer h (idle, rounds) = (idle, omega (arith, rounds))
