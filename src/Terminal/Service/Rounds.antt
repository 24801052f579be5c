-- ===== src/Terminal/Service/Rounds.antt =====
-- A round of the sweep keeps a terminal valid.
use aliangboard.Base.{
  ℕ, String, true, false, ◌&&◌, ◌||◌, Option, none, some, List, [], ◌∷◌, ◌≡◌, refl, arith, if-elim,
  if-split, length, eqb, subst, sym,
}
use aliangboard.Terminal.{SessionPolicy, Reap, max_lifetime, attached_idle, detached_idle, keep}
use aliangboard.Terminal.Service.{
  attached, detached, detached_timeout, lost, closed, is_status, Attachment, Terminal, Effect, move,
}
use aliangboard.Terminal.Service.Valid.{
  IsValid, move-enters, can_detach, move-IsValid, claim-IsValid,
}
use aliangboard.Terminal.Service.Operations.{claim_close}
use aliangboard.Terminal.Service.Sweep.{
  Round, sweep_stages, sweep_verdict, sweep_one, is_evicted, closed_tombstone_min, is_left,
  is_stuck, is_detached_long, is_backend_idle,
}
use aliangboard.Terminal.Service.Steps.{mark_lost-IsValid, claim_close-IsValid}

-- What the round keeps is valid.
abbrev pub IsValidKept : Option Terminal → Type 0
IsValidKept none = Unit
IsValidKept (some t) = IsValid t

abbrev pub RoundIsValid : Round → Type 0
RoundIsValid r = IsValidKept r.kept

sweep_stages-IsValid :
    (policy : SessionPolicy) (now : ℕ) (t : Terminal) (fx : List Effect) (actions : List String)
    → IsValid t
    → RoundIsValid (sweep_stages policy now t fx actions)
unfolding sweep_stages
sweep_stages-IsValid policy now t fx actions v =
    if-split RoundIsValid (is_detached_long policy now t)
      (λ idle.
        move-IsValid now detached_timeout "reaped-detached-idle" t v
          (λ u. v.unattended (ground arith)) (λ claim. absurd (ground (arith, v.claimed claim))))
      (λ stays.
        if-split RoundIsValid (is_backend_idle policy now t && (claim_close now t).0)
          (λ idle.
            move-IsValid now closed "reaped-backend-idle" (claim_close now t).1
              (claim_close-IsValid now t v) (λ u. absurd (ground arith)) (λ h. refl))
          (λ stays_too. v))

sweep_verdict-IsValid :
    (verdict : Reap) (policy : SessionPolicy) (now : ℕ) (t : Terminal) (fx : List Effect)
    (actions : List String)
    → IsValid t
    → is_status t.status closed ≡ false
    → RoundIsValid (sweep_verdict verdict policy now t fx actions)
unfolding sweep_verdict
sweep_verdict-IsValid max_lifetime policy now t fx actions v open_still =
    claim-IsValid now "reaped-max-lifetime" t open_still
sweep_verdict-IsValid attached_idle policy now t fx actions v open_still =
    if-elim RoundIsValid (is_status t.status attached)
      (claim-IsValid now "reaped-attached-idle" t open_still)
      (sweep_stages-IsValid policy now t fx actions v)
sweep_verdict-IsValid detached_idle policy now t fx actions v open_still =
    sweep_stages-IsValid policy now t fx actions v
sweep_verdict-IsValid keep policy now t fx actions v open_still =
    sweep_stages-IsValid policy now t fx actions v

no_connections : (t : Terminal) → is_left t ≡ true → t.conn_ids ≡ []
no_connections t left = empty_of t.conn_ids (ground arith)
  where
    empty_of : (conns : List (ℕ × Attachment)) → eqb (length conns) 0 ≡ true → conns ≡ []
    empty_of [] h = refl
    empty_of (c ∷ conns) h = absurd (ground arith)

pub sweep_one-IsValid :
    (policy : SessionPolicy) (tombstone : Option ℕ) (now : ℕ) (t : Terminal)
    → IsValid t
    → RoundIsValid (sweep_one policy tombstone now t)
unfolding sweep_one
sweep_one-IsValid policy tombstone now t v =
    if-split RoundIsValid (is_status t.status closed || is_status t.status lost)
      (λ over. if-elim IsValidKept (is_evicted (closed_tombstone_min tombstone) now t) tt v)
      (λ runs.
        if-split RoundIsValid (is_left t)
          (λ left.
            sweep_verdict-IsValid _ policy now repaired _ _
              (move-IsValid now detached "reconcile-detached" t v (λ u. no_connections t left)
                (λ h. refl))
              (subst (λ (r : Terminal). is_status r.status closed ≡ false)
                (sym (
                  move-enters now detached "reconcile-detached" t (ground arith)
                    (can_detach t.status (ground arith))))
                refl))
          (λ used.
            if-split RoundIsValid (is_stuck now t)
              (λ stuck. mark_lost-IsValid now "reconcile-create-timeout" t v)
              (λ going. sweep_verdict-IsValid _ policy now t [] [] v (ground arith))))
  where
    repaired : Terminal
    repaired = (move now detached "reconcile-detached" t).0
