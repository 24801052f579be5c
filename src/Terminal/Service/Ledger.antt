-- ===== src/Terminal/Service/Ledger.antt =====
-- What any sequence of calls does to the status of a terminal and to the handles bound to it.
use aliangboard.Base.{
  ℕ, ◌+◌, String, Bool, not, ◌&&◌, ◌||◌, Option, none, some, List, [], ◌∷◌, ◌≡◌, refl, ap, subst,
  arith, if-elim, get_or, is_some, if◌then◌else◌, true, false,
}
use aliangboard.Terminal.{SessionPolicy, Reap, max_lifetime, attached_idle, detached_idle, keep}
use aliangboard.Terminal.Service.{
  Status, creating, attached, detached, detached_timeout, closing, lost, closed, is_status,
  can_transition, Terminal, Effect, Result, new_terminal,
}
use aliangboard.Terminal.Service.Valid.{has_ended}
use aliangboard.Terminal.Service.Handles.{
  releases, channel_closes, held, releases-append, channel_closes-append, Keeps, keeps_still,
  keeps_then, move-Keeps, Moves, stays, goes, Moves-trans,
}
use aliangboard.Terminal.Service.HandleSteps.{
  mark_lost-Keeps, mark_backend_failed-Keeps, attach-KeepsAfter, attach_resume-KeepsAfter,
  detach-Keeps, set_cwd-Keeps, output_to-Keeps, abandon-Keeps, claim_close-KeepsAfter,
  close-KeepsAfter, close_by_server-Keeps,
}
use aliangboard.Terminal.Service.Operations.{
  claim_close, on_shell, bind_release, touch, resolve_ready,
}
use aliangboard.Terminal.Service.Sweep.{
  Round, sweep_stages, sweep_verdict, sweep_one, is_evicted, closed_tombstone_min, is_left,
  is_stuck, is_detached_long, is_backend_idle,
}
use aliangboard.Terminal.Service.Runs.{run-IsValid, new_terminal-IsValid}
use aliangboard.Terminal.Service.Calls.{
  TerminalCall, attach_call, resume_call, detach_call, touch_call, cwd_call, output_call,
  ready_call, failed_call, release_call, shell_call, lost_call, abandon_call, claim_call,
  close_call, server_call, sweep_call, swept, step, run,
}

abbrev RoundKeeps : Terminal → Round → Type 0
RoundKeeps t r = Keeps t (swept t r)

sweep_stages-Keeps :
    (policy : SessionPolicy) (now : ℕ) (t u : Terminal) (fx : List Effect) (actions : List String)
    → Keeps t (u, fx)
    → RoundKeeps t (sweep_stages policy now u fx actions)
unfolding sweep_stages
sweep_stages-Keeps policy now t u fx actions k =
    if-elim (RoundKeeps t) (is_detached_long policy now u)
      (keeps_then k (move-Keeps now detached_timeout "reaped-detached-idle" u))
      (if-elim (RoundKeeps t) (is_backend_idle policy now u && (claim_close now u).0)
        (keeps_then (keeps_then k (claim_close-KeepsAfter now u))
          (move-Keeps now closed "reaped-backend-idle" (claim_close now u).1))
        k)

sweep_verdict-Keeps :
    (verdict : Reap) (policy : SessionPolicy) (now : ℕ) (t u : Terminal) (fx : List Effect)
    (actions : List String)
    → Keeps t (u, fx)
    → RoundKeeps t (sweep_verdict verdict policy now u fx actions)
unfolding sweep_verdict
sweep_verdict-Keeps max_lifetime policy now t u fx actions k =
    keeps_then k (move-Keeps now closed "reaped-max-lifetime" (record u { closing = true }))
sweep_verdict-Keeps attached_idle policy now t u fx actions k =
    if-elim (RoundKeeps t) (is_status u.status attached)
      (keeps_then k (move-Keeps now closed "reaped-attached-idle" (record u { closing = true })))
      (sweep_stages-Keeps policy now t u fx actions k)
sweep_verdict-Keeps detached_idle policy now t u fx actions k =
    sweep_stages-Keeps policy now t u fx actions k
sweep_verdict-Keeps keep policy now t u fx actions k =
    sweep_stages-Keeps policy now t u fx actions k

sweep_one-Keeps :
    (policy : SessionPolicy) (tombstone : Option ℕ) (now : ℕ) (t : Terminal)
    → RoundKeeps t (sweep_one policy tombstone now t)
unfolding sweep_one
sweep_one-Keeps policy tombstone now t =
    if-elim (RoundKeeps t) (is_status t.status closed || is_status t.status lost)
      (evicted (is_evicted (closed_tombstone_min tombstone) now t))
      (if-elim (RoundKeeps t) (is_left t)
        (sweep_verdict-Keeps _ policy now t _ _ _ (move-Keeps now detached "reconcile-detached" t))
        (if-elim (RoundKeeps t) (is_stuck now t) (mark_lost-Keeps now "reconcile-create-timeout" t)
          (sweep_verdict-Keeps _ policy now t t [] [] keeps_still)))
  where
    evicted : (b : Bool) → Keeps t (get_or (if b then none else some t) t, [])
    evicted true = keeps_still
    evicted false = keeps_still

-- How many handles a call hands to the terminal.
abbrev pub bound_release : TerminalCall → Terminal → ℕ
bound_release (release_call r) t =
    if is_status t.status creating && not (is_some t.release) then 1 else 0
bound_release call t = 0

abbrev pub bound_channel : TerminalCall → Terminal → ℕ
bound_channel (shell_call c) t = if is_some t.channel then 0 else 1
bound_channel call t = 0

-- The status follows the table, and each handle that was held or bound is held or was given back, once.
pub record IsAccounted (t : Terminal) (r : Result) (in_release in_channel : ℕ) : Type 0 where
  pub moves : Moves t.status t.status_version r.0.status r.0.status_version
  pub released : releases r.1 + held r.0.release ≡ held t.release + in_release
  pub channel_closed : channel_closes r.1 + held r.0.channel ≡ held t.channel + in_channel

Keeps-IsAccounted : (t : Terminal) (r : Result) → Keeps t r → IsAccounted t r 0 0
Keeps-IsAccounted t r k = record {
  moves = k.moves;
  released = omega (arith, k.released);
  channel_closed = omega (arith, k.channel_closed);
}

held_none : (o : Option ℕ) → is_some o ≡ false → held o ≡ 0
held_none none h = refl
held_none (some r) h = absurd (ground arith)

bind-IsAccounted :
    (b : Bool) (r : ℕ) (t : Terminal)
    → (b ≡ true → is_some t.release ≡ false)
    → IsAccounted t (if b then bind_release r t else (t, [])) (if b then 1 else 0) 0
bind-IsAccounted true r t free = record {
  moves = stays;
  released = omega (arith, held_none t.release (free refl));
  channel_closed = omega arith;
}
bind-IsAccounted false r t free = Keeps-IsAccounted t (t, []) keeps_still

shell-IsAccounted :
    (channel : Option ℕ) (c : ℕ) (t : Terminal)
    → t.channel ≡ channel
    → IsAccounted t
        (if is_some channel then (t, []) else on_shell c t)
        0
        (if is_some channel then 0 else 1)
unfolding on_shell
shell-IsAccounted (some held_channel) c t e = Keeps-IsAccounted t (t, []) keeps_still
shell-IsAccounted none c t e =
    if-elim (λ (r : Result). IsAccounted t r 0 1)
      (is_status t.status closed
        || (is_status t.status lost || (is_status t.status closing || t.closing)))
      (record { moves = stays; released = omega arith; channel_closed = omega arith })
      (record { moves = stays; released = omega arith; channel_closed = omega (arith, ap held e) })

step-IsAccounted :
    (now : ℕ) (call : TerminalCall) (t : Terminal)
    → IsAccounted t (step now call t) (bound_release call t) (bound_channel call t)
step-IsAccounted now (attach_call c s) t = Keeps-IsAccounted t _ (attach-KeepsAfter now c s t)
step-IsAccounted now (resume_call c s) t =
    Keeps-IsAccounted t _ (attach_resume-KeepsAfter now c s t)
step-IsAccounted now (detach_call c reason) t = Keeps-IsAccounted t _ (detach-Keeps now c reason t)
step-IsAccounted now touch_call t = Keeps-IsAccounted t (touch now t) keeps_still
step-IsAccounted now (cwd_call cwd) t = Keeps-IsAccounted t _ (set_cwd-Keeps cwd t)
step-IsAccounted now (output_call n chunk) t =
    Keeps-IsAccounted t _ (output_to-Keeps t.ring n now chunk t)
step-IsAccounted now ready_call t = Keeps-IsAccounted t (resolve_ready t) keeps_still
step-IsAccounted now (failed_call e) t = Keeps-IsAccounted t _ (mark_backend_failed-Keeps now e t)
step-IsAccounted now (release_call r) t =
    bind-IsAccounted (is_status t.status creating && not (is_some t.release)) r t
      (λ fresh. ground arith)
step-IsAccounted now (shell_call c) t = shell-IsAccounted t.channel c t refl
step-IsAccounted now (lost_call reason) t = Keeps-IsAccounted t _ (mark_lost-Keeps now reason t)
step-IsAccounted now (abandon_call c) t = Keeps-IsAccounted t _ (abandon-Keeps now c t)
step-IsAccounted now claim_call t = Keeps-IsAccounted t _ (claim_close-KeepsAfter now t)
step-IsAccounted now (close_call reason force) t =
    Keeps-IsAccounted t _ (close-KeepsAfter now reason force t)
step-IsAccounted now (server_call id reason) t =
    Keeps-IsAccounted t _ (close_by_server-Keeps now id reason t)
step-IsAccounted now (sweep_call policy tombstone) t =
    Keeps-IsAccounted t _ (sweep_one-Keeps policy tombstone now t)

-- The handles that a sequence of calls hands to the terminal.
abbrev pub bound : (TerminalCall → Terminal → ℕ) → List (ℕ × TerminalCall) → Terminal → ℕ
bound by [] t = 0
bound by ((now, call) ∷ calls) t = by call t + bound by calls (step now call t).0

run-IsAccounted :
    (calls : List (ℕ × TerminalCall)) (t : Terminal)
    → IsAccounted t (run calls t) (bound bound_release calls t) (bound bound_channel calls t)
run-IsAccounted [] t = Keeps-IsAccounted t (t, []) keeps_still
run-IsAccounted ((now, call) ∷ calls) t =
    let a = step-IsAccounted now call t in
    let u = (step now call t).0 in
    let rest = run-IsAccounted calls u in
    record {
      moves = Moves-trans a.moves rest.moves;
      released =
          omega
            (arith, a.released, rest.released, releases-append (step now call t).1 (run calls u).1);
      channel_closed = omega (
        arith,
        a.channel_closed,
        rest.channel_closed,
        channel_closes-append (step now call t).1 (run calls u).1,
      );
    }

-- Every sequence of calls, in any order, takes the status of a terminal from what it was to what it is
-- then along a path of the table of the transitions that has as many steps as the version of the
-- status went up: each change of the status is one step of the table and is counted once.
pub run-Moves :
    (calls : List (ℕ × TerminalCall)) (t : Terminal)
    → let u = (run calls t).0 in Moves t.status t.status_version u.status u.status_version
run-Moves calls t = (run-IsAccounted calls t).moves

from_closed : {s : Status} {v w : ℕ} → Moves closed v s w → s ≡ closed
unfolding can_transition
from_closed stays = refl
from_closed (goes can m) = absurd (ground arith)

-- A closed terminal stays closed, whatever is called.
pub run_closed :
    (calls : List (ℕ × TerminalCall)) (t : Terminal)
    → t.status ≡ closed
    → (run calls t).0.status ≡ closed
run_closed calls t e =
    let u = (run calls t).0 in
    from_closed
      (subst (λ s. Moves s t.status_version u.status u.status_version) e (run-Moves calls t))

-- A new terminal that has ended after some calls, whatever they were and their order, gave back pool
-- handles as often as one was bound to it, and closed as many channels as its shell brought.
pub run-new_terminal :
    (now : ℕ) (id owner server_id backend title : String) (calls : List (ℕ × TerminalCall))
    → has_ended (run calls (new_terminal now id owner server_id backend title)).0.status ≡ true
    → let t = new_terminal now id owner server_id backend title in
      (releases (run calls t).1 ≡ bound bound_release calls t)
      × (channel_closes (run calls t).1 ≡ bound bound_channel calls t)
run-new_terminal now id owner server_id backend title calls ended =
    let t = new_terminal now id owner server_id backend title in
    let a = run-IsAccounted calls t in
    let valid = new_terminal-IsValid now id owner server_id backend title in
    let free = (run-IsValid calls t valid).is_freed ended in
    (
      omega (arith, a.released, ap held free.no_release),
      omega (arith, a.channel_closed, ap held free.no_channel),
    )
