-- ===== src/Terminal/Service/Calls.antt =====
-- The calls that one terminal gets, in any order, and what a sequence of them leaves and does. A channel
-- and a pool handle are bound as server/ssh/terminal-handler.mjs binds them, once to a terminal that has
-- none; `reconcileOnBoot`, which runs before there are terminals, is no call.
use aliangboard.Base.{
  ℕ, String, Bool, Option, List, [], ◌∷◌, ◌++◌, if◌then◌else◌, is_some, get_or, ◌&&◌, not,
}
use aliangboard.Terminal.{SessionPolicy}
use aliangboard.Terminal.Service.{creating, is_status, Terminal, Result}
use aliangboard.Terminal.Service.Operations.{
  resolve_ready, mark_backend_failed, bind_release, on_shell, attach, attach_resume, detach, touch,
  set_cwd, mark_output, mark_lost, abandon, claim_close, close, close_by_server,
}
use aliangboard.Terminal.Service.Sweep.{Round, sweep_one}

pub data TerminalCall : Type 0 where
  attach_call : ℕ → ℕ → TerminalCall
  resume_call : ℕ → ℕ → TerminalCall
  detach_call : ℕ → String → TerminalCall
  touch_call : TerminalCall
  cwd_call : String → TerminalCall
  output_call : ℕ → List ℕ → TerminalCall
  ready_call : TerminalCall
  failed_call : String → TerminalCall
  release_call : ℕ → TerminalCall
  shell_call : ℕ → TerminalCall
  lost_call : String → TerminalCall
  abandon_call : ℕ → TerminalCall
  claim_call : TerminalCall
  close_call : String → Bool → TerminalCall
  server_call : String → String → TerminalCall
  sweep_call : SessionPolicy → Option ℕ → TerminalCall

-- A terminal that the round evicts stays as it is for those who still hold it.
abbrev pub swept : Terminal → Round → Result
swept t round = (get_or round.kept t, round.effects)

-- One call at a time `now`.
abbrev pub step : ℕ → TerminalCall → Terminal → Result
step now (attach_call conn_id socket) t =
    let (out, t', fx) = attach now conn_id socket t in (t', fx)
step now (resume_call conn_id socket) t =
    let (out, t', fx) = attach_resume now conn_id socket t in (t', fx)
step now (detach_call conn_id reason) t = detach now conn_id reason t
step now touch_call t = touch now t
step now (cwd_call cwd) t = set_cwd cwd t
step now (output_call max_bytes chunk) t = mark_output max_bytes now chunk t
step now ready_call t = resolve_ready t
step now (failed_call e) t = mark_backend_failed now e t
step now (release_call r) t =
    if is_status t.status creating && not (is_some t.release) then bind_release r t else (t, [])
step now (shell_call c) t = if is_some t.channel then (t, []) else on_shell c t
step now (lost_call reason) t = mark_lost now reason t
step now (abandon_call conn_id) t = abandon now conn_id t
step now claim_call t = let (ok, t', fx) = claim_close now t in (t', fx)
step now (close_call reason force) t = let (out, t', fx) = close now reason force t in (t', fx)
step now (server_call server_id reason) t = close_by_server now server_id reason t
step now (sweep_call policy tombstone) t = swept t (sweep_one policy tombstone now t)

-- The calls with their times, one after the other.
abbrev pub run : List (ℕ × TerminalCall) → Terminal → Result
run [] t = (t, [])
run ((now, call) ∷ calls) t =
    let (t', fx) = step now call t in let (last, later) = run calls t' in (last, fx ++ later)
