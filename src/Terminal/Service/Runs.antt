-- ===== src/Terminal/Service/Runs.antt =====
-- Every sequence of calls keeps a terminal valid.
use aliangboard.Base.{
  ℕ, String, Option, none, some, List, [], ◌∷◌, refl, arith, if-elim, if-split, ◌&&◌, not, is_some,
  get_or,
}
use aliangboard.Terminal.Service.{creating, is_status, Terminal, Result, new_terminal}
use aliangboard.Terminal.Service.Valid.{IsValid}
use aliangboard.Terminal.Service.Sweep.{sweep_one}
use aliangboard.Terminal.Service.Rounds.{IsValidKept, sweep_one-IsValid}
use aliangboard.Terminal.Service.Steps.{
  attach-IsValidAfter, attach_resume-IsValid, detach-IsValid, set_cwd-IsValid, mark_output-IsValid,
  mark_backend_failed-IsValid, bind_release-IsValid, on_shell-IsValid, mark_lost-IsValid,
  abandon-IsValid, claim_close-IsValid, close-IsValid, close_by_server-IsValid,
}
use aliangboard.Terminal.Service.Calls.{
  TerminalCall, attach_call, resume_call, detach_call, touch_call, cwd_call, output_call,
  ready_call, failed_call, release_call, shell_call, lost_call, abandon_call, claim_call,
  close_call, server_call, sweep_call, step, run,
}

kept_or : (o : Option Terminal) (t : Terminal) → IsValid t → IsValidKept o → IsValid (get_or o t)
kept_or none t v k = v
kept_or (some u) t v k = k

pub step-IsValid :
    (now : ℕ) (call : TerminalCall) (t : Terminal) → IsValid t → IsValid (step now call t).0
step-IsValid now (attach_call c s) t v = attach-IsValidAfter now c s t v
step-IsValid now (resume_call c s) t v = attach_resume-IsValid now c s t v
step-IsValid now (detach_call c reason) t v = detach-IsValid now c reason t v
step-IsValid now touch_call t v = v
step-IsValid now (cwd_call cwd) t v = set_cwd-IsValid cwd t v
step-IsValid now (output_call n chunk) t v = mark_output-IsValid n now chunk t v
step-IsValid now ready_call t v = v
step-IsValid now (failed_call e) t v = mark_backend_failed-IsValid now e t v
step-IsValid now (release_call r) t v =
    if-split (λ (x : Result). IsValid x.0) (is_status t.status creating && not (is_some t.release))
      (λ fresh. bind_release-IsValid r t v (ground arith)) (λ bound. v)
step-IsValid now (shell_call c) t v =
    if-elim (λ (x : Result). IsValid x.0) (is_some t.channel) v (on_shell-IsValid c t v)
step-IsValid now (lost_call reason) t v = mark_lost-IsValid now reason t v
step-IsValid now (abandon_call c) t v = abandon-IsValid now c t v
step-IsValid now claim_call t v = claim_close-IsValid now t v
step-IsValid now (close_call reason force) t v = close-IsValid now reason force t v
step-IsValid now (server_call id reason) t v = close_by_server-IsValid now id reason t v
step-IsValid now (sweep_call policy tombstone) t v =
    kept_or (sweep_one policy tombstone now t).kept t v (sweep_one-IsValid policy tombstone now t v)

-- Every sequence of calls, in any order and at any times, keeps a terminal valid: one that has ended
-- holds no connection, no waiting socket, no channel, no pool handle and no output, and knows its end;
-- one that is being created, is detached or has timed out has no connection; and one is claimed only
-- where it closes or is closed.
pub run-IsValid :
    (calls : List (ℕ × TerminalCall)) (t : Terminal) → IsValid t → IsValid (run calls t).0
run-IsValid [] t v = v
run-IsValid ((now, call) ∷ calls) t v =
    run-IsValid calls (step now call t).0 (step-IsValid now call t v)

pub new_terminal-IsValid :
    (now : ℕ) (id owner server_id backend title : String)
    → IsValid (new_terminal now id owner server_id backend title)
new_terminal-IsValid now id owner server_id backend title = record {
  is_freed = λ h. absurd (ground arith);
  unattended = λ h. refl;
  claimed = λ h. absurd (ground arith);
}
