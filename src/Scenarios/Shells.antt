-- ===== src/Scenarios/Shells.antt =====
-- The terminals of the service and their rings at concrete states.
use aliangboard.Base.{
  ℕ, zero, suc, ◌+◌, ◌-◌, ◌≤◌, ◌≡◌, refl, false, none, some, List, [], ◌∷◌, ◌++◌, if◌then◌else◌,
  length, drop, eqb, arith,
}
use aliangboard.Terminal.{SessionPolicy}
use aliangboard.Terminal.Ring.{Ring, empty_ring, push, concat, snapshot, snapshot_tail}
use aliangboard.Terminal.Ring.Contents.{IsRing, IsEnd, push_all, push_all-IsEnd}
use aliangboard.Terminal.Ring.Tail.{snapshot_tail_lem}
use aliangboard.Terminal.Service.{Terminal, creating, new_terminal, transition, can_transition}
use aliangboard.Terminal.Service.Operations.{attach, attach_resume, on_shell, close}
use aliangboard.Terminal.Service.Valid.{IsValid}
use aliangboard.Terminal.Service.Calls.{
  TerminalCall, attach_call, ready_call, resume_call, release_call, shell_call, output_call,
  close_call, run,
}
use aliangboard.Terminal.Service.Runs.{run-IsValid, new_terminal-IsValid}
use aliangboard.Terminal.Service.Handles.{Moves, releases, channel_closes}
use aliangboard.Terminal.Service.Ledger.{
  bound, bound_release, bound_channel, run-Moves, run-new_terminal,
}
use aliangboard.Terminal.Service.Eviction.{IsPaced, sweep_until, sweep_until-evicts}

abbrev chunks : List (List ℕ)
chunks = (1 ∷ 2 ∷ 3 ∷ []) ∷ (4 ∷ 5 ∷ []) ∷ []

push_all-IsEnd_example :
    IsRing 4 (push_all 4 empty_ring chunks)
    × IsEnd (snapshot (push_all 4 empty_ring chunks)) (snapshot empty_ring ++ concat chunks)
    × (length (snapshot empty_ring ++ concat chunks) ≤ 4
        → snapshot (push_all 4 empty_ring chunks) ≡ snapshot empty_ring ++ concat chunks)
push_all-IsEnd_example =
    push_all-IsEnd 4 empty_ring chunks (record { counted = refl; bounded = omega arith })

abbrev two_chunks : Ring ℕ
two_chunks = record { chunks = chunks; total = 5 }

snapshot_tail_lem_example : snapshot_tail two_chunks (some 3) ≡ (
    if eqb 3 0
    then snapshot two_chunks
    else drop (length (snapshot two_chunks) - 3) (snapshot two_chunks))
snapshot_tail_lem_example =
    snapshot_tail_lem 8 two_chunks 3 (record { counted = refl; bounded = omega arith })

abbrev fresh : Terminal
fresh = new_terminal 1000 "t1" "alice" "s1" "ephemeral" ""

-- A shell is opened and used, and the terminal is then closed by force.
abbrev calls : List (ℕ × TerminalCall)
calls =
    (1000, release_call 7)
    ∷ (1010, attach_call 1 1)
    ∷ (1020, shell_call 9)
    ∷ (1020, ready_call)
    ∷ (1021, resume_call 1 1)
    ∷ (1500, output_call 4 (1 ∷ 2 ∷ []))
    ∷ (2000, close_call "manual-kill" false)
    ∷ (90000, close_call "manual-kill" false)
    ∷ []

run-IsValid_example : IsValid (run calls fresh).0
run-IsValid_example =
    run-IsValid calls fresh (new_terminal-IsValid 1000 "t1" "alice" "s1" "ephemeral" "")

run-Moves_example : Moves creating 0 (run calls fresh).0.status (run calls fresh).0.status_version
run-Moves_example = run-Moves calls fresh

run-new_terminal_example :
    (releases (run calls fresh).1 ≡ bound bound_release calls fresh)
    × (channel_closes (run calls fresh).1 ≡ bound bound_channel calls fresh)
unfolding transition can_transition attach attach_resume on_shell close push
run-new_terminal_example = run-new_terminal 1000 "t1" "alice" "s1" "ephemeral" "" calls refl

abbrev policy : SessionPolicy
policy = record {
  detached_idle_min = 10;
  attached_idle_min = 0;
  max_lifetime_min = 0;
  backend_idle_min = 60;
}

-- A round each minute.
abbrev minutely : ℕ → ℕ → List ℕ
minutely zero now = []
minutely (suc n) now = now ∷ minutely n (now + 60000)

minutely-IsPaced : (n prev : ℕ) → IsPaced 60000 prev (minutely n (prev + 60000))
minutely-IsPaced zero prev = tt
minutely-IsPaced (suc n) prev = (omega arith, omega arith, minutely-IsPaced n (prev + 60000))

sweep_until-evicts_example : sweep_until policy (some 30) (minutely 250 61000) fresh ≡ none
sweep_until-evicts_example =
    sweep_until-evicts policy (some 30) 3600000 60000
      (record {
        stage_one = omega arith;
        stage_two = omega arith;
        evicts = omega arith;
        stage_one_below = omega arith;
        stage_two_below = omega arith;
        evicts_below = omega arith;
        creation_below = omega arith;
      })
      1000 (minutely 250 61000) fresh
      (record {
        unattended = refl;
        no_waiter = refl;
        unclaimed = λ h. absurd (ground arith);
        not_closing = refl;
        created_before = omega arith;
        detached_anchor = λ h. absurd (ground arith);
        detached_before = omega arith;
        idle_anchor = λ h. absurd (ground arith);
        idle_before = omega arith;
        end_anchor = λ h. absurd (ground arith);
        ended_before = omega arith;
      })
      (minutely-IsPaced 250 1000) (omega arith)
