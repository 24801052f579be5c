-- ===== src/Scenarios/Terminals.antt =====
-- The policy on terminals and the probe of their sockets at concrete states.
use aliangboard.Base.{◌≡◌, ◌↔◌, true, false, none, if◌then◌else◌, leb, arith}
use aliangboard.Terminal.{
  SessionPolicy, SshSession, Socket, pinged, dead, pong, sweep, should_reap_session,
}
use aliangboard.Terminal.Reaping.{IsDue, is_reaped, should_reap_session_iff}
use aliangboard.Terminal.Liveness.{silent, sweep-pong}

abbrev policy : SessionPolicy
policy = record {
  detached_idle_min = 10;
  attached_idle_min = 0;
  max_lifetime_min = 0;
  backend_idle_min = 10080;
}

abbrev left_alone : SshSession
left_alone = record { created_at = 0; last_active_at = 5; last_output_at = none; browser_count = 0 }

should_reap_session_iff_example :
    (is_reaped (should_reap_session left_alone policy 600006) ≡ true)
    ↔ IsDue left_alone policy 600006
should_reap_session_iff_example = should_reap_session_iff left_alone policy 600006

abbrev tired : Socket
tired = record { is_alive = false; missed_pongs = 1 }

sweep-pong_example : (sweep 2 (silent 2 2 (pong tired))).1 ≡ (if leb 2 2 then dead else pinged)
sweep-pong_example = sweep-pong 2 2 tired (omega arith)
