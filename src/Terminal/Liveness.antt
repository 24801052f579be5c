-- ===== src/Terminal/Liveness.antt =====
-- When a socket that stays silent is given up.
use aliangboard.Base.{ℕ, zero, suc, ◌≤◌, ◌≡◌, refl, ap, false, if◌then◌else◌, leb, arith}
use aliangboard.Terminal.{Socket, pinged, dead, pong, sweep}

-- The socket after some rounds in which it did not answer.
abbrev pub silent : ℕ → ℕ → Socket → Socket
silent max_missed zero ws = ws
silent max_missed (suc k) ws = (sweep max_missed (silent max_missed k ws)).0

silent-pong :
    (max_missed k : ℕ) (ws : Socket)
    → silent max_missed (suc k) (pong ws) ≡ record { is_alive = false; missed_pongs = k }
unfolding sweep
silent-pong max_missed zero ws = refl
silent-pong max_missed (suc k) ws = ap (λ w. (sweep max_missed w).0) (silent-pong max_missed k ws)

-- A socket that answered is pinged in as many rounds as it may miss, whatever it had missed before, and
-- is given up in the round after them where it stays silent, no sooner and no later.
pub sweep-pong :
    (max_missed k : ℕ) (ws : Socket)
    → 1 ≤ max_missed
    → (sweep max_missed (silent max_missed k (pong ws))).1
      ≡ (if leb max_missed k then dead else pinged)
unfolding sweep
sweep-pong max_missed zero ws some_round = ground arith
sweep-pong max_missed (suc k) ws some_round =
    ap (λ w. (sweep max_missed w).1) (silent-pong max_missed k ws)
