-- ===== src/Terminal.antt =====
-- Terminals over SSH: the policy that reaps idle sessions (server/ssh/reap-policy.mjs) and the probe of
-- their sockets (`markAlive` and `attachWsLiveness` of server/ssh/terminal-wire.mjs).
-- Times are in milliseconds.
pub mod Reaping
pub mod Liveness
pub mod Ring
pub mod Service
use aliangboard.Base.{
  ℕ, suc, ◌+◌, ◌*◌, ◌/◌, max, String, Bool, true, false, not, ◌&&◌, Option, none, some,
  if◌then◌else◌, leb, ltb, eqb, get_or,
}

-- The four thresholds in minutes; zero switches one off.
pub record SessionPolicy : Type 0 where
  pub detached_idle_min : ℕ
  pub attached_idle_min : ℕ
  pub max_lifetime_min : ℕ
  pub backend_idle_min : ℕ

abbrev pub session_policy_max_min : ℕ
session_policy_max_min = 10080

abbrev pub is_valid_minutes : ℕ → Bool
is_valid_minutes v = leb v session_policy_max_min

-- What a setting holds: nothing, a natural number, or a value that no threshold may have.
pub data Setting : Type 0 where
  unset : Setting
  number : ℕ → Setting
  not_number : Setting

abbrev pub read_minutes : Setting → ℕ → ℕ
read_minutes unset fallback = fallback
read_minutes (number n) fallback = if is_valid_minutes n then n else fallback
read_minutes not_number fallback = fallback

-- `SSH_IDLE_REAP_MS`, in minutes: the built-in value where it is no positive number.
abbrev pub env_fallback : Setting → ℕ → ℕ
env_fallback unset built_in = built_in
env_fallback (number n) built_in = if eqb n 0 then built_in else n / 60000
env_fallback not_number built_in = built_in

unfoldable pub resolve_policy : (String → Setting) → Setting → SessionPolicy
resolve_policy get env_ms = record {
  detached_idle_min = read_minutes (get "ssh.session.detachedIdleMin") (env_fallback env_ms 10);
  attached_idle_min = read_minutes (get "ssh.session.attachedIdleMin") 0;
  max_lifetime_min = read_minutes (get "ssh.session.maxLifetimeMin") 0;
  backend_idle_min = read_minutes (get "ssh.session.backendIdleMin") 10080;
}

pub record SshSession : Type 0 where
  pub created_at : ℕ
  pub last_active_at : ℕ
  pub last_output_at : Option ℕ
  pub browser_count : ℕ

pub data Reap : Type 0 where
  max_lifetime : Reap
  detached_idle : Reap
  attached_idle : Reap
  keep : Reap

-- `min > 0 && now - since > min * 60000`
abbrev pub is_over : ℕ → ℕ → ℕ → Bool
is_over minutes since now = ltb 0 minutes && ltb (since + minutes * 60000) now

unfoldable pub should_reap_session : SshSession → SessionPolicy → ℕ → Reap
should_reap_session s policy now =
    if is_over policy.max_lifetime_min s.created_at now
    then max_lifetime
    else if eqb s.browser_count 0 && is_over policy.detached_idle_min s.last_active_at now
    then detached_idle
    else if ltb 0 s.browser_count
        && is_over policy.attached_idle_min (max s.last_active_at (get_or s.last_output_at 0)) now
    then attached_idle
    else keep

-- A socket, and what a round of the probe does with it.
pub record Socket : Type 0 where
  pub is_alive : Bool
  pub missed_pongs : ℕ

pub data Probe : Type 0 where
  pinged : Probe
  dead : Probe

abbrev pub mark_alive : Socket
mark_alive = record { is_alive = true; missed_pongs = 0 }

abbrev pub pong : Socket → Socket
pong ws = record ws { is_alive = true }

unfoldable pub sweep : ℕ → Socket → Socket × Probe
sweep max_missed ws =
    if not ws.is_alive
    then (
      record ws { missed_pongs = suc ws.missed_pongs },
      if leb max_missed (suc ws.missed_pongs) then dead else pinged,
    )
    else (record { is_alive = false; missed_pongs = 0 }, pinged)
