-- ===== src/Terminal/Reaping.antt =====
-- When a terminal's session is reaped.
use aliangboard.Base.{
  ℕ, ◌+◌, ◌*◌, ◌≤◌, ◌<◌, String, ◌≡◌, ◌⊎◌, ◌↔◌, inl, inr, Bool, true, false, get_or, arith,
}
use aliangboard.Terminal.{
  SessionPolicy, SshSession, Setting, unset, number, not_number, Reap, max_lifetime, detached_idle,
  attached_idle, keep, should_reap_session, resolve_policy, read_minutes, env_fallback,
}

-- The session is old, is idle with nobody attached, or is idle and silent with somebody attached.
abbrev pub IsDue : SshSession → SessionPolicy → ℕ → Type 0
IsDue s policy now =
    ((0 < policy.max_lifetime_min) × (s.created_at + policy.max_lifetime_min * 60000 < now))
    ⊎ ((s.browser_count ≡ 0)
        × (0 < policy.detached_idle_min)
        × (s.last_active_at + policy.detached_idle_min * 60000 < now))
    ⊎ ((0 < s.browser_count)
        × (0 < policy.attached_idle_min)
        × (s.last_active_at + policy.attached_idle_min * 60000 < now)
        × (get_or s.last_output_at 0 + policy.attached_idle_min * 60000 < now))

abbrev pub is_reaped : Reap → Bool
is_reaped keep = false
is_reaped max_lifetime = true
is_reaped detached_idle = true
is_reaped attached_idle = true

-- A session is reaped exactly when it is past its lifetime, or idle with nobody attached, or idle and
-- silent with somebody attached, each by a threshold that is switched on.
pub should_reap_session_iff :
    (s : SshSession) (policy : SessionPolicy) (now : ℕ)
    → (is_reaped (should_reap_session s policy now) ≡ true) ↔ IsDue s policy now
unfolding should_reap_session
should_reap_session_iff s policy now = ground arith

-- A session that is reaped at a time is reaped at every later time, where nothing happens in it.
pub should_reap_session_later :
    (s : SshSession) (policy : SessionPolicy) (now later : ℕ)
    → now ≤ later
    → is_reaped (should_reap_session s policy now) ≡ true
    → is_reaped (should_reap_session s policy later) ≡ true
should_reap_session_later s policy now later le h =
    (should_reap_session_iff s policy later).1 (still ((should_reap_session_iff s policy now).0 h))
  where
    still : IsDue s policy now → IsDue s policy later
    still (inl (on, old)) = inl (on, omega (arith, old, le))
    still (inr (inl (none_there, on, idle))) = inr (inl (none_there, on, omega (arith, idle, le)))
    still (inr (inr (some_there, on, idle, quiet))) =
        inr (inr (some_there, on, omega (arith, idle, le), omega (arith, quiet, le)))

-- Every threshold that the policy resolves to is within a
-- week where the fallback of the environment is.
pub resolve_policy-bounds :
    (get : String → Setting) (env_ms : Setting)
    → env_fallback env_ms 10 ≤ 10080
    → let policy = resolve_policy get env_ms in
      (policy.detached_idle_min ≤ 10080)
      × (policy.attached_idle_min ≤ 10080)
      × (policy.max_lifetime_min ≤ 10080)
      × (policy.backend_idle_min ≤ 10080)
unfolding resolve_policy
resolve_policy-bounds get env_ms fallback = (
  read_bound (get "ssh.session.detachedIdleMin") (env_fallback env_ms 10) fallback,
  read_bound (get "ssh.session.attachedIdleMin") 0 (omega arith),
  read_bound (get "ssh.session.maxLifetimeMin") 0 (omega arith),
  read_bound (get "ssh.session.backendIdleMin") 10080 (omega arith),
)
  where
    read_bound : (v : Setting) (fallback : ℕ) → fallback ≤ 10080 → read_minutes v fallback ≤ 10080
    read_bound unset fallback h = h
    read_bound (number n) fallback h = ground arith
    read_bound not_number fallback h = h
