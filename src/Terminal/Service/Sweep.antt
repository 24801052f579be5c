-- ===== src/Terminal/Service/Sweep.antt =====
-- One round of `sweep` of server/ssh/terminal-service.mjs on one terminal, and `reconcileOnBoot` on one.
-- The time of the round is the time of the clock in it.
use aliangboard.Base.{
  ℕ, suc, ◌+◌, String, Bool, true, false, ◌&&◌, ◌||◌, Option, none, some, List, [], ◌∷◌, ◌++◌,
  if◌then◌else◌, length, eqb, ltb, get_or,
}
use aliangboard.Terminal.{
  SessionPolicy, SshSession, Reap, max_lifetime, attached_idle, detached_idle, keep, is_over,
  should_reap_session,
}
use aliangboard.Terminal.Service.{
  creating, attached, detached, detached_timeout, lost, closed, is_status, Terminal, Effect, Result,
  move,
}
use aliangboard.Terminal.Service.Operations.{mark_lost, claim_close}

-- `policy.closedTombstoneMin ?? CLOSED_TOMBSTONE_MIN`
abbrev pub closed_tombstone_min : Option ℕ → ℕ
closed_tombstone_min minutes = get_or minutes 30

-- A round evicts the terminal, or keeps it as it then is; the texts are the actions it reports.
pub record Round : Type 0 where
  pub kept : Option Terminal
  pub effects : List Effect
  pub actions : List String

-- The eviction of a terminal that has ended.
abbrev pub is_evicted : ℕ → ℕ → Terminal → Bool
is_evicted tombstone now t = elim t.ended_at [
  | none ↦ false
  | some ended ↦ is_over tombstone ended now
]

abbrev pub act : Result → List Effect → List String → String → Round
act (t, effects) before actions action = record {
  kept = some t;
  effects = before ++ effects;
  actions = actions ++ (action ∷ []);
}

-- The two stages of the idle timeouts, and the repairs before them, are due.
abbrev pub is_detached_long : SessionPolicy → ℕ → Terminal → Bool
is_detached_long policy now t =
    is_status t.status detached
    && is_over policy.detached_idle_min (get_or t.detached_since now) now

abbrev pub is_backend_idle : SessionPolicy → ℕ → Terminal → Bool
is_backend_idle policy now t =
    is_status t.status detached_timeout
    && is_over policy.backend_idle_min (get_or t.backend_idle_since now) now

abbrev pub is_left : Terminal → Bool
is_left t = is_status t.status attached && (eqb (length t.conn_ids) 0 && eqb t.waiters 0)

abbrev pub is_stuck : ℕ → Terminal → Bool
is_stuck now t = is_status t.status creating && (eqb t.waiters 0 && ltb (t.created_at + 60000) now)

unfoldable pub sweep_stages : SessionPolicy → ℕ → Terminal → List Effect → List String → Round
sweep_stages policy now t effects actions =
    let (claimed, closing_t, claim_effects) = claim_close now t in
    if is_detached_long policy now t
    then act (move now detached_timeout "reaped-detached-idle" t) effects actions "timeout-stage1"
    else if is_backend_idle policy now t && claimed
    then act (move now closed "reaped-backend-idle" closing_t) (effects ++ claim_effects) actions
        "timeout-stage2"
    else record { kept = some t; effects = effects; actions = actions }

-- What `shouldReapSession` reads of the terminal.
abbrev pub session_of : Terminal → SshSession
session_of t = record {
  created_at = t.created_at;
  last_active_at = t.last_active_at;
  last_output_at = some t.last_output_at;
  browser_count = length t.conn_ids;
}

-- The verdicts that end the terminal at once; the others are left to the stages.
unfoldable pub sweep_verdict :
    Reap → SessionPolicy → ℕ → Terminal → List Effect → List String → Round
sweep_verdict max_lifetime policy now t effects actions =
    act (move now closed "reaped-max-lifetime" (record t { closing = true })) effects actions
      "reaped-max-lifetime"
sweep_verdict attached_idle policy now t effects actions =
    if is_status t.status attached
    then act (move now closed "reaped-attached-idle" (record t { closing = true })) effects actions
        "reaped-attached-idle"
    else sweep_stages policy now t effects actions
sweep_verdict detached_idle policy now t effects actions = sweep_stages policy now t effects actions
sweep_verdict keep policy now t effects actions = sweep_stages policy now t effects actions

abbrev pub sweep_live : SessionPolicy → ℕ → Terminal → List Effect → List String → Round
sweep_live policy now t effects actions =
    sweep_verdict (should_reap_session (session_of t) policy now) policy now t effects actions

-- A terminal that has ended is only evicted. One that is attached to nothing is detached, and a creation
-- that nobody waits for is lost after a minute.
unfoldable pub sweep_one : SessionPolicy → Option ℕ → ℕ → Terminal → Round
sweep_one policy tombstone now t =
    let (repaired, repair_effects) = move now detached "reconcile-detached" t in
    if is_status t.status closed || is_status t.status lost
    then record {
      kept = if is_evicted (closed_tombstone_min tombstone) now t then none else some t;
      effects = [];
      actions = [];
    }
    else if is_left t
    then sweep_live policy now repaired repair_effects ("reconcile-detached" ∷ [])
    else if is_stuck now t
    then act (mark_lost now "reconcile-create-timeout" t) [] [] "reconcile-create-timeout"
    else sweep_live policy now t [] []

-- Whether the terminal counts as one that was lost, and as one that was kept.
pub data Boot : Type 0 where
  lost_on_boot : Boot
  reattached : Boot
  untouched : Boot

abbrev pub detach_on_boot : ℕ → Terminal → Boot × Terminal × List Effect
detach_on_boot boot_at t = (
  reattached,
  record t {
    status = detached;
    detached_since = some boot_at;
    backend_idle_since = some boot_at;
    status_version = suc t.status_version;
  },
  [],
)

unfoldable pub reconcile_on_boot : ℕ → ℕ → Terminal → Boot × Terminal × List Effect
reconcile_on_boot now boot_at t =
    let failed = mark_lost now "gateway-restart" t in
    if is_status t.status creating
    then (lost_on_boot, failed.0, failed.1)
    else if is_status t.status attached
        || (is_status t.status detached || is_status t.status detached_timeout)
    then detach_on_boot boot_at t
    else (untouched, t, [])
