-- ===== src/Terminal/Service.antt =====
-- One terminal of the terminal service and its state machine (server/ssh/terminal-service.mjs): the
-- statuses, the transitions between them, and what a transition does. An operation returns the terminal
-- beside what it did outside of it, in order. A channel, a pool handle, a socket and a connection are
-- numbers, equal where they are the same object; an error is its message. A call of the clock within an
-- operation gives one instant `now`, in milliseconds.
pub mod Operations
pub mod Sweep
pub mod Valid
pub mod Steps
pub mod Rounds
pub mod Runs
pub mod Handles
pub mod HandleSteps
pub mod Ledger
pub mod Idle
pub mod Nearer
pub mod Early
pub mod Eviction
pub mod Registry
pub mod Calls
use aliangboard.Base.{
  ℕ, suc, String, Bool, true, false, not, Option, none, some, List, [], ◌∷◌, ◌++◌, if◌then◌else◌,
  eqb, is_some,
}
use aliangboard.Terminal.Ring.{Ring, empty_ring}

pub data Status : Type 0 where
  creating : Status
  attached : Status
  detached : Status
  detached_timeout : Status
  closing : Status
  lost : Status
  closed : Status

abbrev pub status_index : Status → ℕ
status_index creating = 0
status_index attached = 1
status_index detached = 2
status_index detached_timeout = 3
status_index closing = 4
status_index lost = 5
status_index closed = 6

abbrev pub is_status : Status → Status → Bool
is_status a b = eqb (status_index a) (status_index b)

abbrev pub terminal_transitions : Status → List Status
terminal_transitions creating = attached ∷ lost ∷ closed ∷ []
terminal_transitions attached = detached ∷ lost ∷ closed ∷ []
terminal_transitions detached = attached ∷ detached_timeout ∷ lost ∷ closed ∷ []
terminal_transitions detached_timeout = attached ∷ closing ∷ lost ∷ closed ∷ []
terminal_transitions closing = closed ∷ detached_timeout ∷ []
terminal_transitions lost = closed ∷ []
terminal_transitions closed = []

abbrev pub includes_status : List Status → Status → Bool
includes_status [] to = false
includes_status (s ∷ ss) to = if is_status s to then true else includes_status ss to

unfoldable pub can_transition : Status → Status → Bool
can_transition from to = includes_status (terminal_transitions from) to

-- A value of `connIds`.
pub record Attachment : Type 0 where
  pub socket : ℕ
  pub attached_at : ℕ

-- The promise `ready`.
pub data Ready : Type 0 where
  pending : Ready
  resolved : Ready
  rejected : String → Ready

-- A field that is null or undefined is `none`; `closing` is false until it is set.
pub record Terminal : Type 0 where
  pub id : String
  pub owner : String
  pub server_id : String
  pub backend : String
  pub title : String
  pub label : String
  pub status : Status
  pub last_error : Option String
  pub status_version : ℕ
  pub conn_ids : List (ℕ × Attachment)
  pub waiter_sockets : List ℕ
  pub primary : Option ℕ
  pub channel : Option ℕ
  pub release : Option ℕ
  pub ring : Option (Ring ℕ)
  pub ready : Ready
  pub waiters : ℕ
  pub created_at : ℕ
  pub last_active_at : ℕ
  pub last_output_at : ℕ
  pub detached_since : Option ℕ
  pub backend_idle_since : Option ℕ
  pub ended_at : Option ℕ
  pub last_attach_at : ℕ
  pub last_detach_at : ℕ
  pub attach_count : ℕ
  pub cwd : Option String
  pub closing : Bool

abbrev pub new_terminal : ℕ → String → String → String → String → String → Terminal
new_terminal now id owner server_id backend title = record {
  id = id;
  owner = owner;
  server_id = server_id;
  backend = backend;
  title = title;
  label = "";
  status = creating;
  last_error = none;
  status_version = 0;
  conn_ids = [];
  waiter_sockets = [];
  primary = none;
  channel = none;
  release = none;
  ring = some empty_ring;
  ready = pending;
  waiters = 0;
  created_at = now;
  last_active_at = now;
  last_output_at = 0;
  detached_since = none;
  backend_idle_since = none;
  ended_at = none;
  last_attach_at = 0;
  last_detach_at = 0;
  attach_count = 0;
  cwd = none;
  closing = false;
}

-- What an operation does outside of the terminal: calls of a handle, and the two callbacks.
pub data Effect : Type 0 where
  close_channel : ℕ → Effect
  call_release : ℕ → Effect
  close_socket : ℕ → Effect
  irreversible : String → Status → String → Status → Effect
  transitioned : String → Option Status → Status → String → Effect

abbrev pub Result : Type 0
Result = Terminal × List Effect

abbrev pub if_some : Option ℕ → (ℕ → Effect) → List Effect
if_some none call = []
if_some (some handle) call = call handle ∷ []

abbrev pub close_attached : List (ℕ × Attachment) → List Effect
close_attached [] = []
close_attached ((conn_id, a) ∷ conns) = close_socket a.socket ∷ close_attached conns

abbrev pub close_waiting : List ℕ → List Effect
close_waiting [] = []
close_waiting (s ∷ sockets) = close_socket s ∷ close_waiting sockets

abbrev pub release_backend : Terminal → Result
release_backend t = (
  record t { channel = none; release = none; conn_ids = []; waiter_sockets = []; primary = none },
  if_some t.channel close_channel
      ++ (if_some t.release call_release
          ++ (close_attached t.conn_ids ++ close_waiting t.waiter_sockets)),
)

-- The branch of `transition` for the two final statuses.
abbrev pub finish : ℕ → Status → String → Terminal → Result
finish now to reason t =
    let ended = if is_some t.ended_at then t.ended_at else some now in
    let (freed, effects) = release_backend (record t { status = to; ended_at = ended }) in
    (record freed { ring = none }, effects ++ (irreversible t.id to reason t.status ∷ []))

-- The status and what each one sets.
abbrev pub enter : ℕ → Status → String → Terminal → Result
enter now creating reason t = (record t { status = creating }, [])
enter now attached reason t =
    (record t { status = attached; detached_since = none; backend_idle_since = none }, [])
enter now detached reason t = (record t { status = detached; detached_since = some now }, [])
enter now detached_timeout reason t =
    (record t { status = detached_timeout; backend_idle_since = some now }, [])
enter now closing reason t = (record t { status = closing }, [])
enter now lost reason t = finish now lost reason t
enter now closed reason t = finish now closed reason t

-- The flag is what `transition` returns.
unfoldable pub transition : ℕ → Terminal → Status → String → Bool × Terminal × List Effect
transition now t to reason =
    let counted = record t { status_version = suc t.status_version } in
    let (entered, effects) = enter now to reason counted in
    if is_status t.status to
    then (true, t, [])
    else if not (can_transition t.status to)
    then (false, t, [])
    else (true, entered, effects ++ (transitioned t.id (some t.status) to reason ∷ []))

abbrev pub move : ℕ → Status → String → Terminal → Result
move now to reason t = let (ok, moved, effects) = transition now t to reason in (moved, effects)
