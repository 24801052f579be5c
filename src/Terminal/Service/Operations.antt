-- ===== src/Terminal/Service/Operations.antt =====
-- The operations on one terminal of server/ssh/terminal-service.mjs, and the callback of the shell of
-- server/ssh/terminal-handler.mjs. `attach` is in two parts, before and after its wait for `ready`; the
-- other operations may come between them.
use Prim.Native.String.{◌++◌ as ◌+++◌}
use aliangboard.Base.{
  ℕ, suc, ◌+◌, ◌-◌, String, Bool, true, false, not, ◌&&◌, ◌||◌, Option, none, some, List, [], ◌∷◌,
  ◌++◌, ◌==◌, if◌then◌else◌, length, filter, eqb, ltb,
}
use aliangboard.Terminal.Ring.{Ring, push}
use aliangboard.Terminal.Service.{
  Status, creating, attached, detached, detached_timeout, closing, lost, closed, is_status,
  Attachment, Ready, pending, resolved, rejected, Terminal, Effect, close_channel, close_socket,
  Result, move,
}

-- `connIds.get`, `set` and `delete`
abbrev pub get_conn : ℕ → List (ℕ × Attachment) → Option Attachment
get_conn conn_id [] = none
get_conn conn_id ((k, a) ∷ conns) = if eqb k conn_id then some a else get_conn conn_id conns

abbrev pub set_conn : ℕ → Attachment → List (ℕ × Attachment) → List (ℕ × Attachment)
set_conn conn_id a [] = (conn_id, a) ∷ []
set_conn conn_id a ((k, b) ∷ conns) =
    let rest = set_conn conn_id a conns in if eqb k conn_id then (k, a) ∷ conns else (k, b) ∷ rest

abbrev pub delete_conn : ℕ → List (ℕ × Attachment) → List (ℕ × Attachment)
delete_conn conn_id [] = []
delete_conn conn_id ((k, b) ∷ conns) =
    let rest = delete_conn conn_id conns in if eqb k conn_id then conns else (k, b) ∷ rest

-- `waiterSockets.add` and `delete`
abbrev pub has_socket : ℕ → List ℕ → Bool
has_socket socket [] = false
has_socket socket (s ∷ sockets) = eqb s socket || has_socket socket sockets

abbrev pub add_socket : ℕ → List ℕ → List ℕ
add_socket socket sockets = if has_socket socket sockets then sockets else sockets ++ (socket ∷ [])

abbrev pub delete_socket : ℕ → List ℕ → List ℕ
delete_socket socket sockets = filter (λ s. not (eqb s socket)) sockets

abbrev pub first_socket : List (ℕ × Attachment) → Option ℕ
first_socket [] = none
first_socket ((k, a) ∷ conns) = some a.socket

abbrev pub status_name : Status → String
status_name creating = "CREATING"
status_name attached = "ATTACHED"
status_name detached = "DETACHED"
status_name detached_timeout = "DETACHED_TIMEOUT"
status_name closing = "CLOSING"
status_name lost = "LOST"
status_name closed = "CLOSED"

-- `t.lastError || fallback`
abbrev pub error_or : Option String → String → String
error_or none fallback = fallback
error_or (some e) fallback = if e == "" then fallback else e

abbrev pub settle : Ready → Ready → Ready
settle pending to = to
settle resolved to = resolved
settle (rejected e) to = rejected e

abbrev pub resolve_ready : Terminal → Result
resolve_ready t = (record t { ready = settle t.ready resolved }, [])

-- `reject` of `readyForOwner`, and `markBackendFailed`
unfoldable pub mark_backend_failed : ℕ → String → Terminal → Result
mark_backend_failed now e t =
    let (failed, effects) = move now lost "backend-failed" (record t { last_error = some e }) in
    (record failed { ready = settle failed.ready (rejected e) }, effects)

abbrev pub bind_release : ℕ → Terminal → Result
bind_release release t = (record t { release = some release }, [])

abbrev pub bind_channel : ℕ → Terminal → Result
bind_channel channel t = (record t { channel = some channel }, [])

-- The callback of `client.shell` with its guard against a late call.
unfoldable pub on_shell : ℕ → Terminal → Result
on_shell channel t =
    if is_status t.status closed
      || (is_status t.status lost || (is_status t.status closing || t.closing))
    then (t, close_channel channel ∷ [])
    else resolve_ready (bind_channel channel t).0

-- Another connection under the same id is closed.
abbrev pub take_over : Option Attachment → ℕ → List Effect
take_over none socket = []
take_over (some a) socket = if eqb a.socket socket then [] else close_socket a.socket ∷ []

abbrev pub do_attach : ℕ → ℕ → ℕ → Terminal → Result
do_attach now conn_id socket t =
    let added = record t {
      conn_ids = set_conn conn_id (record { socket = socket; attached_at = now }) t.conn_ids;
      primary = some socket;
      last_attach_at = now;
      attach_count = suc t.attach_count;
      last_active_at = now;
    } in
    let (moved, effects) = move now attached "attach" added in
    let closed_before = take_over (get_conn conn_id t.conn_ids) socket in
    if eqb (length t.conn_ids) 0 || is_status t.status creating
    then (moved, closed_before ++ effects)
    else (added, closed_before)

pub data Attach : Type 0 where
  refused : Status → String → Attach
  waiting : Attach
  accepted : Status → Attach

-- `attach` up to its wait.
unfoldable pub attach : ℕ → ℕ → ℕ → Terminal → Attach × Terminal × List Effect
attach now conn_id socket t =
    let closed_before = take_over (get_conn conn_id t.conn_ids) socket in
    let (done, effects) = do_attach now conn_id socket t in
    if is_status t.status closed || (is_status t.status lost || is_status t.status closing)
    then (refused t.status (error_or t.last_error ("terminal-" +++ status_name t.status)), t, [])
    else if is_status t.status creating
    then (
      waiting,
      record t { waiters = suc t.waiters; waiter_sockets = add_socket socket t.waiter_sockets },
      closed_before,
    )
    else (accepted done.status, done, closed_before ++ effects)

-- The `finally` of the wait.
abbrev pub stop_waiting : ℕ → Terminal → Terminal
stop_waiting socket t = record t {
  waiter_sockets = delete_socket socket t.waiter_sockets;
  waiters = t.waiters - 1;
}

abbrev pub after_wait : Ready → ℕ → ℕ → ℕ → Terminal → Attach × Terminal × List Effect
after_wait pending now conn_id socket t = (waiting, t, [])
after_wait (rejected e) now conn_id socket t = (refused lost e, stop_waiting socket t, [])
after_wait resolved now conn_id socket t =
    let woken = stop_waiting socket t in
    let (done, effects) = do_attach now conn_id socket woken in
    if is_status t.status closed || is_status t.status lost
    then (refused t.status (error_or t.last_error ""), woken, [])
    else (accepted done.status, done, effects)

-- `attach` from its wait on: it goes on waiting until `ready` is settled.
unfoldable pub attach_resume : ℕ → ℕ → ℕ → Terminal → Attach × Terminal × List Effect
attach_resume now conn_id socket t = after_wait t.ready now conn_id socket t

abbrev pub same_socket : Option ℕ → ℕ → Bool
same_socket none socket = false
same_socket (some s) socket = eqb s socket

abbrev pub detach_from : Option Attachment → ℕ → ℕ → String → Terminal → Result
detach_from none now conn_id reason t = (t, [])
detach_from (some a) now conn_id reason t =
    let left = delete_conn conn_id t.conn_ids in
    let removed = record t {
      conn_ids = left;
      primary = if same_socket t.primary a.socket then first_socket left else t.primary;
      last_detach_at = now;
    } in
    let moved = move now detached reason removed in
    if eqb (length left) 0 then moved else (removed, [])

unfoldable pub detach : ℕ → ℕ → String → Terminal → Result
detach now conn_id reason t = detach_from (get_conn conn_id t.conn_ids) now conn_id reason t

abbrev pub touch : ℕ → Terminal → Result
touch now t = (record t { last_active_at = now }, [])

abbrev pub set_cwd : String → Terminal → Result
set_cwd cwd t = if cwd == "" then (t, []) else (record t { cwd = some cwd }, [])

abbrev pub output_to : Option (Ring ℕ) → ℕ → ℕ → List ℕ → Terminal → Result
output_to none max_bytes now chunk t = (t, [])
output_to (some ring) max_bytes now chunk t =
    (record t { ring = some (push max_bytes ring chunk); last_output_at = now }, [])

abbrev pub mark_output : ℕ → ℕ → List ℕ → Terminal → Result
mark_output max_bytes now chunk t = output_to t.ring max_bytes now chunk t

unfoldable pub mark_lost : ℕ → String → Terminal → Result
mark_lost now reason t = move now lost reason (record t { last_error = some reason })

unfoldable pub abandon : ℕ → ℕ → Terminal → Result
abandon now conn_id t =
    if not (is_status t.status creating)
    then detach now conn_id "abandon" t
    else if ltb 0 t.waiters
    then (t, [])
    else mark_lost now "create-abandoned" t

-- The flag is what `claimClose` returns.
unfoldable pub claim_close : ℕ → Terminal → Bool × Terminal × List Effect
claim_close now t =
    let (moved, effects) = move now closing "reaped-backend-idle" (record t { closing = true }) in
    if not (is_status t.status detached_timeout) || t.closing
    then (false, t, [])
    else (true, moved, effects)

pub data Closed : Type 0 where
  done : Closed
  terminal_active : Closed

-- `close` of a terminal that is there; `killSession` is the forced one.
unfoldable pub close : ℕ → String → Bool → Terminal → Closed × Terminal × List Effect
close now reason force t =
    let (moved, effects) = move now closed reason (record t { closing = true }) in
    if is_status t.status closed || t.closing
    then (done, t, [])
    else if not force
        && ((ltb 0 (length t.conn_ids) || ltb 0 t.waiters) && ltb now (t.last_active_at + 60000))
    then (terminal_active, t, [])
    else (done, moved, effects)

unfoldable pub close_by_server : ℕ → String → String → Terminal → Result
close_by_server now server_id reason t =
    if not (t.server_id == server_id) || is_status t.status closed
    then (t, [])
    else move now closed reason (record t { closing = true })
