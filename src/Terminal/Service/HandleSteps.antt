-- ===== src/Terminal/Service/HandleSteps.antt =====
-- Every call follows the table of the transitions and gives a handle back at most once.
use aliangboard.Base.{
  ℕ, String, Bool, not, ◌||◌, Option, none, some, List, refl, if-elim, length, eqb, ltb, ◌==◌, true,
  suc,
}
use aliangboard.Terminal.Ring.{Ring}
use aliangboard.Terminal.Service.{
  creating, attached, detached, detached_timeout, closing, lost, closed, is_status, Attachment,
  Ready, pending, resolved, rejected, Terminal,
}
use aliangboard.Terminal.Service.Handles.{
  Keeps, KeepsOf, KeepsAfter, keeps_still, keeps_then, IsQuiet, quiet_keeps, move-Keeps,
}
use aliangboard.Terminal.Service.Operations.{
  mark_backend_failed, do_attach, attach, after_wait, stop_waiting, attach_resume, detach,
  detach_from, mark_lost, abandon, claim_close, close, close_by_server, delete_conn, get_conn,
  set_cwd, output_to, take_over, set_conn,
}

take_over-IsQuiet : (o : Option Attachment) (socket : ℕ) → IsQuiet (take_over o socket)
take_over-IsQuiet none socket = record { no_release = refl; no_channel = refl }
take_over-IsQuiet (some a) socket =
    if-elim IsQuiet (eqb a.socket socket) (record { no_release = refl; no_channel = refl })
      (record { no_release = refl; no_channel = refl })

pub mark_lost-Keeps : (now : ℕ) (reason : String) (t : Terminal) → Keeps t (mark_lost now reason t)
unfolding mark_lost
mark_lost-Keeps now reason t = move-Keeps now lost reason (record t { last_error = some reason })

pub mark_backend_failed-Keeps :
    (now : ℕ) (e : String) (t : Terminal) → Keeps t (mark_backend_failed now e t)
unfolding mark_backend_failed
mark_backend_failed-Keeps now e t =
    move-Keeps now lost "backend-failed" (record t { last_error = some e })

do_attach-Keeps : (now conn_id socket : ℕ) (t : Terminal) → Keeps t (do_attach now conn_id socket t)
do_attach-Keeps now conn_id socket t =
    if-elim (Keeps t) (eqb (length t.conn_ids) 0 || is_status t.status creating)
      (keeps_then quiet (move-Keeps now attached "attach" added)) quiet
  where
    added : Terminal
    added = record t {
      conn_ids = set_conn conn_id (record { socket = socket; attached_at = now }) t.conn_ids;
      primary = some socket;
      last_attach_at = now;
      attach_count = suc t.attach_count;
      last_active_at = now;
    }

    quiet : Keeps t (added, take_over (get_conn conn_id t.conn_ids) socket)
    quiet = quiet_keeps (take_over-IsQuiet (get_conn conn_id t.conn_ids) socket)

pub attach-KeepsAfter :
    (now conn_id socket : ℕ) (t : Terminal) → KeepsAfter t (attach now conn_id socket t)
unfolding attach
attach-KeepsAfter now conn_id socket t =
    if-elim (KeepsAfter t)
      (is_status t.status closed || (is_status t.status lost || is_status t.status closing))
      keeps_still
      (if-elim (KeepsAfter t) (is_status t.status creating) quiet
        (keeps_then quiet (do_attach-Keeps now conn_id socket t)))
  where
    quiet :
        KeepsOf t.status t.status t.status_version t.status_version t.release t.release t.channel
          t.channel
          (take_over (get_conn conn_id t.conn_ids) socket)
    quiet = quiet_keeps (take_over-IsQuiet (get_conn conn_id t.conn_ids) socket)

after_wait-KeepsAfter :
    (ready : Ready) (now conn_id socket : ℕ) (t : Terminal)
    → KeepsAfter t (after_wait ready now conn_id socket t)
after_wait-KeepsAfter pending now conn_id socket t = keeps_still
after_wait-KeepsAfter (rejected e) now conn_id socket t = keeps_still
after_wait-KeepsAfter resolved now conn_id socket t =
    if-elim (KeepsAfter t) (is_status t.status closed || is_status t.status lost) keeps_still
      (do_attach-Keeps now conn_id socket (stop_waiting socket t))

pub attach_resume-KeepsAfter :
    (now conn_id socket : ℕ) (t : Terminal) → KeepsAfter t (attach_resume now conn_id socket t)
unfolding attach_resume
attach_resume-KeepsAfter now conn_id socket t = after_wait-KeepsAfter t.ready now conn_id socket t

detach_from-Keeps :
    (o : Option Attachment) (now conn_id : ℕ) (reason : String) (t : Terminal)
    → Keeps t (detach_from o now conn_id reason t)
detach_from-Keeps none now conn_id reason t = keeps_still
detach_from-Keeps (some a) now conn_id reason t =
    if-elim (Keeps t) (eqb (length (delete_conn conn_id t.conn_ids)) 0)
      (move-Keeps now detached reason _) keeps_still

pub detach-Keeps :
    (now conn_id : ℕ) (reason : String) (t : Terminal) → Keeps t (detach now conn_id reason t)
unfolding detach
detach-Keeps now conn_id reason t =
    detach_from-Keeps (get_conn conn_id t.conn_ids) now conn_id reason t

pub set_cwd-Keeps : (cwd : String) (t : Terminal) → Keeps t (set_cwd cwd t)
set_cwd-Keeps cwd t = if-elim (Keeps t) (cwd == "") keeps_still keeps_still

pub output_to-Keeps :
    (ring : Option (Ring ℕ)) (max_bytes now : ℕ) (chunk : List ℕ) (t : Terminal)
    → Keeps t (output_to ring max_bytes now chunk t)
output_to-Keeps none max_bytes now chunk t = keeps_still
output_to-Keeps (some ring) max_bytes now chunk t = keeps_still

pub abandon-Keeps : (now conn_id : ℕ) (t : Terminal) → Keeps t (abandon now conn_id t)
unfolding abandon
abandon-Keeps now conn_id t =
    if-elim (Keeps t) (not (is_status t.status creating)) (detach-Keeps now conn_id "abandon" t)
      (if-elim (Keeps t) (ltb 0 t.waiters) keeps_still (mark_lost-Keeps now "create-abandoned" t))

pub claim_close-KeepsAfter : (now : ℕ) (t : Terminal) → KeepsAfter t (claim_close now t)
unfolding claim_close
claim_close-KeepsAfter now t =
    if-elim (KeepsAfter t) (not (is_status t.status detached_timeout) || t.closing) keeps_still
      (move-Keeps now closing "reaped-backend-idle" (record t { closing = true }))

pub close-KeepsAfter :
    (now : ℕ) (reason : String) (force : Bool) (t : Terminal)
    → KeepsAfter t (close now reason force t)
unfolding close
close-KeepsAfter now reason force t =
    if-elim (KeepsAfter t) (is_status t.status closed || t.closing) keeps_still (
      if-elim (KeepsAfter t) _ keeps_still
        (move-Keeps now closed reason (record t { closing = true })))

pub close_by_server-Keeps :
    (now : ℕ) (server_id reason : String) (t : Terminal)
    → Keeps t (close_by_server now server_id reason t)
unfolding close_by_server
close_by_server-Keeps now server_id reason t =
    if-elim (Keeps t) _ keeps_still (move-Keeps now closed reason (record t { closing = true }))
