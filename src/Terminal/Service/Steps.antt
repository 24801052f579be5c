-- ===== src/Terminal/Service/Steps.antt =====
-- Every call keeps a terminal valid.
use aliangboard.Base.{
  ℕ, suc, String, Bool, true, false, not, ◌||◌, Option, none, some, List, [], ◌∷◌, ◌==◌, ◌≡◌, refl,
  inl, inr, arith, Bool-cases, if-elim, if-split, length, eqb, ltb, if◌then◌else◌,
}
use aliangboard.Terminal.Service.{
  Status, creating, detached, detached_timeout, closing, lost, closed, is_status, Attachment, Ready,
  pending, resolved, rejected, Terminal, Effect, Result,
}
use aliangboard.Terminal.Ring.{Ring}
use aliangboard.Terminal.Service.Valid.{
  IsValidOf, IsValid, has_ended, is_unattended, move-IsValid, claim-IsValid, attach-IsValid,
  can_claim, enter-IsValid, move-IsValid_of,
}
use aliangboard.Terminal.Service.Operations.{
  mark_backend_failed, on_shell, do_attach, attach, after_wait, stop_waiting, attach_resume, detach,
  detach_from, mark_lost, abandon, claim_close, close, close_by_server, delete_conn, get_conn,
  set_cwd, mark_output, output_to, same_socket, first_socket, bind_release,
}

abbrev ResultIsValid {ℓ} : {A : Type ℓ} → A × Terminal × List Effect → Type 0
ResultIsValid r = IsValid r.1

-- Connections may change where the terminal has not ended and may have them.
conns-IsValid :
    (s : Status) (conns conns' : List (ℕ × Attachment)) (claim : Bool) {F F' : Type 0}
    → IsValidOf s conns claim F
    → has_ended s ≡ false
    → (is_unattended s ≡ true → conns' ≡ [])
    → IsValidOf s conns' claim F'
conns-IsValid s conns conns' claim v running u = record {
  is_freed = λ h. absurd (ground arith);
  unattended = u;
  claimed = v.claimed;
}

-- What has not ended may bind handles and wait.
running-IsValid :
    (s : Status) (conns : List (ℕ × Attachment)) (claim : Bool) {F F' : Type 0}
    → IsValidOf s conns claim F
    → has_ended s ≡ false
    → IsValidOf s conns claim F'
running-IsValid s conns claim v running = conns-IsValid s conns conns claim v running v.unattended

pub mark_lost-IsValid :
    (now : ℕ) (reason : String) (t : Terminal) → IsValid t → IsValid (mark_lost now reason t).0
unfolding mark_lost
mark_lost-IsValid now reason t v =
    move-IsValid now lost reason (record t { last_error = some reason }) v
      (λ h. absurd (ground arith)) (λ h. refl)

pub mark_backend_failed-IsValid :
    (now : ℕ) (e : String) (t : Terminal) → IsValid t → IsValid (mark_backend_failed now e t).0
unfolding mark_backend_failed
mark_backend_failed-IsValid now e t v =
    move-IsValid now lost "backend-failed" (record t { last_error = some e }) v
      (λ h. absurd (ground arith)) (λ h. refl)

pub on_shell-IsValid : (channel : ℕ) (t : Terminal) → IsValid t → IsValid (on_shell channel t).0
unfolding on_shell
on_shell-IsValid channel t v =
    elim (Bool-cases (
      is_status t.status closed
      || (is_status t.status lost || (is_status t.status closing || t.closing)))) [
        | inl late ↦ rw late v
        | inr open_still ↦
            rw open_still (running-IsValid t.status t.conn_ids t.closing v (ground arith))
      ]

do_attach-IsValid :
    (now conn_id socket : ℕ) (t : Terminal)
    → IsValid t
    → has_ended t.status ≡ false
    → IsValid (do_attach now conn_id socket t).0
do_attach-IsValid now conn_id socket t v running =
    elim (Bool-cases (eqb (length t.conn_ids) 0 || is_status t.status creating)) [
      | inl first ↦ rw first (
          attach-IsValid now _ t.conn_ids (running-IsValid t.status t.conn_ids t.closing v running)
            running)
      | inr more ↦ rw more (
          conns-IsValid t.status t.conn_ids _ t.closing v running
            (λ u. absurd (ground (arith, v.unattended u, more))))
    ]

pub attach-IsValidAfter :
    (now conn_id socket : ℕ) (t : Terminal) → IsValid t → IsValid (attach now conn_id socket t).1
unfolding attach
attach-IsValidAfter now conn_id socket t v =
    if-split ResultIsValid
      (is_status t.status closed || (is_status t.status lost || is_status t.status closing))
      (λ over. v)
      (λ runs.
        if-split ResultIsValid (is_status t.status creating)
          (λ fresh. running-IsValid t.status t.conn_ids t.closing v (ground arith))
          (λ made. do_attach-IsValid now conn_id socket t v (ground arith)))

stop_waiting-IsValid : (socket : ℕ) (t : Terminal) → IsValid t → IsValid (stop_waiting socket t)
stop_waiting-IsValid socket t v = record {
  is_freed = λ e.
      let f = v.is_freed e in
      record {
        no_connection = f.no_connection;
        no_waiting = rw f.no_waiting refl;
        no_primary = f.no_primary;
        no_channel = f.no_channel;
        no_release = f.no_release;
        no_ring = f.no_ring;
        has_end = f.has_end;
      };
  unattended = v.unattended;
  claimed = v.claimed;
}

pub after_wait-IsValid :
    (ready : Ready) (now conn_id socket : ℕ) (t : Terminal)
    → IsValid t
    → IsValid (after_wait ready now conn_id socket t).1
after_wait-IsValid pending now conn_id socket t v = v
after_wait-IsValid (rejected e) now conn_id socket t v = stop_waiting-IsValid socket t v
after_wait-IsValid resolved now conn_id socket t v =
    elim (Bool-cases (is_status t.status closed || is_status t.status lost)) [
      | inl over ↦ rw over (stop_waiting-IsValid socket t v)
      | inr runs ↦ rw runs (
          do_attach-IsValid now conn_id socket (stop_waiting socket t)
            (stop_waiting-IsValid socket t v) runs)
    ]

detach_from-IsValid :
    (o : Option Attachment) (now conn_id : ℕ) (reason : String) (t : Terminal)
    → IsValid t
    → IsValid (detach_from o now conn_id reason t).0
detach_from-IsValid none now conn_id reason t v = v
detach_from-IsValid (some a) now conn_id reason t v =
    elim (Bool-cases (eqb (length (delete_conn conn_id t.conn_ids)) 0)) [
      | inl last ↦
          rw last (move-IsValid now detached reason _ removed (λ h. empty_of _ last) (λ h. refl))
      | inr more ↦ rw more removed
    ]
  where
    empty_of : (conns : List (ℕ × Attachment)) → eqb (length conns) 0 ≡ true → conns ≡ []
    empty_of [] h = refl
    empty_of (c ∷ conns) h = absurd (ground arith)

    removed : IsValid (record t {
      conn_ids = delete_conn conn_id t.conn_ids;
      primary =
          if same_socket t.primary a.socket
          then first_socket (delete_conn conn_id t.conn_ids)
          else t.primary;
      last_detach_at = now;
    })
    removed = record {
      is_freed = λ e.
          let f = v.is_freed e in
          record {
            no_connection = rw f.no_connection refl;
            no_waiting = f.no_waiting;
            no_primary = rw f.no_primary refl;
            no_channel = f.no_channel;
            no_release = f.no_release;
            no_ring = f.no_ring;
            has_end = f.has_end;
          };
      unattended = λ u. rw (v.unattended u) refl;
      claimed = v.claimed;
    }

pub abandon-IsValid :
    (now conn_id : ℕ) (t : Terminal) → IsValid t → IsValid (abandon now conn_id t).0
unfolding abandon detach
abandon-IsValid now conn_id t v =
    if-elim (λ (r : Result). IsValid r.0) (not (is_status t.status creating))
      (detach_from-IsValid (get_conn conn_id t.conn_ids) now conn_id "abandon" t v)
      (if-elim (λ (r : Result). IsValid r.0) (ltb 0 t.waiters) v
        (mark_lost-IsValid now "create-abandoned" t v))

pub claim_close-IsValid : (now : ℕ) (t : Terminal) → IsValid t → IsValid (claim_close now t).1
unfolding claim_close
claim_close-IsValid now t v =
    if-split ResultIsValid (not (is_status t.status detached_timeout) || t.closing) (λ refused. v)
      (λ granted.
        move-IsValid_of now closing "reaped-backend-idle" (record t { closing = true })
          (λ same. absurd (ground arith))
          (λ other cannot. absurd (ground (arith, can_claim t.status (ground arith), cannot)))
          (λ can.
            enter-IsValid now closing "reaped-backend-idle"
              (record t { closing = true; status_version = suc t.status_version })
              (λ h. absurd (ground arith)) (λ h. refl)))

pub close-IsValid :
    (now : ℕ) (reason : String) (force : Bool) (t : Terminal)
    → IsValid t
    → IsValid (close now reason force t).1
unfolding close
close-IsValid now reason force t v =
    if-split ResultIsValid (is_status t.status closed || t.closing) (λ over. v)
      (λ runs.
        if-split ResultIsValid _ (λ active. v) (λ idle. claim-IsValid now reason t (ground arith)))

pub close_by_server-IsValid :
    (now : ℕ) (server_id reason : String) (t : Terminal)
    → IsValid t
    → IsValid (close_by_server now server_id reason t).0
unfolding close_by_server
close_by_server-IsValid now server_id reason t v =
    if-split (λ (r : Result). IsValid r.0) _ (λ other. v)
      (λ same. claim-IsValid now reason t (ground arith))

pub attach_resume-IsValid :
    (now conn_id socket : ℕ) (t : Terminal)
    → IsValid t
    → IsValid (attach_resume now conn_id socket t).1
unfolding attach_resume
attach_resume-IsValid now conn_id socket t v = after_wait-IsValid t.ready now conn_id socket t v

pub detach-IsValid :
    (now conn_id : ℕ) (reason : String) (t : Terminal)
    → IsValid t
    → IsValid (detach now conn_id reason t).0
unfolding detach
detach-IsValid now conn_id reason t v =
    detach_from-IsValid (get_conn conn_id t.conn_ids) now conn_id reason t v

pub set_cwd-IsValid : (cwd : String) (t : Terminal) → IsValid t → IsValid (set_cwd cwd t).0
set_cwd-IsValid cwd t v = if-elim (λ (r : Result). IsValid r.0) (cwd == "") v v

pub mark_output-IsValid :
    (max_bytes now : ℕ) (chunk : List ℕ) (t : Terminal)
    → IsValid t
    → IsValid (mark_output max_bytes now chunk t).0
mark_output-IsValid max_bytes now chunk t v = by_ring t.ring refl
  where
    by_ring :
        (ring : Option (Ring ℕ)) → t.ring ≡ ring → IsValid (output_to ring max_bytes now chunk t).0
    by_ring none e = v
    by_ring (some r) e = record {
      is_freed = λ h. absurd (ground (arith, e, (v.is_freed h).no_ring));
      unattended = v.unattended;
      claimed = v.claimed;
    }

pub bind_release-IsValid :
    (r : ℕ) (t : Terminal)
    → IsValid t
    → is_status t.status creating ≡ true
    → IsValid (bind_release r t).0
bind_release-IsValid r t v fresh = running-IsValid t.status t.conn_ids t.closing v (ground arith)
