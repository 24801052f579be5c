-- ===== src/Terminal/Service/Valid.antt =====
-- What holds of a terminal between two calls.
use aliangboard.Base.{
  ℕ, suc, String, Bool, true, false, ◌||◌, Option, none, some, List, [], ◌≡◌, refl, inl, inr, arith,
  Bool-cases, is_some, if◌then◌else◌,
}
use aliangboard.Terminal.Ring.{Ring}
use aliangboard.Terminal.Service.{
  Status, creating, attached, detached, detached_timeout, closing, lost, closed, is_status,
  can_transition, Attachment, Terminal, transition, move, enter, finish,
}

-- What a terminal that has ended holds: nothing, and the time of its end.
pub record IsFreed (conns : List (ℕ × Attachment)) (waiting : List ℕ)
    (primary channel release : Option ℕ) (ring : Option (Ring ℕ)) (ended_at : Option ℕ)
    : Type 0 where
  pub no_connection : conns ≡ []
  pub no_waiting : waiting ≡ []
  pub no_primary : primary ≡ none
  pub no_channel : channel ≡ none
  pub no_release : release ≡ none
  pub no_ring : ring ≡ none
  pub has_end : is_some ended_at ≡ true

abbrev pub has_ended : Status → Bool
has_ended s = is_status s closed || is_status s lost

abbrev pub is_unattended : Status → Bool
is_unattended s = is_status s creating || (is_status s detached || is_status s detached_timeout)

-- Over the fields that the laws are about: a terminal that has ended is freed, one that is attached to
-- nothing has no connection, and one is claimed only to be closed.
pub record IsValidOf (status : Status) (conns : List (ℕ × Attachment)) (claim : Bool)
    (freed : Type 0) : Type 0 where
  pub is_freed : has_ended status ≡ true → freed
  pub unattended : is_unattended status ≡ true → conns ≡ []
  pub claimed : claim ≡ true → (is_status status closing || is_status status closed) ≡ true

abbrev pub IsFree : Terminal → Type 0
IsFree t = IsFreed t.conn_ids t.waiter_sockets t.primary t.channel t.release t.ring t.ended_at

abbrev pub IsValid : Terminal → Type 0
IsValid t = IsValidOf t.status t.conn_ids t.closing (IsFree t)

finish-IsValid :
    (now : ℕ) (to : Status) (reason : String) (t : Terminal)
    → has_ended to ≡ true
    → is_unattended to ≡ false
    → (t.closing ≡ true → (is_status to closing || is_status to closed) ≡ true)
    → IsValid (finish now to reason t).0
finish-IsValid now to reason t ended attended c = record {
  is_freed = λ h. record {
    no_channel = refl;
    no_release = refl;
    no_connection = refl;
    no_waiting = refl;
    no_primary = refl;
    no_ring = refl;
    has_end = end_set t.ended_at;
  };
  unattended = λ h. refl;
  claimed = c;
}
  where
    end_set : (e : Option ℕ) → is_some (if is_some e then e else some now) ≡ true
    end_set none = refl
    end_set (some e) = refl

pub enter-IsValid :
    (now : ℕ) (to : Status) (reason : String) (t : Terminal)
    → (is_unattended to ≡ true → t.conn_ids ≡ [])
    → (t.closing ≡ true → (is_status to closing || is_status to closed) ≡ true)
    → IsValid (enter now to reason t).0
enter-IsValid now creating reason t u c = record {
  is_freed = λ h. absurd (ground arith);
  unattended = u;
  claimed = c;
}
enter-IsValid now attached reason t u c = record {
  is_freed = λ h. absurd (ground arith);
  unattended = u;
  claimed = c;
}
enter-IsValid now detached reason t u c = record {
  is_freed = λ h. absurd (ground arith);
  unattended = u;
  claimed = c;
}
enter-IsValid now detached_timeout reason t u c = record {
  is_freed = λ h. absurd (ground arith);
  unattended = u;
  claimed = c;
}
enter-IsValid now closing reason t u c = record {
  is_freed = λ h. absurd (ground arith);
  unattended = u;
  claimed = c;
}
enter-IsValid now lost reason t u c = finish-IsValid now lost reason t refl refl c
enter-IsValid now closed reason t u c = finish-IsValid now closed reason t refl refl c

-- Only the end, and the way back to the timeout, lead out of the closing.
claimed-can_transition :
    (from to : Status)
    → (is_status from closing || is_status from closed) ≡ true
    → can_transition from to ≡ true
    → is_status to detached_timeout ≡ false
    → (is_status to closing || is_status to closed) ≡ true
unfolding can_transition
claimed-can_transition closing to h can other = ground arith
claimed-can_transition closed to h can other = ground arith
claimed-can_transition from to h can other = absurd (ground arith)

-- A transition leaves the terminal as it is, or as it enters the status.
pub move-IsValid_of :
    (now : ℕ) (to : Status) (reason : String) (t : Terminal)
    → (is_status t.status to ≡ true → IsValid t)
    → (is_status t.status to ≡ false → can_transition t.status to ≡ false → IsValid t)
    → (can_transition t.status to ≡ true
        → IsValid (enter now to reason (record t { status_version = suc t.status_version })).0)
    → IsValid (move now to reason t).0
unfolding transition
move-IsValid_of now to reason t stays refuses enters = elim (Bool-cases (is_status t.status to)) [
  | inl same ↦ rw same (stays same)
  | inr other ↦ elim (Bool-cases (can_transition t.status to)) [
    | inl can ↦ rw (other, can) (enters can)
    | inr cannot ↦ rw (other, cannot) (refuses other cannot)
  ]
]

-- A transition that is allowed enters the status.
pub move-enters :
    (now : ℕ) (to : Status) (reason : String) (t : Terminal)
    → is_status t.status to ≡ false
    → can_transition t.status to ≡ true
    → (move now to reason t).0
      ≡ (enter now to reason (record t { status_version = suc t.status_version })).0
unfolding transition
move-enters now to reason t other can = rw (other, can) refl

pub can_detach :
    (from : Status) → is_status from attached ≡ true → can_transition from detached ≡ true
unfolding can_transition
can_detach attached h = ground arith
can_detach from h = absurd (ground arith)

pub move-IsValid :
    (now : ℕ) (to : Status) (reason : String) (t : Terminal)
    → IsValid t
    → (is_unattended to ≡ true → t.conn_ids ≡ [])
    → (t.closing ≡ true → is_status to detached_timeout ≡ false)
    → IsValid (move now to reason t).0
move-IsValid now to reason t v u c =
    move-IsValid_of now to reason t (λ same. v) (λ other cannot. v)
      (λ can.
        enter-IsValid now to reason (record t { status_version = suc t.status_version }) u
          (λ h. claimed-can_transition t.status to (v.claimed h) can (c h)))

-- Where a terminal that has not ended may not become attached, it is on its way to be closed.
refused_attach :
    (s : Status)
    → has_ended s ≡ false
    → is_status s attached ≡ false
    → can_transition s attached ≡ false
    → is_unattended s ≡ false
unfolding can_transition
refused_attach closing h other cannot = ground arith
refused_attach s h other cannot = absurd (ground arith)

pub attach-IsValid :
    (now : ℕ) (t : Terminal) (conns : List (ℕ × Attachment))
    → IsValidOf t.status conns t.closing (IsFree t)
    → has_ended t.status ≡ false
    → IsValid (move now attached "attach" t).0
attach-IsValid now t conns v running =
    move-IsValid_of now attached "attach" t (λ same. attended (ground arith))
      (λ other cannot. attended (refused_attach t.status running other cannot))
      (λ can.
        enter-IsValid now attached "attach" (record t { status_version = suc t.status_version })
          (λ h. absurd (ground arith))
          (λ h. claimed-can_transition t.status attached (v.claimed h) can refl))
  where
    attended : is_unattended t.status ≡ false → IsValid t
    attended h = record {
      is_freed = λ e. absurd (ground arith);
      unattended = λ u. absurd (ground arith);
      claimed = v.claimed;
    }

pub can_close : (from : Status) → is_status from closed ≡ false → can_transition from closed ≡ true
unfolding can_transition
can_close closed h = absurd (ground arith)
can_close from h = ground arith

pub can_claim :
    (from : Status) → is_status from detached_timeout ≡ true → can_transition from closing ≡ true
unfolding can_transition
can_claim detached_timeout h = ground arith
can_claim from h = absurd (ground arith)

-- A claimed terminal is closed by the transition that follows.
pub claim-IsValid :
    (now : ℕ) (reason : String) (t : Terminal)
    → is_status t.status closed ≡ false
    → IsValid (move now closed reason (record t { closing = true })).0
unfolding transition
claim-IsValid now reason t h =
    rw (h, can_close t.status h)
      (enter-IsValid now closed reason
        (record t { closing = true; status_version = suc t.status_version })
        (λ g. absurd (ground arith)) (λ g. refl))
