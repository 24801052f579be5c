-- ===== src/Terminal/Service/Handles.antt =====
-- Where a terminal may go, and what becomes of the two handles that it holds: its channel and the handle
-- of the pool.
use aliangboard.Base.{
  ℕ, suc, ◌+◌, String, true, not, Option, none, some, List, [], ◌∷◌, ◌++◌, ◌≡◌, refl, arith,
  if-elim, if-split, subst, sym,
}
use aliangboard.Terminal.Service.{
  Status, creating, attached, detached, detached_timeout, closing, lost, closed, is_status,
  can_transition, Attachment, Terminal, Effect, close_channel, call_release, close_socket,
  irreversible, transitioned, Result, if_some, close_attached, close_waiting, finish, enter,
  transition, move,
}

-- A path along the table of the transitions, each step of which counts the version of the status up by
-- one: from a status and its version to a status and its version.
pub data Moves : Status → ℕ → Status → ℕ → Type 0 where
  stays : {s : Status} {v : ℕ} → Moves s v s v
  goes :
      {s to last : Status} {v w : ℕ}
      → can_transition s to ≡ true
      → Moves to (suc v) last w
      → Moves s v last w

pub Moves-trans : {a b c : Status} {u v w : ℕ} → Moves a u b v → Moves b v c w → Moves a u c w
Moves-trans stays m = m
Moves-trans (goes can p) m = goes can (Moves-trans p m)

-- How often a handle was given back, and whether one is held.
abbrev pub releases : List Effect → ℕ
releases [] = 0
releases (call_release r ∷ fx) = suc (releases fx)
releases (close_channel c ∷ fx) = releases fx
releases (close_socket s ∷ fx) = releases fx
releases (irreversible id to reason from ∷ fx) = releases fx
releases (transitioned id from to reason ∷ fx) = releases fx

abbrev pub channel_closes : List Effect → ℕ
channel_closes [] = 0
channel_closes (close_channel c ∷ fx) = suc (channel_closes fx)
channel_closes (call_release r ∷ fx) = channel_closes fx
channel_closes (close_socket s ∷ fx) = channel_closes fx
channel_closes (irreversible id to reason from ∷ fx) = channel_closes fx
channel_closes (transitioned id from to reason ∷ fx) = channel_closes fx

abbrev pub held : Option ℕ → ℕ
held none = 0
held (some handle) = 1

pub releases-append : (fx gx : List Effect) → releases (fx ++ gx) ≡ releases fx + releases gx
releases-append [] gx = omega arith
releases-append (call_release r ∷ fx) gx = omega (arith, releases-append fx gx)
releases-append (close_channel c ∷ fx) gx = releases-append fx gx
releases-append (close_socket s ∷ fx) gx = releases-append fx gx
releases-append (irreversible id to reason from ∷ fx) gx = releases-append fx gx
releases-append (transitioned id from to reason ∷ fx) gx = releases-append fx gx

pub channel_closes-append :
    (fx gx : List Effect) → channel_closes (fx ++ gx) ≡ channel_closes fx + channel_closes gx
channel_closes-append [] gx = omega arith
channel_closes-append (close_channel c ∷ fx) gx = omega (arith, channel_closes-append fx gx)
channel_closes-append (call_release r ∷ fx) gx = channel_closes-append fx gx
channel_closes-append (close_socket s ∷ fx) gx = channel_closes-append fx gx
channel_closes-append (irreversible id to reason from ∷ fx) gx = channel_closes-append fx gx
channel_closes-append (transitioned id from to reason ∷ fx) gx = channel_closes-append fx gx

-- The status follows the table, and a handle is held or was given back, once.
pub record KeepsOf (s s' : Status) (v v' : ℕ) (release release' channel channel' : Option ℕ)
    (fx : List Effect) : Type 0 where
  pub moves : Moves s v s' v'
  pub released : releases fx + held release' ≡ held release
  pub channel_closed : channel_closes fx + held channel' ≡ held channel

abbrev pub Keeps : Terminal → Result → Type 0
Keeps t (t', fx) =
    KeepsOf t.status t'.status t.status_version t'.status_version t.release t'.release t.channel
      t'.channel fx

-- The same of an operation that also answers.
abbrev pub KeepsAfter {ℓ} : {A : Type ℓ} → Terminal → A × Terminal × List Effect → Type 0
KeepsAfter t (out, t', fx) = Keeps t (t', fx)

pub keeps_still :
    {s : Status} {v : ℕ} {release channel : Option ℕ}
    → KeepsOf s s v v release release channel channel []
keeps_still = record { moves = stays; released = omega arith; channel_closed = omega arith }

pub keeps_then :
    {a b c : Status} {u v w : ℕ} {r₁ r₂ r₃ c₁ c₂ c₃ : Option ℕ} {fx gx : List Effect}
    → KeepsOf a b u v r₁ r₂ c₁ c₂ fx
    → KeepsOf b c v w r₂ r₃ c₂ c₃ gx
    → KeepsOf a c u w r₁ r₃ c₁ c₃ (fx ++ gx)
keeps_then {fx} {gx} p q = record {
  moves = Moves-trans p.moves q.moves;
  released = omega (arith, p.released, q.released, releases-append fx gx);
  channel_closed = omega (arith, p.channel_closed, q.channel_closed, channel_closes-append fx gx);
}

-- Effects on sockets and callbacks give no handle back.
pub record IsQuiet (fx : List Effect) : Type 0 where
  pub no_release : releases fx ≡ 0
  pub no_channel : channel_closes fx ≡ 0

pub quiet_keeps :
    {s : Status} {v : ℕ} {release channel : Option ℕ} {fx : List Effect}
    → IsQuiet fx
    → KeepsOf s s v v release release channel channel fx
quiet_keeps q = record {
  moves = stays;
  released = omega (arith, q.no_release);
  channel_closed = omega (arith, q.no_channel);
}

close_attached-IsQuiet : (conns : List (ℕ × Attachment)) → IsQuiet (close_attached conns)
close_attached-IsQuiet [] = record { no_release = refl; no_channel = refl }
close_attached-IsQuiet ((k, a) ∷ conns) =
    let q = close_attached-IsQuiet conns in
    record { no_release = q.no_release; no_channel = q.no_channel }

close_waiting-IsQuiet : (sockets : List ℕ) → IsQuiet (close_waiting sockets)
close_waiting-IsQuiet [] = record { no_release = refl; no_channel = refl }
close_waiting-IsQuiet (s ∷ sockets) =
    let q = close_waiting-IsQuiet sockets in
    record { no_release = q.no_release; no_channel = q.no_channel }

-- What `releaseBackend` gives back, and a callback after it.
freed_once :
    (channel release : Option ℕ) (fx gx : List Effect)
    → IsQuiet fx
    → IsQuiet gx
    → let all = (if_some channel close_channel ++ (if_some release call_release ++ fx)) ++ gx in
      (releases all ≡ held release) × (channel_closes all ≡ held channel)
freed_once none none fx gx p q = (
  omega (arith, releases-append fx gx, p.no_release, q.no_release),
  omega (arith, channel_closes-append fx gx, p.no_channel, q.no_channel),
)
freed_once (some c) none fx gx p q = (
  omega (arith, releases-append fx gx, p.no_release, q.no_release),
  omega (arith, channel_closes-append fx gx, p.no_channel, q.no_channel),
)
freed_once none (some r) fx gx p q = (
  omega (arith, releases-append fx gx, p.no_release, q.no_release),
  omega (arith, channel_closes-append fx gx, p.no_channel, q.no_channel),
)
freed_once (some c) (some r) fx gx p q = (
  omega (arith, releases-append fx gx, p.no_release, q.no_release),
  omega (arith, channel_closes-append fx gx, p.no_channel, q.no_channel),
)

append-IsQuiet : (fx gx : List Effect) → IsQuiet fx → IsQuiet gx → IsQuiet (fx ++ gx)
append-IsQuiet fx gx p q = record {
  no_release = omega (arith, releases-append fx gx, p.no_release, q.no_release);
  no_channel = omega (arith, channel_closes-append fx gx, p.no_channel, q.no_channel);
}

entered_moves :
    {from to : Status} {v w : ℕ} → can_transition from to ≡ true → w ≡ suc v → Moves from v to w
entered_moves {from} {to} {v} {w} can counted =
    subst (λ n. Moves from v to n) (sym counted) (goes can stays)

finish-Keeps :
    (now : ℕ) (to : Status) (reason : String) (t : Terminal) (from : Status) (v : ℕ)
    → can_transition from to ≡ true
    → t.status_version ≡ suc v
    → let r = finish now to reason t in
      KeepsOf from to v r.0.status_version t.release r.0.release t.channel r.0.channel r.1
finish-Keeps now to reason t from v can counted =
    let (released, channel_closed) =
      freed_once t.channel t.release (close_attached t.conn_ids ++ close_waiting t.waiter_sockets)
        (irreversible t.id to reason t.status ∷ [])
        (append-IsQuiet (close_attached t.conn_ids) (close_waiting t.waiter_sockets)
          (close_attached-IsQuiet t.conn_ids) (close_waiting-IsQuiet t.waiter_sockets))
        (record { no_release = refl; no_channel = refl }) in
    record {
      moves = entered_moves can counted;
      released = omega (arith, released);
      channel_closed = omega (arith, channel_closed);
    }

entered_keeps :
    {from to : Status} {v w : ℕ} {release channel : Option ℕ}
    → can_transition from to ≡ true
    → w ≡ suc v
    → KeepsOf from to v w release release channel channel []
entered_keeps can counted = record {
  moves = entered_moves can counted;
  released = omega arith;
  channel_closed = omega arith;
}

enter-Keeps :
    (now : ℕ) (to : Status) (reason : String) (t : Terminal) (from : Status) (v : ℕ)
    → can_transition from to ≡ true
    → t.status_version ≡ suc v
    → let r = enter now to reason t in
      KeepsOf from r.0.status v r.0.status_version t.release r.0.release t.channel r.0.channel r.1
enter-Keeps now creating reason t from v can counted = entered_keeps can counted
enter-Keeps now attached reason t from v can counted = entered_keeps can counted
enter-Keeps now detached reason t from v can counted = entered_keeps can counted
enter-Keeps now detached_timeout reason t from v can counted = entered_keeps can counted
enter-Keeps now closing reason t from v can counted = entered_keeps can counted
enter-Keeps now lost reason t from v can counted = finish-Keeps now lost reason t from v can counted
enter-Keeps now closed reason t from v can counted =
    finish-Keeps now closed reason t from v can counted

pub move-Keeps :
    (now : ℕ) (to : Status) (reason : String) (t : Terminal) → Keeps t (move now to reason t)
unfolding transition
move-Keeps now to reason t = if-elim (KeepsAfter t) (is_status t.status to) keeps_still (
    if-split (KeepsAfter t) (not (can_transition t.status to)) (λ cannot. keeps_still)
      (λ can.
        keeps_then
          (enter-Keeps now to reason (record t { status_version = suc t.status_version }) t.status
            t.status_version (ground arith) refl)
          (quiet_keeps (record { no_release = refl; no_channel = refl }))))
