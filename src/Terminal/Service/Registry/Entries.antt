-- ===== src/Terminal/Service/Registry/Entries.antt =====
-- What the operations on the map of the terminals do to each entry.
use aliangboard.Base.{
  ℕ, String, Bool, true, false, not, ◌||◌, Option, none, some, List, [], ◌∷◌, ◌==◌, ◌≡◌, refl, sym,
  subst, ap, suc, ◌∙◌, eq_iff, eq_refl, inl, inr, arith, Bool-cases, if-split, lookup, insert,
  lookup-insert, All,
}
use aliangboard.Terminal.{SessionPolicy}
use aliangboard.Terminal.Service.{
  Status, creating, attached, detached, detached_timeout, closing, lost, closed, is_status,
  can_transition, Terminal, Effect, Result, transition, enter, move,
}
use aliangboard.Terminal.Service.Operations.{close_by_server}
use aliangboard.Terminal.Service.Sweep.{sweep_one}
use aliangboard.Terminal.Service.Valid.{can_close, move-enters}
use aliangboard.Terminal.Service.Registry.{
  Registry, create_unless, get_or_create, close_all_by_server, keep_terminal, sweep_terminals,
}
use aliangboard.Sessions.Reaper.Removal.{IsMap}

found-get_or_create :
    (tid : String) (made t : Terminal) (m : Registry)
    → lookup tid m ≡ some t
    → get_or_create tid made m
      ≡ record { existing = true; terminal = t; registry = m; effects = [] }
unfolding get_or_create
found-get_or_create tid made t m found = ap (λ o. create_unless o tid made m) found

-- Two creations of one terminal give the same one, the first's, whatever the second would make; the second
-- finds it there and leaves the map as it is.
pub get_or_create-twice :
    (tid : String) (made other : Terminal) (m : Registry)
    → let first = get_or_create tid made m in
      get_or_create tid other first.registry ≡ record {
        existing = true;
        terminal = first.terminal;
        registry = first.registry;
        effects = [];
      }
unfolding get_or_create
get_or_create-twice tid made other m = by_entry (lookup tid m) refl
  where
    by_entry :
        (o : Option Terminal)
        → lookup tid m ≡ o
        → let first = create_unless o tid made m in
          get_or_create tid other first.registry ≡ record {
            existing = true;
            terminal = first.terminal;
            registry = first.registry;
            effects = [];
          }
    by_entry (some t) found = found-get_or_create tid other t m found
    by_entry none fresh =
        found-get_or_create tid other made (insert tid made m)
          (ground (arith, lookup-insert tid tid made m, eq_refl tid))

status_after_claim :
    (now : ℕ) (reason : String) (t : Terminal)
    → is_status t.status closed ≡ false
    → (move now closed reason (record t { closing = true })).0.status ≡ closed
status_after_claim now reason t open_still =
    ap (λ (u : Terminal). u.status)
      (move-enters now closed reason (record t { closing = true }) open_still
        (can_close t.status open_still))

is_closed : (s : Status) → is_status s closed ≡ true → s ≡ closed
is_closed closed h = refl
is_closed s h = absurd (ground arith)

close_by_server-closed :
    (now : ℕ) (server_id reason : String) (t : Terminal)
    → t.server_id ≡ server_id
    → (close_by_server now server_id reason t).0.status ≡ closed
unfolding close_by_server
close_by_server-closed now server_id reason t here =
    if-split (λ (r : Result). r.0.status ≡ closed)
      (not (t.server_id == server_id) || is_status t.status closed)
      (λ skipped. is_closed t.status (ground (arith, skipped, eq_iff t.server_id server_id, here)))
      (λ taken. status_after_claim now reason t (ground arith))

move-server_id :
    (now : ℕ) (to : Status) (reason : String) (t : Terminal)
    → (move now to reason t).0.server_id ≡ t.server_id
unfolding transition
move-server_id now to reason t =
    if-split IsSame (is_status t.status to) (λ same. refl)
      (λ other.
        if-split IsSame (not (can_transition t.status to)) (λ no_way. refl) (λ can. entered to))
  where
    IsSame : Bool × Terminal × List Effect → Type 0
    IsSame r = r.1.server_id ≡ t.server_id

    entered :
        (to : Status)
        → (enter now to reason (record t { status_version = suc t.status_version })).0.server_id
          ≡ t.server_id
    entered creating = refl
    entered attached = refl
    entered detached = refl
    entered detached_timeout = refl
    entered closing = refl
    entered lost = refl
    entered closed = refl

server_id-close_by_server :
    (now : ℕ) (server_id reason : String) (t : Terminal)
    → (close_by_server now server_id reason t).0.server_id ≡ t.server_id
unfolding close_by_server
server_id-close_by_server now server_id reason t =
    if-split (λ (r : Result). r.0.server_id ≡ t.server_id)
      (not (t.server_id == server_id) || is_status t.status closed) (λ skipped. refl)
      (λ taken. move-server_id now closed reason (record t { closing = true }))

-- When a server is deleted, every terminal on it is closed, whatever its status was.
pub close_all_by_server-closed :
    (now : ℕ) (server_id reason : String) (m : Registry)
    → All
        (λ e. e.1.server_id ≡ server_id → e.1.status ≡ closed)
        (close_all_by_server now server_id reason m).0
unfolding close_all_by_server
close_all_by_server-closed now server_id reason [] = tt
close_all_by_server-closed now server_id reason ((tid, t) ∷ m) = (
  (λ here.
      close_by_server-closed now server_id reason t
        (sym (server_id-close_by_server now server_id reason t) ∙ here)),
  close_all_by_server-closed now server_id reason m,
)

lookup-sweep_fresh :
    (policy : SessionPolicy) (tombstone : Option ℕ) (now : ℕ) (m : Registry) (tid : String)
    → lookup tid m ≡ none
    → lookup tid (sweep_terminals policy tombstone now m).0 ≡ none
unfolding sweep_terminals
lookup-sweep_fresh policy tombstone now [] tid fresh = refl
lookup-sweep_fresh policy tombstone now ((k, t) ∷ m) tid fresh =
    kept (sweep_one policy tombstone now t).kept
      (lookup-sweep_fresh policy tombstone now m tid (ground arith))
  where
    kept :
        (o : Option Terminal)
        → lookup tid (sweep_terminals policy tombstone now m).0 ≡ none
        → lookup tid (keep_terminal k o (sweep_terminals policy tombstone now m).0) ≡ none
    kept none h = h
    kept (some u) h = ground (arith, h, fresh)

-- What a round keeps of an entry.
abbrev pub swept_entry : SessionPolicy → Option ℕ → ℕ → Option Terminal → Option Terminal
swept_entry policy tombstone now none = none
swept_entry policy tombstone now (some t) = (sweep_one policy tombstone now t).kept

-- A round of the sweep treats each terminal by itself: what is found under an id afterwards is what the
-- round kept of the terminal that was found there, and nothing where there was none.
pub lookup-sweep_terminals :
    (policy : SessionPolicy) (tombstone : Option ℕ) (now : ℕ) (m : Registry) (tid : String)
    → IsMap m
    → lookup tid (sweep_terminals policy tombstone now m).0
      ≡ swept_entry policy tombstone now (lookup tid m)
unfolding sweep_terminals
lookup-sweep_terminals policy tombstone now [] tid distinct = refl
lookup-sweep_terminals policy tombstone now ((k, t) ∷ m) tid (fresh, distinct) =
    elim (Bool-cases (k == tid)) [
      | inl same ↦ rw same (same_key (sweep_one policy tombstone now t).kept same)
      | inr other ↦ rw other (
          other_key (sweep_one policy tombstone now t).kept other
          ∙ lookup-sweep_terminals policy tombstone now m tid distinct)
    ]
  where
    rest : Registry
    rest = (sweep_terminals policy tombstone now m).0

    same_key : (o : Option Terminal) → (k == tid) ≡ true → lookup tid (keep_terminal k o rest) ≡ o
    same_key none same =
        subst (λ key. lookup key rest ≡ none) ((eq_iff k tid).0 same)
          (lookup-sweep_fresh policy tombstone now m k fresh)
    same_key (some u) same = rw same refl

    other_key :
        (o : Option Terminal)
        → (k == tid) ≡ false
        → lookup tid (keep_terminal k o rest) ≡ lookup tid rest
    other_key none other = refl
    other_key (some u) other = rw other refl
