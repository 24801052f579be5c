-- ===== src/Terminal/Service/Registry.antt =====
-- The map of the terminals of server/ssh/terminal-service.mjs, and the operations that find a terminal in
-- it or go through all of them. The key of a terminal is its `id`.
pub mod Entries
use aliangboard.Base.{
  ℕ, ◌+◌, ◌-◌, String, Bool, true, false, not, ◌&&◌, ◌||◌, Option, none, some, List, [], ◌∷◌, ◌++◌,
  ◌==◌, ◌≡◌, refl, sym, subst, eq_iff, eq_refl, inl, inr, arith, Bool-cases, if-elim, if-split,
  length, filter, lookup, insert, get_or, is_some, if◌then◌else◌, All, map,
}
use aliangboard.Terminal.{SessionPolicy}
use aliangboard.Terminal.Service.{
  Status, creating, closed, lost, closing, is_status, Attachment, Terminal, Effect, transitioned,
  Result, move, finish,
}
use aliangboard.Terminal.Service.Operations.{Closed, done, terminal_active, close, close_by_server}
use aliangboard.Terminal.Service.Sweep.{
  Round, sweep_one, Boot, lost_on_boot, reattached, untouched, reconcile_on_boot,
}

abbrev pub Registry : Type 0
Registry = List (String × Terminal)

-- Whether the terminal was there already, the terminal, and the map; `made` is the factory's result.
pub record Created : Type 0 where
  pub existing : Bool
  pub terminal : Terminal
  pub registry : Registry
  pub effects : List Effect

abbrev pub create_unless : Option Terminal → String → Terminal → Registry → Created
create_unless (some t) tid made m = record {
  existing = true;
  terminal = t;
  registry = m;
  effects = [];
}
create_unless none tid made m = record {
  existing = false;
  terminal = made;
  registry = insert tid made m;
  effects = transitioned made.id none creating "create" ∷ [];
}

unfoldable pub get_or_create : String → Terminal → Registry → Created
get_or_create tid made m = create_unless (lookup tid m) tid made m

-- An operation on the terminal of an id, and nothing where there is none.
abbrev pub on_terminal : (Terminal → Result) → String → Registry → Registry × List Effect
on_terminal f tid m = elim (lookup tid m) [
  | none ↦ (m, [])
  | some t ↦ (insert tid (f t).0 m, (f t).1)
]

abbrev pub attachments : String → Registry → List Attachment
attachments tid m = elim (lookup tid m) [ none ↦ [] | some t ↦ map (λ e. e.1) t.conn_ids ]

-- `close` and `killSession` of an id; `none` is the answer for an unknown terminal.
unfoldable pub close_terminal :
    ℕ → String → String → Bool → Registry → Option Closed × Registry × List Effect
close_terminal now tid reason force m = elim (lookup tid m) [
  | none ↦ (none, m, [])
  | some t ↦ let (out, t', fx) = close now reason force t in (some out, insert tid t' m, fx)
]

abbrev pub kill_session : ℕ → String → String → Registry → Bool × Registry × List Effect
kill_session now tid reason m =
    let (out, m', fx) = close_terminal now tid reason true m in
    (elim out [ some done ↦ true | _ ↦ false ], m', fx)

unfoldable pub close_all_by_server : ℕ → String → String → Registry → Registry × List Effect
close_all_by_server now server_id reason [] = ([], [])
close_all_by_server now server_id reason ((tid, t) ∷ m) =
    let (t', fx) = close_by_server now server_id reason t in
    let (rest, gx) = close_all_by_server now server_id reason m in ((tid, t') ∷ rest, fx ++ gx)

-- One round over the map: what is left of it, and the actions with their terminals.
abbrev pub keep_terminal : String → Option Terminal → Registry → Registry
keep_terminal tid none rest = rest
keep_terminal tid (some t) rest = (tid, t) ∷ rest

unfoldable pub sweep_terminals :
    SessionPolicy → Option ℕ → ℕ → Registry → Registry × List Effect × List (String × String)
sweep_terminals policy tombstone now [] = ([], [], [])
sweep_terminals policy tombstone now ((tid, t) ∷ m) =
    let round = sweep_one policy tombstone now t in
    let (rest, fx, events) = sweep_terminals policy tombstone now m in
    (
      keep_terminal tid round.kept rest,
      round.effects ++ fx,
      map (λ action. (tid, action)) round.actions ++ events,
    )

abbrev pub count_boot : Boot → ℕ × ℕ → ℕ × ℕ
count_boot lost_on_boot (again, gone) = (again, gone + 1)
count_boot reattached (again, gone) = (again + 1, gone)
count_boot untouched counts = counts

-- `reconcileOnBoot`: the map, and how many were detached and how many lost.
unfoldable pub reconcile_all : ℕ → ℕ → Registry → Registry × ℕ × ℕ
reconcile_all now boot_at [] = ([], 0, 0)
reconcile_all now boot_at ((tid, t) ∷ m) =
    let (what, t', fx) = reconcile_on_boot now boot_at t in
    let (rest, again, gone) = reconcile_all now boot_at m in
    let counts = count_boot what (again, gone) in ((tid, t') ∷ rest, counts.0, counts.1)

-- A row of `list`.
pub record Row : Type 0 where
  pub sid : String
  pub server_id : String
  pub user_id : String
  pub status : Status
  pub browser_count : ℕ
  pub idle_ms : ℕ
  pub created_at : ℕ
  pub backend : String
  pub last_error : Option String
  pub label : String
  pub cwd : Option String

abbrev pub row_of : ℕ → Terminal → Row
row_of now t = record {
  sid = t.id;
  server_id = t.server_id;
  user_id = t.owner;
  status = t.status;
  browser_count = length t.conn_ids;
  idle_ms = now - t.last_active_at;
  created_at = t.created_at;
  backend = t.backend;
  last_error = t.last_error;
  label = t.label;
  cwd = t.cwd;
}

abbrev pub list : ℕ → Registry → List Row
list now m = map (λ e. row_of now e.1) m

abbrev pub list_by_server : ℕ → String → Registry → List Row
list_by_server now server_id m = filter (λ r. r.server_id == server_id) (list now m)
