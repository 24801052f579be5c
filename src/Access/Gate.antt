-- ===== src/Access/Gate.antt =====
-- server/k8s-gate.mjs: the gate that every Kubernetes request of a session passes.
-- A prepared statement is a function that may throw, and what the gate writes to the audit log is
-- part of its result, so that the queries of server/authz.mjs are one instance of it. Whether
-- `writeAudit` itself throws changes nothing: the code swallows that.
pub mod Decision
pub mod Refusals
pub mod Records
pub mod Routes
use aliangboard.Base.{
  ℕ, String, Bool, true, false, not, ◌&&◌, ◌||◌, Option, none, some, List, [], ◌∷◌, ◌++◌, ◌==◌,
  if◌then◌else◌, filter, contains, is_some, get_or, split_on,
}
use aliangboard.Kube.ApiPath.{ApiPath, parse_api_path}
use aliangboard.Access.Store.{Db, Grant, active_user, cluster_row, is_assigned, group_grants}
use aliangboard.Access.Levels.{level_for_request, best_level, is_enough}

-- What a statement gives: an exception, or its rows.
pub data Query {ℓ} (A : Type ℓ) : Type ℓ where
  thrown : Query A
  rows : A → Query A

infixl 5 ◌>>=◌
abbrev pub ◌>>=◌ {ℓ κ} : {A : Type ℓ} {B : Type κ} → Query A → (A → Query B) → Query B
thrown >>= f = thrown
rows a >>= f = f a

-- The statements that `createK8sGate` prepares: a cluster's mode, an active user's role, whether
-- the user is assigned to the cluster, and the user's grants on it.
pub record Stmts : Type 0 where
  pub cluster_mode : String → Query (Option String)
  pub user : String → Query (Option String)
  pub assignment : String → String → Query Bool
  pub grants : String → String → Query (List Grant)

-- The `grants` statement over the tables.
unfoldable pub gate_rows : Db → String → String → List Grant
gate_rows db user_id cluster_id =
    filter (λ g. g.subject_type == "user" && g.subject_id == user_id && g.cluster_id == cluster_id)
      db.grants
    ++ group_grants (λ g. g.cluster_id == cluster_id) user_id db.members db.grants

unfoldable pub prepare : Db → Stmts
prepare db = record {
  cluster_mode =
      λ id. rows (elim (cluster_row db id) [ none ↦ none | some c ↦ some c.ns_auth_mode ]);
  user = λ id. rows (elim (active_user db id) [ none ↦ none | some u ↦ some u.role ]);
  assignment = λ uid cid. rows (is_assigned db uid cid);
  grants = λ uid cid. rows (gate_rows db uid cid);
}

-- A session; `user_id` is the empty text on a legacy session.
pub record Session : Type 0 where
  pub user_id : String
  pub cluster_id : String

-- What a caller asks the gate: no namespace stands for the cluster itself.
pub record Request : Type 0 where
  pub namespace : Option String
  pub level : String
  pub path : Option String
  pub method : Option String

-- What `deny` and `noteUnparseable` write.
pub record Audit : Type 0 where
  pub tool : String
  pub result : String
  pub source : String
  pub reason : String
  pub owner : String
  pub cluster_id : String
  pub namespace : Option String
  pub verb : Option String
  pub resource : Option String
  pub request_summary : Option String

abbrev pub denial : Session → Request → String → Audit
denial session r reason = record {
  tool = "k8s_gate";
  result = "denied";
  source = "platform";
  reason = reason;
  owner = session.user_id;
  cluster_id = session.cluster_id;
  namespace = r.namespace;
  verb = r.method;
  resource = r.path;
  request_summary = r.path;
}

abbrev pub deny : Session → Request → String → Bool × List Audit
deny session r reason = (false, denial session r reason ∷ [])

-- `allow`, from its last step to its first: the level, the assignment, the namespace, the role.
unfoldable pub allow_by_level : Stmts → Session → String → String → Query Bool
allow_by_level s session ns level = do
  gs ← s.grants session.user_id session.cluster_id
  rows (is_enough (best_level ns none gs) level)

unfoldable pub allow_by_assignment : Stmts → Session → String → String → Query Bool
allow_by_assignment s session ns level = do
  assigned ← s.assignment session.user_id session.cluster_id
  if assigned then allow_by_level s session ns level else rows false

unfoldable pub allow_by_namespace : Stmts → Session → Option String → String → Query Bool
allow_by_namespace s session none level = rows false
allow_by_namespace s session (some ns) level = allow_by_assignment s session ns level

unfoldable pub allow_by_role : Stmts → Session → Option String → String → Option String → Query Bool
allow_by_role s session namespace level none = rows false
allow_by_role s session namespace level (some role) =
    if role == "admin" then rows true else allow_by_namespace s session namespace level

unfoldable pub allow : Stmts → Session → Option String → String → Query Bool
allow s session namespace level = do
  role ← s.user session.user_id
  allow_by_role s session namespace level role

-- `cluster && cluster.nsAuthMode === 'allowlist'`
abbrev pub is_allowlist : Option String → Bool
is_allowlist none = false
is_allowlist (some mode) = mode == "allowlist"

abbrev pub is_level : String → Bool
is_level level = level == "view" || level == "operate"

abbrev pub denial_reason : Option String → String
denial_reason none = "cluster-level-op"
denial_reason (some ns) = "ns-denied"

abbrev pub verdict : Session → Request → Bool → Bool × List Audit
verdict session r true = (true, [])
verdict session r false = deny session r (denial_reason r.namespace)

-- The body of `try`, once the cluster's mode is known.
unfoldable pub enforce : Stmts → Session → Request → Query (Bool × List Audit)
enforce s session r =
    if is_level r.level
    then (allow s session r.namespace r.level >>= λ ok. rows (verdict session r ok))
    else rows (deny session r "bad-level")

unfoldable pub try_gate : Stmts → Session → Request → Query (Bool × List Audit)
try_gate s session r = do
  mode ← s.cluster_mode session.cluster_id
  if is_allowlist mode then enforce s session r else rows (true, [])

abbrev pub or_db_error : Session → Request → Query (Bool × List Audit) → Bool × List Audit
or_db_error session r thrown = deny session r "db-error"
or_db_error session r (rows out) = out

unfoldable pub gate_k8s_session : Stmts → Session → Request → Bool × List Audit
gate_k8s_session s session r =
    if session.user_id == "" then (true, []) else or_db_error session r (try_gate s session r)

-- `noteUnparseable`: the same record with no namespace.
abbrev pub note_unparseable : Session → Option String → Option String → List Audit
note_unparseable session path method =
    denial session (record { namespace = none; level = ""; path = path; method = method })
      "unparseable-path"
    ∷ []

abbrev pub server_root_get : List String
server_root_get = "/version" ∷ "/readyz" ∷ "/healthz" ∷ "/livez" ∷ []

-- A write to a namespace object itself is an operation on the cluster.
unfoldable pub gated_namespace : ApiPath → String → Option String
gated_namespace p method =
    if p.resource == "namespaces" && is_some p.name && not (method == "GET")
    then none
    else p.namespace

unfoldable pub gate_parsed_path :
    Stmts → Session → Option ApiPath → String → String → Bool × List Audit
gate_parsed_path s session none path method =
    if method == "GET" && contains server_root_get path
    then (true, [])
    else (false, note_unparseable session (some path) (some method))
gate_parsed_path s session (some p) path method = gate_k8s_session s session (record {
  namespace = gated_namespace p method;
  level = level_for_request method p.subresource;
  path = some path;
  method = some method;
})

-- Items of a list, each with its `metadata.namespace`; `none` grants ask for no filter.
abbrev pub is_granted : List String → Option String → Bool
is_granted granted none = false
is_granted granted (some ns) = contains granted ns

unfoldable pub filter_namespace_list {ℓ} :
    {A : Type ℓ} → (A → Option String) → List A → Option (List String) → List A
filter_namespace_list namespace_of items none = items
filter_namespace_list namespace_of items (some granted) =
    filter (λ it. is_granted granted (namespace_of it)) items

-- `String(path || '').split('?')[0]`
abbrev pub first_part : List String → String
first_part [] = ""
first_part (s ∷ _) = s

unfoldable pub watched_namespace : String → Option String
watched_namespace path = elim (parse_api_path (first_part (split_on b'?' path))) [
  | none ↦ none
  | some p ↦ p.namespace
]

-- Each watched path is asked for in turn, and the first denial ends the loop.
unfoldable pub gate_watch_resources : Stmts → Session → List String → Bool × List Audit
gate_watch_resources s session [] = (true, [])
gate_watch_resources s session (path ∷ paths) =
    let rest = gate_watch_resources s session paths in
    let out = gate_k8s_session s session (record {
      namespace = watched_namespace path;
      level = "view";
      path = some path;
      method = some "GET";
    }) in
    if out.0 then (rest.0, out.1 ++ rest.1) else (false, out.1)

-- Everything that a run of the gate computes with.
unfoldable pub gate : Unit {0}
unfolding gate_k8s_session try_gate enforce allow allow_by_role allow_by_namespace
    allow_by_assignment allow_by_level prepare gate_rows cluster_row active_user is_assigned
    best_level level_for_request gated_namespace
gate = tt
