-- ===== src/Access/Tools.antt =====
-- The gate of the workbench's tools (`wbToolGate`, `gateApplyNamespaces` and `sweepOrphanGrants` of
-- server/authz.mjs), the namespaces of the documents that are applied (server/apply-yaml.mjs), and
-- the check of a session's owner (server/session-guard.mjs).
pub mod Agreement
pub mod Apply
pub mod Owner
pub mod Sweep
use aliangboard.Base.{
  ℕ, suc, ◌-◌, String, Bool, true, false, not, ◌&&◌, ◌||◌, Option, none, some, List, [], ◌∷◌, ◌==◌,
  if◌then◌else◌, filter, find, contains, keys, map, length,
}
use aliangboard.Access.Store.{Db, User, Grant, Member, active_user, cluster_row, is_assigned}
use aliangboard.Access.Grants.{
  Entry, Clusters, Grants, effective_grants, can_access_cluster, can_access_ns, is_admin, mode_of,
  get_cluster,
}

-- A `PermissionDeniedError`.
pub record Refusal : Type 0 where
  pub reason : String
  pub tool : String
  pub ns : Option String
  pub level : Option String

-- A check returns, or throws.
pub data Check : Type 0 where
  passed : Check
  refused : Refusal → Check

abbrev pub passes : Check → Bool
passes passed = true
passes (refused _) = false

abbrev pub rbac : String → Option String → String → Check
rbac tool ns level = refused (record { reason = "rbac"; tool = tool; ns = ns; level = some level })

abbrev pub entry_namespaces : Option Entry → Option (List String)
entry_namespaces none = some []
entry_namespaces (some entry) = if entry.mode == "open" then none else some (keys entry.ns)

-- `wbToolGate(db, principal, clusterId)`; the empty id stands for a project with no cluster.
module _ (db : Db) (user_id cluster_id : String) where
  unfoldable pub tool_check : String → String → String → Check
  tool_check ns level tool =
      if cluster_id == "" || can_access_ns db user_id cluster_id ns level
      then passed
      else rbac tool (some ns) level

  unfoldable pub tool_entitled : String → Check
  tool_entitled tool =
      if cluster_id == "" || can_access_cluster db user_id cluster_id
      then passed
      else rbac tool none "view"

  unfoldable pub tool_cluster_wide : String → Check
  tool_cluster_wide tool =
      if cluster_id == ""
      then passed
      else if not (can_access_cluster db user_id cluster_id)
      then rbac tool none "view"
      else if is_admin (active_user db user_id)
      then passed
      else if mode_of (cluster_row db cluster_id) == "open"
      then passed
      else rbac tool none "view"

  -- `none` is `null`: no restriction.
  unfoldable pub tool_namespaces : Option (List String)
  tool_namespaces =
      if cluster_id == ""
      then none
      else if (effective_grants db user_id).role == "admin"
      then none
      else entry_namespaces (get_cluster (effective_grants db user_id).clusters cluster_id)

-- What `resolveApplyNamespace` gives for a document: its namespace, `undefined` for a kind of the
-- cluster, or `null` where the kind was not discovered.
pub data DocNs : Type 0 where
  in_namespace : String → DocNs
  cluster_kind : DocNs
  unknown_kind : DocNs

-- The namespace that the document names, the default one, or `default`.
unfoldable pub resolve_apply_namespace : String → Bool → String → DocNs
resolve_apply_namespace metadata_ns false default_ns = cluster_kind
resolve_apply_namespace metadata_ns true default_ns = in_namespace (
    if not (metadata_ns == "")
    then metadata_ns
    else if not (default_ns == "")
    then default_ns
    else "default")

abbrev pub doc_ns : Option Bool → String → String → DocNs
doc_ns none metadata_ns default_ns = unknown_kind
doc_ns (some namespaced) metadata_ns default_ns =
    resolve_apply_namespace metadata_ns namespaced default_ns

-- Documents by their `metadata.namespace`; `resource_for` tells whether a document's kind is
-- namespaced, or that it was not discovered.
unfoldable pub apply_doc_namespaces :
    List String → String → (String → ℕ → Option Bool) → ℕ → List DocNs
apply_doc_namespaces [] default_ns resource_for i = []
apply_doc_namespaces (ns ∷ nss) default_ns resource_for i =
    doc_ns (resource_for ns i) ns default_ns
    ∷ apply_doc_namespaces nss default_ns resource_for (suc i)

infixl 5 ◌>>◌
abbrev pub ◌>>◌ : Check → Check → Check
passed >> k = k
refused r >> k = refused r

module _ (check : String → String → String → Check) (cluster_wide : String → Check)
    (tool : String) where
  unfoldable pub gate_doc : DocNs → Check
  gate_doc (in_namespace ns) = check ns "operate" tool
  gate_doc cluster_kind = cluster_wide tool
  gate_doc unknown_kind =
      refused (record { reason = "policy"; tool = tool; ns = none; level = none })

  unfoldable pub gate_apply_namespaces : List DocNs → Check
  gate_apply_namespaces [] = passed
  gate_apply_namespaces (d ∷ ds) = gate_doc d >> gate_apply_namespaces ds

-- The rows that `sweepOrphanGrants` deletes.
abbrev pub user_ids : List User → List String
user_ids [] = []
user_ids (u ∷ us) = u.id ∷ user_ids us

unfoldable pub is_orphan_member : Db → Member → Bool
is_orphan_member db m = not (contains (user_ids db.users) m.user_id)

unfoldable pub is_orphan_grant : Db → Grant → Bool
is_orphan_grant db g =
    (g.subject_type == "user" && not (contains (user_ids db.users) g.subject_id))
    || (g.subject_type == "group" && not (contains db.groups g.subject_id))

-- The tables without those rows, and how many of each were deleted.
unfoldable pub sweep_orphan_grants : Db → Db × ℕ × ℕ
sweep_orphan_grants db = (
  record db {
    members = filter (λ m. not (is_orphan_member db m)) db.members;
    grants = filter (λ g. not (is_orphan_grant db g)) db.grants;
  },
  length (filter (is_orphan_member db) db.members),
  length (filter (is_orphan_grant db) db.grants),
)

-- `SELECT role, disabled FROM platform_users WHERE id=?`
unfoldable pub user_row : Db → String → Option User
user_row db user_id = find (λ u. u.id == user_id) db.users

-- `sessionOwnerValid`, where no query throws.
unfoldable pub session_owner_valid : Db → String → String → Bool
session_owner_valid db user_id cluster_id =
    if user_id == "" then true else elim (user_row db user_id) [
      | none ↦ false
      | some u ↦
          if u.disabled
          then false
          else if not (u.role == "admin") && not (cluster_id == "")
          then is_assigned db user_id cluster_id
          else true
    ]
