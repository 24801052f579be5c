-- ===== src/Policy/Tools.antt =====
-- server/authorize.mjs: the tools of a tier, the tools of a key, the overrides that are stored for a
-- key, and the decision on a call.
pub mod Effective
pub mod Stored
pub mod Calls
use aliangboard.Base.{
  String, Bool, true, false, not, ◌&&◌, Option, none, some, List, [], ◌∷◌, ◌++◌, ◌==◌,
  if◌then◌else◌, filter, contains, all,
}
use aliangboard.Policy.Raw.{
  Item, text, no_text, Field, missing, items, no_list, Raw, absent, broken, plain, quoted, array,
  object, field_texts, add_all, remove_all,
}

abbrev pub bounded_tools : List String
bounded_tools =
    "list_resources" ∷ "get_resource" ∷ "describe_resource" ∷ "get_pod_logs" ∷ "get_events"
    ∷ "can_i" ∷ "get_resource_yaml" ∷ "rollout_history" ∷ "rollout_status" ∷ "scale" ∷ "restart"
    ∷ []

abbrev pub dangerous_tools : List String
dangerous_tools =
    "exec_pod" ∷ "attach" ∷ "browse_files" ∷ "read_file" ∷ "upload_file" ∷ "port_forward"
    ∷ "kubectl_debug" ∷ "rollout_undo" ∷ "apply_yaml" ∷ "delete_resource" ∷ "update_image" ∷ []

abbrev pub operator_extra : List String
operator_extra = "scale" ∷ "restart" ∷ []

abbrev pub read_tools : List String
read_tools = filter (λ t. not (contains operator_extra t)) bounded_tools

abbrev pub ssh_key_tools : List String
ssh_key_tools =
    "read_server_ledger" ∷ "wb_ssh_exec" ∷ "wb_ssh_read_file" ∷ "wb_ssh_run" ∷ "wb_ssh_job_out"
    ∷ "wb_ssh_job_list" ∷ []

unfoldable pub tier_tools : String → List String
tier_tools tier =
    if tier == "read"
    then read_tools
    else if tier == "operator"
    then bounded_tools
    else if tier == "admin"
    then bounded_tools ++ dangerous_tools
    else []

-- A row of `api_keys`, its `revokedAt` as whether there is one.
pub record Key : Type 0 where
  pub tier : String
  pub ssh_access : Bool
  pub tool_overrides : Raw
  pub revoked : Bool

-- The tools of the tier and of SSH, before the overrides.
unfoldable pub base_tools : Key → List String
base_tools key =
    let tools = add_all (tier_tools key.tier) [] in
    if key.ssh_access then add_all ssh_key_tools tools else tools

abbrev pub override_tools : Raw → List String → List String
override_tools absent set = set
override_tools broken set = set
override_tools plain set = set
override_tools (quoted _) set = set
override_tools (array _) set = set
override_tools (object allow deny) set =
    remove_all (field_texts deny) (add_all (field_texts allow) set)

unfoldable pub effective_tools : Key → List String
effective_tools key = override_tools key.tool_overrides (base_tools key)

-- What `normalizeToolOverrides` throws.
pub data Rejection : Type 0 where
  bad_json : Rejection
  not_object : Rejection
  not_lists : Rejection
  unknown_tool : Rejection
  allowed_and_denied : Rejection

pub data Normalized : Type 0 where
  stored : Option Raw → Normalized
  rejected : Rejection → Normalized

-- `Array.isArray(field) ? field : (field == null ? [] : null)`
abbrev pub field_items : Field → Option (List Item)
field_items missing = some []
field_items (items xs) = some xs
field_items no_list = none

abbrev pub is_known : Item → Bool
is_known (text t) = contains (bounded_tools ++ dangerous_tools) t
is_known no_text = false

-- `xs.includes(x)` on texts.
abbrev pub includes : List Item → Item → Bool
includes [] x = false
includes (text t ∷ ys) (text s) = if s == t then true else includes ys (text s)
includes (text t ∷ ys) no_text = includes ys no_text
includes (no_text ∷ ys) x = includes ys x

abbrev pub is_empty : {A : Type 0} → List A → Bool
is_empty [] = true
is_empty (_ ∷ _) = false

abbrev pub field_of : List Item → Field
field_of [] = missing
field_of (x ∷ xs) = items (x ∷ xs)

-- `Object.keys(out).length ? JSON.stringify(out) : null`
abbrev pub out_of : List Item → List Item → Option Raw
out_of allow deny =
    if is_empty allow
    then if is_empty deny then none else some (object (field_of allow) (field_of deny))
    else some (object (field_of allow) (field_of deny))

unfoldable pub normalize_lists : Option (List Item) → Option (List Item) → Normalized
normalize_lists none _ = rejected not_lists
normalize_lists (some allow) none = rejected not_lists
normalize_lists (some allow) (some deny) =
    if not (all is_known (allow ++ deny))
    then rejected unknown_tool
    else if not (is_empty (filter (includes deny) allow))
    then rejected allowed_and_denied
    else stored (out_of allow deny)

unfoldable pub normalize_tool_overrides : Raw → Normalized
normalize_tool_overrides absent = stored none
normalize_tool_overrides broken = rejected bad_json
normalize_tool_overrides plain = rejected not_object
normalize_tool_overrides (quoted _) = rejected not_object
normalize_tool_overrides (array _) = rejected not_object
normalize_tool_overrides (object allow deny) =
    normalize_lists (field_items allow) (field_items deny)

pub data Decision : Type 0 where
  allowed : Decision
  denied : String → Decision

unfoldable pub authorize : Option Key → String → Decision
authorize none tool = denied "revoked"
authorize (some key) tool =
    if key.revoked
    then denied "revoked"
    else if contains (effective_tools key) tool
    then allowed
    else denied "policy"

-- `canIDecision`
pub record CanI : Type 0 where
  pub is_allowed : Bool
  pub policy : Bool
  pub rbac : Bool

unfoldable pub can_i_decision : Bool → Bool → CanI
can_i_decision policy rbac = record { is_allowed = policy && rbac; policy = policy; rbac = rbac }

-- What a call that `withPolicy` guards does: it throws a `PermissionDeniedError` with a reason and a
-- tool, or it is what the handler gives.
pub data Call {ℓ} (A : Type ℓ) : Type ℓ where
  permission_denied : String → String → Call A
  returned : A → Call A

unfoldable pub with_policy {ℓ κ} :
    {C : Type ℓ} {A : Type κ} → (C → Option Key) → String → (C → A) → C → Call A
with_policy key_row tool handler ctx = elim (authorize (key_row ctx) tool) [
  | allowed ↦ returned (handler ctx)
  | denied reason ↦ permission_denied reason tool
]
