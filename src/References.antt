-- ===== src/References.antt =====
-- The references to cluster objects that a message carries (server/refs-normalize.mjs): the gate on what
-- a client sends, the stamp of the cluster, and the split after the project has moved to another
-- cluster. The object that a reference was enriched with is left out, as stamp and split only pass it on.
pub mod Stamps
use aliangboard.Base.{
  ℕ, String, Bool, true, false, not, ◌&&◌, ◌||◌, Option, none, some, List, [], ◌∷◌, ◌==◌, ◌≡◌,
  if◌then◌else◌, is_some, length, ltb, filter, All, Bool-cases, inl, inr, arith, if-elim,
}

-- What the client sends as one element; a field is `none` where it is not a text.
pub record RawRef : Type 0 where
  pub kind : Option String
  pub namespace : Option String
  pub name : Option String

-- An element is `none` where it is not an object.
pub data RawReferences : Type 0 where
  no_references : RawReferences
  not_array : RawReferences
  array : List (Option RawRef) → RawReferences

-- A reference as it is stored; `cluster_id` is `none` where it is not a text.
pub record Ref : Type 0 where
  pub kind : String
  pub namespace : String
  pub name : String
  pub cluster_id : Option String
  pub cluster_name : Option String

pub data Normalized : Type 0 where
  accepted : Option (List (Option Ref)) → Normalized
  refused : String → Normalized

abbrev refs_max_items : ℕ
refs_max_items = 20

abbrev refs_max_bytes : ℕ
refs_max_bytes = 65536

abbrev trim_field : Option String → Option String → Option String → Option Ref
trim_field (some kind) (some namespace) (some name) = some (record {
  kind = kind;
  namespace = namespace;
  name = name;
  cluster_id = none;
  cluster_name = none;
})
trim_field (some kind) (some namespace) none = none
trim_field (some kind) none name = none
trim_field none namespace name = none

abbrev trim_ref : Option RawRef → Option Ref
trim_ref none = none
trim_ref (some r) = trim_field r.kind r.namespace r.name

abbrev add_ref : Option Ref → Option (List (Option Ref)) → Option (List (Option Ref))
add_ref (some r) (some refs) = some (some r ∷ refs)
add_ref (some r) none = none
add_ref none refs = none

-- `none` where an element is malformed.
abbrev pub trim_refs : List (Option RawRef) → Option (List (Option Ref))
trim_refs [] = some []
trim_refs (r ∷ rest) = add_ref (trim_ref r) (trim_refs rest)

abbrev pub bound_refs : (List (Option Ref) → ℕ) → Option (List (Option Ref)) → Normalized
bound_refs json_bytes none = refused "wbc.refsInvalid"
bound_refs json_bytes (some refs) =
    if ltb refs_max_bytes (json_bytes refs)
    then refused "wbc.refsTooLarge"
    else accepted (some refs)

-- `json_bytes` is the size of the references in JSON, in UTF-8.
unfoldable pub normalize_references : (List (Option Ref) → ℕ) → RawReferences → Normalized
normalize_references json_bytes no_references = accepted none
normalize_references json_bytes not_array = refused "wbc.refsInvalid"
normalize_references json_bytes (array items) =
    if ltb refs_max_items (length items)
    then refused "wbc.refsTooMany"
    else bound_refs json_bytes (trim_refs items)

abbrev pub named : String → Option String → Option String
named cluster_name old = if cluster_name == "" then old else some cluster_name

abbrev pub stamp_ref : String → String → Bool → Option Ref → Option Ref
stamp_ref cluster_id cluster_name preserve none = none
stamp_ref cluster_id cluster_name preserve (some r) =
    if r.kind == "server" || (cluster_id == "" || (preserve && is_some r.cluster_id))
    then some r
    else some (record {
      kind = r.kind;
      namespace = r.namespace;
      name = r.name;
      cluster_id = some cluster_id;
      cluster_name = named cluster_name r.cluster_name;
    })

unfoldable pub stamp_refs : String → String → Bool → List (Option Ref) → List (Option Ref)
stamp_refs cluster_id cluster_name preserve [] = []
stamp_refs cluster_id cluster_name preserve (r ∷ refs) =
    stamp_ref cluster_id cluster_name preserve r ∷ stamp_refs cluster_id cluster_name preserve refs

abbrev pub is_stale_id : String → Option String → Bool
is_stale_id current none = false
is_stale_id current (some cluster_id) = not (cluster_id == current)

abbrev pub is_stale : String → Option Ref → Bool
is_stale current none = false
is_stale current (some r) = is_stale_id current r.cluster_id

unfoldable pub split_stale_refs : String → List (Option Ref) → List (Option Ref) × List (Option Ref)
split_stale_refs current [] = ([], [])
split_stale_refs current (r ∷ refs) =
    let rest = split_stale_refs current refs in
    if is_stale current r then (rest.0, r ∷ rest.1) else (r ∷ rest.0, rest.1)
