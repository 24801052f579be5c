-- ===== src/Mounts/Context.antt =====
-- What the form knows of a namespace (`buildMountCtx` of src/logic/volumeMountValidation.js).
use aliangboard.Base.{
  String, Option, none, some, List, [], ◌∷◌, ◌++◌, ◌==◌, if◌then◌else◌, filter, map, contains,
  insert,
}
use aliangboard.Mounts.{MountCtx, is_blank_text}

-- A row of a list, with the keys of its `data` and its `binaryKeys`.
pub record SourceRow : Type 0 where
  pub row_namespace : String
  pub row_name : String
  pub data_keys : List String
  pub binary_keys : List String

-- A `Set` of texts, in the order of their insertion.
abbrev pub distinct_from : List String → List String → List String
distinct_from seen [] = seen
distinct_from seen (k ∷ ks) = distinct_from (if contains seen k then seen else seen ++ (k ∷ [])) ks

abbrev pub keys_of : SourceRow → List String
keys_of r = distinct_from [] (r.data_keys ++ r.binary_keys)

abbrev pub keys_map : List SourceRow → List (String × List String) → List (String × List String)
keys_map [] m = m
keys_map (r ∷ rs) m = keys_map rs (insert r.row_name (keys_of r) m)

abbrev pub in_namespace : String → List SourceRow → List SourceRow
in_namespace namespace rows = filter (λ r. r.row_namespace == namespace) rows

abbrev pub keys_if_loaded : String → Option (List SourceRow) → Option (List (String × List String))
keys_if_loaded namespace none = none
keys_if_loaded namespace (some rows) = some (keys_map (in_namespace namespace rows) [])

abbrev pub names_if_loaded : String → Option (List SourceRow) → Option (List String)
names_if_loaded namespace none = none
names_if_loaded namespace (some rows) =
    some (distinct_from [] (map (λ (r : SourceRow). r.row_name) (in_namespace namespace rows)))

abbrev pub unknown_ctx : List String → MountCtx
unknown_ctx valid_targets = record {
  valid_targets = some valid_targets;
  cm_keys = none;
  secret_keys = none;
  known_cm_names = none;
  known_secret_names = none;
  known_pvc_names = none;
}

unfoldable pub build_mount_ctx :
    List String
    → Option (List SourceRow)
    → Option (List SourceRow)
    → Option (List SourceRow)
    → String
    → MountCtx
build_mount_ctx valid_targets config_maps secrets pvcs namespace =
    if is_blank_text namespace then unknown_ctx valid_targets else record {
      valid_targets = some valid_targets;
      cm_keys = keys_if_loaded namespace config_maps;
      secret_keys = keys_if_loaded namespace secrets;
      known_cm_names = names_if_loaded namespace config_maps;
      known_secret_names = names_if_loaded namespace secrets;
      known_pvc_names = names_if_loaded namespace pvcs;
    }
