-- ===== src/Mounts/Rules.antt =====
-- The rules on one entry (`validateEntry` of src/logic/volumeMountValidation.js): each rule gives its
-- issues, in the order of the code.
use Prim.Native.String.{◌++◌ as ◌+++◌}
use aliangboard.Base.{
  ℕ, suc, ◌+◌, ◌-◌, String, Bool, false, not, ◌&&◌, ◌||◌, Option, none, some, List, [], ◌∷◌, ◌++◌,
  ◌==◌, if◌then◌else◌, eqb, ltb, leb, any, filter, length, map, contains, split_on, has_char,
  lookup, every, is_some,
}
use text.Mathlib.Text.{starts_with}
use aliangboard.Mounts.{
  pvc, host_path, nfs, config_map, secret, MountItem, VolumeEntry, MountCtx, Level, error, warn,
  hint, Code, source_required, items_incomplete, mount_path_required, mount_path_normalized,
  mount_path_root, mount_path_backslash, system_path_runtime, system_path_etc, system_path_sa_token,
  system_path_shadow, target_invalid, item_path_invalid, item_path_duplicate, item_key_missing,
  source_not_found, sub_path_invalid, sub_path_not_in_volume, sub_path_single_file_note,
  nfs_path_root, nfs_path_invalid, host_path_sensitive, read_only_suggested, default_mode_invalid,
  default_mode_permissive, items_hide_rest, IssueField, source_field, mount_path_field,
  sub_path_field, items_field, items_path_field, target_field, host_path_field, nfs_path_field,
  read_only_field, default_mode_field, Issue, is_blank_text, starts_slash, has_space,
  normalize_mount_path, lacks, is_full, is_blank, is_projection,
}

abbrev pub runtime_paths : List String
runtime_paths = "/proc" ∷ "/sys" ∷ "/dev" ∷ []

abbrev pub etc_paths : List String
etc_paths = "/etc/hosts" ∷ "/etc/resolv.conf" ∷ "/etc/hostname" ∷ []

abbrev pub sa_token_prefix : String
sa_token_prefix = "/var/run/secrets"

abbrev pub shadow_paths : List String
shadow_paths = "/etc" ∷ "/usr" ∷ "/bin" ∷ "/sbin" ∷ "/lib" ∷ "/root" ∷ "/var/lib" ∷ []

abbrev pub host_path_sensitive_paths : List String
host_path_sensitive_paths =
    "/" ∷ "/etc" ∷ "/var/run" ∷ "/var/run/docker.sock" ∷ "/root" ∷ "/home" ∷ "/proc" ∷ "/sys"
    ∷ "/dev" ∷ []

abbrev pub issue : Code → IssueField → Level → Issue
issue code field level = record {
  code = code;
  field = field;
  level = level;
  params = none;
  entries = [];
}

abbrev pub issue_with : Code → IssueField → Level → ℕ → Issue
issue_with code field level n = record {
  code = code;
  field = field;
  level = level;
  params = some n;
  entries = [];
}

-- `if (test) add(…)`
abbrev pub add_if : Bool → Issue → List Issue
add_if test i = if test then i ∷ [] else []

-- `entry[SOURCE_FIELD[entry.type]]`, where the type has a source.
abbrev pub source_of : VolumeEntry → Option String
source_of e = elim e.mount_type [
  | pvc ↦ some e.pvc_name
  | host_path ↦ some e.host_dir
  | nfs ↦ some e.server
  | config_map ↦ some e.cm_name
  | secret ↦ some e.secret_name
  | _ ↦ none
]

abbrev pub lacks_source : VolumeEntry → Bool
lacks_source e = elim (source_of e) [ none ↦ false | some s ↦ is_blank_text s ]

-- Rule 1: the source.
abbrev pub source_issues : VolumeEntry → List Issue
source_issues e = add_if (lacks_source e) (issue source_required source_field error)

abbrev pub system_path_issues : String → List Issue
system_path_issues norm =
    if contains runtime_paths norm
    then issue system_path_runtime mount_path_field error ∷ []
    else if contains etc_paths norm
    then issue system_path_etc mount_path_field error ∷ []
    else if norm == sa_token_prefix || starts_with norm (sa_token_prefix +++ "/")
    then issue system_path_sa_token mount_path_field error ∷ []
    else add_if (contains shadow_paths norm) (issue system_path_shadow mount_path_field warn)

-- Rules 2 and 3: the mount path.
abbrev pub mount_path_issues : VolumeEntry → List Issue
mount_path_issues e =
    let norm = normalize_mount_path e.mount_path in
    add_if (has_char 92 e.mount_path) (issue mount_path_backslash mount_path_field warn)
    ++ (if is_blank_text e.mount_path || not (starts_slash e.mount_path)
        then issue mount_path_required mount_path_field error ∷ []
        else add_if (not (norm == e.mount_path)) (issue mount_path_normalized mount_path_field hint)
          ++ (add_if (norm == "/") (issue mount_path_root mount_path_field error)
              ++ system_path_issues norm))

abbrev pub target_issues : MountCtx → VolumeEntry → List Issue
target_issues ctx e =
    add_if (lacks ctx.valid_targets e.target) (issue target_invalid target_field error)

-- `entry.cmName || entry.secretName`, and the keys of that object, where they were loaded.
abbrev pub object_name : VolumeEntry → String
object_name e = if is_blank_text e.cm_name then e.secret_name else e.cm_name

abbrev pub keys_in : Option (List (String × List String)) → String → Option (List String)
keys_in none name = none
keys_in (some m) name = lookup name m

abbrev pub all_keys : MountCtx → VolumeEntry → Option (List String)
all_keys ctx e = elim e.mount_type [
  | secret ↦ keys_in ctx.secret_keys (object_name e)
  | config_map ↦ keys_in ctx.cm_keys (object_name e)
  | _ ↦ none
]

abbrev pub is_bad_item_path : String → Bool
is_bad_item_path p =
    starts_slash p
    || (has_char 92 p
        || (has_space p || any (λ seg. is_blank_text seg || seg == "..") (split_on 47 p)))

-- `seen`: the paths with the index of their first row.
abbrev pub seen_issues : List (String × ℕ) → String → ℕ → List Issue
seen_issues seen p i = elim (lookup p seen) [
  | none ↦ []
  | some first ↦ issue_with item_path_duplicate (items_path_field i) warn (first + 1) ∷ []
]

abbrev pub see : List (String × ℕ) → String → ℕ → List (String × ℕ)
see seen p i = if is_some (lookup p seen) then seen else seen ++ ((p, i) ∷ [])

abbrev pub item_issues : Option (List String) → List (String × ℕ) → MountItem → ℕ → List Issue
item_issues keys seen it i =
    add_if (is_bad_item_path it.path) (issue item_path_invalid (items_path_field i) error)
    ++ (seen_issues seen it.path i
        ++ add_if (lacks keys it.key) (issue item_key_missing (items_path_field i) error))

-- Rules 4, 5 and 12 over the rows from index `i` on.
abbrev pub items_issues : Option (List String) → List (String × ℕ) → ℕ → List MountItem → List Issue
items_issues keys seen i [] = []
items_issues keys seen i (it ∷ items) =
    let skipped = items_issues keys seen (suc i) items in
    let after = items_issues keys (see seen it.path i) (suc i) items in
    if is_full it then item_issues keys seen it i ++ after else skipped

abbrev pub is_incomplete : MountItem → Bool
is_incomplete it = not (is_blank it) && not (is_full it)

abbrev pub full_items : VolumeEntry → List MountItem
full_items e = filter is_full e.items

abbrev pub hidden_issues : Option (List String) → ℕ → List Issue
hidden_issues none used = []
hidden_issues (some keys) used =
    add_if (ltb 0 used && ltb used (length keys))
      (issue_with items_hide_rest items_field hint (length keys - used))

abbrev pub all_items_issues : MountCtx → VolumeEntry → List Issue
all_items_issues ctx e =
    items_issues (all_keys ctx e) [] 0 e.items
    ++ (add_if (any is_incomplete e.items) (issue items_incomplete items_field error)
        ++ (if is_projection e.mount_type
            then hidden_issues (all_keys ctx e) (length (full_items e))
            else []))

-- Rule 6: the source is none of the known ones.
abbrev pub unknown_source_issues : Option (List String) → String → List Issue
unknown_source_issues known name =
    add_if (not (is_blank_text name) && lacks known name)
      (issue source_not_found source_field error)

abbrev pub not_found_issues : MountCtx → VolumeEntry → List Issue
not_found_issues ctx e = elim e.mount_type [
  | config_map ↦ unknown_source_issues ctx.known_cm_names e.cm_name
  | secret ↦ unknown_source_issues ctx.known_secret_names e.secret_name
  | pvc ↦ unknown_source_issues ctx.known_pvc_names e.pvc_name
  | _ ↦ []
]

-- Rules 7 and 8: the path within the volume.
abbrev pub is_bad_sub_path : String → Bool
is_bad_sub_path p = starts_slash p || any (λ seg. seg == "..") (split_on 47 p)

abbrev pub sub_path_issues : VolumeEntry → List Issue
sub_path_issues e =
    if is_blank_text e.sub_path
    then []
    else if is_bad_sub_path e.sub_path
    then issue sub_path_invalid sub_path_field error ∷ []
    else issue sub_path_single_file_note sub_path_field hint ∷ []

-- Rules 9 and 10: NFS, and the paths of the host.
abbrev pub nfs_issues : VolumeEntry → List Issue
nfs_issues e =
    if is_blank_text e.server
    then []
    else if is_blank_text e.nfs_path
    then issue nfs_path_root nfs_path_field warn ∷ []
    else add_if (not (starts_slash e.nfs_path)) (issue nfs_path_invalid nfs_path_field error)

abbrev pub host_path_issues : VolumeEntry → List Issue
host_path_issues e =
    add_if
      (not (is_blank_text e.host_dir)
        && contains host_path_sensitive_paths (normalize_mount_path e.host_dir))
      (issue host_path_sensitive host_path_field error)

abbrev pub by_type_issues : VolumeEntry → List Issue
by_type_issues e = elim e.mount_type [
  | nfs ↦ nfs_issues e
  | host_path ↦ host_path_issues e
  | _ ↦ []
]

-- `/^[0-7]{3,4}$/`
abbrev pub chars : String → ℕ
chars String.[] = 0
chars (String.◌∷◌ c s) = suc (chars s)

abbrev pub is_octal_mode : String → Bool
is_octal_mode m = every (λ c. leb 48 c && leb c 55) m && (eqb (chars m) 3 || eqb (chars m) 4)

-- Rule 11: advice on reading only, and the mode.
abbrev pub default_mode_issues : String → List Issue
default_mode_issues m =
    if is_blank_text m
    then []
    else if not (is_octal_mode m)
    then issue default_mode_invalid default_mode_field error ∷ []
    else add_if (not (m == "0400") && not (m == "0640"))
        (issue default_mode_permissive default_mode_field hint)

abbrev pub projection_issues : VolumeEntry → List Issue
projection_issues e =
    if is_projection e.mount_type
    then add_if (not e.read_only) (issue read_only_suggested read_only_field hint)
      ++ default_mode_issues e.default_mode
    else []

-- The second half of rule 7: the path is not among what the volume projects.
abbrev pub pool : MountCtx → VolumeEntry → Option (List String)
pool ctx e =
    let projected = map (λ (it : MountItem). it.path) (full_items e) in
    if ltb 0 (length projected) then some projected else all_keys ctx e

abbrev pub not_in_volume_issues : MountCtx → VolumeEntry → List Issue
not_in_volume_issues ctx e =
    add_if
      (is_projection e.mount_type
        && (not (is_blank_text e.sub_path)
            && (not (is_bad_sub_path e.sub_path) && lacks (pool ctx e) e.sub_path)))
      (issue sub_path_not_in_volume sub_path_field warn)

unfoldable pub validate_entry : MountCtx → VolumeEntry → List Issue
validate_entry ctx e =
    source_issues e
    ++ (mount_path_issues e
        ++ (target_issues ctx e
            ++ (all_items_issues ctx e
                ++ (not_found_issues ctx e
                    ++ (sub_path_issues e
                        ++ (by_type_issues e
                            ++ (projection_issues e ++ not_in_volume_issues ctx e)))))))
