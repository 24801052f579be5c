-- ===== src/Mounts/Generate.antt =====
-- What the form generates from an entry: the mount of a container, the volume of a pod, and the preview of
-- the files (`toMountSpec`, `toVolumeDef`, `defaultModeToInt` and `projectMountFiles` of
-- src/logic/volumeMountValidation.js).
use Prim.Native.Char.{code}
use aliangboard.Base.{
  ℕ, ◌+◌, ◌-◌, ◌*◌, String, Bool, true, false, not, ◌||◌, Option, none, some, List, [], ◌∷◌,
  if◌then◌else◌, filter, length, map, contains, ltb, is_some,
}
use aliangboard.Mounts.{
  MountType, pvc, empty_dir, host_path, nfs, config_map, secret, unknown, other_type, MountItem,
  VolumeEntry, is_blank_text, is_full, is_projection, lacks, normalize_mount_path,
}
use aliangboard.Mounts.Rules.{is_octal_mode}

-- An element of `volumeMounts`; a key that is left out is `none` or false.
pub record MountSpec : Type 0 where
  pub name : String
  pub mount_path : String
  pub sub_path : Option String
  pub read_only : Bool

abbrev pub non_empty : String → Option String
non_empty s = if is_blank_text s then none else some s

unfoldable pub to_mount_spec : VolumeEntry → Option MountSpec
to_mount_spec e =
    if is_blank_text e.name || is_blank_text e.mount_path
    then none
    else some (record {
      name = e.name;
      mount_path = e.mount_path;
      sub_path = non_empty e.sub_path;
      read_only = e.read_only;
    })

-- `parseInt(s, 8)` of a text of octal digits.
abbrev pub parse_octal : ℕ → String → ℕ
parse_octal acc String.[] = acc
parse_octal acc (String.◌∷◌ c s) = parse_octal (acc * 8 + (code c - 48)) s

unfoldable pub default_mode_to_int : String → Option ℕ
default_mode_to_int m = if is_octal_mode m then some (parse_octal 0 m) else none

pub data VolumeSource : Type 0 where
  claim : String → VolumeSource
  empty_source : VolumeSource
  host_source : String → Option String → VolumeSource
  nfs_source : String → String → VolumeSource
  config_map_source : String → List MountItem → Option ℕ → VolumeSource
  secret_source : String → List MountItem → Option ℕ → VolumeSource

-- An element of `volumes`: one that is generated, or an object passed on.
pub data VolumeDef : Type 0 where
  volume : String → VolumeSource → VolumeDef
  raw_volume : String → VolumeDef

abbrev pub volume_if : String → String → VolumeSource → Option VolumeDef
volume_if needed name source = if is_blank_text needed then none else some (volume name source)

abbrev pub volume_of : MountType → VolumeEntry → Option VolumeDef
volume_of pvc e = volume_if e.pvc_name e.name (claim e.pvc_name)
volume_of empty_dir e = some (volume e.name empty_source)
volume_of host_path e =
    volume_if e.host_dir e.name (host_source e.host_dir (non_empty e.host_path_type))
volume_of nfs e =
    volume_if e.server e.name
      (nfs_source e.server (if is_blank_text e.nfs_path then "/" else e.nfs_path))
volume_of config_map e =
    volume_if e.cm_name e.name
      (config_map_source e.cm_name (filter is_full e.items) (default_mode_to_int e.default_mode))
volume_of secret e =
    volume_if e.secret_name e.name
      (secret_source e.secret_name (filter is_full e.items) (default_mode_to_int e.default_mode))
volume_of unknown e = elim e.raw [ none ↦ none | some raw ↦ some (raw_volume raw) ]
volume_of other_type e = none

unfoldable pub to_volume_def : VolumeEntry → Option VolumeDef
to_volume_def e = if is_blank_text e.name then none else volume_of e.mount_type e

-- A file of the preview, and what it comes from.
pub data Origin : Type 0 where
  from_sub_path : Origin
  from_item : String → Origin
  from_key : Origin

pub data FileWarning : Type 0 where
  no_warning : FileWarning
  key_missing : FileWarning
  dup : FileWarning

pub record MountFile : Type 0 where
  pub path : String
  pub origin : Origin
  pub warning : FileWarning

pub record Preview : Type 0 where
  pub is_single : Bool
  pub mount_path : String
  pub keys_loaded : Bool
  pub files : List MountFile

abbrev pub item_files : Option (List String) → List String → List MountItem → List MountFile
item_files keys seen [] = []
item_files keys seen (it ∷ items) =
    record {
      path = it.path;
      origin = from_item it.key;
      warning =
          if lacks keys it.key
          then key_missing
          else if contains seen it.path
          then dup
          else no_warning;
    }
    ∷ item_files keys (it.path ∷ seen) items

abbrev pub key_files : Option (List String) → List MountFile
key_files none = []
key_files (some keys) = map (λ k. record { path = k; origin = from_key; warning = no_warning }) keys

unfoldable pub project_mount_files : VolumeEntry → Option (List String) → Preview
project_mount_files e keys =
    let norm = normalize_mount_path e.mount_path in
    let mp = if is_blank_text norm then "/" else norm in
    let rows = filter is_full e.items in
    if not (is_blank_text e.sub_path)
    then record {
      is_single = true;
      mount_path = mp;
      keys_loaded = false;
      files = record { path = mp; origin = from_sub_path; warning = no_warning } ∷ [];
    }
    else if not (is_projection e.mount_type)
    then record { is_single = false; mount_path = mp; keys_loaded = false; files = [] }
    else record {
      is_single = false;
      mount_path = mp;
      keys_loaded = is_some keys;
      files = if ltb 0 (length rows) then item_files keys [] rows else key_files keys;
    }
