-- ===== src/Mounts/Kept.antt =====
-- What an entry of the form is to generate: all that was typed.
use aliangboard.Base.{
  ℕ, String, true, false, not, Option, none, some, List, ◌≡◌, if◌then◌else◌, filter,
}
use aliangboard.Mounts.{
  MountType, pvc, empty_dir, host_path, nfs, config_map, secret, unknown, other_type, MountItem,
  VolumeEntry, is_blank_text, is_blank,
}
use aliangboard.Mounts.Generate.{
  to_mount_spec, to_volume_def, VolumeSource, claim, empty_source, host_source, nfs_source,
  config_map_source, secret_source, volume, non_empty, parse_octal,
}

-- The rows of the items that were filled in, if only in part, and the mode that was typed.
abbrev pub typed_rows : List MountItem → List MountItem
typed_rows items = filter (λ it. not (is_blank it)) items

abbrev pub typed_mode : String → Option ℕ
typed_mode m = if is_blank_text m then none else some (parse_octal 0 m)

-- All that the form holds on a volume of a type, with nothing left out.
abbrev pub typed_source : MountType → VolumeEntry → Option VolumeSource
typed_source pvc e = some (claim e.pvc_name)
typed_source empty_dir e = some empty_source
typed_source host_path e = some (host_source e.host_dir (non_empty e.host_path_type))
typed_source nfs e =
    some (nfs_source e.server (if is_blank_text e.nfs_path then "/" else e.nfs_path))
typed_source config_map e =
    some (config_map_source e.cm_name (typed_rows e.items) (typed_mode e.default_mode))
typed_source secret e =
    some (secret_source e.secret_name (typed_rows e.items) (typed_mode e.default_mode))
typed_source unknown e = none
typed_source other_type e = none

-- An entry with a name is mounted as it was typed, and its volume, where its type is one of the form's,
-- holds all that was typed. One without a name is not generated at all.
pub record IsKept (e : VolumeEntry) : Type 0 where
  pub mounted :
      is_blank_text e.name ≡ false
      → to_mount_spec e
        ≡ some (record {
          name = e.name;
          mount_path = e.mount_path;
          sub_path = non_empty e.sub_path;
          read_only = e.read_only;
        })
  pub defined :
      (source : VolumeSource)
      → is_blank_text e.name ≡ false
      → typed_source e.mount_type e ≡ some source
      → to_volume_def e ≡ some (volume e.name source)
  pub nameless : is_blank_text e.name ≡ true → (to_mount_spec e ≡ none) × (to_volume_def e ≡ none)
