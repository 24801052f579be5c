-- ===== src/Scenarios/Volumes.antt =====
-- The gate of volumes at concrete entries.
use aliangboard.Base.{refl, false, none, some, [], ◌∷◌, All, split_on}
use aliangboard.Mounts.Rules.{validate_entry}
use aliangboard.Mounts.{normalize_mount_path, VolumeEntry, MountCtx, config_map, empty_dir}
use aliangboard.Mounts.Across.{cross_issues, validate_volume_mounts, first_error}
use aliangboard.Mounts.Distinct.{IsDistinct}
use aliangboard.Mounts.Kept.{IsKept}
use aliangboard.Mounts.Gate.{first_error-IsKept}
use aliangboard.Mounts.Messages.{Keyed, validate_volume_mounts-Keyed}

abbrev ctx : MountCtx
ctx = record {
  valid_targets = some ("main" ∷ []);
  cm_keys = some (("settings", "app.yaml" ∷ "log.yaml" ∷ []) ∷ []);
  secret_keys = none;
  known_cm_names = some ("settings" ∷ []);
  known_secret_names = none;
  known_pvc_names = none;
}

abbrev scratch : VolumeEntry
scratch = record {
  mount_type = empty_dir;
  name = "tmp";
  mount_path = "/tmp";
  sub_path = "";
  read_only = false;
  target = "main";
  pvc_name = "";
  host_dir = "";
  host_path_type = "";
  server = "";
  nfs_path = "";
  cm_name = "";
  secret_name = "";
  items = [];
  default_mode = "";
  raw = none;
}

abbrev settings : VolumeEntry
settings = record scratch {
  mount_type = config_map;
  name = "cfg";
  mount_path = "/data/cfg/";
  cm_name = "settings";
  items = record { key = "app.yaml"; path = "app.yaml" } ∷ record { key = ""; path = "" } ∷ [];
  default_mode = "0640";
}

first_error-IsKept_example :
    All IsKept (settings ∷ scratch ∷ []) × IsDistinct (settings ∷ scratch ∷ [])
unfolding first_error validate_volume_mounts validate_entry cross_issues normalize_mount_path
    split_on
first_error-IsKept_example = first_error-IsKept ctx (settings ∷ scratch ∷ []) refl

validate_volume_mounts-Keyed_example :
    All Keyed (validate_volume_mounts ctx (settings ∷ settings ∷ [])).by_entry
validate_volume_mounts-Keyed_example = validate_volume_mounts-Keyed ctx (settings ∷ settings ∷ [])
