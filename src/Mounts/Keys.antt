-- ===== src/Mounts/Keys.antt =====
-- The keys of the messages (`GATE_KEY`, `MOUNT_GATE_KEYS`, `EDIT_MOUNT_KEYS`, `ISSUE_KEYS` and
-- `EDIT_SOURCE_KEY` of src/logic/volumeMountValidation.js).
use aliangboard.Base.{String, Option, none, some}
use aliangboard.Mounts.{
  MountType, pvc, host_path, nfs, config_map, secret, Code, source_required, items_incomplete,
  mount_path_required, mount_path_normalized, mount_path_root, mount_path_backslash,
  system_path_runtime, system_path_etc, system_path_sa_token, system_path_shadow, item_path_invalid,
  item_path_duplicate, item_key_missing, source_not_found, sub_path_invalid, sub_path_not_in_volume,
  sub_path_single_file_note, nfs_path_root, nfs_path_invalid, host_path_sensitive,
  read_only_suggested, default_mode_invalid, default_mode_permissive, items_hide_rest,
  mount_path_duplicate, mount_path_nested, volume_name_duplicate, orphan_mount, target_invalid,
}

-- The four keys of the first gate.
abbrev pub gate_key : Code → Option String
gate_key source_required = some "deploy.volumeSourceRequired"
gate_key items_incomplete = some "deploy.volumeItemsIncomplete"
gate_key mount_path_required = some "deploy.volumeMountRequired"
gate_key target_invalid = some "deploy.volumeTargetInvalid"
gate_key code = none

-- With the four, the keys of the gate.
abbrev pub mount_gate_key : Code → Option String
mount_gate_key source_required = some "deploy.volumeSourceRequired"
mount_gate_key items_incomplete = some "deploy.volumeItemsIncomplete"
mount_gate_key mount_path_required = some "deploy.volumeMountRequired"
mount_gate_key mount_path_root = some "deploy.volumeMountPathRoot"
mount_gate_key system_path_runtime = some "deploy.volumeSystemPathRuntime"
mount_gate_key system_path_etc = some "deploy.volumeSystemPathEtc"
mount_gate_key system_path_sa_token = some "deploy.volumeSystemPathSaToken"
mount_gate_key item_path_invalid = some "deploy.volumeItemPathInvalid"
mount_gate_key item_key_missing = some "deploy.volumeItemKeyMissing"
mount_gate_key source_not_found = some "deploy.volumeSourceNotFound"
mount_gate_key sub_path_invalid = some "deploy.volumeSubPathInvalid"
mount_gate_key sub_path_not_in_volume = some "deploy.volumeSubPathNotInVolume"
mount_gate_key nfs_path_invalid = some "deploy.volumeNfsPathInvalid"
mount_gate_key host_path_sensitive = some "deploy.volumeHostPathSensitive"
mount_gate_key default_mode_invalid = some "deploy.volumeDefaultModeInvalid"
mount_gate_key mount_path_duplicate = some "deploy.volumeMountPathDuplicate"
mount_gate_key volume_name_duplicate = some "deploy.volumeNameDuplicate"
mount_gate_key orphan_mount = some "deploy.volumeOrphanMount"
mount_gate_key target_invalid = some "deploy.volumeTargetInvalid"
mount_gate_key code = none

-- The keys where a workload is edited.
abbrev pub edit_mount_key : Code → Option String
edit_mount_key source_required = some "workload.validation.volumeMissingMountPath"
edit_mount_key items_incomplete = some "workload.validation.volumeItemsIncomplete"
edit_mount_key mount_path_required = some "workload.validation.volumeMissingMountPath"
edit_mount_key mount_path_root = some "workload.validation.volumeMountPathRoot"
edit_mount_key system_path_runtime = some "workload.validation.volumeSystemPathRuntime"
edit_mount_key system_path_etc = some "workload.validation.volumeSystemPathEtc"
edit_mount_key system_path_sa_token = some "workload.validation.volumeSystemPathSaToken"
edit_mount_key item_path_invalid = some "workload.validation.volumeItemPathInvalid"
edit_mount_key item_key_missing = some "workload.validation.volumeItemKeyMissing"
edit_mount_key source_not_found = some "workload.validation.volumeSourceNotFound"
edit_mount_key sub_path_invalid = some "workload.validation.volumeSubPathInvalid"
edit_mount_key sub_path_not_in_volume = some "workload.validation.volumeSubPathNotInVolume"
edit_mount_key nfs_path_invalid = some "workload.validation.volumeNfsPathInvalid"
edit_mount_key host_path_sensitive = some "workload.validation.volumeHostPathSensitive"
edit_mount_key default_mode_invalid = some "workload.validation.volumeDefaultModeInvalid"
edit_mount_key mount_path_duplicate = some "workload.validation.volumeMountPathDuplicate"
edit_mount_key volume_name_duplicate = some "workload.validation.volumeNameDuplicate"
edit_mount_key orphan_mount = some "workload.validation.volumeOrphanMount"
edit_mount_key target_invalid = some "workload.validation.volumeTargetInvalid"
edit_mount_key code = none

-- The keys of a card.
abbrev pub issue_key : Code → Option String
issue_key source_required = some "component.volumeMount.issue.sourceRequired"
issue_key items_incomplete = some "component.volumeMount.issue.itemsIncomplete"
issue_key mount_path_required = some "component.volumeMount.issue.mountPathRequired"
issue_key mount_path_normalized = some "component.volumeMount.issue.mountPathNormalized"
issue_key mount_path_root = some "component.volumeMount.issue.mountPathRoot"
issue_key mount_path_backslash = some "component.volumeMount.issue.mountPathBackslash"
issue_key system_path_runtime = some "component.volumeMount.issue.systemPathRuntime"
issue_key system_path_etc = some "component.volumeMount.issue.systemPathEtc"
issue_key system_path_sa_token = some "component.volumeMount.issue.systemPathSaToken"
issue_key system_path_shadow = some "component.volumeMount.issue.systemPathShadow"
issue_key item_path_invalid = some "component.volumeMount.issue.itemPathInvalid"
issue_key item_path_duplicate = some "component.volumeMount.issue.itemPathDuplicate"
issue_key item_key_missing = some "component.volumeMount.issue.itemKeyMissing"
issue_key source_not_found = some "component.volumeMount.issue.sourceNotFound"
issue_key sub_path_invalid = some "component.volumeMount.issue.subPathInvalid"
issue_key sub_path_not_in_volume = some "component.volumeMount.issue.subPathNotInVolume"
issue_key sub_path_single_file_note = some "component.volumeMount.issue.subPathSingleFileNote"
issue_key nfs_path_root = some "component.volumeMount.issue.nfsPathRoot"
issue_key nfs_path_invalid = some "component.volumeMount.issue.nfsPathInvalid"
issue_key host_path_sensitive = some "component.volumeMount.issue.hostPathSensitive"
issue_key read_only_suggested = some "component.volumeMount.issue.readOnlySuggested"
issue_key default_mode_invalid = some "component.volumeMount.issue.defaultModeInvalid"
issue_key default_mode_permissive = some "component.volumeMount.issue.defaultModePermissive"
issue_key items_hide_rest = some "component.volumeMount.issue.itemsHideRest"
issue_key mount_path_duplicate = some "component.volumeMount.issue.mountPathDuplicate"
issue_key mount_path_nested = some "component.volumeMount.issue.mountPathNested"
issue_key volume_name_duplicate = some "component.volumeMount.issue.volumeNameDuplicate"
issue_key orphan_mount = some "component.volumeMount.issue.orphanMount"
issue_key code = none

-- The source of a type, where a workload is edited.
abbrev pub edit_source_key : MountType → Option String
edit_source_key pvc = some "workload.validation.volumeMissingPvc"
edit_source_key host_path = some "workload.validation.volumeMissingHostPath"
edit_source_key nfs = some "workload.validation.volumeMissingNfs"
edit_source_key config_map = some "workload.validation.volumeMissingConfigMap"
edit_source_key secret = some "workload.validation.volumeMissingSecret"
edit_source_key t = none
