-- ===== src/Mounts/Across.antt =====
-- The rules across entries and the gate (`validateVolumeMounts` and `firstError` of
-- src/logic/volumeMountValidation.js).
use aliangboard.Base.{
  ℕ, suc, String, Bool, true, false, not, ◌&&◌, ◌||◌, Option, none, some, List, [], ◌∷◌, ◌++◌, ◌==◌,
  if◌then◌else◌, eqb, any, find, lookup, insert, get_or, is_some,
}
use Prim.Native.String.{◌++◌ as ◌+++◌}
use text.Mathlib.Text.{starts_with}
use aliangboard.Mounts.{
  VolumeEntry, MountCtx, Level, error, warn, Code, source_required, mount_path_duplicate,
  mount_path_nested, volume_name_duplicate, orphan_mount, IssueField, mount_path_field, name_field,
  source_field, Issue, is_error, is_blank_text, starts_slash, normalize_mount_path,
}
use aliangboard.Mounts.Rules.{validate_entry, lacks_source}

-- The path that the rules across entries compare, where it is absolute.
abbrev pub mount_path_of : VolumeEntry → Option String
mount_path_of e =
    if not (is_blank_text e.mount_path) && starts_slash e.mount_path
    then some (normalize_mount_path e.mount_path)
    else none

abbrev pub across : Code → Level → List ℕ → IssueField → Issue
across code level entries field = record {
  code = code;
  field = field;
  level = level;
  params = none;
  entries = entries;
}

-- `byTarget`: the entries of a container with their indices, in their order.
abbrev pub Groups : Type 0
Groups = List (String × List (ℕ × String))

abbrev pub add_to_group : Option String → String → ℕ → Groups → Groups
add_to_group none target i m = m
add_to_group (some p) target i m = insert target (get_or (lookup target m) [] ++ ((i, p) ∷ [])) m

abbrev pub group_by_target : ℕ → List VolumeEntry → Groups → Groups
group_by_target i [] m = m
group_by_target i (e ∷ es) m =
    group_by_target (suc i) es (add_to_group (mount_path_of e) e.target i m)

-- Rules 13 and 14 for two entries of one container.
abbrev pub pair_issues : ℕ × String → ℕ × String → List Issue
pair_issues (i1, p1) (i2, p2) =
    if p1 == p2
    then across mount_path_duplicate error (i1 ∷ i2 ∷ []) mount_path_field ∷ []
    else if not (p1 == "/")
        && (not (p2 == "/") && (starts_with p2 (p1 +++ "/") || starts_with p1 (p2 +++ "/")))
    then across mount_path_nested warn (i1 ∷ i2 ∷ []) mount_path_field ∷ []
    else []

abbrev pub pairs_with : ℕ × String → List (ℕ × String) → List Issue
pairs_with a [] = []
pairs_with a (b ∷ group) = pair_issues a b ++ pairs_with a group

abbrev pub group_issues : List (ℕ × String) → List Issue
group_issues [] = []
group_issues (a ∷ group) = pairs_with a group ++ group_issues group

abbrev pub all_group_issues : Groups → List Issue
all_group_issues [] = []
all_group_issues ((target, group) ∷ m) = group_issues group ++ all_group_issues m

-- Rule 15: `byName` has the first index of each name.
abbrev pub named_issues : Option ℕ → ℕ → List Issue
named_issues none i = []
named_issues (some first) i = across volume_name_duplicate error (first ∷ i ∷ []) name_field ∷ []

abbrev pub note_name : List (String × ℕ) → String → ℕ → List (String × ℕ)
note_name by_name name i =
    if is_some (lookup name by_name) then by_name else by_name ++ ((name, i) ∷ [])

abbrev pub name_issues : List (String × ℕ) → ℕ → List VolumeEntry → List Issue
name_issues by_name i [] = []
name_issues by_name i (e ∷ es) =
    let skipped = name_issues by_name (suc i) es in
    let after = name_issues (note_name by_name e.name i) (suc i) es in
    if is_blank_text e.name then skipped else named_issues (lookup e.name by_name) i ++ after

-- Rule 16: a mount without a volume, unless the entry has that issue already.
abbrev pub is_source_required : Issue → Bool
is_source_required i = elim i.code [ source_required ↦ true | _ ↦ false ]

abbrev pub orphan_issues : MountCtx → ℕ → List VolumeEntry → List Issue
orphan_issues ctx i [] = []
orphan_issues ctx i (e ∷ es) =
    (if is_some (mount_path_of e)
        && (lacks_source e && not (any is_source_required (validate_entry ctx e)))
      then across orphan_mount error (i ∷ []) source_field ∷ []
      else [])
    ++ orphan_issues ctx (suc i) es

unfoldable pub cross_issues : MountCtx → List VolumeEntry → List Issue
cross_issues ctx entries =
    all_group_issues (group_by_target 0 entries [])
    ++ (name_issues [] 0 entries ++ orphan_issues ctx 0 entries)

-- The last loop: what is pushed to the issues of the entry `i`.
abbrev pub pushed : ℕ → Issue → List ℕ → List Issue
pushed i c [] = []
pushed i c (j ∷ js) = (if eqb j i then c ∷ [] else []) ++ pushed i c js

abbrev pub pushed_all : ℕ → List Issue → List Issue
pushed_all i [] = []
pushed_all i (c ∷ cross) = pushed i c c.entries ++ pushed_all i cross

abbrev pub by_entry_from : MountCtx → List Issue → ℕ → List VolumeEntry → List (List Issue)
by_entry_from ctx cross i [] = []
by_entry_from ctx cross i (e ∷ es) =
    (validate_entry ctx e ++ pushed_all i cross) ∷ by_entry_from ctx cross (suc i) es

pub record MountAudit : Type 0 where
  pub by_entry : List (List Issue)
  pub cross : List Issue

unfoldable pub validate_volume_mounts : MountCtx → List VolumeEntry → MountAudit
validate_volume_mounts ctx entries = record {
  by_entry = by_entry_from ctx (cross_issues ctx entries) 0 entries;
  cross = cross_issues ctx entries;
}

abbrev pub first_error_from : ℕ → List (List Issue) → Option (ℕ × Issue)
first_error_from i [] = none
first_error_from i (issues ∷ rest) = elim (find is_error issues) [
  | some issue ↦ some (i, issue)
  | none ↦ first_error_from (suc i) rest
]

unfoldable pub first_error : MountAudit → Option (ℕ × Issue)
first_error audit = first_error_from 0 audit.by_entry
