-- ===== src/Mounts/Messages.antt =====
-- Every issue that the audit reports has its messages.
use aliangboard.Base.{
  ℕ, suc, String, Bool, true, false, not, ◌&&◌, ◌||◌, Option, none, some, List, [], ◌∷◌, ◌++◌, ◌≡◌,
  refl, ◌+◌, if-elim, if◌then◌else◌, All, is_some, lookup,
}
use aliangboard.Mounts.{
  MountType, pvc, empty_dir, host_path, nfs, config_map, secret, unknown, other_type, MountItem,
  VolumeEntry, MountCtx, Issue, is_error, Code, target_invalid, item_path_duplicate,
  items_path_field, warn, is_blank_text, is_full,
}
use aliangboard.Mounts.Keys.{mount_gate_key, edit_mount_key, issue_key}
use aliangboard.Mounts.Rules.{
  validate_entry, add_if, issue_with, mount_path_issues, system_path_issues, target_issues,
  all_items_issues, items_issues, seen_issues, see, hidden_issues, not_found_issues,
  sub_path_issues, by_type_issues, projection_issues,
}
use aliangboard.Mounts.Across.{
  pushed, pushed_all, by_entry_from, cross_issues, validate_volume_mounts, pair_issues, pairs_with,
  group_issues, all_group_issues, Groups, group_by_target, named_issues, name_issues, note_name,
  orphan_issues,
}

-- An error has a message at both gates, and every issue but that of one code has its own on the card.
abbrev pub is_target_invalid : Code → Bool
is_target_invalid target_invalid = true
is_target_invalid code = false

abbrev pub has_keys : Issue → Bool
has_keys i =
    (not (is_error i) || (is_some (mount_gate_key i.code) && is_some (edit_mount_key i.code)))
    && (is_some (issue_key i.code) || is_target_invalid i.code)

-- Every issue of a list has its keys.
pub data Keyed : List Issue → Type 0 where
  keyed_none : Keyed []
  keyed_more :
      {i : Issue} {issues : List Issue} → has_keys i ≡ true → Keyed issues → Keyed (i ∷ issues)

append-Keyed : {xs ys : List Issue} → Keyed xs → Keyed ys → Keyed (xs ++ ys)
append-Keyed keyed_none k = k
append-Keyed (keyed_more h ks) k = keyed_more h (append-Keyed ks k)

one-Keyed : {i : Issue} → has_keys i ≡ true → Keyed (i ∷ [])
one-Keyed h = keyed_more h keyed_none

if-Keyed : (b : Bool) {xs ys : List Issue} → Keyed xs → Keyed ys → Keyed (if b then xs else ys)
if-Keyed b h k = if-elim Keyed b h k

add_if-Keyed : (b : Bool) (i : Issue) → has_keys i ≡ true → Keyed (add_if b i)
add_if-Keyed b i h = if-Keyed b (one-Keyed h) keyed_none

ruleset keyed = (if-Keyed, one-Keyed, add_if-Keyed, append-Keyed, keyed_none)

system_path_issues-Keyed : (norm : String) → Keyed (system_path_issues norm)
system_path_issues-Keyed norm = search keyed

mount_path_issues-Keyed : (e : VolumeEntry) → Keyed (mount_path_issues e)
mount_path_issues-Keyed e = search (keyed, system_path_issues-Keyed)

target_issues-Keyed : (ctx : MountCtx) (e : VolumeEntry) → Keyed (target_issues ctx e)
target_issues-Keyed ctx e = search keyed

seen_issues-Keyed : (seen : List (String × ℕ)) (p : String) (i : ℕ) → Keyed (seen_issues seen p i)
seen_issues-Keyed seen p i = by_entry (lookup p seen)
  where
    by_entry :
        (o : Option ℕ)
        → Keyed (elim o [
          | none ↦ []
          | some first ↦ issue_with item_path_duplicate (items_path_field i) warn (first + 1) ∷ []
        ])
    by_entry none = keyed_none
    by_entry (some first) = one-Keyed refl

items_issues-Keyed :
    (keys : Option (List String)) (seen : List (String × ℕ)) (i : ℕ) (items : List MountItem)
    → Keyed (items_issues keys seen i items)
items_issues-Keyed keys seen i [] = keyed_none
items_issues-Keyed keys seen i (it ∷ items) =
    if-Keyed (is_full it)
      (append-Keyed
        (append-Keyed (add_if-Keyed _ _ refl)
          (append-Keyed (seen_issues-Keyed seen it.path i) (add_if-Keyed _ _ refl)))
        (items_issues-Keyed keys (see seen it.path i) (suc i) items))
      (items_issues-Keyed keys seen (suc i) items)

hidden_issues-Keyed : (keys : Option (List String)) (used : ℕ) → Keyed (hidden_issues keys used)
hidden_issues-Keyed none used = keyed_none
hidden_issues-Keyed (some keys) used = search keyed

all_items_issues-Keyed : (ctx : MountCtx) (e : VolumeEntry) → Keyed (all_items_issues ctx e)
all_items_issues-Keyed ctx e = search (keyed, items_issues-Keyed, hidden_issues-Keyed)

not_found_issues-Keyed :
    (ctx : MountCtx) (e : VolumeEntry) (t : MountType)
    → e.mount_type ≡ t
    → Keyed (not_found_issues ctx e)
not_found_issues-Keyed ctx e config_map k = rw k (search keyed)
not_found_issues-Keyed ctx e secret k = rw k (search keyed)
not_found_issues-Keyed ctx e pvc k = rw k (search keyed)
not_found_issues-Keyed ctx e empty_dir k = rw k keyed_none
not_found_issues-Keyed ctx e host_path k = rw k keyed_none
not_found_issues-Keyed ctx e nfs k = rw k keyed_none
not_found_issues-Keyed ctx e unknown k = rw k keyed_none
not_found_issues-Keyed ctx e other_type k = rw k keyed_none

sub_path_issues-Keyed : (e : VolumeEntry) → Keyed (sub_path_issues e)
sub_path_issues-Keyed e = search keyed

by_type_issues-Keyed :
    (e : VolumeEntry) (t : MountType) → e.mount_type ≡ t → Keyed (by_type_issues e)
by_type_issues-Keyed e nfs k = rw k (search keyed)
by_type_issues-Keyed e host_path k = rw k (search keyed)
by_type_issues-Keyed e config_map k = rw k keyed_none
by_type_issues-Keyed e secret k = rw k keyed_none
by_type_issues-Keyed e pvc k = rw k keyed_none
by_type_issues-Keyed e empty_dir k = rw k keyed_none
by_type_issues-Keyed e unknown k = rw k keyed_none
by_type_issues-Keyed e other_type k = rw k keyed_none

projection_issues-Keyed : (e : VolumeEntry) → Keyed (projection_issues e)
projection_issues-Keyed e = search keyed

validate_entry-Keyed : (ctx : MountCtx) (e : VolumeEntry) → Keyed (validate_entry ctx e)
unfolding validate_entry
validate_entry-Keyed ctx e = append-Keyed (add_if-Keyed _ _ refl) (
    append-Keyed (mount_path_issues-Keyed e) (
      append-Keyed (target_issues-Keyed ctx e) (
        append-Keyed (all_items_issues-Keyed ctx e) (
          append-Keyed (not_found_issues-Keyed ctx e e.mount_type refl) (
            append-Keyed (sub_path_issues-Keyed e) (
              append-Keyed (by_type_issues-Keyed e e.mount_type refl)
                (append-Keyed (projection_issues-Keyed e) (add_if-Keyed _ _ refl))))))))

pair_issues-Keyed : (a b : ℕ × String) → Keyed (pair_issues a b)
pair_issues-Keyed (i1, p1) (i2, p2) = search keyed

pairs_with-Keyed : (a : ℕ × String) (group : List (ℕ × String)) → Keyed (pairs_with a group)
pairs_with-Keyed a [] = keyed_none
pairs_with-Keyed a (b ∷ group) = append-Keyed (pair_issues-Keyed a b) (pairs_with-Keyed a group)

group_issues-Keyed : (group : List (ℕ × String)) → Keyed (group_issues group)
group_issues-Keyed [] = keyed_none
group_issues-Keyed (a ∷ group) = append-Keyed (pairs_with-Keyed a group) (group_issues-Keyed group)

all_group_issues-Keyed : (m : Groups) → Keyed (all_group_issues m)
all_group_issues-Keyed [] = keyed_none
all_group_issues-Keyed ((target, group) ∷ m) =
    append-Keyed (group_issues-Keyed group) (all_group_issues-Keyed m)

named_issues-Keyed : (o : Option ℕ) (i : ℕ) → Keyed (named_issues o i)
named_issues-Keyed none i = keyed_none
named_issues-Keyed (some first) i = one-Keyed refl

name_issues-Keyed :
    (by_name : List (String × ℕ)) (i : ℕ) (entries : List VolumeEntry)
    → Keyed (name_issues by_name i entries)
name_issues-Keyed by_name i [] = keyed_none
name_issues-Keyed by_name i (e ∷ es) =
    if-Keyed (is_blank_text e.name) (name_issues-Keyed by_name (suc i) es) (
      append-Keyed (named_issues-Keyed (lookup e.name by_name) i)
        (name_issues-Keyed (note_name by_name e.name i) (suc i) es))

orphan_issues-Keyed :
    (ctx : MountCtx) (i : ℕ) (entries : List VolumeEntry) → Keyed (orphan_issues ctx i entries)
orphan_issues-Keyed ctx i [] = keyed_none
orphan_issues-Keyed ctx i (e ∷ es) =
    append-Keyed (if-Keyed _ (one-Keyed refl) keyed_none) (orphan_issues-Keyed ctx (suc i) es)

cross_issues-Keyed :
    (ctx : MountCtx) (entries : List VolumeEntry) → Keyed (cross_issues ctx entries)
unfolding cross_issues
cross_issues-Keyed ctx entries =
    append-Keyed (all_group_issues-Keyed (group_by_target 0 entries []))
      (append-Keyed (name_issues-Keyed [] 0 entries) (orphan_issues-Keyed ctx 0 entries))

pushed-Keyed : (i : ℕ) (c : Issue) (js : List ℕ) → has_keys c ≡ true → Keyed (pushed i c js)
pushed-Keyed i c [] h = keyed_none
pushed-Keyed i c (j ∷ js) h =
    append-Keyed (if-Keyed _ (one-Keyed h) keyed_none) (pushed-Keyed i c js h)

pushed_all-Keyed : (i : ℕ) (cross : List Issue) → Keyed cross → Keyed (pushed_all i cross)
pushed_all-Keyed i [] keyed_none = keyed_none
pushed_all-Keyed i (c ∷ cross) (keyed_more h ks) =
    append-Keyed (pushed-Keyed i c c.entries h) (pushed_all-Keyed i cross ks)

by_entry_from-Keyed :
    (ctx : MountCtx) (cross : List Issue) (i : ℕ) (entries : List VolumeEntry)
    → Keyed cross
    → All Keyed (by_entry_from ctx cross i entries)
by_entry_from-Keyed ctx cross i [] k = tt
by_entry_from-Keyed ctx cross i (e ∷ es) k = (
  append-Keyed (validate_entry-Keyed ctx e) (pushed_all-Keyed i cross k),
  by_entry_from-Keyed ctx cross (suc i) es k,
)

-- Every error that the audit reports for an entry has a message where an application is deployed and where
-- a workload is edited, and every issue has one on the card, but for the code `targetInvalid`.
pub validate_volume_mounts-Keyed :
    (ctx : MountCtx) (entries : List VolumeEntry)
    → All Keyed (validate_volume_mounts ctx entries).by_entry
unfolding validate_volume_mounts
validate_volume_mounts-Keyed ctx entries =
    by_entry_from-Keyed ctx (cross_issues ctx entries) 0 entries (cross_issues-Keyed ctx entries)
