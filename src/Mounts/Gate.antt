-- ===== src/Mounts/Gate.antt =====
-- What passes the gate is generated whole.
use mathlib.Core.Option.{some-injective}
use aliangboard.Base.{
  ℕ, suc, String, Bool, true, false, not, ◌||◌, Option, none, some, List, [], ◌∷◌, ◌++◌, ◌≡◌, refl,
  arith, if◌then◌else◌, any, any-append, find, filter, All, has_char, eq_iff, ap, sym, subst,
  Bool-cases, inl, inr,
}
use aliangboard.Mounts.{
  MountType, pvc, empty_dir, host_path, nfs, config_map, secret, unknown, other_type, MountItem,
  VolumeEntry, MountCtx, Issue, is_error, is_blank_text, is_full, is_projection,
  normalize_mount_path, mount_path_backslash, mount_path_field, warn, items_incomplete, items_field,
  error, read_only_suggested, read_only_field, hint,
}
use aliangboard.Mounts.Rules.{
  validate_entry, source_issues, mount_path_issues, target_issues, all_items_issues, items_issues,
  not_found_issues, sub_path_issues, by_type_issues, projection_issues, is_incomplete, lacks_source,
  default_mode_issues, is_octal_mode, add_if, issue, all_keys,
}
use aliangboard.Mounts.Across.{
  pushed_all, by_entry_from, cross_issues, first_error_from, first_error, validate_volume_mounts,
}
use aliangboard.Mounts.Distinct.{IsDistinct, AreClean, cross_issues-IsDistinct}
use aliangboard.Mounts.Generate.{
  to_mount_spec, to_volume_def, VolumeSource, empty_source, volume, volume_if, volume_of,
  default_mode_to_int, parse_octal,
}
use aliangboard.Mounts.Kept.{typed_rows, typed_mode, typed_source, IsKept}

find-any : (issues : List Issue) → find is_error issues ≡ none → any is_error issues ≡ false
find-any [] h = refl
find-any (i ∷ issues) h = by_test (is_error i) refl (find-any issues) h
  where
    by_test :
        (b : Bool)
        → is_error i ≡ b
        → (find is_error issues ≡ none → any is_error issues ≡ false)
        → (if b then some i else find is_error issues) ≡ none
        → (b || any is_error issues) ≡ false
    by_test true e rest none_found = absurd (ground arith)
    by_test false e rest none_found = rest none_found

-- No error in the issues of a part.
left_part : (xs ys : List Issue) → any is_error (xs ++ ys) ≡ false → any is_error xs ≡ false
left_part xs ys h = ground (arith, any-append is_error xs ys, h)

right_part : (xs ys : List Issue) → any is_error (xs ++ ys) ≡ false → any is_error ys ≡ false
right_part xs ys h = ground (arith, any-append is_error xs ys, h)

source_given : (e : VolumeEntry) → any is_error (source_issues e) ≡ false → lacks_source e ≡ false
source_given e h = ground arith

given_some :
    (needed name : String) (source typed : VolumeSource)
    → is_blank_text needed ≡ false
    → some source ≡ some typed
    → volume_if needed name source ≡ some (volume name typed)
given_some needed name source typed h same =
    rw h (ap (λ x. some (volume name x)) (some-injective source typed same))

volume_given :
    (t : MountType) (e : VolumeEntry) (typed : VolumeSource)
    → e.mount_type ≡ t
    → lacks_source e ≡ false
    → filter is_full e.items ≡ typed_rows e.items
    → (is_projection t ≡ true → default_mode_to_int e.default_mode ≡ typed_mode e.default_mode)
    → typed_source t e ≡ some typed
    → volume_of t e ≡ some (volume e.name typed)
volume_given pvc e typed k given rows mode same =
    given_some e.pvc_name e.name _ typed (ground (arith, k, given)) same
volume_given empty_dir e typed k given rows mode same =
    ap (λ x. some (volume e.name x)) (some-injective empty_source typed same)
volume_given host_path e typed k given rows mode same =
    given_some e.host_dir e.name _ typed (ground (arith, k, given)) same
volume_given nfs e typed k given rows mode same =
    given_some e.server e.name _ typed (ground (arith, k, given)) same
volume_given config_map e typed k given rows mode same =
    given_some e.cm_name e.name _ typed (ground (arith, k, given)) (rw (rows, mode refl) same)
volume_given secret e typed k given rows mode same =
    given_some e.secret_name e.name _ typed (ground (arith, k, given)) (rw (rows, mode refl) same)
volume_given unknown e typed k given rows mode same = absurd (ground arith)
volume_given other_type e typed k given rows mode same = absurd (ground arith)

path_given :
    (e : VolumeEntry)
    → any is_error (mount_path_issues e) ≡ false
    → is_blank_text e.mount_path ≡ false
path_given e h = by_test (is_blank_text e.mount_path) refl
  where
    norm : String
    norm = normalize_mount_path e.mount_path

    by_test : (b : Bool) → is_blank_text e.mount_path ≡ b → is_blank_text e.mount_path ≡ false
    by_test false blank = blank
    by_test true blank = absurd (
        ground (
          arith,
          rw blank at (
              right_part
                (add_if (has_char 92 e.mount_path)
                  (issue mount_path_backslash mount_path_field warn))
                _ h),
        ))

items_given :
    (items : List MountItem)
    → any is_incomplete items ≡ false
    → filter is_full items ≡ typed_rows items
items_given [] h = refl
items_given (it ∷ items) h = ground (arith, items_given items (ground arith))

default_mode_given :
    (m : String)
    → any is_error (default_mode_issues m) ≡ false
    → default_mode_to_int m ≡ typed_mode m
unfolding default_mode_to_int
default_mode_given m h = elim (Bool-cases (is_blank_text m)) [
  | inl blank ↦
      subst (λ x. (if is_octal_mode x then some (parse_octal 0 x) else none) ≡ typed_mode x)
        (sym ((eq_iff m "").0 blank)) refl
  | inr typed ↦ elim (Bool-cases (is_octal_mode m)) [
    | inl octal ↦ rw (octal, typed) refl
    | inr bad ↦ absurd (ground (arith, rw (typed, bad) at h))
  ]
]

-- The rules of an entry, each without an error.
record IsClean (ctx : MountCtx) (e : VolumeEntry) : Type 0 where
  source : any is_error (source_issues e) ≡ false
  path : any is_error (mount_path_issues e) ≡ false
  items : any is_error (all_items_issues ctx e) ≡ false
  projection : any is_error (projection_issues e) ≡ false

validate_entry-IsClean :
    (ctx : MountCtx) (e : VolumeEntry) → any is_error (validate_entry ctx e) ≡ false → IsClean ctx e
unfolding validate_entry
validate_entry-IsClean ctx e h =
    let h1 = right_part (source_issues e) _ h in
    let h2 = right_part (mount_path_issues e) _ h1 in
    let h3 = right_part (target_issues ctx e) _ h2 in
    let h4 = right_part (all_items_issues ctx e) _ h3 in
    let h5 = right_part (not_found_issues ctx e) _ h4 in
    let h6 = right_part (sub_path_issues e) _ h5 in
    let h7 = right_part (by_type_issues e) _ h6 in
    record {
      source = left_part (source_issues e) _ h;
      path = left_part (mount_path_issues e) _ h1;
      items = left_part (all_items_issues ctx e) _ h3;
      projection = left_part (projection_issues e) _ h7;
    }

clean-IsKept : (ctx : MountCtx) (e : VolumeEntry) → IsClean ctx e → IsKept e
unfolding to_mount_spec to_volume_def
clean-IsKept ctx e c = record {
  mounted = λ named. rw (named, path_given e c.path) refl;
  defined = λ source named typed. rw named (
      volume_given e.mount_type e source refl (source_given e c.source)
        (items_given e.items (complete (any is_incomplete e.items) refl))
        (λ projects. default_mode_given e.default_mode (modes projects)) typed);
  nameless = λ blank. rw blank (refl, refl);
}
  where
    complete : (b : Bool) → any is_incomplete e.items ≡ b → any is_incomplete e.items ≡ false
    complete false e_items = e_items
    complete true e_items = absurd (
        ground (
          arith,
          rw e_items at (
              left_part
                (add_if (any is_incomplete e.items) (issue items_incomplete items_field error)) _
                (right_part (items_issues (all_keys ctx e) [] 0 e.items) _ c.items)),
        ))

    modes :
        is_projection e.mount_type ≡ true
        → any is_error (default_mode_issues e.default_mode) ≡ false
    modes projects =
        right_part (add_if (not e.read_only) (issue read_only_suggested read_only_field hint)) _
          (rw projects at c.projection)

first_passes :
    (issues : List Issue) (later : List (List Issue)) (n : ℕ)
    → first_error_from n (issues ∷ later) ≡ none
    → (any is_error issues ≡ false) × (first_error_from (suc n) later ≡ none)
first_passes issues later n h =
    let (found, rest) = by_find (find is_error issues) refl h in (find-any issues found, rest)
  where
    by_find :
        (o : Option Issue)
        → find is_error issues ≡ o
        → (elim o [ some issue ↦ some (n, issue) | none ↦ first_error_from (suc n) later ]) ≡ none
        → (find is_error issues ≡ none) × (first_error_from (suc n) later ≡ none)
    by_find none found h = (found, h)
    by_find (some issue) found h = absurd (ground arith)

no_error_in :
    (ctx : MountCtx) (cross : List Issue) (i n : ℕ) (entries : List VolumeEntry)
    → first_error_from n (by_entry_from ctx cross i entries) ≡ none
    → All IsKept entries × AreClean cross i entries
no_error_in ctx cross i n [] h = (tt, tt)
no_error_in ctx cross i n (e ∷ es) h =
    let own = validate_entry ctx e in
    let (fine, rest) =
      first_passes (own ++ pushed_all i cross) (by_entry_from ctx cross (suc i) es) n h in
    let (kept, clean) = no_error_in ctx cross (suc i) (suc n) es rest in
    let own_fine = left_part own (pushed_all i cross) fine in
    (
      (clean-IsKept ctx e (validate_entry-IsClean ctx e own_fine), kept),
      (right_part own (pushed_all i cross) fine, clean),
    )

-- Where the gate finds no error, each entry that has a name gives a mount with its name, path, sub-path and
-- flag, and where its type is one of the form's a volume of that name with the source that was typed; that
-- of a ConfigMap or a Secret has every row of the items that has a key or a path, and the mode that was
-- typed, if any. An entry without a name passes too and gives neither. No two entries have the same
-- name, but for the empty one.
pub first_error-IsKept :
    (ctx : MountCtx) (entries : List VolumeEntry)
    → first_error (validate_volume_mounts ctx entries) ≡ none
    → All IsKept entries × IsDistinct entries
unfolding first_error validate_volume_mounts
first_error-IsKept ctx entries h =
    let (kept, clean) = no_error_in ctx (cross_issues ctx entries) 0 0 entries h in
    (kept, cross_issues-IsDistinct ctx entries clean)
