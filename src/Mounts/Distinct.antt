-- ===== src/Mounts/Distinct.antt =====
-- No two volumes of a form that passes the gate have one name.
use aliangboard.Base.{
  ℕ, suc, String, false, ◌||◌, Option, none, some, List, [], ◌∷◌, ◌++◌, ◌==◌, ◌≡◌, refl, ap, sym,
  ◌∙◌, inl, inr, arith, Bool-cases, if◌then◌else◌, any, any-append, All, All-map, is_some, lookup,
  eq_iff, subst,
}
use mathlib.Core.List.{append_assoc}
use aliangboard.Mounts.{VolumeEntry, MountCtx, Issue, is_error, is_blank_text}
use aliangboard.Mounts.Across.{
  pushed, pushed_all, cross_issues, name_issues, named_issues, note_name, all_group_issues,
  group_by_target, orphan_issues,
}

-- Each name that is not empty is that of no later entry.
abbrev pub IsDistinct : List VolumeEntry → Type 0
IsDistinct [] = Unit
IsDistinct (e ∷ es) =
    (is_blank_text e.name ≡ false → All (λ (f : VolumeEntry). (f.name == e.name) ≡ false) es)
    × IsDistinct es

-- No error is pushed to the entries from an index on.
abbrev pub AreClean : List Issue → ℕ → List VolumeEntry → Type 0
AreClean cross i [] = Unit
AreClean cross i (e ∷ es) = (any is_error (pushed_all i cross) ≡ false) × AreClean cross (suc i) es

pushed_all-append :
    (i : ℕ) (xs ys : List Issue) → pushed_all i (xs ++ ys) ≡ pushed_all i xs ++ pushed_all i ys
pushed_all-append i [] ys = refl
pushed_all-append i (c ∷ xs) ys =
    ap (λ zs. pushed i c c.entries ++ zs) (pushed_all-append i xs ys)
    ∙ sym (append_assoc (pushed i c c.entries) (pushed_all i xs) (pushed_all i ys))

any-pushed_all-append :
    (i : ℕ) (xs ys : List Issue)
    → any is_error (pushed_all i (xs ++ ys))
      ≡ (any is_error (pushed_all i xs) || any is_error (pushed_all i ys))
any-pushed_all-append i xs ys =
    ap (any is_error) (pushed_all-append i xs ys)
    ∙ any-append is_error (pushed_all i xs) (pushed_all i ys)

AreClean-append :
    (xs ys : List Issue) (i : ℕ) (es : List VolumeEntry)
    → AreClean (xs ++ ys) i es
    → AreClean xs i es × AreClean ys i es
AreClean-append xs ys i [] h = (tt, tt)
AreClean-append xs ys i (e ∷ es) (h, hs) =
    let (a, b) = AreClean-append xs ys (suc i) es hs in
    let both = any-pushed_all-append i xs ys in
    ((ground (arith, h, both), a), (ground (arith, h, both), b))

-- An entry whose name was noted gets an error.
named-clean :
    (o : Option ℕ) (i : ℕ) → any is_error (pushed_all i (named_issues o i)) ≡ false → o ≡ none
named-clean none i h = refl
named-clean (some first) i h = absurd (ground arith)

-- The names that were noted are those of no later entry.
abbrev Unnoted : List (String × ℕ) → List VolumeEntry → Type 0
Unnoted by_name es =
    All (λ (f : VolumeEntry). is_blank_text f.name ≡ false → lookup f.name by_name ≡ none) es

lookup-append_none :
    (m : List (String × ℕ)) (k j : String) (v : ℕ)
    → lookup k (m ++ ((j, v) ∷ [])) ≡ none
    → (lookup k m ≡ none) × ((j == k) ≡ false)
lookup-append_none [] k j v h = (refl, ground arith)
lookup-append_none ((l, w) ∷ m) k j v h = elim (Bool-cases (l == k)) [
  | inl same ↦ absurd (ground (arith, h, same))
  | inr other ↦
      let (a, b) = lookup-append_none m k j v (ground (arith, h, other)) in (rw other a, b)
]

-- What the names noted after an entry say of a later one.
noted_before :
    (by_name : List (String × ℕ)) (i : ℕ) (name : String) (f : VolumeEntry)
    → (is_blank_text f.name ≡ false → lookup f.name (by_name ++ ((name, i) ∷ [])) ≡ none)
    → is_blank_text f.name ≡ false
    → lookup f.name by_name ≡ none
noted_before by_name i name f h named = (lookup-append_none by_name f.name name i (h named)).0

noted_apart :
    (by_name : List (String × ℕ)) (i : ℕ) (name : String)
    → is_blank_text name ≡ false
    → (f : VolumeEntry)
    → (is_blank_text f.name ≡ false → lookup f.name (by_name ++ ((name, i) ∷ [])) ≡ none)
    → (f.name == name) ≡ false
noted_apart by_name i name given f h = elim (Bool-cases (is_blank_text f.name)) [
  | inl blank ↦ ground (arith, eq_iff f.name "", eq_iff name "", eq_iff f.name name)
  | inr named ↦
      let apart = (lookup-append_none by_name f.name name i (h named)).1 in
      ground (arith, apart, eq_iff f.name name, eq_iff name f.name)
]

names-IsDistinct :
    (by_name : List (String × ℕ)) (i : ℕ) (es : List VolumeEntry)
    → AreClean (name_issues by_name i es) i es
    → Unnoted by_name es × IsDistinct es
names-IsDistinct by_name i [] h = (tt, tt)
names-IsDistinct by_name i (e ∷ es) h = elim (Bool-cases (is_blank_text e.name)) [
  | inl blank ↦
      let skipped : name_issues by_name i (e ∷ es) ≡ name_issues by_name (suc i) es =
        rw blank refl in
      let (u, d) =
        names-IsDistinct by_name (suc i) es (subst (λ c. AreClean c i (e ∷ es)) skipped h).1 in
      (
        ((λ named. absurd (ground (arith, blank, named))), u),
        ((λ named. absurd (ground (arith, blank, named))), d),
      )
  | inr given ↦
      let own = named_issues (lookup e.name by_name) i in
      let others = name_issues (note_name by_name e.name i) (suc i) es in
      let taken : name_issues by_name i (e ∷ es) ≡ own ++ others = rw given refl in
      let (first, after) =
        AreClean-append own others i (e ∷ es) (subst (λ c. AreClean c i (e ∷ es)) taken h) in
      let fresh = named-clean (lookup e.name by_name) i first.0 in
      let (u, d) = names-IsDistinct (note_name by_name e.name i) (suc i) es after.1 in
      let unnoted : Unnoted (by_name ++ ((e.name, i) ∷ [])) es =
        subst (λ m. Unnoted m es)
          (ap (λ o. if is_some o then by_name else by_name ++ ((e.name, i) ∷ [])) fresh) u in
      (
        ((λ named. fresh), All-map _ _ (noted_before by_name i e.name) es unnoted),
        ((λ named. All-map _ _ (noted_apart by_name i e.name given) es unnoted), d),
      )
]

-- The names of the entries, where no error across them is pushed to any.
pub cross_issues-IsDistinct :
    (ctx : MountCtx) (entries : List VolumeEntry)
    → AreClean (cross_issues ctx entries) 0 entries
    → IsDistinct entries
unfolding cross_issues
cross_issues-IsDistinct ctx entries h =
    let names = name_issues [] 0 entries in
    let (groups, rest) =
      AreClean-append (all_group_issues (group_by_target 0 entries []))
        (names ++ orphan_issues ctx 0 entries) 0 entries h in
    let (clean, orphans) = AreClean-append names (orphan_issues ctx 0 entries) 0 entries rest in
    (names-IsDistinct [] 0 entries clean).1
