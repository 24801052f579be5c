-- ===== src/Policy/Tools/Stored.antt =====
-- The overrides that are stored for a key, held to the tools that the key has with them.
use aliangboard.Base.{
  String, ◌≡◌, refl, ap, subst, ◌∙◌, true, false, Option, none, some, List, [], ◌∷◌, ◌++◌, ◌==◌,
  eq_iff, filter, contains, all, arith, Bool-cases, inl, inr,
}
use aliangboard.Policy.Raw.{
  Item, text, no_text, Field, missing, items, no_list, Raw, absent, broken, plain, quoted, array,
  object, texts, field_texts, or_absent, remove_all, add_all,
}
use aliangboard.Policy.Tools.{
  Key, Normalized, stored, rejected, normalize_tool_overrides, normalize_lists, is_known, includes,
  is_empty, out_of, field_items, effective_tools, override_tools, base_tools,
}
use aliangboard.Policy.Tools.Effective.{allow_texts, deny_texts, contains-effective_tools}

-- What accepted overrides are: none at all, or two lists of known tools that share none.
pub data IsAccepted : Raw → Option Raw → Type 0 where
  nothing : IsAccepted absent none
  lists :
      {allow deny : Field} (as' ds : List Item)
      → field_items allow ≡ some as'
      → field_items deny ≡ some ds
      → all is_known (as' ++ ds) ≡ true
      → is_empty (filter (includes ds) as') ≡ true
      → IsAccepted (object allow deny) (out_of as' ds)

stored-injective : (a b : Option Raw) → stored a ≡ stored b → a ≡ b
stored-injective a b e = ap out e
  where
    out : Normalized → Option Raw
    out (stored x) = x
    out (rejected _) = a

lists-IsAccepted :
    (allow deny : Field) (as' ds : Option (List Item)) (out : Option Raw)
    → field_items allow ≡ as'
    → field_items deny ≡ ds
    → normalize_lists as' ds ≡ stored out
    → IsAccepted (object allow deny) out
unfolding normalize_lists
lists-IsAccepted allow deny none ds out a d e = cc
lists-IsAccepted allow deny (some xs) none out a d e = cc
lists-IsAccepted allow deny (some xs) (some ys) out a d e =
    elim (Bool-cases (all is_known (xs ++ ys))) [
      | inr unknown ↦ absurd (ground (arith, e, unknown))
      | inl known ↦ elim (Bool-cases (is_empty (filter (includes ys) xs))) [
        | inr both ↦ absurd (ground (arith, e, known, both))
        | inl apart ↦
            subst (IsAccepted (object allow deny))
              (stored-injective (out_of xs ys) out (rw (known, apart) at e))
              (lists xs ys a d known apart)
      ]
    ]

pub normalize_tool_overrides-IsAccepted :
    (raw : Raw) (out : Option Raw) → normalize_tool_overrides raw ≡ stored out → IsAccepted raw out
unfolding normalize_tool_overrides
normalize_tool_overrides-IsAccepted absent out e =
    subst (IsAccepted absent) (stored-injective none out e) nothing
normalize_tool_overrides-IsAccepted broken out e = cc
normalize_tool_overrides-IsAccepted plain out e = cc
normalize_tool_overrides-IsAccepted (quoted q) out e = cc
normalize_tool_overrides-IsAccepted (array xs) out e = cc
normalize_tool_overrides-IsAccepted (object allow deny) out e =
    lists-IsAccepted allow deny _ _ out refl refl e

-- What is stored names the tools that were given.
out_of-texts :
    (as' ds : List Item)
    → (allow_texts (or_absent (out_of as' ds)) ≡ texts as')
      × (deny_texts (or_absent (out_of as' ds)) ≡ texts ds)
out_of-texts [] [] = (refl, refl)
out_of-texts [] (d ∷ ds) = (refl, refl)
out_of-texts (a ∷ as') [] = (refl, refl)
out_of-texts (a ∷ as') (d ∷ ds) = (refl, refl)

override_out_of :
    (as' ds : List Item) (set : List String)
    → override_tools (or_absent (out_of as' ds)) set
      ≡ remove_all (texts ds) (add_all (texts as') set)
unfolding remove_all add_all
override_out_of [] [] set = refl
override_out_of [] (d ∷ ds) set = refl
override_out_of (a ∷ as') [] set = refl
override_out_of (a ∷ as') (d ∷ ds) set = refl

field_items-texts :
    (f : Field) (xs : List Item) → field_items f ≡ some xs → field_texts f ≡ texts xs
field_items-texts missing xs e = cc
field_items-texts (items ys) xs e = ground (arith, e)
field_items-texts no_list xs e = cc

by_acceptance :
    (raw : Raw) (out : Option Raw) (set : List String)
    → IsAccepted raw out
    → override_tools (or_absent out) set ≡ override_tools raw set
by_acceptance raw out set nothing = refl
by_acceptance raw out set (lists {allow} {deny} as' ds a d known apart) =
    override_out_of as' ds set
    ∙ rw (field_items-texts allow as' a, field_items-texts deny ds d) refl

-- Overrides that are accepted and stored give a key the same tools, in the same order, as the
-- value that was handed in.
pub effective_tools-normalize_tool_overrides :
    (key : Key) (raw : Raw) (out : Option Raw)
    → normalize_tool_overrides raw ≡ stored out
    → effective_tools (record key { tool_overrides = or_absent out })
      ≡ effective_tools (record key { tool_overrides = raw })
unfolding effective_tools base_tools
effective_tools-normalize_tool_overrides key raw out accepted =
    by_acceptance raw out _ (normalize_tool_overrides-IsAccepted raw out accepted)

includes_text : (ds : List Item) (t : String) → includes ds (text t) ≡ contains (texts ds) t
includes_text [] t = refl
includes_text (text d ∷ ds) t = ground (arith, includes_text ds t)
includes_text (no_text ∷ ds) t = includes_text ds t

apart_texts :
    (as' ds : List Item) (t : String)
    → is_empty (filter (includes ds) as') ≡ true
    → contains (texts as') t ≡ true
    → contains (texts ds) t ≡ false
apart_texts [] ds t apart h = cc
apart_texts (text a ∷ as') ds t apart h = elim (Bool-cases (t == a)) [
  | inl same ↦ elim (Bool-cases (contains (texts ds) t)) [
    | inr free ↦ free
    | inl both ↦ absurd (
        ground
          (arith, apart, includes_text ds a, both, ap (contains (texts ds)) ((eq_iff t a).0 same)))
  ]
  | inr other ↦ elim (Bool-cases (includes ds (text a))) [
    | inl both ↦ absurd (ground (arith, apart, both))
    | inr free ↦ apart_texts as' ds t (rw free at apart) (ground arith)
  ]
]
apart_texts (no_text ∷ as') ds t apart h = elim (Bool-cases (includes ds no_text)) [
  | inl both ↦ absurd (ground (arith, apart, both))
  | inr free ↦ apart_texts as' ds t (rw free at apart) h
]

allowed_apart :
    (raw : Raw) (out : Option Raw) (t : String)
    → IsAccepted raw out
    → contains (allow_texts (or_absent out)) t ≡ true
    → contains (deny_texts (or_absent out)) t ≡ false
allowed_apart raw out t nothing h = cc
allowed_apart raw out t (lists as' ds a d known apart) h =
    let (as_same, ds_same) = out_of-texts as' ds in
    rw ds_same (apart_texts as' ds t apart (rw as_same at h))

-- Each tool that stored overrides allow is a tool of the key, and none that they deny is.
pub normalize_tool_overrides-IsEffective :
    (key : Key) (raw : Raw) (out : Option Raw) (t : String)
    → normalize_tool_overrides raw ≡ stored out
    → (contains (allow_texts (or_absent out)) t ≡ true
        → contains (effective_tools (record key { tool_overrides = or_absent out })) t ≡ true)
      × (contains (deny_texts (or_absent out)) t ≡ true
          → contains (effective_tools (record key { tool_overrides = or_absent out })) t ≡ false)
normalize_tool_overrides-IsEffective key raw out t accepted =
    let held = contains-effective_tools (record key { tool_overrides = or_absent out }) t in
    (
      (λ allowed.
          held
          ∙ rw
              (
                allowed,
                allowed_apart raw out t (normalize_tool_overrides-IsAccepted raw out accepted)
                    allowed,
              )
              (ground arith)),
      (λ denied. held ∙ rw denied (ground arith)),
    )
