-- ===== src/Policy/Namespaces/Stored.antt =====
-- The namespaces of a key, one by one, and the stored list held to the list that was handed in.
use aliangboard.Base.{
  String, ◌≡◌, refl, ap, sym, ◌∙◌, true, not, ◌&&◌, ◌||◌, Option, none, some, List, [], ◌∷◌, ◌++◌,
  ◌==◌, eq_iff, filter, contains, ltb, All, All-append, map, arith, Bool-cases, inl, inr,
}
use aliangboard.Policy.Raw.{
  Item, text, no_text, Raw, absent, array, texts, add, add_all, contains-add_all, contains-filter,
}
use aliangboard.Policy.Namespaces.{
  is_not_empty, effective_namespaces, is_label, text_length, Listed, listed, to_list, push_name,
  push_names, normalize_allowed_namespaces,
}

-- A key may use its own namespace, and each namespace that a list in its column names except the
-- empty one.
pub contains-effective_namespaces :
    (bound ns : String) (xs : List Item)
    → contains (effective_namespaces bound (array xs)) ns
      ≡ (ns == bound || (contains (texts xs) ns && is_not_empty ns))
unfolding effective_namespaces
contains-effective_namespaces bound ns xs = ground (
  arith,
  contains-add_all (filter is_not_empty (texts xs)) (bound ∷ []) ns,
  contains-filter is_not_empty (texts xs) ns,
)

-- What the column holds for a list that `normalizeAllowedNamespaces` returns.
abbrev pub column : Option (List String) → Raw
column none = absent
column (some names) = array (map text names)

add_all-append :
    (xs : List String) (n : String) (set : List String)
    → add_all (xs ++ (n ∷ [])) set ≡ add n (add_all xs set)
unfolding add_all
add_all-append [] n set = refl
add_all-append (x ∷ xs) n set = add_all-append xs n (add x set)

add_held : (n : String) (set : List String) → contains set n ≡ true → add n set ≡ set
add_held n set held = rw held refl

-- A name that is a label is not empty.
label-not_empty : (ns : String) → is_label ns ≡ true → is_not_empty ns ≡ true
unfolding is_label
label-not_empty ns h = elim (Bool-cases (ns == "")) [
  | inl blank ↦ absurd (ground (arith, h, ap is_label ((eq_iff ns "").0 blank)))
  | inr some_text ↦ rw some_text refl
]

-- Adding a name to the list is adding it to the set of namespaces.
add_all-push_name :
    (bound ns : String) (out : List String)
    → add_all (push_name bound out ns) (bound ∷ []) ≡ add ns (add_all out (bound ∷ []))
add_all-push_name bound ns out = elim (Bool-cases (not (ns == bound) && not (contains out ns))) [
  | inl fresh ↦ rw fresh (add_all-append out ns (bound ∷ []))
  | inr known ↦ rw known (
      sym (
        add_held ns (add_all out (bound ∷ []))
          (contains-add_all out (bound ∷ []) ns ∙ ground arith)))
]

column_texts :
    (out : List String)
    → All (λ n. is_not_empty n ≡ true) out
    → filter is_not_empty (texts (map text out)) ≡ out
column_texts [] ok = refl
column_texts (n ∷ out) (full, ok) = rw full (ap (λ ns. n ∷ ns) (column_texts out ok))

effective_namespaces-to_list :
    (bound : String) (out : List String)
    → All (λ n. is_not_empty n ≡ true) out
    → effective_namespaces bound (column (to_list out)) ≡ add_all out (bound ∷ [])
unfolding effective_namespaces add_all
effective_namespaces-to_list bound [] ok = refl
effective_namespaces-to_list bound (n ∷ out) ok =
    ap (λ ns. add_all ns (bound ∷ [])) (column_texts (n ∷ out) ok)

push_name-All :
    (bound ns : String) (out : List String)
    → All (λ n. is_not_empty n ≡ true) out
    → is_not_empty ns ≡ true
    → All (λ n. is_not_empty n ≡ true) (push_name bound out ns)
push_name-All bound ns out ok full =
    elim (Bool-cases (not (ns == bound) && not (contains out ns))) [
      | inl fresh ↦ rw fresh (All-append (λ n. is_not_empty n ≡ true) out (ns ∷ []) ok (full, tt))
      | inr known ↦ rw known ok
    ]

listed-injective : (a b : Option (List String)) → listed a ≡ listed b → a ≡ b
listed-injective a b e = ap names e
  where
    names : Listed → Option (List String)
    names (listed x) = x
    names _ = a

push_names-add_all :
    (bound : String) (out : List String) (xs : List Item) (names : Option (List String))
    → All (λ n. is_not_empty n ≡ true) out
    → push_names bound out xs ≡ listed names
    → effective_namespaces bound (column names)
      ≡ add_all (filter is_not_empty (texts xs)) (add_all out (bound ∷ []))
unfolding push_names add_all
push_names-add_all bound out [] names ok e =
    ap (λ ns. effective_namespaces bound (column ns)) (sym (listed-injective (to_list out) names e))
    ∙ effective_namespaces-to_list bound out ok
push_names-add_all bound out (no_text ∷ xs) names ok e = cc
push_names-add_all bound out (text ns ∷ xs) names ok e = elim (Bool-cases (is_label ns)) [
  | inr wrong ↦ absurd (ground (arith, e, wrong))
  | inl label ↦
      let full = label-not_empty ns label in
      elim (Bool-cases (ltb 63 (text_length ns))) [
        | inl long ↦ absurd (ground (arith, e, label, long))
        | inr short ↦
            push_names-add_all bound (push_name bound out ns) xs names
              (push_name-All bound ns out ok full) (rw (label, short) at e)
            ∙ rw (full, add_all-push_name bound ns out) refl
      ]
]

-- A list of namespaces that is accepted and stored gives a key the same namespaces, in the same order,
-- as the list that was handed in.
pub effective_namespaces-normalize_allowed_namespaces :
    (bound : String) (xs : List Item) (names : Option (List String))
    → normalize_allowed_namespaces (array xs) bound ≡ listed names
    → effective_namespaces bound (column names) ≡ effective_namespaces bound (array xs)
unfolding normalize_allowed_namespaces effective_namespaces add_all
effective_namespaces-normalize_allowed_namespaces bound xs names e =
    push_names-add_all bound [] xs names tt e
