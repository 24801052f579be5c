-- ===== src/Policy/Raw.antt =====
-- What the columns of an API key hold in JSON (server/authorize.mjs), as far as the code tells
-- values apart: a text is held by what `JSON.parse` makes of it, and a value that the code takes as
-- an object already is the same value.
use aliangboard.Base.{
  String, Bool, not, ◌||◌, Option, none, some, List, [], ◌∷◌, ◌++◌, ◌==◌, if◌then◌else◌, filter,
  contains, ◌≡◌, refl, ap, eq_iff, arith, Bool-cases, ◌&&◌, inl, inr,
}

-- An element of an array: a text or anything else.
pub data Item : Type 0 where
  text : String → Item
  no_text : Item

-- A field of an object: null or undefined, an array, or anything else.
pub data Field : Type 0 where
  missing : Field
  items : List Item → Field
  no_list : Field

-- A column: null; a text that `JSON.parse` throws on; a value that is no text, no array and no object
-- (null, a number, a Boolean); a text in JSON's quotes; an array; an object with its `allow` and its
-- `deny`.
pub data Raw : Type 0 where
  absent : Raw
  broken : Raw
  plain : Raw
  quoted : String → Raw
  array : List Item → Raw
  object : Field → Field → Raw

-- `for (const t of xs) if (typeof t === 'string') …`
abbrev pub texts : List Item → List String
texts [] = []
texts (text s ∷ xs) = s ∷ texts xs
texts (no_text ∷ xs) = texts xs

-- `if (Array.isArray(field)) …`
abbrev pub field_texts : Field → List String
field_texts missing = []
field_texts (items xs) = texts xs
field_texts no_list = []

-- What a column holds after `INSERT`: SQL's NULL for `null`.
abbrev pub or_absent : Option Raw → Raw
or_absent none = absent
or_absent (some raw) = raw

-- A JavaScript `Set` of texts, as the list of its elements in the order of their insertion.
abbrev pub add : String → List String → List String
add t set = if contains set t then set else set ++ (t ∷ [])

unfoldable pub add_all : List String → List String → List String
add_all [] set = set
add_all (t ∷ ts) set = add_all ts (add t set)

abbrev pub remove : String → List String → List String
remove t set = filter (λ x. not (x == t)) set

unfoldable pub remove_all : List String → List String → List String
remove_all [] set = set
remove_all (t ∷ ts) set = remove_all ts (remove t set)

contains_last :
    (xs : List String) (t a : String) → contains (xs ++ (t ∷ [])) a ≡ (contains xs a || a == t)
contains_last [] t a = ground arith
contains_last (x ∷ xs) t a = ground (arith, contains_last xs t a)

pub contains-add :
    (t a : String) (set : List String) → contains (add t set) a ≡ (contains set a || a == t)
contains-add t a set = elim (Bool-cases (contains set t)) [
  | inl held ↦ rw held (elim (Bool-cases (a == t)) [
    | inl same ↦ ground (arith, ap (contains set) ((eq_iff a t).0 same))
    | inr other ↦ ground arith
  ])
  | inr fresh ↦ rw fresh (contains_last set t a)
]

pub contains-add_all :
    (ts set : List String) (a : String)
    → contains (add_all ts set) a ≡ (contains set a || contains ts a)
unfolding add_all
contains-add_all [] set a = ground arith
contains-add_all (t ∷ ts) set a =
    ground (arith, contains-add_all ts (add t set) a, contains-add t a set)

pub contains-filter :
    (p : String → Bool) (xs : List String) (a : String)
    → contains (filter p xs) a ≡ (contains xs a && p a)
contains-filter p [] a = refl
contains-filter p (x ∷ xs) a = elim (Bool-cases (a == x)) [
  | inl same ↦ ground (arith, ap p ((eq_iff a x).0 same), contains-filter p xs a)
  | inr other ↦ ground (arith, contains-filter p xs a)
]

pub contains-remove_all :
    (ts set : List String) (a : String)
    → contains (remove_all ts set) a ≡ (contains set a && not (contains ts a))
unfolding remove_all
contains-remove_all [] set a = ground arith
contains-remove_all (t ∷ ts) set a =
    ground
      (arith, contains-remove_all ts (remove t set) a, contains-filter (λ x. not (x == t)) set a)
