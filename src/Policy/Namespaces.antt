-- ===== src/Policy/Namespaces.antt =====
-- server/authorize.mjs: the namespaces of a key, and the list that is stored for it.
pub mod Stored
use Prim.Native.String
use aliangboard.Base.{
  ℕ, suc, String, Char, code, Bool, true, false, not, ◌&&◌, ◌||◌, Option, none, some, List, [], ◌∷◌,
  ◌++◌, ◌==◌, if◌then◌else◌, filter, contains, ltb, leb, eqb,
}
use aliangboard.Policy.Raw.{
  Item, text, no_text, Raw, absent, broken, plain, quoted, array, object, texts, add_all,
}

abbrev pub is_not_empty : String → Bool
is_not_empty s = not (s == "")

-- The namespace that a key is bound to, and those that its column lists.
unfoldable pub effective_namespaces : String → Raw → List String
effective_namespaces bound (array xs) = add_all (filter is_not_empty (texts xs)) (bound ∷ [])
effective_namespaces bound _ = bound ∷ []

-- `/^[a-z0-9]([-a-z0-9]*[a-z0-9])?$/`
abbrev pub is_lower_alphanumeric : Char → Bool
is_lower_alphanumeric c =
    (leb b'a' (code c) && leb (code c) b'z') || (leb b'0' (code c) && leb (code c) b'9')

is_label_rest : Char → String → Bool
is_label_rest c String.[] = is_lower_alphanumeric c
is_label_rest c (String.◌∷◌ d s) =
    (is_lower_alphanumeric c || eqb (code c) b'-') && is_label_rest d s

is_label_tail : String → Bool
unfolding is_label_rest
is_label_tail String.[] = true
is_label_tail (String.◌∷◌ c s) = is_label_rest c s

unfoldable pub is_label : String → Bool
unfolding is_label_tail
is_label String.[] = false
is_label (String.◌∷◌ c s) = is_lower_alphanumeric c && is_label_tail s

abbrev pub text_length : String → ℕ
text_length String.[] = 0
text_length (String.◌∷◌ _ s) = suc (text_length s)

-- What `normalizeAllowedNamespaces` throws or returns; `none` is `null`.
pub data Listed : Type 0 where
  broken_json : Listed
  no_array : Listed
  bad_name : String → Listed
  listed : Option (List String) → Listed

-- The names that a text gives to `for (const ns of text)`.
abbrev pub characters : String → List Item
characters String.[] = []
characters (String.◌∷◌ c s) = text (String.◌∷◌ c String.[]) ∷ characters s

abbrev pub to_list : List String → Option (List String)
to_list [] = none
to_list (x ∷ xs) = some (x ∷ xs)

abbrev pub push_name : String → List String → String → List String
push_name bound out ns =
    if not (ns == bound) && not (contains out ns) then out ++ (ns ∷ []) else out

unfoldable pub push_names : String → List String → List Item → Listed
push_names bound out [] = listed (to_list out)
push_names bound out (no_text ∷ xs) = no_array
push_names bound out (text ns ∷ xs) =
    let rest = push_names bound (push_name bound out ns) xs in
    if not (is_label ns) || ltb 63 (text_length ns) then bad_name ns else rest

-- A text in JSON's quotes is iterated by its characters, except the empty one.
unfoldable pub normalize_allowed_namespaces : Raw → String → Listed
normalize_allowed_namespaces absent bound = listed none
normalize_allowed_namespaces broken bound = broken_json
normalize_allowed_namespaces plain bound = no_array
normalize_allowed_namespaces (quoted q) bound =
    if q == "" then no_array else push_names bound [] (characters q)
normalize_allowed_namespaces (array xs) bound = push_names bound [] xs
normalize_allowed_namespaces (object _ _) bound = no_array
