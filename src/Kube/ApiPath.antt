-- ===== src/Kube/ApiPath.antt =====
-- server/k8s-path.mjs: an API path read back into the resource that it names.
pub mod Safe
pub mod Segments
use Prim.Native.String
use Prim.Native.Char.{code}
use aliangboard.Base.{
  ℕ, String, Bool, true, false, not, ◌&&◌, ◌||◌, Option, none, some, List, [], ◌∷◌, ◌==◌, eqb,
  if◌then◌else◌, contains, every, has_char, split_on,
}
use aliangboard.Kube.Encode.{decode_uri_component, is_seg_char}
use aliangboard.Kube.Kinds.{Kind, kind_of}

-- What `parseApiPath` returns.
pub record ApiPath : Type 0 where
  pub cluster_scope : Bool
  pub namespace : Option String
  pub all_namespaces : Bool
  pub resource : String
  pub name : Option String
  pub subresource : Option String

abbrev pub subresources : List String
subresources =
    "exec" ∷ "logs" ∷ "portforward" ∷ "attach" ∷ "log" ∷ "scale" ∷ "eviction" ∷ "status"
    ∷ "ephemeralcontainers" ∷ "token" ∷ "approval" ∷ "finalizers" ∷ "proxy" ∷ []

abbrev pub starts_with_char : ℕ → String → Bool
starts_with_char k String.[] = false
starts_with_char k (String.◌∷◌ c s) = eqb (code c) k

-- `SUBRESOURCES.has(s)`
unfoldable pub is_subresource : String → Bool
is_subresource s = contains subresources s

-- The text holds one character twice in a row: `includes('..')`, `includes('//')`.
unfoldable pub has_pair : ℕ → String → Bool
has_pair k String.[] = false
has_pair k (String.◌∷◌ c s) = (eqb (code c) k && starts_with_char k s) || has_pair k s

-- `SEG_RE.test(s)`
unfoldable pub matches_seg : String → Bool
unfolding is_seg_char
matches_seg s = not (s == "") && every is_seg_char s

unfoldable pub is_suspect : String → Bool
is_suspect s = has_pair b'.' s || has_char 0x5c s || has_char b'~' s || has_char b'%' s

unfoldable pub normalize_seg : String → Option String
normalize_seg seg = if seg == "" || is_suspect seg then none else elim (decode_uri_component seg) [
  | none ↦ none
  | some dec ↦ if is_suspect dec then none else if matches_seg dec then some dec else none
]

-- The loop of `parseApiPath` over the parts of the path: empty parts are skipped, and one bad
-- segment ends it.
unfoldable pub normalize_segs : List String → Option (List String)
normalize_segs [] = some []
normalize_segs (raw ∷ raws) =
    let rest = normalize_segs raws in
    if raw == "" then rest else elim (normalize_seg raw) [
      | none ↦ none
      | some s ↦ elim rest [ none ↦ none | some ss ↦ some (s ∷ ss) ]
    ]

-- `{ resource, name, subresource }`
pub record Tail : Type 0 where
  pub resource : String
  pub name : Option String
  pub subresource : Option String

-- `none` on an empty tail does not occur: every caller has a first segment.
unfoldable pub parse_tail : List String → Option Tail
parse_tail [] = none
parse_tail (r ∷ []) = some (record { resource = r; name = none; subresource = none })
parse_tail (r ∷ n ∷ []) = some (record { resource = r; name = some n; subresource = none })
parse_tail (r ∷ n ∷ sub ∷ more) =
    if is_subresource sub
    then some (record { resource = r; name = some n; subresource = some sub })
    else none

abbrev pub with_tail : Bool → Option String → Bool → Tail → ApiPath
with_tail scope ns all t = record {
  cluster_scope = scope;
  namespace = ns;
  all_namespaces = all;
  resource = t.resource;
  name = t.name;
  subresource = t.subresource;
}

abbrev pub is_namespaced : Option Kind → Bool
is_namespaced none = false
is_namespaced (some e) = e.ns

-- A resource at the cluster's level: a namespaced kind stands for all namespaces.
unfoldable pub at_cluster : List String → Option ApiPath
at_cluster rest = elim (parse_tail rest) [
  | none ↦ none
  | some t ↦ some (
      if is_namespaced (kind_of t.resource)
      then with_tail false none true t
      else with_tail true none false t)
]

unfoldable pub in_namespaces : List String → Option ApiPath
in_namespaces [] = some (record {
  cluster_scope = true;
  namespace = none;
  all_namespaces = false;
  resource = "namespaces";
  name = none;
  subresource = none;
})
in_namespaces (ns ∷ []) = some (record {
  cluster_scope = false;
  namespace = some ns;
  all_namespaces = false;
  resource = "namespaces";
  name = some ns;
  subresource = none;
})
in_namespaces (ns ∷ r ∷ more) = elim (parse_tail (r ∷ more)) [
  | none ↦ none
  | some t ↦ some (with_tail false (some ns) false t)
]

-- What follows the prefix `/api/v1` or `/apis/<group>/<version>`.
unfoldable pub parse_rest : List String → Option ApiPath
parse_rest [] = none
parse_rest (r ∷ more) = if r == "namespaces" then in_namespaces more else at_cluster (r ∷ more)

-- After `/apis/<group>` comes a version, and something after it.
unfoldable pub parse_group : List String → Option ApiPath
parse_group [] = none
parse_group (version ∷ rest) = parse_rest rest

unfoldable pub parse_segs : List String → Option ApiPath
parse_segs [] = none
parse_segs (a ∷ []) = none
parse_segs (a ∷ b ∷ rest) =
    if a == "api" && b == "v1"
    then parse_rest rest
    else if a == "apis"
    then parse_group rest
    else none

unfoldable pub parse_api_path : String → Option ApiPath
parse_api_path pathname =
    if has_pair b'/' pathname then none else elim (normalize_segs (split_on b'/' pathname)) [
      | none ↦ none
      | some segs ↦ parse_segs segs
    ]

-- Everything that a run of the parser computes with.
unfoldable pub parser : Unit {0}
unfolding parse_api_path parse_segs parse_group parse_rest in_namespaces at_cluster parse_tail
    is_subresource normalize_segs normalize_seg is_suspect matches_seg has_pair decode_uri_component
    kind_of split_on
parser = tt
