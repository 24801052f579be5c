-- ===== src/Kube/ApiPath/Safe.antt =====
-- The segments that `parseApiPath` lets through, and what it makes of them.
use aliangboard.Base.{
  String, ◌≡◌, refl, true, false, Option, none, some, List, [], ◌∷◌, arith, All, Option-cases,
  Bool-cases, inl, inr, ◌==◌, split_on, ◌&&◌,
}
use aliangboard.Kube.ApiPath.{
  ApiPath, has_pair, matches_seg, normalize_seg, normalize_segs, Tail, is_suspect, parse_group,
  parse_tail, at_cluster, in_namespaces, parse_rest, parse_segs, parse_api_path,
}

-- A nonempty text of `[A-Za-z0-9_.-]` with no two dots in a row, so neither a separator, an
-- escape nor a step to a parent directory.
abbrev pub IsSafe : String → Type 0
IsSafe s = (matches_seg s ≡ true) × (has_pair b'.' s ≡ false)

abbrev pub IsSafeIfAny : Option String → Type 0
IsSafeIfAny none = Unit
IsSafeIfAny (some s) = IsSafe s

pub record IsSafePath (r : ApiPath) : Type 0 where
  pub namespace : IsSafeIfAny r.namespace
  pub resource : IsSafe r.resource
  pub name : IsSafeIfAny r.name
  pub subresource : IsSafeIfAny r.subresource

normalize_seg-IsSafe : (raw s : String) → normalize_seg raw ≡ some s → IsSafe s
unfolding normalize_seg is_suspect
normalize_seg-IsSafe raw s h = ground arith

normalize_segs-All : (raws segs : List String) → normalize_segs raws ≡ some segs → All IsSafe segs
unfolding normalize_segs
normalize_segs-All [] segs h = ground arith
normalize_segs-All (raw ∷ raws) segs h = elim (Bool-cases (raw == "")) [
  | inl blank ↦ normalize_segs-All raws segs (ground arith)
  | inr is_not ↦ elim (Option-cases (normalize_seg raw)) [
    | inl bad ↦ ground arith
    | inr (s, good) ↦ elim (Option-cases (normalize_segs raws)) [
      | inl bad ↦ ground arith
      | inr (ss, rest) ↦
          let both : All IsSafe (s ∷ ss) =
            (normalize_seg-IsSafe raw s good, normalize_segs-All raws ss rest) in
          let same : s ∷ ss ≡ segs = ground arith in rw (← same) both
    ]
  ]
]

record IsSafeTail (t : Tail) : Type 0 where
  resource : IsSafe t.resource
  name : IsSafeIfAny t.name
  subresource : IsSafeIfAny t.subresource

parse_tail-IsSafeTail :
    (segs : List String) (t : Tail) → All IsSafe segs → parse_tail segs ≡ some t → IsSafeTail t
unfolding parse_tail
parse_tail-IsSafeTail [] t h e = ground arith
parse_tail-IsSafeTail (a ∷ []) t h e = ground arith
parse_tail-IsSafeTail (a ∷ b ∷ []) t h e = ground arith
parse_tail-IsSafeTail (a ∷ b ∷ c ∷ more) t h e = ground arith

at_cluster-IsSafePath :
    (segs : List String) (r : ApiPath) → All IsSafe segs → at_cluster segs ≡ some r → IsSafePath r
unfolding at_cluster
at_cluster-IsSafePath segs r h e = elim (Option-cases (parse_tail segs)) [
  | inl bad ↦ ground arith
  | inr (t, ok) ↦ ground (arith, parse_tail-IsSafeTail segs t h ok)
]

namespaces-IsSafe : IsSafe "namespaces"
unfolding matches_seg has_pair
namespaces-IsSafe = (refl, refl)

in_namespaces-IsSafePath :
    (segs : List String) (r : ApiPath)
    → All IsSafe segs
    → in_namespaces segs ≡ some r
    → IsSafePath r
unfolding in_namespaces
in_namespaces-IsSafePath [] r h e = ground (arith, namespaces-IsSafe)
in_namespaces-IsSafePath (ns ∷ []) r h e = ground (arith, namespaces-IsSafe)
in_namespaces-IsSafePath (ns ∷ a ∷ more) r h e = elim (Option-cases (parse_tail (a ∷ more))) [
  | inl bad ↦ ground arith
  | inr (t, ok) ↦ ground (arith, parse_tail-IsSafeTail (a ∷ more) t h.1 ok)
]

parse_rest-IsSafePath :
    (segs : List String) (r : ApiPath) → All IsSafe segs → parse_rest segs ≡ some r → IsSafePath r
unfolding parse_rest
parse_rest-IsSafePath [] r h e = ground arith
parse_rest-IsSafePath (a ∷ more) r h e = elim (Bool-cases (a == "namespaces")) [
  | inl is_it ↦ in_namespaces-IsSafePath more r h.1 (ground arith)
  | inr is_not ↦ at_cluster-IsSafePath (a ∷ more) r h (ground arith)
]

parse_group-IsSafePath :
    (segs : List String) (r : ApiPath) → All IsSafe segs → parse_group segs ≡ some r → IsSafePath r
unfolding parse_group
parse_group-IsSafePath [] r h e = ground arith
parse_group-IsSafePath (version ∷ rest) r h e = parse_rest-IsSafePath rest r h.1 e

pub parse_segs-IsSafePath :
    (segs : List String) (r : ApiPath) → All IsSafe segs → parse_segs segs ≡ some r → IsSafePath r
unfolding parse_segs
parse_segs-IsSafePath [] r h e = ground arith
parse_segs-IsSafePath (a ∷ []) r h e = ground arith
parse_segs-IsSafePath (a ∷ b ∷ rest) r h e = elim (Bool-cases (a == "api" && b == "v1")) [
  | inl core ↦ parse_rest-IsSafePath rest r h.1.1 (ground arith)
  | inr other ↦ elim (Bool-cases (a == "apis")) [
    | inl group ↦ parse_group-IsSafePath rest r h.1.1 (ground arith)
    | inr unknown ↦ ground arith
  ]
]

-- Whatever the path, each of the namespace, resource, name and subresource that `parseApiPath`
-- reads from it is a nonempty text of letters, digits, `_`, `.` and `-` with no `..` in it.
pub parse_api_path-IsSafePath :
    (path : String) (r : ApiPath) → parse_api_path path ≡ some r → IsSafePath r
unfolding parse_api_path
parse_api_path-IsSafePath path r e = elim (Bool-cases (has_pair b'/' path)) [
  | inl is_it ↦ ground arith
  | inr is_not ↦ elim (Option-cases (normalize_segs (split_on b'/' path))) [
    | inl is_it ↦ ground arith
    | inr (segs, ok) ↦
        parse_segs-IsSafePath segs r (normalize_segs-All (split_on b'/' path) segs ok)
          (ground arith)
  ]
]
