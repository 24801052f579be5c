-- ===== src/Kube/RoundTrip.antt =====
-- The paths that server/kind-paths.mjs builds are read back by server/k8s-path.mjs as what they
-- were built from.
mod Table
use text.Mathlib.TextLemmas.{append_assoc, append-nil, cons-append, nil-append}
use Prim.Native.String
use aliangboard.Base.{
  String, ◌≡◌, eq_iff, subst, refl, ap, sym, ◌∙◌, ◌⊎◌, inl, inr, Bool, true, false, not, ◌&&◌,
  Option, none, some, List, [], ◌∷◌, ◌++◌, arith, All, All-append, ◌==◌, if◌then◌else◌, All_lookup,
  Bool-cases,
}
use aliangboard.Kube.Encode.{encode_uri_component, is_seg_char}
use aliangboard.Kube.Kinds.{Kind, kind_of, kind_api, get_api_path, list_api_path, ◌+++◌}
use aliangboard.Kube.ApiPath.{
  ApiPath, matches_seg, has_pair, parse_segs, parse_group, parse_rest, at_cluster, in_namespaces,
  parse_tail, parse_api_path, is_namespaced,
}
use aliangboard.Kube.ApiPath.Safe.{IsSafe}
use aliangboard.Kube.ApiPath.Segments.{
  slash, slash_join, slash_join-append, parse_api_path-slash_join, encode_of_IsSafe,
}
use Table.{IsEntry, kind_api-All, IsPrefixOf}

-- What an object of a kind should be read back as, said from the table alone.
abbrev pub object_of : Kind → String → String → String → ApiPath
object_of e kind ns name = record {
  cluster_scope = not e.ns && not (kind == "namespaces");
  namespace = if e.ns then some ns else if kind == "namespaces" then some name else none;
  all_namespaces = false;
  resource = kind;
  name = some name;
  subresource = none;
}

-- What a list of a kind should be read back as; an empty `ns` asks for every namespace.
abbrev pub list_of : Kind → String → String → ApiPath
list_of e kind ns = record {
  cluster_scope = not e.ns;
  namespace = if e.ns && not (ns == "") then some ns else none;
  all_namespaces = e.ns && ns == "";
  resource = kind;
  name = none;
  subresource = none;
}

slash_append : (t : String) → "/" +++ t ≡ String.◌∷◌ slash t
slash_append t = cons-append slash "" t ∙ ap (λ r. String.◌∷◌ slash r) (nil-append t)

namespaces_append :
    (t : String) → "/namespaces/" +++ t ≡ String.◌∷◌ slash ("namespaces" +++ String.◌∷◌ slash t)
namespaces_append t =
    cons-append slash ("namespaces" +++ "/") t
    ∙ ap (λ r. String.◌∷◌ slash r)
        (append_assoc "namespaces" "/" t ∙ ap (λ r. "namespaces" +++ r) (slash_append t))

join_object :
    (ns kind name : String)
    → "/namespaces/" +++ ns +++ "/" +++ kind +++ "/" +++ name
      ≡ slash_join ("namespaces" ∷ ns ∷ kind ∷ name ∷ [])
unfolding slash_join
join_object ns kind name = simp (append-nil, slash_append, namespaces_append)

join_wide : (kind name : String) → "/" +++ kind +++ "/" +++ name ≡ slash_join (kind ∷ name ∷ [])
unfolding slash_join
join_wide kind name = simp (append-nil, slash_append, namespaces_append)

join_list :
    (ns kind : String)
    → "/namespaces/" +++ ns +++ "/" +++ kind ≡ slash_join ("namespaces" ∷ ns ∷ kind ∷ [])
unfolding slash_join
join_list ns kind = simp (append-nil, slash_append, namespaces_append)

join_all : (kind : String) → "/" +++ kind ≡ slash_join (kind ∷ [])
unfolding slash_join
join_all kind = simp (append-nil, slash_append, namespaces_append)

kind_of-IsEntry : (kind : String) (e : Kind) → kind_of kind ≡ some e → IsEntry kind e
unfolding kind_of
kind_of-IsEntry kind e h = All_lookup IsEntry kind_api kind kind_api-All h

-- A prefix of the table and the segments after it are parsed by what follows the prefix.
parse_prefixed :
    (prefix path : String) (segs : List String) (s : String) (more : List String)
    → IsPrefixOf segs prefix
    → All IsSafe (s ∷ more)
    → path ≡ slash_join (s ∷ more)
    → parse_api_path (prefix +++ path) ≡ parse_rest (s ∷ more)
parse_prefixed prefix path segs s more p safe e =
    let joined : prefix +++ path ≡ slash_join (segs ++ s ∷ more) =
      rw (e, p.joined) (sym (slash_join-append segs (s ∷ more))) in
    let all_safe = All-append IsSafe segs (s ∷ more) p.safe safe in
    rw joined (parse_api_path-slash_join (segs ++ s ∷ more) all_safe ∙ p.rest s more)

namespaces-IsSafe : IsSafe "namespaces"
unfolding matches_seg has_pair is_seg_char
namespaces-IsSafe = (refl, refl)

-- The kind `namespaces` is not itself namespaced.
pub namespaced-ne-namespaces :
    (e : Kind) (kind : String)
    → kind_of kind ≡ some e
    → e.ns ≡ true
    → (kind == "namespaces") ≡ false
unfolding kind_of
namespaced-ne-namespaces e kind h n = elim (Bool-cases (kind == "namespaces")) [
  | inl same ↦
      let at_namespaces = subst (λ k. kind_of k ≡ some e) ((eq_iff kind "namespaces").0 same) h in
      cc
  | inr other ↦ other
]

parse_rest_object :
    (e : Kind) (kind ns name : String)
    → kind_of kind ≡ some e
    → parse_rest (if e.ns then "namespaces" ∷ ns ∷ kind ∷ name ∷ [] else kind ∷ name ∷ [])
      ≡ some (object_of e kind ns name)
unfolding parse_rest in_namespaces at_cluster parse_tail
parse_rest_object e kind ns name h = ground (arith, eq_iff kind "namespaces")

parse_rest_list :
    (e : Kind) (kind ns : String)
    → kind_of kind ≡ some e
    → parse_rest (if e.ns && not (ns == "") then "namespaces" ∷ ns ∷ kind ∷ [] else kind ∷ [])
      ≡ some (list_of e kind ns)
unfolding parse_rest in_namespaces at_cluster parse_tail
parse_rest_list e kind ns h =
    ground (arith, eq_iff kind "namespaces", namespaced-ne-namespaces e kind h)

-- The path that `getApiPath` builds for a kind of the table, and a namespace and a name that are
-- nonempty texts of `[A-Za-z0-9_.-]` with no two dots in a row, is read back by `parseApiPath` as that very object: of its namespace where the
-- kind is namespaced, as the namespace itself where the kind is `namespaces`, else cluster-wide.
pub parse_api_path-get_api_path :
    (e : Kind) (kind ns name : String)
    → kind_of kind ≡ some e
    → IsSafe ns
    → IsSafe name
    → (path : String) × (get_api_path kind ns name ≡ some path)
      × (parse_api_path path ≡ some (object_of e kind ns name))
unfolding get_api_path
parse_api_path-get_api_path e kind ns name h safe_ns safe_name =
    let entry = kind_of-IsEntry kind e h in
    let after = parse_rest_object e kind ns name h in
    elim (Bool-cases e.ns) [
      | inl inside ↦ (
        e.prefix +++ "/namespaces/" +++ ns +++ "/" +++ kind +++ "/" +++ name,
        ground (arith, encode_of_IsSafe ns safe_ns, encode_of_IsSafe name safe_name),
        parse_prefixed e.prefix ("/namespaces/" +++ ns +++ "/" +++ kind +++ "/" +++ name) entry.segs
              "namespaces" (ns ∷ kind ∷ name ∷ []) entry.is_prefix
              (namespaces-IsSafe, (safe_ns, (entry.kind_safe, (safe_name, tt))))
              (join_object ns kind name)
            ∙ ground (arith, after),
      )
      | inr wide ↦ (
        e.prefix +++ "/" +++ kind +++ "/" +++ name,
        ground (arith, encode_of_IsSafe name safe_name),
        parse_prefixed e.prefix ("/" +++ kind +++ "/" +++ name) entry.segs kind (name ∷ [])
              entry.is_prefix (entry.kind_safe, (safe_name, tt)) (join_wide kind name)
            ∙ ground (arith, after),
      )
    ]

-- The path that `listApiPath` builds for a kind of the table and a namespace that is empty or a
-- safe segment is read back as that very list: of the one namespace, of all namespaces where a
-- namespaced kind was asked for with none, else cluster-wide.
pub parse_api_path-list_api_path :
    (e : Kind) (kind ns : String)
    → kind_of kind ≡ some e
    → (ns ≡ "") ⊎ IsSafe ns
    → (path : String) × (list_api_path kind ns ≡ some path)
      × (parse_api_path path ≡ some (list_of e kind ns))
unfolding list_api_path
parse_api_path-list_api_path e kind ns h asked =
    let entry = kind_of-IsEntry kind e h in
    let after = parse_rest_list e kind ns h in
    elim (Bool-cases (e.ns && not (ns == ""))) [
      | inl inside ↦
          let safe_ns : IsSafe ns = ground (arith, eq_iff ns "") in
          (
            e.prefix +++ "/namespaces/" +++ ns +++ "/" +++ kind,
            ground (arith, encode_of_IsSafe ns safe_ns),
            parse_prefixed e.prefix ("/namespaces/" +++ ns +++ "/" +++ kind) entry.segs "namespaces"
                  (ns ∷ kind ∷ []) entry.is_prefix
                  (namespaces-IsSafe, (safe_ns, (entry.kind_safe, tt))) (join_list ns kind)
                ∙ ground (arith, after),
          )
      | inr wide ↦ (
        e.prefix +++ "/" +++ kind,
        ground arith,
        parse_prefixed e.prefix ("/" +++ kind) entry.segs kind [] entry.is_prefix
              (entry.kind_safe, tt) (join_all kind)
            ∙ ground (arith, after),
      )
    ]
