-- ===== src/Kube/Alias.antt =====
-- The names of kinds that are accepted, and the canonical one of each (server/kindAlias.mjs).
use aliangboard.Base.{
  String, code, Bool, true, false, Option, some, List, [], ◌∷◌, ◌==◌, ◌≡◌, refl, if◌then◌else◌, eqb,
  contains, keys, lookup, insert, All_lookup, all, all_iff, subst, Char,
}
use mathlib.Core.Option.{some-injective}
use aliangboard.Kube.Kinds.{kind_api}
use aliangboard.Mounts.{trim}

abbrev pub canonical_kinds : List String
canonical_kinds = keys kind_api

-- `replace(/suffix$/, to)`
abbrev pub replace_end : String → String → String → String
replace_end suffix to String.[] = ""
replace_end suffix to (String.◌∷◌ c s) =
    let rest = replace_end suffix to s in if String.◌∷◌ c s == suffix then to else String.◌∷◌ c rest

-- `replace(/(ses|xes|zes|ches|shes)$/, 's')`: a text has at most one of the suffixes.
abbrev pub try_ends : List String → String → String
try_ends [] s = s
try_ends (suffix ∷ more) s =
    let t = replace_end suffix "s" s in let rest = try_ends more s in if t == s then rest else t

abbrev pub replace_es : String → String
replace_es s = try_ends ("ses" ∷ "xes" ∷ "zes" ∷ "ches" ∷ "shes" ∷ []) s

abbrev pub singular : String → String
singular k =
    let y = replace_end "ies" "y" k in
    let es = if y == k then replace_es k else y in if es == k then replace_end "s" "" k else es

abbrev pub derived : List String → List (String × String) → List (String × String)
derived [] alias = alias
derived (k ∷ ks) alias = derived ks (if singular k == k then alias else insert (singular k) k alias)

abbrev pub explicit_aliases : List (String × String)
explicit_aliases =
    ("storageclass", "storageclasses")
    ∷ ("po", "pods")
    ∷ ("svc", "services")
    ∷ ("cm", "configmaps")
    ∷ ("ns", "namespaces")
    ∷ ("deploy", "deployments")
    ∷ ("sts", "statefulsets")
    ∷ ("ds", "daemonsets")
    ∷ ("ing", "ingresses")
    ∷ ("no", "nodes")
    ∷ ("pv", "persistentvolumes")
    ∷ ("pvc", "persistentvolumeclaims")
    ∷ ("sc", "storageclasses")
    ∷ ("netpol", "networkpolicies")
    ∷ ("sa", "serviceaccounts")
    ∷ ("cj", "cronjobs")
    ∷ ("ep", "endpoints")
    ∷ ("rs", "replicasets")
    ∷ ("hpa", "horizontalpodautoscalers")
    ∷ ("pdb", "poddisruptionbudgets")
    ∷ ("quota", "resourcequotas")
    ∷ ("limits", "limitranges")
    ∷ []

-- `Object.assign`
abbrev pub assign : List (String × String) → List (String × String) → List (String × String)
assign [] alias = alias
assign ((k, v) ∷ more) alias = assign more (insert k v alias)

abbrev pub alias_table : List (String × String)
alias_table = assign explicit_aliases (derived canonical_kinds [])

-- `toLowerCase` where it gives an ASCII letter: from A to Z and the Kelvin sign. Other letters are no part
-- of a name of the tables in either case.
abbrev pub lower_of : String → String → Char → Char
lower_of String.[] lows c = c
lower_of (String.◌∷◌ u ups) String.[] c = c
lower_of (String.◌∷◌ u ups) (String.◌∷◌ l lows) c =
    let rest = lower_of ups lows c in if eqb (code u) (code c) then l else rest

abbrev pub to_lower : String → String
to_lower String.[] = ""
to_lower (String.◌∷◌ c s) =
    String.◌∷◌ (lower_of "ABCDEFGHIJKLMNOPQRSTUVWXYZK" "abcdefghijklmnopqrstuvwxyzk" c) (to_lower s)

unfoldable pub normalize_kind : String → Option String
normalize_kind input =
    let k = to_lower (trim input) in
    if contains canonical_kinds k then some k else lookup k alias_table

alias_table-canonical : all (λ e. contains canonical_kinds e.1) alias_table ≡ true
alias_table-canonical = refl

-- A name that is recognised stands for a kind of the table.
pub normalize_kind-canonical :
    (input kind : String) → normalize_kind input ≡ some kind → contains canonical_kinds kind ≡ true
unfolding normalize_kind
normalize_kind-canonical input kind e =
    by_test (contains canonical_kinds (to_lower (trim input))) refl e
  where
    k : String
    k = to_lower (trim input)

    by_test :
        (b : Bool)
        → contains canonical_kinds k ≡ b
        → (if b then some k else lookup k alias_table) ≡ some kind
        → contains canonical_kinds kind ≡ true
    by_test true found same =
        subst (λ name. contains canonical_kinds name ≡ true) (some-injective k kind same) found
    by_test false missing same =
        All_lookup (λ name kind. contains canonical_kinds kind ≡ true) alias_table k
          ((all_iff (λ e. contains canonical_kinds e.1) alias_table).0 alias_table-canonical) same
