-- ===== src/Kube/Kinds.antt =====
-- server/kind-paths.mjs: the table of kinds and the API paths made from it.
use Prim.Native.String
use aliangboard.Base.{
  String, Bool, true, false, not, ◌&&◌, Option, none, some, List, [], ◌∷◌, lookup, ◌==◌,
  if◌then◌else◌,
}
use aliangboard.Kube.Encode.{encode_uri_component}

-- An entry of `KIND_API`: the prefix of its API group, and whether the kind is namespaced.
pub record Kind : Type 0 where
  pub prefix : String
  pub ns : Bool

abbrev namespaced : String → Kind
namespaced prefix = record { prefix = prefix; ns = true }

abbrev cluster_wide : String → Kind
cluster_wide prefix = record { prefix = prefix; ns = false }

abbrev pub kind_api : List (String × Kind)
kind_api =
    ("pods", namespaced "/api/v1")
    ∷ ("services", namespaced "/api/v1")
    ∷ ("configmaps", namespaced "/api/v1")
    ∷ ("secrets", namespaced "/api/v1")
    ∷ ("endpoints", namespaced "/api/v1")
    ∷ ("limitranges", namespaced "/api/v1")
    ∷ ("resourcequotas", namespaced "/api/v1")
    ∷ ("serviceaccounts", namespaced "/api/v1")
    ∷ ("persistentvolumeclaims", namespaced "/api/v1")
    ∷ ("namespaces", cluster_wide "/api/v1")
    ∷ ("nodes", cluster_wide "/api/v1")
    ∷ ("persistentvolumes", cluster_wide "/api/v1")
    ∷ ("deployments", namespaced "/apis/apps/v1")
    ∷ ("statefulsets", namespaced "/apis/apps/v1")
    ∷ ("daemonsets", namespaced "/apis/apps/v1")
    ∷ ("replicasets", namespaced "/apis/apps/v1")
    ∷ ("cronjobs", namespaced "/apis/batch/v1")
    ∷ ("jobs", namespaced "/apis/batch/v1")
    ∷ ("ingresses", namespaced "/apis/networking.k8s.io/v1")
    ∷ ("networkpolicies", namespaced "/apis/networking.k8s.io/v1")
    ∷ ("storageclasses", cluster_wide "/apis/storage.k8s.io/v1")
    ∷ ("horizontalpodautoscalers", namespaced "/apis/autoscaling/v2")
    ∷ ("poddisruptionbudgets", namespaced "/apis/policy/v1")
    ∷ ("roles", namespaced "/apis/rbac.authorization.k8s.io/v1")
    ∷ ("rolebindings", namespaced "/apis/rbac.authorization.k8s.io/v1")
    ∷ ("clusterroles", cluster_wide "/apis/rbac.authorization.k8s.io/v1")
    ∷ ("clusterrolebindings", cluster_wide "/apis/rbac.authorization.k8s.io/v1")
    ∷ []

-- `KIND_API[kind]`
unfoldable pub kind_of : String → Option Kind
kind_of kind = lookup kind kind_api

infixr 65 ◌+++◌
abbrev pub ◌+++◌ : String → String → String
s +++ t = String.◌++◌ s t

-- `ns` is empty where the caller gave none.
unfoldable pub list_api_path : String → String → Option String
unfolding kind_of
list_api_path kind ns = elim (kind_of kind) [
  | none ↦ none
  | some e ↦
      if e.ns && not (ns == "")
      then some (e.prefix +++ "/namespaces/" +++ encode_uri_component ns +++ "/" +++ kind)
      else some (e.prefix +++ "/" +++ kind)
]

unfoldable pub get_api_path : String → String → String → Option String
unfolding kind_of
get_api_path kind ns name = elim (kind_of kind) [
  | none ↦ none
  | some e ↦
      if e.ns
      then some (
          e.prefix
          +++ "/namespaces/"
          +++ encode_uri_component ns
          +++ "/"
          +++ kind
          +++ "/"
          +++ encode_uri_component name)
      else some (e.prefix +++ "/" +++ kind +++ "/" +++ encode_uri_component name)
]

unfoldable pub is_cluster_scoped_kind : String → Bool
unfolding kind_of
is_cluster_scoped_kind kind = elim (kind_of kind) [ none ↦ false | some e ↦ not e.ns ]
