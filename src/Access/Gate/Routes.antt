-- ===== src/Access/Gate/Routes.antt =====
-- The gate on the paths that the pass-through carries, end to end.
use aliangboard.Base.{String, ◌≡◌, refl, Option, none, some, List, [], ◌∷◌, All, ◌≢◌}
use aliangboard.Kube.ApiPath.{ApiPath}
use aliangboard.Access.Gate.{filter_namespace_list}
use aliangboard.Access.Gate.Decision.{granted}

-- A request about the cluster itself, by what the path names and the method.
pub data IsClusterLevel (p : ApiPath) (method : String) : Type 0 where
  no_namespace : p.namespace ≡ none → IsClusterLevel p method
  namespace_write :
      (name : String)
      → p.resource ≡ "namespaces"
      → p.name ≡ some name
      → method ≢ "GET"
      → IsClusterLevel p method

-- `filterNamespaceList` keeps an item by its `metadata.namespace`, which a Namespace object does not
-- have: of a list of such objects it keeps none, whatever the grants.
pub filter_namespace_list-none {ℓ} :
    {A : Type ℓ} (namespace_of : A → Option String) (items : List A) (granted : List String)
    → All (λ it. namespace_of it ≡ none) items
    → filter_namespace_list namespace_of items (some granted) ≡ []
unfolding filter_namespace_list
filter_namespace_list-none namespace_of [] granted h = refl
filter_namespace_list-none namespace_of (it ∷ items) granted (none_here, h) =
    rw none_here (filter_namespace_list-none namespace_of items granted h)
