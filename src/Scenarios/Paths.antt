-- ===== src/Scenarios/Paths.antt =====
-- The paths of the Kubernetes API at concrete names.
use aliangboard.Base.{String, ◌≡◌, refl, true, false, some}
use aliangboard.Kube.Kinds.{Kind, get_api_path}
use aliangboard.Kube.ApiPath.{ApiPath, parse_api_path, parser}
use aliangboard.Kube.ApiPath.Safe.{IsSafePath, parse_api_path-IsSafePath}
use aliangboard.Kube.RoundTrip.{object_of, parse_api_path-get_api_path}

abbrev deployments : Kind
deployments = record { prefix = "/apis/apps/v1"; ns = true }

parse_api_path-get_api_path_example :
    (path : String) × (get_api_path "deployments" "dev" "web" ≡ some path)
    × (parse_api_path path ≡ some (object_of deployments "deployments" "dev" "web"))
unfolding parser
parse_api_path-get_api_path_example =
    parse_api_path-get_api_path deployments "deployments" "dev" "web" refl (refl, refl) (refl, refl)

abbrev log_of_web : ApiPath
log_of_web = record {
  cluster_scope = false;
  namespace = some "dev";
  all_namespaces = false;
  resource = "pods";
  name = some "web";
  subresource = some "log";
}

parse_api_path-IsSafePath_example : IsSafePath log_of_web
unfolding parser
parse_api_path-IsSafePath_example =
    parse_api_path-IsSafePath "/api/v1/namespaces/dev/pods/web/log" log_of_web refl
