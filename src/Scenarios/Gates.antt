-- ===== src/Scenarios/Gates.antt =====
-- The gate of Kubernetes requests at concrete requests.
use aliangboard.Base.{
  String, ◌≡◌, refl, ◌↔◌, inl, inr, true, false, none, some, [], ◌∷◌, all, length, if◌then◌else◌,
}
use aliangboard.Kube.ApiPath.{ApiPath}
use aliangboard.Kube.Kinds.{Kind}
use aliangboard.Access.Store.{active_user, cluster_row}
use aliangboard.Access.Grants.{can_access_ns}
use aliangboard.Access.Grants.Entitled.{Entitled, can_access_ns_iff_Entitled}
use aliangboard.Access.Gate.{
  Session, Request, prepare, gate, gate_k8s_session, gate_watch_resources, watched_namespace,
}
use aliangboard.Access.Gate.Decision.{gate_k8s_session-eq-can_access_ns}
use aliangboard.Access.Gate.Records.{
  Passes, IsRecorded, gate_k8s_session-IsRecorded, gate_k8s_session-Passes,
  gate_watch_resources_lem,
}
use aliangboard.Scenarios.Tables.{db, alice, shared}

abbrev session : Session
session = record { user_id = "alice"; cluster_id = "c1" }

abbrev request : String → String → Request
request ns level = record {
  namespace = some ns;
  level = level;
  path = some "/x";
  method = some "GET";
}

gate_k8s_session-eq-can_access_ns_example :
    (gate_k8s_session (prepare db) session (request "dev" "view")).0
    ≡ can_access_ns db "alice" "c1" "dev" "view"
unfolding cluster_row
gate_k8s_session-eq-can_access_ns_example =
    gate_k8s_session-eq-can_access_ns db session (request "dev" "view") "dev" shared refl refl refl
      refl refl

can_access_ns_iff_Entitled_example :
    (can_access_ns db "alice" "c1" "prod" "operate" ≡ true)
    ↔ Entitled db "alice" "c1" "prod" "operate"
unfolding cluster_row active_user
can_access_ns_iff_Entitled_example =
    can_access_ns_iff_Entitled db "alice" "c1" "prod" "operate" alice shared refl refl refl refl
      refl (inr refl) (inl refl, (inr refl, (inr refl, tt)))

gate_k8s_session-Passes_example : Passes (prepare db) session (request "dev" "view")
unfolding gate
gate_k8s_session-Passes_example =
    gate_k8s_session-Passes (prepare db) session (request "dev" "view") refl

gate_k8s_session-IsRecorded_example :
    IsRecorded
      (prepare db)
      session
      (request "prod" "bad")
      (gate_k8s_session (prepare db) session (request "prod" "bad"))
gate_k8s_session-IsRecorded_example =
    gate_k8s_session-IsRecorded (prepare db) session (request "prod" "bad")

gate_watch_resources_lem_example :
    let ask = λ (path : String). gate_k8s_session (prepare db) session (record {
      namespace = watched_namespace path;
      level = "view";
      path = some path;
      method = some "GET";
    }) in
    let out = gate_watch_resources (prepare db) session ("/api/v1/pods" ∷ []) in
    (out.0 ≡ all (λ path. (ask path).0) ("/api/v1/pods" ∷ []))
    × (length out.1 ≡ (if out.0 then 0 else 1))
gate_watch_resources_lem_example =
    gate_watch_resources_lem (prepare db) session ("/api/v1/pods" ∷ [])

abbrev pods : Kind
pods = record { prefix = "/api/v1"; ns = true }

abbrev dev_namespace : ApiPath
dev_namespace = record {
  cluster_scope = false;
  namespace = some "dev";
  all_namespaces = false;
  resource = "namespaces";
  name = some "dev";
  subresource = none;
}
