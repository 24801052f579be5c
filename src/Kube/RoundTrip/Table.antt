-- ===== src/Kube/RoundTrip/Table.antt =====
-- Every kind of the table is a safe segment, and every prefix is `/api/v1` or a group's.
use aliangboard.Base.{String, Bool, true, false, ◌≡◌, refl, List, [], ◌∷◌, ◌++◌, All}
use aliangboard.Kube.Encode.{is_seg_char}
use aliangboard.Kube.Kinds.{Kind, kind_api}
use aliangboard.Kube.ApiPath.{matches_seg, has_pair, parse_segs, parse_group, parse_rest}
use aliangboard.Kube.ApiPath.Safe.{IsSafe}
use aliangboard.Kube.ApiPath.Segments.{slash_join}

-- The segments of a prefix: safe, joined they are the prefix, and what follows them is what
-- `parseApiPath` goes on with.
pub record IsPrefixOf (segs : List String) (prefix : String) : Type 0 where
  pub safe : All IsSafe segs
  pub joined : prefix ≡ slash_join segs
  pub rest :
      (s : String) (more : List String) → parse_segs (segs ++ s ∷ more) ≡ parse_rest (s ∷ more)

pub record IsEntry (kind : String) (e : Kind) : Type 0 where
  pub kind_safe : IsSafe kind
  pub segs : List String
  pub is_prefix : IsPrefixOf segs e.prefix

core : IsPrefixOf ("api" ∷ "v1" ∷ []) "/api/v1"
unfolding slash_join parse_segs matches_seg has_pair is_seg_char
core = record { safe = ((refl, refl), ((refl, refl), tt)); joined = refl; rest = λ s more. refl }

group :
    (name version prefix : String)
    → IsSafe name
    → IsSafe version
    → prefix ≡ slash_join ("apis" ∷ name ∷ version ∷ [])
    → IsPrefixOf ("apis" ∷ name ∷ version ∷ []) prefix
unfolding parse_segs parse_group matches_seg has_pair is_seg_char
group name version prefix n v e = record {
  safe = ((refl, refl), (n, (v, tt)));
  joined = e;
  rest = λ s more. refl;
}

module _ (kind : String) (ns : Bool) (safe : IsSafe kind) where
  core_kind : IsEntry kind (record { prefix = "/api/v1"; ns = ns })
  core_kind = record { kind_safe = safe; segs = _; is_prefix = core }

  group_kind :
      (name version prefix : String)
      → IsSafe name
      → IsSafe version
      → prefix ≡ slash_join ("apis" ∷ name ∷ version ∷ [])
      → IsEntry kind (record { prefix = prefix; ns = ns })
  group_kind name version prefix n v e = record {
    kind_safe = safe;
    segs = _;
    is_prefix = group name version prefix n v e;
  }

pub kind_api-All : All (λ entry. IsEntry entry.0 entry.1) kind_api
unfolding slash_join matches_seg has_pair is_seg_char
kind_api-All = (
  core_kind "pods" true (refl, refl),
  (
    core_kind "services" true (refl, refl),
    (
      core_kind "configmaps" true (refl, refl),
      (
        core_kind "secrets" true (refl, refl),
        (
          core_kind "endpoints" true (refl, refl),
          (
            core_kind "limitranges" true (refl, refl),
            (
              core_kind "resourcequotas" true (refl, refl),
              (
                core_kind "serviceaccounts" true (refl, refl),
                (
                  core_kind "persistentvolumeclaims" true (refl, refl),
                  (
                    core_kind "namespaces" false (refl, refl),
                    (
                      core_kind "nodes" false (refl, refl),
                      (
                        core_kind "persistentvolumes" false (refl, refl),
                        (
                          group_kind "deployments" true (refl, refl) "apps" "v1" "/apis/apps/v1"
                              (refl, refl) (refl, refl) refl,
                          (
                            group_kind "statefulsets" true (refl, refl) "apps" "v1" "/apis/apps/v1"
                                (refl, refl) (refl, refl) refl,
                            (
                              group_kind "daemonsets" true (refl, refl) "apps" "v1" "/apis/apps/v1"
                                  (refl, refl) (refl, refl) refl,
                              (
                                group_kind "replicasets" true (refl, refl) "apps" "v1"
                                    "/apis/apps/v1" (refl, refl) (refl, refl) refl,
                                (
                                  group_kind "cronjobs" true (refl, refl) "batch" "v1"
                                      "/apis/batch/v1" (refl, refl) (refl, refl) refl,
                                  (
                                    group_kind "jobs" true (refl, refl) "batch" "v1"
                                        "/apis/batch/v1" (refl, refl) (refl, refl) refl,
                                    (
                                      group_kind "ingresses" true (refl, refl) "networking.k8s.io"
                                          "v1" "/apis/networking.k8s.io/v1" (refl, refl)
                                          (refl, refl) refl,
                                      (
                                        group_kind "networkpolicies" true (refl, refl)
                                            "networking.k8s.io" "v1" "/apis/networking.k8s.io/v1"
                                            (refl, refl) (refl, refl) refl,
                                        (
                                          group_kind "storageclasses" false (refl, refl)
                                              "storage.k8s.io" "v1" "/apis/storage.k8s.io/v1"
                                              (refl, refl) (refl, refl) refl,
                                          (
                                            group_kind "horizontalpodautoscalers" true (refl, refl)
                                                "autoscaling" "v2" "/apis/autoscaling/v2"
                                                (refl, refl) (refl, refl) refl,
                                            (
                                              group_kind "poddisruptionbudgets" true (refl, refl)
                                                  "policy" "v1" "/apis/policy/v1" (refl, refl)
                                                  (refl, refl) refl,
                                              (
                                                group_kind "roles" true (refl, refl)
                                                    "rbac.authorization.k8s.io" "v1"
                                                    "/apis/rbac.authorization.k8s.io/v1"
                                                    (refl, refl) (refl, refl) refl,
                                                (
                                                  group_kind "rolebindings" true (refl, refl)
                                                      "rbac.authorization.k8s.io" "v1"
                                                      "/apis/rbac.authorization.k8s.io/v1"
                                                      (refl, refl) (refl, refl) refl,
                                                  (
                                                    group_kind "clusterroles" false (refl, refl)
                                                        "rbac.authorization.k8s.io" "v1"
                                                        "/apis/rbac.authorization.k8s.io/v1"
                                                        (refl, refl) (refl, refl) refl,
                                                    (
                                                      group_kind "clusterrolebindings" false
                                                          (refl, refl) "rbac.authorization.k8s.io"
                                                          "v1" "/apis/rbac.authorization.k8s.io/v1"
                                                          (refl, refl) (refl, refl) refl,
                                                      tt,
                                                    ),
                                                  ),
                                                ),
                                              ),
                                            ),
                                          ),
                                        ),
                                      ),
                                    ),
                                  ),
                                ),
                              ),
                            ),
                          ),
                        ),
                      ),
                    ),
                  ),
                ),
              ),
            ),
          ),
        ),
      ),
    ),
  ),
)
