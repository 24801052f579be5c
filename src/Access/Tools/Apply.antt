-- ===== src/Access/Tools/Apply.antt =====
-- What passes the gate of applied documents.
use aliangboard.Base.{
  String, ◌≡◌, refl, ◌↔◌, true, false, ◌&&◌, List, [], ◌∷◌, ◌==◌, eq_iff, All, All-map, ◌⊎◌, arith,
}
use aliangboard.Access.Store.{Db, active_user, cluster_row}
use aliangboard.Access.Grants.{can_access_ns, can_access_cluster, is_admin, mode_of}
use aliangboard.Access.Tools.{
  Check, passed, refused, passes, DocNs, in_namespace, cluster_kind, unknown_kind, gate_doc,
  gate_apply_namespaces, tool_check, tool_cluster_wide, ◌>>◌,
}

passes-then : (a b : Check) → passes (a >> b) ≡ (passes a && passes b)
passes-then passed b = refl
passes-then (refused r) b = refl

module _ (check : String → String → String → Check) (cluster_wide : String → Check)
    (tool : String) where
  -- What each document must meet.
  abbrev pub IsAllowed : DocNs → Type 0
  IsAllowed (in_namespace ns) = passes (check ns "operate" tool) ≡ true
  IsAllowed cluster_kind = passes (cluster_wide tool) ≡ true
  IsAllowed unknown_kind = ⊥

  gate_doc_iff : (d : DocNs) → (passes (gate_doc check cluster_wide tool d) ≡ true) ↔ IsAllowed d
  unfolding gate_doc
  gate_doc_iff (in_namespace ns) = ((λ h. h), (λ h. h))
  gate_doc_iff cluster_kind = ((λ h. h), (λ h. h))
  gate_doc_iff unknown_kind = ((λ h. cc), (λ h. absurd h))

  -- Documents are applied only if all of them pass: each one in a namespace its `operate` check, each
  -- one of the cluster's kinds the cluster-wide check, and none of an unknown kind.
  pub gate_apply_namespaces_iff :
      (ds : List DocNs)
      → (passes (gate_apply_namespaces check cluster_wide tool ds) ≡ true) ↔ All IsAllowed ds
  unfolding gate_apply_namespaces
  gate_apply_namespaces_iff [] = ((λ h. tt), (λ h. refl))
  gate_apply_namespaces_iff (d ∷ ds) = ground (
    arith,
    passes-then (gate_doc check cluster_wide tool d)
        (gate_apply_namespaces check cluster_wide tool ds),
    gate_doc_iff d,
    gate_apply_namespaces_iff ds,
  )

-- What a principal must hold on the bound cluster for one document.
abbrev pub MayApply : Db → String → String → DocNs → Type 0
MayApply db uid cid (in_namespace ns) = can_access_ns db uid cid ns "operate" ≡ true
MayApply db uid cid cluster_kind =
    (can_access_cluster db uid cid ≡ true)
    × ((is_admin (active_user db uid) ≡ true) ⊎ (mode_of (cluster_row db cid) ≡ "open"))
MayApply db uid cid unknown_kind = ⊥

tool_check-MayApply :
    (db : Db) (uid cid tool : String) (d : DocNs)
    → (cid == "") ≡ false
    → IsAllowed (tool_check db uid cid) (tool_cluster_wide db uid cid) tool d
      ↔ MayApply db uid cid d
unfolding tool_check tool_cluster_wide
tool_check-MayApply db uid cid tool (in_namespace ns) bound = ground arith
tool_check-MayApply db uid cid tool cluster_kind bound =
    ground (arith, eq_iff (mode_of (cluster_row db cid)) "open")
tool_check-MayApply db uid cid tool unknown_kind bound = ((λ h. h), (λ h. h))

-- The tool that applies documents, on a project bound to a cluster, lets them through exactly when
-- the principal may apply each one: `canAccessNs` at `operate` for a document in a namespace; access
-- to the cluster, and an administrator's role or an open cluster, for one of the cluster's kinds;
-- and no document of a kind that was not discovered.
pub gate_apply_namespaces-MayApply :
    (db : Db) (uid cid tool : String) (ds : List DocNs)
    → (cid == "") ≡ false
    → (passes (gate_apply_namespaces (tool_check db uid cid) (tool_cluster_wide db uid cid) tool ds)
        ≡ true)
      ↔ All (MayApply db uid cid) ds
gate_apply_namespaces-MayApply db uid cid tool ds bound =
    let check = tool_check db uid cid in
    let wide = tool_cluster_wide db uid cid in
    let (to, from) = gate_apply_namespaces_iff check wide tool ds in
    (
      (λ h.
          All-map (IsAllowed check wide tool) (MayApply db uid cid)
            (λ d. (tool_check-MayApply db uid cid tool d bound).0) ds (to h)),
      (λ h. from (
          All-map (MayApply db uid cid) (IsAllowed check wide tool)
            (λ d. (tool_check-MayApply db uid cid tool d bound).1) ds h)),
    )
