-- ===== src/Scenarios/Tools.antt =====
-- The gate of tools, the sweep and the check of owners at concrete tables.
use aliangboard.Base.{◌≡◌, refl, ◌↔◌, inl, inr, true, some, List, [], ◌∷◌, All}
use mathlib.Core.Option.{some-injective}
use aliangboard.Access.Store.{User, cluster_row}
use aliangboard.Access.Grants.{can_access_cluster}
use aliangboard.Access.Grants.Entitled.{Entitled}
use aliangboard.Access.Tools.{
  in_namespace, cluster_kind, DocNs, passes, gate_apply_namespaces, tool_check, tool_cluster_wide,
  tool_namespaces, session_owner_valid, sweep_orphan_grants, user_row,
}
use aliangboard.Access.Tools.Apply.{MayApply, gate_apply_namespaces-MayApply}
use aliangboard.Access.Tools.Agreement.{is_shown, tool_namespaces-tool_check}
use aliangboard.Access.Tools.Owner.{session_owner_valid-eq-can_access_cluster}
use aliangboard.Access.Tools.Sweep.{sweep_orphan_grants-Entitled}
use aliangboard.Scenarios.Tables.{db, alice, shared, apart}

abbrev docs : List DocNs
docs = in_namespace "prod" ∷ cluster_kind ∷ []

gate_apply_namespaces-MayApply_example :
    (passes (
        gate_apply_namespaces
          (tool_check db "alice" "c1")
          (tool_cluster_wide db "alice" "c1")
          "apply_yaml"
          docs)
      ≡ true)
    ↔ All (MayApply db "alice" "c1") docs
gate_apply_namespaces-MayApply_example =
    gate_apply_namespaces-MayApply db "alice" "c1" "apply_yaml" docs refl

tool_namespaces-tool_check_example :
    is_shown (tool_namespaces db "alice" "c1") "dev"
    ≡ passes (tool_check db "alice" "c1" "dev" "view" "wb_list")
unfolding cluster_row
tool_namespaces-tool_check_example =
    tool_namespaces-tool_check db "alice" "c1" "dev" "wb_list" shared refl (inl refl)
      ((λ _. refl), ((λ e. apart "c2" "c1" refl e), tt)) (inl refl, (inr refl, (inr refl, tt)))

alice_key : (u : User) → user_row db "alice" ≡ some u → All (λ v. v.id ≡ "alice" → v ≡ u) db.users
unfolding user_row
alice_key u e = (
  (λ _. some-injective alice u e),
  ((λ i. apart "root" "alice" refl i), ((λ i. apart "ivan" "alice" refl i), tt)),
)

session_owner_valid-eq-can_access_cluster_example :
    session_owner_valid db "alice" "c1" ≡ can_access_cluster db "alice" "c1"
unfolding user_row
session_owner_valid-eq-can_access_cluster_example =
    session_owner_valid-eq-can_access_cluster db "alice" "c1" refl refl alice_key

sweep_orphan_grants-Entitled_example :
    Entitled (sweep_orphan_grants db).0 "alice" "c1" "prod" "view"
    ↔ Entitled db "alice" "c1" "prod" "view"
sweep_orphan_grants-Entitled_example =
    sweep_orphan_grants-Entitled db "alice" "c1" "prod" "view" refl (refl, tt)
