-- ===== src/Scenarios/Keys.antt =====
-- The policy on API keys at concrete keys.
use aliangboard.Base.{◌≡◌, refl, true, false, some, [], ◌∷◌, contains}
use aliangboard.Policy.Raw.{Raw, text, object, items, or_absent, add_all, remove_all}
use aliangboard.Policy.Tools.{
  Key, effective_tools, base_tools, tier_tools, with_policy, normalize_tool_overrides,
  normalize_lists,
}
use aliangboard.Policy.Tools.Calls.{guarded, with_policy-eq-guarded}
use aliangboard.Policy.Tools.Effective.{read_operator, effective_tools_le}
use aliangboard.Policy.Tools.Stored.{effective_tools-normalize_tool_overrides}

abbrev overrides : Raw
overrides = object (items (text "scale" ∷ [])) (items (text "get_events" ∷ []))

abbrev key : Key
key = record { tier = "read"; ssh_access = false; tool_overrides = overrides; revoked = false }

with_policy-eq-guarded_example :
    with_policy (λ (k : Key). some k) "scale" (λ k. k.tier) key ≡ guarded (some key) "scale" "read"
with_policy-eq-guarded_example =
    with_policy-eq-guarded (λ (k : Key). some k) "scale" (λ k. k.tier) key

effective_tools_le_example :
    contains (effective_tools (record key { tier = "operator" })) "scale" ≡ true
unfolding effective_tools base_tools tier_tools add_all remove_all
effective_tools_le_example = effective_tools_le key "read" "operator" "scale" read_operator refl

effective_tools-normalize_tool_overrides_example :
    effective_tools (record key { tool_overrides = or_absent (some overrides) })
    ≡ effective_tools (record key { tool_overrides = overrides })
unfolding normalize_tool_overrides normalize_lists
effective_tools-normalize_tool_overrides_example =
    effective_tools-normalize_tool_overrides key overrides (some overrides) refl
