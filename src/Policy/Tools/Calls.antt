-- ===== src/Policy/Tools/Calls.antt =====
-- What the guard of a call (`withPolicy`) lets through.
use aliangboard.Base.{
  String, ◌≡◌, refl, ap, ◌∙◌, Bool, true, false, not, ◌&&◌, ◌||◌, Option, none, some, if◌then◌else◌,
  contains,
}
use aliangboard.Policy.Tools.{
  Key, tier_tools, ssh_key_tools, effective_tools, authorize, allowed, denied, Call,
  permission_denied, returned, with_policy,
}
use aliangboard.Policy.Tools.Effective.{allow_texts, deny_texts, contains-effective_tools}

-- What a key may call, from its row alone.
abbrev pub may_call : Key → String → Bool
may_call key t =
    ((contains (tier_tools key.tier) t || (key.ssh_access && contains ssh_key_tools t))
      || contains (allow_texts key.tool_overrides) t)
    && not (contains (deny_texts key.tool_overrides) t)

abbrev pub guarded {κ} : {A : Type κ} → Option Key → String → A → Call A
guarded none tool result = permission_denied "revoked" tool
guarded (some key) tool result =
    if key.revoked
    then permission_denied "revoked" tool
    else if may_call key tool
    then returned result
    else permission_denied "policy" tool

-- A guarded call runs its handler exactly when there is a key that is not revoked and whose row gives
-- the tool; it fails with `revoked` where there is no such key and with `policy` otherwise.
pub with_policy-eq-guarded {ℓ κ} :
    {C : Type ℓ} {A : Type κ} (key_row : C → Option Key) (tool : String) (handler : C → A) (ctx : C)
    → with_policy key_row tool handler ctx ≡ guarded (key_row ctx) tool (handler ctx)
unfolding with_policy authorize
with_policy-eq-guarded key_row tool handler ctx = by_key (key_row ctx)
  where
    by_flags :
        (revoked has : Bool)
        → (elim (if revoked then denied "revoked" else if has then allowed else denied "policy") [
          | allowed ↦ returned (handler ctx)
          | denied reason ↦ permission_denied reason tool
        ])
          ≡ (if revoked
              then permission_denied "revoked" tool
              else if has
              then returned (handler ctx)
              else permission_denied "policy" tool)
    by_flags true has = refl
    by_flags false true = refl
    by_flags false false = refl

    by_key :
        (row : Option Key)
        → (elim (authorize row tool) [
          | allowed ↦ returned (handler ctx)
          | denied reason ↦ permission_denied reason tool
        ])
          ≡ guarded row tool (handler ctx)
    by_key none = refl
    by_key (some key) =
        by_flags key.revoked (contains (effective_tools key) tool)
        ∙ ap
            (λ b.
              if key.revoked
              then permission_denied "revoked" tool
              else if b
              then returned (handler ctx)
              else permission_denied "policy" tool)
            (contains-effective_tools key tool)
