-- ===== src/Policy/Tools/Effective.antt =====
-- The tools that a key may use, one by one, and the order of the tiers.
use aliangboard.Base.{
  String, ◌≡◌, refl, ap, sym, ◌∙◌, Bool, true, not, ◌&&◌, ◌||◌, List, [], contains, contains-append,
  arith, Bool-cases, inl, inr,
}
use aliangboard.Policy.Raw.{
  Raw, absent, broken, plain, quoted, array, object, field_texts, add_all, contains-add_all,
  contains-remove_all, contains-filter,
}
use aliangboard.Policy.Tools.{
  Key, tier_tools, bounded_tools, dangerous_tools, read_tools, operator_extra, ssh_key_tools,
  base_tools, override_tools, effective_tools,
}

-- The tools that the overrides name, none where they are no object.
abbrev pub allow_texts : Raw → List String
allow_texts (object allow deny) = field_texts allow
allow_texts _ = []

abbrev pub deny_texts : Raw → List String
deny_texts (object allow deny) = field_texts deny
deny_texts _ = []

contains-override_tools :
    (raw : Raw) (set : List String) (t : String)
    → contains (override_tools raw set) t
      ≡ ((contains set t || contains (allow_texts raw) t) && not (contains (deny_texts raw) t))
contains-override_tools absent set t = ground arith
contains-override_tools broken set t = ground arith
contains-override_tools plain set t = ground arith
contains-override_tools (quoted q) set t = ground arith
contains-override_tools (array xs) set t = ground arith
contains-override_tools (object allow deny) set t = ground (
  arith,
  contains-remove_all (field_texts deny) (add_all (field_texts allow) set) t,
  contains-add_all (field_texts allow) set t,
)

contains-base_tools :
    (key : Key) (t : String)
    → contains (base_tools key) t
      ≡ (contains (tier_tools key.tier) t || (key.ssh_access && contains ssh_key_tools t))
unfolding base_tools
contains-base_tools key t = elim (Bool-cases key.ssh_access) [
  | inl ssh ↦ rw ssh (
      contains-add_all ssh_key_tools (add_all (tier_tools key.tier) []) t
      ∙ ap (λ b. b || contains ssh_key_tools t) (contains-add_all (tier_tools key.tier) [] t))
  | inr no_ssh ↦ rw no_ssh (contains-add_all (tier_tools key.tier) [] t ∙ ground arith)
]

-- A key may use a tool exactly when its overrides do not deny the tool and its tier has it, or its
-- SSH access gives it, or the overrides allow it: a tool that is both allowed and denied is denied,
-- and overrides that are no object leave the tier and the SSH access as they are.
pub contains-effective_tools :
    (key : Key) (t : String)
    → contains (effective_tools key) t ≡ (
        ((contains (tier_tools key.tier) t || (key.ssh_access && contains ssh_key_tools t))
          || contains (allow_texts key.tool_overrides) t)
        && not (contains (deny_texts key.tool_overrides) t))
unfolding effective_tools
contains-effective_tools key t =
    contains-override_tools key.tool_overrides (base_tools key) t
    ∙ ap
        (λ b.
          (b || contains (allow_texts key.tool_overrides) t)
          && not (contains (deny_texts key.tool_overrides) t))
        (contains-base_tools key t)

-- A tier below another.
pub data IsBelow : String → String → Type 0 where
  read_operator : IsBelow "read" "operator"
  operator_admin : IsBelow "operator" "admin"
  read_admin : IsBelow "read" "admin"

read_bounded : (t : String) → contains read_tools t ≡ true → contains bounded_tools t ≡ true
read_bounded t h =
    let kept = contains-filter (λ x. not (contains operator_extra x)) bounded_tools t in
    ground arith

tier_tools_le :
    (low high t : String)
    → IsBelow low high
    → contains (tier_tools low) t ≡ true
    → contains (tier_tools high) t ≡ true
unfolding tier_tools
tier_tools_le low high t read_operator h = read_bounded t h
tier_tools_le low high t operator_admin h =
    contains-append bounded_tools dangerous_tools t ∙ rw h refl
tier_tools_le low high t read_admin h =
    contains-append bounded_tools dangerous_tools t ∙ rw (read_bounded t h) refl

-- Raising a key from a tier to one above it takes no tool away from it, whatever its overrides.
pub effective_tools_le :
    (key : Key) (low high t : String)
    → IsBelow low high
    → contains (effective_tools (record key { tier = low })) t ≡ true
    → contains (effective_tools (record key { tier = high })) t ≡ true
effective_tools_le key low high t below h =
    let before = contains-effective_tools (record key { tier = low }) t in
    let after = contains-effective_tools (record key { tier = high }) t in
    let up = tier_tools_le low high t below in
    by_tier (contains (tier_tools low) t) (contains (tier_tools high) t)
      (key.ssh_access && contains ssh_key_tools t) (contains (allow_texts key.tool_overrides) t)
      (contains (deny_texts key.tool_overrides) t) (sym before ∙ h) after up
  where
    by_tier :
        (l h s a d : Bool) {b : Bool}
        → (((l || s) || a) && not d) ≡ true
        → b ≡ (((h || s) || a) && not d)
        → (l ≡ true → h ≡ true)
        → b ≡ true
    by_tier l h s a d held is up = ground (arith, up)
