-- ===== src/Passwords.antt =====
-- The rules on passwords (server/password-policy.mjs).
use Prim.Native.String.{[], ◌∷◌}
use aliangboard.Base.{
  ℕ, ◌+◌, ◌≤◌, min, max, String, code, Bool, true, false, not, ◌&&◌, ◌||◌, Option, none, some, ◌≡◌,
  if◌then◌else◌, leb, ltb, get_or, is_some, arith, Bool-cases, inl, inr,
}

pub record PasswordPolicy : Type 0 where
  pub min_length : ℕ
  pub require_mixed : Bool
  pub require_digit : Bool
  pub require_symbol : Bool

abbrev pub password_min_length : ℕ
password_min_length = 8

abbrev pub default_password_policy : PasswordPolicy
default_password_policy = record {
  min_length = password_min_length;
  require_mixed = false;
  require_digit = false;
  require_symbol = false;
}

-- An object that is stored: the floor of its `minLength` where that is a positive finite number, and the
-- truth of each field that is there.
pub record RawPolicy : Type 0 where
  pub raw_min_length : Option ℕ
  pub raw_mixed : Option Bool
  pub raw_digit : Option Bool
  pub raw_symbol : Option Bool

abbrev pub clamp_length : Option ℕ → ℕ
clamp_length none = password_min_length
clamp_length (some n) = min (max n password_min_length) 128

-- `none` is a value that is no object.
unfoldable pub normalize_policy : Option RawPolicy → PasswordPolicy
normalize_policy none = default_password_policy
normalize_policy (some raw) = record {
  min_length = clamp_length raw.raw_min_length;
  require_mixed = get_or raw.raw_mixed false;
  require_digit = get_or raw.raw_digit false;
  require_symbol = get_or raw.raw_symbol false;
}

-- The setting: none, a text that is no JSON or a read that throws, or what the text parses to.
pub data StoredPolicy : Type 0 where
  absent : StoredPolicy
  unreadable : StoredPolicy
  parsed : Option RawPolicy → StoredPolicy

unfoldable pub resolve_password_policy : StoredPolicy → PasswordPolicy
resolve_password_policy absent = normalize_policy none
resolve_password_policy unreadable = default_password_policy
resolve_password_policy (parsed raw) = normalize_policy raw

-- `pw.length`, in UTF-16 units.
abbrev pub units : String → ℕ
units [] = 0
units (c ∷ s) = (if ltb 65535 (code c) then 2 else 1) + units s

abbrev pub has_code : (ℕ → Bool) → String → Bool
has_code p [] = false
has_code p (c ∷ s) = p (code c) || has_code p s

abbrev pub is_lower : ℕ → Bool
is_lower c = leb 97 c && leb c 122

abbrev pub is_upper : ℕ → Bool
is_upper c = leb 65 c && leb c 90

abbrev pub is_digit : ℕ → Bool
is_digit c = leb 48 c && leb c 57

abbrev pub is_symbol : ℕ → Bool
is_symbol c = not (is_upper c) && (not (is_lower c) && not (is_digit c))

pub data PasswordRule : Type 0 where
  min_length_rule : PasswordRule
  mixed_rule : PasswordRule
  digit_rule : PasswordRule
  symbol_rule : PasswordRule

-- The password is `none` where it is no text.
abbrev pub failed_rule : String → PasswordPolicy → Option PasswordRule
failed_rule pw policy =
    if ltb (units pw) policy.min_length
    then some min_length_rule
    else if policy.require_mixed && not (has_code is_lower pw && has_code is_upper pw)
    then some mixed_rule
    else if policy.require_digit && not (has_code is_digit pw)
    then some digit_rule
    else if policy.require_symbol && not (has_code is_symbol pw)
    then some symbol_rule
    else none

unfoldable pub first_failed_rule : Option String → PasswordPolicy → Option PasswordRule
first_failed_rule none policy = some min_length_rule
first_failed_rule (some pw) policy = failed_rule pw policy

abbrev pub is_password_ok : Option String → PasswordPolicy → Bool
is_password_ok pw policy = not (is_some (first_failed_rule pw policy))

clamp_length-bounds : (o : Option ℕ) → (8 ≤ clamp_length o) × (clamp_length o ≤ 128)
clamp_length-bounds none = (omega arith, omega arith)
clamp_length-bounds (some n) = (omega arith, omega arith)

normalize_policy-bounds :
    (raw : Option RawPolicy)
    → (8 ≤ (normalize_policy raw).min_length) × ((normalize_policy raw).min_length ≤ 128)
unfolding normalize_policy
normalize_policy-bounds none = (omega arith, omega arith)
normalize_policy-bounds (some raw) = clamp_length-bounds raw.raw_min_length

-- The policy asks for at least 8 and at most 128 units, whatever is stored.
pub resolve_password_policy-bounds :
    (stored : StoredPolicy)
    → (8 ≤ (resolve_password_policy stored).min_length)
      × ((resolve_password_policy stored).min_length ≤ 128)
unfolding resolve_password_policy
resolve_password_policy-bounds absent = normalize_policy-bounds none
resolve_password_policy-bounds unreadable = (omega arith, omega arith)
resolve_password_policy-bounds (parsed raw) = normalize_policy-bounds raw

-- A password that is accepted has at least 8 units, whatever policy is stored.
pub is_password_ok-units :
    (pw : String) (stored : StoredPolicy)
    → is_password_ok (some pw) (resolve_password_policy stored) ≡ true
    → 8 ≤ units pw
unfolding first_failed_rule
is_password_ok-units pw stored ok =
    elim (Bool-cases (ltb (units pw) (resolve_password_policy stored).min_length)) [
      | inl short ↦ absurd (ground (arith, ok, short))
      | inr long ↦ ground (arith, (resolve_password_policy-bounds stored).0, long)
    ]
