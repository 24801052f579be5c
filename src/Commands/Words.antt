-- ===== src/Commands/Words.antt =====
-- The texts that the classifier takes a command apart into.
use aliangboard.Base.{
  ℕ, ◌-◌, String, code, Bool, true, false, ◌&&◌, ◌||◌, Option, none, some, List, [], ◌∷◌,
  if◌then◌else◌, eqb, leb, cons_first,
}
use aliangboard.Mounts.{is_space}

abbrev pub starts_with_code : ℕ → String → Bool
starts_with_code k String.[] = false
starts_with_code k (String.◌∷◌ c s) = eqb (code c) k

-- `/[;&`<>]|\$\(|\n/`
abbrev pub is_dangerous : String → Bool
is_dangerous String.[] = false
is_dangerous (String.◌∷◌ c s) =
    eqb (code c) 59
    || (eqb (code c) 38
        || (eqb (code c) 96
            || (eqb (code c) 60
                || (eqb (code c) 62
                    || (eqb (code c) 10
                        || ((eqb (code c) 36 && starts_with_code 40 s) || is_dangerous s))))))

abbrev pub starts_with_space : String → Bool
starts_with_space String.[] = false
starts_with_space (String.◌∷◌ c s) = is_space (code c)

-- `split(/\s+/)`
unfoldable pub split_words : String → List String
split_words String.[] = "" ∷ []
split_words (String.◌∷◌ c s) =
    let rest = split_words s in
    if is_space (code c) then if starts_with_space s then rest else "" ∷ rest else cons_first c rest

abbrev pub is_letter : ℕ → Bool
is_letter c = (leb 65 c && leb c 90) || ((leb 97 c && leb c 122) || eqb c 95)

abbrev pub is_word_code : ℕ → Bool
is_word_code c = is_letter c || (leb 48 c && leb c 57)

-- `/^[A-Za-z_][A-Za-z0-9_]*=/`
abbrev pub goes_on_assigning : String → Bool
goes_on_assigning String.[] = false
goes_on_assigning (String.◌∷◌ c s) =
    let rest = goes_on_assigning s in eqb (code c) 61 || (is_word_code (code c) && rest)

abbrev pub is_assignment : String → Bool
is_assignment String.[] = false
is_assignment (String.◌∷◌ c s) = is_letter (code c) && goes_on_assigning s

-- The text before the first `=`, where there is one.
abbrev pub before_equals : String → Option String
before_equals String.[] = none
before_equals (String.◌∷◌ c s) =
    let rest = before_equals s in
    if eqb (code c) 61 then some "" else elim rest [ none ↦ none | some t ↦ some (String.◌∷◌ c t) ]

-- Two texts with the case of their ASCII letters aside.
abbrev pub upper : ℕ → ℕ
upper c = if leb 97 c && leb c 122 then c - 32 else c

abbrev pub same_letters : String → String → Bool
same_letters String.[] String.[] = true
same_letters (String.◌∷◌ c s) (String.◌∷◌ d t) =
    eqb (upper (code c)) (upper (code d)) && same_letters s t
same_letters s t = false

abbrev pub has_letters : List String → String → Bool
has_letters [] s = false
has_letters (t ∷ ts) s = same_letters s t || has_letters ts s

-- `/^status\b/`
abbrev pub ends_word : String → Bool
ends_word String.[] = true
ends_word (String.◌∷◌ c s) = if is_word_code (code c) then false else true

abbrev pub is_word_first : String → String → Bool
is_word_first String.[] s = ends_word s
is_word_first (String.◌∷◌ c p) String.[] = false
is_word_first (String.◌∷◌ c p) (String.◌∷◌ d s) = eqb (code c) (code d) && is_word_first p s
