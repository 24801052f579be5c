-- ===== src/Base/Texts.antt =====
-- Texts that the program walks: splitting at a character, and tests on each character.
-- A JavaScript string is a sequence of UTF-16 units, a `String` one of code points; no test below
-- asks for a code point above the ASCII range, so the two give the same answers.
use Prim.Native.Nat.{ℕ}
use Prim.Native.Char.{Char, code}
use Prim.Native.String.{String, [], ◌∷◌}
use mathlib.Core.Bool.{Bool, true, false, ◌&&◌, ◌||◌}
use mathlib.Core.List.{List}
use aliangboard.Base.Tests.{eqb, if◌then◌else◌}

-- Every character satisfies a test on its code.
abbrev pub every : (ℕ → Bool) → String → Bool
every p [] = true
every p (c ∷ s) = p (code c) && every p s

-- `s.includes(c)` for one character
abbrev pub has_char : ℕ → String → Bool
has_char k [] = false
has_char k (c ∷ s) = eqb (code c) k || has_char k s

abbrev pub cons_first : Char → List String → List String
cons_first c List.[] = List.◌∷◌ (c ∷ []) List.[]
cons_first c (List.◌∷◌ w ws) = List.◌∷◌ (c ∷ w) ws

-- `s.split(c)` for one character
unfoldable pub split_on : ℕ → String → List String
split_on k [] = List.◌∷◌ "" List.[]
split_on k (c ∷ s) =
    let rest = split_on k s in if eqb (code c) k then List.◌∷◌ "" rest else cons_first c rest
