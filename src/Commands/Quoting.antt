-- ===== src/Commands/Quoting.antt =====
-- A shell reads a quoted text back as one word.
use aliangboard.Base.{
  ℕ, String, Char, code, Bool, true, false, Option, none, some, ◌≡◌, refl, if◌then◌else◌, eqb,
  arith, Bool-cases, inl, inr,
}
use aliangboard.Commands.{escape_quotes, sh_quote}

-- How a POSIX shell reads one word: outside of quotes, within single quotes, or after a backslash.
pub data Reading : Type 0 where
  outside : Reading
  inside : Reading
  escaped : Reading

-- What a character does: it is part of the word or not, and how the reading goes on; outside of quotes a
-- character that is neither a quote nor a backslash is left to the shell, which is `none`.
abbrev pub reads : Reading → ℕ → Option (Bool × Reading)
reads outside c =
    if eqb c 39 then some (false, inside) else if eqb c 92 then some (false, escaped) else none
reads inside c = if eqb c 39 then some (false, outside) else some (true, inside)
reads escaped c = some (true, outside)

abbrev pub keep_char : Bool → Char → Option String → Option String
keep_char keep c none = none
keep_char keep c (some s) = some (if keep then String.◌∷◌ c s else s)

-- The word that a text is, where it ends outside of quotes.
abbrev pub read_word : Reading → String → Option String
read_word outside String.[] = some ""
read_word inside String.[] = none
read_word escaped String.[] = none
read_word r (String.◌∷◌ c s) = elim (reads r (code c)) [
  | none ↦ none
  | some (keep, next) ↦ keep_char keep c (read_word next s)
]

inside-escape_quotes : (s : String) → read_word inside (escape_quotes s "'") ≡ some s
inside-escape_quotes String.[] = refl
inside-escape_quotes (String.◌∷◌ c s) = elim (Bool-cases (eqb (code c) 39)) [
  | inl quote ↦ rw quote (rw (inside-escape_quotes s) refl)
  | inr other ↦
      let kept : read_word inside (String.◌∷◌ c (escape_quotes s "'")) ≡ some (String.◌∷◌ c s) =
        ground (arith, other, inside-escape_quotes s) in
      rw other kept
]

-- A shell reads the quoted text of a command, whatever it holds, as one word, the command itself: nothing
-- in it ends the quoting or is left to the shell.
pub read_word-sh_quote : (s : String) → read_word outside (sh_quote s) ≡ some s
unfolding sh_quote
read_word-sh_quote s = rw (inside-escape_quotes s) refl
