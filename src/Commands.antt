-- ===== src/Commands.antt =====
-- The classifier of commands that only read, and how a command is quoted for a shell
-- (server/ssh/readonly-classifier.mjs). The test for a heredoc has no effect after that for `<`.
pub mod Words
pub mod Quoting
use Prim.Native.String
use Prim.Native.String.{◌++◌ as ◌+++◌}
use aliangboard.Base.{
  ℕ, ◌+◌, String, code, Bool, true, false, not, ◌&&◌, ◌||◌, Option, none, some, List, [], ◌∷◌, ◌==◌,
  if◌then◌else◌, eqb, ltb, any, all, filter, map, contains, lookup, split_on, length,
}
use aliangboard.Mounts.{trim}
use Words.{is_dangerous, split_words, is_assignment, before_equals, has_letters, is_word_first}

abbrev pub readonly_commands : List String
readonly_commands =
    "cat" ∷ "ls" ∷ "ps" ∷ "df" ∷ "free" ∷ "head" ∷ "tail" ∷ "grep" ∷ "find" ∷ "uname" ∷ "who"
    ∷ "uptime" ∷ "date" ∷ "id" ∷ "hostname" ∷ "wc" ∷ "du" ∷ "stat" ∷ "env" ∷ "printenv"
    ∷ "journalctl" ∷ "dmesg" ∷ "netstat" ∷ "ss" ∷ "ip" ∷ "ping" ∷ "systemctl" ∷ []

abbrev pub arg_deny : List (String × List String)
arg_deny =
    (
      "find",
      "-delete" ∷ "-exec" ∷ "-execdir" ∷ "-ok" ∷ "-okdir" ∷ "-fprintf" ∷ "-fprint" ∷ "-fprint0"
          ∷ "-fls" ∷ [],
    )
    ∷ ("ip", "set" ∷ "add" ∷ "del" ∷ "delete" ∷ "change" ∷ "replace" ∷ "flush" ∷ "netns" ∷ [])
    ∷ ("date", "-s" ∷ "--set" ∷ [])
    ∷ ("dmesg", "-c" ∷ "-C" ∷ "--console-level" ∷ "--clear" ∷ "--read-clear" ∷ [])
    ∷ (
      "journalctl",
      "--rotate" ∷ "--flush" ∷ "--sync" ∷ "--relinquish-var" ∷ "--vacuum-size" ∷ "--vacuum-time"
          ∷ "--vacuum-files" ∷ [],
    )
    ∷ []

abbrev pub dangerous_env : List String
dangerous_env =
    "LD_PRELOAD" ∷ "LD_AUDIT" ∷ "LD_LIBRARY_PATH" ∷ "PYTHONPATH" ∷ "PYTHONSTARTUP" ∷ "PATH"
    ∷ "BASH_ENV" ∷ "ENV" ∷ "PERL5OPT" ∷ "RUBYOPT" ∷ "NODE_OPTIONS" ∷ "SHELL" ∷ "IFS" ∷ []

abbrev pub is_dangerous_env : String → Bool
is_dangerous_env token = elim (before_equals token) [
  | none ↦ false
  | some name ↦ has_letters dangerous_env name
]

abbrev pub hits_deny : String → List String → Bool
hits_deny arg deny = contains deny arg || elim (before_equals arg) [
  | none ↦ false
  | some name ↦ not (name == "") && contains deny name
]

-- The tokens after the assignments, and whether one of those was dangerous.
abbrev pub skip_assignments : List String → Bool × List String
skip_assignments [] = (false, [])
skip_assignments (t ∷ ts) =
    let (bad, rest) = skip_assignments ts in
    if is_assignment t
    then if is_dangerous_env t then (true, ts) else (bad, rest)
    else (false, t ∷ ts)

abbrev pub last_part : List String → String
last_part [] = ""
last_part (p ∷ []) = p
last_part (p ∷ q ∷ ps) = last_part (q ∷ ps)

abbrev pub head_or_empty : List String → String
head_or_empty [] = ""
head_or_empty (t ∷ ts) = t

abbrev pub tail_of : List String → List String
tail_of [] = []
tail_of (t ∷ ts) = ts

abbrev pub allows_args : String → List String → Bool
allows_args bin args =
    not (bin == "systemctl" && not (is_word_first "status" (head_or_empty args)))
    && (not (bin == "hostname" && ltb 0 (length args))
        && (not (bin == "env" && any (λ a. not (is_assignment a)) args)
            && elim (lookup bin arg_deny) [
              | none ↦ true
              | some deny ↦ not (any (λ a. hits_deny a deny) args)
            ]))

unfoldable pub reads_only : String → Bool
reads_only seg =
    let (bad, tokens) = skip_assignments (split_words seg) in
    let bin = last_part (split_on 47 (head_or_empty tokens)) in
    not bad && (contains readonly_commands bin && allows_args bin (tail_of tokens))

abbrev pub segments : String → List String
segments cmd = filter (λ s. not (s == "")) (map trim (split_on 124 cmd))

unfoldable pub classify_readonly : String → Bool
classify_readonly command =
    let cmd = trim command in
    not (cmd == "")
    && (not (is_dangerous cmd) && (ltb 0 (length (segments cmd)) && all reads_only (segments cmd)))

-- The text, each quote of it written as the end of the quoting, an escaped quote and its start again; then
-- the given end.
abbrev pub escape_quotes : String → String → String
escape_quotes String.[] end = end
escape_quotes (String.◌∷◌ c s) end =
    let rest = escape_quotes s end in
    if eqb (code c) 39
    then String.◌∷◌ "'" (String.◌∷◌ "\\" (String.◌∷◌ c (String.◌∷◌ "'" rest)))
    else String.◌∷◌ c rest

unfoldable pub sh_quote : String → String
sh_quote s = String.◌∷◌ "'" (escape_quotes s "'")

abbrev pub build_sudo_command : String → String
build_sudo_command command = "sudo -S -p '' sh -c " +++ sh_quote command
