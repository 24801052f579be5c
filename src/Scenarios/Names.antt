-- ===== src/Scenarios/Names.antt =====
-- Names of kinds and commands as the code reads them.
use aliangboard.Base.{◌≡◌, refl, true, false, some, split_on}
use aliangboard.Kube.Alias.{normalize_kind}
use aliangboard.Commands.{classify_readonly, reads_only, sh_quote}
use aliangboard.Commands.Quoting.{outside, read_word, read_word-sh_quote}
use aliangboard.Commands.Words.{split_words}

short_kind : normalize_kind "  NetPol " ≡ some "networkpolicies"
unfolding normalize_kind
short_kind = refl

single_kind : normalize_kind "NetworkPolicy" ≡ some "networkpolicies"
unfolding normalize_kind
single_kind = refl

class_kind : normalize_kind "storageclass" ≡ some "storageclasses"
unfolding normalize_kind
class_kind = refl

reading : classify_readonly "LANG=C cat /etc/hosts | grep -v 127" ≡ true
unfolding classify_readonly reads_only split_on split_words
reading = refl

deleting : classify_readonly "find / -name x -delete" ≡ false
unfolding classify_readonly reads_only split_on split_words
deleting = refl

injecting : classify_readonly "ld_preload=/tmp/x.so cat a" ≡ false
unfolding classify_readonly reads_only split_on split_words
injecting = refl

-- An option with its value attached passes.
setting_clock : classify_readonly "date -s2030-01-01" ≡ true
unfolding classify_readonly reads_only split_on split_words
setting_clock = refl

quoting : sh_quote "it's" ≡ "'it'\\''s'"
unfolding sh_quote
quoting = refl

-- A quoted option passes, which the shell hands to the command without its quotes.
quoted_option : classify_readonly "find / -name x '-delete'" ≡ true
unfolding classify_readonly reads_only split_on split_words
quoted_option = refl

read_word-sh_quote_example : read_word outside (sh_quote "rm -rf '/x'; y") ≡ some "rm -rf '/x'; y"
read_word-sh_quote_example = read_word-sh_quote "rm -rf '/x'; y"
