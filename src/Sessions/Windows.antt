-- ===== src/Sessions/Windows.antt =====
-- The records of windows that are moved to a new token, and those that are purged
-- (`rekeyWindowRecords` and `purgeOrphanWindowRecords` of server/window-records.mjs).
use mathlib.Core.Option.{some-injective}
use aliangboard.Base.{
  ℕ, ◌+◌, String, ◌≡◌, refl, Bool, false, not, ◌||◌, Option, none, some, List, [], ◌∷◌, ◌==◌,
  eq_iff, if◌then◌else◌, filter, length, map, arith, Bool-cases, inl, inr, ltb, eq_refl, subst,
}

-- A row of `terminals` or of `file_browsers`.
pub record Window : Type 0 where
  pub id : String
  pub session_token : String
  pub created_at : ℕ

pub record Windows : Type 0 where
  pub terminals : List Window
  pub file_browsers : List Window

abbrev pub is_of : String → Window → Bool
is_of token w = w.session_token == token

-- `UPDATE … SET sessionToken = ? WHERE sessionToken = ?`: the key of the tables is `id`, which stays, so
-- no row is in conflict with another.
abbrev pub rekey_rows : String → String → List Window → List Window
rekey_rows from to [] = []
rekey_rows from to (w ∷ ws) =
    (if is_of from w then record w { session_token = to } else w) ∷ rekey_rows from to ws

-- The tables, and how many rows of each were moved; `none` is the exception.
unfoldable pub rekey_window_records : Windows → String → String → Option (Windows × ℕ × ℕ)
rekey_window_records t from to =
    if from == "" || (to == "" || from == to)
    then none
    else some (
      record {
        terminals = rekey_rows from to t.terminals;
        file_browsers = rekey_rows from to t.file_browsers;
      },
      length (filter (is_of from) t.terminals),
      length (filter (is_of from) t.file_browsers),
    )

-- `DELETE … WHERE createdAt < now - maxAgeMs`
abbrev pub is_old : ℕ → ℕ → Window → Bool
is_old max_age_ms now w = ltb (w.created_at + max_age_ms) now

unfoldable pub purge_orphan_window_records : Windows → ℕ → ℕ → Windows × ℕ × ℕ
purge_orphan_window_records t max_age_ms now = (
  record {
    terminals = filter (λ w. not (is_old max_age_ms now w)) t.terminals;
    file_browsers = filter (λ w. not (is_old max_age_ms now w)) t.file_browsers;
  },
  length (filter (is_old max_age_ms now) t.terminals),
  length (filter (is_old max_age_ms now) t.file_browsers),
)

ids-rekey_rows :
    (from to : String) (ws : List Window)
    → map (λ (w : Window). w.id) (rekey_rows from to ws) ≡ map (λ (w : Window). w.id) ws
ids-rekey_rows from to [] = refl
ids-rekey_rows from to (w ∷ ws) = ground (arith, ids-rekey_rows from to ws)

filter-rekey_rows_from :
    (from to : String) (ws : List Window)
    → (from == to) ≡ false
    → length (filter (is_of from) (rekey_rows from to ws)) ≡ 0
filter-rekey_rows_from from to [] apart = refl
filter-rekey_rows_from from to (w ∷ ws) apart =
    ground (arith, filter-rekey_rows_from from to ws apart, eq_iff from to, eq_iff to from)

filter-rekey_rows_to :
    (from to : String) (ws : List Window)
    → (from == to) ≡ false
    → length (filter (is_of to) (rekey_rows from to ws))
      ≡ length (filter (is_of to) ws) + length (filter (is_of from) ws)
filter-rekey_rows_to from to [] apart = omega arith
filter-rekey_rows_to from to (w ∷ ws) apart = ground (
  arith,
  filter-rekey_rows_to from to ws apart,
  eq_refl to,
  eq_iff w.session_token from,
  eq_iff w.session_token to,
  eq_iff from to,
)

-- Records that are moved leave none under the old token, and the new token has as many as it had and
-- the old one had: no row is skipped. The numbers reported are those of the rows that the old token
-- had, and every record is where it was in its table, with its id.
pub rekey_window_records_lem :
    (t moved : Windows) (from to : String) (n k : ℕ)
    → rekey_window_records t from to ≡ some (moved, n, k)
    → (n ≡ length (filter (is_of from) t.terminals))
      × (k ≡ length (filter (is_of from) t.file_browsers))
      × (map (λ (w : Window). w.id) moved.terminals ≡ map (λ (w : Window). w.id) t.terminals)
      × (map (λ (w : Window). w.id) moved.file_browsers
          ≡ map (λ (w : Window). w.id) t.file_browsers)
      × (length (filter (is_of from) moved.terminals) ≡ 0)
      × (length (filter (is_of from) moved.file_browsers) ≡ 0)
      × (length (filter (is_of to) moved.terminals) ≡ length (filter (is_of to) t.terminals) + n)
      × (length (filter (is_of to) moved.file_browsers)
          ≡ length (filter (is_of to) t.file_browsers) + k)
unfolding rekey_window_records
rekey_window_records_lem t moved from to n k e =
    elim (Bool-cases (from == "" || (to == "" || from == to))) [
      | inl bad ↦ absurd (ground (arith, e, bad))
      | inr fine ↦
          let apart : (from == to) ≡ false = ground arith in
          let out =
            some-injective
              (
                record {
                  terminals = rekey_rows from to t.terminals;
                  file_browsers = rekey_rows from to t.file_browsers;
                },
                length (filter (is_of from) t.terminals),
                length (filter (is_of from) t.file_browsers),
              )
              (moved, n, k) (rw fine at e) in
          subst
            (λ (r : Windows × ℕ × ℕ).
              (r.1 ≡ length (filter (is_of from) t.terminals))
              × (r.2 ≡ length (filter (is_of from) t.file_browsers))
              × (map (λ (w : Window). w.id) r.0.terminals ≡ map (λ (w : Window). w.id) t.terminals)
              × (map (λ (w : Window). w.id) r.0.file_browsers
                  ≡ map (λ (w : Window). w.id) t.file_browsers)
              × (length (filter (is_of from) r.0.terminals) ≡ 0)
              × (length (filter (is_of from) r.0.file_browsers) ≡ 0)
              × (length (filter (is_of to) r.0.terminals)
                  ≡ length (filter (is_of to) t.terminals) + r.1)
              × (length (filter (is_of to) r.0.file_browsers)
                  ≡ length (filter (is_of to) t.file_browsers) + r.2))
            out
            (
              refl,
              refl,
              ids-rekey_rows from to t.terminals,
              ids-rekey_rows from to t.file_browsers,
              filter-rekey_rows_from from to t.terminals apart,
              filter-rekey_rows_from from to t.file_browsers apart,
              filter-rekey_rows_to from to t.terminals apart,
              filter-rekey_rows_to from to t.file_browsers apart,
            )
    ]
