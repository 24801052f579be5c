-- ===== src/Scenarios/Moving.antt =====
-- Moving the records of windows at concrete tables.
use aliangboard.Base.{◌+◌, String, ◌≡◌, refl, [], ◌∷◌, filter, length, map}
use aliangboard.Sessions.Windows.{
  Window, Windows, is_of, rekey_window_records, rekey_window_records_lem,
}

abbrev window : String → String → Window
window id token = record { id = id; session_token = token; created_at = 1 }

abbrev before : Windows
before = record { terminals = window "w1" "old" ∷ window "w2" "new" ∷ []; file_browsers = [] }

abbrev after : Windows
after = record { terminals = window "w1" "new" ∷ window "w2" "new" ∷ []; file_browsers = [] }

rekey_window_records_lem_example :
    (1 ≡ length (filter (is_of "old") before.terminals))
    × (0 ≡ length (filter (is_of "old") before.file_browsers))
    × (map (λ (w : Window). w.id) after.terminals ≡ map (λ (w : Window). w.id) before.terminals)
    × (map (λ (w : Window). w.id) after.file_browsers
        ≡ map (λ (w : Window). w.id) before.file_browsers)
    × (length (filter (is_of "old") after.terminals) ≡ 0)
    × (length (filter (is_of "old") after.file_browsers) ≡ 0)
    × (length (filter (is_of "new") after.terminals)
        ≡ length (filter (is_of "new") before.terminals) + 1)
    × (length (filter (is_of "new") after.file_browsers)
        ≡ length (filter (is_of "new") before.file_browsers) + 0)
unfolding rekey_window_records
rekey_window_records_lem_example = rekey_window_records_lem before after "old" "new" 1 0 refl
