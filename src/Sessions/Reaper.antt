-- ===== src/Sessions/Reaper.antt =====
-- server/platform-session-reaper.mjs: the sweep of expired sessions and the cap on a user's
-- sessions.
pub mod Removal
pub mod Burial
pub mod Order
pub mod Cap
pub mod Count
use aliangboard.Base.{
  ℕ, suc, ◌+◌, ◌-◌, String, Bool, true, false, not, ◌&&◌, ◌||◌, Option, none, some, List, [], ◌∷◌,
  ◌++◌, ◌==◌, if◌then◌else◌, filter, length, leb, ltb, eqb,
}
use aliangboard.Sessions.Store.{Record, Store, remove_session_record}

-- `now - rec.createdAt > ttlMs`
abbrev pub is_expired : ℕ → ℕ → Record → Bool
is_expired now ttl_ms rec = ltb (rec.created_at + ttl_ms) now

unfoldable pub reap_all : ℕ → ℕ → Store → ℕ → List (String × Record) → Store × ℕ
reap_all now ttl_ms s expired [] = (s, expired)
reap_all now ttl_ms s expired ((token, rec) ∷ recs) =
    if is_expired now ttl_ms rec
    then reap_all now ttl_ms (remove_session_record now s token) (suc expired) recs
    else reap_all now ttl_ms s expired recs

-- The loop is over a copy of the map (`Array.from(platformSessions)`).
unfoldable pub reap_expired_sessions : ℕ → ℕ → Store → Store × ℕ
reap_expired_sessions now ttl_ms s = reap_all now ttl_ms s 0 s.platform

-- `rec.lastSeenAt ?? rec.createdAt ?? 0`
abbrev pub last_active : Record → ℕ
last_active rec = elim rec.last_seen_at [ some seen ↦ seen | none ↦ rec.created_at ]

abbrev pub sessions_of : String → List (String × Record) → List (String × ℕ)
sessions_of user_id [] = []
sessions_of user_id ((token, rec) ∷ recs) =
    if rec.user_id == user_id
    then (token, last_active rec) ∷ sessions_of user_id recs
    else sessions_of user_id recs

-- `mine.sort((a, b) => a.lastActive - b.lastActive)`, which is stable.
abbrev pub place : String × ℕ → List (String × ℕ) → List (String × ℕ)
place x [] = x ∷ []
place x (y ∷ ys) = if leb x.1 y.1 then x ∷ y ∷ ys else y ∷ place x ys

abbrev pub sort : List (String × ℕ) → List (String × ℕ)
sort [] = []
sort (x ∷ xs) = place x (sort xs)

unfoldable pub evict : ℕ → ℕ → String → ℕ → Store → ℕ → List (String × ℕ) → Store × ℕ
evict total max keep now s evicted [] = (s, evicted)
evict total max keep now s evicted ((token, _) ∷ mine) =
    if leb (total - evicted) max
    then (s, evicted)
    else if token == keep
    then evict total max keep now s evicted mine
    else evict total max keep now (remove_session_record now s token) (suc evicted) mine

-- The store, how many were evicted, and whether an audit is written.
unfoldable pub enforce_session_cap : String → ℕ → String → ℕ → Store → Store × ℕ × Bool
enforce_session_cap user_id max keep now s =
    let mine = sessions_of user_id s.platform in
    if eqb max 0
    then (s, 0, false)
    else if leb (length mine) max
    then (s, 0, false)
    else let (after, evicted) = evict (length mine) max keep now s 0 (sort mine) in
      (after, evicted, not (eqb evicted 0))
