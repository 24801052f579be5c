-- ===== src/Sessions/Store.antt =====
-- The maps and the tables that hold sessions, and the operations on one session
-- (server/platform-session-reaper.mjs, server/session-touch.mjs, server/window-records.mjs).
-- A missing or NULL text is the empty text, times are in milliseconds, and no statement throws.
use aliangboard.Base.{
  ℕ, ◌+◌, String, Bool, true, false, not, ◌&&◌, Option, none, some, List, [], ◌∷◌, ◌++◌, ◌==◌,
  if◌then◌else◌, filter, find, lookup, insert, erase, leb, ltb, eqb,
}

-- A value of the map `platformSessions`.
pub record Record : Type 0 where
  pub user_id : String
  pub k8s_token : String
  pub created_at : ℕ
  pub last_seen_at : Option ℕ

-- A row of `platform_sessions`.
pub record PlatformRow : Type 0 where
  pub token : String
  pub user_id : String
  pub k8s_token : String
  pub last_seen_at : Option ℕ

-- A row of `sessions`.
pub record SessionRow : Type 0 where
  pub token : String
  pub user_id : String
  pub cluster_id : String
  pub created_at : ℕ

-- A row of `rotated_sessions`, a tombstone.
pub record Tombstone : Type 0 where
  pub token : String
  pub user_id : String
  pub rotated_at : ℕ

-- `platformSessions` and `sessions` in memory (a K8s session by its cluster), then the tables.
pub record Store : Type 0 where
  pub platform : List (String × Record)
  pub k8s : List (String × String)
  pub platform_rows : List PlatformRow
  pub session_rows : List SessionRow
  pub rotated : List Tombstone

-- `DELETE FROM … WHERE token=?`
abbrev pub delete_platform_row : String → Store → Store
delete_platform_row token s = record s {
  platform_rows = filter (λ r. not (r.token == token)) s.platform_rows;
}

abbrev pub delete_session_row : String → Store → Store
delete_session_row token s = record s {
  session_rows = filter (λ r. not (r.token == token)) s.session_rows;
}

-- `INSERT OR REPLACE INTO rotated_sessions`
unfoldable pub tombstone_session : Store → String → String → ℕ → Store
tombstone_session s token user_id now = if token == "" then s else record s {
  rotated =
      filter (λ r. not (r.token == token)) s.rotated
      ++ (record { token = token; user_id = user_id; rotated_at = now } ∷ []);
}

abbrev pub k8s_token_of : Option Record → String
k8s_token_of none = ""
k8s_token_of (some rec) = rec.k8s_token

abbrev pub user_of : Option Record → String
user_of none = ""
user_of (some rec) = rec.user_id

unfoldable pub drop_k8s : String → String → ℕ → Store → Store
drop_k8s token user_id now s =
    if token == ""
    then s
    else delete_session_row token
        (tombstone_session (record s { k8s = erase token s.k8s }) token user_id now)

unfoldable pub remove_session_record : ℕ → Store → String → Store
remove_session_record now s token =
    let rec = lookup token s.platform in
    drop_k8s (k8s_token_of rec) (user_of rec) now
      (delete_platform_row token (record s { platform = erase token s.platform }))

-- `isKnownSessionToken`: a session's row, or a tombstone of at most seven days.
abbrev pub rotated_ttl_ms : ℕ
rotated_ttl_ms = 604800000

abbrev pub is_fresh : Option Tombstone → ℕ → Bool
is_fresh none now = false
is_fresh (some tomb) now = leb now (tomb.rotated_at + rotated_ttl_ms)

unfoldable pub is_known_session_token : Store → String → ℕ → Bool
is_known_session_token s token now =
    if token == "" then false else elim (find (λ r. r.token == token) s.session_rows) [
      | some _ ↦ true
      | none ↦ is_fresh (find (λ r. r.token == token) s.rotated) now
    ]

-- `sessionTokenOwner`: the empty text is `null`.
unfoldable pub session_token_owner : Store → String → String
session_token_owner s token =
    if token == "" then "" else elim (find (λ r. r.token == token) s.session_rows) [
      | some live ↦ live.user_id
      | none ↦ elim (find (λ r. r.token == token) s.rotated) [
        | some tomb ↦ tomb.user_id
        | none ↦ ""
      ]
    ]

-- `tombstoneExpiredSessions`: the rows older than the cutoff that have an owner.
unfoldable pub tombstone_rows : Store → ℕ → ℕ → List SessionRow → Store
tombstone_rows s cutoff now [] = s
tombstone_rows s cutoff now (r ∷ rs) =
    tombstone_rows
      (if ltb r.created_at cutoff && (not (r.token == "") && not (r.user_id == ""))
        then tombstone_session s r.token r.user_id now
        else s)
      cutoff now rs

unfoldable pub tombstone_expired_sessions : Store → ℕ → ℕ → Store
tombstone_expired_sessions s cutoff now = tombstone_rows s cutoff now s.session_rows

-- `DELETE FROM rotated_sessions WHERE rotatedAt < now - retentionMs`
unfoldable pub purge_rotated_sessions : Store → ℕ → ℕ → Store
purge_rotated_sessions s now retention_ms = record s {
  rotated = filter (λ r. not (ltb (r.rotated_at + retention_ms) now)) s.rotated;
}

-- `touchSession` on a session whose token is not empty: the session, its row and whether it wrote.
abbrev pub is_recent : Option ℕ → ℕ → ℕ → Bool
is_recent none now min_interval_ms = false
is_recent (some last) now min_interval_ms = not (eqb last 0) && ltb now (last + min_interval_ms)

unfoldable pub touch_session : Store → String → ℕ → ℕ → Store × Bool
touch_session s token now min_interval_ms = elim (lookup token s.platform) [
  | none ↦ (s, false)
  | some rec ↦ if is_recent rec.last_seen_at now min_interval_ms then (s, false) else (
    record s {
      platform = insert token (record rec { last_seen_at = some now }) s.platform;
      platform_rows = map_rows s.platform_rows;
    },
    true,
  )
]
  where
    map_rows : List PlatformRow → List PlatformRow
    map_rows [] = []
    map_rows (r ∷ rs) =
        (if r.token == token then record r { last_seen_at = some now } else r) ∷ map_rows rs
