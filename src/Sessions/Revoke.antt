-- ===== src/Sessions/Revoke.antt =====
-- server/session-revoke.mjs: revoking the sessions of a user, of a user on clusters, and of a cluster.
pub mod Tokens
pub mod Revoked
pub mod User
use aliangboard.Base.{
  ℕ, suc, String, Bool, true, false, not, ◌&&◌, ◌||◌, Option, none, some, List, [], ◌∷◌, ◌++◌, ◌==◌,
  if◌then◌else◌, filter, length, lookup, erase, contains,
}
use aliangboard.Policy.Raw.{add}
use aliangboard.Sessions.Store.{
  Record, PlatformRow, SessionRow, Store, delete_platform_row, delete_session_row,
}

-- `exceptToken && token === exceptToken`
abbrev pub is_excepted : String → String → Bool
is_excepted except token = not (except == "") && token == except

abbrev pub forget_k8s : String → Store → Store
forget_k8s token s =
    if token == "" then s else delete_session_row token (record s { k8s = erase token s.k8s })

unfoldable pub revoke_rows : String → Store → ℕ → List PlatformRow → Store × ℕ
revoke_rows except s revoked [] = (s, revoked)
revoke_rows except s revoked (r ∷ rs) =
    if is_excepted except r.token
    then revoke_rows except s revoked rs
    else revoke_rows except (forget_k8s r.k8s_token (delete_platform_row r.token s)) (suc revoked)
        rs

-- `for (const [tok, s] of Array.from(platformSessions)) if (…) platformSessions.delete(tok)`
unfoldable pub forget_user :
    String → String → List (String × Record) → List (String × Record) → List (String × Record)
forget_user user_id except m [] = m
forget_user user_id except m ((token, rec) ∷ recs) =
    forget_user user_id except
      (if rec.user_id == user_id && not (is_excepted except token) then erase token m else m) recs

unfoldable pub revoke_user_sessions : Store → String → String → Store × ℕ
revoke_user_sessions s user_id except =
    let (after, revoked) =
      revoke_rows except s 0 (filter (λ r. r.user_id == user_id) s.platform_rows) in
    (record after { platform = forget_user user_id except after.platform after.platform }, revoked)

-- `UPDATE platform_sessions SET k8sSessionToken=NULL WHERE k8sSessionToken=?`
abbrev pub unlink_row : String → PlatformRow → PlatformRow
unlink_row token r = if r.k8s_token == token then record r { k8s_token = "" } else r

abbrev pub unlink_rows : String → List PlatformRow → List PlatformRow
unlink_rows token [] = []
unlink_rows token (r ∷ rs) = unlink_row token r ∷ unlink_rows token rs

-- `for (const s of platformSessions.values()) if (…) s.k8sSessionToken = null`
abbrev pub unlink_record : String → Record → Record
unlink_record token rec = if rec.k8s_token == token then record rec { k8s_token = "" } else rec

abbrev pub unlink_records : String → List (String × Record) → List (String × Record)
unlink_records token [] = []
unlink_records token ((t, rec) ∷ recs) = (t, unlink_record token rec) ∷ unlink_records token recs

abbrev pub revoke_k8s : String → Store → Store
revoke_k8s token s = record (delete_session_row token s) {
  k8s = erase token s.k8s;
  platform_rows = unlink_rows token s.platform_rows;
  platform = unlink_records token s.platform;
}

unfoldable pub revoke_tokens : Store → List String → Store
revoke_tokens s [] = s
revoke_tokens s (t ∷ ts) = revoke_tokens (revoke_k8s t s) ts

-- The tokens of rows that a test picks, as a `Set`.
abbrev pub row_tokens : (SessionRow → Bool) → List SessionRow → List String → List String
row_tokens p [] set = set
row_tokens p (r ∷ rs) set = row_tokens p rs (if p r then add r.token set else set)

-- The tokens of the user's platform sessions whose K8s session is on one of the clusters.
abbrev pub is_on : List String → Option String → Bool
is_on targets none = false
is_on targets (some cluster_id) = contains targets cluster_id

abbrev pub linked_tokens :
    String → List String → List (String × String) → List PlatformRow → List String → List String
linked_tokens user_id targets k8s [] set = set
linked_tokens user_id targets k8s (r ∷ rs) set = linked_tokens user_id targets k8s rs (
    if (r.user_id == user_id && not (r.k8s_token == "")) && is_on targets (lookup r.k8s_token k8s)
    then add r.k8s_token set
    else set)

unfoldable pub revoke_user_cluster_sessions : Store → String → List String → Store × ℕ
revoke_user_cluster_sessions s user_id cluster_ids =
    let targets = filter (λ c. not (c == "")) cluster_ids in
    if contains_none targets
    then (s, 0)
    else let removed = linked_tokens user_id targets s.k8s s.platform_rows (
        row_tokens (λ r. r.user_id == user_id && contains targets r.cluster_id) s.session_rows
          []) in
      (revoke_tokens s removed, length removed)
  where
    contains_none : List String → Bool
    contains_none [] = true
    contains_none (_ ∷ _) = false

abbrev pub memory_tokens : String → List (String × String) → List String → List String
memory_tokens cluster_id [] set = set
memory_tokens cluster_id ((token, c) ∷ k8s) set =
    memory_tokens cluster_id k8s (if c == cluster_id then add token set else set)

unfoldable pub revoke_cluster_sessions : Store → String → Store × ℕ
revoke_cluster_sessions s cluster_id =
    if cluster_id == ""
    then (s, 0)
    else let removed =
        memory_tokens cluster_id s.k8s
          (row_tokens (λ r. r.cluster_id == cluster_id) s.session_rows []) in
      (revoke_tokens s removed, length removed)
