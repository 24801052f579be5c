-- ===== src/Sessions/Revoke/User.antt =====
-- What revoking the sessions of a user leaves (`revokeUserSessions` of server/session-revoke.mjs).
use aliangboard.Base.{String, Bool, false, not, ◌&&◌, Option, none, some, List, ◌==◌, any}
use aliangboard.Sessions.Store.{Record, PlatformRow, Store}
use aliangboard.Sessions.Revoke.{is_excepted}

-- A session of the user that is not excepted.
abbrev pub is_revoked : String → String → String → Option Record → Bool
is_revoked user_id except t none = false
is_revoked user_id except t (some rec) = rec.user_id == user_id && not (is_excepted except t)

is_deleted : String → List PlatformRow → String → Bool
is_deleted except rs t = any (λ r. not (is_excepted except r.token) && t == r.token) rs

-- The K8s session that a row of those leads to, if any, by its token.
is_linked : String → List PlatformRow → String → Bool
is_linked except rs t =
    any (λ r. not (is_excepted except r.token) && (not (r.k8s_token == "") && t == r.k8s_token)) rs

-- The K8s session of a token, where a row of the user that is not excepted leads to it.
abbrev pub is_led : String → String → List PlatformRow → String → Bool
is_led user_id except rs t =
    any
      (λ r.
        r.user_id == user_id
        && (not (is_excepted except r.token) && (not (r.k8s_token == "") && t == r.k8s_token)))
      rs
