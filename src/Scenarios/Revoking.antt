-- ===== src/Scenarios/Revoking.antt =====
-- Revoking sessions at a concrete store.
use aliangboard.Base.{String, ◌≡◌, refl, ◌&&◌, ◌==◌, true, false, none, [], ◌∷◌, lookup, All, any}
use aliangboard.Sessions.Store.{Store}
use aliangboard.Sessions.Revoke.{is_on, revoke_user_cluster_sessions, revoke_cluster_sessions}
use aliangboard.Sessions.Revoke.Revoked.{
  is_owned, is_led_by, revoke_user_cluster_sessions_lem, revoke_cluster_sessions_lem,
}

abbrev linked_store : Store
linked_store = record {
  platform =
      ("t1", record { user_id = "alice"; k8s_token = "k1"; created_at = 1; last_seen_at = none })
      ∷ [];
  k8s = ("k1", "c1") ∷ [];
  platform_rows =
      record { token = "t1"; user_id = "alice"; k8s_token = "k1"; last_seen_at = none } ∷ [];
  session_rows = record { token = "k1"; user_id = "alice"; cluster_id = "c1"; created_at = 1 } ∷ [];
  rotated = [];
}

revoke_user_cluster_sessions_lem_example :
    All
      (λ r. is_owned "alice" ("c1" ∷ []) r ≡ false)
      (revoke_user_cluster_sessions linked_store "alice" ("" ∷ "c1" ∷ [])).0.session_rows
    × ((t : String)
        → any (λ r. is_owned "alice" ("c1" ∷ []) r && t == r.token) linked_store.session_rows ≡ true
        → lookup t (revoke_user_cluster_sessions linked_store "alice" ("" ∷ "c1" ∷ [])).0.k8s
          ≡ none)
    × ((t : String)
        → any (is_led_by "alice" t) linked_store.platform_rows ≡ true
        → is_on
            ("c1" ∷ [])
            (lookup t (revoke_user_cluster_sessions linked_store "alice" ("" ∷ "c1" ∷ [])).0.k8s)
          ≡ false)
revoke_user_cluster_sessions_lem_example =
    revoke_user_cluster_sessions_lem linked_store "alice" ("" ∷ "c1" ∷ [])

revoke_cluster_sessions_lem_example :
    All
      (λ r. (r.cluster_id == "c1") ≡ false)
      (revoke_cluster_sessions linked_store "c1").0.session_rows
    × ((t : String)
        → is_on ("c1" ∷ []) (lookup t (revoke_cluster_sessions linked_store "c1").0.k8s) ≡ false)
revoke_cluster_sessions_lem_example = revoke_cluster_sessions_lem linked_store "c1" refl
