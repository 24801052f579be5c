-- ===== src/Scenarios/Reaping.antt =====
-- The cap on sessions and the sweep of expired sessions at a concrete store.
use aliangboard.Base.{
  ℕ, ◌+◌, ◌≤◌, min, String, ◌≡◌, refl, inl, true, none, some, [], ◌∷◌, lookup, if◌then◌else◌, arith,
}
use aliangboard.Sessions.Store.{
  Record, Store, is_known_session_token, remove_session_record, drop_k8s, tombstone_session,
}
use aliangboard.Sessions.Reaper.{enforce_session_cap, reap_expired_sessions, evict}
use aliangboard.Sessions.Reaper.Removal.{is_gone, lookup-reap_expired_sessions}
use aliangboard.Sessions.Reaper.Burial.{IsDropped, reap_expired_sessions-IsDropped}
use aliangboard.Sessions.Reaper.Count.{
  count, count-enforce_session_cap, lookup-enforce_session_cap, enforce_session_cap-order,
}

abbrev login : String → ℕ → Record
login k8s_token seen = record {
  user_id = "alice";
  k8s_token = k8s_token;
  created_at = 1;
  last_seen_at = some seen;
}

abbrev store : Store
store = record {
  platform = ("t1", login "k1" 30) ∷ ("t2", login "" 10) ∷ ("t3", login "" 20) ∷ [];
  k8s = ("k1", "c1") ∷ [];
  platform_rows = [];
  session_rows = record { token = "k1"; user_id = "alice"; cluster_id = "c1"; created_at = 1 } ∷ [];
  rotated = [];
}

count-enforce_session_cap_example :
    (count "alice" (enforce_session_cap "alice" 2 "t1" 100 store).0.platform
      ≡ min (count "alice" store.platform) 2)
    × (count "alice" (enforce_session_cap "alice" 2 "t1" 100 store).0.platform
          + (enforce_session_cap "alice" 2 "t1" 100 store).1
        ≡ count "alice" store.platform)
count-enforce_session_cap_example =
    count-enforce_session_cap "alice" 2 "t1" 100 store (refl, (refl, (refl, tt))) (omega arith)

lookup-enforce_session_cap_example :
    lookup "t1" (enforce_session_cap "alice" 2 "t1" 100 store).0.platform
    ≡ lookup "t1" store.platform
lookup-enforce_session_cap_example =
    lookup-enforce_session_cap "alice" 2 "t1" 100 store (refl, (refl, (refl, tt))) "t1" (inl refl)

enforce_session_cap-order_example : 10 ≤ 20
unfolding enforce_session_cap evict remove_session_record drop_k8s tombstone_session
enforce_session_cap-order_example =
    enforce_session_cap-order "alice" 2 "t1" 100 store (refl, (refl, (refl, tt))) "t2" "t3" 10 20
      refl refl refl refl refl

lookup-reap_expired_sessions_example :
    lookup "t1" (reap_expired_sessions 100 50 store).0.platform
    ≡ (if is_gone 100 50 (lookup "t1" store.platform) then none else lookup "t1" store.platform)
lookup-reap_expired_sessions_example =
    lookup-reap_expired_sessions 100 50 store "t1" (refl, (refl, (refl, tt)))

reap_expired_sessions-IsDropped_example :
    IsDropped "k1" 100 (reap_expired_sessions 100 50 store).0
    × (is_known_session_token (reap_expired_sessions 100 50 store).0 "k1" 100 ≡ true)
reap_expired_sessions-IsDropped_example =
    reap_expired_sessions-IsDropped 100 50 store "t1" (login "k1" 30) (refl, (refl, (refl, tt)))
      refl refl refl
