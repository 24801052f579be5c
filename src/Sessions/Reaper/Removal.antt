-- ===== src/Sessions/Reaper/Removal.antt =====
-- What the removal of a session and the sweep of expired sessions leave.
use aliangboard.Base.{
  ℕ, suc, String, ◌≡◌, refl, ap, ◌∙◌, Bool, false, Option, none, some, List, [], ◌∷◌, ◌==◌, eq_iff,
  if◌then◌else◌, lookup, erase, lookup-erase, arith, Bool-cases, inl, inr,
}
use aliangboard.Sessions.Store.{
  Record, Store, remove_session_record, drop_k8s, tombstone_session, delete_platform_row,
  k8s_token_of, user_of,
}
use aliangboard.Sessions.Reaper.{is_expired, reap_all, reap_expired_sessions}

-- A map has each key once.
abbrev pub IsMap {ℓ} : {V : Type ℓ} → List (String × V) → Type ℓ
IsMap [] = Unit
IsMap ((k, v) ∷ m) = (lookup k m ≡ none) × IsMap m

drop_k8s-platform :
    (token user_id : String) (now : ℕ) (s : Store)
    → (drop_k8s token user_id now s).platform ≡ s.platform
unfolding drop_k8s tombstone_session
drop_k8s-platform token user_id now s = elim (Bool-cases (token == "")) [
  | inl blank ↦ rw blank refl
  | inr full ↦ rw full refl
]

pub platform-remove_session_record :
    (now : ℕ) (s : Store) (token : String)
    → (remove_session_record now s token).platform ≡ erase token s.platform
unfolding remove_session_record
platform-remove_session_record now s token =
    drop_k8s-platform (k8s_token_of (lookup token s.platform)) (user_of (lookup token s.platform))
      now (delete_platform_row token (record s { platform = erase token s.platform }))

-- The session of a token, if it has expired.
abbrev pub is_gone : ℕ → ℕ → Option Record → Bool
is_gone now ttl_ms none = false
is_gone now ttl_ms (some rec) = is_expired now ttl_ms rec

lookup-reap_all :
    (now ttl_ms : ℕ) (s : Store) (n : ℕ) (recs : List (String × Record)) (t : String)
    → IsMap recs
    → lookup t (reap_all now ttl_ms s n recs).0.platform
      ≡ (if is_gone now ttl_ms (lookup t recs) then none else lookup t s.platform)
unfolding reap_all
lookup-reap_all now ttl_ms s n [] t distinct = refl
lookup-reap_all now ttl_ms s n ((k, rec) ∷ recs) t (fresh, distinct) =
    elim (Bool-cases (is_expired now ttl_ms rec)) [
      | inl old ↦
          let rest =
            lookup-reap_all now ttl_ms (remove_session_record now s k) (suc n) recs t distinct in
          let now_there =
            ap (lookup t) (platform-remove_session_record now s k) ∙ lookup-erase k t s.platform in
          ground (arith, rest, now_there, eq_iff k t)
      | inr young ↦
          let rest = lookup-reap_all now ttl_ms s n recs t distinct in
          ground (arith, rest, eq_iff k t, ap (λ x. lookup x recs))
    ]

-- After the sweep the sessions in memory are those that were there and have not expired.
pub lookup-reap_expired_sessions :
    (now ttl_ms : ℕ) (s : Store) (t : String)
    → IsMap s.platform
    → lookup t (reap_expired_sessions now ttl_ms s).0.platform
      ≡ (if is_gone now ttl_ms (lookup t s.platform) then none else lookup t s.platform)
unfolding reap_expired_sessions
lookup-reap_expired_sessions now ttl_ms s t distinct =
    lookup-reap_all now ttl_ms s 0 s.platform t distinct
