-- ===== src/Sessions/Reaper/Burial.antt =====
-- What becomes of the K8s session of a platform session that the sweep removes.
use aliangboard.Base.{
  ℕ, suc, String, ◌≡◌, refl, ap, ◌∙◌, Bool, true, false, not, Option, none, some, List, [], ◌∷◌,
  ◌++◌, ◌==◌, eq_iff, eq_refl, if◌then◌else◌, filter, find, lookup, erase, lookup-erase, is_some,
  arith, Bool-cases, inl, inr, ◌⊎◌,
}
use mathlib.Core.Option.{some-injective}
use aliangboard.Sessions.Store.{
  Record, SessionRow, Tombstone, Store, remove_session_record, drop_k8s, tombstone_session,
  delete_platform_row, k8s_token_of, user_of, is_known_session_token, is_fresh,
}
use aliangboard.Sessions.Reaper.{is_expired, reap_all, reap_expired_sessions}
use aliangboard.Sessions.Reaper.Removal.{IsMap, platform-remove_session_record}

-- A K8s token that is dropped: no session in memory or in the table, and a tombstone that is fresh.
pub record IsDropped (token : String) (now : ℕ) (s : Store) : Type 0 where
  pub in_memory : lookup token s.k8s ≡ none
  pub in_table : find (λ r. r.token == token) s.session_rows ≡ none
  pub buried : is_fresh (find (λ r. r.token == token) s.rotated) now ≡ true

find-filter_other :
    {A : Type 0} (name : A → String) (j k : String) (rs : List A)
    → find (λ r. name r == k) (filter (λ r. not (name r == j)) rs)
      ≡ (if j == k then none else find (λ r. name r == k) rs)
find-filter_other name j k [] = ground arith
find-filter_other name j k (r ∷ rs) =
    ground (arith, find-filter_other name j k rs, eq_iff (name r) j, eq_iff (name r) k, eq_iff j k)

find_last :
    {A : Type 0} (p : A → Bool) (rs : List A) (x : A)
    → find p (rs ++ (x ∷ []))
      ≡ (if is_some (find p rs) then find p rs else if p x then some x else none)
find_last p [] x = refl
find_last p (r ∷ rs) x = ground (arith, find_last p rs x)

find-tombstone_session :
    (s : Store) (j user_id k : String) (now : ℕ)
    → (j == "") ≡ false
    → find (λ r. r.token == k) (tombstone_session s j user_id now).rotated ≡ (
        if j == k
        then some (record { token = j; user_id = user_id; rotated_at = now })
        else find (λ r. r.token == k) s.rotated)
unfolding tombstone_session
find-tombstone_session s j user_id k now full = rw full (
    ground (
      arith,
      find_last (λ r. r.token == k) (filter (λ r. not (r.token == j)) s.rotated)
          (record { token = j; user_id = user_id; rotated_at = now }),
      find-filter_other (λ (r : Tombstone). r.token) j k s.rotated,
    ))

tombstone_session_else :
    (s : Store) (j user_id : String) (now : ℕ)
    → ((tombstone_session s j user_id now).k8s ≡ s.k8s)
      × ((tombstone_session s j user_id now).session_rows ≡ s.session_rows)
unfolding tombstone_session
tombstone_session_else s j user_id now = elim (Bool-cases (j == "")) [
  | inl blank ↦ rw blank (refl, refl)
  | inr full ↦ rw full (refl, refl)
]

settled :
    {A : Type 0} (b : Bool) (o : Option A)
    → (b ≡ true) ⊎ (o ≡ none)
    → (if b then none else o) ≡ none
settled true o h = refl
settled false o (inl h) = cc
settled false o (inr h) = h

-- The token is not empty and is the one dropped now, or it was dropped before.
abbrev Drops : String → String → ℕ → Store → Type 0
Drops j k now s = (((j == "") ≡ false) × ((j == k) ≡ true)) ⊎ IsDropped k now s

buried_after :
    (j user_id k : String) (now : ℕ) (b : Bool) (o : Option Tombstone)
    → (b ≡ true) ⊎ (is_fresh o now ≡ true)
    → is_fresh
        (if b then some (record { token = j; user_id = user_id; rotated_at = now }) else o)
        now
      ≡ true
buried_after j user_id k now true o h = ground arith
buried_after j user_id k now false o (inl h) = cc
buried_after j user_id k now false o (inr h) = h

-- Dropping a token buries it, and it leaves the tokens that are dropped already as they are.
drop_k8s-IsDropped :
    (j user_id k : String) (now : ℕ) (s : Store)
    → Drops j k now s
    → IsDropped k now (drop_k8s j user_id now s)
unfolding drop_k8s
drop_k8s-IsDropped j user_id k now s h = elim (Bool-cases (j == "")) [
  | inl blank ↦ rw blank (unchanged blank h)
  | inr full ↦
      let cleared = record s { k8s = erase j s.k8s } in
      let (k8s_same, rows_same) = tombstone_session_else cleared j user_id now in
      rw full (record {
        in_memory =
            ap (lookup k) k8s_same
            ∙ (lookup-erase j k s.k8s
                ∙ settled (j == k) (lookup k s.k8s) (because (λ d. d.in_memory) h));
        in_table =
            ap (λ rows. find (λ r. r.token == k) (filter (λ r. not (r.token == j)) rows)) rows_same
            ∙ (find-filter_other (λ (r : SessionRow). r.token) j k s.session_rows
                ∙ settled (j == k) _ (because (λ d. d.in_table) h));
        buried =
            ap (λ o. is_fresh o now) (find-tombstone_session cleared j user_id k now full)
            ∙ buried_after j user_id k now (j == k) _ (because (λ d. d.buried) h);
      })
]
  where
    unchanged : (j == "") ≡ true → Drops j k now s → IsDropped k now s
    unchanged blank (inl (full, same)) = absurd (ground arith)
    unchanged blank (inr d) = d

    because : {P : Type 0} → (IsDropped k now s → P) → Drops j k now s → ((j == k) ≡ true) ⊎ P
    because f (inl (full, same)) = inl same
    because f (inr d) = inr (f d)

remove-IsDropped :
    (now : ℕ) (s : Store) (t k : String)
    → Drops (k8s_token_of (lookup t s.platform)) k now s
    → IsDropped k now (remove_session_record now s t)
unfolding remove_session_record
remove-IsDropped now s t k h =
    drop_k8s-IsDropped (k8s_token_of (lookup t s.platform)) (user_of (lookup t s.platform)) k now
      (delete_platform_row t (record s { platform = erase t s.platform })) (before h)
  where
    before :
        Drops (k8s_token_of (lookup t s.platform)) k now s
        → Drops
            (k8s_token_of (lookup t s.platform))
            k
            now
            (delete_platform_row t (record s { platform = erase t s.platform }))
    before (inl it) = inl it
    before (inr d) =
        inr (record { in_memory = d.in_memory; in_table = d.in_table; buried = d.buried })

still-IsDropped :
    (now ttl_ms : ℕ) (s : Store) (n : ℕ) (recs : List (String × Record)) (k : String)
    → IsDropped k now s
    → IsDropped k now (reap_all now ttl_ms s n recs).0
unfolding reap_all
still-IsDropped now ttl_ms s n [] k d = d
still-IsDropped now ttl_ms s n ((j, rec) ∷ recs) k d =
    elim (Bool-cases (is_expired now ttl_ms rec)) [
      | inl old ↦ rw old (
          still-IsDropped now ttl_ms (remove_session_record now s j) (suc n) recs k
            (remove-IsDropped now s j k (inr d)))
      | inr young ↦ rw young (still-IsDropped now ttl_ms s n recs k d)
    ]

reap_all-IsDropped :
    (now ttl_ms : ℕ) (s : Store) (n : ℕ) (recs : List (String × Record)) (t : String) (rec : Record)
    → IsMap recs
    → lookup t recs ≡ some rec
    → lookup t s.platform ≡ some rec
    → is_expired now ttl_ms rec ≡ true
    → (rec.k8s_token == "") ≡ false
    → IsDropped rec.k8s_token now (reap_all now ttl_ms s n recs).0
unfolding reap_all
reap_all-IsDropped now ttl_ms s n [] t rec distinct found there old full = cc
reap_all-IsDropped now ttl_ms s n ((j, first) ∷ recs) t rec (fresh, distinct) found there old full =
    elim (Bool-cases (j == t)) [
      | inl same ↦
          let first_is : first ≡ rec = some-injective first rec (rw same at found) in
          let it : k8s_token_of (lookup j s.platform) ≡ rec.k8s_token =
            ap k8s_token_of (ap (λ x. lookup x s.platform) ((eq_iff j t).0 same) ∙ there) in
          rw (ap (is_expired now ttl_ms) first_is, old)
            (still-IsDropped now ttl_ms (remove_session_record now s j) (suc n) recs rec.k8s_token
              (remove-IsDropped now s j rec.k8s_token (inl (rw it (full, eq_refl rec.k8s_token)))))
      | inr other ↦
          let later : lookup t recs ≡ some rec = rw other at found in
          elim (Bool-cases (is_expired now ttl_ms first)) [
            | inl gone ↦ rw gone (
                reap_all-IsDropped now ttl_ms (remove_session_record now s j) (suc n) recs t rec
                  distinct later
                  (ap (lookup t) (platform-remove_session_record now s j)
                    ∙ (lookup-erase j t s.platform ∙ rw other there))
                  old full)
            | inr young ↦
                rw young
                  (reap_all-IsDropped now ttl_ms s n recs t rec distinct later there old full)
          ]
    ]

is_known-IsDropped :
    (s : Store) (token : String) (now : ℕ)
    → (token == "") ≡ false
    → IsDropped token now s
    → is_known_session_token s token now ≡ true
unfolding is_known_session_token
is_known-IsDropped s token now full d = rw (full, d.in_table) d.buried

-- The sweep takes the K8s session of each expired session out of memory and out of its table, and
-- leaves its token known, so that the records of its windows can be moved to a new token.
pub reap_expired_sessions-IsDropped :
    (now ttl_ms : ℕ) (s : Store) (t : String) (rec : Record)
    → IsMap s.platform
    → lookup t s.platform ≡ some rec
    → is_expired now ttl_ms rec ≡ true
    → (rec.k8s_token == "") ≡ false
    → IsDropped rec.k8s_token now (reap_expired_sessions now ttl_ms s).0
      × (is_known_session_token (reap_expired_sessions now ttl_ms s).0 rec.k8s_token now ≡ true)
unfolding reap_expired_sessions
reap_expired_sessions-IsDropped now ttl_ms s t rec distinct there old full =
    let d = reap_all-IsDropped now ttl_ms s 0 s.platform t rec distinct there there old full in
    (d, is_known-IsDropped (reap_all now ttl_ms s 0 s.platform).0 rec.k8s_token now full d)
