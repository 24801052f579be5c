-- ===== src/Sessions/Revoke/Revoked.antt =====
-- What revoking leaves: no session of a user on the clusters, and none on a cluster that is deleted.
use aliangboard.Base.{
  String, ◌≡◌, refl, ap, sym, ◌∙◌, Bool, true, false, not, ◌&&◌, ◌||◌, Option, none, some, List, [],
  ◌∷◌, ◌==◌, eq_iff, subst, if◌then◌else◌, filter, any, contains, lookup, All, arith, Bool-cases,
  inl, inr, ◌⊎◌, All-of,
}
use aliangboard.Sessions.Store.{PlatformRow, SessionRow, Store}
use aliangboard.Sessions.Revoke.{
  row_tokens, linked_tokens, memory_tokens, is_on, revoke_user_cluster_sessions,
  revoke_cluster_sessions,
}
use aliangboard.Sessions.Revoke.Tokens.{
  session_rows-revoke_tokens, lookup-revoke_tokens, contains-row_tokens, contains-linked_tokens,
  contains-memory_tokens, rows_deleted,
}

any-lookup :
    (cid : String) (k8s : List (String × String)) (t : String)
    → is_on (cid ∷ []) (lookup t k8s) ≡ true
    → any (λ e. e.1 == cid && t == e.0) k8s ≡ true
any-lookup cid [] t h = cc
any-lookup cid ((k, c) ∷ k8s) t h =
    ground (arith, any-lookup cid k8s t, eq_iff k t, eq_iff t k, eq_iff c cid, eq_iff cid c)

off_after :
    (targets : List String) (b : Bool) (o : Option String)
    → (is_on targets o ≡ true → b ≡ true)
    → is_on targets (if b then none else o) ≡ false
off_after targets true o h = refl
off_after targets false o h = ground (arith, h)

gone_after : (b : Bool) (o : Option String) → b ≡ true → (if b then none else o) ≡ none
gone_after true o h = refl
gone_after false o h = absurd (ground arith)

any_linked :
    (uid : String) (targets : List String) (k8s : List (String × String)) (rs : List PlatformRow)
    (t : String)
    → any (λ r. (r.user_id == uid && not (r.k8s_token == "")) && t == r.k8s_token) rs ≡ true
    → is_on targets (lookup t k8s) ≡ true
    → any
        (λ r.
          ((r.user_id == uid && not (r.k8s_token == "")) && is_on targets (lookup r.k8s_token k8s))
          && t == r.k8s_token)
        rs
      ≡ true
any_linked uid targets k8s [] t led on = cc
any_linked uid targets k8s (r ∷ rs) t led on = elim (Bool-cases (t == r.k8s_token)) [
  | inl same ↦ ground (
    arith,
    led,
    on,
    same,
    any_linked uid targets k8s rs t,
    ap (λ x. is_on targets (lookup x k8s)) ((eq_iff t r.k8s_token).0 same),
  )
  | inr other ↦ ground (arith, led, other, any_linked uid targets k8s rs t)
]

-- After a cluster's sessions are revoked, no row of `sessions` is on the cluster, and no session in
-- memory is.
pub revoke_cluster_sessions_lem :
    (s : Store) (cid : String)
    → (cid == "") ≡ false
    → All (λ r. (r.cluster_id == cid) ≡ false) (revoke_cluster_sessions s cid).0.session_rows
      × ((t : String) → is_on (cid ∷ []) (lookup t (revoke_cluster_sessions s cid).0.k8s) ≡ false)
unfolding revoke_cluster_sessions
revoke_cluster_sessions_lem s cid full =
    let direct = row_tokens (λ r. r.cluster_id == cid) s.session_rows [] in
    let removed = memory_tokens cid s.k8s direct in
    let held = λ (t : String).
      contains-memory_tokens cid s.k8s direct t
      ∙ ap (λ b. b || any (λ e. e.1 == cid && t == e.0) s.k8s)
          (contains-row_tokens (λ r. r.cluster_id == cid) s.session_rows [] t) in
    rw full (
      subst (All (λ r. (r.cluster_id == cid) ≡ false)) (sym (session_rows-revoke_tokens s removed))
          (rows_deleted (λ (r : SessionRow). r.token) (λ r. r.cluster_id == cid) (contains removed)
            s.session_rows (λ t e. held t ∙ rw e refl)),
      λ t.
          ap (is_on (cid ∷ [])) (lookup-revoke_tokens s removed t)
          ∙ off_after (cid ∷ []) (contains removed t) (lookup t s.k8s)
              (λ on. held t ∙ rw (any-lookup cid s.k8s t on) (ground arith)),
    )

abbrev pub targets_of : List String → List String
targets_of cluster_ids = filter (λ c. not (c == "")) cluster_ids

-- A row of the user in `sessions` on one of the clusters, by its columns.
abbrev pub is_owned : String → List String → SessionRow → Bool
is_owned user_id targets r = r.user_id == user_id && contains targets r.cluster_id

-- A platform session of the user that leads to the K8s session of the token.
abbrev pub is_led_by : String → String → PlatformRow → Bool
is_led_by user_id t r = (r.user_id == user_id && not (r.k8s_token == "")) && t == r.k8s_token

list_cases : {A : Type 0} (xs : List A) → (xs ≡ []) ⊎ ((x : A) × (rest : List A) × (xs ≡ x ∷ rest))
list_cases [] = inl refl
list_cases (x ∷ xs) = inr (x, xs, refl)

on_none : (o : Option String) → is_on [] o ≡ false
on_none none = refl
on_none (some c) = refl

none_owned :
    (uid t : String) (rs : List SessionRow)
    → any (λ r. is_owned uid [] r && t == r.token) rs ≡ false
none_owned uid t [] = refl
none_owned uid t (r ∷ rs) = ground (arith, none_owned uid t rs)

-- After a user's sessions on some clusters are revoked (empty ids among them are passed over), no row of
-- `sessions` has the user on one of them; every K8s session that such a row named is gone from
-- memory; and no K8s session that a platform session of the user led to is on one of them in memory.
pub revoke_user_cluster_sessions_lem :
    (s : Store) (uid : String) (cs : List String)
    → All
        (λ r. is_owned uid (targets_of cs) r ≡ false)
        (revoke_user_cluster_sessions s uid cs).0.session_rows
      × ((t : String)
          → any (λ r. is_owned uid (targets_of cs) r && t == r.token) s.session_rows ≡ true
          → lookup t (revoke_user_cluster_sessions s uid cs).0.k8s ≡ none)
      × ((t : String)
          → any (is_led_by uid t) s.platform_rows ≡ true
          → is_on (targets_of cs) (lookup t (revoke_user_cluster_sessions s uid cs).0.k8s) ≡ false)
unfolding revoke_user_cluster_sessions
revoke_user_cluster_sessions_lem s uid cs = elim (list_cases (targets_of cs)) [
  | inl empty ↦ rw empty (
    All-of _ (λ r. ground arith) s.session_rows,
    λ t owned. absurd (ground (arith, owned, none_owned uid t s.session_rows)),
    λ t led. on_none (lookup t s.k8s),
  )
  | inr (c, rest, full) ↦
      let targets = c ∷ rest in
      let p = is_owned uid targets in
      let direct = row_tokens p s.session_rows [] in
      let removed = linked_tokens uid targets s.k8s s.platform_rows direct in
      let held = λ (t : String).
        contains-linked_tokens uid targets s.k8s s.platform_rows direct t
        ∙ ap
            (λ b.
              b
              || any
                  (λ r.
                    ((r.user_id == uid && not (r.k8s_token == ""))
                      && is_on targets (lookup r.k8s_token s.k8s))
                    && t == r.k8s_token)
                  s.platform_rows)
            (contains-row_tokens p s.session_rows [] t) in
      rw full (
        subst (All (λ r. p r ≡ false)) (sym (session_rows-revoke_tokens s removed)) (
            rows_deleted (λ (r : SessionRow). r.token) p (contains removed) s.session_rows
              (λ t e. held t ∙ rw e refl)),
        λ t owned.
            lookup-revoke_tokens s removed t
            ∙ gone_after (contains removed t) (lookup t s.k8s) (held t ∙ rw owned refl),
        λ t led.
            ap (is_on targets) (lookup-revoke_tokens s removed t)
            ∙ off_after targets (contains removed t) (lookup t s.k8s) (λ on.
              held t ∙ rw (any_linked uid targets s.k8s s.platform_rows t led on) (ground arith)),
      )
]
