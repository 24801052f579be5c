-- ===== src/Sessions/Revoke/Tokens.antt =====
-- The tokens that a revocation collects, and what dropping them leaves.
use aliangboard.Base.{
  String, ◌≡◌, refl, ap, sym, ◌∙◌, Bool, true, false, not, ◌&&◌, ◌||◌, none, List, [], ◌∷◌, ◌==◌,
  eq_iff, eq_refl, if◌then◌else◌, filter, filter-filter, any, contains, lookup, lookup-erase, All,
  arith, Bool-cases, inl, inr,
}
use aliangboard.Policy.Raw.{add, contains-add}
use aliangboard.Sessions.Store.{PlatformRow, SessionRow, Store}
use aliangboard.Sessions.Revoke.{
  revoke_k8s, revoke_tokens, row_tokens, linked_tokens, memory_tokens, is_on,
}

pub session_rows-revoke_tokens :
    (s : Store) (ts : List String)
    → (revoke_tokens s ts).session_rows ≡ filter (λ r. not (contains ts r.token)) s.session_rows
unfolding revoke_tokens
session_rows-revoke_tokens s [] = sym (filter_all s.session_rows)
  where
    filter_all : (rs : List SessionRow) → filter (λ r. not false) rs ≡ rs
    filter_all [] = refl
    filter_all (r ∷ rs) = ap (λ rest. r ∷ rest) (filter_all rs)
session_rows-revoke_tokens s (t ∷ ts) =
    session_rows-revoke_tokens (revoke_k8s t s) ts
    ∙ (filter-filter (λ r. not (contains ts r.token)) (λ r. not (r.token == t)) s.session_rows
        ∙ filter-cong s.session_rows)
  where
    filter-cong :
        (rs : List SessionRow)
        → filter (λ r. not (r.token == t) && not (contains ts r.token)) rs
          ≡ filter (λ r. not (r.token == t || contains ts r.token)) rs
    filter-cong [] = refl
    filter-cong (r ∷ rs) = ground (arith, filter-cong rs)

pub lookup-revoke_tokens :
    (s : Store) (ts : List String) (t : String)
    → lookup t (revoke_tokens s ts).k8s ≡ (if contains ts t then none else lookup t s.k8s)
unfolding revoke_tokens
lookup-revoke_tokens s [] t = refl
lookup-revoke_tokens s (j ∷ ts) t = ground (
  arith,
  lookup-revoke_tokens (revoke_k8s j s) ts t,
  lookup-erase j t s.k8s,
  eq_iff j t,
  eq_iff t j,
)

pub contains-row_tokens :
    (p : SessionRow → Bool) (rs : List SessionRow) (set : List String) (t : String)
    → contains (row_tokens p rs set) t ≡ (contains set t || any (λ r. p r && t == r.token) rs)
contains-row_tokens p [] set t = ground arith
contains-row_tokens p (r ∷ rs) set t = ground (
  arith,
  contains-row_tokens p rs (if p r then add r.token set else set) t,
  contains-add r.token t set,
)

pub contains-linked_tokens :
    (uid : String) (targets : List String) (k8s : List (String × String)) (rs : List PlatformRow)
    (set : List String) (t : String)
    → contains (linked_tokens uid targets k8s rs set) t ≡ (
        contains set t
        || any
            (λ r.
              ((r.user_id == uid && not (r.k8s_token == ""))
                && is_on targets (lookup r.k8s_token k8s))
              && t == r.k8s_token)
            rs)
contains-linked_tokens uid targets k8s [] set t = ground arith
contains-linked_tokens uid targets k8s (r ∷ rs) set t = ground (
  arith,
  contains-linked_tokens uid targets k8s rs
      (if (r.user_id == uid && not (r.k8s_token == "")) && is_on targets (lookup r.k8s_token k8s)
        then add r.k8s_token set
        else set)
      t,
  contains-add r.k8s_token t set,
)

pub contains-memory_tokens :
    (cid : String) (k8s : List (String × String)) (set : List String) (t : String)
    → contains (memory_tokens cid k8s set) t
      ≡ (contains set t || any (λ e. e.1 == cid && t == e.0) k8s)
contains-memory_tokens cid [] set t = ground arith
contains-memory_tokens cid ((k, c) ∷ k8s) set t = ground (
  arith,
  contains-memory_tokens cid k8s (if c == cid then add k set else set) t,
  contains-add k t set,
)

-- Rows that a test picks are deleted where their tokens are among those revoked.
pub rows_deleted :
    {A : Type 0} (name : A → String) (p : A → Bool) (gone : String → Bool) (rs : List A)
    → ((t : String) → any (λ r. p r && t == name r) rs ≡ true → gone t ≡ true)
    → All (λ r. p r ≡ false) (filter (λ r. not (gone (name r))) rs)
rows_deleted name p gone [] h = tt
rows_deleted name p gone (r ∷ rs) h = elim (Bool-cases (gone (name r))) [
  | inl dropped ↦ rw dropped (rows_deleted name p gone rs (λ t e. h t (ground (arith, e))))
  | inr kept ↦ rw kept (
    elim (Bool-cases (p r)) [
      | inl picked ↦ absurd (ground (arith, kept, h (name r) (rw (picked, eq_refl (name r)) refl)))
      | inr passed ↦ passed
    ],
    rows_deleted name p gone rs (λ t e. h t (ground (arith, e))),
  )
]
