-- ===== src/Access/Gate/Refusals.antt =====
-- When the gate refuses a request, and for what reason; a statement that throws on the way.
use aliangboard.Base.{
  String, ◌≡◌, refl, ◌⊎◌, ◌≢◌, inl, inr, true, false, Option, none, some, ◌==◌, arith, Bool-cases,
}
use aliangboard.Access.Gate.{
  Stmts, Session, Request, Query, thrown, rows, ◌>>=◌, allow, allow_by_role, allow_by_namespace,
  allow_by_assignment, allow_by_level, is_level,
}

-- Some statement of the gate throws on what the session asks it.
pub data Threw (s : Stmts) (session : Session) : Type 0 where
  mode_thrown : s.cluster_mode session.cluster_id ≡ thrown → Threw s session
  user_thrown : s.user session.user_id ≡ thrown → Threw s session
  assignment_thrown : s.assignment session.user_id session.cluster_id ≡ thrown → Threw s session
  grants_thrown : s.grants session.user_id session.cluster_id ≡ thrown → Threw s session

-- When a request is refused for a reason.
pub data Refused (s : Stmts) (session : Session) (r : Request) : String → Type 0 where
  bad_level :
      s.cluster_mode session.cluster_id ≡ rows (some "allowlist")
      → r.level ≢ "view"
      → r.level ≢ "operate"
      → Refused s session r "bad-level"
  no_cluster_level :
      s.cluster_mode session.cluster_id ≡ rows (some "allowlist")
      → is_level r.level ≡ true
      → r.namespace ≡ none
      → allow s session none r.level ≡ rows false
      → Refused s session r "cluster-level-op"
  ns_denied :
      (ns : String)
      → s.cluster_mode session.cluster_id ≡ rows (some "allowlist")
      → is_level r.level ≡ true
      → r.namespace ≡ some ns
      → allow s session (some ns) r.level ≡ rows false
      → Refused s session r "ns-denied"
  statement_threw : Threw s session → Refused s session r "db-error"

>>=-thrown {ℓ κ} :
    {A : Type ℓ} {B : Type κ} (q : Query A) (f : A → Query B)
    → (q >>= f) ≡ thrown
    → (q ≡ thrown) ⊎ ((a : A) × (f a ≡ thrown))
>>=-thrown thrown f h = inl refl
>>=-thrown (rows a) f h = inr (a, h)

allow_by_role-Threw :
    (s : Stmts) (session : Session) (ns : Option String) (level : String) (role : Option String)
    → allow_by_role s session ns level role ≡ thrown
    → Threw s session
unfolding allow_by_role allow_by_namespace allow_by_assignment allow_by_level
allow_by_role-Threw s session ns level none h = cc
allow_by_role-Threw s session none level (some role) h = elim (Bool-cases (role == "admin")) [
  | inl admin ↦ ground (arith, h, admin)
  | inr plain ↦ ground (arith, h, plain)
]
allow_by_role-Threw s session (some ns) level (some role) h = elim (Bool-cases (role == "admin")) [
  | inl admin ↦ ground (arith, h, admin)
  | inr plain ↦
      elim (>>=-thrown (s.assignment session.user_id session.cluster_id) _ (rw plain at h)) [
        | inl threw ↦ assignment_thrown threw
        | inr (true, g) ↦ elim (>>=-thrown (s.grants session.user_id session.cluster_id) _ g) [
          | inl threw ↦ grants_thrown threw
          | inr (gs, e) ↦ cc
        ]
        | inr (false, g) ↦ cc
      ]
]

pub allow-Threw :
    (s : Stmts) (session : Session) (ns : Option String) (level : String)
    → allow s session ns level ≡ thrown
    → Threw s session
unfolding allow
allow-Threw s session ns level h = elim (>>=-thrown (s.user session.user_id) _ h) [
  | inl threw ↦ user_thrown threw
  | inr (role, g) ↦ allow_by_role-Threw s session ns level role g
]
