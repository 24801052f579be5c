-- ===== src/Access/Gate/Records.antt =====
-- When the gate lets a request through, whatever its statements do, and what it records.
use aliangboard.Base.{
  String, ◌≡◌, refl, ap, ◌∙◌, ◌⊎◌, ◌≢◌, inl, inr, Bool, true, false, Option, none, some, List, [],
  ◌∷◌, ◌==◌, eq_iff, if◌then◌else◌, all, length, arith, Bool-cases, Option-cases, eq_refl, if-elim,
  if-split,
}
use aliangboard.Access.Store.{Grant}
use aliangboard.Access.Levels.{is_enough, best_level}
use aliangboard.Access.Gate.{
  Stmts, Session, Request, Query, thrown, rows, ◌>>=◌, Audit, denial, deny, allow, allow_by_role,
  allow_by_namespace, allow_by_assignment, allow_by_level, is_allowlist, is_level, denial_reason,
  verdict, enforce, try_gate, or_db_error, gate_k8s_session, gate_watch_resources,
  watched_namespace,
}
use aliangboard.Access.Gate.Refusals.{
  Threw, mode_thrown, Refused, bad_level, no_cluster_level, ns_denied, statement_threw, allow-Threw,
}

-- The four ways through the gate.
pub data Passes (s : Stmts) (session : Session) (r : Request) : Type 0 where
  legacy : session.user_id ≡ "" → Passes s session r
  not_enforced :
      (mode : Option String)
      → s.cluster_mode session.cluster_id ≡ rows mode
      → mode ≢ some "allowlist"
      → Passes s session r
  by_admin :
      (mode : Option String)
      → s.cluster_mode session.cluster_id ≡ rows mode
      → (r.level ≡ "view") ⊎ (r.level ≡ "operate")
      → s.user session.user_id ≡ rows (some "admin")
      → Passes s session r
  by_grant :
      (mode : Option String) (role ns : String) (gs : List Grant)
      → s.cluster_mode session.cluster_id ≡ rows mode
      → (r.level ≡ "view") ⊎ (r.level ≡ "operate")
      → s.user session.user_id ≡ rows (some role)
      → r.namespace ≡ some ns
      → s.assignment session.user_id session.cluster_id ≡ rows true
      → s.grants session.user_id session.cluster_id ≡ rows gs
      → is_enough (best_level ns none gs) r.level ≡ true
      → Passes s session r

Query-cases {ℓ} : {A : Type ℓ} (q : Query A) → (q ≡ thrown) ⊎ ((a : A) × (q ≡ rows a))
Query-cases thrown = inl refl
Query-cases (rows a) = inr (a, refl)

module _ (s : Stmts) (session : Session) (r : Request) where
  abbrev pub IsRecorded : Bool × List Audit → Type 0
  IsRecorded out =
      ((out.0 ≡ true) × (out.1 ≡ []))
      ⊎ ((out.0 ≡ false)
          × ((reason : String) × Refused s session r reason
              × (out.1 ≡ denial session r reason ∷ [])))

  deny-IsRecorded :
      (reason : String) → Refused s session r reason → IsRecorded (deny session r reason)
  deny-IsRecorded reason h = inr (refl, (reason, h, refl))

  verdict-IsRecorded :
      (ok : Bool)
      → s.cluster_mode session.cluster_id ≡ rows (some "allowlist")
      → is_level r.level ≡ true
      → allow s session r.namespace r.level ≡ rows ok
      → IsRecorded (verdict session r ok)
  verdict-IsRecorded true mode level asked = inl (refl, refl)
  verdict-IsRecorded false mode level asked =
      deny-IsRecorded (denial_reason r.namespace) (by_namespace r.namespace refl asked)
    where
      by_namespace :
          (ns : Option String)
          → r.namespace ≡ ns
          → allow s session ns r.level ≡ rows false
          → Refused s session r (denial_reason ns)
      by_namespace none nowhere refusal = no_cluster_level mode level nowhere refusal
      by_namespace (some ns) here refusal = ns_denied ns mode level here refusal

  -- What the body of the gate gives, or a statement that threw.
  abbrev IsRecordedIfAny : Query (Bool × List Audit) → Type 0
  IsRecordedIfAny thrown = Threw s session
  IsRecordedIfAny (rows out) = IsRecorded out

  bind-IsRecordedIfAny {ℓ} :
      {A : Type ℓ} (q : Query A) (f : A → Query (Bool × List Audit))
      → (q ≡ thrown → Threw s session)
      → ((a : A) → q ≡ rows a → IsRecordedIfAny (f a))
      → IsRecordedIfAny (q >>= f)
  bind-IsRecordedIfAny thrown f threw h = threw refl
  bind-IsRecordedIfAny (rows a) f threw h = h a refl

  or_db_error-IsRecorded :
      (q : Query (Bool × List Audit)) → IsRecordedIfAny q → IsRecorded (or_db_error session r q)
  or_db_error-IsRecorded thrown h = deny-IsRecorded "db-error" (statement_threw h)
  or_db_error-IsRecorded (rows out) h = h

  enforce-IsRecorded :
      s.cluster_mode session.cluster_id ≡ rows (some "allowlist")
      → IsRecordedIfAny (enforce s session r)
  unfolding enforce
  enforce-IsRecorded mode =
      if-split IsRecordedIfAny (is_level r.level)
        (λ level.
          bind-IsRecordedIfAny (allow s session r.namespace r.level) _
            (allow-Threw s session r.namespace r.level)
            (λ ok asked. verdict-IsRecorded ok mode level asked))
        (λ level. deny-IsRecorded "bad-level" (
          bad_level mode (λ e. ground (arith, level, ap is_level e))
            (λ e. ground (arith, level, ap is_level e))))

  by_mode-IsRecorded :
      (mode : Option String)
      → s.cluster_mode session.cluster_id ≡ rows mode
      → IsRecordedIfAny (if is_allowlist mode then enforce s session r else rows (true, []))
  by_mode-IsRecorded none found = inl (refl, refl)
  by_mode-IsRecorded (some mode) found =
      if-split IsRecordedIfAny (mode == "allowlist")
        (λ listed.
          enforce-IsRecorded (found ∙ ap (λ m. rows (some m)) ((eq_iff mode "allowlist").0 listed)))
        (λ other. inl (refl, refl))

  -- Whatever the statements answer or throw, a request that passes is not recorded, and one that is
  -- refused is recorded exactly once, with the session's owner and cluster, the namespace, method
  -- and path asked for, and its reason: `bad-level` for a level that is not one of the two;
  -- `cluster-level-op` where `allow` says no to a request without a namespace, and `ns-denied` where it
  -- does to one with a namespace; `db-error` where one of the four statements throws.
  pub gate_k8s_session-IsRecorded : IsRecorded (gate_k8s_session s session r)
  unfolding gate_k8s_session try_gate
  gate_k8s_session-IsRecorded = if-elim IsRecorded (session.user_id == "") (inl (refl, refl)) (
      or_db_error-IsRecorded (try_gate s session r)
        (bind-IsRecordedIfAny (s.cluster_mode session.cluster_id) _ mode_thrown by_mode-IsRecorded))

>>=-eq-rows {ℓ κ} :
    {A : Type ℓ} {B : Type κ} (q : Query A) (f : A → Query B) {b : B}
    → (q >>= f) ≡ rows b
    → (a : A) × (q ≡ rows a) × (f a ≡ rows b)
>>=-eq-rows thrown f h = cc
>>=-eq-rows (rows a) f h = (a, refl, h)

module _ (s : Stmts) (session : Session) (r : Request) (mode : Option String)
    (found : s.cluster_mode session.cluster_id ≡ rows mode)
    (level : (r.level ≡ "view") ⊎ (r.level ≡ "operate")) where
  assignment-Passes :
      (role ns : String)
      → s.user session.user_id ≡ rows (some role)
      → r.namespace ≡ some ns
      → allow_by_assignment s session ns r.level ≡ rows true
      → Passes s session r
  unfolding allow_by_assignment allow_by_level
  assignment-Passes role ns u asked h =
      let (assigned, a, h') = >>=-eq-rows (s.assignment session.user_id session.cluster_id) _ h in
      elim (Bool-cases assigned) [
        | inl is_in ↦
            let (gs, g, enough) =
              >>=-eq-rows (s.grants session.user_id session.cluster_id)
                (λ gs. rows (is_enough (best_level ns none gs) r.level)) (rw is_in at h') in
            by_grant mode role ns gs found level u asked (a ∙ ap rows is_in) g (ground arith)
        | inr out ↦ ground arith
      ]

  role-Passes :
      (role : Option String)
      → s.user session.user_id ≡ rows role
      → allow_by_role s session r.namespace r.level role ≡ rows true
      → Passes s session r
  unfolding allow_by_role allow_by_namespace
  role-Passes none u h = ground arith
  role-Passes (some role) u h = elim (Bool-cases (role == "admin")) [
    | inl admin ↦
        by_admin mode found level (u ∙ ap (λ x. rows (some x)) ((eq_iff role "admin").0 admin))
    | inr plain ↦ elim (Option-cases r.namespace) [
      | inl cluster_level ↦ ground arith
      | inr (ns, asked) ↦ assignment-Passes role ns u asked (ground arith)
    ]
  ]

  allow-Passes : allow s session r.namespace r.level ≡ rows true → Passes s session r
  unfolding allow
  allow-Passes h =
      let (role, u, h') = >>=-eq-rows (s.user session.user_id) _ h in role-Passes role u h'

module _ (s : Stmts) (session : Session) (r : Request) where
  -- A request passes only in one of four ways: the session has no owner; the cluster was read and is
  -- not in allowlist mode; or it was read, the level is one of the two, and the owner was read as an
  -- active administrator, or as an active user with an assignment and with grants whose best level on
  -- the namespace is enough. So a request about the cluster itself passes for no plain user of an
  -- allowlist cluster, and a statement that throws on the way lets nothing through.
  pub gate_k8s_session-Passes : (gate_k8s_session s session r).0 ≡ true → Passes s session r
  unfolding gate_k8s_session try_gate enforce
  gate_k8s_session-Passes h = elim (Bool-cases (session.user_id == "")) [
    | inl nobody ↦ legacy ((eq_iff session.user_id "").0 nobody)
    | inr named ↦ elim (Query-cases (s.cluster_mode session.cluster_id)) [
      | inl failed ↦ ground arith
      | inr (mode, found) ↦ elim (Bool-cases (is_allowlist mode)) [
        | inr other ↦ not_enforced mode found (λ e. ground (arith, eq_refl "allowlist"))
        | inl listed ↦ elim (Bool-cases (is_level r.level)) [
          | inr bad ↦ ground arith
          | inl level ↦
              allow-Passes s session r mode found
                (ground (arith, eq_iff r.level "view", eq_iff r.level "operate"))
                (allowed (allow s session r.namespace r.level) (ground arith))
        ]
      ]
    ]
  ]
    where
      allowed :
          (q : Query Bool)
          → (or_db_error session r (q >>= λ ok. rows (verdict session r ok))).0 ≡ true
          → q ≡ rows true
      allowed thrown e = cc
      allowed (rows true) e = refl
      allowed (rows false) e = cc

-- A stream of watched paths passes exactly when each of them passes on its own, and whatever the
-- statements do, a refused one leaves exactly one record and one that passes leaves none.
pub gate_watch_resources_lem :
    (s : Stmts) (session : Session) (paths : List String)
    → let ask = λ (path : String). gate_k8s_session s session (record {
      namespace = watched_namespace path;
      level = "view";
      path = some path;
      method = some "GET";
    }) in
      let out = gate_watch_resources s session paths in
      (out.0 ≡ all (λ path. (ask path).0) paths) × (length out.1 ≡ (if out.0 then 0 else 1))
unfolding gate_watch_resources
gate_watch_resources_lem s session [] = (refl, refl)
gate_watch_resources_lem s session (path ∷ paths) =
    let ask : Request = record {
      namespace = watched_namespace path;
      level = "view";
      path = some path;
      method = some "GET";
    } in
    let ih = gate_watch_resources_lem s session paths in
    elim (gate_k8s_session-IsRecorded s session ask) [
      | inl (passed, quiet) ↦ rw (passed, quiet) (ih.0, ih.1)
      | inr (refused, (reason, known, logged)) ↦ rw (refused, logged) (refl, refl)
    ]
