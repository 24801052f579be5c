-- ===== src/Access/Levels.antt =====
-- The two levels of access and the level that a request needs (server/authz.mjs).
use aliangboard.Base.{
  ℕ, ◌≡◌, refl, ◌⊎◌, String, Bool, true, false, not, ◌&&◌, ◌||◌, Option, none, some, List, [], ◌∷◌,
  ◌==◌, ltb, leb, if◌then◌else◌, contains, arith, inl, inr, Bool-cases,
}
use aliangboard.Access.Store.{Grant}

-- `LEVEL_RANK[level]`; `none` is `undefined`.
abbrev pub level_rank : String → Option ℕ
level_rank level = if level == "view" then some 0 else if level == "operate" then some 1 else none

-- `a > b` and `a >= b`: both are false where a side is `undefined`.
abbrev pub gt_rank : Option ℕ → Option ℕ → Bool
gt_rank (some a) (some b) = ltb b a
gt_rank _ _ = false

abbrev pub ge_rank : Option ℕ → Option ℕ → Bool
ge_rank (some a) (some b) = leb b a
ge_rank _ _ = false

abbrev pub subresource_operate : List String
subresource_operate = "exec" ∷ "logs" ∷ "portforward" ∷ "attach" ∷ "log" ∷ []

abbrev pub is_interactive : Option String → Bool
is_interactive none = false
is_interactive (some s) = not (s == "") && contains subresource_operate s

unfoldable pub level_for_request : String → Option String → String
level_for_request method subresource =
    if is_interactive subresource
    then "operate"
    else if method == "GET" || method == "HEAD"
    then "view"
    else "operate"

-- The better of what a user holds on a namespace so far and one more grant:
-- `prev === undefined || LEVEL_RANK[level] > LEVEL_RANK[prev]`.
abbrev pub is_better : Option String → String → Bool
is_better none level = true
is_better (some prev) level = gt_rank (level_rank level) (level_rank prev)

abbrev pub raise : Option String → String → Option String
raise prev level = if is_better prev level then some level else prev

-- The loop over the grants on one cluster, in `allow` of server/k8s-gate.mjs: the best level on a
-- namespace.
unfoldable pub best_level : String → Option String → List Grant → Option String
best_level ns best [] = best
best_level ns best (g ∷ gs) =
    best_level ns (if g.namespace == ns then raise best g.level else best) gs

-- `best !== undefined && LEVEL_RANK[best] >= LEVEL_RANK[need]`
abbrev pub is_enough : Option String → String → Bool
is_enough none need = false
is_enough (some best) need = ge_rank (level_rank best) (level_rank need)

-- One of the two levels that the table's CHECK constraint admits.
abbrev pub IsLevel : String → Type 0
IsLevel level = (level ≡ "view") ⊎ (level ≡ "operate")

abbrev pub IsLevelIfAny : Option String → Type 0
IsLevelIfAny none = Unit
IsLevelIfAny (some level) = IsLevel level

pub level_rank_of_IsLevel :
    (level : String) → IsLevel level → (level_rank level ≡ some 0) ⊎ (level_rank level ≡ some 1)
level_rank_of_IsLevel level (inl e) = rw e (inl refl)
level_rank_of_IsLevel level (inr e) = rw e (inr refl)

-- A grant that is taken in is enough exactly when it, or what was held before, is.
pub is_enough-raise :
    (best : Option String) (level need : String)
    → IsLevelIfAny best
    → IsLevel level
    → IsLevel need
    → is_enough (raise best level) need
      ≡ (is_enough best need || ge_rank (level_rank level) (level_rank need))
is_enough-raise none level need b l n = refl
is_enough-raise (some best) level need b l n = ground (
  arith,
  level_rank_of_IsLevel best b,
  level_rank_of_IsLevel level l,
  level_rank_of_IsLevel need n,
)

pub raise-IsLevel :
    (best : Option String) (level : String)
    → IsLevelIfAny best
    → IsLevel level
    → IsLevelIfAny (raise best level)
raise-IsLevel none level b l = l
raise-IsLevel (some best) level b l = elim (Bool-cases (is_better (some best) level)) [
  | inl up ↦ rw up l
  | inr keep ↦ rw keep b
]
