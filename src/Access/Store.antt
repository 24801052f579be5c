-- ===== src/Access/Store.antt =====
-- The tables that server/authz.mjs, server/k8s-gate.mjs and server/session-guard.mjs query, as lists
-- of rows, and the queries that they share. SQLite itself is not modelled: a `SELECT` is the rows
-- of the list that meet its condition, in the list's order, and `get` is the first of them.
-- A missing or NULL text is the empty text where the code treats the two alike.
use aliangboard.Base.{
  String, Bool, not, ◌&&◌, Option, List, [], ◌∷◌, ◌++◌, ◌==◌, if◌then◌else◌, find, any,
}

-- A row of `platform_users`.
pub record User : Type 0 where
  pub id : String
  pub username : String
  pub display_name : String
  pub role : String
  pub disabled : Bool

-- A row of `clusters`.
pub record Cluster : Type 0 where
  pub id : String
  pub ns_auth_mode : String

-- A row of `user_clusters`.
pub record Assignment : Type 0 where
  pub user_id : String
  pub cluster_id : String

-- A row of `ns_grants`.
pub record Grant : Type 0 where
  pub subject_type : String
  pub subject_id : String
  pub cluster_id : String
  pub namespace : String
  pub level : String

-- A row of `group_members`.
pub record Member : Type 0 where
  pub group_id : String
  pub user_id : String

pub record Db : Type 0 where
  pub users : List User
  pub clusters : List Cluster
  pub assignments : List Assignment
  pub grants : List Grant
  pub members : List Member
  pub groups : List String

-- `SELECT role FROM platform_users WHERE id=? AND disabled=0`
unfoldable pub active_user : Db → String → Option User
active_user db user_id = find (λ u. u.id == user_id && not u.disabled) db.users

-- `SELECT nsAuthMode FROM clusters WHERE id=?`
unfoldable pub cluster_row : Db → String → Option Cluster
cluster_row db cluster_id = find (λ c. c.id == cluster_id) db.clusters

-- `SELECT 1 FROM user_clusters WHERE userId=? AND clusterId=?`
unfoldable pub is_assigned : Db → String → String → Bool
is_assigned db user_id cluster_id =
    any (λ a. a.user_id == user_id && a.cluster_id == cluster_id) db.assignments

-- One copy of the grant for each row of `group_members` that joins it.
abbrev pub joined : Grant → String → List Member → List Grant
joined g user_id [] = []
joined g user_id (m ∷ ms) =
    if m.group_id == g.subject_id && m.user_id == user_id
    then g ∷ joined g user_id ms
    else joined g user_id ms

-- The second half of the `UNION ALL`: grants of groups that the user is a member of, among the
-- grants that a further condition picks.
abbrev pub group_grants : (Grant → Bool) → String → List Member → List Grant → List Grant
group_grants keep user_id ms [] = []
group_grants keep user_id ms (g ∷ gs) =
    if g.subject_type == "group" && keep g
    then joined g user_id ms ++ group_grants keep user_id ms gs
    else group_grants keep user_id ms gs
