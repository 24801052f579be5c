-- ===== src/Scenarios/Tables.antt =====
-- Tables with three users, two clusters and two grants.
use aliangboard.Base.{String, Bool, true, false, [], ◌∷◌, ◌==◌, ◌≡◌, eq_iff, arith}
use aliangboard.Access.Store.{Db, User, Cluster, Grant}

abbrev user : String → String → Bool → User
user id role disabled = record {
  id = id;
  username = id;
  display_name = id;
  role = role;
  disabled = disabled;
}

abbrev pub alice : User
alice = user "alice" "user" false

abbrev pub shared : Cluster
shared = record { id = "c1"; ns_auth_mode = "allowlist" }

abbrev lab : Cluster
lab = record { id = "c2"; ns_auth_mode = "open" }

abbrev pub view_dev : Grant
view_dev = record {
  subject_type = "user";
  subject_id = "alice";
  cluster_id = "c1";
  namespace = "dev";
  level = "view";
}

abbrev pub operate_prod : Grant
operate_prod = record {
  subject_type = "group";
  subject_id = "ops";
  cluster_id = "c1";
  namespace = "prod";
  level = "operate";
}

-- A grant to a group that is gone.
abbrev pub orphan : Grant
orphan = record operate_prod { subject_id = "old" }

abbrev pub db : Db
db = record {
  users = alice ∷ user "root" "admin" false ∷ user "ivan" "user" true ∷ [];
  clusters = shared ∷ lab ∷ [];
  assignments = record { user_id = "alice"; cluster_id = "c1" } ∷ [];
  grants = view_dev ∷ operate_prod ∷ orphan ∷ [];
  members = record { group_id = "ops"; user_id = "alice" } ∷ [];
  groups = "ops" ∷ [];
}

pub apart : {P : Type 0} (s t : String) → (s == t) ≡ false → s ≡ t → P
apart s t differs e = absurd (ground (arith, differs, (eq_iff s t).1 e))
