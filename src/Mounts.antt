-- ===== src/Mounts.antt =====
-- The volumes that a form mounts (src/logic/volumeMountValidation.js): an entry of the form, the issues
-- that may be found in it, and the tests on paths that the rules share. A field that is missing or null is
-- the empty text, and an object that is passed on as it is, is its JSON text.
pub mod Rules
pub mod Context
pub mod Across
pub mod Generate
pub mod Keys
pub mod Distinct
pub mod Kept
pub mod Gate
pub mod Messages
use Prim.Native.String.{[], ◌∷◌}
use aliangboard.Base.{
  ℕ, String, Char, code, Bool, true, false, not, ◌&&◌, ◌||◌, Option, none, some, List, ◌==◌,
  if◌then◌else◌, eqb, leb, any, contains, split_on, has_char,
}

pub data MountType : Type 0 where
  pvc : MountType
  empty_dir : MountType
  host_path : MountType
  nfs : MountType
  config_map : MountType
  secret : MountType
  unknown : MountType
  other_type : MountType

-- A row of `items`.
pub record MountItem : Type 0 where
  pub key : String
  pub path : String

pub record VolumeEntry : Type 0 where
  pub mount_type : MountType
  pub name : String
  pub mount_path : String
  pub sub_path : String
  pub read_only : Bool
  pub target : String
  pub pvc_name : String
  pub host_dir : String
  pub host_path_type : String
  pub server : String
  pub nfs_path : String
  pub cm_name : String
  pub secret_name : String
  pub items : List MountItem
  pub default_mode : String
  pub raw : Option String

-- `ctx`: a list or map that was not loaded is `none`.
pub record MountCtx : Type 0 where
  pub valid_targets : Option (List String)
  pub cm_keys : Option (List (String × List String))
  pub secret_keys : Option (List (String × List String))
  pub known_cm_names : Option (List String)
  pub known_secret_names : Option (List String)
  pub known_pvc_names : Option (List String)

pub data Level : Type 0 where
  error : Level
  warn : Level
  hint : Level

pub data Code : Type 0 where
  source_required : Code
  items_incomplete : Code
  mount_path_required : Code
  mount_path_normalized : Code
  mount_path_root : Code
  mount_path_backslash : Code
  system_path_runtime : Code
  system_path_etc : Code
  system_path_sa_token : Code
  system_path_shadow : Code
  target_invalid : Code
  item_path_invalid : Code
  item_path_duplicate : Code
  item_key_missing : Code
  source_not_found : Code
  sub_path_invalid : Code
  sub_path_not_in_volume : Code
  sub_path_single_file_note : Code
  nfs_path_root : Code
  nfs_path_invalid : Code
  host_path_sensitive : Code
  read_only_suggested : Code
  default_mode_invalid : Code
  default_mode_permissive : Code
  items_hide_rest : Code
  mount_path_duplicate : Code
  mount_path_nested : Code
  volume_name_duplicate : Code
  orphan_mount : Code

pub data IssueField : Type 0 where
  source_field : IssueField
  mount_path_field : IssueField
  sub_path_field : IssueField
  items_field : IssueField
  items_path_field : ℕ → IssueField
  target_field : IssueField
  host_path_field : IssueField
  nfs_path_field : IssueField
  read_only_field : IssueField
  default_mode_field : IssueField
  name_field : IssueField

-- An issue of one entry has no `entries`; one across entries has their indices.
pub record Issue : Type 0 where
  pub code : Code
  pub field : IssueField
  pub level : Level
  pub params : Option ℕ
  pub entries : List ℕ

abbrev pub is_error : Issue → Bool
is_error i = elim i.level [ error ↦ true | warn ↦ false | hint ↦ false ]

abbrev pub is_blank_text : String → Bool
is_blank_text s = s == ""

-- `s.startsWith('/')`
abbrev pub starts_slash : String → Bool
starts_slash [] = false
starts_slash (c ∷ s) = eqb (code c) 47

-- What `trim` removes and `\s` matches.
abbrev pub is_space : ℕ → Bool
is_space c =
    (leb 9 c && leb c 13)
    || (eqb c 32
        || (eqb c 160
            || (eqb c 5760
                || ((leb 8192 c && leb c 8202)
                    || (eqb c 8232
                        || (eqb c 8233
                            || (eqb c 8239 || (eqb c 8287 || (eqb c 12288 || eqb c 65279)))))))))

abbrev pub has_space : String → Bool
has_space [] = false
has_space (c ∷ s) = is_space (code c) || has_space s

abbrev pub trim_start : String → String
trim_start [] = []
trim_start (c ∷ s) = let rest = trim_start s in if is_space (code c) then rest else c ∷ s

-- The characters that a test accepts, taken off the end.
abbrev pub drop_end : (ℕ → Bool) → String → String
drop_end p [] = []
drop_end p (c ∷ s) =
    let rest = drop_end p s in if p (code c) && is_blank_text rest then [] else c ∷ rest

-- `replace(/\/{2,}/g, '/')`
abbrev pub squeeze : String → String
squeeze [] = []
squeeze (c ∷ s) =
    let rest = squeeze s in if eqb (code c) 47 && starts_slash rest then rest else c ∷ rest

abbrev pub trim : String → String
trim s = drop_end is_space (trim_start s)

-- A text of one character has a final slash to lose only where it is the root.
unfoldable pub normalize_mount_path : String → String
normalize_mount_path p =
    let squeezed = squeeze (trim p) in
    if is_blank_text (trim p)
    then ""
    else if squeezed == "/"
    then squeezed
    else drop_end (λ c. eqb c 47) squeezed

-- `allKeys && …`: a test on a list that was loaded.
abbrev pub lacks : Option (List String) → String → Bool
lacks none name = false
lacks (some names) name = not (contains names name)

-- `it.key && it.path`, and `!it.key && !it.path`
abbrev pub is_full : MountItem → Bool
is_full it = not (is_blank_text it.key) && not (is_blank_text it.path)

abbrev pub is_blank : MountItem → Bool
is_blank it = is_blank_text it.key && is_blank_text it.path

abbrev pub is_projection : MountType → Bool
is_projection config_map = true
is_projection secret = true
is_projection t = false
