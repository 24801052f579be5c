-- ===== src/Scenarios/Mentions.antt =====
-- References of a message on a project that moves to another cluster.
use aliangboard.Base.{ℕ, String, false, Option, none, some, List, [], ◌∷◌, ◌≡◌, refl, length}
use aliangboard.References.{
  RawRef, array, refused, Ref, normalize_references, stamp_refs, split_stale_refs,
}
use aliangboard.References.Stamps.{stays, partition, split_stale_refs-stamp_refs}

abbrev pod : RawRef
pod = record { kind = some "pods"; namespace = some "shop"; name = some "web-0" }

abbrev server : RawRef
server = record { kind = some "server"; namespace = some ""; name = some "db1" }

abbrev nameless : RawRef
nameless = record { kind = some "pods"; namespace = some "shop"; name = none }

abbrev ref_of : String → String → String → Option Ref
ref_of kind namespace name = some (record {
  kind = kind;
  namespace = namespace;
  name = name;
  cluster_id = none;
  cluster_name = none;
})

abbrev sent : List (Option Ref)
sent = ref_of "pods" "shop" "web-0" ∷ ref_of "server" "" "db1" ∷ []

abbrev json_bytes : List (Option Ref) → ℕ
json_bytes refs = length refs

malformed :
    normalize_references json_bytes (array (some pod ∷ some nameless ∷ []))
    ≡ refused "wbc.refsInvalid"
unfolding normalize_references
malformed = refl

moved :
    (split_stale_refs "c2" (stamp_refs "c1" "prod" false sent)).0 ≡ ref_of "server" "" "db1" ∷ []
unfolding stamp_refs split_stale_refs
moved = refl

split_stale_refs-stamp_refs_example :
    split_stale_refs "c2" (stamp_refs "c1" "prod" false sent)
    ≡ partition (stays "c1" "c2") (stamp_refs "c1" "prod" false sent)
unfolding normalize_references
split_stale_refs-stamp_refs_example =
    split_stale_refs-stamp_refs json_bytes (array (some pod ∷ some server ∷ [])) sent "c1" "c2"
      "prod" false refl
