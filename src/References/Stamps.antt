-- ===== src/References/Stamps.antt =====
-- What a client's references become once they are stamped (server/refs-normalize.mjs).
use mathlib.Core.Option.{some-injective}
use aliangboard.Base.{
  ℕ, String, Bool, true, false, not, ◌&&◌, ◌||◌, Option, none, some, List, [], ◌∷◌, ◌==◌, ◌≡◌, refl,
  if◌then◌else◌, All, inl, inr, arith, if-split, subst, ◌⊎◌, is_some, filter,
}
use aliangboard.References.{
  RawRef, RawReferences, no_references, not_array, array, Ref, accepted, add_ref, trim_field,
  trim_ref, is_stale_id, trim_refs, bound_refs, normalize_references, stamp_ref, stamp_refs,
  is_stale, split_stale_refs,
}

abbrev IsUnstamped : Option Ref → Type 0
IsUnstamped none = Unit
IsUnstamped (some r) = r.cluster_id ≡ none

trim_field-cases :
    (kind namespace name : Option String)
    → (trim_field kind namespace name ≡ none)
      ⊎ ((r : Ref) × (trim_field kind namespace name ≡ some r) × (r.cluster_id ≡ none))
trim_field-cases (some kind) (some namespace) (some name) = inr (_, refl, refl)
trim_field-cases (some kind) (some namespace) none = inl refl
trim_field-cases (some kind) none name = inl refl
trim_field-cases none namespace name = inl refl

add_ref-IsUnstamped :
    (item : Option Ref) (rest : Option (List (Option Ref))) (refs : List (Option Ref))
    → (item ≡ none) ⊎ ((r : Ref) × (item ≡ some r) × (r.cluster_id ≡ none))
    → ((tail : List (Option Ref)) → rest ≡ some tail → All IsUnstamped tail)
    → add_ref item rest ≡ some refs
    → All IsUnstamped refs
add_ref-IsUnstamped none rest refs c f e = ground (arith, e)
add_ref-IsUnstamped (some r) none refs c f e = ground (arith, e)
add_ref-IsUnstamped (some r) (some tail) refs c f e =
    let unstamped : r.cluster_id ≡ none = ground (arith, c) in
    subst (All IsUnstamped) (some-injective (some r ∷ tail) refs e) (unstamped, f tail refl)

trim_ref-cases :
    (item : Option RawRef)
    → (trim_ref item ≡ none) ⊎ ((r : Ref) × (trim_ref item ≡ some r) × (r.cluster_id ≡ none))
trim_ref-cases none = inl refl
trim_ref-cases (some r) = trim_field-cases r.kind r.namespace r.name

trim_refs-IsUnstamped :
    (items : List (Option RawRef)) (refs : List (Option Ref))
    → trim_refs items ≡ some refs
    → All IsUnstamped refs
trim_refs-IsUnstamped [] refs e = subst (All IsUnstamped) (some-injective [] refs e) tt
trim_refs-IsUnstamped (item ∷ items) refs e =
    add_ref-IsUnstamped (trim_ref item) (trim_refs items) refs (trim_ref-cases item)
      (trim_refs-IsUnstamped items) e

bound_refs-IsUnstamped :
    (json_bytes : List (Option Ref) → ℕ) (items : List (Option RawRef)) (refs : List (Option Ref))
    (trimmed : Option (List (Option Ref)))
    → ((l : List (Option Ref)) → trimmed ≡ some l → All IsUnstamped l)
    → bound_refs json_bytes trimmed ≡ accepted (some refs)
    → All IsUnstamped refs
bound_refs-IsUnstamped json_bytes items refs none f e = ground (arith, e)
bound_refs-IsUnstamped json_bytes items refs (some l) f e =
    let same : l ≡ refs = ground (arith, e) in subst (All IsUnstamped) same (f l refl)

normalize_references-IsUnstamped :
    (json_bytes : List (Option Ref) → ℕ) (raw : RawReferences) (refs : List (Option Ref))
    → normalize_references json_bytes raw ≡ accepted (some refs)
    → All IsUnstamped refs
unfolding normalize_references
normalize_references-IsUnstamped json_bytes no_references refs e = ground (arith, e)
normalize_references-IsUnstamped json_bytes not_array refs e = ground (arith, e)
normalize_references-IsUnstamped json_bytes (array items) refs e =
    bound_refs-IsUnstamped json_bytes items refs (trim_refs items) (trim_refs-IsUnstamped items)
      (ground (arith, e))

-- Which references a project on the cluster `current` keeps of those that were stamped with `stamped`.
abbrev pub stays : String → String → Option Ref → Bool
stays stamped current none = true
stays stamped current (some r) = r.kind == "server" || (stamped == "" || stamped == current)

stale_unstamped :
    (current : String) (server unbound same preserve : Bool) (id : Option String)
    → id ≡ none
    → (server || (unbound || (preserve && is_some id))) ≡ true
    → is_stale_id current id ≡ not (server || (unbound || same))
stale_unstamped current server unbound same preserve none h e = ground (arith, e)
stale_unstamped current server unbound same preserve (some id) h e = ground (arith, h)

stale_stamped :
    (server unbound same other : Bool)
    → (server || (unbound || other)) ≡ false
    → not same ≡ not (server || (unbound || same))
stale_stamped server unbound same other e = ground (arith, e)

stamp_ref-is_stale :
    (cluster_id current cluster_name : String) (preserve : Bool) (r : Option Ref)
    → IsUnstamped r
    → is_stale current (stamp_ref cluster_id cluster_name preserve r)
      ≡ not (stays cluster_id current (stamp_ref cluster_id cluster_name preserve r))
stamp_ref-is_stale cluster_id current cluster_name preserve none h = refl
stamp_ref-is_stale cluster_id current cluster_name preserve (some r) h =
    if-split (λ x. is_stale current x ≡ not (stays cluster_id current x))
      (r.kind == "server" || (cluster_id == "" || (preserve && is_some r.cluster_id)))
      (λ e.
        stale_unstamped current (r.kind == "server") (cluster_id == "") (cluster_id == current)
          preserve r.cluster_id h e)
      (λ e.
        stale_stamped (r.kind == "server") (cluster_id == "") (cluster_id == current)
          (preserve && is_some r.cluster_id) e)

abbrev pub partition :
    (Option Ref → Bool) → List (Option Ref) → List (Option Ref) × List (Option Ref)
partition keep refs = (filter keep refs, filter (λ r. not (keep r)) refs)

split_step :
    (keep stale : Bool) (r : Option Ref) (rest : List (Option Ref) × List (Option Ref))
    (xs ys : List (Option Ref))
    → stale ≡ not keep
    → ◌≡◌ {A = List (Option Ref) × List (Option Ref)} rest (xs, ys)
    → ◌≡◌ {A = List (Option Ref) × List (Option Ref)}
        (if stale then (rest.0, r ∷ rest.1) else (r ∷ rest.0, rest.1))
        ((if keep then r ∷ xs else xs), (if not keep then r ∷ ys else ys))
split_step true true r rest xs ys e h = ground (arith, e)
split_step true false r rest xs ys e h = rw h
split_step false true r rest xs ys e h = rw h
split_step false false r rest xs ys e h = ground (arith, e)

split_stamped :
    (cluster_id current cluster_name : String) (preserve : Bool) (refs : List (Option Ref))
    → All IsUnstamped refs
    → split_stale_refs current (stamp_refs cluster_id cluster_name preserve refs)
      ≡ partition (stays cluster_id current) (stamp_refs cluster_id cluster_name preserve refs)
unfolding stamp_refs split_stale_refs
split_stamped cluster_id current cluster_name preserve [] h = refl
split_stamped cluster_id current cluster_name preserve (r ∷ refs) (p, h) =
    let new : List (Option Ref) = stamp_refs cluster_id cluster_name preserve refs in
    let first : Option Ref = stamp_ref cluster_id cluster_name preserve r in
    split_step (stays cluster_id current first) (is_stale current first) first
      (split_stale_refs current new) (filter (stays cluster_id current) new)
      (filter (λ x. not (stays cluster_id current x)) new)
      (stamp_ref-is_stale cluster_id current cluster_name preserve r p)
      (split_stamped cluster_id current cluster_name preserve refs h)

-- References that a client sends and the gate accepts, once they are stamped for a project, are split
-- later, in their order, by the cluster of the project at that time: what stays active is the
-- references to servers, with the others if the project had no cluster when they were stamped or
-- has the same one still; all else is set apart as stale, and none is lost.
pub split_stale_refs-stamp_refs :
    (json_bytes : List (Option Ref) → ℕ) (raw : RawReferences) (refs : List (Option Ref))
    (cluster_id current cluster_name : String) (preserve : Bool)
    → normalize_references json_bytes raw ≡ accepted (some refs)
    → split_stale_refs current (stamp_refs cluster_id cluster_name preserve refs)
      ≡ partition (stays cluster_id current) (stamp_refs cluster_id cluster_name preserve refs)
split_stale_refs-stamp_refs json_bytes raw refs cluster_id current cluster_name preserve e =
    split_stamped cluster_id current cluster_name preserve refs
      (normalize_references-IsUnstamped json_bytes raw refs e)
