-- ===== src/Base/Maps.antt =====
-- `Map` and plain objects as association lists: a key is set in place, else added at the end.
use Prim.Native.String.{String}
use mathlib.Core.Path.{◌≡◌, refl, subst}
use mathlib.Core.List.{List, [], ◌∷◌}
use mathlib.Core.Option.{Option, none, some, some-injective}
use native.Mathlib.Omega.{arith}
use text.Mathlib.Text.{◌==◌}
use text.Mathlib.TextEquality.{eq_iff}
use mathlib.Core.Logic.{inl, inr}
use aliangboard.Base.Tests.{if◌then◌else◌, is_some, Bool-cases}
use aliangboard.Base.Lists.{All, contains}

module _ {ℓ} {V : Type ℓ} where
  -- `m.get(key)`
  abbrev pub lookup : String → List (String × V) → Option V
  lookup key [] = none
  lookup key ((name, value) ∷ rest) = if name == key then some value else lookup key rest

  -- `m.set(key, value)`
  abbrev pub insert : (key : String) (value : V) → List (String × V) → List (String × V)
  insert key value [] = (key, value) ∷ []
  insert key value ((name, old) ∷ rest) =
      if name == key then (name, value) ∷ rest else (name, old) ∷ insert key value rest

  -- `m.delete(key)`
  abbrev pub erase : String → List (String × V) → List (String × V)
  erase key [] = []
  erase key ((name, value) ∷ rest) =
      if name == key then erase key rest else (name, value) ∷ erase key rest

  -- `Object.keys(m)`
  abbrev pub keys : List (String × V) → List String
  keys [] = []
  keys ((k, v) ∷ m) = k ∷ keys m

  pub lookup-insert :
      (key asked : String) (value : V) (entries : List (String × V))
      → lookup asked (insert key value entries)
        ≡ (if key == asked then some value else lookup asked entries)
  lookup-insert key asked value [] = refl
  lookup-insert key asked value ((name, old) ∷ rest) = ground (
    arith,
    lookup-insert key asked value rest,
    eq_iff key asked,
    eq_iff name key,
    eq_iff name asked,
  )

  pub lookup-erase :
      (key asked : String) (entries : List (String × V))
      → lookup asked (erase key entries) ≡ (if key == asked then none else lookup asked entries)
  lookup-erase key asked [] = ground arith
  lookup-erase key asked ((name, old) ∷ rest) =
      ground
        (arith, lookup-erase key asked rest, eq_iff key asked, eq_iff name key, eq_iff name asked)

  pub contains-keys :
      (k : String) (m : List (String × V)) → contains (keys m) k ≡ is_some (lookup k m)
  contains-keys k [] = refl
  contains-keys k ((j, v) ∷ m) = ground (arith, eq_iff k j, eq_iff j k, contains-keys k m)

-- What holds of every entry holds of an entry that is found.
pub All_lookup {ℓ κ} :
    {V : Type ℓ} (P : String → V → Type κ) (m : List (String × V)) (k : String) {v : V}
    → All (λ e. P e.0 e.1) m
    → lookup k m ≡ some v
    → P k v
All_lookup P [] k h e = cc
All_lookup P ((j, w) ∷ m) k {v} (p, h) e = elim (Bool-cases (j == k)) [
  | inl same ↦
      let at_v = subst (P j) (some-injective w v (ground arith)) p in
      subst (λ i. P i v) ((eq_iff j k).0 same) at_v
  | inr other ↦ All_lookup P m k h (ground arith)
]
