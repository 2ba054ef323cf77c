-- ===== src/Base/Maps.antt =====
-- Rust's `HashMap` with numeric keys, as an association list.
use Prim.Native.Nat.{ℕ}
use mathlib.Core.Path.{◌≡◌, refl}
use mathlib.Core.Option.{Option, none, some}
use mathlib.Core.List.{List, [], ◌∷◌}
use native.Mathlib.Omega.{arith}
use penguin_rs.Base.Tests.{◌==◌, if◌then◌else◌}

module _ {ℓ} {V : Type ℓ} where
  unfoldable pub lookup : (key : ℕ) → List (ℕ × V) → Option V
  lookup key [] = none
  lookup key ((used, value) ∷ entries) =
      let later = lookup key entries in if used == key then some value else later

  -- `remove` takes every entry of the key away, so a lookup after it finds none.
  unfoldable pub remove : (key : ℕ) → List (ℕ × V) → List (ℕ × V)
  remove key [] = []
  remove key ((used, value) ∷ entries) =
      let later = remove key entries in if used == key then later else (used, value) ∷ later

  unfoldable pub insert : (key : ℕ) → V → List (ℕ × V) → List (ℕ × V)
  insert key value [] = (key, value) ∷ []
  insert key value ((used, old) ∷ entries) =
      let later = insert key value entries in
      if used == key then (key, value) ∷ entries else (used, old) ∷ later

  pub lookup-remove :
      (key other : ℕ) (entries : List (ℕ × V))
      → lookup other (remove key entries) ≡ (if key == other then none else lookup other entries)
  unfolding lookup remove
  lookup-remove key other [] = ground arith
  lookup-remove key other ((used, value) ∷ entries) =
      ground (arith, lookup-remove key other entries)

  pub lookup-insert :
      (key other : ℕ) (value : V) (entries : List (ℕ × V))
      → lookup other (insert key value entries)
        ≡ (if key == other then some value else lookup other entries)
  unfolding lookup insert
  lookup-insert key other value [] = refl
  lookup-insert key other value ((used, old) ∷ entries) =
      ground (arith, lookup-insert key other value entries)
