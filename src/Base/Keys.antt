-- ===== src/Base/Keys.antt =====
-- Keys that are not numbers: a type with a test for equality, and maps over it.
use mathlib.Core.Path.{◌≡◌, refl}
use mathlib.Core.Logic.{◌↔◌}
use mathlib.Core.Bool.{Bool, true}
use mathlib.Core.Option.{Option, none, some}
use mathlib.Core.List.{List, [], ◌∷◌}
use native.Mathlib.Omega.{arith}
use penguin_rs.Base.Tests.{if◌then◌else◌}

pub record Key (A : Type 0) : Type 0 where
  pub same : A → A → Bool
  pub same_iff : (a b : A) → (same a b ≡ true) ↔ (a ≡ b)

module _ {A : Type 0} ⦃key : Key A⦄ where
  abbrev pub same : A → A → Bool
  same a b = key.same a b

  pub same_iff : (a b : A) → (same a b ≡ true) ↔ (a ≡ b)
  same_iff a b = key.same_iff a b

  module _ {V : Type 0} where
    -- The value of a key, a map with one more value, and without a key.
    unfoldable pub find : A → List (A × V) → Option V
    find k [] = none
    find k ((j, v) ∷ m) = let later = find k m in if same j k then some v else later

    unfoldable pub put : A → V → List (A × V) → List (A × V)
    put k v [] = (k, v) ∷ []
    put k v ((j, w) ∷ m) = let later = put k v m in if same j k then (k, v) ∷ m else (j, w) ∷ later

    unfoldable pub erase : A → List (A × V) → List (A × V)
    erase k [] = []
    erase k ((j, w) ∷ m) = let later = erase k m in if same j k then later else (j, w) ∷ later

    pub find-put :
        (k j : A) (v : V) (m : List (A × V))
        → find j (put k v m) ≡ (if same k j then some v else find j m)
    unfolding find put
    find-put k j v [] = refl
    find-put k j v ((i, w) ∷ m) =
        ground (arith, find-put k j v m, same_iff i j, same_iff i k, same_iff k j)

    pub find-erase :
        (k j : A) (m : List (A × V)) → find j (erase k m) ≡ (if same k j then none else find j m)
    unfolding find erase
    find-erase k j [] = ground arith
    find-erase k j ((i, w) ∷ m) =
        ground (arith, find-erase k j m, same_iff i j, same_iff i k, same_iff k j)
