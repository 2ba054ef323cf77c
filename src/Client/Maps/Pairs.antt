-- ===== src/Client/Maps/Pairs.antt =====
-- Pairs of keys are keys.
use penguin_rs.Base.{◌≡◌, ◌↔◌, Bool, true, ◌&&◌, Key, same, same_iff, arith}

module _ {A : Type 0} ⦃key : Key A⦄ where
  abbrev pub same_pair : A × A → A × A → Bool
  same_pair (a, b) (c, d) = same a c && same b d

  pub same_pair_iff : (p q : A × A) → (same_pair p q ≡ true) ↔ (p ≡ q)
  same_pair_iff (a, b) (c, d) = ground (arith, same_iff a c, same_iff b d)

  instance abbrev pub pair_key : Key (A × A)
  pair_key = record { same = same_pair; same_iff = same_pair_iff }
