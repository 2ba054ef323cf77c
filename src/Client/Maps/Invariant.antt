-- ===== src/Client/Maps/Invariant.antt =====
-- src/client/mod.rs: the invariant of the two maps of UDP clients, and writing an entry of both.
use penguin_rs.Base.{
  ℕ, ◌<◌, ◌≡◌, refl, ◌⊎◌, inl, inr, List, [], ◌∷◌, true, false, Option, none, some, if◌then◌else◌,
  ◌==◌, lookup, insert, lookup-insert, Key, same, same_iff, find, Bool-cases, arith,
}
use penguin_rs.Client.Maps.Pairs.{pair_key}
use penguin_rs.Client.Maps.{Entry, ClientIdMaps}

module _ {V : Type 0} where
  -- No key occurs twice.
  abbrev pub Distinct : List (ℕ × V) → Type 0
  Distinct [] = Unit
  Distinct ((k, v) ∷ m) = (lookup k m ≡ none) × Distinct m

  pub insert-Distinct : (k : ℕ) (v : V) (m : List (ℕ × V)) → Distinct m → Distinct (insert k v m)
  unfolding insert lookup
  insert-Distinct k v [] d = (refl, tt)
  insert-Distinct k v ((j, w) ∷ m) (fresh, d) =
      ground (arith, fresh, d, insert-Distinct k v m d, lookup-insert k j v m)

module _ {Addr : Type 0} ⦃key : Key Addr⦄ where
  abbrev pub pair_of : Entry Addr → Addr × Addr
  pair_of entry = (entry.peer_addr, entry.our_addr)

  -- The two maps name the same clients, and no client has the number of the standard output.
  pub record IsConsistent (maps : ClientIdMaps Addr) : Type 0 where
    pub distinct : Distinct maps.client_id_map
    pub positive : (i : ℕ) (e : Entry Addr) → lookup i maps.client_id_map ≡ some e → 0 < i
    pub forward :
        (i : ℕ) (e : Entry Addr)
        → lookup i maps.client_id_map ≡ some e
        → find (pair_of e) maps.client_addr_map ≡ some i
    pub back :
        (p : Addr × Addr) (i : ℕ)
        → find p maps.client_addr_map ≡ some i
        → (e : Entry Addr) × (lookup i maps.client_id_map ≡ some e) × (pair_of e ≡ p)

  pub IsConsistent-unique :
      (maps : ClientIdMaps Addr)
      → IsConsistent maps
      → (p r : Addr × Addr) (i : ℕ) → find p maps.client_addr_map ≡ some i
      → find r maps.client_addr_map ≡ some i
      → r ≡ p
  IsConsistent-unique maps c p r i h k =
      one_entry (lookup i maps.client_id_map) (c.back p i h) (c.back r i k)
    where
      one_entry :
          (o : Option (Entry Addr))
          → ((d : Entry Addr) × (o ≡ some d) × (pair_of d ≡ p))
          → ((d : Entry Addr) × (o ≡ some d) × (pair_of d ≡ r))
          → r ≡ p
      one_entry o (d, q, u) (d', q', u') = ground arith

  -- Writing the entry of a client that is in both maps under this number, or in neither.
  module _ (maps after : ClientIdMaps Addr) (c : IsConsistent maps) (i : ℕ) (e : Entry Addr)
      (i_positive : 0 < i) (distinct_after : Distinct after.client_id_map)
      (at : (j : ℕ)
        → lookup j after.client_id_map ≡ (if i == j then some e else lookup j maps.client_id_map))
      (at_pair : (r : Addr × Addr)
        → find r after.client_addr_map
          ≡ (if same (pair_of e) r then some i else find r maps.client_addr_map))
      (known : (find (pair_of e) maps.client_addr_map ≡ some i)
        ⊎ ((find (pair_of e) maps.client_addr_map ≡ none)
            × (lookup i maps.client_id_map ≡ none))) where
    refl_of : (r : Addr × Addr) → same r r ≡ true
    refl_of r = (same_iff r r).1 refl

    forward_at :
        (j : ℕ) (d : Entry Addr)
        → lookup j after.client_id_map ≡ some d
        → find (pair_of d) after.client_addr_map ≡ some j
    forward_at j d h = ground (
      arith,
      at j,
      at_pair (pair_of d),
      known,
      c.forward j d,
      same_iff (pair_of e) (pair_of d),
      refl_of (pair_of e),
      h,
    )

    old_at :
        (r : Addr × Addr) (j : ℕ)
        → same (pair_of e) r ≡ false
        → find r maps.client_addr_map ≡ some j
        → (d : Entry Addr) × (lookup j maps.client_id_map ≡ some d) × (pair_of d ≡ r)
        → (d : Entry Addr) × (lookup j after.client_id_map ≡ some d) × (pair_of d ≡ r)
    old_at r j miss h (d, q, p) = (
      d,
      ground (
        arith,
        at j,
        known,
        q,
        miss,
        same_iff (pair_of e) r,
        IsConsistent-unique maps c r (pair_of e) j h,
      ),
      p,
    )

    back_at :
        (r : Addr × Addr) (j : ℕ)
        → find r after.client_addr_map ≡ some j
        → (d : Entry Addr) × (lookup j after.client_id_map ≡ some d) × (pair_of d ≡ r)
    back_at r j h = elim (Bool-cases (same (pair_of e) r)) [
      | inl hit ↦ (e, ground (arith, at j, at_pair r, h), (same_iff (pair_of e) r).0 hit)
      | inr miss ↦
          old_at r j miss (ground (arith, at_pair r, h)) (c.back r j (ground (arith, at_pair r, h)))
    ]

    pub write-IsConsistent : IsConsistent after
    write-IsConsistent = record {
      distinct = distinct_after;
      positive = λ j d h. ground (arith, at j, c.positive j d);
      forward = forward_at;
      back = back_at;
    }
