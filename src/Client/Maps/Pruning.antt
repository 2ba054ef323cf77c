-- ===== src/Client/Maps/Pruning.antt =====
-- src/client/mod.rs: taking away the clients that have not been heard of for a while.
use penguin_rs.Base.{
  ℕ, ◌≡◌, refl, List, [], ◌∷◌, Option, none, some, if◌then◌else◌, ltb, lookup, Key, same_iff, find,
  erase, find-erase, arith,
}
use penguin_rs.Client.Maps.Pairs.{pair_key}
use penguin_rs.Client.Maps.{Entry, ClientIdMaps, done, retain, prune_udp_clients}
use penguin_rs.Client.Maps.Invariant.{Distinct, pair_of, IsConsistent, IsConsistent-unique}

module _ {Addr : Type 0} ⦃key : Key Addr⦄ where
  -- The client of an entry that is still to be kept at this time.
  abbrev pub unexpired : ℕ → Option (Entry Addr) → Option (Entry Addr)
  unexpired now none = none
  unexpired now (some e) = if ltb now e.expires then some e else none

  -- The two maps after the pruning, each on its own.
  keep : ℕ → List (ℕ × Entry Addr) → List (ℕ × Entry Addr)
  keep now [] = []
  keep now ((i, e) ∷ ids) =
      let later = keep now ids in if ltb now e.expires then (i, e) ∷ later else later

  sweep : ℕ → List (ℕ × Entry Addr) → List ((Addr × Addr) × ℕ) → List ((Addr × Addr) × ℕ)
  sweep now [] addrs = addrs
  sweep now ((i, e) ∷ ids) addrs =
      let kept = sweep now ids addrs in
      let dropped = sweep now ids (erase (pair_of e) addrs) in
      if ltb now e.expires then kept else dropped

  lookup-keep :
      (now : ℕ) (ids : List (ℕ × Entry Addr)) (i : ℕ)
      → Distinct ids
      → lookup i (keep now ids) ≡ unexpired now (lookup i ids)
  unfolding lookup keep
  lookup-keep now [] i d = refl
  lookup-keep now ((j, e) ∷ ids) i (fresh, d) = ground (arith, lookup-keep now ids i d, fresh)

  keep-Distinct : (now : ℕ) (ids : List (ℕ × Entry Addr)) → Distinct ids → Distinct (keep now ids)
  unfolding keep
  keep-Distinct now [] d = tt
  keep-Distinct now ((j, e) ∷ ids) (fresh, d) =
      ground (arith, lookup-keep now ids j d, keep-Distinct now ids d, fresh)

  -- What the entries and the second map say of each other.
  Agree : List (ℕ × Entry Addr) → List ((Addr × Addr) × ℕ) → Type 0
  Agree ids addrs =
      (i : ℕ) (e : Entry Addr)
      → lookup i ids ≡ some e
      → (find (pair_of e) addrs ≡ some i)
        × ((p : Addr × Addr) → find p addrs ≡ some i → pair_of e ≡ p)

  -- What is left of a value of the second map.
  abbrev swept : ℕ → List (ℕ × Entry Addr) → Option ℕ → Option ℕ
  swept now ids none = none
  swept now ids (some i) = elim (lookup i ids) [
    | none ↦ some i
    | some e ↦ if ltb now e.expires then some i else none
  ]

  module _ (j : ℕ) (e : Entry Addr) (ids : List (ℕ × Entry Addr)) (addrs : List ((Addr × Addr) × ℕ))
      (fresh : lookup j ids ≡ none) (f : Agree ((j, e) ∷ ids) addrs) where
    tail_of : (i : ℕ) (d : Entry Addr) → lookup i ids ≡ some d → lookup i ((j, e) ∷ ids) ≡ some d
    unfolding lookup
    tail_of i d h = ground (arith, fresh, h)

    Agree-tail : Agree ids addrs
    unfolding Agree
    Agree-tail i d h = f i d (tail_of i d h)

    Agree-erase : Agree ids (erase (pair_of e) addrs)
    unfolding Agree lookup
    Agree-erase i d h =
        let (q, back) = f i d (tail_of i d h) in
        let (q', back') = f j e (ground arith) in
        (
          ground (
            arith,
            q,
            q',
            fresh,
            h,
            find-erase (pair_of e) (pair_of d) addrs,
            same_iff (pair_of e) (pair_of d),
          ),
          λ p k. ground (arith, back p, k, find-erase (pair_of e) p addrs),
        )

  find-sweep :
      (now : ℕ) (ids : List (ℕ × Entry Addr)) (addrs : List ((Addr × Addr) × ℕ)) (p : Addr × Addr)
      → Distinct ids
      → Agree ids addrs
      → find p (sweep now ids addrs) ≡ swept now ids (find p addrs)
  unfolding sweep lookup Agree
  find-sweep now [] addrs p d f = ground arith
  find-sweep now ((j, e) ∷ ids) addrs p (fresh, d) f =
      let (q, back) = f j e (ground arith) in
      ground (
        arith,
        find-sweep now ids addrs p d (Agree-tail j e ids addrs fresh f),
        find-sweep now ids (erase (pair_of e) addrs) p d (Agree-erase j e ids addrs fresh f),
        find-erase (pair_of e) p addrs,
        same_iff (pair_of e) p,
        q,
        back p,
        fresh,
      )

  retain_lem :
      (now : ℕ) (ids : List (ℕ × Entry Addr)) (addrs : List ((Addr × Addr) × ℕ))
      → Distinct ids
      → Agree ids addrs
      → retain now ids addrs ≡ done (keep now ids, sweep now ids addrs)
  unfolding retain keep sweep lookup Agree
  retain_lem now [] addrs d f = refl
  retain_lem now ((j, e) ∷ ids) addrs (fresh, d) f =
      let (q, back) = f j e (ground arith) in
      ground (
        arith,
        retain_lem now ids addrs d (Agree-tail j e ids addrs fresh f),
        q,
        retain_lem now ids (erase (pair_of e) addrs) d (Agree-erase j e ids addrs fresh f),
      )

  -- In maps that agree, pruning does not panic; the two maps still agree, and the clients whose
  -- entries expire later than now are exactly those that are left, with their entries.
  pub prune_udp_clients-IsConsistent :
      (now : ℕ) (maps : ClientIdMaps Addr)
      → IsConsistent maps
      → (after : ClientIdMaps Addr) × (prune_udp_clients now maps ≡ done after)
        × IsConsistent after
        × ((i : ℕ) → lookup i after.client_id_map ≡ unexpired now (lookup i maps.client_id_map))
  unfolding prune_udp_clients Agree
  prune_udp_clients-IsConsistent now maps c = (
    pruned,
    rw (retain_lem now maps.client_id_map maps.client_addr_map c.distinct agree, prune_udp_clients)
        refl,
    record {
      distinct = keep-Distinct now maps.client_id_map c.distinct;
      positive = λ i e h. ground (arith, left i, c.positive i e);
      forward = λ i e h. ground (arith, left i, at (pair_of e), c.forward i e);
      back = λ p i h.
          let (e, stands, named) = c.back p i (ground (arith, at p, h)) in
          (e, ground (arith, at p, h, left i, stands), named);
    },
    left,
  )
    where
      pruned : ClientIdMaps Addr
      pruned = record {
        client_id_map = keep now maps.client_id_map;
        client_addr_map = sweep now maps.client_id_map maps.client_addr_map;
      }

      agree : Agree maps.client_id_map maps.client_addr_map
      agree i e h =
          (c.forward i e h, λ p k. IsConsistent-unique maps c p (pair_of e) i k (c.forward i e h))

      left :
          (i : ℕ)
          → lookup i (keep now maps.client_id_map) ≡ unexpired now (lookup i maps.client_id_map)
      left i = lookup-keep now maps.client_id_map i c.distinct

      at :
          (p : Addr × Addr)
          → find p (sweep now maps.client_id_map maps.client_addr_map)
            ≡ swept now maps.client_id_map (find p maps.client_addr_map)
      at p = find-sweep now maps.client_id_map maps.client_addr_map p c.distinct agree
