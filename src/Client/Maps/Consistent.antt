-- ===== src/Client/Maps/Consistent.antt =====
-- src/client/mod.rs: adding a UDP client to the two maps.
use penguin_rs.Base.{
  ℕ, ◌+◌, ◌<◌, ◌≡◌, ◌≢◌, refl, inl, inr, List, Bool, none, some, if◌then◌else◌, ◌==◌, lookup,
  insert, lookup-insert, Key, same_iff, find, put, find-put, Option-cases, All, arith,
}
use penguin_rs.Mux.Api.{next_available_key}
use penguin_rs.Mux.Api.Keys.{next_available_key_free}
use penguin_rs.Client.Maps.Pairs.{pair_key}
use penguin_rs.Client.Maps.{
  Entry, ClientIdMaps, done, new_entry, refresh, refresh_client, add_client, add_udp_client,
}
use penguin_rs.Client.Maps.Invariant.{insert-Distinct, pair_of, IsConsistent, write-IsConsistent}

module _ {Addr : Type 0} ⦃key : Key Addr⦄ where
  -- What adding a client comes to: a number under which the client stands from now on, the one it
  -- had before where it was known, in two maps that agree, with the other clients as they were.
  pub record IsAdded (maps : ClientIdMaps Addr) (now : ℕ) (p : Addr × Addr)
      (after : ℕ × ClientIdMaps Addr) : Type 0 where
    pub consistent : IsConsistent after.1
    pub entry : Entry Addr
    pub stands : lookup after.0 after.1.client_id_map ≡ some entry
    pub addressed : pair_of entry ≡ p
    pub timed : entry.expires ≡ now + 10000000000
    pub kept : (j : ℕ) → find p maps.client_addr_map ≡ some j → after.0 ≡ j
    pub others :
        (j : ℕ) → j ≢ after.0 → lookup j after.1.client_id_map ≡ lookup j maps.client_id_map

  module _ (maps : ClientIdMaps Addr) (c : IsConsistent maps) (now : ℕ) (addr our_addr : Addr) where
    refresh_client-IsAdded :
        (i : ℕ) (e : Entry Addr)
        → lookup i maps.client_id_map ≡ some e
        → find (addr, our_addr) maps.client_addr_map ≡ some i
        → pair_of e ≡ (addr, our_addr)
        → IsAdded maps now
            (addr, our_addr)
            (i, record maps { client_id_map = insert i (refresh now e) maps.client_id_map })
    unfolding refresh
    refresh_client-IsAdded i e q f p = record {
      consistent =
          write-IsConsistent maps
            (record maps { client_id_map = insert i (refresh now e) maps.client_id_map }) c i
            (refresh now e) (c.positive i e q)
            (insert-Distinct i (refresh now e) maps.client_id_map c.distinct) at
            (λ r. ground (arith, same_iff (pair_of e) r, f, p)) (inl (ground (arith, f, p)));
      entry = refresh now e;
      stands = ground (arith, at i);
      addressed = p;
      timed = refl;
      kept = λ j h. ground arith;
      others = λ j h. ground (arith, at j);
    }
      where
        at :
            (j : ℕ)
            → lookup j (insert i (refresh now e) maps.client_id_map)
              ≡ (if i == j then some (refresh now e) else lookup j maps.client_id_map)
        at j = lookup-insert i j (refresh now e) maps.client_id_map

    add_client-IsAdded :
        (i socket : ℕ) (socks5 : Bool)
        → 0 < i
        → lookup i maps.client_id_map ≡ none
        → find (addr, our_addr) maps.client_addr_map ≡ none
        → IsAdded maps now
            (addr, our_addr)
            (
              i,
              record {
                client_id_map =
                    insert i (new_entry now addr our_addr socket socks5) maps.client_id_map;
                client_addr_map = put (addr, our_addr) i maps.client_addr_map;
              },
            )
    unfolding new_entry
    add_client-IsAdded i socket socks5 lt free f = record {
      consistent =
          write-IsConsistent maps
            (record {
              client_id_map = insert i e maps.client_id_map;
              client_addr_map = put (addr, our_addr) i maps.client_addr_map;
            })
            c i e lt (insert-Distinct i e maps.client_id_map c.distinct) at
            (λ r. find-put (addr, our_addr) r i maps.client_addr_map) (inr (f, free));
      entry = e;
      stands = ground (arith, at i);
      addressed = refl;
      timed = refl;
      kept = λ j h. ground arith;
      others = λ j h. ground (arith, at j);
    }
      where
        e : Entry Addr
        e = new_entry now addr our_addr socket socks5

        at :
            (j : ℕ)
            → lookup j (insert i e maps.client_id_map)
              ≡ (if i == j then some e else lookup j maps.client_id_map)
        at j = lookup-insert i j e maps.client_id_map

    -- In maps that agree, a call with random numbers from 1 of which one is free does not panic, and
    -- writes the client: where it was known, under the number that it had; the two maps still agree,
    -- its entry expires ten seconds from now, and no other client changes.
    pub add_udp_client-IsAdded :
        (random : List ℕ) (drawn socket : ℕ) (socks5 : Bool)
        → All (λ i. 0 < i) random
        → next_available_key maps.client_id_map random ≡ some drawn
        → (after : ℕ × ClientIdMaps Addr) × (add_udp_client now random maps addr our_addr socket
              socks5
            ≡ done after)
          × IsAdded maps now (addr, our_addr) after
    unfolding add_udp_client refresh_client add_client
    add_udp_client-IsAdded random drawn socket socks5 h q =
        elim (Option-cases (find (addr, our_addr) maps.client_addr_map)) [
          | inl unknown ↦
              let (free, lt) = next_available_key_free maps.client_id_map random drawn _ h q in
              (
                _,
                rw (unknown, q, add_udp_client) refl,
                add_client-IsAdded drawn socket socks5 lt free unknown,
              )
          | inr (i, known) ↦
              let (e, stands, p) = c.back (addr, our_addr) i known in
              (
                _,
                rw (known, stands, add_udp_client) refl,
                refresh_client-IsAdded i e stands known p,
              )
        ]
