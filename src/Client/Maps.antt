-- ===== src/Client/Maps.antt =====
-- src/client/mod.rs: the two maps of UDP clients, `ClientIdMaps`, and the operations on them. An
-- address is of any type with a test for equality, a socket is named by a number, and a time is the
-- number of nanoseconds since some start.
pub mod Invariant
pub mod Consistent
pub mod Pairs
pub mod Pruning
pub mod Replies
use penguin_rs.Base.{
  ℕ, ◌+◌, ◌*◌, List, [], ◌∷◌, Bool, Option, none, some, if◌then◌else◌, ◌==◌, ltb, lookup, insert,
  Key, same, find, put, erase,
}
use penguin_rs.Mux.Api.{next_available_key}
use penguin_rs.Client.Maps.Pairs.{pair_key}

pub record Entry (Addr : Type 0) : Type 0 where
  pub peer_addr : Addr
  pub our_addr : Addr
  pub socket : ℕ
  pub socks5 : Bool
  pub expires : ℕ

pub record ClientIdMaps (Addr : Type 0) : Type 0 where
  pub client_id_map : List (ℕ × Entry Addr)
  pub client_addr_map : List ((Addr × Addr) × ℕ)

-- `UDP_PRUNE_TIMEOUT` of src/config.rs: 10 seconds.
abbrev pub udp_prune_timeout : ℕ
udp_prune_timeout = 10 * 1000000000

-- What a call that chooses a key, or relies on the two maps, comes to.
pub data Outcome (A : Type 0) : Type 0 where
  done : A → Outcome A
  panicked still_drawing : Outcome A

-- What a reply to a client is: bytes to the standard output, or a datagram of its socket, for a
-- SOCKS5 client with a header.
pub data Reply (Addr : Type 0) : Type 0 where
  to_stdout : List ℕ → Reply Addr
  to_relay to_peer : ℕ → Addr → List ℕ → Reply Addr

module _ {Addr : Type 0} ⦃key : Key Addr⦄ where
  unfoldable pub new_entry : ℕ → Addr → Addr → ℕ → Bool → Entry Addr
  new_entry now peer_addr our_addr socket socks5 = record {
    peer_addr = peer_addr;
    our_addr = our_addr;
    socket = socket;
    socks5 = socks5;
    expires = now + udp_prune_timeout;
  }

  unfoldable pub refresh : ℕ → Entry Addr → Entry Addr
  refresh now entry = record entry { expires = now + udp_prune_timeout }

  unfoldable pub refresh_client :
      ℕ → ClientIdMaps Addr → ℕ → Option (Entry Addr) → Outcome (ℕ × ClientIdMaps Addr)
  unfolding refresh
  refresh_client now maps client_id none = panicked
  refresh_client now maps client_id (some entry) = done (
    client_id,
    record maps { client_id_map = insert client_id (refresh now entry) maps.client_id_map },
  )

  unfoldable pub add_client :
      ℕ → ClientIdMaps Addr → Addr → Addr → ℕ → Bool → Option ℕ → Outcome (ℕ × ClientIdMaps Addr)
  unfolding new_entry
  add_client now maps addr our_addr socket socks5 none = still_drawing
  add_client now maps addr our_addr socket socks5 (some client_id) = done (
    client_id,
    record {
      client_id_map =
          insert client_id (new_entry now addr our_addr socket socks5) maps.client_id_map;
      client_addr_map = put (addr, our_addr) client_id maps.client_addr_map;
    },
  )

  unfoldable pub add_udp_client :
      ℕ → List ℕ → ClientIdMaps Addr → Addr → Addr → ℕ → Bool → Outcome (ℕ × ClientIdMaps Addr)
  unfolding refresh_client add_client
  add_udp_client now random maps addr our_addr socket socks5 =
      elim (find (addr, our_addr) maps.client_addr_map) [
        | some client_id ↦ refresh_client now maps client_id (lookup client_id maps.client_id_map)
        | none ↦
            add_client now maps addr our_addr socket socks5
              (next_available_key maps.client_id_map random)
      ]

  -- The closure of `retain`, along the entries of the first map; the second map is carried along.
  unfoldable pub retain :
      ℕ
      → List (ℕ × Entry Addr)
      → List ((Addr × Addr) × ℕ)
      → Outcome (List (ℕ × Entry Addr) × List ((Addr × Addr) × ℕ))
  retain now [] addrs = done ([], addrs)
  retain now ((id, entry) ∷ ids) addrs =
      let pair : Addr × Addr = (entry.peer_addr, entry.our_addr) in
      let kept : Outcome (List (ℕ × Entry Addr) × List ((Addr × Addr) × ℕ)) =
        elim (retain now ids addrs) [
          | done (ids', addrs') ↦ done ((id, entry) ∷ ids', addrs')
          | panicked ↦ panicked
          | still_drawing ↦ still_drawing
        ] in
      let dropped = retain now ids (erase pair addrs) in
      if ltb now entry.expires
      then kept
      else elim (find pair addrs) [ none ↦ panicked | some client_id ↦ dropped ]

  unfoldable pub prune_udp_clients : ℕ → ClientIdMaps Addr → Outcome (ClientIdMaps Addr)
  unfolding retain
  prune_udp_clients now maps = elim (retain now maps.client_id_map maps.client_addr_map) [
    | done (ids, addrs) ↦ done (record { client_id_map = ids; client_addr_map = addrs })
    | panicked ↦ panicked
    | still_drawing ↦ still_drawing
  ]

  -- The timer of `prune_client_id_map_task`: one prune for each tick.
  unfoldable pub prune_client_id_map_task : List ℕ → ClientIdMaps Addr → Outcome (ClientIdMaps Addr)
  unfolding prune_udp_clients
  prune_client_id_map_task [] maps = done maps
  prune_client_id_map_task (now ∷ ticks) maps = elim (prune_udp_clients now maps) [
    | done maps' ↦ prune_client_id_map_task ticks maps'
    | panicked ↦ panicked
    | still_drawing ↦ still_drawing
  ]

module _ {Addr : Type 0} where
  -- `none` where the client is not known.
  unfoldable pub send_datagram_reply : ClientIdMaps Addr → ℕ → List ℕ → Option (Reply Addr)
  send_datagram_reply maps client_id bytes =
      let known : Option (Reply Addr) = elim (lookup client_id maps.client_id_map) [
        | none ↦ none
        | some info ↦ some (
            if info.socks5
            then to_relay info.socket info.peer_addr bytes
            else to_peer info.socket info.peer_addr bytes)
      ] in
      if client_id == 0 then some (to_stdout bytes) else known
