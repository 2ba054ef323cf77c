-- ===== src/Socks/Relay.antt =====
-- src/client/handle_remote/socks/mod.rs: the relay of datagrams for SOCKS5 clients (UDP ASSOCIATE).
--
-- The byte access of the `bytes` crate is the interface `Buf`; a `u128` is read as its 16 bytes.
pub mod Datagrams
mod Examples
use penguin_rs.Base.{
  ℕ, ◌+◌, List, [], ◌∷◌, ◌++◌, Bool, true, Option, none, some, Result, ok, err, if◌then◌else◌, ◌==◌,
  ltb, length, Key,
}
use penguin_rs.Mux.Frame.{Buf}
use penguin_rs.Mux.State.{Datagram}
use penguin_rs.Client.Maps.{ClientIdMaps, Outcome, done, panicked, still_drawing, add_udp_client}
use penguin_rs.Socks.Address.{ipv4_from_u32, ipv6_from_octets}
use penguin_rs.Socks.V5.{SocketAddr, v4, v6}

-- The errors of `socks::Error` that the relay makes.
pub data RelayError : Type 0 where
  parse_associate : RelayError
  io : ℕ → RelayError
  fatal_send_datagram : RelayError

-- The host and the port that a datagram is for, and its data.
pub record Target : Type 0 where
  pub host : List ℕ
  pub port : ℕ
  pub payload_bytes : List ℕ

module _ (b : Buf) where
  open b use {get_u8, get_u16, get_u32, split_to, be_u16}

  target_after : List ℕ → List ℕ → Result RelayError (Option Target)
  target_after host buf =
      let (port, rest) = get_u16 buf in
      ok (some (record { host = host; port = port; payload_bytes = rest }))

  relay_ipv4 : List ℕ → Result RelayError (Option Target)
  unfolding target_after
  relay_ipv4 buf =
      let (addr, rest) = get_u32 buf in
      if ltb (length buf) 6 then err parse_associate else target_after (ipv4_from_u32 addr) rest

  relay_domain : List ℕ → Result RelayError (Option Target)
  unfolding target_after
  relay_domain buf =
      let (len, rest) = get_u8 buf in
      let (dst, rest') = split_to len rest in
      if ltb (length buf) 1
      then err parse_associate
      else if ltb (length rest) (len + 2)
      then err parse_associate
      else target_after dst rest'

  relay_ipv6 : List ℕ → Result RelayError (Option Target)
  unfolding target_after
  relay_ipv6 buf =
      let (addr, rest) = split_to 16 buf in
      if ltb (length buf) 18 then err parse_associate else target_after (ipv6_from_octets addr) rest

  -- The `match atyp`; a datagram with another type is dropped.
  unfoldable pub relay_address : ℕ → List ℕ → Result RelayError (Option Target)
  unfolding relay_ipv4 relay_domain relay_ipv6
  relay_address atyp buf =
      if atyp == 0x01
      then relay_ipv4 buf
      else if atyp == 0x03
      then relay_domain buf
      else if atyp == 0x04
      then relay_ipv6 buf
      else ok none

  -- The bytes of one datagram; the address it came from is passed on by the caller.
  unfoldable pub handle_udp_relay_header : List ℕ → Result RelayError (Option Target)
  unfolding relay_address
  handle_udp_relay_header buf =
      let (reserved, buf1) = get_u16 buf in
      let (frag, buf2) = get_u8 buf1 in
      let (atyp, buf3) = get_u8 buf2 in
      if ltb (length buf) 4
      then err parse_associate
      else if frag == 0
      then relay_address atyp buf3
      else ok none

  -- The bytes that are sent to the client.
  unfoldable pub send_udp_relay_response : SocketAddr → List ℕ → List ℕ
  send_udp_relay_response (v4 octets port) payload =
      (((0 ∷ 0 ∷ 0 ∷ []) ++ octets) ++ (0x01 ∷ [])) ++ (be_u16 port ++ payload)
  send_udp_relay_response (v6 octets port) payload =
      (((0 ∷ 0 ∷ 0 ∷ []) ++ octets) ++ (0x04 ∷ [])) ++ (be_u16 port ++ payload)

-- What `recv_from` gives: a datagram and where it came from, at a time, with the numbers that the
-- random generator gives then, and whether the main loop is still there.
pub data Received (Addr : Type 0) : Type 0 where
  packet : List ℕ → Addr → ℕ → List ℕ → Bool → Received Addr
  recv_failed : ℕ → Received Addr

-- The relay goes on, or has ended.
pub data RelayRun : Type 0 where
  relaying panicked_or_drawing : RelayRun
  ended : RelayError → RelayRun

pub record Relay (Addr : Type 0) : Type 0 where
  pub maps : ClientIdMaps Addr
  pub datagram_tx : List Datagram

abbrev pub to_datagram : ℕ → Target → Datagram
to_datagram client_id target = record {
  flow_id = client_id;
  target_host = target.host;
  target_port = target.port;
  payload_data = target.payload_bytes;
}

module _ {Addr : Type 0} ⦃key : Key Addr⦄ where
  unfoldable pub relay_send :
      Bool
      → Target
      → Outcome (ℕ × ClientIdMaps Addr)
      → Relay Addr
      → (Relay Addr → RelayRun × Relay Addr)
      → RelayRun × Relay Addr
  relay_send main_open target (done (client_id, maps)) r next =
      let r' : Relay Addr = record {
        maps = maps;
        datagram_tx = r.datagram_tx ++ to_datagram client_id target ∷ [];
      } in
      if main_open then next r' else (ended fatal_send_datagram, record r { maps = maps })
  relay_send main_open target panicked r next = (panicked_or_drawing, r)
  relay_send main_open target still_drawing r next = (panicked_or_drawing, r)

  unfoldable pub relay_packet :
      Result RelayError (Option Target)
      → (Target → Outcome (ℕ × ClientIdMaps Addr))
      → Bool
      → Relay Addr
      → (Relay Addr → RelayRun × Relay Addr)
      → RelayRun × Relay Addr
  unfolding relay_send
  relay_packet (err e) add main_open r next = (ended e, r)
  relay_packet (ok none) add main_open r next = next r
  relay_packet (ok (some target)) add main_open r next =
      relay_send main_open target (add target) r next

  -- The loop of the task; `socket` names the socket, bound to `our_addr`.
  unfoldable pub udp_relay :
      Buf → ℕ → Addr → List (Received Addr) → Relay Addr → RelayRun × Relay Addr
  unfolding relay_packet
  udp_relay b socket our_addr [] r = (relaying, r)
  udp_relay b socket our_addr (recv_failed e ∷ packets) r = (ended (io e), r)
  udp_relay b socket our_addr (packet bytes addr now random main_open ∷ packets) r =
      relay_packet (handle_udp_relay_header b bytes)
        (λ target. add_udp_client now random r.maps addr our_addr socket true) main_open r
        (udp_relay b socket our_addr packets)
