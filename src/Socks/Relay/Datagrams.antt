-- ===== src/Socks/Relay/Datagrams.antt =====
-- src/client/handle_remote/socks/mod.rs: which datagrams the relay understands, and which ones it
-- writes.
use penguin_rs.Base.{
  ℕ, ◌+◌, ◌^◌, ◌<◌, ◌≡◌, ◌≢◌, refl, ◌∙◌, List, [], ◌∷◌, ◌++◌, Bool, none, some, ok, if◌then◌else◌,
  ◌==◌, length, length-append, arith, ltb-false, ltb-true, All, Key,
}
use penguin_rs.Mux.Frame.{Buf, IsByte}
use penguin_rs.Socks.V5.{v4}
use penguin_rs.Socks.Relay.{
  handle_udp_relay_header, send_udp_relay_response, relay_address, relay_domain, target_after,
  parse_associate, Received, packet, Relay, ended, udp_relay, relay_packet,
}

module _ (b : Buf) where
  header_read :
      (frag atyp : ℕ) (rest : List ℕ)
      → handle_udp_relay_header b (b.be_u16 0 ++ (frag ∷ atyp ∷ rest))
        ≡ (if frag == 0 then relay_address b atyp rest else ok none)
  unfolding handle_udp_relay_header
  header_read frag atyp rest =
      let got = b.get_u16-be_u16 0 (frag ∷ atyp ∷ rest) (omega arith) in
      rw
        (
          got,
          b.get_u8_lem frag (atyp ∷ rest),
          b.get_u8_lem atyp rest,
          ltb-false (length (b.be_u16 0 ++ (frag ∷ atyp ∷ rest))) 4
              (omega (arith, length-append (b.be_u16 0) (frag ∷ atyp ∷ rest), b.length-be_u16 0)),
        )
        refl

  port_read :
      (host bytes : List ℕ) (port : ℕ)
      → port < 2 ^ 16
      → target_after b host (b.be_u16 port ++ bytes)
        ≡ ok (some (record { host = host; port = port; payload_bytes = bytes }))
  unfolding target_after
  port_read host bytes port fits = rw (b.get_u16-be_u16 port bytes fits) refl

  domain_read :
      (host bytes : List ℕ) (port : ℕ)
      → port < 2 ^ 16
      → relay_domain b (length host ∷ (host ++ (b.be_u16 port ++ bytes)))
        ≡ ok (some (record { host = host; port = port; payload_bytes = bytes }))
  unfolding relay_domain
  domain_read host bytes port fits =
      let tail = b.be_u16 port ++ bytes in
      rw
        (
          b.get_u8_lem (length host) (host ++ tail),
          b.split_to_lem host tail,
          ltb-false (length (length host ∷ (host ++ tail))) 1 (omega arith),
          ltb-false (length (host ++ tail)) (length host + 2) (
              omega (
                arith,
                length-append host tail,
                length-append (b.be_u16 port) bytes,
                b.length-be_u16 port,
              )),
        )
        (port_read host bytes port fits)

  -- A datagram that RFC 1928 writes for a domain and a port is understood: its host, its port and
  -- its data are read back.
  pub handle_udp_relay_header_domain :
      (host bytes : List ℕ) (port : ℕ)
      → port < 2 ^ 16
      → handle_udp_relay_header b
          (b.be_u16 0 ++ (0 ∷ 0x03 ∷ length host ∷ (host ++ (b.be_u16 port ++ bytes))))
        ≡ ok (some (record { host = host; port = port; payload_bytes = bytes }))
  unfolding relay_address
  handle_udp_relay_header_domain host bytes port fits =
      header_read 0 0x03 (length host ∷ (host ++ (b.be_u16 port ++ bytes)))
      ∙ domain_read host bytes port fits

  after_two :
      (front tail rest : List ℕ) (x y : ℕ)
      → length front ≡ 2
      → x ∷ y ∷ rest ≡ front ++ tail
      → tail ≡ rest
  after_two [] tail rest x y n e = absurd (omega (arith, n))
  after_two (p ∷ []) tail rest x y n e = absurd (omega (arith, n))
  after_two (p ∷ q ∷ []) tail rest x y n e = ground arith
  after_two (p ∷ q ∷ r ∷ front) tail rest x y n e = absurd (omega (arith, n))

  two_read :
      (x y : ℕ) (rest : List ℕ) → All IsByte (x ∷ y ∷ rest) → (b.get_u16 (x ∷ y ∷ rest)).1 ≡ rest
  two_read x y rest bytes =
      let (e, lt) = b.be_u16-get_u16 (x ∷ y ∷ rest) (omega arith) bytes in
      after_two (b.be_u16 (b.get_u16 (x ∷ y ∷ rest)).0) (b.get_u16 (x ∷ y ∷ rest)).1 rest x y
        (b.length-be_u16 _) e

  -- The response for an IPv4 address carries the address before its type, where RFC 1928 has the
  -- type first: a reader of that format, such as the relay itself, takes the first octet for the
  -- type, and drops the datagram unless that octet happens to be 1, 3 or 4.
  pub send_udp_relay_response_dropped :
      (x y z w port : ℕ) (bytes : List ℕ)
      → x ≢ 1
      → x ≢ 3
      → x ≢ 4
      → All IsByte (send_udp_relay_response b (v4 (x ∷ y ∷ z ∷ w ∷ []) port) bytes)
      → handle_udp_relay_header b (send_udp_relay_response b (v4 (x ∷ y ∷ z ∷ w ∷ []) port) bytes)
        ≡ ok none
  unfolding send_udp_relay_response handle_udp_relay_header relay_address
  send_udp_relay_response_dropped x y z w port bytes n1 n3 n4 all =
      let tail : List ℕ = y ∷ z ∷ w ∷ 0x01 ∷ (b.be_u16 port ++ bytes) in
      ground
        (arith, two_read 0 0 (0 ∷ x ∷ tail) all, b.get_u8_lem 0 (x ∷ tail), b.get_u8_lem x tail)

  -- A datagram of fewer than four bytes, which anyone may send, ends the relay with an error; what
  -- arrives after it is not relayed.
  pub short_packet_ends_relay :
      {Addr : Type 0} ⦃key : Key Addr⦄ (socket : ℕ) (our_addr addr : Addr) (bytes : List ℕ)
      (now : ℕ) (random : List ℕ) (main_open : Bool) (packets : List (Received Addr))
      (r : Relay Addr)
      → length bytes < 4
      → udp_relay b socket our_addr (packet bytes addr now random main_open ∷ packets) r
        ≡ (ended parse_associate, r)
  unfolding udp_relay relay_packet handle_udp_relay_header
  short_packet_ends_relay socket our_addr addr bytes now random main_open packets r short =
      rw (ltb-true (length bytes) 4 short, udp_relay) refl
