-- ===== src/Socks/Relay/Examples.antt =====
-- Datagrams of a SOCKS5 client of src/client/handle_remote/socks: the theorems at concrete inputs.
use penguin_rs.Base.{ℕ, ◌≡◌, [], ◌∷◌, none, ok, arith, Key, ◌==◌, ==_iff}
use penguin_rs.Mux.Frame.BigEndian.{big_endian}
use penguin_rs.Socks.V5.{v4}
use penguin_rs.Socks.Relay.{handle_udp_relay_header, send_udp_relay_response}
use penguin_rs.Socks.Relay.Datagrams.{send_udp_relay_response_dropped}

instance abbrev number_key : Key ℕ
number_key = record { same = λ a b. a == b; same_iff = ==_iff }

-- A reply for a client at 127.0.0.1.
send_udp_relay_response_dropped_example :
    handle_udp_relay_header big_endian
      (send_udp_relay_response big_endian (v4 (127 ∷ 0 ∷ 0 ∷ 1 ∷ []) 53) (7 ∷ []))
    ≡ ok none
unfolding send_udp_relay_response
send_udp_relay_response_dropped_example =
    send_udp_relay_response_dropped big_endian 127 0 0 1 53 (7 ∷ []) (omega arith) (omega arith)
      (omega arith) (ground arith)
