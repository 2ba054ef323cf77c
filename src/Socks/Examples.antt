-- ===== src/Socks/Examples.antt =====
-- Concrete SOCKS clients of src/client/handle_remote/socks: runs, and the theorems at inputs.
use penguin_rs.Base.{◌≡◌, refl, [], ◌∷◌, true, ok, arith}
use penguin_rs.Socks.Io.{Main}
use penguin_rs.Socks.Address.{ipv4_from_u32, ipv6_from_octets}
use penguin_rs.Remote.Ports.{show_u16}
use penguin_rs.Socks.{copy_bidirectional, on_socks_accept}
use penguin_rs.Socks.Reader.{reader}
use penguin_rs.Socks.Requests.{takes_all, socks4_truncated}

abbrev main : Main
main = record { gives_permit = true; gives_channel = true }

-- `127.0.0.1`
ipv4_shown :
    ipv4_from_u32 2130706433 ≡ b'1' ∷ b'2' ∷ b'7' ∷ b'.' ∷ b'0' ∷ b'.' ∷ b'0' ∷ b'.' ∷ b'1' ∷ []
unfolding ipv4_from_u32 show_u16
ipv4_shown = refl

-- `fe80::1`
ipv6_shown :
    ipv6_from_octets (254 ∷ 128 ∷ 0 ∷ 0 ∷ 0 ∷ 0 ∷ 0 ∷ 0 ∷ 0 ∷ 0 ∷ 0 ∷ 0 ∷ 0 ∷ 0 ∷ 0 ∷ 1 ∷ [])
    ≡ b'f' ∷ b'e' ∷ b'8' ∷ b'0' ∷ b':' ∷ b':' ∷ b'1' ∷ []
unfolding ipv6_from_octets
ipv6_shown = refl

socks4_truncated_example :
    on_socks_accept reader main
      (takes_all (4 ∷ 1 ∷ 0 ∷ 80 ∷ 0 ∷ 0 ∷ 0 ∷ 1 ∷ b'u' ∷ 0 ∷ b'h' ∷ b'i' ∷ []) [])
    ≡ (ok (copy_bidirectional (b'h' ∷ []) 80), takes_all [] (0 ∷ 90 ∷ 0 ∷ 0 ∷ 0 ∷ 0 ∷ 0 ∷ 0 ∷ []))
socks4_truncated_example =
    socks4_truncated reader main (b'u' ∷ []) (b'h' ∷ b'i' ∷ []) 0 80 0 0 1 refl refl (omega arith)
      (omega arith) (omega arith) (omega arith) (omega arith)
