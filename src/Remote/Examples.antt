-- ===== src/Remote/Examples.antt =====
-- Concrete remotes of src/parse_remote.rs: runs, and the theorems at inputs.
use penguin_rs.Base.{◌≡◌, ◌≢◌, refl, [], ◌∷◌, false, arith, ok, err}
use penguin_rs.Remote.Str.{Text, starts_with, contains, rsplit_once, split_once}
use penguin_rs.Remote.Ports.{show_u16}
use penguin_rs.Remote.{
  tcp, LocalSpec, RemoteSpec, Remote, failed, panicked, out_of_fuel, udp_socks, fmt, from_str,
  tokenize_from, tokenize_round,
}
use penguin_rs.Remote.RoundTrip.{from_str-fmt}
use penguin_rs.Remote.Total.{from_str_ends, lone_bracket_panics}

-- `[::1]:80:h:443/tcp`
abbrev remote : Remote
remote = record {
  local_addr = LocalSpec.inet (b':' ∷ b':' ∷ b'1' ∷ []) 80;
  remote_addr = RemoteSpec.inet (b'h' ∷ []) 443;
  protocol = tcp;
}

abbrev printed : Text
printed =
    b'[' ∷ b':' ∷ b':' ∷ b'1' ∷ b']' ∷ b':' ∷ b'8' ∷ b'0' ∷ b':' ∷ b'h' ∷ b':' ∷ b'4' ∷ b'4' ∷ b'3'
    ∷ b'/' ∷ b't' ∷ b'c' ∷ b'p' ∷ []

remote_printed : fmt remote ≡ printed
unfolding fmt contains show_u16
remote_printed = refl

udp_refused :
    from_str false (b's' ∷ b'o' ∷ b'c' ∷ b'k' ∷ b's' ∷ b'/' ∷ b'U' ∷ b'd' ∷ b'p' ∷ [])
    ≡ err (failed udp_socks)
unfolding from_str rsplit_once tokenize_from tokenize_round starts_with split_once
udp_refused = refl

from_str-fmt_example : from_str false (fmt remote) ≡ ok remote
unfolding contains starts_with
from_str-fmt_example = from_str-fmt false remote ((refl, omega arith), (refl, omega arith))

from_str_ends_example : from_str false printed ≢ err out_of_fuel
from_str_ends_example = from_str_ends false printed

lone_bracket_panics_example : from_str false (b'[' ∷ b':' ∷ b':' ∷ b'1' ∷ b']' ∷ []) ≡ err panicked
lone_bracket_panics_example =
    lone_bracket_panics false (b':' ∷ b':' ∷ b'1' ∷ []) (omega arith) (omega arith)
