-- ===== src/Remote.antt =====
-- src/parse_remote.rs: the specification of a remote on the client's command line.
pub mod Str
pub mod Ports
pub mod Tokens
pub mod RoundTrip
pub mod Total
mod Examples
use penguin_rs.Base.{
  ℕ, zero, suc, ◌+◌, ◌-◌, List, [], ◌∷◌, ◌++◌, Bool, true, false, ◌&&◌, Option, none, some,
  if◌then◌else◌, ◌==◌, length, take, drop, Result, ok, err, ◌>>=◌, ◌>>◌,
}
use penguin_rs.Remote.Str.{
  Text, split_once, rsplit_once, starts_with, ends_with, contains, is_text, to_lowercase,
}
use penguin_rs.Remote.Ports.{ParseIntError, parse_u16, show_u16}

pub data Protocol : Type 0 where
  tcp udp : Protocol

pub data LocalSpec : Type 0 where
  inet : Text → ℕ → LocalSpec
  stdio : LocalSpec

pub data RemoteSpec : Type 0 where
  inet : Text → ℕ → RemoteSpec
  socks : RemoteSpec

pub record Remote : Type 0 where
  pub local_addr : LocalSpec
  pub remote_addr : RemoteSpec
  pub protocol : Protocol

pub data Error : Type 0 where
  format protocol host udp_socks : Error
  port : ParseIntError → Error

-- What the parser gives other than a remote: an error, or a panic.
pub data Failure : Type 0 where
  failed : Error → Failure
  panicked out_of_fuel : Failure

abbrev pub socks_word : Text
socks_word = b's' ∷ b'o' ∷ b'c' ∷ b'k' ∷ b's' ∷ []

abbrev pub stdio_word : Text
stdio_word = b's' ∷ b't' ∷ b'd' ∷ b'i' ∷ b'o' ∷ []

abbrev pub tcp_word : Text
tcp_word = b't' ∷ b'c' ∷ b'p' ∷ []

abbrev pub udp_word : Text
udp_word = b'u' ∷ b'd' ∷ b'p' ∷ []

-- `default_host!`, under the feature `default-is-ipv6` or without it.
unfoldable pub local_host : Bool → Text
local_host true = b':' ∷ b':' ∷ b'1' ∷ []
local_host false = b'1' ∷ b'2' ∷ b'7' ∷ b'.' ∷ b'0' ∷ b'.' ∷ b'0' ∷ b'.' ∷ b'1' ∷ []

unfoldable pub unspec_host : Bool → Text
unspec_host true = b':' ∷ b':' ∷ []
unspec_host false = b'0' ∷ b'.' ∷ b'0' ∷ b'.' ∷ b'0' ∷ b'.' ∷ b'0' ∷ []

unfoldable pub show_protocol : Protocol → Text
show_protocol tcp = tcp_word
show_protocol udp = udp_word

unfoldable pub protocol_from_str : Text → Result Failure Protocol
unfolding is_text to_lowercase
protocol_from_str s =
    let lower = to_lowercase s in
    if is_text lower tcp_word
    then ok tcp
    else if is_text lower udp_word
    then ok udp
    else err (failed protocol)

-- One round of the loop of `tokenize_remote`: the last token, an error, or a token and what follows.
pub data Round : Type 0 where
  last : Text → Round
  failing : Failure → Round
  more : Text → Text → Round

after_bracket : Text → Text → Round
after_bracket token [] = failing panicked
after_bracket token (c ∷ rest) = if c == b':' then more token rest else failing (failed format)

bracketed : Option (Text × Text) → Round
unfolding after_bracket
bracketed none = failing (failed host)
bracketed (some (before, after)) = after_bracket (before ++ (b']' ∷ [])) after

plain : Text → Option (Text × Text) → Round
plain stuff none = last stuff
plain stuff (some (token, rest)) = more token rest

unfoldable pub tokenize_round : Text → Round
unfolding bracketed plain
tokenize_round stuff =
    if starts_with b'[' stuff
    then bracketed (split_once b']' stuff)
    else plain stuff (split_once b':' stuff)

unfoldable pub tokenize_from : ℕ → Text → Result Failure (List Text)
tokenize_from zero stuff = err out_of_fuel
tokenize_from (suc fuel) stuff = elim (tokenize_round stuff) [
  | last token ↦ ok (token ∷ [])
  | failing e ↦ err e
  | more token rest ↦ tokenize_from fuel rest >>= λ tokens. ok (token ∷ tokens)
]

-- Each round takes a byte at least, so this is fuel enough.
unfoldable pub tokenize_remote : Text → Result Failure (List Text)
tokenize_remote s = tokenize_from (suc (length s)) s

unfoldable pub remove_brackets : Text → Text
remove_brackets s =
    if starts_with b'[' s && ends_with b']' s then take (length s - 2) (drop 1 s) else s

-- `port.parse()?`, whose error becomes `Error::Port`.
abbrev pub parse_port : Text → Result Failure ℕ
parse_port s = elim (parse_u16 s) [ ok n ↦ ok n | err e ↦ err (failed (port e)) ]

abbrev local_at : Text → Text → Result Failure LocalSpec
local_at name s = parse_port s >>= λ n. ok (LocalSpec.inet name n)

abbrev remote_at : Text → Text → Result Failure RemoteSpec
remote_at name s = parse_port s >>= λ n. ok (RemoteSpec.inet name n)

-- The arms of the match on the tokens; the local side is parsed first.
unfoldable pub from_tokens : Bool → List Text → Result Failure (LocalSpec × RemoteSpec)
unfolding remove_brackets is_text
from_tokens v6 (a ∷ []) =
    if is_text a socks_word
    then ok (LocalSpec.inet (local_host v6) 1080, RemoteSpec.socks)
    else do l ← local_at (unspec_host v6) a; r ← remote_at (local_host v6) a; ok (l, r)
from_tokens v6 (a ∷ b ∷ []) =
    if is_text b socks_word
    then (if is_text a stdio_word
        then ok (LocalSpec.stdio, RemoteSpec.socks)
        else (local_at (local_host v6) a >>= λ l. ok (l, RemoteSpec.socks)))
    else if is_text a stdio_word
    then (remote_at (local_host v6) b >>= λ r. ok (LocalSpec.stdio, r))
    else do l ← local_at (unspec_host v6) b; r ← remote_at (remove_brackets a) b; ok (l, r)
from_tokens v6 (a ∷ b ∷ c ∷ []) =
    if is_text a stdio_word
    then (remote_at (remove_brackets b) c >>= λ r. ok (LocalSpec.stdio, r))
    else if is_text c socks_word
    then (local_at (remove_brackets a) b >>= λ l. ok (l, RemoteSpec.socks))
    else do l ← local_at (unspec_host v6) a; r ← remote_at (remove_brackets b) c; ok (l, r)
from_tokens v6 (a ∷ b ∷ c ∷ d ∷ []) = do
  l ← local_at (remove_brackets a) b
  r ← remote_at (remove_brackets c) d
  ok (l, r)
from_tokens v6 _ = err (failed format)

-- A socks remote must be TCP.
unfoldable pub check_socks : LocalSpec × RemoteSpec → Protocol → Result Failure Remote
check_socks (l, RemoteSpec.socks) udp = err (failed udp_socks)
check_socks (l, RemoteSpec.socks) tcp =
    ok (record { local_addr = l; remote_addr = RemoteSpec.socks; protocol = tcp })
check_socks (l, RemoteSpec.inet h n) p =
    ok (record { local_addr = l; remote_addr = RemoteSpec.inet h n; protocol = p })

-- The protocol stands behind the last `/`; without one it is TCP.
unfoldable pub split_protocol : Text → Result Failure (Text × Protocol)
unfolding protocol_from_str
split_protocol s = elim (rsplit_once b'/' s) [
  | none ↦ ok (s, tcp)
  | some (rest, p) ↦ protocol_from_str p >>= λ q. ok (rest, q)
]

unfoldable pub from_str : Bool → Text → Result Failure Remote
unfolding split_protocol tokenize_remote from_tokens check_socks
from_str v6 s = split_protocol s >>= λ (rest, p).
    tokenize_remote rest >>= λ tokens. from_tokens v6 tokens >>= λ specs. check_socks specs p

unfoldable pub show_host : Text → Text
show_host h = if contains b':' h then (b'[' ∷ h) ++ (b']' ∷ []) else h

unfoldable pub show_local : LocalSpec → Text
unfolding show_host
show_local (LocalSpec.inet h n) = show_host h ++ (b':' ∷ show_u16 n)
show_local LocalSpec.stdio = stdio_word

unfoldable pub show_remote : RemoteSpec → Text
unfolding show_host
show_remote (RemoteSpec.inet h n) = b':' ∷ (show_host h ++ (b':' ∷ show_u16 n))
show_remote RemoteSpec.socks = b':' ∷ socks_word

unfoldable pub fmt : Remote → Text
unfolding show_local show_remote show_protocol
fmt r = (show_local r.local_addr ++ show_remote r.remote_addr) ++ (b'/' ∷ show_protocol r.protocol)
