-- ===== src/Remote/RoundTrip.antt =====
-- src/parse_remote.rs: the parser reads back what `Display for Remote` prints, and always ends.
use penguin_rs.Base.{
  ℕ, ◌<◌, ◌^◌, ◌≡◌, refl, List, [], ◌∷◌, ◌++◌, Bool, true, false, arith, ok, append_assoc, inl, inr,
  Bool-cases,
}
use penguin_rs.Remote.Str.{Text, is_text, starts_with, contains, IsFreeOf, rsplit_once_at}
use penguin_rs.Remote.Ports.{show_u16, parse_u16-show_u16, show_u16_free, show_u16-starts}
use penguin_rs.Remote.{
  Protocol, tcp, udp, LocalSpec, RemoteSpec, Remote, socks_word, stdio_word, protocol_from_str,
  show_protocol, parse_port, from_tokens, check_socks, split_protocol, from_str, show_host,
  show_local, show_remote, fmt,
}
use penguin_rs.Remote.Tokens.{
  Tokens, one, cons, host_ok, host_round, plain_round, last_round, tokenize_remote_lem,
  remove_brackets-show_host,
}

abbrev IsLocal : LocalSpec → Type 0
IsLocal (LocalSpec.inet h n) = (host_ok h ≡ true) × (n < 2 ^ 16)
IsLocal LocalSpec.stdio = Unit {0}

-- A socks remote is TCP, and its local host is not `stdio`.
abbrev IsTarget : LocalSpec → RemoteSpec → Protocol → Type 0
IsTarget l (RemoteSpec.inet h n) p = (host_ok h ≡ true) × (n < 2 ^ 16)
IsTarget (LocalSpec.inet h n) RemoteSpec.socks p = (p ≡ tcp) × (is_text h stdio_word ≡ false)
IsTarget LocalSpec.stdio RemoteSpec.socks p = p ≡ tcp

-- What can be printed without a loss: hosts that their brackets can carry, and 16-bit ports.
abbrev pub IsPrintable : Remote → Type 0
IsPrintable r = IsLocal r.local_addr × IsTarget r.local_addr r.remote_addr r.protocol

protocol_read : (p : Protocol) → protocol_from_str (show_protocol p) ≡ ok p
unfolding protocol_from_str show_protocol
protocol_read tcp = refl
protocol_read udp = refl

slash_free : (q : Protocol) → IsFreeOf b'/' (show_protocol q)
unfolding show_protocol
slash_free tcp = omega arith
slash_free udp = omega arith

split_printed :
    (s : Text) (p : Protocol) → split_protocol (s ++ (b'/' ∷ show_protocol p)) ≡ ok (s, p)
unfolding split_protocol
split_printed s p =
    rw (rsplit_once_at b'/' s (show_protocol p) (slash_free p), split_protocol)
      (rw (protocol_read p))

-- The tokens of a host with its port, at the front and at the end.
pair_first :
    (h rest : Text) (n : ℕ) {ts : List Text}
    → host_ok h ≡ true
    → Tokens rest ts
    → Tokens ((show_host h ++ (b':' ∷ show_u16 n)) ++ (b':' ∷ rest)) (show_host h ∷ show_u16 n ∷ ts)
pair_first h rest n k ts = rw (append_assoc (show_host h) (b':' ∷ show_u16 n) (b':' ∷ rest)) (
    cons (host_round h (show_u16 n ++ (b':' ∷ rest)) k) (
      cons (plain_round (show_u16 n) rest (show_u16_free b':' n (omega arith)) (show_u16-starts n))
        ts))

pair_last :
    (h : Text) (n : ℕ)
    → host_ok h ≡ true
    → Tokens (show_host h ++ (b':' ∷ show_u16 n)) (show_host h ∷ show_u16 n ∷ [])
pair_last h n k =
    cons (host_round h (show_u16 n) k)
      (one (last_round (show_u16 n) (show_u16_free b':' n (omega arith)) (show_u16-starts n)))

socks_last : Tokens socks_word (socks_word ∷ [])
unfolding starts_with
socks_last = one (last_round socks_word (omega arith) (ground arith))

stdio_first :
    (rest : Text) {ts : List Text}
    → Tokens rest ts
    → Tokens (stdio_word ++ (b':' ∷ rest)) (stdio_word ∷ ts)
unfolding starts_with
stdio_first rest ts = cons (plain_round stdio_word rest (omega arith) (ground arith)) ts

parse_printed : (n : ℕ) → n < 2 ^ 16 → parse_port (show_u16 n) ≡ ok n
parse_printed n h = rw (parse_u16-show_u16 n h, parse_port)

show_host-stdio :
    (h : Text) → is_text h stdio_word ≡ false → is_text (show_host h) stdio_word ≡ false
unfolding show_host is_text
show_host-stdio h k = elim (Bool-cases (contains b':' h)) [
  | inl colon ↦ rw colon refl
  | inr none_there ↦ rw none_there k
]

-- The tokens of a printed remote, and the match on them.
specs_read :
    (v6 : Bool) (l : LocalSpec) (r : RemoteSpec) (p : Protocol)
    → IsLocal l
    → IsTarget l r p
    → (ts : List Text) × Tokens (show_local l ++ show_remote r) ts × (from_tokens v6 ts ≡ ok (l, r))
unfolding show_local show_remote from_tokens
specs_read v6 (LocalSpec.inet h n) (RemoteSpec.inet g m) p (k, small) (k', small') = (
  _,
  pair_first h _ n k (pair_last g m k'),
  rw (
    remove_brackets-show_host h k,
    remove_brackets-show_host g k',
    parse_printed n small,
    parse_printed m small',
  ),
)
specs_read v6 (LocalSpec.inet h n) RemoteSpec.socks p (k, small) (e, other) = (
  _,
  pair_first h _ n k socks_last,
  rw (show_host-stdio h other, remove_brackets-show_host h k, parse_printed n small),
)
specs_read v6 LocalSpec.stdio (RemoteSpec.inet g m) p k (k', small') = (
  _,
  stdio_first _ (pair_last g m k'),
  rw (remove_brackets-show_host g k', parse_printed m small'),
)
specs_read v6 LocalSpec.stdio RemoteSpec.socks p k e = (_, stdio_first _ socks_last, refl)

socks_checked :
    (l : LocalSpec) (r : RemoteSpec) (p : Protocol)
    → IsTarget l r p
    → check_socks (l, r) p ≡ ok (record { local_addr = l; remote_addr = r; protocol = p })
unfolding check_socks
socks_checked l (RemoteSpec.inet g m) p k = refl
socks_checked (LocalSpec.inet h n) RemoteSpec.socks tcp k = refl
socks_checked (LocalSpec.inet h n) RemoteSpec.socks udp k = cc (k.0)
socks_checked LocalSpec.stdio RemoteSpec.socks tcp k = refl
socks_checked LocalSpec.stdio RemoteSpec.socks udp k = cc k

-- A remote is read back from what is printed, with either default for the hosts, where its ports
-- have 16 bits, a host with a `:` holds no `]`, any other does not start with `[`, and a socks
-- remote is TCP and not local to a host called `stdio`.
pub from_str-fmt : (v6 : Bool) (r : Remote) → IsPrintable r → from_str v6 (fmt r) ≡ ok r
unfolding from_str fmt
from_str-fmt v6 r (kl, kr) =
    let (ts, tokens, e) = specs_read v6 r.local_addr r.remote_addr r.protocol kl kr in
    rw (
      split_printed (show_local r.local_addr ++ show_remote r.remote_addr) r.protocol,
      tokenize_remote_lem tokens,
      e,
      socks_checked r.local_addr r.remote_addr r.protocol kr,
    )
