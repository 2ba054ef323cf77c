-- ===== src/Socks/Address.antt =====
-- `Display` for `Ipv4Addr` and `Ipv6Addr`, which src/client/handle_remote/socks writes as hosts.
use penguin_rs.Base.{
  ℕ, zero, suc, ◌+◌, ◌-◌, ◌*◌, ◌/◌, ◌%◌, ◌^◌, List, [], ◌∷◌, ◌++◌, Bool, false, ◌&&◌, if◌then◌else◌,
  ◌==◌, ltb, take, drop,
}
use penguin_rs.Remote.Ports.{show_u16}

abbrev pub show_ipv4 : ℕ → ℕ → ℕ → ℕ → List ℕ
show_ipv4 x y z w =
    show_u16 x ++ (b'.' ∷ (show_u16 y ++ (b'.' ∷ (show_u16 z ++ (b'.' ∷ show_u16 w)))))

-- `Ipv4Addr::from(u32)`.
unfoldable pub ipv4_from_u32 : ℕ → List ℕ
ipv4_from_u32 ip = show_ipv4 (ip / 2 ^ 24 % 256) (ip / 2 ^ 16 % 256) (ip / 2 ^ 8 % 256) (ip % 256)

unfoldable pub ipv4_from_octets : List ℕ → List ℕ
ipv4_from_octets (x ∷ y ∷ z ∷ w ∷ []) = show_ipv4 x y z w
ipv4_from_octets _ = []

hex_digit : ℕ → ℕ
hex_digit n = if ltb n 10 then b'0' + n else b'a' + (n - 10)

show_hex : ℕ → ℕ → List ℕ
unfolding hex_digit
show_hex zero n = hex_digit (n % 16) ∷ []
show_hex (suc fuel) n =
    let front = show_hex fuel (n / 16) in
    if ltb n 16 then hex_digit n ∷ [] else front ++ (hex_digit (n % 16) ∷ [])

segments : List ℕ → List ℕ
segments (x ∷ y ∷ rest) = (x * 256 + y) ∷ segments rest
segments _ = []

-- The first longest run of zero segments: its start and its length.
longest_zeros : ℕ → ℕ × ℕ → ℕ × ℕ → List ℕ → ℕ × ℕ
longest_zeros i (start, len) longest [] = longest
longest_zeros i (start, len) longest (s ∷ ss) =
    let extended : ℕ × ℕ = (if len == 0 then i else start, len + 1) in
    let current : ℕ × ℕ = if s == 0 then extended else (0, 0) in
    longest_zeros (i + 1) current (if ltb longest.1 current.1 then current else longest) ss

-- At most four digits for each segment.
fmt_subslice : List ℕ → List ℕ
unfolding show_hex
fmt_subslice [] = []
fmt_subslice (s ∷ []) = show_hex 3 s
fmt_subslice (s ∷ t ∷ ss) = show_hex 3 s ++ (b':' ∷ fmt_subslice (t ∷ ss))

is_mapped : List ℕ → Bool
is_mapped (a ∷ b ∷ c ∷ d ∷ e ∷ f ∷ rest) =
    a == 0 && (b == 0 && (c == 0 && (d == 0 && (e == 0 && f == 65535))))
is_mapped _ = false

unfoldable pub ipv6_from_octets : List ℕ → List ℕ
unfolding segments longest_zeros fmt_subslice is_mapped ipv4_from_octets
ipv6_from_octets octets =
    let ss = segments octets in
    let (start, len) = longest_zeros 0 (0, 0) (0, 0) ss in
    if is_mapped ss
    then (b':' ∷ b':' ∷ b'f' ∷ b'f' ∷ b'f' ∷ b'f' ∷ b':' ∷ []) ++ ipv4_from_octets (drop 12 octets)
    else if ltb 1 len
    then fmt_subslice (take start ss) ++ (b':' ∷ b':' ∷ fmt_subslice (drop (start + len) ss))
    else fmt_subslice ss
