-- ===== src/Server/Forwarder.antt =====
-- src/server/forwarder.rs: the forwarders of UDP datagrams and of TCP streams.
--
-- What the resolver, the sockets and the channels give is an argument; an address and a socket are
-- named by numbers, and so is an I/O error.
pub mod Forwarding
use penguin_rs.Base.{
  ℕ, List, [], ◌∷◌, ◌++◌, Bool, true, false, ◌&&◌, ◌||◌, Option, none, some, Result, ok, err,
  if◌then◌else◌, ◌==◌, ltb, leb,
}
use penguin_rs.Mux.State.{MuxStream, Datagram, TrySend}

pub data Error : Type 0 where
  io : ℕ → Error
  -- No address was found.
  invalid_input : Error
  host : Error

abbrev in_range : ℕ → ℕ → ℕ → Bool
in_range low high c = leb low c && leb c high

abbrev is_continuation : ℕ → Bool
is_continuation c = in_range 128 191 c

-- The second byte of a sequence of three, or of four, is in a range of its own for some first bytes.
abbrev second_of_three : ℕ → ℕ → Bool
second_of_three a b =
    if a == 224
    then in_range 160 191 b
    else if a == 237
    then in_range 128 159 b
    else is_continuation b

abbrev second_of_four : ℕ → ℕ → Bool
second_of_four a b =
    if a == 240
    then in_range 144 191 b
    else if a == 244
    then in_range 128 143 b
    else is_continuation b

-- `std::str::from_utf8`.
unfoldable pub is_utf8 : List ℕ → Bool
is_utf8 [] = true
is_utf8 (a ∷ []) = ltb a 128
is_utf8 (a ∷ b ∷ []) = (ltb a 128 && ltb b 128) || (in_range 194 223 a && is_continuation b)
is_utf8 (a ∷ b ∷ c ∷ []) =
    let one = is_utf8 (b ∷ c ∷ []) in
    (ltb a 128 && one)
    || ((in_range 194 223 a && (is_continuation b && ltb c 128))
        || (in_range 224 239 a && (second_of_three a b && is_continuation c)))
is_utf8 (a ∷ b ∷ c ∷ d ∷ s) =
    let one = is_utf8 (b ∷ c ∷ d ∷ s) in
    let two = is_utf8 (c ∷ d ∷ s) in
    let three = is_utf8 (d ∷ s) in
    let four = is_utf8 s in
    if ltb a 128
    then one
    else if in_range 194 223 a
    then is_continuation b && two
    else if in_range 224 239 a
    then second_of_three a b && (is_continuation c && three)
    else in_range 240 244 a
      && (second_of_four a b && (is_continuation c && (is_continuation d && four)))

-- An address that the resolver gives, and what binding a socket of its family gives then.
pub record Candidate : Type 0 where
  pub target : ℕ
  pub is_ipv4 : Bool
  pub bind_any_ipv4 : Result ℕ ℕ
  pub bind_any_ipv6 : Result ℕ ℕ

unfoldable pub bound : Candidate → Result ℕ ℕ
bound c = if c.is_ipv4 then c.bind_any_ipv4 else c.bind_any_ipv6

abbrev no_address : Option ℕ → Error
no_address none = invalid_input
no_address (some e) = io e

unfoldable pub bind_first : List Candidate → Option ℕ → Result Error (ℕ × ℕ)
bind_first [] last_err = err (no_address last_err)
bind_first (c ∷ targets) last_err = elim (bound c) [
  | ok socket ↦ ok (socket, c.target)
  | err e ↦ bind_first targets (some e)
]

unfoldable pub bind_for_target : Result ℕ (List Candidate) → Result Error (ℕ × ℕ)
unfolding bind_first
bind_for_target (err e) = err (io e)
bind_for_target (ok targets) = bind_first targets none

-- What the `select!` of the loop finds ready: a packet on the socket, and whether the channel to
-- the main loop takes it; a datagram, and what sending it gives; or the end of the time limit.
pub data Event : Type 0 where
  socket_received : List ℕ → TrySend → Event
  channel_received : Datagram → Result ℕ (Unit {0}) → Event
  timed_out : Event

pub data Run : Type 0 where
  running : Run
  returned : Result Error (Unit {0}) → Run

-- The packets sent on the socket, each with the host and port, and the datagrams sent back.
pub record Traffic : Type 0 where
  pub sent_packets : List (List ℕ × ℕ × List ℕ)
  pub datagram_tx : List Datagram

abbrev pub reply_to : Datagram → List ℕ → Datagram
reply_to first bytes = record {
  flow_id = first.flow_id;
  target_host = first.target_host;
  target_port = first.target_port;
  payload_data = bytes;
}

unfoldable pub send_to :
    Result ℕ (Unit {0}) → Datagram → Traffic → (Traffic → Run × Traffic) → Run × Traffic
send_to (err e) d t next = (returned (err (io e)), t)
send_to (ok u) d t next = next (record t {
  sent_packets = t.sent_packets ++ (d.target_host, d.target_port, d.payload_data) ∷ [];
})

unfoldable pub turn : Datagram → Event → Traffic → (Traffic → Run × Traffic) → Run × Traffic
unfolding send_to
turn first (socket_received bytes TrySend.sent) t next =
    next (record t { datagram_tx = t.datagram_tx ++ reply_to first bytes ∷ [] })
turn first (socket_received bytes TrySend.full) t next = next t
turn first (socket_received bytes TrySend.closed) t next = (returned (ok tt), t)
turn first (channel_received d outcome) t next =
    let sent = send_to outcome d t next in
    if is_utf8 d.target_host then sent else (returned (err host), t)
turn first timed_out t next = (returned (ok tt), t)

unfoldable pub forward_loop : Datagram → List Event → Traffic → Run × Traffic
unfolding turn
forward_loop first [] t = (running, t)
forward_loop first (event ∷ events) t = turn first event t (forward_loop first events)

abbrev pub no_traffic : Traffic
no_traffic = record { sent_packets = []; datagram_tx = [] }

unfoldable pub on_bound :
    Datagram → Result Error (ℕ × ℕ) → Result ℕ (Unit {0}) → List Event → Run × Traffic
unfolding forward_loop send_to
on_bound first (err e) outcome events = (returned (err e), no_traffic)
on_bound first (ok (socket, target)) outcome events =
    send_to outcome first no_traffic (forward_loop first events)

unfoldable pub udp_forward_on :
    Datagram → Result ℕ (List Candidate) → Result ℕ (Unit {0}) → List Event → Run × Traffic
unfolding on_bound
udp_forward_on first lookup_host outcome events =
    if is_utf8 first.target_host
    then on_bound first (bind_for_target lookup_host) outcome events
    else (returned (err host), no_traffic)

-- What the connection gives, its address, and how the copying ends.
unfoldable pub tcp_forwarder_on_channel :
    MuxStream → Result ℕ (Unit {0}) → Result ℕ ℕ → Result ℕ (Unit {0}) → Result Error (Unit {0})
tcp_forwarder_on_channel channel connect peer_addr copied =
    let after_connect : Result Error (Unit {0}) = elim connect [
      | err e ↦ err (io e)
      | ok u ↦ elim peer_addr [
        | err e ↦ err (io e)
        | ok a ↦ elim copied [ err e ↦ err (io e) | ok u' ↦ ok tt ]
      ]
    ] in
    if is_utf8 channel.dest_host then after_connect else err host
