-- ===== src/Client/Handlers.antt =====
-- src/client/handle_remote: `handle_remote` with the handlers of TCP and UDP remotes.
--
-- What the sockets, the standard input and the main loop give is an argument, a round for each turn
-- of a loop. A loop that has used up its rounds still runs.
pub mod Dispatch
pub mod Stdin
use penguin_rs.Base.{
  ℕ, zero, suc, List, [], ◌∷◌, ◌++◌, Bool, true, false, Option, none, some, Result, ok, err,
  if◌then◌else◌, Key,
}
use penguin_rs.Mux.State.{MuxStream, Datagram}
use penguin_rs.Remote.Str.{Text}
use penguin_rs.Client.Errors.{IoErrorKind, io_retryable}
use penguin_rs.Client.Session.{StreamCommand}
use penguin_rs.Client.Maps.{ClientIdMaps, Outcome, done, panicked, still_drawing, add_udp_client}

pub data FatalError : Type 0 where
  client_io : IoErrorKind → FatalError
  request_stream send_datagram main_loop_exit_without_sending_stream : FatalError

-- A handler runs, was stopped by a panic or is drawing a number, or returned.
pub data HandlerRun : Type 0 where
  running stuck : HandlerRun
  returned : Result FatalError (Unit {0}) → HandlerRun

-- What a handler hands to the main loop, and the clients that it adds.
pub record Handed (Addr : Type 0) : Type 0 where
  pub maps : ClientIdMaps Addr
  pub datagram_tx : List Datagram
  pub stream_command_tx : List StreamCommand
  -- The streams that are joined with a connection, in a task of their own or by the handler.
  pub copied : List MuxStream

-- `read_line` gives a line with its end, and at the end of the input an empty one.
unfoldable pub read_line : List (Result IoErrorKind Text) → Result IoErrorKind Text
read_line [] = ok []
read_line (line ∷ stdin) = line

unfoldable pub lines_left : List (Result IoErrorKind Text) → List (Result IoErrorKind Text)
lines_left [] = []
lines_left (line ∷ stdin) = stdin

module _ {Addr : Type 0} where
  unfoldable pub send_to_main :
      Bool
      → Datagram
      → Handed Addr
      → (Handed Addr → HandlerRun × Handed Addr)
      → HandlerRun × Handed Addr
  send_to_main main_open frame h next =
      if main_open
      then next (record h { datagram_tx = h.datagram_tx ++ frame ∷ [] })
      else (returned (err send_datagram), h)

  unfoldable pub send_line :
      Text
      → ℕ
      → Bool
      → Result IoErrorKind Text
      → Handed Addr
      → (Handed Addr → HandlerRun × Handed Addr)
      → HandlerRun × Handed Addr
  unfolding send_to_main
  send_line rhost rport main_open (err e) h next = (returned (err (client_io e)), h)
  send_line rhost rport main_open (ok line) h next =
      send_to_main main_open
        (record { flow_id = 0; target_host = rhost; target_port = rport; payload_data = line }) h
        next

  -- The first argument is the number of rounds.
  unfoldable pub handle_udp_stdio :
      ℕ → Text → ℕ → Bool → List (Result IoErrorKind Text) → Handed Addr → HandlerRun × Handed Addr
  unfolding read_line lines_left send_line
  handle_udp_stdio zero rhost rport main_open stdin h = (running, h)
  handle_udp_stdio (suc rounds) rhost rport main_open stdin h =
      send_line rhost rport main_open (read_line stdin) h
        (handle_udp_stdio rounds rhost rport main_open (lines_left stdin))

-- One turn of the loop over a UDP socket: `recv_from`, with the time and the random numbers then.
pub record UdpRound (Addr : Type 0) : Type 0 where
  pub recv_from : Result IoErrorKind (List ℕ × Addr)
  pub now : ℕ
  pub random : List ℕ
  pub main_open : Bool

module _ {Addr : Type 0} ⦃key : Key Addr⦄ where
  unfoldable pub with_client :
      Outcome (ℕ × ClientIdMaps Addr)
      → (ℕ → Datagram)
      → Bool
      → Handed Addr
      → (Handed Addr → HandlerRun × Handed Addr)
      → HandlerRun × Handed Addr
  unfolding send_to_main
  with_client (done (client_id, maps)) frame main_open h next =
      send_to_main main_open (frame client_id) (record h { maps = maps }) next
  with_client panicked frame main_open h next = (stuck, h)
  with_client still_drawing frame main_open h next = (stuck, h)

  unfoldable pub udp_turn :
      ℕ
      → Addr
      → Text
      → ℕ
      → UdpRound Addr
      → Result IoErrorKind (List ℕ × Addr)
      → Handed Addr
      → (Handed Addr → HandlerRun × Handed Addr)
      → HandlerRun × Handed Addr
  unfolding with_client
  udp_turn socket our_addr rhost rport round (err e) h next = (returned (err (client_io e)), h)
  udp_turn socket our_addr rhost rport round (ok (bytes, addr)) h next =
      with_client (add_udp_client round.now round.random h.maps addr our_addr socket false)
        (λ client_id. record {
          flow_id = client_id;
          target_host = rhost;
          target_port = rport;
          payload_data = bytes;
        })
        round.main_open h next

  -- The loop over the socket, which is bound to `our_addr`.
  unfoldable pub handle_udp :
      ℕ → Addr → Text → ℕ → List (UdpRound Addr) → Handed Addr → HandlerRun × Handed Addr
  unfolding udp_turn
  handle_udp socket our_addr rhost rport [] h = (running, h)
  handle_udp socket our_addr rhost rport (round ∷ rounds) h =
      udp_turn socket our_addr rhost rport round round.recv_from h
        (handle_udp socket our_addr rhost rport rounds)

-- One turn of the loop over a listener: whether the main loop gives a permit, the connection, the
-- oneshot channel, what comes back on it, and (for the standard streams) how the copying ends.
pub record TcpRound : Type 0 where
  pub permit : Bool
  pub accept : Result IoErrorKind (Unit {0})
  pub tx : ℕ
  pub answer : Option MuxStream
  pub copy : Result IoErrorKind (Unit {0})

module _ {Addr : Type 0} where
  -- The command goes out on the permit; the answer is waited for.
  unfoldable pub request_tcp_channel :
      TcpRound → Text → ℕ → Handed Addr → Option MuxStream × Handed Addr
  request_tcp_channel round dest_host dest_port h = (
    round.answer,
    record h {
      stream_command_tx =
          h.stream_command_tx ++ record { tx = round.tx; host = dest_host; port = dest_port } ∷ [];
    },
  )

  unfoldable pub with_channel :
      Option MuxStream × Handed Addr
      → (MuxStream → Handed Addr → HandlerRun × Handed Addr)
      → HandlerRun × Handed Addr
  with_channel (none, h) use_channel = (returned (err main_loop_exit_without_sending_stream), h)
  with_channel (some stream, h) use_channel =
      use_channel stream (record h { copied = h.copied ++ stream ∷ [] })

  accepted :
      TcpRound
      → Text
      → ℕ
      → Result IoErrorKind (Unit {0})
      → Handed Addr
      → (Handed Addr → HandlerRun × Handed Addr)
      → HandlerRun × Handed Addr
  unfolding request_tcp_channel with_channel
  accepted round rhost rport (err e) h next = (returned (err (client_io e)), h)
  accepted round rhost rport (ok u) h next =
      with_channel (request_tcp_channel round rhost rport h) (λ stream. next)

  -- The forwarder runs in a task of its own, whatever becomes of it.
  unfoldable pub handle_tcp : Text → ℕ → List TcpRound → Handed Addr → HandlerRun × Handed Addr
  unfolding accepted
  handle_tcp rhost rport [] h = (running, h)
  handle_tcp rhost rport (round ∷ rounds) h =
      let rest = handle_tcp rhost rport rounds in
      if round.permit
      then accepted round rhost rport round.accept h rest
      else (returned (err request_stream), h)

  after_copy :
      Result IoErrorKind (Unit {0})
      → (Handed Addr → HandlerRun × Handed Addr)
      → Handed Addr
      → HandlerRun × Handed Addr
  after_copy (ok u) next h = (returned (ok tt), h)
  after_copy (err e) next h = if io_retryable e then next h else (returned (err (client_io e)), h)

  unfoldable pub handle_tcp_stdio :
      Text → ℕ → List TcpRound → Handed Addr → HandlerRun × Handed Addr
  unfolding request_tcp_channel with_channel after_copy
  handle_tcp_stdio rhost rport [] h = (running, h)
  handle_tcp_stdio rhost rport (round ∷ rounds) h =
      let rest = handle_tcp_stdio rhost rport rounds in
      if round.permit
      then with_channel (request_tcp_channel round rhost rport h)
          (λ stream. after_copy round.copy rest)
      else (returned (err request_stream), h)
