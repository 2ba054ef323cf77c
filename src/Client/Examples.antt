-- ===== src/Client/Examples.antt =====
-- A small client of src/client: runs, and the theorems at concrete inputs.
use penguin_rs.Base.{
  ℕ, ◌+◌, ◌*◌, ◌≤◌, ◌<◌, ◌≡◌, refl, [], ◌∷◌, ◌++◌, map, true, false, none, some, ok, err, arith,
  Key, ◌==◌, ==_iff, find, lookup, insert, put,
}
use penguin_rs.Mux.State.{MuxStream}
use penguin_rs.Mux.Api.{next_available_key}
use penguin_rs.Mux.Timing.{reset_backoff, advance, new_backoff}
use penguin_rs.Client.Maps.Pairs.{pair_key}
use penguin_rs.Client.Errors.{
  Tungstenite, already_closed, other, handshake_timeout, remote_disconnected, handshake_cancelled,
  max_retry_count_reached, retryable,
}
use penguin_rs.Client.Maps.{
  Entry, ClientIdMaps, done, add_udp_client, prune_udp_clients, send_datagram_reply,
}
use penguin_rs.Client.Maps.Invariant.{IsConsistent}
use penguin_rs.Client.Maps.Consistent.{IsAdded, add_udp_client-IsAdded}
use penguin_rs.Client.Maps.Replies.{Reaches, send_datagram_reply-prune_udp_clients}
use penguin_rs.Client.Session.{Session, opened, timed_out, stream_command, none_left, on_connected}
use penguin_rs.Client.MainLoop.{Round, Main, finished, client_backoff, main_future}
use penguin_rs.Client.MainLoop.Queue.{main_future-requesters}
use penguin_rs.Client.Session.Queue.{requesters}
use penguin_rs.Client.MainLoop.Retries.{doubled, refused, with_waits, main_future_gives_up}
use penguin_rs.Client.Handlers.{running, handle_udp_stdio}
use penguin_rs.Client.Handlers.Stdin.{empty_datagrams, handle_udp_stdio_floods}

instance abbrev number_key : Key ℕ
number_key = record { same = λ a b. a == b; same_iff = ==_iff }

-- An error of the WebSocket is a number: 0 is a connection that was closed.
instance abbrev numbered : Tungstenite ℕ
numbered = record {
  case_of = λ n. elim (n == 0) [ true ↦ already_closed | false ↦ other ];
  downcast_ref = λ n. some n;
}

-- The client at address 1 with our socket 9 at address 2, under the number 5.
abbrev no_clients : ClientIdMaps ℕ
no_clients = record { client_id_map = []; client_addr_map = [] }

abbrev the_client : Entry ℕ
the_client = record {
  peer_addr = 1;
  our_addr = 2;
  socket = 9;
  socks5 = false;
  expires = 10000000100;
}

abbrev one_client : ClientIdMaps ℕ
one_client = record { client_id_map = (5, the_client) ∷ []; client_addr_map = ((1, 2), 5) ∷ [] }

no_clients-IsConsistent : IsConsistent no_clients
unfolding lookup find
no_clients-IsConsistent = record {
  distinct = tt;
  positive = λ i e h. cc h;
  forward = λ i e h. cc h;
  back = λ p i h. cc h;
}

one_added : add_udp_client 100 (5 ∷ []) no_clients 1 2 9 false ≡ done (5, one_client)
unfolding add_udp_client next_available_key find lookup insert put
one_added = refl

add_udp_client-IsAdded_example :
    (after : ℕ × ClientIdMaps ℕ) × (add_udp_client 100 (5 ∷ []) no_clients 1 2 9 false ≡ done after)
    × IsAdded no_clients 100 (1, 2) after
unfolding next_available_key lookup
add_udp_client-IsAdded_example =
    add_udp_client-IsAdded no_clients no_clients-IsConsistent 100 1 2 (5 ∷ []) 5 9 false
      (omega arith, tt) refl

one_client-IsConsistent : IsConsistent one_client
unfolding lookup find
one_client-IsConsistent = record {
  distinct = (refl, tt);
  positive = λ i e h. ground arith;
  forward = λ i e h. ground arith;
  back = named;
}
  where
    named :
        (p : ℕ × ℕ) (i : ℕ)
        → find p one_client.client_addr_map ≡ some i
        → (e : Entry ℕ) × (lookup i one_client.client_id_map ≡ some e)
          × ((e.peer_addr, e.our_addr) ≡ p)
    named (a, b) i h = (the_client, ground (arith, h), ground (arith, h, ==_iff 1 a, ==_iff 2 b))

one_client-IsAdded : IsAdded no_clients 100 (1, 2) (5, one_client)
unfolding lookup find
one_client-IsAdded = record {
  consistent = one_client-IsConsistent;
  entry = the_client;
  stands = refl;
  addressed = refl;
  timed = refl;
  kept = λ j h. cc h;
  others = λ j h. ground (arith, h);
}

send_datagram_reply-prune_udp_clients_example :
    (200 < 100 + 10000000000 → Reaches (send_datagram_reply one_client 5 (7 ∷ [])) 1 (7 ∷ []))
    × (100 + 10000000000 ≤ 200 → send_datagram_reply one_client 5 (7 ∷ []) ≡ none)
unfolding prune_udp_clients find
send_datagram_reply-prune_udp_clients_example =
    send_datagram_reply-prune_udp_clients no_clients 100 200 1 2 (5, one_client) one_client-IsAdded
      (7 ∷ []) one_client refl

abbrev some_stream : MuxStream
some_stream = record {
  flow_id = 3;
  dest_host = [];
  dest_port = 80;
  cell = 0;
  psh_recvd_since = 0;
  buf = [];
  rwnd_threshold = 2;
}

-- Two handlers wait, on the channels 11 and 12.
abbrev two_wait : Session ℕ
two_wait = record {
  failed_stream_request = none;
  stream_command_rx =
      record { tx = 11; host = []; port = 80 } ∷ record { tx = 12; host = []; port = 81 } ∷ [];
  datagram_rx = [];
  log = [];
}

-- The first connection times out with the first command, the second serves both and is closed.
abbrev timing_out : Round ℕ ℕ
timing_out = record {
  handshake = ok tt;
  new_stream_channel = λ host port. timed_out;
  events = stream_command (λ host port. timed_out) ∷ [];
  ctrl_c = false;
}

abbrev serving : Round ℕ ℕ
serving = record {
  handshake = ok tt;
  new_stream_channel = λ host port. opened some_stream;
  events = stream_command (λ host port. opened some_stream) ∷ none_left ∷ [];
  ctrl_c = true;
}

abbrev main : Main ℕ
main = record { backoff = client_backoff 1000 2; session = two_wait }

main_future-requesters_example :
    requesters (main_future (timing_out ∷ serving ∷ []) main).1.session ≡ 11 ∷ 12 ∷ []
main_future-requesters_example = main_future-requesters (timing_out ∷ serving ∷ []) main

-- The second round ends by the interrupt of the user.
interrupted : (main_future (timing_out ∷ serving ∷ []) main).0 ≡ finished (err handshake_cancelled)
unfolding main_future client_backoff on_connected retryable advance reset_backoff new_backoff
interrupted = refl

main_future_gives_up_example :
    (m : Main ℕ) × (main_future {E = ℕ}
        (map refused (handshake_timeout ∷ handshake_timeout ∷ [])
          ++ refused remote_disconnected ∷ [])
        (record { backoff = client_backoff 300 2; session = two_wait })
      ≡ (finished (err (max_retry_count_reached remote_disconnected)), m))
    × (m.session ≡ with_waits two_wait (doubled 0 2 (300 * 1000000)))
unfolding retryable
main_future_gives_up_example =
    main_future_gives_up 300 2 two_wait (handshake_timeout ∷ handshake_timeout ∷ [])
      remote_disconnected [] (omega arith) (omega arith) (omega arith) refl (refl, (refl, tt)) refl

handle_udp_stdio_floods_example :
    handle_udp_stdio 3
      (b'h' ∷ [])
      53
      true
      []
      (record { maps = no_clients; datagram_tx = []; stream_command_tx = []; copied = [] })
    ≡ (
      running,
      record {
        maps = no_clients;
        datagram_tx = empty_datagrams (b'h' ∷ []) 53 3;
        stream_command_tx = [];
        copied = [];
      },
    )
handle_udp_stdio_floods_example =
    handle_udp_stdio_floods 3 (b'h' ∷ []) 53
      (record { maps = no_clients; datagram_tx = []; stream_command_tx = []; copied = [] })
