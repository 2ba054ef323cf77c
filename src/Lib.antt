-- ===== src/Lib.antt =====
-- A TCP and UDP tunnel over WebSocket. This library models the multiplexor (src/mux): the frames of
-- the protocol, the task that owns the WebSocket, and the streams that it hands to the user; the
-- client, whose handlers of remotes ask its main loop for such streams and hand it datagrams; the
-- server, which answers HTTP requests, takes WebSockets, and forwards what comes over them; and what
-- stands before the two, their arguments, their TLS configurations and the server's certificate.
--
-- The parts and their files:
--   Base            numbers, tests, lists over the native numbers, results, maps (an association
--                   list for a `HashMap`).
--   Mux/Frame       src/mux/frame.rs: payloads, operation codes, frames. Frame/Codec has the encoder
--                   `Vec::from(&frame)` (`finalize`) and the decoder `Frame::try_from` (`try_from`);
--                   `none` of the encoder is a panic. The integer access of the `bytes` crate is the
--                   interface `Buf`, whose laws are what that crate documents; Frame/BigEndian is an
--                   instance. Frame/Encoding, Frame/Payloads, Frame/Decoding and Frame/RoundTrip hold
--                   the proofs.
--   Mux/State       the data of src/mux/lib.rs and the store. Memory that a stream shares with the
--                   task through an `Arc` is a cell, named by its number. What the other ends of the
--                   channels do is the record `Env`, and what is sent to them is the log.
--   Mux/Flow        `EstablishedStreamData` and `FlowSlot` of src/mux/lib.rs.
--   Mux/Task        `process_frame` of src/mux/task.rs and all that it calls.
--   Mux/Api         the calls of `Multiplexor` and `BindRequest` in src/mux/lib.rs: a call that waits is
--                   cut at the wait. Mux/Api/Handshake and Mux/Api/Binds join both ends.
--   Mux/Loop        the loops of src/mux/task.rs over dropped ports, messages, and at the end of the
--                   task (`wind_down`). A loop runs over the list of what it is handed, so it ends.
--   Mux/Running     `Multiplexor::new` of src/mux/lib.rs and `Task::start` of src/mux/task.rs: the
--                   loops of the task, the keepalive, the sink and the user's calls as the list of
--                   events in the order in which they happen. Running/Invariant holds the proofs.
--   Mux/Ws          src/mux/ws.rs: the messages of `tungstenite`, converted both ways.
--   Mux/Stream      `MuxStream` of src/mux/stream.rs. The exchange loop of
--                   `poll_obtain_write_permission` runs over the list of its failed rounds, each with
--                   what the task adds meanwhile; the round after the list has no competitor.
--   Mux/Window      one direction of a stream between two ends, as a step relation whose steps are the
--                   operations of Mux/Stream and Mux/Task.
--   Mux/Copy        `CopyBidirectional` of src/mux/stream.rs. The other end is any type: its answers
--                   are given for each turn of the two loops, and where they end it is pending.
--                   Mux/Copy/Bytes, Transfer, Counts, Ends and Errors hold the proofs.
--   Mux/Options     `Options` of src/mux/config.rs and `OptionalDuration` of src/mux/timing.rs. The
--                   setters give `none` where an assertion fails.
--   Mux/Timing      `Backoff` of src/mux/timing.rs.
--   Remote          src/parse_remote.rs: `from_str` and the printer `fmt`, on text as UTF-8 bytes
--                   (Remote/Str, Remote/Ports). A panic is a result of its own. The loop of
--                   `tokenize_remote` has fuel for one round more than the text has bytes, and each
--                   round takes a byte; Remote/Tokens and Remote/Total hold the proofs.
--   Socks           src/client/handle_remote/socks: the server's conversation, over the bytes that the
--                   client sends (Socks/Io, Socks/V4, Socks/V5). The reads of `tokio` are the
--                   interface `AsyncRead`, what the main loop gives is `Main`. Hosts are printed as
--                   the standard library does (Socks/Address). Socks/Relay is the relay of datagrams:
--                   `handle_udp_relay_header`, `send_udp_relay_response` and the loop `udp_relay`.
--   Socks/Serving   the listener of src/client/handle_remote/socks/mod.rs, `handle_associate` and the
--                   two lives of its relay, Serving/Associations.
--   Client/Errors   src/client/maybe_retryable.rs. The errors of `tungstenite` are the interface
--                   `Tungstenite`: which of the cases that the code names an error is.
--   Client/Maps     `ClientIdMaps` of src/client/mod.rs. An address is of any type with a test for
--                   equality (Base/Keys). The numbers of the random generator are an argument, and
--                   `still_drawing` is the loop that has found no free one among them.
--   Client/Session  `on_connected` and `get_send_stream_chan` of src/client/mod.rs: the branches of the
--                   `select!` that are taken are the list of events.
--   Client/MainLoop the retry loop of `client_main_inner`, over the list of its rounds.
--   Client/WsConnect the request of src/client/ws_connect.rs and the end of its handshake. Making a
--                   request for a URL is the interface `IntoClientRequest`.
--   Client/Handlers src/client/handle_remote: the handlers of TCP and UDP remotes, and the choice of a
--                   handler. A loop runs over the rounds that it is given, and still runs after them.
--   Server/Service  src/server/service.rs: `call` and all that it calls. Building a URI, asking the
--                   backend and hashing a key are the interface `Http`.
--   Server/WebSocket the loop of src/server/websocket.rs, with its map of UDP clients.
--   Server/Forwarder src/server/forwarder.rs: binding a socket, the forwarders of UDP and TCP.
--   Client/Running  `client_main_inner` of src/client/mod.rs: the handlers of the remotes beside the main
--                   loop, over the list of what ends first.
--   Server/Listening src/server/mod.rs: the addresses (Listening/Addresses), the TLS that the arguments
--                   ask for (Listening/Encryption), `server_main`, and the loop of one listener with
--                   its reloads and time limits (Listening/Connections).
--   Server/Acme     src/server/acme: the challenge helper (Acme/Helper), `issue` and the renewals.
--                   The answers of the ACME server are lists, and the loop still runs where its list
--                   ends. Acme/Waiting, Issuing, Renewing and Helper/Cleanup hold the proofs.
--   Arg             src/arg.rs: the parsers of the server's URL (Arg/Urls), of the backend's, and of
--                   headers (Arg/Headers). The types of the `http` crate are the interface `Http`.
--   Tls             src/tls/mod.rs and src/tls/rustls.rs: the configurations of both sides. What
--                   `rustls` builds and reads is the interface `Rustls`; Tls/Trust holds the proofs.
--
-- Counters of 32 bits wrap around where the source lets them. Not modelled: wakers and logging, which
-- change no state that is modelled; the declarations that `clap` reads and src/main.rs; `OptionalInterval`,
-- the sleeps and the text of durations; the `native-tls` build, which only calls its library;
-- `EmptyVerifier`, which hands each question on; the HTTP client that the server's state is made with; the
-- console streams of `Stdio`; and spawning. The scheduler appears as the order of the steps.
pub mod Base
pub mod Arg
pub mod Client
pub mod Mux
pub mod Remote
pub mod Server
pub mod Socks
pub mod Tls
