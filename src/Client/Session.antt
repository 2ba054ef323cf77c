-- ===== src/Client/Session.antt =====
-- src/client/mod.rs: `get_send_stream_chan` and `on_connected`, the work over one connection.
--
-- The queues of stream commands and of datagrams hold what the handlers send, now or later; which
-- branch of the `select!` is taken, and what the multiplexor answers, is an event.
pub mod Queue
use penguin_rs.Base.{ℕ, List, [], ◌∷◌, ◌++◌, Option, none, some, Result, ok, err}
use penguin_rs.Mux.State
use penguin_rs.Mux.State.{MuxStream, Datagram}
use penguin_rs.Client.Errors.{Error, mux, stream_request_timeout, remote_disconnected}
use penguin_rs.Client.Maps.{ClientIdMaps, Reply, send_datagram_reply}

-- `tx` names the oneshot channel of the handler.
pub record StreamCommand : Type 0 where
  pub tx : ℕ
  pub host : List ℕ
  pub port : ℕ

-- What `new_stream_channel`, with its time limit, comes to.
pub data Opened : Type 0 where
  opened : MuxStream → Opened
  failed : State.Error → Opened
  timed_out : Opened

pub data Effect (Addr : Type 0) : Type 0 where
  sent_stream : ℕ → MuxStream → Effect Addr
  sent_datagram : Datagram → Effect Addr
  replied : Reply Addr → Effect Addr
  waited : ℕ → Effect Addr

pub record Session (Addr : Type 0) : Type 0 where
  pub failed_stream_request : Option StreamCommand
  pub stream_command_rx : List StreamCommand
  pub datagram_rx : List Datagram
  pub log : List (Effect Addr)

-- What the select finds ready.
pub data Event (Addr : Type 0) : Type 0 where
  task_ended : Result State.Error (Unit {0}) → Event Addr
  stream_command : (List ℕ → ℕ → Opened) → Event Addr
  datagram_queued : Result State.Error (Unit {0}) → Event Addr
  got_datagram : Datagram → ClientIdMaps Addr → Event Addr
  ctrl_c : List (Result State.Error (Unit {0})) → Event Addr
  none_left : Event Addr

-- What a part of the loop comes to: it goes on, or the function returns.
pub data Flow (E : Type 0) : Type 0 where
  continues : Flow E
  returned : Result (Error E) (Unit {0}) → Flow E

module _ {Addr : Type 0} where
  unfoldable pub emit : Session Addr → Effect Addr → Session Addr
  emit s effect = record s { log = s.log ++ effect ∷ [] }

  unfoldable pub park : Session Addr → StreamCommand → Session Addr
  park s command = record s { failed_stream_request = some command }

  -- The error of a datagram that is not sent is only logged.
  unfoldable pub recv_datagram :
      Result State.Error (Unit {0}) → List Datagram → Session Addr → Session Addr
  unfolding emit
  recv_datagram r [] s = s
  recv_datagram (ok u) (d ∷ datagrams) s =
      emit (record s { datagram_rx = datagrams }) (sent_datagram d)
  recv_datagram (err e) (d ∷ datagrams) s = record s { datagram_rx = datagrams }

  unfoldable pub forward_reply : Option (Reply Addr) → Session Addr → Session Addr
  unfolding emit
  forward_reply none s = s
  forward_reply (some reply) s = emit s (replied reply)

-- `join_next` until the set is empty, and the first error of a task.
unfoldable pub join_all :
    {E : Type 0} → List (Result State.Error (Unit {0})) → Result (Error E) (Unit {0})
join_all [] = ok tt
join_all (ok u ∷ results) = join_all results
join_all (err e ∷ results) = err (mux e)

module _ {E Addr : Type 0} where
  unfoldable pub get_send_stream_chan :
      Opened → StreamCommand → Session Addr → Flow E × Session Addr
  unfolding emit park
  get_send_stream_chan (opened stream) command s =
      (continues, emit s (sent_stream command.tx stream))
  get_send_stream_chan (failed e) command s = (returned (err (mux e)), park s command)
  get_send_stream_chan timed_out command s = (returned (err stream_request_timeout), park s command)

  unfoldable pub open_for :
      (List ℕ → ℕ → Opened) → StreamCommand → Session Addr → Flow E × Session Addr
  unfolding get_send_stream_chan
  open_for new_stream_channel command s =
      get_send_stream_chan (new_stream_channel command.host command.port) command s

  unfoldable pub recv_command :
      (List ℕ → ℕ → Opened) → List StreamCommand → Session Addr → Flow E × Session Addr
  unfolding open_for
  recv_command new_stream_channel [] s = (continues, s)
  recv_command new_stream_channel (command ∷ commands) s =
      open_for new_stream_channel command (record s { stream_command_rx = commands })

  unfoldable pub on_event : Event Addr → Session Addr → Flow E × Session Addr
  unfolding recv_command recv_datagram forward_reply join_all
  on_event (task_ended (ok u)) s = (continues, s)
  on_event (task_ended (err e)) s = (returned (err (mux e)), s)
  on_event (stream_command new_stream_channel) s =
      recv_command new_stream_channel s.stream_command_rx s
  on_event (datagram_queued r) s = (continues, recv_datagram r s.datagram_rx s)
  on_event (got_datagram d maps) s =
      (continues, forward_reply (send_datagram_reply maps d.flow_id d.payload_data) s)
  on_event (ctrl_c results) s = (returned (join_all results), s)
  on_event none_left s = (returned (err remote_disconnected), s)

  -- One part after another, until one returns.
  unfoldable pub then_next :
      Flow E × Session Addr → (Session Addr → Flow E × Session Addr) → Flow E × Session Addr
  then_next (continues, s) next = next s
  then_next (returned r, s) next = (returned r, s)

  unfoldable pub session_loop : List (Event Addr) → Session Addr → Flow E × Session Addr
  unfolding on_event then_next
  session_loop [] s = (continues, s)
  session_loop (event ∷ events) s = then_next (on_event event s) (session_loop events)

  -- The command that was parked, if any, comes first.
  unfoldable pub retry_parked :
      (List ℕ → ℕ → Opened) → Option StreamCommand → Session Addr → Flow E × Session Addr
  unfolding open_for
  retry_parked new_stream_channel none s = (continues, s)
  retry_parked new_stream_channel (some command) s =
      open_for new_stream_channel command (record s { failed_stream_request = none })

  unfoldable pub on_connected :
      (List ℕ → ℕ → Opened) → List (Event Addr) → Session Addr → Flow E × Session Addr
  unfolding retry_parked then_next session_loop
  on_connected new_stream_channel events s =
      then_next (retry_parked new_stream_channel s.failed_stream_request s) (session_loop events)
