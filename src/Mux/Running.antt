-- ===== src/Mux/Running.antt =====
-- src/mux/task.rs and src/mux/lib.rs: `Multiplexor::new`, and the task's `start`, which selects among
-- its three loops and the timer for keepalives, with what the user's calls do meanwhile.
--
-- What is ready, and in which order, is the list of events; each has the answers of the WebSocket and
-- of the channels. The task still runs where the list ends.
pub mod Invariant
mod Examples
use penguin_rs.Base.{
  ℕ, List, [], ◌∷◌, ◌++◌, Bool, true, false, Option, none, some, Result, ok, err, if◌then◌else◌,
  ◌==◌, ltb, lookup,
}
use penguin_rs.Mux.Frame.{Frame, Buf, BindType}
use penguin_rs.Mux.State.{Error, channel_closed, BindRequest, Datagram, Env, Task, Cell}
use penguin_rs.Mux.Task.{close_port}
use penguin_rs.Mux.Loop.{Message, process_message, Outcome, wind_down}
use penguin_rs.Mux.Options.{Options, OptionalDuration}
use penguin_rs.Mux.Api.{request_stream, request_bind, send_datagram, reply, next_available_key}

-- The fields of `Multiplexor` that are no channel ends, and the sizes of its channels.
pub record Multiplexor : Type 0 where
  pub datagram_rx : ℕ
  pub con_recv_stream_rx : ℕ
  pub bnd_request_rx : Option ℕ
  pub max_flow_id_retries : ℕ
  pub rwnd : ℕ

abbrev no_cell : Cell
no_cell = record { finish_sent = false; psh_send_remaining = 0 }

unfoldable pub new_multiplexor : Options → Multiplexor × Task
new_multiplexor options =
    let accepts_binds = ltb 0 options.bind_buffer_size in
    (
      record {
        datagram_rx = options.datagram_buffer_size;
        con_recv_stream_rx = options.stream_buffer_size;
        bnd_request_rx = if accepts_binds then some options.bind_buffer_size else none;
        max_flow_id_retries = options.max_flow_id_retries;
        rwnd = options.rwnd;
      },
      record {
        flows = [];
        cells = λ i. no_cell;
        next_cell = 0;
        rwnd = options.rwnd;
        default_rwnd_threshold = options.default_rwnd_threshold;
        accepts_binds = accepts_binds;
        log = [];
      },
    )

-- What the WebSocket answers to `poll_ready`, `start_send` and `poll_flush`.
pub record Sink : Type 0 where
  pub poll_ready : Result Error (Unit {0})
  pub start_send : Result Error (Unit {0})
  pub poll_flush : Result Error (Unit {0})

pub data Event : Type 0 where
  -- `dropped_ports_rx` gives a port, or is closed.
  port_dropped : Env → Option ℕ → Event
  -- `tx_frame_rx` gives a frame, or is closed.
  frame_queued : Sink → Option Frame → Event
  keepalive_tick : Sink → Event
  -- The WebSocket gives a message, or an error, or is at its end.
  ws_next : Env → Option (Result Error Message) → Event
  -- Calls of the user, with the random numbers and the oneshot channel, or the request.
  connects : Env → List ℕ → ℕ → List ℕ → ℕ → Event
  binds : Env → List ℕ → ℕ → List ℕ → ℕ → BindType → Event
  sends_datagram : Env → Datagram → Event
  replies : Env → BindRequest → Bool → Event

pub data Sent : Type 0 where
  binary_message : Frame → Sent
  ping_message : Sent

-- The task, and what was handed to the WebSocket.
pub record Machine : Type 0 where
  pub task : Task
  pub sent : List Sent

-- One of the loops has returned: whether the frames that are left are to be sent, and its result.
pub data Progress : Type 0 where
  running : Progress
  returned : Bool → Result Error (Unit {0}) → Progress

abbrev pub stop : {A : Type 0} → Bool → Error → A → Progress × A
stop should_drain e a = (returned should_drain (err e), a)

abbrev pub set_task : Machine → Task → Machine
set_task m s = record m { task = s }

-- After `start_send`, the flush.
unfoldable pub flush : Result Error (Unit {0}) → Machine → Progress × Machine
flush (err e) m = stop false e m
flush (ok u) m = (running, m)

unfoldable pub start_send : Sink → Sent → Result Error (Unit {0}) → Machine → Progress × Machine
unfolding flush
start_send sink message (err e) m = stop false e m
start_send sink message (ok u) m =
    flush sink.poll_flush (record m { sent = m.sent ++ message ∷ [] })

-- The frame is taken only once the sink is ready for it.
unfoldable pub poll_reserve_space_recv_frame :
    Sink → Result Error (Unit {0}) → Option Frame → Machine → Progress × Machine
unfolding start_send
poll_reserve_space_recv_frame sink (err e) frame m = stop false e m
poll_reserve_space_recv_frame sink (ok u) none m = stop false channel_closed m
poll_reserve_space_recv_frame sink (ok u) (some frame) m =
    start_send sink (binary_message frame) sink.start_send m

unfoldable pub send_ping : Sink → Result Error (Unit {0}) → Machine → Progress × Machine
unfolding start_send
send_ping sink (err e) m = stop false e m
send_ping sink (ok u) m = start_send sink ping_message sink.start_send m

-- Without an interval there is no tick.
unfoldable pub tick : OptionalDuration → Sink → Machine → Progress × Machine
unfolding send_ping
tick none sink m = (running, m)
tick (some interval) sink m = send_ping sink sink.poll_ready m

unfoldable pub recv_port : Env → Option ℕ → Machine → Progress × Machine
recv_port env none m = stop true channel_closed m
recv_port env (some flow_id) m =
    if flow_id == 0
    then (returned true (ok tt), m)
    else (running, set_task m (close_port env m.task flow_id false))

abbrev pub after_message : Outcome Bool → Machine → Progress × Machine
after_message (err e, s) m = stop false e (set_task m s)
after_message (ok true, s) m = (returned false (ok tt), set_task m s)
after_message (ok false, s) m = (running, set_task m s)

module _ (b : Buf) (keepalive_interval : OptionalDuration) where
  unfoldable pub recv_message : Env → Option (Result Error Message) → Machine → Progress × Machine
  recv_message env none m = (returned false (ok tt), m)
  recv_message env (some (err e)) m = stop false e m
  recv_message env (some (ok msg)) m = after_message (process_message b env m.task msg false) m

  -- With the number that the caller draws.
  unfoldable pub with_drawn_key :
      Option ℕ → (ℕ → Result Error (Unit {0}) × Task) → Machine → Progress × Machine
  with_drawn_key none call m = (running, m)
  with_drawn_key (some flow_id) call m = (running, set_task m (call flow_id).1)

  unfoldable pub on_event : Event → Machine → Progress × Machine
  unfolding poll_reserve_space_recv_frame tick recv_port recv_message with_drawn_key
  on_event (port_dropped env port) m = recv_port env port m
  on_event (frame_queued sink frame) m = poll_reserve_space_recv_frame sink sink.poll_ready frame m
  on_event (keepalive_tick sink) m = tick keepalive_interval sink m
  on_event (ws_next env item) m = recv_message env item m
  on_event (connects env random sender host port) m =
      with_drawn_key (next_available_key m.task.flows random)
        (λ flow_id. request_stream env m.task flow_id sender host port) m
  on_event (binds env random sender host port bind_type) m =
      with_drawn_key (next_available_key m.task.flows random)
        (λ flow_id. request_bind env m.task flow_id sender host port bind_type) m
  on_event (sends_datagram env datagram) m =
      (running, set_task m (send_datagram env m.task datagram).1)
  on_event (replies env request accepted) m =
      (running, set_task m (reply env m.task request accepted).1)

  abbrev pub or_go_on : Progress × Machine → (Machine → Progress × Machine) → Progress × Machine
  or_go_on (running, m) next = next m
  or_go_on (returned should_drain r, m) next = (returned should_drain r, m)

  -- The `select!` of `start`.
  unfoldable pub run : List Event → Machine → Progress × Machine
  run [] m = (running, m)
  run (event ∷ events) m = or_go_on (on_event event m) (run events)

  -- What is left when a loop has returned: the environment, the frames that are still queued, each
  -- with whether the WebSocket takes it, and the messages still in the source.
  pub record Rest : Type 0 where
    pub env : Env
    pub queued : List (Frame × Bool)
    pub inputs : List (Env × Result Error Message)

  abbrev pub result_after : Result Error (Unit {0}) → Outcome (Unit {0}) → Outcome (Unit {0})
  result_after r (err e, s) = (err e, s)
  result_after r (ok u, s) = (r, s)

  -- `none` while the task runs.
  unfoldable pub wound_down : Rest → Progress × Machine → Option (Outcome (Unit {0}))
  wound_down rest (running, m) = none
  wound_down rest (returned should_drain r, m) =
      some (result_after r (wind_down b rest.env m.task should_drain rest.queued rest.inputs))

  unfoldable pub start : Rest → List Event → Machine → Option (Outcome (Unit {0}))
  unfolding run wound_down
  start rest events m = wound_down rest (run events m)
