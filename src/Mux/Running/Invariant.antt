-- ===== src/Mux/Running/Invariant.antt =====
-- src/mux/task.rs: what holds of the map of flows while the task runs, whatever is ready when.
use penguin_rs.Base.{
  ℕ, ◌≡◌, List, [], ◌∷◌, ◌++◌, Bool, true, false, Option, none, some, Result, ok, err, ◌==◌, lookup,
  insert, lookup-insert, Bool-cases, inl, inr, arith, length, ltb,
}
use penguin_rs.Mux.Frame.{Frame, Buf}
use penguin_rs.Mux.State.{
  Error, Env, Task, FlowSlot, requested, bind_requested, established, EstablishedStreamData,
  set_flows,
}
use penguin_rs.Mux.Task.Isolation.{Flows, IsWf, Change-IsWf}
use penguin_rs.Mux.Task.Changes.{close_port-Change}
use penguin_rs.Mux.Loop.{Message, process_message, Outcome}
use penguin_rs.Mux.Loop.Invariant.{IsGood, process_message-IsGood}
use penguin_rs.Mux.Options.{Options, OptionalDuration}
use penguin_rs.Mux.Api.{
  request_stream, request_bind, send_datagram, reply, next_available_key, send_or_closed,
}
use penguin_rs.Mux.Running.{
  Machine, Progress, running, returned, Event, port_dropped, frame_queued, keepalive_tick, ws_next,
  connects, binds, sends_datagram, replies, Sink, Sent, flush, start_send,
  poll_reserve_space_recv_frame, send_ping, tick, recv_port, after_message, recv_message,
  with_drawn_key, on_event, or_go_on, run, new_multiplexor,
}

-- A slot that no stream stands behind yet changes nothing of the streams.
pub insert_waiting-IsWf :
    (flows : Flows) (n k : ℕ) (slot : FlowSlot)
    → ((d : EstablishedStreamData) → slot ≡ established d → ⊥)
    → IsWf flows n
    → IsWf (insert k slot flows) n
insert_waiting-IsWf flows n k slot h w = record {
  below = λ i d e. ground (arith, lookup-insert k i slot flows, w.below i d, h d);
  apart = λ i j d e p q c. ground (
    arith,
    lookup-insert k i slot flows,
    lookup-insert k j slot flows,
    w.apart i j d e,
    h d,
    h e,
  );
  own = λ i c d e p. ground (arith, lookup-insert k i slot flows, w.own i c d, h d);
}

-- A frame that is queued, or not, leaves the map.
send_or_closed-IsGood :
    (env : Env) (s : Task) (f : Frame) → IsGood s → IsGood (send_or_closed env s f).1
send_or_closed-IsGood env s f w = elim (Bool-cases env.frame_open) [
  | inl open_queue ↦ rw (open_queue, send_or_closed) w
  | inr shut ↦ rw (shut, send_or_closed) w
]

abbrev Good : Progress × Machine → Type 0
Good r = IsGood r.1.task

start_send-Good :
    (sink : Sink) (message : Sent) (r : Result Error (Unit {0})) (m : Machine)
    → IsGood m.task
    → Good (start_send sink message r m)
unfolding start_send
start_send-Good sink message (err e) m w = w
start_send-Good sink message (ok u) m w = after_flush sink.poll_flush
  where
    after_flush :
        (f : Result Error (Unit {0})) → Good (flush f (record m { sent = m.sent ++ message ∷ [] }))
    after_flush (err e) = w
    after_flush (ok v) = w

recv_frame-Good :
    (sink : Sink) (r : Result Error (Unit {0})) (frame : Option Frame) (m : Machine)
    → IsGood m.task
    → Good (poll_reserve_space_recv_frame sink r frame m)
unfolding poll_reserve_space_recv_frame
recv_frame-Good sink (err e) frame m w = w
recv_frame-Good sink (ok u) none m w = w
recv_frame-Good sink (ok u) (some frame) m w = start_send-Good sink _ sink.start_send m w

tick-Good :
    (interval : OptionalDuration) (sink : Sink) (r : Result Error (Unit {0})) (m : Machine)
    → IsGood m.task
    → Good (send_ping sink r m) × Good (tick interval sink m)
unfolding tick send_ping
tick-Good none sink (err e) m w = (w, w)
tick-Good none sink (ok u) m w = (start_send-Good sink _ sink.start_send m w, w)
tick-Good (some d) sink r m w = (pinged r, pinged sink.poll_ready)
  where
    pinged : (r : Result Error (Unit {0})) → Good (send_ping sink r m)
    pinged (err e) = w
    pinged (ok u) = start_send-Good sink _ sink.start_send m w

recv_port-Good :
    (env : Env) (port : Option ℕ) (m : Machine) → IsGood m.task → Good (recv_port env port m)
unfolding recv_port
recv_port-Good env none m w = w
recv_port-Good env (some flow_id) m w = elim (Bool-cases (flow_id == 0)) [
  | inl dropped ↦ rw (dropped, recv_port) w
  | inr port ↦
      rw (port, recv_port) (Change-IsWf flow_id (close_port-Change env m.task flow_id false) w)
]

after_message-Good : (o : Outcome Bool) (m : Machine) → IsGood o.1 → Good (after_message o m)
after_message-Good (err e, s) m w = w
after_message-Good (ok true, s) m w = w
after_message-Good (ok false, s) m w = w

module _ (b : Buf) (interval : OptionalDuration) where
  recv_message-Good :
      (env : Env) (item : Option (Result Error Message)) (m : Machine)
      → IsGood m.task
      → Good (recv_message b interval env item m)
  unfolding recv_message
  recv_message-Good env none m w = w
  recv_message-Good env (some (err e)) m w = w
  recv_message-Good env (some (ok msg)) m w =
      after_message-Good (process_message b env m.task msg false) m
        (process_message-IsGood b env m.task msg false w)

  with_drawn_key-Good :
      (key : Option ℕ) (call : ℕ → Result Error (Unit {0}) × Task) (m : Machine)
      → IsGood m.task
      → ((k : ℕ) → IsGood (call k).1)
      → Good (with_drawn_key b interval key call m)
  unfolding with_drawn_key
  with_drawn_key-Good none call m w h = w
  with_drawn_key-Good (some k) call m w h = h k

  waiting-IsGood :
      (env : Env) (s : Task) (k : ℕ) (slot : FlowSlot) (f : Frame)
      → ((d : EstablishedStreamData) → slot ≡ established d → ⊥)
      → IsGood s
      → IsGood (send_or_closed env (set_flows s (insert k slot s.flows)) f).1
  waiting-IsGood env s k slot f h w =
      send_or_closed-IsGood env (set_flows s (insert k slot s.flows)) f
        (insert_waiting-IsWf s.flows s.next_cell k slot h w)

  on_event-Good : (event : Event) (m : Machine) → IsGood m.task → Good (on_event b interval event m)
  unfolding on_event request_stream request_bind send_datagram reply
  on_event-Good (port_dropped env port) m w = recv_port-Good env port m w
  on_event-Good (frame_queued sink frame) m w = recv_frame-Good sink sink.poll_ready frame m w
  on_event-Good (keepalive_tick sink) m w = (tick-Good interval sink sink.poll_ready m w).1
  on_event-Good (ws_next env item) m w = recv_message-Good env item m w
  on_event-Good (connects env random sender host port) m w =
      with_drawn_key-Good (next_available_key m.task.flows random) _ m w
        (λ k. waiting-IsGood env m.task k (requested sender) _ (λ d e. cc) w)
  on_event-Good (binds env random sender host port bind_type) m w =
      with_drawn_key-Good (next_available_key m.task.flows random) _ m w
        (λ k. waiting-IsGood env m.task k (bind_requested sender) _ (λ d e. cc) w)
  on_event-Good (sends_datagram env datagram) m w =
      elim (Bool-cases (ltb 255 (length datagram.target_host))) [
        | inl long ↦ rw long w
        | inr short ↦ rw short (send_or_closed-IsGood env m.task _ w)
      ]
  on_event-Good (replies env request true) m w = send_or_closed-IsGood env m.task _ w
  on_event-Good (replies env request false) m w = send_or_closed-IsGood env m.task _ w

  run-Good : (events : List Event) (m : Machine) → IsGood m.task → Good (run b interval events m)
  unfolding run
  run-Good [] m w = w
  run-Good (event ∷ events) m w =
      go_on (on_event b interval event m) (run b interval events) (on_event-Good event m w)
        (run-Good events)
    where
      go_on :
          (r : Progress × Machine) (next : Machine → Progress × Machine)
          → Good r
          → ((m' : Machine) → IsGood m'.task → Good (next m'))
          → Good (or_go_on b interval r next)
      go_on (running, m') next w' h = h m' w'
      go_on (returned drain r, m') next w' h = w'

  new_multiplexor-IsGood : (options : Options) → IsGood (new_multiplexor options).1
  unfolding new_multiplexor lookup
  new_multiplexor-IsGood options = record {
    below = λ k d e. absurd (cc e);
    apart = λ j k d e p q c. absurd (cc p);
    own = λ k c d e p. absurd (cc e);
  }

  -- Whatever the options are, whatever the peer sends, the user calls and the WebSocket answers, and
  -- in whatever order: at every moment until the task winds down, the streams in the map of flows
  -- share no memory, and each sender in it is the sender of its own stream's channel.
  pub run-IsWf :
      (options : Options) (events : List Event)
      → let s =
          (run b interval events
            (record { task = (new_multiplexor options).1; sent = [] })).1.task in
        IsWf s.flows s.next_cell
  run-IsWf options events =
      run-Good events (record { task = (new_multiplexor options).1; sent = [] })
        (new_multiplexor-IsGood options)
