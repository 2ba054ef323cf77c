-- ===== src/Mux/Loop.antt =====
-- src/mux/task.rs and the messages of src/mux/ws.rs: the loops of the multiplexor task. Each takes
-- the list of what its channel, or the WebSocket, hands to it, with the environment at that moment.
pub mod Invariant
pub mod WindDown
use penguin_rs.Base.{
  ℕ, List, [], ◌∷◌, Bool, true, false, Option, none, some, if◌then◌else◌, ◌==◌, Result, ok, err,
}
use penguin_rs.Mux.Frame.{Frame, Buf}
use penguin_rs.Mux.Frame.Codec.{try_from}
use penguin_rs.Mux.State.{
  Error, channel_closed, invalid_frame, FlowSlot, requested, established, bind_requested, Env,
  Effect, ws_binary, Task, emit, set_flows,
}
use penguin_rs.Mux.Flow.{disallow_write}
use penguin_rs.Mux.Task.{process_frame, close_port, close_port_local}

pub data Message : Type 0 where
  binary : List ℕ → Message
  ping pong close : Message

-- What a loop body returns, and the task afterwards.
abbrev pub Outcome : Type 0 → Type 0
Outcome A = Result Error A × Task

abbrev pub and_then : {A B : Type 0} → Outcome A → (A → Task → Outcome B) → Outcome B
and_then (ok a, s) k = k a s
and_then (err e, s) k = (err e, s)

-- Dropping the connection's multiplexor sends the port 0; a closed channel ends the list.
unfoldable pub process_dropped_ports_task : Task → List (Env × ℕ) → Outcome (Unit {0})
process_dropped_ports_task s [] = (err channel_closed, s)
process_dropped_ports_task s ((env, flow_id) ∷ ports) =
    let rest = process_dropped_ports_task (close_port env s flow_id false) ports in
    if flow_id == 0 then (ok tt, s) else rest

module _ (b : Buf) where
  -- `true` where a `Close` message was received.
  unfoldable pub process_message : Env → Task → Message → Bool → Outcome Bool
  process_message env s (binary bytes) ignore_bind = elim (try_from b bytes) [
    | err e ↦ (err (invalid_frame e), s)
    | ok frame ↦ and_then (process_frame env s frame ignore_bind) (λ _ s'. (ok false, s'))
  ]
  process_message env s ping ignore_bind = (ok false, s)
  process_message env s pong ignore_bind = (ok false, s)
  process_message env s close ignore_bind = (ok true, s)

  -- The list ends where the peer closed the WebSocket.
  unfoldable pub process_ws_next : Task → List (Env × Result Error Message) → Outcome (Unit {0})
  process_ws_next s [] = (ok tt, s)
  process_ws_next s ((env, err e) ∷ inputs) = (err e, s)
  process_ws_next s ((env, ok msg) ∷ inputs) =
      and_then (process_message env s msg false) (λ is_close s'.
        let rest = process_ws_next s' inputs in if is_close then (ok tt, s') else rest)

  -- The last loop of `wind_down`: messages still in the source, until the first error or the end.
  unfoldable pub drain_source : Task → List (Env × Result Error Message) → Outcome (Unit {0})
  drain_source s [] = (ok tt, s)
  drain_source s ((env, err e) ∷ inputs) = (ok tt, s)
  drain_source s ((env, ok msg) ∷ inputs) =
      and_then (process_message env s msg true) (λ _ s'. drain_source s' inputs)

-- The first loop of `wind_down`, over the flows in the map.
unfoldable pub disallow_all : Task → List (ℕ × FlowSlot) → Task
unfolding disallow_write
disallow_all s [] = s
disallow_all s ((flow_id, established stream_data) ∷ flows) =
    disallow_all (disallow_write s stream_data).1 flows
disallow_all s ((flow_id, requested sender) ∷ flows) = disallow_all s flows
disallow_all s ((flow_id, bind_requested sender) ∷ flows) = disallow_all s flows

-- The frames that are still queued, each with whether the WebSocket took it.
unfoldable pub drain_frames : Task → List (Frame × Bool) → Task
drain_frames s [] = s
drain_frames s ((frame, true) ∷ frames) = drain_frames (emit s (ws_binary frame)) frames
drain_frames s ((frame, false) ∷ frames) = s

-- `flows.drain()`, with the slots in the map's order.
unfoldable pub close_all : Env → Task → List (ℕ × FlowSlot) → Task
close_all env s [] = s
close_all env s ((flow_id, slot) ∷ flows) =
    close_all env (close_port_local env s slot flow_id true) flows

-- The frame channel is closed before the last messages are processed.
abbrev pub after_close : Env → Env
after_close env = record env { frame_open = false }

abbrev pub after_close_all : List (Env × Result Error Message) → List (Env × Result Error Message)
after_close_all [] = []
after_close_all ((env, m) ∷ inputs) = (after_close env, m) ∷ after_close_all inputs

unfoldable pub wind_down :
    Buf
    → Env
    → Task
    → Bool
    → List (Frame × Bool)
    → List (Env × Result Error Message)
    → Outcome (Unit {0})
unfolding disallow_all drain_frames close_all drain_source
wind_down b env s should_drain_frame_rx queued inputs =
    let s1 = disallow_all s s.flows in
    let s2 = if should_drain_frame_rx then drain_frames s1 queued else s1 in
    and_then (drain_source b s2 (after_close_all inputs))
      (λ _ s3. (ok tt, close_all (after_close env) (set_flows s3 []) s3.flows))
