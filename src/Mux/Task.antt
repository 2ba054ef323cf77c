-- ===== src/Mux/Task.antt =====
-- src/mux/task.rs: what the multiplexor task does with a frame, a message, a dropped port, and when
-- it winds down. Its loops run over the inputs that its channels and the WebSocket give it.
pub mod Phases
pub mod Failures
pub mod Changes
pub mod Isolation
pub mod Replies
use penguin_rs.Base.{
  ℕ, suc, ◌+◌, ◌-◌, List, [], ◌∷◌, ◌++◌, Bool, true, false, not, ◌&&◌, Option, none, some,
  if◌then◌else◌, ◌==◌, min, lookup, insert, remove, Result, ok, err,
}
use penguin_rs.Mux.Frame.{Payload, Frame, Buf, BindPayload, into_owned, new_reset, new_acknowledge}
use penguin_rs.Mux.Frame.Codec.{try_from}
use penguin_rs.Mux.State.{
  Error, closed, send_stream_to_client, conn_ack_gone, channel_closed, invalid_frame, Cell,
  MuxStream, EstablishedStreamData, FlowSlot, requested, established, bind_requested, Datagram,
  BindRequest, TrySend, Env, Effect, new_stream, answer_connect, answer_bind, dropped_sender,
  got_datagram, got_bind, dropped_port, ws_binary, Task, emit, set_cell, set_flows, send_frame,
}
use penguin_rs.Mux.Flow.{disallow_read, acknowledge, disallow_write, establish, dispatch}

-- The stream, the task's end of it, and the store with the memory that they share.
unfoldable pub new_stream_shared :
    Task → ℕ → ℕ → List ℕ → ℕ → MuxStream × EstablishedStreamData × Task
new_stream_shared s flow_id peer_rwnd dest_host dest_port = (
  record {
    flow_id = flow_id;
    dest_host = dest_host;
    dest_port = dest_port;
    cell = s.next_cell;
    psh_recvd_since = 0;
    buf = [];
    rwnd_threshold = min s.default_rwnd_threshold peer_rwnd;
  },
  record { sender = some s.next_cell; cell = s.next_cell },
  record s {
    cells = λ i.
        if s.next_cell == i
        then record { finish_sent = false; psh_send_remaining = peer_rwnd }
        else s.cells i;
    next_cell = suc s.next_cell;
  },
)

-- The end of `con_recv_new_stream`: the `Acknowledge` goes out before the stream reaches the user. A
-- stream that cannot be handed over is dropped.
unfoldable pub hand_over : Env → Task → MuxStream → Result Error (Unit {0}) × Task
hand_over env s stream =
    if env.frame_open
    then (let s1 = send_frame env s (new_acknowledge stream.flow_id s.rwnd) in
        if env.stream_taken
        then (ok tt, emit s1 (new_stream stream))
        else (err send_stream_to_client, emit s1 (dropped_port stream.flow_id)))
    else (err closed, emit s (dropped_port stream.flow_id))

unfoldable pub con_recv_new_stream :
    Env → Task → ℕ → List ℕ → ℕ → ℕ → Result Error (Unit {0}) × Task
unfolding new_stream_shared hand_over
con_recv_new_stream env s flow_id dest_host dest_port peer_rwnd = elim (lookup flow_id s.flows) [
  | some slot ↦ (ok tt, send_frame env s (new_reset flow_id))
  | none ↦
      let (stream, stream_data, s1) = new_stream_shared s flow_id peer_rwnd dest_host dest_port in
      hand_over env (set_flows s1 (insert flow_id (established stream_data) s1.flows)) stream
]

-- `sender.send(Some(stream))`, where the slot gave a sender.
unfoldable pub answer : Env → Task → Option ℕ → MuxStream → Result Error (Unit {0}) × Task
answer env s none stream = (err conn_ack_gone, emit s (dropped_port stream.flow_id))
answer env s (some sender) stream =
    if env.is_waiting sender
    then (ok tt, emit s (answer_connect sender (some stream)))
    else (err send_stream_to_client, emit s (dropped_port stream.flow_id))

unfoldable pub ack_recv_new_stream : Env → Task → ℕ → ℕ → Result Error (Unit {0}) × Task
unfolding new_stream_shared answer establish
ack_recv_new_stream env s flow_id peer_rwnd =
    let (stream, stream_data, s1) = new_stream_shared s flow_id peer_rwnd [] 0 in
    elim (lookup flow_id s1.flows) [
      | none ↦ (err conn_ack_gone, emit s1 (dropped_port stream.flow_id))
      | some slot ↦
          let (slot', sender) = establish slot stream_data in
          answer env (set_flows s1 (insert flow_id slot' s1.flows)) sender stream
    ]

drop_sender : Task → Option ℕ → Task
drop_sender s none = s
drop_sender s (some channel) = emit s (dropped_sender channel)

unfoldable pub close_port_local : Env → Task → FlowSlot → ℕ → Bool → Task
unfolding disallow_write disallow_read drop_sender
close_port_local env s (established stream_data) flow_id inhibit_rst =
    let (finish_sent, s1) = disallow_write s stream_data in
    let s2 =
      if not finish_sent && not inhibit_rst then send_frame env s1 (new_reset flow_id) else s1 in
    let (sender, _) = disallow_read stream_data in drop_sender s2 sender
close_port_local env s (requested sender) flow_id inhibit_rst =
    if env.is_waiting sender then emit s (answer_connect sender none) else s
close_port_local env s (bind_requested sender) flow_id inhibit_rst =
    if env.is_waiting sender then emit s (answer_bind sender false) else s

unfoldable pub close_port : Env → Task → ℕ → Bool → Task
unfolding close_port_local
close_port env s flow_id inhibit_rst = elim (lookup flow_id s.flows) [
  | none ↦ s
  | some removed ↦
      close_port_local env (set_flows s (remove flow_id s.flows)) removed flow_id inhibit_rst
]

-- The arm of `process_frame` for `Acknowledge`, on the slot that the map has.
unfoldable pub process_acknowledge :
    Env → Task → ℕ → ℕ → Option FlowSlot → Result Error (Unit {0}) × Task
unfolding acknowledge ack_recv_new_stream
process_acknowledge env s flow_id n (some (established stream_data)) =
    (ok tt, acknowledge s stream_data n)
process_acknowledge env s flow_id n (some (requested sender)) = ack_recv_new_stream env s flow_id n
process_acknowledge env s flow_id n (some (bind_requested sender)) =
    (ok tt, send_frame env s (new_reset flow_id))
process_acknowledge env s flow_id n none = (ok tt, send_frame env s (new_reset flow_id))

-- The arm for `Finish`.
unfoldable pub process_finish : Env → Task → ℕ → Option FlowSlot → Task
unfolding disallow_read drop_sender
process_finish env s flow_id none = send_frame env s (new_reset flow_id)
process_finish env s flow_id (some (bind_requested sender)) =
    let s1 = set_flows s (remove flow_id s.flows) in
    if env.is_waiting sender then emit s1 (answer_bind sender true) else s1
process_finish env s flow_id (some (requested sender)) =
    send_frame env (set_flows s (remove flow_id s.flows)) (new_reset flow_id)
process_finish env s flow_id (some (established stream_data)) =
    let (sender, stream_data') = disallow_read stream_data in
    drop_sender (set_flows s (insert flow_id (established stream_data') s.flows)) sender

-- The arm for `Push`.
unfoldable pub after_push : Env → Task → ℕ → Option TrySend → Task
unfolding close_port
after_push env s flow_id (some TrySend.sent) = s
after_push env s flow_id (some TrySend.full) = close_port env s flow_id false
after_push env s flow_id (some TrySend.closed) = s
after_push env s flow_id none = send_frame env s (new_reset flow_id)

unfoldable pub process_push : Env → Task → ℕ → List ℕ → Option FlowSlot → Task
unfolding after_push dispatch
process_push env s flow_id bytes none = after_push env s flow_id none
process_push env s flow_id bytes (some slot) =
    let (result, s1) = dispatch env s slot bytes in after_push env s1 flow_id result

-- The arm for `Bind`. A request that is not taken is dropped, and so answered by `Reset`.
unfoldable pub process_bind : Env → Task → ℕ → BindPayload → Bool → Task
process_bind env s flow_id payload ignore_bind =
    if s.accepts_binds
    then (if ignore_bind
        then s
        else if env.bind_taken
        then emit s (got_bind (record { flow_id = flow_id; payload = payload }))
        else send_frame env s (new_reset flow_id))
    else send_frame env s (new_reset flow_id)

-- The arm for `Datagram`.
unfoldable pub process_datagram : Env → Task → Datagram → Result Error (Unit {0}) × Task
process_datagram env s datagram = elim env.datagram_send [
  | TrySend.sent ↦ (ok tt, emit s (got_datagram datagram))
  | TrySend.full ↦ (ok tt, s)
  | TrySend.closed ↦ (err closed, s)
]

process_payload : Env → Task → ℕ → Payload → Bool → Result Error (Unit {0}) × Task
unfolding into_owned con_recv_new_stream process_acknowledge process_finish process_push
    process_bind process_datagram close_port
process_payload env s flow_id (Payload.connect p) ignore_bind =
    con_recv_new_stream env s flow_id (into_owned p.target_host) p.target_port p.rwnd
process_payload env s flow_id (Payload.acknowledge n) ignore_bind =
    process_acknowledge env s flow_id n (lookup flow_id s.flows)
process_payload env s flow_id Payload.finish ignore_bind =
    (ok tt, process_finish env s flow_id (lookup flow_id s.flows))
process_payload env s flow_id Payload.reset ignore_bind = (ok tt, close_port env s flow_id true)
process_payload env s flow_id (Payload.push bytes) ignore_bind =
    (ok tt, process_push env s flow_id (into_owned bytes) (lookup flow_id s.flows))
process_payload env s flow_id (Payload.bind p) ignore_bind =
    (ok tt, process_bind env s flow_id p ignore_bind)
process_payload env s flow_id (Payload.datagram p) ignore_bind = process_datagram env s (record {
  flow_id = flow_id;
  target_host = into_owned p.target_host;
  target_port = p.target_port;
  payload_data = into_owned p.payload_data;
})

unfoldable pub process_frame : Env → Task → Frame → Bool → Result Error (Unit {0}) × Task
unfolding process_payload
process_frame env s frame ignore_bind = process_payload env s frame.id frame.payload ignore_bind
