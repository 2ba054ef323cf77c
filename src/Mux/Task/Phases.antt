-- ===== src/Mux/Task/Phases.antt =====
-- src/mux/task.rs: the life of a flow ID as a state machine, and `process_frame` as its steps.
use penguin_rs.Base.{
  ℕ, ◌≡◌, refl, Bool, true, false, if◌then◌else◌, List, Option, none, some, lookup, insert, remove,
  lookup-insert, lookup-remove, arith,
}
use penguin_rs.Mux.Frame.{OpCode, Payload, Frame, op_code, BindPayload, into_owned}
use penguin_rs.Mux.State.{
  FlowSlot, requested, established, bind_requested, Env, Task, TrySend, Datagram,
}
use penguin_rs.Mux.Task.{
  process_frame, process_payload, process_acknowledge, process_finish, process_push, close_port,
  con_recv_new_stream, process_bind, process_datagram,
}

pub data Phase : Type 0 where
  absent requesting streaming half_closed binding : Phase

abbrev slot_phase : Option ℕ → Phase
slot_phase none = half_closed
slot_phase (some channel) = streaming

abbrev pub phase : Option FlowSlot → Phase
phase none = absent
phase (some (requested sender)) = requesting
phase (some (established stream_data)) = slot_phase stream_data.sender
phase (some (bind_requested sender)) = binding

-- The state machine of PROTOCOL.md, as one end sees it: where each frame from the peer leads.
abbrev pub next_phase : OpCode → Phase → Phase
next_phase OpCode.connect absent = streaming
next_phase OpCode.acknowledge requesting = streaming
next_phase OpCode.finish requesting = absent
next_phase OpCode.finish streaming = half_closed
next_phase OpCode.finish binding = absent
next_phase OpCode.reset p = absent
next_phase _ p = p

-- The receive window is exceeded: the channel of the stream has no room left.
abbrev overruns : Env → Option FlowSlot → Bool
overruns env (some (established d)) = elim d.sender [
  | none ↦ false
  | some channel ↦ elim (env.data_send channel) [ TrySend.full ↦ true | _ ↦ false ]
]
overruns env _ = false

-- Where a frame leads from what the map has: along the state machine, but for an overrun.
abbrev pub phase_after : Env → OpCode → Option FlowSlot → Phase
phase_after env OpCode.push slot = if overruns env slot then absent else phase slot
phase_after env o slot = next_phase o (phase slot)

phase_of : Task → ℕ → Phase
phase_of s flow_id = phase (lookup flow_id s.flows)

abbrev fresh_slot : Task → FlowSlot
fresh_slot s = established (record { sender = some s.next_cell; cell = s.next_cell })

module _ (env : Env) (s : Task) (flow_id : ℕ) where
  -- What the lookups of `flow_id` give after each change of the map.
  after_insert : (slot : FlowSlot) → lookup flow_id (insert flow_id slot s.flows) ≡ some slot
  after_insert slot = ground (arith, lookup-insert flow_id flow_id slot s.flows)

  after_remove : lookup flow_id (remove flow_id s.flows) ≡ none
  after_remove = ground (arith, lookup-remove flow_id flow_id s.flows)

  connect_phase :
      (host : List ℕ) (port rwnd : ℕ)
      → phase_of (con_recv_new_stream env s flow_id host port rwnd).1 flow_id
        ≡ next_phase OpCode.connect (phase_of s flow_id)
  unfolding phase_of con_recv_new_stream
  connect_phase host port rwnd = ground (arith, after_insert (fresh_slot s))

  acknowledge_phase :
      (n : ℕ)
      → phase_of (process_acknowledge env s flow_id n (lookup flow_id s.flows)).1 flow_id
        ≡ next_phase OpCode.acknowledge (phase_of s flow_id)
  unfolding phase_of process_acknowledge
  acknowledge_phase n = ground (arith, after_insert (fresh_slot s))

  finish-phase :
      (o : Option FlowSlot)
      → lookup flow_id s.flows ≡ o
      → phase_of (process_finish env s flow_id o) flow_id ≡ next_phase OpCode.finish (phase o)
  unfolding phase_of process_finish
  finish-phase none e = ground arith
  finish-phase (some (requested sender)) e = ground (arith, after_remove)
  finish-phase (some (bind_requested sender)) e = ground (arith, after_remove)
  finish-phase (some (established d)) e =
      ground (arith, after_insert (established (record d { sender = none })))

  reset_phase : (rst : Bool) → phase_of (close_port env s flow_id rst) flow_id ≡ absent
  unfolding phase_of close_port
  reset_phase rst = ground (arith, after_remove)

  push_phase :
      (bytes : List ℕ) (o : Option FlowSlot)
      → lookup flow_id s.flows ≡ o
      → phase_of (process_push env s flow_id bytes o) flow_id ≡ phase_after env OpCode.push o
  unfolding phase_of process_push
  push_phase bytes none e = ground arith
  push_phase bytes (some (requested sender)) e = ground arith
  push_phase bytes (some (bind_requested sender)) e = ground arith
  push_phase bytes (some (established d)) e = ground (arith, after_remove)

  bind_phase :
      (p : BindPayload) (ignore_bind : Bool)
      → phase_of (process_bind env s flow_id p ignore_bind) flow_id ≡ phase_of s flow_id
  unfolding phase_of process_bind
  bind_phase p ignore_bind = ground arith

  datagram_phase :
      (d : Datagram) → phase_of (process_datagram env s d).1 flow_id ≡ phase_of s flow_id
  unfolding phase_of process_datagram
  datagram_phase d = ground arith

process_payload-phase :
    (env : Env) (s : Task) (flow_id : ℕ) (p : Payload) (ignore_bind : Bool)
    → phase_of (process_payload env s flow_id p ignore_bind).1 flow_id
      ≡ phase_after env (op_code p) (lookup flow_id s.flows)
unfolding process_payload op_code phase_of
process_payload-phase env s flow_id (Payload.connect p) ignore_bind =
    connect_phase env s flow_id (into_owned p.target_host) p.target_port p.rwnd
process_payload-phase env s flow_id (Payload.acknowledge n) ignore_bind =
    acknowledge_phase env s flow_id n
process_payload-phase env s flow_id Payload.finish ignore_bind =
    finish-phase env s flow_id (lookup flow_id s.flows) refl
process_payload-phase env s flow_id Payload.reset ignore_bind = reset_phase env s flow_id true
process_payload-phase env s flow_id (Payload.push bytes) ignore_bind =
    push_phase env s flow_id (into_owned bytes) (lookup flow_id s.flows) refl
process_payload-phase env s flow_id (Payload.bind p) ignore_bind =
    bind_phase env s flow_id p ignore_bind
process_payload-phase env s flow_id (Payload.datagram p) ignore_bind =
    datagram_phase env s flow_id _

-- Every frame moves its flow ID along the state machine `next_phase`, whether or not the call fails;
-- but a `Push` that overruns the receive window of its stream, and only that one, removes the flow ID.
pub process_frame-phase :
    (env : Env) (s : Task) (f : Frame) (ignore_bind : Bool)
    → phase (lookup f.id (process_frame env s f ignore_bind).1.flows)
      ≡ phase_after env (op_code f.payload) (lookup f.id s.flows)
unfolding process_frame phase_of
process_frame-phase env s f ignore_bind = process_payload-phase env s f.id f.payload ignore_bind
