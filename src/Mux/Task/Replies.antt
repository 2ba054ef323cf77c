-- ===== src/Mux/Task/Replies.antt =====
-- src/mux/task.rs: which frames the task sends in reply to a frame.
use penguin_rs.Base.{
  ℕ, ◌≡◌, refl, Bool, true, false, not, ◌||◌, if◌then◌else◌, List, [], ◌∷◌, ◌++◌, append-nil,
  append_assoc, Option, none, some, lookup, arith,
}
use penguin_rs.Mux.Frame.{
  OpCode, Payload, Frame, op_code, new_reset, new_acknowledge, into_owned, BindPayload,
}
use penguin_rs.Mux.State.{
  FlowSlot, requested, established, bind_requested, EstablishedStreamData, Env, Task, TrySend,
  Effect, sent_frame, send_frame, Datagram,
}
use penguin_rs.Mux.Task.{
  process_frame, process_payload, process_acknowledge, process_finish, process_push, close_port,
  con_recv_new_stream, process_bind, process_datagram,
}

-- The frames that an effect queues for the peer.
abbrev pub queued : Effect → List Frame
queued (sent_frame f) = f ∷ []
queued _ = []

-- The frames queued for the peer so far, oldest first.
abbrev pub frames : List Effect → List Frame
frames [] = []
frames (e ∷ log) = queued e ++ frames log

frames-append : (xs ys : List Effect) → frames (xs ++ ys) ≡ frames xs ++ frames ys
frames-append [] ys = refl
frames-append (x ∷ xs) ys = simp (frames-append xs ys, append_assoc)

pub frames-emit :
    (log : List Effect) (e : Effect) → frames (log ++ (e ∷ [])) ≡ frames log ++ queued e
frames-emit log e = simp (frames-append log (e ∷ []), append-nil)

-- A channel that is full where the stream behind it has not yet been shut down.
abbrev overrun_reply : Env → Task → EstablishedStreamData → Option ℕ → Bool
overrun_reply env s d none = true
overrun_reply env s d (some channel) = elim (env.data_send channel) [
  | TrySend.full ↦ not (s.cells d.cell).finish_sent
  | _ ↦ false
]

-- Whether a frame is answered by `Reset`: it does not fit the state of its flow ID.
abbrev pub resets : Env → Task → OpCode → Bool → Option FlowSlot → Bool
resets env s OpCode.connect ignore_bind (some slot) = true
resets env s OpCode.acknowledge ignore_bind none = true
resets env s OpCode.acknowledge ignore_bind (some (bind_requested sender)) = true
resets env s OpCode.finish ignore_bind none = true
resets env s OpCode.finish ignore_bind (some (requested sender)) = true
resets env s OpCode.push ignore_bind none = true
resets env s OpCode.push ignore_bind (some (requested sender)) = true
resets env s OpCode.push ignore_bind (some (bind_requested sender)) = true
resets env s OpCode.push ignore_bind (some (established d)) = overrun_reply env s d d.sender
resets env s OpCode.bind ignore_bind slot =
    not s.accepts_binds || not (ignore_bind || env.bind_taken)
resets env s _ ignore_bind slot = false

-- What goes to the peer: a `Reset`; for a `Connect` with a free flow ID an `Acknowledge` that
-- carries our window; for anything else, nothing.
abbrev pub reply : Env → Task → OpCode → ℕ → Bool → Option FlowSlot → List Frame
reply env s OpCode.connect flow_id ignore_bind none = new_acknowledge flow_id s.rwnd ∷ []
reply env s o flow_id ignore_bind slot =
    if resets env s o ignore_bind slot then new_reset flow_id ∷ [] else []

-- What reaches the queue of frames: nothing once it is closed.
abbrev pub if_open : Env → List Frame → List Frame
if_open env fs = if env.frame_open then fs else []

module _ (env : Env) (s : Task) (flow_id : ℕ) where
  abbrev Replied : Task → List Frame → Type 0
  Replied after fs = frames after.log ≡ frames s.log ++ if_open env fs

  send_frame_frames : (t : Task) (f : Frame) → t.log ≡ s.log → Replied (send_frame env t f) (f ∷ [])
  send_frame_frames t f e =
      ground (arith, frames-emit s.log (sent_frame f), append-nil (frames s.log))

  connect_frames :
      (host : List ℕ) (port rwnd : ℕ) (ignore_bind : Bool)
      → Replied
          (con_recv_new_stream env s flow_id host port rwnd).1
          (reply env s OpCode.connect flow_id ignore_bind (lookup flow_id s.flows))
  unfolding con_recv_new_stream
  connect_frames host port rwnd ignore_bind = grind (arith, frames-emit, append-nil)

  acknowledge_frames :
      (n : ℕ) (ignore_bind : Bool) (o : Option FlowSlot)
      → Replied
          (process_acknowledge env s flow_id n o).1
          (reply env s OpCode.acknowledge flow_id ignore_bind o)
  unfolding process_acknowledge
  acknowledge_frames n ignore_bind none = grind (arith, frames-emit, append-nil)
  acknowledge_frames n ignore_bind (some (requested sender)) =
      grind (arith, frames-emit, append-nil)
  acknowledge_frames n ignore_bind (some (bind_requested sender)) =
      grind (arith, frames-emit, append-nil)
  acknowledge_frames n ignore_bind (some (established d)) = grind (arith, frames-emit, append-nil)

  finish_frames :
      (ignore_bind : Bool) (o : Option FlowSlot)
      → Replied (process_finish env s flow_id o) (reply env s OpCode.finish flow_id ignore_bind o)
  unfolding process_finish
  finish_frames ignore_bind none = grind (arith, frames-emit, append-nil)
  finish_frames ignore_bind (some (requested sender)) = grind (arith, frames-emit, append-nil)
  finish_frames ignore_bind (some (bind_requested sender)) = grind (arith, frames-emit, append-nil)
  finish_frames ignore_bind (some (established d)) = grind (arith, frames-emit, append-nil)

  reset_frames : Replied (close_port env s flow_id true) []
  unfolding close_port
  reset_frames = grind (arith, frames-emit, append-nil)

  push_frames :
      (bytes : List ℕ) (ignore_bind : Bool) (o : Option FlowSlot)
      → lookup flow_id s.flows ≡ o
      → Replied (process_push env s flow_id bytes o) (reply env s OpCode.push flow_id ignore_bind o)
  unfolding process_push
  push_frames bytes ignore_bind none e = grind (arith, frames-emit, append-nil)
  push_frames bytes ignore_bind (some (requested sender)) e = grind (arith, frames-emit, append-nil)
  push_frames bytes ignore_bind (some (bind_requested sender)) e =
      grind (arith, frames-emit, append-nil)
  push_frames bytes ignore_bind (some (established d)) e = grind (arith, frames-emit, append-nil)

  bind_frames :
      (p : BindPayload) (ignore_bind : Bool) (o : Option FlowSlot)
      → Replied
          (process_bind env s flow_id p ignore_bind)
          (reply env s OpCode.bind flow_id ignore_bind o)
  unfolding process_bind
  bind_frames p ignore_bind o = grind (arith, frames-emit, append-nil)

  datagram_frames : (d : Datagram) → Replied (process_datagram env s d).1 []
  unfolding process_datagram
  datagram_frames d = grind (arith, frames-emit, append-nil)

process_payload_frames :
    (env : Env) (s : Task) (flow_id : ℕ) (p : Payload) (ignore_bind : Bool)
    → Replied env s flow_id
        (process_payload env s flow_id p ignore_bind).1
        (reply env s (op_code p) flow_id ignore_bind (lookup flow_id s.flows))
unfolding process_payload op_code
process_payload_frames env s flow_id (Payload.connect p) ignore_bind =
    connect_frames env s flow_id _ p.target_port p.rwnd ignore_bind
process_payload_frames env s flow_id (Payload.acknowledge n) ignore_bind =
    acknowledge_frames env s flow_id n ignore_bind _
process_payload_frames env s flow_id Payload.finish ignore_bind =
    finish_frames env s flow_id ignore_bind _
process_payload_frames env s flow_id Payload.reset ignore_bind = reset_frames env s flow_id
process_payload_frames env s flow_id (Payload.push bytes) ignore_bind =
    push_frames env s flow_id (into_owned bytes) ignore_bind _ refl
process_payload_frames env s flow_id (Payload.bind p) ignore_bind =
    bind_frames env s flow_id p ignore_bind (lookup flow_id s.flows)
process_payload_frames env s flow_id (Payload.datagram p) ignore_bind =
    datagram_frames env s flow_id _

-- While the queue of frames is open, each frame from the peer queues exactly the reply of the table
-- `reply`: an `Acknowledge` with our window for a `Connect` whose flow ID is free, a `Reset` with the
-- same flow ID where the frame does not fit the state of the flow ID, and else nothing. So nothing
-- answers a `Reset`, a `Datagram`, a `Push` to a stream whose receiver is closed, or a `Bind` that is
-- handed to the user. Once the queue is closed nothing is queued.
pub process_frame-reply :
    (env : Env) (s : Task) (f : Frame) (ignore_bind : Bool)
    → frames (process_frame env s f ignore_bind).1.log
      ≡ frames s.log
        ++ if_open env (reply env s (op_code f.payload) f.id ignore_bind (lookup f.id s.flows))
unfolding process_frame
process_frame-reply env s f ignore_bind = process_payload_frames env s f.id f.payload ignore_bind
