-- ===== src/Mux/Task/Failures.antt =====
-- src/mux/task.rs: when processing a frame fails, which ends the task.
use penguin_rs.Base.{
  ℕ, ◌≡◌, refl, ◌≢◌, Bool, true, false, List, Option, none, some, lookup, arith, ok, err,
}
use penguin_rs.Mux.Frame.{Payload, Frame, into_owned, new_acknowledge}
use penguin_rs.Mux.State.{
  send_stream_to_client, FlowSlot, requested, established, bind_requested, Env, Task, TrySend,
  Datagram,
}
use penguin_rs.Mux.Task.{
  process_frame, process_payload, process_acknowledge, con_recv_new_stream, process_datagram,
}

-- The user's side is there: nobody has dropped a receiver or given up waiting.
pub record IsAlive (env : Env) : Type 0 where
  pub frames_open : env.frame_open ≡ true
  pub streams_taken : env.stream_taken ≡ true
  pub datagrams_open : env.datagram_send ≢ TrySend.closed
  pub all_waiting : (sender : ℕ) → env.is_waiting sender ≡ true

module _ (env : Env) (s : Task) (alive : IsAlive env) where
  connect_ok :
      (flow_id : ℕ) (host : List ℕ) (port rwnd : ℕ)
      → (con_recv_new_stream env s flow_id host port rwnd).0 ≡ ok tt
  unfolding con_recv_new_stream
  connect_ok flow_id host port rwnd = ground (arith, alive.frames_open, alive.streams_taken)

  acknowledge_ok :
      (flow_id n : ℕ) (o : Option FlowSlot)
      → lookup flow_id s.flows ≡ o
      → (process_acknowledge env s flow_id n o).0 ≡ ok tt
  unfolding process_acknowledge
  acknowledge_ok flow_id n none e = ground arith
  acknowledge_ok flow_id n (some (requested sender)) e = ground (arith, alive.all_waiting sender)
  acknowledge_ok flow_id n (some (bind_requested sender)) e = ground arith
  acknowledge_ok flow_id n (some (established d)) e = ground arith

  datagram_ok : (d : Datagram) → (process_datagram env s d).0 ≡ ok tt
  unfolding process_datagram
  datagram_ok d = ground (arith, alive.datagrams_open)

  process_payload_ok :
      (flow_id : ℕ) (p : Payload) (ib : Bool) → (process_payload env s flow_id p ib).0 ≡ ok tt
  unfolding process_payload
  process_payload_ok flow_id (Payload.connect p) ib =
      connect_ok flow_id (into_owned p.target_host) p.target_port p.rwnd
  process_payload_ok flow_id (Payload.acknowledge n) ib =
      acknowledge_ok flow_id n (lookup flow_id s.flows) refl
  process_payload_ok flow_id Payload.finish ib = refl
  process_payload_ok flow_id Payload.reset ib = refl
  process_payload_ok flow_id (Payload.push bytes) ib = refl
  process_payload_ok flow_id (Payload.bind p) ib = refl
  process_payload_ok flow_id (Payload.datagram p) ib = datagram_ok _

-- While the user's side is there, no frame makes the task fail, whatever the state of the flows and
-- whatever the peer sends.
pub process_frame_succeeds :
    (env : Env) (s : Task) (f : Frame) (ignore_bind : Bool)
    → IsAlive env
    → (process_frame env s f ignore_bind).0 ≡ ok tt
unfolding process_frame
process_frame_succeeds env s f ignore_bind alive =
    process_payload_ok env s alive f.id f.payload ignore_bind

-- Where a flow ID was requested by a call that waits no more, the `Acknowledge` for it makes
-- processing fail, which ends the whole task, though every other part is in order.
pub abandoned_request_fails :
    (env : Env) (s : Task) (flow_id sender n : ℕ) (ignore_bind : Bool)
    → lookup flow_id s.flows ≡ some (requested sender)
    → env.is_waiting sender ≡ false
    → (process_frame env s (new_acknowledge flow_id n) ignore_bind).0 ≡ err send_stream_to_client
unfolding process_frame process_payload new_acknowledge
abandoned_request_fails env s flow_id sender n ignore_bind e gone = ground arith
