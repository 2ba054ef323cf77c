-- ===== src/Mux/Api/Handshake.antt =====
-- src/mux/lib.rs and src/mux/task.rs: how a stream comes to be, at both ends.
use penguin_rs.Base.{
  append_assoc, refl, ℕ, ◌≡◌, ◌≢◌, List, [], ◌∷◌, ◌++◌, Bool, true, false, none, some, lookup,
  insert, lookup-insert, arith, ok, min,
}
use penguin_rs.Mux.Frame.{Frame, new_connect, new_acknowledge, new_datagram_owned, as_ref, Buf}
use penguin_rs.Mux.Frame.Codec.{finalize}
use penguin_rs.Mux.Frame.Encoding.{finalize_panics}
use penguin_rs.Mux.State.{
  MuxStream, established, requested, answer_connect, Env, Task, Datagram, sent_frame, new_stream,
  emit, set_flows,
}
use penguin_rs.Mux.Task.{process_frame}
use penguin_rs.Mux.Task.Isolation.{fresh_slot}
use penguin_rs.Mux.Task.Replies.{frames, frames-emit}
use penguin_rs.Mux.Task.Failures.{IsAlive}
use penguin_rs.Mux.Api.{request_stream, send_datagram}

-- The memory of a new stream.
abbrev pub Opened : Task → ℕ → ℕ → ℕ → Type 0
Opened s flow_id cell window =
    (lookup flow_id s.flows ≡ some (established (record { sender = some cell; cell = cell })))
    × ((s.cells cell).psh_send_remaining ≡ window)
    × ((s.cells cell).finish_sent ≡ false)

-- The user's end of that stream: its cell is the one that the task has, the next one that is free.
abbrev pub given : Task → ℕ → ℕ → List ℕ → ℕ → MuxStream
given b key window host port = record {
  flow_id = key;
  dest_host = host;
  dest_port = port;
  cell = b.next_cell;
  psh_recvd_since = 0;
  buf = [];
  rwnd_threshold = min b.default_rwnd_threshold window;
}

accepts :
    (env : Env) (b : Task) (host : List ℕ) (port key window : ℕ) (ignore_bind : Bool)
    → env.frame_open ≡ true
    → env.stream_taken ≡ true
    → lookup key b.flows ≡ none
    → let b1 = (process_frame env b (new_connect host port key window) ignore_bind).1 in
      (b1.log
        ≡ b.log
          ++ (sent_frame (new_acknowledge key b.rwnd)
              ∷ new_stream (given b key window host port)
              ∷ []))
      × Opened b1 key b.next_cell window
unfolding process_frame new_connect
accepts env b host port key window ib alive taken free =
    let ack = sent_frame (new_acknowledge key b.rwnd) in
    ground (
      arith,
      lookup-insert key key (fresh_slot b) b.flows,
      append_assoc b.log (ack ∷ []) (new_stream (given b key window host port) ∷ []),
    )

accepted :
    (env : Env) (a : Task) (key sender window : ℕ) (ignore_bind : Bool)
    → env.is_waiting sender ≡ true
    → lookup key a.flows ≡ some (requested sender)
    → let a1 = (process_frame env a (new_acknowledge key window) ignore_bind).1 in
      (a1.log ≡ a.log ++ (answer_connect sender (some (given a key window [] 0)) ∷ []))
      × Opened a1 key a.next_cell window
unfolding process_frame new_acknowledge
accepted env a key sender window ib waits slot =
    ground (arith, lookup-insert key key (fresh_slot a) a.flows)

abbrev requester : Task → ℕ → ℕ → ℕ → List ℕ → Task
requester a key sender port host =
    emit (set_flows a (insert key (requested sender) a.flows))
      (sent_frame (new_connect host port key a.rwnd))

request_stream-open :
    (env : Env) (a : Task) (key sender port : ℕ) (host : List ℕ)
    → env.frame_open ≡ true
    → (request_stream env a key sender host port).1 ≡ requester a key sender port host
unfolding request_stream
request_stream-open env a key sender port host h = ground arith

-- While the users of both ends are there, a key that is free at the other end leads to a stream
-- at both ends: the requester queues `Connect`; the other end answers by `Acknowledge` and then hands
-- its user a stream to the host and the port that were asked for; and the requester's call is answered
-- by a stream too. Each stream shares with its task memory of its own, by which each end may send as
-- many frames as the other's receive window holds.
pub handshake :
    (env : Env) (a b : Task) (key sender port : ℕ) (host : List ℕ) (ignore_bind : Bool)
    → IsAlive env
    → lookup key b.flows ≡ none
    → let a1 = (request_stream env a key sender host port).1 in
      let b1 = (process_frame env b (new_connect host port key a.rwnd) ignore_bind).1 in
      let a2 = (process_frame env a1 (new_acknowledge key b.rwnd) ignore_bind).1 in
      (a1.log ≡ a.log ++ (sent_frame (new_connect host port key a.rwnd) ∷ []))
      × (b1.log
          ≡ b.log
            ++ (sent_frame (new_acknowledge key b.rwnd)
                ∷ new_stream (given b key a.rwnd host port)
                ∷ []))
      × Opened b1 key b.next_cell a.rwnd
      × (a2.log ≡ a1.log ++ (answer_connect sender (some (given a key b.rwnd [] 0)) ∷ []))
      × Opened a2 key a.next_cell b.rwnd
handshake env a b key sender port host ib alive free =
    let (delivered, opened) =
      accepts env b host port key a.rwnd ib alive.frames_open alive.streams_taken free in
    let (answered, opened') =
      accepted env (requester a key sender port host) key sender b.rwnd ib
        (alive.all_waiting sender)
        (ground (arith, lookup-insert key key (requested sender) a.flows)) in
    rw (request_stream-open env a key sender port host alive.frames_open)
      (refl, delivered, opened, answered, opened')

-- Every datagram that is taken can be encoded: the encoder does not panic on what was queued.
pub send_datagram_encodes :
    (env : Env) (buf : Buf) (s s' : Task) (datagram : Datagram)
    → send_datagram env s datagram ≡ (ok tt, s')
    → (f : Frame) × (frames s'.log ≡ frames s.log ++ (f ∷ [])) × (finalize buf f ≢ none)
unfolding send_datagram
send_datagram_encodes env buf s s' d e =
    let f = new_datagram_owned d.flow_id d.target_host d.target_port d.payload_data in
    (
      f,
      ground (arith, frames-emit s.log (sent_frame f)),
      λ panics. (finalize_panics buf f).0 panics (unfold new_datagram_owned as_ref in ground arith),
    )
