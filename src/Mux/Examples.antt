-- ===== src/Mux/Examples.antt =====
-- The task and the streams of src/mux: the theorems at concrete states.
use penguin_rs.Base.{ℕ, ◌≡◌, refl, ◌++◌, List, [], ◌∷◌, false, ok, err, some, lookup, arith}
use penguin_rs.Mux.Frame.{
  Frame, Payload, DatagramPayload, borrowed, as_ref, op_code, frame_too_short, new_acknowledge,
  new_finish, new_push,
}
use penguin_rs.Mux.Frame.BigEndian.{big_endian}
use penguin_rs.Mux.Frame.Codec.{finalize}
use penguin_rs.Mux.State.{Env, TrySend, established, EstablishedStreamData, invalid_frame}
use penguin_rs.Mux.Task.{process_frame}
use penguin_rs.Mux.Task.Isolation.{IsWf}
use penguin_rs.Mux.Task.Changes.{process_frame-IsWf, process_frame_isolated}
use penguin_rs.Mux.Task.Phases.{phase, absent, process_frame-phase}
use penguin_rs.Mux.Task.Replies.{frames, if_open, reply, process_frame-reply}
use penguin_rs.Mux.Loop.{binary, close, process_ws_next}
use penguin_rs.Mux.Loop.Invariant.{short_datagram_ends_task}
use penguin_rs.Mux.Stream.{poll_read}
use penguin_rs.Mux.Stream.Reading.{concat, front, rest, bytes_read, poll_read_exact}
use penguin_rs.Mux.Samples.{alive, task, task-IsWf, stream}

abbrev finish : Frame
finish = new_finish 5

process_frame-IsWf_example :
    let after = (process_frame alive task finish false).1 in IsWf after.flows after.next_cell
process_frame-IsWf_example = process_frame-IsWf alive task finish false task-IsWf

process_frame_isolated_example :
    let after = (process_frame alive task (new_acknowledge 6 2) false).1 in
    (lookup 5 after.flows ≡ lookup 5 task.flows)
    × ((d : EstablishedStreamData)
        → lookup 5 task.flows ≡ some (established d)
        → after.cells d.cell ≡ task.cells d.cell)
process_frame_isolated_example =
    process_frame_isolated alive task (new_acknowledge 6 2) false 5 task-IsWf
      (unfold new_acknowledge in omega arith)

-- A `Push` that finds the channel of the stream full.
abbrev full : Env
full = record alive { data_send = λ channel. TrySend.full }

process_frame-phase_example :
    phase (lookup 5 (process_frame full task (new_push 5 (7 ∷ [])) false).1.flows) ≡ absent
unfolding new_push op_code lookup
process_frame-phase_example = process_frame-phase full task (new_push 5 (7 ∷ [])) false

process_frame-reply_example :
    frames (process_frame alive task finish false).1.log
    ≡ frames task.log
      ++ if_open alive
          (reply alive task (op_code finish.payload) finish.id false (lookup finish.id task.flows))
process_frame-reply_example = process_frame-reply alive task finish false

abbrev small : DatagramPayload
small = record {
  target_port = 53;
  target_host = borrowed (49 ∷ []);
  payload_data = borrowed (1 ∷ []);
}

abbrev small_bytes : List ℕ
small_bytes = 118 ∷ 0 ∷ 0 ∷ 0 ∷ 9 ∷ 1 ∷ 0 ∷ 53 ∷ 49 ∷ 1 ∷ []

small_encoded :
    finalize big_endian (record { id = 9; payload = Payload.datagram small }) ≡ some small_bytes
unfolding finalize
small_encoded = refl

short_datagram_ends_task_example :
    process_ws_next big_endian task ((alive, ok (binary small_bytes)) ∷ (alive, ok close) ∷ [])
    ≡ (err (invalid_frame frame_too_short), task)
unfolding as_ref
short_datagram_ends_task_example =
    short_datagram_ends_task big_endian task alive ((alive, ok close) ∷ []) 9 small small_bytes
      (omega arith) (omega arith) (omega arith) small_encoded

poll_read_exact_example :
    let (r, self', s') = poll_read alive task stream (front ((7 ∷ 8 ∷ []) ∷ [])) 1 in
    bytes_read r ++ (self'.buf ++ concat (rest [] ((7 ∷ 8 ∷ []) ∷ []))) ≡ 7 ∷ 8 ∷ []
poll_read_exact_example = poll_read_exact alive task stream ((7 ∷ 8 ∷ []) ∷ []) 1
