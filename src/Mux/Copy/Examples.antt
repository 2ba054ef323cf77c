-- ===== src/Mux/Copy/Examples.antt =====
-- A stream of src/mux/stream.rs that is joined with another end: the theorems at concrete inputs.
use penguin_rs.Base.{ℕ, ◌≡◌, refl, List, [], ◌∷◌, Bool, false, true, ok, err}
use penguin_rs.Mux.State.{MuxStream, Env, Task, TrySend}
use penguin_rs.Mux.Stream.{pending, ready, broken_pipe, poll_fill_buf, poll_write, shutdown_inner}
use penguin_rs.Mux.Copy.{
  CopyBidirectional, ReadRound, WriteRound, available, into_copy_bidirectional_with_buf,
  poll_write_us, poll,
}
use penguin_rs.Mux.Copy.Bytes.{SameBytes}
use penguin_rs.Mux.Copy.Transfer.{poll-SameBytes}
use penguin_rs.Mux.Copy.Errors.{read_turn, write_turn_at_end, poll_loses_error}

abbrev env_with : Bool → Env
env_with frame_open = record {
  frame_open = frame_open;
  is_waiting = λ i. true;
  stream_taken = true;
  bind_taken = true;
  datagram_send = TrySend.sent;
  data_send = λ i. TrySend.sent;
}

abbrev shared : Task
shared = record {
  flows = [];
  cells = λ i. record { finish_sent = false; psh_send_remaining = 2 };
  next_cell = 1;
  rwnd = 2;
  default_rwnd_threshold = 2;
  accepts_binds = false;
  log = [];
}

abbrev our_stream : MuxStream
our_stream = record {
  flow_id = 5;
  dest_host = [];
  dest_port = 0;
  cell = 0;
  psh_recvd_since = 0;
  buf = [];
  rwnd_threshold = 2;
}

-- Two pieces have arrived, and the other end gives one.
abbrev joined : CopyBidirectional
joined =
    into_copy_bidirectional_with_buf our_stream shared ((1 ∷ 2 ∷ []) ∷ (3 ∷ []) ∷ [])
      ((8 ∷ 9 ∷ []) ∷ [])

-- The other end takes one byte at a time, and then shuts down.
abbrev one_of : List ℕ → ℕ
one_of [] = 0
one_of (x ∷ xs) = 1

abbrev one_byte : ReadRound
one_byte = record {
  closed = true;
  write = λ buf. ready (ok (one_of buf));
  shutdown = ready (ok tt);
}

abbrev reads : List ReadRound
reads = one_byte ∷ one_byte ∷ one_byte ∷ one_byte ∷ []

abbrev write_turn_ready : WriteRound
write_turn_ready = record { fill = available; flush = ready (ok tt); race = [] }

abbrev writes : List WriteRound
writes = write_turn_ready ∷ write_turn_ready ∷ []

poll-SameBytes_example : SameBytes joined (poll (env_with true) reads writes joined).1
poll-SameBytes_example = poll-SameBytes (env_with true) reads writes joined

-- Three bytes were read, and two were sent.
all_copied : (poll (env_with true) reads writes joined).0 ≡ ready (ok (3, 2))
unfolding poll into_copy_bidirectional_with_buf poll_fill_buf poll_write shutdown_inner
all_copied = refl

abbrev idle : CopyBidirectional
idle = into_copy_bidirectional_with_buf our_stream shared [] []

poll_loses_error_example :
    let first = poll (env_with false) (read_turn false ∷ []) (write_turn_at_end ∷ []) idle in
    let second = poll (env_with false) (read_turn true ∷ []) (write_turn_at_end ∷ []) first.1 in
    ((poll_write_us (env_with false) (write_turn_at_end ∷ []) idle).0 ≡ ready (err broken_pipe))
    × (first.0 ≡ pending)
    × (second.0 ≡ ready (ok (0, 0)))
    × (second.1.task.log ≡ [])
unfolding into_copy_bidirectional_with_buf
poll_loses_error_example =
    poll_loses_error (env_with false) idle 0 0 refl refl refl refl refl refl refl
