-- ===== src/Mux/Copy.antt =====
-- src/mux/stream.rs: `CopyBidirectional`, which joins a stream and another reader and writer.
--
-- The other end is any type: what its calls give is an argument, a round for each turn of a loop,
-- and the bytes it takes and gives are part of the state. Where the list of rounds ends, whatever
-- is asked next is pending. Counts are `u64`.
pub mod Bytes
pub mod Counts
pub mod Ends
pub mod Errors
mod Examples
pub mod Transfer
use penguin_rs.Base.{
  ℕ, ◌+◌, ◌%◌, ◌^◌, List, [], ◌∷◌, ◌++◌, Bool, if◌then◌else◌, Result, ok, err, take,
}
use penguin_rs.Mux.State.{MuxStream, Env, Task}
use penguin_rs.Mux.Stream.{
  Poll, pending, ready, IoError, Recv, item, ended, waiting, Race, poll_fill_buf, consume,
  poll_write, shutdown_inner,
}
use penguin_rs.Mux.Stream.Reading.{rest}

pub data ReadState : Type 0 where
  transferring shutting_down done : ℕ → ReadState

pub data WriteState : Type 0 where
  transferring done : ℕ → WriteState

-- The future with what it works on: the memory that the stream shares with the task, the channel of
-- received data, the bytes that the other end took, and the pieces that it gives next.
pub record CopyBidirectional : Type 0 where
  pub us : MuxStream
  pub read_state : ReadState
  pub write_state : WriteState
  pub task : Task
  pub frame_rx : List (List ℕ)
  pub other_in : List ℕ
  pub other_out : List (List ℕ)

-- One turn of the loop that reads from us: whether the sender of the channel is gone, and what the
-- other end answers to a write and to a shutdown.
pub record ReadRound : Type 0 where
  pub closed : Bool
  pub write : List ℕ → Poll (Result IoError ℕ)
  pub shutdown : Poll (Result IoError (Unit {0}))

-- What `poll_fill_buf` of the other end comes to; an available piece stays until it is consumed, and
-- the end of the pieces is the end of the stream.
pub data Fill : Type 0 where
  available not_yet : Fill
  failed : IoError → Fill

pub record WriteRound : Type 0 where
  pub fill : Fill
  pub flush : Poll (Result IoError (Unit {0}))
  pub race : Race

unfoldable pub into_copy_bidirectional_with_buf :
    MuxStream → Task → List (List ℕ) → List (List ℕ) → CopyBidirectional
into_copy_bidirectional_with_buf us task frame_rx other_out = record {
  us = us;
  read_state = ReadState.transferring 0;
  write_state = WriteState.transferring 0;
  task = task;
  frame_rx = frame_rx;
  other_in = [];
  other_out = other_out;
}

-- What `frame_rx.poll_recv` gives.
abbrev pub poll_recv : Bool → List (List ℕ) → Recv
poll_recv closed [] = if closed then ended else waiting
poll_recv closed (next ∷ frame_rx) = item next

abbrev pub Polled : Type 0
Polled = Poll (Result IoError ℕ) × CopyBidirectional

unfoldable pub shut_down_other : Poll (Result IoError (Unit {0})) → ℕ → CopyBidirectional → Polled
shut_down_other pending read_amt c = (pending, c)
shut_down_other (ready (err e)) read_amt c = (ready (err e), c)
shut_down_other (ready (ok u)) read_amt c =
    (ready (ok read_amt), record c { read_state = ReadState.done read_amt })

-- After the other end answered to the write of a buffer.
unfoldable pub written_to_other :
    Poll (Result IoError ℕ)
    → List ℕ
    → ℕ
    → CopyBidirectional
    → (ℕ → CopyBidirectional → Polled)
    → Polled
unfolding consume
written_to_other pending new_buf read_amt c next = (pending, c)
written_to_other (ready (err e)) new_buf read_amt c next = (ready (err e), c)
written_to_other (ready (ok processed)) new_buf read_amt c next =
    let read_amt' = (read_amt + processed) % 2 ^ 64 in
    next read_amt' (record c {
      us = consume c.us processed;
      read_state = ReadState.transferring read_amt';
      other_in = c.other_in ++ take processed new_buf;
    })

unfoldable pub filled_from_us :
    ReadRound
    → Poll (Result IoError (List ℕ))
    → ℕ
    → CopyBidirectional
    → (ℕ → CopyBidirectional → Polled)
    → Polled
unfolding shut_down_other written_to_other
filled_from_us round pending read_amt c next = (pending, c)
filled_from_us round (ready (err e)) read_amt c next = (ready (err e), c)
filled_from_us round (ready (ok [])) read_amt c next =
    shut_down_other round.shutdown read_amt
      (record c { read_state = ReadState.shutting_down read_amt })
filled_from_us round (ready (ok (b ∷ new_buf))) read_amt c next =
    written_to_other (round.write (b ∷ new_buf)) (b ∷ new_buf) read_amt c next

-- `poll_fill_buf` of our stream; an empty buffer takes the first piece of the channel.
unfoldable pub fill_from_us :
    Env → Bool → CopyBidirectional → Poll (Result IoError (List ℕ)) × CopyBidirectional
fill_from_us env closed c =
    let (filled, us, task) = poll_fill_buf env c.task c.us (poll_recv closed c.frame_rx) in
    (filled, record c { us = us; task = task; frame_rx = rest c.us.buf c.frame_rx })

unfoldable pub read_loop : Env → List ReadRound → ℕ → CopyBidirectional → Polled
unfolding fill_from_us filled_from_us
read_loop env [] read_amt c = (pending, c)
read_loop env (round ∷ rounds) read_amt c =
    let (filled, c') = fill_from_us env round.closed c in
    filled_from_us round filled read_amt c' (read_loop env rounds)

-- In the second state the answer of the other end to a shutdown is that of the first round.
abbrev pub first_shutdown : List ReadRound → Poll (Result IoError (Unit {0}))
first_shutdown [] = pending
first_shutdown (round ∷ rounds) = round.shutdown

unfoldable pub poll_read_in : Env → List ReadRound → ReadState → CopyBidirectional → Polled
unfolding read_loop shut_down_other
poll_read_in env rounds (ReadState.transferring read_amt) c = read_loop env rounds read_amt c
poll_read_in env rounds (ReadState.shutting_down read_amt) c =
    shut_down_other (first_shutdown rounds) read_amt c
poll_read_in env rounds (ReadState.done read_amt) c = (ready (ok read_amt), c)

unfoldable pub poll_read_us : Env → List ReadRound → CopyBidirectional → Polled
unfolding poll_read_in
poll_read_us env rounds c = poll_read_in env rounds c.read_state c

unfoldable pub flushed : Poll (Result IoError (Unit {0})) → CopyBidirectional → Polled
flushed pending c = (pending, c)
flushed (ready (err e)) c = (ready (err e), c)
flushed (ready (ok u)) c = (pending, c)

-- The other end is at its end: no more `Push` frames of ours follow.
unfoldable pub finish_us : Result IoError (Unit {0}) × Task → ℕ → CopyBidirectional → Polled
finish_us (err e, task) written_amt c = (ready (err e), record c { task = task })
finish_us (ok u, task) written_amt c =
    (ready (ok written_amt), record c { task = task; write_state = WriteState.done written_amt })

-- After permission was asked for and, where it was given, a `Push` frame was sent; the piece that it
-- carries is then consumed.
unfoldable pub pushed_to_us :
    Poll (Result IoError ℕ) × Task
    → List (List ℕ)
    → ℕ
    → CopyBidirectional
    → (ℕ → CopyBidirectional → Polled)
    → Polled
pushed_to_us (pending, task) later written_amt c next = (pending, record c { task = task })
pushed_to_us (ready (err e), task) later written_amt c next =
    (ready (err e), record c { task = task })
pushed_to_us (ready (ok processed), task) later written_amt c next =
    let written_amt' = (written_amt + processed) % 2 ^ 64 in
    next written_amt' (record c {
      task = task;
      write_state = WriteState.transferring written_amt';
      other_out = later;
    })

-- The first piece of the other end; an empty one, or none, is the end of the stream.
unfoldable pub filled_from_other :
    Env → Race → List (List ℕ) → ℕ → CopyBidirectional → (ℕ → CopyBidirectional → Polled) → Polled
unfolding finish_us pushed_to_us
filled_from_other env race [] written_amt c next =
    finish_us (shutdown_inner env c.task c.us) written_amt c
filled_from_other env race ([] ∷ later) written_amt c next =
    finish_us (shutdown_inner env c.task c.us) written_amt c
filled_from_other env race ((b ∷ new_buf) ∷ later) written_amt c next =
    pushed_to_us (poll_write env c.task c.us race (b ∷ new_buf)) later written_amt c next

unfoldable pub write_turn :
    Env → WriteRound → Fill → ℕ → CopyBidirectional → (ℕ → CopyBidirectional → Polled) → Polled
unfolding flushed filled_from_other
write_turn env round available written_amt c next =
    filled_from_other env round.race c.other_out written_amt c next
write_turn env round not_yet written_amt c next = flushed round.flush c
write_turn env round (failed e) written_amt c next = (ready (err e), c)

unfoldable pub write_loop : Env → List WriteRound → ℕ → CopyBidirectional → Polled
unfolding write_turn
write_loop env [] written_amt c = (pending, c)
write_loop env (round ∷ rounds) written_amt c =
    write_turn env round round.fill written_amt c (write_loop env rounds)

unfoldable pub poll_write_in : Env → List WriteRound → WriteState → CopyBidirectional → Polled
unfolding write_loop
poll_write_in env rounds (WriteState.transferring written_amt) c =
    write_loop env rounds written_amt c
poll_write_in env rounds (WriteState.done written_amt) c = (ready (ok written_amt), c)

unfoldable pub poll_write_us : Env → List WriteRound → CopyBidirectional → Polled
unfolding poll_write_in
poll_write_us env rounds c = poll_write_in env rounds c.write_state c

-- `Poll::Ready(Ok((ready!(r)?, ready!(w)?)))`.
unfoldable pub both :
    Poll (Result IoError ℕ) → Poll (Result IoError ℕ) → Poll (Result IoError (ℕ × ℕ))
both pending w = pending
both (ready (err e)) w = ready (err e)
both (ready (ok read_amt)) pending = pending
both (ready (ok read_amt)) (ready (err e)) = ready (err e)
both (ready (ok read_amt)) (ready (ok written_amt)) = ready (ok (read_amt, written_amt))

unfoldable pub poll :
    Env
    → List ReadRound
    → List WriteRound
    → CopyBidirectional
    → Poll (Result IoError (ℕ × ℕ)) × CopyBidirectional
unfolding poll_read_us poll_write_us both
poll env reads writes c =
    let (r, c') = poll_read_us env reads c in
    let (w, c'') = poll_write_us env writes c' in (both r w, c'')
