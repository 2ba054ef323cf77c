-- ===== src/Mux/Stream.antt =====
-- src/mux/stream.rs: the operations of `MuxStream`, the user's end of a stream. What the channel of
-- received data gives is an argument; the memory shared with the task is in the store.
pub mod Writing
pub mod Reading
use penguin_rs.Base.{
  ℕ, suc, ◌+◌, ◌-◌, ◌%◌, ◌^◌, List, [], ◌∷◌, ◌++◌, Bool, true, false, not, ◌&&◌, Option, none, some,
  if◌then◌else◌, ◌==◌, ltb, leb, min, Result, ok, err, length, take, drop,
}
use penguin_rs.Mux.Frame.{Frame, new_push, new_acknowledge, new_finish}
use penguin_rs.Mux.State.{
  MuxStream, Cell, Env, Effect, dropped_port, Task, emit, set_cell, send_frame,
}

pub data Poll {ℓ} (A : Type ℓ) : Type ℓ where
  pending : Poll A
  ready : A → Poll A

-- `std::io::Error`: the kind that this file makes, and those of other code, by number.
pub data IoError : Type 0 where
  broken_pipe : IoError
  other_error : ℕ → IoError

-- What `frame_rx.poll_recv` gives: a piece of data, the end of the stream, or neither yet.
pub data Recv : Type 0 where
  item : List ℕ → Recv
  ended waiting : Recv

unfoldable pub increment_psh_recvd_since : Env → Task → MuxStream → MuxStream × Task
increment_psh_recvd_since env s self =
    let new = self.psh_recvd_since + 1 in
    if leb self.rwnd_threshold new
    then (record self { psh_recvd_since = 0 }, send_frame env s (new_acknowledge self.flow_id new))
    else (record self { psh_recvd_since = new }, s)

received : Env → Task → MuxStream → Recv → Poll (Result IoError (List ℕ)) × MuxStream × Task
unfolding increment_psh_recvd_since
received env s self waiting = (pending, self, s)
received env s self ended = (ready (ok []), self, s)
received env s self (item next) =
    let (self', s') = increment_psh_recvd_since env s (record self { buf = next }) in
    (ready (ok self'.buf), self', s')

-- The channel is asked only where the buffer is empty.
fill : Env → Task → MuxStream → Recv → List ℕ → Poll (Result IoError (List ℕ)) × MuxStream × Task
unfolding received
fill env s self r [] = received env s self r
fill env s self r (x ∷ xs) = (ready (ok self.buf), self, s)

unfoldable pub poll_fill_buf :
    Env → Task → MuxStream → Recv → Poll (Result IoError (List ℕ)) × MuxStream × Task
unfolding fill
poll_fill_buf env s self r = fill env s self r self.buf

unfoldable pub consume : MuxStream → ℕ → MuxStream
consume self amt = record self { buf = drop amt self.buf }

-- The bytes that are put into the reader's buffer, which has `remaining` bytes of room.
copy_out :
    ℕ
    → Poll (Result IoError (List ℕ)) × MuxStream × Task
    → Poll (Result IoError (List ℕ)) × MuxStream × Task
unfolding consume
copy_out remaining (pending, self, s) = (pending, self, s)
copy_out remaining (ready (err e), self, s) = (ready (err e), self, s)
copy_out remaining (ready (ok got), self, s) =
    let amt = min (length got) remaining in (ready (ok (take amt got)), consume self amt, s)

unfoldable pub poll_read :
    Env → Task → MuxStream → Recv → ℕ → Poll (Result IoError (List ℕ)) × MuxStream × Task
unfolding poll_fill_buf copy_out
poll_read env s self r remaining = copy_out remaining (poll_fill_buf env s self r)

-- One entry for each round in which the exchange fails: what the task adds to the counter between
-- the load and the exchange, and whether the (weak) exchange fails by itself.
abbrev pub Race : Type 0
Race = List (ℕ × Bool)

-- The loop of `poll_obtain_write_permission`: whether permission was obtained, and the counter. Where
-- the list ends, nobody else touches the counter in the round.
unfoldable pub obtain_loop : ℕ → Race → Bool × ℕ
obtain_loop psh_send_remaining [] =
    if psh_send_remaining == 0 then (false, psh_send_remaining) else (true, psh_send_remaining - 1)
obtain_loop original ((added, spurious) ∷ race) =
    let current = (original + added) % 2 ^ 32 in
    let rest = obtain_loop current race in
    if original == 0
    then (false, original)
    else if current == original && not spurious
    then (true, original - 1)
    else rest

unfoldable pub poll_obtain_write_permission :
    Task → MuxStream → Race → Poll (Result IoError (Unit {0})) × Task
unfolding obtain_loop
poll_obtain_write_permission s self race =
    let cell = s.cells self.cell in
    let (obtained, psh_send_remaining) = obtain_loop cell.psh_send_remaining race in
    let s' = set_cell s self.cell (record cell { psh_send_remaining = psh_send_remaining }) in
    if cell.finish_sent
    then (ready (err broken_pipe), s)
    else if obtained
    then (ready (ok tt), s')
    else (pending, s')

write_permitted :
    Env
    → MuxStream
    → List ℕ
    → Poll (Result IoError (Unit {0})) × Task
    → Poll (Result IoError ℕ) × Task
write_permitted env self buf (pending, s) = (pending, s)
write_permitted env self buf (ready (err e), s) = (ready (err e), s)
write_permitted env self buf (ready (ok _), s) =
    if env.frame_open
    then (ready (ok (length buf)), send_frame env s (new_push self.flow_id buf))
    else (ready (err broken_pipe), s)

unfoldable pub poll_write : Env → Task → MuxStream → Race → List ℕ → Poll (Result IoError ℕ) × Task
unfolding write_permitted poll_obtain_write_permission
poll_write env s self race buf =
    write_permitted env self buf (poll_obtain_write_permission s self race)

unfoldable pub shutdown_inner : Env → Task → MuxStream → Result IoError (Unit {0}) × Task
shutdown_inner env s self =
    let cell = s.cells self.cell in
    let s' = set_cell s self.cell (record cell { finish_sent = true }) in
    if cell.finish_sent
    then (ok tt, s')
    else if env.frame_open
    then (ok tt, send_frame env s' (new_finish self.flow_id))
    else (err broken_pipe, s')

-- `Drop for MuxStream`; the flow ID always reaches the task while the task lives.
unfoldable pub drop_stream : Task → MuxStream → Task
drop_stream s self = emit s (dropped_port self.flow_id)
