-- ===== src/Mux/Copy/Errors.antt =====
-- src/mux/stream.rs: an error of the writing direction of `CopyBidirectional` that nobody sees.
use penguin_rs.Base.{ℕ, ◌≡◌, refl, [], ◌∷◌, Bool, true, false, ok, err, arith}
use penguin_rs.Mux.State.{Env}
use penguin_rs.Mux.Stream.{pending, ready, broken_pipe, poll_fill_buf, shutdown_inner}
use penguin_rs.Mux.Copy.{
  CopyBidirectional, ReadState, WriteState, ReadRound, WriteRound, available, poll_read_us,
  poll_write_us, read_loop, write_loop, fill_from_us, filled_from_us, shut_down_other, poll,
  poll_read_in, poll_write_in, both, write_turn, filled_from_other, finish_us,
}

-- A turn of each loop: nothing has arrived from the peer, or the task is gone, while the other end
-- takes nothing and shuts down at once; and the other end has more to give, or is at its end.
abbrev pub read_turn : Bool → ReadRound
read_turn closed = record { closed = closed; write = λ buf. pending; shutdown = ready (ok tt) }

abbrev pub write_turn_at_end : WriteRound
write_turn_at_end = record { fill = available; flush = ready (ok tt); race = [] }

-- Where the other end is at its end and the queue of frames is closed, the `Finish` cannot be sent:
-- the writing direction fails with a broken pipe. If nothing has arrived to read at that time, the
-- call of `poll` does not report the error, and the next call, after the task is gone, returns
-- success, though no frame was queued.
pub poll_loses_error :
    (env : Env) (c : CopyBidirectional) (a b : ℕ)
    → env.frame_open ≡ false
    → c.us.buf ≡ []
    → c.frame_rx ≡ []
    → c.other_out ≡ []
    → (c.task.cells c.us.cell).finish_sent ≡ false
    → c.read_state ≡ ReadState.transferring a
    → c.write_state ≡ WriteState.transferring b
    → let first = poll env (read_turn false ∷ []) (write_turn_at_end ∷ []) c in
      let second = poll env (read_turn true ∷ []) (write_turn_at_end ∷ []) first.1 in
      ((poll_write_us env (write_turn_at_end ∷ []) c).0 ≡ ready (err broken_pipe))
      × (first.0 ≡ pending)
      × (second.0 ≡ ready (ok (a, b)))
      × (second.1.task.log ≡ c.task.log)
unfolding poll poll_read_us poll_write_us poll_fill_buf shutdown_inner fill_from_us poll_read_in
    poll_write_in read_loop write_loop filled_from_us shut_down_other both write_turn
    filled_from_other finish_us
poll_loses_error env c a b closed buf rx out finish read write =
    rw (read, write, buf, rx, out, closed, finish) (refl, refl, ground arith, ground arith)
