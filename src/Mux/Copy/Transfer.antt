-- ===== src/Mux/Copy/Transfer.antt =====
-- src/mux/stream.rs: `CopyBidirectional` loses, repeats and reorders no byte of either direction.
use penguin_rs.Base.{
  ℕ, ◌+◌, ◌%◌, ◌^◌, ◌≡◌, refl, sym, ap, ◌∙◌, List, [], ◌∷◌, ◌++◌, Result, ok, err, append-nil,
  append_assoc, arith,
}
use penguin_rs.Mux.Frame.{new_finish, new_push}
use penguin_rs.Mux.State.{MuxStream, Env, Task, sent_frame}
use penguin_rs.Mux.Stream.{Poll, pending, ready, IoError, poll_write, shutdown_inner, Race}
use penguin_rs.Mux.Stream.Reading.{concat}
use penguin_rs.Mux.Task.Replies.{frames, frames-emit}
use penguin_rs.Mux.Copy.{
  CopyBidirectional, WriteState, ReadRound, WriteRound, Fill, available, not_yet, failed, Polled,
  poll_read_us, flushed, finish_us, pushed_to_us, filled_from_other, write_turn, write_loop,
  poll_write_in, poll_write_us, poll,
}
use penguin_rs.Mux.Copy.Bytes.{
  pushed, SameBytes, SameBytes-trans, pushed-append, pushed-emit, Follows, poll_read_in-SameBytes,
}

flushed-SameBytes :
    (r : Poll (Result IoError (Unit {0}))) (c : CopyBidirectional) → SameBytes c (flushed r c).1
unfolding flushed
flushed-SameBytes pending c = (refl, refl)
flushed-SameBytes (ready (err e)) c = (refl, refl)
flushed-SameBytes (ready (ok u)) c = (refl, refl)

finish_us-SameBytes :
    (r : Result IoError (Unit {0}) × Task) (amt : ℕ) (c : CopyBidirectional)
    → pushed (frames r.1.log) ≡ pushed (frames c.task.log)
    → SameBytes c (finish_us r amt c).1
unfolding finish_us
finish_us-SameBytes (err e, task) amt c q = (refl, ap (λ l. l ++ concat c.other_out) q)
finish_us-SameBytes (ok u, task) amt c q = (refl, ap (λ l. l ++ concat c.other_out) q)

pub shutdown_pushes_nothing :
    (env : Env) (s : Task) (self : MuxStream)
    → pushed (frames (shutdown_inner env s self).1.log) ≡ pushed (frames s.log)
unfolding shutdown_inner new_finish
shutdown_pushes_nothing env s self = ground (arith, pushed-emit s (new_finish self.flow_id) refl)

-- What a write sends.
abbrev pub sent_part : Poll (Result IoError ℕ) → List ℕ → List ℕ
sent_part (ready (ok n)) buf = buf
sent_part r buf = []

pub write_pushes :
    (env : Env) (s : Task) (self : MuxStream) (race : Race) (buf : List ℕ)
    → pushed (frames (poll_write env s self race buf).1.log)
      ≡ pushed (frames s.log) ++ sent_part (poll_write env s self race buf).0 buf
unfolding poll_write new_push
write_pushes env s self race buf = ground (
  arith,
  frames-emit s.log (sent_frame (new_push self.flow_id buf)),
  pushed-append (frames s.log) (new_push self.flow_id buf ∷ []),
  append-nil (pushed (frames s.log)),
  append-nil buf,
)

pushed_to_us-SameBytes :
    (r : Poll (Result IoError ℕ) × Task) (buf : List ℕ) (later : List (List ℕ)) (amt : ℕ)
    (c : CopyBidirectional) (next : ℕ → CopyBidirectional → Polled)
    → c.other_out ≡ buf ∷ later
    → pushed (frames r.1.log) ≡ pushed (frames c.task.log) ++ sent_part r.0 buf
    → Follows next
    → SameBytes c (pushed_to_us r later amt c next).1
unfolding pushed_to_us
pushed_to_us-SameBytes (pending, task) buf later amt c next o q f =
    (refl, ap (λ l. l ++ concat c.other_out) (q ∙ append-nil (pushed (frames c.task.log))))
pushed_to_us-SameBytes (ready (err e), task) buf later amt c next o q f =
    (refl, ap (λ l. l ++ concat c.other_out) (q ∙ append-nil (pushed (frames c.task.log))))
pushed_to_us-SameBytes (ready (ok n), task) buf later amt c next o q f =
    let amt' = (amt + n) % 2 ^ 64 in
    let c' : CopyBidirectional = record c {
      task = task;
      write_state = WriteState.transferring amt';
      other_out = later;
    } in
    (
      (f amt' c').0,
      (f amt' c').1
          ∙ (ap (λ l. l ++ concat later) q
              ∙ (append_assoc (pushed (frames c.task.log)) buf (concat later)
                  ∙ ap (λ l. pushed (frames c.task.log) ++ concat l) (sym o))),
    )

filled_from_other-SameBytes :
    (env : Env) (race : Race) (pieces : List (List ℕ)) (amt : ℕ) (c : CopyBidirectional)
    (next : ℕ → CopyBidirectional → Polled)
    → c.other_out ≡ pieces
    → Follows next
    → SameBytes c (filled_from_other env race pieces amt c next).1
unfolding filled_from_other
filled_from_other-SameBytes env race [] amt c next o f =
    finish_us-SameBytes (shutdown_inner env c.task c.us) amt c
      (shutdown_pushes_nothing env c.task c.us)
filled_from_other-SameBytes env race ([] ∷ later) amt c next o f =
    finish_us-SameBytes (shutdown_inner env c.task c.us) amt c
      (shutdown_pushes_nothing env c.task c.us)
filled_from_other-SameBytes env race ((b ∷ bs) ∷ later) amt c next o f =
    pushed_to_us-SameBytes (poll_write env c.task c.us race (b ∷ bs)) (b ∷ bs) later amt c next o
      (write_pushes env c.task c.us race (b ∷ bs)) f

write_turn-SameBytes :
    (env : Env) (round : WriteRound) (fill : Fill) (amt : ℕ) (c : CopyBidirectional)
    (next : ℕ → CopyBidirectional → Polled)
    → Follows next
    → SameBytes c (write_turn env round fill amt c next).1
unfolding write_turn
write_turn-SameBytes env round available amt c next f =
    filled_from_other-SameBytes env round.race c.other_out amt c next refl f
write_turn-SameBytes env round not_yet amt c next f = flushed-SameBytes round.flush c
write_turn-SameBytes env round (failed e) amt c next f = (refl, refl)

write_loop-SameBytes : (env : Env) (rounds : List WriteRound) → Follows (write_loop env rounds)
unfolding write_loop
write_loop-SameBytes env [] amt c = (refl, refl)
write_loop-SameBytes env (round ∷ rounds) amt c =
    write_turn-SameBytes env round round.fill amt c (write_loop env rounds)
      (write_loop-SameBytes env rounds)

poll_write_in-SameBytes :
    (env : Env) (rounds : List WriteRound) (state : WriteState) (c : CopyBidirectional)
    → SameBytes c (poll_write_in env rounds state c).1
unfolding poll_write_in
poll_write_in-SameBytes env rounds (WriteState.transferring amt) c =
    write_loop-SameBytes env rounds amt c
poll_write_in-SameBytes env rounds (WriteState.done amt) c = (refl, refl)

-- Whatever the two ends answer, errors included, a call of `poll` loses, repeats and reorders no
-- byte. What the other end took, followed by what we have received and it has not yet taken, stays
-- the same, and so does the data of the `Push` frames sent, followed by what the other end still
-- gives.
pub poll-SameBytes :
    (env : Env) (reads : List ReadRound) (writes : List WriteRound) (c : CopyBidirectional)
    → SameBytes c (poll env reads writes c).1
unfolding poll poll_read_us poll_write_us
poll-SameBytes env reads writes c =
    let c' = (poll_read_us env reads c).1 in
    SameBytes-trans c c' (poll_write_us env writes c').1
      (poll_write_in-SameBytes env writes c'.write_state c')
      (poll_read_in-SameBytes env reads c.read_state c)
