-- ===== src/Mux/Copy/Ends.antt =====
-- src/mux/stream.rs: `CopyBidirectional` counts the bytes of both directions, and when it ends.
use penguin_rs.Base.{
  ℕ, ◌+◌, ◌%◌, ◌^◌, ◌≡◌, refl, sym, ap, ◌∙◌, List, [], ◌∷◌, ◌++◌, Result, ok, err, length,
  length-append, All, append-nil, arith,
}
use penguin_rs.Mux.State.{MuxStream, Env, Task}
use penguin_rs.Mux.Stream.{Poll, pending, ready, IoError, poll_write, shutdown_inner, Race}
use penguin_rs.Mux.Task.Replies.{frames}
use penguin_rs.Mux.Copy.{
  CopyBidirectional, ReadState, WriteState, ReadRound, WriteRound, Fill, available, not_yet, failed,
  Polled, poll_read_us, flushed, finish_us, pushed_to_us, filled_from_other, write_turn, write_loop,
  poll_write_in, poll_write_us, both, poll,
}
use penguin_rs.Mux.Copy.Bytes.{pushed}
use penguin_rs.Mux.Copy.Transfer.{sent_part, write_pushes, shutdown_pushes_nothing}
use penguin_rs.Mux.Copy.Counts.{
  read_amount, written_amount, is_transferring, IsExact, IsHonest, Reads, poll_read_in-Reads,
}

module _ (base : ℕ) where
  -- A part of the writing direction that leaves the counts exact and the reading direction as it
  -- was, and whose result is the final count.
  record Writes (before : ReadState) (r : Polled) : Type 0 where
    exact : IsExact base r.1
    same_read : r.1.read_state ≡ before
    ends : (n : ℕ) → r.0 ≡ ready (ok n) → r.1.write_state ≡ WriteState.done n

  abbrev WritesOn : (ℕ → CopyBidirectional → Polled) → Type 0
  WritesOn next =
      (amt : ℕ) (c : CopyBidirectional)
      → IsExact base c
      → c.write_state ≡ WriteState.transferring amt
      → Writes c.read_state (next amt c)

  with_task-IsExact :
      (c : CopyBidirectional) (task : Task)
      → IsExact base c
      → pushed (frames task.log) ≡ pushed (frames c.task.log)
      → IsExact base (record c { task = task })
  with_task-IsExact c task x p = record {
    read = x.read;
    written = x.written ∙ ap (λ l. length l % 2 ^ 64) (sym p);
    drained = x.drained;
  }

  flushed-Writes :
      (r : Poll (Result IoError (Unit {0}))) (c : CopyBidirectional)
      → IsExact base c
      → Writes c.read_state (flushed r c)
  unfolding flushed
  flushed-Writes pending c x = record { exact = x; same_read = refl; ends = λ n e. cc e }
  flushed-Writes (ready (err e)) c x = record { exact = x; same_read = refl; ends = λ n e. cc e }
  flushed-Writes (ready (ok u)) c x = record { exact = x; same_read = refl; ends = λ n e. cc e }

  finish_us-Writes :
      (r : Result IoError (Unit {0}) × Task) (amt : ℕ) (c : CopyBidirectional)
      → IsExact base c
      → c.write_state ≡ WriteState.transferring amt
      → pushed (frames r.1.log) ≡ pushed (frames c.task.log)
      → Writes c.read_state (finish_us r amt c)
  unfolding finish_us
  finish_us-Writes (err e, task) amt c x q p = record {
    exact = with_task-IsExact c task x p;
    same_read = refl;
    ends = λ n e. cc e;
  }
  finish_us-Writes (ok u, task) amt c x q p = record {
    exact = record {
      read = x.read;
      written =
          ap (λ w. (base + written_amount w) % 2 ^ 64) (sym q)
          ∙ (x.written ∙ ap (λ l. length l % 2 ^ 64) (sym p));
      drained = x.drained;
    };
    same_read = refl;
    ends = λ n e. ground arith;
  }

  pushed_to_us-Writes :
      (r : Poll (Result IoError ℕ) × Task) (buf : List ℕ) (later : List (List ℕ)) (amt : ℕ)
      (c : CopyBidirectional) (next : ℕ → CopyBidirectional → Polled)
      → IsExact base c
      → c.write_state ≡ WriteState.transferring amt
      → pushed (frames r.1.log) ≡ pushed (frames c.task.log) ++ sent_part r.0 buf
      → ((n : ℕ) → r.0 ≡ ready (ok n) → n ≡ length buf)
      → WritesOn next
      → Writes c.read_state (pushed_to_us r later amt c next)
  unfolding pushed_to_us
  pushed_to_us-Writes (pending, task) buf later amt c next x q p h f = record {
    exact = with_task-IsExact c task x (p ∙ append-nil (pushed (frames c.task.log)));
    same_read = refl;
    ends = λ n e. cc e;
  }
  pushed_to_us-Writes (ready (err e), task) buf later amt c next x q p h f = record {
    exact = with_task-IsExact c task x (p ∙ append-nil (pushed (frames c.task.log)));
    same_read = refl;
    ends = λ n e. cc e;
  }
  pushed_to_us-Writes (ready (ok n), task) buf later amt c next x q p h f =
      let all : n ≡ length buf = h n refl in
      let before : (base + amt) % 2 ^ 64 ≡ length (pushed (frames c.task.log)) % 2 ^ 64 =
        ap (λ w. (base + written_amount w) % 2 ^ 64) (sym q) ∙ x.written in
      let now : length (pushed (frames task.log))
          ≡ length (pushed (frames c.task.log)) + length buf =
        ap length p ∙ length-append (pushed (frames c.task.log)) buf in
      f ((amt + n) % 2 ^ 64)
        (record c {
          task = task;
          write_state = WriteState.transferring ((amt + n) % 2 ^ 64);
          other_out = later;
        })
        (record { read = x.read; written = omega (arith, all, before, now); drained = x.drained })
        refl

  write_length :
      (env : Env) (s : Task) (self : MuxStream) (race : Race) (buf : List ℕ) (n : ℕ)
      → (poll_write env s self race buf).0 ≡ ready (ok n)
      → n ≡ length buf
  unfolding poll_write
  write_length env s self race buf n h = ground arith

  filled_from_other-Writes :
      (env : Env) (race : Race) (pieces : List (List ℕ)) (amt : ℕ) (c : CopyBidirectional)
      (next : ℕ → CopyBidirectional → Polled)
      → IsExact base c
      → c.write_state ≡ WriteState.transferring amt
      → WritesOn next
      → Writes c.read_state (filled_from_other env race pieces amt c next)
  unfolding filled_from_other
  filled_from_other-Writes env race [] amt c next x q f =
      finish_us-Writes (shutdown_inner env c.task c.us) amt c x q
        (shutdown_pushes_nothing env c.task c.us)
  filled_from_other-Writes env race ([] ∷ later) amt c next x q f =
      finish_us-Writes (shutdown_inner env c.task c.us) amt c x q
        (shutdown_pushes_nothing env c.task c.us)
  filled_from_other-Writes env race ((b ∷ bs) ∷ later) amt c next x q f =
      pushed_to_us-Writes (poll_write env c.task c.us race (b ∷ bs)) (b ∷ bs) later amt c next x q
        (write_pushes env c.task c.us race (b ∷ bs)) (write_length env c.task c.us race (b ∷ bs)) f

  write_turn-Writes :
      (env : Env) (round : WriteRound) (fill : Fill) (amt : ℕ) (c : CopyBidirectional)
      (next : ℕ → CopyBidirectional → Polled)
      → IsExact base c
      → c.write_state ≡ WriteState.transferring amt
      → WritesOn next
      → Writes c.read_state (write_turn env round fill amt c next)
  unfolding write_turn
  write_turn-Writes env round available amt c next x q f =
      filled_from_other-Writes env round.race c.other_out amt c next x q f
  write_turn-Writes env round not_yet amt c next x q f = flushed-Writes round.flush c x
  write_turn-Writes env round (failed e) amt c next x q f = record {
    exact = x;
    same_read = refl;
    ends = λ n e. cc e;
  }

  write_loop-Writes : (env : Env) (rounds : List WriteRound) → WritesOn (write_loop env rounds)
  unfolding write_loop
  write_loop-Writes env [] amt c x q = record { exact = x; same_read = refl; ends = λ n e. cc e }
  write_loop-Writes env (round ∷ rounds) amt c x q =
      write_turn-Writes env round round.fill amt c (write_loop env rounds) x q
        (write_loop-Writes env rounds)

  poll_write_in-Writes :
      (env : Env) (rounds : List WriteRound) (state : WriteState) (c : CopyBidirectional)
      → IsExact base c
      → c.write_state ≡ state
      → Writes c.read_state (poll_write_in env rounds state c)
  unfolding poll_write_in
  poll_write_in-Writes env rounds (WriteState.transferring amt) c x q =
      write_loop-Writes env rounds amt c x q
  poll_write_in-Writes env rounds (WriteState.done amt) c x q = record {
    exact = x;
    same_read = refl;
    ends = λ n e. ground (arith, q);
  }

both_ends :
    (p q : Poll (Result IoError ℕ)) (a b : ℕ)
    → both p q ≡ ready (ok (a, b))
    → (p ≡ ready (ok a)) × (q ≡ ready (ok b))
unfolding both
both_ends p q a b e = ground arith

-- Where the other end takes at most what it is given, a call of `poll` keeps the counts of both
-- directions exact, up to the wrap-around of 64 bits, whatever else the two ends answer. If it
-- ends the copying, it returns the number of bytes that the other end took in all, and that of the
-- bytes sent in `Push` frames since the copying began, and no received byte is left in the buffer.
pub poll-IsExact :
    (base : ℕ) (env : Env) (reads : List ReadRound) (writes : List WriteRound)
    (c : CopyBidirectional)
    → All IsHonest reads
    → IsExact base c
    → let (r, after) = poll env reads writes c in
      IsExact base after
      × ((a b : ℕ)
          → r ≡ ready (ok (a, b))
          → (a ≡ length after.other_in % 2 ^ 64)
            × ((base + b) % 2 ^ 64 ≡ length (pushed (frames after.task.log)) % 2 ^ 64)
            × (after.us.buf ≡ []))
unfolding poll poll_read_us poll_write_us
poll-IsExact base env reads writes c h x =
    let r1 = poll_read_us env reads c in
    let r : Reads base r1 = poll_read_in-Reads base env reads c.read_state c h x refl in
    let w : Writes base r1.1.read_state (poll_write_us env writes r1.1) =
      poll_write_in-Writes base env writes r1.1.write_state r1.1 r.exact refl in
    (w.exact, λ a b e. result r1.0 (poll_write_us env writes r1.1).0 r.ends w a b e)
  where
    result :
        {before : ReadState} {after : CopyBidirectional} (p q : Poll (Result IoError ℕ))
        → ((n : ℕ) → p ≡ ready (ok n) → before ≡ ReadState.done n)
        → Writes base before (q, after)
        → (a b : ℕ) → both p q ≡ ready (ok (a, b))
        → (a ≡ length after.other_in % 2 ^ 64)
          × ((base + b) % 2 ^ 64 ≡ length (pushed (frames after.task.log)) % 2 ^ 64)
          × (after.us.buf ≡ [])
    result p q ends w a b e =
        let (ep, eq) = both_ends p q a b e in
        let read_done = w.same_read ∙ ends a ep in
        (
          ap read_amount (sym read_done) ∙ w.exact.read,
          ap (λ s. (base + written_amount s) % 2 ^ 64) (sym (w.ends b eq)) ∙ w.exact.written,
          w.exact.drained (ap is_transferring read_done),
        )
