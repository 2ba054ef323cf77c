-- ===== src/Mux/Copy/Counts.antt =====
-- src/mux/stream.rs: the counts of `CopyBidirectional`, and its reading direction.
use penguin_rs.Base.{
  ℕ, ◌+◌, ◌%◌, ◌^◌, ◌≤◌, ◌≡◌, refl, sym, ap, ◌∙◌, List, [], ◌∷◌, ◌++◌, Bool, true, false, Result,
  ok, err, take, length, length-append, length-take, All, arith,
}
use penguin_rs.Mux.State.{Env}
use penguin_rs.Mux.Stream.{Poll, pending, ready, IoError, consume}
use penguin_rs.Mux.Task.Replies.{frames}
use penguin_rs.Mux.Copy.{
  CopyBidirectional, ReadState, WriteState, ReadRound, Polled, shut_down_other, written_to_other,
  filled_from_us, fill_from_us, read_loop, poll_read_in, first_shutdown,
}
use penguin_rs.Mux.Copy.Bytes.{pushed, fill_task, fill_got}

abbrev pub read_amount : ReadState → ℕ
read_amount (ReadState.transferring n) = n
read_amount (ReadState.shutting_down n) = n
read_amount (ReadState.done n) = n

abbrev pub written_amount : WriteState → ℕ
written_amount (WriteState.transferring n) = n
written_amount (WriteState.done n) = n

abbrev pub is_transferring : ReadState → Bool
is_transferring (ReadState.transferring n) = true
is_transferring (ReadState.shutting_down n) = false
is_transferring (ReadState.done n) = false

-- The counts are exact, up to the wrap-around of a `u64`, where `base` bytes had been sent before
-- the copying began; and the reading ends only with an empty buffer.
pub record IsExact (base : ℕ) (c : CopyBidirectional) : Type 0 where
  pub read : read_amount c.read_state ≡ length c.other_in % 2 ^ 64
  pub written :
      (base + written_amount c.write_state) % 2 ^ 64 ≡ length (pushed (frames c.task.log)) % 2 ^ 64
  pub drained : is_transferring c.read_state ≡ false → c.us.buf ≡ []

-- The other end takes at most what it is given.
unfoldable pub IsHonest : ReadRound → Type 0
IsHonest round = (buf : List ℕ) (n : ℕ) → round.write buf ≡ ready (ok n) → n ≤ length buf

-- A part of the reading direction that leaves the counts exact, and whose result is the final count.
pub record Reads (base : ℕ) (r : Polled) : Type 0 where
  pub exact : IsExact base r.1
  pub ends : (n : ℕ) → r.0 ≡ ready (ok n) → r.1.read_state ≡ ReadState.done n

module _ (base : ℕ) where
  abbrev ReadsOn : (ℕ → CopyBidirectional → Polled) → Type 0
  ReadsOn next =
      (amt : ℕ) (c : CopyBidirectional)
      → IsExact base c
      → c.read_state ≡ ReadState.transferring amt
      → Reads base (next amt c)

  shut_down_other-Reads :
      (r : Poll (Result IoError (Unit {0}))) (amt : ℕ) (c : CopyBidirectional)
      → IsExact base c
      → c.read_state ≡ ReadState.shutting_down amt
      → Reads base (shut_down_other r amt c)
  unfolding shut_down_other
  shut_down_other-Reads pending amt c x q = record { exact = x; ends = λ n e. cc e }
  shut_down_other-Reads (ready (err e)) amt c x q = record { exact = x; ends = λ n e. cc e }
  shut_down_other-Reads (ready (ok u)) amt c x q = record {
    exact = record {
      read = ap read_amount (sym q) ∙ x.read;
      written = x.written;
      drained = λ h. x.drained (ap is_transferring q);
    };
    ends = λ n e. ground arith;
  }

  written_to_other-Reads :
      (r : Poll (Result IoError ℕ)) (got : List ℕ) (amt : ℕ) (c : CopyBidirectional)
      (next : ℕ → CopyBidirectional → Polled)
      → IsExact base c
      → c.read_state ≡ ReadState.transferring amt
      → ((n : ℕ) → r ≡ ready (ok n) → n ≤ length got)
      → ReadsOn next
      → Reads base (written_to_other r got amt c next)
  unfolding written_to_other consume
  written_to_other-Reads pending got amt c next x q h f = record { exact = x; ends = λ n e. cc e }
  written_to_other-Reads (ready (err e)) got amt c next x q h f = record {
    exact = x;
    ends = λ n e. cc e;
  }
  written_to_other-Reads (ready (ok n)) got amt c next x q h f =
      let le : n ≤ length got = h n refl in
      let before : amt ≡ length c.other_in % 2 ^ 64 = ap read_amount (sym q) ∙ x.read in
      f ((amt + n) % 2 ^ 64)
        (record c {
          us = consume c.us n;
          read_state = ReadState.transferring ((amt + n) % 2 ^ 64);
          other_in = c.other_in ++ take n got;
        })
        (record {
          read =
              omega (arith, before, le, length-append c.other_in (take n got), length-take n got);
          written = x.written;
          drained = λ e. cc e;
        })
        refl

  filled_from_us-Reads :
      (round : ReadRound) (r : Poll (Result IoError (List ℕ))) (amt : ℕ) (c : CopyBidirectional)
      (next : ℕ → CopyBidirectional → Polled)
      → IsExact base c
      → c.read_state ≡ ReadState.transferring amt
      → ((got : List ℕ) → r ≡ ready (ok got) → c.us.buf ≡ got)
      → IsHonest round
      → ReadsOn next
      → Reads base (filled_from_us round r amt c next)
  unfolding filled_from_us IsHonest
  filled_from_us-Reads round pending amt c next x q g h f = record { exact = x; ends = λ n e. cc e }
  filled_from_us-Reads round (ready (err e)) amt c next x q g h f = record {
    exact = x;
    ends = λ n e. cc e;
  }
  filled_from_us-Reads round (ready (ok [])) amt c next x q g h f =
      shut_down_other-Reads round.shutdown amt
        (record c { read_state = ReadState.shutting_down amt })
        (record {
          read = ap read_amount (sym q) ∙ x.read;
          written = x.written;
          drained = λ e. g [] refl;
        })
        refl
  filled_from_us-Reads round (ready (ok (b ∷ bs))) amt c next x q g h f =
      written_to_other-Reads (round.write (b ∷ bs)) (b ∷ bs) amt c next x q (h (b ∷ bs)) f

  fill_from_us-IsExact :
      (env : Env) (closed : Bool) (amt : ℕ) (c : CopyBidirectional)
      → IsExact base c
      → c.read_state ≡ ReadState.transferring amt
      → IsExact base (fill_from_us env closed c).1
  unfolding fill_from_us
  fill_from_us-IsExact env closed amt c x q = record {
    read = x.read;
    written = x.written ∙ ap (λ l. length l % 2 ^ 64) (sym (fill_task env closed c));
    drained = λ e. cc (e, q);
  }

  read_loop-Reads :
      (env : Env) (rounds : List ReadRound) → All IsHonest rounds → ReadsOn (read_loop env rounds)
  unfolding read_loop
  read_loop-Reads env [] h amt c x q = record { exact = x; ends = λ n e. cc e }
  read_loop-Reads env (round ∷ rounds) (honest, h) amt c x q =
      filled_from_us-Reads round (fill_from_us env round.closed c).0 amt
        (fill_from_us env round.closed c).1 (read_loop env rounds)
        (fill_from_us-IsExact env round.closed amt c x q) (kept q) (fill_got env round.closed c)
        honest (read_loop-Reads env rounds h)
    where
      kept :
          c.read_state ≡ ReadState.transferring amt
          → (fill_from_us env round.closed c).1.read_state ≡ ReadState.transferring amt
      kept e = unfold fill_from_us in e

  pub poll_read_in-Reads :
      (env : Env) (rounds : List ReadRound) (state : ReadState) (c : CopyBidirectional)
      → All IsHonest rounds
      → IsExact base c
      → c.read_state ≡ state
      → Reads base (poll_read_in env rounds state c)
  unfolding poll_read_in
  poll_read_in-Reads env rounds (ReadState.transferring amt) c h x q =
      read_loop-Reads env rounds h amt c x q
  poll_read_in-Reads env rounds (ReadState.shutting_down amt) c h x q =
      shut_down_other-Reads (first_shutdown rounds) amt c x q
  poll_read_in-Reads env rounds (ReadState.done amt) c h x q = record {
    exact = x;
    ends = λ n e. ground (arith, q);
  }
