-- ===== src/Mux/Copy/Bytes.antt =====
-- src/mux/stream.rs: the bytes that pass through `CopyBidirectional`, and its reading direction.
use penguin_rs.Base.{
  ℕ, ◌+◌, ◌%◌, ◌^◌, ◌≡◌, refl, sym, ap, ◌∙◌, List, [], ◌∷◌, ◌++◌, Bool, Result, ok, err, take, drop,
  append-nil, append_assoc, take-append-drop, arith,
}
use penguin_rs.Mux.Frame.{Frame, Payload, borrowed, owned, new_acknowledge}
use penguin_rs.Mux.State.{Env, Task, sent_frame}
use penguin_rs.Mux.Stream.{Poll, pending, ready, IoError, poll_fill_buf, consume}
use penguin_rs.Mux.Stream.Reading.{concat}
use penguin_rs.Mux.Task.Replies.{frames, frames-emit}
use penguin_rs.Mux.Copy.{
  CopyBidirectional, ReadState, ReadRound, Polled, shut_down_other, written_to_other,
  filled_from_us, fill_from_us, read_loop, poll_read_in, first_shutdown,
}

-- The data that `Push` frames carry.
abbrev pub push_data : Payload → List ℕ
push_data (Payload.push (borrowed bytes)) = bytes
push_data (Payload.push (owned bytes)) = bytes
push_data p = []

abbrev pub pushed : List Frame → List ℕ
pushed [] = []
pushed (f ∷ fs) = push_data f.payload ++ pushed fs

-- What we received: what the other end took, the buffer, and the pieces in the channel.
abbrev pub downstream : CopyBidirectional → List ℕ
downstream c = c.other_in ++ (c.us.buf ++ concat c.frame_rx)

-- What we send: the data of the frames queued so far, and what the other end still gives.
abbrev pub upstream : CopyBidirectional → List ℕ
upstream c = pushed (frames c.task.log) ++ concat c.other_out

abbrev pub SameBytes : CopyBidirectional → CopyBidirectional → Type 0
SameBytes c after = (downstream after ≡ downstream c) × (upstream after ≡ upstream c)

pub pushed-append : (fs gs : List Frame) → pushed (fs ++ gs) ≡ pushed fs ++ pushed gs
pushed-append [] gs = refl
pushed-append (f ∷ fs) gs =
    ap (λ l. push_data f.payload ++ l) (pushed-append fs gs)
    ∙ sym (append_assoc (push_data f.payload) (pushed fs) (pushed gs))

-- A frame without data.
pub pushed-emit :
    (s : Task) (f : Frame)
    → push_data f.payload ≡ []
    → pushed (frames (s.log ++ (sent_frame f ∷ []))) ≡ pushed (frames s.log)
pushed-emit s f h =
    ap pushed (frames-emit s.log (sent_frame f))
    ∙ (pushed-append (frames s.log) (f ∷ [])
        ∙ (ap (λ l. pushed (frames s.log) ++ (l ++ [])) h ∙ append-nil (pushed (frames s.log))))

pub fill_task :
    (env : Env) (closed : Bool) (c : CopyBidirectional)
    → pushed (frames (fill_from_us env closed c).1.task.log) ≡ pushed (frames c.task.log)
unfolding fill_from_us poll_fill_buf new_acknowledge
fill_task env closed c =
    ground
      (arith, pushed-emit c.task (new_acknowledge c.us.flow_id (c.us.psh_recvd_since + 1)) refl)

fill_buffer :
    (env : Env) (closed : Bool) (c : CopyBidirectional)
    → let c' = (fill_from_us env closed c).1 in
      c'.us.buf ++ concat c'.frame_rx ≡ c.us.buf ++ concat c.frame_rx
unfolding fill_from_us poll_fill_buf
fill_buffer env closed c = ground (arith)

pub fill_got :
    (env : Env) (closed : Bool) (c : CopyBidirectional) (got : List ℕ)
    → (fill_from_us env closed c).0 ≡ ready (ok got)
    → (fill_from_us env closed c).1.us.buf ≡ got
unfolding fill_from_us poll_fill_buf
fill_got env closed c got h = ground arith

pub SameBytes-trans : (a b c : CopyBidirectional) → SameBytes b c → SameBytes a b → SameBytes a c
SameBytes-trans a b c (d, u) (d', u') = (d ∙ d', u ∙ u')

fill-SameBytes :
    (env : Env) (closed : Bool) (c : CopyBidirectional) → SameBytes c (fill_from_us env closed c).1
unfolding fill_from_us
fill-SameBytes env closed c = (
  ap (λ l. c.other_in ++ l) (fill_buffer env closed c),
  ap (λ l. l ++ concat c.other_out) (fill_task env closed c),
)

-- What follows in the loop.
abbrev pub Follows : (ℕ → CopyBidirectional → Polled) → Type 0
Follows next = (amt : ℕ) (c : CopyBidirectional) → SameBytes c (next amt c).1

shut_down_other-SameBytes :
    (r : Poll (Result IoError (Unit {0}))) (amt : ℕ) (c : CopyBidirectional)
    → SameBytes c (shut_down_other r amt c).1
unfolding shut_down_other
shut_down_other-SameBytes pending amt c = (refl, refl)
shut_down_other-SameBytes (ready (err e)) amt c = (refl, refl)
shut_down_other-SameBytes (ready (ok u)) amt c = (refl, refl)

consumed :
    (taken_before got queue : List ℕ) (n : ℕ)
    → (taken_before ++ take n got) ++ (drop n got ++ queue) ≡ taken_before ++ (got ++ queue)
consumed taken_before got queue n =
    append_assoc taken_before (take n got) (drop n got ++ queue)
    ∙ ap (λ l. taken_before ++ l)
        (sym (append_assoc (take n got) (drop n got) queue)
          ∙ ap (λ l. l ++ queue) (take-append-drop n got))

written_to_other-SameBytes :
    (r : Poll (Result IoError ℕ)) (got : List ℕ) (amt : ℕ) (c : CopyBidirectional)
    (next : ℕ → CopyBidirectional → Polled)
    → c.us.buf ≡ got
    → Follows next
    → SameBytes c (written_to_other r got amt c next).1
unfolding written_to_other consume
written_to_other-SameBytes pending got amt c next q f = (refl, refl)
written_to_other-SameBytes (ready (err e)) got amt c next q f = (refl, refl)
written_to_other-SameBytes (ready (ok n)) got amt c next q f =
    let amt' = (amt + n) % 2 ^ 64 in
    let c' : CopyBidirectional = record c {
      us = consume c.us n;
      read_state = ReadState.transferring amt';
      other_in = c.other_in ++ take n got;
    } in
    (
      (f amt' c').0
          ∙ (ap (λ l. (c.other_in ++ take n got) ++ (drop n l ++ concat c.frame_rx)) q
              ∙ (consumed c.other_in got (concat c.frame_rx) n
                  ∙ ap (λ l. c.other_in ++ (l ++ concat c.frame_rx)) (sym q))),
      (f amt' c').1,
    )

filled_from_us-SameBytes :
    (round : ReadRound) (r : Poll (Result IoError (List ℕ))) (amt : ℕ) (c : CopyBidirectional)
    (next : ℕ → CopyBidirectional → Polled)
    → ((got : List ℕ) → r ≡ ready (ok got) → c.us.buf ≡ got)
    → Follows next
    → SameBytes c (filled_from_us round r amt c next).1
unfolding filled_from_us
filled_from_us-SameBytes round pending amt c next q f = (refl, refl)
filled_from_us-SameBytes round (ready (err e)) amt c next q f = (refl, refl)
filled_from_us-SameBytes round (ready (ok [])) amt c next q f =
    shut_down_other-SameBytes round.shutdown amt
      (record c { read_state = ReadState.shutting_down amt })
filled_from_us-SameBytes round (ready (ok (b ∷ bs))) amt c next q f =
    written_to_other-SameBytes (round.write (b ∷ bs)) (b ∷ bs) amt c next (q (b ∷ bs) refl) f

read_loop-SameBytes : (env : Env) (rounds : List ReadRound) → Follows (read_loop env rounds)
unfolding read_loop
read_loop-SameBytes env [] amt c = (refl, refl)
read_loop-SameBytes env (round ∷ rounds) amt c =
    let c' = (fill_from_us env round.closed c).1 in
    SameBytes-trans c c'
      (filled_from_us round (fill_from_us env round.closed c).0 amt c' (read_loop env rounds)).1
      (filled_from_us-SameBytes round (fill_from_us env round.closed c).0 amt c'
        (read_loop env rounds) (fill_got env round.closed c) (read_loop-SameBytes env rounds))
      (fill-SameBytes env round.closed c)

pub poll_read_in-SameBytes :
    (env : Env) (rounds : List ReadRound) (state : ReadState) (c : CopyBidirectional)
    → SameBytes c (poll_read_in env rounds state c).1
unfolding poll_read_in
poll_read_in-SameBytes env rounds (ReadState.transferring amt) c =
    read_loop-SameBytes env rounds amt c
poll_read_in-SameBytes env rounds (ReadState.shutting_down amt) c =
    shut_down_other-SameBytes (first_shutdown rounds) amt c
poll_read_in-SameBytes env rounds (ReadState.done amt) c = (refl, refl)
