-- ===== src/Mux/Window/Balance.antt =====
-- The flow control of src/mux/stream.rs conserves the window: no frame is lost from the count.
use penguin_rs.Base.{
  ℕ, suc, ◌+◌, ◌%◌, ◌^◌, ◌<◌, ◌≡◌, refl, sym, ap, ◌∙◌, inl, inr, List, [], ◌∷◌, ◌++◌, true, false,
  some, ok, lookup, arith, if◌then◌else◌,
}
use penguin_rs.Mux.Frame.{Frame, Payload, new_acknowledge}
use penguin_rs.Mux.State.{MuxStream, EstablishedStreamData, established, Env, Task}
use penguin_rs.Mux.Task.{process_frame}
use penguin_rs.Mux.Task.Replies.{frames}
use penguin_rs.Mux.Stream.{Race, ready, item, poll_write, poll_fill_buf, consume, obtain_loop}
use penguin_rs.Mux.Stream.Writing.{total_added, obtain_loop-Exact, poll_write_ready}
use penguin_rs.Mux.Stream.Reading.{IsCounting, acks, reaches, poll_fill_buf-acks}
use penguin_rs.Mux.Window.{
  Link, window, Step, write, deliver, read, take_bytes, credit, Reach, here, next, IsFresh,
}

abbrev credits_of : Payload → ℕ
credits_of (Payload.acknowledge n) = n
credits_of _ = 0

-- The frames that the `Acknowledge` frames on their way give back.
abbrev pub credits : List Frame → ℕ
credits [] = 0
credits (f ∷ fs) = credits_of f.payload + credits fs

credits-append : (fs gs : List Frame) → credits (fs ++ gs) ≡ credits fs + credits gs
credits-append [] gs = omega arith
credits-append (f ∷ fs) gs = omega (arith, credits-append fs gs)

append_left_cancel : (fs gs hs : List Frame) → fs ++ gs ≡ fs ++ hs → gs ≡ hs
append_left_cancel [] gs hs e = e
append_left_cancel (f ∷ fs) gs hs e = append_left_cancel fs gs hs (cc e)

-- Each frame of the window is in one place: still to be sent, on its way, in the channel, taken but
-- not yet acknowledged, or acknowledged on the way back.
pub record Balanced (capacity : ℕ) (l : Link) : Type 0 where
  pub total : window l + l.pushes + l.queue + l.remote.psh_recvd_since + credits l.wire ≡ capacity
  pub counting : IsCounting l.remote

pub credits-none : (fs : List Frame) → fs ≡ [] → credits fs ≡ 0
credits-none fs e = rw e

IsFresh-Balanced : {capacity : ℕ} {l : Link} → IsFresh capacity l → Balanced capacity l
IsFresh-Balanced {capacity} {l} f = record {
  total = omega (
    arith,
    f.full_window,
    f.none_pushed,
    f.none_queued,
    f.none_counted,
    credits-none l.wire f.none_acked,
  );
  counting = omega (arith, f.none_counted);
}

total_added-append : (xs ys : Race) → total_added (xs ++ ys) ≡ total_added xs + total_added ys
total_added-append [] ys = omega arith
total_added-append ((added, spurious) ∷ xs) ys = omega (arith, total_added-append xs ys)

-- Without additions of the task, a permission takes exactly one.
pub obtain_quiet :
    (n : ℕ) (race : Race)
    → n < 2 ^ 32
    → total_added race ≡ 0
    → (obtain_loop n race).0 ≡ true
    → (obtain_loop n race).1 + 1 ≡ n
obtain_quiet n race h quiet got =
    let (done, left, e, r) = obtain_loop-Exact n race (omega arith) in
    let none : total_added done ≡ 0 =
      omega (arith, ap total_added e, total_added-append done left) in
    elim r [ inl (a, exact) ↦ omega arith | inr (a, z, zero) ↦ cc ]

-- An `Acknowledge` for a stream of the map adds its count to the window of that stream.
credit_window :
    (env : Env) (s : Task) (id n cell : ℕ) (d : EstablishedStreamData)
    → lookup id s.flows ≡ some (established d)
    → d.cell ≡ cell
    → ((process_frame env s (new_acknowledge id n) false).1.cells cell).psh_send_remaining
      ≡ ((s.cells cell).psh_send_remaining + n) % 2 ^ 32
unfolding process_frame new_acknowledge
credit_window env s id n cell d slot shared = ground arith

credits-acks :
    (self : MuxStream)
    → credits (acks self) ≡ (if reaches self then self.psh_recvd_since + 1 else 0)
unfolding new_acknowledge
credits-acks self = ground arith

credits-cons : (id n : ℕ) (fs : List Frame) → credits (new_acknowledge id n ∷ fs) ≡ n + credits fs
unfolding new_acknowledge
credits-cons id n fs = refl

module _ {capacity : ℕ} (fits : capacity < 2 ^ 32) {l : Link} where
  write_Balanced :
      (env : Env) (race : Race) (buf : List ℕ) (n : ℕ) (w : Task)
      → total_added race ≡ 0
      → poll_write env l.writer l.stream race buf ≡ (ready (ok n), w)
      → Balanced capacity l
      → Balanced capacity (record l { writer = w; pushes = suc l.pushes })
  write_Balanced env race buf n w quiet e b =
      let (_, _, _, got, left) = poll_write_ready env l.writer l.stream race buf n w e in
      record {
        total =
            omega (
              arith,
              b.total,
              left,
              obtain_quiet (window l) race (omega (arith, b.total)) quiet got,
            );
        counting = b.counting;
      }

  read_Balanced :
      (env : Env) (piece : List ℕ) (q : ℕ) (fs : List Frame)
      → env.frame_open ≡ true
      → l.remote.buf ≡ []
      → l.queue ≡ suc q
      → frames (poll_fill_buf env l.reader l.remote (item piece)).2.log ≡ frames l.reader.log ++ fs
      → Balanced capacity l
      → Balanced capacity (record l {
        reader = (poll_fill_buf env l.reader l.remote (item piece)).2;
        remote = (poll_fill_buf env l.reader l.remote (item piece)).1;
        queue = q;
        wire = l.wire ++ fs;
      })
  read_Balanced env piece q fs alive empty e sent b =
      let (counts, log, since, _, _, _, _) =
        poll_fill_buf-acks env l.reader l.remote piece empty b.counting alive in
      let fs_are : fs ≡ acks l.remote =
        append_left_cancel (frames l.reader.log) fs _ (sym sent ∙ log) in
      record {
        total = ground (
          arith,
          b.total,
          e,
          since,
          ap credits fs_are,
          credits-acks l.remote,
          credits-append l.wire fs,
        );
        counting = counts;
      }

module _ {capacity : ℕ} (fits : capacity < 2 ^ 32) {l l' : Link} where
  Step-Balanced : Step capacity l l' → Balanced capacity l → Balanced capacity l'
  Step-Balanced (write env race buf n w quiet e after) b =
      rw after (write_Balanced fits {l = l} env race buf n w quiet e b)
  Step-Balanced (deliver p e room after) b =
      rw after (record { total = omega (arith, b.total); counting = b.counting })
  Step-Balanced (read env piece q fs alive empty e sent after) b =
      rw after (read_Balanced fits {l = l} env piece q fs alive empty e sent b)
  Step-Balanced (take_bytes amt after) b =
      rw after (unfold consume in record { total = b.total; counting = b.counting })
  Step-Balanced (credit env id n fs d e slot shared after) b = rw after (record {
    total = omega (
      arith,
      b.total,
      ap credits e,
      credits-cons id n fs,
      credit_window env l.writer id n l.stream.cell d slot shared,
    );
    counting = b.counting;
  })

pub Reach-Balanced :
    {capacity : ℕ} {start l : Link}
    → capacity < 2 ^ 32
    → IsFresh capacity start
    → Reach capacity start l
    → Balanced capacity l
Reach-Balanced fits f here = IsFresh-Balanced f
Reach-Balanced fits f (next r st) = Step-Balanced fits st (Reach-Balanced fits f r)
