-- ===== src/Mux/Window/Stall.antt =====
-- When the flow control of src/mux/stream.rs blocks a writer for good.
use penguin_rs.Base.{
  ℕ, zero, suc, ◌+◌, ◌≤◌, ◌<◌, ◌≡◌, refl, ap, ◌∙◌, List, [], ◌∷◌, ◌++◌, true, false, ok, arith,
  append-nil,
}
use penguin_rs.Mux.State.{MuxStream, Env, Task, TrySend}
use penguin_rs.Mux.Task.Replies.{frames}
use penguin_rs.Mux.Stream.{ready, item, poll_write, poll_fill_buf, consume}
use penguin_rs.Mux.Stream.Writing.{poll_write_ready}
use penguin_rs.Mux.Window.{
  Link, window, Step, write, deliver, read, take_bytes, credit, Reach, here, next, IsFresh,
}
use penguin_rs.Mux.Window.Balance.{obtain_quiet}

-- Nothing to send, nothing to read, nothing on its way.
pub record IsStalled (l : Link) : Type 0 where
  pub no_window : window l ≡ 0
  pub no_push : l.pushes ≡ 0
  pub no_data : l.queue ≡ 0
  pub no_credit : l.wire ≡ []

-- A stalled stream stays so: no step of either end gives the writer its window back.
pub IsStalled-Step : {capacity : ℕ} {l l' : Link} → IsStalled l → Step capacity l l' → IsStalled l'
IsStalled-Step {l = l} st (write env race buf n w quiet e after) =
    let (_, _, _, got, _) = poll_write_ready env l.writer l.stream race buf n w e in
    absurd (
      omega
        (arith, obtain_quiet (window l) race (omega (arith, st.no_window)) quiet got, st.no_window))
IsStalled-Step st (deliver p e room after) = absurd (omega (arith, st.no_push, e))
IsStalled-Step st (read env piece q fs alive empty e sent after) =
    absurd (omega (arith, st.no_data, e))
IsStalled-Step st (take_bytes amt after) = rw after (record {
  no_window = st.no_window;
  no_push = st.no_push;
  no_data = st.no_data;
  no_credit = st.no_credit;
})
IsStalled-Step st (credit env id n fs d e slot shared after) = cc (st.no_credit, e)

-- The state after `k` rounds of write, deliver, read and consume, below the threshold.
record Round (capacity k : ℕ) (start l : Link) : Type 0 where
  reached : Reach capacity start l
  window_left : window l + k ≡ capacity
  counted : l.remote.psh_recvd_since ≡ k
  no_push : l.pushes ≡ 0
  no_data : l.queue ≡ 0
  no_credit : l.wire ≡ []
  empty : l.remote.buf ≡ []
  may_write : (l.writer.cells l.stream.cell).finish_sent ≡ false
  threshold : l.remote.rwnd_threshold ≡ start.remote.rwnd_threshold

abbrev pub calm : Env
calm = record {
  frame_open = true;
  is_waiting = λ _. true;
  stream_taken = true;
  bind_taken = true;
  datagram_send = TrySend.sent;
  data_send = λ _. TrySend.sent;
}

abbrev piece : List ℕ
piece = 0 ∷ []

-- One byte is written, delivered, read and consumed.
abbrev after_write : Link → Link
after_write l = record l {
  writer = (poll_write calm l.writer l.stream [] piece).1;
  pushes = suc l.pushes;
}

abbrev after_read : Link → Link
after_read l = record l {
  reader = (poll_fill_buf calm l.reader l.remote (item piece)).2;
  remote = (poll_fill_buf calm l.reader l.remote (item piece)).1;
  queue = 0;
  wire = l.wire ++ [];
}

writes :
    (s : Task) (self : MuxStream)
    → (s.cells self.cell).finish_sent ≡ false
    → 0 < (s.cells self.cell).psh_send_remaining
    → let w = (poll_write calm s self [] piece).1 in
      (poll_write calm s self [] piece ≡ (ready (ok 1), w))
      × ((w.cells self.cell).psh_send_remaining + 1 ≡ (s.cells self.cell).psh_send_remaining)
      × ((w.cells self.cell).finish_sent ≡ false)
unfolding poll_write
writes s self open_end some_left = ground arith

-- A read below the threshold queues no `Acknowledge`.
reads :
    (s : Task) (self : MuxStream)
    → self.buf ≡ []
    → self.psh_recvd_since + 1 < self.rwnd_threshold
    → let r = poll_fill_buf calm s self (item piece) in
      (frames r.2.log ≡ frames s.log ++ [])
      × (r.1.psh_recvd_since ≡ self.psh_recvd_since + 1)
      × (r.1.rwnd_threshold ≡ self.rwnd_threshold)
      × ((consume r.1 1).buf ≡ [])
unfolding poll_fill_buf consume
reads s self empty low = ground (arith, append-nil (frames s.log))

round :
    {capacity k : ℕ} {start l : Link}
    → k < capacity
    → capacity < start.remote.rwnd_threshold
    → Round capacity k start l
    → (l' : Link) × Round capacity (suc k) start l'
unfolding consume
round {capacity} {k} {start} {l} more high r =
    let (e, w, fin) = writes l.writer l.stream r.may_write (omega (arith, r.window_left)) in
    let l1 : Link = after_write l in
    let l2 : Link = record l1 { pushes = l.pushes; queue = suc l.queue } in
    let l3 : Link = after_read l2 in
    let l4 : Link = record l3 { remote = consume l3.remote 1 } in
    let (log, since, th, taken) =
      reads l.reader l.remote r.empty (omega (arith, r.threshold, r.counted)) in
    (
      l4,
      record {
        reached =
            next
              (next
                (next (next r.reached (write calm [] piece 1 l1.writer refl e refl))
                  (deliver l.pushes refl (omega (arith, r.no_data)) refl))
                (read calm piece 0 [] refl r.empty (ap suc r.no_data) log refl))
              (take_bytes 1 refl);
        window_left = omega (arith, w, r.window_left);
        counted = since ∙ omega (arith, r.counted);
        no_push = r.no_push;
        no_data = refl;
        no_credit = append-nil l.wire ∙ r.no_credit;
        empty = taken;
        may_write = fin;
        threshold = th ∙ r.threshold;
      },
    )

rounds :
    {capacity : ℕ} {start : Link} (k : ℕ)
    → k ≤ capacity
    → capacity < start.remote.rwnd_threshold
    → Round capacity 0 start start
    → (l : Link) × Round capacity k start l
rounds {start = start} zero low high r = (start, r)
rounds (suc k) low high r =
    let (l, rl) = rounds k (omega arith) high r in round (omega arith) high rl

-- Where the reader's threshold is above its window, a fresh stream that may be written to, and
-- whose reader has read all that it took, comes to a state that is stalled.
pub stalls :
    (capacity : ℕ) (start : Link)
    → capacity < start.remote.rwnd_threshold
    → IsFresh capacity start
    → start.remote.buf ≡ []
    → (start.writer.cells start.stream.cell).finish_sent ≡ false
    → (l : Link) × Reach capacity start l × IsStalled l
stalls capacity start high f none may_write =
    let (l, r) = rounds capacity (omega arith) high (record {
      reached = here;
      window_left = omega (arith, f.full_window);
      counted = f.none_counted;
      no_push = f.none_pushed;
      no_data = f.none_queued;
      no_credit = f.none_acked;
      empty = none;
      may_write = may_write;
      threshold = refl;
    }) in
    (
      l,
      r.reached,
      record {
        no_window = omega (arith, r.window_left);
        no_push = r.no_push;
        no_data = r.no_data;
        no_credit = r.no_credit;
      },
    )
