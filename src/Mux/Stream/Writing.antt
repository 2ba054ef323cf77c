-- ===== src/Mux/Stream/Writing.antt =====
-- src/mux/stream.rs: the writing half of a `MuxStream`: permission, `Push` frames and shutdown.
use penguin_rs.Base.{
  ℕ, ◌+◌, ◌%◌, ◌^◌, ◌<◌, ◌≡◌, refl, ap, ◌⊎◌, inl, inr, List, [], ◌∷◌, ◌++◌, Bool, true, false, not,
  ◌&&◌, if◌then◌else◌, ◌==◌, ok, err, length, arith, append-nil, Bool-cases,
}
use penguin_rs.Mux.Frame.{new_push, new_finish}
use penguin_rs.Mux.State.{MuxStream, Env, Task, sent_frame}
use penguin_rs.Mux.Stream.{ready, broken_pipe, Race, obtain_loop, poll_write, shutdown_inner}
use penguin_rs.Mux.Task.Replies.{frames, frames-emit}

-- What the rounds of a race add to the counter.
abbrev pub total_added : Race → ℕ
total_added [] = 0
total_added ((added, spurious) ∷ race) = added + total_added race

abbrev current : ℕ → ℕ → ℕ
current n added = (n + added) % 2 ^ 32

-- A result `r` of the loop, from `n`, where the rounds `done` took place.
abbrev pub Exact : ℕ → Race → Bool × ℕ → Type 0
Exact n done r =
    ((r.0 ≡ true) × (r.1 + 1 ≡ n + total_added done))
    ⊎ ((r.0 ≡ false) × (r.1 ≡ 0) × (n + total_added done ≡ 0))

retry :
    (n added : ℕ) (spurious : Bool) (race : Race)
    → (n == 0) ≡ false
    → (current n added == n && not spurious) ≡ false
    → obtain_loop n ((added, spurious) ∷ race) ≡ obtain_loop (current n added) race
unfolding obtain_loop
retry n added spurious race more again = rw (more, again)

Exact-retry :
    (n added : ℕ) (spurious : Bool) (done : Race) (r : Bool × ℕ)
    → n + added < 2 ^ 32
    → Exact (current n added) done r
    → Exact n ((added, spurious) ∷ done) r
Exact-retry n added spurious done r h (inl (a, e)) = inl (a, omega arith)
Exact-retry n added spurious done r h (inr (a, e, z)) = inr (a, e, omega arith)

-- However the exchange races with the task, as long as the counter stays below 2^32, a permission
-- takes one from the counter and keeps all that was added before it: the rounds that took place
-- are a first part of the race. Without a permission the counter was 0 and is left so.
pub obtain_loop-Exact :
    (n : ℕ) (race : Race)
    → n + total_added race < 2 ^ 32
    → (done : Race) × (left : Race) × (race ≡ done ++ left) × Exact n done (obtain_loop n race)
unfolding obtain_loop
obtain_loop-Exact n [] h = elim (Bool-cases (n == 0)) [
  | inl zero ↦ ([], [], refl, inr (ground arith, ground arith, ground arith))
  | inr more ↦ ([], [], refl, inl (ground arith, ground arith))
]
obtain_loop-Exact n ((added, spurious) ∷ race) h = elim (Bool-cases (n == 0)) [
  | inl zero ↦ ([], (added, spurious) ∷ race, refl, inr (ground arith, ground arith, ground arith))
  | inr more ↦ elim (Bool-cases (current n added == n && not spurious)) [
    | inl taken ↦ ([], (added, spurious) ∷ race, refl, inl (ground arith, ground arith))
    | inr again ↦
        let (done, left, e, r) = obtain_loop-Exact (current n added) race (omega arith) in
        (
          (added, spurious) ∷ done,
          left,
          ap (λ t. (added, spurious) ∷ t) e,
          rw (retry n added spurious race more again)
              (Exact-retry n added spurious done _ (omega arith) r),
        )
  ]
]

module _ (env : Env) (s : Task) (self : MuxStream) where
  -- A write that succeeds reports the whole buffer, queues one `Push` frame that carries it,
  -- and requires that the stream has not been shut down.
  pub poll_write_ready :
      (race : Race) (buf : List ℕ) (n : ℕ) (s' : Task)
      → poll_write env s self race buf ≡ (ready (ok n), s')
      → (n ≡ length buf)
        × (frames s'.log ≡ frames s.log ++ (new_push self.flow_id buf ∷ []))
        × ((s.cells self.cell).finish_sent ≡ false)
        × ((obtain_loop (s.cells self.cell).psh_send_remaining race).0 ≡ true)
        × ((s'.cells self.cell).psh_send_remaining
            ≡ (obtain_loop (s.cells self.cell).psh_send_remaining race).1)
  unfolding poll_write
  poll_write_ready race buf n s' e =
      ground (arith, frames-emit s.log (sent_frame (new_push self.flow_id buf)))

  -- While the queue of frames is open, shutting a stream down twice queues one `Finish` where it
  -- was still open and none where it was shut down before; afterwards a write is refused and
  -- changes nothing.
  pub shutdown_inner_once :
      (race : Race) (buf : List ℕ)
      → env.frame_open ≡ true
      → let s1 = (shutdown_inner env s self).1 in
        let s2 = (shutdown_inner env s1 self).1 in
        (frames s2.log
          ≡ frames s.log
            ++ (if (s.cells self.cell).finish_sent then [] else new_finish self.flow_id ∷ []))
        × (poll_write env s2 self race buf ≡ (ready (err broken_pipe), s2))
  unfolding shutdown_inner poll_write
  shutdown_inner_once race buf h =
      ground
        (arith, frames-emit s.log (sent_frame (new_finish self.flow_id)), append-nil (frames s.log))
