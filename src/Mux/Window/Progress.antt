-- ===== src/Mux/Window/Progress.antt =====
-- When the flow control of src/mux/stream.rs lets a blocked writer go on.
use penguin_rs.Base.{ℕ, suc, ◌^◌, ◌≤◌, ◌<◌, ◌≡◌, refl, ◌∙◌, ◌⊎◌, List, arith}
use penguin_rs.Mux.State.{MuxStream, Env, Task}
use penguin_rs.Mux.Stream.{item, poll_fill_buf, consume}
use penguin_rs.Mux.Window.{
  Link, window, Step, write, deliver, read, take_bytes, credit, Reach, here, next, IsFresh,
}
use penguin_rs.Mux.Window.Balance.{Reach-Balanced, credits}

-- On a stream that starts with a window of `capacity` frames, below 2^32, a writer never overruns
-- the receive window, in whatever order the two ends go on: whenever a `Push` is on its way, the
-- channel of the stream has room for it.
pub no_overrun :
    (capacity : ℕ) (start l : Link) (p : ℕ)
    → capacity < 2 ^ 32
    → IsFresh capacity start
    → Reach capacity start l
    → l.pushes ≡ suc p
    → l.queue < capacity
no_overrun capacity start l p fits f r e = omega (arith, (Reach-Balanced fits f r).total, e)

keeps_threshold :
    (env : Env) (s : Task) (self : MuxStream) (piece : List ℕ)
    → (poll_fill_buf env s self (item piece)).1.rwnd_threshold ≡ self.rwnd_threshold
unfolding poll_fill_buf
keeps_threshold env s self piece = ground arith

Step-threshold :
    {capacity : ℕ} {l l' : Link}
    → Step capacity l l'
    → l'.remote.rwnd_threshold ≡ l.remote.rwnd_threshold
Step-threshold (write env race buf n w quiet e after) = rw after
Step-threshold (deliver p e room after) = rw after
Step-threshold {l = l} (read env piece q fs alive empty e sent after) =
    rw after (keeps_threshold env l.reader l.remote piece)
Step-threshold (take_bytes amt after) = rw after (unfold consume in refl)
Step-threshold (credit env id n fs d e slot shared after) = rw after

Reach-threshold :
    {capacity : ℕ} {start l : Link}
    → Reach capacity start l
    → l.remote.rwnd_threshold ≡ start.remote.rwnd_threshold
Reach-threshold here = refl
Reach-threshold (next r st) = Step-threshold st ∙ Reach-threshold r

-- Where the reader's threshold is at most its window, which is above 0 and below 2^32, a writer
-- whose window is used up is never stuck, in whatever order the two ends went on: a `Push` is on
-- its way, or data waits in the channel, or credit is on its way back.
pub no_deadlock :
    (capacity : ℕ) (start l : Link)
    → capacity < 2 ^ 32
    → 0 < capacity
    → start.remote.rwnd_threshold ≤ capacity
    → IsFresh capacity start
    → Reach capacity start l
    → window l ≡ 0
    → (0 < l.pushes) ⊎ (0 < l.queue) ⊎ (0 < credits l.wire)
no_deadlock capacity start l fits some_room low f r empty =
    let b = Reach-Balanced fits f r in omega (arith, b.total, b.counting, Reach-threshold r)
