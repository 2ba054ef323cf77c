-- ===== src/Mux/Window.antt =====
-- src/mux/stream.rs and src/mux/task.rs: one direction of a stream between two multiplexors. The
-- writer calls `poll_write` and its task processes `Acknowledge` frames; the reader's task puts
-- `Push` frames into the channel of the stream, and the reader calls `poll_fill_buf` and `consume`.
-- The calls interleave in any order.
pub mod Balance
pub mod Progress
pub mod Stall
mod Examples
use penguin_rs.Base.{ℕ, suc, ◌+◌, ◌<◌, ◌≡◌, List, [], ◌∷◌, ◌++◌, true, false, some, ok, lookup}
use penguin_rs.Mux.Frame.{Frame, Payload, new_acknowledge}
use penguin_rs.Mux.State.{MuxStream, EstablishedStreamData, established, Env, Task}
use penguin_rs.Mux.Task.{process_frame}
use penguin_rs.Mux.Task.Replies.{frames}
use penguin_rs.Mux.Stream.{Race, ready, item, poll_write, poll_fill_buf, consume}
use penguin_rs.Mux.Stream.Writing.{total_added}

pub record Link : Type 0 where
  -- The writing end: its store and its stream.
  pub writer : Task
  pub stream : MuxStream
  -- The reading end.
  pub reader : Task
  pub remote : MuxStream
  -- `Push` frames on their way, and those in the channel of the reading end.
  pub pushes : ℕ
  pub queue : ℕ
  -- `Acknowledge` frames on their way back, oldest first.
  pub wire : List Frame

abbrev pub window : Link → ℕ
window l = (l.writer.cells l.stream.cell).psh_send_remaining

-- The channel of the reading end holds `capacity` pieces.
pub data Step (capacity : ℕ) (l l' : Link) : Type 0 where
  -- The additions of the task are steps of their own: a race here has spurious failures only.
  write :
      (env : Env) (race : Race) (buf : List ℕ) (n : ℕ) (w : Task)
      → total_added race ≡ 0
      → poll_write env l.writer l.stream race buf ≡ (ready (ok n), w)
      → l' ≡ record l { writer = w; pushes = suc l.pushes }
      → Step capacity l l'
  deliver :
      (p : ℕ)
      → l.pushes ≡ suc p
      → l.queue < capacity
      → l' ≡ record l { pushes = p; queue = suc l.queue }
      → Step capacity l l'
  read :
      (env : Env) (next : List ℕ) (q : ℕ) (fs : List Frame)
      → env.frame_open ≡ true
      → l.remote.buf ≡ []
      → l.queue ≡ suc q
      → frames (poll_fill_buf env l.reader l.remote (item next)).2.log ≡ frames l.reader.log ++ fs
      → l' ≡ record l {
        reader = (poll_fill_buf env l.reader l.remote (item next)).2;
        remote = (poll_fill_buf env l.reader l.remote (item next)).1;
        queue = q;
        wire = l.wire ++ fs;
      }
      → Step capacity l l'
  take_bytes : (amt : ℕ) → l' ≡ record l { remote = consume l.remote amt } → Step capacity l l'
  credit :
      (env : Env) (id n : ℕ) (fs : List Frame) (d : EstablishedStreamData)
      → l.wire ≡ new_acknowledge id n ∷ fs
      → lookup id l.writer.flows ≡ some (established d)
      → d.cell ≡ l.stream.cell
      → l' ≡ record l {
        writer = (process_frame env l.writer (new_acknowledge id n) false).1;
        wire = fs;
      }
      → Step capacity l l'

pub data Reach (capacity : ℕ) (start : Link) : Link → Type 0 where
  here : Reach capacity start start
  next : {l l' : Link} → Reach capacity start l → Step capacity l l' → Reach capacity start l'

-- The stream as the handshake leaves it: the writer may send as many frames as the channel holds.
pub record IsFresh (capacity : ℕ) (l : Link) : Type 0 where
  pub full_window : window l ≡ capacity
  pub none_pushed : l.pushes ≡ 0
  pub none_queued : l.queue ≡ 0
  pub none_counted : l.remote.psh_recvd_since ≡ 0
  pub none_acked : l.wire ≡ []
