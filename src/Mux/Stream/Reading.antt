-- ===== src/Mux/Stream/Reading.antt =====
-- src/mux/stream.rs: the reading half of a `MuxStream`: the data it gives, and the `Acknowledge`
-- frames that it queues.
use Prim.Native.Nat.{max}
use penguin_rs.Base.{
  ℕ, ◌+◌, ◌<◌, ◌≡◌, refl, List, [], ◌∷◌, ◌++◌, Bool, true, if◌then◌else◌, leb, min, Result, ok, err,
  length, take, drop, arith, append-nil, append_assoc, take-append-drop,
}
use penguin_rs.Mux.Frame.{Frame, new_acknowledge}
use penguin_rs.Mux.State.{MuxStream, Env, Task, sent_frame}
use penguin_rs.Mux.Stream.{
  Poll, pending, ready, Recv, item, waiting, poll_fill_buf, poll_read, copy_out, fill, IoError,
}
use penguin_rs.Mux.Task.Replies.{frames, frames-emit}

-- The counter of a stream stays below the threshold, or at 0 where the threshold is 0.
abbrev pub IsCounting : MuxStream → Type 0
IsCounting self = self.psh_recvd_since < max self.rwnd_threshold 1

-- Whether one more piece reaches the threshold, and the frames that this queues.
abbrev pub reaches : MuxStream → Bool
reaches self = leb self.rwnd_threshold (self.psh_recvd_since + 1)

abbrev pub acks : MuxStream → List Frame
acks self =
    if reaches self then new_acknowledge self.flow_id (self.psh_recvd_since + 1) ∷ [] else []

-- What has been received and not yet been read: the buffer, and the pieces in the channel.
abbrev pub concat : List (List ℕ) → List ℕ
concat [] = []
concat (x ∷ xs) = x ++ concat xs

-- What `poll_recv` gives on a channel whose sender is still there.
abbrev pub front : List (List ℕ) → Recv
front [] = waiting
front (x ∷ xs) = item x

-- The channel after the call: an empty buffer takes the first piece.
abbrev pub rest : List ℕ → List (List ℕ) → List (List ℕ)
rest [] [] = []
rest [] (x ∷ xs) = xs
rest (b ∷ buf) queue = queue

abbrev pub bytes_read : Poll (Result IoError (List ℕ)) → List ℕ
bytes_read pending = []
bytes_read (ready (ok got)) = got
bytes_read (ready (err e)) = []

module _ (env : Env) (s : Task) (self : MuxStream) where
  read_from :
      (b : List ℕ) (queue : List (List ℕ)) (remaining : ℕ)
      → self.buf ≡ b
      → let (r, self', s') = copy_out remaining (fill env s self (front queue) b) in
        bytes_read r ++ (self'.buf ++ concat (rest b queue)) ≡ b ++ concat queue
  unfolding poll_read
  read_from [] [] remaining e = ground (arith, append-nil self.buf)
  read_from [] (x ∷ xs) remaining e = ground (
    arith,
    append_assoc (take (min (length x) remaining) x) (drop (min (length x) remaining) x)
        (concat xs),
    take-append-drop (min (length x) remaining) x,
  )
  read_from (b ∷ buf) queue remaining e =
      let all = b ∷ buf in
      ground (
        arith,
        append_assoc (take (min (length all) remaining) all) (drop (min (length all) remaining) all)
            (concat queue),
        take-append-drop (min (length all) remaining) all,
      )

  -- A read neither loses, repeats nor reorders a byte: what it returns, followed by what is then in
  -- the buffer and in the channel, is what was in the buffer and in the channel before.
  pub poll_read_exact :
      (queue : List (List ℕ)) (remaining : ℕ)
      → let (r, self', s') = poll_read env s self (front queue) remaining in
        bytes_read r ++ (self'.buf ++ concat (rest self.buf queue)) ≡ self.buf ++ concat queue
  unfolding poll_read
  poll_read_exact queue remaining = read_from self.buf queue remaining refl

  -- While the queue of frames is open, taking a piece from the channel into an empty buffer keeps
  -- the counter below the threshold, and queues an `Acknowledge` with the number of pieces taken
  -- since the last one exactly when that number reaches the threshold; the piece is returned and
  -- buffered.
  pub poll_fill_buf-acks :
      (next : List ℕ)
      → self.buf ≡ []
      → IsCounting self
      → env.frame_open ≡ true
      → let (r, self', s') = poll_fill_buf env s self (item next) in
        IsCounting self'
        × (frames s'.log ≡ frames s.log ++ acks self)
        × (self'.psh_recvd_since ≡ (if reaches self then 0 else self.psh_recvd_since + 1))
        × (self'.rwnd_threshold ≡ self.rwnd_threshold)
        × (self'.flow_id ≡ self.flow_id)
        × (self'.buf ≡ next)
        × (r ≡ ready (ok next))
  unfolding poll_fill_buf
  poll_fill_buf-acks next e c h = ground (
    arith,
    frames-emit s.log (sent_frame (new_acknowledge self.flow_id (self.psh_recvd_since + 1))),
    append-nil (frames s.log),
  )
