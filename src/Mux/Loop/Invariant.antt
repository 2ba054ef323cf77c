-- ===== src/Mux/Loop/Invariant.antt =====
-- src/mux/task.rs: what holds however many messages and dropped ports the task has processed.
use penguin_rs.Base.{
  ℕ, ◌<◌, ◌≡◌, refl, Bool, true, false, List, [], ◌∷◌, some, arith, Result, ok, err, ◌==◌,
  if◌then◌else◌, Bool-cases, inl, inr, ◌^◌, length,
}
use penguin_rs.Mux.Frame
use penguin_rs.Mux.Frame.{Frame, Buf, Payload, DatagramPayload, as_ref, frame_too_short}
use penguin_rs.Mux.Frame.Codec.{try_from, finalize}
use penguin_rs.Mux.Frame.RoundTrip.{short_datagram_refused}
use penguin_rs.Mux.State.{Env, Task, Error, invalid_frame}
use penguin_rs.Mux.Task.{process_frame, close_port}
use penguin_rs.Mux.Task.Isolation.{IsWf, Change-IsWf}
use penguin_rs.Mux.Task.Changes.{process_frame-IsWf, close_port-Change}
use penguin_rs.Mux.Loop.{
  Message, binary, ping, pong, close, Outcome, and_then, process_dropped_ports_task,
  process_message, process_ws_next,
}

abbrev pub IsGood : Task → Type 0
IsGood s = IsWf s.flows s.next_cell

-- Closing ports, however many, keeps a well-formed map well formed.
pub process_dropped_ports_task-IsGood :
    (s : Task) (ports : List (Env × ℕ)) → IsGood s → IsGood (process_dropped_ports_task s ports).1
unfolding process_dropped_ports_task
process_dropped_ports_task-IsGood s [] w = w
process_dropped_ports_task-IsGood s ((env, flow_id) ∷ ports) w = elim (Bool-cases (flow_id == 0)) [
  | inl last ↦ rw last w
  | inr more ↦ rw more (
      process_dropped_ports_task-IsGood (close_port env s flow_id false) ports
        (Change-IsWf flow_id (close_port-Change env s flow_id false) w))
]

and_then-IsGood :
    {A B : Type 0} (r : Outcome A) (k : A → Task → Outcome B)
    → IsGood r.1
    → ((a : A) (t : Task) → IsGood t → IsGood (k a t).1)
    → IsGood (and_then r k).1
and_then-IsGood (ok a, s) k w h = h a s w
and_then-IsGood (err e, s) k w h = w

module _ (b : Buf) where
  pub process_message-IsGood :
      (env : Env) (s : Task) (msg : Message) (ignore_bind : Bool)
      → IsGood s
      → IsGood (process_message b env s msg ignore_bind).1
  unfolding process_message
  process_message-IsGood env s (binary bytes) ib w = decoded (try_from b bytes) refl
    where
      decoded :
          (r : Result Frame.Error Frame)
          → try_from b bytes ≡ r
          → IsGood (process_message b env s (binary bytes) ib).1
      decoded (err e) q = rw (q, process_message) w
      decoded (ok f) q =
          rw (q, process_message)
            (and_then-IsGood (process_frame env s f ib) _ (process_frame-IsWf env s f ib w)
              (λ _ t h. h))
  process_message-IsGood env s ping ib w = w
  process_message-IsGood env s pong ib w = w
  process_message-IsGood env s close ib w = w

  -- Whatever arrives over the WebSocket, frames that cannot be decoded included, a well-formed
  -- map of flows stays well formed.
  pub process_ws_next-IsGood :
      (s : Task) (inputs : List (Env × Result Error Message))
      → IsGood s
      → IsGood (process_ws_next b s inputs).1
  unfolding process_ws_next
  process_ws_next-IsGood s [] w = w
  process_ws_next-IsGood s ((env, err e) ∷ inputs) w = w
  process_ws_next-IsGood s ((env, ok msg) ∷ inputs) w =
      and_then-IsGood (process_message b env s msg false) _
        (process_message-IsGood env s msg false w)
        (λ is_close t h. go is_close t h (process_ws_next-IsGood t inputs h))
    where
      go :
          (is_close : Bool) (t : Task)
          → IsGood t
          → IsGood (process_ws_next b t inputs).1
          → IsGood (if is_close then (ok tt, t) else process_ws_next b t inputs).1
      go true t h r = h
      go false t h r = r

  -- A datagram with fewer than four bytes of data, whose flow ID and port fit their types, ends
  -- the receiving loop with an error when its encoding arrives: what arrives after it is never
  -- read.
  pub short_datagram_ends_task :
      (s : Task) (env : Env) (inputs : List (Env × Result Error Message)) (id : ℕ)
      (p : DatagramPayload) (bytes : List ℕ)
      → id < 2 ^ 32
      → p.target_port < 2 ^ 16
      → length (as_ref p.payload_data) < 4
      → finalize b (record { id = id; payload = Payload.datagram p }) ≡ some bytes
      → process_ws_next b s ((env, ok (binary bytes)) ∷ inputs)
        ≡ (err (invalid_frame frame_too_short), s)
  unfolding process_ws_next process_message
  short_datagram_ends_task s env inputs id p bytes hid hport short e =
      ground (arith, short_datagram_refused b id p bytes hid hport short e)
