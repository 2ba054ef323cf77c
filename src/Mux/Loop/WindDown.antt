-- ===== src/Mux/Loop/WindDown.antt =====
-- src/mux/task.rs: what `wind_down` leaves behind.
use penguin_rs.Base.{
  ℕ, ◌≡◌, refl, sym, ap, ◌∙◌, List, [], ◌∷◌, ◌++◌, Bool, true, false, none, arith, Result, ok, err,
  if◌then◌else◌, append-nil, Option-cases, inl, inr,
}
use penguin_rs.Mux.Frame
use penguin_rs.Mux.Frame.{Frame, Buf, new_reset}
use penguin_rs.Mux.Frame.Codec.{try_from}
use penguin_rs.Mux.State.{
  Error, FlowSlot, requested, established, bind_requested, Env, Task, emit, set_flows, ws_binary,
  woke_writer, answer_connect, answer_bind, dropped_sender,
}
use penguin_rs.Mux.Flow.{disallow_write}
use penguin_rs.Mux.Task.{process_frame, close_port_local}
use penguin_rs.Mux.Task.Replies.{frames, frames-emit, process_frame-reply}
use penguin_rs.Mux.Loop.{
  Message, binary, ping, pong, close, Outcome, process_message, drain_source, disallow_all,
  drain_frames, close_all, after_close, after_close_all, wind_down, and_then,
}

-- The frames that are queued stay the same.
abbrev Quiet : Task → Task → Type 0
Quiet s after = frames after.log ≡ frames s.log

disallow_all-Quiet : (s : Task) (flows : List (ℕ × FlowSlot)) → Quiet s (disallow_all s flows)
unfolding disallow_all disallow_write
disallow_all-Quiet s [] = refl
disallow_all-Quiet s ((k, established d) ∷ flows) =
    disallow_all-Quiet (disallow_write s d).1 flows
    ∙ (frames-emit s.log (woke_writer d.cell) ∙ append-nil (frames s.log))
disallow_all-Quiet s ((k, requested sender) ∷ flows) = disallow_all-Quiet s flows
disallow_all-Quiet s ((k, bind_requested sender) ∷ flows) = disallow_all-Quiet s flows

drain_frames-Quiet : (s : Task) (queued : List (Frame × Bool)) → Quiet s (drain_frames s queued)
unfolding drain_frames
drain_frames-Quiet s [] = refl
drain_frames-Quiet s ((f, true) ∷ queued) =
    drain_frames-Quiet (emit s (ws_binary f)) queued
    ∙ (frames-emit s.log (ws_binary f) ∙ append-nil (frames s.log))
drain_frames-Quiet s ((f, false) ∷ queued) = refl

process_frame-Quiet :
    (env : Env) (s : Task) (f : Frame) (ignore_bind : Bool)
    → env.frame_open ≡ false
    → Quiet s (process_frame env s f ignore_bind).1
process_frame-Quiet env s f ib shut =
    process_frame-reply env s f ib ∙ rw shut (append-nil (frames s.log))

module _ (b : Buf) where
  process_message-Quiet :
      (env : Env) (s : Task) (msg : Message)
      → env.frame_open ≡ false
      → Quiet s (process_message b env s msg true).1
  unfolding process_message
  process_message-Quiet env s (binary bytes) shut = decoded (try_from b bytes) refl
    where
      handled :
          (r : Outcome (Unit {0})) → Quiet s r.1 → Quiet s (and_then r (λ _ s'. (ok false, s'))).1
      handled (ok u, t) q = q
      handled (err e, t) q = q

      decoded :
          (r : Result Frame.Error Frame)
          → try_from b bytes ≡ r
          → Quiet s (process_message b env s (binary bytes) true).1
      decoded (err e) q = rw (q, process_message) refl
      decoded (ok f) q =
          rw (q, process_message)
            (handled (process_frame env s f true) (process_frame-Quiet env s f true shut))
  process_message-Quiet env s ping shut = refl
  process_message-Quiet env s pong shut = refl
  process_message-Quiet env s close shut = refl

  drain_source-Quiet :
      (s : Task) (inputs : List (Env × Result Error Message))
      → Quiet s (drain_source b s (after_close_all inputs)).1
  unfolding drain_source
  drain_source-Quiet s [] = refl
  drain_source-Quiet s ((env, err e) ∷ inputs) = refl
  drain_source-Quiet s ((env, ok msg) ∷ inputs) =
      then_rest (process_message b (after_close env) s msg true)
        (process_message-Quiet (after_close env) s msg refl) (λ t. drain_source-Quiet t inputs)
    where
      then_rest :
          (r : Outcome Bool)
          → Quiet s r.1
          → ((t : Task) → Quiet t (drain_source b t (after_close_all inputs)).1)
          → Quiet s (and_then r (λ _ t. drain_source b t (after_close_all inputs))).1
      then_rest (ok c, t) q h = h t ∙ q
      then_rest (err e, t) q h = q

-- Closing a slot while the frame channel is closed.
close_port_local-Quiet :
    (env : Env) (s : Task) (slot : FlowSlot) (k : ℕ)
    → env.frame_open ≡ false
    → Quiet s (close_port_local env s slot k true)
unfolding close_port_local
close_port_local-Quiet env s (requested sender) k shut =
    ground (arith, frames-emit s.log (answer_connect sender none), append-nil (frames s.log))
close_port_local-Quiet env s (bind_requested sender) k shut =
    ground (arith, frames-emit s.log (answer_bind sender false), append-nil (frames s.log))
close_port_local-Quiet env s (established d) k shut = elim (Option-cases d.sender) [
  | inl gone ↦ ground (arith, frames-emit s.log (woke_writer d.cell), append-nil (frames s.log))
  | inr (channel, there) ↦ ground (
    arith,
    frames-emit s.log (woke_writer d.cell),
    frames-emit (s.log ++ (woke_writer d.cell ∷ [])) (dropped_sender channel),
    append-nil (frames s.log),
    append-nil (frames (s.log ++ (woke_writer d.cell ∷ []))),
  )
]

close_port_local-flows :
    (env : Env) (s : Task) (slot : FlowSlot) (k : ℕ)
    → (close_port_local env s slot k true).flows ≡ s.flows
unfolding close_port_local
close_port_local-flows env s (requested sender) k = ground arith
close_port_local-flows env s (bind_requested sender) k = ground arith
close_port_local-flows env s (established d) k = ground arith

close_all_lem :
    (env : Env) (flows : List (ℕ × FlowSlot)) (s : Task)
    → env.frame_open ≡ false
    → ((close_all env s flows).flows ≡ s.flows) × Quiet s (close_all env s flows)
unfolding close_all
close_all_lem env [] s shut = (refl, refl)
close_all_lem env ((k, slot) ∷ flows) s shut =
    let (f, q) = close_all_lem env flows (close_port_local env s slot k true) shut in
    (f ∙ close_port_local-flows env s slot k, q ∙ close_port_local-Quiet env s slot k shut)

closed_all :
    (env : Env) (s s' : Task) (r : Outcome (Unit {0}))
    → Quiet s r.1
    → and_then r (λ _ s3. (ok tt, close_all (after_close env) (set_flows s3 []) s3.flows))
      ≡ (ok tt, s')
    → (s'.flows ≡ []) × Quiet s s'
closed_all env s s' (err x, s3) q e = cc e
closed_all env s s' (ok u, s3) q e =
    let (f, c) = close_all_lem (after_close env) s3.flows (set_flows s3 []) refl in
    let last : close_all (after_close env) (set_flows s3 []) s3.flows ≡ s' = ap (λ r. r.1) e in
    (sym (ap (λ t. t.flows) last) ∙ f, sym (ap (λ t. frames t.log) last) ∙ (c ∙ q))

-- When the task has wound down without an error, no flow is left, whatever was still in the source,
-- and no frame was queued that nobody would send.
pub wind_down_clears :
    (b : Buf) (env : Env) (s s' : Task) (should_drain_frame_rx : Bool)
    (queued : List (Frame × Bool)) (inputs : List (Env × Result Error Message))
    → wind_down b env s should_drain_frame_rx queued inputs ≡ (ok tt, s')
    → (s'.flows ≡ []) × (frames s'.log ≡ frames s.log)
unfolding wind_down
wind_down_clears b env s s' should_drain queued inputs e =
    closed_all env s s' _
      (drain_source-Quiet b _ inputs ∙ (before should_drain ∙ disallow_all-Quiet s s.flows)) e
  where
    before :
        (drain : Bool)
        → frames
            (if drain
              then drain_frames (disallow_all s s.flows) queued
              else disallow_all s s.flows).log
          ≡ frames (disallow_all s s.flows).log
    before true = drain_frames-Quiet (disallow_all s s.flows) queued
    before false = refl
