-- ===== src/Mux/Api/Keys.antt =====
-- src/mux/lib.rs: the flow IDs that a `Multiplexor` chooses.
use penguin_rs.Base.{
  ℕ, zero, suc, ◌<◌, ◌≡◌, refl, ◌⊎◌, List, [], ◌∷◌, Bool, true, false, Option, none, some, lookup,
  insert, lookup-insert, Option-cases, subst, sym, ap, ◌∙◌, inl, inr, arith, All, ◌==◌,
  if◌then◌else◌, Result, ok, err,
}
use penguin_rs.Mux.State.{FlowSlot, requested, Env, Task, MuxStream, Error}
use penguin_rs.Mux.Stream.{Poll, pending, ready}
use penguin_rs.Mux.Task.Isolation.{IsWf}
use penguin_rs.Mux.Loop.Invariant.{IsGood}
use penguin_rs.Mux.Api.{
  next_available_key, request_stream, new_stream_channel, Attempt, after_request, after_wait,
}

-- The key that is chosen is not in use, and has every property that all the numbers drawn have.
pub next_available_key_free :
    {V : Type 0} (flows : List (ℕ × V)) (random : List ℕ) (i : ℕ) (P : ℕ → Type 0)
    → All P random
    → next_available_key flows random ≡ some i
    → (lookup i flows ≡ none) × P i
unfolding next_available_key
next_available_key_free flows [] i P h e = cc e
next_available_key_free flows (x ∷ random) i P h e = elim (Option-cases (lookup x flows)) [
  | inl free ↦
      let q : x ≡ i = ground arith in (subst (λ k. lookup k flows ≡ none) q free, subst P q h.0)
  | inr (slot, used) ↦ next_available_key_free flows random i P h.1 (ground arith)
]

requested-IsWf :
    (flows : List (ℕ × FlowSlot)) (n k sender : ℕ)
    → IsWf flows n
    → IsWf (insert k (requested sender) flows) n
requested-IsWf flows n k sender w = record {
  below = λ i d e. ground (arith, at i, w.below i d);
  apart = λ i j d e p q c. ground (arith, at i, at j, w.apart i j d e);
  own = λ i c d e p. ground (arith, at i, w.own i c d);
}
  where
    at :
        (i : ℕ)
        → lookup i (insert k (requested sender) flows)
          ≡ (if k == i then some (requested sender) else lookup i flows)
    at i = lookup-insert k i (requested sender) flows

request_stream-IsGood :
    (env : Env) (s : Task) (key sender port : ℕ) (host : List ℕ)
    → IsGood s
    → IsGood (request_stream env s key sender host port).1
unfolding request_stream
request_stream-IsGood env s key sender port host w = by_open env.frame_open refl
  where
    by_open : (o : Bool) → env.frame_open ≡ o → IsGood (request_stream env s key sender host port).1
    by_open true q = rw (q, request_stream) (requested-IsWf s.flows s.next_cell key sender w)
    by_open false q = rw (q, request_stream) (requested-IsWf s.flows s.next_cell key sender w)

after_wait-IsGood :
    (w : Option (Option MuxStream) × Task) (retry : Task → Poll (Result Error MuxStream) × Task)
    → IsGood w.1
    → ((t : Task) → IsGood t → IsGood (retry t).1)
    → IsGood (after_wait w retry).1
unfolding after_wait
after_wait-IsGood (none, s) retry g h = g
after_wait-IsGood (some (some stream), s) retry g h = g
after_wait-IsGood (some none, s) retry g h = h s g

after_request-IsGood :
    (wait : Task → Option (Option MuxStream) × Task) (r : Result Error (Unit {0}) × Task)
    (retry : Task → Poll (Result Error MuxStream) × Task)
    → IsGood r.1
    → ((t : Task) → IsGood t → IsGood (wait t).1)
    → ((t : Task) → IsGood t → IsGood (retry t).1)
    → IsGood (after_request wait r retry).1
unfolding after_request
after_request-IsGood wait (err e, s) retry g k h = g
after_request-IsGood wait (ok u, s) retry g k h = after_wait-IsGood (wait s) retry (k s g) h

-- Opening a stream, with all its retries, keeps the map of flows well formed where what the task
-- does meanwhile does.
pub new_stream_channel-IsGood :
    (attempts : ℕ → Attempt) (host : List ℕ) (port retries : ℕ) (s : Task)
    → ((r : ℕ) (t : Task) → IsGood t → IsGood ((attempts r).wait t).1)
    → IsGood s
    → IsGood (new_stream_channel attempts host port retries s).1
unfolding new_stream_channel
new_stream_channel-IsGood attempts host port zero s k g = g
new_stream_channel-IsGood attempts host port (suc r) s k g =
    let a = attempts r in
    elim (Option-cases (next_available_key s.flows a.random)) [
      | inl looking ↦ rw (looking, new_stream_channel) g
      | inr (key, found) ↦
          rw (found, new_stream_channel)
            (after_request-IsGood a.wait (request_stream a.env s key a.sender host port) _
              (request_stream-IsGood a.env s key a.sender port host g) (k r)
              (λ t h. new_stream_channel-IsGood attempts host port r t k h))
    ]

-- The answer that gave the stream, or the retry that did.
Given :
    (Task → Option (Option MuxStream) × Task)
    → (Task → Poll (Result Error MuxStream) × Task)
    → MuxStream
    → Type 0
Given wait retry stream =
    ((t : Task) × ((wait t).0 ≡ some (some stream)))
    ⊎ ((t : Task) × ((retry t).0 ≡ ready (ok stream)))

module _ (wait : Task → Option (Option MuxStream) × Task)
    (retry : Task → Poll (Result Error MuxStream) × Task) (stream : MuxStream) where
  after_wait-Given :
      (t : Task) (w : Option (Option MuxStream) × Task)
      → wait t ≡ w
      → (after_wait w retry).0 ≡ ready (ok stream)
      → Given wait retry stream
  unfolding after_wait Given
  after_wait-Given t (none, s) q e = cc e
  after_wait-Given t (some (some got), s) q e = inl (t, ground arith)
  after_wait-Given t (some none, s) q e = inr (s, e)

  after_request-Given :
      (r : Result Error (Unit {0}) × Task)
      → (after_request wait r retry).0 ≡ ready (ok stream)
      → Given wait retry stream
  unfolding after_request
  after_request-Given (err x, s) e = cc e
  after_request-Given (ok u, s) e = after_wait-Given s (wait s) refl e

-- A stream is returned only from an answer to one of the allowed number of requests.
pub new_stream_channel_source :
    (attempts : ℕ → Attempt) (host : List ℕ) (port retries : ℕ) (s : Task) (stream : MuxStream)
    → (new_stream_channel attempts host port retries s).0 ≡ ready (ok stream)
    → (r : ℕ) × (t : Task) × (r < retries) × (((attempts r).wait t).0 ≡ some (some stream))
unfolding new_stream_channel Given
new_stream_channel_source attempts host port zero s stream e = cc e
new_stream_channel_source attempts host port (suc r) s stream e =
    elim (Option-cases (next_available_key s.flows (attempts r).random)) [
      | inl looking ↦ cc (e, round_looking looking)
      | inr (key, found) ↦
          elim (after_request-Given (attempts r).wait _ stream _
            (sym (ap (λ x. x.0) (round_found key found)) ∙ e)) [
              | inl (t, q) ↦ (r, t, omega arith, q)
              | inr (t, q) ↦
                  let (r', t', low, given) =
                    new_stream_channel_source attempts host port r t stream q in
                  (r', t', omega arith, given)
            ]
    ]
  where
    round_looking :
        next_available_key s.flows (attempts r).random ≡ none
        → new_stream_channel attempts host port (suc r) s ≡ (pending, s)
    round_looking q = rw (q, new_stream_channel)

    round_found :
        (key : ℕ)
        → next_available_key s.flows (attempts r).random ≡ some key
        → new_stream_channel attempts host port (suc r) s
          ≡ after_request
              (attempts r).wait
              (request_stream (attempts r).env s key (attempts r).sender host port)
              (λ s'. new_stream_channel attempts host port r s')
    round_found key q = rw (q, new_stream_channel)
