-- ===== src/Client/MainLoop/Retries.antt =====
-- src/client/mod.rs: when the client gives up, and how long it waits before each new attempt.
use penguin_rs.Base.{
  ℕ, zero, suc, ◌+◌, ◌*◌, ◌^◌, ◌<◌, min, ◌≡◌, refl, ap, ◌∙◌, inl, inr, List, [], ◌∷◌, ◌++◌, map,
  length, All, Bool, true, false, Option, none, some, if◌then◌else◌, ok, err, arith, subst,
}
use native.Mathlib.Nat.{pow-succ'}
use penguin_rs.Mux.Timing.{
  Backoff, new_backoff, advance, reset_backoff, advance_cases, stepped, clamp, duration_limit,
}
use penguin_rs.Client.Errors.{Error, Tungstenite, retryable, max_retry_count_reached}
use penguin_rs.Client.Session.{
  Session, timed_out, Flow, continues, returned, waited, emit, on_connected,
}
use penguin_rs.Client.MainLoop.{
  Round, Main, Run, finished, client_backoff, reset_if_failed, after_handshake, after_advance,
  after_round, main_future,
}

-- A delay that doubles at each attempt, from the `k`th on, clamped to the largest.
abbrev pub doubled : ℕ → ℕ → ℕ → List ℕ
doubled k zero max = []
doubled k (suc n) max = min (200000000 * 2 ^ k) max ∷ doubled (suc k) n max

-- A session whose log goes on with these waits.
abbrev pub with_waits : {Addr : Type 0} → Session Addr → List ℕ → Session Addr
with_waits s [] = s
with_waits s (d ∷ ds) = with_waits (record s { log = s.log ++ waited d ∷ [] }) ds

next_delay :
    (current max k : ℕ)
    → min current max ≡ min (200000000 * 2 ^ k) max
    → min (min current max * 2) max ≡ min (200000000 * 2 ^ suc k) max
next_delay current max k h =
    ap (λ t. min (t * 2) max) h
    ∙ (clamp (200000000 * 2 ^ k) max 2 ∙ ap (λ t. min t max) (omega (arith, pow-succ' 2 k)))

next_step :
    (b : Backoff) (k : ℕ)
    → b.mult ≡ 2
    → min b.current b.max ≡ min (200000000 * 2 ^ k) b.max
    → min (stepped b).current b.max ≡ min (200000000 * 2 ^ suc k) b.max
next_step b k two now =
    ap (λ t. min (min b.current b.max * t) b.max) two ∙ next_delay b.current b.max k now

module _ {E : Type 0} ⦃ws : Tungstenite E⦄ where
  -- The client does not end with an error that can be retried.
  Settled : Run E → Type 0
  Settled (finished (err e)) = retryable e ≡ false
  Settled r = Unit

module _ {E Addr : Type 0} ⦃ws : Tungstenite E⦄ where
  -- A round whose handshake fails.
  abbrev pub refused : Error E → Round E Addr
  refused e = record {
    handshake = err e;
    new_stream_channel = λ host port. timed_out;
    events = [];
    ctrl_c = false;
  }

  gives_up :
      (errors : List (Error E)) (last : Error E) (more : List (Round E Addr)) (b : Backoff)
      (s : Session Addr) (k : ℕ)
      → b.mult ≡ 2
      → b.max * b.mult < duration_limit
      → b.max_count < 2 ^ 32
      → 0 < b.max_count
      → b.max_count ≡ b.count + length errors
      → min b.current b.max ≡ min (200000000 * 2 ^ k) b.max
      → All (λ e. retryable e ≡ true) errors
      → retryable last ≡ true
      → (m : Main Addr) × (main_future
            (map refused errors ++ refused last ∷ more)
            (record { backoff = b; session = s })
          ≡ (finished (err (max_retry_count_reached last)), m))
        × (m.session ≡ with_waits s (doubled k (length errors) b.max))
  unfolding main_future after_handshake after_round after_advance emit
  gives_up [] last more b s k two fits small pos counted now h l = elim (advance_cases b fits) [
    | inl (go, e) ↦ absurd (ground arith)
    | inr (stop, e) ↦ (record { backoff = b; session = s }, rw (l, e) refl, refl)
  ]
  gives_up (x ∷ errors) last more b s k two fits small pos counted now (hx, h) l =
      elim (advance_cases b fits) [
        | inl (go, e) ↦
            let s' : Session Addr = record s { log = s.log ++ waited (min b.current b.max) ∷ [] } in
            let (m, q, w) =
              gives_up errors last more (stepped b) s' (suc k) two fits small pos (ground arith)
                (next_step b k two now) h l in
            (
              m,
              rw (hx, e) q,
              w
                  ∙ ap
                      (λ d.
                        with_waits (record s { log = s.log ++ waited d ∷ [] })
                          (doubled (suc k) (length errors) b.max))
                      now,
            )
        | inr (stop, e) ↦ absurd (ground arith)
      ]

  -- Where every handshake fails with an error that can be retried, and the user does not interrupt,
  -- the client gives up after exactly the allowed number of retries, with the error of the last
  -- handshake. Before the retries it waited 200 milliseconds, then twice as long each time, at most
  -- the allowed interval.
  pub main_future_gives_up :
      (max_retry_interval max_retry_count : ℕ) (s : Session Addr) (errors : List (Error E))
      (last : Error E) (more : List (Round E Addr))
      → 0 < max_retry_count
      → max_retry_count < 2 ^ 32
      → max_retry_interval < 2 ^ 64
      → length errors ≡ max_retry_count
      → All (λ e. retryable e ≡ true) errors
      → retryable last ≡ true
      → (m : Main Addr) × (main_future
            (map refused errors ++ refused last ∷ more)
            (record { backoff = client_backoff max_retry_interval max_retry_count; session = s })
          ≡ (finished (err (max_retry_count_reached last)), m))
        × (m.session ≡ with_waits s (doubled 0 max_retry_count (max_retry_interval * 1000000)))
  unfolding client_backoff new_backoff
  main_future_gives_up interval count s errors last more pos small low len h l =
      let (m, q, w) =
        gives_up errors last more (client_backoff interval count) s 0 refl (omega arith) small pos
          (omega (arith, len)) refl h l in
      (m, q, w ∙ ap (λ n. with_waits s (doubled 0 n (interval * 1000000))) len)

  -- An error after there was a connection never makes the client give up, however often it retried
  -- before: where the error can be retried and the user does not interrupt, the loop goes on after
  -- the initial wait.
  pub main_future_reconnects :
      (round : Round E Addr) (rounds : List (Round E Addr)) (m : Main Addr) (s : Session Addr)
      (e : Error E)
      → m.backoff.max * m.backoff.mult < duration_limit
      → round.handshake ≡ ok tt
      → round.ctrl_c ≡ false
      → on_connected round.new_stream_channel round.events m.session ≡ (returned (err e), s)
      → retryable e ≡ true
      → main_future (round ∷ rounds) m
        ≡ main_future rounds (record {
          backoff = stepped (reset_backoff m.backoff);
          session = record s { log = s.log ++ waited (min m.backoff.initial m.backoff.max) ∷ [] };
        })
  unfolding main_future after_handshake after_round after_advance emit reset_if_failed reset_backoff
  main_future_reconnects round rounds m s e fits connected on failed again =
      elim (advance_cases (reset_backoff m.backoff) fits) [
        | inl (go, q) ↦ rw (connected, on, failed, again, q) refl
        | inr (stop, q) ↦ absurd (ground arith)
      ]

  after_advance-Settled :
      (e : Error E) (stop : Bool) (next_delay : Option (Option ℕ × Backoff)) (m : Main Addr)
      (next : Main Addr → Run E × Main Addr)
      → ((m' : Main Addr) → Settled (next m').0)
      → Settled (after_advance e stop next_delay m next).0
  unfolding after_advance Settled retryable
  after_advance-Settled e stop none m next h = tt
  after_advance-Settled e stop (some (none, b)) m next h = refl
  after_advance-Settled e true (some (some d, b)) m next h = refl
  after_advance-Settled e false (some (some d, b)) m next h = h _

  after_round-Settled :
      (stop : Bool) (r : Flow E × Main Addr) (next : Main Addr → Run E × Main Addr)
      → ((m' : Main Addr) → Settled (next m').0)
      → Settled (after_round stop r next).0
  unfolding after_round Settled
  after_round-Settled stop (continues, m) next h = tt
  after_round-Settled stop (returned (ok u), m) next h = tt
  after_round-Settled stop (returned (err e), m) next h = by_test (retryable e) refl
    where
      by_test :
          (t : Bool)
          → retryable e ≡ t
          → Settled
              (if t
                then after_advance e stop (advance m.backoff) m next
                else (finished (err e), m)).0
      by_test true q = after_advance-Settled e stop (advance m.backoff) m next h
      by_test false q = q

  main_future-Settled :
      (rounds : List (Round E Addr)) (m : Main Addr) → Settled (main_future rounds m).0
  unfolding main_future Settled
  main_future-Settled [] m = tt
  main_future-Settled (round ∷ rounds) m =
      after_round-Settled round.ctrl_c (after_handshake round.handshake round m)
        (main_future rounds) (main_future-Settled rounds)

  -- The client never ends with an error that could be retried: it retries it, or reports that the
  -- retries are used up or that the user interrupted.
  pub main_future_retries :
      (rounds : List (Round E Addr)) (m : Main Addr) (e : Error E)
      → (main_future rounds m).0 ≡ finished (err e)
      → retryable e ≡ false
  unfolding Settled
  main_future_retries rounds m e q = subst Settled q (main_future-Settled rounds m)
