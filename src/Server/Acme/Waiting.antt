-- ===== src/Server/Acme/Waiting.antt =====
-- The wait for an order in `issue` of src/server/acme/mod.rs: it ends, and how.
use penguin_rs.Base.{
  ℕ, ◌+◌, ◌*◌, ◌^◌, ◌<◌, ◌≤◌, ◌≡◌, refl, ap, ◌≢◌, inl, inr, List, [], ◌∷◌, ◌++◌, true, false, none,
  some, Result, ok, err, min, length, arith, Bool-cases,
}
use penguin_rs.Mux.Timing.{
  Backoff, new_backoff, advance, advance_cases, stepped, allowed, duration_limit,
}
use penguin_rs.Server.Service.{Text}
use penguin_rs.Server.Acme.Helper.{
  OrderStatus, ready, invalid, other_order, instant_acme, order_invalid, Event,
}
use penguin_rs.Server.Acme.Helper.Cleanup.{created, removed}
use penguin_rs.Server.Acme.{
  Progress, waiting, panicked, finished, is_ready, after_refresh, on_refresh, wait_until_ready,
  order_backoff, max_order_retries,
}

abbrev pub HasEnded : {A : Type 0} → Progress A → Type 0
HasEnded waiting = ⊥
HasEnded panicked = ⊥
HasEnded (finished r) = Unit

-- A generator that cannot panic, and that gives none after `max_count` calls.
record IsBounded (b : Backoff) : Type 0 where
  fits : b.max * b.mult < duration_limit
  limited : b.max_count ≢ 0
  counts : b.max_count < 2 ^ 32

stepped-IsBounded : (b : Backoff) → IsBounded b → IsBounded (stepped b)
stepped-IsBounded b h = record { fits = h.fits; limited = h.limited; counts = h.counts }

order_backoff-IsBounded : IsBounded order_backoff
unfolding order_backoff new_backoff max_order_retries
order_backoff-IsBounded = record { fits = omega arith; limited = omega arith; counts = omega arith }

-- A round of the loop, whatever the answer and the generator say.
on_refresh-ends :
    (keys : List Text) (answer : Result ℕ OrderStatus) (b : Backoff)
    (next : OrderStatus → Backoff → Progress (Unit {0}) × List Event)
    → IsBounded b
    → (allowed b 0 ≡ true → (s : OrderStatus) → HasEnded (next s (stepped b)).0)
    → HasEnded (on_refresh keys answer (advance b) next).0
unfolding on_refresh after_refresh
on_refresh-ends keys (err e) b next h k = tt
on_refresh-ends keys (ok invalid) b next h k = tt
on_refresh-ends keys (ok ready) b next h k = elim (advance_cases b h.fits) [
  | inl (go, e) ↦ rw (e, after_refresh) (k go ready)
  | inr (stop, e) ↦ rw (e, after_refresh) tt
]
on_refresh-ends keys (ok (other_order n)) b next h k = elim (advance_cases b h.fits) [
  | inl (go, e) ↦ rw (e, after_refresh) (k go (other_order n))
  | inr (stop, e) ↦ rw (e, after_refresh) tt
]

ends_from :
    (keys : List Text) (status : OrderStatus) (answers : List (Result ℕ OrderStatus)) (b : Backoff)
    → IsBounded b
    → b.count ≤ b.max_count
    → b.max_count < b.count + length answers
    → HasEnded (wait_until_ready keys status answers b).0
unfolding wait_until_ready
ends_from keys status [] b h c l = absurd (omega arith)
ends_from keys status (answer ∷ answers) b h c l = elim (Bool-cases (is_ready status)) [
  | inl now ↦ rw now tt
  | inr later ↦ rw later (
      on_refresh-ends keys answer b (λ s b'. wait_until_ready keys s answers b') h
        (λ go s.
          ends_from keys s answers (stepped b) (stepped-IsBounded b h)
            (ground (arith, h.limited, h.counts)) (ground (arith, h.limited, h.counts))))
]

-- The wait for an order ends within eleven answers to its requests, whatever they are.
pub wait_until_ready_ends :
    (keys : List Text) (status : OrderStatus) (answers : List (Result ℕ OrderStatus))
    → 10 < length answers
    → HasEnded (wait_until_ready keys status answers order_backoff).0
unfolding order_backoff new_backoff max_order_retries
wait_until_ready_ends keys status answers l =
    ends_from keys status answers order_backoff order_backoff-IsBounded (omega arith) (omega arith)

-- The server answers with statuses that are neither ready nor invalid, and then that the order is ready.
abbrev pub others : List ℕ → List (Result ℕ OrderStatus)
others [] = []
others (n ∷ ns) = ok (other_order n) ∷ others ns

advance_goes :
    (b : Backoff)
    → IsBounded b
    → b.count < b.max_count
    → advance b ≡ some (some (min b.current b.max), stepped b)
advance_goes b h l = elim (advance_cases b h.fits) [
  | inl (go, e) ↦ e
  | inr (stop, e) ↦ absurd (ground (arith, h.limited))
]

advance_stops : (b : Backoff) → IsBounded b → b.count ≡ b.max_count → advance b ≡ some (none, b)
advance_stops b h l = elim (advance_cases b h.fits) [
  | inl (go, e) ↦ absurd (ground (arith, h.limited))
  | inr (stop, e) ↦ e
]

module _ (keys : List Text) (rest : List (Result ℕ OrderStatus)) where
  already_ready :
      (answers : List (Result ℕ OrderStatus)) (b : Backoff)
      → wait_until_ready keys ready answers b ≡ (finished (ok tt), [])
  unfolding wait_until_ready is_ready
  already_ready [] b = refl
  already_ready (answer ∷ answers) b = refl

  abbrev outcome : ℕ → List ℕ → Backoff → Progress (Unit {0})
  outcome n ns b = (wait_until_ready keys (other_order n) (others ns ++ ok ready ∷ rest) b).0

  in_time :
      (n : ℕ) (ns : List ℕ) (b : Backoff)
      → IsBounded b
      → b.count + length ns < b.max_count
      → outcome n ns b ≡ finished (ok tt)
  unfolding wait_until_ready on_refresh is_ready
  in_time n [] b h l =
      rw (advance_goes b h (omega arith), outcome, after_refresh)
        (ap (λ j. j.0) (already_ready rest (stepped b)))
  in_time n (m ∷ ns) b h l =
      rw (advance_goes b h (omega arith), outcome, after_refresh)
        (in_time m ns (stepped b) (stepped-IsBounded b h) (ground (arith, h.counts)))

  too_late :
      (n : ℕ) (ns : List ℕ) (b : Backoff)
      → IsBounded b
      → b.count + length ns ≡ b.max_count
      → outcome n ns b ≡ finished (err (order_invalid ready))
  unfolding wait_until_ready on_refresh is_ready
  too_late n [] b h l = rw (advance_stops b h (omega arith), outcome, after_refresh) refl
  too_late n (m ∷ ns) b h l =
      rw (advance_goes b h (omega arith), outcome, after_refresh)
        (too_late m ns (stepped b) (stepped-IsBounded b h) (ground (arith, h.counts)))

  -- An order that is found ready by one of the first ten requests is gone on with.
  pub wait_until_ready_in_time :
      (n : ℕ) (ns : List ℕ) → length ns < 10 → outcome n ns order_backoff ≡ finished (ok tt)
  unfolding order_backoff new_backoff max_order_retries
  wait_until_ready_in_time n ns l = in_time n ns order_backoff order_backoff-IsBounded (omega arith)

  -- An order that the eleventh request finds ready is given up, with an error that gives its status,
  -- which is ready.
  pub wait_until_ready_too_late :
      (n : ℕ) (ns : List ℕ)
      → length ns ≡ 10
      → outcome n ns order_backoff ≡ finished (err (order_invalid ready))
  unfolding order_backoff new_backoff max_order_retries
  wait_until_ready_too_late n ns l =
      too_late n ns order_backoff order_backoff-IsBounded (omega arith)

-- The wait ended by this error of the server, and called the helper for nothing.
abbrev pub HasFailed : ℕ → Progress (Unit {0}) × List Event → Type 0
HasFailed e (job, w) = (job ≡ finished (err (instant_acme e))) × (created w ≡ []) × (removed w ≡ [])

module _ (keys : List Text) (e : ℕ) (rest : List (Result ℕ OrderStatus)) where
  fails_from :
      (status : OrderStatus) (ns : List ℕ) (b : Backoff)
      → is_ready status ≡ false
      → IsBounded b
      → b.count + length ns ≤ b.max_count
      → HasFailed e (wait_until_ready keys status (others ns ++ err e ∷ rest) b)
  unfolding wait_until_ready on_refresh created removed
  fails_from status [] b s h l = rw s (refl, refl, refl)
  fails_from status (m ∷ ns) b s h l =
      let later =
        fails_from (other_order m) ns (stepped b) refl (stepped-IsBounded b h)
          (ground (arith, h.counts)) in
      rw (s, advance_goes b h (omega arith), after_refresh) later

  -- An error at one of the first eleven requests ends the wait, if the answers before it were neither
  -- ready nor invalid.
  pub wait_until_ready_fails :
      (status : OrderStatus) (ns : List ℕ)
      → is_ready status ≡ false
      → length ns ≤ 10
      → HasFailed e (wait_until_ready keys status (others ns ++ err e ∷ rest) order_backoff)
  unfolding order_backoff new_backoff max_order_retries
  wait_until_ready_fails status ns s l =
      fails_from status ns order_backoff s order_backoff-IsBounded (omega arith)
