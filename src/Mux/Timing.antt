-- ===== src/Mux/Timing.antt =====
-- src/mux/timing.rs: the exponential backoff. A duration is its number of nanoseconds; `none` of a
-- call stands for the panic of a product that is no `Duration`.
use native.Mathlib.Nat.{mul-le-mul_right, mul_assoc, mul-one, pow-zero, pow-succ'}
use penguin_rs.Base.{
  ℕ, zero, suc, ◌+◌, ◌*◌, ◌%◌, ◌^◌, ◌≤◌, ◌<◌, ◌≡◌, refl, sym, ap, ◌∙◌, ◌⊎◌, inl, inr, Bool, true,
  false, not, ◌&&◌, ◌||◌, Option, none, some, if◌then◌else◌, ◌==◌, ltb, leb, min, arith, Bool-cases,
}

pub record Backoff : Type 0 where
  pub initial : ℕ
  pub max : ℕ
  pub mult : ℕ
  pub max_count : ℕ
  pub current : ℕ
  pub count : ℕ

-- Seconds are a `u64`.
abbrev pub duration_limit : ℕ
duration_limit = 2 ^ 64 * 1000000000

unfoldable pub new_backoff : ℕ → ℕ → ℕ → ℕ → Backoff
new_backoff initial max mult max_count = record {
  initial = initial;
  max = max;
  mult = mult;
  max_count = max_count;
  current = initial;
  count = 0;
}

-- The counter is a `u32`, which wraps around in a release build.
unfoldable pub advance : Backoff → Option (Option ℕ × Backoff)
advance self =
    let old = min self.current self.max in
    if not (self.max_count == 0) && leb self.max_count self.count
    then some (none, self)
    else if ltb (old * self.mult) duration_limit
    then some
        (some old, record self { current = old * self.mult; count = (self.count + 1) % 2 ^ 32 })
    else none

unfoldable pub reset_backoff : Backoff → Backoff
reset_backoff self = record self { current = self.initial; count = 0 }

-- What the call gives after `k` earlier calls.
abbrev pub after : (Backoff → Option (Option ℕ)) → Option (Option ℕ × Backoff) → Option (Option ℕ)
after k none = none
after k (some (d, b)) = k b

abbrev pub delay_of : Option (Option ℕ × Backoff) → Option (Option ℕ)
delay_of none = none
delay_of (some (d, b)) = some d

abbrev pub delay : ℕ → Backoff → Option (Option ℕ)
delay zero b = delay_of (advance b)
delay (suc k) b = after (delay k) (advance b)

le_mul : (m p : ℕ) → m ≤ m * suc p
le_mul m p = omega arith

pub clamp : (a m p : ℕ) → min (min a m * p) m ≡ min (a * p) m
clamp a m zero = omega arith
clamp a m (suc p) = elim (Bool-cases (leb a m)) [
  | inl small ↦ let e : min a m ≡ a = ground arith in ap (λ t. min (t * suc p) m) e
  | inr large ↦
      let e : min a m ≡ m = ground arith in
      ap (λ t. min (t * suc p) m) e ∙ ground (arith, le_mul m p, le_mul a p)
]

fits : (a m p : ℕ) → m * p < duration_limit → min a m * p < duration_limit
fits a m p h =
    let bound : min a m * p ≤ m * p = mul-le-mul_right p (omega arith) in omega (arith, bound, h)

grown : (a m p k : ℕ) → min ((min a m * p) * p ^ k) m ≡ min (a * p ^ suc k) m
grown a m p k =
    ap (λ t. min t m) (mul_assoc (min a m) p (p ^ k))
    ∙ (clamp a m (p * p ^ k) ∙ ap (λ t. min (a * t) m) (sym (pow-succ' p k)))

-- Whether a call is still allowed after `k` more.
abbrev pub allowed : Backoff → ℕ → Bool
allowed b k = b.max_count == 0 || ltb (b.count + k) b.max_count

abbrev pub stepped : Backoff → Backoff
stepped b = record b { current = min b.current b.max * b.mult; count = (b.count + 1) % 2 ^ 32 }

pub advance_cases :
    (b : Backoff)
    → b.max * b.mult < duration_limit
    → ((allowed b 0 ≡ true) × (advance b ≡ some (some (min b.current b.max), stepped b)))
      ⊎ ((allowed b 0 ≡ false) × (advance b ≡ some (none, b)))
unfolding advance
advance_cases b h =
    let low = fits b.current b.max b.mult h in
    elim (Bool-cases (not (b.max_count == 0) && leb b.max_count b.count)) [
      | inl over ↦ inr (ground arith, ground arith)
      | inr going ↦ inl (ground arith, ground (arith, low))
    ]

delay_from :
    (k : ℕ) (b : Backoff)
    → b.max * b.mult < duration_limit
    → b.max_count < 2 ^ 32
    → (b.max_count ≡ 0) ⊎ (b.count ≤ b.max_count)
    → delay k b ≡ some (if allowed b k then some (min (b.current * b.mult ^ k) b.max) else none)
delay_from zero b h c o = elim (advance_cases b h) [
  | inl (go, e) ↦
      rw (e, go)
        (ap (λ t. some (some (min t b.max)))
          (sym (ap (λ t. b.current * t) (pow-zero b.mult) ∙ mul-one b.current)))
  | inr (stop, e) ↦ rw (e, stop) refl
]
delay_from (suc k) b h c o = elim (advance_cases b h) [
  | inl (go, e) ↦
      let same : allowed (stepped b) k ≡ allowed b (suc k) = ground arith in
      rw e (
        delay_from k (stepped b) h c (ground arith)
        ∙ (ap (λ t. some (if t then some (min ((stepped b).current * b.mult ^ k) b.max) else none))
              same
            ∙ ap (λ t. some (if allowed b (suc k) then some t else none))
                (grown b.current b.max b.mult k)))
  | inr (stop, e) ↦
      let now : allowed b k ≡ false = ground arith in
      let later : allowed b (suc k) ≡ false = ground arith in
      rw e (delay_from k b h c o ∙ rw (now, later) refl)
]

-- A new generator whose largest delay can still be multiplied gives, at each call, the initial delay
-- multiplied once for every earlier call and clamped to the maximum; after `max_count` calls it
-- gives none, or never where `max_count` is 0.
pub delay-new_backoff :
    (initial max mult max_count k : ℕ)
    → max * mult < duration_limit
    → max_count < 2 ^ 32
    → delay k (new_backoff initial max mult max_count)
      ≡ some
          (if max_count == 0 || ltb k max_count then some (min (initial * mult ^ k) max) else none)
unfolding new_backoff
delay-new_backoff initial max mult max_count k h c =
    delay_from k (new_backoff initial max mult max_count) h c (inr (omega arith))
    ∙ ap
        (λ n.
          some (
            if max_count == 0 || ltb n max_count
            then some (min (initial * mult ^ k) max)
            else none))
        (omega arith)
