-- ===== src/Remote/Ports.antt =====
-- A port number: `u16::from_str` and `Display for u16`, which src/parse_remote.rs uses.
use penguin_rs.Base.{
  ℕ, zero, suc, ◌+◌, ◌-◌, ◌*◌, ◌/◌, ◌%◌, ◌≤◌, ◌<◌, ◌^◌, ◌≡◌, refl, ◌∙◌, ◌≢◌, [], ◌∷◌, ◌++◌, false,
  ◌&&◌, if◌then◌else◌, ◌==◌, leb, ltb, All, arith, Result, ok, err, ◌>>=◌, Bool-cases, ◌⊎◌, inl,
  inr,
}
use penguin_rs.Remote.Str.{Text, IsFreeOf, starts_with}

pub data ParseIntError : Type 0 where
  empty invalid_digit pos_overflow : ParseIntError

digits : ℕ → Text → Result ParseIntError ℕ
digits n [] = ok n
digits n (c ∷ cs) =
    let rest = digits (n * 10 + (c - b'0')) cs in
    if leb b'0' c && leb c b'9'
    then (if ltb (n * 10 + (c - b'0')) (2 ^ 16) then rest else err pos_overflow)
    else err invalid_digit

-- A sign `+` is allowed before the digits.
after_sign : Text → Result ParseIntError ℕ
unfolding digits
after_sign [] = err invalid_digit
after_sign (c ∷ cs) = digits 0 (c ∷ cs)

unfoldable pub parse_u16 : Text → Result ParseIntError ℕ
unfolding digits after_sign
parse_u16 [] = err empty
parse_u16 (c ∷ cs) = if c == b'+' then after_sign cs else digits 0 (c ∷ cs)

-- In base ten, with at most one digit more than the fuel.
show_digits : ℕ → ℕ → Text
show_digits zero n = (b'0' + n % 10) ∷ []
show_digits (suc fuel) n =
    let front = show_digits fuel (n / 10) in
    if ltb n 10 then (b'0' + n) ∷ [] else front ++ ((b'0' + n % 10) ∷ [])

unfoldable pub show_u16 : ℕ → Text
unfolding show_digits
show_u16 n = show_digits 4 n

IsDigits : Text → Type 0
IsDigits = All (λ c. (b'0' ≤ c) × (c ≤ b'9'))

All-append : (xs ys : Text) → IsDigits xs → IsDigits ys → IsDigits (xs ++ ys)
unfolding IsDigits
All-append [] ys h k = k
All-append (x ∷ xs) ys h k = (h.0, All-append xs ys h.1 k)

show_digits-IsDigits : (fuel n : ℕ) → IsDigits (show_digits fuel n)
unfolding show_digits IsDigits
show_digits-IsDigits zero n = ((omega arith, omega arith), tt)
show_digits-IsDigits (suc fuel) n = elim (Bool-cases (ltb n 10)) [
  | inl small ↦ rw small ((omega arith, ground arith), tt)
  | inr large ↦ rw large (
      All-append (show_digits fuel (n / 10)) ((b'0' + n % 10) ∷ [])
        (show_digits-IsDigits fuel (n / 10)) ((omega arith, omega arith), tt))
]

digits-append : (n : ℕ) (xs ys : Text) → digits n (xs ++ ys) ≡ (digits n xs >>= λ m. digits m ys)
unfolding digits
digits-append n [] ys = refl
digits-append n (x ∷ xs) ys = ground (arith, digits-append (n * 10 + (x - b'0')) xs ys)

abbrev limit : ℕ → ℕ
limit zero = 10
limit (suc fuel) = 10 * limit fuel

digits-show_digits :
    (fuel n : ℕ) → n < limit fuel → n < 2 ^ 16 → digits 0 (show_digits fuel n) ≡ ok n
unfolding digits show_digits
digits-show_digits zero n h k = ground arith
digits-show_digits (suc fuel) n h k = elim (Bool-cases (ltb n 10)) [
  | inl small ↦ ground arith
  | inr large ↦
      rw
        (
          large,
          digits-append 0 (show_digits fuel (n / 10)) ((b'0' + n % 10) ∷ []),
          digits-show_digits fuel (n / 10) (omega arith) (omega arith),
        )
        (ground arith)
]

no_sign : (s : Text) → IsDigits s → s ≢ [] → parse_u16 s ≡ digits 0 s
unfolding parse_u16 IsDigits
no_sign [] h ne = absurd (ne refl)
no_sign (c ∷ cs) h ne = ground (arith, h.0)

append-ne-nil : (xs : Text) (y : ℕ) → xs ++ (y ∷ []) ≢ []
append-ne-nil [] y e = cc e
append-ne-nil (x ∷ xs) y e = cc e

show_digits-ne-nil : (fuel n : ℕ) → show_digits fuel n ≢ []
unfolding show_digits
show_digits-ne-nil zero n e = cc e
show_digits-ne-nil (suc fuel) n e =
    ground (arith, append-ne-nil (show_digits fuel (n / 10)) (b'0' + n % 10))

-- A port number is read back from its digits.
pub parse_u16-show_u16 : (n : ℕ) → n < 2 ^ 16 → parse_u16 (show_u16 n) ≡ ok n
unfolding show_u16
parse_u16-show_u16 n h =
    no_sign (show_digits 4 n) (show_digits-IsDigits 4 n) (show_digits-ne-nil 4 n)
    ∙ digits-show_digits 4 n (omega arith) h

digits_free : (c : ℕ) (s : Text) → c < b'0' ⊎ b'9' < c → IsDigits s → IsFreeOf c s
unfolding IsDigits
digits_free c [] o h = tt
digits_free c (x ∷ xs) o h = (omega (arith, h.0), digits_free c xs o h.1)

-- The digits of a port are no separators.
pub show_u16_free : (c n : ℕ) → c < b'0' ⊎ b'9' < c → IsFreeOf c (show_u16 n)
unfolding show_u16
show_u16_free c n o = digits_free c (show_digits 4 n) o (show_digits-IsDigits 4 n)

starts_digit : (s : Text) → IsDigits s → starts_with b'[' s ≡ false
unfolding IsDigits starts_with
starts_digit [] h = refl
starts_digit (c ∷ cs) h = ground (arith, h.0)

pub show_u16-starts : (n : ℕ) → starts_with b'[' (show_u16 n) ≡ false
unfolding show_u16
show_u16-starts n = starts_digit (show_digits 4 n) (show_digits-IsDigits 4 n)
