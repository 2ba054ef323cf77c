-- ===== src/Socks/Reader.antt =====
-- Reads over lists of bytes, as the documentation of `tokio` has them: the `AsyncRead` that the
-- concrete runs of src/client/handle_remote/socks use.
use penguin_rs.Base.{
  ℕ, ◌+◌, ◌*◌, ◌^◌, ◌≡◌, refl, ◌≢◌, List, [], ◌∷◌, ◌++◌, Option, none, some, if◌then◌else◌, ◌==◌,
  leb, length, take, drop, All, arith, take-append_length, drop-append_length, length-append,
}
use penguin_rs.Socks.Io.{AsyncRead}

abbrev pub u8_of : List ℕ → Option (ℕ × List ℕ)
u8_of [] = none
u8_of (x ∷ rest) = some (x, rest)

abbrev pub u16_of : List ℕ → Option (ℕ × List ℕ)
u16_of (x ∷ y ∷ rest) = some (x * 256 + y, rest)
u16_of _ = none

abbrev pub u32_of : List ℕ → Option (ℕ × List ℕ)
u32_of (x ∷ y ∷ z ∷ w ∷ rest) = some (x * 2 ^ 24 + y * 2 ^ 16 + z * 2 ^ 8 + w, rest)
u32_of _ = none

abbrev pub exact_of : ℕ → List ℕ → Option (List ℕ × List ℕ)
exact_of n xs = if leb n (length xs) then some (take n xs, drop n xs) else none

abbrev pub until_of : ℕ → List ℕ → List ℕ × List ℕ
until_of d [] = ([], [])
until_of d (x ∷ xs) =
    let (front, rest) = until_of d xs in if x == d then (x ∷ [], xs) else (x ∷ front, rest)

pub exact_of-append : (xs rest : List ℕ) → exact_of (length xs) (xs ++ rest) ≡ some (xs, rest)
exact_of-append xs rest =
    rw (take-append_length xs rest, drop-append_length xs rest)
      (ground (arith, length-append xs rest))

pub until_of-append :
    (d : ℕ) (xs rest : List ℕ)
    → All (λ x. x ≢ d) xs
    → until_of d (xs ++ (d ∷ rest)) ≡ (xs ++ (d ∷ []), rest)
until_of-append d [] rest h = ground arith
until_of-append d (x ∷ xs) rest h = ground (arith, h.0, until_of-append d xs rest h.1)

pub until_of-end : (d : ℕ) (xs : List ℕ) → All (λ x. x ≢ d) xs → until_of d xs ≡ (xs, [])
until_of-end d [] h = refl
until_of-end d (x ∷ xs) h = ground (arith, h.0, until_of-end d xs h.1)

abbrev pub reader : AsyncRead
reader = record {
  next_u8 = u8_of;
  next_u16 = u16_of;
  next_u32 = u32_of;
  next_exact = exact_of;
  next_until = until_of;
  next_u8_lem = λ x rest. refl;
  next_u16_lem = λ x y rest. refl;
  next_u32_lem = λ x y z w rest. refl;
  next_exact_lem = exact_of-append;
  next_until_lem = until_of-append;
  next_until_end = until_of-end;
}
