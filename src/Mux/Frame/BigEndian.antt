-- ===== src/Mux/Frame/BigEndian.antt =====
-- Integers in network order over lists of bytes: a `Buf` as the `bytes` crate documents it, which
-- the concrete runs of src/mux/frame.rs use.
use penguin_rs.Base.{
  ℕ, ◌+◌, ◌*◌, ◌/◌, ◌%◌, ◌≤◌, ◌<◌, ◌^◌, ◌≡◌, refl, List, [], ◌∷◌, ◌++◌, length, arith, take, drop,
  take-append_length, drop-append_length, All, ap,
}
use penguin_rs.Mux.Frame.{Buf, IsByte}

abbrev pub read_u8 : List ℕ → ℕ × List ℕ
read_u8 [] = (0, [])
read_u8 (x ∷ rest) = (x, rest)

abbrev pub read_u16 : List ℕ → ℕ × List ℕ
read_u16 (x ∷ y ∷ rest) = (x * 256 + y, rest)
read_u16 _ = (0, [])

abbrev pub read_u32 : List ℕ → ℕ × List ℕ
read_u32 (x ∷ y ∷ z ∷ w ∷ rest) = (x * 2 ^ 24 + y * 2 ^ 16 + z * 2 ^ 8 + w, rest)
read_u32 _ = (0, [])

abbrev pub bytes_u16 : ℕ → List ℕ
bytes_u16 x = x / 256 % 256 ∷ x % 256 ∷ []

abbrev pub bytes_u32 : ℕ → List ℕ
bytes_u32 x = x / 2 ^ 24 % 256 ∷ x / 2 ^ 16 % 256 ∷ x / 2 ^ 8 % 256 ∷ x % 256 ∷ []

pub read_u16_lem : (x : ℕ) (rest : List ℕ) → x < 2 ^ 16 → read_u16 (bytes_u16 x ++ rest) ≡ (x, rest)
read_u16_lem x rest h = ap (λ n. (n, rest)) (omega arith)

pub read_u32_lem : (x : ℕ) (rest : List ℕ) → x < 2 ^ 32 → read_u32 (bytes_u32 x ++ rest) ≡ (x, rest)
read_u32_lem x rest h = ap (λ n. (n, rest)) (omega arith)

pub bytes_u16_lem :
    (bs : List ℕ)
    → 2 ≤ length bs
    → All IsByte bs
    → (bs ≡ bytes_u16 (read_u16 bs).0 ++ (read_u16 bs).1) × ((read_u16 bs).0 < 2 ^ 16)
bytes_u16_lem [] n h = absurd (omega arith)
bytes_u16_lem (x ∷ []) n h = absurd (omega arith)
bytes_u16_lem (x ∷ y ∷ rest) n h = ground arith

pub bytes_u32_lem :
    (bs : List ℕ)
    → 4 ≤ length bs
    → All IsByte bs
    → (bs ≡ bytes_u32 (read_u32 bs).0 ++ (read_u32 bs).1) × ((read_u32 bs).0 < 2 ^ 32)
bytes_u32_lem [] n h = absurd (omega arith)
bytes_u32_lem (x ∷ []) n h = absurd (omega arith)
bytes_u32_lem (x ∷ y ∷ []) n h = absurd (omega arith)
bytes_u32_lem (x ∷ y ∷ z ∷ []) n h = absurd (omega arith)
bytes_u32_lem (x ∷ y ∷ z ∷ w ∷ rest) n h = ground arith

pub split_lem :
    (xs ys : List ℕ)
    → ◌≡◌ {A = List ℕ × List ℕ} (take (length xs) (xs ++ ys), drop (length xs) (xs ++ ys)) (xs, ys)
split_lem xs ys = ground (arith, take-append_length xs ys, drop-append_length xs ys)

abbrev pub big_endian : Buf
big_endian = record {
  get_u8 = read_u8;
  get_u16 = read_u16;
  get_u32 = read_u32;
  split_to = λ n bs. (take n bs, drop n bs);
  put_u8 = λ dst x. dst ++ (x ∷ []);
  put_u16 = λ dst x. dst ++ bytes_u16 x;
  put_u32 = λ dst x. dst ++ bytes_u32 x;
  be_u16 = bytes_u16;
  be_u32 = bytes_u32;
  get_u8_lem = λ x rest. refl;
  get_u16-be_u16 = read_u16_lem;
  get_u32-be_u32 = read_u32_lem;
  split_to_lem = split_lem;
  put_u8_lem = λ dst x. refl;
  put_u16_lem = λ dst x. refl;
  put_u32_lem = λ dst x. refl;
  length-be_u16 = λ x. refl;
  length-be_u32 = λ x. refl;
  be_u16-get_u16 = bytes_u16_lem;
  be_u32-get_u32 = bytes_u32_lem;
}
