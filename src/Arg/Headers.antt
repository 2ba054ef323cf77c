-- ===== src/Arg/Headers.antt =====
-- src/arg.rs: the parser of headers, `Header::from_str`, with `str::trim`.
use penguin_rs.Base.{
  ℕ, zero, suc, ◌≡◌, refl, ap, ◌∙◌, [], ◌∷◌, ◌++◌, Bool, true, false, ◌&&◌, ◌||◌, Option, none,
  some, Result, ok, err, ◌>>=◌, if◌then◌else◌, ◌==◌, leb,
}
use penguin_rs.Remote.Str.{Text, IsFreeOf, split_once, split_once_at, split_once-none}
use penguin_rs.Arg.{Http, HeaderError, format, or_error}

-- The white space of Unicode, whose characters have one to three bytes.
abbrev blank_1 : ℕ → Bool
blank_1 a = (leb 9 a && leb a 13) || a == 32

abbrev blank_2 : ℕ → ℕ → Bool
blank_2 a b = a == 0xc2 && (b == 0x85 || b == 0xa0)

abbrev blank_3 : ℕ → ℕ → ℕ → Bool
blank_3 a b c =
    (a == 0xe1 && (b == 0x9a && c == 0x80))
    || ((a == 0xe2
          && (b == 0x80 && ((leb 0x80 c && leb c 0x8a) || (c == 0xa8 || (c == 0xa9 || c == 0xaf)))))
        || ((a == 0xe2 && (b == 0x81 && c == 0x9f)) || (a == 0xe3 && (b == 0x80 && c == 0x80))))

unfoldable pub trim_start : Text → Text
trim_start [] = []
trim_start (a ∷ []) = if blank_1 a then [] else a ∷ []
trim_start (a ∷ b ∷ []) =
    let one = trim_start (b ∷ []) in
    if blank_1 a then one else if blank_2 a b then [] else a ∷ b ∷ []
trim_start (a ∷ b ∷ c ∷ s) =
    let one = trim_start (b ∷ c ∷ s) in
    let two = trim_start (c ∷ s) in
    let three = trim_start s in
    if blank_1 a
    then one
    else if blank_2 a b
    then two
    else if blank_3 a b c
    then three
    else a ∷ b ∷ c ∷ s

abbrev is_nil : Text → Bool
is_nil [] = true
is_nil (x ∷ xs) = false

-- A suffix that is white space only is dropped; no byte inside a character starts one.
unfoldable pub trim_end : Text → Text
unfolding trim_start
trim_end [] = []
trim_end (x ∷ xs) = let rest = trim_end xs in if is_nil (trim_start (x ∷ xs)) then [] else x ∷ rest

unfoldable pub trim : Text → Text
unfolding trim_start trim_end
trim s = trim_end (trim_start s)

module _ (crate : Http) where
  open crate use {HeaderName, HeaderValue, header_name, header_value}

  pub record Header : Type 0 where
    pub name : HeaderName
    pub value : HeaderValue

  abbrev pub header_of : Text → Text → Result HeaderError Header
  header_of name_text value_text = do
    n ← or_error HeaderError.name (header_name name_text)
    v ← or_error HeaderError.value (header_value value_text)
    ok (record { name = n; value = v })

  abbrev on_split : Text → Option (Text × Text) → Result HeaderError Header
  on_split s none = err (format s)
  on_split s (some (name_text, value_text)) = header_of name_text (trim value_text)

  unfoldable pub header_from_str : Text → Result HeaderError Header
  unfolding split_once or_error
  header_from_str s = on_split s (split_once b':' s)

abbrev pub spaces : ℕ → Text
spaces zero = []
spaces (suc n) = b' ' ∷ spaces n

trim_start_space : (s : Text) → trim_start (b' ' ∷ s) ≡ trim_start s
unfolding trim_start
trim_start_space [] = refl
trim_start_space (a ∷ []) = refl
trim_start_space (a ∷ b ∷ s) = refl

trim_start-spaces : (n : ℕ) (s : Text) → trim_start (spaces n ++ s) ≡ trim_start s
trim_start-spaces zero s = refl
trim_start-spaces (suc n) s = trim_start_space (spaces n ++ s) ∙ trim_start-spaces n s

-- A header is cut at its first colon: the name is what stands before it, and the value what stands
-- behind it, further colons included, without the spaces that follow the colon, if the value has no
-- other white space around it.
pub header_from_str_at :
    (crate : Http) (before v : Text) (n : ℕ)
    → IsFreeOf b':' before
    → trim v ≡ v
    → header_from_str crate (before ++ (b':' ∷ (spaces n ++ v))) ≡ header_of crate before v
unfolding header_from_str trim
header_from_str_at crate before v n free t =
    ap (on_split crate (before ++ (b':' ∷ (spaces n ++ v))))
      (split_once_at b':' before (spaces n ++ v) free)
    ∙ ap (header_of crate before) (ap trim_end (trim_start-spaces n v) ∙ t)

-- A text without a colon is no header: the error shows it.
pub header_from_str_format :
    (crate : Http) (s : Text) → IsFreeOf b':' s → header_from_str crate s ≡ err (format s)
unfolding header_from_str
header_from_str_format crate s free = ap (on_split crate s) (split_once-none b':' s free)
