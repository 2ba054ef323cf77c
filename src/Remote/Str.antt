-- ===== src/Remote/Str.antt =====
-- Text as the list of its UTF-8 bytes, with what src/parse_remote.rs uses of `str`. The separators
-- are ASCII, so a cut at one of them never falls inside a character.
use penguin_rs.Base.{
  ℕ, ◌+◌, ◌<◌, ◌≡◌, refl, ◌≢◌, List, [], ◌∷◌, ◌++◌, Bool, true, false, ◌&&◌, ◌||◌, Option, none,
  some, if◌then◌else◌, ◌==◌, length, All, arith, Option-cases, inl, inr, leb,
}

abbrev pub Text : Type 0
Text = List ℕ

abbrev prepend : ℕ → Option (Text × Text) → Option (Text × Text)
prepend x none = none
prepend x (some (before, after)) = some (x ∷ before, after)

-- Cut at the first, or the last, place where the byte stands.
unfoldable pub split_once : ℕ → Text → Option (Text × Text)
split_once c [] = none
split_once c (x ∷ xs) =
    let found = prepend x (split_once c xs) in if x == c then some ([], xs) else found

abbrev last_or : ℕ → ℕ → Text → Option (Text × Text) → Option (Text × Text)
last_or c x xs (some (before, after)) = some (x ∷ before, after)
last_or c x xs none = if x == c then some ([], xs) else none

unfoldable pub rsplit_once : ℕ → Text → Option (Text × Text)
rsplit_once c [] = none
rsplit_once c (x ∷ xs) = last_or c x xs (rsplit_once c xs)

unfoldable pub starts_with : ℕ → Text → Bool
starts_with c [] = false
starts_with c (x ∷ xs) = x == c

unfoldable pub ends_with : ℕ → Text → Bool
ends_with c [] = false
ends_with c (x ∷ []) = x == c
ends_with c (x ∷ y ∷ xs) = ends_with c (y ∷ xs)

unfoldable pub contains : ℕ → Text → Bool
contains c [] = false
contains c (x ∷ xs) = x == c || contains c xs

unfoldable pub is_text : Text → Text → Bool
is_text [] [] = true
is_text [] (y ∷ ys) = false
is_text (x ∷ xs) [] = false
is_text (x ∷ xs) (y ∷ ys) = x == y && is_text xs ys

-- `to_lowercase`, as far as ASCII goes: no other character becomes an ASCII letter of `tcp` or `udp`.
unfoldable pub to_lowercase : Text → Text
to_lowercase [] = []
to_lowercase (x ∷ xs) = (if leb b'A' x && leb x b'Z' then x + 32 else x) ∷ to_lowercase xs

abbrev pub IsFreeOf : ℕ → Text → Type 0
IsFreeOf c = All (λ x. x ≢ c)

pub split_once_at :
    (c : ℕ) (xs ys : Text) → IsFreeOf c xs → split_once c (xs ++ (c ∷ ys)) ≡ some (xs, ys)
unfolding split_once
split_once_at c [] ys h = ground arith
split_once_at c (x ∷ xs) ys h = ground (arith, h.0, split_once_at c xs ys h.1)

pub split_once-none : (c : ℕ) (xs : Text) → IsFreeOf c xs → split_once c xs ≡ none
unfolding split_once
split_once-none c [] h = refl
split_once-none c (x ∷ xs) h = ground (arith, h.0, split_once-none c xs h.1)

pub rsplit_once-none : (c : ℕ) (xs : Text) → IsFreeOf c xs → rsplit_once c xs ≡ none
unfolding rsplit_once
rsplit_once-none c [] h = refl
rsplit_once-none c (x ∷ xs) h = ground (arith, h.0, rsplit_once-none c xs h.1)

pub rsplit_once_at :
    (c : ℕ) (xs ys : Text) → IsFreeOf c ys → rsplit_once c (xs ++ (c ∷ ys)) ≡ some (xs, ys)
unfolding rsplit_once
rsplit_once_at c [] ys h = rw (rsplit_once-none c ys h) (ground arith)
rsplit_once_at c (x ∷ xs) ys h = rw (rsplit_once_at c xs ys h)

pub contains-eq-false : (c : ℕ) (xs : Text) → contains c xs ≡ false → IsFreeOf c xs
unfolding contains
contains-eq-false c [] h = tt
contains-eq-false c (x ∷ xs) h = (ground arith, contains-eq-false c xs (ground arith))

pub ends_with-append : (c : ℕ) (xs : Text) → ends_with c (xs ++ (c ∷ [])) ≡ true
unfolding ends_with
ends_with-append c [] = ground arith
ends_with-append c (x ∷ []) = ground arith
ends_with-append c (x ∷ y ∷ xs) = ends_with-append c (y ∷ xs)

pub is_text-eq-true : (xs ys : Text) → is_text xs ys ≡ true → xs ≡ ys
unfolding is_text
is_text-eq-true [] [] h = refl
is_text-eq-true [] (y ∷ ys) h = cc h
is_text-eq-true (x ∷ xs) [] h = cc h
is_text-eq-true (x ∷ xs) (y ∷ ys) h = ground (arith, is_text-eq-true xs ys)

-- The rest behind a cut is shorter.
pub split_once_shorter :
    (c : ℕ) (s before after : Text)
    → split_once c s ≡ some (before, after)
    → length after < length s
unfolding split_once
split_once_shorter c [] before after e = cc e
split_once_shorter c (x ∷ xs) before after e = elim (Option-cases (split_once c xs)) [
  | inl gone ↦ ground (arith, gone)
  | inr ((b, a), there) ↦ ground (arith, there, split_once_shorter c xs b a there)
]
