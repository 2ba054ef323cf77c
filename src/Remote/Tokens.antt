-- ===== src/Remote/Tokens.antt =====
-- The loop of `tokenize_remote` of src/parse_remote.rs: it ends, and what it makes of the parts of
-- a printed remote.
use penguin_rs.Base.{
  ℕ, zero, suc, ◌<◌, ◌≡◌, refl, ap, ◌∙◌, ◌≢◌, List, [], ◌∷◌, ◌++◌, Bool, true, false, not,
  if◌then◌else◌, length, take, arith, ok, err, length-append, append_assoc, take-append_length,
  Bool-cases, Option-cases, inl, inr,
}
use penguin_rs.Remote.Str.{
  Text, split_once, starts_with, contains, IsFreeOf, split_once_at, split_once-none,
  split_once_shorter, ends_with-append, contains-eq-false,
}
use penguin_rs.Remote.{
  Round, last, failing, more, Failure, out_of_fuel, tokenize_round, tokenize_from, tokenize_remote,
  remove_brackets, show_host,
}

round_shorter : (s t rest : Text) → tokenize_round s ≡ more t rest → length rest < length s
unfolding tokenize_round
round_shorter s t rest e = elim (Bool-cases (starts_with b'[' s)) [
  | inl open_bracket ↦ elim (Option-cases (split_once b']' s)) [
    | inl gone ↦ ground (arith, gone)
    | inr ((before, after), there) ↦
        ground (arith, there, split_once_shorter b']' s before after there)
  ]
  | inr no_bracket ↦ elim (Option-cases (split_once b':' s)) [
    | inl gone ↦ ground (arith, gone)
    | inr ((before, after), there) ↦
        ground (arith, there, split_once_shorter b':' s before after there)
  ]
]

round_fails : (s : Text) (e : Failure) → tokenize_round s ≡ failing e → e ≢ out_of_fuel
unfolding tokenize_round
round_fails s e h q = elim (Option-cases (split_once b']' s)) [
  | inl gone ↦ ground arith
  | inr ((before, after), there) ↦ ground arith
]

pub enough_fuel : (fuel : ℕ) (s : Text) → length s < fuel → tokenize_from fuel s ≢ err out_of_fuel
unfolding tokenize_from
enough_fuel zero s h e = omega arith
enough_fuel (suc fuel) s h e =
    by_round (tokenize_round s) refl (λ rest k. enough_fuel fuel rest k) e
  where
    by_round :
        (r : Round)
        → tokenize_round s ≡ r
        → ((rest : Text) → length rest < fuel → tokenize_from fuel rest ≢ err out_of_fuel)
        → tokenize_from (suc fuel) s ≢ err out_of_fuel
    by_round (last t) q ih e = ground arith
    by_round (failing f) q ih e = ground (arith, round_fails s f q)
    by_round (more t rest) q ih e =
        ground (arith, ih rest (omega (arith, round_shorter s t rest q)))

-- The tokens of a text, round by round.
pub data Tokens : Text → List Text → Type 0 where
  one : {s t : Text} → tokenize_round s ≡ last t → Tokens s (t ∷ [])
  cons :
      {s t rest : Text} {ts : List Text}
      → tokenize_round s ≡ more t rest
      → Tokens rest ts
      → Tokens s (t ∷ ts)

tokenize_from_lem :
    (fuel : ℕ) {s : Text} {ts : List Text}
    → length s < fuel
    → Tokens s ts
    → tokenize_from fuel s ≡ ok ts
unfolding tokenize_from
tokenize_from_lem zero h k = absurd (omega arith)
tokenize_from_lem (suc fuel) h (one e) = rw (e, tokenize_from)
tokenize_from_lem (suc fuel) {s} h (cons {t = t} {rest = rest} e k) =
    rw (e, tokenize_from) (rw (tokenize_from_lem fuel (omega (arith, round_shorter s t rest e)) k))

pub tokenize_remote_lem : {s : Text} {ts : List Text} → Tokens s ts → tokenize_remote s ≡ ok ts
unfolding tokenize_remote
tokenize_remote_lem {s} k = tokenize_from_lem (suc (length s)) (omega arith) k

-- A host that the printer's brackets can carry.
abbrev pub host_ok : Text → Bool
host_ok h = if contains b':' h then not (contains b']' h) else not (starts_with b'[' h)

starts_with-append :
    (c x : ℕ) (t rest : Text)
    → x ≢ c
    → starts_with c t ≡ false
    → starts_with c (t ++ (x ∷ rest)) ≡ false
unfolding starts_with
starts_with-append c x [] rest ne h = ground arith
starts_with-append c x (y ∷ t) rest ne h = h

pub plain_round :
    (t rest : Text)
    → IsFreeOf b':' t
    → starts_with b'[' t ≡ false
    → tokenize_round (t ++ (b':' ∷ rest)) ≡ more t rest
unfolding tokenize_round
plain_round t rest h k =
    rw (starts_with-append b'[' b':' t rest (omega arith) k, split_once_at b':' t rest h)

pub last_round :
    (t : Text) → IsFreeOf b':' t → starts_with b'[' t ≡ false → tokenize_round t ≡ last t
unfolding tokenize_round
last_round t h k = rw (k, split_once-none b':' t h)

bracket_round :
    (h rest : Text)
    → IsFreeOf b']' h
    → tokenize_round (((b'[' ∷ h) ++ (b']' ∷ [])) ++ (b':' ∷ rest))
      ≡ more ((b'[' ∷ h) ++ (b']' ∷ [])) rest
unfolding tokenize_round starts_with
bracket_round h rest free =
    rw
      (
        append_assoc (b'[' ∷ h) (b']' ∷ []) (b':' ∷ rest),
        split_once_at b']' (b'[' ∷ h) (b':' ∷ rest) (omega arith, free),
      )
      refl

pub host_round :
    (h rest : Text)
    → host_ok h ≡ true
    → tokenize_round (show_host h ++ (b':' ∷ rest)) ≡ more (show_host h) rest
unfolding show_host
host_round h rest k = elim (Bool-cases (contains b':' h)) [
  | inl colon ↦ rw colon (bracket_round h rest (contains-eq-false b']' h (ground arith)))
  | inr none_there ↦
      rw none_there (plain_round h rest (contains-eq-false b':' h none_there) (ground arith))
]

unbracket : (h : Text) → remove_brackets ((b'[' ∷ h) ++ (b']' ∷ [])) ≡ h
unfolding remove_brackets starts_with
unbracket h =
    rw (ends_with-append b']' (b'[' ∷ h), length-append h (b']' ∷ []))
      (ap (λ n. take n (h ++ (b']' ∷ []))) (omega arith) ∙ take-append_length h (b']' ∷ []))

pub remove_brackets-show_host : (h : Text) → host_ok h ≡ true → remove_brackets (show_host h) ≡ h
unfolding show_host
remove_brackets-show_host h k = elim (Bool-cases (contains b':' h)) [
  | inl colon ↦ rw colon (unbracket h)
  | inr none_there ↦ rw none_there (unfold remove_brackets in ground arith)
]
