-- ===== src/Remote/Total.antt =====
-- src/parse_remote.rs: the parser ends on every text, and where it panics.
use penguin_rs.Base.{
  ℕ, suc, ◌≡◌, refl, ◌≢◌, List, [], ◌∷◌, ◌++◌, Bool, true, false, if◌then◌else◌, length, arith,
  Result, ok, err, ◌>>=◌, Option-cases, inl, inr,
}
use penguin_rs.Remote.Str.{
  Text, rsplit_once, starts_with, is_text, IsFreeOf, rsplit_once-none, split_once_at, to_lowercase,
}
use penguin_rs.Remote.Ports.{parse_u16}
use penguin_rs.Remote.{
  Protocol, tcp, udp, LocalSpec, RemoteSpec, Failure, failed, panicked, out_of_fuel, Error, failing,
  socks_word, stdio_word, tcp_word, udp_word, tokenize_round, tokenize_from, tokenize_remote,
  protocol_from_str, parse_port, from_tokens, check_socks, split_protocol, from_str,
}
use penguin_rs.Remote.Tokens.{enough_fuel}

abbrev Ends : {A : Type 0} → Result Failure A → Type 0
Ends r = r ≢ err out_of_fuel

bind-Ends :
    {A B : Type 0} (r : Result Failure A) (f : A → Result Failure B)
    → Ends r
    → ((a : A) → Ends (f a))
    → Ends (r >>= f)
bind-Ends (ok a) f h k q = k a q
bind-Ends (err e) f h k q = h (cc q)

ok-Ends : {A : Type 0} (a : A) → Ends {A = A} (ok a)
ok-Ends a e = cc e

failed-Ends : {A : Type 0} (e : Error) → Ends {A = A} (err (failed e))
failed-Ends e q = cc q

parse_port-Ends : (s : Text) → Ends (parse_port s)
parse_port-Ends s = by_result (parse_u16 s) refl
  where
    by_result : (r : Result _ ℕ) → parse_u16 s ≡ r → Ends (parse_port s)
    by_result (ok n) q e = ground arith
    by_result (err n) q e = ground arith

if-Ends :
    {A : Type 0} (b : Bool) (r t : Result Failure A) → Ends r → Ends t → Ends (if b then r else t)
if-Ends true r t h k = h
if-Ends false r t h k = k

-- A port makes a part of the result.
port-Ends :
    {A B : Type 0} (s : Text) (f : ℕ → A) (k : A → Result Failure B)
    → ((a : A) → Ends (k a))
    → Ends ((parse_port s >>= λ n. ok (f n)) >>= k)
port-Ends s f k h = bind-Ends _ k (bind-Ends _ _ (parse_port-Ends s) (λ n. ok-Ends (f n))) h

from_tokens-Ends : (v6 : Bool) (ts : List Text) → Ends (from_tokens v6 ts)
unfolding from_tokens
from_tokens-Ends v6 [] = failed-Ends _
from_tokens-Ends v6 (a ∷ []) =
    if-Ends _ _ _ (ok-Ends _) (port-Ends a _ _ (λ l. port-Ends a _ _ (λ r. ok-Ends _)))
from_tokens-Ends v6 (a ∷ b ∷ []) =
    if-Ends _ _ _ (if-Ends _ _ _ (ok-Ends _) (port-Ends a _ _ (λ l. ok-Ends _))) (
      if-Ends _ _ _ (port-Ends b _ _ (λ r. ok-Ends _))
        (port-Ends b _ _ (λ l. port-Ends b _ _ (λ r. ok-Ends _))))
from_tokens-Ends v6 (a ∷ b ∷ c ∷ []) =
    if-Ends (is_text a stdio_word) _ _ (port-Ends c _ _ (λ r. ok-Ends _)) (
      if-Ends (is_text c socks_word) _ _ (port-Ends b _ _ (λ l. ok-Ends _))
        (port-Ends a _ _ (λ l. port-Ends c _ _ (λ r. ok-Ends _))))
from_tokens-Ends v6 (a ∷ b ∷ c ∷ d ∷ []) = port-Ends b _ _ (λ l. port-Ends d _ _ (λ r. ok-Ends _))
from_tokens-Ends v6 (a ∷ b ∷ c ∷ d ∷ f ∷ ts) = failed-Ends _

check_socks-Ends : (l : LocalSpec) (r : RemoteSpec) (p : Protocol) → Ends (check_socks (l, r) p)
unfolding check_socks
check_socks-Ends l (RemoteSpec.inet h n) p e = cc e
check_socks-Ends l RemoteSpec.socks tcp e = cc e
check_socks-Ends l RemoteSpec.socks udp e = ground arith

protocol-Ends : (s : Text) → Ends (protocol_from_str s)
unfolding protocol_from_str
protocol-Ends s =
    if-Ends (is_text (to_lowercase s) tcp_word) _ _ (ok-Ends _)
      (if-Ends (is_text (to_lowercase s) udp_word) _ _ (ok-Ends _) (failed-Ends _))

split_protocol-Ends : (s : Text) → Ends (split_protocol s)
unfolding split_protocol
split_protocol-Ends s = elim (Option-cases (rsplit_once b'/' s)) [
  | inl gone ↦ rw (gone, split_protocol) (ok-Ends _)
  | inr ((rest, p), there) ↦
      rw (there, split_protocol) (bind-Ends _ _ (protocol-Ends p) (λ q. ok-Ends _))
]

-- The parser gives a remote, an error or a panic for every text: its loop never runs out of fuel.
pub from_str_ends : (v6 : Bool) (s : Text) → from_str v6 s ≢ err out_of_fuel
unfolding from_str tokenize_remote
from_str_ends v6 s = bind-Ends _ _ (split_protocol-Ends s) (λ (rest, p).
    bind-Ends _ _ (enough_fuel (suc (length rest)) rest (omega arith))
      (λ ts. bind-Ends _ _ (from_tokens-Ends v6 ts) (λ (l, r). check_socks-Ends l r p)))

append_free : (c x : ℕ) (s : Text) → x ≢ c → IsFreeOf c s → IsFreeOf c (s ++ (x ∷ []))
append_free c x [] ne k = (ne, tt)
append_free c x (y ∷ s) ne k = (k.0, append_free c x s ne k.1)

without_protocol : (s : Text) → IsFreeOf b'/' s → split_protocol s ≡ ok (s, tcp)
unfolding split_protocol
without_protocol s h = rw (rsplit_once-none b'/' s h, split_protocol)

lone_bracket_round :
    (h : Text) → IsFreeOf b']' h → tokenize_round ((b'[' ∷ h) ++ (b']' ∷ [])) ≡ failing panicked
unfolding tokenize_round starts_with
lone_bracket_round h free = rw (split_once_at b']' (b'[' ∷ h) [] (omega arith, free))

lone_bracket_tokens :
    (h : Text) → IsFreeOf b']' h → tokenize_remote ((b'[' ∷ h) ++ (b']' ∷ [])) ≡ err panicked
unfolding tokenize_remote tokenize_from
lone_bracket_tokens h free = rw (lone_bracket_round h free, tokenize_from)

-- A bracketed host with nothing behind it, such as `[::1]`, makes the parser panic, where the
-- host holds no `]` and no `/`.
pub lone_bracket_panics :
    (v6 : Bool) (h : Text)
    → IsFreeOf b']' h
    → IsFreeOf b'/' h
    → from_str v6 ((b'[' ∷ h) ++ (b']' ∷ [])) ≡ err panicked
unfolding from_str
lone_bracket_panics v6 h no_bracket no_slash = rw (
  without_protocol ((b'[' ∷ h) ++ (b']' ∷ []))
      (append_free b'/' b']' (b'[' ∷ h) (omega arith) (omega arith, no_slash)),
  lone_bracket_tokens h no_bracket,
)
