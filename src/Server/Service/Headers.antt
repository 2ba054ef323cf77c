-- ===== src/Server/Service/Headers.antt =====
-- src/server/service.rs: what the test of the four fixed headers comes to.
use penguin_rs.Base.{
  ℕ, ◌+◌, ◌≤◌, ◌==◌, ◌&&◌, subst, ◌≡◌, refl, ◌↔◌, ◌⊎◌, [], ◌∷◌, Bool, true, Option, none, some,
  arith,
}
use penguin_rs.Server.Service.{
  Text, to_ascii_lowercase, eq_ignore_ascii_case, header_matches, connection, upgrade,
  sec_websocket_version, sec_websocket_protocol, upgrade_text, websocket_text, websocket_version,
  wanted_protocol, Request, Http, headers_match,
}

-- Two letters that differ at most in their case, and texts of such letters.
abbrev pub SameLetter : ℕ → ℕ → Type 0
SameLetter x y =
    (x ≡ y) ⊎ (((b'A' ≤ x) × (x ≤ b'Z') × (y ≡ x + 32)) ⊎ ((b'A' ≤ y) × (y ≤ b'Z') × (x ≡ y + 32)))

abbrev pub SameLetters : Text → Text → Type 0
SameLetters [] [] = Unit
SameLetters [] (y ∷ ys) = ⊥
SameLetters (x ∷ xs) [] = ⊥
SameLetters (x ∷ xs) (y ∷ ys) = SameLetter x y × SameLetters xs ys

-- A header that is there, with this value in whatever case.
abbrev pub Reads : Option Text → Text → Type 0
Reads found wanted = (given : Text) × (found ≡ some given) × SameLetters given wanted

and_iff : (a b : Bool) → (a && b ≡ true) ↔ ((a ≡ true) × (b ≡ true))
and_iff a b = ground arith

to_ascii_lowercase_iff :
    (x y : ℕ) → (to_ascii_lowercase x == to_ascii_lowercase y ≡ true) ↔ SameLetter x y
unfolding to_ascii_lowercase
to_ascii_lowercase_iff x y = ground arith

eq_ignore_ascii_case_iff : (s t : Text) → (eq_ignore_ascii_case s t ≡ true) ↔ SameLetters s t
unfolding eq_ignore_ascii_case
eq_ignore_ascii_case_iff [] [] = (λ e. tt, λ e. refl)
eq_ignore_ascii_case_iff [] (y ∷ ys) = (λ e. cc e, λ e. absurd e)
eq_ignore_ascii_case_iff (x ∷ xs) [] = (λ e. cc e, λ e. absurd e)
eq_ignore_ascii_case_iff (x ∷ xs) (y ∷ ys) =
    let letter = to_ascii_lowercase_iff x y in
    let letters = eq_ignore_ascii_case_iff xs ys in
    let both = and_iff _ _ in
    (
      λ e. (letter.0 (both.0 e).0, letters.0 (both.0 e).1),
      λ e. both.1 (letter.1 e.0, letters.1 e.1),
    )

header_matches_iff :
    (found : Option Text) (wanted : Text)
    → (header_matches found wanted ≡ true) ↔ Reads found wanted
unfolding header_matches
header_matches_iff none wanted = (λ e. cc e, λ (given, q, same). cc q)
header_matches_iff (some given) wanted =
    let same = eq_ignore_ascii_case_iff given wanted in
    (
      λ e. (given, refl, same.0 e),
      λ (other, q, letters). same.1 (subst (λ t. SameLetters t wanted) (cc q) letters),
    )

-- The four headers with a fixed value, whatever the case of their letters.
abbrev pub HasHeaders : Request → Type 0
HasHeaders req =
    Reads (req.headers connection) upgrade_text
    × Reads (req.headers upgrade) websocket_text
    × Reads (req.headers sec_websocket_version) websocket_version
    × Reads (req.headers sec_websocket_protocol) wanted_protocol

pub headers_match_iff :
    (crates : Http) (req : Request) → (headers_match crates req ≡ true) ↔ HasHeaders req
unfolding headers_match
headers_match_iff crates req =
    let c = header_matches_iff (req.headers connection) upgrade_text in
    let u = header_matches_iff (req.headers upgrade) websocket_text in
    let v = header_matches_iff (req.headers sec_websocket_version) websocket_version in
    let p = header_matches_iff (req.headers sec_websocket_protocol) wanted_protocol in
    let first = and_iff _ _ in
    let second = and_iff _ _ in
    let third = and_iff _ _ in
    (
      λ e.
          let (e₀, e₁) = first.0 e in
          let (e₂, e₃) = second.0 e₁ in
          let (e₄, e₅) = third.0 e₃ in (c.0 e₀, u.0 e₂, v.0 e₄, p.0 e₅),
      λ (h₀, h₁, h₂, h₃). first.1 (c.1 h₀, second.1 (u.1 h₁, third.1 (v.1 h₂, p.1 h₃))),
    )
