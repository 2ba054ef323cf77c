-- ===== src/Arg/Examples.antt =====
-- A small model of the URIs of the crate `http`, and the theorems at concrete inputs.
use penguin_rs.Base.{
  ℕ, ◌≡◌, refl, ap, ◌∙◌, inl, [], ◌∷◌, ◌++◌, Bool, not, ◌||◌, Option, none, some, Result, ok, err,
  if◌then◌else◌, ◌==◌, drop, arith,
}
use penguin_rs.Remote.Str.{
  Text, IsFreeOf, contains, contains-eq-false, split_once, split_once_at, is_text,
}
use penguin_rs.Arg.{
  Parts, full, printed, Http, https, wss, slash, unwrap_or, new_scheme, server_url_from_str,
}
use penguin_rs.Arg.Urls.{server_url_from_str_secure}
use penguin_rs.Arg.Headers.{header_from_str, header_of, spaces, trim, header_from_str_at}

after_authority : Text → Text → Option (Text × Text) → Result ℕ Parts
after_authority s rest none =
    ok (record { scheme = some s; authority = some rest; path_and_query = none })
after_authority s rest (some (a, p)) = ok (full s a (b'/' ∷ p))

after_scheme : Option (Text × Text) → Result ℕ Parts
unfolding after_authority
after_scheme none = err 0
after_scheme (some (s, rest)) = after_authority s (drop 2 rest) (split_once b'/' (drop 2 rest))

read_uri : Text → Result ℕ Parts
unfolding after_scheme
read_uri t = after_scheme (split_once b':' t)

refuses : Text → Text → ℕ → Bool
refuses s a c = contains b':' s || (contains b'/' a || not (c == b'/'))

build_uri : Text → Text → Text → Result ℕ Parts
unfolding refuses
build_uri s a [] = err 1
build_uri s a (c ∷ p) = if refuses s a c then err 1 else ok (full s a (c ∷ p))

print_uri : Parts → Text
print_uri u =
    printed (unwrap_or u.scheme []) (unwrap_or u.authority []) (unwrap_or u.path_and_query [])

build_uri-full : (s a p : Text) (u : Parts) → build_uri s a p ≡ ok u → u ≡ full s a p
unfolding build_uri
build_uri-full s a [] u h = absurd (cc h)
build_uri-full s a (c ∷ p) u h = ground arith

slashed : (s a : Text) (c : ℕ) (p : Text) (u : Parts) → build_uri s a (c ∷ p) ≡ ok u → c ≡ b'/'
unfolding build_uri refuses
slashed s a c p u h = ground arith

build_uri-free :
    (s a p : Text) (u : Parts)
    → build_uri s a p ≡ ok u
    → IsFreeOf b':' s × IsFreeOf b'/' a × ((q : Text) × (p ≡ b'/' ∷ q))
unfolding build_uri refuses
build_uri-free s a [] u h = absurd (cc h)
build_uri-free s a (c ∷ p) u h = (
  contains-eq-false b':' s (ground arith),
  contains-eq-false b'/' a (ground arith),
  (p, ap (λ t. t ∷ p) (slashed s a c p u h)),
)

read_uri-printed :
    (s a q : Text)
    → IsFreeOf b':' s
    → IsFreeOf b'/' a
    → read_uri (printed s a (b'/' ∷ q)) ≡ ok (full s a (b'/' ∷ q))
unfolding read_uri after_authority
read_uri-printed s a q hs ha =
    ap after_scheme (split_once_at b':' s (b'/' ∷ b'/' ∷ (a ++ (b'/' ∷ q))) hs)
    ∙ ap (after_authority s (a ++ (b'/' ∷ q))) (split_once_at b'/' a q ha)

read_uri-print_uri :
    (s a p : Text) (u : Parts) → build_uri s a p ≡ ok u → read_uri (print_uri u) ≡ ok u
unfolding print_uri
read_uri-print_uri s a p u h =
    let (hs, ha, (q, e)) = build_uri-free s a p u h in
    let whole : u ≡ full s a (b'/' ∷ q) = build_uri-full s a p u h ∙ ap (full s a) e in
    rw whole (read_uri-printed s a q hs ha)

print_uri-printed :
    (s a p : Text) (u : Parts) → build_uri s a p ≡ ok u → print_uri u ≡ printed s a p
unfolding print_uri
print_uri-printed s a p u h = rw (build_uri-full s a p u h) refl

abbrev crate : Http
crate = record {
  Uri = Parts;
  HeaderName = Text;
  HeaderValue = Text;
  from_str = read_uri;
  into_parts = λ u. u;
  to_string = print_uri;
  build = build_uri;
  header_name = λ t. ok t;
  header_value = λ t. ok t;
  into_parts-build = build_uri-full;
  to_string-build = print_uri-printed;
  from_str-to_string = read_uri-print_uri;
}

abbrev host : Text
host = b'h' ∷ []

abbrev url : Text
url = printed https host []

server_url_from_str_secure_example :
    ((full wss host slash).scheme ≡ some wss) × ((full wss host slash).authority ≡ some host)
unfolding server_url_from_str new_scheme is_text read_uri build_uri split_once contains
    after_authority
server_url_from_str_secure_example =
    server_url_from_str_secure crate url
      (record { scheme = some https; authority = some host; path_and_query = none })
      (full wss host slash) https refl refl (inl refl) refl

-- `x: a:b`
header_from_str_at_example :
    header_from_str crate ((b'x' ∷ []) ++ (b':' ∷ (spaces 1 ++ (b'a' ∷ b':' ∷ b'b' ∷ []))))
    ≡ header_of crate (b'x' ∷ []) (b'a' ∷ b':' ∷ b'b' ∷ [])
unfolding trim
header_from_str_at_example =
    header_from_str_at crate (b'x' ∷ []) (b'a' ∷ b':' ∷ b'b' ∷ []) 1 (omega arith) refl
