-- ===== src/Arg.antt =====
-- src/arg.rs: the values of the command line that have parsers of their own, `ServerUrl`,
-- `BackendUrl` and `Header`.
--
-- Text is a list of UTF-8 bytes (Remote/Str). The crate `http` is the interface `Http`: its URIs, of
-- which the parts are text, and the names and values of headers. Errors of the crate are numbers.
pub mod Urls
pub mod Headers
mod Examples
use penguin_rs.Base.{
  ℕ, ◌≡◌, List, [], ◌∷◌, ◌++◌, Bool, true, false, not, ◌&&◌, ◌||◌, Option, none, some, Result, ok,
  err, ◌>>=◌, if◌then◌else◌, ◌==◌, leb,
}
use penguin_rs.Remote.Str.{Text, split_once, is_text}

pub record Parts : Type 0 where
  pub scheme : Option Text
  pub authority : Option Text
  pub path_and_query : Option Text

abbrev pub full : Text → Text → Text → Parts
full scheme authority path = record {
  scheme = some scheme;
  authority = some authority;
  path_and_query = some path;
}

-- How a URI with all its parts is printed.
abbrev pub separator : Text
separator = b':' ∷ b'/' ∷ b'/' ∷ []

abbrev pub printed : Text → Text → Text → Text
printed scheme authority path = scheme ++ (separator ++ (authority ++ path))

pub record Http : Type 1 where
  pub Uri : Type 0
  pub HeaderName : Type 0
  pub HeaderValue : Type 0
  pub from_str : Text → Result ℕ Uri
  pub into_parts : Uri → Parts
  pub to_string : Uri → Text
  -- `Uri::builder` with these three parts.
  pub build : Text → Text → Text → Result ℕ Uri
  pub header_name : Text → Result ℕ HeaderName
  pub header_value : Text → Result ℕ HeaderValue
  -- A URI that was built has the parts that were given, is printed with them, and is read back.
  pub into_parts-build :
      (scheme authority path : Text) (u : Uri)
      → build scheme authority path ≡ ok u
      → into_parts u ≡ full scheme authority path
  pub to_string-build :
      (scheme authority path : Text) (u : Uri)
      → build scheme authority path ≡ ok u
      → to_string u ≡ printed scheme authority path
  pub from_str-to_string :
      (scheme authority path : Text) (u : Uri)
      → build scheme authority path ≡ ok u
      → from_str (to_string u) ≡ ok u

abbrev pub http : Text
http = b'h' ∷ b't' ∷ b't' ∷ b'p' ∷ []

abbrev pub https : Text
https = b'h' ∷ b't' ∷ b't' ∷ b'p' ∷ b's' ∷ []

abbrev pub ws : Text
ws = b'w' ∷ b's' ∷ []

abbrev pub wss : Text
wss = b'w' ∷ b's' ∷ b's' ∷ []

abbrev pub slash : Text
slash = b'/' ∷ []

abbrev pub unwrap_or : Option Text → Text → Text
unwrap_or none default = default
unwrap_or (some t) default = t

unfoldable pub has_prefix : Text → Text → Bool
has_prefix [] s = true
has_prefix (c ∷ cs) [] = false
has_prefix (c ∷ cs) (x ∷ xs) = c == x && has_prefix cs xs

pub data ServerUrlError : Type 0 where
  url_parse build_url : ℕ → ServerUrlError
  incorrect_scheme : Text → ServerUrlError
  missing_host : ServerUrlError

pub data BackendUrlError : Type 0 where
  url_parse : ℕ → BackendUrlError
  missing_authority : BackendUrlError
  invalid_scheme : Text → BackendUrlError

pub data HeaderError : Type 0 where
  value name : ℕ → HeaderError
  format : Text → HeaderError

pub record BackendUrl : Type 0 where
  pub scheme : Text
  pub authority : Text
  pub path : Text

-- The scheme for a WebSocket.
unfoldable pub new_scheme : Text → Result ServerUrlError Text
unfolding is_text
new_scheme old_scheme =
    if is_text old_scheme http || is_text old_scheme ws
    then ok ws
    else if is_text old_scheme https || is_text old_scheme wss
    then ok wss
    else err (incorrect_scheme old_scheme)

unfoldable pub ok_or {ℓ} : {E : Type 0} {A : Type ℓ} → E → Option A → Result E A
ok_or e none = err e
ok_or e (some a) = ok a

-- The `?` that turns an error of the crate into one of the parser.
unfoldable pub or_error : {E A : Type 0} → (ℕ → E) → Result ℕ A → Result E A
or_error kind (err e) = err (kind e)
or_error kind (ok a) = ok a

-- Whether the text starts like a URL with one of the schemes.
unfoldable pub has_scheme : Text → Bool
unfolding has_prefix
has_scheme url =
    has_prefix (http ++ separator) url
    || (has_prefix (https ++ separator) url
        || (has_prefix (ws ++ separator) url || has_prefix (wss ++ separator) url))

module _ (crate : Http) where
  open crate use {
    Uri, HeaderName, HeaderValue, from_str, into_parts, build, header_name, header_value,
  }

  unfoldable pub parts_or_retry :
      Text → Result ℕ Uri → Result ServerUrlError Uri → Result ServerUrlError Parts
  parts_or_retry url (ok u) again = ok (into_parts u)
  parts_or_retry url (err e) again =
      if has_scheme url then err (ServerUrlError.url_parse e) else do u ← again; ok (into_parts u)

  -- A text that is no URI is tried again with a scheme in front, if it has none.
  unfoldable pub url_parts : Text → Result ServerUrlError Parts
  unfolding parts_or_retry or_error
  url_parts url =
      parts_or_retry url (from_str url)
        (or_error ServerUrlError.url_parse (from_str ((ws ++ separator) ++ url)))

  unfoldable pub server_url_of : Parts → Result ServerUrlError Uri
  unfolding ok_or or_error
  server_url_of parts = do
    scheme ← new_scheme (unwrap_or parts.scheme http)
    authority ← ok_or missing_host parts.authority
    or_error build_url (build scheme authority (unwrap_or parts.path_and_query slash))

  unfoldable pub server_url_from_str : Text → Result ServerUrlError Uri
  unfolding url_parts server_url_of
  server_url_from_str url = do parts ← url_parts url; server_url_of parts

  unfoldable pub checked_scheme : Text → Result BackendUrlError Text
  unfolding is_text
  checked_scheme scheme =
      if not (is_text scheme http) && not (is_text scheme https)
      then err (invalid_scheme scheme)
      else ok scheme

  unfoldable pub backend_url_from_str : Text → Result BackendUrlError BackendUrl
  unfolding checked_scheme ok_or or_error
  backend_url_from_str url = do
    u ← or_error BackendUrlError.url_parse (from_str url)
    scheme ← checked_scheme (unwrap_or (into_parts u).scheme http)
    authority ← ok_or missing_authority (into_parts u).authority
    ok (record {
      scheme = scheme;
      authority = authority;
      path = unwrap_or (into_parts u).path_and_query slash;
    })

unfoldable pub fmt_backend_url : BackendUrl → Text
fmt_backend_url self = printed self.scheme self.authority self.path
