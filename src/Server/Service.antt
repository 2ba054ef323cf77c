-- ===== src/Server/Service.antt =====
-- src/server/service.rs: how the server answers an HTTP request.
--
-- A text is a list of bytes. The crates `http`, `hyper`, `sha1` and `base64` are the interface
-- `Http`: building a URI, asking the backend, and hashing a key.
pub mod Access
pub mod Headers
pub mod Paths
use penguin_rs.Base.{
  ℕ, ◌+◌, List, [], ◌∷◌, ◌++◌, Bool, true, false, not, ◌&&◌, ◌||◌, Option, none, some, Result, ok,
  err, if◌then◌else◌, ◌==◌, ltb, leb, drop,
}

abbrev pub Text : Type 0
Text = List ℕ

unfoldable pub text_eq : Text → Text → Bool
text_eq [] [] = true
text_eq [] (y ∷ ys) = false
text_eq (x ∷ xs) [] = false
text_eq (x ∷ xs) (y ∷ ys) = x == y && text_eq xs ys

-- `u8::to_ascii_lowercase`, and `eq_ignore_ascii_case`.
unfoldable pub to_ascii_lowercase : ℕ → ℕ
to_ascii_lowercase c = if leb b'A' c && leb c b'Z' then c + 32 else c

unfoldable pub eq_ignore_ascii_case : Text → Text → Bool
unfolding to_ascii_lowercase
eq_ignore_ascii_case [] [] = true
eq_ignore_ascii_case [] (y ∷ ys) = false
eq_ignore_ascii_case (x ∷ xs) [] = false
eq_ignore_ascii_case (x ∷ xs) (y ∷ ys) =
    to_ascii_lowercase x == to_ascii_lowercase y && eq_ignore_ascii_case xs ys

-- The headers that the two ends look at, and any other.
pub data HeaderName : Type 0 where
  connection upgrade sec_websocket_key sec_websocket_protocol : HeaderName
  sec_websocket_version sec_websocket_accept x_penguin_psk host : HeaderName
  other_header : Text → HeaderName

pub data Method : Type 0 where
  get : Method
  other_method : Text → Method

pub record Request : Type 0 where
  pub method : Method
  pub path : Text
  pub path_and_query : Option Text
  pub headers : HeaderName → Option Text
  -- Whether `hyper` offers to hand over the connection.
  pub on_upgrade : Bool
  pub req_body : Text

pub record Response : Type 0 where
  pub status : ℕ
  pub resp_headers : List (HeaderName × Text)
  pub resp_body : Text

pub data Error : Type 0 where
  http client_or_body : Error

pub record BackendUrl : Type 0 where
  pub scheme : Text
  pub authority : Text
  pub backend_path : Text

pub record Http : Type 1 where
  pub Uri : Type 0
  pub build : Text → Text → Text → Option Uri
  pub exec_request : Uri → Request → Result Error Response
  pub accept_of : Text → Text

pub record State : Type 0 where
  pub backend : Option BackendUrl
  pub ws_psk : Option Text
  pub not_found_resp : Text
  pub obfs : Bool
  pub reverse : Bool

-- The answer, and whether a task takes the connection over as a WebSocket, with which setting.
abbrev pub Answer : Type 0
Answer = Result Error Response × Option Bool

abbrev pub wanted_protocol : Text
wanted_protocol = b'p' ∷ b'e' ∷ b'n' ∷ b'g' ∷ b'u' ∷ b'i' ∷ b'n' ∷ b'-' ∷ b'v' ∷ b'7' ∷ []

abbrev pub upgrade_text : Text
upgrade_text = b'u' ∷ b'p' ∷ b'g' ∷ b'r' ∷ b'a' ∷ b'd' ∷ b'e' ∷ []

abbrev pub websocket_text : Text
websocket_text = b'w' ∷ b'e' ∷ b'b' ∷ b's' ∷ b'o' ∷ b'c' ∷ b'k' ∷ b'e' ∷ b't' ∷ []

abbrev pub websocket_version : Text
websocket_version = b'1' ∷ b'3' ∷ []

-- The paths with an answer of their own.
abbrev pub health : Text
health = b'/' ∷ b'h' ∷ b'e' ∷ b'a' ∷ b'l' ∷ b't' ∷ b'h' ∷ []

abbrev pub version : Text
version = b'/' ∷ b'v' ∷ b'e' ∷ b'r' ∷ b's' ∷ b'i' ∷ b'o' ∷ b'n' ∷ []

abbrev pub ws : Text
ws = b'/' ∷ b'w' ∷ b's' ∷ []

unfoldable pub header_matches : Option Text → Text → Bool
unfolding eq_ignore_ascii_case
header_matches none wanted = false
header_matches (some given) wanted = eq_ignore_ascii_case given wanted

unfoldable pub option_eq : Option Text → Option Text → Bool
unfolding text_eq
option_eq none none = true
option_eq none (some y) = false
option_eq (some x) none = false
option_eq (some x) (some y) = text_eq x y

unfoldable pub not_found_handler : State → Result Error Response
not_found_handler self =
    ok (record { status = 404; resp_headers = []; resp_body = self.not_found_resp })

unfoldable pub ends_with_slash : Text → Bool
ends_with_slash [] = false
ends_with_slash (c ∷ []) = c == b'/'
ends_with_slash (c ∷ d ∷ cs) = ends_with_slash (d ∷ cs)

unfoldable pub starts_with_slash : Text → Bool
starts_with_slash [] = false
starts_with_slash (c ∷ cs) = c == b'/'

-- The path that the backend is asked for.
unfoldable pub new_path : Text → Text → Text
unfolding ends_with_slash starts_with_slash
new_path base_path req_path_query =
    if ends_with_slash base_path && starts_with_slash req_path_query
    then base_path ++ drop 1 req_path_query
    else base_path ++ req_path_query

-- `extensions_mut().remove::<OnUpgrade>()`: what is left of the request.
abbrev pub take_upgrade : Request → Request
take_upgrade req = record req { on_upgrade = false }

abbrev pub path_query_of : Request → Text
path_query_of req = elim req.path_and_query [ none ↦ req.path | some text ↦ text ]

module _ (crates : Http) where
  -- An error of the backend is answered by the page for what is not found.
  unfoldable pub or_not_found : State → Result Error Response → Result Error Response
  unfolding not_found_handler
  or_not_found self (ok response) = ok response
  or_not_found self (err e) = not_found_handler self

  proxied : State → Option crates.Uri → Request → Result Error Response
  unfolding or_not_found
  proxied self none req = err http
  proxied self (some uri) req = or_not_found self (crates.exec_request uri req)

  unfoldable pub backend_or_404_handler : State → Request → Result Error Response
  unfolding proxied new_path not_found_handler
  backend_or_404_handler self req = elim self.backend [
    | none ↦ not_found_handler self
    | some url ↦
        proxied self
          (crates.build url.scheme url.authority (new_path url.backend_path (path_query_of req)))
          req
  ]

  abbrev pub refuse : State → Request → Answer
  refuse self req = (backend_or_404_handler self req, none)

  switching_protocols : Text → Response
  switching_protocols key = record {
    status = 101;
    resp_headers =
        (connection, upgrade_text)
        ∷ (upgrade, websocket_text)
        ∷ (sec_websocket_protocol, wanted_protocol)
        ∷ (sec_websocket_accept, crates.accept_of key)
        ∷ [];
    resp_body = [];
  }

  -- The four headers with a fixed value.
  unfoldable pub headers_match : Request → Bool
  unfolding header_matches
  headers_match req =
      header_matches (req.headers connection) upgrade_text
      && (header_matches (req.headers upgrade) websocket_text
          && (header_matches (req.headers sec_websocket_version) websocket_version
              && header_matches (req.headers sec_websocket_protocol) wanted_protocol))

  -- The offer of the connection stands apart from the request, which goes on without it.
  unfoldable pub with_key : State → Request → Bool → Bool → Option Text → Answer
  unfolding headers_match switching_protocols
  with_key self req on_upgrade reverse none = refuse self req
  with_key self req on_upgrade reverse (some key) =
      if not (headers_match req)
      then refuse self req
      else if on_upgrade
      then (ok (switching_protocols key), some reverse)
      else refuse self req

  psk_refuses : State → Request → Bool
  unfolding option_eq
  psk_refuses self req = elim self.ws_psk [
    | none ↦ false
    | some psk ↦ not (option_eq (req.headers x_penguin_psk) (some psk))
  ]

  unfoldable pub ws_handler_for : Method → State → Request → Bool → Bool → Answer
  unfolding with_key psk_refuses
  ws_handler_for (other_method name) self req on_upgrade reverse = refuse self req
  ws_handler_for get self req on_upgrade reverse =
      if psk_refuses self req
      then refuse self req
      else with_key self req on_upgrade reverse (req.headers sec_websocket_key)

  unfoldable pub ws_handler : State → Request → Bool → Answer
  unfolding ws_handler_for
  ws_handler self req reverse =
      ws_handler_for req.method self (take_upgrade req) req.on_upgrade reverse

  unfoldable pub call : Text → State → Request → Answer
  unfolding text_eq ws_handler
  call package_version self req =
      if text_eq req.path health && not self.obfs
      then (ok (record { status = 200; resp_headers = []; resp_body = b'O' ∷ b'K' ∷ [] }), none)
      else if text_eq req.path version && not self.obfs
      then (ok (record { status = 200; resp_headers = []; resp_body = package_version }), none)
      else if text_eq req.path ws
      then ws_handler self req self.reverse
      else (backend_or_404_handler self req, none)
