-- ===== src/Client/WsConnect.antt =====
-- src/client/ws_connect.rs: the request that opens a WebSocket, and how the handshake ends.
--
-- Making a request for a URL is the work of the crate `tungstenite`, an interface with the headers
-- that it documents (RFC 6455); so are the TLS connector and the exchange itself, whose results are
-- arguments.
mod Examples
pub mod Welcome
use penguin_rs.Base.{
  ℕ, ◌≡◌, List, [], ◌∷◌, Bool, true, false, Option, none, some, Result, ok, err, if◌then◌else◌, All,
}
use penguin_rs.Server.Service.{
  Text, HeaderName, connection, upgrade, sec_websocket_key, sec_websocket_protocol,
  sec_websocket_version, sec_websocket_accept, x_penguin_psk, host, other_header, get, Request,
  text_eq, upgrade_text, websocket_text, websocket_version, wanted_protocol, eq_ignore_ascii_case,
}
use penguin_rs.Client.Errors.{Error, tungstenite, handshake_timeout, handshake_cancelled}

-- The value of `Connection` in the crate's requests.
abbrev pub upgrade_capitalized : Text
upgrade_capitalized = b'U' ∷ b'p' ∷ b'g' ∷ b'r' ∷ b'a' ∷ b'd' ∷ b'e' ∷ []

pub record IntoClientRequest (E : Type 0) : Type 1 where
  pub Url : Type 0
  pub url_path : Url → Text
  pub into_client_request : Url → Result E Request
  pub made :
      (url : Url) (req : Request)
      → into_client_request url ≡ ok req
      → (req.method ≡ get)
        × (req.path ≡ url_path url)
        × (req.headers connection ≡ some upgrade_capitalized)
        × (req.headers upgrade ≡ some websocket_text)
        × (req.headers sec_websocket_version ≡ some websocket_version)
        × ((key : Text) × (req.headers sec_websocket_key ≡ some key))

unfoldable pub same_header : HeaderName → HeaderName → Bool
unfolding text_eq
same_header connection connection = true
same_header upgrade upgrade = true
same_header sec_websocket_key sec_websocket_key = true
same_header sec_websocket_protocol sec_websocket_protocol = true
same_header sec_websocket_version sec_websocket_version = true
same_header sec_websocket_accept sec_websocket_accept = true
same_header x_penguin_psk x_penguin_psk = true
same_header host host = true
same_header (other_header a) (other_header b) = text_eq a b
same_header a b = false

-- `HeaderMap::insert`, which replaces the value of the name.
unfoldable pub insert_header : HeaderName → Text → Request → Request
unfolding same_header
insert_header name value req = record req {
  headers = λ n. if same_header n name then some value else req.headers n;
}

unfoldable pub insert_if_given : HeaderName → Option Text → Request → Request
unfolding insert_header
insert_if_given name none req = req
insert_if_given name (some value) req = insert_header name value req

unfoldable pub insert_all : List (HeaderName × Text) → Request → Request
unfolding insert_header
insert_all [] req = req
insert_all ((name, value) ∷ headers) req = insert_all headers (insert_header name value req)

pub record ClientArgs (Url : Type 0) : Type 0 where
  pub server : Url
  pub is_tls : Bool
  pub ws_psk : Option Text
  pub hostname : Option Text
  pub header : List (HeaderName × Text)

-- What the `select!` finds ready first.
pub data Wait (E : Type 0) : Type 0 where
  answered : Result E (Unit {0}) → Wait E
  slept interrupted : Wait E

module _ {E : Type 0} (crates : IntoClientRequest E) where
  unfoldable pub with_headers : ClientArgs crates.Url → Request → Request
  unfolding insert_header insert_if_given insert_all
  with_headers args req = insert_all args.header (
      insert_if_given host args.hostname (
        insert_if_given x_penguin_psk args.ws_psk
          (insert_header sec_websocket_protocol wanted_protocol req)))

  unfoldable pub ended : Wait E → Result (Error E) (Unit {0})
  ended (answered (ok u)) = ok tt
  ended (answered (err e)) = err (tungstenite e)
  ended slept = err handshake_timeout
  ended interrupted = err handshake_cancelled

  -- The request that is sent, and the result.
  unfoldable pub ws_handshake :
      ClientArgs crates.Url
      → Result (Error E) (Unit {0})
      → Wait E
      → Option Request × Result (Error E) (Unit {0})
  unfolding with_headers ended
  ws_handshake args tls wait = elim (crates.into_client_request args.server) [
    | err e ↦ (none, err (tungstenite e))
    | ok req ↦
        let plain : Option Request × Result (Error E) (Unit {0}) =
          (some (with_headers args req), ended wait) in
        let secured : Option Request × Result (Error E) (Unit {0}) = elim tls [
          | err e ↦ (none, err e)
          | ok u ↦ (some (with_headers args req), ended wait)
        ] in
        if args.is_tls then secured else plain
  ]
