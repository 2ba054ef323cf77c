-- ===== src/Client/WsConnect/Examples.antt =====
-- A client of src/client/ws_connect.rs that opens a WebSocket: the theorem at a concrete input.
use penguin_rs.Base.{◌≡◌, refl, inr, [], ◌∷◌, false, Option, none, some, ok, Result, true, arith}
use penguin_rs.Server.Service.{
  Text, HeaderName, connection, upgrade, sec_websocket_key, sec_websocket_version, other_header,
  get, Request, websocket_text, websocket_version, ws, State,
}
use penguin_rs.Server.Service.Access.{IsWelcome}
use penguin_rs.Client.WsConnect.{
  upgrade_capitalized, IntoClientRequest, ClientArgs, answered, ws_handshake, with_headers,
  same_header,
}
use penguin_rs.Client.WsConnect.Welcome.{LeavesAlone, ws_handshake-IsWelcome}

abbrev first_headers : HeaderName → Option Text
first_headers connection = some upgrade_capitalized
first_headers upgrade = some websocket_text
first_headers sec_websocket_version = some websocket_version
first_headers sec_websocket_key = some (b'k' ∷ [])
first_headers name = none

abbrev request_to : Text → Request
request_to path = record {
  method = get;
  path = path;
  path_and_query = some path;
  headers = first_headers;
  on_upgrade = false;
  req_body = [];
}

request_made :
    (url : Text) (req : Request)
    → Path (Result (Unit {0}) Request) (ok (request_to url)) (ok req)
    → (req.method ≡ get)
      × (req.path ≡ url)
      × (req.headers connection ≡ some upgrade_capitalized)
      × (req.headers upgrade ≡ some websocket_text)
      × (req.headers sec_websocket_version ≡ some websocket_version)
      × ((key : Text) × (req.headers sec_websocket_key ≡ some key))
request_made url req q = (
  ground (arith, q),
  ground (arith, q),
  ground (arith, q),
  ground (arith, q),
  ground (arith, q),
  (b'k' ∷ [], ground (arith, q)),
)

-- A URL is its path, and an error has no content.
abbrev client : IntoClientRequest (Unit {0})
client = record {
  Url = Text;
  url_path = λ url. url;
  into_client_request = λ url. ok (request_to url);
  made = λ url req q. request_made url req q;
}

abbrev args : ClientArgs Text
args = record {
  server = ws;
  is_tls = false;
  ws_psk = some (b'p' ∷ []);
  hostname = some (b'h' ∷ []);
  header = (other_header (b'x' ∷ []), b'1' ∷ []) ∷ [];
}

args-LeavesAlone : LeavesAlone args.header
unfolding same_header
args-LeavesAlone = record {
  spares_connection = (refl, tt);
  spares_upgrade = (refl, tt);
  spares_key = (refl, tt);
  spares_protocol = (refl, tt);
  spares_version = (refl, tt);
  spares_psk = (refl, tt);
}

abbrev server : State
server = record {
  backend = none;
  ws_psk = some (b'p' ∷ []);
  not_found_resp = [];
  obfs = true;
  reverse = false;
}

abbrev request_of_client : Request
request_of_client = with_headers client args (request_to ws)

ws_handshake-IsWelcome_example : IsWelcome server (record request_of_client { on_upgrade = true })
unfolding ws_handshake
ws_handshake-IsWelcome_example =
    ws_handshake-IsWelcome client args (ok tt) (answered (ok tt)) request_of_client server refl refl
      args-LeavesAlone (inr (b'p' ∷ [], refl, refl))
