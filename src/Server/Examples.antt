-- ===== src/Server/Examples.antt =====
-- A small server of src/server: the theorems at concrete inputs.
use penguin_rs.Base.{◌≡◌, ◌≢◌, ◌⊎◌, refl, ◌↔◌, [], ◌∷◌, true, false, Option, none, some, err, All}
use penguin_rs.Mux.State.{Datagram, TrySend}
use penguin_rs.Server.Service.{
  Text, Request, Http, State, HeaderName, get, connection, upgrade, sec_websocket_key,
  sec_websocket_protocol, sec_websocket_version, sec_websocket_accept, x_penguin_psk, host,
  other_header, websocket_text, websocket_version, wanted_protocol, ws, call,
  backend_or_404_handler, client_or_body,
}
use penguin_rs.Server.Service.Access.{IsWelcome, call-IsWelcome, call-obfuscated}
use penguin_rs.Server.WebSocket.{got_datagram, handle_websocket, no_forwarders}
use penguin_rs.Server.WebSocket.Routing.{IsRouted, handle_websocket_routes}

-- Crates whose backend never answers.
abbrev crates : Http
crates = record {
  Uri = Text;
  build = λ scheme authority path. some path;
  exec_request = λ uri req. err client_or_body;
  accept_of = λ key. key;
}

abbrev server : State
server = record {
  backend = none;
  ws_psk = some (b'p' ∷ []);
  not_found_resp = b'?' ∷ [];
  obfs = true;
  reverse = false;
}

abbrev headers : HeaderName → Option Text
headers connection = some (b'U' ∷ b'P' ∷ b'g' ∷ b'r' ∷ b'a' ∷ b'd' ∷ b'e' ∷ [])
headers upgrade = some websocket_text
headers sec_websocket_key = some (b'k' ∷ [])
headers sec_websocket_protocol = some wanted_protocol
headers sec_websocket_version = some websocket_version
headers sec_websocket_accept = none
headers x_penguin_psk = some (b'p' ∷ [])
headers host = none
headers (other_header name) = none

abbrev request_for : Text → Request
request_for path = record {
  method = get;
  path = path;
  path_and_query = some path;
  headers = headers;
  on_upgrade = true;
  req_body = [];
}

call-IsWelcome_example :
    ((call crates [] server (request_for ws)).1 ≢ none) ↔ IsWelcome server (request_for ws)
call-IsWelcome_example = call-IsWelcome crates server (request_for ws) []

-- `/ws` without the key.
abbrev unknown : Request
unknown = record (request_for ws) { headers = λ name. none }

call-obfuscated_example :
    ((ws ≡ ws)
      × (call crates [] server unknown
          ≡ (backend_or_404_handler crates server (record unknown { on_upgrade = false }), none)))
    ⊎ ((ws ≢ ws)
        × (call crates [] server unknown ≡ (backend_or_404_handler crates server unknown, none)))
unfolding call
call-obfuscated_example = call-obfuscated crates server unknown [] refl refl

abbrev asked : Datagram
asked = record { flow_id = 4; target_host = b'h' ∷ []; target_port = 53; payload_data = 1 ∷ [] }

handle_websocket_routes_example :
    let s =
      (handle_websocket
        (got_datagram asked TrySend.sent ∷ got_datagram asked TrySend.sent ∷ [])
        no_forwarders).1 in
    All (IsRouted s.log) s.log
handle_websocket_routes_example =
    handle_websocket_routes (got_datagram asked TrySend.sent ∷ got_datagram asked TrySend.sent ∷ [])
