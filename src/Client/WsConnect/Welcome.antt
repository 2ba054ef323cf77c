-- ===== src/Client/WsConnect/Welcome.antt =====
-- src/client/ws_connect.rs and src/server/service.rs: the client's request suits the server.
use penguin_rs.Base.{
  drop, ◌≡◌, refl, sym, ap, ◌∙◌, ◌⊎◌, inl, inr, List, [], ◌∷◌, true, false, Option, none, some,
  Result, ok, err, if◌then◌else◌, All, arith, subst,
}
use penguin_rs.Server.Service.{
  Text, HeaderName, connection, upgrade, sec_websocket_key, sec_websocket_protocol,
  sec_websocket_version, x_penguin_psk, host, Request, ws, State, upgrade_text, websocket_text,
  websocket_version, wanted_protocol,
}
use penguin_rs.Server.Service.Headers.{SameLetters}
use penguin_rs.Server.Service.Access.{IsWelcome}
use penguin_rs.Client.Errors.{Error}
use penguin_rs.Client.WsConnect.{
  upgrade_capitalized, IntoClientRequest, ClientArgs, Wait, same_header, insert_header,
  insert_if_given, insert_all, with_headers, ws_handshake,
}

-- A header of the user's that leaves this one alone.
abbrev pub Spares : HeaderName → HeaderName × Text → Type 0
Spares name (given, value) = same_header name given ≡ false

insert_all-Spares :
    (name : HeaderName) (headers : List (HeaderName × Text)) (req : Request)
    → All (Spares name) headers
    → (insert_all headers req).headers name ≡ req.headers name
unfolding insert_all
insert_all-Spares name [] req h = refl
insert_all-Spares name ((given, value) ∷ headers) req (hx, h) =
    insert_all-Spares name headers (insert_header given value req) h
    ∙ ap (λ b. if b then some value else req.headers name) hx

insert_all_rest :
    (headers : List (HeaderName × Text)) (req : Request)
    → ((insert_all headers req).method ≡ req.method) × ((insert_all headers req).path ≡ req.path)
unfolding insert_all
insert_all_rest [] req = (refl, refl)
insert_all_rest ((name, value) ∷ headers) req =
    insert_all_rest headers (insert_header name value req)

if_given_rest :
    (name : HeaderName) (value : Option Text) (req : Request)
    → ((insert_if_given name value req).method ≡ req.method)
      × ((insert_if_given name value req).path ≡ req.path)
unfolding insert_if_given insert_header
if_given_rest name none req = (refl, refl)
if_given_rest name (some value) req = (refl, refl)

-- The headers that open a WebSocket, which the user's own do not replace.
pub record LeavesAlone (headers : List (HeaderName × Text)) : Type 0 where
  pub spares_connection : All (Spares connection) headers
  pub spares_upgrade : All (Spares upgrade) headers
  pub spares_key : All (Spares sec_websocket_key) headers
  pub spares_protocol : All (Spares sec_websocket_protocol) headers
  pub spares_version : All (Spares sec_websocket_version) headers
  pub spares_psk : All (Spares x_penguin_psk) headers

module _ {E : Type 0} (client : IntoClientRequest E) (args : ClientArgs client.Url) (req : Request)
    (free : LeavesAlone args.header) where
  abbrev before_custom : Request
  before_custom = insert_if_given host args.hostname (
      insert_if_given x_penguin_psk args.ws_psk
        (insert_header sec_websocket_protocol wanted_protocol req))

  -- The optional headers leave the others alone.
  base_header :
      (name : HeaderName)
      → same_header name host ≡ false
      → same_header name x_penguin_psk ≡ false
      → before_custom.headers name
        ≡ (insert_header sec_websocket_protocol wanted_protocol req).headers name
  unfolding insert_if_given insert_header
  base_header name not_host not_psk = by_options args.hostname args.ws_psk
    where
      by_options :
          (h p : Option Text)
          → (insert_if_given host h (
                insert_if_given x_penguin_psk p
                  (insert_header sec_websocket_protocol wanted_protocol req))).headers
              name
            ≡ (insert_header sec_websocket_protocol wanted_protocol req).headers name
      by_options none none = refl
      by_options none (some p) = rw not_psk refl
      by_options (some h) none = rw not_host refl
      by_options (some h) (some p) = rw (not_host, not_psk) refl

  psk_header :
      (psk : Text) → args.ws_psk ≡ some psk → before_custom.headers x_penguin_psk ≡ some psk
  unfolding insert_if_given insert_header
  psk_header psk given = by_host args.hostname
    where
      by_host :
          (h : Option Text)
          → (insert_if_given host h (
                insert_if_given x_penguin_psk args.ws_psk
                  (insert_header sec_websocket_protocol wanted_protocol req))).headers
              x_penguin_psk
            ≡ some psk
      by_host none = rw given refl
      by_host (some h) = rw given refl

  rest_same :
      ((with_headers client args req).method ≡ req.method)
      × ((with_headers client args req).path ≡ req.path)
  unfolding with_headers insert_if_given insert_header
  rest_same =
      let base = insert_header sec_websocket_protocol wanted_protocol req in
      let with_psk = insert_if_given x_penguin_psk args.ws_psk base in
      let (m, q) = insert_all_rest args.header before_custom in
      let (m1, q1) = if_given_rest host args.hostname with_psk in
      let (m2, q2) = if_given_rest x_penguin_psk args.ws_psk base in (m ∙ (m1 ∙ m2), q ∙ (q1 ∙ q2))

  -- What the server finds under one of the fixed names.
  fixed :
      (name : HeaderName)
      → All (Spares name) args.header
      → same_header name host ≡ false
      → same_header name x_penguin_psk ≡ false
      → (with_headers client args req).headers name
        ≡ (insert_header sec_websocket_protocol wanted_protocol req).headers name
  unfolding with_headers
  fixed name free_name not_host not_psk =
      insert_all-Spares name args.header before_custom free_name ∙ base_header name not_host not_psk

  psk_found :
      (psk : Text)
      → args.ws_psk ≡ some psk
      → (with_headers client args req).headers x_penguin_psk ≡ some psk
  unfolding with_headers
  psk_found psk given =
      insert_all-Spares x_penguin_psk args.header before_custom free.spares_psk
      ∙ psk_header psk given

SameLetters-self : (s : Text) → SameLetters s s
SameLetters-self [] = tt
SameLetters-self (x ∷ xs) = (inl refl, SameLetters-self xs)

capitalized-SameLetters : SameLetters upgrade_capitalized upgrade_text
capitalized-SameLetters =
    (inr (inl (omega arith, omega arith, refl)), SameLetters-self (drop 1 upgrade_text))

request_sent :
    {E : Type 0} (client : IntoClientRequest E) (args : ClientArgs client.Url)
    (tls : Result (Error E) (Unit {0})) (wait : Wait E) (sent : Request)
    → (ws_handshake client args tls wait).0 ≡ some sent
    → (req : Request) × (client.into_client_request args.server ≡ ok req)
      × (with_headers client args req ≡ sent)
unfolding ws_handshake insert_header
request_sent client args tls wait sent started =
    by_request (client.into_client_request args.server) refl started
  where
    by_request :
        (r : Result _ Request)
        → client.into_client_request args.server ≡ r
        → (ws_handshake client args tls wait).0 ≡ some sent
        → (req : Request) × (r ≡ ok req) × (with_headers client args req ≡ sent)
    by_request (ok req) q h = (req, refl, ground (arith, h, q))
    by_request (err e) q h = absurd (ground (arith, h, q))

-- The client's request suits the server: where the URL leads to the path of the WebSocket, the
-- user's own headers replace none of those that open one, the server asks for no key or for the
-- client's, and the connection can be handed over, the request that the client sends is one that
-- the server welcomes.
pub ws_handshake-IsWelcome :
    {E : Type 0} (client : IntoClientRequest E) (args : ClientArgs client.Url)
    (tls : Result (Error E) (Unit {0})) (wait : Wait E) (sent : Request) (server : State)
    → (ws_handshake client args tls wait).0 ≡ some sent
    → client.url_path args.server ≡ ws
    → LeavesAlone args.header
    → (server.ws_psk ≡ none)
      ⊎ ((psk : Text) × (server.ws_psk ≡ some psk) × (args.ws_psk ≡ some psk))
    → IsWelcome server (record sent { on_upgrade = true })
unfolding ws_handshake insert_header
ws_handshake-IsWelcome client args tls wait sent server started at_ws free known =
    let (req, made, is_sent) = request_sent client args tls wait sent started in
    subst (λ r. IsWelcome server (record r { on_upgrade = true })) is_sent (welcome req made)
  where
    welcome :
        (req : Request)
        → client.into_client_request args.server ≡ ok req
        → IsWelcome server (record (with_headers client args req) { on_upgrade = true })
    welcome req made =
        let (by_get, path, conn, upg, ver, (k, key)) = client.made args.server req made in
        let (same_method, same_path) = rest_same client args req free in
        record {
          at_path = same_path ∙ (path ∙ at_ws);
          by_get = same_method ∙ by_get;
          known_psk = elim known [
            | inl open_to_all ↦ inl open_to_all
            | inr (psk, asked, given) ↦ inr (psk_found client args req free psk given ∙ sym asked)
          ];
          key = k;
          has_key = fixed client args req free sec_websocket_key free.spares_key refl refl ∙ key;
          has_connection = (
            upgrade_capitalized,
            fixed client args req free connection free.spares_connection refl refl ∙ conn,
            capitalized-SameLetters,
          );
          has_upgrade = (
            websocket_text,
            fixed client args req free upgrade free.spares_upgrade refl refl ∙ upg,
            SameLetters-self websocket_text,
          );
          has_version = (
            websocket_version,
            fixed client args req free sec_websocket_version free.spares_version refl refl ∙ ver,
            SameLetters-self websocket_version,
          );
          has_protocol = (
            wanted_protocol,
            fixed client args req free sec_websocket_protocol free.spares_protocol refl refl,
            SameLetters-self wanted_protocol,
          );
          can_upgrade = refl;
        }
