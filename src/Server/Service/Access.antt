-- ===== src/Server/Service/Access.antt =====
-- src/server/service.rs: who gets a WebSocket, and what everybody else sees.
use penguin_rs.Base.{
  ◌≡◌, ◌≢◌, refl, sym, ap, ◌∙◌, ◌↔◌, ◌⊎◌, inl, inr, [], ◌∷◌, Bool, true, false, not, Option, none,
  some, ok, arith, Bool-cases,
}
use penguin_rs.Server.Service.{
  Text, text_eq, take_upgrade, connection, upgrade, sec_websocket_version, sec_websocket_protocol,
  upgrade_text, websocket_text, websocket_version, wanted_protocol, sec_websocket_key,
  x_penguin_psk, Method, get, other_method, Request, Http, State, Answer, ws, option_eq,
  backend_or_404_handler, refuse, headers_match, with_key, psk_refuses, ws_handler_for, ws_handler,
  call, switching_protocols,
}
use penguin_rs.Server.Service.Headers.{Reads, headers_match_iff}

pub text_eq_iff : (s t : Text) → (text_eq s t ≡ true) ↔ (s ≡ t)
unfolding text_eq
text_eq_iff [] [] = (λ e. refl, λ e. refl)
text_eq_iff [] (y ∷ ys) = (λ e. cc e, λ e. cc e)
text_eq_iff (x ∷ xs) [] = (λ e. cc e, λ e. cc e)
text_eq_iff (x ∷ xs) (y ∷ ys) = ground (arith, text_eq_iff xs ys)

-- What a request needs for a WebSocket: the path, the method, the key that the server asks for, if
-- it does, the headers, and a connection that can be handed over.
pub record IsWelcome (self : State) (req : Request) : Type 0 where
  pub at_path : req.path ≡ ws
  pub by_get : req.method ≡ get
  pub known_psk : (self.ws_psk ≡ none) ⊎ (req.headers x_penguin_psk ≡ self.ws_psk)
  pub key : Text
  pub has_key : req.headers sec_websocket_key ≡ some key
  pub has_connection : Reads (req.headers connection) upgrade_text
  pub has_upgrade : Reads (req.headers upgrade) websocket_text
  pub has_version : Reads (req.headers sec_websocket_version) websocket_version
  pub has_protocol : Reads (req.headers sec_websocket_protocol) wanted_protocol
  pub can_upgrade : req.on_upgrade ≡ true

module _ (crates : Http) (self : State) (req : Request) where
  psk_lem :
      (psk_refuses crates self req ≡ false)
      ↔ ((self.ws_psk ≡ none) ⊎ (req.headers x_penguin_psk ≡ self.ws_psk))
  unfolding psk_refuses option_eq
  psk_lem = by_psk self.ws_psk refl (req.headers x_penguin_psk)
    where
      by_psk :
          (psk : Option Text)
          → self.ws_psk ≡ psk
          → (given : Option Text)
          → ((elim psk [ none ↦ false | some p ↦ not (option_eq given (some p)) ]) ≡ false)
            ↔ ((psk ≡ none) ⊎ (given ≡ psk))
      by_psk none q given = (λ e. inl refl, λ e. refl)
      by_psk (some p) q none = ground arith
      by_psk (some p) q (some g) = ground (arith, text_eq_iff g p)

  with_key_lem :
      (on_upgrade reverse : Bool) (key : Option Text)
      → ((with_key crates self req on_upgrade reverse key ≡ refuse crates self req))
        ⊎ ((k : Text) × (key ≡ some k)
            × (headers_match crates req ≡ true)
            × (on_upgrade ≡ true)
            × (with_key crates self req on_upgrade reverse key
                ≡ (ok (switching_protocols crates k), some reverse)))
  unfolding with_key
  with_key_lem on_upgrade reverse none = inl refl
  with_key_lem on_upgrade reverse (some k) = elim (Bool-cases (headers_match crates req)) [
    | inr bad ↦ inl (rw bad refl)
    | inl good ↦ elim (Bool-cases on_upgrade) [
      | inr lost ↦ inl (rw (good, lost) refl)
      | inl given ↦ inr (k, refl, good, given, rw (good, given) refl)
    ]
  ]

module _ (crates : Http) (self : State) (req : Request) where
  abbrev taken : Request
  taken = take_upgrade req

  -- What a request on the path of the WebSocket comes to.
  Decided : Answer → Type 0
  Decided answer =
      (answer ≡ refuse crates self taken)
      ⊎ ((method : req.method ≡ get) × (known : psk_refuses crates self taken ≡ false) × (k : Text)
          × (key : req.headers sec_websocket_key ≡ some k) × (good : headers_match crates taken
              ≡ true)
          × (upgradable : req.on_upgrade ≡ true) × (answer
              ≡ (ok (switching_protocols crates k), some self.reverse)))

  ws_handler-Decided : Decided (ws_handler crates self req self.reverse)
  unfolding Decided ws_handler ws_handler_for
  ws_handler-Decided = by_method req.method refl
    where
      by_method :
          (m : Method)
          → req.method ≡ m
          → Decided (ws_handler_for crates m self taken req.on_upgrade self.reverse)
      by_method (other_method name) q = inl refl
      by_method get q = elim (Bool-cases (psk_refuses crates self taken)) [
        | inl denied ↦ inl (rw denied refl)
        | inr may ↦
            elim (with_key_lem crates self taken req.on_upgrade self.reverse
              (req.headers sec_websocket_key)) [
                | inl e ↦ inl (rw may e)
                | inr (k, key, good, upgradable, e) ↦
                    inr (q, may, k, key, good, upgradable, rw may e)
              ]
      ]

  IsWelcome-ws_handler :
      IsWelcome self req
      → (k : Text) × (ws_handler crates self req self.reverse
          ≡ (ok (switching_protocols crates k), some self.reverse))
  unfolding ws_handler ws_handler_for with_key
  IsWelcome-ws_handler w =
      let good =
        (headers_match_iff crates taken).1
          (w.has_connection, w.has_upgrade, w.has_version, w.has_protocol) in
      (
        w.key,
        rw (w.by_get, (psk_lem crates self taken).1 w.known_psk, w.has_key, good, w.can_upgrade)
            refl,
      )

  at_ws :
      (package_version : Text)
      → req.path ≡ ws
      → call crates package_version self req ≡ ws_handler crates self req self.reverse
  unfolding call text_eq
  at_ws package_version q = rw q refl

  elsewhere :
      (package_version : Text)
      → req.path ≢ ws
      → ((call crates package_version self req).1 ≡ none)
        × (self.obfs ≡ true → call crates package_version self req ≡ refuse crates self req)
  unfolding call
  elsewhere package_version other = ground (arith, text_eq_iff req.path ws)

  -- A connection becomes a WebSocket exactly where the request has all of this: the path `/ws`, the
  -- method GET, the key that the server asks for, if it asks for one, the key of a WebSocket, a
  -- connection that can be handed over, and in letters of whatever case the headers `Connection` with
  -- `upgrade`, `Upgrade` with `websocket`, the version `13`, and the protocol `penguin-v7`.
  pub call-IsWelcome :
      (package_version : Text)
      → ((call crates package_version self req).1 ≢ none) ↔ IsWelcome self req
  unfolding Decided
  call-IsWelcome package_version = (
    welcome,
    λ w closed.
        let (k, e) = IsWelcome-ws_handler w in
        cc (ap (λ a. a.1) (sym (at_ws package_version w.at_path ∙ e)) ∙ closed),
  )
    where
      welcome : (call crates package_version self req).1 ≢ none → IsWelcome self req
      welcome h = elim (Bool-cases (text_eq req.path ws)) [
        | inr other ↦
            absurd
              (h (elsewhere package_version (λ e. cc (other, (text_eq_iff req.path ws).1 e))).0)
        | inl same ↦
            let path = (text_eq_iff req.path ws).0 same in
            elim ws_handler-Decided [
              | inl e ↦ absurd (h (ap (λ a. a.1) (at_ws package_version path ∙ e)))
              | inr (method, known, k, key, good, upgradable, e) ↦
                  let (by_connection, by_upgrade, by_version, by_protocol) =
                    (headers_match_iff crates taken).0 good in
                  record {
                    at_path = path;
                    by_get = method;
                    known_psk = (psk_lem crates self taken).0 known;
                    key = k;
                    has_key = key;
                    has_connection = by_connection;
                    has_upgrade = by_upgrade;
                    has_version = by_version;
                    has_protocol = by_protocol;
                    can_upgrade = upgradable;
                  }
            ]
      ]

  -- Where the server obfuscates, every request that does not become a WebSocket is answered as the
  -- backend, or the page for what is not found, answers it: so are `/health` and `/version`, and so is
  -- `/ws` with a wrong key or wrong headers, but for the offer to hand over the connection, which is
  -- taken out of a request for `/ws` before it goes on to the backend.
  pub call-obfuscated :
      (package_version : Text)
      → self.obfs ≡ true
      → (call crates package_version self req).1 ≡ none
      → ((req.path ≡ ws)
          × (call crates package_version self req
              ≡ (backend_or_404_handler crates self (record req { on_upgrade = false }), none)))
        ⊎ ((req.path ≢ ws)
            × (call crates package_version self req
                ≡ (backend_or_404_handler crates self req, none)))
  unfolding Decided
  call-obfuscated package_version obfs closed = elim (Bool-cases (text_eq req.path ws)) [
    | inr other ↦
        let differs : req.path ≢ ws = λ e. cc (other, (text_eq_iff req.path ws).1 e) in
        inr (differs, (elsewhere package_version differs).1 obfs)
    | inl same ↦
        let path = (text_eq_iff req.path ws).0 same in
        elim ws_handler-Decided [
          | inl e ↦ inl (path, at_ws package_version path ∙ e)
          | inr (method, known, k, key, good, upgradable, e) ↦
              absurd (cc (ap (λ a. a.1) (sym (at_ws package_version path ∙ e)) ∙ closed))
        ]
  ]
