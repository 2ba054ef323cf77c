-- ===== src/Server/Listening/Examples.antt =====
-- A server with three hosts and two ports: the theorems at concrete inputs.
use penguin_rs.Base.{
  ℕ, ◌≡◌, refl, List, [], ◌∷◌, map, length, All, false, none, some, Result, ok, err,
}
use penguin_rs.Remote.Str.{Text, starts_with, ends_with}
use penguin_rs.Remote.{remove_brackets}
use penguin_rs.Server.Listening.{
  ServerArgs, returned, arg_to_sockaddrs, TlsCalls, Listener, serving, Sockets, server_main,
  last_of,
}
use penguin_rs.Server.Listening.Addresses.{get_elem?, port_for, arg_to_sockaddrs_at}
use penguin_rs.Server.Listening.Encryption.{HasTls, wants_tls, server_main_listens}

-- Addresses are left as they are written.
abbrev parse : Text → Result ℕ Text
parse host = ok host

abbrev hosts : List Text
hosts = (b'[' ∷ b':' ∷ b':' ∷ b']' ∷ []) ∷ (b'a' ∷ []) ∷ (b'b' ∷ []) ∷ []

abbrev args : ServerArgs
args = record {
  host = hosts;
  port = 80 ∷ 443 ∷ [];
  backend = none;
  obfs = false;
  not_found_resp = [];
  ws_psk = none;
  reverse = false;
  tls_key = some (b'k' ∷ []);
  tls_cert = some (b'c' ∷ []);
  tls_ca = none;
  tls_domain = [];
  tls_acme_url = [];
  tls_acme_email = none;
  tls_acme_accept_tos = false;
  tls_acme_challenge_helper = none;
  timeout = none;
}

abbrev addresses : List (Text × ℕ)
addresses = ((b':' ∷ b':' ∷ []), 80) ∷ ((b'a' ∷ []), 443) ∷ ((b'b' ∷ []), 443) ∷ []

read : arg_to_sockaddrs parse args ≡ returned (ok addresses)
unfolding arg_to_sockaddrs remove_brackets starts_with ends_with
read = refl

arg_to_sockaddrs_at_example :
    (length addresses ≡ length hosts)
    × ((ip : Text) × (parse (remove_brackets (b'b' ∷ [])) ≡ ok ip)
        × (get_elem? addresses 2 ≡ some (ip, port_for (80 ∷ 443 ∷ []) 443 2)))
unfolding last_of
arg_to_sockaddrs_at_example =
    arg_to_sockaddrs_at parse args addresses 443 2 (b'b' ∷ []) read refl refl

abbrev calls : TlsCalls
calls = record {
  make_tls_identity = λ cert key ca. ok 1;
  register_signal_handler = ok tt;
  populate_or_get = err 2;
}

abbrev sockets : Sockets Text
sockets = record { bind = λ a. ok tt; local_addr = λ a. ok tt }

abbrev with_identity : Text × ℕ → Listener Text
with_identity a = record { sockaddr = a; tls_config = some 1 }

abbrev listeners : List (Listener Text)
listeners =
    with_identity ((b':' ∷ b':' ∷ []), 80)
    ∷ with_identity ((b'a' ∷ []), 443)
    ∷ with_identity ((b'b' ∷ []), 443)
    ∷ []

runs : server_main (ok tt) parse calls sockets args [] ≡ serving listeners
unfolding server_main remove_brackets starts_with ends_with
runs = refl

server_main_listens_example :
    (arg_to_sockaddrs parse args ≡ returned (ok (map (λ l. l.sockaddr) listeners)))
    × All (HasTls (wants_tls args)) listeners
server_main_listens_example = server_main_listens (ok tt) parse calls sockets args [] listeners runs
