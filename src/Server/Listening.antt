-- ===== src/Server/Listening.antt =====
-- src/server/mod.rs: the addresses that the server listens on, its TLS, and its listeners; with
-- `ServerArgs` of src/arg.rs and `OptionalDuration::timeout` of src/mux/timing.rs.
--
-- Parsing an IP address, binding a socket and the connections are arguments. `none` of a result is a
-- panic. A TLS configuration is named by a number.
pub mod Addresses
pub mod Encryption
pub mod Connections
mod Examples
use penguin_rs.Base.{
  ℕ, zero, suc, length, List, [], ◌∷◌, ◌++◌, Bool, true, false, Option, none, some, Result, ok, err,
  if◌then◌else◌, leb,
}
use penguin_rs.Remote.Str.{Text}
use penguin_rs.Remote.{remove_brackets}
use penguin_rs.Mux.Options.{OptionalDuration}

-- The arguments that are not there only for compatibility with `chisel`.
pub record ServerArgs : Type 0 where
  pub host : List Text
  pub port : List ℕ
  pub backend : Option Text
  pub obfs : Bool
  pub not_found_resp : Text
  pub ws_psk : Option Text
  pub reverse : Bool
  pub tls_key : Option Text
  pub tls_cert : Option Text
  pub tls_ca : Option Text
  pub tls_domain : List Text
  pub tls_acme_url : Text
  pub tls_acme_email : Option Text
  pub tls_acme_accept_tos : Bool
  pub tls_acme_challenge_helper : Option Text
  pub timeout : OptionalDuration

pub data Error : Type 0 where
  invalid_host tls signal io acme : ℕ → Error

-- What a call comes to: a result, or a panic.
pub data Outcome {ℓ} (A : Type ℓ) : Type ℓ where
  panicked : Outcome A
  returned : Result Error A → Outcome A

abbrev pub and_then : {A B : Type 0} → Outcome A → (A → Outcome B) → Outcome B
and_then panicked k = panicked
and_then (returned (err e)) k = returned (err e)
and_then (returned (ok a)) k = k a

-- The `?` of a call whose error becomes the given one.
abbrev pub from_call : {A : Type 0} → (ℕ → Error) → Result ℕ A → Outcome A
from_call kind (err e) = returned (err (kind e))
from_call kind (ok a) = returned (ok a)

unfoldable pub last_of : List ℕ → Option ℕ
last_of [] = none
last_of (p ∷ []) = some p
last_of (p ∷ q ∷ ports) = last_of (q ∷ ports)

-- The first of the ports, which are followed by the last one for ever, and those behind it.
abbrev pub first_port : ℕ → List ℕ → ℕ
first_port last_port [] = last_port
first_port last_port (p ∷ ports) = p

abbrev pub rest_ports : List ℕ → List ℕ
rest_ports [] = []
rest_ports (p ∷ ports) = ports

module _ {Ip : Type 0} (parse : Text → Result ℕ Ip) where
  -- `zip`, `map` and `collect`, which stops at the first error.
  unfoldable pub sockaddrs : List Text → List ℕ → ℕ → Outcome (List (Ip × ℕ))
  sockaddrs [] ports last_port = returned (ok [])
  sockaddrs (host ∷ hosts) ports last_port =
      and_then (from_call invalid_host (parse (remove_brackets host))) (λ ip.
        and_then (sockaddrs hosts (rest_ports ports) last_port)
          (λ rest. returned (ok ((ip, first_port last_port ports) ∷ rest))))

  unfoldable pub on_last_port : List Text → List ℕ → Option ℕ → Outcome (List (Ip × ℕ))
  unfolding sockaddrs
  on_last_port hosts ports none = panicked
  on_last_port [] ports (some last_port) = panicked
  on_last_port (host ∷ hosts) ports (some last_port) = sockaddrs (host ∷ hosts) ports last_port

  unfoldable pub arg_to_sockaddrs : ServerArgs → Outcome (List (Ip × ℕ))
  unfolding on_last_port last_of
  arg_to_sockaddrs arg = on_last_port arg.host arg.port (last_of arg.port)

-- What making an identity from files, registering the signal handler, and the ACME client give.
pub record TlsCalls : Type 0 where
  pub make_tls_identity : Text → Text → Option Text → Result ℕ ℕ
  pub register_signal_handler : Result ℕ (Unit {0})
  pub populate_or_get : Result ℕ ℕ

unfoldable pub tls_from_files : TlsCalls → Text → Option Text → Option Text → Outcome (Option ℕ)
tls_from_files calls tls_key none tls_ca = panicked
tls_from_files calls tls_key (some tls_cert) tls_ca =
    and_then (from_call tls (calls.make_tls_identity tls_cert tls_key tls_ca)) (λ tls_config.
      and_then (from_call signal calls.register_signal_handler)
        (λ u. returned (ok (some tls_config))))

unfoldable pub tls_from_acme : TlsCalls → List Text → Outcome (Option ℕ)
tls_from_acme calls [] = returned (ok none)
tls_from_acme calls (domain ∷ domains) =
    and_then (from_call acme calls.populate_or_get) (λ tls_config. returned (ok (some tls_config)))

unfoldable pub check_start_tls : TlsCalls → ServerArgs → Outcome (Option ℕ)
unfolding tls_from_files tls_from_acme
check_start_tls calls args = elim args.tls_key [
  | some tls_key ↦ tls_from_files calls tls_key args.tls_cert args.tls_ca
  | none ↦ tls_from_acme calls args.tls_domain
]

-- A task that runs a listener, with the TLS configuration that it has.
pub record Listener (Ip : Type 0) : Type 0 where
  pub sockaddr : Ip × ℕ
  pub tls_config : Option ℕ

-- How a task of the set ends.
pub data Joined : Type 0 where
  finished cancelled task_panicked : Joined

-- The server runs, with the listeners that were started, or has ended.
pub data ServerRun (Ip : Type 0) : Type 0 where
  serving : List (Listener Ip) → ServerRun Ip
  ended : Outcome (Unit {0}) → ServerRun Ip

-- What binding to an address, and asking for the address of the listener, give.
pub record Sockets (Ip : Type 0) : Type 0 where
  pub bind : Ip × ℕ → Result ℕ (Unit {0})
  pub local_addr : Ip × ℕ → Result ℕ (Unit {0})

module _ {Ip : Type 0} where
  unfoldable pub start_listeners :
      Sockets Ip → Option ℕ → List (Ip × ℕ) → Outcome (List (Listener Ip))
  start_listeners sockets tls_config [] = returned (ok [])
  start_listeners sockets tls_config (sockaddr ∷ addrs) =
      and_then (from_call io (sockets.bind sockaddr)) (λ u.
        and_then (from_call io (sockets.local_addr sockaddr)) (λ u'.
          and_then (start_listeners sockets tls_config addrs) (λ listeners.
            returned (ok (record { sockaddr = sockaddr; tls_config = tls_config } ∷ listeners)))))

  -- The tasks that have ended so far, of those that were started.
  unfoldable pub join_listeners : List (Listener Ip) → ℕ → List Joined → ServerRun Ip
  join_listeners started zero joined = ended (returned (ok tt))
  join_listeners started (suc left) [] = serving started
  join_listeners started (suc left) (finished ∷ joined) = join_listeners started left joined
  join_listeners started (suc left) (cancelled ∷ joined) = join_listeners started left joined
  join_listeners started (suc left) (task_panicked ∷ joined) = ended panicked

  unfoldable pub on_started : Outcome (List (Listener Ip)) → List Joined → ServerRun Ip
  unfolding join_listeners
  on_started panicked joined = ended panicked
  on_started (returned (err e)) joined = ended (returned (err e))
  on_started (returned (ok started)) joined = join_listeners started (length started) joined

  -- `State::new` fails where the connector for the backend cannot be made.
  unfoldable pub server_main :
      Result ℕ (Unit {0})
      → (Text → Result ℕ Ip)
      → TlsCalls
      → Sockets Ip
      → ServerArgs
      → List Joined
      → ServerRun Ip
  unfolding arg_to_sockaddrs check_start_tls start_listeners on_started
  server_main new_state parse calls sockets args joined =
      on_started
        (and_then (from_call io new_state) (λ u. and_then (arg_to_sockaddrs parse args) (λ addrs.
          and_then (check_start_tls calls args)
            (λ tls_config. start_listeners sockets tls_config addrs))))
        joined
