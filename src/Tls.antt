-- ===== src/Tls.antt =====
-- src/tls/rustls.rs and src/tls/mod.rs: the TLS configurations of the client and the server.
--
-- The files, their PEM encoding and the checks of the crate `rustls` are the interface `Rustls`;
-- errors of crates are numbers. The key log is a build feature that is left out.
pub mod Trust
mod Examples
use penguin_rs.Base.{
  ℕ, List, [], ◌∷◌, Bool, true, false, Option, none, some, Result, ok, err, ◌>>=◌, if◌then◌else◌,
  ◌==◌,
}
use penguin_rs.Remote.Str.{Text}

pub record Rustls : Type 1 where
  pub Cert : Type 0
  pub Key : Type 0
  pub Store : Type 0
  -- `tokio::fs::read`.
  pub read : Text → Result ℕ Text
  -- The certificates, and the private key, of a PEM file.
  pub certs : Text → Result ℕ (List Cert)
  pub private_key : Text → Result ℕ (Option Key)
  -- An empty store with the certificates that can be parsed, and how many these are.
  pub add_parsable_certificates : List Cert → Store × ℕ
  pub get_system_certs : Result ℕ Store
  -- `WebPkiClientVerifier::builder(store).build()`, and the check of a certificate and its key.
  pub build_verifier : Store → Result ℕ (Unit {0})
  pub check_cert : List Cert → Key → Result ℕ (Unit {0})
  pub serialize_pem : ℕ → Text

pub data Error : Type 0 where
  read_cert rustls verifier : ℕ → Error
  empty_client_cert_store private_key_not_supported : Error

abbrev pub tls_alpn : List Text
tls_alpn = (b'h' ∷ b'2' ∷ []) ∷ (b'h' ∷ b't' ∷ b't' ∷ b'p' ∷ b'/' ∷ b'1' ∷ b'.' ∷ b'1' ∷ []) ∷ []

abbrev pub from_call : {A : Type 0} → (ℕ → Error) → Result ℕ A → Result Error A
from_call kind (err e) = err (kind e)
from_call kind (ok a) = ok a

module _ (r : Rustls) where
  open r use {
    Cert, Key, Store, read, certs, private_key, add_parsable_certificates, get_system_certs,
    build_verifier, check_cert, serialize_pem,
  }

  -- Whom a client trusts: those that a store vouches for, or (`EmptyVerifier`) anyone.
  pub data Verification : Type 0 where
    root_certificates : Store → Verification
    empty_verifier : Verification

  pub record ClientConfig : Type 0 where
    pub verification : Verification
    pub client_auth_cert : Option (List Cert × Key)
    pub alpn_protocols : List Text

  -- `client_cert_verifier` is none where no certificate is asked of a client.
  pub record ServerConfig : Type 0 where
    pub client_cert_verifier : Option Store
    pub cert_chain : List Cert
    pub key : Key
    pub alpn_protocols : List Text

  abbrev pub Io : Type 0 → Type 0
  Io A = Result Error A

  abbrev pub non_empty : Store × ℕ → Io Store
  non_empty (store, new) = if new == 0 then err empty_client_cert_store else ok store

  unfoldable pub load_ca_store : Text → Io Store
  load_ca_store ca_path = do
    client_ca ← from_call read_cert (read ca_path)
    parsed ← from_call read_cert (certs client_ca)
    non_empty (add_parsable_certificates parsed)

  unfoldable pub generate_rustls_rootcertstore : Option Text → Io Store
  generate_rustls_rootcertstore none = from_call rustls get_system_certs
  generate_rustls_rootcertstore (some custom_ca_path) = load_ca_store custom_ca_path

  abbrev pub some_key : Option Key → Io Key
  some_key none = err private_key_not_supported
  some_key (some key) = ok key

  -- The certificates are parsed first, and their error is reported last.
  unfoldable pub load_certificate : Text → Text → Io (List Cert × Key)
  load_certificate key_path cert_path = do
    cert_file ← from_call read_cert (read cert_path)
    key_file ← from_call read_cert (read key_path)
    found ← from_call read_cert (private_key key_file)
    key ← some_key found
    cert_chain ← from_call read_cert (certs cert_file)
    ok (cert_chain, key)

  unfoldable pub try_load_certificate : Option Text → Option Text → Io (Option (List Cert × Key))
  unfolding load_certificate
  try_load_certificate (some key) (some cert) = do
    loaded ← load_certificate key cert
    ok (some loaded)
  try_load_certificate none cert = ok none
  try_load_certificate (some key) none = ok none

  abbrev pub verification_of : Bool → Store → Verification
  verification_of tls_skip_verify roots =
      if tls_skip_verify then empty_verifier else root_certificates roots

  unfoldable pub with_client_auth :
      Verification → Option (List Cert × Key) → List Text → Io ClientConfig
  with_client_auth v none alpn =
      ok (record { verification = v; client_auth_cert = none; alpn_protocols = alpn })
  with_client_auth v (some (cert_chain, key)) alpn = do
    checked ← from_call rustls (check_cert cert_chain key)
    ok (record {
      verification = v;
      client_auth_cert = some (cert_chain, key);
      alpn_protocols = alpn;
    })

  abbrev pub unwrap_alpn : Option (List Text) → List Text
  unwrap_alpn none = []
  unwrap_alpn (some alpn) = alpn

  unfoldable pub make_client_config :
      Option Text → Option Text → Option Text → Bool → Option (List Text) → Io ClientConfig
  make_client_config cert_path key_path ca_path tls_skip_verify alpn = do
    roots ← generate_rustls_rootcertstore ca_path
    client_certificate ← try_load_certificate key_path cert_path
    with_client_auth (verification_of tls_skip_verify roots) client_certificate (unwrap_alpn alpn)

  unfoldable pub make_tls_connector :
      Option Text → Option Text → Option Text → Bool → Io ClientConfig
  unfolding make_client_config
  make_tls_connector tls_cert tls_key tls_ca tls_insecure =
      make_client_config tls_cert tls_key tls_ca tls_insecure (some tls_alpn)

  unfoldable pub client_verifier : Option Text → Io (Option Store)
  client_verifier none = ok none
  client_verifier (some client_ca_path) = do
    store ← load_ca_store client_ca_path
    built ← from_call verifier (build_verifier store)
    ok (some store)

  unfoldable pub make_server_config_from_mem : List Cert → Key → Option Text → Io ServerConfig
  make_server_config_from_mem cert_chain key client_ca_path = do
    client_auth ← client_verifier client_ca_path
    checked ← from_call rustls (check_cert cert_chain key)
    ok (record {
      client_cert_verifier = client_auth;
      cert_chain = cert_chain;
      key = key;
      alpn_protocols = tls_alpn;
    })

  -- With both paths given, `try_load_certificate` loads the two files.
  unfoldable pub make_server_config : Text → Text → Option Text → Io ServerConfig
  make_server_config cert_path key_path client_ca_path = do
    (cert_chain, key) ← load_certificate key_path cert_path
    make_server_config_from_mem cert_chain key client_ca_path

  -- The key pair that `rcgen` made is named by a number.
  unfoldable pub make_server_config_from_rcgen_pem : Text → ℕ → Option Text → Io ServerConfig
  make_server_config_from_rcgen_pem cert_pem keypair client_ca_path = do
    found ← from_call read_cert (private_key (serialize_pem keypair))
    key ← some_key found
    cert_chain ← from_call read_cert (certs cert_pem)
    make_server_config_from_mem cert_chain key client_ca_path

  -- The hot-swappable identity is what it holds; a configuration that cannot be made leaves it.
  unfoldable pub store_if_made : ServerConfig → Io ServerConfig → Io (Unit {0}) × ServerConfig
  store_if_made identity (err e) = (err e, identity)
  store_if_made identity (ok new) = (ok tt, new)

  unfoldable pub reload_tls_identity :
      ServerConfig → Text → Text → Option Text → Io (Unit {0}) × ServerConfig
  unfolding store_if_made
  reload_tls_identity identity cert_path key_path client_ca_path =
      store_if_made identity (make_server_config cert_path key_path client_ca_path)

  unfoldable pub reload_tls_identity_from_rcgen_pem :
      ServerConfig → Text → ℕ → Option Text → Io (Unit {0}) × ServerConfig
  unfolding store_if_made
  reload_tls_identity_from_rcgen_pem identity cert_pem keypair client_ca_path =
      store_if_made identity (make_server_config_from_rcgen_pem cert_pem keypair client_ca_path)
