-- ===== src/Tls/Examples.antt =====
-- Files that hold what their paths say, and the theorems at concrete inputs.
use penguin_rs.Base.{ℕ, ◌≡◌, refl, List, [], ◌∷◌, length, none, some, ok, err}
use penguin_rs.Remote.Str.{Text}
use penguin_rs.Tls.{
  Rustls, ClientConfig, root_certificates, make_client_config, try_load_certificate,
  load_certificate, load_ca_store, generate_rustls_rootcertstore, with_client_auth,
}
use penguin_rs.Tls.Trust.{IsStoreOf, Shows, make_client_config_trusts}

-- A certificate is a byte, a key the number of bytes of its file, a store a list of certificates.
abbrev files : Rustls
files = record {
  Cert = ℕ;
  Key = ℕ;
  Store = List ℕ;
  read = λ path. ok path;
  certs = λ file. ok file;
  private_key = λ file. ok (some (length file));
  add_parsable_certificates = λ parsed. (parsed, length parsed);
  get_system_certs = err 0;
  build_verifier = λ store. ok tt;
  check_cert = λ chain key. ok tt;
  serialize_pem = λ keypair. [];
}

abbrev ca : Text
ca = b'a' ∷ b'b' ∷ []

abbrev client_config : ClientConfig files
client_config = record {
  verification = root_certificates ca;
  client_auth_cert = some (b'c' ∷ [], 1);
  alpn_protocols = [];
}

make_client_config_trusts_example :
    ((roots : List ℕ) × IsStoreOf files ca roots
      × (client_config.verification ≡ root_certificates roots))
    × Shows files (some (b'c' ∷ [])) (some (b'k' ∷ [])) client_config.client_auth_cert
unfolding make_client_config load_ca_store generate_rustls_rootcertstore try_load_certificate
    with_client_auth load_certificate
make_client_config_trusts_example =
    make_client_config_trusts files (some (b'c' ∷ [])) (some (b'k' ∷ [])) ca none client_config refl
