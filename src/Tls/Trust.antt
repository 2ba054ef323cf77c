-- ===== src/Tls/Trust.antt =====
-- Whom the two ends trust with the configurations of src/tls/rustls.rs.
use penguin_rs.Base.{
  ℕ, zero, suc, ◌≡◌, sym, ap, ◌∙◌, ◌≢◌, subst, List, Bool, false, Option, none, some, Result, ok,
  err, >>=-eq-ok, ok-injective, if◌then◌else◌, ==_false, arith,
}
use penguin_rs.Remote.Str.{Text}
use penguin_rs.Tls.{
  Rustls, Error, read_cert, rustls, verifier, empty_client_cert_store, from_call, Verification,
  root_certificates, ClientConfig, ServerConfig, non_empty, load_ca_store,
  generate_rustls_rootcertstore, load_certificate, try_load_certificate, verification_of,
  with_client_auth, some_key, unwrap_alpn, make_client_config, client_verifier,
  make_server_config_from_mem, make_server_config,
}

module _ (r : Rustls) where
  open r use {
    Cert, Key, Store, read, certs, private_key, add_parsable_certificates, check_cert,
    build_verifier,
  }

  -- The store is made of the certificates of the file, and at least one of them could be used.
  pub record IsStoreOf (path : Text) (store : Store) : Type 0 where
    pub file : Text
    pub parsed : List Cert
    pub read_lem : read path ≡ ok file
    pub certs_lem : certs file ≡ ok parsed
    pub store_lem : (add_parsable_certificates parsed).0 ≡ store
    pub some_used : (add_parsable_certificates parsed).1 ≢ 0

  from_call-ok :
      {A : Type 0} (kind : ℕ → Error) (m : Result ℕ A) (a : A) → from_call kind m ≡ ok a → m ≡ ok a
  from_call-ok kind (err e) a h = absurd (cc h)
  from_call-ok kind (ok x) a h = cc h

  non_empty-ok :
      (added : Store × ℕ) (store : Store)
      → non_empty r added ≡ ok store
      → (added.0 ≡ store) × (added.1 ≢ 0)
  non_empty-ok (s, zero) store h = absurd (cc h)
  non_empty-ok (s, suc n) store h = (
    ok-injective s store (
        subst (λ b. (if b then err empty_client_cert_store else ok s) ≡ ok store)
          (==_false (suc n) 0 (omega arith)) h),
    λ z. absurd (omega (arith, z)),
  )

  load_ca_store-IsStoreOf :
      (path : Text) (store : Store) → load_ca_store r path ≡ ok store → IsStoreOf path store
  unfolding load_ca_store
  load_ca_store-IsStoreOf path store h =
      let (file, hf, h1) = >>=-eq-ok (from_call read_cert (read path)) _ store h in
      let (parsed, hp, h2) = >>=-eq-ok (from_call read_cert (certs file)) _ store h1 in
      let (same, used) = non_empty-ok (add_parsable_certificates parsed) store h2 in
      record {
        file = file;
        parsed = parsed;
        read_lem = from_call-ok read_cert (read path) file hf;
        certs_lem = from_call-ok read_cert (certs file) parsed hp;
        store_lem = same;
        some_used = used;
      }

  with_client_auth-keeps :
      (v : Verification r) (cert : Option (List Cert × Key)) (alpn : List Text)
      (config : ClientConfig r)
      → with_client_auth r v cert alpn ≡ ok config
      → (config.verification ≡ v) × (config.client_auth_cert ≡ cert)
  unfolding with_client_auth
  with_client_auth-keeps v none alpn config h =
      let e = ok-injective _ config h in
      (sym (ap (λ c. c.verification) e), sym (ap (λ c. c.client_auth_cert) e))
  with_client_auth-keeps v (some (chain, key)) alpn config h =
      let (u, checked, h1) = >>=-eq-ok (from_call rustls (check_cert chain key)) _ config h in
      let e = ok-injective _ config h1 in
      (sym (ap (λ c. c.verification) e), sym (ap (λ c. c.client_auth_cert) e))

  make_client_config-parts :
      (cert key ca : Option Text) (skip : Bool) (alpn : Option (List Text))
      (config : ClientConfig r)
      → make_client_config r cert key ca skip alpn ≡ ok config
      → (roots : Store) × (generate_rustls_rootcertstore r ca ≡ ok roots)
        × (try_load_certificate r key cert ≡ ok config.client_auth_cert)
        × (config.verification ≡ verification_of r skip roots)
  unfolding make_client_config
  make_client_config-parts cert key ca skip alpn config h =
      let (roots, hr, h1) = >>=-eq-ok (generate_rustls_rootcertstore r ca) _ config h in
      let (loaded, hl, h2) = >>=-eq-ok (try_load_certificate r key cert) _ config h1 in
      let (v, c) =
        with_client_auth-keeps (verification_of r skip roots) loaded (unwrap_alpn r alpn) config
          h2 in
      (roots, hr, hl ∙ ap (λ t. ok t) (sym c), v)

  -- What two files hold: the certificates of one, and the private key of the other.
  pub record IsIdentityOf (cert_path key_path : Text) (identity : List Cert × Key) : Type 0 where
    pub cert_file : Text
    pub key_file : Text
    pub cert_read : read cert_path ≡ ok cert_file
    pub key_read : read key_path ≡ ok key_file
    pub chain_lem : certs cert_file ≡ ok identity.0
    pub key_lem : private_key key_file ≡ ok (some identity.1)

  -- What a client with these two arguments shows: with both, what the two files hold, and else nothing.
  abbrev pub Shows : Option Text → Option Text → Option (List Cert × Key) → Type 0
  Shows (some cert_path) (some key_path) shown =
      (identity : List Cert × Key) × (shown ≡ some identity)
      × IsIdentityOf cert_path key_path identity
  Shows _ _ shown = shown ≡ none

  some_key-ok : (found : Option Key) (key : Key) → some_key r found ≡ ok key → found ≡ some key
  some_key-ok none key h = absurd (cc h)
  some_key-ok (some k) key h = cc h

  load_certificate-IsIdentityOf :
      (key_path cert_path : Text) (identity : List Cert × Key)
      → load_certificate r key_path cert_path ≡ ok identity
      → IsIdentityOf cert_path key_path identity
  unfolding load_certificate
  load_certificate-IsIdentityOf key_path cert_path identity h =
      let (cf, hcf, h1) = >>=-eq-ok (from_call read_cert (read cert_path)) _ identity h in
      let (kf, hkf, h2) = >>=-eq-ok (from_call read_cert (read key_path)) _ identity h1 in
      let (found, hf, h3) = >>=-eq-ok (from_call read_cert (private_key kf)) _ identity h2 in
      let (key, hk, h4) = >>=-eq-ok (some_key r found) _ identity h3 in
      let (chain, hc, h5) = >>=-eq-ok (from_call read_cert (certs cf)) _ identity h4 in
      let same = ok-injective (chain, key) identity h5 in
      record {
        cert_file = cf;
        key_file = kf;
        cert_read = from_call-ok read_cert (read cert_path) cf hcf;
        key_read = from_call-ok read_cert (read key_path) kf hkf;
        chain_lem = from_call-ok read_cert (certs cf) chain hc ∙ ap (λ p. ok p.0) same;
        key_lem =
            from_call-ok read_cert (private_key kf) found hf
            ∙ (ap (λ o. ok o) (some_key-ok found key hk) ∙ ap (λ p. ok (some p.1)) same);
      }

  try_load_certificate-Shows :
      (cert key : Option Text) (shown : Option (List Cert × Key))
      → try_load_certificate r key cert ≡ ok shown
      → Shows cert key shown
  unfolding try_load_certificate
  try_load_certificate-Shows (some cert) (some key) shown h =
      let (identity, hi, h1) = >>=-eq-ok (load_certificate r key cert) _ shown h in
      (
        identity,
        sym (ok-injective (some identity) shown h1),
        load_certificate-IsIdentityOf key cert identity hi,
      )
  try_load_certificate-Shows none none shown h = sym (ok-injective none shown h)
  try_load_certificate-Shows (some cert) none shown h = sym (ok-injective none shown h)
  try_load_certificate-Shows none (some key) shown h = sym (ok-injective none shown h)

  -- A client that is not told to skip the verification, and that is given a file of CA certificates,
  -- trusts those servers that the certificates in this file vouch for, of which at least one could be
  -- used, and no others; and it shows, where it is given both a file of certificates and one of a key,
  -- the certificates and the private key that the two hold, and otherwise none.
  pub make_client_config_trusts :
      (cert key : Option Text) (ca : Text) (alpn : Option (List Text)) (config : ClientConfig r)
      → make_client_config r cert key (some ca) false alpn ≡ ok config
      → ((roots : Store) × IsStoreOf ca roots × (config.verification ≡ root_certificates roots))
        × Shows cert key config.client_auth_cert
  unfolding generate_rustls_rootcertstore
  make_client_config_trusts cert key ca alpn config h =
      let (roots, hr, hl, v) = make_client_config-parts cert key (some ca) false alpn config h in
      (
        (roots, load_ca_store-IsStoreOf ca roots hr, v),
        try_load_certificate-Shows cert key config.client_auth_cert hl,
      )

  -- A server that is given a file of CA certificates asks every client for a certificate that those in
  -- the file vouch for, of which at least one could be used.
  pub make_server_config_asks :
      (cert key ca : Text) (config : ServerConfig r)
      → make_server_config r cert key (some ca) ≡ ok config
      → (roots : Store) × IsStoreOf ca roots × (config.client_cert_verifier ≡ some roots)
  unfolding make_server_config make_server_config_from_mem client_verifier
  make_server_config_asks cert key ca config h =
      let (loaded, hl, h1) = >>=-eq-ok (load_certificate r key cert) _ config h in
      let (asked, ha, h2) = >>=-eq-ok (client_verifier r (some ca)) _ config h1 in
      let (roots, hr, h3) = >>=-eq-ok (load_ca_store r ca) _ asked ha in
      let (u, built, h4) = >>=-eq-ok (from_call verifier (build_verifier roots)) _ asked h3 in
      let (u', checked, h5) =
        >>=-eq-ok (from_call rustls (check_cert loaded.0 loaded.1)) _ config h2 in
      (
        roots,
        load_ca_store-IsStoreOf ca roots hr,
        sym (ap (λ c. c.client_cert_verifier) (ok-injective _ config h5))
            ∙ sym (ok-injective _ asked h4),
      )
