-- ===== src/Server/Listening/Encryption.antt =====
-- The listeners of `server_main` in src/server/mod.rs: which addresses, and with TLS or without.
use penguin_rs.Base.{
  ℕ, zero, suc, ◌≡◌, refl, sym, ap, ◌∙◌, List, [], ◌∷◌, map, length, Bool, true, false, ◌||◌,
  Option, none, some, Result, ok, err, subst, All,
}
use penguin_rs.Remote.Str.{Text}
use penguin_rs.Server.Listening.{
  ServerArgs, io, tls, signal, acme, Outcome, panicked, returned, and_then, from_call,
  arg_to_sockaddrs, TlsCalls, tls_from_files, tls_from_acme, check_start_tls, Listener, Joined,
  finished, cancelled, task_panicked, serving, Sockets, start_listeners, join_listeners, on_started,
  server_main,
}

abbrev pub is_some {ℓ} : {A : Type ℓ} → Option A → Bool
is_some none = false
is_some (some a) = true

abbrev pub is_cons : List Text → Bool
is_cons [] = false
is_cons (x ∷ xs) = true

-- Whether the arguments ask for TLS: by a key, or by a domain for ACME.
abbrev pub wants_tls : ServerArgs → Bool
wants_tls args = is_some args.tls_key || is_cons args.tls_domain

and_then-ok :
    {A B : Type 0} (m : Outcome A) (k : A → Outcome B) (b : B)
    → and_then m k ≡ returned (ok b)
    → (a : A) × (m ≡ returned (ok a)) × (k a ≡ returned (ok b))
and_then-ok panicked k b h = absurd (cc h)
and_then-ok (returned (err e)) k b h = absurd (cc h)
and_then-ok (returned (ok a)) k b h = (a, refl, h)

returned_ok :
    {A : Type 0} (a b : A) → ◌≡◌ {A = Outcome A} (returned (ok a)) (returned (ok b)) → a ≡ b
returned_ok a b h = cc h

tls_from_files-some :
    (calls : TlsCalls) (key : Text) (cert ca : Option Text) (t : Option ℕ)
    → tls_from_files calls key cert ca ≡ returned (ok t)
    → is_some t ≡ true
unfolding tls_from_files
tls_from_files-some calls key none ca t h = absurd (cc h)
tls_from_files-some calls key (some cert) ca t h =
    let (config, made, h') =
      and_then-ok (from_call tls (calls.make_tls_identity cert key ca)) _ t h in
    let (u, registered, h'') =
      and_then-ok (from_call signal calls.register_signal_handler) _ t h' in
    ap is_some (sym (returned_ok (some config) t h''))

tls_from_acme-is_cons :
    (calls : TlsCalls) (domains : List Text) (t : Option ℕ)
    → tls_from_acme calls domains ≡ returned (ok t)
    → is_some t ≡ is_cons domains
unfolding tls_from_acme
tls_from_acme-is_cons calls [] t h = ap is_some (sym (returned_ok none t h))
tls_from_acme-is_cons calls (d ∷ domains) t h =
    let (config, got, h') = and_then-ok (from_call acme calls.populate_or_get) _ t h in
    ap is_some (sym (returned_ok (some config) t h'))

check_start_tls-wants_tls :
    (calls : TlsCalls) (args : ServerArgs) (t : Option ℕ)
    → check_start_tls calls args ≡ returned (ok t)
    → is_some t ≡ wants_tls args
unfolding check_start_tls
check_start_tls-wants_tls calls args t h = decided args.tls_key h
  where
    decided :
        (key : Option Text)
        → (elim key [
          | some k ↦ tls_from_files calls k args.tls_cert args.tls_ca
          | none ↦ tls_from_acme calls args.tls_domain
        ])
          ≡ returned (ok t)
        → is_some t ≡ (is_some key || is_cons args.tls_domain)
    decided none h = tls_from_acme-is_cons calls args.tls_domain t h
    decided (some k) h = tls_from_files-some calls k args.tls_cert args.tls_ca t h

module _ {Ip : Type 0} where
  abbrev pub HasTls : Bool → Listener Ip → Type 0
  HasTls wanted l = is_some l.tls_config ≡ wanted

  start_listeners-all :
      (sockets : Sockets Ip) (t : Option ℕ) (addrs : List (Ip × ℕ)) (ls : List (Listener Ip))
      → start_listeners sockets t addrs ≡ returned (ok ls)
      → (map (λ l. l.sockaddr) ls ≡ addrs) × All (HasTls (is_some t)) ls
  unfolding start_listeners
  start_listeners-all sockets t [] ls h =
      subst (λ l. (map (λ x. x.sockaddr) l ≡ []) × All (HasTls (is_some t)) l) (returned_ok [] ls h)
        (refl, tt)
  start_listeners-all sockets t (a ∷ addrs) ls h =
      let (u, bound, h1) = and_then-ok (from_call io (sockets.bind a)) _ ls h in
      let (v, named, h2) = and_then-ok (from_call io (sockets.local_addr a)) _ ls h1 in
      let (rest, started, h3) = and_then-ok (start_listeners sockets t addrs) _ ls h2 in
      let (same, all) = start_listeners-all sockets t addrs rest started in
      subst (λ l. (map (λ x. x.sockaddr) l ≡ a ∷ addrs) × All (HasTls (is_some t)) l)
        (returned_ok (record { sockaddr = a; tls_config = t } ∷ rest) ls h3)
        (ap (λ l. a ∷ l) same, (refl, all))

  join_listeners-serving :
      (started ls : List (Listener Ip)) (left : ℕ) (joined : List Joined)
      → join_listeners started left joined ≡ serving ls
      → started ≡ ls
  unfolding join_listeners
  join_listeners-serving started ls zero joined h = absurd (cc h)
  join_listeners-serving started ls (suc left) [] h = cc h
  join_listeners-serving started ls (suc left) (finished ∷ joined) h =
      join_listeners-serving started ls left joined h
  join_listeners-serving started ls (suc left) (cancelled ∷ joined) h =
      join_listeners-serving started ls left joined h
  join_listeners-serving started ls (suc left) (task_panicked ∷ joined) h = absurd (cc h)

  on_started-serving :
      (o : Outcome (List (Listener Ip))) (joined : List Joined) (ls : List (Listener Ip))
      → on_started o joined ≡ serving ls
      → o ≡ returned (ok ls)
  unfolding on_started
  on_started-serving panicked joined ls h = absurd (cc h)
  on_started-serving (returned (err e)) joined ls h = absurd (cc h)
  on_started-serving (returned (ok started)) joined ls h =
      ap (λ l. returned (ok l)) (join_listeners-serving started ls (length started) joined h)

  -- A server that serves listens on all the addresses of its arguments, in order, on every one of
  -- them with TLS where a key or a domain was given, and else on none.
  pub server_main_listens :
      (new_state : Result ℕ (Unit {0})) (parse : Text → Result ℕ Ip) (calls : TlsCalls)
      (sockets : Sockets Ip) (args : ServerArgs) (joined : List Joined) (ls : List (Listener Ip))
      → server_main new_state parse calls sockets args joined ≡ serving ls
      → (arg_to_sockaddrs parse args ≡ returned (ok (map (λ l. l.sockaddr) ls)))
        × All (HasTls (wants_tls args)) ls
  unfolding server_main
  server_main_listens new_state parse calls sockets args joined ls h =
      let (u, made, h1) =
        and_then-ok (from_call io new_state) _ ls (on_started-serving _ joined ls h) in
      let (addrs, read, h2) = and_then-ok (arg_to_sockaddrs parse args) _ ls h1 in
      let (t, checked, h3) = and_then-ok (check_start_tls calls args) _ ls h2 in
      let (same, all) = start_listeners-all sockets t addrs ls h3 in
      (
        read ∙ ap (λ l. returned (ok l)) (sym same),
        subst (λ b. All (HasTls b) ls) (check_start_tls-wants_tls calls args t checked) all,
      )
