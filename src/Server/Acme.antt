-- ===== src/Server/Acme.antt =====
-- src/server/acme/mod.rs: how a certificate is issued, and renewed.
--
-- What the ACME server, the processes and the crate `rcgen` give is the record `Answers`; where the
-- answers to a loop's requests end, the loop still runs. The waits are events.
pub mod Helper
pub mod Waiting
pub mod Issuing
pub mod Renewing
mod Examples
use penguin_rs.Base.{
  ℕ, ◌+◌, ◌*◌, List, [], ◌∷◌, ◌++◌, Bool, true, false, Option, none, some, Result, ok, err,
  if◌then◌else◌,
}
use penguin_rs.Mux.Timing.{Backoff, new_backoff, advance}
use penguin_rs.Server.Service.{Text}
use penguin_rs.Server.Acme.Helper.{
  Authorization, Turn, OrderStatus, ready, invalid, other_order, Error, instant_acme,
  certificate_generation, tls, order_invalid, Event, slept, Job, remove_files, process_challenges,
}

abbrev pub seconds : ℕ → ℕ
seconds n = n * 1000000000

unfoldable pub max_order_retries : ℕ
max_order_retries = 10

unfoldable pub order_backoff : Backoff
unfolding max_order_retries
order_backoff = new_backoff (seconds 5) (seconds 60) 2 max_order_retries

-- How far the wait for the order is: it still goes on, the product of a duration panicked, or it has
-- ended, by an error or by a ready order.
pub data Progress (A : Type 0) : Type 0 where
  waiting panicked : Progress A
  finished : Result Error A → Progress A

abbrev pub then_log : {A : Type 0} → List Event → Progress A × List Event → Progress A × List Event
then_log w job = (job.0, w ++ job.1)

-- The end of one round: `next` is the rest of the loop.
unfoldable pub after_refresh :
    List Text
    → OrderStatus
    → Option (Option ℕ × Backoff)
    → (Backoff → Progress (Unit {0}) × List Event)
    → Progress (Unit {0}) × List Event
after_refresh keys invalid backoff next =
    (finished (err (order_invalid invalid)), remove_files keys)
after_refresh keys status none next = (panicked, [])
after_refresh keys status (some (none, b)) next =
    (finished (err (order_invalid status)), remove_files keys)
after_refresh keys status (some (some sleep, b)) next = then_log (slept sleep ∷ []) (next b)

unfoldable pub is_ready : OrderStatus → Bool
is_ready ready = true
is_ready invalid = false
is_ready (other_order n) = false

unfoldable pub on_refresh :
    List Text
    → Result ℕ OrderStatus
    → Option (Option ℕ × Backoff)
    → (OrderStatus → Backoff → Progress (Unit {0}) × List Event)
    → Progress (Unit {0}) × List Event
unfolding after_refresh
on_refresh keys (err e) advanced next = (finished (err (instant_acme e)), [])
on_refresh keys (ok status) advanced next = after_refresh keys status advanced (next status)

-- The loop `while order.state().status != OrderStatus::Ready`, over the answers to `refresh`.
unfoldable pub wait_until_ready :
    List Text
    → OrderStatus
    → List (Result ℕ OrderStatus)
    → Backoff
    → Progress (Unit {0}) × List Event
unfolding is_ready on_refresh
wait_until_ready keys status [] backoff =
    if is_ready status then (finished (ok tt), []) else (waiting, [])
wait_until_ready keys status (answer ∷ answers) backoff =
    let again =
      on_refresh keys answer (advance backoff) (λ s b. wait_until_ready keys s answers b) in
    if is_ready status then (finished (ok tt), []) else again

-- The answers to the steps of one order, for what each is asked. Private keys and parameters are named
-- by numbers; where there are no more answers about the certificate, the loop for it still runs.
pub record Answers : Type 0 where
  pub new_order : List Text → Result ℕ OrderStatus
  pub authorizations : Result ℕ (List (Authorization × Turn))
  pub refresh : List (Result ℕ OrderStatus)
  pub certificate_params : List Text → Result ℕ ℕ
  pub generate : Result ℕ ℕ
  pub serialize_request : ℕ → ℕ → Result ℕ Text
  pub finalize_order : Text → Result ℕ (Unit {0})
  pub certificate : List (Result ℕ (Option Text))

abbrev pub Certificate : Type 0
Certificate = ℕ × Text

-- The `?` of a call whose error is one of `instant_acme`, of `rcgen`, or of the step itself.
abbrev pub try_call :
    {A B : Type 0} (kind : ℕ → Error)
    → Result ℕ A
    → (A → Progress B × List Event)
    → Progress B × List Event
try_call kind (err e) next = (finished (err (kind e)), [])
try_call kind (ok a) next = next a

-- The loop that asks for the certificate once a second.
unfoldable pub wait_for_certificate :
    List Text → ℕ → List (Result ℕ (Option Text)) → Progress Certificate × List Event
wait_for_certificate keys private_key [] = (waiting, [])
wait_for_certificate keys private_key (err e ∷ answers) = (finished (err (instant_acme e)), [])
wait_for_certificate keys private_key (ok none ∷ answers) =
    then_log (slept (seconds 1) ∷ []) (wait_for_certificate keys private_key answers)
wait_for_certificate keys private_key (ok (some chain) ∷ answers) =
    (finished (ok (private_key, chain)), remove_files keys)

unfoldable pub finalize_order_for :
    List Text → List Text → Answers → Progress Certificate × List Event
unfolding wait_for_certificate
finalize_order_for domains keys a =
    try_call certificate_generation (a.certificate_params domains) (λ params.
      try_call certificate_generation a.generate (λ private_key.
        try_call certificate_generation (a.serialize_request params private_key) (λ csr.
          try_call instant_acme (a.finalize_order csr)
            (λ u. wait_for_certificate keys private_key a.certificate))))

unfoldable pub on_order_ready :
    List Text
    → List Text
    → Answers
    → Progress (Unit {0}) × List Event
    → Progress Certificate × List Event
unfolding finalize_order_for
on_order_ready domains keys a (waiting, w) = (waiting, w)
on_order_ready domains keys a (panicked, w) = (panicked, w)
on_order_ready domains keys a (finished (err e), w) = (finished (err e), w)
on_order_ready domains keys a (finished (ok u), w) = then_log w (finalize_order_for domains keys a)

unfoldable pub on_challenges :
    List Text → OrderStatus → Answers → Job (List Text) → Progress Certificate × List Event
unfolding on_order_ready wait_until_ready order_backoff
on_challenges domains status a (err e, w) = (finished (err e), w)
on_challenges domains status a (ok keys, w) =
    then_log w
      (on_order_ready domains keys a (wait_until_ready keys status a.refresh order_backoff))

unfoldable pub issue : List Text → Answers → Progress Certificate × List Event
unfolding on_challenges process_challenges
issue domains a = try_call instant_acme (a.new_order domains) (λ status.
    try_call instant_acme a.authorizations
      (λ auths. on_challenges domains status a (process_challenges [] auths)))

-- The client of the process: the account, what it renews, and the configuration in the hot-swappable
-- container. The helper is the one command of the process.
pub record Client : Type 0 where
  pub account : ℕ
  pub domain_names : List Text
  pub tls_ca : Option Text
  pub tls_config : ℕ

-- The arguments of the server that matter here.
pub record AcmeArgs : Type 0 where
  pub has_challenge_helper : Bool
  pub tls_acme_email : Option Text
  pub tls_acme_accept_tos : Bool
  pub tls_acme_url : Text
  pub tls_domain : List Text
  pub tls_ca : Option Text

unfoldable pub contact_of : Option Text → List Text
contact_of none = []
contact_of (some email) = ((b'm' ∷ b'a' ∷ b'i' ∷ b'l' ∷ b't' ∷ b'o' ∷ b':' ∷ []) ++ email) ∷ []

unfoldable pub client_from :
    AcmeArgs
    → ℕ
    → Progress Certificate × List Event
    → (Certificate → Option Text → Result ℕ ℕ)
    → Progress Client × List Event
client_from args account (waiting, w) make_identity = (waiting, w)
client_from args account (panicked, w) make_identity = (panicked, w)
client_from args account (finished (err e), w) make_identity = (finished (err e), w)
client_from args account (finished (ok certificate), w) make_identity = then_log w (
    try_call tls (make_identity certificate args.tls_ca) (λ config. (
      finished (
          ok (record {
            account = account;
            domain_names = args.tls_domain;
            tls_ca = args.tls_ca;
            tls_config = config;
          })),
      [],
    )))

-- `ACME_CLIENT` is the first argument, and what becomes of it the client that is returned.
unfoldable pub populate_or_get :
    Option Client
    → AcmeArgs
    → (List Text → Bool → Text → Result ℕ ℕ)
    → Answers
    → (Certificate → Option Text → Result ℕ ℕ)
    → Progress Client × List Event
unfolding contact_of client_from issue
populate_or_get acme_client args create_account a make_identity =
    let fresh : Progress Client × List Event =
      try_call instant_acme
        (create_account (contact_of args.tls_acme_email) args.tls_acme_accept_tos args.tls_acme_url)
        (λ account. client_from args account (issue args.tls_domain a) make_identity) in
    if args.has_challenge_helper
    then elim acme_client [ some client ↦ (finished (ok client), []) | none ↦ fresh ]
    else (panicked, [])

-- One tick of the renewal: what `issue` comes to, and what making a configuration gives.
pub record Renewal : Type 0 where
  pub issued : Result Error Certificate
  pub make_server_config : Certificate → Result ℕ ℕ

unfoldable pub reload_tls_identity_from_rcgen_pem : ℕ → Result ℕ ℕ → Result ℕ (Unit {0}) × ℕ
reload_tls_identity_from_rcgen_pem identity (err e) = (err e, identity)
reload_tls_identity_from_rcgen_pem identity (ok new) = (ok tt, new)

-- Errors are only logged.
unfoldable pub on_issued : ℕ → Result Error Certificate → (Certificate → Result ℕ ℕ) → ℕ
unfolding reload_tls_identity_from_rcgen_pem
on_issued identity (err e) make_server_config = identity
on_issued identity (ok certificate) make_server_config =
    (reload_tls_identity_from_rcgen_pem identity (make_server_config certificate)).1

-- The configuration in the container after the rounds so far.
unfoldable pub renewal_task : ℕ → List Renewal → ℕ
unfolding on_issued
renewal_task identity [] = identity
renewal_task identity (round ∷ rounds) =
    renewal_task (on_issued identity round.issued round.make_server_config) rounds
