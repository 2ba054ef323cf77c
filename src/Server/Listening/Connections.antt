-- ===== src/Server/Listening/Connections.antt =====
-- src/server/mod.rs: `run_listener`, the reloading of its certificate, and how long a connection is
-- served; with `OptionalDuration::timeout` of src/mux/timing.rs.
--
-- A future is known by its output and the time it takes, in nanoseconds, `none` where it never
-- completes. The timer of `tokio` is the interface `Timer`.
use penguin_rs.Base.{
  ℕ, ◌+◌, ◌≤◌, ◌<◌, ◌≡◌, refl, ap, List, [], ◌∷◌, ◌++◌, Bool, true, Option, none, some, Result, ok,
  err, if◌then◌else◌,
}
use penguin_rs.Mux.Options.{OptionalDuration, from_parsed_secs}

pub record Future (A : Type 0) : Type 0 where
  pub completes : Option ℕ
  pub output : A

-- Whether a future that takes so long completes before the limit is noticed, and when it is noticed. A
-- future that completes within the limit is in time; one that takes longer may be so too, since the
-- limit is only looked at where the future yields.
pub record Timer : Type 0 where
  pub in_time : ℕ → ℕ → Bool
  pub in_time-lt : (limit taken : ℕ) → taken < limit → in_time limit taken ≡ true
  pub fires : ℕ → ℕ
  pub fires-le : (limit : ℕ) → limit ≤ fires limit

-- How a time limit ends: with the output, or by the limit, and after how long.
pub data Timed (A : Type 0) : Type 0 where
  pending : Timed A
  done : ℕ → A → Timed A
  elapsed : ℕ → Timed A

module _ {A : Type 0} where
  unfoldable pub no_limit : Option ℕ → A → Timed A
  no_limit none output = pending
  no_limit (some taken) output = done taken output

  unfoldable pub tokio_timeout : Timer → ℕ → Option ℕ → A → Timed A
  tokio_timeout timer limit none output = elapsed (timer.fires limit)
  tokio_timeout timer limit (some taken) output =
      if timer.in_time limit taken then done taken output else elapsed (timer.fires limit)

  unfoldable pub timeout : Timer → OptionalDuration → Future A → Timed A
  unfolding no_limit tokio_timeout
  timeout timer none f = no_limit f.completes f.output
  timeout timer (some duration) f = tokio_timeout timer duration f.completes f.output

-- How the task of a connection ends; the connection is closed then.
pub data Ending : Type 0 where
  closed handshake_error handshake_timed_out http_error http_timed_out : Ending

-- When it ends, and how; `none` where it never does.
abbrev pub Served : Type 0
Served = Option (ℕ × Ending)

unfoldable pub http_ending : Timed (Result ℕ (Unit {0})) → Served
http_ending pending = none
http_ending (done taken (ok u)) = some (taken, closed)
http_ending (done taken (err e)) = some (taken, http_error)
http_ending (elapsed taken) = some (taken, http_timed_out)

-- `conn` is the work of `hyper` up to the end of the connection or its upgrade.
unfoldable pub serve_connection : Timer → OptionalDuration → Future (Result ℕ (Unit {0})) → Served
unfolding http_ending timeout
serve_connection timer http_timeout conn = http_ending (timeout timer http_timeout conn)

abbrev after : ℕ → Served → Served
after taken none = none
after taken (some (t, ending)) = some (taken + t, ending)

unfoldable pub on_handshake : Timed (Result ℕ (Unit {0})) → Served → Served
on_handshake pending served = none
on_handshake (done taken (ok u)) served = after taken served
on_handshake (done taken (err e)) served = some (taken, handshake_error)
on_handshake (elapsed taken) served = some (taken, handshake_timed_out)

unfoldable pub serve_connection_tls :
    Timer
    → OptionalDuration
    → OptionalDuration
    → Future (Result ℕ (Unit {0}))
    → Future (Result ℕ (Unit {0}))
    → Served
unfolding on_handshake serve_connection timeout
serve_connection_tls timer tls_timeout http_timeout accept conn =
    on_handshake (timeout timer tls_timeout accept) (serve_connection timer http_timeout conn)

-- What a listener meets, and the signal that reloads its certificate, in the order of time: a
-- connection, named by a number, or a new configuration where it could be made.
pub data ListenerEvent : Type 0 where
  accepted accept_error : ℕ → ListenerEvent
  reload : Result ℕ ℕ → ListenerEvent

unfoldable pub reload_tls_identity : ℕ → Result ℕ ℕ → ℕ
reload_tls_identity identity (err e) = identity
reload_tls_identity identity (ok new) = new

unfoldable pub reload_listener : Option ℕ → Result ℕ ℕ → Option ℕ
unfolding reload_tls_identity
reload_listener none made = none
reload_listener (some identity) made = some (reload_tls_identity identity made)

-- The connections that are served, each with the configuration it is served with, `none` without TLS.
-- A listener without TLS has nothing that a signal reloads.
unfoldable pub run_listener : Option ℕ → List ListenerEvent → List (ℕ × Option ℕ)
unfolding reload_listener
run_listener tls_config [] = []
run_listener tls_config (accepted stream ∷ events) =
    (stream, tls_config) ∷ run_listener tls_config events
run_listener tls_config (accept_error e ∷ events) = run_listener tls_config events
run_listener tls_config (reload made ∷ events) =
    run_listener (reload_listener tls_config made) events

-- The last configuration that could be made, or the first one; none remains none.
abbrev pub configuration_after : Option ℕ → List ListenerEvent → Option ℕ
configuration_after tls_config [] = tls_config
configuration_after tls_config (accepted stream ∷ events) = configuration_after tls_config events
configuration_after tls_config (accept_error e ∷ events) = configuration_after tls_config events
configuration_after tls_config (reload (err e) ∷ events) = configuration_after tls_config events
configuration_after none (reload (ok new) ∷ events) = configuration_after none events
configuration_after (some old) (reload (ok new) ∷ events) = configuration_after (some new) events

-- A connection is served with the last configuration that could be made before it, whatever errors
-- came before, or without TLS where the listener has none; what is served before and after it does not
-- depend on it.
pub run_listener-append :
    (tls_config : Option ℕ) (stream : ℕ) (before later : List ListenerEvent)
    → run_listener tls_config (before ++ accepted stream ∷ later)
      ≡ run_listener tls_config before
        ++ ((stream, configuration_after tls_config before)
            ∷ run_listener (configuration_after tls_config before) later)
unfolding run_listener reload_listener reload_tls_identity
run_listener-append tls_config stream [] later = refl
run_listener-append tls_config stream (accepted c ∷ before) later =
    ap (λ l. (c, tls_config) ∷ l) (run_listener-append tls_config stream before later)
run_listener-append tls_config stream (accept_error e ∷ before) later =
    run_listener-append tls_config stream before later
run_listener-append none stream (reload (err e) ∷ before) later =
    run_listener-append none stream before later
run_listener-append none stream (reload (ok new) ∷ before) later =
    run_listener-append none stream before later
run_listener-append (some old) stream (reload (err e) ∷ before) later =
    run_listener-append (some old) stream before later
run_listener-append (some old) stream (reload (ok new) ∷ before) later =
    run_listener-append (some new) stream before later

tokio_timeout-quick :
    {A : Type 0} (timer : Timer) (limit taken : ℕ) (output : A)
    → taken < limit
    → tokio_timeout timer limit (some taken) output ≡ done taken output
unfolding tokio_timeout
tokio_timeout-quick timer limit taken output h = rw (timer.in_time-lt limit taken h) refl

-- A connection whose handshake and whose HTTP data each take less than the limit is served as it is
-- without a limit.
pub serve_connection_tls_quick :
    (timer : Timer) (limit : ℕ) (accept conn : Future (Result ℕ (Unit {0}))) (taken taken' : ℕ)
    → accept.completes ≡ some taken
    → conn.completes ≡ some taken'
    → taken < limit
    → taken' < limit
    → serve_connection_tls timer (some limit) (some limit) accept conn
      ≡ serve_connection_tls timer none none accept conn
unfolding serve_connection_tls serve_connection no_limit
serve_connection_tls_quick timer limit accept conn taken taken' a c h h' =
    rw
      (
        a,
        c,
        tokio_timeout-quick timer limit taken accept.output h,
        tokio_timeout-quick timer limit taken' conn.output h',
      )
      refl

-- With a limit, a peer that is silent in the handshake is given up.
pub serve_connection_tls_silent :
    (timer : Timer) (limit : ℕ) (http_timeout : OptionalDuration)
    (accept conn : Future (Result ℕ (Unit {0})))
    → accept.completes ≡ none
    → serve_connection_tls timer (some limit) http_timeout accept conn
      ≡ some (timer.fires limit, handshake_timed_out)
unfolding serve_connection_tls tokio_timeout
serve_connection_tls_silent timer limit http_timeout accept conn h = rw h refl

-- A limit of 0 is none: a peer that is silent in the handshake is waited for without end.
pub serve_connection_tls_unlimited :
    (timer : Timer) (accept conn : Future (Result ℕ (Unit {0})))
    → accept.completes ≡ none
    → serve_connection_tls timer (from_parsed_secs 0) (from_parsed_secs 0) accept conn ≡ none
unfolding serve_connection_tls from_parsed_secs
serve_connection_tls_unlimited timer accept conn h = rw (h, no_limit) refl
