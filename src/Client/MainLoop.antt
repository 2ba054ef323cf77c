-- ===== src/Client/MainLoop.antt =====
-- src/client/mod.rs: the retry loop `main_future` of `client_main_inner`.
--
-- A round of the loop is one attempt to after_handshake with all that follows: the outcome of the
-- handshake, the events of the session, and whether the user interrupts the wait before the next
-- one.
pub mod Queue
pub mod Retries
use penguin_rs.Base.{
  ℕ, ◌*◌, List, [], ◌∷◌, Bool, Option, none, some, if◌then◌else◌, Result, ok, err,
}
use penguin_rs.Mux.Timing.{Backoff, new_backoff, advance, reset_backoff}
use penguin_rs.Client.Errors.{
  Error, Tungstenite, retryable, max_retry_count_reached, handshake_cancelled,
}
use penguin_rs.Client.Session.{
  Session, Opened, Event, Flow, continues, returned, emit, waited, on_connected,
}

pub record Round (E Addr : Type 0) : Type 0 where
  pub handshake : Result (Error E) (Unit {0})
  pub new_stream_channel : List ℕ → ℕ → Opened
  pub events : List (Event Addr)
  pub ctrl_c : Bool

pub record Main (Addr : Type 0) : Type 0 where
  pub backoff : Backoff
  pub session : Session Addr

-- The state of the loop at a time: it waits for something, it returned, or the product of a
-- duration panicked.
pub data Run (E : Type 0) : Type 0 where
  waiting panicked : Run E
  finished : Result (Error E) (Unit {0}) → Run E

-- 200 milliseconds, and a limit that is given in milliseconds.
unfoldable pub client_backoff : ℕ → ℕ → Backoff
client_backoff max_retry_interval max_retry_count =
    new_backoff (200 * 1000000) (max_retry_interval * 1000000) 2 max_retry_count

module _ {E Addr : Type 0} ⦃ws : Tungstenite E⦄ where
  -- A session that fails resets the backoff, since there was a connection.
  unfoldable pub reset_if_failed : Flow E × Session Addr → Backoff → Flow E × Main Addr
  reset_if_failed (continues, s) b = (continues, record { backoff = b; session = s })
  reset_if_failed (returned (ok u), s) b = (returned (ok u), record { backoff = b; session = s })
  reset_if_failed (returned (err e), s) b =
      (returned (err e), record { backoff = reset_backoff b; session = s })

  unfoldable pub after_handshake :
      Result (Error E) (Unit {0}) → Round E Addr → Main Addr → Flow E × Main Addr
  unfolding reset_if_failed
  after_handshake (err e) round m = (returned (err e), m)
  after_handshake (ok u) round m =
      reset_if_failed (on_connected round.new_stream_channel round.events m.session) m.backoff

  unfoldable pub after_advance :
      Error E
      → Bool
      → Option (Option ℕ × Backoff)
      → Main Addr
      → (Main Addr → Run E × Main Addr)
      → Run E × Main Addr
  after_advance e ctrl_c none m next = (panicked, m)
  after_advance e ctrl_c (some (none, b)) m next =
      (finished (err (max_retry_count_reached e)), record m { backoff = b })
  after_advance e ctrl_c (some (some interval, b)) m next =
      let m' : Main Addr = record { backoff = b; session = emit m.session (waited interval) } in
      if ctrl_c then (finished (err handshake_cancelled), m') else next m'

  unfoldable pub after_round :
      Bool → Flow E × Main Addr → (Main Addr → Run E × Main Addr) → Run E × Main Addr
  unfolding after_advance
  after_round ctrl_c (continues, m) next = (waiting, m)
  after_round ctrl_c (returned (ok u), m) next = (finished (ok u), m)
  after_round ctrl_c (returned (err e), m) next =
      if retryable e
      then after_advance e ctrl_c (advance m.backoff) m next
      else (finished (err e), m)

  unfoldable pub main_future : List (Round E Addr) → Main Addr → Run E × Main Addr
  unfolding after_handshake after_round
  main_future [] m = (waiting, m)
  main_future (round ∷ rounds) m =
      after_round round.ctrl_c (after_handshake round.handshake round m) (main_future rounds)
