-- ===== src/Client/MainLoop/Queue.antt =====
-- src/client/mod.rs: no stream command is lost or overtaken, however often the client reconnects.
use penguin_rs.Base.{
  ℕ, ◌≡◌, refl, ap, ◌∙◌, List, [], ◌∷◌, Bool, true, false, Option, none, some, if◌then◌else◌,
  Result, ok, err,
}
use penguin_rs.Mux.Timing.{Backoff, advance}
use penguin_rs.Client.Errors.{Error, Tungstenite, retryable}
use penguin_rs.Client.Session.{Session, Flow, continues, returned, waited, emit, on_connected}
use penguin_rs.Client.MainLoop.{
  Round, Main, Run, finished, reset_if_failed, after_handshake, after_advance, after_round,
  main_future,
}
use penguin_rs.Client.Session.Queue.{requesters, emit-requesters, on_connected-requesters}

module _ {E Addr : Type 0} ⦃ws : Tungstenite E⦄ where
  reset_if_failed-session :
      (r : Flow E × Session Addr) (b : Backoff) → (reset_if_failed r b).1.session ≡ r.1
  unfolding reset_if_failed
  reset_if_failed-session (continues, s) b = refl
  reset_if_failed-session (returned (ok u), s) b = refl
  reset_if_failed-session (returned (err e), s) b = refl

  after_handshake-requesters :
      (r : Result (Error E) (Unit {0})) (round : Round E Addr) (m : Main Addr)
      → requesters (after_handshake r round m).1.session ≡ requesters m.session
  unfolding after_handshake
  after_handshake-requesters (err e) round m = refl
  after_handshake-requesters (ok u) round m =
      let s = on_connected round.new_stream_channel round.events m.session in
      ap requesters (reset_if_failed-session s m.backoff)
      ∙ on_connected-requesters E round.new_stream_channel round.events m.session

  after_advance-requesters :
      (e : Error E) (stop : Bool) (next_delay : Option (Option ℕ × Backoff)) (m : Main Addr)
      (next : Main Addr → Run E × Main Addr)
      → ((m' : Main Addr) → requesters (next m').1.session ≡ requesters m'.session)
      → requesters (after_advance e stop next_delay m next).1.session ≡ requesters m.session
  unfolding after_advance
  after_advance-requesters e stop none m next h = refl
  after_advance-requesters e stop (some (none, b)) m next h = refl
  after_advance-requesters e true (some (some d, b)) m next h =
      emit-requesters m.session (waited d) refl
  after_advance-requesters e false (some (some d, b)) m next h =
      h (record { backoff = b; session = emit m.session (waited d) })
      ∙ emit-requesters m.session (waited d) refl

  after_round-requesters :
      (stop : Bool) (r : Flow E × Main Addr) (next : Main Addr → Run E × Main Addr)
      → ((m' : Main Addr) → requesters (next m').1.session ≡ requesters m'.session)
      → requesters (after_round stop r next).1.session ≡ requesters r.1.session
  unfolding after_round
  after_round-requesters stop (continues, m) next h = refl
  after_round-requesters stop (returned (ok u), m) next h = refl
  after_round-requesters stop (returned (err e), m) next h = by_test (retryable e)
    where
      by_test :
          (t : Bool)
          → requesters
              (if t
                then after_advance e stop (advance m.backoff) m next
                else (finished (err e), m)).1.session
            ≡ requesters m.session
      by_test true = after_advance-requesters e stop (advance m.backoff) m next h
      by_test false = refl

  -- Whatever happens to the connections, no command to open a stream is lost, repeated or
  -- overtaken: the handlers that were served, then the one whose command is parked, then those that
  -- still wait in the queue are at every moment the same handlers in the same order.
  pub main_future-requesters :
      (rounds : List (Round E Addr)) (m : Main Addr)
      → requesters (main_future rounds m).1.session ≡ requesters m.session
  unfolding main_future
  main_future-requesters [] m = refl
  main_future-requesters (round ∷ rounds) m =
      after_round-requesters round.ctrl_c (after_handshake round.handshake round m)
        (main_future rounds) (main_future-requesters rounds)
      ∙ after_handshake-requesters round.handshake round m
