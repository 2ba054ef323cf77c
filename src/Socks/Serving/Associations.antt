-- ===== src/Socks/Serving/Associations.antt =====
-- src/client/handle_remote/socks/mod.rs: which relays outlive their connection, and which events end
-- the listener.
use penguin_rs.Base.{ℕ, ◌+◌, ◌-◌, ◌≡◌, refl, ◌≢◌, List, [], ◌∷◌, true, false, Result, ok, err, All}
use penguin_rs.Socks.Io.{AsyncRead, write_response, process_socks_request, Conn, write}
use penguin_rs.Socks.V5
use penguin_rs.Socks.V5.{SocketAddr, v4, v6}
use penguin_rs.Socks.Serving.{
  aborted, left_running, handle_associate, on_local_addr, JobEvent, job_finished, accepted,
  listening, socks_loop,
}

module _ (tokio : AsyncRead) where
  -- Where the answer to a request for an association cannot be written, the handler ends with an
  -- error, and the relay that it has started is left running: nothing stops it any more.
  pub handle_associate_leaks :
      (addr : SocketAddr) (c : Conn)
      → c.writable ≡ false
      → handle_associate tokio (ok tt) (ok addr) c
        ≡ (left_running, (err (process_socks_request write_response), c))
  unfolding handle_associate V5.write_response
  handle_associate_leaks (v4 octets port) c shut = rw (shut, write) refl
  handle_associate_leaks (v6 octets port) c shut = rw (shut, write) refl

  answered-aborted :
      (addr : SocketAddr) (c : Conn)
      → c.writable ≡ true
      → (handle_associate tokio (ok tt) (ok addr) c).0 ≡ aborted
  unfolding handle_associate V5.write_response
  answered-aborted (v4 octets port) c takes = rw (takes, write) refl
  answered-aborted (v6 octets port) c takes = rw (takes, write) refl

  -- Where it can be written, the relay ends with the connection, if it was started at all.
  pub handle_associate_stops :
      (bind : Result ℕ (Unit {0})) (local_addr : Result ℕ SocketAddr) (c : Conn)
      → c.writable ≡ true
      → (handle_associate tokio bind local_addr c).0 ≢ left_running
  unfolding handle_associate on_local_addr
  handle_associate_stops (err e) local_addr c takes h = cc h
  handle_associate_stops (ok u) (err e) c takes h = cc h
  handle_associate_stops (ok u) (ok addr) c takes h = cc (answered-aborted addr c takes, h)

-- An event that ends no listener: no fatal error of a job, and no error of `accept`.
abbrev pub IsHarmless : JobEvent → Type 0
IsHarmless (job_finished (ok u)) = Unit
IsHarmless (job_finished (err (true, e))) = ⊥
IsHarmless (job_finished (err (false, e))) = Unit
IsHarmless (accepted (ok u)) = Unit
IsHarmless (accepted (err e)) = ⊥

-- However the other connections end, the listener goes on.
pub socks_loop_goes_on :
    (events : List JobEvent) (jobs : ℕ)
    → All IsHarmless events
    → (left : ℕ) × (socks_loop events jobs ≡ listening left)
unfolding socks_loop
socks_loop_goes_on [] jobs h = (jobs, refl)
socks_loop_goes_on (job_finished (ok u) ∷ events) jobs h = socks_loop_goes_on events (jobs - 1) h.1
socks_loop_goes_on (job_finished (err (true, e)) ∷ events) jobs h = absurd h.0
socks_loop_goes_on (job_finished (err (false, e)) ∷ events) jobs h =
    socks_loop_goes_on events (jobs - 1) h.1
socks_loop_goes_on (accepted (ok u) ∷ events) jobs h = socks_loop_goes_on events (jobs + 1) h.1
socks_loop_goes_on (accepted (err e) ∷ events) jobs h = absurd h.0
