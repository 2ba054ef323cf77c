-- ===== src/Socks/Serving.antt =====
-- src/client/handle_remote/socks/mod.rs: the listener of the SOCKS server, the server on the standard
-- streams, and the association for datagrams, whose relay is a task of its own (Socks/Relay).
--
-- Binding the socket of the relay, accepting connections, and how the jobs of the connections end are
-- arguments; errors of the operating system are numbers.
pub mod Associations
use penguin_rs.Base.{ℕ, ◌+◌, ◌-◌, List, [], ◌∷◌, Bool, true, false, Result, ok, err, if◌then◌else◌}
use penguin_rs.Client.Handlers.{FatalError}
use penguin_rs.Client.Errors.{IoErrorKind}
use penguin_rs.Socks.Io.{
  AsyncRead, Context, Error, fatal, process_socks_request, bind_udp_socket, get_local_addr,
  read_version, Conn, Session, fail, ◌>>◌, and_then, read_exact,
}
use penguin_rs.Socks.V5
use penguin_rs.Socks.V5.{SocketAddr}

-- What becomes of the task of the relay when the handler of the connection has returned.
pub data RelayTask : Type 0 where
  not_started aborted left_running : RelayTask

abbrev pub Association : Type 0
Association = RelayTask × (Result Error (Unit {0}) × Conn)

module _ (tokio : AsyncRead) where
  refuse : Context → Session (Unit {0})
  refuse context = V5.write_response_unspecified 0x01 >> fail (process_socks_request context)

  -- After the answer one more byte, or the end of the stream, is waited for.
  answered : Result Error (Unit {0}) × Conn → Association
  answered (err e, c) = (left_running, (err e, c))
  answered (ok u, c) = (aborted, (ok tt, (read_exact tokio read_version 1 c).1))

  unfoldable pub on_local_addr : Result ℕ SocketAddr → Conn → Association
  unfolding refuse answered
  on_local_addr (err e) c = (not_started, refuse get_local_addr c)
  on_local_addr (ok addr) c = answered (V5.write_response 0x00 addr c)

  unfoldable pub handle_associate : Result ℕ (Unit {0}) → Result ℕ SocketAddr → Conn → Association
  unfolding refuse on_local_addr
  handle_associate (err e) local_addr c = (not_started, refuse bind_udp_socket c)
  handle_associate (ok u) local_addr c = on_local_addr local_addr c

-- What the `select!` of the listener finds: a job that ended, or the outcome of `accept`.
pub data JobEvent : Type 0 where
  -- The error of a job is fatal, with what the main loop lacks, or is only logged.
  job_finished : Result (Bool × FatalError) (Unit {0}) → JobEvent
  accepted : Result IoErrorKind (Unit {0}) → JobEvent

pub data ListenerRun : Type 0 where
  -- With the number of jobs that run.
  listening : ℕ → ListenerRun
  returned : Result FatalError (Unit {0}) → ListenerRun

unfoldable pub after_job :
    Result (Bool × FatalError) (Unit {0}) → ℕ → (ℕ → ListenerRun) → ListenerRun
after_job (ok u) jobs next = next (jobs - 1)
after_job (err (true, e)) jobs next = returned (err e)
after_job (err (false, e)) jobs next = next (jobs - 1)

unfoldable pub after_accept : Result IoErrorKind (Unit {0}) → ℕ → (ℕ → ListenerRun) → ListenerRun
after_accept (err e) jobs next = returned (err (FatalError.client_io e))
after_accept (ok u) jobs next = next (jobs + 1)

unfoldable pub socks_loop : List JobEvent → ℕ → ListenerRun
unfolding after_job after_accept
socks_loop [] jobs = listening jobs
socks_loop (job_finished outcome ∷ events) jobs = after_job outcome jobs (socks_loop events)
socks_loop (accepted outcome ∷ events) jobs = after_accept outcome jobs (socks_loop events)

-- The listener is opened first.
unfoldable pub handle_socks : Result IoErrorKind (Unit {0}) → List JobEvent → ListenerRun
unfolding socks_loop
handle_socks (err e) events = returned (err (FatalError.client_io e))
handle_socks (ok u) events = socks_loop events 0

-- The one connection over the standard streams.
unfoldable pub handle_socks_stdio :
    Result (Bool × FatalError) (Unit {0}) → Result FatalError (Unit {0})
handle_socks_stdio (ok u) = ok tt
handle_socks_stdio (err (true, e)) = err e
handle_socks_stdio (err (false, e)) = ok tt
