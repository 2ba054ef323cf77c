-- ===== src/Client/Errors.antt =====
-- src/client/maybe_retryable.rs and the errors of src/client/mod.rs: which errors end the client,
-- and which are followed by another attempt.
--
-- The error type of `tungstenite` is an argument: what the code asks of it is which of the cases
-- named here it is, and whether a boxed error is one.
use penguin_rs.Base.{ℕ, Bool, true, false, Option, none, some}
use penguin_rs.Mux.State

-- `std::io::ErrorKind`, as far as the code names it.
pub data IoErrorKind : Type 0 where
  addr_not_available broken_pipe connection_refused connection_reset host_unreachable : IoErrorKind
  network_unreachable connection_aborted not_connected network_down timed_out unexpected_eof :
      IoErrorKind
  other_kind : ℕ → IoErrorKind

unfoldable pub io_retryable : IoErrorKind → Bool
io_retryable (other_kind n) = false
io_retryable kind = true

pub data ProtocolError : Type 0 where
  received_after_closing reset_without_closing_handshake send_after_closing handshake_incomplete :
      ProtocolError
  other_protocol : ℕ → ProtocolError

unfoldable pub protocol_retryable : ProtocolError → Bool
protocol_retryable (other_protocol n) = false
protocol_retryable e = true

-- The cases of the error of `tungstenite` that the code tells apart.
pub data TungsteniteCase : Type 0 where
  io : IoErrorKind → TungsteniteCase
  already_closed connection_closed : TungsteniteCase
  protocol : ProtocolError → TungsteniteCase
  other : TungsteniteCase

pub record Tungstenite (E : Type 0) : Type 0 where
  pub case_of : E → TungsteniteCase
  pub downcast_ref : ℕ → Option E

unfoldable pub tungstenite_retryable : TungsteniteCase → Bool
tungstenite_retryable (io kind) = io_retryable kind
tungstenite_retryable already_closed = true
tungstenite_retryable connection_closed = true
tungstenite_retryable (protocol e) = protocol_retryable e
tungstenite_retryable other = false

-- The messages of the errors of other modules do not matter here: they are numbers.
pub data Error (E : Type 0) : Type 0 where
  max_retry_count_reached : Error E → Error E
  parse_remote remote_handler_exited tls : ℕ → Error E
  tungstenite : E → Error E
  mux : State.Error → Error E
  handshake_timeout handshake_cancelled stream_request_timeout remote_disconnected : Error E

unfoldable pub mux_retryable : {E : Type 0} → Tungstenite E → State.Error → Bool
unfolding tungstenite_retryable
mux_retryable ws State.send_stream_to_client = true
mux_retryable ws State.closed = true
mux_retryable ws (State.web_socket boxed) = elim (ws.downcast_ref boxed) [
  | none ↦ false
  | some e ↦ tungstenite_retryable (ws.case_of e)
]
mux_retryable ws e = false

module _ {E : Type 0} ⦃ws : Tungstenite E⦄ where
  unfoldable pub retryable : Error E → Bool
  unfolding tungstenite_retryable mux_retryable
  retryable (tungstenite e) = tungstenite_retryable (ws.case_of e)
  retryable (mux e) = mux_retryable ws e
  retryable handshake_timeout = true
  retryable stream_request_timeout = true
  retryable remote_disconnected = true
  retryable e = false
