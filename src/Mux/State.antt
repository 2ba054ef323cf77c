-- ===== src/Mux/State.antt =====
-- src/mux/lib.rs: the data that the multiplexor, its task and its streams share.
--
-- Memory behind an `Arc` that a stream and the task share is a cell of the store, named by its
-- number. The other ends of the channels (those of `tokio`) are the environment: a call that
-- sends asks it for the outcome, and what was handed over is recorded in the log, oldest first.
use penguin_rs.Base.{ℕ, List, [], ◌∷◌, ◌++◌, Bool, Option, ◌==◌, if◌then◌else◌}
use penguin_rs.Mux.Frame
use penguin_rs.Mux.Frame.{Frame, BindPayload}

pub data Error : Type 0 where
  closed send_stream_to_client unsupported_operation flow_id_rejected : Error
  peer_unsupported_operation datagram_host_too_long text_message conn_ack_gone channel_closed :
      Error
  invalid_frame : Frame.Error → Error
  -- An error of the WebSocket, in a box that a number names.
  web_socket : ℕ → Error

-- The memory that the two ends of a stream share.
pub record Cell : Type 0 where
  pub finish_sent : Bool
  pub psh_send_remaining : ℕ

-- `MuxStream`: the user's end. The channel of received data is named by the cell.
pub record MuxStream : Type 0 where
  pub flow_id : ℕ
  pub dest_host : List ℕ
  pub dest_port : ℕ
  pub cell : ℕ
  pub psh_recvd_since : ℕ
  pub buf : List ℕ
  pub rwnd_threshold : ℕ

-- `EstablishedStreamData`: the task's end. `sender` names the channel of received data.
pub record EstablishedStreamData : Type 0 where
  pub sender : Option ℕ
  pub cell : ℕ

-- The number names the oneshot channel on which the requester waits.
pub data FlowSlot : Type 0 where
  requested : ℕ → FlowSlot
  established : EstablishedStreamData → FlowSlot
  bind_requested : ℕ → FlowSlot

pub record Datagram : Type 0 where
  pub flow_id : ℕ
  pub target_host : List ℕ
  pub target_port : ℕ
  pub payload_data : List ℕ

pub record BindRequest : Type 0 where
  pub flow_id : ℕ
  pub payload : BindPayload

-- The outcome of a `try_send`.
pub data TrySend : Type 0 where
  sent full closed : TrySend

pub record Env : Type 0 where
  -- Whether `tx_frame_rx` is still open.
  pub frame_open : Bool
  -- Whether the requester behind a oneshot channel still waits.
  pub is_waiting : ℕ → Bool
  -- Whether the user takes the stream, the bind request, the datagram, the data of a stream.
  pub stream_taken : Bool
  pub bind_taken : Bool
  pub datagram_send : TrySend
  pub data_send : ℕ → TrySend

pub data Effect : Type 0 where
  sent_frame : Frame → Effect
  new_stream : MuxStream → Effect
  answer_connect : ℕ → Option MuxStream → Effect
  answer_bind : ℕ → Bool → Effect
  delivered : ℕ → List ℕ → Effect
  dropped_sender : ℕ → Effect
  woke_writer : ℕ → Effect
  got_datagram : Datagram → Effect
  got_bind : BindRequest → Effect
  -- `MuxStream::drop`: the flow ID goes to `dropped_ports_tx`.
  dropped_port : ℕ → Effect
  -- `ws.start_send_unpin(Message::Binary(frame))`.
  ws_binary : Frame → Effect

pub record Task : Type 0 where
  pub flows : List (ℕ × FlowSlot)
  pub cells : ℕ → Cell
  pub next_cell : ℕ
  pub rwnd : ℕ
  pub default_rwnd_threshold : ℕ
  -- Whether `bnd_request_tx` is there.
  pub accepts_binds : Bool
  pub log : List Effect

abbrev pub emit : Task → Effect → Task
emit s e = record s { log = s.log ++ (e ∷ []) }

abbrev pub set_cell : Task → ℕ → Cell → Task
set_cell s i c = record s { cells = λ j. if i == j then c else s.cells j }

abbrev pub set_flows : Task → List (ℕ × FlowSlot) → Task
set_flows s flows = record s { flows = flows }

-- `tx_frame_tx.send(frame)`, whose result the caller ignores by `.ok()`.
abbrev pub send_frame : Env → Task → Frame → Task
send_frame env s frame = if env.frame_open then emit s (sent_frame frame) else s
