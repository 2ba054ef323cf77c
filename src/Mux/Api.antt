-- ===== src/Mux/Api.antt =====
-- src/mux/lib.rs: what the user calls on a `Multiplexor`, and the reply to a bind request. The
-- numbers of the random generator are an argument, and so is what happens while a call waits.
pub mod Handshake
pub mod Binds
pub mod Keys
mod Examples
use penguin_rs.Base.{
  ℕ, zero, suc, List, [], ◌∷◌, Bool, true, false, Option, none, some, if◌then◌else◌, ltb, length,
  lookup, insert, Result, ok, err,
}
use penguin_rs.Mux.Frame.{
  Frame, BindType, new_connect, new_finish, new_reset, new_bind, new_datagram_owned,
}
use penguin_rs.Mux.State.{
  Error, closed, unsupported_operation, datagram_host_too_long, flow_id_rejected, MuxStream,
  FlowSlot, requested, bind_requested, Datagram, BindRequest, Env, Task, emit, sent_frame,
  set_flows, send_frame, dropped_port,
}
use penguin_rs.Mux.Stream.{Poll, pending, ready}

-- `self.tx_frame_tx.send(frame).or(Err(Error::Closed))`.
abbrev pub send_or_closed : Env → Task → Frame → Result Error (Unit {0}) × Task
send_or_closed env s frame =
    if env.frame_open then (ok tt, emit s (sent_frame frame)) else (err closed, s)

-- The first of the random numbers that is not a key of the map; `none` while all of them were.
unfoldable pub next_available_key : {V : Type 0} → List (ℕ × V) → List ℕ → Option ℕ
next_available_key flows [] = none
next_available_key flows (i ∷ random) =
    let later = next_available_key flows random in
    elim (lookup i flows) [ none ↦ some i | some slot ↦ later ]

-- One round of `new_stream_channel` up to the wait, with the key and the oneshot channel.
unfoldable pub request_stream : Env → Task → ℕ → ℕ → List ℕ → ℕ → Result Error (Unit {0}) × Task
request_stream env s flow_id sender host port =
    send_or_closed env (set_flows s (insert flow_id (requested sender) s.flows))
      (new_connect host port flow_id s.rwnd)

-- A round: the random numbers, the oneshot channel, and what the task does until it answers.
-- The answer is `none` where the channel was dropped.
pub record Attempt : Type 0 where
  pub env : Env
  pub random : List ℕ
  pub sender : ℕ
  pub wait : Task → Option (Option MuxStream) × Task

unfoldable pub after_wait :
    Option (Option MuxStream) × Task
    → (Task → Poll (Result Error MuxStream) × Task)
    → Poll (Result Error MuxStream) × Task
after_wait (none, s) retry = (ready (err closed), s)
after_wait (some (some stream), s) retry = (ready (ok stream), s)
after_wait (some none, s) retry = retry s

unfoldable pub after_request :
    (Task → Option (Option MuxStream) × Task)
    → Result Error (Unit {0}) × Task
    → (Task → Poll (Result Error MuxStream) × Task)
    → Poll (Result Error MuxStream) × Task
unfolding after_wait
after_request wait (err e, s) retry = (ready (err e), s)
after_request wait (ok _, s) retry = after_wait (wait s) retry

-- Pending where the random numbers of a round were all in use.
unfoldable pub new_stream_channel :
    (ℕ → Attempt) → List ℕ → ℕ → ℕ → Task → Poll (Result Error MuxStream) × Task
unfolding after_request
new_stream_channel attempts host port zero s = (ready (err flow_id_rejected), s)
new_stream_channel attempts host port (suc retries_left) s =
    let a = attempts retries_left in
    elim (next_available_key s.flows a.random) [
      | none ↦ (pending, s)
      | some flow_id ↦
          after_request a.wait (request_stream a.env s flow_id a.sender host port)
            (λ s'. new_stream_channel attempts host port retries_left s')
    ]

unfoldable pub send_datagram : Env → Task → Datagram → Result Error (Unit {0}) × Task
send_datagram env s datagram =
    if ltb 255 (length datagram.target_host)
    then (err datagram_host_too_long, s)
    else send_or_closed env s (
        new_datagram_owned datagram.flow_id datagram.target_host datagram.target_port
          datagram.payload_data)

-- `request_bind` up to the wait for the answer, with the key and the oneshot channel.
unfoldable pub request_bind :
    Env → Task → ℕ → ℕ → List ℕ → ℕ → BindType → Result Error (Unit {0}) × Task
request_bind env s flow_id sender host port bind_type =
    send_or_closed env (set_flows s (insert flow_id (bind_requested sender) s.flows))
      (new_bind flow_id bind_type host port)

-- What a channel gives, `none` where it is closed: `.ok_or(Error::Closed)`.
unfoldable pub or_closed {ℓ} : {A : Type ℓ} → Option A → Result Error A
or_closed none = err closed
or_closed (some a) = ok a

-- The rest of `request_bind`: what the task does until it answers is an argument.
unfoldable pub wait_for_bind :
    (Task → Option Bool × Task) → Result Error (Unit {0}) × Task → Result Error Bool × Task
unfolding or_closed
wait_for_bind wait (err e, s) = (err e, s)
wait_for_bind wait (ok _, s) = let (result, s') = wait s in (or_closed result, s')

-- The calls that accept, with what their channels give.
unfoldable pub accept_stream_channel : Option MuxStream → Result Error MuxStream
unfolding or_closed
accept_stream_channel received = or_closed received

unfoldable pub get_datagram : Option Datagram → Result Error Datagram
unfolding or_closed
get_datagram received = or_closed received

-- The number is the size of the channel, where there is one.
unfoldable pub next_bind_request : Option ℕ → Option BindRequest → Result Error BindRequest
unfolding or_closed
next_bind_request none received = err unsupported_operation
next_bind_request (some size) received = or_closed received

-- `BindRequest::reply` and its `Drop`.
unfoldable pub reply : Env → Task → BindRequest → Bool → Result Error (Unit {0}) × Task
reply env s request true = send_or_closed env s (new_finish request.flow_id)
reply env s request false = send_or_closed env s (new_reset request.flow_id)

unfoldable pub drop_bind_request : Env → Task → BindRequest → Task
unfolding reply
drop_bind_request env s request = (reply env s request false).1

-- `Drop for Multiplexor`: the port 0.
unfoldable pub drop_multiplexor : Task → Task
drop_multiplexor s = emit s (dropped_port 0)
