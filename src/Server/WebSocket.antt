-- ===== src/Server/WebSocket.antt =====
-- src/server/websocket.rs: the loop of `handle_websocket`, and its map of UDP clients.
--
-- Which branch of the `select!` is taken, and what a call gives, is an event; a channel is named by
-- its number, in the order of their creation.
pub mod Routing
use penguin_rs.Base.{
  ℕ, suc, List, [], ◌∷◌, ◌++◌, Option, none, some, Result, ok, err, lookup, insert, remove,
}
use penguin_rs.Mux.State
use penguin_rs.Mux.State.{MuxStream, Datagram, TrySend}

pub data Effect : Type 0 where
  -- `udp_forward_on` with its first datagram and its channel, and what that channel takes later.
  spawned_udp : Datagram → ℕ → Effect
  queued : Datagram → ℕ → Effect
  spawned_tcp : MuxStream → Effect
  sent_datagram : Datagram → Effect

pub record Forwarders : Type 0 where
  pub udp_clients : List (ℕ × ℕ)
  pub next_channel : ℕ
  pub log : List Effect

-- A job that panicked ends the loop by an assertion.
pub data Job : Type 0 where
  finished cancelled panicked : Job

pub data Event : Type 0 where
  job_joined : Job → Event
  stream_accepted : MuxStream → Event
  got_datagram : Datagram → TrySend → Event
  reply_ready : Datagram → Result State.Error (Unit {0}) → Event
  none_left : Event

-- The loop goes on, or it has ended, normally or by a panic.
pub data LoopRun : Type 0 where
  looping broken asserted : LoopRun

unfoldable pub emit : Forwarders → Effect → Forwarders
emit s effect = record s { log = s.log ++ effect ∷ [] }

-- A client whose forwarder has ended is forgotten, and its datagram with it.
unfoldable pub queue_datagram : Forwarders → Datagram → ℕ → TrySend → Forwarders
unfolding emit
queue_datagram s d channel TrySend.sent = emit s (queued d channel)
queue_datagram s d channel TrySend.full = s
queue_datagram s d channel TrySend.closed = record s {
  udp_clients = remove d.flow_id s.udp_clients;
}

unfoldable pub new_client : Forwarders → Datagram → Forwarders
new_client s d = record {
  udp_clients = insert d.flow_id s.next_channel s.udp_clients;
  next_channel = suc s.next_channel;
  log = s.log ++ spawned_udp d s.next_channel ∷ [];
}

unfoldable pub forward_datagram : Forwarders → Datagram → TrySend → Option ℕ → Forwarders
unfolding queue_datagram new_client
forward_datagram s d outcome none = new_client s d
forward_datagram s d outcome (some channel) = queue_datagram s d channel outcome

unfoldable pub on_event : Forwarders → Event → LoopRun × Forwarders
unfolding forward_datagram emit
on_event s (job_joined finished) = (looping, s)
on_event s (job_joined cancelled) = (looping, s)
on_event s (job_joined panicked) = (asserted, s)
on_event s (stream_accepted stream) = (looping, emit s (spawned_tcp stream))
on_event s (got_datagram d outcome) =
    (looping, forward_datagram s d outcome (lookup d.flow_id s.udp_clients))
on_event s (reply_ready d (ok u)) = (looping, emit s (sent_datagram d))
on_event s (reply_ready d (err e)) = (looping, s)
on_event s none_left = (broken, s)

unfoldable pub go_on :
    LoopRun × Forwarders → (Forwarders → LoopRun × Forwarders) → LoopRun × Forwarders
go_on (looping, s) next = next s
go_on (broken, s) next = (broken, s)
go_on (asserted, s) next = (asserted, s)

unfoldable pub handle_websocket : List Event → Forwarders → LoopRun × Forwarders
unfolding on_event go_on
handle_websocket [] s = (looping, s)
handle_websocket (event ∷ events) s = go_on (on_event s event) (handle_websocket events)

-- The state that the loop starts in.
abbrev pub no_forwarders : Forwarders
no_forwarders = record { udp_clients = []; next_channel = 0; log = [] }
