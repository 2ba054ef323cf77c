-- ===== src/Server/WebSocket/Routing.antt =====
-- src/server/websocket.rs: each UDP client has a forwarder of its own.
use penguin_rs.Base.{
  ℕ, ◌≤◌, ◌≡◌, refl, ◌∙◌, List, [], ◌∷◌, ◌++◌, Option, none, some, ok, err, lookup, remove,
  lookup-insert, lookup-remove, ◌==◌, if◌then◌else◌, arith, All,
}
use penguin_rs.Mux.State.{Datagram, TrySend}
use penguin_rs.Server.WebSocket.{
  Effect, spawned_udp, queued, spawned_tcp, sent_datagram, Forwarders, finished, cancelled,
  panicked, Event, job_joined, stream_accepted, got_datagram, reply_ready, none_left, LoopRun,
  looping, broken, asserted, emit, queue_datagram, new_client, forward_datagram, on_event, go_on,
  handle_websocket, no_forwarders,
}

-- The flow ID of the datagram that the forwarder of a channel was started for.
abbrev pub owner : List Effect → ℕ → Option ℕ
owner [] c = none
owner (spawned_udp d channel ∷ log) c = if channel == c then some d.flow_id else owner log c
owner (queued d channel ∷ log) c = owner log c
owner (spawned_tcp stream ∷ log) c = owner log c
owner (sent_datagram d ∷ log) c = owner log c

-- Every datagram that is queued later goes to a forwarder of its own flow ID.
abbrev pub IsRouted : List Effect → Effect → Type 0
IsRouted log (queued d channel) = owner log channel ≡ some d.flow_id
IsRouted log effect = Unit

pub record IsKept (s : Forwarders) : Type 0 where
  pub fresh : (c : ℕ) → s.next_channel ≤ c → owner s.log c ≡ none
  pub owned : (f c : ℕ) → lookup f s.udp_clients ≡ some c → owner s.log c ≡ some f
  pub routed : All (IsRouted s.log) s.log

-- What the log says of a channel stays so.
owner-append :
    (log : List Effect) (e : Effect) (c f : ℕ)
    → owner log c ≡ some f
    → owner (log ++ e ∷ []) c ≡ some f
owner-append [] e c f h = cc h
owner-append (spawned_udp d channel ∷ log) e c f h = ground (arith, owner-append log e c f)
owner-append (queued d channel ∷ log) e c f h = owner-append log e c f h
owner-append (spawned_tcp stream ∷ log) e c f h = owner-append log e c f h
owner-append (sent_datagram d ∷ log) e c f h = owner-append log e c f h

-- A channel without an owner gets that of the last effect.
owner-last :
    (log : List Effect) (e : Effect) (c : ℕ)
    → owner log c ≡ none
    → owner (log ++ e ∷ []) c ≡ owner (e ∷ []) c
owner-last [] e c h = refl
owner-last (spawned_udp d channel ∷ log) e c h = ground (arith, owner-last log e c)
owner-last (queued d channel ∷ log) e c h = owner-last log e c h
owner-last (spawned_tcp stream ∷ log) e c h = owner-last log e c h
owner-last (sent_datagram d ∷ log) e c h = owner-last log e c h

IsRouted-append : (log : List Effect) (e x : Effect) → IsRouted log x → IsRouted (log ++ e ∷ []) x
IsRouted-append log e (queued d channel) h = owner-append log e channel d.flow_id h
IsRouted-append log e (spawned_udp d channel) h = tt
IsRouted-append log e (spawned_tcp stream) h = tt
IsRouted-append log e (sent_datagram d) h = tt

All-extend :
    (log : List Effect) (e : Effect) (part : List Effect)
    → All (IsRouted log) part
    → IsRouted (log ++ e ∷ []) e
    → All (IsRouted (log ++ e ∷ [])) (part ++ e ∷ [])
All-extend log e [] h k = (k, tt)
All-extend log e (x ∷ part) (hx, h) k = (IsRouted-append log e x hx, All-extend log e part h k)

-- An effect that starts no forwarder.
emit-IsKept :
    (s : Forwarders) (e : Effect)
    → IsKept s
    → ((c : ℕ) → owner (e ∷ []) c ≡ none)
    → IsRouted (s.log ++ e ∷ []) e
    → IsKept (emit s e)
unfolding emit
emit-IsKept s e k quiet good = record {
  fresh = λ c le. owner-last s.log e c (k.fresh c le) ∙ quiet c;
  owned = λ f c h. owner-append s.log e c f (k.owned f c h);
  routed = All-extend s.log e s.log k.routed good;
}

new_client-IsKept : (s : Forwarders) (d : Datagram) → IsKept s → IsKept (new_client s d)
unfolding new_client
new_client-IsKept s d k = record {
  fresh = λ c le.
      owner-last s.log (spawned_udp d s.next_channel) c (k.fresh c (omega (arith, le)))
      ∙ ground (arith, le);
  owned = λ f c h. ground (
    arith,
    h,
    lookup-insert d.flow_id f s.next_channel s.udp_clients,
    k.owned f c,
    owner-append s.log (spawned_udp d s.next_channel) c f,
    owner-last s.log (spawned_udp d s.next_channel) c,
    k.fresh s.next_channel,
  );
  routed = All-extend s.log (spawned_udp d s.next_channel) s.log k.routed tt;
}

queue_datagram-IsKept :
    (s : Forwarders) (d : Datagram) (c : ℕ) (outcome : TrySend)
    → IsKept s
    → lookup d.flow_id s.udp_clients ≡ some c
    → IsKept (queue_datagram s d c outcome)
unfolding queue_datagram
queue_datagram-IsKept s d c TrySend.sent k h =
    emit-IsKept s (queued d c) k (λ j. refl)
      (owner-append s.log (queued d c) c d.flow_id (k.owned d.flow_id c h))
queue_datagram-IsKept s d c TrySend.full k h = k
queue_datagram-IsKept s d c TrySend.closed k h = record {
  fresh = k.fresh;
  owned = λ f j e. ground (arith, e, lookup-remove d.flow_id f s.udp_clients, k.owned f j);
  routed = k.routed;
}

on_event-IsKept : (s : Forwarders) (event : Event) → IsKept s → IsKept (on_event s event).1
unfolding on_event
on_event-IsKept s (job_joined finished) k = k
on_event-IsKept s (job_joined cancelled) k = k
on_event-IsKept s (job_joined panicked) k = k
on_event-IsKept s (stream_accepted stream) k = emit-IsKept s (spawned_tcp stream) k (λ c. refl) tt
on_event-IsKept s (got_datagram d outcome) k = by_client (lookup d.flow_id s.udp_clients) refl
  where
    by_client :
        (o : Option ℕ)
        → lookup d.flow_id s.udp_clients ≡ o
        → IsKept (forward_datagram s d outcome o)
    by_client none q = unfold forward_datagram in new_client-IsKept s d k
    by_client (some c) q = unfold forward_datagram in queue_datagram-IsKept s d c outcome k q
on_event-IsKept s (reply_ready d (ok u)) k = emit-IsKept s (sent_datagram d) k (λ c. refl) tt
on_event-IsKept s (reply_ready d (err e)) k = k
on_event-IsKept s none_left k = k

go_on-IsKept :
    (r : LoopRun × Forwarders) (next : Forwarders → LoopRun × Forwarders)
    → IsKept r.1
    → ((s : Forwarders) → IsKept s → IsKept (next s).1)
    → IsKept (go_on r next).1
unfolding go_on
go_on-IsKept (looping, s) next h k = k s h
go_on-IsKept (broken, s) next h k = h
go_on-IsKept (asserted, s) next h k = h

handle_websocket-IsKept :
    (events : List Event) (s : Forwarders) → IsKept s → IsKept (handle_websocket events s).1
unfolding handle_websocket
handle_websocket-IsKept [] s k = k
handle_websocket-IsKept (event ∷ events) s k =
    go_on-IsKept (on_event s event) (handle_websocket events) (on_event-IsKept s event k)
      (handle_websocket-IsKept events)

-- Whatever happens over one WebSocket, a datagram is only ever queued for the forwarder that was
-- started for its own flow ID: no client's datagrams leave by the socket of another.
pub handle_websocket_routes :
    (events : List Event)
    → let s = (handle_websocket events no_forwarders).1 in All (IsRouted s.log) s.log
handle_websocket_routes events =
    (handle_websocket-IsKept events no_forwarders
      (record { fresh = λ c le. refl; owned = λ f c h. nobody f c h; routed = tt })).routed
  where
    nobody : (f c : ℕ) → lookup f [] ≡ some c → owner [] c ≡ some f
    nobody f c h = unfold lookup in cc h

-- The first datagram after a forwarder has ended is lost, but the next one of the same client
-- starts a new forwarder, with that datagram.
pub forwarder_restarts :
    (s : Forwarders) (d e : Datagram) (channel : ℕ) (outcome : TrySend) (events : List Event)
    → d.flow_id ≡ e.flow_id
    → lookup d.flow_id s.udp_clients ≡ some channel
    → handle_websocket (got_datagram d TrySend.closed ∷ got_datagram e outcome ∷ events) s
      ≡ handle_websocket events
          (new_client (record s { udp_clients = remove d.flow_id s.udp_clients }) e)
unfolding handle_websocket on_event go_on forward_datagram queue_datagram
forwarder_restarts s d e channel outcome events same known =
    let gone : lookup e.flow_id (remove d.flow_id s.udp_clients) ≡ none =
      ground (arith, same, lookup-remove d.flow_id e.flow_id s.udp_clients) in
    rw (known, gone) refl
