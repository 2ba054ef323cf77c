-- ===== src/Client/Session/Queue.antt =====
-- src/client/mod.rs: over one connection, no stream command is lost or overtaken.
use penguin_rs.Base.{
  ℕ, ◌≡◌, refl, sym, ap, ◌∙◌, List, [], ◌∷◌, ◌++◌, map, append_assoc, append-nil, Option, none,
  some, Result, ok, err,
}
use penguin_rs.Mux.State
use penguin_rs.Mux.State.{Datagram}
use penguin_rs.Client.Maps.{Reply, send_datagram_reply}
use penguin_rs.Client.Session.{
  StreamCommand, Session, Opened, opened, failed, timed_out, Event, task_ended, stream_command,
  datagram_queued, got_datagram, ctrl_c, none_left, Flow, continues, returned, Effect, sent_stream,
  sent_datagram, replied, waited, emit, park, get_send_stream_chan, open_for, recv_command,
  recv_datagram, forward_reply, on_event, then_next, session_loop, retry_parked, on_connected,
}

abbrev tx_of : StreamCommand → ℕ
tx_of command = command.tx

abbrev pub parked : Option StreamCommand → List ℕ
parked none = []
parked (some command) = command.tx ∷ []

module _ {Addr : Type 0} where
  -- The handlers that were sent a stream, in order.
  abbrev pub served : List (Effect Addr) → List ℕ
  served [] = []
  served (sent_stream tx stream ∷ log) = tx ∷ served log
  served (sent_datagram d ∷ log) = served log
  served (replied r ∷ log) = served log
  served (waited d ∷ log) = served log

  -- The handlers that were served, then the one that is parked, then those in the queue.
  abbrev pub requesters : Session Addr → List ℕ
  requesters s = served s.log ++ (parked s.failed_stream_request ++ map tx_of s.stream_command_rx)

  served-append : (log more : List (Effect Addr)) → served (log ++ more) ≡ served log ++ served more
  served-append [] more = refl
  served-append (sent_stream tx stream ∷ log) more = ap (λ l. tx ∷ l) (served-append log more)
  served-append (sent_datagram d ∷ log) more = served-append log more
  served-append (replied r ∷ log) more = served-append log more
  served-append (waited d ∷ log) more = served-append log more

  pub emit-requesters :
      (s : Session Addr) (effect : Effect Addr)
      → served (effect ∷ []) ≡ []
      → requesters (emit s effect) ≡ requesters s
  unfolding emit
  emit-requesters s effect h =
      ap (λ l. l ++ (parked s.failed_stream_request ++ map tx_of s.stream_command_rx))
        (served-append s.log (effect ∷ [])
          ∙ (ap (λ l. served s.log ++ l) h ∙ append-nil (served s.log)))

  -- Neither the order of the handlers nor what is parked changes.
  IsQuiet : Session Addr → Session Addr → Type 0
  IsQuiet s after =
      (requesters after ≡ requesters s) × (after.failed_stream_request ≡ s.failed_stream_request)

  recv_datagram-IsQuiet :
      (r : Result State.Error (Unit {0})) (queue : List Datagram) (s : Session Addr)
      → IsQuiet s (recv_datagram r queue s)
  unfolding recv_datagram IsQuiet emit
  recv_datagram-IsQuiet r [] s = (refl, refl)
  recv_datagram-IsQuiet (ok u) (d ∷ queue) s =
      (emit-requesters (record s { datagram_rx = queue }) (sent_datagram d) refl, refl)
  recv_datagram-IsQuiet (err e) (d ∷ queue) s = (refl, refl)

  forward_reply-IsQuiet :
      (reply : Option (Reply Addr)) (s : Session Addr) → IsQuiet s (forward_reply reply s)
  unfolding forward_reply IsQuiet emit
  forward_reply-IsQuiet none s = (refl, refl)
  forward_reply-IsQuiet (some reply) s = (emit-requesters s (replied reply) refl, refl)

module _ (E : Type 0) {Addr : Type 0} where
  -- A command that is taken while none is parked is served or parked.
  get_send_stream_chan-requesters :
      (o : Opened) (command : StreamCommand) (s : Session Addr)
      → s.failed_stream_request ≡ none
      → requesters (get_send_stream_chan {E = E} o command s).1
        ≡ served s.log ++ (command.tx ∷ map tx_of s.stream_command_rx)
  unfolding get_send_stream_chan emit park
  get_send_stream_chan-requesters (opened stream) command s free =
      rw (free, served-append s.log (sent_stream command.tx stream ∷ []))
        (append_assoc (served s.log) (command.tx ∷ []) (map tx_of s.stream_command_rx))
  get_send_stream_chan-requesters (failed e) command s free = refl
  get_send_stream_chan-requesters timed_out command s free = refl

  -- A session that goes on has nothing parked.
  Clear : Flow E × Session Addr → Type 0
  Clear (continues, s) = s.failed_stream_request ≡ none
  Clear (returned r, s) = Unit

  get_send_stream_chan-Clear :
      (o : Opened) (command : StreamCommand) (s : Session Addr)
      → s.failed_stream_request ≡ none
      → Clear (get_send_stream_chan {E = E} o command s)
  unfolding get_send_stream_chan emit park Clear
  get_send_stream_chan-Clear (opened stream) command s free = free
  get_send_stream_chan-Clear (failed e) command s free = tt
  get_send_stream_chan-Clear timed_out command s free = tt

  -- Every handler is where it was in the order, and a session that goes on has nothing parked.
  Keeps : Session Addr → Flow E × Session Addr → Type 0
  Keeps s after = (requesters after.1 ≡ requesters s) × Clear after

  recv_command-Keeps :
      (opening : List ℕ → ℕ → Opened) (queue : List StreamCommand) (s : Session Addr)
      → s.stream_command_rx ≡ queue
      → s.failed_stream_request ≡ none
      → Keeps s (recv_command {E = E} opening queue s)
  unfolding recv_command open_for Keeps Clear
  recv_command-Keeps opening [] s q free = (refl, free)
  recv_command-Keeps opening (c ∷ queue) s q free =
      let s' : Session Addr = record s { stream_command_rx = queue } in
      (
        get_send_stream_chan-requesters (opening c.host c.port) c s' free
            ∙ sym (
                ap (λ p. served s.log ++ (parked p ++ map tx_of s.stream_command_rx)) free
                ∙ ap (λ l. served s.log ++ map tx_of l) q),
        get_send_stream_chan-Clear (opening c.host c.port) c s' free,
      )

  on_event-Keeps :
      (event : Event Addr) (s : Session Addr)
      → s.failed_stream_request ≡ none
      → Keeps s (on_event {E = E} event s)
  unfolding on_event Keeps Clear IsQuiet
  on_event-Keeps (task_ended (ok u)) s free = (refl, free)
  on_event-Keeps (task_ended (err e)) s free = (refl, tt)
  on_event-Keeps (stream_command opening) s free =
      recv_command-Keeps opening s.stream_command_rx s refl free
  on_event-Keeps (datagram_queued r) s free =
      quiet (recv_datagram r s.datagram_rx s) (recv_datagram-IsQuiet r s.datagram_rx s)
    where
      quiet : (after : Session Addr) → IsQuiet s after → Keeps s (continues, after)
      quiet after (q, p) = (q, p ∙ free)
  on_event-Keeps (got_datagram d maps) s free =
      let reply = send_datagram_reply maps d.flow_id d.payload_data in
      let (q, p) = forward_reply-IsQuiet reply s in (q, p ∙ free)
  on_event-Keeps (ctrl_c results) s free = (refl, tt)
  on_event-Keeps none_left s free = (refl, tt)

  then_next-Keeps :
      (s : Session Addr) (r : Flow E × Session Addr) (next : Session Addr → Flow E × Session Addr)
      → Keeps s r
      → ((s' : Session Addr) → s'.failed_stream_request ≡ none → Keeps s' (next s'))
      → Keeps s (then_next r next)
  unfolding then_next Keeps Clear
  then_next-Keeps s (continues, s') next (q, free) h = let (q', c) = h s' free in (q' ∙ q, c)
  then_next-Keeps s (returned r, s') next h k = h

  session_loop-Keeps :
      (events : List (Event Addr)) (s : Session Addr)
      → s.failed_stream_request ≡ none
      → Keeps s (session_loop {E = E} events s)
  unfolding session_loop Keeps Clear
  session_loop-Keeps [] s free = (refl, free)
  session_loop-Keeps (event ∷ events) s free =
      then_next-Keeps s (on_event {E = E} event s) (session_loop events)
        (on_event-Keeps event s free) (session_loop-Keeps events)

  retry_parked-Keeps :
      (opening : List ℕ → ℕ → Opened) (slot : Option StreamCommand) (s : Session Addr)
      → s.failed_stream_request ≡ slot
      → Keeps s (retry_parked {E = E} opening slot s)
  unfolding retry_parked open_for Keeps Clear
  retry_parked-Keeps opening none s q = (refl, q)
  retry_parked-Keeps opening (some c) s q =
      let s' : Session Addr = record s { failed_stream_request = none } in
      (
        rw q (get_send_stream_chan-requesters (opening c.host c.port) c s' refl),
        get_send_stream_chan-Clear (opening c.host c.port) c s' refl,
      )

  on_connected-Keeps :
      (opening : List ℕ → ℕ → Opened) (events : List (Event Addr)) (s : Session Addr)
      → Keeps s (on_connected {E = E} opening events s)
  unfolding on_connected
  on_connected-Keeps opening events s =
      then_next-Keeps s (retry_parked {E = E} opening s.failed_stream_request s)
        (session_loop events) (retry_parked-Keeps opening s.failed_stream_request s refl)
        (session_loop-Keeps events)

  -- Over one connection, every handler stays where it was in the order.
  pub on_connected-requesters :
      (opening : List ℕ → ℕ → Opened) (events : List (Event Addr)) (s : Session Addr)
      → requesters (on_connected {E = E} opening events s).1 ≡ requesters s
  unfolding Keeps
  on_connected-requesters opening events s = (on_connected-Keeps opening events s).0
