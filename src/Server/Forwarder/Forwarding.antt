-- ===== src/Server/Forwarder/Forwarding.antt =====
-- src/server/forwarder.rs: which socket is bound, and which datagrams go back to the client.
use penguin_rs.Base.{
  ℕ, ◌≡◌, refl, List, [], ◌∷◌, ◌++◌, Bool, true, false, Option, none, some, Result, ok, err, All,
  if◌then◌else◌,
}
use penguin_rs.Mux.State.{Datagram, TrySend}
use penguin_rs.Server.Forwarder.{
  Error, io, host, Candidate, bound, bind_first, bind_for_target, Event, socket_received,
  channel_received, timed_out, Run, returned, Traffic, reply_to, send_to, turn, forward_loop,
  no_traffic, on_bound, udp_forward_on, is_utf8,
}

-- Candidates for which no socket can be bound.
abbrev pub IsUnbound : Candidate → Type 0
IsUnbound c = (e : ℕ) × (bound c ≡ err e)

bind_first_skips :
    (before rest : List Candidate) (c : Candidate) (socket : ℕ) (last_err : Option ℕ)
    → All IsUnbound before
    → bound c ≡ ok socket
    → bind_first (before ++ c ∷ rest) last_err ≡ ok (socket, c.target)
unfolding bind_first
bind_first_skips [] rest c socket last_err h q = rw (q, bind_first) refl
bind_first_skips (x ∷ before) rest c socket last_err ((e, p), h) q =
    rw (p, bind_first) (bind_first_skips before rest c socket (some e) h q)

bind_first_fails :
    (before : List Candidate) (c : Candidate) (e : ℕ) (last_err : Option ℕ)
    → All IsUnbound before
    → bound c ≡ err e
    → bind_first (before ++ c ∷ []) last_err ≡ err (io e)
unfolding bind_first
bind_first_fails [] c e last_err h q = rw (q, bind_first) refl
bind_first_fails (x ∷ before) c e last_err ((e', p), h) q =
    rw (p, bind_first) (bind_first_fails before c e (some e') h q)

-- The socket is bound for the first address of the resolver for which that is possible; where it is
-- possible for none of them, the error is that of the last one.
pub bind_for_target_first :
    (before rest : List Candidate) (c : Candidate)
    → All IsUnbound before
    → ((socket : ℕ)
        → bound c ≡ ok socket
        → bind_for_target (ok (before ++ c ∷ rest)) ≡ ok (socket, c.target))
      × ((e : ℕ) → bound c ≡ err e → bind_for_target (ok (before ++ c ∷ [])) ≡ err (io e))
unfolding bind_for_target
bind_for_target_first before rest c h = (
  λ socket q. bind_first_skips before rest c socket none h q,
  λ e q. bind_first_fails before c e none h q,
)

-- The datagrams that go back are the packets received, in order, under the flow ID and for the host
-- and port of the first datagram.
abbrev pub IsReplyTo : Datagram → Datagram → Type 0
IsReplyTo first d =
    (d.flow_id ≡ first.flow_id)
    × (d.target_host ≡ first.target_host)
    × (d.target_port ≡ first.target_port)

All-snoc :
    (first : Datagram) (ds : List Datagram) (bytes : List ℕ)
    → All (IsReplyTo first) ds
    → All (IsReplyTo first) (ds ++ reply_to first bytes ∷ [])
All-snoc first [] bytes h = ((refl, refl, refl), tt)
All-snoc first (d ∷ ds) bytes (hd, h) = (hd, All-snoc first ds bytes h)

-- The packets that the loop may have sent: those of these datagrams, all for hosts that are text.
Sound : Datagram → Traffic → Type 0
Sound first t = All (IsReplyTo first) t.datagram_tx × All (λ p. is_utf8 p.0 ≡ true) t.sent_packets

packet-snoc :
    (ps : List (List ℕ × ℕ × List ℕ)) (d : Datagram)
    → All (λ p. is_utf8 p.0 ≡ true) ps
    → is_utf8 d.target_host ≡ true
    → All (λ p. is_utf8 p.0 ≡ true) (ps ++ (d.target_host, d.target_port, d.payload_data) ∷ [])
packet-snoc [] d h k = (k, tt)
packet-snoc (p ∷ ps) d (hp, h) k = (hp, packet-snoc ps d h k)

send_to-Sound :
    (first : Datagram) (outcome : Result ℕ (Unit {0})) (d : Datagram) (t : Traffic)
    (next : Traffic → Run × Traffic)
    → Sound first t
    → is_utf8 d.target_host ≡ true
    → ((t' : Traffic) → Sound first t' → Sound first (next t').1)
    → Sound first (send_to outcome d t next).1
unfolding send_to Sound
send_to-Sound first (err e) d t next h k f = h
send_to-Sound first (ok u) d t next (h, p) k f = f _ (h, packet-snoc t.sent_packets d p k)

turn-Sound :
    (first : Datagram) (event : Event) (t : Traffic) (next : Traffic → Run × Traffic)
    → Sound first t
    → ((t' : Traffic) → Sound first t' → Sound first (next t').1)
    → Sound first (turn first event t next).1
unfolding turn Sound
turn-Sound first (socket_received bytes TrySend.sent) t next (h, p) f =
    f _ (All-snoc first t.datagram_tx bytes h, p)
turn-Sound first (socket_received bytes TrySend.full) t next h f = f t h
turn-Sound first (socket_received bytes TrySend.closed) t next h f = h
turn-Sound first (channel_received d outcome) t next h f = by_host (is_utf8 d.target_host) refl
  where
    by_host :
        (b : Bool)
        → is_utf8 d.target_host ≡ b
        → Sound first (if b then send_to outcome d t next else (returned (err host), t)).1
    by_host true q = send_to-Sound first outcome d t next h q f
    by_host false q = h
turn-Sound first timed_out t next h f = h

forward_loop-Sound :
    (first : Datagram) (events : List Event) (t : Traffic)
    → Sound first t
    → Sound first (forward_loop first events t).1
unfolding forward_loop
forward_loop-Sound first [] t h = h
forward_loop-Sound first (event ∷ events) t h =
    turn-Sound first event t (forward_loop first events) h (forward_loop-Sound first events)

-- Whatever the socket and the channels give, each datagram that a forwarder sends back carries the
-- flow ID, the host and the port of the datagram that it was started for, and each packet that it
-- sends is for a host that is text.
pub udp_forward_on_replies :
    (first : Datagram) (lookup_host : Result ℕ (List Candidate)) (outcome : Result ℕ (Unit {0}))
    (events : List Event)
    → let t = (udp_forward_on first lookup_host outcome events).1 in
      All (IsReplyTo first) t.datagram_tx × All (λ p. is_utf8 p.0 ≡ true) t.sent_packets
unfolding udp_forward_on on_bound Sound
udp_forward_on_replies first lookup_host outcome events = by_host (is_utf8 first.target_host) refl
  where
    by_target :
        (r : Result Error (ℕ × ℕ))
        → is_utf8 first.target_host ≡ true
        → Sound first (on_bound first r outcome events).1
    by_target (err e) q = (tt, tt)
    by_target (ok (socket, target)) q =
        send_to-Sound first outcome first no_traffic (forward_loop first events) (tt, tt) q
          (forward_loop-Sound first events)

    by_host :
        (b : Bool)
        → is_utf8 first.target_host ≡ b
        → Sound first
            (if b
              then on_bound first (bind_for_target lookup_host) outcome events
              else (returned (err host), no_traffic)).1
    by_host true q = by_target (bind_for_target lookup_host) q
    by_host false q = (tt, tt)
