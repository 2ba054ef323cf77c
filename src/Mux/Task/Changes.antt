-- ===== src/Mux/Task/Changes.antt =====
-- src/mux/task.rs: each arm of `process_frame` as one of the changes of the map, and the memory of
-- the other streams.
use penguin_rs.Base.{
  ℕ, ◌<◌, ◌≡◌, refl, sym, ◌≢◌, inl, inr, Bool, true, List, Option, none, some, lookup, Option-cases,
  arith,
}
use penguin_rs.Mux.Frame.{Payload, Frame, into_owned}
use penguin_rs.Mux.State.{
  FlowSlot, requested, established, bind_requested, EstablishedStreamData, Env, Task, TrySend,
}
use penguin_rs.Mux.Task.{
  process_frame, process_payload, process_acknowledge, process_finish, process_push, close_port,
  con_recv_new_stream,
}
use penguin_rs.Mux.Task.Isolation.{
  Change, same, added, halved, removed, IsWf, Change-IsWf, Change-lookup_other,
}

module _ (env : Env) (s : Task) (flow_id : ℕ) where
  connect_Change :
      (host : List ℕ) (port rwnd : ℕ)
      → Change s flow_id (con_recv_new_stream env s flow_id host port rwnd).1
  unfolding con_recv_new_stream
  connect_Change host port rwnd = elim (Option-cases (lookup flow_id s.flows)) [
    | inl free ↦ added (ground arith) (ground arith)
    | inr (slot, used) ↦ same (ground arith) (ground arith)
  ]

  acknowledge_Change :
      (n : ℕ) (o : Option FlowSlot)
      → lookup flow_id s.flows ≡ o
      → Change s flow_id (process_acknowledge env s flow_id n o).1
  unfolding process_acknowledge
  acknowledge_Change n none e = same (ground arith) (ground arith)
  acknowledge_Change n (some (requested sender)) e = added (ground arith) (ground arith)
  acknowledge_Change n (some (bind_requested sender)) e = same (ground arith) (ground arith)
  acknowledge_Change n (some (established d)) e = same (ground arith) (ground arith)

  finish_Change :
      (o : Option FlowSlot)
      → lookup flow_id s.flows ≡ o
      → Change s flow_id (process_finish env s flow_id o)
  unfolding process_finish
  finish_Change none e = same (ground arith) (ground arith)
  finish_Change (some (requested sender)) e = removed (ground arith) (ground arith)
  finish_Change (some (bind_requested sender)) e = removed (ground arith) (ground arith)
  finish_Change (some (established d)) e = halved d e (ground arith) (ground arith)

  pub close_port-Change : (rst : Bool) → Change s flow_id (close_port env s flow_id rst)
  unfolding close_port
  close_port-Change rst = elim (Option-cases (lookup flow_id s.flows)) [
    | inl free ↦ same (ground arith) (ground arith)
    | inr (slot, used) ↦ removed (ground arith) (ground arith)
  ]

  push_Change :
      (bytes : List ℕ) (o : Option FlowSlot)
      → lookup flow_id s.flows ≡ o
      → Change s flow_id (process_push env s flow_id bytes o)
  unfolding process_push
  push_Change bytes none e = same (ground arith) (ground arith)
  push_Change bytes (some (requested sender)) e = same (ground arith) (ground arith)
  push_Change bytes (some (bind_requested sender)) e = same (ground arith) (ground arith)
  push_Change bytes (some (established d)) e = elim (Option-cases d.sender) [
    | inl gone ↦ same (ground arith) (ground arith)
    | inr (channel, there) ↦ sending channel there (env.data_send channel) refl
  ]
    where
      sending :
          (channel : ℕ)
          → d.sender ≡ some channel
          → (r : TrySend) → env.data_send channel ≡ r
          → Change s flow_id (process_push env s flow_id bytes (some (established d)))
      sending channel there TrySend.sent q = same (ground arith) (ground arith)
      sending channel there TrySend.closed q = same (ground arith) (ground arith)
      sending channel there TrySend.full q = removed (ground arith) (ground arith)

  -- The memory of a stream that is not in the slot of this flow ID.
  abbrev IsOther : ℕ → Type 0
  IsOther c =
      (c < s.next_cell)
      × ((d : EstablishedStreamData) → lookup flow_id s.flows ≡ some (established d) → d.cell ≢ c)

  connect_cells :
      (host : List ℕ) (port rwnd c : ℕ)
      → IsOther c
      → (con_recv_new_stream env s flow_id host port rwnd).1.cells c ≡ s.cells c
  unfolding con_recv_new_stream
  connect_cells host port rwnd c h = ground arith

  acknowledge_cells :
      (n c : ℕ) (o : Option FlowSlot)
      → lookup flow_id s.flows ≡ o
      → IsOther c
      → (process_acknowledge env s flow_id n o).1.cells c ≡ s.cells c
  unfolding process_acknowledge
  acknowledge_cells n c none e h = ground arith
  acknowledge_cells n c (some (requested sender)) e h = ground arith
  acknowledge_cells n c (some (bind_requested sender)) e h = ground arith
  acknowledge_cells n c (some (established d)) e h = ground (arith, h.1 d e)

  finish_cells :
      (c : ℕ) (o : Option FlowSlot) → (process_finish env s flow_id o).cells c ≡ s.cells c
  unfolding process_finish
  finish_cells c none = ground arith
  finish_cells c (some (requested sender)) = ground arith
  finish_cells c (some (bind_requested sender)) = ground arith
  finish_cells c (some (established d)) = ground arith

  close_port_cells :
      (rst : Bool) (c : ℕ) (o : Option FlowSlot)
      → lookup flow_id s.flows ≡ o
      → IsOther c
      → (close_port env s flow_id rst).cells c ≡ s.cells c
  unfolding close_port
  close_port_cells rst c none e h = ground arith
  close_port_cells rst c (some (requested sender)) e h = ground arith
  close_port_cells rst c (some (bind_requested sender)) e h = ground arith
  close_port_cells rst c (some (established d)) e h = ground (arith, h.1 d e)

  push_cells :
      (bytes : List ℕ) (c : ℕ) (o : Option FlowSlot)
      → lookup flow_id s.flows ≡ o
      → IsOther c
      → (process_push env s flow_id bytes o).cells c ≡ s.cells c
  unfolding process_push
  push_cells bytes c none e h = ground arith
  push_cells bytes c (some (requested sender)) e h = ground arith
  push_cells bytes c (some (bind_requested sender)) e h = ground arith
  push_cells bytes c (some (established d)) e h = ground (arith, h.1 d e)

process_payload-Change :
    (env : Env) (s : Task) (flow_id : ℕ) (p : Payload) (ignore_bind : Bool)
    → Change s flow_id (process_payload env s flow_id p ignore_bind).1
unfolding process_payload
process_payload-Change env s flow_id (Payload.connect p) ib =
    connect_Change env s flow_id (into_owned p.target_host) p.target_port p.rwnd
process_payload-Change env s flow_id (Payload.acknowledge n) ib =
    acknowledge_Change env s flow_id n (lookup flow_id s.flows) refl
process_payload-Change env s flow_id Payload.finish ib =
    finish_Change env s flow_id (lookup flow_id s.flows) refl
process_payload-Change env s flow_id Payload.reset ib = close_port-Change env s flow_id true
process_payload-Change env s flow_id (Payload.push bytes) ib =
    push_Change env s flow_id (into_owned bytes) (lookup flow_id s.flows) refl
process_payload-Change env s flow_id (Payload.bind p) ib = same (ground arith) (ground arith)
process_payload-Change env s flow_id (Payload.datagram p) ib = same (ground arith) (ground arith)

process_payload_cells :
    (env : Env) (s : Task) (flow_id : ℕ) (p : Payload) (ignore_bind : Bool) (c : ℕ)
    → IsOther env s flow_id c
    → (process_payload env s flow_id p ignore_bind).1.cells c ≡ s.cells c
unfolding process_payload
process_payload_cells env s flow_id (Payload.connect p) ib c h =
    connect_cells env s flow_id (into_owned p.target_host) p.target_port p.rwnd c h
process_payload_cells env s flow_id (Payload.acknowledge n) ib c h =
    acknowledge_cells env s flow_id n c (lookup flow_id s.flows) refl h
process_payload_cells env s flow_id Payload.finish ib c h =
    finish_cells env s flow_id c (lookup flow_id s.flows)
process_payload_cells env s flow_id Payload.reset ib c h =
    close_port_cells env s flow_id true c (lookup flow_id s.flows) refl h
process_payload_cells env s flow_id (Payload.push bytes) ib c h =
    push_cells env s flow_id (into_owned bytes) c (lookup flow_id s.flows) refl h
process_payload_cells env s flow_id (Payload.bind p) ib c h = ground arith
process_payload_cells env s flow_id (Payload.datagram p) ib c h = ground arith

-- Processing a frame keeps a well-formed map well formed: streams in the map never share their
-- memory, and each sender in the map is the sender of its own stream's channel.
pub process_frame-IsWf :
    (env : Env) (s : Task) (f : Frame) (ignore_bind : Bool)
    → IsWf s.flows s.next_cell
    → let after = (process_frame env s f ignore_bind).1 in IsWf after.flows after.next_cell
unfolding process_frame
process_frame-IsWf env s f ignore_bind w =
    Change-IsWf f.id (process_payload-Change env s f.id f.payload ignore_bind) w

-- A frame leaves the slot of every other flow ID as it was and, where the map is well formed, the
-- memory that the stream in that slot shares with its user.
pub process_frame_isolated :
    (env : Env) (s : Task) (f : Frame) (ignore_bind : Bool) (j : ℕ)
    → IsWf s.flows s.next_cell
    → j ≢ f.id
    → let after = (process_frame env s f ignore_bind).1 in
      (lookup j after.flows ≡ lookup j s.flows)
      × ((d : EstablishedStreamData)
          → lookup j s.flows ≡ some (established d)
          → after.cells d.cell ≡ s.cells d.cell)
unfolding process_frame
process_frame_isolated env s f ignore_bind j w ne = (
  Change-lookup_other f.id j ne (process_payload-Change env s f.id f.payload ignore_bind),
  λ d e.
      process_payload_cells env s f.id f.payload ignore_bind d.cell
        (w.below j d e, λ d' e' q. ne (sym (w.apart f.id j d' d e' e q))),
)
