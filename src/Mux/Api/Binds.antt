-- ===== src/Mux/Api/Binds.antt =====
-- src/mux/lib.rs and src/mux/task.rs: a bind request and its answer, at both ends.
use penguin_rs.Base.{
  Bool-cases, ap, refl, ◌∙◌, ℕ, ◌≡◌, List, [], ◌∷◌, ◌++◌, Bool, true, false, none, some, lookup,
  insert, lookup-insert, lookup-remove, append_assoc, arith, ok, append-nil,
}
use penguin_rs.Mux.Frame.{Frame, BindType, new_bind, new_finish, new_reset, borrowed}
use penguin_rs.Mux.State.{
  bind_requested, answer_bind, got_bind, Env, Task, BindRequest, sent_frame, emit, set_flows,
}
use penguin_rs.Mux.Task.{process_frame}
use penguin_rs.Mux.Task.Replies.{frames, frames-emit}
use penguin_rs.Mux.Task.Failures.{IsAlive}
use penguin_rs.Mux.Api.{request_bind, reply, drop_bind_request}

-- While the users of both ends are there, a bind request that is accepted and then dropped sends
-- `Finish` and `Reset`; the requester that waits for it and processes the two learns of the
-- acceptance, once, and its flow ID is free again.
pub bind_accepted :
    (env : Env) (a b : Task) (request : BindRequest) (sender : ℕ) (ignore_bind : Bool)
    → IsAlive env
    → lookup request.flow_id a.flows ≡ some (bind_requested sender)
    → let b1 = drop_bind_request env (reply env b request true).1 request in
      let a1 = (process_frame env a (new_finish request.flow_id) ignore_bind).1 in
      let a2 = (process_frame env a1 (new_reset request.flow_id) ignore_bind).1 in
      (frames b1.log
        ≡ frames b.log ++ (new_finish request.flow_id ∷ new_reset request.flow_id ∷ []))
      × (a2.log ≡ a.log ++ (answer_bind sender true ∷ []))
      × (lookup request.flow_id a2.flows ≡ none)
unfolding process_frame new_finish new_reset reply drop_bind_request
bind_accepted env a b request sender ib alive slot =
    let fin = sent_frame (new_finish request.flow_id) in
    (
      ground (
        arith,
        alive.frames_open,
        frames-emit b.log fin,
        frames-emit (b.log ++ (fin ∷ [])) (sent_frame (new_reset request.flow_id)),
        append_assoc (frames b.log) (new_finish request.flow_id ∷ [])
            (new_reset request.flow_id ∷ []),
      ),
      ground
          (arith, alive.all_waiting sender, lookup-remove request.flow_id request.flow_id a.flows),
      ground
          (arith, alive.all_waiting sender, lookup-remove request.flow_id request.flow_id a.flows),
    )

abbrev pub request_of : ℕ → BindType → List ℕ → ℕ → BindRequest
request_of key bind_type host port = record {
  flow_id = key;
  payload = record { bind_type = bind_type; target_port = port; target_host = borrowed host };
}

-- The frame by which the user's answer goes out.
abbrev pub answer_frame : ℕ → Bool → Frame
answer_frame key true = new_finish key
answer_frame key false = new_reset key

abbrev asker : Task → ℕ → ℕ → BindType → List ℕ → ℕ → Task
asker a key sender bind_type host port =
    emit (set_flows a (insert key (bind_requested sender) a.flows))
      (sent_frame (new_bind key bind_type host port))

request_bind-open :
    (env : Env) (a : Task) (key sender port : ℕ) (host : List ℕ) (bind_type : BindType)
    → env.frame_open ≡ true
    → (request_bind env a key sender host port bind_type)
      ≡ (ok tt, asker a key sender bind_type host port)
unfolding request_bind
request_bind-open env a key sender port host bind_type h = ground arith

replied :
    (env : Env) (b : Task) (request : BindRequest) (accepted : Bool)
    → env.frame_open ≡ true
    → let b1 = drop_bind_request env (reply env b request accepted).1 request in
      frames b1.log
      ≡ frames b.log ++ (answer_frame request.flow_id accepted ∷ new_reset request.flow_id ∷ [])
unfolding reply drop_bind_request
replied env b request accepted h =
    let first = sent_frame (answer_frame request.flow_id accepted) in
    ground (
      arith,
      h,
      Bool-cases accepted,
      frames-emit b.log first,
      frames-emit (b.log ++ (first ∷ [])) (sent_frame (new_reset request.flow_id)),
      append_assoc (frames b.log) (answer_frame request.flow_id accepted ∷ [])
          (new_reset request.flow_id ∷ []),
    )

learns :
    (env : Env) (a : Task) (key sender : ℕ) (accepted ignore_bind : Bool)
    → env.is_waiting sender ≡ true
    → lookup key a.flows ≡ some (bind_requested sender)
    → let a1 = (process_frame env a (answer_frame key accepted) ignore_bind).1 in
      let a2 = (process_frame env a1 (new_reset key) ignore_bind).1 in
      (a2.log ≡ a.log ++ (answer_bind sender accepted ∷ [])) × (lookup key a2.flows ≡ none)
unfolding process_frame new_finish new_reset
learns env a key sender true ib waits slot = (
  ground (arith, waits, lookup-remove key key a.flows),
  ground (arith, waits, lookup-remove key key a.flows),
)
learns env a key sender false ib waits slot = (
  ground (arith, waits, lookup-remove key key a.flows),
  ground (arith, waits, lookup-remove key key a.flows),
)

asks :
    (env : Env) (b : Task) (key port : ℕ) (host : List ℕ) (bind_type : BindType)
    → b.accepts_binds ≡ true
    → env.bind_taken ≡ true
    → (process_frame env b (new_bind key bind_type host port) false).1
      ≡ emit b (got_bind (request_of key bind_type host port))
unfolding process_frame new_bind
asks env b key port host bind_type accepts taken = ground arith

-- While the users of both ends are there, a bind request whose other end takes such requests reaches
-- that end's user as it was asked; whatever the user replies before it drops the request, the requester
-- that processes the two frames learns of that reply, once, and its flow ID is free again.
pub bind_handshake :
    (env : Env) (a b : Task) (key sender port : ℕ) (host : List ℕ) (bind_type : BindType)
    (accepted ignore_bind : Bool)
    → IsAlive env
    → b.accepts_binds ≡ true
    → env.bind_taken ≡ true
    → let a1 = (request_bind env a key sender host port bind_type).1 in
      let request = request_of key bind_type host port in
      let b1 = (process_frame env b (new_bind key bind_type host port) false).1 in
      let b2 = drop_bind_request env (reply env b1 request accepted).1 request in
      let a2 = (process_frame env a1 (answer_frame key accepted) ignore_bind).1 in
      let a3 = (process_frame env a2 (new_reset key) ignore_bind).1 in
      (frames a1.log ≡ frames a.log ++ (new_bind key bind_type host port ∷ []))
      × (b1.log ≡ b.log ++ (got_bind request ∷ []))
      × (frames b2.log ≡ frames b.log ++ (answer_frame key accepted ∷ new_reset key ∷ []))
      × (a3.log ≡ a1.log ++ (answer_bind sender accepted ∷ []))
      × (lookup key a3.flows ≡ none)
bind_handshake env a b key sender port host bind_type accepted ib alive accepts taken =
    let request = request_of key bind_type host port in
    let asked = asker a key sender bind_type host port in
    let (told, free) =
      learns env asked key sender accepted ib (alive.all_waiting sender)
        (ground (arith, lookup-insert key key (bind_requested sender) a.flows)) in
    rw
      (
        request_bind-open env a key sender port host bind_type alive.frames_open,
        asks env b key port host bind_type accepts taken,
      )
      (
        frames-emit a.log (sent_frame (new_bind key bind_type host port)),
        refl,
        replied env (emit b (got_bind request)) request accepted alive.frames_open
            ∙ ap (λ l. l ++ (answer_frame key accepted ∷ new_reset key ∷ []))
                (frames-emit b.log (got_bind request) ∙ append-nil (frames b.log)),
        told,
        free,
      )
