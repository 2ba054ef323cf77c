-- ===== src/Mux/Api/Examples.antt =====
-- Calls on a `Multiplexor` of src/mux/lib.rs: the theorems at concrete states.
use penguin_rs.Base.{some, ◌≡◌, refl, [], ◌∷◌, ◌++◌, true, false, none, lookup}
use penguin_rs.Mux.Frame.{BindType, new_bind, new_finish, new_reset, new_connect, new_acknowledge}
use penguin_rs.Mux.State.{
  BindRequest, got_bind, answer_bind, sent_frame, new_stream, answer_connect,
}
use penguin_rs.Mux.Task.{process_frame}
use penguin_rs.Mux.Task.Replies.{frames}
use penguin_rs.Mux.Task.Failures.{IsAlive}
use penguin_rs.Mux.Samples.{alive, task}
use penguin_rs.Mux.Api.{request_stream, request_bind, reply, drop_bind_request}
use penguin_rs.Mux.Api.Binds.{request_of, bind_handshake}
use penguin_rs.Mux.Api.Handshake.{Opened, given, handshake}

alive-IsAlive : IsAlive alive
alive-IsAlive = record {
  frames_open = refl;
  streams_taken = refl;
  datagrams_open = λ e. cc e;
  all_waiting = λ _. refl;
}

handshake_example :
    let a1 = (request_stream alive task 8 4 (1 ∷ []) 80).1 in
    let b1 = (process_frame alive task (new_connect (1 ∷ []) 80 8 2) false).1 in
    let a2 = (process_frame alive a1 (new_acknowledge 8 2) false).1 in
    (a1.log ≡ task.log ++ (sent_frame (new_connect (1 ∷ []) 80 8 2) ∷ []))
    × (b1.log
        ≡ task.log
          ++ (sent_frame (new_acknowledge 8 2) ∷ new_stream (given task 8 2 (1 ∷ []) 80) ∷ []))
    × Opened b1 8 1 2
    × (a2.log ≡ a1.log ++ (answer_connect 4 (some (given task 8 2 [] 0)) ∷ []))
    × Opened a2 8 1 2
unfolding lookup
handshake_example = handshake alive task task 8 4 80 (1 ∷ []) false alive-IsAlive refl

abbrev request : BindRequest
request = request_of 9 BindType.stream (1 ∷ []) 80

bind_handshake_example :
    let a1 = (request_bind alive task 9 7 (1 ∷ []) 80 BindType.stream).1 in
    let b1 = (process_frame alive task (new_bind 9 BindType.stream (1 ∷ []) 80) false).1 in
    let b2 = drop_bind_request alive (reply alive b1 request true).1 request in
    let a2 = (process_frame alive a1 (new_finish 9) false).1 in
    let a3 = (process_frame alive a2 (new_reset 9) false).1 in
    (frames a1.log ≡ frames task.log ++ (new_bind 9 BindType.stream (1 ∷ []) 80 ∷ []))
    × (b1.log ≡ task.log ++ (got_bind request ∷ []))
    × (frames b2.log ≡ frames task.log ++ (new_finish 9 ∷ new_reset 9 ∷ []))
    × (a3.log ≡ a1.log ++ (answer_bind 7 true ∷ []))
    × (lookup 9 a3.flows ≡ none)
bind_handshake_example =
    bind_handshake alive task task 9 7 80 (1 ∷ []) BindType.stream true false alive-IsAlive refl
      refl
