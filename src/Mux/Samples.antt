-- ===== src/Mux/Samples.antt =====
-- Sample states of the multiplexor of src/mux, for the concrete runs.
use penguin_rs.Base.{[], ◌∷◌, true, false, some, arith, lookup}
use penguin_rs.Mux.State.{MuxStream, requested, established, Env, Task, TrySend}
use penguin_rs.Mux.Task.Isolation.{IsWf}

-- Everything is taken, and everybody waits.
abbrev pub alive : Env
alive = record {
  frame_open = true;
  is_waiting = λ _. true;
  stream_taken = true;
  bind_taken = true;
  datagram_send = TrySend.sent;
  data_send = λ _. TrySend.sent;
}

-- Nobody waits for an answer.
abbrev pub gone : Env
gone = record alive { is_waiting = λ _. false }

-- Flow 5 is an established stream and flow 6 was asked for.
abbrev pub task : Task
task = record {
  flows = (5, established (record { sender = some 0; cell = 0 })) ∷ (6, requested 3) ∷ [];
  cells = λ _. record { finish_sent = false; psh_send_remaining = 2 };
  next_cell = 1;
  rwnd = 2;
  default_rwnd_threshold = 4;
  accepts_binds = true;
  log = [];
}

pub task-IsWf : IsWf task.flows task.next_cell
unfolding lookup
task-IsWf = record {
  below = λ k d e. ground arith;
  apart = λ j k d d' e e' q. ground arith;
  own = λ k c d e q. ground arith;
}

-- The user's end of flow 5.
abbrev pub stream : MuxStream
stream = record {
  flow_id = 5;
  dest_host = [];
  dest_port = 0;
  cell = 0;
  psh_recvd_since = 1;
  buf = [];
  rwnd_threshold = 2;
}
