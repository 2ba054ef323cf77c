-- ===== src/Mux/Window/Examples.antt =====
-- A stream of src/mux/stream.rs with a window of two frames: the theorems at concrete links.
use penguin_rs.Base.{ℕ, suc, ◌<◌, refl, ◌⊎◌, [], ◌∷◌, false, arith}
use penguin_rs.Mux.State.{MuxStream, Task}
use penguin_rs.Mux.Stream.{poll_write}
use penguin_rs.Mux.Window.{Link, write, Reach, here, next, IsFresh}
use penguin_rs.Mux.Window.Balance.{credits}
use penguin_rs.Mux.Window.Progress.{no_overrun}
use penguin_rs.Mux.Options.{Options, Setting, new_options, set_options, set_options_no_deadlock}
use penguin_rs.Mux.Window.Stall.{IsStalled, stalls, calm}

abbrev store : Task
store = record {
  flows = [];
  cells = λ _. record { finish_sent = false; psh_send_remaining = 2 };
  next_cell = 1;
  rwnd = 2;
  default_rwnd_threshold = 4;
  accepts_binds = false;
  log = [];
}

abbrev end_with : ℕ → MuxStream
end_with threshold = record {
  flow_id = 5;
  dest_host = [];
  dest_port = 0;
  cell = 0;
  psh_recvd_since = 0;
  buf = [];
  rwnd_threshold = threshold;
}

-- The threshold of the reader is an argument.
abbrev link : ℕ → Link
link threshold = record {
  writer = store;
  stream = end_with 2;
  reader = store;
  remote = end_with threshold;
  pushes = 0;
  queue = 0;
  wire = [];
}

link-IsFresh : (threshold : ℕ) → IsFresh 2 (link threshold)
link-IsFresh threshold = record {
  full_window = refl;
  none_pushed = refl;
  none_queued = refl;
  none_counted = refl;
  none_acked = refl;
}

abbrev written : Link → Link
written l = record l {
  writer = (poll_write calm l.writer l.stream [] (7 ∷ [])).1;
  pushes = suc l.pushes;
}

write_once : Reach 2 (link 2) (written (link 2))
unfolding poll_write
write_once = next here (write calm [] (7 ∷ []) 1 (written (link 2)).writer refl refl refl)

write_twice : Reach 2 (link 2) (written (written (link 2)))
unfolding poll_write
write_twice =
    next write_once (write calm [] (7 ∷ []) 1 (written (written (link 2))).writer refl refl refl)

no_overrun_example : (written (link 2)).queue < 2
no_overrun_example =
    no_overrun 2 (link 2) (written (link 2)) 0 (omega arith) (link-IsFresh 2) write_once refl

-- A window and a threshold of two frames.
abbrev small_options : Options
small_options = record new_options { rwnd = 2; default_rwnd_threshold = 2 }

set_options_no_deadlock_example :
    (0 < (written (written (link 2))).pushes)
    ⊎ (0 < (written (written (link 2))).queue)
    ⊎ (0 < credits (written (written (link 2))).wire)
unfolding poll_write new_options set_options
set_options_no_deadlock_example =
    set_options_no_deadlock (Setting.rwnd 2 ∷ Setting.default_rwnd_threshold 2 ∷ []) small_options 7
      (link 2) (written (written (link 2))) refl (omega arith) (omega arith) refl (link-IsFresh 2)
      write_twice refl

stalls_example : (l : Link) × Reach 2 (link 4) l × IsStalled l
stalls_example = stalls 2 (link 4) (omega arith) (link-IsFresh 4) refl refl
