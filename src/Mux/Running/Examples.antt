-- ===== src/Mux/Running/Examples.antt =====
-- A new multiplexor that requests a stream, and is dropped: the theorem at a concrete input.
use penguin_rs.Base.{List, [], ◌∷◌, some, ok}
use penguin_rs.Mux.Frame.BigEndian.{big_endian}
use penguin_rs.Mux.Task.Isolation.{IsWf}
use penguin_rs.Mux.Options.{new_options}
use penguin_rs.Mux.Samples.{alive}
use penguin_rs.Mux.Running.{Event, connects, port_dropped, keepalive_tick, new_multiplexor, run}
use penguin_rs.Mux.Running.Invariant.{run-IsWf}

abbrev events : List Event
events =
    connects alive (7 ∷ []) 0 (b'h' ∷ []) 80
    ∷ keepalive_tick (record { poll_ready = ok tt; start_send = ok tt; poll_flush = ok tt })
    ∷ port_dropped alive (some 0)
    ∷ []

run-IsWf_example :
    let s =
      (run big_endian
        (some 25)
        events
        (record { task = (new_multiplexor new_options).1; sent = [] })).1.task in
    IsWf s.flows s.next_cell
run-IsWf_example = run-IsWf big_endian (some 25) new_options events
