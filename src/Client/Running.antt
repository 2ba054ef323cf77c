-- ===== src/Client/Running.antt =====
-- src/client/mod.rs: `client_main_inner`, which runs the handlers of all remotes beside its main loop
-- (Client/MainLoop). How each of them ends is an argument.
use penguin_rs.Base.{
  ℕ, zero, suc, ◌≡◌, refl, List, [], ◌∷◌, ◌++◌, ◌<◌, length, Result, ok, err, arith,
}
use penguin_rs.Client.Errors.{Error, remote_handler_exited}

-- What the `select!` finds, in the order of time: a handler has returned, with its fatal error, or
-- the main loop has.
pub data Ending (E : Type 0) : Type 0 where
  handler_ended : Result ℕ (Unit {0}) → Ending E
  main_ended : Result (Error E) (Unit {0}) → Ending E

pub data ClientRun (E : Type 0) : Type 0 where
  running : ClientRun E
  returned : Result (Error E) (Unit {0}) → ClientRun E

module _ {E : Type 0} where
  -- With the number of handlers that still run; where none is left, the client ends well.
  unfoldable pub select : ℕ → List (Ending E) → ClientRun E
  select zero endings = returned (ok tt)
  select (suc handlers) [] = running
  select (suc handlers) (handler_ended (ok u) ∷ endings) = select handlers endings
  select (suc handlers) (handler_ended (err e) ∷ endings) = returned (err (remote_handler_exited e))
  select (suc handlers) (main_ended result ∷ endings) = returned result

  unfoldable pub client_main_inner : {Remote : Type 0} → List Remote → List (Ending E) → ClientRun E
  unfolding select
  client_main_inner remotes endings = select (length remotes) endings

  -- A number of handlers that end well.
  abbrev pub handlers_end : ℕ → List (Ending E)
  handlers_end zero = []
  handlers_end (suc n) = handler_ended (ok tt) ∷ handlers_end n

  select_fails :
      (handlers n e : ℕ) (later : List (Ending E))
      → n < handlers
      → select handlers (handlers_end n ++ handler_ended (err e) ∷ later)
        ≡ returned (err (remote_handler_exited e))
  unfolding select
  select_fails zero n e later h = elim h [ ]
  select_fails (suc handlers) zero e later h = refl
  select_fails (suc handlers) (suc n) e later h = select_fails handlers n e later (omega arith)

  -- The first handler that fails ends the whole client, with its error, while the main loop runs.
  pub client_main_inner_fails :
      {Remote : Type 0} (remotes : List Remote) (n e : ℕ) (later : List (Ending E))
      → n < length remotes
      → client_main_inner remotes (handlers_end n ++ handler_ended (err e) ∷ later)
        ≡ returned (err (remote_handler_exited e))
  unfolding client_main_inner
  client_main_inner_fails remotes n e later h = select_fails (length remotes) n e later h
