-- ===== src/Mux/Flow.antt =====
-- src/mux/lib.rs: the operations of `EstablishedStreamData` and of `FlowSlot`.
use penguin_rs.Base.{ℕ, ◌+◌, ◌%◌, ◌^◌, List, Bool, true, Option, none, some}
use penguin_rs.Mux.State.{
  EstablishedStreamData, FlowSlot, requested, established, bind_requested, TrySend, sent, full, Env,
  woke_writer, delivered, Task, emit, set_cell,
}

-- Returns the sender, if it was still there, and what is left.
unfoldable pub disallow_read : EstablishedStreamData → Option ℕ × EstablishedStreamData
disallow_read stream_data = (stream_data.sender, record stream_data { sender = none })

-- `fetch_add` on a `u32` wraps around.
unfoldable pub acknowledge : Task → EstablishedStreamData → ℕ → Task
acknowledge s stream_data acknowledged =
    let cell = s.cells stream_data.cell in
    emit
      (set_cell s stream_data.cell
        (record cell { psh_send_remaining = (cell.psh_send_remaining + acknowledged) % 2 ^ 32 }))
      (woke_writer stream_data.cell)

-- Returns the flag's old value.
unfoldable pub disallow_write : Task → EstablishedStreamData → Bool × Task
disallow_write s stream_data =
    let cell = s.cells stream_data.cell in
    (
      cell.finish_sent,
      emit (set_cell s stream_data.cell (record cell { finish_sent = true }))
          (woke_writer stream_data.cell),
    )

-- The slot after the call, and the oneshot channel that was taken out of it.
unfoldable pub establish : FlowSlot → EstablishedStreamData → FlowSlot × Option ℕ
establish (requested sender) stream_data = (established stream_data, some sender)
establish (established old) stream_data = (established old, none)
establish (bind_requested sender) stream_data = (bind_requested sender, none)

-- `sender.try_send(data)`.
unfoldable pub try_send : Env → Task → ℕ → List ℕ → TrySend × Task
try_send env s channel bytes = elim (env.data_send channel) [
  | TrySend.sent ↦ (sent, emit s (delivered channel bytes))
  | TrySend.full ↦ (full, s)
  | TrySend.closed ↦ (TrySend.closed, s)
]

unfoldable pub send_data : Env → Task → Option ℕ → List ℕ → Option TrySend × Task
unfolding try_send
send_data env s none bytes = (none, s)
send_data env s (some channel) bytes = let (r, s') = try_send env s channel bytes in (some r, s')

-- `none` where the slot is not established, or its sender is gone.
unfoldable pub dispatch : Env → Task → FlowSlot → List ℕ → Option TrySend × Task
unfolding send_data
dispatch env s (established stream_data) bytes = send_data env s stream_data.sender bytes
dispatch env s (requested sender) bytes = (none, s)
dispatch env s (bind_requested sender) bytes = (none, s)
