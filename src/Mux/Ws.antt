-- ===== src/Mux/Ws.antt =====
-- src/mux/ws.rs: the messages of the crate `tungstenite`, and those of the multiplexor (Mux/Loop).
use penguin_rs.Base.{ℕ, ◌≡◌, refl, List, [], Option, none, some}
use penguin_rs.Mux.Loop.{Message, binary, ping, pong, close}

-- `tungstenite::Message`, with a text as its bytes, and a close frame by its code, if it has one.
pub data WireMessage : Type 0 where
  binary_message text_message ping_message pong_message : List ℕ → WireMessage
  close_message : Option ℕ → WireMessage
  raw_frame : List ℕ → WireMessage

-- `none` is the panic for a raw frame, which is never received.
unfoldable pub from_wire : WireMessage → Option Message
from_wire (binary_message payload) = some (binary payload)
from_wire (text_message text) = some (binary text)
from_wire (ping_message payload) = some ping
from_wire (pong_message payload) = some pong
from_wire (close_message frame) = some close
from_wire (raw_frame frame) = none

unfoldable pub to_wire : Message → WireMessage
to_wire (binary payload) = binary_message payload
to_wire ping = ping_message []
to_wire pong = pong_message []
to_wire close = close_message none

-- A message is read back from what is sent for it.
pub from_wire-to_wire : (message : Message) → from_wire (to_wire message) ≡ some message
unfolding from_wire to_wire
from_wire-to_wire (binary payload) = refl
from_wire-to_wire ping = refl
from_wire-to_wire pong = refl
from_wire-to_wire close = refl
