-- ===== src/Mux.antt =====
-- The multiplexor library of src/mux.
pub mod Frame
pub mod State
pub mod Flow
pub mod Task
pub mod Loop
pub mod Stream
pub mod Copy
pub mod Api
pub mod Options
pub mod Running
pub mod Timing
pub mod Window
pub mod Ws
pub mod Samples
mod Examples
