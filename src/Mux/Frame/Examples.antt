-- ===== src/Mux/Frame/Examples.antt =====
-- Concrete frames of src/mux/frame.rs: runs, and the theorems at inputs.
use penguin_rs.Base.{ℕ, ◌≡◌, refl, List, [], ◌∷◌, ◌++◌, arith, some, ok, err}
use penguin_rs.Mux.Frame.{
  Frame, Payload, DatagramPayload, borrowed, frame_version, new_connect, new_reset,
}
use penguin_rs.Mux.Frame.BigEndian.{big_endian}
use penguin_rs.Mux.Frame.Codec.{finalize, try_from}
use penguin_rs.Mux.Frame.Encoding.{HostFits, Fits, wire}
use penguin_rs.Mux.Frame.RoundTrip.{owned_frame, try_from-finalize}
use penguin_rs.Mux.Frame.Decoding.{try_from_sound}
use penguin_rs.Mux.Frame.Payloads.{HasTrailer}

connect_bytes :
    finalize big_endian (new_connect (7 ∷ 8 ∷ []) 80 258 512)
    ≡ some (112 ∷ 0 ∷ 0 ∷ 1 ∷ 2 ∷ 0 ∷ 0 ∷ 2 ∷ 0 ∷ 0 ∷ 80 ∷ 7 ∷ 8 ∷ [])
unfolding finalize new_connect
connect_bytes = refl

wrong_version : try_from big_endian (96 ∷ 0 ∷ 0 ∷ 0 ∷ 1 ∷ []) ≡ err (frame_version 6)
unfolding try_from
wrong_version = refl

reset_trailer : try_from big_endian (114 ∷ 0 ∷ 0 ∷ 0 ∷ 1 ∷ 99 ∷ []) ≡ ok (new_reset 1)
unfolding try_from new_reset
reset_trailer = refl

abbrev hello : DatagramPayload
hello = record {
  target_port = 53;
  target_host = borrowed (49 ∷ []);
  payload_data = borrowed (1 ∷ 2 ∷ 3 ∷ 4 ∷ []);
}

abbrev hello_frame : Frame
hello_frame = record { id = 9; payload = Payload.datagram hello }

abbrev hello_bytes : List ℕ
hello_bytes = 118 ∷ 0 ∷ 0 ∷ 0 ∷ 9 ∷ 1 ∷ 0 ∷ 53 ∷ 49 ∷ 1 ∷ 2 ∷ 3 ∷ 4 ∷ []

hello_encoded : finalize big_endian hello_frame ≡ some hello_bytes
unfolding finalize
hello_encoded = refl

try_from-finalize_example : try_from big_endian hello_bytes ≡ ok (owned_frame hello_frame)
unfolding finalize
try_from-finalize_example =
    try_from-finalize big_endian hello_frame hello_bytes (omega arith) (omega arith) hello_encoded

try_from_sound_example :
    Fits (new_reset 1)
    × HostFits (new_reset 1).payload
    × ((rest : List ℕ) × (114 ∷ 0 ∷ 0 ∷ 0 ∷ 1 ∷ 99 ∷ [] ≡ wire big_endian (new_reset 1) ++ rest)
        × HasTrailer (new_reset 1).payload rest)
try_from_sound_example =
    try_from_sound big_endian (114 ∷ 0 ∷ 0 ∷ 0 ∷ 1 ∷ 99 ∷ []) (new_reset 1) (omega arith)
      reset_trailer
