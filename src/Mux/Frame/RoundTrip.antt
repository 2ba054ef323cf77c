-- ===== src/Mux/Frame/RoundTrip.antt =====
-- Decoding what the encoder of src/mux/frame.rs wrote.
use penguin_rs.Base.{
  ℕ, ◌+◌, ◌≤◌, ◌<◌, ◌^◌, ◌≡◌, refl, List, [], ◌++◌, length, length-append, append-nil, some, ◌>>=◌,
  arith, ltb-true, ltb-false, ok, err, bit_and,
}
use penguin_rs.Mux.Frame.{
  frame_too_short, as_ref, owned, bind_type_code, BindType, stream, op_code_value, op_code,
  op_code_try_from, OpCode, Payload, Frame, Buf, bind_type_try_from, DatagramPayload,
}
use penguin_rs.Mux.Frame.Codec.{get_payload, finalize, try_from, check_remaining, finalized_opcode}
use penguin_rs.Mux.Frame.Encoding.{
  Fits, FitsPayload, HostFits, wire, wire_payload, finalize-eq-some,
}

-- The same payload with its byte strings owned, as the decoder builds it.
abbrev pub owned_payload : Payload → Payload
owned_payload (Payload.connect p) =
    Payload.connect (record p { target_host = owned (as_ref p.target_host) })
owned_payload (Payload.acknowledge n) = Payload.acknowledge n
owned_payload Payload.reset = Payload.reset
owned_payload Payload.finish = Payload.finish
owned_payload (Payload.push bytes) = Payload.push (owned (as_ref bytes))
owned_payload (Payload.bind p) =
    Payload.bind (record p { target_host = owned (as_ref p.target_host) })
owned_payload (Payload.datagram p) = Payload.datagram (record p {
  target_host = owned (as_ref p.target_host);
  payload_data = owned (as_ref p.payload_data);
})

abbrev pub owned_frame : Frame → Frame
owned_frame f = record f { payload = owned_payload f.payload }

-- The decoder asks a datagram for four bytes of data that the encoder need not write.
abbrev pub IsReadable : Payload → Type 0
IsReadable (Payload.connect p) = Unit {0}
IsReadable (Payload.acknowledge n) = Unit {0}
IsReadable Payload.reset = Unit {0}
IsReadable Payload.finish = Unit {0}
IsReadable (Payload.push bytes) = Unit {0}
IsReadable (Payload.bind p) = Unit {0}
IsReadable (Payload.datagram p) = 4 ≤ length (as_ref p.payload_data)

op_code_try_from-value : (o : OpCode) → op_code_try_from (op_code_value o) ≡ ok o
unfolding op_code_try_from op_code_value
op_code_try_from-value OpCode.connect = refl
op_code_try_from-value OpCode.acknowledge = refl
op_code_try_from-value OpCode.reset = refl
op_code_try_from-value OpCode.finish = refl
op_code_try_from-value OpCode.push = refl
op_code_try_from-value OpCode.bind = refl
op_code_try_from-value OpCode.datagram = refl

low_half : (o : OpCode) → bit_and (112 + op_code_value o) 0x0f ≡ op_code_value o
unfolding op_code_value
low_half OpCode.connect = refl
low_half OpCode.acknowledge = refl
low_half OpCode.reset = refl
low_half OpCode.finish = refl
low_half OpCode.push = refl
low_half OpCode.bind = refl
low_half OpCode.datagram = refl

op_code_value-lt : (o : OpCode) → op_code_value o < 7
unfolding op_code_value
op_code_value-lt o = ground arith

bind_type_try_from-code : (t : BindType) → bind_type_try_from (bind_type_code t) ≡ ok t
unfolding bind_type_try_from bind_type_code
bind_type_try_from-code stream = refl
bind_type_try_from-code BindType.datagram = refl

check_remaining_pass : (bytes : List ℕ) (n : ℕ) → n ≤ length bytes → check_remaining bytes n ≡ ok tt
unfolding check_remaining
check_remaining_pass bytes n h = rw (ltb-false (length bytes) n h)

check_remaining_fail :
    (bytes : List ℕ) (n : ℕ) → length bytes < n → check_remaining bytes n ≡ err frame_too_short
unfolding check_remaining
check_remaining_fail bytes n h = rw (ltb-true (length bytes) n h)

module _ (b : Buf) where
  open b use {
    be_u16, be_u32, get_u8_lem, get_u16-be_u16, get_u32-be_u32, split_to_lem, length-be_u16,
    length-be_u32,
  }

  get_payload-wire :
      (p : Payload)
      → FitsPayload p
      → HostFits p
      → IsReadable p
      → get_payload b (op_code p) (wire_payload b p) ≡ ok (owned_payload p)
  unfolding get_payload op_code
  get_payload-wire (Payload.connect p) h k r =
      let rest = be_u16 p.target_port ++ as_ref p.target_host in
      ground (
        arith,
        length-append (be_u32 p.rwnd) rest,
        length-append (be_u16 p.target_port) (as_ref p.target_host),
        length-be_u32 p.rwnd,
        length-be_u16 p.target_port,
        get_u32-be_u32 p.rwnd rest,
        get_u16-be_u16 p.target_port (as_ref p.target_host),
      )
  get_payload-wire (Payload.acknowledge n) h k r =
      ground (arith, length-be_u32 n, get_u32-be_u32 n [], append-nil (be_u32 n))
  get_payload-wire Payload.reset h k r = refl
  get_payload-wire Payload.finish h k r = refl
  get_payload-wire (Payload.push bytes) h k r = refl
  get_payload-wire (Payload.bind p) h k r =
      let rest = be_u16 p.target_port ++ as_ref p.target_host in
      ground (
        arith,
        length-append (be_u16 p.target_port) (as_ref p.target_host),
        length-be_u16 p.target_port,
        get_u8_lem (bind_type_code p.bind_type) rest,
        bind_type_try_from-code p.bind_type,
        get_u16-be_u16 p.target_port (as_ref p.target_host),
      )
  get_payload-wire (Payload.datagram p) h k r =
      let host = as_ref p.target_host in
      let bytes = as_ref p.payload_data in
      ground (
        arith,
        length-append (be_u16 p.target_port) (host ++ bytes),
        length-append host bytes,
        length-be_u16 p.target_port,
        get_u8_lem (length host) (be_u16 p.target_port ++ (host ++ bytes)),
        get_u16-be_u16 p.target_port (host ++ bytes),
        split_to_lem host bytes,
      )

  -- The header of an encoding is read back, and the rest is left to `get_payload`.
  try_from-wire :
      (f : Frame)
      → f.id < 2 ^ 32
      → try_from b (wire b f) ≡ (
          get_payload b (op_code f.payload) (wire_payload b f.payload) >>= λ p.
          ok (record { id = f.id; payload = p }))
  unfolding try_from
  try_from-wire f h =
      let body = wire_payload b f.payload in
      ground (
        arith,
        length-append (be_u32 f.id) body,
        length-be_u32 f.id,
        get_u8_lem (112 + op_code_value (op_code f.payload)) (be_u32 f.id ++ body),
        op_code_value-lt (op_code f.payload),
        low_half (op_code f.payload),
        op_code_try_from-value (op_code f.payload),
        get_u32-be_u32 f.id body,
      )

  get_payload_short :
      (p : DatagramPayload)
      → p.target_port < 2 ^ 16
      → length (as_ref p.payload_data) < 4
      → get_payload b OpCode.datagram (wire_payload b (Payload.datagram p)) ≡ err frame_too_short
  unfolding get_payload
  get_payload_short p h short =
      let host = as_ref p.target_host in
      let bytes = as_ref p.payload_data in
      ground (
        arith,
        length-append (be_u16 p.target_port) (host ++ bytes),
        length-append host bytes,
        length-be_u16 p.target_port,
        get_u8_lem (length host) (be_u16 p.target_port ++ (host ++ bytes)),
      )

  -- A frame whose fields fit their machine types is read back from its encoding, with its byte
  -- strings owned, unless it is a datagram with fewer than four bytes of data.
  pub try_from-finalize :
      (f : Frame) (bytes : List ℕ)
      → Fits f
      → IsReadable f.payload
      → finalize b f ≡ some bytes
      → try_from b bytes ≡ ok (owned_frame f)
  try_from-finalize f bytes h r e =
      let (k, w) = finalize-eq-some b f bytes e in
      rw (w, try_from-wire f h.0, get_payload-wire f.payload h.1 k r)

  -- A datagram with fewer than four bytes of data, whose flow ID and port fit their types and
  -- which can be encoded, is refused as too short by the decoder, whatever its host.
  pub short_datagram_refused :
      (id : ℕ) (p : DatagramPayload) (bytes : List ℕ)
      → id < 2 ^ 32
      → p.target_port < 2 ^ 16
      → length (as_ref p.payload_data) < 4
      → finalize b (record { id = id; payload = Payload.datagram p }) ≡ some bytes
      → try_from b bytes ≡ err frame_too_short
  short_datagram_refused id p bytes hid hport short e =
      let f : Frame = record { id = id; payload = Payload.datagram p } in
      rw ((finalize-eq-some b f bytes e).1, try_from-wire f hid)
        (unfold op_code in rw (get_payload_short p hport short))

  -- The operation code that `FinalizedFrame` reports is that of the frame it was encoded from.
  pub finalized_opcode-finalize :
      (f : Frame) (bytes : List ℕ)
      → finalize b f ≡ some bytes
      → finalized_opcode bytes ≡ ok (op_code f.payload)
  unfolding finalized_opcode
  finalized_opcode-finalize f bytes e =
      rw ((finalize-eq-some b f bytes e).1)
        (rw (low_half (op_code f.payload)) (op_code_try_from-value (op_code f.payload)))
