-- ===== src/Mux/Frame/Codec.antt =====
-- src/mux/frame.rs: `Vec::from(&frame)`, `Frame::try_from(bytes)` and `FinalizedFrame`.
-- The assertions that a debug build adds before `FrameTooShort` are left out: this is the code
-- as a release build runs it. `none` stands for a panic.
use penguin_rs.Base.{
  ℕ, ◌+◌, ◌*◌, ◌/◌, ◌%◌, ◌^◌, bit_and, bit_or, List, [], ◌∷◌, ◌++◌, length, Option, none, some,
  Result, ok, err, ◌>>=◌, ◌>>◌, ltb, ◌==◌, if◌then◌else◌,
}
use penguin_rs.Mux.Frame.{
  Error, frame_too_short, frame_version, protocol_version_number, owned, as_ref, cow_len,
  bind_type_code, bind_type_try_from, OpCode, op_code_value, op_code_try_from, Payload, op_code,
  Frame, Buf,
}

-- `check_remaining!(data, len)`.
unfoldable pub check_remaining : List ℕ → ℕ → Result Error (Unit {0})
check_remaining bytes len = if ltb (length bytes) len then err frame_too_short else ok tt

module _ (b : Buf) where
  open b use {get_u8, get_u16, get_u32, split_to, put_u8, put_u16, put_u32}

  -- The `match &frame.payload` of the encoder.
  unfoldable pub put_payload : List ℕ → Payload → Option (List ℕ)
  unfolding as_ref cow_len bind_type_code
  put_payload encoded (Payload.connect p) =
      some (put_u16 (put_u32 encoded p.rwnd) p.target_port ++ as_ref p.target_host)
  put_payload encoded (Payload.acknowledge psh_recvd_since) = some (put_u32 encoded psh_recvd_since)
  put_payload encoded Payload.reset = some encoded
  put_payload encoded Payload.finish = some encoded
  put_payload encoded (Payload.push bytes) = some (encoded ++ as_ref bytes)
  put_payload encoded (Payload.bind p) =
      some (
        put_u16 (put_u8 encoded (bind_type_code p.bind_type)) p.target_port ++ as_ref p.target_host)
  put_payload encoded (Payload.datagram p) =
      if ltb (cow_len p.target_host) 256
      then some (
          (put_u16 (put_u8 encoded (cow_len p.target_host)) p.target_port ++ as_ref p.target_host)
          ++ as_ref p.payload_data)
      else none

  -- `Vec::<u8>::from(&frame)`, and `frame.finalize()`, which wraps the same bytes.
  unfoldable pub finalize : Frame → Option (List ℕ)
  unfolding put_payload op_code op_code_value
  finalize frame =
      let opcode = op_code_value (op_code frame.payload) in
      let firstbyte = bit_or opcode (protocol_version_number * 2 ^ 4 % 256) in
      put_payload (put_u32 (put_u8 [] firstbyte) frame.id) frame.payload

  -- The `match opcode` of the decoder.
  unfoldable pub get_payload : OpCode → List ℕ → Result Error Payload
  unfolding check_remaining bind_type_try_from
  get_payload OpCode.connect bytes = do
    check_remaining bytes (4 + 2)
    let (rwnd, bytes1) = get_u32 bytes
    let (target_port, bytes2) = get_u16 bytes1
    ok (
        Payload.connect
          (record { rwnd = rwnd; target_port = target_port; target_host = owned bytes2 }))
  get_payload OpCode.acknowledge bytes = do
    check_remaining bytes 4
    let (psh_recvd_since, _) = get_u32 bytes
    ok (Payload.acknowledge psh_recvd_since)
  get_payload OpCode.reset bytes = ok Payload.reset
  get_payload OpCode.finish bytes = ok Payload.finish
  get_payload OpCode.push bytes = ok (Payload.push (owned bytes))
  get_payload OpCode.bind bytes = do
    check_remaining bytes (1 + 2)
    let (code, bytes1) = get_u8 bytes
    bind_type ← bind_type_try_from code
    let (target_port, bytes2) = get_u16 bytes1
    ok (
        Payload.bind
          (record { bind_type = bind_type; target_port = target_port; target_host = owned bytes2 }))
  get_payload OpCode.datagram bytes = do
    check_remaining bytes (1 + 6)
    let (host_len, bytes1) = get_u8 bytes
    check_remaining bytes1 (host_len + 6)
    let (target_port, bytes2) = get_u16 bytes1
    let (target_host, bytes3) = split_to host_len bytes2
    ok (
        Payload.datagram (record {
          target_port = target_port;
          target_host = owned target_host;
          payload_data = owned bytes3;
        }))

  -- `Frame::try_from(bytes)`.
  unfoldable pub try_from : List ℕ → Result Error Frame
  unfolding check_remaining op_code_try_from get_payload
  try_from bytes = do
    check_remaining bytes (1 + 4)
    let (firstbyte, bytes1) = get_u8 bytes
    let ver = firstbyte / 2 ^ 4
    if ver == protocol_version_number then ok tt else err (frame_version ver)
    opcode ← op_code_try_from (bit_and firstbyte 0x0f)
    let (id, bytes2) = get_u32 bytes1
    payload ← get_payload opcode bytes2
    ok (record { id = id; payload = payload })

-- `FinalizedFrame::opcode`.
unfoldable pub finalized_opcode : List ℕ → Result Error OpCode
unfolding op_code_try_from
finalized_opcode [] = err frame_too_short
finalized_opcode (firstbyte ∷ rest) = op_code_try_from (bit_and firstbyte 0x0f)
