-- ===== src/Mux/Frame.antt =====
-- src/mux/frame.rs and src/mux/proto_version.rs: the frames of the protocol, their codes, and
-- what the `bytes` crate is asked for. A byte string is the list of its bytes.
pub mod BigEndian
pub mod Codec
pub mod Encoding
pub mod Payloads
pub mod Decoding
pub mod RoundTrip
mod Examples
use penguin_rs.Base.{
  ℕ, ◌+◌, ◌≤◌, ◌<◌, ◌^◌, ◌≡◌, List, [], ◌∷◌, ◌++◌, length, All, Result, ok, err, ◌==◌,
  if◌then◌else◌,
}

pub data Error : Type 0 where
  frame_too_short : Error
  frame_version : ℕ → Error
  invalid_op_code : ℕ → Error
  invalid_bind_type : ℕ → Error

-- `PROTOCOL_VERSION_NUMBER`.
abbrev pub protocol_version_number : ℕ
protocol_version_number = 7

pub data CowBytes : Type 0 where
  borrowed : List ℕ → CowBytes
  owned : List ℕ → CowBytes

unfoldable pub as_ref : CowBytes → List ℕ
as_ref (borrowed bytes) = bytes
as_ref (owned bytes) = bytes

unfoldable pub into_owned : CowBytes → List ℕ
into_owned (borrowed bytes) = bytes
into_owned (owned bytes) = bytes

unfoldable pub cow_len : CowBytes → ℕ
cow_len (borrowed bytes) = length bytes
cow_len (owned bytes) = length bytes

pub data BindType : Type 0 where
  stream datagram : BindType

-- `bind_type as u8`.
unfoldable pub bind_type_code : BindType → ℕ
bind_type_code stream = 1
bind_type_code datagram = 3

unfoldable pub bind_type_try_from : ℕ → Result Error BindType
bind_type_try_from value =
    if value == 1
    then ok stream
    else if value == 3
    then ok BindType.datagram
    else err (invalid_bind_type value)

pub data OpCode : Type 0 where
  connect acknowledge reset finish push bind datagram : OpCode

-- `opcode as u8`.
unfoldable pub op_code_value : OpCode → ℕ
op_code_value connect = 0
op_code_value acknowledge = 1
op_code_value reset = 2
op_code_value finish = 3
op_code_value push = 4
op_code_value bind = 5
op_code_value datagram = 6

unfoldable pub op_code_try_from : ℕ → Result Error OpCode
op_code_try_from value =
    if value == 0
    then ok connect
    else if value == 1
    then ok acknowledge
    else if value == 2
    then ok reset
    else if value == 3
    then ok finish
    else if value == 4
    then ok push
    else if value == 5
    then ok bind
    else if value == 6
    then ok OpCode.datagram
    else err (invalid_op_code value)

pub record ConnectPayload : Type 0 where
  pub rwnd : ℕ
  pub target_port : ℕ
  pub target_host : CowBytes

pub record BindPayload : Type 0 where
  pub bind_type : BindType
  pub target_port : ℕ
  pub target_host : CowBytes

pub record DatagramPayload : Type 0 where
  pub target_port : ℕ
  pub target_host : CowBytes
  pub payload_data : CowBytes

pub data Payload : Type 0 where
  connect : ConnectPayload → Payload
  acknowledge : ℕ → Payload
  reset : Payload
  finish : Payload
  push : CowBytes → Payload
  bind : BindPayload → Payload
  datagram : DatagramPayload → Payload

-- `Payload::len`; the sizes of u8, u16 and u32 are 1, 2 and 4.
unfoldable pub payload_len : Payload → ℕ
unfolding cow_len
payload_len (Payload.connect p) = 4 + 2 + cow_len p.target_host
payload_len (Payload.acknowledge n) = 4
payload_len Payload.reset = 0
payload_len Payload.finish = 0
payload_len (Payload.push bytes) = cow_len bytes
payload_len (Payload.bind p) = 1 + 2 + cow_len p.target_host
payload_len (Payload.datagram p) = 1 + 2 + cow_len p.target_host + cow_len p.payload_data

-- `OpCode::from(&payload)`.
unfoldable pub op_code : Payload → OpCode
op_code (Payload.connect p) = OpCode.connect
op_code (Payload.acknowledge n) = OpCode.acknowledge
op_code Payload.reset = OpCode.reset
op_code Payload.finish = OpCode.finish
op_code (Payload.push bytes) = OpCode.push
op_code (Payload.bind p) = OpCode.bind
op_code (Payload.datagram p) = OpCode.datagram

pub record Frame : Type 0 where
  pub id : ℕ
  pub payload : Payload

unfoldable pub new_connect : List ℕ → ℕ → ℕ → ℕ → Frame
new_connect target_host target_port id rwnd = record {
  id = id;
  payload =
      Payload.connect
        (record { rwnd = rwnd; target_port = target_port; target_host = borrowed target_host });
}

unfoldable pub new_acknowledge : ℕ → ℕ → Frame
new_acknowledge id psh_recvd_since = record {
  id = id;
  payload = Payload.acknowledge psh_recvd_since;
}

unfoldable pub new_reset : ℕ → Frame
new_reset id = record { id = id; payload = Payload.reset }

unfoldable pub new_finish : ℕ → Frame
new_finish id = record { id = id; payload = Payload.finish }

unfoldable pub new_push : ℕ → List ℕ → Frame
new_push id bytes = record { id = id; payload = Payload.push (borrowed bytes) }

unfoldable pub new_bind : ℕ → BindType → List ℕ → ℕ → Frame
new_bind id bind_type target_host target_port = record {
  id = id;
  payload = Payload.bind (record {
    bind_type = bind_type;
    target_port = target_port;
    target_host = borrowed target_host;
  });
}

unfoldable pub new_datagram_owned : ℕ → List ℕ → ℕ → List ℕ → Frame
new_datagram_owned id target_host target_port bytes = record {
  id = id;
  payload = Payload.datagram (record {
    target_port = target_port;
    target_host = owned target_host;
    payload_data = owned bytes;
  });
}

abbrev pub IsByte : ℕ → Type 0
IsByte b = b < 256

-- What the code relies on of `Buf` and `BufMut` of the `bytes` crate: integers are written and
-- read in network order, a read takes exactly the bytes of its width, and a write appends them.
pub record Buf : Type 0 where
  pub get_u8 : List ℕ → ℕ × List ℕ
  pub get_u16 : List ℕ → ℕ × List ℕ
  pub get_u32 : List ℕ → ℕ × List ℕ
  pub split_to : ℕ → List ℕ → List ℕ × List ℕ
  pub put_u8 : List ℕ → ℕ → List ℕ
  pub put_u16 : List ℕ → ℕ → List ℕ
  pub put_u32 : List ℕ → ℕ → List ℕ
  pub be_u16 : ℕ → List ℕ
  pub be_u32 : ℕ → List ℕ
  pub get_u8_lem : (b : ℕ) (rest : List ℕ) → get_u8 (b ∷ rest) ≡ (b, rest)
  pub get_u16-be_u16 : (x : ℕ) (rest : List ℕ) → x < 2 ^ 16 → get_u16 (be_u16 x ++ rest) ≡ (x, rest)
  pub get_u32-be_u32 : (x : ℕ) (rest : List ℕ) → x < 2 ^ 32 → get_u32 (be_u32 x ++ rest) ≡ (x, rest)
  pub split_to_lem : (xs ys : List ℕ) → split_to (length xs) (xs ++ ys) ≡ (xs, ys)
  pub put_u8_lem : (dst : List ℕ) (b : ℕ) → put_u8 dst b ≡ dst ++ (b ∷ [])
  pub put_u16_lem : (dst : List ℕ) (x : ℕ) → put_u16 dst x ≡ dst ++ be_u16 x
  pub put_u32_lem : (dst : List ℕ) (x : ℕ) → put_u32 dst x ≡ dst ++ be_u32 x
  pub length-be_u16 : (x : ℕ) → length (be_u16 x) ≡ 2
  pub length-be_u32 : (x : ℕ) → length (be_u32 x) ≡ 4
  pub be_u16-get_u16 :
      (bs : List ℕ)
      → 2 ≤ length bs
      → All IsByte bs
      → (bs ≡ be_u16 (get_u16 bs).0 ++ (get_u16 bs).1) × ((get_u16 bs).0 < 2 ^ 16)
  pub be_u32-get_u32 :
      (bs : List ℕ)
      → 4 ≤ length bs
      → All IsByte bs
      → (bs ≡ be_u32 (get_u32 bs).0 ++ (get_u32 bs).1) × ((get_u32 bs).0 < 2 ^ 32)
