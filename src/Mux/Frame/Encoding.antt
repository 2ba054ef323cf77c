-- ===== src/Mux/Frame/Encoding.antt =====
-- What the encoder of src/mux/frame.rs writes: the layout that PROTOCOL.md draws, when it panics,
-- and the size that it reserves.
use penguin_rs.Base.{
  ℕ, ◌+◌, ◌<◌, ◌^◌, ◌≡◌, refl, sym, ◌∙◌, List, [], ◌∷◌, ◌++◌, length, length-append, append_assoc,
  append-nil, bit_or, none, some, arith, ltb-true, ltb-false, ◌↔◌,
}
use native.Mathlib.Decide.{dec_lt}
use penguin_rs.Mux.Frame.{
  as_ref, cow_len, CowBytes, borrowed, owned, bind_type_code, op_code_value, op_code, Payload,
  payload_len, Frame, Buf, OpCode,
}
use penguin_rs.Mux.Frame.Codec.{put_payload, finalize}

-- The ranges of the fields' machine types.
abbrev pub FitsPayload : Payload → Type 0
FitsPayload (Payload.connect p) = (p.rwnd < 2 ^ 32) × (p.target_port < 2 ^ 16)
FitsPayload (Payload.acknowledge n) = n < 2 ^ 32
FitsPayload Payload.reset = Unit {0}
FitsPayload Payload.finish = Unit {0}
FitsPayload (Payload.push bytes) = Unit {0}
FitsPayload (Payload.bind p) = p.target_port < 2 ^ 16
FitsPayload (Payload.datagram p) = p.target_port < 2 ^ 16

abbrev pub Fits : Frame → Type 0
Fits f = (f.id < 2 ^ 32) × FitsPayload f.payload

-- The host of a datagram has to be at most 255 bytes long; other payloads have no such limit.
abbrev pub HostFits : Payload → Type 0
HostFits (Payload.connect p) = Unit {0}
HostFits (Payload.acknowledge n) = Unit {0}
HostFits Payload.reset = Unit {0}
HostFits Payload.finish = Unit {0}
HostFits (Payload.push bytes) = Unit {0}
HostFits (Payload.bind p) = Unit {0}
HostFits (Payload.datagram p) = length (as_ref p.target_host) < 256

HostFits-dec : (p : Payload) → Dec (HostFits p)
HostFits-dec (Payload.connect p) = yes tt
HostFits-dec (Payload.acknowledge n) = yes tt
HostFits-dec Payload.reset = yes tt
HostFits-dec Payload.finish = yes tt
HostFits-dec (Payload.push bytes) = yes tt
HostFits-dec (Payload.bind p) = yes tt
HostFits-dec (Payload.datagram p) = dec_lt _ _

pub cow_len_lem : (c : CowBytes) → cow_len c ≡ length (as_ref c)
unfolding cow_len as_ref
cow_len_lem (borrowed bytes) = refl
cow_len_lem (owned bytes) = refl

module _ (b : Buf) where
  open b use {be_u16, be_u32, put_u8_lem, put_u16_lem, put_u32_lem, length-be_u16, length-be_u32}

  -- The data part of a frame, field by field in the order of PROTOCOL.md.
  abbrev pub wire_payload : Payload → List ℕ
  wire_payload (Payload.connect p) = be_u32 p.rwnd ++ (be_u16 p.target_port ++ as_ref p.target_host)
  wire_payload (Payload.acknowledge n) = be_u32 n
  wire_payload Payload.reset = []
  wire_payload Payload.finish = []
  wire_payload (Payload.push bytes) = as_ref bytes
  wire_payload (Payload.bind p) =
      bind_type_code p.bind_type ∷ (be_u16 p.target_port ++ as_ref p.target_host)
  wire_payload (Payload.datagram p) =
      length (as_ref p.target_host)
      ∷ (be_u16 p.target_port ++ (as_ref p.target_host ++ as_ref p.payload_data))

  -- Version 7 in the high half of the first byte, the operation code in the low half.
  abbrev pub wire : Frame → List ℕ
  wire f = (112 + op_code_value (op_code f.payload)) ∷ (be_u32 f.id ++ wire_payload f.payload)

  put_payload-wire :
      (dst : List ℕ) (p : Payload) → HostFits p → put_payload b dst p ≡ some (dst ++ wire_payload p)
  unfolding put_payload
  put_payload-wire dst (Payload.connect p) h = simp (put_u32_lem, put_u16_lem, append_assoc)
  put_payload-wire dst (Payload.acknowledge n) h = rw put_u32_lem
  put_payload-wire dst Payload.reset h = rw append-nil
  put_payload-wire dst Payload.finish h = rw append-nil
  put_payload-wire dst (Payload.push bytes) h = refl
  put_payload-wire dst (Payload.bind p) h = simp (put_u8_lem, put_u16_lem, append_assoc)
  put_payload-wire dst (Payload.datagram p) h =
      rw (cow_len_lem p.target_host, ltb-true _ 256 h)
        (simp (put_u8_lem, put_u16_lem, append_assoc))

  first_byte : (o : OpCode) → bit_or (op_code_value o) 112 ≡ 112 + op_code_value o
  unfolding op_code_value
  first_byte OpCode.connect = refl
  first_byte OpCode.acknowledge = refl
  first_byte OpCode.reset = refl
  first_byte OpCode.finish = refl
  first_byte OpCode.push = refl
  first_byte OpCode.bind = refl
  first_byte OpCode.datagram = refl

  -- A frame whose datagram host is short enough, or that is no datagram, is encoded without a
  -- panic, and the bytes are exactly those of the layout.
  pub finalize-wire : (f : Frame) → HostFits f.payload → finalize b f ≡ some (wire f)
  unfolding finalize
  finalize-wire f h =
      put_payload-wire _ f.payload h
      ∙ simp (put_u8_lem, put_u32_lem, append_assoc, first_byte (op_code f.payload))

  long_host : (f : Frame) → ¬ HostFits f.payload → finalize b f ≡ none
  unfolding finalize
  long_host f h = long_host_payload _ f.payload h
    where
      long_host_payload : (dst : List ℕ) (p : Payload) → ¬ HostFits p → put_payload b dst p ≡ none
      long_host_payload dst (Payload.connect p) n = absurd (n tt)
      long_host_payload dst (Payload.acknowledge k) n = absurd (n tt)
      long_host_payload dst Payload.reset n = absurd (n tt)
      long_host_payload dst Payload.finish n = absurd (n tt)
      long_host_payload dst (Payload.push bytes) n = absurd (n tt)
      long_host_payload dst (Payload.bind p) n = absurd (n tt)
      long_host_payload dst (Payload.datagram p) n =
          rw
            (cow_len_lem p.target_host, ltb-false (length (as_ref p.target_host)) 256 (omega arith))

  -- Encoding panics for the datagrams whose host is longer than 255 bytes, and for no other frame.
  pub finalize_panics : (f : Frame) → (finalize b f ≡ none) ↔ (¬ HostFits f.payload)
  finalize_panics f = ((λ e h. cc (e, finalize-wire f h)), long_host f)

  length-wire_payload : (p : Payload) → length (wire_payload p) ≡ payload_len p
  unfolding payload_len
  length-wire_payload (Payload.connect p) =
      simp (length-append, length-be_u32, length-be_u16, cow_len_lem) (omega arith)
  length-wire_payload (Payload.acknowledge n) = length-be_u32 n
  length-wire_payload Payload.reset = refl
  length-wire_payload Payload.finish = refl
  length-wire_payload (Payload.push bytes) = sym (cow_len_lem bytes)
  length-wire_payload (Payload.bind p) =
      simp (length-append, length-be_u16, cow_len_lem) (omega arith)
  length-wire_payload (Payload.datagram p) =
      simp (length-append, length-be_u16, cow_len_lem) (omega arith)

  length-wire : (f : Frame) → length (wire f) ≡ 5 + payload_len f.payload
  length-wire f = simp (length-append, length-be_u32, length-wire_payload f.payload) (omega arith)

  pub finalize-eq-some :
      (f : Frame) (bytes : List ℕ)
      → finalize b f ≡ some bytes
      → HostFits f.payload × (bytes ≡ wire f)
  finalize-eq-some f bytes e = elim (HostFits-dec f.payload) [
    | yes h ↦ (h, ground (arith, finalize-wire f h))
    | no h ↦ cc (long_host f h)
  ]

  -- Where encoding does not panic, its result has the length that the encoder reserves: 5 bytes
  -- of header and `payload.len()`.
  pub length-finalize :
      (f : Frame) (bytes : List ℕ)
      → finalize b f ≡ some bytes
      → length bytes ≡ 1 + 4 + payload_len f.payload
  length-finalize f bytes e = ground (arith, finalize-eq-some f bytes e, length-wire f)
