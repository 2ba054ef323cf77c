-- ===== src/Mux/Frame/Decoding.antt =====
-- What the decoder of src/mux/frame.rs accepts, on any bytes.
use penguin_rs.Base.{
  ℕ, ◌+◌, ◌/◌, ◌≤◌, ◌≡◌, refl, ◌∙◌, List, [], ◌∷◌, ◌++◌, length, append_assoc, arith, ok, err,
  bit_and, bit_and-low_half, Result, All, ap,
}
use penguin_rs.Mux.Frame.{
  Error, op_code_value, op_code, op_code_try_from, OpCode, Payload, Frame, Buf, IsByte,
}
use penguin_rs.Mux.Frame.Codec.{get_payload, try_from}
use penguin_rs.Mux.Frame.Encoding.{Fits, HostFits, wire, wire_payload}
use penguin_rs.Mux.Frame.Payloads.{HasTrailer, op_code_sound, read_u32, get_payload-Reads}

module _ (b : Buf) where
  open b use {
    get_u8, get_u16, get_u32, be_u16, be_u32, get_u8_lem, split_to_lem, length-be_u16,
    length-be_u32, be_u16-get_u16, be_u32-get_u32,
  }

  -- Whatever bytes the decoder accepts start with the encoding of the frame that it returns, and
  -- every field of that frame fits its machine type. Bytes are left over only behind an
  -- `Acknowledge`, a `Reset` or a `Finish`.
  pub try_from_sound :
      (bytes : List ℕ) (f : Frame)
      → All IsByte bytes
      → try_from b bytes ≡ ok f
      → Fits f
        × HostFits f.payload
        × ((rest : List ℕ) × (bytes ≡ wire b f ++ rest) × HasTrailer f.payload rest)
  unfolding try_from
  try_from_sound [] f h e = ground arith
  try_from_sound (x ∷ bytes) f h e = with_op (op_code_try_from (bit_and x 0x0f)) refl
    where
      long : 5 ≤ length (x ∷ bytes)
      long = ground arith

      version : x / 16 ≡ 7
      version = ground (arith, get_u8_lem x bytes)

      with_payload :
          (o : OpCode) (r : Result Error Payload)
          → op_code_try_from (bit_and x 0x0f) ≡ ok o
          → get_payload b o (get_u32 bytes).1 ≡ r
          → Fits f
            × HostFits f.payload
            × ((rest : List ℕ) × (x ∷ bytes ≡ wire b f ++ rest) × HasTrailer f.payload rest)
      with_payload o (err w) q q' = ground (arith, get_u8_lem x bytes)
      with_payload o (ok p) q q' =
          let (e1, lt1, h1, n1) = read_u32 b bytes (omega (arith, long)) h.1 in
          let (o_is, fits, host, (rest, e2, trailer)) =
            get_payload-Reads b o (get_u32 bytes).1 p h1 q' in
          let shape : f ≡ record { id = (get_u32 bytes).0; payload = p } =
            ground (arith, get_u8_lem x bytes) in
          let first : 112 + op_code_value (op_code p) ≡ x =
            rw o_is (
              omega (arith, version, bit_and-low_half x h.0, op_code_sound (bit_and x 0x0f) o q)) in
          let whole : x ∷ bytes
              ≡ ((112 + op_code_value (op_code p)) ∷ (be_u32 (get_u32 bytes).0 ++ wire_payload b p))
                ++ rest =
            rw (first, append_assoc)
              (ap (λ l. x ∷ l) (e1 ∙ ap (λ t. be_u32 (get_u32 bytes).0 ++ t) e2)) in
          rw shape ((lt1, fits), host, (rest, whole, trailer))

      with_op :
          (r : Result Error OpCode)
          → op_code_try_from (bit_and x 0x0f) ≡ r
          → Fits f
            × HostFits f.payload
            × ((rest : List ℕ) × (x ∷ bytes ≡ wire b f ++ rest) × HasTrailer f.payload rest)
      with_op (err w) q = ground (arith, get_u8_lem x bytes)
      with_op (ok o) q = with_payload o (get_payload b o (get_u32 bytes).1) q refl
