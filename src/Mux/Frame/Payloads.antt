-- ===== src/Mux/Frame/Payloads.antt =====
-- What the decoder of src/mux/frame.rs reads as the payload of a frame, on any bytes.
use penguin_rs.Base.{
  ℕ, ◌+◌, ◌≤◌, ◌<◌, ◌^◌, ◌≡◌, refl, sym, ◌∙◌, List, [], ◌∷◌, ◌++◌, length, length-append,
  append-nil, arith, ok, err, Result, All, All-append_right, subst, ap, take, drop,
  take-append-drop, length-take,
}
use penguin_rs.Mux.Frame.{
  Error, as_ref, owned, bind_type_code, bind_type_try_from, BindType, op_code_value, op_code,
  op_code_try_from, OpCode, Payload, Buf, IsByte,
}
use penguin_rs.Mux.Frame.Codec.{get_payload}
use penguin_rs.Mux.Frame.Encoding.{FitsPayload, HostFits, wire_payload}

-- Bytes after the data are dropped by the decoder, for the operations whose data has a fixed size.
abbrev pub HasTrailer : Payload → List ℕ → Type 0
HasTrailer (Payload.connect p) rest = rest ≡ []
HasTrailer (Payload.acknowledge n) rest = Unit {0}
HasTrailer Payload.reset rest = Unit {0}
HasTrailer Payload.finish rest = Unit {0}
HasTrailer (Payload.push bytes) rest = rest ≡ []
HasTrailer (Payload.bind p) rest = rest ≡ []
HasTrailer (Payload.datagram p) rest = rest ≡ []

suffix_bytes : (bs xs ys : List ℕ) → bs ≡ xs ++ ys → All IsByte bs → All IsByte ys
suffix_bytes bs xs ys e h = All-append_right IsByte xs ys (subst (All IsByte) e h)

bind_type_sound : (n : ℕ) (t : BindType) → bind_type_try_from n ≡ ok t → bind_type_code t ≡ n
unfolding bind_type_try_from bind_type_code
bind_type_sound n t e = ground arith

pub op_code_sound : (n : ℕ) (o : OpCode) → op_code_try_from n ≡ ok o → op_code_value o ≡ n
unfolding op_code_try_from op_code_value
op_code_sound n o e = ground arith

module _ (b : Buf) where
  open b use {
    get_u8, get_u16, get_u32, be_u16, be_u32, get_u8_lem, split_to_lem, length-be_u16,
    length-be_u32, be_u16-get_u16, be_u32-get_u32,
  }

  read_u16 :
      (bs : List ℕ)
      → 2 ≤ length bs
      → All IsByte bs
      → (bs ≡ be_u16 (get_u16 bs).0 ++ (get_u16 bs).1)
        × ((get_u16 bs).0 < 2 ^ 16)
        × All IsByte (get_u16 bs).1
        × (length bs ≡ 2 + length (get_u16 bs).1)
  read_u16 bs n h =
      let (e, lt) = be_u16-get_u16 bs n h in
      (
        e,
        lt,
        suffix_bytes bs _ _ e h,
        ap length e
            ∙ length-append (be_u16 (get_u16 bs).0) _
            ∙ omega (arith, length-be_u16 (get_u16 bs).0),
      )

  pub read_u32 :
      (bs : List ℕ)
      → 4 ≤ length bs
      → All IsByte bs
      → (bs ≡ be_u32 (get_u32 bs).0 ++ (get_u32 bs).1)
        × ((get_u32 bs).0 < 2 ^ 32)
        × All IsByte (get_u32 bs).1
        × (length bs ≡ 4 + length (get_u32 bs).1)
  read_u32 bs n h =
      let (e, lt) = be_u32-get_u32 bs n h in
      (
        e,
        lt,
        suffix_bytes bs _ _ e h,
        ap length e
            ∙ length-append (be_u32 (get_u32 bs).0) _
            ∙ omega (arith, length-be_u32 (get_u32 bs).0),
      )

  -- The payload `p` was read from `bytes`, all but `rest`.
  abbrev pub Reads : OpCode → List ℕ → Payload → Type 0
  Reads o bytes p =
      (op_code p ≡ o)
      × FitsPayload p
      × HostFits p
      × ((rest : List ℕ) × (bytes ≡ wire_payload b p ++ rest) × HasTrailer p rest)

  get_payload_connect :
      (bytes : List ℕ) (p : Payload)
      → All IsByte bytes
      → get_payload b OpCode.connect bytes ≡ ok p
      → Reads OpCode.connect bytes p
  unfolding get_payload op_code as_ref
  get_payload_connect bytes p h e =
      let long : 6 ≤ length bytes = ground arith in
      let (e1, lt1, h1, n1) = read_u32 bytes (omega arith) h in
      let (e2, lt2, h2, n2) = read_u16 (get_u32 bytes).1 (omega arith) h1 in
      subst (Reads OpCode.connect bytes) shape (
        refl,
        (lt1, lt2),
        tt,
        ([], rw append-nil (e1 ∙ ap (λ t. be_u32 (get_u32 bytes).0 ++ t) e2), refl),
      )
    where
      shape :
          Payload.connect (record {
            rwnd = (get_u32 bytes).0;
            target_port = (get_u16 (get_u32 bytes).1).0;
            target_host = owned (get_u16 (get_u32 bytes).1).1;
          })
          ≡ p
      shape = ground arith

  get_payload-acknowledge :
      (bytes : List ℕ) (p : Payload)
      → All IsByte bytes
      → get_payload b OpCode.acknowledge bytes ≡ ok p
      → Reads OpCode.acknowledge bytes p
  unfolding get_payload op_code
  get_payload-acknowledge bytes p h e =
      let long : 4 ≤ length bytes = ground arith in
      let (e1, lt1, h1, n1) = read_u32 bytes long h in
      let shape : Payload.acknowledge (get_u32 bytes).0 ≡ p = ground arith in
      subst (Reads OpCode.acknowledge bytes) shape (refl, lt1, tt, ((get_u32 bytes).1, e1, tt))

  get_payload_bind :
      (bytes : List ℕ) (p : Payload)
      → All IsByte bytes
      → get_payload b OpCode.bind bytes ≡ ok p
      → Reads OpCode.bind bytes p
  unfolding get_payload op_code as_ref
  get_payload_bind [] p h e = ground arith
  get_payload_bind (x ∷ bytes) p h e = with_type (bind_type_try_from x) refl
    where
      long : 3 ≤ length (x ∷ bytes)
      long = ground arith

      with_type :
          (r : Result Error BindType) → bind_type_try_from x ≡ r → Reads OpCode.bind (x ∷ bytes) p
      with_type (err w) q = ground (arith, get_u8_lem x bytes)
      with_type (ok t) q =
          let (e1, lt1, h1, n1) = read_u16 bytes (omega (arith, long)) h.1 in
          let shape : Payload.bind (record {
            bind_type = t;
            target_port = (get_u16 bytes).0;
            target_host = owned (get_u16 bytes).1;
          })
              ≡ p =
            ground (arith, get_u8_lem x bytes) in
          subst (Reads OpCode.bind (x ∷ bytes)) shape
            (refl, lt1, tt, ([], rw (append-nil, bind_type_sound x t q) (ap (λ l. x ∷ l) e1), refl))

  split_to-take : (n : ℕ) (bs : List ℕ) → n ≤ length bs → b.split_to n bs ≡ (take n bs, drop n bs)
  split_to-take n bs h =
      let front : length (take n bs) ≡ n = omega (arith, length-take n bs) in
      cc (split_to_lem (take n bs) (drop n bs), front, take-append-drop n bs)

  get_payload_datagram :
      (bytes : List ℕ) (p : Payload)
      → All IsByte bytes
      → get_payload b OpCode.datagram bytes ≡ ok p
      → Reads OpCode.datagram bytes p
  unfolding get_payload op_code as_ref
  get_payload_datagram [] p h e = ground arith
  get_payload_datagram (n ∷ bytes) p h e =
      let long : n + 6 ≤ length bytes = ground (arith, get_u8_lem n bytes) in
      let (e1, lt1, h1, n1) = read_u16 bytes (omega arith) h.1 in
      let bs = (get_u16 bytes).1 in
      let cut = split_to-take n bs (omega arith) in
      let shape : Payload.datagram (record {
        target_port = (get_u16 bytes).0;
        target_host = owned (take n bs);
        payload_data = owned (drop n bs);
      })
          ≡ p =
        ground (arith, get_u8_lem n bytes, cut) in
      let host : length (take n bs) ≡ n = omega (arith, length-take n bs) in
      let parts : bytes ≡ be_u16 (get_u16 bytes).0 ++ (take n bs ++ drop n bs) =
        rw take-append-drop e1 in
      subst (Reads OpCode.datagram (n ∷ bytes)) shape (
        refl,
        lt1,
        omega (arith, host, h.0),
        ([], rw (append-nil, host) (ap (λ l. n ∷ l) parts), refl),
      )

  pub get_payload-Reads :
      (o : OpCode) (bytes : List ℕ) (p : Payload)
      → All IsByte bytes
      → get_payload b o bytes ≡ ok p
      → Reads o bytes p
  unfolding get_payload op_code as_ref
  get_payload-Reads OpCode.connect bytes p h e = get_payload_connect bytes p h e
  get_payload-Reads OpCode.acknowledge bytes p h e = get_payload-acknowledge bytes p h e
  get_payload-Reads OpCode.reset bytes p h e =
      subst (Reads OpCode.reset bytes) {x = Payload.reset} (ground arith)
        (refl, tt, tt, (bytes, refl, tt))
  get_payload-Reads OpCode.finish bytes p h e =
      subst (Reads OpCode.finish bytes) {x = Payload.finish} (ground arith)
        (refl, tt, tt, (bytes, refl, tt))
  get_payload-Reads OpCode.push bytes p h e =
      subst (Reads OpCode.push bytes) {x = Payload.push (owned bytes)} (ground arith)
        (refl, tt, tt, ([], sym (append-nil bytes), refl))
  get_payload-Reads OpCode.bind bytes p h e = get_payload_bind bytes p h e
  get_payload-Reads OpCode.datagram bytes p h e = get_payload_datagram bytes p h e
