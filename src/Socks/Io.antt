-- ===== src/Socks/Io.antt =====
-- The connection of a SOCKS client: reads and writes of src/client/handle_remote/socks, with its
-- errors. What `tokio` and the main loop do is an interface.
use penguin_rs.Base.{
  ℕ, ◌+◌, ◌*◌, ◌^◌, ◌≡◌, ◌≢◌, List, [], ◌∷◌, ◌++◌, Bool, false, ◌||◌, Option, none, some,
  if◌then◌else◌, ◌==◌, length, All, Result, ok, err,
}

-- The step that a connection was in when it broke.
pub data Context : Type 0 where
  read_version read_command read_reserved read_port read_ip read_user_id read_domain : Context
  read_number_of_methods read_methods read_address_type read_address read_domain_length : Context
  read_domain_address write_unsupported_address_type write_auth_method write_response : Context
  bind_udp_socket get_local_addr : Context

pub data Error : Type 0 where
  socks_version invalid_command address_type : ℕ → Error
  process_socks_request : Context → Error
  other_auth fatal : Error

-- The bytes that the client has still to send, those that it was sent, and whether it takes more.
pub record Conn : Type 0 where
  pub incoming : List ℕ
  pub outgoing : List ℕ
  pub writable : Bool

-- Whether the main loop gives a permit, and then a channel.
pub record Main : Type 0 where
  pub gives_permit : Bool
  pub gives_channel : Bool

-- The reads of `tokio`, on the bytes up to the end of the stream; `none` where it ends too early.
pub record AsyncRead : Type 0 where
  pub next_u8 : List ℕ → Option (ℕ × List ℕ)
  pub next_u16 : List ℕ → Option (ℕ × List ℕ)
  pub next_u32 : List ℕ → Option (ℕ × List ℕ)
  pub next_exact : ℕ → List ℕ → Option (List ℕ × List ℕ)
  -- The bytes up to the delimiter, itself included, or up to the end.
  pub next_until : ℕ → List ℕ → List ℕ × List ℕ
  pub next_u8_lem : (x : ℕ) (rest : List ℕ) → next_u8 (x ∷ rest) ≡ some (x, rest)
  pub next_u16_lem : (x y : ℕ) (rest : List ℕ) → next_u16 (x ∷ y ∷ rest) ≡ some (x * 256 + y, rest)
  pub next_u32_lem :
      (x y z w : ℕ) (rest : List ℕ)
      → next_u32 (x ∷ y ∷ z ∷ w ∷ rest) ≡ some (x * 2 ^ 24 + y * 2 ^ 16 + z * 2 ^ 8 + w, rest)
  pub next_exact_lem : (xs rest : List ℕ) → next_exact (length xs) (xs ++ rest) ≡ some (xs, rest)
  pub next_until_lem :
      (d : ℕ) (xs rest : List ℕ)
      → All (λ x. x ≢ d) xs
      → next_until d (xs ++ (d ∷ rest)) ≡ (xs ++ (d ∷ []), rest)
  pub next_until_end : (d : ℕ) (xs : List ℕ) → All (λ x. x ≢ d) xs → next_until d xs ≡ (xs, [])

abbrev pub Session : Type 0 → Type 0
Session A = Conn → Result Error A × Conn

abbrev pub and_then :
    {A B : Type 0} → Result Error A × Conn → (A → Session B) → Result Error B × Conn
and_then (ok a, c) f = f a c
and_then (err e, c) f = (err e, c)

infixl 5 ◌>>=◌ ◌>>◌
abbrev pub ◌>>=◌ : {A B : Type 0} → Session A → (A → Session B) → Session B
(m >>= f) c = and_then (m c) f

abbrev pub ◌>>◌ : {B : Type 0} → Session (Unit {0}) → Session B → Session B
(m >> k) c = and_then (m c) (λ _. k)

abbrev pub return : {A : Type 0} → A → Session A
return a c = (ok a, c)

abbrev pub fail : {A : Type 0} → Error → Session A
fail e c = (err e, c)

-- A read that reaches the end of the stream fails.
abbrev took : {A : Type 0} → Context → Conn → Option (A × List ℕ) → Result Error A × Conn
took context c none = (err (process_socks_request context), record c { incoming = [] })
took context c (some (a, rest)) = (ok a, record c { incoming = rest })

module _ (tokio : AsyncRead) where
  open tokio use {next_u8, next_u16, next_u32, next_exact, next_until}

  abbrev pub read_u8 : Context → Session ℕ
  read_u8 context c = took context c (next_u8 c.incoming)

  abbrev pub read_u16 : Context → Session ℕ
  read_u16 context c = took context c (next_u16 c.incoming)

  abbrev pub read_u32 : Context → Session ℕ
  read_u32 context c = took context c (next_u32 c.incoming)

  abbrev pub read_exact : Context → ℕ → Session (List ℕ)
  read_exact context n c = took context c (next_exact n c.incoming)

  abbrev pub read_until : ℕ → Session (List ℕ)
  read_until d c = let (xs, rest) = next_until d c.incoming in (ok xs, record c { incoming = rest })

-- `write_all` and `flush`.
abbrev pub write : Context → List ℕ → Session (Unit {0})
write context bytes c =
    if c.writable
    then (ok tt, record c { outgoing = c.outgoing ++ bytes })
    else (err (process_socks_request context), c)

-- `Vec::pop`, whose result is dropped.
abbrev pub pop : List ℕ → List ℕ
pop [] = []
pop (x ∷ []) = []
pop (x ∷ y ∷ xs) = x ∷ pop (y ∷ xs)

abbrev pub is_member : ℕ → List ℕ → Bool
is_member x [] = false
is_member x (y ∷ ys) = x == y || is_member x ys
