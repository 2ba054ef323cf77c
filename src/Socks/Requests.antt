-- ===== src/Socks/Requests.antt =====
-- src/client/handle_remote/socks: whole conversations with a client.
use penguin_rs.Base.{
  ℕ, ◌+◌, ◌*◌, ◌/◌, ◌^◌, ◌<◌, ◌≡◌, refl, ap, ◌≢◌, List, [], ◌∷◌, ◌++◌, true, false, ◌==◌, length,
  arith, ok, err, All,
}
use penguin_rs.Socks.Io.{AsyncRead, Main, Conn, other_auth, address_type, pop, is_member}
use penguin_rs.Socks.V4
use penguin_rs.Socks.V5
use penguin_rs.Socks.{copy_bidirectional, on_socks_accept}

abbrev pub takes_all : List ℕ → List ℕ → Conn
takes_all incoming outgoing = record { incoming = incoming; outgoing = outgoing; writable = true }

pop-append : (xs : List ℕ) (x : ℕ) → pop (xs ++ (x ∷ [])) ≡ xs
pop-append [] x = refl
pop-append (y ∷ []) x = refl
pop-append (y ∷ z ∷ xs) x = ap (λ t. y ∷ t) (pop-append (z ∷ xs) x)

low_ip :
    (x y z : ℕ)
    → x < 256
    → y < 256
    → z < 256
    → ((0 * 2 ^ 24 + x * 2 ^ 16 + y * 2 ^ 8 + z) / 2 ^ 24 == 0) ≡ true
low_ip x y z hx hy hz = ground arith

module _ (tokio : AsyncRead) (main : Main) where
  open tokio use {
    next_u8_lem, next_u16_lem, next_u32_lem, next_exact_lem, next_until_lem, next_until_end,
  }

  -- Where the main loop gives a channel, a SOCKS5 client that offers to go without authentication
  -- and asks for a connection to a domain is connected to that domain and port, is sent the
  -- choice of the method and then the success, and nothing that it sends after its request is
  -- lost.
  pub socks5_connect :
      (methods host rest : List ℕ) (reserved p q : ℕ)
      → main.gives_permit ≡ true
      → main.gives_channel ≡ true
      → is_member 0 methods ≡ true
      → on_socks_accept tokio main (
          takes_all
            (5
              ∷ length methods
              ∷ (methods ++ (5 ∷ 1 ∷ reserved ∷ 3 ∷ length host ∷ (host ++ (p ∷ q ∷ rest)))))
            [])
        ≡ (
          ok (copy_bidirectional host (p * 256 + q)),
          takes_all rest (5 ∷ 0 ∷ 5 ∷ 0 ∷ 0 ∷ 1 ∷ 0 ∷ 0 ∷ 0 ∷ 0 ∷ 0 ∷ 0 ∷ []),
        )
  unfolding on_socks_accept V5.read_auth_methods V5.write_auth_method V5.read_request
      V5.write_response_unspecified
  socks5_connect methods host rest reserved p q permit channel noauth =
      simp (next_u8_lem, next_u16_lem, next_exact_lem, permit, channel, noauth)

  -- A SOCKS5 client that does not offer to go without authentication is told so and turned away,
  -- whatever else it offers: no request of it is read.
  pub socks5_no_auth :
      (methods rest : List ℕ)
      → is_member 0 methods ≡ false
      → on_socks_accept tokio main (takes_all (5 ∷ length methods ∷ (methods ++ rest)) [])
        ≡ (err other_auth, takes_all rest (5 ∷ 255 ∷ []))
  unfolding on_socks_accept V5.read_auth_methods V5.write_auth_method
  socks5_no_auth methods rest noauth = simp (next_u8_lem, next_exact_lem, noauth)

  -- An address type that is none of the three is answered by a refusal and an error, also after the
  -- method has been chosen, and nothing behind it is read.
  pub socks5_address_type :
      (methods rest : List ℕ) (command reserved code : ℕ)
      → is_member 0 methods ≡ true
      → (code == 1) ≡ false
      → (code == 3) ≡ false
      → (code == 4) ≡ false
      → on_socks_accept tokio main
          (takes_all (5 ∷ length methods ∷ (methods ++ (5 ∷ command ∷ reserved ∷ code ∷ rest))) [])
        ≡ (
          err (address_type code),
          takes_all rest (5 ∷ 0 ∷ 5 ∷ 8 ∷ 0 ∷ 1 ∷ 0 ∷ 0 ∷ 0 ∷ 0 ∷ 0 ∷ 0 ∷ []),
        )
  unfolding on_socks_accept V5.read_auth_methods V5.write_auth_method V5.read_request
  socks5_address_type methods rest command reserved code noauth one three four =
      simp (next_u8_lem, next_exact_lem, noauth, one, three, four)

  -- Where the main loop gives a channel, a SOCKS4a client is connected to the domain and the port
  -- that it names, whatever its user ID; neither holds a zero byte. It is sent the success, and
  -- nothing that it sends after its request is lost.
  pub socks4_connect :
      (user domain rest : List ℕ) (p q x y z : ℕ)
      → main.gives_permit ≡ true
      → main.gives_channel ≡ true
      → All (λ c. c ≢ 0) user
      → All (λ c. c ≢ 0) domain
      → x < 256
      → y < 256
      → z < 256
      → on_socks_accept tokio main
          (takes_all (4 ∷ 1 ∷ p ∷ q ∷ 0 ∷ x ∷ y ∷ z ∷ (user ++ (0 ∷ (domain ++ (0 ∷ rest))))) [])
        ≡ (
          ok (copy_bidirectional domain (p * 256 + q)),
          takes_all rest (0 ∷ 90 ∷ 0 ∷ 0 ∷ 0 ∷ 0 ∷ 0 ∷ 0 ∷ []),
        )
  unfolding on_socks_accept V4.read_request V4.write_response
  socks4_connect user domain rest p q x y z permit channel hu hd hx hy hz = simp (
    next_u8_lem,
    next_u16_lem,
    next_u32_lem,
    next_until_lem 0 user (domain ++ (0 ∷ rest)) hu,
    next_until_lem 0 domain rest hd,
    low_ip x y z hx hy hz,
    pop-append,
    permit,
    channel,
  )

  -- Where the main loop gives a channel, a SOCKS4a client whose stream ends inside the domain,
  -- before its zero byte, is connected all the same, to the domain without the last byte that
  -- arrived.
  pub socks4_truncated :
      (user domain : List ℕ) (p q x y z : ℕ)
      → main.gives_permit ≡ true
      → main.gives_channel ≡ true
      → All (λ c. c ≢ 0) user
      → All (λ c. c ≢ 0) domain
      → x < 256
      → y < 256
      → z < 256
      → on_socks_accept tokio main
          (takes_all (4 ∷ 1 ∷ p ∷ q ∷ 0 ∷ x ∷ y ∷ z ∷ (user ++ (0 ∷ domain))) [])
        ≡ (
          ok (copy_bidirectional (pop domain) (p * 256 + q)),
          takes_all [] (0 ∷ 90 ∷ 0 ∷ 0 ∷ 0 ∷ 0 ∷ 0 ∷ 0 ∷ []),
        )
  unfolding on_socks_accept V4.read_request V4.write_response
  socks4_truncated user domain p q x y z permit channel hu hd hx hy hz = simp (
    next_u8_lem,
    next_u16_lem,
    next_u32_lem,
    next_until_lem 0 user domain hu,
    next_until_end 0 domain hd,
    low_ip x y z hx hy hz,
    permit,
    channel,
  )
