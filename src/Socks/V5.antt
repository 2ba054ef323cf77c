-- ===== src/Socks/V5.antt =====
-- src/client/handle_remote/socks/v5.rs: SOCKS5 (RFC 1928).
use penguin_rs.Base.{ℕ, ◌/◌, ◌%◌, ◌^◌, List, [], ◌∷◌, ◌++◌, if◌then◌else◌, ◌==◌}
use penguin_rs.Socks.Io.{
  AsyncRead, Session, return, fail, ◌>>=◌, ◌>>◌, read_u8, read_u16, read_exact, write, Context,
  socks_version, address_type, read_version, read_command, read_reserved, read_port,
  read_number_of_methods, read_methods, read_address_type, read_domain_length, read_domain_address,
  write_unsupported_address_type,
}
use penguin_rs.Socks.Address.{ipv4_from_octets, ipv6_from_octets}

unfoldable pub read_auth_methods : AsyncRead → Session (List ℕ)
read_auth_methods tokio = do
  num_methods ← read_u8 tokio read_number_of_methods
  read_exact tokio read_methods num_methods

unfoldable pub write_auth_method : ℕ → Session (Unit {0})
write_auth_method method = write Context.write_auth_method (0x05 ∷ method ∷ [])

unsupported_address : ℕ → Session (List ℕ)
unsupported_address code = do
  write write_unsupported_address_type (0x05 ∷ 0x08 ∷ 0 ∷ 0x01 ∷ 0 ∷ 0 ∷ 0 ∷ 0 ∷ 0 ∷ 0 ∷ [])
  fail (address_type code)

unfoldable pub read_address : AsyncRead → Session (List ℕ)
unfolding ipv4_from_octets ipv6_from_octets unsupported_address
read_address tokio = do
  code ← read_u8 tokio read_address_type
  if code == 0x01
      then (read_exact tokio Context.read_address 4 >>= λ addr. return (ipv4_from_octets addr))
      else (if code == 0x03
          then (read_u8 tokio read_domain_length >>= λ len.
              read_exact tokio read_domain_address len)
          else (if code == 0x04
              then (read_exact tokio Context.read_address 16 >>= λ addr.
                  return (ipv6_from_octets addr))
              else unsupported_address code))

unfoldable pub read_request : AsyncRead → Session (ℕ × List ℕ × ℕ)
unfolding read_address
read_request tokio = do
  version ← read_u8 tokio read_version
  if version == 0x05
      then (do
        command ← read_u8 tokio read_command
        reserved ← read_u8 tokio read_reserved
        address ← read_address tokio
        port ← read_u16 tokio read_port
        return (command, address, port))
      else fail (socks_version version)

pub data SocketAddr : Type 0 where
  v4 v6 : List ℕ → ℕ → SocketAddr

-- The octets of the address, and the port in network order.
unfoldable pub write_response : ℕ → SocketAddr → Session (Unit {0})
write_response response (v4 octets port) =
    write Context.write_response
      ((0x05 ∷ response ∷ 0 ∷ 0x01 ∷ octets) ++ (port / 2 ^ 8 % 256 ∷ port % 256 ∷ []))
write_response response (v6 octets port) =
    write Context.write_response
      ((0x05 ∷ response ∷ 0 ∷ 0x04 ∷ octets) ++ (port / 2 ^ 8 % 256 ∷ port % 256 ∷ []))

unfoldable pub write_response_unspecified : ℕ → Session (Unit {0})
write_response_unspecified response =
    write Context.write_response (0x05 ∷ response ∷ 0 ∷ 0x01 ∷ 0 ∷ 0 ∷ 0 ∷ 0 ∷ 0 ∷ 0 ∷ [])
