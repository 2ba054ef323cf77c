-- ===== src/Socks/V4.antt =====
-- src/client/handle_remote/socks/v4.rs: SOCKS4 and SOCKS4a.
use penguin_rs.Base.{ℕ, ◌/◌, ◌^◌, List, [], ◌∷◌, if◌then◌else◌, ◌==◌}
use penguin_rs.Socks.Io.{
  AsyncRead, Session, return, ◌>>=◌, read_u8, read_u16, read_u32, read_until, read_command,
  read_port, read_ip, write, pop, Context,
}
use penguin_rs.Socks.Address.{ipv4_from_u32}

-- Where the address is 0.x.y.z, the name of the host follows.
read_host : AsyncRead → ℕ → Session (List ℕ)
unfolding ipv4_from_u32
read_host tokio ip =
    if ip / 2 ^ 24 == 0
    then (do domain ← read_until tokio 0; return (pop domain))
    else return (ipv4_from_u32 ip)

unfoldable pub read_request : AsyncRead → Session (ℕ × List ℕ × ℕ)
unfolding read_host
read_request tokio = do
  command ← read_u8 tokio read_command
  rport ← read_u16 tokio read_port
  ip ← read_u32 tokio read_ip
  user_id ← read_until tokio 0
  rhost ← read_host tokio ip
  return (command, rhost, rport)

unfoldable pub write_response : ℕ → Session (Unit {0})
write_response response = write Context.write_response (0 ∷ response ∷ 0 ∷ 0 ∷ 0 ∷ 0 ∷ 0 ∷ 0 ∷ [])
