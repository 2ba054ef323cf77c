-- ===== src/Socks.antt =====
-- src/client/handle_remote/socks: the SOCKS server of the client, from the first byte of a
-- connection to the answer before data flows.
pub mod Io
pub mod Address
pub mod V4
pub mod V5
pub mod Requests
pub mod Relay
pub mod Serving
mod Reader
mod Examples
use penguin_rs.Base.{ℕ, List, [], ◌∷◌, Bool, true, false, if◌then◌else◌, ◌==◌}
use penguin_rs.Socks.Io.{
  AsyncRead, Session, return, fail, ◌>>=◌, ◌>>◌, process_socks_request, read_version, socks_version,
  invalid_command, other_auth, fatal, read_u8, Main, is_member,
}
use penguin_rs.Socks.V4
use penguin_rs.Socks.V5

-- What follows a successful answer: data is copied, or datagrams are relayed.
pub data Action : Type 0 where
  copy_bidirectional : List ℕ → ℕ → Action
  associate : Action

module _ (tokio : AsyncRead) (main : Main) where
  -- The permit and then the channel come from the main loop.
  handle_connect : List ℕ → ℕ → Bool → Session Action
  handle_connect rhost rport version_is_5 = do
    if main.gives_channel then return tt else fail fatal
    if version_is_5 then V5.write_response_unspecified 0x00 else V4.write_response 0x5a
    return (copy_bidirectional rhost rport)

  unfoldable pub socks4 : Session Action
  unfolding handle_connect
  socks4 = do
    (command, rhost, rport) ← V4.read_request tokio
    if command == 0x01
        then (if main.gives_permit then handle_connect rhost rport false else fail fatal)
        else (V4.write_response 0x5b >> fail (invalid_command command))

  unfoldable pub socks5 : Session Action
  unfolding handle_connect
  socks5 = do
    methods ← V5.read_auth_methods tokio
    if is_member 0x00 methods
        then (do
          V5.write_auth_method 0x00
          (command, rhost, rport) ← V5.read_request tokio
          if command == 0x01
              then (if main.gives_permit then handle_connect rhost rport true else fail fatal)
              else (if command == 0x03
                  then return associate
                  else (V5.write_response_unspecified 0x07 >> fail (invalid_command command))))
        else (V5.write_auth_method 0xff >> fail other_auth)

  unfoldable pub on_socks_accept : Session Action
  unfolding socks4 socks5
  on_socks_accept = do
    version ← read_u8 tokio read_version
    if version == 4 then socks4 else (if version == 5 then socks5 else fail (socks_version version))
