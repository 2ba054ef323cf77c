-- ===== src/Client/Handlers/Dispatch.antt =====
-- src/client/handle_remote/mod.rs: the handler of a remote that was parsed.
use penguin_rs.Base.{ℕ, ◌≡◌, refl, ◌⊎◌, inl, inr, Bool, Result, ok, err, ◌>>=◌, subst}
use penguin_rs.Remote.Str.{Text}
use penguin_rs.Remote.{
  Remote, LocalSpec, RemoteSpec, Protocol, tcp, udp, Failure, from_str, check_socks, split_protocol,
  tokenize_remote, from_tokens,
}

-- The handler that a remote gets, with its arguments.
pub data Handler : Type 0 where
  handle_tcp handle_udp : Text → ℕ → Text → ℕ → Handler
  handle_tcp_stdio handle_udp_stdio : Text → ℕ → Handler
  handle_socks : Text → ℕ → Handler
  handle_socks_stdio : Handler

choose_handler : LocalSpec → RemoteSpec → Protocol → Handler
choose_handler (LocalSpec.inet lhost lport) (RemoteSpec.inet rhost rport) tcp =
    Handler.handle_tcp lhost lport rhost rport
choose_handler (LocalSpec.inet lhost lport) (RemoteSpec.inet rhost rport) udp =
    Handler.handle_udp lhost lport rhost rport
choose_handler LocalSpec.stdio (RemoteSpec.inet rhost rport) tcp =
    Handler.handle_tcp_stdio rhost rport
choose_handler LocalSpec.stdio (RemoteSpec.inet rhost rport) udp =
    Handler.handle_udp_stdio rhost rport
choose_handler (LocalSpec.inet lhost lport) RemoteSpec.socks protocol =
    Handler.handle_socks lhost lport
choose_handler LocalSpec.stdio RemoteSpec.socks protocol = Handler.handle_socks_stdio

unfoldable pub handle_remote : Remote → Handler
unfolding choose_handler
handle_remote remote = choose_handler remote.local_addr remote.remote_addr remote.protocol

-- A remote that the parser lets through: its two sides and its protocol are what the handler works
-- with, and only TCP is allowed for SOCKS.
Checked : Result Failure Remote → Type 0
Checked (ok remote) = (remote.remote_addr ≡ RemoteSpec.socks → remote.protocol ≡ tcp)
Checked (err e) = Unit

bind-Checked :
    {A : Type 0} (r : Result Failure A) (f : A → Result Failure Remote)
    → ((a : A) → Checked (f a))
    → Checked (r >>= f)
unfolding Checked
bind-Checked (ok a) f h = h a
bind-Checked (err e) f h = tt

check_socks-Checked :
    (l : LocalSpec) (r : RemoteSpec) (p : Protocol) → Checked (check_socks (l, r) p)
unfolding check_socks Checked
check_socks-Checked l RemoteSpec.socks udp = tt
check_socks-Checked l RemoteSpec.socks tcp = λ e. refl
check_socks-Checked l (RemoteSpec.inet h n) p = λ e. cc e

from_str-Checked : (v6 : Bool) (s : Text) → Checked (from_str v6 s)
unfolding from_str
from_str-Checked v6 s = bind-Checked (split_protocol s) _ (λ sp.
    bind-Checked (tokenize_remote sp.0) _ (λ tokens.
      bind-Checked (from_tokens v6 tokens) _ (λ specs. check_socks-Checked specs.0 specs.1 sp.1)))

-- The SOCKS handlers ignore the protocol, as the parser allows: where a text is parsed into a
-- remote that gets one of them, its protocol is TCP.
pub handle_remote-from_str :
    (v6 : Bool) (s : Text) (remote : Remote)
    → from_str v6 s ≡ ok remote
    → ((lhost : Text) × (lport : ℕ) × (handle_remote remote ≡ Handler.handle_socks lhost lport))
      ⊎ (handle_remote remote ≡ Handler.handle_socks_stdio)
    → remote.protocol ≡ tcp
unfolding Checked handle_remote choose_handler
handle_remote-from_str v6 s remote e h =
    subst Checked e (from_str-Checked v6 s)
      (by_sides remote.local_addr remote.remote_addr remote.protocol h)
  where
    by_sides :
        (l : LocalSpec) (r : RemoteSpec) (p : Protocol)
        → ((lhost : Text) × (lport : ℕ) × (choose_handler l r p ≡ Handler.handle_socks lhost lport))
          ⊎ (choose_handler l r p ≡ Handler.handle_socks_stdio)
        → r ≡ RemoteSpec.socks
    by_sides l RemoteSpec.socks p k = refl
    by_sides (LocalSpec.inet a n) (RemoteSpec.inet b m) tcp (inl (x, y, q)) = cc q
    by_sides (LocalSpec.inet a n) (RemoteSpec.inet b m) udp (inl (x, y, q)) = cc q
    by_sides LocalSpec.stdio (RemoteSpec.inet b m) tcp (inl (x, y, q)) = cc q
    by_sides LocalSpec.stdio (RemoteSpec.inet b m) udp (inl (x, y, q)) = cc q
    by_sides (LocalSpec.inet a n) (RemoteSpec.inet b m) tcp (inr q) = cc q
    by_sides (LocalSpec.inet a n) (RemoteSpec.inet b m) udp (inr q) = cc q
    by_sides LocalSpec.stdio (RemoteSpec.inet b m) tcp (inr q) = cc q
    by_sides LocalSpec.stdio (RemoteSpec.inet b m) udp (inr q) = cc q
