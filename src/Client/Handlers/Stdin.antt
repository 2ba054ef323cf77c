-- ===== src/Client/Handlers/Stdin.antt =====
-- src/client/handle_remote/udp.rs: the end of the standard input.
use penguin_rs.Base.{
  ℕ, zero, suc, ◌≡◌, sym, ap, ◌∙◌, List, [], ◌∷◌, ◌++◌, append_assoc, append-nil, true,
}
use penguin_rs.Mux.State.{Datagram}
use penguin_rs.Remote.Str.{Text}
use penguin_rs.Client.Handlers.{Handed, running, send_to_main, handle_udp_stdio}

-- The datagrams of these lines, and of as many empty ones.
abbrev pub line_datagram : Text → ℕ → Text → Datagram
line_datagram rhost rport line = record {
  flow_id = 0;
  target_host = rhost;
  target_port = rport;
  payload_data = line;
}

abbrev pub empty_datagrams : Text → ℕ → ℕ → List Datagram
empty_datagrams rhost rport zero = []
empty_datagrams rhost rport (suc n) = line_datagram rhost rport [] ∷ empty_datagrams rhost rport n

-- The handler does not stop at the end of the standard input: while the main loop is there, each
-- further round sends one more datagram without data, and the handler still runs.
pub handle_udp_stdio_floods :
    {Addr : Type 0} (rounds : ℕ) (rhost : Text) (rport : ℕ) (h : Handed Addr)
    → handle_udp_stdio rounds rhost rport true [] h
      ≡ (running, record h { datagram_tx = h.datagram_tx ++ empty_datagrams rhost rport rounds })
unfolding handle_udp_stdio send_to_main
handle_udp_stdio_floods zero rhost rport h =
    ap (λ l. (running, record h { datagram_tx = l })) (sym (append-nil h.datagram_tx))
handle_udp_stdio_floods (suc rounds) rhost rport h =
    handle_udp_stdio_floods rounds rhost rport
      (record h { datagram_tx = h.datagram_tx ++ line_datagram rhost rport [] ∷ [] })
    ∙ ap (λ l. (running, record h { datagram_tx = l }))
        (append_assoc h.datagram_tx (line_datagram rhost rport [] ∷ [])
          (empty_datagrams rhost rport rounds))
