-- ===== src/Server/Listening/Addresses.antt =====
-- The addresses of `arg_to_sockaddrs` of src/server/mod.rs.
use penguin_rs.Base.{
  ℕ, zero, suc, ◌≡◌, refl, sym, ap, ◌∙◌, length, List, [], ◌∷◌, Option, none, some, Result, ok, err,
  subst,
}
use penguin_rs.Remote.Str.{Text}
use penguin_rs.Remote.{remove_brackets}
use penguin_rs.Server.Listening.{
  ServerArgs, invalid_host, Outcome, panicked, returned, and_then, from_call, last_of, first_port,
  rest_ports, sockaddrs, on_last_port, arg_to_sockaddrs,
}

abbrev pub get_elem? {ℓ} : {A : Type ℓ} → List A → ℕ → Option A
get_elem? [] i = none
get_elem? (x ∷ xs) zero = some x
get_elem? (x ∷ xs) (suc i) = get_elem? xs i

-- The port for the host at an index: the one at the same index, or else the last.
abbrev pub port_for : List ℕ → ℕ → ℕ → ℕ
port_for [] last_port i = last_port
port_for (p ∷ ports) last_port zero = p
port_for (p ∷ ports) last_port (suc i) = port_for ports last_port i

port_for_first :
    (ports : List ℕ) (last_port : ℕ) → first_port last_port ports ≡ port_for ports last_port 0
port_for_first [] last_port = refl
port_for_first (p ∷ ports) last_port = refl

port_for_rest :
    (ports : List ℕ) (last_port i : ℕ)
    → port_for (rest_ports ports) last_port i ≡ port_for ports last_port (suc i)
port_for_rest [] last_port i = refl
port_for_rest (p ∷ ports) last_port i = refl

module _ {Ip : Type 0} where
  abbrev put_first : Result ℕ Ip → ℕ → Outcome (List (Ip × ℕ)) → Outcome (List (Ip × ℕ))
  put_first r port rest =
      and_then (from_call invalid_host r)
        (λ ip. and_then rest (λ addrs. returned (ok ((ip, port) ∷ addrs))))

  put_first-eq :
      (r : Result ℕ Ip) (port : ℕ) (rest : Outcome (List (Ip × ℕ))) (addrs : List (Ip × ℕ))
      → put_first r port rest ≡ returned (ok addrs)
      → (ip : Ip) × (later : List (Ip × ℕ)) × (r ≡ ok ip)
        × (rest ≡ returned (ok later))
        × (addrs ≡ (ip, port) ∷ later)
  put_first-eq (err e) port rest addrs h = absurd (cc h)
  put_first-eq (ok ip) port panicked addrs h = absurd (cc h)
  put_first-eq (ok ip) port (returned (err e)) addrs h = absurd (cc h)
  put_first-eq (ok ip) port (returned (ok later)) addrs h = (ip, later, refl, refl, cc)

  module _ (parse : Text → Result ℕ Ip) where
    sockaddrs_at :
        (hosts : List Text) (ports : List ℕ) (last_port : ℕ) (addrs : List (Ip × ℕ)) (i : ℕ)
        (host : Text)
        → sockaddrs parse hosts ports last_port ≡ returned (ok addrs)
        → get_elem? hosts i ≡ some host
        → (ip : Ip) × (parse (remove_brackets host) ≡ ok ip)
          × (get_elem? addrs i ≡ some (ip, port_for ports last_port i))
    unfolding sockaddrs
    sockaddrs_at [] ports last_port addrs i host h at = absurd (cc at)
    sockaddrs_at (h₀ ∷ hosts) ports last_port addrs zero host h at =
        let (ip, later, parsed, rest, e) =
          put_first-eq (parse (remove_brackets h₀)) (first_port last_port ports)
            (sockaddrs parse hosts (rest_ports ports) last_port) addrs h in
        let same : h₀ ≡ host = cc at in
        (
          ip,
          subst (λ t. parse (remove_brackets t) ≡ ok ip) same parsed,
          subst (λ l. get_elem? l 0 ≡ some (ip, port_for ports last_port 0)) (sym e)
              (ap (λ t. some (ip, t)) (port_for_first ports last_port)),
        )
    sockaddrs_at (h₀ ∷ hosts) ports last_port addrs (suc i) host h at =
        let (ip, later, parsed, rest, e) =
          put_first-eq (parse (remove_brackets h₀)) (first_port last_port ports)
            (sockaddrs parse hosts (rest_ports ports) last_port) addrs h in
        let (ip', parsed', at') =
          sockaddrs_at hosts (rest_ports ports) last_port later i host rest at in
        (
          ip',
          parsed',
          subst (λ l. get_elem? l (suc i) ≡ some (ip', port_for ports last_port (suc i))) (sym e)
              (at' ∙ ap (λ t. some (ip', t)) (port_for_rest ports last_port i)),
        )

    sockaddrs-length :
        (hosts : List Text) (ports : List ℕ) (last_port : ℕ) (addrs : List (Ip × ℕ))
        → sockaddrs parse hosts ports last_port ≡ returned (ok addrs)
        → length addrs ≡ length hosts
    unfolding sockaddrs
    sockaddrs-length [] ports last_port addrs h = rw (returned_ok h) refl
      where
        returned_ok : returned (ok []) ≡ returned (ok addrs) → addrs ≡ []
        returned_ok e = cc
    sockaddrs-length (h₀ ∷ hosts) ports last_port addrs h =
        let (ip, later, parsed, rest, e) =
          put_first-eq (parse (remove_brackets h₀)) (first_port last_port ports)
            (sockaddrs parse hosts (rest_ports ports) last_port) addrs h in
        rw e (ap suc (sockaddrs-length hosts (rest_ports ports) last_port later rest))

    -- The addresses to listen on are one for each host: the host without its brackets, read as an IP
    -- address, with the port at the same place in the list of ports, or the last port where there are
    -- fewer ports than hosts. Further ports are ignored.
    pub arg_to_sockaddrs_at :
        (arg : ServerArgs) (addrs : List (Ip × ℕ)) (last_port i : ℕ) (host : Text)
        → arg_to_sockaddrs parse arg ≡ returned (ok addrs)
        → last_of arg.port ≡ some last_port
        → get_elem? arg.host i ≡ some host
        → (length addrs ≡ length arg.host)
          × ((ip : Ip) × (parse (remove_brackets host) ≡ ok ip)
              × (get_elem? addrs i ≡ some (ip, port_for arg.port last_port i)))
    unfolding arg_to_sockaddrs
    arg_to_sockaddrs_at arg addrs last_port i host h l at =
        let e =
          opened arg.host
            (subst (λ o. on_last_port parse arg.host arg.port o ≡ returned (ok addrs)) l h) at in
        (
          sockaddrs-length arg.host arg.port last_port addrs e,
          sockaddrs_at arg.host arg.port last_port addrs i host e at,
        )
      where
        opened :
            (hosts : List Text)
            → on_last_port parse hosts arg.port (some last_port) ≡ returned (ok addrs)
            → get_elem? hosts i ≡ some host
            → sockaddrs parse hosts arg.port last_port ≡ returned (ok addrs)
        opened [] h at = absurd (cc at)
        opened (h₀ ∷ hosts) h at = h
