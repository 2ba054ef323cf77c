-- ===== src/Client/Maps/Replies.antt =====
-- src/client/mod.rs: who gets a datagram that comes back from the server.
use penguin_rs.Base.{
  ℕ, ◌+◌, ◌≤◌, ◌<◌, ◌≡◌, ap, ◌⊎◌, inl, inr, List, Option, none, some, lookup, Key, Bool-cases,
  arith, subst,
}
use penguin_rs.Client.Maps.Pairs.{pair_key}
use penguin_rs.Client.Maps.{
  Entry, ClientIdMaps, done, prune_udp_clients, send_datagram_reply, Reply, to_relay, to_peer,
}
use penguin_rs.Client.Maps.Consistent.{IsAdded}
use penguin_rs.Client.Maps.Pruning.{prune_udp_clients-IsConsistent}

module _ {Addr : Type 0} ⦃key : Key Addr⦄ where
  -- A datagram with these bytes for this address, on some socket.
  abbrev pub Reaches : Option (Reply Addr) → Addr → List ℕ → Type 0
  Reaches reply addr bytes =
      (socket : ℕ) × ((reply ≡ some (to_relay socket addr bytes))
        ⊎ (reply ≡ some (to_peer socket addr bytes)))

  reply_known :
      (maps : ClientIdMaps Addr) (i : ℕ) (e : Entry Addr) (bytes : List ℕ)
      → 0 < i
      → lookup i maps.client_id_map ≡ some e
      → Reaches (send_datagram_reply maps i bytes) e.peer_addr bytes
  unfolding send_datagram_reply
  reply_known maps i e bytes lt q = elim (Bool-cases e.socks5) [
    | inl relayed ↦ (e.socket, inl (ground (arith, q, relayed)))
    | inr direct ↦ (e.socket, inr (ground (arith, q, direct)))
  ]

  reply_unknown :
      (maps : ClientIdMaps Addr) (i : ℕ) (bytes : List ℕ)
      → 0 < i
      → lookup i maps.client_id_map ≡ none
      → send_datagram_reply maps i bytes ≡ none
  unfolding send_datagram_reply
  reply_unknown maps i bytes lt q = ground (arith, q)

  module _ (maps : ClientIdMaps Addr) (now later : ℕ) (addr our_addr : Addr)
      (after : ℕ × ClientIdMaps Addr) (added : IsAdded maps now (addr, our_addr) after) where
    -- After a client is added or refreshed and the maps are pruned once, at any later time, a reply
    -- under its number goes to its address if less than ten seconds have passed, and to nobody
    -- otherwise.
    pub send_datagram_reply-prune_udp_clients :
        (bytes : List ℕ) (pruned : ClientIdMaps Addr)
        → prune_udp_clients later after.1 ≡ done pruned
        → (later < now + 10000000000
            → Reaches (send_datagram_reply pruned after.0 bytes) addr bytes)
          × (now + 10000000000 ≤ later → send_datagram_reply pruned after.0 bytes ≡ none)
    send_datagram_reply-prune_udp_clients bytes pruned q =
        let (m, q', c, left) = prune_udp_clients-IsConsistent later after.1 added.consistent in
        let lt : 0 < after.0 = added.consistent.positive after.0 added.entry added.stands in
        let same_maps : m ≡ pruned = ground (arith, q, q') in
        (
          λ soon.
              subst (λ a. Reaches (send_datagram_reply pruned after.0 bytes) a bytes)
                (ap (λ p. p.0) added.addressed)
                (reply_known pruned after.0 added.entry bytes lt (
                  subst (λ x. lookup after.0 x.client_id_map ≡ some added.entry) same_maps
                    (ground (arith, left after.0, added.stands, added.timed, soon)))),
          λ late. reply_unknown pruned after.0 bytes lt (
              subst (λ x. lookup after.0 x.client_id_map ≡ none) same_maps
                (ground (arith, left after.0, added.stands, added.timed, late))),
        )
