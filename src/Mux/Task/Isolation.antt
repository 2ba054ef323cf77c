-- ===== src/Mux/Task/Isolation.antt =====
-- src/mux/task.rs: a frame concerns the stream of its own flow ID only, and the streams in the map
-- never share memory.
use penguin_rs.Base.{
  ℕ, suc, ◌<◌, ◌≡◌, ◌≢◌, List, none, some, lookup, insert, remove, lookup-insert, lookup-remove,
  arith, ◌==◌, if◌then◌else◌,
}
use penguin_rs.Mux.State.{FlowSlot, established, EstablishedStreamData, Task}

abbrev pub Flows : Type 0
Flows = List (ℕ × FlowSlot)

-- Established streams have cells that are allocated and are their own; a sender that is there names
-- the channel of its stream.
pub record IsWf (flows : Flows) (next_cell : ℕ) : Type 0 where
  pub below :
      (k : ℕ) (d : EstablishedStreamData)
      → lookup k flows ≡ some (established d)
      → d.cell < next_cell
  pub apart :
      (j k : ℕ) (d e : EstablishedStreamData)
      → lookup j flows ≡ some (established d)
      → lookup k flows ≡ some (established e)
      → d.cell ≡ e.cell
      → j ≡ k
  pub own :
      (k c : ℕ) (d : EstablishedStreamData)
      → lookup k flows ≡ some (established d)
      → d.sender ≡ some c
      → c ≡ d.cell

abbrev pub fresh_slot : Task → FlowSlot
fresh_slot s = established (record { sender = some s.next_cell; cell = s.next_cell })

-- What one frame can do to the map.
pub data Change (s : Task) (flow_id : ℕ) (after : Task) : Type 0 where
  same : after.flows ≡ s.flows → after.next_cell ≡ s.next_cell → Change s flow_id after
  added :
      after.flows ≡ insert flow_id (fresh_slot s) s.flows
      → after.next_cell ≡ suc s.next_cell
      → Change s flow_id after
  halved :
      (d : EstablishedStreamData)
      → lookup flow_id s.flows ≡ some (established d)
      → after.flows ≡ insert flow_id (established (record d { sender = none })) s.flows
      → after.next_cell ≡ s.next_cell
      → Change s flow_id after
  removed :
      after.flows ≡ remove flow_id s.flows → after.next_cell ≡ s.next_cell → Change s flow_id after

module _ {s after : Task} (flow_id : ℕ) where
  pub Change-lookup_other :
      (j : ℕ) → j ≢ flow_id → Change s flow_id after → lookup j after.flows ≡ lookup j s.flows
  Change-lookup_other j ne (same e n) = rw e
  Change-lookup_other j ne (added e n) =
      rw e (ground (arith, lookup-insert flow_id j (fresh_slot s) s.flows))
  Change-lookup_other j ne (halved d h e n) =
      rw e
        (ground (arith, lookup-insert flow_id j (established (record d { sender = none })) s.flows))
  Change-lookup_other j ne (removed e n) = rw e (ground (arith, lookup-remove flow_id j s.flows))

remove-IsWf : (flows : Flows) (n k : ℕ) → IsWf flows n → IsWf (remove k flows) n
remove-IsWf flows n k w = record {
  below = λ i d e. ground (arith, lookup-remove k i flows, w.below i d);
  apart = λ i j d e p q c.
      ground (arith, lookup-remove k i flows, lookup-remove k j flows, w.apart i j d e);
  own = λ i c d e p. ground (arith, lookup-remove k i flows, w.own i c d);
}

insert-IsWf :
    (flows : Flows) (n k : ℕ)
    → IsWf flows n
    → IsWf (insert k (established (record { sender = some n; cell = n })) flows) (suc n)
insert-IsWf flows n k w = record {
  below = λ i d e. ground (arith, at i, w.below i d);
  apart = λ i j d e p q c. ground (arith, at i, at j, w.apart i j d e, w.below i d, w.below j e);
  own = λ i c d e p. ground (arith, at i, w.own i c d);
}
  where
    at :
        (i : ℕ)
        → lookup i (insert k (established (record { sender = some n; cell = n })) flows) ≡ (
            if k == i
            then some (established (record { sender = some n; cell = n }))
            else lookup i flows)
    at i = lookup-insert k i (established (record { sender = some n; cell = n })) flows

halve-IsWf :
    (flows : Flows) (n k : ℕ) (d : EstablishedStreamData)
    → lookup k flows ≡ some (established d)
    → IsWf flows n
    → IsWf (insert k (established (record d { sender = none })) flows) n
halve-IsWf flows n k d h w = record {
  below = λ i d' e. ground (arith, at i, w.below i d', w.below k d);
  apart = λ i j d' e' p q c.
      ground (arith, at i, at j, w.apart i j d' e', w.apart i k d' d, w.apart k j d e');
  own = λ i c d' e p. ground (arith, at i, w.own i c d');
}
  where
    at :
        (i : ℕ)
        → lookup i (insert k (established (record d { sender = none })) flows)
          ≡ (if k == i then some (established (record d { sender = none })) else lookup i flows)
    at i = lookup-insert k i (established (record d { sender = none })) flows

pub Change-IsWf :
    {s after : Task} (flow_id : ℕ)
    → Change s flow_id after
    → IsWf s.flows s.next_cell
    → IsWf after.flows after.next_cell
Change-IsWf flow_id (same e n) w = rw (e, n) w
Change-IsWf {s} flow_id (added e n) w = rw (e, n) (insert-IsWf s.flows s.next_cell flow_id w)
Change-IsWf {s} flow_id (halved d h e n) w =
    rw (e, n) (halve-IsWf s.flows s.next_cell flow_id d h w)
Change-IsWf {s} flow_id (removed e n) w = rw (e, n) (remove-IsWf s.flows s.next_cell flow_id w)
