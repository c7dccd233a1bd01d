-- ===== src/Route.antt =====
-- internal/pcputil/bcst.go: what a node does with a broadcast packet.
mod Tests
pub mod Accept
pub mod Hop
use peercast_mi.Base.{
  ℕ, ◌+◌, ◌-◌, ◌%◌, ◌^◌, Bool, true, false, not, ◌&&◌, ◌||◌, ◌==◌, nat_eq, leb, if◌then◌else◌, List,
  [], ◌∷◌, map, Option, none, some,
}
use peercast_mi.Pcp.{GnuId, PcpLibrary, find_child}

module _ (lib : PcpLibrary) where
  open lib use {
    Atom, Tag, tag_eq, tag, children, get_id, get_byte, new_byte_atom, new_parent_atom, bcst,
    bcst_from, bcst_dest, bcst_channel_id, bcst_group, bcst_ttl, bcst_hops,
  }

  -- A child that holds an identifier, if it is there, can be read and passes a test.
  unfoldable pub admits : Option Atom → (GnuId → Bool) → Bool
  admits none ok = true
  admits (some c) ok = elim (get_id c) [ none ↦ false | some id ↦ ok id ]

  -- The loop over the children: a time to live and a hop count are replaced, bytes that wrap.
  unfoldable pub rewrite_child : ℕ → ℕ → Atom → Atom
  rewrite_child ttl hops c =
      if tag_eq.beq (tag c) bcst_ttl
      then new_byte_atom (tag c) ((ttl + 2 ^ 8 - 1) % 2 ^ 8)
      else if tag_eq.beq (tag c) bcst_hops
      then new_byte_atom (tag c) ((hops + 1) % 2 ^ 8)
      else c

  -- A packet with these fields, sent on if they can be read, its time to live is not used up and
  -- its hop count can go up.
  unfoldable pub send_on : Atom → (t h g : Atom) → Option Atom
  unfolding rewrite_child
  send_on a t h g =
      let (ttl, ttl_ok) = get_byte t in
      let (hops, hops_ok) = get_byte h in
      if not ttl_ok || (not hops_ok || (not (get_byte g).1 || (leb ttl 1 || hops == 255)))
      then none
      else some (new_parent_atom bcst (map (rewrite_child ttl hops) (children a)))

  -- The second half of `RouteBcst`: the packet to send on, if its four fields are there.
  unfoldable pub forwarded : Atom → Option Atom
  unfolding send_on
  forwarded a = elim (find_child lib a bcst_ttl) [
    | none ↦ none
    | some t ↦ elim (find_child lib a bcst_hops) [
      | none ↦ none
      | some h ↦ elim (find_child lib a bcst_group) [
        | none ↦ none
        | some g ↦ elim (find_child lib a bcst_from) [ none ↦ none | some f ↦ send_on a t h g ]
      ]
    ]
  ]

  -- The answer for a packet that is accepted, by its destination and what would be sent on.
  unfoldable pub addressed : Option Atom → Option Atom → GnuId → Bool × Option Atom
  addressed none forward self = (true, forward)
  addressed (some d) forward self = elim (get_id d) [
    | none ↦ (false, none)
    | some id ↦ if id == self then (true, none) else (id == 0, forward)
  ]

  -- `RouteBcst`; a nil atom is `none`.
  unfoldable pub route_bcst : Option Atom → GnuId → GnuId → Bool × Option Atom
  unfolding admits forwarded addressed
  route_bcst none self channel_id = (false, none)
  route_bcst (some a) self channel_id =
      if not (tag_eq.beq (tag a) bcst)
      then (false, none)
      else if not (admits (find_child lib a bcst_from) (λ id. not (id == self)))
      then (false, none)
      else if not (admits (find_child lib a bcst_channel_id) (λ id. id == 0 || id == channel_id))
      then (false, none)
      else addressed (find_child lib a bcst_dest) (forwarded a) self
