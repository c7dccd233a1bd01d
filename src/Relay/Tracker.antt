-- ===== src/Relay/Tracker.antt =====
-- internal/relay/findtracker.go: the tracker of a channel, which the yellow pages are asked for. A
-- connection to one is what comes of it: whether the dial and the writes go through, the status of
-- the response if it can be read, and the atoms after it up to a read that fails.
pub mod Hosts
pub mod Answers
mod Tests
use peercast_mi.Base.{
  ℕ, Bool, true, false, not, ◌&&◌, ◌||◌, ◌==◌, nat_eq, string_eq, if◌then◌else◌, List, [], ◌∷◌,
  Option, none, some, String,
}
use peercast_mi.Pcp.{GnuId, PcpLibrary, find_child}
use peercast_mi.Relay.{AddressLibrary, SourceNode, parse_source_node}
use peercast_mi.Relay.Choice.{connect_addr}

-- An address, `ErrTrackerNotFound`, or another error.
pub data Lookup : Type 0 where
  found : String → Lookup
  tracker_not_found broken : Lookup

pub record YellowPage (A : Type 0) : Type 0 where
  pub addr : String
  pub dialled : Bool
  pub get_written : Bool
  pub helo_written : Bool
  pub status : Option ℕ
  pub atoms : List A

module _ (lib : PcpLibrary) (net : AddressLibrary) (channel_id : GnuId) (our_global_ip : ℕ) where
  open lib use {Atom, Tag, tag_eq, tag, get_id, host, quit, host_chan_id}

  -- A host that names a channel, by an identifier that can be read, which is not the one asked for.
  unfoldable pub is_of_other : Atom → Bool
  is_of_other atom = elim (find_child lib atom host_chan_id) [
    | none ↦ false
    | some c ↦ elim (get_id c) [ none ↦ false | some id ↦ not (id == channel_id) ]
  ]

  -- The address of a host that is the tracker, "" if there is none.
  unfoldable pub tracker_addr : Atom → String
  tracker_addr atom =
      if is_of_other atom
      then ""
      else let (node, ok) = parse_source_node lib net atom in
        if not ok || not node.is_tracker then "" else connect_addr node our_global_ip

  unfoldable pub read_tracker_host : List Atom → Lookup
  read_tracker_host [] = broken
  read_tracker_host (a ∷ rest) =
      let later = read_tracker_host rest in
      if tag_eq.beq (tag a) host
      then (if tracker_addr a == "" then later else found (tracker_addr a))
      else if tag_eq.beq (tag a) quit
      then tracker_not_found
      else later

  -- What the status of the response says.
  unfoldable pub by_status : YellowPage Atom → ℕ → Lookup
  by_status yp status =
      if status == 200
      then found yp.addr
      else if status == 503
      then read_tracker_host yp.atoms
      else broken

  unfoldable pub find_tracker_at : YellowPage Atom → Lookup
  find_tracker_at yp =
      if yp.dialled && (yp.get_written && yp.helo_written)
      then (elim yp.status [ none ↦ broken | some status ↦ by_status yp status ])
      else broken

  -- The answer of the first that has one; every error goes on to the next.
  unfoldable pub find_tracker : List (YellowPage Atom) → Lookup
  find_tracker [] = tracker_not_found
  find_tracker (yp ∷ yps) =
      let later = find_tracker yps in
      elim (find_tracker_at yp) [
        | found addr ↦ found addr
        | tracker_not_found ↦ later
        | broken ↦ later
      ]
