-- ===== src/Client.antt =====
-- internal/relay/client.go: the node that a channel's stream is taken from. What is read from a
-- connection is given as a list, in order; the atoms that the client sends to its upstream node are
-- not part of its state. A call that acts on the channel's output streams returns what it did to
-- them as events.
pub mod Exchange
pub mod Frame
pub mod Relayed
mod Tests
pub mod Run
use peercast_mi.Base.{
  ℕ, ◌+◌, Bool, true, false, not, ◌==◌, nat_eq, if◌then◌else◌, List, [], ◌∷◌, ◌++◌, Option, none,
  some, String, length,
}
use peercast_mi.Pcp.{GnuId, PcpLibrary, ChanInfo, ChanTrack, ChanPacket, ChanPktData}
use peercast_mi.Network.{NetworkState}
use peercast_mi.Channel.{Channel, Event, broadcast}
use peercast_mi.Channel
use peercast_mi.Info.{Metadata, set_info, set_track, info_from_pcp, track_from_pcp}
use peercast_mi.Route.{route_bcst}
use peercast_mi.Relay.{SourceNodeList, AddressLibrary, parse_source_node, add_source}
use peercast_mi.Relay.Ignored.{IgnoredNodeCollection}

-- `stopReason`
pub data StopReason : Type 0 where
  no_reason failed unavailable off_air : StopReason

-- The upstream node is its session, address and port; `upstream_addr` is their text.
pub record Client (A : Type 0) : Type 0 where
  pub tracker_addr : String
  pub channel_id : GnuId
  pub session_id : GnuId
  pub channel : Channel A
  pub metadata : Metadata
  pub network : Option NetworkState
  pub upstream_node : GnuId × ℕ × ℕ
  pub upstream_addr : String
  pub source_nodes : SourceNodeList
  pub ignored_nodes : IgnoredNodeCollection
  pub global_ip : ℕ

-- What a round of a receive loop meets: the client's context is done, or a read fails, or gives an
-- atom at a time.
pub data Read (A : Type 0) : Type 0 where
  cancelled broken : Read A
  got : ℕ → A → Read A

-- How a receive loop ended, and whether with an error.
pub record Stop : Type 0 where
  pub reason : StopReason
  pub is_error : Bool

module _ (lib : PcpLibrary) (net : AddressLibrary) where
  open lib use {
    Atom, Tag, tag_eq, tag, children, get_int, parse_chan, type_head, type_data, chan, host, quit,
    bcst, error_quit, error_unavailable,
  }

  abbrev pub State : Type 0
  State = Client Atom × List (Event Atom)

  -- An operation on the channel, and what it tells the outputs.
  abbrev on_channel : State → Channel Atom × List (Event Atom) → State
  on_channel (c, events) (ch, es) = (record c { channel = ch }, events ++ es)

  abbrev on_metadata : State → Metadata × List (Event Atom) → State
  on_metadata (c, events) (m, es) = (record c { metadata = m }, events ++ es)

  unfoldable pub handle_pkt : State → ℕ → ChanPktData → State
  handle_pkt (c, events) now p =
      if p.kind == type_head
      then (if length p.payload == 0
          then (c, events)
          else on_channel (c, events) (Channel.set_header c.channel p.payload p.pos))
      else if p.kind == type_data
      then (if length p.payload == 0 then (c, events) else (
        record c { channel = Channel.write c.channel now p.payload p.pos p.continuation },
        events,
      ))
      else (c, events)

  unfoldable pub take_broadcast_id : State → GnuId → State
  take_broadcast_id (c, events) id =
      if id == 0
      then (c, events)
      else (record c { metadata = record (c.metadata) { broadcast_id = id } }, events)

  unfoldable pub take_info : State → Option ChanInfo → State
  take_info s none = s
  take_info (c, events) (some i) =
      on_metadata (c, events) (set_info c.metadata c.channel.outputs (info_from_pcp i))

  unfoldable pub take_track : State → Option ChanTrack → State
  take_track s none = s
  take_track (c, events) (some t) =
      on_metadata (c, events) (set_track c.metadata c.channel.outputs (track_from_pcp t))

  unfoldable pub take_pkt : State → ℕ → Option ChanPktData → State
  unfolding handle_pkt
  take_pkt s now none = s
  take_pkt s now (some p) = handle_pkt s now p

  -- The parts of a packet, in the order in which they are taken.
  unfoldable pub handle_packet : State → ℕ → ChanPacket → State
  unfolding take_broadcast_id take_info take_track take_pkt
  handle_packet s now p =
      take_pkt (take_track (take_info (take_broadcast_id s p.broadcast_id) p.info) p.track) now
        p.pkt

  unfoldable pub handle_chan : State → ℕ → Atom → State
  unfolding handle_packet
  handle_chan s now atom = elim (parse_chan atom) [ none ↦ s | some p ↦ handle_packet s now p ]

  -- A host is added to the sources if it can be dialled.
  unfoldable pub learn : State → ℕ → Atom → State
  learn (c, events) now atom =
      let (node, ok) = parse_source_node lib net atom in
      if ok
      then (record c { source_nodes = add_source c.source_nodes now node }, events)
      else (c, events)

  unfoldable pub handle_child : State → ℕ → Atom → State
  handle_child s now child =
      if tag_eq.beq (tag child) host
      then learn s now child
      else if tag_eq.beq (tag child) chan
      then handle_chan s now child
      else s

  unfoldable pub handle_children : State → ℕ → List Atom → State
  unfolding handle_child
  handle_children s now [] = s
  handle_children s now (child ∷ rest) = handle_children (handle_child s now child) now rest

  unfoldable pub handle_bcst : State → ℕ → Atom → State
  unfolding handle_children
  handle_bcst (c, events) now atom =
      let (local, forwarded) = route_bcst lib (some atom) c.session_id c.channel_id in
      let sent : List (Event Atom) = elim forwarded [
        | none ↦ []
        | some a ↦ broadcast lib c.channel none a
      ] in
      if local then handle_children (c, events ++ sent) now (children atom) else (c, events ++ sent)

  -- A quit that says that the host is full is the expected end of its list of hosts.
  unfoldable pub quit_stop : Atom → Stop
  quit_stop atom =
      if (get_int atom).0 == error_quit + error_unavailable
      then record { reason = unavailable; is_error = false }
      else record { reason = off_air; is_error = true }

  -- One atom of the receive loop of a relay that was accepted.
  unfoldable pub body_atom : State → ℕ → Atom → State
  body_atom s now atom =
      let t = tag atom in
      if tag_eq.beq t chan
      then handle_chan s now atom
      else if tag_eq.beq t host
      then learn s now atom
      else if tag_eq.beq t bcst
      then handle_bcst s now atom
      else s

  -- One of that of a relay that was refused.
  unfoldable pub hosts_atom : State → ℕ → Atom → State
  hosts_atom s now atom = if tag_eq.beq (tag atom) host then learn s now atom else s

  -- The receive loop that the two share; with nothing left to read it still waits.
  unfoldable pub receive :
      (State → ℕ → Atom → State) → State → List (Read Atom) → State × Option Stop
  unfolding quit_stop
  receive handle s [] = (s, none)
  receive handle s (cancelled ∷ reads) = (s, some (record { reason = off_air; is_error = false }))
  receive handle s (broken ∷ reads) = (s, some (record { reason = failed; is_error = true }))
  receive handle s (got now atom ∷ reads) =
      if tag_eq.beq (tag atom) quit
      then (s, some (quit_stop atom))
      else receive handle (handle s now atom) reads

  unfoldable pub process_body : State → List (Read Atom) → State × Option Stop
  unfolding receive
  process_body = receive body_atom

  unfoldable pub process_hosts : State → List (Read Atom) → State × Option Stop
  unfolding receive
  process_hosts = receive hosts_atom
