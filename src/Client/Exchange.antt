-- ===== src/Client/Exchange.antt =====
-- `handshake` and `connectTo` of internal/relay/client.go: one connection to an upstream node, from
-- the dial to its end.
use peercast_mi.Base.{
  ℕ, ◌+◌, Bool, true, false, not, ◌&&◌, ◌==◌, nat_eq, if◌then◌else◌, List, [], Option, none, some,
  String,
}
use peercast_mi.Pcp.{PcpLibrary, HeloPacket}
use peercast_mi.Network.{IpLibrary, observe, parse_helo_atom}
use peercast_mi.Channel.{Event, source_disconnected}
use peercast_mi.Relay.{AddressLibrary}
use peercast_mi.Client.{
  Client, Read, Stop, StopReason, failed, unavailable, off_air, process_body, process_hosts,
}

-- What the client meets on a connection: whether the dial and the two writes of the handshake go
-- through, the HTTP status if the response can be read, the atom after it if one can, the remote
-- end as a number, a port and a text, and what is read after that.
pub record Attempt (A : Type 0) : Type 0 where
  pub dialled : Bool
  pub get_written : Bool
  pub helo_written : Bool
  pub status : Option ℕ
  pub oleh : Option A
  pub remote_ip : ℕ
  pub remote_port : ℕ
  pub remote_addr : String
  pub reads : List (Read A)

abbrev pub with_error : StopReason → Stop
with_error reason = record { reason = reason; is_error = true }

-- A handshake that succeeds has a status, one that does not stops.
pub data Outcome : Type 0 where
  accepted : ℕ → Outcome
  refused : Stop → Outcome

module _ (lib : PcpLibrary) (net : AddressLibrary) (ips : IpLibrary) where
  open lib use {
    Atom, Tag, tag_eq, tag, get_int, quit, oleh as oleh_tag, error_quit, error_unavailable,
  }

  -- What the atom after the response must be: a quit is told apart by its code.
  unfoldable pub not_oleh : Atom → Stop
  not_oleh a =
      if tag_eq.beq (tag a) quit
      then (if (get_int a).0 == error_quit + error_unavailable
          then with_error unavailable
          else with_error off_air)
      else with_error failed

  -- What the client keeps of an oleh. The upstream node is that of a relay that was accepted.
  unfoldable pub keep_oleh : Client Atom → Attempt Atom → ℕ → Atom → HeloPacket → Client Atom
  keep_oleh c a status atom peer =
      let network : Option _ = elim c.network [
        | none ↦ none
        | some n ↦ some (observe ips lib n atom)
      ] in
      let c1 = record c {
        network = network;
        global_ip = if peer.remote_ip == 0 then c.global_ip else peer.remote_ip;
      } in
      if status == 200
      then record c1 {
        upstream_node = (peer.session_id, a.remote_ip, a.remote_port);
        upstream_addr = a.remote_addr;
      }
      else c1

  unfoldable pub read_oleh : Client Atom → Attempt Atom → ℕ → Client Atom × Outcome
  unfolding not_oleh keep_oleh
  read_oleh c a status = elim a.oleh [
    | none ↦ (c, refused (with_error failed))
    | some atom ↦
        if tag_eq.beq (tag atom) oleh_tag
        then (elim (parse_helo_atom ips lib net.ipv4_to_uint32 atom) [
          | none ↦ (c, refused (with_error failed))
          | some peer ↦ (keep_oleh c a status atom peer, accepted status)
        ])
        else (c, refused (not_oleh atom))
  ]

  unfoldable pub handshake : Client Atom → Attempt Atom → Client Atom × Outcome
  unfolding read_oleh
  handshake c a =
      if not (a.get_written && a.helo_written)
      then (c, refused (with_error failed))
      else elim a.status [
        | none ↦ (c, refused (with_error failed))
        | some status ↦
            if status == 200
            then read_oleh c a status
            else if status == 503
            then read_oleh c a status
            else (c, refused (with_error failed))
      ]

  abbrev State : Type 0
  State = Client Atom × List (Event Atom)

  -- The send queue to the upstream node is there while the receive loop runs; after it the channel
  -- is without a source.
  unfoldable pub relay_body : Client Atom → List (Read Atom) → State × Option Stop
  relay_body c reads =
      let queued = record c { channel = record (c.channel) { upstream = true } } in
      let (s, stop) = process_body lib net (queued, []) reads in
      elim stop [
        | none ↦ (s, none)
        | some r ↦ (
          (
            record (s.0) {
              channel = source_disconnected (record (s.0.channel) { upstream = false });
            },
            s.1,
          ),
          some r,
        )
      ]

  unfoldable pub after_handshake : Client Atom × Outcome → List (Read Atom) → State × Option Stop
  unfolding relay_body
  after_handshake (c, refused stop) reads = ((c, []), some stop)
  after_handshake (c, accepted status) reads =
      if status == 503 then process_hosts lib net (c, []) reads else relay_body c reads

  unfoldable pub connect_to : Client Atom → Attempt Atom → State × Option Stop
  unfolding after_handshake
  connect_to c a =
      if a.dialled
      then after_handshake (handshake c a) a.reads
      else ((c, []), some (with_error failed))
