-- ===== src/Output/Handshake.antt =====
-- `handshake` of internal/servent/pcp.go: how a node that asks for a relay is let in. The texts of
-- errors, which only a log shows, are the constructors of a data type.
pub mod Ports
pub mod Peers
pub mod Refusals
use peercast_mi.Base.{
  ℕ, ◌+◌, Bool, true, false, not, ◌&&◌, ◌||◌, ◌==◌, nat_eq, ltb, leb, if◌then◌else◌, List, [], ◌∷◌,
  Option, none, some, String, get_or, length,
}
use peercast_mi.Version.{pcp_version, min_version, agent_name}
use peercast_mi.Pcp.{GnuId, PcpLibrary, HeloPacket}
use peercast_mi.Network.{IpLibrary, replace_child, ip_atom}
use peercast_mi.Output.{Connection, write_atom, on_error}

-- What goes out: the HTTP response, 200 or 503, or an atom.
pub data Wire (A : Type 0) : Type 0 where
  response : ℕ → Wire A
  atom : A → Wire A

pub data HandshakeError : Type 0 where
  read_request write_response read_helo expected_helo parse_helo_error loopback not_identified :
      HandshakeError
  no_version bad_version write_oleh write_ok : HandshakeError

pub data Outcome : Type 0 where
  ready : ℕ → Outcome
  rejected : HandshakeError → Outcome

-- What is read: the HTTP request, if it can be, with the position that its header gives, if that is
-- a number; the atom after it, if one can be read; whether the check of the port that the helo
-- gives is answered; and the remote address.
pub record Request (A : Type 0) : Type 0 where
  pub http : Option (Option ℕ)
  pub helo_atom : Option A
  pub ping_host : Bool
  pub remote : List ℕ

-- The fields of the stream that the handshake sets.
pub record Peer : Type 0 where
  pub peer_id : GnuId
  pub remote_port : ℕ
  pub peer_agent : String
  pub peer_version : ℕ

-- What the standard library knows of an address: `IsPrivate` and `IsLinkLocalUnicast`.
pub record SiteLibrary : Type 0 where
  pub is_private : List ℕ → Bool
  pub is_link_local : List ℕ → Bool

-- The position asked for, 0 if there is none.
abbrev pub position_of : Option ℕ → ℕ
position_of none = 0
position_of (some n) = n

unfoldable pub is_site_local : IpLibrary → SiteLibrary → List ℕ → Bool
is_site_local net site ip =
    site.is_private ip
    || (site.is_link_local ip || (elim (net.to4 ip) [
      | none ↦ false
      | some ip4 ↦
          let a = get_or ip4 0 0 in
          let b = get_or ip4 1 0 in
          a == 10
          || ((a == 172 && (leb 16 b && leb b 31))
              || ((a == 192 && b == 168) || (a == 169 && b == 254)))
    ]))

-- The port of a peer: the one that it asks to be checked, if that succeeds from outside, else the
-- one that it claims.
unfoldable pub remote_port_of : HeloPacket → Bool → Bool → ℕ
remote_port_of helo site_local answered =
    if not (helo.ping == 0)
    then (if not site_local && answered then helo.ping else 0)
    else helo.port

module _ (lib : PcpLibrary) (net : IpLibrary) (site : SiteLibrary) (ipv4_to_uint32 : List ℕ → ℕ)
    (to16 : List ℕ → List ℕ) (works : ℕ → Bool) where
  open lib use {
    Atom, Tag, tag_eq, tag, new_int_atom, new_short_atom, build_oleh, parse_helo, helo, quit, ok,
    helo_port, helo_remote_ip, error_quit, error_not_identified, error_loopback, error_bad_agent,
  }

  abbrev pub Result : Type 0
  Result = Connection (Wire Atom) × Peer × Outcome

  -- The quit that a helo is refused with, and the error.
  unfoldable pub verdict : GnuId → HeloPacket → Option (ℕ × HandshakeError)
  verdict session_id peer =
      if peer.session_id == session_id
      then some (error_loopback, loopback)
      else if peer.session_id == 0
      then some (error_not_identified, not_identified)
      else if peer.version == 0
      then some (error_bad_agent, no_version)
      else if ltb peer.version min_version
      then some (error_bad_agent, bad_version)
      else none

  abbrev pub send_quit : Connection (Wire Atom) → ℕ → Connection (Wire Atom)
  send_quit c code = (write_atom works c (atom (new_int_atom quit (error_quit + code)))).0

  unfoldable pub oleh_for : GnuId → List ℕ → ℕ → Atom
  oleh_for session_id remote port =
      let plain = build_oleh (record {
        agent = agent_name;
        session_id = session_id;
        version = pcp_version;
        port = port;
        ping = 0;
        remote_ip = ipv4_to_uint32 remote;
      }) in
      replace_child lib (replace_child lib plain (new_short_atom helo_port port))
        (ip_atom net lib ipv4_to_uint32 to16 helo_remote_ip remote)

  -- A peer that is only told of other hosts gets no PCP_OK.
  unfoldable pub send_ok : Connection (Wire Atom) → Bool → ℕ → Peer → Result
  send_ok c false start p = (c, p, ready start)
  send_ok c true start p =
      on_error (write_atom works c (atom (new_int_atom ok 1))) (λ c'. (c', p, rejected write_ok))
        (λ c'. (c', p, ready start))

  -- The end of the handshake, for a helo that is not refused.
  unfoldable pub send_oleh : Connection (Wire Atom) → GnuId → Bool → List ℕ → ℕ → Peer → Result
  send_oleh c session_id admitted remote start p =
      on_error (write_atom works c (atom (oleh_for session_id remote p.remote_port)))
        (λ c'. (c', p, rejected write_oleh)) (λ c'. send_ok c' admitted start p)

  unfoldable pub take_helo :
      Connection (Wire Atom) → Peer → GnuId → Bool → Request Atom → ℕ → HeloPacket → Result
  take_helo c p session_id admitted req start peer = elim (verdict session_id peer) [
    | some (code, e) ↦ (send_quit c code, record p { peer_id = peer.session_id }, rejected e)
    | none ↦ send_oleh c session_id admitted req.remote start (record {
      peer_id = peer.session_id;
      remote_port = remote_port_of peer (is_site_local net site req.remote) req.ping_host;
      peer_agent = peer.agent;
      peer_version = peer.version;
    })
  ]

  unfoldable pub read_helo_atom :
      Connection (Wire Atom) → Peer → GnuId → Bool → Request Atom → ℕ → Result
  read_helo_atom c p session_id admitted req start = elim req.helo_atom [
    | none ↦ (c, p, rejected read_helo)
    | some a ↦
        if tag_eq.beq (tag a) helo
        then (elim (parse_helo a) [
          | none ↦ (send_quit c error_not_identified, p, rejected parse_helo_error)
          | some peer ↦ take_helo c p session_id admitted req start peer
        ])
        else (c, p, rejected expected_helo)
  ]

  -- `handshake`
  unfoldable pub handshake : Connection (Wire Atom) → Peer → GnuId → Bool → Request Atom → Result
  handshake c p session_id admitted req = elim req.http [
    | none ↦ (c, p, rejected read_request)
    | some header ↦
        on_error (write_atom works c (response (if admitted then 200 else 503)))
          (λ c'. (c', p, rejected write_response))
          (λ c'. read_helo_atom c' p session_id admitted req (position_of header))
  ]
