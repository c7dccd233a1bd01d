-- ===== src/Network/Host.antt =====
-- internal/pcputil/host.go: the HOST atom by which a node reports
-- itself.
use peercast_mi.Base.{
  ℕ, ◌%◌, ◌^◌, bit_or, Bool, not, ◌&&◌, ◌||◌, ◌==◌, nat_eq, if◌then◌else◌, List, [], ◌∷◌, ◌++◌,
  Option, none, some, length, replicate,
}
use peercast_mi.Version.{pcp_version, pcp_version_vp, ex_prefix, ex_number}
use peercast_mi.Pcp.{GnuId, PcpLibrary}
use peercast_mi.Network.{IpLibrary, NetworkState, status, protocol_version, ip_atom}

-- A nil pointer or address is `none`.
pub record HostAtomParams : Type 0 where
  pub network : Option NetworkState
  pub local_address : Option (List ℕ)
  pub global_address : Option (List ℕ)
  pub upstream_address : Option (List ℕ)
  pub firewalled : Bool
  pub session_id : GnuId
  pub local_ip : ℕ
  pub global_ip : ℕ
  pub listen_port : ℕ
  pub channel_id : GnuId
  pub num_listeners : ℕ
  pub num_relays : ℕ
  pub uptime : ℕ
  pub old_pos : ℕ
  pub new_pos : ℕ
  pub is_tracker : Bool
  pub has_global_ip : Bool
  pub relay_full : Bool
  pub direct_full : Bool
  pub tracker_atom : Bool
  pub is_receiving : Bool
  pub uphost_ip : ℕ
  pub uphost_port : ℕ
  pub uphost_hops : ℕ

-- What is known of the node's own end: its address, and whether it is firewalled and has one.
pub record Reach : Type 0 where
  pub address : List ℕ
  pub is_firewalled : Bool
  pub has_global : Bool

-- The flags that are set, one by one.
unfoldable pub set_flag : Bool → ℕ → ℕ → ℕ
set_flag b flag flags = if b then bit_or flags flag else flags

module _ (net : IpLibrary) (lib : PcpLibrary) (ipv4_to_uint32 : List ℕ → ℕ)
    (to16 : List ℕ → List ℕ) where
  open lib use {
    Atom, Tag, ipv4_from_uint32, new_byte_atom, new_short_atom, new_int_atom, new_id_atom,
    new_bytes_atom, new_parent_atom, host, host_id, host_ip, host_port, host_flags1,
    host_num_listeners, host_num_relays, host_uptime, host_old_pos, host_new_pos, host_chan_id,
    host_version, host_version_vp, host_version_ex_prefix, host_version_ex_number, host_tracker,
    host_uphost_ip, host_uphost_port, host_uphost_hops, flag_cin, flag_push, flag_recv, flag_relay,
    flag_direct, flag_tracker,
  }

  -- An address that is given, or else the one that a number is.
  unfoldable pub or_from : Option (List ℕ) → ℕ → List ℕ
  or_from none n = ipv4_from_uint32 n
  or_from (some ip) n = ip

  abbrev pub is_there : List ℕ → Bool
  is_there ip = not (length ip == 0) && not (net.is_unspecified ip)

  -- What the state of the network knows takes precedence over the parameters.
  unfoldable pub from_network : Option NetworkState → List ℕ → Reach → Reach
  unfolding status
  from_network none local r = r
  from_network (some n) local r =
      let s = status net n (some local) in
      let address : List ℕ = if length s.ip == 0 then r.address else s.ip in
      record {
        address = address;
        is_firewalled = not s.known || not s.port_open;
        has_global = is_there address;
      }

  -- An IPv6 node without an address says so by the unspecified one.
  unfoldable pub reach_of : HostAtomParams → Reach
  unfolding from_network
  reach_of p =
      let local = or_from p.local_address p.local_ip in
      let r = from_network p.network local (record {
        address = or_from p.global_address p.global_ip;
        is_firewalled = p.firewalled;
        has_global = p.has_global_ip;
      }) in
      if protocol_version net (some local) == 100 && not (is_there r.address)
      then record r { address = replicate 16 0 }
      else r

  unfoldable pub host_flags : HostAtomParams → Reach → ℕ
  unfolding set_flag
  host_flags p r = set_flag p.is_tracker flag_tracker (
      set_flag (r.has_global && not p.direct_full) flag_direct (
        set_flag (not p.relay_full) flag_relay
          (set_flag p.is_receiving flag_recv (set_flag r.is_firewalled flag_push flag_cin))))

  -- The atoms that every report has.
  unfoldable pub host_children : HostAtomParams → Reach → List Atom
  host_children p r =
      new_id_atom host_id p.session_id
      ∷ ip_atom net lib ipv4_to_uint32 to16 host_ip r.address
      ∷ new_short_atom host_port (if r.is_firewalled then 0 else p.listen_port)
      ∷ ip_atom net lib ipv4_to_uint32 to16 host_ip (or_from p.local_address p.local_ip)
      ∷ new_short_atom host_port p.listen_port
      ∷ new_int_atom host_num_listeners (p.num_listeners % 2 ^ 32)
      ∷ new_int_atom host_num_relays (p.num_relays % 2 ^ 32)
      ∷ new_int_atom host_uptime p.uptime
      ∷ new_int_atom host_old_pos p.old_pos
      ∷ new_int_atom host_new_pos p.new_pos
      ∷ new_id_atom host_chan_id p.channel_id
      ∷ new_byte_atom host_flags1 (host_flags p r)
      ∷ new_int_atom host_version pcp_version
      ∷ new_int_atom host_version_vp pcp_version_vp
      ∷ new_bytes_atom host_version_ex_prefix ex_prefix
      ∷ new_short_atom host_version_ex_number ex_number
      ∷ []

  unfoldable pub tracker_children : Bool → List Atom
  tracker_children b = if b then new_int_atom host_tracker 1 ∷ [] else []

  unfoldable pub hops_children : ℕ → List Atom
  hops_children hops = if hops == 0 then [] else new_int_atom host_uphost_hops hops ∷ []

  -- The node upstream, if there is one.
  unfoldable pub upstream_children : HostAtomParams → List Atom
  upstream_children p =
      let upstream = or_from p.upstream_address p.uphost_ip in
      if not (net.is_unspecified upstream) || not (p.uphost_port == 0)
      then ip_atom net lib ipv4_to_uint32 to16 host_uphost_ip upstream
        ∷ new_int_atom host_uphost_port p.uphost_port
        ∷ hops_children p.uphost_hops
      else []

  unfoldable pub build_host_atom : HostAtomParams → Atom
  build_host_atom p =
      new_parent_atom host
        (host_children p (reach_of p) ++ tracker_children p.tracker_atom ++ upstream_children p)
