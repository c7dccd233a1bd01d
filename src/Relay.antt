-- ===== src/Relay.antt =====
-- internal/relay/sourcenode.go, ignorednode.go and select.go: the hosts that a relay can take its
-- stream from, the addresses to stay away from for a while, and the choice among them.
mod Tests
pub mod Ignored
pub mod Choice
pub mod Tracker
pub mod Reports
pub mod Sources
use peercast_mi.Base.{
  ℕ, ◌+◌, ◌-◌, ◌*◌, ◌%◌, ◌^◌, Bool, true, false, not, ◌&&◌, ◌||◌, ◌==◌, nat_eq, string_eq, bit_and,
  ltb, leb, if◌then◌else◌, List, [], ◌∷◌, ◌++◌, map, Option, none, some, String, Map, lookup,
  insert, delete, keep, length, get_or,
}
use peercast_mi.Pcp.{GnuId, PcpLibrary}
use peercast_mi.Network.{atom_ip}

pub record SourceNode : Type 0 where
  pub session_id : GnuId
  pub global_ip : ℕ
  pub global_addr : String
  pub local_addr : String
  pub is_firewalled : Bool
  pub is_relay_full : Bool
  pub is_receiving : Bool
  pub is_tracker : Bool
  pub hops : ℕ
  pub relay_count : ℕ
  pub updated_at : ℕ

-- 3 minutes, in nanoseconds.
abbrev pub node_expiry : ℕ
node_expiry = 3 * 60 * 10 ^ 9

abbrev pub SourceNodeList : Type 0
SourceNodeList = Map GnuId SourceNode

abbrev pub is_live : ℕ → GnuId × SourceNode → Bool
is_live now (id, n) = leb (now - n.updated_at) node_expiry

-- `SourceNodeList.Add`
unfoldable pub add_source : SourceNodeList → ℕ → SourceNode → SourceNodeList
add_source l now node =
    keep (is_live now) (insert node.session_id (record node { updated_at = now }) l)

-- `SourceNodeList.List`, by session; Go gives the nodes in any order.
unfoldable pub list_sources : SourceNodeList → ℕ → List (GnuId × SourceNode)
list_sources l now = keep (is_live now) l

-- `parseSourceNode`: the addresses and ports that are read so far, at most two of each.
pub record Parsed : Type 0 where
  pub node : SourceNode
  pub ips : List (List ℕ)
  pub ports : List ℕ

abbrev pub blank_node : SourceNode
blank_node = record {
  session_id = 0;
  global_ip = 0;
  global_addr = "";
  local_addr = "";
  is_firewalled = false;
  is_relay_full = false;
  is_receiving = false;
  is_tracker = false;
  hops = 0;
  relay_count = 0;
  updated_at = 0;
}

-- What the standard library knows of an address (`net.IP`): `IsUnspecified`, `IsLoopback`, and
-- `net.JoinHostPort` of its text and a port; and `pcp.IPv4ToUint32`, its number or 0.
pub record AddressLibrary : Type 0 where
  pub is_unspecified : List ℕ → Bool
  pub is_loopback : List ℕ → Bool
  pub join_host_port : List ℕ → ℕ → String
  pub ipv4_to_uint32 : List ℕ → ℕ

abbrev pub nth : {A : Type 0} → ℕ → List A → Option A
nth i xs = get_or (map some xs) i none

module _ (lib : PcpLibrary) (net : AddressLibrary) where
  open lib use {
    Atom, Tag, tag_eq, tag, children, get_id, get_int, get_short, get_byte, host_id, host_ip,
    host_port, host_flags1, host_num_relays, host_uphost_hops, flag_push, flag_relay, flag_recv,
    flag_tracker,
  }

  -- The flags of a host.
  unfoldable pub with_flags : SourceNode → ℕ → SourceNode
  with_flags n v = record n {
    is_firewalled = not (bit_and v flag_push == 0);
    is_relay_full = bit_and v flag_relay == 0;
    is_receiving = not (bit_and v flag_recv == 0);
    is_tracker = not (bit_and v flag_tracker == 0);
  }

  -- A field of the node, set if the child can be read.
  abbrev read_int : (SourceNode → ℕ → SourceNode) → ℕ × Bool → Parsed → Parsed
  read_int set_field (v, ok) p = if ok then record p { node = set_field p.node v } else p

  -- One child of the atom.
  unfoldable pub read_field : Parsed → Atom → Parsed
  unfolding with_flags
  read_field p c =
      let t = tag c in
      if tag_eq.beq t host_id
      then (elim (get_id c) [
        | none ↦ p
        | some v ↦ record p { node = record (p.node) { session_id = v } }
      ])
      else if tag_eq.beq t host_ip
      then (if ltb (length p.ips) 2
          then (elim (atom_ip lib c) [ none ↦ p | some ip ↦ record p { ips = p.ips ++ ip ∷ [] } ])
          else p)
      else if tag_eq.beq t host_port
      then (if ltb (length p.ports) 2 && (get_short c).1
          then record p { ports = p.ports ++ (get_short c).0 ∷ [] }
          else p)
      else if tag_eq.beq t host_flags1
      then read_int with_flags (get_byte c) p
      else if tag_eq.beq t host_num_relays
      then read_int (λ n v. record n { relay_count = v }) (get_int c) p
      else if tag_eq.beq t host_uphost_hops
      then read_int (λ n v. record n { hops = v }) (get_int c) p
      else p

  unfoldable pub read_fields : Parsed → List Atom → Parsed
  unfolding read_field
  read_fields p [] = p
  read_fields p (c ∷ cs) = read_fields (read_field p c) cs

  -- An address and a port that can be dialled: the port is there and is not 0, and the address is
  -- there and is neither unspecified nor a loopback.
  unfoldable pub dialable : Option (List ℕ) → Option ℕ → Option (List ℕ × ℕ)
  dialable (some ip) (some port) =
      if port == 0
      then none
      else if not (net.is_unspecified ip) && not (net.is_loopback ip)
      then some (ip, port)
      else none
  dialable ip port = none

  unfoldable pub with_global : SourceNode → Option (List ℕ × ℕ) → SourceNode
  with_global n none = n
  with_global n (some (ip, port)) = record n {
    global_ip = net.ipv4_to_uint32 ip;
    global_addr = net.join_host_port ip port;
  }

  unfoldable pub with_local : SourceNode → Option (List ℕ × ℕ) → SourceNode
  with_local n none = n
  with_local n (some (ip, port)) = record n { local_addr = net.join_host_port ip port }

  unfoldable pub parse_source_node : Atom → SourceNode × Bool
  unfolding read_fields dialable with_global with_local
  parse_source_node atom =
      let p = read_fields (record { node = blank_node; ips = []; ports = [] }) (children atom) in
      let n1 = with_global p.node (dialable (nth 0 p.ips) (nth 0 p.ports)) in
      let n2 = with_local n1 (dialable (nth 1 p.ips) (nth 1 p.ports)) in
      (n2, not (n2.global_addr == "" && n2.local_addr == ""))
