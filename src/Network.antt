-- ===== src/Network.antt =====
-- internal/pcputil/network.go: addresses in atoms, and what a node has been told of its own address
-- and port. An address (`net.IP`) is the list of its bytes.
pub mod Ports
pub mod Host
mod Tests
use mathlib.Core.List.{reverse}
use peercast_mi.Base.{
  ℕ, Bool, true, false, not, ◌&&◌, ◌||◌, [], ◌∷◌, ◌++◌, keep, ◌==◌, nat_eq, if◌then◌else◌, List,
  Option, none, some, length,
}
use peercast_mi.Pcp.{HeloPacket, PcpLibrary, find_child}

module _ (lib : PcpLibrary) where
  open lib use {Atom, payload, get_int, ipv4_from_uint32}

  -- `AtomIP`: four bytes are a number, sixteen are an address in reverse, all else is none.
  unfoldable pub atom_ip : Atom → Option (List ℕ)
  atom_ip a =
      if length (payload a) == 4
      then some (ipv4_from_uint32 (get_int a).0)
      else if length (payload a) == 16
      then some (reverse (payload a))
      else none

-- What the standard library knows of an address: `IsUnspecified`, and whether `To4` gives one, and
-- which.
pub record IpLibrary : Type 0 where
  pub is_unspecified : List ℕ → Bool
  pub to4 : List ℕ → Option (List ℕ)

pub record NetworkStatus : Type 0 where
  pub ip : List ℕ
  pub known : Bool
  pub port_open : Bool

-- A nil address is the empty one.
pub record NetworkState : Type 0 where
  pub v4 : NetworkStatus
  pub v6 : NetworkStatus
  pub public_ipv4 : List ℕ

abbrev pub no_status : NetworkStatus
no_status = record { ip = []; known = false; port_open = false }

module _ (net : IpLibrary) where
  abbrev pub is_v4 : List ℕ → Bool
  is_v4 ip = elim (net.to4 ip) [ none ↦ false | some v4 ↦ true ]

  -- `ProtocolVersion`; a nil address is `none`.
  unfoldable pub protocol_version : Option (List ℕ) → ℕ
  protocol_version none = 1
  protocol_version (some ip) = if is_v4 ip then 1 else 100

  unfoldable pub set_public_ipv4 : NetworkState → List ℕ → NetworkState
  set_public_ipv4 n ip = record n { public_ipv4 = elim (net.to4 ip) [ none ↦ [] | some v4 ↦ v4 ] }

  -- `Status` of a state that is there.
  unfoldable pub status : NetworkState → Option (List ℕ) → NetworkStatus
  unfolding protocol_version
  status n local =
      if protocol_version local == 100
      then n.v6
      else if length n.public_ipv4 == 0
      then n.v4
      else record (n.v4) { ip = n.public_ipv4 }

  unfoldable pub helo_port : NetworkState → Option (List ℕ) → ℕ → ℕ × ℕ
  unfolding status
  helo_port n local listen =
      let s = status n local in
      if not s.known then (0, listen) else if s.port_open then (listen, 0) else (0, 0)

  module _ (lib : PcpLibrary) where
    open lib use {Atom, get_short, helo_remote_ip, helo_port as port_tag}

    -- The status of the family that an oleh is about.
    unfoldable pub with_oleh : NetworkStatus → List ℕ → Option Atom → NetworkStatus
    with_oleh s ip none = record s { ip = ip }
    with_oleh s ip (some p) =
        let (port, ok) = get_short p in
        if ok
        then record { ip = ip; known = true; port_open = not (port == 0) }
        else record s { ip = ip }

    -- `Observe` of a state that is there.
    unfoldable pub observe : NetworkState → Atom → NetworkState
    unfolding with_oleh
    observe n oleh = elim (find_child lib oleh helo_remote_ip) [
      | none ↦ n
      | some a ↦ elim (atom_ip lib a) [
        | none ↦ n
        | some ip ↦
            if net.is_unspecified ip
            then n
            else if is_v4 ip
            then record n { v4 = with_oleh n.v4 ip (find_child lib oleh port_tag) }
            else record n { v6 = with_oleh n.v6 ip (find_child lib oleh port_tag) }
      ]
    ]

module _ (lib : PcpLibrary) where
  open lib use {Atom, Tag, tag_eq, tag, children, new_parent_atom}

  unfoldable pub replace_child : Atom → Atom → Atom
  replace_child a child =
      new_parent_atom (tag a)
        (keep (λ c. not (tag_eq.beq (tag c) (tag child))) (children a) ++ child ∷ [])

module _ (net : IpLibrary) (lib : PcpLibrary) (ipv4_to_uint32 : List ℕ → ℕ) where
  open lib use {Atom, Tag, tag_eq, tag, children, new_parent_atom, parse_helo, helo_remote_ip}

  -- The address that `ParseHelo` takes from an atom, if it has a 4-byte form.
  unfoldable pub with_remote_ip : HeloPacket → Option (List ℕ) → HeloPacket
  with_remote_ip h none = h
  with_remote_ip h (some ip) =
      if is_v4 net ip then record h { remote_ip = ipv4_to_uint32 ip } else h

  -- `ParseHelo`, which leaves the address to the program; a helo that cannot be read is `none`.
  unfoldable pub parse_helo_atom : Atom → Option HeloPacket
  unfolding with_remote_ip
  parse_helo_atom a =
      let plain =
        new_parent_atom (tag a)
          (keep (λ c. not (tag_eq.beq (tag c) helo_remote_ip)) (children a)) in
      elim (parse_helo plain) [
        | none ↦ none
        | some h ↦ some (
            with_remote_ip h
              (elim (find_child lib a helo_remote_ip) [ none ↦ none | some c ↦ atom_ip lib c ]))
      ]

module _ (net : IpLibrary) (lib : PcpLibrary) (ipv4_to_uint32 : List ℕ → ℕ)
    (to16 : List ℕ → List ℕ) where
  open lib use {Atom, Tag, new_int_atom, new_bytes_atom}

  -- `IPAtom`
  unfoldable pub ip_atom : Tag → List ℕ → Atom
  ip_atom t ip = elim (net.to4 ip) [
    | some v4 ↦ new_int_atom t (ipv4_to_uint32 v4)
    | none ↦
        if length (to16 ip) == 0 then new_int_atom t 0 else new_bytes_atom t (reverse (to16 ip))
  ]
