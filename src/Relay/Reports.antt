-- ===== src/Relay/Reports.antt =====
-- What internal/relay/sourcenode.go reads in the reports that internal/pcputil/host.go builds.
pub mod Flags
pub mod Fields
pub mod Reading
pub mod Own
pub mod Node
mod Tests
use mathlib.Core.List.{reverse, reverse-cons, reverse-reverse}
use peercast_mi.Base.{
  ℕ, ◌+◌, ◌%◌, ◌^◌, ◌<◌, ◌≡◌, refl, sym, ap, ◌∙◌, ◌⊎◌, inl, inr, bit_or, bit_and, Bool, true, false,
  not, ◌&&◌, ◌||◌, ◌==◌, nat_eq, string_eq, if◌then◌else◌, List, [], ◌∷◌, ◌++◌, Option, none, some,
  length, length-append, arith, All, Bool-cases, ltb,
}
use peercast_mi.Pcp.{PcpLibrary}
use peercast_mi.Network.{IpLibrary, atom_ip, ip_atom}
use peercast_mi.Network.Host.{
  HostAtomParams, Reach, reach_of, or_from, set_flag, host_flags, host_children, tracker_children,
  hops_children, upstream_children, build_host_atom,
}
use peercast_mi.Relay.{
  SourceNode, AddressLibrary, Parsed, blank_node, with_flags, read_field, read_fields, dialable,
  with_global, with_local, parse_source_node,
}

-- What the two sides rely on: an atom that is built keeps its tag and reads back as built, the
-- tags that a report has are told apart, here by a number for each, and the flags are different
-- bits.
pub record IsHostLibrary (lib : PcpLibrary) : Type 0 where
  pub tag_id : (t : lib.Tag) (v : ℕ) → lib.tag (lib.new_id_atom t v) ≡ t
  pub tag_int : (t : lib.Tag) (v : ℕ) → lib.tag (lib.new_int_atom t v) ≡ t
  pub tag_short : (t : lib.Tag) (v : ℕ) → lib.tag (lib.new_short_atom t v) ≡ t
  pub tag_byte : (t : lib.Tag) (v : ℕ) → lib.tag (lib.new_byte_atom t v) ≡ t
  pub tag_bytes : (t : lib.Tag) (v : List ℕ) → lib.tag (lib.new_bytes_atom t v) ≡ t
  pub children_parent :
      (t : lib.Tag) (cs : List lib.Atom) → lib.children (lib.new_parent_atom t cs) ≡ cs
  pub id_id : (t : lib.Tag) (v : ℕ) → lib.get_id (lib.new_id_atom t v) ≡ some v
  pub int_int : (t : lib.Tag) (v : ℕ) → v < 2 ^ 32 → lib.get_int (lib.new_int_atom t v) ≡ (v, true)
  pub short_short :
      (t : lib.Tag) (v : ℕ) → v < 2 ^ 16 → lib.get_short (lib.new_short_atom t v) ≡ (v, true)
  pub byte_byte :
      (t : lib.Tag) (v : ℕ) → v < 2 ^ 8 → lib.get_byte (lib.new_byte_atom t v) ≡ (v, true)
  pub length_int : (t : lib.Tag) (v : ℕ) → length (lib.payload (lib.new_int_atom t v)) ≡ 4
  pub payload_bytes :
      (t : lib.Tag) (v : List ℕ) → length v ≡ 16 → lib.payload (lib.new_bytes_atom t v) ≡ v
  pub number : lib.Tag → ℕ
  pub same_number : (a b : lib.Tag) → lib.tag_eq.beq a b ≡ (number a == number b)
  pub number_id : number lib.host_id ≡ 0
  pub number_ip : number lib.host_ip ≡ 1
  pub number_port : number lib.host_port ≡ 2
  pub number_flags : number lib.host_flags1 ≡ 3
  pub number_relays : number lib.host_num_relays ≡ 4
  pub number_hops : number lib.host_uphost_hops ≡ 5
  pub number_others :
      All
        (λ t. 5 < number t)
        (lib.host_num_listeners ∷ lib.host_uptime ∷ lib.host_old_pos ∷ lib.host_new_pos
          ∷ lib.host_chan_id ∷ lib.host_version ∷ lib.host_version_vp ∷ lib.host_version_ex_prefix
          ∷ lib.host_version_ex_number ∷ lib.host_tracker ∷ lib.host_uphost_ip
          ∷ lib.host_uphost_port ∷ [])
  pub tracker_bit : lib.flag_tracker ≡ 1
  pub relay_bit : lib.flag_relay ≡ 2
  pub direct_bit : lib.flag_direct ≡ 4
  pub push_bit : lib.flag_push ≡ 8
  pub recv_bit : lib.flag_recv ≡ 16
  pub cin_bit : lib.flag_cin ≡ 32
