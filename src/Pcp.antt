-- ===== src/Pcp.antt =====
-- The library github.com/titagaki/peercast-pcp, which the program calls and which is not part of
-- the repository: its atoms, their tags, and the functions that build and read them. A node or
-- channel identifier (`pcp.GnuID`, 16 bytes) is read as a number, the empty one as 0.
use peercast_mi.Base.{ℕ, Bool, Eq, List, Option, String, find}

abbrev pub GnuId : Type 0
GnuId = ℕ

pub record ChanInfo : Type 0 where
  pub name : String
  pub url : String
  pub desc : String
  pub comment : String
  pub genre : String
  pub kind : String
  pub stream_type : String
  pub stream_ext : String
  pub bitrate : ℕ

pub record ChanTrack : Type 0 where
  pub title : String
  pub creator : String
  pub url : String
  pub album : String

-- `kind` is the packet's four-byte type as a number.
pub record ChanPktData : Type 0 where
  pub kind : ℕ
  pub pos : ℕ
  pub payload : List ℕ
  pub continuation : ℕ

-- A nil pointer is `none`, an empty identifier 0.
pub record ChanPacket : Type 0 where
  pub id : GnuId
  pub broadcast_id : GnuId
  pub info : Option ChanInfo
  pub track : Option ChanTrack
  pub pkt : Option ChanPktData

pub record HeloPacket : Type 0 where
  pub agent : String
  pub session_id : GnuId
  pub version : ℕ
  pub port : ℕ
  pub ping : ℕ
  pub remote_ip : ℕ

-- A read that fails returns no identifier, or a number with `false`.
pub record PcpLibrary : Type 1 where
  pub Atom : Type 0
  pub Tag : Type 0
  pub tag_eq : Eq Tag
  pub tag : Atom → Tag
  pub children : Atom → List Atom
  pub payload : Atom → List ℕ
  pub ipv4_from_uint32 : ℕ → List ℕ
  pub get_id : Atom → Option GnuId
  pub get_int : Atom → ℕ × Bool
  pub get_short : Atom → ℕ × Bool
  pub get_byte : Atom → ℕ × Bool
  pub new_byte_atom : Tag → ℕ → Atom
  pub new_short_atom : Tag → ℕ → Atom
  pub new_int_atom : Tag → ℕ → Atom
  pub new_id_atom : Tag → GnuId → Atom
  pub new_bytes_atom : Tag → List ℕ → Atom
  pub new_parent_atom : Tag → List Atom → Atom
  pub build_chan : ChanPacket → Atom
  pub parse_chan : Atom → Option ChanPacket
  pub build_oleh : HeloPacket → Atom
  pub parse_helo : Atom → Option HeloPacket
  pub type_head : ℕ
  pub type_data : ℕ
  pub chan : Tag
  pub host : Tag
  pub quit : Tag
  pub ok : Tag
  pub helo : Tag
  pub oleh : Tag
  pub host_id : Tag
  pub host_ip : Tag
  pub host_port : Tag
  pub host_flags1 : Tag
  pub host_num_listeners : Tag
  pub host_num_relays : Tag
  pub host_uphost_hops : Tag
  pub host_uphost_ip : Tag
  pub host_uphost_port : Tag
  pub host_chan_id : Tag
  pub host_uptime : Tag
  pub host_old_pos : Tag
  pub host_new_pos : Tag
  pub host_version : Tag
  pub host_version_vp : Tag
  pub host_version_ex_prefix : Tag
  pub host_version_ex_number : Tag
  pub host_tracker : Tag
  pub bcst : Tag
  pub bcst_from : Tag
  pub bcst_dest : Tag
  pub bcst_channel_id : Tag
  pub bcst_group : Tag
  pub bcst_ttl : Tag
  pub bcst_hops : Tag
  pub bcst_version : Tag
  pub bcst_version_vp : Tag
  pub bcst_version_ex_prefix : Tag
  pub bcst_version_ex_number : Tag
  pub helo_remote_ip : Tag
  pub helo_port : Tag
  pub flag_relay : ℕ
  pub flag_recv : ℕ
  pub flag_push : ℕ
  pub flag_tracker : ℕ
  pub flag_direct : ℕ
  pub flag_cin : ℕ
  pub group_relays : ℕ
  pub group_trackers : ℕ
  pub error_quit : ℕ
  pub error_skip : ℕ
  pub error_unavailable : ℕ
  pub error_shutdown : ℕ
  pub error_not_identified : ℕ
  pub error_loopback : ℕ
  pub error_bad_agent : ℕ

module _ (lib : PcpLibrary) where
  open lib use {Atom, Tag, tag_eq, tag, children}

  -- `Atom.FindChild`: the first child with the tag.
  abbrev pub find_child : Atom → Tag → Option Atom
  find_child a t = find (λ c. tag_eq.beq (tag c) t) (children a)
