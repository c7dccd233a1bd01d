-- ===== src/Nodes/Ids.antt =====
-- Reading a HOST atom: `hostSessionID` of internal/channel/nodes.go, and internal/pcputil/host_info.go.
use peercast_mi.Base.{ℕ, ◌==◌, nat_eq, if◌then◌else◌, Option, none, some}
use peercast_mi.Pcp.{GnuId, PcpLibrary, find_child}

module _ (lib : PcpLibrary) where
  open lib use {Atom, Tag, get_id, get_int, get_byte, host_id}

  -- The session identifier of a HOST atom, if it has one that can be read and is not empty.
  unfoldable pub host_session_id : Atom → Option GnuId
  host_session_id host = elim (find_child lib host host_id) [
    | none ↦ none
    | some a ↦ elim (get_id a) [ none ↦ none | some id ↦ if id == 0 then none else some id ]
  ]

  -- The identifier alone, of `sid, _ := hostSessionID(h)`.
  abbrev pub host_id_or_zero : Atom → GnuId
  host_id_or_zero host = elim (host_session_id host) [ none ↦ 0 | some id ↦ id ]

  -- `Int` and `Byte`: 0 for a missing child, else what the library reads.
  unfoldable pub int_child : Atom → Tag → ℕ
  int_child a t = elim (find_child lib a t) [ none ↦ 0 | some c ↦ (get_int c).0 ]

  unfoldable pub byte_child : Atom → Tag → ℕ
  byte_child a t = elim (find_child lib a t) [ none ↦ 0 | some c ↦ (get_byte c).0 ]
