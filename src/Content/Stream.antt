-- ===== src/Content/Stream.antt =====
-- What the ring buffer of content.go promises: the stream header, and the last packets written
-- since the header was set, at most `size` of them.
use peercast_mi.Base.{
  ℕ, Bool, ◌&&◌, ◌==◌, nat_eq, ltb, if◌then◌else◌, List, [], ◌∷◌, ◌++◌, Option, none, some, length,
  drop,
}
use peercast_mi.Content.{Content, bytes_equal}

pub record Stream : Type 0 where
  pub header : Option (List ℕ)
  pub header_pos : ℕ
  pub held : List Content

-- A new packet pushes the oldest one out of a full window.
unfoldable pub slide : ℕ → List Content → Content → List Content
slide size held p = if ltb (length held) size then held ++ p ∷ [] else drop 1 held ++ p ∷ []

-- An update by the source of the channel.
pub data Update : Type 0 where
  head : List ℕ → ℕ → Update
  packet : ℕ → List ℕ → ℕ → ℕ → Update

abbrev pub as_content : ℕ → List ℕ → ℕ → ℕ → Content
as_content now bytes pos flags = record {
  pos = pos;
  payload = bytes;
  cont_flags = flags;
  timestamp = now;
}

-- The header is unchanged if its position and bytes are; no header reads as an empty one.
unfoldable pub same_header : Stream → List ℕ → ℕ → Bool
same_header s bytes pos =
    s.header_pos == pos && bytes_equal (elim s.header [ none ↦ [] | some h ↦ h ]) bytes

unfoldable pub apply : ℕ → Stream → Update → Stream
unfolding slide same_header
apply size s (head bytes pos) =
    if same_header s bytes pos
    then s
    else record { header = some bytes; header_pos = pos; held = [] }
apply size s (packet now bytes pos flags) = record s {
  held = slide size s.held (as_content now bytes pos flags);
}

unfoldable pub apply_all : ℕ → Stream → List Update → Stream
apply_all size s [] = s
apply_all size s (u ∷ us) = apply_all size (apply size s u) us
