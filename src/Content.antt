-- ===== src/Content.antt =====
-- internal/channel/content.go: the stream header and the ring buffer of data packets.
-- A time is a count of nanoseconds, 0 the zero `time.Time`; a byte is a number. `count` is a Go
-- `int` of packets written, which does not reach 2 ^ 63.
pub mod Position
pub mod Window
pub mod Stream
pub mod Refine
pub mod Delivery
pub mod Size
pub mod Report
mod Tests
use peercast_mi.Base.{
  ℕ, zero, suc, ◌+◌, ◌-◌, ◌*◌, ◌/◌, ◌%◌, ◌^◌, Bool, true, false, not, ◌&&◌, ◌||◌, ◌==◌, ltb, leb,
  if◌then◌else◌, List, [], ◌∷◌, Option, none, some, length, get_or, set, replicate, nat_eq,
}

abbrev pub default_content_buffer_size : ℕ
default_content_buffer_size = 64

abbrev pub pcp_packet_size : ℕ
pcp_packet_size = 15 * 1024

-- `seconds` is the fraction `num / den`, with `den` positive, and the quotient is taken exactly.
unfoldable pub content_buffer_size_for_bitrate : ℕ → ℕ → ℕ → ℕ
content_buffer_size_for_bitrate bitrate num den =
    if bitrate == 0 || num == 0
    then default_content_buffer_size
    else let packets = bitrate * 1000 * num / (8 * den * pcp_packet_size) + 1 in
      if ltb packets default_content_buffer_size then default_content_buffer_size else packets

-- `int32(a - b) < 0`: the difference wraps, and its sign is its top bit.
unfoldable pub pos_before : ℕ → ℕ → Bool
pos_before a b = leb (2 ^ 31) ((a + 2 ^ 32 - b) % 2 ^ 32)

pub record Content : Type 0 where
  pub pos : ℕ
  pub payload : List ℕ
  pub cont_flags : ℕ
  pub timestamp : ℕ

-- The zero `Content`, which fills a fresh ring.
abbrev pub blank : Content
blank = record { pos = 0; payload = []; cont_flags = 0; timestamp = 0 }

-- A nil slice of packets is the empty list. `signal` numbers the wake-up channels: the one that
-- `Signal` hands out is `signal`, and all below it are closed.
pub record ContentBuffer : Type 0 where
  pub header : Option (List ℕ)
  pub header_pos : ℕ
  pub packets : List Content
  pub count : ℕ
  pub signal : ℕ

unfoldable pub new_content_buffer : ℕ → ContentBuffer
new_content_buffer size = record {
  header = none;
  header_pos = 0;
  packets = replicate (if size == 0 then default_content_buffer_size else size) blank;
  count = 0;
  signal = 0;
}

pub bytes_equal : List ℕ → List ℕ → Bool
bytes_equal [] [] = true
bytes_equal (x ∷ xs) (y ∷ ys) = x == y && bytes_equal xs ys
bytes_equal _ _ = false

-- `bytes.Equal` reads a nil slice as the empty one.
abbrev pub header_bytes : ContentBuffer → List ℕ
header_bytes b = elim b.header [ none ↦ [] | some h ↦ h ]

unfoldable pub set_header : ContentBuffer → List ℕ → ℕ → ContentBuffer × Bool
unfolding bytes_equal
set_header b bytes pos =
    if b.header_pos == pos && bytes_equal (header_bytes b) bytes
    then (b, false)
    else (record b { count = 0; header_pos = pos; header = some bytes }, true)

-- The packets after the check for a nil slice.
abbrev pub allocated : ContentBuffer → List Content
allocated b = elim b.packets [ [] ↦ replicate default_content_buffer_size blank | p ∷ ps ↦ p ∷ ps ]

unfoldable pub write : ContentBuffer → ℕ → List ℕ → ℕ → ℕ → ContentBuffer
write b now bytes pos flags =
    let entry : Content = record {
      pos = pos;
      payload = bytes;
      cont_flags = flags;
      timestamp = now;
    } in
    record b {
      packets = set (allocated b) (b.count % length (allocated b)) entry;
      count = b.count + 1;
      signal = b.signal + 1;
    }

-- The packet in slot `i % size`.
abbrev pub slot : List Content → ℕ → Content
slot ps i = get_or ps (i % length ps) blank

unfoldable pub oldest_pos : ContentBuffer → ℕ
oldest_pos b =
    if b.count == 0
    then 0
    else if leb b.count (length b.packets)
    then (get_or b.packets 0 blank).pos
    else (slot b.packets b.count).pos

unfoldable pub newest_pos : ContentBuffer → ℕ
newest_pos b = if b.count == 0 then 0 else (slot b.packets (b.count - 1)).pos

-- `start` of the two scans.
abbrev pub start : ContentBuffer → ℕ
start b = if ltb (length b.packets) b.count then b.count - length b.packets else 0

-- The first loop, from index `i` with `n` rounds left.
pub first_index : (Content → Bool) → List Content → ℕ → ℕ → Option ℕ
first_index p ps i zero = none
first_index p ps i (suc n) = if p (slot ps i) then some i else first_index p ps (suc i) n

-- The second loop, from index `i` with `n` rounds left.
unfoldable pub collect : List Content → ℕ → ℕ → List Content
collect ps i zero = []
collect ps i (suc n) = slot ps i ∷ collect ps (suc i) n

-- The scan that `Since` and `PacketsAfter` share, for the test that ends the first loop.
pub scan : (Content → Bool) → ContentBuffer → List Content
unfolding first_index collect
scan p b =
    if b.count == 0 then [] else elim (first_index p b.packets (start b) (b.count - start b)) [
      | none ↦ []
      | some i ↦ collect b.packets i (b.count - i)
    ]

unfoldable pub since : ContentBuffer → ℕ → List Content
unfolding scan
since b pos = scan (λ p. not (pos_before p.pos pos)) b

-- `ref.Timestamp.IsZero() || p.Timestamp.After(ref) || equal times and a later position`.
abbrev pub newer : Content → Content → Bool
newer ref p =
    ref.timestamp == 0
    || (ltb ref.timestamp p.timestamp || (p.timestamp == ref.timestamp && pos_before ref.pos p.pos))

unfoldable pub packets_after : ContentBuffer → Content → List Content
unfolding scan
packets_after b ref = scan (newer ref) b

unfoldable pub content_position : ContentBuffer → ℕ
content_position b = elim b.header [
  | none ↦ 0
  | some h ↦
      if b.count == 0
      then (b.header_pos + length h) % 2 ^ 32
      else let newest = slot b.packets (b.count - 1) in
        (newest.pos + length newest.payload) % 2 ^ 32
]

unfoldable pub has_data : ContentBuffer → Bool
has_data b = ltb 0 b.count
