-- ===== src/Content/Size.antt =====
-- `ContentBufferSizeForBitrate`: the number of packets of the ring.
use native.Mathlib.Nat.{mod-lt, div-add-mod'}
use peercast_mi.Base.{ℕ, ◌+◌, ◌*◌, ◌/◌, ◌≤◌, ◌<◌, arith, nat_eq}
use peercast_mi.Content.{content_buffer_size_for_bitrate, pcp_packet_size}

-- Rounding a quotient down and adding one covers the dividend.
lt-div-suc-mul : (n d q : ℕ) → 0 < d → n / d + 1 ≤ q → n < q * d
lt-div-suc-mul n d q h le = grind (arith, div-add-mod' n d, mod-lt n {m = d} h)

-- For a bitrate in kbit/s and a duration of num / den seconds, the ring has at least 64 slots, and
-- as many packets of 15 KiB are more than the bitrate gives in that time.
content_buffer_size_covers :
    (bitrate num den : ℕ)
    → 0 < den
    → (64 ≤ content_buffer_size_for_bitrate bitrate num den)
      × (bitrate * 1000 * num
          < content_buffer_size_for_bitrate bitrate num den * (8 * den * pcp_packet_size))
unfolding content_buffer_size_for_bitrate
content_buffer_size_covers bitrate num den h =
    let total = bitrate * 1000 * num in
    let unit = 8 * den * pcp_packet_size in
    let covered = lt-div-suc-mul total unit in
    ground (arith, covered 64, covered (total / unit + 1))
