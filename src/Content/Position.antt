-- ===== src/Content/Position.antt =====
-- The wrapping order of stream positions, `PosBefore`.
use peercast_mi.Base.{ℕ, ◌+◌, ◌%◌, ◌^◌, ◌≤◌, ◌<◌, ◌≡◌, ◌↔◌, ◌⊎◌, true, arith}
use peercast_mi.Content.{pos_before}

-- For a base position p and a distance d below 2 ^ 32, p comes before the position d bytes further
-- on, both taken mod 2 ^ 32, exactly when 1 ≤ d ≤ 2 ^ 31.
pos_before-ahead :
    (p d : ℕ)
    → d < 2 ^ 32
    → (pos_before (p % 2 ^ 32) ((p + d) % 2 ^ 32) ≡ true) ↔ ((1 ≤ d) × (d ≤ 2 ^ 31))
unfolding pos_before
pos_before-ahead p d h = ground arith

-- Of two 32-bit positions either one is not before the other, or they lie exactly 2 ^ 31 bytes
-- apart, where each is before the other.
pos_before_both :
    (a b : ℕ)
    → a < 2 ^ 32
    → b < 2 ^ 32
    → ((pos_before a b ≡ true) × (pos_before b a ≡ true)) ↔ ((a + 2 ^ 31 ≡ b) ⊎ (b + 2 ^ 31 ≡ a))
unfolding pos_before
pos_before_both a b ha hb = ground arith
