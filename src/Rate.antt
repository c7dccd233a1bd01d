-- ===== src/Rate.antt =====
-- internal/servent/rate.go: the bytes that a connection sends in a second. Times are nanoseconds
-- and 0 is the zero time; the sums of bytes do not reach 2 ^ 63.
pub mod Second
mod Tests
use peercast_mi.Base.{ℕ, ◌+◌, ◌-◌, ◌*◌, ◌^◌, Bool, ◌==◌, nat_eq, leb, if◌then◌else◌}

pub record ByteCounter : Type 0 where
  pub current : ℕ
  pub previous : ℕ
  pub bucket_t : ℕ

-- The current bucket becomes the previous one.
abbrev pub rotate : ByteCounter → ℕ → ByteCounter
rotate c now = record { current = 0; previous = c.current; bucket_t = now }

abbrev pub is_over : ℕ → ℕ → ℕ → Bool
is_over seconds now t = leb (seconds * 10 ^ 9) (now - t)

-- `add`; a count that is not positive is 0.
unfoldable pub add : ByteCounter → ℕ → ℕ → ByteCounter
add c now n =
    if n == 0
    then c
    else let c1 = if c.bucket_t == 0 then record c { bucket_t = now } else c in
      let c2 = if is_over 1 now c1.bucket_t then rotate c1 now else c1 in
      record c2 { current = c2.current + n }

-- `rate`, which reads the clock at `now` and again at `then_now`.
unfoldable pub rate : ByteCounter → ℕ → ℕ → ByteCounter × ℕ
rate c now then_now =
    if c.bucket_t == 0
    then (c, 0)
    else if is_over 2 now c.bucket_t
    then (record c { current = 0; previous = 0 }, 0)
    else if is_over 1 now c.bucket_t
    then (rotate c then_now, c.current)
    else (c, c.previous)
