-- ===== src/Limiter/Tests.antt =====
-- Runs of the limiter at concrete inputs.
use peercast_mi.Base.{ℕ, ◌≤◌, refl, ◌≡◌, String, List, [], ◌∷◌, Option, none, some, arith, true}
use peercast_mi.Limiter.{new_publish_limiter, is_short_stream_key}
use peercast_mi.Limiter.Window.{let_through, all_through, window-limit}

-- Every address is a host, and none has another text.
abbrev whole : String → Option String
whole remote = some remote

abbrev unread : String → Option String
unread host = none

abbrev attempts_after : List (ℕ × String)
attempts_after = (2000, "10.0.0.1") ∷ (3000, "10.0.0.2") ∷ []

window-limit_example :
    (let_through whole unread new_publish_limiter "10.0.0.1" ((1000, "10.0.0.1") ∷ attempts_after)
      ≤ 10)
    × (all_through whole unread new_publish_limiter ((1000, "10.0.0.1") ∷ attempts_after) ≤ 120)
window-limit_example =
    window-limit whole unread new_publish_limiter 1000 "10.0.0.1" "10.0.0.1" attempts_after
      (omega arith) (omega arith, (omega arith, tt))

is_short_stream_key_test : is_short_stream_key (b'a' ∷ b'z' ∷ b'0' ∷ b'1' ∷ b'2' ∷ b'9' ∷ []) ≡ true
unfolding is_short_stream_key
is_short_stream_key_test = refl
