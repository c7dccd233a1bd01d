-- ===== src/Limiter.antt =====
-- internal/rtmp/publish_limiter.go: the limit on attempts to publish with a short stream key.
mod Tests
pub mod Window
use peercast_mi.Base.{
  ℕ, ◌+◌, ◌*◌, ◌^◌, ◌≤◌, ◌<◌, ◌≡◌, refl, String, string_eq, Bool, true, false, not, ◌&&◌, ◌||◌,
  ◌==◌, nat_eq, leb, ltb, if◌then◌else◌, List, [], ◌∷◌, Option, none, some, Map, lookup, insert,
  arith, All, length, get_or, beq-cases, lookup-insert, map_laws,
}

-- Times are in nanoseconds; the zero time of a new limiter is 0.
pub record PublishLimiter : Type 0 where
  pub until : ℕ
  pub total : ℕ
  pub by_ip : Map String ℕ

abbrev pub new_publish_limiter : PublishLimiter
new_publish_limiter = record { until = 0; total = 0; by_ip = [] }

-- A key that a Go map does not have reads as 0.
abbrev pub attempts : PublishLimiter → String → ℕ
attempts l host = elim (lookup host l.by_ip) [ none ↦ 0 | some n ↦ n ]

-- `allow` at a time, once the host of the remote address is known.
unfoldable pub allow_host : PublishLimiter → ℕ → String → PublishLimiter × Bool
allow_host l now host =
    let l' =
      if not (ltb now l.until)
      then record { until = now + 60 * 10 ^ 9; total = 0; by_ip = [] }
      else l in
    if leb 120 l'.total || leb 10 (attempts l' host) then (l', false) else (
      record l' { total = l'.total + 1; by_ip = insert host (attempts l' host + 1) l'.by_ip },
      true,
    )

-- `net.SplitHostPort`, its host if it succeeds, and the text of `net.ParseIP`'s address, if it is
-- one, are the standard library's.
module _ (split_host : String → Option String) (parse_ip : String → Option String) where
  abbrev pub host_of : String → String
  host_of remote =
      let host : String = elim (split_host remote) [ none ↦ remote | some h ↦ h ] in
      elim (parse_ip host) [ none ↦ host | some ip ↦ ip ]

  unfoldable pub allow : PublishLimiter → ℕ → String → PublishLimiter × Bool
  unfolding allow_host
  allow l now remote = allow_host l now (host_of remote)

-- The characters of a key as bytes.
abbrev pub in_range : ℕ → ℕ → ℕ → Bool
in_range low high c = leb low c && leb c high

unfoldable pub is_short_stream_key : List ℕ → Bool
is_short_stream_key key =
    length key == 6
    && (in_range b'a' b'z' (get_or key 0 0)
        && (in_range b'a' b'z' (get_or key 1 0)
            && (in_range b'0' b'9' (get_or key 2 0)
                && (in_range b'0' b'9' (get_or key 3 0)
                    && (in_range b'0' b'9' (get_or key 4 0)
                        && in_range b'0' b'9' (get_or key 5 0))))))
