-- ===== src/Limiter/Window.antt =====
-- What the limiter lets through in one window.
use peercast_mi.Base.{
  ℕ, ◌+◌, ◌*◌, ◌^◌, ◌≤◌, ◌<◌, ◌≡◌, String, string_eq, true, ◌&&◌, ◌==◌, nat_eq, if◌then◌else◌, List,
  [], ◌∷◌, Option, lookup, insert, arith, All, beq-cases, lookup-insert,
}
use peercast_mi.Limiter.{PublishLimiter, attempts, allow_host, host_of, allow}

-- One attempt in a window: a host's count goes up by one exactly when it is let through, as the
-- total does, and both stay within their limits.
allow_host-step :
    (l : PublishLimiter) (now : ℕ) (h host : String)
    → now < l.until
    → attempts l host ≤ 10
    → l.total ≤ 120
    → let (l', ok) = allow_host l now h in
      (l'.until ≡ l.until)
      × (attempts l' host ≡ attempts l host + (if ok && h == host then 1 else 0))
      × (attempts l' host ≤ 10)
      × (l'.total ≡ l.total + (if ok then 1 else 0))
      × (l'.total ≤ 120)
unfolding allow_host
allow_host-step l now h host early a b =
    ground (arith, early, lookup-insert host h (attempts l h + 1) l.by_ip, beq-cases h host)

-- An attempt that finds the window over opens the next one, and is the first in it.
allow_host-opens :
    (l : PublishLimiter) (now : ℕ) (h host : String)
    → l.until ≤ now
    → let (l', ok) = allow_host l now h in
      (ok ≡ true)
      × (l'.until ≡ now + 60 * 10 ^ 9)
      × (attempts l' host ≡ (if h == host then 1 else 0))
      × (l'.total ≡ 1)
unfolding allow_host lookup insert
allow_host-opens l now h host over = ground arith

module _ (split_host : String → Option String) (parse_ip : String → Option String) where
  -- How many of a host's attempts were let through, in a run of them.
  unfoldable pub let_through : PublishLimiter → String → List (ℕ × String) → ℕ
  let_through l host [] = 0
  let_through l host ((now, remote) ∷ rs) =
      let (l', ok) = allow split_host parse_ip l now remote in
      (if ok && host_of split_host parse_ip remote == host then 1 else 0) + let_through l' host rs

  -- How many attempts of all hosts were let through.
  unfoldable pub all_through : PublishLimiter → List (ℕ × String) → ℕ
  all_through l [] = 0
  all_through l ((now, remote) ∷ rs) =
      let (l', ok) = allow split_host parse_ip l now remote in
      (if ok then 1 else 0) + all_through l' rs

  -- While a window is open a host gets at most what is left of its 10 attempts, and all hosts together at
  -- most what is left of 120.
  pub allow-budget :
      (l : PublishLimiter) (host : String) (rs : List (ℕ × String))
      → All (λ r. r.0 < l.until) rs
      → attempts l host ≤ 10
      → l.total ≤ 120
      → (attempts l host + let_through l host rs ≤ 10) × (l.total + all_through l rs ≤ 120)
  unfolding let_through all_through allow
  allow-budget l host [] within a b = ground arith
  allow-budget l host ((now, remote) ∷ rs) within a b =
      let (same, counted, c, total, d) =
        allow_host-step l now (host_of split_host parse_ip remote) host within.0 a b in
      let rest =
        allow-budget (allow split_host parse_ip l now remote).0 host rs (rw same within.1) c d in
      ground (arith, counted, total, rest)

  -- Whatever happened before, from an attempt on that finds the last window over, a host gets at
  -- most 10 attempts through in the minute that begins with it, and all hosts together at most 120.
  pub window-limit :
      (l : PublishLimiter) (start : ℕ) (remote host : String) (rs : List (ℕ × String))
      → l.until ≤ start
      → All (λ r. r.0 < start + 60 * 10 ^ 9) rs
      → (let_through l host ((start, remote) ∷ rs) ≤ 10)
        × (all_through l ((start, remote) ∷ rs) ≤ 120)
  unfolding let_through all_through allow
  window-limit l start remote host rs over within =
      let (ok, until, counted, total) =
        allow_host-opens l start (host_of split_host parse_ip remote) host over in
      let l' = (allow split_host parse_ip l start remote).0 in
      let open_now : All (λ r. r.0 < l'.until) rs = rw until within in
      let rest =
        allow-budget l' host rs open_now (ground (arith, counted)) (ground (arith, total)) in
      ground (arith, ok, counted, total, rest)
