-- ===== src/Relay/Choice.antt =====
-- internal/relay/select.go: the choice of a host to take the stream from.
pub mod Best
use peercast_mi.Base.{
  ℕ, ◌+◌, ◌-◌, ◌*◌, ◌%◌, ◌^◌, ◌≤◌, ◌<◌, ◌≡◌, ◌≢◌, refl, sym, ap, ◌∙◌, ◌⊎◌, inl, inr, Bool, true,
  false, not, ◌&&◌, ◌||◌, ◌==◌, nat_eq, string_eq, ltb, leb, if◌then◌else◌, List, [], ◌∷◌, Option,
  none, some, String, All, arith, any, Bool-cases,
}
use peercast_mi.Relay.{SourceNode}
use peercast_mi.Relay.Ignored.{IgnoredNodeCollection, contains, contains_stable}

unfoldable pub same_nat : SourceNode → ℕ → Bool
same_nat n our_global_ip =
    not (our_global_ip == 0) && (not (n.global_ip == 0) && n.global_ip == our_global_ip)

unfoldable pub connect_addr : SourceNode → ℕ → String
unfolding same_nat
connect_addr n our_global_ip =
    if same_nat n our_global_ip && not (n.local_addr == "") then n.local_addr else n.global_addr

-- The bonus of a node, which a random number scales. The product with the relay count is a 32-bit
-- number.
unfoldable pub bonus_of : SourceNode → ℕ
bonus_of n =
    (if n.is_receiving then 4000 else 0)
    + (if not n.is_relay_full then 2000 else 0)
    + (if ltb n.hops 10 then (10 - n.hops) * 100 else 0)
    + (n.relay_count * 10) % 2 ^ 32

-- Scores are floating-point numbers of the language: `score` adds to a number a random number
-- times another, `above` is its order, and `lowest` is -1.
pub record Scores : Type 1 where
  pub Score : Type 0
  pub Random : Type 0
  pub score : ℕ → Random → ℕ → Score
  pub above : Score → Score → Bool
  pub lowest : Score

module _ (floats : Scores) where
  open floats use {Score, Random, score, above, lowest}

  unfoldable pub score_of : SourceNode → ℕ → Random → Score
  unfolding same_nat bonus_of
  score_of n our_global_ip draw =
      score (if same_nat n our_global_ip then 8000 else 0) draw (bonus_of n)

  -- What the loop keeps: the ignored addresses, from which `Contains` drops what is over, and the
  -- best address and score.
  pub record Search : Type 0 where
    pub ignored : IgnoredNodeCollection
    pub best_addr : String
    pub best_score : Score

  module _ (now our_global_ip : ℕ) where
    -- One round of the loop, with the random number that it would draw.
    unfoldable pub consider : Search → SourceNode × Random → Search
    consider s (n, draw) =
        let addr = connect_addr n our_global_ip in
        let (ignored, bad) = contains s.ignored now addr in
        if n.is_firewalled
        then s
        else if addr == ""
        then s
        else if bad
        then record s { ignored = ignored }
        else if above (score_of n our_global_ip draw) s.best_score
        then record {
          ignored = ignored;
          best_addr = addr;
          best_score = score_of n our_global_ip draw;
        }
        else record s { ignored = ignored }

    unfoldable pub search_all : Search → List (SourceNode × Random) → Search
    unfolding consider
    search_all s [] = s
    search_all s (n ∷ ns) = search_all (consider s n) ns

    -- The clock is read once. The tracker's address comes last.
    unfoldable pub select_source_host :
        List (SourceNode × Random) → IgnoredNodeCollection → String → String
    unfolding search_all
    select_source_host nodes ignored tracker_addr =
        let s =
          search_all (record { ignored = ignored; best_addr = ""; best_score = lowest }) nodes in
        if not (s.best_addr == "")
        then s.best_addr
        else (if not (tracker_addr == "") && not (contains s.ignored now tracker_addr).1
            then tracker_addr
            else "")
