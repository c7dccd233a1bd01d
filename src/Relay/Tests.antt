-- ===== src/Relay/Tests.antt =====
-- Runs of the choice of a source at concrete inputs.
use peercast_mi.Base.{
  ℕ, ◌+◌, ◌*◌, ◌≡◌, ◌⊎◌, true, false, string_eq, nat_eq, List, [], ◌∷◌, arith, ltb, lookup, All,
}
use peercast_mi.Relay.{SourceNode, SourceNodeList, blank_node}
use peercast_mi.Relay.Ignored.{IgnoredNodeCollection, contains}
use peercast_mi.Relay.Choice.{Scores, select_source_host}
use peercast_mi.Relay.Choice.Best.{IsOrder, IsBest, is_eligible, select_source_host-IsBest}

-- Scores as numbers that are one too high, so that the lowest is 0.
abbrev sample_scores : Scores
sample_scores = record {
  Score = ℕ;
  Random = ℕ;
  score = λ base draw bonus. base + draw * bonus + 1;
  above = λ a b. ltb b a;
  lowest = 0;
}

sample_scores-IsOrder : IsOrder sample_scores
sample_scores-IsOrder = record {
  irreflexive = λ x. ground arith;
  transitive = λ x y z a b. ground arith;
  positive = λ base bonus draw. ground arith;
}

abbrev near : SourceNode
near = record blank_node { session_id = 1; global_addr = "10.0.0.1:7144"; is_receiving = true }

abbrev walled : SourceNode
walled = record blank_node { session_id = 2; global_addr = "10.0.0.2:7144"; is_firewalled = true }

abbrev nodes : List (SourceNode × ℕ)
nodes = (walled, 3) ∷ (near, 2) ∷ []

abbrev ignored : IgnoredNodeCollection
ignored = record { entries = ("10.0.0.9:7144", 100) ∷ []; threshold = 1000 }

select_source_host-IsBest_example :
    IsBest sample_scores 500 9 ignored nodes
      (select_source_host sample_scores 500 9 nodes ignored "10.0.0.9:7144")
    ⊎ (All (λ x. is_eligible sample_scores 500 9 ignored x ≡ false) nodes
        × (select_source_host sample_scores 500 9 nodes ignored "10.0.0.9:7144" ≡ ""))
unfolding contains lookup
select_source_host-IsBest_example =
    select_source_host-IsBest sample_scores 500 9 nodes ignored "10.0.0.9:7144"
      sample_scores-IsOrder

abbrev sources : SourceNodeList
sources = (1, near) ∷ []
