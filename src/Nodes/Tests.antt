-- ===== src/Nodes/Tests.antt =====
-- Runs of the node table at concrete inputs.
use mathlib.Core.List.{Perm}
use peercast_mi.Base.{
  lookup, inr, none, nat_eq, ◌≢◌, ℕ, ◌≤◌, ◌≡◌, refl, nat_eq, List, [], ◌∷◌, map, keep, take, arith,
  All, length,
}
use peercast_mi.Samples.{SampleAtom, sample_library, sample_host, bare_host}
use peercast_mi.Nodes.{NodeTable, add_known_host, select_source_hosts, is_candidate}
use peercast_mi.Nodes.Ids.{host_session_id, host_id_or_zero}
use peercast_mi.Nodes.Stats.{reset, remove_stats}
use peercast_mi.Nodes.Forget.{remove_stats-forgets}
use peercast_mi.Nodes.Known.{IsValid, Holds, add_known_host-Holds}
use peercast_mi.Nodes.Select.{
  IsEligible, IsScored, Falling, select_source_hosts-IsEligible, select_source_hosts-best_first,
}

abbrev one_known : NodeTable SampleAtom
one_known = record reset { known_hosts = bare_host ∷ []; host_times = (8, 100) ∷ [] }

one_known-IsValid : IsValid sample_library one_known
unfolding host_session_id
one_known-IsValid = (omega arith, (λ e. omega (arith, e), tt, tt))

add_known_host-Holds_example :
    Holds sample_library 7 sample_host 200 (add_known_host sample_library one_known 200 sample_host)
unfolding host_session_id
add_known_host-Holds_example =
    add_known_host-Holds sample_library one_known 200 sample_host 7 one_known-IsValid refl

abbrev draws : ℕ → ℕ
draws i = i

select_source_hosts-IsEligible_example :
    (length (select_source_hosts sample_library one_known 200 draws 4 5 0) ≤ 4)
    × All
        (IsEligible sample_library one_known 200 5)
        (select_source_hosts sample_library one_known 200 draws 4 5 0)
select_source_hosts-IsEligible_example =
    select_source_hosts-IsEligible sample_library one_known 200 draws 4 5 0

select_source_hosts-best_first_example :
    (ranking : List (SampleAtom × ℕ)) × (select_source_hosts sample_library one_known 200 draws 4 5
        0
      ≡ map (λ c. c.0) (take 4 ranking))
    × Perm
        (map (λ c. c.0) ranking)
        (keep (is_candidate sample_library one_known 200 5) one_known.known_hosts)
    × Falling ranking
    × All (IsScored sample_library one_known 200 5 0 draws) ranking
select_source_hosts-best_first_example =
    select_source_hosts-best_first sample_library one_known 200 draws 4 5 0

-- Node 8 was last reported by node 5.
abbrev one_owned : NodeTable SampleAtom
one_owned = record one_known {
  owners = (8, 5) ∷ [];
  stats = (8, record { listeners = 1; relays = 2; updated = 100 }) ∷ [];
}

remove_stats-forgets_example :
    (lookup 8 (remove_stats sample_library one_owned 5).stats ≡ none)
    × All
        (λ h. host_id_or_zero sample_library h ≢ 5)
        (remove_stats sample_library one_owned 5).known_hosts
unfolding lookup
remove_stats-forgets_example = remove_stats-forgets sample_library one_owned 5 8 (inr refl)
