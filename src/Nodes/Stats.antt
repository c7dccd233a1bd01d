-- ===== src/Nodes/Stats.antt =====
-- internal/channel/nodes.go and observed_hosts.go: the counts that downstream nodes report, who
-- delivered them, and the operations that join them to the known hosts.
use peercast_mi.Base.{
  ℕ, ◌+◌, Bool, false, not, ◌&&◌, ◌||◌, ◌==◌, nat_eq, bit_and, if◌then◌else◌, List, [], ◌∷◌, none,
  some, keep, find, Map, lookup, insert, delete,
}
use peercast_mi.Pcp.{GnuId, PcpLibrary}
use peercast_mi.Nodes.{NodeTable, NodeStats, expired, is_old, id_at, add_known_host}
use peercast_mi.Nodes.Ids.{host_session_id, host_id_or_zero, int_child, byte_child}

-- The first loop of `updateStats`, over the entries that the map had at its start.
unfoldable pub sweep : {A : Type 0} → ℕ → Map GnuId NodeStats → NodeTable A → NodeTable A
sweep now [] n = n
sweep now ((id, s) ∷ es) n = sweep now es (
    if is_old now s then record n { stats = delete id n.stats; owners = delete id n.owners } else n)

unfoldable pub update_stats : {A : Type 0} → NodeTable A → ℕ → GnuId → ℕ → ℕ → NodeTable A
unfolding sweep
update_stats n now session listeners relays =
    let n' = sweep now n.stats n in
    record n' {
      stats =
          insert session (record { listeners = listeners; relays = relays; updated = now })
            n'.stats;
    }

-- The loops of `removeStats` over `owners`: the identifiers that are the session or that it owns.
abbrev pub leaves : GnuId → GnuId × GnuId → Bool
leaves session (id, owner) = id == session || owner == session

unfoldable pub drop_stats_of : GnuId → Map GnuId GnuId → Map GnuId NodeStats → Map GnuId NodeStats
drop_stats_of session [] stats = stats
drop_stats_of session ((id, owner) ∷ os) stats =
    drop_stats_of session os (if leaves session (id, owner) then delete id stats else stats)

unfoldable pub drop_owners_of : GnuId → Map GnuId GnuId → Map GnuId GnuId → Map GnuId GnuId
drop_owners_of session [] owners = owners
drop_owners_of session ((id, owner) ∷ os) owners =
    drop_owners_of session os (if leaves session (id, owner) then delete id owners else owners)

-- `totals`: the sums of the counts that have not expired.
unfoldable pub totals_from : ℕ → Map GnuId NodeStats → ℕ × ℕ
totals_from now [] = (0, 0)
totals_from now ((id, s) ∷ es) =
    let (listeners, relays) = totals_from now es in
    if expired now s.updated
    then (listeners, relays)
    else (s.listeners + listeners, s.relays + relays)

unfoldable pub totals : {A : Type 0} → NodeTable A → ℕ → ℕ × ℕ
unfolding totals_from
totals n now = totals_from now n.stats

abbrev pub reset : {A : Type 0} → NodeTable A
reset = record { known_hosts = []; host_times = []; owners = []; stats = [] }

module _ (lib : PcpLibrary) where
  open lib use {Atom, host_num_listeners, host_num_relays, host_flags1, flag_relay}

  -- The loop of `removeStats` over the known hosts: one that leaves takes its entries with it.
  unfoldable pub drop_hosts_of : GnuId → List Atom → NodeTable Atom → NodeTable Atom
  drop_hosts_of session [] n = record n { known_hosts = [] }
  drop_hosts_of session (h ∷ hs) n =
      let id = host_id_or_zero lib h in
      let leave = id == session || id_at n.owners id == session in
      let n' = drop_hosts_of session hs (
        if leave
        then record n {
          stats = delete id n.stats;
          host_times = delete id n.host_times;
          owners = delete id n.owners;
        }
        else n) in
      if leave then n' else record n' { known_hosts = h ∷ n'.known_hosts }

  unfoldable pub remove_stats : NodeTable Atom → GnuId → NodeTable Atom
  unfolding drop_stats_of drop_hosts_of drop_owners_of
  remove_stats n session =
      let n1 = record n { stats = drop_stats_of session n.owners (delete session n.stats) } in
      let n2 = drop_hosts_of session n1.known_hosts n1 in
      record n2 { owners = drop_owners_of session n2.owners n2.owners }

  -- `ObserveHost`: a report about a node, delivered by the peer `via`.
  unfoldable pub observe_host : NodeTable Atom → ℕ → Atom → GnuId → NodeTable Atom
  unfolding add_known_host update_stats
  observe_host n now host via = elim (host_session_id lib host) [
    | none ↦ n
    | some id ↦
        let n1 = add_known_host lib n now host in
        let n2 =
          update_stats n1 now id (int_child lib host host_num_listeners)
            (int_child lib host host_num_relays) in
        record n2 { owners = insert id via n2.owners }
  ]

  -- `KnownHosts`: the hosts with a recent report. A host without a time is out of date.
  unfoldable pub is_fresh : NodeTable Atom → ℕ → Atom → Bool
  is_fresh n now h = elim (lookup (host_id_or_zero lib h) n.host_times) [
    | none ↦ false
    | some t ↦ not (expired now t)
  ]

  unfoldable pub fresh_hosts : NodeTable Atom → ℕ → List Atom
  unfolding is_fresh
  fresh_hosts n now = keep (is_fresh n now) n.known_hosts

  -- `relayUnproductive`: the first fresh report about the node says that it can take no relay and
  -- serves none.
  unfoldable pub relay_unproductive : NodeTable Atom → ℕ → GnuId → Bool
  unfolding fresh_hosts
  relay_unproductive n now id = elim (find (λ h. host_id_or_zero lib h == id) (fresh_hosts n now)) [
    | none ↦ false
    | some h ↦
        bit_and (byte_child lib h host_flags1) flag_relay == 0
        && int_child lib h host_num_relays == 0
  ]
