-- ===== src/Nodes/Forget.antt =====
-- What `removeStats` of internal/channel/nodes.go forgets.
use peercast_mi.Base.{
  nat_eq, true, ◌==◌, ◌||◌, List, [], ◌∷◌, none, some, Map, lookup, delete, lookup-delete,
  beq-cases, Bool-cases, ◌≡◌, ◌≢◌, ◌⊎◌, inl, inr, All, arith,
}
use peercast_mi.Pcp.{GnuId, PcpLibrary}
use peercast_mi.Nodes.{NodeTable, NodeStats, id_at}
use peercast_mi.Nodes.Ids.{host_id_or_zero}
use peercast_mi.Nodes.Stats.{leaves, drop_stats_of, drop_hosts_of, remove_stats}

delete_absent :
    (j k : GnuId) (m : Map GnuId NodeStats) → lookup j m ≡ none → lookup j (delete k m) ≡ none
delete_absent j k m h = ground (arith, lookup-delete j k m, h)

drop_stats_of_absent :
    (session id : GnuId) (os : Map GnuId GnuId) (m : Map GnuId NodeStats)
    → lookup id m ≡ none
    → lookup id (drop_stats_of session os m) ≡ none
unfolding drop_stats_of
drop_stats_of_absent session id [] m h = h
drop_stats_of_absent session id ((j, owner) ∷ os) m h =
    elim (Bool-cases (leaves session (j, owner))) [
      | inl e ↦ rw e (drop_stats_of_absent session id os (delete j m) (delete_absent id j m h))
      | inr e ↦ rw e (drop_stats_of_absent session id os m h)
    ]

drop_stats_of_owned :
    (session id : GnuId) (os : Map GnuId GnuId) (m : Map GnuId NodeStats)
    → lookup id os ≡ some session
    → lookup id (drop_stats_of session os m) ≡ none
unfolding drop_stats_of lookup
drop_stats_of_owned session id [] m h = cc h
drop_stats_of_owned session id ((j, owner) ∷ os) m h = elim (beq-cases j id) [
  | inl (t, p) ↦
      let gone : leaves session (j, owner) ≡ true = ground (arith, h, t) in
      let absent : lookup id (delete j m) ≡ none = ground (arith, lookup-delete id j m, t) in
      rw gone (drop_stats_of_absent session id os (delete j m) absent)
  | inr (t, ne) ↦ drop_stats_of_owned session id os _ (ground (arith, h, t))
]

module _ (lib : PcpLibrary) where
  open lib use {Atom}

  -- A table after the entries of a host have been dropped.
  abbrev without : GnuId → NodeTable Atom → NodeTable Atom
  without id n = record n {
    stats = delete id n.stats;
    host_times = delete id n.host_times;
    owners = delete id n.owners;
  }

  drop_hosts_of_absent :
      (session id : GnuId) (hs : List Atom) (n : NodeTable Atom)
      → lookup id n.stats ≡ none
      → lookup id (drop_hosts_of lib session hs n).stats ≡ none
  unfolding drop_hosts_of
  drop_hosts_of_absent session id [] n h = h
  drop_hosts_of_absent session id (x ∷ hs) n h =
      let j = host_id_or_zero lib x in
      elim (Bool-cases (j == session || id_at n.owners j == session)) [
        | inl e ↦
            rw e (drop_hosts_of_absent session id hs (without j n) (delete_absent id j n.stats h))
        | inr e ↦ rw e (drop_hosts_of_absent session id hs n h)
      ]

  drop_hosts_of-known :
      (session : GnuId) (hs : List Atom) (n : NodeTable Atom)
      → All (λ h. host_id_or_zero lib h ≢ session) (drop_hosts_of lib session hs n).known_hosts
  unfolding drop_hosts_of
  drop_hosts_of-known session [] n = tt
  drop_hosts_of-known session (x ∷ hs) n =
      let j = host_id_or_zero lib x in
      elim (Bool-cases (j == session || id_at n.owners j == session)) [
        | inl e ↦ rw e (drop_hosts_of-known session hs (without j n))
        | inr e ↦ rw e (ground (arith, e), drop_hosts_of-known session hs n)
      ]

  -- After `removeStats` of a session, neither that session nor a node whose last report it delivered
  -- has counts, and no host of that session is known.
  pub remove_stats-forgets :
      (n : NodeTable Atom) (session id : GnuId)
      → (id ≡ session) ⊎ (lookup id n.owners ≡ some session)
      → (lookup id (remove_stats lib n session).stats ≡ none)
        × All (λ h. host_id_or_zero lib h ≢ session) (remove_stats lib n session).known_hosts
  unfolding remove_stats
  remove_stats-forgets n session id gone =
      let stats = drop_stats_of session n.owners (delete session n.stats) in
      let absent : lookup id stats ≡ none = elim gone [
        | inl p ↦
            drop_stats_of_absent session id n.owners _
              (ground (arith, lookup-delete id session n.stats, p, beq-cases session id))
        | inr e ↦ drop_stats_of_owned session id n.owners _ e
      ] in
      (
        drop_hosts_of_absent session id n.known_hosts (record n { stats = stats }) absent,
        drop_hosts_of-known session n.known_hosts (record n { stats = stats }),
      )
