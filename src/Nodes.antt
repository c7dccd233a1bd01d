-- ===== src/Nodes.antt =====
-- internal/channel/nodes.go and observed_hosts.go: what a channel has learned about other nodes
-- from HOST atoms. Times are nanoseconds; `now` is an argument of each call.
mod Tests
pub mod Ids
pub mod Stats
pub mod Known
pub mod Select
pub mod Forget
use peercast_mi.Base.{
  ℕ, zero, suc, ◌+◌, ◌-◌, ◌*◌, ◌%◌, ◌^◌, ◌<◌, bit_and, Bool, true, false, not, ◌&&◌, ◌||◌, ◌==◌,
  nat_eq, ltb, leb, if◌then◌else◌, List, [], ◌∷◌, ◌++◌, map, Option, none, some, length, keep, find,
  take, drop, Map, lookup, insert, delete,
}
use peercast_mi.Pcp.{GnuId, PcpLibrary, find_child}
use peercast_mi.Network.{atom_ip}
use Ids.{host_session_id, host_id_or_zero, int_child, byte_child}

abbrev pub max_known_hosts : ℕ
max_known_hosts = 32

-- Three minutes.
abbrev pub node_lifetime : ℕ
node_lifetime = 180 * 10 ^ 9

pub record NodeStats : Type 0 where
  pub listeners : ℕ
  pub relays : ℕ
  pub updated : ℕ

-- `known_hosts` is oldest first. A nil map is an empty one.
pub record NodeTable (A : Type 0) : Type 0 where
  pub known_hosts : List A
  pub host_times : Map GnuId ℕ
  pub owners : Map GnuId GnuId
  pub stats : Map GnuId NodeStats

-- `time.Since(t) > nodeLifetime`
abbrev pub expired : ℕ → ℕ → Bool
expired now t = ltb node_lifetime (now - t)

abbrev pub is_old : ℕ → NodeStats → Bool
is_old now s = expired now s.updated

-- The fields that `hostScore` reads in its loop over the children of a HOST atom.
pub record ScoreFields : Type 0 where
  pub ip : ℕ
  pub has_ip : Bool
  pub has_port : Bool
  pub flags : ℕ
  pub relays : ℕ
  pub hops : ℕ

-- `m[k]` on a map of identifiers: the empty one if the key is missing.
abbrev pub id_at : Map GnuId GnuId → GnuId → GnuId
id_at m k = elim (lookup k m) [ none ↦ 0 | some v ↦ v ]

abbrev pub no_fields : ScoreFields
no_fields = record { ip = 0; has_ip = false; has_port = false; flags = 0; relays = 0; hops = 0 }

abbrev is_some {ℓ} : {A : Type ℓ} → Option A → Bool
is_some none = false
is_some (some a) = true

-- `sort.SliceStable` by falling score: a candidate goes behind those with a higher score.
module _ {A : Type 0} where
  unfoldable pub insert_by_score : A × ℕ → List (A × ℕ) → List (A × ℕ)
  insert_by_score c [] = c ∷ []
  insert_by_score c (d ∷ ds) = if ltb c.1 d.1 then d ∷ insert_by_score c ds else c ∷ d ∷ ds

  unfoldable pub sort_by_score : List (A × ℕ) → List (A × ℕ)
  unfolding insert_by_score
  sort_by_score [] = []
  sort_by_score (c ∷ cs) = insert_by_score c (sort_by_score cs)

module _ (lib : PcpLibrary) where
  open lib use {
    Atom, tag_eq, tag, children, get_int, get_byte, host_ip, host_port, host_flags1,
    host_num_relays, host_num_listeners, host_uphost_hops, flag_relay, flag_recv,
  }

  -- The loop over the known hosts that overwrites the one with identifier `sid`, if there is one.
  unfoldable pub replace_host : GnuId → Atom → List Atom → Option (List Atom)
  replace_host sid host [] = none
  replace_host sid host (h ∷ hs) =
      let rest = replace_host sid host hs in
      elim (host_session_id lib h) [
        | none ↦ elim rest [ none ↦ none | some hs' ↦ some (h ∷ hs') ]
        | some id ↦
            if id == sid
            then some (host ∷ hs)
            else elim rest [ none ↦ none | some hs' ↦ some (h ∷ hs') ]
      ]

  -- Makes room for one host: a full cache loses its oldest entry and that entry's time.
  unfoldable pub evict : List Atom → Map GnuId ℕ → List Atom × Map GnuId ℕ
  evict [] times = ([], times)
  evict (h ∷ hs) times =
      if leb max_known_hosts (length (h ∷ hs))
      then (elim (host_session_id lib h) [ none ↦ (hs, times) | some id ↦ (hs, delete id times) ])
      else (h ∷ hs, times)

  -- `addKnownHost`
  unfoldable pub add_known_host : NodeTable Atom → ℕ → Atom → NodeTable Atom
  unfolding replace_host evict
  add_known_host n now host = elim (host_session_id lib host) [
    | none ↦ n
    | some sid ↦
        let times = insert sid now n.host_times in
        elim (replace_host sid host n.known_hosts) [
          | some hosts ↦ record n { known_hosts = hosts; host_times = times }
          | none ↦
              let (hosts, times') = evict n.known_hosts times in
              record n { known_hosts = hosts ++ host ∷ []; host_times = times' }
        ]
  ]

  -- Neither expired nor the requester's own.
  unfoldable pub is_candidate : NodeTable Atom → ℕ → GnuId → Atom → Bool
  is_candidate n now requester h =
      not (elim (lookup (host_id_or_zero lib h) n.host_times) [
        | none ↦ false
        | some t ↦ expired now t
      ])
      && not (elim (host_session_id lib h) [ none ↦ false | some id ↦ id == requester ])

  -- One round of that loop: the `switch` on the child's tag. The first ip child counts.
  unfoldable pub read_child : ScoreFields → Atom → ScoreFields
  read_child f c =
      if tag_eq.beq (tag c) host_ip
      then if f.has_ip then f else record f { ip = (get_int c).0; has_ip = is_some (atom_ip lib c) }
      else if tag_eq.beq (tag c) host_port
      then record f { has_port = true }
      else if tag_eq.beq (tag c) host_flags1
      then record f { flags = (get_byte c).0 }
      else if tag_eq.beq (tag c) host_num_relays
      then record f { relays = (get_int c).0 }
      else if tag_eq.beq (tag c) host_uphost_hops
      then record f { hops = (get_int c).0 }
      else f

  unfoldable pub read_children : ScoreFields → List Atom → ScoreFields
  unfolding read_child
  read_children f [] = f
  read_children f (c ∷ cs) = read_children (read_child f c) cs

  -- `hostScore` without its random part. `relays * 10` is a product of 32-bit numbers.
  unfoldable pub base_score : ℕ → ScoreFields → ℕ
  base_score requester_ip f =
      let has_global = f.has_ip && f.has_port in
      (if has_global then 16000 else 0)
      + (if has_global && (not (requester_ip == 0) && f.ip == requester_ip) then 8000 else 0)
      + (if bit_and f.flags flag_relay == 0 then 0 else 4000)
      + (if bit_and f.flags flag_recv == 0 then 0 else 2000)
      + (if ltb f.hops 10 then (10 - f.hops) * 100 else 0)
      + f.relays * 10 % 2 ^ 32

  -- `hostScore`, in units of 2 ^ -53. The draw is what `rand.Float64` returned, in those units.
  unfoldable pub host_score : Atom → ℕ → ℕ → ℕ
  host_score host requester_ip draw =
      base_score requester_ip (read_children no_fields (children host)) * 2 ^ 53 + draw

  -- The first loop of `selectSourceHosts`; `draws i` is the random number of candidate `i`.
  unfoldable pub candidates :
      NodeTable Atom → ℕ → GnuId → ℕ → (ℕ → ℕ) → ℕ → List Atom → List (Atom × ℕ)
  candidates n now requester requester_ip draws i [] = []
  candidates n now requester requester_ip draws i (h ∷ hs) =
      if is_candidate n now requester h
      then (h, host_score h requester_ip (draws i))
        ∷ candidates n now requester requester_ip draws (suc i) hs
      else candidates n now requester requester_ip draws i hs

  -- `selectSourceHosts`
  unfoldable pub select_source_hosts : NodeTable Atom → ℕ → (ℕ → ℕ) → ℕ → GnuId → ℕ → List Atom
  unfolding candidates sort_by_score
  select_source_hosts n now draws max requester requester_ip =
      if max == 0
      then []
      else map (λ c. c.0)
          (take max (sort_by_score (candidates n now requester requester_ip draws 0 n.known_hosts)))
