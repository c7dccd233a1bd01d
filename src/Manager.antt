-- ===== src/Manager.antt =====
-- internal/channel/manager.go: the active channels of a node, by identifier and by stream key, and
-- the relay clients that feed some of them. A channel and a relay client are named by the identity
-- of their objects. What a call does to those objects is a list of actions, in order.
pub mod Valid
pub mod Life
mod Tests
use peercast_mi.Base.{
  ℕ, String, string_eq, nat_eq, Bool, true, false, not, ◌&&◌, ◌==◌, ltb, leb, if◌then◌else◌, List,
  [], ◌∷◌, ◌++◌, map, Option, none, some, Map, lookup, insert, delete, length, ◌+◌,
}
use peercast_mi.Pcp.{GnuId}

-- `has_factory` says that `NewRelay` is set.
pub record Manager : Type 0 where
  pub has_factory : Bool
  pub max_relay_channels : ℕ
  pub global_ip : ℕ
  pub by_id : Map GnuId ℕ
  pub by_stream_key : Map String ℕ
  pub stream_key_by_id : Map GnuId String
  pub relays : Map GnuId ℕ

pub data Action : Type 0 where
  stop_relay : ℕ → Action
  run_relay : ℕ → Action
  close_channel : ℕ → Action
  set_relay_ip : ℕ → ℕ → Action

abbrev pub new_manager : Bool → ℕ → Manager
new_manager has_factory max_relay_channels = record {
  has_factory = has_factory;
  max_relay_channels = max_relay_channels;
  global_ip = 0;
  by_id = [];
  by_stream_key = [];
  stream_key_by_id = [];
  relays = [];
}

pub data BroadcastResult : Type 0 where
  not_issued already_active started : BroadcastResult

-- The channel in the three maps of `BroadcastWithAudit`.
unfoldable pub register : Manager → String → GnuId → ℕ → Manager
register m key id ch = record m {
  by_id = insert id ch m.by_id;
  by_stream_key = insert key ch m.by_stream_key;
  stream_key_by_id = insert id key m.stream_key_by_id;
}

-- `BroadcastWithAudit` with the answer of the stream key store, the channel identifier computed from
-- the key and the info, and the channel that is made.
unfoldable pub broadcast : Manager → Bool → String → GnuId → ℕ → Manager × BroadcastResult
broadcast m is_issued key id ch =
    if not is_issued then (m, not_issued) else (elim (lookup key m.by_stream_key) [
      | some active ↦ (m, already_active)
      | none ↦ (register m key id ch, started)
    ])

-- A key that a Go map does not have reads as the empty string.
abbrev pub key_or_empty : Manager → GnuId → String
key_or_empty m id = elim (lookup id m.stream_key_by_id) [ none ↦ "" | some key ↦ key ]

-- The channel out of all four maps.
unfoldable pub deregister : Manager → GnuId → Manager
deregister m id = record m {
  by_stream_key = delete (key_or_empty m id) m.by_stream_key;
  by_id = delete id m.by_id;
  stream_key_by_id = delete id m.stream_key_by_id;
  relays = delete id m.relays;
}

abbrev pub is_expected : Option ℕ → ℕ → Bool
is_expected none ch = true
is_expected (some e) ch = e == ch

-- `stopInstance`; a nil channel is `none`.
unfoldable pub stop_instance : Manager → GnuId → Option ℕ → Manager × List Action × Bool
unfolding deregister
stop_instance m id expected = elim (lookup id m.by_id) [
  | none ↦ (m, [], false)
  | some ch ↦
      if is_expected expected ch
      then (
        deregister m id,
        (elim (lookup id m.relays) [
          | none ↦ close_channel ch ∷ []
          | some r ↦ stop_relay r ∷ close_channel ch ∷ []
        ]),
        true,
      )
      else (m, [], false)
]

unfoldable pub stop_all : Manager → Manager × List Action
stop_all m = (
  record m { by_id = []; by_stream_key = []; stream_key_by_id = []; relays = [] },
  map (λ entry. stop_relay entry.1) m.relays ++ map (λ entry. close_channel entry.1) m.by_id,
)

unfoldable pub add_relay_channel : Manager → GnuId → ℕ → ℕ → Manager
add_relay_channel m id ch r = record m {
  by_id = insert id ch m.by_id;
  relays = insert id r m.relays;
}

pub data RelayResult : Type 0 where
  no_factory limit_reached : RelayResult
  active_channel new_channel : ℕ → RelayResult

-- `StartRelay` with the channel and the relay client that are made.
unfoldable pub start_relay : Manager → GnuId → ℕ → ℕ → Manager × List Action × RelayResult
unfolding add_relay_channel
start_relay m id ch r =
    if not m.has_factory then (m, [], no_factory) else (elim (lookup id m.by_id) [
      | some active ↦ (m, [], active_channel active)
      | none ↦
          if ltb 0 m.max_relay_channels && leb m.max_relay_channels (length m.relays)
          then (m, [], limit_reached)
          else (
            add_relay_channel m id ch r,
            set_relay_ip r m.global_ip ∷ run_relay r ∷ [],
            new_channel ch,
          )
    ])

unfoldable pub get_by_stream_key : Manager → String → Option ℕ
get_by_stream_key m key = lookup key m.by_stream_key

unfoldable pub get_by_id : Manager → GnuId → Option ℕ
get_by_id m id = lookup id m.by_id

unfoldable pub stream_key_of : Manager → GnuId → Option String
stream_key_of m id = lookup id m.stream_key_by_id

unfoldable pub list_channels : Manager → List ℕ
list_channels m = map (λ entry. entry.1) m.by_id

unfoldable pub set_global_ip : Manager → ℕ → Manager × List Action
set_global_ip m ip = (record m { global_ip = ip }, map (λ entry. set_relay_ip entry.1 ip) m.relays)

-- The sum of a count over the channels.
unfoldable pub total_relays : (ℕ → ℕ) → List ℕ → ℕ
total_relays num_relays [] = 0
total_relays num_relays (ch ∷ chs) = num_relays ch + total_relays num_relays chs
