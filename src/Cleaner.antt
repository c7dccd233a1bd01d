-- ===== src/Cleaner.antt =====
-- internal/channel/cleaner.go: the removal of relay channels that have been idle for a while. The
-- ticker calls `cleanup`; times and limits are in nanoseconds.
pub mod Stops
mod Tests
use peercast_mi.Base.{
  ℕ, ◌-◌, nat_eq, Bool, true, false, not, ◌&&◌, ◌==◌, ltb, if◌then◌else◌, List, [], ◌∷◌, Option,
  none, some, Map, lookup, insert, delete, keep,
}
use peercast_mi.Pcp.{GnuId}
use peercast_mi.Manager.{Manager, stop_instance, get_by_id}

-- What the cleaner asks of a channel.
pub record ChannelState : Type 0 where
  pub id : GnuId
  pub is_broadcasting : Bool
  pub num_listeners : ℕ
  pub num_relays : ℕ

-- `inactive` says since when a channel has been seen idle; `stopped` are the channels that this
-- cleanup has stopped, latest first.
pub record Cleaner : Type 0 where
  pub manager : Manager
  pub inactive : Map GnuId ℕ
  pub stopped : List GnuId

abbrev pub is_idle : ChannelState → Bool
is_idle ch = ch.num_listeners == 0 && ch.num_relays == 0

-- The first loop of `cleanup`, for one channel.
unfoldable pub visit : ℕ → ℕ → Cleaner → ChannelState → Cleaner
visit limit now c ch =
    if ch.is_broadcasting
    then c
    else if is_idle ch
    then (elim (lookup ch.id c.inactive) [
      | none ↦ record c { inactive = insert ch.id now c.inactive }
      | some first_seen ↦
          if ltb limit (now - first_seen)
          then record {
            manager = (stop_instance c.manager ch.id none).0;
            inactive = delete ch.id c.inactive;
            stopped = ch.id ∷ c.stopped;
          }
          else c
    ])
    else record c { inactive = delete ch.id c.inactive }

unfoldable pub visit_all : ℕ → ℕ → Cleaner → List ChannelState → Cleaner
visit_all limit now c [] = c
visit_all limit now c (ch ∷ chs) = visit_all limit now (visit limit now c ch) chs

-- A channel that the manager still has.
abbrev pub is_known : Manager → GnuId × ℕ → Bool
is_known m (id, first_seen) = elim (get_by_id m id) [ none ↦ false | some ch ↦ true ]

unfoldable pub cleanup : ℕ → ℕ → Manager → Map GnuId ℕ → List ChannelState → Cleaner
unfolding visit_all
cleanup limit now m inactive chs =
    if limit == 0
    then record { manager = m; inactive = inactive; stopped = [] }
    else let c =
        visit_all limit now (record { manager = m; inactive = inactive; stopped = [] }) chs in
      record c { inactive = keep (is_known c.manager) c.inactive }
