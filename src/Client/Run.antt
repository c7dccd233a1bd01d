-- ===== src/Client/Run.antt =====
-- `Run` of internal/relay/client.go, and reconnect.go: the hosts that a client tries, one after the
-- other, until it gives up.
pub mod Hosts
pub mod GivesUp
use peercast_mi.Base.{
  ℕ, Bool, true, false, not, ◌&&◌, ◌||◌, ◌==◌, string_eq, if◌then◌else◌, List, [], ◌∷◌, ◌++◌, map,
  Option, none, some, String,
}
use peercast_mi.Pcp.{PcpLibrary, GnuId}
use peercast_mi.Network.{IpLibrary}
use peercast_mi.Channel.{Event, close_all}
use peercast_mi.Relay.{AddressLibrary, SourceNode, list_sources}
use peercast_mi.Relay.Ignored.{IgnoredNodeCollection, add, contains}
use peercast_mi.Relay.Choice.{Scores, Search, search_all, select_source_host}
use peercast_mi.Client.{Client, StopReason, no_reason, failed, unavailable, off_air, Stop}
use peercast_mi.Client.Exchange.{Attempt, connect_to}

-- `connectionCancel` is whether a connection is under way, whose context `Reconnect` then cancels.
pub record Bump : Type 0 where
  pub stopped : Bool
  pub pending : Bool
  pub connecting : Bool
  pub cancelled : Bool

unfoldable pub reconnect : Bump → Bump
reconnect b =
    if b.stopped then b else record b { pending = true; cancelled = b.cancelled || b.connecting }

-- What a round of the loop meets: whether the context of the client is done, the clock and the
-- random numbers of the choice, the connection, whether `Reconnect` asked for another one before it
-- ended, and the clock at its end.
pub record Round (A Random : Type 0) : Type 0 where
  pub cancelled : Bool
  pub now : ℕ
  pub draw : SourceNode → Random
  pub attempt : Attempt A
  pub bumped : Bool
  pub end : ℕ

-- The loop goes on, waits in a connection that does not end, or `Run` returned.
pub data Status : Type 0 where
  going waiting returned : Status

-- `dialled` has the addresses that were tried, the last one first.
pub record RunState (A : Type 0) : Type 0 where
  pub client : Client A
  pub events : List (Event A)
  pub dialled : List String

module _ {A : Type 0} where
  unfoldable pub ignore : Client A → ℕ → String → Client A
  ignore c now addr = record c { ignored_nodes = add c.ignored_nodes now addr }

  -- What follows a connection that ended, with whether the loop goes on.
  unfoldable pub judge : Client A → ℕ → String → Bool → StopReason → Client A × Bool
  unfolding ignore
  judge c now addr bumped reason =
      if bumped
      then (if addr == c.tracker_addr then (c, true) else (ignore c now addr, true))
      else elim reason [
        | no_reason ↦ (c, true)
        | unavailable ↦ (ignore c now addr, true)
        | _ ↦ if addr == c.tracker_addr then (c, false) else (ignore c now addr, true)
      ]

  -- `Run` closes all outputs when it returns.
  unfoldable pub finish : RunState A → RunState A
  finish s =
      let (ch, es) = close_all s.client.channel in
      record s { client = record (s.client) { channel = ch }; events = s.events ++ es }

  -- The next round, if the loop goes on.
  unfoldable pub go_on :
      RunState A × Status → (RunState A → RunState A × Status) → RunState A × Status
  go_on (s, going) next = next s
  go_on (s, waiting) next = (s, waiting)
  go_on (s, returned) next = (s, returned)

module _ (lib : PcpLibrary) (net : AddressLibrary) (ips : IpLibrary) (floats : Scores) where
  open lib use {Atom}
  open floats use {Random, lowest}

  abbrev pub candidates : Client Atom → ℕ → (SourceNode → Random) → List (SourceNode × Random)
  candidates c now draw = map (λ (id, n). (n, draw n)) (list_sources c.source_nodes now)

  -- The ignored addresses after the choice, which drops those that are over.
  unfoldable pub still_ignored : Client Atom → ℕ → (SourceNode → Random) → IgnoredNodeCollection
  still_ignored c now draw =
      let s =
        search_all floats now c.global_ip
          (record { ignored = c.ignored_nodes; best_addr = ""; best_score = lowest })
          (candidates c now draw) in
      if s.best_addr == "" && not (c.tracker_addr == "")
      then (contains s.ignored now c.tracker_addr).0
      else s.ignored

  -- The loop goes on, or `Run` returns.
  unfoldable pub conclude : RunState Atom → Client Atom × Bool → RunState Atom × Status
  unfolding finish
  conclude s (c, true) = (record s { client = c }, going)
  conclude s (c, false) = (finish (record s { client = c }), returned)

  -- What follows a connection.
  unfoldable pub settle :
      RunState Atom
      → Round Atom Random
      → String
      → (Client Atom × List (Event Atom)) × Option Stop
      → RunState Atom × Status
  unfolding judge conclude
  settle s r addr ((c, es), none) =
      (record { client = c; events = s.events ++ es; dialled = addr ∷ s.dialled }, waiting)
  settle s r addr ((c, es), some e) =
      conclude (record { client = c; events = s.events ++ es; dialled = addr ∷ s.dialled })
        (judge c r.end addr r.bumped e.reason)

  -- The rest of a round, from the address that was chosen on.
  unfoldable pub try_host : RunState Atom → Round Atom Random → String → RunState Atom × Status
  unfolding settle
  try_host s r addr = settle s r addr (connect_to lib net ips s.client r.attempt)

  unfoldable pub run_round : RunState Atom → Round Atom Random → RunState Atom × Status
  unfolding try_host still_ignored
  run_round s r =
      let c = s.client in
      let addr =
        select_source_host floats r.now c.global_ip (candidates c r.now r.draw) c.ignored_nodes
          c.tracker_addr in
      let asked = record s { client = record c { ignored_nodes = still_ignored c r.now r.draw } } in
      if r.cancelled
      then (finish s, returned)
      else if addr == ""
      then (finish asked, returned)
      else try_host asked r addr

  -- The loop; with no round left it still goes on.
  unfoldable pub run : RunState Atom → List (Round Atom Random) → RunState Atom × Status
  unfolding run_round
  run s [] = (s, going)
  run s (r ∷ rs) = go_on (run_round s r) (λ s'. run s' rs)
