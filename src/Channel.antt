-- ===== src/Channel.antt =====
-- internal/channel/channel.go: a channel's output streams, the two counters beside them, relay
-- slots, bans, and the forwarding of broadcast atoms. A call that acts on output streams returns
-- what it did to them as events, in order.
mod Tests
pub mod Outputs
pub mod Slots
pub mod Forward
pub mod Life
use peercast_mi.Base.{
  ℕ, zero, suc, ◌+◌, ◌-◌, ◌*◌, ◌^◌, ◌<◌, bit_and, bit_or, String, Bool, true, false, not, ◌&&◌,
  ◌||◌, ◌==◌, nat_eq, string_eq, ltb, leb, if◌then◌else◌, List, [], ◌∷◌, ◌++◌, map, Option, none,
  some, find, length, get_or, Map, lookup, insert, delete,
}
use peercast_mi.Pcp.{GnuId, PcpLibrary, find_child}
use peercast_mi.Content.{ContentBuffer, Content}
use peercast_mi.Content
use peercast_mi.Nodes.{NodeTable}
use peercast_mi.Nodes.Stats.{totals, reset, relay_unproductive}

pub data OutputStreamType : Type 0 where
  pcp http : OutputStreamType

abbrev pub is_pcp : OutputStreamType → Bool
is_pcp pcp = true
is_pcp http = false

-- An output stream: `ref` is the object's identity, `peer` the remote session of a stream that
-- forwards broadcasts, `firewalled` the answer of one that can be evicted.
pub record OutputStream : Type 0 where
  pub ref : ℕ
  pub kind : OutputStreamType
  pub id : ℕ
  pub remote_addr : String
  pub peer : Option GnuId
  pub firewalled : Option Bool

pub data Event (A : Type 0) : Type 0 where
  notify_header : ℕ → Event A
  notify_info : ℕ → Event A
  notify_track : ℕ → Event A
  close : ℕ → Event A
  evict : ℕ → Event A
  send_bcst : ℕ → A → Event A
  send_upstream : A → Event A

-- `upstream` says that a send queue to the upstream node is installed; `last_received` is in
-- nanoseconds.
pub record Channel (A : Type 0) : Type 0 where
  pub buffer : ContentBuffer
  pub last_received : ℕ
  pub upstream : Bool
  pub outputs : List OutputStream
  pub num_listeners : ℕ
  pub num_relays : ℕ
  pub nodes : NodeTable A
  pub ban_list : Map String ℕ

-- 90 seconds.
abbrev pub relay_ban_duration : ℕ
relay_ban_duration = 90 * 10 ^ 9

-- The loop of `RemoveOutput`: the streams without the first one that is `o`, if there is one.
unfoldable pub remove_first : ℕ → List OutputStream → Option (List OutputStream)
remove_first ref [] = none
remove_first ref (o ∷ os) =
    let rest = remove_first ref os in
    if o.ref == ref then some os else elim rest [ none ↦ none | some os' ↦ some (o ∷ os') ]

module _ {A : Type 0} where
  unfoldable pub add_output : Channel A → OutputStream → Channel A
  add_output c o =
      if is_pcp o.kind
      then record c { outputs = c.outputs ++ o ∷ []; num_relays = c.num_relays + 1 }
      else record c { outputs = c.outputs ++ o ∷ []; num_listeners = c.num_listeners + 1 }

  unfoldable pub is_relay_full : Channel A → ℕ → Bool
  is_relay_full c max_relays = ltb 0 max_relays && leb max_relays c.num_relays

  unfoldable pub is_direct_full : Channel A → ℕ → Bool
  is_direct_full c max_listeners = ltb 0 max_listeners && leb max_listeners c.num_listeners

  unfoldable pub try_add_output : Channel A → OutputStream → ℕ → ℕ → Channel A × Bool
  unfolding add_output
  try_add_output c o max_relays max_listeners =
      if is_pcp o.kind
      then if ltb 0 max_relays && leb max_relays c.num_relays
        then (c, false)
        else (add_output c o, true)
      else if ltb 0 max_listeners && leb max_listeners c.num_listeners
      then (c, false)
      else (add_output c o, true)

  -- A counter goes down only for a stream that was found, so it is not 0 (`Outputs`).
  unfoldable pub remove_output : Channel A → OutputStream → Channel A
  unfolding remove_first
  remove_output c o = elim (remove_first o.ref c.outputs) [
    | none ↦ c
    | some os ↦
        if is_pcp o.kind
        then record c { outputs = os; num_relays = c.num_relays - 1 }
        else record c { outputs = os; num_listeners = c.num_listeners - 1 }
  ]

  unfoldable pub ban : Channel A → String → ℕ → Channel A
  ban c key until = record c { ban_list = insert key until c.ban_list }

  unfoldable pub has_banned : Channel A → ℕ → String → Channel A × Bool
  has_banned c now key = elim (lookup key c.ban_list) [
    | none ↦ (c, false)
    | some until ↦
        if ltb now until then (c, true) else (record c { ban_list = delete key c.ban_list }, false)
  ]

  -- `slot_check` is what the manager's check says of all channels, if this one has a manager.
  unfoldable pub slot_status : Channel A → Option (Bool × Bool) → ℕ → ℕ → Bool × Bool
  unfolding is_relay_full is_direct_full
  slot_status c slot_check max_relays max_listeners = elim slot_check [
    | none ↦ (is_relay_full c max_relays, is_direct_full c max_listeners)
    | some (r, d) ↦ (r || is_relay_full c max_relays, d || is_direct_full c max_listeners)
  ]

  unfoldable pub set_header : Channel A → List ℕ → ℕ → Channel A × List (Event A)
  set_header c bytes pos =
      let (buffer, changed) = Content.set_header c.buffer bytes pos in
      if changed
      then (record c { buffer = buffer }, map (λ o. notify_header o.ref) c.outputs)
      else (record c { buffer = buffer }, [])

  unfoldable pub write : Channel A → ℕ → List ℕ → ℕ → ℕ → Channel A
  write c now bytes pos flags = record c {
    buffer = Content.write c.buffer now bytes pos flags;
    last_received = now;
  }

  unfoldable pub is_receiving : Channel A → ℕ → Bool
  is_receiving c now = not (c.last_received == 0) && ltb (now - c.last_received) (30 * 10 ^ 9)

  unfoldable pub source_disconnected : Channel A → Channel A
  source_disconnected c = record c { last_received = 0 }

  -- A packet that starts a delivery: no continuation, or complete audio under an FLV header
  -- without video.
  unfoldable pub can_start_content : Channel A → Content → Bool
  can_start_content c p =
      let h = Content.header_bytes c.buffer in
      p.cont_flags == 0
      || (p.cont_flags == 4
          && (leb 5 (length h)
              && (get_or h 0 0 == b'F'
                  && (get_or h 1 0 == b'L'
                      && (get_or h 2 0 == b'V' && bit_and (get_or h 4 0) 1 == 0)))))

  unfoldable pub total_listeners : Channel A → ℕ → ℕ
  total_listeners c now = c.num_listeners + (totals c.nodes now).0

  unfoldable pub total_relays : Channel A → ℕ → ℕ
  total_relays c now = c.num_relays + (totals c.nodes now).1

  unfoldable pub close_all : Channel A → Channel A × List (Event A)
  unfolding source_disconnected
  close_all c = (
    record (source_disconnected c) {
      outputs = [];
      num_listeners = 0;
      num_relays = 0;
      nodes = reset;
    },
    map (λ o. close o.ref) c.outputs,
  )

  unfoldable pub close_connection : Channel A → ℕ → List (Event A) × Bool
  close_connection c id = elim (find (λ o. o.id == id) c.outputs) [
    | none ↦ ([], false)
    | some o ↦ (close o.ref ∷ [], true)
  ]

abbrev is_sender : Option OutputStream → Bool
is_sender none = false
is_sender (some f) = true

-- `net.SplitHostPort`, its host if it succeeds, and whether a host is a loopback, private or
-- link-local address, are the standard library's.
module _ (lib : PcpLibrary) (split_host : String → Option String) (is_local : String → Bool) where
  open lib use {Atom}

  -- The tests of the loop in `makeRelayable`: a relay that can be evicted, is not local, and is
  -- firewalled or serves nobody.
  unfoldable pub is_victim : Channel Atom → ℕ → OutputStream → Bool
  is_victim c now o = is_pcp o.kind && (elim o.firewalled [
    | none ↦ false
    | some firewalled ↦
        not (elim (split_host o.remote_addr) [ none ↦ false | some host ↦ is_local host ])
        && (firewalled
            || (elim o.peer [ none ↦ false | some id ↦ relay_unproductive lib c.nodes now id ]))
  ])

  -- Bans the host of a stream, if its address has one.
  unfoldable pub ban_remote : Channel Atom → ℕ → OutputStream → Channel Atom
  ban_remote c now o = elim (split_host o.remote_addr) [
    | none ↦ c
    | some host ↦ ban c host (now + relay_ban_duration)
  ]

  unfoldable pub make_relayable :
      Channel Atom → ℕ → ℕ → Bool → Channel Atom × List (Event Atom) × Bool
  unfolding is_victim
  make_relayable c now max_relays force =
      if not force && (max_relays == 0 || ltb c.num_relays max_relays)
      then (c, [], true)
      else elim (find (is_victim c now) c.outputs) [
        | none ↦ (c, [], false)
        | some victim ↦
            (remove_output (ban_remote c now victim) victim, evict victim.ref ∷ [], true)
      ]

-- The streams that `Broadcast` sends to, given the sender and its session, 0 if it has none.
unfoldable pub is_recipient : Option OutputStream → GnuId → OutputStream → Bool
is_recipient from from_peer o =
    not (elim from [ none ↦ false | some f ↦ o.ref == f.ref ])
    && (is_pcp o.kind
        && (elim o.peer [ none ↦ false | some id ↦ not (not (from_peer == 0) && id == from_peer) ]))

unfoldable pub send_all :
    {A : Type 0} → (OutputStream → Bool) → A → List OutputStream → List (Event A)
send_all p atom [] = []
send_all p atom (o ∷ os) =
    let rest = send_all p atom os in if p o then send_bcst o.ref atom ∷ rest else rest

abbrev pub peer_of : Option OutputStream → GnuId
peer_of none = 0
peer_of (some f) = elim f.peer [ none ↦ 0 | some id ↦ id ]

module _ (lib : PcpLibrary) where
  open lib use {Atom, get_byte, bcst_group, group_relays, group_trackers}

  abbrev pub group_of : Atom → ℕ
  group_of atom = elim (find_child lib atom bcst_group) [ none ↦ 0 | some g ↦ (get_byte g).0 ]

  -- No sender stands for traffic from the upstream node.
  unfoldable pub broadcast : Channel Atom → Option OutputStream → Atom → List (Event Atom)
  unfolding is_recipient send_all
  broadcast c from atom =
      let group = group_of atom in
      let up =
        is_sender from
        && (c.upstream && not (bit_and group (bit_or group_trackers group_relays) == 0)) in
      (if up then send_upstream atom ∷ [] else [])
      ++ (if bit_and group group_relays == 0
          then []
          else send_all (is_recipient from (peer_of from)) atom c.outputs)
