-- ===== src/Listener.antt =====
-- internal/servent/listener.go: which connections are let in. The manager's totals are the relays
-- of the other channels, which do not change while the lock is held, and the answers of the
-- bandwidth check, one for each time that it is asked.
pub mod Admission
pub mod Viewers
pub mod Policy
mod Tests
use peercast_mi.Base.{
  ℕ, zero, suc, ◌+◌, ◌*◌, ◌/◌, String, Bool, true, false, not, ◌&&◌, ◌||◌, ◌==◌, nat_eq, string_eq,
  ltb, leb, if◌then◌else◌, List, [], ◌∷◌, ◌++◌, Option, none, some, length,
}
use peercast_mi.Pcp.{GnuId, PcpLibrary}
use peercast_mi.Channel.{
  Channel, OutputStream, Event, is_pcp, has_banned, make_relayable, try_add_output,
}

-- The limits of the server; 0 is no limit.
pub record Limits : Type 0 where
  pub max_relays_total : ℕ
  pub max_upstream_kbps : ℕ
  pub max_relays : ℕ
  pub max_listeners : ℕ

-- `isUpstreamFull`, for a total rate in bytes per second.
unfoldable pub is_upstream_full : Limits → ℕ → Bool
is_upstream_full l send_rate =
    if l.max_upstream_kbps == 0 then false else leb l.max_upstream_kbps (send_rate * 8 / 1000)

module _ (l : Limits) (other_relays : ℕ) where
  -- The relays of all channels have reached their limit.
  unfoldable pub is_total_full : {A : Type 0} → Channel A → Bool
  is_total_full c = ltb 0 l.max_relays_total && leb l.max_relays_total (other_relays + c.num_relays)

  unfoldable pub try_admit : {A : Type 0} → Channel A → OutputStream → ℕ → Channel A × Bool
  unfolding is_upstream_full is_total_full
  try_admit c o send_rate =
      if is_pcp o.kind && is_total_full c
      then (c, false)
      else if is_upstream_full l send_rate
      then (c, false)
      else try_add_output c o l.max_relays l.max_listeners

  -- The functions of the standard library that `Channel` takes too.
  module _ (lib : PcpLibrary) (split_host : String → Option String) (is_local : String → Bool) where
    open lib use {Atom}

    -- The loop that evicts relays while a global limit is reached, with the rates that it is told;
    -- `none` is an answer that is still out after `fuel` rounds.
    unfoldable pub evict_while_full :
        ℕ → Channel Atom → ℕ → (ℕ → ℕ) → Channel Atom × List (Event Atom) × Option Bool
    unfolding is_upstream_full is_total_full
    evict_while_full zero c now rates = (c, [], none)
    evict_while_full (suc fuel) c now rates =
        let (c', es, evicted) = make_relayable lib split_host is_local c now 0 true in
        let (c'', rest, answer) = evict_while_full fuel c' now (λ n. rates (suc n)) in
        if is_total_full c || is_upstream_full l (rates 0)
        then (if evicted then (c'', es ++ rest, answer) else (c', es, some false))
        else (c, [], some true)

    -- The end of `canAdmitRelay`.
    unfoldable pub make_slot :
        Channel Atom × List (Event Atom) × Option Bool
        → ℕ
        → Channel Atom × List (Event Atom) × Option Bool
    make_slot (c, es, some true) now =
        let (c', es', freed) = make_relayable lib split_host is_local c now l.max_relays false in
        (c', es ++ es', some freed)
    make_slot (c, es, answer) now = (c, es, answer)

    -- `canAdmitRelay`, for the IP of a remote TCP address.
    unfoldable pub can_admit_relay :
        ℕ
        → Channel Atom
        → ℕ
        → (ℕ → ℕ)
        → Option String
        → Channel Atom × List (Event Atom) × Option Bool
    unfolding evict_while_full make_slot
    can_admit_relay fuel c now rates none = make_slot (evict_while_full fuel c now rates) now
    can_admit_relay fuel c now rates (some ip) =
        let (c', banned) = has_banned c now ip in
        if banned then (c', [], some false) else make_slot (evict_while_full fuel c' now rates) now
