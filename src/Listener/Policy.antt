-- ===== src/Listener/Policy.antt =====
-- internal/channel/policy.go: whether a channel has slots left, as it is announced to other nodes.
-- The limits are those that the manager and the listener are both started with.
use peercast_mi.Base.{
  ℕ, ◌+◌, ◌*◌, ◌/◌, ◌≡◌, Bool, not, ◌&&◌, ◌||◌, nat_eq, ltb, leb, if◌then◌else◌, some, arith,
}
use peercast_mi.Channel.{
  Channel, OutputStream, is_pcp, is_relay_full, is_direct_full, slot_status, try_add_output,
  add_output,
}
use peercast_mi.Listener.{Limits, try_admit}

-- The check that a manager gives its channels, with the total rate and the relays of the others.
unfoldable pub slot_check : {A : Type 0} → Limits → ℕ → Channel A → ℕ → Bool × Bool
slot_check l other_relays c send_rate =
    let bandwidth_full =
      ltb 0 l.max_upstream_kbps && leb l.max_upstream_kbps (send_rate * 8 / 1000) in
    let relay_full =
      ltb 0 l.max_relays_total && leb l.max_relays_total (other_relays + c.num_relays) in
    (
      bandwidth_full || (relay_full || is_relay_full c l.max_relays),
      bandwidth_full || is_direct_full c l.max_listeners,
    )

-- A stream is admitted exactly when its channel announces a free slot of its kind.
pub try_admit-slot_status :
    {A : Type 0} (l : Limits) (other : ℕ) (c : Channel A) (o : OutputStream) (send_rate : ℕ)
    → let (relay_full, direct_full) =
        slot_status c (some (slot_check l other c send_rate)) l.max_relays l.max_listeners in
      (try_admit l other c o send_rate).1 ≡ not (if is_pcp o.kind then relay_full else direct_full)
unfolding try_admit slot_check slot_status try_add_output add_output
try_admit-slot_status l other c o send_rate = ground arith
