-- ===== src/Manager/Tests.antt =====
-- A run of the manager at concrete inputs.
use peercast_mi.Base.{◌≡◌, refl, true, none, lookup, nat_eq}
use peercast_mi.Manager.{Manager, new_manager}
use peercast_mi.Manager.Valid.{IsValid}
use peercast_mi.Manager.Life.{Reach, here, next, start, relay, stop, Reach-IsValid}

unused : lookup 7 (new_manager true 4).stream_key_by_id ≡ none
unfolding lookup
unused = refl

-- A broadcast and a relay start, and the broadcast stops.
abbrev busy : (m : Manager) × Reach (new_manager true 4) m
busy = (
  _,
  next (next (next here (start true "aa1111" 7 1 (λ e. cc e) unused)) (relay 8 2 3)) (stop 7 none),
)

Reach-IsValid_example : IsValid busy.0
Reach-IsValid_example = Reach-IsValid true 4 busy.0 busy.1
