-- ===== src/Cleaner/Tests.antt =====
-- A run of the cleaner at concrete inputs.
use peercast_mi.Base.{ℕ, true, false, [], ◌∷◌, Map, All, nat_eq}
use peercast_mi.Pcp.{GnuId}
use peercast_mi.Manager.{Manager, new_manager}
use peercast_mi.Manager.Valid.{IsValid}
use peercast_mi.Manager.Life.{Reach, here, next, relay, Reach-IsValid}
use peercast_mi.Cleaner.{ChannelState, cleanup}
use peercast_mi.Cleaner.Stops.{IsIdleIn, WasIdle, cleanup-stops}

abbrev relaying : (m : Manager) × Reach (new_manager true 4) m
relaying = (_, next here (relay 8 2 3))

abbrev idle_relay : ChannelState
idle_relay = record { id = 8; is_broadcasting = false; num_listeners = 0; num_relays = 0 }

abbrev seen : Map GnuId ℕ
seen = (8, 100) ∷ []

cleanup-stops_example :
    let c = cleanup 60 500 relaying.0 seen (idle_relay ∷ []) in
    IsValid c.manager × All (λ id. IsIdleIn (idle_relay ∷ []) id × WasIdle seen 60 500 id) c.stopped
cleanup-stops_example =
    cleanup-stops 60 500 relaying.0 seen (idle_relay ∷ [])
      (Reach-IsValid true 4 relaying.0 relaying.1)
