-- ===== src/Output/Player/Tests.antt =====
-- Runs of the stream to a player at concrete inputs.
use peercast_mi.Base.{
  ℕ, ◌≡◌, ◌⊎◌, inl, Bool, true, false, refl, List, [], ◌∷◌, map, some, arith, ltb, nat_eq,
}
use peercast_mi.Samples.{SampleAtom}
use peercast_mi.Content.{ContentBuffer, Content, blank, collect, pos_before, packets_after}
use peercast_mi.Content.Refine.{IsValid, update_all}
use peercast_mi.Content.Delivery.{Arrival, arrive, arrived}
use peercast_mi.Nodes.Stats.{reset}
use peercast_mi.Channel.{Channel, can_start_content}
use peercast_mi.Output.Chunks.{due}
use peercast_mi.Output.Player.{PlayerState, player_round}
use peercast_mi.Output.Player.Delivery.{Wrote, last_of, player_round-delivers, player_round-header}

abbrev first : Content
first = record { pos = 3; payload = 9 ∷ []; cont_flags = 0; timestamp = 50 }

-- A ring of two slots with a header of two bytes and one packet.
abbrev ring : ContentBuffer
ring = record {
  header = some (8 ∷ 8 ∷ []);
  header_pos = 1;
  packets = first ∷ blank ∷ [];
  count = 1;
  signal = 1;
}

ring-IsValid : IsValid ring
ring-IsValid = inl (omega arith)

-- A packet that cannot start a stream, and one that can.
abbrev news : List Arrival
news =
    record { now = 60; bytes = 7 ∷ []; pos = 4; flags = 2 }
    ∷ record { now = 70; bytes = 6 ∷ []; pos = 5; flags = 0 }
    ∷ []

abbrev channel : ContentBuffer → Channel SampleAtom
channel b = record {
  buffer = b;
  last_received = 0;
  upstream = false;
  outputs = [];
  num_listeners = 0;
  num_relays = 0;
  nodes = reset;
  ban_list = [];
}

abbrev player : PlayerState
player = record {
  conn = record { sent = []; tries = 0 };
  last = first;
  waiting_for_keyframe = true;
}

abbrev three_writes : ℕ → Bool
three_writes n = ltb n 3

player_round-delivers_example :
    (let (s', ok) =
        player_round three_writes (channel (update_all ring (map arrive news))) false player in
      Wrote three_writes player
        (due
          (can_start_content (channel (update_all ring (map arrive news))))
          true
          (map arrived news))
        s'
        ok
      × (ok ≡ true → s'.last ≡ last_of first (map arrived news)))
unfolding collect pos_before
player_round-delivers_example =
    player_round-delivers three_writes (channel (update_all ring (map arrive news))) ring player
      news refl ring-IsValid (refl, tt) (refl, (refl, tt)) (omega arith)

player_round-header_example :
    (let (s', ok) = player_round three_writes (channel ring) true player in
      ((ok ≡ true)
        × (s'.conn.sent
            ≡ (8 ∷ 8 ∷ [])
              ∷ map
                  (λ p. p.payload)
                  (due (can_start_content (channel ring)) true (packets_after ring blank))))
      ⊎ ((ok ≡ false) × (n : ℕ) × (three_writes n ≡ false)))
player_round-header_example = player_round-header three_writes (channel ring) player 8 (8 ∷ []) refl
