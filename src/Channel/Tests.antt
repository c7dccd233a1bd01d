-- ===== src/Channel/Tests.antt =====
-- Runs of a channel's output streams at concrete inputs.
use peercast_mi.Base.{
  ℕ, ◌≡◌, ◌⊎◌, inl, inr, ◌↔◌, refl, Bool, true, false, ◌==◌, nat_eq, string_eq, String, [], ◌∷◌,
  map, keep, Option, none, some, arith, All, if◌then◌else◌, ltb,
}
use peercast_mi.Samples.{SampleAtom, sample_library, sample_bcst}
use peercast_mi.Content.{new_content_buffer}
use peercast_mi.Nodes.Stats.{reset}
use peercast_mi.Channel.{
  Channel, OutputStream, OutputStreamType, pcp, http, make_relayable, broadcast, is_recipient,
}
use peercast_mi.Channel.Outputs.{IsCounted}
use peercast_mi.Channel.Slots.{
  AreObjects, IsFull, HasSlot, HasNoVictim, HasEvicted, make_relayable_lem,
}
use peercast_mi.Channel.Forward.{IsRecipient, sent_to, sent_up, broadcast_lem}
use peercast_mi.Channel.Life.{IsSound, Reach, Reach-IsSound, admit, make_room, shut, here, next}

abbrev relay_1 : OutputStream
relay_1 = record {
  ref = 1;
  kind = pcp;
  id = 11;
  remote_addr = "192.0.2.1:7144";
  peer = some 101;
  firewalled = some true;
}

abbrev relay_2 : OutputStream
relay_2 = record {
  ref = 2;
  kind = pcp;
  id = 12;
  remote_addr = "192.0.2.2:7144";
  peer = some 102;
  firewalled = some false;
}

abbrev player_3 : OutputStream
player_3 = record {
  ref = 3;
  kind = http;
  id = 13;
  remote_addr = "192.0.2.3:50000";
  peer = none;
  firewalled = none;
}

abbrev three_outputs : Channel SampleAtom
three_outputs = record {
  buffer = new_content_buffer 0;
  last_received = 0;
  upstream = true;
  outputs = relay_1 ∷ relay_2 ∷ player_3 ∷ [];
  num_listeners = 1;
  num_relays = 2;
  nodes = reset;
  ban_list = [];
}

abbrev no_outputs : Channel SampleAtom
no_outputs = record three_outputs { outputs = []; num_listeners = 0; num_relays = 0 }

abbrev host_part : String → Option String
host_part addr = if addr == "192.0.2.1:7144" then some "192.0.2.1" else none

abbrev nowhere : String → Bool
nowhere host = false

abbrev kind_of : ℕ → OutputStreamType
kind_of n = if ltb n 3 then pcp else http

three_outputs-IsCounted : IsCounted three_outputs
three_outputs-IsCounted = record { relays = refl; listeners = refl }

three_outputs-AreObjects : AreObjects three_outputs.outputs
three_outputs-AreObjects = (
  (inr refl, (inr refl, (inl (λ e. omega (arith, e)), tt))),
  (
    (inr refl, (inr refl, (inl (λ e. omega (arith, e)), tt))),
    ((inl (λ e. omega (arith, e)), (inl (λ e. omega (arith, e)), (inr refl, tt))), tt),
  ),
)

three_outputs-IsSound : IsSound kind_of sample_library host_part nowhere 2 1 three_outputs
three_outputs-IsSound = record {
  counted = three_outputs-IsCounted;
  kinds = (refl, (refl, (refl, tt)));
  relays_within = inr (omega arith);
  listeners_within = inr (omega arith);
}

-- The relay that is firewalled makes room, another one takes its slot, and all streams are closed.
abbrev life :
    (c : Channel SampleAtom) × Reach kind_of sample_library host_part nowhere 2 1 three_outputs c
life = (_, next (next (next here (make_room 1000 false)) (admit relay_1 refl)) shut)

Reach-IsSound_example : IsSound kind_of sample_library host_part nowhere 2 1 life.0
Reach-IsSound_example =
    Reach-IsSound kind_of sample_library host_part nowhere 2 1 life.1 three_outputs-IsSound

make_relayable_lem_example :
    let r = make_relayable sample_library host_part nowhere three_outputs 1000 2 false in
    IsCounted r.0
    × (HasSlot sample_library host_part nowhere three_outputs 2 false r
        ⊎ (IsFull 2 three_outputs.num_relays false
            × (HasNoVictim sample_library host_part nowhere three_outputs 1000 r
                ⊎ HasEvicted sample_library host_part nowhere three_outputs 1000 r)))
make_relayable_lem_example =
    make_relayable_lem sample_library host_part nowhere three_outputs 1000 2 false
      three_outputs-IsCounted three_outputs-AreObjects

broadcast_lem_example :
    let chosen = keep (is_recipient (some relay_1) 101) three_outputs.outputs in
    let events = broadcast sample_library three_outputs (some relay_1) sample_bcst in
    (sent_to events ≡ map (λ o. o.ref) chosen)
    × (sent_up events ≡ 1)
    × All (IsRecipient relay_1) chosen
    × ((o : OutputStream) → (is_recipient (some relay_1) 101 o ≡ true) ↔ IsRecipient relay_1 o)
broadcast_lem_example = broadcast_lem sample_library three_outputs relay_1 sample_bcst
