-- ===== src/Listener/Tests.antt =====
-- Runs of the admission at concrete inputs: the limit of all channels is reached, and a relay that
-- is firewalled is evicted.
use peercast_mi.Base.{
  ℕ, ◌≡◌, ◌⊎◌, inl, inr, refl, Bool, true, false, String, ◌==◌, string_eq, if◌then◌else◌, [], ◌∷◌,
  ◌++◌, Option, none, some, arith, not,
}
use peercast_mi.Samples.{SampleAtom, sample_library}
use peercast_mi.Content.{new_content_buffer}
use peercast_mi.Nodes.Stats.{reset}
use peercast_mi.Channel.{Channel, OutputStream, OutputStreamType, pcp, slot_status}
use peercast_mi.Listener.Policy.{slot_check, try_admit-slot_status}
use peercast_mi.Listener.{Limits, try_admit, is_upstream_full, can_admit_relay}
use peercast_mi.Listener.Admission.{
  HasRoom, HasAnswer, Sound, try_admit_lem, can_admit_relay-HasAnswer,
}

abbrev relay : OutputStream
relay = record {
  ref = 1;
  kind = pcp;
  id = 11;
  remote_addr = "192.0.2.1:7144";
  peer = some 101;
  firewalled = some true;
}

abbrev busy : Channel SampleAtom
busy = record {
  buffer = new_content_buffer 0;
  last_received = 0;
  upstream = true;
  outputs = relay ∷ [];
  num_listeners = 0;
  num_relays = 1;
  nodes = reset;
  ban_list = ("192.0.2.7", 900) ∷ [];
}

abbrev limits : Limits
limits = record { max_relays_total = 3; max_upstream_kbps = 0; max_relays = 2; max_listeners = 0 }

abbrev host_part : String → Option String
host_part addr = if addr == "192.0.2.1:7144" then some "192.0.2.1" else none

abbrev nowhere : String → Bool
nowhere host = false

abbrev kind_of : ℕ → OutputStreamType
kind_of n = pcp

busy-Sound : Sound limits 2 sample_library host_part nowhere kind_of busy
busy-Sound = record {
  counted = record { relays = refl; listeners = refl };
  kinds = (refl, tt);
  relays_within = inr (omega arith);
  listeners_within = inl refl;
}

can_admit_relay-HasAnswer_example : HasAnswer limits 2 sample_library host_part nowhere kind_of (
    can_admit_relay limits 2 sample_library host_part nowhere 2 busy 1000
      (λ n. 0)
      (some "192.0.2.7"))
can_admit_relay-HasAnswer_example =
    can_admit_relay-HasAnswer limits 2 sample_library host_part nowhere kind_of 2 busy 1000 (λ n. 0)
      (some "192.0.2.7") busy-Sound (omega arith)

try_admit_lem_example :
    let (c', admitted) = try_admit limits 1 busy relay 4000 in
    ((admitted ≡ true)
      × (c'.outputs ≡ busy.outputs ++ relay ∷ [])
      × (is_upstream_full limits 4000 ≡ false)
      × HasRoom limits 1 relay c')
    ⊎ ((admitted ≡ false) × (c' ≡ busy))
try_admit_lem_example = try_admit_lem limits 1 busy relay 4000

try_admit-slot_status_example :
    (try_admit limits 1 busy relay 4000).1
    ≡ not
        (slot_status busy
          (some (slot_check limits 1 busy 4000))
          limits.max_relays
          limits.max_listeners).0
try_admit-slot_status_example = try_admit-slot_status limits 1 busy relay 4000
