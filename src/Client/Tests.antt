-- ===== src/Client/Tests.antt =====
-- Runs of the client of an upstream node at concrete inputs.
use peercast_mi.Base.{
  ℕ, ◌+◌, ◌≡◌, ◌⊎◌, Bool, true, false, refl, ltb, List, [], ◌∷◌, map, none, some, arith, length,
  All, nat_eq, string_eq, lookup, insert,
}
use peercast_mi.Samples.{SampleAtom, sample_library}
use peercast_mi.Content.{Content, new_content_buffer}
use peercast_mi.Content.Refine.{update_all}
use peercast_mi.Content.Delivery.{arrive}
use peercast_mi.Nodes.Stats.{reset}
use peercast_mi.Network.{IpLibrary}
use peercast_mi.Info.{ChannelInfo}
use peercast_mi.Relay.{AddressLibrary, SourceNode, blank_node, list_sources}
use peercast_mi.Relay.Ignored.{new_ignored_node_collection, add, contains}
use peercast_mi.Relay.Choice.{Scores, select_source_host, connect_addr, score_of}
use peercast_mi.Relay.Choice.Best.{IsOrder}
use peercast_mi.Output.{Connection}
use peercast_mi.Output.Stream.{StreamCursor, send_packets}
use peercast_mi.Output.Chunks.{Piece, due}
use peercast_mi.Client.{Client, broken, got, process_body}
use peercast_mi.Client.Exchange.{Attempt, connect_to}
use peercast_mi.Client.Relayed.{
  IsReadable, piece_bytes, stream_bytes, as_arrival, send_packets-process_body,
}
use peercast_mi.Client.Frame.{is_end}
use peercast_mi.Client.Run.{Round, RunState, returned, going, run, go_on}
use peercast_mi.Client.Run.Hosts.{IsDistinct, IsTried, IsPlain}
use peercast_mi.Client.Run.GivesUp.{has, run-IsDistinct, run-returns}

abbrev sample_addresses : AddressLibrary
sample_addresses = record {
  is_unspecified = λ ip. false;
  is_loopback = λ ip. false;
  join_host_port = λ ip port. "host";
  ipv4_to_uint32 = length;
}

abbrev sample_ips : IpLibrary
sample_ips = record { is_unspecified = λ ip. false; to4 = some }

sample_library-IsReadable : IsReadable sample_library
sample_library-IsReadable = record {
  parse_build = λ c. refl;
  tag_build = λ c. refl;
  chan_tag = refl;
  chan_ne_quit = refl;
  data_ne_head = refl;
}

abbrev no_info : ChannelInfo
no_info = record {
  name = "";
  url = "";
  desc = "";
  comment = "";
  genre = "";
  kind = "";
  mime_type = "";
  ext = "";
  bitrate = 0;
}

-- A client with a source beside the tracker.
abbrev near : SourceNode
near = record blank_node { session_id = 4; global_addr = "10.0.0.1:7144"; updated_at = 100 }

abbrev client : Client SampleAtom
client = record {
  tracker_addr = "10.0.0.9:7144";
  channel_id = 3;
  session_id = 2;
  channel = record {
    buffer = new_content_buffer 4;
    last_received = 0;
    upstream = false;
    outputs = [];
    num_listeners = 0;
    num_relays = 0;
    nodes = reset;
    ban_list = [];
  };
  metadata = record {
    broadcast_id = 0;
    info = no_info;
    track = record { title = ""; creator = ""; url = ""; album = "" };
  };
  network = none;
  upstream_node = (0, 0, 0);
  upstream_addr = "";
  source_nodes = (4, near) ∷ [];
  ignored_nodes = new_ignored_node_collection;
  global_ip = 0;
}

abbrev packets : List Content
packets =
    record { pos = 10; payload = 1 ∷ 2 ∷ []; cont_flags = 2; timestamp = 5 }
    ∷ record { pos = 12; payload = 3 ∷ 4 ∷ []; cont_flags = 0; timestamp = 6 }
    ∷ []

abbrev starts : Content → Bool
starts p = ltb p.cont_flags 1

abbrev fresh : Connection SampleAtom
fresh = record { sent = []; tries = 0 }

abbrev cursor : StreamCursor
cursor = record { pos = 10; waiting_for_keyframe = true; started = 1 }

send_packets-process_body_example :
    (let (c', cur', ok) = send_packets sample_library (λ n. true) 3 starts fresh cursor packets in
      let (s', stop) =
        process_body sample_library sample_addresses (client, []) (map (got 200) c'.sent) in
      ((ok ≡ true)
        × (news : List Piece) × (piece_bytes news ≡ stream_bytes (due starts true packets))
        × (s'.0.channel.buffer
            ≡ update_all (client.channel.buffer) (map (λ d. arrive (as_arrival 200 d)) news))
        × (stop ≡ none))
      ⊎ ((ok ≡ false) × (n : ℕ) × (true ≡ false)))
send_packets-process_body_example =
    send_packets-process_body sample_library sample_addresses sample_library-IsReadable 3
      (λ n. true) starts packets fresh cursor (client, []) 200 refl

-- Scores as numbers that are one too high, so that the lowest is 0.
abbrev scores : Scores
scores = record {
  Score = ℕ;
  Random = ℕ;
  score = λ base draw bonus. base + bonus + 1;
  above = λ a b. ltb b a;
  lowest = 0;
}

scores-IsOrder : IsOrder scores
scores-IsOrder = record {
  irreflexive = λ x. ground arith;
  transitive = λ x y z a b. ground arith;
  positive = λ base bonus draw. ground arith;
}

-- A dial that fails.
abbrev attempt : Attempt SampleAtom
attempt = record {
  dialled = false;
  get_written = false;
  helo_written = false;
  status = none;
  oleh = none;
  remote_ip = 0;
  remote_port = 0;
  remote_addr = "";
  reads = broken ∷ [];
}

abbrev round : ℕ → Round SampleAtom ℕ
round now = record {
  cancelled = false;
  now = now;
  draw = λ n. 1;
  attempt = attempt;
  bumped = false;
  end = now + 1;
}

abbrev rounds : List (Round SampleAtom ℕ)
rounds = round 200 ∷ round 300 ∷ round 400 ∷ []

abbrev begin : RunState SampleAtom
begin = record { client = client; events = []; dialled = [] }

rounds-ArePlain :
    All
      (IsPlain sample_library sample_addresses sample_ips scores 150
        (150 + begin.client.ignored_nodes.threshold))
      rounds
unfolding IsPlain is_end
rounds-ArePlain = (
  (omega arith, omega arith, refl, refl),
  ((omega arith, omega arith, refl, refl), ((omega arith, omega arith, refl, refl), tt)),
)

begin-IsTried : IsTried 150 begin
unfolding IsTried IsDistinct
begin-IsTried = (tt, tt)

-- The source is tried first, then the tracker.
both_known :
    All
      (λ a. has ("10.0.0.9:7144" ∷ "10.0.0.1:7144" ∷ []) a ≡ true)
      (run sample_library sample_addresses sample_ips scores begin rounds).0.dialled
unfolding run go_on select_source_host list_sources connect_addr contains lookup score_of connect_to
    add insert
both_known = (refl, (refl, tt))

run-IsDistinct_example :
    (let (s', status) = run sample_library sample_addresses sample_ips scores begin rounds in
      IsDistinct s'.dialled × ((status ≡ returned) ⊎ ((status ≡ going) × (length s'.dialled ≡ 3))))
run-IsDistinct_example =
    run-IsDistinct sample_library sample_addresses sample_ips scores 150 rounds begin scores-IsOrder
      begin-IsTried rounds-ArePlain

run-returns_example :
    (run sample_library sample_addresses sample_ips scores begin rounds).1 ≡ returned
run-returns_example =
    run-returns sample_library sample_addresses sample_ips scores 150 rounds begin
      ("10.0.0.9:7144" ∷ "10.0.0.1:7144" ∷ []) scores-IsOrder refl rounds-ArePlain both_known
      (omega arith)
