-- ===== src/Output/Tests.antt =====
-- Runs of the output streams at concrete inputs.
use peercast_mi.Base.{
  ℕ, ◌+◌, ◌≡◌, Bool, true, false, refl, ltb, List, [], ◌∷◌, replicate, Option, some, length,
}
use peercast_mi.Pcp.{HeloPacket}
use peercast_mi.Samples.{SampleAtom, helo_atom, sample_library}
use peercast_mi.Content.{Content}
use peercast_mi.Network.{IpLibrary}
use peercast_mi.Output.{Connection, write_atom, on_error}
use peercast_mi.Output.Stream.{StreamCursor, send_packets}
use peercast_mi.Output.Handshake.{
  Wire, response, atom, HandshakeError, Outcome, ready, rejected, Request, Peer, SiteLibrary,
  verdict, send_ok, send_oleh, take_helo, read_helo_atom, handshake, position_of,
}
use peercast_mi.Output.Handshake.Peers.{IsAcceptable, IsReady, responded, handshake-IsReady}
use peercast_mi.Output.Handshake.Refusals.{IsRefused, handshake-answers}
use peercast_mi.Output.Chunks.{IsSplits, due, Ends, last_end, send_packets_lem}

-- A packet that continues another one, and one that starts a stream and is cut in two.
abbrev packets : List Content
packets =
    record { pos = 10; payload = 1 ∷ []; cont_flags = 2; timestamp = 5 }
    ∷ record { pos = 11; payload = replicate 15361 7; cont_flags = 0; timestamp = 6 }
    ∷ []

abbrev starts : Content → Bool
starts p = ltb p.cont_flags 1

abbrev fresh : Connection SampleAtom
fresh = record { sent = []; tries = 0 }

abbrev cursor : StreamCursor
cursor = record { pos = 10; waiting_for_keyframe = true; started = 1 }

send_packets_lem_example :
    (let (c', cur', ok) =
        send_packets sample_library (λ n. ltb n 5) 3 starts fresh cursor packets in
      Ends sample_library
        (λ n. ltb n 5)
        3
        fresh
        (λ ds. IsSplits (due starts true packets) ds × (cur'.pos ≡ last_end 10 packets))
        c'
        ok)
send_packets_lem_example =
    send_packets_lem sample_library (λ n. ltb n 5) 3 starts packets fresh cursor

abbrev net : IpLibrary
net = record { is_unspecified = λ ip. false; to4 = some }

abbrev site : SiteLibrary
site = record { is_private = λ ip. false; is_link_local = λ ip. false }

abbrev helo_of : ℕ → HeloPacket
helo_of session = record {
  agent = "sample";
  session_id = session;
  version = 1218;
  port = 7144;
  ping = 0;
  remote_ip = 0;
}

abbrev request : ℕ → Request SampleAtom
request session = record {
  http = some (some 700);
  helo_atom = some (helo_atom 34 (helo_of session));
  ping_host = false;
  remote = 192 ∷ 0 ∷ 2 ∷ 1 ∷ [];
}

abbrev wire : Connection (Wire SampleAtom)
wire = record { sent = []; tries = 0 }

abbrev nobody : Peer
nobody = record { peer_id = 0; remote_port = 0; peer_agent = ""; peer_version = 0 }

abbrev shaken : ℕ → Connection (Wire SampleAtom) × Peer × Outcome
shaken session =
    handshake sample_library net site length (λ ip. ip) (λ n. true) wire nobody 5 true
      (request session)

shaken-ready : (shaken 9).2 ≡ ready 700
unfolding handshake read_helo_atom take_helo send_oleh send_ok verdict write_atom on_error
shaken-ready = refl

handshake-IsReady_example :
    (header : Option ℕ) × (some (some 700) ≡ some header)
    × IsReady sample_library net site length
        (λ ip. ip)
        (λ n. true)
        (responded sample_library net site length (λ ip. ip) (λ n. true) wire true)
        5
        true
        (request 9)
        (position_of header)
        700
        (shaken 9).0
        (shaken 9).1
handshake-IsReady_example =
    handshake-IsReady sample_library net site length (λ ip. ip) (λ n. true) wire nobody 5 true
      (request 9) 700 shaken-ready

-- A node that connects to itself.
handshake-answers_example :
    (IsAcceptable 5 (helo_of 5) → (shaken 5).2 ≡ ready 700)
    × ((code : ℕ)
        → IsRefused sample_library 5 (helo_of 5) code
        → ((e : HandshakeError) × ((shaken 5).2 ≡ rejected e))
          × ((shaken 5).0.sent
              ≡ response 200 ∷ atom (sample_library.new_int_atom 32 (1000 + code)) ∷ []))
handshake-answers_example =
    handshake-answers sample_library net site length (λ ip. ip) (λ n. true) wire nobody 5 true
      (request 5) (some 700) (helo_atom 34 (helo_of 5)) (helo_of 5) (λ n. refl) refl refl refl refl
