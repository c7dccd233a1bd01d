-- ===== src/Client/Frame.antt =====
-- What a connection of internal/relay/client.go leaves alone: the ignored addresses and the
-- address of the tracker.
use peercast_mi.Base.{
  ℕ, ◌≡◌, refl, ◌∙◌, Bool, true, ◌&&◌, ◌==◌, nat_eq, List, [], ◌∷◌, Option, none, some, arith,
  Option-cases, Bool-cases, inl, inr, ◌≢◌, any,
}
use peercast_mi.Pcp.{PcpLibrary, ChanInfo, ChanTrack, ChanPacket, ChanPktData}
use peercast_mi.Route.{route_bcst}
use peercast_mi.Network.{IpLibrary, parse_helo_atom}
use peercast_mi.Relay.{AddressLibrary}
use peercast_mi.Client.{
  quit_stop, no_reason, Client, Read, Stop, cancelled, broken, got, handle_pkt, handle_packet,
  take_broadcast_id, take_info, take_track, take_pkt, handle_chan, learn, handle_child,
  handle_children, handle_bcst, body_atom, hosts_atom, receive, process_body, process_hosts, State,
}
use peercast_mi.Client.Exchange.{
  Attempt, Outcome, accepted, refused, not_oleh, read_oleh, handshake, relay_body, after_handshake,
  connect_to,
}

module _ {A : Type 0} where
  -- The same ignored addresses and the same tracker.
  unfoldable pub Keeps : Client A → Client A → Type 0
  Keeps c c' = (c'.ignored_nodes ≡ c.ignored_nodes) × (c'.tracker_addr ≡ c.tracker_addr)

  Keeps-refl : (c : Client A) → Keeps c c
  unfolding Keeps
  Keeps-refl c = (refl, refl)

  Keeps-trans : (c c' c'' : Client A) → Keeps c c' → Keeps c' c'' → Keeps c c''
  unfolding Keeps
  Keeps-trans c c' c'' k l = (l.0 ∙ k.0, l.1 ∙ k.1)

module _ (lib : PcpLibrary) (net : AddressLibrary) (ips : IpLibrary) where
  open lib use {Atom, tag_eq, tag, quit}

  handle_pkt-Keeps :
      (s : State lib net) (now : ℕ) (p : ChanPktData) → Keeps s.0 (handle_pkt lib net s now p).0
  unfolding handle_pkt Keeps
  handle_pkt-Keeps s now p = ground arith

  learn-Keeps : (s : State lib net) (now : ℕ) (a : Atom) → Keeps s.0 (learn lib net s now a).0
  unfolding learn Keeps
  learn-Keeps s now a = ground arith

  take_broadcast_id-Keeps :
      (s : State lib net) (id : ℕ) → Keeps s.0 (take_broadcast_id lib net s id).0
  unfolding take_broadcast_id Keeps
  take_broadcast_id-Keeps s id = ground arith

  take_info-Keeps : (s : State lib net) (i : Option ChanInfo) → Keeps s.0 (take_info lib net s i).0
  unfolding take_info Keeps
  take_info-Keeps s none = (refl, refl)
  take_info-Keeps s (some i) = (refl, refl)

  take_track-Keeps :
      (s : State lib net) (t : Option ChanTrack) → Keeps s.0 (take_track lib net s t).0
  unfolding take_track Keeps
  take_track-Keeps s none = (refl, refl)
  take_track-Keeps s (some t) = (refl, refl)

  take_pkt-Keeps :
      (s : State lib net) (now : ℕ) (p : Option ChanPktData)
      → Keeps s.0 (take_pkt lib net s now p).0
  unfolding take_pkt
  take_pkt-Keeps s now none = Keeps-refl s.0
  take_pkt-Keeps s now (some p) = handle_pkt-Keeps s now p

  handle_packet-Keeps :
      (s : State lib net) (now : ℕ) (p : ChanPacket) → Keeps s.0 (handle_packet lib net s now p).0
  unfolding handle_packet Keeps
  handle_packet-Keeps s now p =
      let s1 = take_broadcast_id lib net s p.broadcast_id in
      let s2 = take_info lib net s1 p.info in
      let s3 = take_track lib net s2 p.track in
      ground (
        arith,
        take_broadcast_id-Keeps s p.broadcast_id,
        take_info-Keeps s1 p.info,
        take_track-Keeps s2 p.track,
        take_pkt-Keeps s3 now p.pkt,
      )

  handle_chan-Keeps :
      (s : State lib net) (now : ℕ) (a : Atom) → Keeps s.0 (handle_chan lib net s now a).0
  unfolding handle_chan
  handle_chan-Keeps s now a = elim (Option-cases (lib.parse_chan a)) [
    | inl e ↦ rw (e, handle_chan) (Keeps-refl s.0)
    | inr (p, e) ↦ rw (e, handle_chan) (handle_packet-Keeps s now p)
  ]

  handle_child-Keeps :
      (s : State lib net) (now : ℕ) (a : Atom) → Keeps s.0 (handle_child lib net s now a).0
  unfolding handle_child
  handle_child-Keeps s now a =
      ground (arith, Keeps-refl s.0, learn-Keeps s now a, handle_chan-Keeps s now a)

  handle_children-Keeps :
      (s : State lib net) (now : ℕ) (xs : List Atom)
      → Keeps s.0 (handle_children lib net s now xs).0
  unfolding handle_children
  handle_children-Keeps s now [] = Keeps-refl s.0
  handle_children-Keeps s now (a ∷ xs) =
      Keeps-trans s.0 _ _ (handle_child-Keeps s now a)
        (handle_children-Keeps (handle_child lib net s now a) now xs)

  handle_bcst-Keeps :
      (s : State lib net) (now : ℕ) (a : Atom) → Keeps s.0 (handle_bcst lib net s now a).0
  unfolding handle_bcst
  handle_bcst-Keeps s now a =
      elim (Bool-cases (route_bcst lib (some a) s.0.session_id s.0.channel_id).0) [
        | inl e ↦ rw e (handle_children-Keeps _ now (lib.children a))
        | inr e ↦ rw e (Keeps-refl s.0)
      ]

  body_atom-Keeps :
      (s : State lib net) (now : ℕ) (a : Atom) → Keeps s.0 (body_atom lib net s now a).0
  unfolding body_atom
  body_atom-Keeps s now a = ground (
    arith,
    Keeps-refl s.0,
    learn-Keeps s now a,
    handle_chan-Keeps s now a,
    handle_bcst-Keeps s now a,
  )

  hosts_atom-Keeps :
      (s : State lib net) (now : ℕ) (a : Atom) → Keeps s.0 (hosts_atom lib net s now a).0
  unfolding hosts_atom
  hosts_atom-Keeps s now a = ground (arith, Keeps-refl s.0, learn-Keeps s now a)

  receive-Keeps :
      (handle : State lib net → ℕ → Atom → State lib net) (s : State lib net)
      (reads : List (Read Atom))
      → ((s' : State lib net) (now : ℕ) (a : Atom) → Keeps s'.0 (handle s' now a).0)
      → Keeps s.0 (receive lib net handle s reads).0.0
  unfolding receive
  receive-Keeps handle s [] k = Keeps-refl s.0
  receive-Keeps handle s (cancelled ∷ reads) k = Keeps-refl s.0
  receive-Keeps handle s (broken ∷ reads) k = Keeps-refl s.0
  receive-Keeps handle s (got now a ∷ reads) k = elim (Bool-cases (tag_eq.beq (tag a) quit)) [
    | inl e ↦ rw e (Keeps-refl s.0)
    | inr e ↦ rw e (Keeps-trans s.0 _ _ (k s now a) (receive-Keeps handle (handle s now a) reads k))
  ]

  read_oleh-Keeps :
      (c : Client Atom) (a : Attempt Atom) (status : ℕ)
      → Keeps c (read_oleh lib net ips c a status).0
  unfolding read_oleh Keeps
  read_oleh-Keeps c a status = ground arith

  handshake-Keeps : (c : Client Atom) (a : Attempt Atom) → Keeps c (handshake lib net ips c a).0
  unfolding handshake Keeps
  handshake-Keeps c a = ground arith

  relay_body-Keeps :
      (c : Client Atom) (reads : List (Read Atom)) → Keeps c (relay_body lib net ips c reads).0.0
  unfolding relay_body process_body Keeps
  relay_body-Keeps c reads =
      let queued = record c { channel = record (c.channel) { upstream = true } } in
      let k = receive-Keeps (body_atom lib net) (queued, []) reads body_atom-Keeps in
      ground (arith, k)

  after_handshake-Keeps :
      (c : Client Atom) (o : Outcome) (reads : List (Read Atom))
      → Keeps c (after_handshake lib net ips (c, o) reads).0.0
  unfolding after_handshake process_hosts
  after_handshake-Keeps c (refused stop) reads = Keeps-refl c
  after_handshake-Keeps c (accepted status) reads = elim (Bool-cases (status == 503)) [
    | inl e ↦ rw e (receive-Keeps (hosts_atom lib net) (c, []) reads hosts_atom-Keeps)
    | inr e ↦ rw e (relay_body-Keeps c reads)
  ]

  pub connect_to-Keeps :
      (c : Client Atom) (a : Attempt Atom) → Keeps c (connect_to lib net ips c a).0.0
  unfolding connect_to
  connect_to-Keeps c a = elim (Bool-cases a.dialled) [
    | inl e ↦ simp e (
        let r = handshake lib net ips c a in
        Keeps-trans c r.0 _ (handshake-Keeps c a) (after_handshake-Keeps r.0 r.1 a.reads))
    | inr e ↦ rw e (Keeps-refl c)
  ]

  -- A connection that ended for a reason.
  abbrev pub Ended : Option Stop → Type 0
  Ended none = ⊥
  Ended (some e) = e.reason ≢ no_reason

  quit_stop-Ended : (a : Atom) → Ended (some (quit_stop lib net a))
  unfolding quit_stop
  quit_stop-Ended a = ground arith

  -- A handshake that went through, or stopped for a reason.
  abbrev Refusal : Outcome → Type 0
  Refusal (accepted status) = Unit {0}
  Refusal (refused stop) = stop.reason ≢ no_reason

  not_oleh-Ended : (a : Atom) → (not_oleh lib net ips a).reason ≢ no_reason
  unfolding not_oleh
  not_oleh-Ended a = ground arith

  read_oleh-Refusal :
      (c : Client Atom) (a : Attempt Atom) (status : ℕ)
      → Refusal (read_oleh lib net ips c a status).1
  unfolding read_oleh
  read_oleh-Refusal c a status = elim (Option-cases a.oleh) [
    | inl e ↦ rw e (λ p. cc p)
    | inr (atom, e) ↦ elim (Bool-cases (tag_eq.beq (tag atom) lib.oleh)) [
      | inr f ↦ rw (e, f) (not_oleh-Ended atom)
      | inl f ↦ elim (Option-cases (parse_helo_atom ips lib net.ipv4_to_uint32 atom)) [
        | inl g ↦ rw (e, f, g) (λ p. cc p)
        | inr (peer, g) ↦ rw (e, f, g) tt
      ]
    ]
  ]

  handshake-Refusal : (c : Client Atom) (a : Attempt Atom) → Refusal (handshake lib net ips c a).1
  unfolding handshake
  handshake-Refusal c a = elim (Bool-cases (a.get_written && a.helo_written)) [
    | inr e ↦ simp e (λ p. cc p)
    | inl e ↦ elim (Option-cases a.status) [
      | inl f ↦ simp (e, f) (λ p. cc p)
      | inr (status, f) ↦ elim (Bool-cases (status == 200)) [
        | inl g ↦ simp (e, f, g) (read_oleh-Refusal c a status)
        | inr g ↦ elim (Bool-cases (status == 503)) [
          | inl k ↦ simp (e, f, g, k) (read_oleh-Refusal c a status)
          | inr k ↦ simp (e, f, g, k) (λ p. cc p)
        ]
      ]
    ]
  ]

  -- What is read makes a receive loop end.
  unfoldable pub is_end : Read Atom → Bool
  is_end cancelled = true
  is_end broken = true
  is_end (got now a) = tag_eq.beq (tag a) quit

  receive-ends :
      (handle : State lib net → ℕ → Atom → State lib net) (s : State lib net)
      (reads : List (Read Atom))
      → any is_end reads ≡ true
      → Ended (receive lib net handle s reads).1
  unfolding receive is_end
  receive-ends handle s [] h = cc h
  receive-ends handle s (cancelled ∷ reads) h = λ p. cc p
  receive-ends handle s (broken ∷ reads) h = λ p. cc p
  receive-ends handle s (got now a ∷ reads) h = elim (Bool-cases (tag_eq.beq (tag a) quit)) [
    | inl e ↦ rw e (quit_stop-Ended a)
    | inr e ↦ rw e (receive-ends handle (handle s now a) reads (ground (arith, e, h)))
  ]

  relay_body-ends :
      (c : Client Atom) (reads : List (Read Atom))
      → any is_end reads ≡ true
      → Ended (relay_body lib net ips c reads).1
  unfolding relay_body process_body
  relay_body-ends c reads h =
      let queued = record c { channel = record (c.channel) { upstream = true } } in
      let k = receive-ends (body_atom lib net) (queued, []) reads h in ground (arith, k)

  after_handshake-ends :
      (c : Client Atom) (o : Outcome) (reads : List (Read Atom))
      → Refusal o
      → any is_end reads ≡ true
      → Ended (after_handshake lib net ips (c, o) reads).1
  unfolding after_handshake process_hosts
  after_handshake-ends c (refused stop) reads r h = r
  after_handshake-ends c (accepted status) reads r h = elim (Bool-cases (status == 503)) [
    | inl e ↦ rw e (receive-ends (hosts_atom lib net) (c, []) reads h)
    | inr e ↦ rw e (relay_body-ends c reads h)
  ]

  -- A connection on which the reads end, or that fails before them, ends.
  pub connect_to-ends :
      (c : Client Atom) (a : Attempt Atom)
      → any is_end a.reads ≡ true
      → Ended (connect_to lib net ips c a).1
  unfolding connect_to
  connect_to-ends c a h = elim (Bool-cases a.dialled) [
    | inl e ↦ simp e (
        let r = handshake lib net ips c a in
        after_handshake-ends r.0 r.1 a.reads (handshake-Refusal c a) h)
    | inr e ↦ rw e (λ p. cc p)
  ]
