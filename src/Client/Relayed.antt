-- ===== src/Client/Relayed.antt =====
-- What internal/relay/client.go makes of the atoms that internal/servent/pcp.go sends it: the
-- stream of the upstream node, in the buffer of the client's channel.
use mathlib.Core.List.{append_assoc, map-map}
use peercast_mi.Base.{
  ℕ, ◌<◌, ◌≡◌, refl, sym, ap, ap₂, ◌∙◌, ◌⊎◌, inl, inr, Bool, true, false, ◌==◌, nat_eq, List, [],
  ◌∷◌, ◌++◌, map, none, some, arith, length, beq_refl, All,
}
use peercast_mi.Pcp.{GnuId, PcpLibrary, ChanPacket}
use peercast_mi.Content.{Content, ContentBuffer}
use peercast_mi.Content.Delivery.{Arrival, arrive}
use peercast_mi.Content.Refine.{update_all}
use peercast_mi.Channel
use peercast_mi.Channel.{Event}
use peercast_mi.Output.{Connection}
use peercast_mi.Output.Stream.{StreamCursor, send_packets}
use peercast_mi.Output.Chunks.{Piece, atom_of, IsSplit, IsSplits, due, send_packets_lem}
use peercast_mi.Relay.{AddressLibrary}
use peercast_mi.Client.{
  got, State, handle_pkt, handle_packet, handle_chan, body_atom, receive, process_body,
  take_broadcast_id, take_info, take_track, take_pkt,
}

-- What the two sides rely on: a packet that is built can be read back, under its own tag, which is
-- not that of a quit, and the two types of packets differ.
pub record IsReadable (lib : PcpLibrary) : Type 0 where
  pub parse_build : (c : ChanPacket) → lib.parse_chan (lib.build_chan c) ≡ some c
  pub tag_build : (c : ChanPacket) → lib.tag (lib.build_chan c) ≡ lib.chan
  pub chan_tag : lib.tag_eq.beq lib.chan lib.chan ≡ true
  pub chan_ne_quit : lib.tag_eq.beq lib.chan lib.quit ≡ false
  pub data_ne_head : lib.type_data == lib.type_head ≡ false

-- The bytes of packets and of pieces.
abbrev pub stream_bytes : List Content → List ℕ
stream_bytes [] = []
stream_bytes (p ∷ ps) = p.payload ++ stream_bytes ps

abbrev pub piece_bytes : List Piece → List ℕ
piece_bytes [] = []
piece_bytes (d ∷ ds) = d.payload ++ piece_bytes ds

-- A piece that arrives.
abbrev pub as_arrival : ℕ → Piece → Arrival
as_arrival now d = record { now = now; bytes = d.payload; pos = d.pos; flags = d.continuation }

IsSplit-bytes :
    (ds : List Piece) (flags pos continuation : ℕ) (bytes : List ℕ)
    → IsSplit flags pos continuation bytes ds
    → (piece_bytes ds ≡ bytes) × All (λ d. 0 < length d.payload) ds
unfolding IsSplit
IsSplit-bytes [] flags pos continuation bytes e = (sym e, tt)
IsSplit-bytes (d ∷ ds) flags pos continuation bytes (p, c, n, m, rest, e, split) =
    let (b, a) = IsSplit-bytes ds flags _ _ rest split in (ap (◌++◌ d.payload) b ∙ sym e, (n, a))

piece_bytes-append :
    (xs ys : List Piece) → piece_bytes (xs ++ ys) ≡ piece_bytes xs ++ piece_bytes ys
piece_bytes-append [] ys = refl
piece_bytes-append (d ∷ xs) ys =
    ap (◌++◌ d.payload) (piece_bytes-append xs ys) ∙ sym (append_assoc d.payload _ _)

All-append : (P : Piece → Type 0) (xs ys : List Piece) → All P xs → All P ys → All P (xs ++ ys)
All-append P [] ys a b = b
All-append P (x ∷ xs) ys a b = (a.0, All-append P xs ys a.1 b)

IsSplits-bytes :
    (ps : List Content) (ds : List Piece)
    → IsSplits ps ds
    → (piece_bytes ds ≡ stream_bytes ps) × All (λ d. 0 < length d.payload) ds
unfolding IsSplits
IsSplits-bytes [] ds e = (rw e refl, rw e tt)
IsSplits-bytes (p ∷ ps) ds (xs, ys, e, split, splits) =
    let (b, a) = IsSplit-bytes xs p.cont_flags p.pos p.cont_flags p.payload split in
    let (bs, as') = IsSplits-bytes ps ys splits in
    (
      rw e (piece_bytes-append xs ys ∙ ap₂ ◌++◌ b bs),
      rw e (All-append (λ d. 0 < length d.payload) xs ys a as'),
    )

module _ (lib : PcpLibrary) (net : AddressLibrary) (laws : IsReadable lib) (id : GnuId) where
  open lib use {Atom}

  abbrev buffer_of : State lib net → ContentBuffer
  buffer_of s = s.0.channel.buffer

  -- One piece is one packet.
  body_atom-buffer :
      (s : State lib net) (now : ℕ) (d : Piece)
      → 0 < length d.payload
      → buffer_of (body_atom lib net s now (atom_of lib id d))
        ≡ update_all (buffer_of s) (arrive (as_arrival now d) ∷ [])
  unfolding body_atom handle_chan handle_packet take_broadcast_id take_info take_track take_pkt
      handle_pkt atom_of update_all Channel.write
  body_atom-buffer s now d h =
      let some_bytes : length d.payload == 0 ≡ false = ground (arith, h) in
      simp
        (
          laws.tag_build,
          laws.chan_tag,
          laws.parse_build,
          laws.data_ne_head,
          beq_refl lib.type_data,
          some_bytes,
          handle_chan,
        )
        refl

  -- The receive loop, over all pieces of a stream.
  receive-buffer :
      (ds : List Piece) (s : State lib net) (now : ℕ)
      → All (λ d. 0 < length d.payload) ds
      → (let (s', stop) = process_body lib net s (map (λ d. got now (atom_of lib id d)) ds) in
          (buffer_of s' ≡ update_all (buffer_of s) (map (λ d. arrive (as_arrival now d)) ds))
          × (stop ≡ none))
  unfolding process_body receive update_all atom_of
  receive-buffer [] s now a = (refl, refl)
  receive-buffer (d ∷ ds) s now a =
      let (b, e) = receive-buffer ds (body_atom lib net s now (atom_of lib id d)) now a.1 in
      simp (laws.tag_build, laws.chan_ne_quit)
        (
          b
              ∙ ap (λ x. update_all x (map (λ p. arrive (as_arrival now p)) ds))
                  (body_atom-buffer s now d a.0),
          e,
        )

  -- The atoms that a stream sends for packets, from the first that can start it on if it waits for
  -- one, reach a client that reads them as sent. If the sending succeeds, the client's channel has
  -- had written into its buffer exactly their bytes, in order, as packets that are pieces of them,
  -- and the client still receives; if it fails, a write failed.
  pub send_packets-process_body :
      (works : ℕ → Bool) (can_start : Content → Bool) (ps : List Content) (c : Connection Atom)
      (cur : StreamCursor) (s : State lib net) (now : ℕ)
      → c.sent ≡ []
      → (let (c', cur', ok) = send_packets lib works id can_start c cur ps in
          let (s', stop) = process_body lib net s (map (got now) c'.sent) in
          ((ok ≡ true)
            × (news : List Piece) × (piece_bytes news
                ≡ stream_bytes (due can_start cur.waiting_for_keyframe ps))
            × (buffer_of s' ≡ update_all (buffer_of s) (map (λ d. arrive (as_arrival now d)) news))
            × (stop ≡ none))
          ⊎ ((ok ≡ false) × (n : ℕ) × (works n ≡ false)))
  send_packets-process_body works can_start ps c cur s now fresh =
      elim (send_packets_lem lib works id can_start ps c cur) [
        | inr failed ↦ inr failed
        | inl (ok, ds, (splits, end), sent) ↦
            let (bytes, full) =
              IsSplits-bytes (due can_start cur.waiting_for_keyframe ps) ds splits in
            let (b, e) = receive-buffer ds s now full in
            let reads : map (got now) (send_packets lib works id can_start c cur ps).0.sent
                ≡ map (λ d. got now (atom_of lib id d)) ds =
              ap (map (got now)) (sent ∙ ap (λ x. x ++ map (atom_of lib id) ds) fresh)
              ∙ map-map (got now) (atom_of lib id) ds in
            inl (ok, ds, bytes, rw reads b, rw reads e)
      ]
