-- ===== src/Output/Chunks.antt =====
-- What the atoms that internal/servent/pcp.go sends for packets hold: the bytes of the packets, cut
-- into pieces.
use mathlib.Core.List.{append_assoc, append-nil, map-append}
use peercast_mi.Base.{
  ℕ, zero, suc, ◌+◌, ◌%◌, ◌^◌, ◌≤◌, ◌<◌, ◌≡◌, ◌⊎◌, inl, inr, refl, sym, ap, ◌∙◌, bit_or, Bool, true,
  false, not, List, [], ◌∷◌, ◌++◌, map, arith, Bool-cases, if◌then◌else◌, length, take, drop,
  drop_while, length-append, length-take,
}
use peercast_mi.Pcp.{GnuId, PcpLibrary}
use peercast_mi.Content.{Content}
use peercast_mi.Output.{Connection, write_atom-cases, on_error, on_error-ok, on_error-failed}
use peercast_mi.Output.Stream.{
  StreamCursor, max_content_body_len, send_chunks, send_packets, pkt_atom, end_of,
}

-- A piece of a packet.
pub record Piece : Type 0 where
  pub pos : ℕ
  pub payload : List ℕ
  pub continuation : ℕ

-- The pieces `ds` of `bytes`, none empty and none larger than the limit: the first stands at `pos`
-- with the flags `continuation`, each other one where the one before it ends, with the flags
-- `flags` and the mark of a fragment.
unfoldable pub IsSplit : ℕ → ℕ → ℕ → List ℕ → List Piece → Type 0
IsSplit flags pos continuation bytes [] = bytes ≡ []
IsSplit flags pos continuation bytes (d ∷ ds) =
    (d.pos ≡ pos)
    × (d.continuation ≡ continuation)
    × 0 < length d.payload
    × length d.payload ≤ max_content_body_len
    × (rest : List ℕ) × (bytes ≡ d.payload ++ rest)
    × IsSplit flags ((pos + length d.payload) % 2 ^ 32) (bit_or flags 1) rest ds

-- The pieces of packets, those of each packet together and in order.
unfoldable pub IsSplits : List Content → List Piece → Type 0
IsSplits [] ds = ds ≡ []
IsSplits (p ∷ ps) ds =
    (xs ys : List Piece) × (ds ≡ xs ++ ys)
    × IsSplit p.cont_flags p.pos p.cont_flags p.payload xs
    × IsSplits ps ys

-- The position behind the last packet.
unfoldable pub last_end : ℕ → List Content → ℕ
last_end pos [] = pos
last_end pos (p ∷ ps) = last_end (end_of p) ps

take-drop : (n : ℕ) (xs : List ℕ) → xs ≡ take n xs ++ drop (length (take n xs)) xs
take-drop zero xs = refl
take-drop (suc n) [] = refl
take-drop (suc n) (x ∷ xs) = ap (◌∷◌ x) (take-drop n xs)

-- The packets that a stream sends: none before the first that can start it, if it waits for one.
unfoldable pub due : (Content → Bool) → Bool → List Content → List Content
due can_start waiting ps = if waiting then drop_while (λ p. not (can_start p)) ps else ps

take-nonempty : (b : ℕ) (bytes : List ℕ) → 0 < length (take max_content_body_len (b ∷ bytes))
take-nonempty b bytes = omega (arith, length-take max_content_body_len (b ∷ bytes))

take-small : (bytes : List ℕ) → length (take max_content_body_len bytes) ≤ max_content_body_len
take-small bytes = omega (arith, length-take max_content_body_len bytes)

length-rest :
    (n : ℕ) (xs : List ℕ) → length xs ≡ length (take n xs) + length (drop (length (take n xs)) xs)
length-rest n xs =
    ap length (take-drop n xs) ∙ length-append (take n xs) (drop (length (take n xs)) xs)

module _ (lib : PcpLibrary) (channel_id : GnuId) where
  open lib use {Atom, type_data}

  unfoldable pub atom_of : Piece → Atom
  atom_of d = pkt_atom lib channel_id type_data d.pos d.payload d.continuation

module _ (lib : PcpLibrary) (works : ℕ → Bool) (channel_id : GnuId) where
  open lib use {Atom, type_data}

  -- A sending that began on `c` ended on `c'` with `ok`: it went through and the pieces that
  -- went out satisfy `P`, or a write failed.
  abbrev pub Ends : Connection Atom → (List Piece → Type 0) → Connection Atom → Bool → Type 0
  Ends c P c' ok =
      ((ok ≡ true)
        × (ds : List Piece) × P ds
        × (c'.sent ≡ c.sent ++ map (atom_of lib channel_id) ds))
      ⊎ ((ok ≡ false) × (n : ℕ) × (works n ≡ false))

  pub send_chunks_lem :
      (fuel : ℕ) (c : Connection Atom) (flags pos continuation : ℕ) (bytes : List ℕ)
      → length bytes ≤ fuel
      → Ends c
          (IsSplit flags pos continuation bytes)
          (send_chunks lib works channel_id fuel c flags pos continuation bytes).0
          (send_chunks lib works channel_id fuel c flags pos continuation bytes).1
  unfolding send_chunks IsSplit atom_of
  send_chunks_lem fuel c flags pos continuation [] h = inl (refl, [], refl, sym (append-nil c.sent))
  send_chunks_lem zero c flags pos continuation (b ∷ bytes) h = elim h [ ]
  send_chunks_lem (suc fuel) c flags pos continuation (b ∷ bytes) h =
      let chunk = take max_content_body_len (b ∷ bytes) in
      let rest = drop (length chunk) (b ∷ bytes) in
      let piece : Piece = record { pos = pos; payload = chunk; continuation = continuation } in
      elim (write_atom-cases works c (atom_of lib channel_id piece)) [
        | inr (e, broken) ↦ rw (e, on_error-failed) (inr (refl, c.tries, broken))
        | inl e ↦
            rw (e, on_error-ok)
              (elim (send_chunks_lem fuel
                (record { sent = c.sent ++ atom_of lib channel_id piece ∷ []; tries = c.tries + 1 })
                flags ((pos + length chunk) % 2 ^ 32) (bit_or flags 1) rest
                (omega (
                  arith,
                  h,
                  take-nonempty b bytes,
                  length-rest max_content_body_len (b ∷ bytes),
                ))) [
                  | inr failed ↦ inr failed
                  | inl (ok, ds, split, sent) ↦ inl (
                    ok,
                    piece ∷ ds,
                    (
                      refl,
                      refl,
                      take-nonempty b bytes,
                      take-small (b ∷ bytes),
                      rest,
                      take-drop max_content_body_len (b ∷ bytes),
                      split,
                    ),
                    sent ∙ append_assoc c.sent _ _,
                  )
                ])
      ]

  -- The pieces of a packet before those of others.
  Ends-append :
      (p : Content) (ps : List Content) (E : Type 0) (c c' c'' : Connection Atom) (ds : List Piece)
      (ok : Bool)
      → IsSplit p.cont_flags p.pos p.cont_flags p.payload ds
      → c'.sent ≡ c.sent ++ map (atom_of lib channel_id) ds
      → Ends c' (λ es. IsSplits ps es × E) c'' ok
      → Ends c (λ es. IsSplits (p ∷ ps) es × E) c'' ok
  unfolding IsSplits
  Ends-append p ps E c c' c'' ds ok split e (inr failed) = inr failed
  Ends-append p ps E c c' c'' ds ok split e (inl (fine, es, (splits, q), sent)) = inl (
    fine,
    ds ++ es,
    ((ds, es, refl, split, splits), q),
    sent
        ∙ ap (λ s. s ++ map (atom_of lib channel_id) es) e
        ∙ append_assoc c.sent _ _
        ∙ ap (◌++◌ c.sent) (sym (map-append (atom_of lib channel_id) ds es)),
  )

  abbrev Result : Type 0
  Result = Connection Atom × StreamCursor × Bool

  first_packet :
      (p : Content) (ps : List Content) (c : Connection Atom) (cur : StreamCursor)
      (next : Connection Atom → Result) (pos : ℕ)
      → ((c' : Connection Atom)
          → Ends c' (λ ds. IsSplits ps ds × ((next c').1.pos ≡ pos)) (next c').0 (next c').2)
      → (let (c', cur', ok) =
            on_error
              (send_chunks lib works channel_id
                (length p.payload)
                c
                p.cont_flags
                p.pos
                p.cont_flags
                p.payload)
              (λ c'. (c', cur, false))
              next in
          Ends c (λ ds. IsSplits (p ∷ ps) ds × (cur'.pos ≡ pos)) c' ok)
  unfolding on_error
  first_packet p ps c cur next pos rest =
      let r =
        send_chunks lib works channel_id (length p.payload) c p.cont_flags p.pos p.cont_flags
          p.payload in
      elim (send_chunks_lem (length p.payload) c p.cont_flags p.pos p.cont_flags p.payload
        (omega arith)) [
          | inl (ok, ds, split, sent) ↦ rw ok (
              Ends-append p ps ((next r.0).1.pos ≡ pos) c r.0 (next r.0).0 ds (next r.0).2 split
                sent (rest r.0))
          | inr (failed, n, broken) ↦ rw failed (inr (refl, n, broken))
        ]

  cursor : ℕ → Bool → ℕ → StreamCursor
  cursor pos waiting started = record {
    pos = pos;
    waiting_for_keyframe = waiting;
    started = started;
  }

  send_all_due :
      (can_start : Content → Bool) (ps : List Content) (c : Connection Atom) (pos : ℕ)
      (waiting : Bool) (started : ℕ)
      → (let (c', cur', ok) =
            send_packets lib works channel_id can_start c (cursor pos waiting started) ps in
          Ends c
            (λ ds. IsSplits (due can_start waiting ps) ds × (cur'.pos ≡ last_end pos ps))
            c'
            ok)
  unfolding send_packets due IsSplits cursor last_end
  send_all_due can_start [] c pos true started =
      inl (refl, [], (refl, refl), sym (append-nil c.sent))
  send_all_due can_start [] c pos false started =
      inl (refl, [], (refl, refl), sym (append-nil c.sent))
  send_all_due can_start (p ∷ ps) c pos false started =
      first_packet p ps c _ _ _ (λ c'. send_all_due can_start ps c' (end_of p) false started)
  send_all_due can_start (p ∷ ps) c pos true started = elim (Bool-cases (can_start p)) [
    | inl starts ↦
        rw starts
          (first_packet p ps c _ _ _ (λ c'. send_all_due can_start ps c' (end_of p) false started))
    | inr not_yet ↦ rw not_yet (send_all_due can_start ps c (end_of p) true started)
  ]

  -- Packets are sent from the first on that can start a stream, if the stream waits for one. All
  -- goes out, in pieces that hold exactly the bytes of those packets in order, the stream then stands
  -- behind the last packet, and the sending succeeds; or a write failed, and it fails.
  pub send_packets_lem :
      (can_start : Content → Bool) (ps : List Content) (c : Connection Atom) (cur : StreamCursor)
      → (let (c', cur', ok) = send_packets lib works channel_id can_start c cur ps in
          Ends c
            (λ ds.
              IsSplits (due can_start cur.waiting_for_keyframe ps) ds
              × (cur'.pos ≡ last_end cur.pos ps))
            c'
            ok)
  unfolding cursor
  send_packets_lem can_start ps c cur =
      send_all_due can_start ps c cur.pos cur.waiting_for_keyframe cur.started
