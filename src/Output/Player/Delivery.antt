-- ===== src/Output/Player/Delivery.antt =====
-- What a player is given by internal/servent/http.go.
use mathlib.Core.List.{append_assoc, append-nil}
use peercast_mi.Base.{
  ℕ, ◌+◌, ◌≤◌, ◌≡◌, refl, sym, ap, subst, ◌∙◌, ◌⊎◌, inl, inr, Bool, true, false, List, [], ◌∷◌,
  ◌++◌, map, Bool-cases, length, All,
}
use peercast_mi.Content.{Content, ContentBuffer, blank, header_bytes, packets_after, newer}
use peercast_mi.Content.Window.{contents}
use peercast_mi.Content.Delivery.{Arrival, arrive, arrived, packets_after-update_all}
use peercast_mi.Content.Refine.{IsValid, capacity, update_all}
use peercast_mi.Channel.{Channel, can_start_content}
use peercast_mi.Output.{
  Connection, write_atom, write_atom-cases, on_error, on_error-ok, on_error-failed,
}
use peercast_mi.Output.Chunks.{due}
use peercast_mi.Output.Player.{
  PlayerState, write_packets, write_header_update, after_header, player_round,
}

-- The packet that a list ends with.
pub last_of : Content → List Content → Content
last_of p [] = p
last_of p (q ∷ qs) = last_of q qs

module _ (works : ℕ → Bool) where
  -- The writing that began on `s` ended on `s'` with `ok`: the payloads of `ps` went out, in order,
  -- or a write failed.
  abbrev pub Wrote : PlayerState → List Content → PlayerState → Bool → Type 0
  Wrote s ps s' ok =
      ((ok ≡ true) × (s'.conn.sent ≡ s.conn.sent ++ map (λ p. p.payload) ps))
      ⊎ ((ok ≡ false) × (n : ℕ) × (works n ≡ false))

  state : Connection (List ℕ) → Content → Bool → PlayerState
  state c last waiting = record { conn = c; last = last; waiting_for_keyframe = waiting }

  wrote : Connection (List ℕ) → Content → Connection (List ℕ)
  wrote c p = record { sent = c.sent ++ p.payload ∷ []; tries = c.tries + 1 }

  Wrote-cons :
      (c : Connection (List ℕ)) (p last : Content) (waiting : Bool) (ps : List Content)
      (s' : PlayerState) (ok : Bool)
      → Wrote (state (wrote c p) p false) ps s' ok
      → Wrote (state c last waiting) (p ∷ ps) s' ok
  unfolding state wrote
  Wrote-cons c p last waiting ps s' ok (inl (e, sent)) =
      inl (e, sent ∙ append_assoc c.sent (p.payload ∷ []) _)
  Wrote-cons c p last waiting ps s' ok (inr failed) = inr failed

  -- A packet that is written, and what follows it.
  one_packet :
      (p : Content) (ps : List Content) (c : Connection (List ℕ)) (last : Content) (waiting : Bool)
      (next : Connection (List ℕ) → PlayerState × Bool) (end : Content)
      → (Wrote (state (wrote c p) p false) ps (next (wrote c p)).0 (next (wrote c p)).1
          × ((next (wrote c p)).1 ≡ true → (next (wrote c p)).0.last ≡ end))
      → (let (s', ok) =
            on_error (write_atom works c p.payload) (λ c'. (state c' last false, false)) next in
          Wrote (state c last waiting) (p ∷ ps) s' ok × (ok ≡ true → s'.last ≡ end))
  unfolding wrote
  one_packet p ps c last waiting next end (w, l) = elim (write_atom-cases works c p.payload) [
    | inr (e, broken) ↦ rw (e, on_error-failed) (inr (refl, c.tries, broken), λ h. cc h)
    | inl e ↦
        rw (e, on_error-ok)
          (Wrote-cons c p last waiting ps (next (wrote c p)).0 (next (wrote c p)).1 w, l)
  ]

  write_all_due :
      (can_start : Content → Bool) (ps : List Content) (c : Connection (List ℕ)) (last : Content)
      (waiting : Bool)
      → (let (s', ok) = write_packets works can_start (state c last waiting) ps in
          Wrote (state c last waiting) (due can_start waiting ps) s' ok
          × (ok ≡ true → s'.last ≡ last_of last ps))
  unfolding write_packets due state last_of
  write_all_due can_start [] c last true = (inl (refl, sym (append-nil c.sent)), λ h. refl)
  write_all_due can_start [] c last false = (inl (refl, sym (append-nil c.sent)), λ h. refl)
  write_all_due can_start (p ∷ ps) c last false =
      one_packet p ps c last false _ _ (write_all_due can_start ps (wrote c p) p false)
  write_all_due can_start (p ∷ ps) c last true = elim (Bool-cases (can_start p)) [
    | inl starts ↦
        rw starts (one_packet p ps c last true _ _ (write_all_due can_start ps (wrote c p) p false))
    | inr not_yet ↦ rw not_yet (write_all_due can_start ps c p true)
  ]

  after_header-Wrote :
      {A : Type 0} (ch : Channel A) (s : PlayerState)
      → (let (s', ok) = after_header works ch (s, true) in
          let news = packets_after ch.buffer s.last in
          Wrote s (due (can_start_content ch) s.waiting_for_keyframe news) s' ok
          × (ok ≡ true → s'.last ≡ last_of s.last news))
  unfolding after_header state
  after_header-Wrote ch s =
      write_all_due (can_start_content ch) (packets_after ch.buffer s.last) s.conn s.last
        s.waiting_for_keyframe

  -- A player comes back after `news` packets have been written to the buffer of its channel, no more
  -- than it holds; no packet held before is newer than the last one that the player got, and all of
  -- `news` are. With no notice of a header, the round writes exactly the payloads of `news`, in
  -- order, from the first that can start a stream on if the player waits for one, and stands at the
  -- last of `news`; or a write failed, and the round fails.
  pub player_round-delivers :
      {A : Type 0} (ch : Channel A) (b : ContentBuffer) (s : PlayerState) (news : List Arrival)
      → ch.buffer ≡ update_all b (map arrive news)
      → IsValid b
      → All (λ x. newer s.last x ≡ false) (contents b)
      → All (λ y. newer s.last y ≡ true) (map arrived news)
      → length news ≤ capacity b
      → (let (s', ok) = player_round works ch false s in
          Wrote s (due (can_start_content ch) s.waiting_for_keyframe (map arrived news)) s' ok
          × (ok ≡ true → s'.last ≡ last_of s.last (map arrived news)))
  unfolding player_round
  player_round-delivers ch b s news e v old new room =
      let given : packets_after ch.buffer s.last ≡ map arrived news =
        ap (λ x. packets_after x s.last) e
        ∙ packets_after-update_all b s.last news v old new room in
      let (s', ok) = after_header works ch (s, true) in
      subst
        (λ ps.
          Wrote s (due (can_start_content ch) s.waiting_for_keyframe ps) s' ok
          × (ok ≡ true → s'.last ≡ last_of s.last ps))
        given (after_header-Wrote ch s)

  -- The state behind a header that was written.
  abbrev begun : PlayerState → List ℕ → PlayerState
  begun s header = record {
    conn = record { sent = s.conn.sent ++ header ∷ []; tries = s.conn.tries + 1 };
    last = blank;
    waiting_for_keyframe = true;
  }

  write_header_update-cases :
      (s : PlayerState) (byte : ℕ) (bytes : List ℕ)
      → (write_header_update works s (byte ∷ bytes) ≡ (begun s (byte ∷ bytes), true))
        ⊎ ((s' : PlayerState) × (write_header_update works s (byte ∷ bytes) ≡ (s', false))
            × (n : ℕ) × (works n ≡ false))
  unfolding write_header_update
  write_header_update-cases s byte bytes = elim (write_atom-cases works s.conn (byte ∷ bytes)) [
    | inr (f, broken) ↦ inr (
      record s { conn = record (s.conn) { tries = s.conn.tries + 1 } },
      rw (f, on_error-failed) refl,
      s.conn.tries,
      broken,
    )
    | inl f ↦ inl (rw (f, on_error-ok) refl)
  ]

  -- When the header has changed to one that is not empty, the round writes that header before any
  -- packet, and then the payloads of the packets held from the first on that can start a stream; or a
  -- write failed, and the round fails.
  pub player_round-header :
      {A : Type 0} (ch : Channel A) (s : PlayerState) (byte : ℕ) (bytes : List ℕ)
      → header_bytes ch.buffer ≡ byte ∷ bytes
      → (let (s', ok) = player_round works ch true s in
          ((ok ≡ true)
            × (s'.conn.sent
                ≡ s.conn.sent
                  ++ (byte ∷ bytes)
                    ∷ map
                        (λ p. p.payload)
                        (due (can_start_content ch) true (packets_after ch.buffer blank))))
          ⊎ ((ok ≡ false) × (n : ℕ) × (works n ≡ false)))
  unfolding player_round after_header
  player_round-header ch s byte bytes e = elim (write_header_update-cases s byte bytes) [
    | inr (s', f, n, broken) ↦ rw (e, f) (inr (refl, n, broken))
    | inl f ↦
        rw (e, f)
          (elim (after_header-Wrote ch (begun s (byte ∷ bytes))).0 [
            | inl (ok, sent) ↦ inl (ok, sent ∙ append_assoc s.conn.sent ((byte ∷ bytes) ∷ []) _)
            | inr failed ↦ inr failed
          ])
  ]
