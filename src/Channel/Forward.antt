-- ===== src/Channel/Forward.antt =====
-- `Broadcast` of internal/channel/channel.go: which streams a broadcast atom is forwarded to.
use peercast_mi.Base.{
  ℕ, suc, ◌≡◌, ◌≢◌, refl, ap, ◌⊎◌, inl, inr, ◌↔◌, Bool, true, not, ◌&&◌, ◌==◌, nat_eq, bit_and,
  bit_or, if◌then◌else◌, List, [], ◌∷◌, map, none, some, All, arith, Bool-cases, keep,
}
use peercast_mi.Pcp.{PcpLibrary}
use peercast_mi.Channel.{
  Channel, OutputStream, Event, send_bcst, send_upstream, is_recipient, send_all, group_of, peer_of,
  broadcast,
}
use peercast_mi.Channel.Outputs.{relay}

-- A relay stream that forwards, is not the sender, and is of another session than the sender's.
abbrev pub IsRecipient : OutputStream → OutputStream → Type 0
IsRecipient f o =
    (o.ref ≢ f.ref)
    × (relay o ≡ true)
    × (o.peer ≢ none)
    × ((peer_of (some f) ≡ 0) ⊎ (o.peer ≢ some (peer_of (some f))))

is_recipient_iff :
    (f o : OutputStream) → (is_recipient (some f) (peer_of (some f)) o ≡ true) ↔ IsRecipient f o
unfolding is_recipient
is_recipient_iff f o = ground arith

module _ {Atom : Type 0} where
  -- The streams that the atom was sent to, in order, and how often it was sent upstream.
  abbrev pub sent_to : List (Event Atom) → List ℕ
  sent_to [] = []
  sent_to (send_bcst ref a ∷ es) = ref ∷ sent_to es
  sent_to (_ ∷ es) = sent_to es

  abbrev pub sent_up : List (Event Atom) → ℕ
  sent_up [] = 0
  sent_up (send_upstream a ∷ es) = suc (sent_up es)
  sent_up (_ ∷ es) = sent_up es

  sent_to-send_all :
      (p : OutputStream → Bool) (atom : Atom) (os : List OutputStream)
      → (sent_to (send_all p atom os) ≡ map (λ o. o.ref) (keep p os))
        × (sent_up (send_all p atom os) ≡ 0)
  unfolding send_all
  sent_to-send_all p atom [] = (refl, refl)
  sent_to-send_all p atom (o ∷ os) =
      let rest = sent_to-send_all p atom os in
      elim (Bool-cases (p o)) [ inl e ↦ rw e (ap (◌∷◌ o.ref) rest.0, rest.1) | inr e ↦ rw e rest ]

keep-All :
    (p : OutputStream → Bool) (P : OutputStream → Type 0) (os : List OutputStream)
    → ((o : OutputStream) → p o ≡ true → P o)
    → All P (keep p os)
keep-All p P [] h = tt
keep-All p P (o ∷ os) h = elim (Bool-cases (p o)) [
  | inl e ↦ rw e (h o e, keep-All p P os h)
  | inr e ↦ rw e (keep-All p P os h)
]

-- A broadcast from a downstream stream goes upstream once if there is an upstream queue and the
-- atom is for trackers or relays, and else not. If it is for relays it goes once to each of the
-- streams that `keep` selects, in order, else to none. The selected streams are exactly those that
-- are relays, forward, are not the sender and are of another session than the sender's, if that is
-- known.
pub broadcast_lem :
    (lib : PcpLibrary) (c : Channel lib.Atom) (f : OutputStream) (atom : lib.Atom)
    → let group = group_of lib atom in
      let chosen = keep (is_recipient (some f) (peer_of (some f))) c.outputs in
      (sent_to (broadcast lib c (some f) atom)
        ≡ (if bit_and group lib.group_relays == 0 then [] else map (λ o. o.ref) chosen))
      × (sent_up (broadcast lib c (some f) atom) ≡ (
          if c.upstream && not (bit_and group (bit_or lib.group_trackers lib.group_relays) == 0)
          then 1
          else 0))
      × All (IsRecipient f) chosen
      × ((o : OutputStream) → (is_recipient (some f) (peer_of (some f)) o ≡ true) ↔ IsRecipient f o)
unfolding broadcast
broadcast_lem lib c f atom =
    let all = sent_to-send_all (is_recipient (some f) (peer_of (some f))) atom c.outputs in
    (
      ground (arith, all.0),
      ground (arith, all.1),
      keep-All _ (IsRecipient f) c.outputs (λ o. (is_recipient_iff f o).0),
      is_recipient_iff f,
    )
