-- ===== src/Content/Delivery.antt =====
-- What the readers of content.go return, in terms of the packets held: `Since` for relays,
-- `PacketsAfter` for players, and the positions reported to other nodes.
use mathlib.Core.List.{append_assoc, append-nil}
use peercast_mi.Base.{
  ℕ, zero, suc, ◌+◌, ◌-◌, ◌≤◌, ◌<◌, ◌≡◌, inl, inr, refl, sym, ap, ◌∙◌, Bool, true, false, not, ◌==◌,
  nat_eq, List, [], ◌∷◌, ◌++◌, arith, length, ltb, Bool-cases, drop_while, All, map, none, some,
  length-append,
}
use peercast_mi.Content.{
  Content, ContentBuffer, slot, start, collect, first_index, scan, since, packets_after, newer,
  pos_before,
}
use peercast_mi.Content.Window.{contents}
use peercast_mi.Content.Stream.{Stream, slide, Update, packet, as_content, apply, apply_all}
use peercast_mi.Content.Refine.{IsValid, view, capacity, update_all, update_all_refines}

module _ (p : Content → Bool) (ps : List Content) (end : ℕ) where
  -- The two loops of a scan, from index `i` on.
  two_loops :
      (i n : ℕ)
      → i + n ≡ end
      → (elim (first_index p ps i n) [ none ↦ [] | some j ↦ collect ps j (end - j) ])
        ≡ drop_while (λ c. not (p c)) (collect ps i n)
  unfolding first_index collect
  two_loops i zero e = refl
  two_loops i (suc n) e = elim (Bool-cases (p (slot ps i))) [
    | inl hit ↦ let left : end - i ≡ suc n = omega arith in rw (hit, first_index, left)
    | inr miss ↦ rw (miss, first_index) (two_loops (suc i) n (omega arith))
  ]

start-le : (b : ContentBuffer) → start b ≤ b.count
start-le b = ground arith

contents-nil : (b : ContentBuffer) → b.count ≡ 0 → contents b ≡ []
unfolding collect
contents-nil b e =
    let none_left : b.count - start b ≡ 0 = omega (arith, e, start-le b) in
    ap (collect b.packets (start b)) none_left

scan_lem :
    (p : Content → Bool) (b : ContentBuffer) → scan p b ≡ drop_while (λ c. not (p c)) (contents b)
unfolding scan
scan_lem p b = elim (Bool-cases (b.count == 0)) [
  | inl nothing ↦ rw nothing (ap (drop_while _) (sym (contents-nil b (ground arith))))
  | inr something ↦ rw something (two_loops p b.packets b.count (start b) _ (ground arith))
]

-- `Since` returns the packets held from the first one on that does not come before `pos`.
pub since_lem :
    (b : ContentBuffer) (pos : ℕ)
    → since b pos ≡ drop_while (λ p. not (not (pos_before p.pos pos))) (contents b)
unfolding since
since_lem b pos = scan_lem _ b

-- The packets of a list, when none of the first part and all of the second part are newer.
drop_while-split :
    (p : Content → Bool) (xs ys : List Content)
    → All (λ x. p x ≡ false) xs
    → All (λ y. p y ≡ true) ys
    → drop_while (λ c. not (p c)) (xs ++ ys) ≡ ys
drop_while-split p [] [] old new = refl
drop_while-split p [] (y ∷ ys) old new = rw (new.0)
drop_while-split p (x ∷ xs) ys old new = rw (old.0) (drop_while-split p xs ys old.1 new)

-- A slide of the window keeps what follows a packet in it, while there is room for that.
slide-keeps :
    (P : Content → Type 0) (size : ℕ) (xs ys : List Content) (e : Content)
    → All P xs
    → length ys < size
    → (xs' : List Content) × All P xs' × (slide size (xs ++ ys) e ≡ xs' ++ (ys ++ e ∷ []))
unfolding slide
slide-keeps P size [] ys e old room = ([], tt, ground arith)
slide-keeps P size (x ∷ xs) ys e old room = elim (Bool-cases (ltb (length ((x ∷ xs) ++ ys)) size)) [
  | inl fits ↦ (x ∷ xs, old, rw fits (append_assoc (x ∷ xs) ys (e ∷ [])))
  | inr full ↦ (xs, old.1, rw full (append_assoc xs ys (e ∷ [])))
]

-- A packet as it comes from the source, with the time of its arrival.
pub record Arrival : Type 0 where
  pub now : ℕ
  pub bytes : List ℕ
  pub pos : ℕ
  pub flags : ℕ

abbrev pub arrive : Arrival → Update
arrive a = packet a.now a.bytes a.pos a.flags

abbrev pub arrived : Arrival → Content
arrived a = as_content a.now a.bytes a.pos a.flags

apply_all-keeps :
    (P : Content → Type 0) (size : ℕ) (news : List Arrival) (s : Stream) (xs ys : List Content)
    → All P xs
    → length ys + length news ≤ size
    → s.held ≡ xs ++ ys
    → (xs' : List Content) × All P xs'
      × ((apply_all size s (map arrive news)).held ≡ xs' ++ (ys ++ map arrived news))
unfolding apply_all apply
apply_all-keeps P size [] s xs ys old room e = (xs, old, e ∙ ap (◌++◌ xs) (sym (append-nil ys)))
apply_all-keeps P size (a ∷ news) s xs ys old room e =
    let (xs', old', slid) = slide-keeps P size xs ys (arrived a) old (omega arith) in
    let (xs'', old'', kept) =
      apply_all-keeps P size news (apply size s (arrive a)) xs' (ys ++ arrived a ∷ []) old'
        (omega (arith, length-append ys (arrived a ∷ [])))
        (ap (λ w. slide size w (arrived a)) e ∙ slid) in
    (xs'', old'', kept ∙ ap (◌++◌ xs'') (append_assoc ys (arrived a ∷ []) (map arrived news)))

-- A scan after `news` packets have been written, for a test that they pass and the packets held
-- before do not.
scan-update_all :
    (p : Content → Bool) (b : ContentBuffer) (news : List Arrival)
    → IsValid b
    → All (λ x. p x ≡ false) (contents b)
    → All (λ y. p y ≡ true) (map arrived news)
    → length news ≤ capacity b
    → scan p (update_all b (map arrive news)) ≡ map arrived news
scan-update_all p b news v old new room =
    let (kept, old', held) =
      apply_all-keeps (λ x. p x ≡ false) (capacity b) news (view b) (contents b) [] old
        (omega arith) (sym (append-nil (contents b))) in
    scan_lem p (update_all b (map arrive news))
    ∙ ap (drop_while _)
        (ap (λ (s : Stream). s.held) (update_all_refines (map arrive news) b v).0 ∙ held)
    ∙ drop_while-split p kept (map arrived news) old' new

-- A player comes back after `news` packets have been written, no more than the ring holds. If no
-- packet held before is newer than the last one that it got, and all of `news` are, it is given
-- exactly `news`, in order: none is lost, repeated or out of place.
pub packets_after-update_all :
    (b : ContentBuffer) (ref : Content) (news : List Arrival)
    → IsValid b
    → All (λ x. newer ref x ≡ false) (contents b)
    → All (λ y. newer ref y ≡ true) (map arrived news)
    → length news ≤ capacity b
    → packets_after (update_all b (map arrive news)) ref ≡ map arrived news
unfolding packets_after
packets_after-update_all b ref news v old new room =
    scan-update_all (newer ref) b news v old new room

-- A relay asks for position `pos` after `news` packets have been written, no more than the ring
-- holds. If all packets held before lie before `pos` and none of `news` does, it is given exactly
-- `news`, in order.
pub since-update_all :
    (b : ContentBuffer) (pos : ℕ) (news : List Arrival)
    → IsValid b
    → All (λ x. not (pos_before x.pos pos) ≡ false) (contents b)
    → All (λ y. not (pos_before y.pos pos) ≡ true) (map arrived news)
    → length news ≤ capacity b
    → since (update_all b (map arrive news)) pos ≡ map arrived news
unfolding since
since-update_all b pos news v old new room = scan-update_all _ b news v old new room
