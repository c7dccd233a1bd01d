-- ===== src/Content/Report.antt =====
-- The positions that content.go reports to other nodes, in terms of the packets held.
use native.Mathlib.Nat.{mod-eq-sub-mod, zero-mod}
use peercast_mi.Base.{
  ℕ, zero, suc, ◌+◌, ◌-◌, ◌%◌, ◌^◌, ◌<◌, ◌≡◌, inl, inr, refl, ap, ◌∙◌, ◌==◌, nat_eq, List, [], ◌∷◌,
  ◌++◌, arith, length, get_or, Bool-cases, Option, none, some,
}
use peercast_mi.Content.{
  Content, ContentBuffer, blank, slot, start, collect, oldest_pos, newest_pos, content_position,
}
use peercast_mi.Content.Refine.{IsValid}
use peercast_mi.Content.Window.{contents, collect-snoc}

abbrev pub head? : List Content → Option Content
head? [] = none
head? (x ∷ xs) = some x

abbrev pub get_last? : List Content → Option Content
get_last? [] = none
get_last? (x ∷ xs) = elim (get_last? xs) [ none ↦ some x | some y ↦ some y ]

get_last?-snoc : (xs : List Content) (y : Content) → get_last? (xs ++ y ∷ []) ≡ some y
get_last?-snoc [] y = refl
get_last?-snoc (x ∷ xs) y = rw (get_last?-snoc xs y)

get_last?-collect :
    (ps : List Content) (i n : ℕ) → 0 < n → get_last? (collect ps i n) ≡ some (slot ps (i + n - 1))
get_last?-collect ps i zero h = absurd (omega arith)
get_last?-collect ps i (suc n) h =
    let at_end : i + n ≡ i + suc n - 1 = omega arith in
    ap get_last? (collect-snoc ps i n)
    ∙ get_last?-snoc (collect ps i n) (slot ps (i + n))
    ∙ ap (λ k. some (slot ps k)) at_end

head?-collect : (ps : List Content) (i n : ℕ) → 0 < n → head? (collect ps i n) ≡ some (slot ps i)
unfolding collect
head?-collect ps i zero h = absurd (omega arith)
head?-collect ps i (suc n) h = refl

-- The slot that `OldestPos` reads is the one where the scans start.
slot-start :
    (b : ContentBuffer)
    → length b.packets < b.count
    → slot b.packets b.count ≡ slot b.packets (start b)
slot-start b h =
    let hs : start b ≡ b.count - length b.packets = ground arith in
    rw hs (ap (λ k. get_or b.packets k blank) (mod-eq-sub-mod (omega arith)))

-- The newest packet held stands in the slot before `count`.
newest_lem :
    (b : ContentBuffer)
    → IsValid b
    → 0 < b.count
    → get_last? (contents b) ≡ some (slot b.packets (b.count - 1))
newest_lem b v h =
    let some_held : 0 < b.count - start b = ground arith in
    let at_end : start b + (b.count - start b) - 1 ≡ b.count - 1 = ground arith in
    get_last?-collect b.packets (start b) (b.count - start b) some_held
    ∙ ap (λ k. some (slot b.packets k)) at_end

oldest_lem :
    (b : ContentBuffer)
    → IsValid b
    → 0 < b.count
    → head? (contents b) ≡ some (slot b.packets (start b))
oldest_lem b v h = head?-collect b.packets (start b) (b.count - start b) (ground arith)

nothing_held : (b : ContentBuffer) → b.count ≡ 0 → contents b ≡ []
unfolding collect
nothing_held b h =
    let none_left : b.count - start b ≡ 0 = ground arith in
    ap (collect b.packets (start b)) none_left

-- The position of a packet, 0 where there is none.
abbrev pub pos_of : Option Content → ℕ
pos_of none = 0
pos_of (some p) = p.pos

-- The position behind a packet, or behind the header where there is no packet.
abbrev pub end_of : ContentBuffer → List ℕ → Option Content → ℕ
end_of b h none = (b.header_pos + length h) % 2 ^ 32
end_of b h (some p) = (p.pos + length p.payload) % 2 ^ 32

-- A valid buffer reports as its oldest position that of the first packet held and as its newest position
-- that of the last one, each 0 if it holds none.
oldest_newest_pos :
    (b : ContentBuffer)
    → IsValid b
    → (oldest_pos b ≡ pos_of (head? (contents b)))
      × (newest_pos b ≡ pos_of (get_last? (contents b)))
unfolding oldest_pos newest_pos
oldest_newest_pos b v = elim (Bool-cases (b.count == 0)) [
  | inl e ↦ rw (nothing_held b (ground arith)) (ground arith)
  | inr e ↦
      ground (arith, oldest_lem b v, newest_lem b v, slot-start b, zero-mod (length b.packets))
]

-- Of a valid buffer the content position is 0 without a header, else the position behind the last
-- packet held, or behind the header if no packet is held, taken mod 2 ^ 32.
content_position_lem :
    (b : ContentBuffer)
    → IsValid b
    → content_position b
      ≡ (elim b.header [ none ↦ 0 | some h ↦ end_of b h (get_last? (contents b)) ])
unfolding content_position
content_position_lem b v = elim (Bool-cases (b.count == 0)) [
  | inl e ↦ ground (arith, nothing_held b)
  | inr e ↦ ground (arith, newest_lem b v)
]
