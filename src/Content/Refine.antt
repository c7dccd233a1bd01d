-- ===== src/Content/Refine.antt =====
-- The ring buffer of content.go keeps exactly the window that `Stream` describes.
use native.Mathlib.Decide.{dec_lt}
use peercast_mi.Base.{
  ℕ, zero, suc, ◌+◌, ◌-◌, ◌%◌, ◌<◌, ◌≡◌, refl, sym, ap, ap₂, ◌∙◌, not, List, [], ◌∷◌, ◌++◌, arith,
  length, set, length-set, if◌then◌else◌, inl, inr, ◌⊎◌, length-replicate, ◌==◌, nat_eq, none,
}
use peercast_mi.Content.{
  Content, ContentBuffer, blank, start, collect, set_header, write, allocated, new_content_buffer,
}
use peercast_mi.Content.Window.{contents, length-collect, collect-snoc, collect-set, slot-set_self}
use peercast_mi.Content.Stream.{
  Stream, slide, Update, head, packet, as_content, apply, apply_all, same_header,
}

-- A buffer with no slots has written nothing.
abbrev pub IsValid : ContentBuffer → Type 0
IsValid b = (0 < length b.packets) ⊎ (b.count ≡ 0)

abbrev pub view : ContentBuffer → Stream
view b = record { header = b.header; header_pos = b.header_pos; held = contents b }

abbrev pub capacity : ContentBuffer → ℕ
capacity b = length (allocated b)

module _ (ps : List Content) (x : Content) (h : 0 < length ps) where
  -- A write at index `c` adds its packet behind any run of slots that ends there.
  ring_append :
      (i n c : ℕ)
      → i + n ≡ c
      → n < length ps
      → collect (set ps (c % length ps) x) i (suc n) ≡ collect ps i n ++ x ∷ []
  ring_append i n c e lo =
      collect-snoc (set ps (c % length ps) x) i n
      ∙ ap₂ (λ xs y. xs ++ y ∷ []) (collect-set ps c x i n (omega arith) (omega arith))
          (rw e (slot-set_self ps c x h))

  -- The slots from `c - length ps` to `c`, before and after the write at index `c`.
  ring_slide :
      (c : ℕ)
      → collect (set ps (c % length ps) x) (c + 1 - length ps) (c + 1 - (c + 1 - length ps))
        ≡ slide (length ps) (collect ps (c - length ps) (c - (c - length ps))) x
  unfolding slide collect
  ring_slide c = elim (dec_lt c (length ps)) [
    | yes lo ↦
        let i0 : c + 1 - length ps ≡ 0 = omega arith in
        let n0 : c + 1 - (c + 1 - length ps) ≡ suc c = omega arith in
        let i1 : c - length ps ≡ 0 = omega arith in
        let n1 : c - (c - length ps) ≡ c = omega arith in
        rw (n0, n1, i0, i1)
          (ground (arith, ring_append 0 c c (omega arith) lo, length-collect ps 0 c))
    | no hi ↦
        let m = length ps - 1 in
        let i1 : c + 1 - length ps ≡ suc (c - length ps) = omega arith in
        let n0 : c + 1 - (c + 1 - length ps) ≡ suc m = omega arith in
        let n1 : c - (c - length ps) ≡ suc m = omega arith in
        rw (n0, n1, i1)
          (ground (
            arith,
            ring_append (suc (c - length ps)) m c (omega arith) (omega arith),
            length-collect ps (suc (c - length ps)) m,
          ))
  ]

-- The scans start `length packets` behind `count`, or at 0.
start-eq : (b : ContentBuffer) → start b ≡ b.count - length b.packets
start-eq b = ground arith

capacity-pos : (ps : List Content) (b : ContentBuffer) → b.packets ≡ ps → 0 < capacity b
capacity-pos [] b e = rw e (omega arith)
capacity-pos (p ∷ ps) b e = rw e (omega arith)

contents-eq :
    (b : ContentBuffer)
    → contents b
      ≡ collect b.packets (b.count - length b.packets) (b.count - (b.count - length b.packets))
contents-eq b = rw (start-eq b) refl

-- The packets are read in the allocated ring as in the buffer's own.
contents-allocated :
    (ps : List Content) (b : ContentBuffer)
    → b.packets ≡ ps
    → IsValid b
    → contents (record b { packets = allocated b }) ≡ contents b
unfolding collect
contents-allocated [] b e (inl h) = absurd (omega (arith, ap length e))
contents-allocated [] b e (inr none_written) = rw (none_written, e)
contents-allocated (p ∷ ps) b e v = rw e refl

-- A write slides the window by the packet written, whatever the ring held.
contents-write :
    (b : ContentBuffer) (now : ℕ) (bytes : List ℕ) (pos flags : ℕ)
    → IsValid b
    → contents (write b now bytes pos flags)
      ≡ slide (capacity b) (contents b) (as_content now bytes pos flags)
unfolding write
contents-write b now bytes pos flags v =
    contents-eq (write b now bytes pos flags)
    ∙ rw (length-set (allocated b) (b.count % capacity b) entry)
        (ring_slide (allocated b) entry (capacity-pos b.packets b refl) b.count)
    ∙ ap (λ w. slide (capacity b) w entry)
        (sym (contents-eq (record b { packets = allocated b }))
          ∙ contents-allocated b.packets b refl v)
  where
    entry : Content
    entry = as_content now bytes pos flags

write-nonempty :
    (b : ContentBuffer) (now : ℕ) (bytes : List ℕ) (pos flags : ℕ)
    → 0 < length (write b now bytes pos flags).packets
unfolding write
write-nonempty b now bytes pos flags =
    rw (length-set (allocated b) (b.count % capacity b) (as_content now bytes pos flags))
      (capacity-pos b.packets b refl)

allocated-id :
    (ps : List Content) (b : ContentBuffer)
    → b.packets ≡ ps
    → 0 < length b.packets
    → capacity b ≡ length b.packets
allocated-id [] b e h = absurd (omega (arith, ap length e))
allocated-id (p ∷ ps) b e h = rw e

capacity-write :
    (b : ContentBuffer) (now : ℕ) (bytes : List ℕ) (pos flags : ℕ)
    → capacity (write b now bytes pos flags) ≡ capacity b
unfolding write
capacity-write b now bytes pos flags =
    allocated-id _ (write b now bytes pos flags) refl (write-nonempty b now bytes pos flags)
    ∙ length-set (allocated b) _ _

-- The update as content.go makes it.
abbrev pub update : ContentBuffer → Update → ContentBuffer
update b (head bytes pos) = (set_header b bytes pos).0
update b (packet now bytes pos flags) = write b now bytes pos flags

unfoldable pub update_all : ContentBuffer → List Update → ContentBuffer
update_all b [] = b
update_all b (u ∷ us) = update_all (update b u) us

-- `SetHeader` empties the window, unless position and bytes are those that it has: then it changes
-- nothing. It reports which.
pub set_header_refines :
    (b : ContentBuffer) (bytes : List ℕ) (pos : ℕ)
    → (view (set_header b bytes pos).0 ≡ apply (capacity b) (view b) (head bytes pos))
      × ((set_header b bytes pos).1 ≡ not (same_header (view b) bytes pos))
unfolding set_header apply collect
set_header_refines b bytes pos = ground arith

update-IsValid : (b : ContentBuffer) (u : Update) → IsValid b → IsValid (update b u)
unfolding set_header
update-IsValid b (head bytes pos) v = ground arith
update-IsValid b (packet now bytes pos flags) v = inl (write-nonempty b now bytes pos flags)

capacity-update : (b : ContentBuffer) (u : Update) → capacity (update b u) ≡ capacity b
unfolding set_header
capacity-update b (head bytes pos) = ground arith
capacity-update b (packet now bytes pos flags) = capacity-write b now bytes pos flags

update_refines :
    (b : ContentBuffer) (u : Update) → IsValid b → view (update b u) ≡ apply (capacity b) (view b) u
unfolding write apply
update_refines b (head bytes pos) v = (set_header_refines b bytes pos).0
update_refines b (packet now bytes pos flags) v =
    ap (λ w. record (view b) { held = w }) (contents-write b now bytes pos flags v)

-- After any sequence of header changes and packets, a valid buffer shows what the bounded window
-- shows after the same sequence, and it is still valid.
pub update_all_refines :
    (us : List Update) (b : ContentBuffer)
    → IsValid b
    → (view (update_all b us) ≡ apply_all (capacity b) (view b) us) × IsValid (update_all b us)
unfolding update_all apply_all
update_all_refines [] b v = (refl, v)
update_all_refines (u ∷ us) b v =
    let rest = update_all_refines us (update b u) (update-IsValid b u v) in
    (
      rest.0 ∙ ap₂ (λ size s. apply_all size s us) (capacity-update b u) (update_refines b u v),
      rest.1,
    )

-- A fresh buffer has the capacity asked for, or 64 if none is, and holds nothing.
view-new_content_buffer :
    (size : ℕ)
    → (view (new_content_buffer size) ≡ record { header = none; header_pos = 0; held = [] })
      × (capacity (new_content_buffer size) ≡ (if size == 0 then 64 else size))
      × IsValid (new_content_buffer size)
unfolding new_content_buffer collect
view-new_content_buffer zero = (refl, refl, inr refl)
view-new_content_buffer (suc n) = ground (arith, length-replicate n blank)
