-- ===== src/Content/Window.antt =====
-- What the ring buffer of content.go holds, as a list: the packets from index `start` to `count`,
-- oldest first; and how a write into a slot shows in it.
use native.Mathlib.Nat.{mod-lt, mod-eq_of_lt, mod-add-mod, mod-eq-sub-mod}
use native.Mathlib.Decide.{dec_lt}
use peercast_mi.Base.{
  ℕ, zero, suc, ◌+◌, ◌-◌, ◌%◌, ◌≤◌, ◌<◌, ◌≡◌, ◌≢◌, refl, sym, ap, ap₂, ◌∙◌, List, [], ◌∷◌, ◌++◌,
  arith, length, set, get_or-set_self, get_or-set_ne, length-set,
}
use peercast_mi.Content.{Content, ContentBuffer, blank, slot, start, collect}

-- The packets that the buffer holds, oldest first.
abbrev pub contents : ContentBuffer → List Content
contents b = collect b.packets (start b) (b.count - start b)

pub length-collect : (ps : List Content) (i n : ℕ) → length (collect ps i n) ≡ n
unfolding collect
length-collect ps i zero = refl
length-collect ps i (suc n) = ap suc (length-collect ps (suc i) n)

-- Fewer than `m` steps on, an index has another slot.
mod-ne : (i d m : ℕ) → 0 < d → d < m → i % m ≢ (i + d) % m
mod-ne i d m hd hm e = elim (dec_lt (i % m + d) m) [
  | yes h ↦ omega (arith, e, mod-add-mod i m d, mod-eq_of_lt h)
  | no h ↦ omega (
    arith,
    e,
    mod-lt i {m = m} (omega arith),
    mod-add-mod i m d,
    mod-eq-sub-mod {n = i % m + d} {m = m} (omega arith),
    mod-eq_of_lt {n = i % m + d - m} {m = m} (omega (arith, mod-lt i {m = m} (omega arith))),
  )
]

pub collect-snoc :
    (ps : List Content) (i n : ℕ) → collect ps i (suc n) ≡ collect ps i n ++ slot ps (i + n) ∷ []
unfolding collect
collect-snoc ps i zero = ap (λ k. slot ps k ∷ []) (omega arith)
collect-snoc ps i (suc n) =
    ap (◌∷◌ (slot ps i))
      (collect-snoc ps (suc i) n ∙ ap (λ k. collect ps (suc i) n ++ slot ps k ∷ []) (omega arith))

module _ (ps : List Content) (c : ℕ) (x : Content) where
  pub slot-set_self : 0 < length ps → slot (set ps (c % length ps) x) c ≡ x
  slot-set_self h =
      rw (length-set ps (c % length ps) x) (get_or-set_self ps (c % length ps) x blank (mod-lt c h))

  slot-set_ne : (i : ℕ) → i < c → c < i + length ps → slot (set ps (c % length ps) x) i ≡ slot ps i
  slot-set_ne i lo hi = rw (length-set ps (c % length ps) x) (
      get_or-set_ne ps (c % length ps) (i % length ps) x blank λ e.
        mod-ne i (c - i) (length ps) (omega arith) (omega arith)
          (sym e ∙ ap (λ k. k % length ps) (omega arith)))

  -- A run of slots that ends before index `c`, less than a round behind it, keeps its packets.
  pub collect-set :
      (i n : ℕ)
      → i + n ≤ c
      → c < i + length ps
      → collect (set ps (c % length ps) x) i n ≡ collect ps i n
  unfolding collect
  collect-set i zero lo hi = refl
  collect-set i (suc n) lo hi =
      ap₂ ◌∷◌ (slot-set_ne i (omega arith) hi) (collect-set (suc i) n (omega arith) (omega arith))
