-- ===== src/Cleaner/Stops.antt =====
-- Which channels the cleaner stops.
use mathlib.Core.List.{append_assoc, append-nil}
use peercast_mi.Base.{
  sym, subst, ap, ◌∙◌, ◌++◌, ℕ, ◌-◌, ◌<◌, nat_eq, true, false, ◌==◌, ltb, List, [], ◌∷◌, none, some,
  Map, lookup, insert, delete, ◌≡◌, ◌⊎◌, inl, inr, refl, arith, Bool-cases, Option-cases, beq-cases,
  lookup-insert, lookup-delete, All,
}
use peercast_mi.Pcp.{GnuId}
use peercast_mi.Manager.{Manager}
use peercast_mi.Manager.Valid.{IsValid, stop_instance-IsValid}
use peercast_mi.Cleaner.{ChannelState, Cleaner, visit, visit_all, cleanup, is_idle}

-- A channel of a list that is a relay without listeners and relays.
abbrev pub IsIdleIn : List ChannelState → GnuId → Type 0
IsIdleIn [] id = ⊥
IsIdleIn (ch ∷ chs) id =
    ((ch.id ≡ id) × (ch.is_broadcasting ≡ false) × (ch.num_listeners ≡ 0) × (ch.num_relays ≡ 0))
    ⊎ IsIdleIn chs id

-- A channel that was seen idle more than the limit ago.
abbrev pub WasIdle : Map GnuId ℕ → ℕ → ℕ → GnuId → Type 0
WasIdle inactive limit now id =
    (first_seen : ℕ) × (lookup id inactive ≡ some first_seen) × (limit < now - first_seen)

-- Entries are the old ones, or made now.
abbrev IsFrom : Map GnuId ℕ → ℕ → Map GnuId ℕ → Type 0
IsFrom old now new =
    (id : GnuId) (t : ℕ) → lookup id new ≡ some t → (t ≡ now) ⊎ (lookup id old ≡ some t)

-- What one channel can add to those stopped.
abbrev Added : Map GnuId ℕ → ℕ → ℕ → Cleaner → ChannelState → Cleaner → Type 0
Added old limit now c ch d =
    (d.stopped ≡ c.stopped)
    ⊎ ((d.stopped ≡ ch.id ∷ c.stopped)
        × WasIdle old limit now ch.id
        × (ch.is_broadcasting ≡ false)
        × (ch.num_listeners ≡ 0)
        × (ch.num_relays ≡ 0))

insert-IsFrom :
    (old m : Map GnuId ℕ) (now : ℕ) (k : GnuId) → IsFrom old now m → IsFrom old now (insert k now m)
insert-IsFrom old m now k from id t h =
    ground (arith, lookup-insert id k now m, from id t, beq-cases k id, h)

delete-IsFrom :
    (old m : Map GnuId ℕ) (now : ℕ) (k : GnuId) → IsFrom old now m → IsFrom old now (delete k m)
delete-IsFrom old m now k from id t h =
    ground (arith, lookup-delete id k m, from id t, beq-cases k id, h)

-- An entry that is older than the limit was there before.
old_entry :
    (old m : Map GnuId ℕ) (limit now : ℕ) (id : GnuId) (t : ℕ)
    → IsFrom old now m
    → lookup id m ≡ some t
    → ltb limit (now - t) ≡ true
    → WasIdle old limit now id
old_entry old m limit now id t from e over = elim (from id t e) [
  | inl p ↦ absurd (ground (arith, p, over))
  | inr p ↦ (t, p, ground (arith, over))
]

abbrev Visited : Map GnuId ℕ → ℕ → ℕ → Cleaner → ChannelState → Cleaner → Type 0
Visited old limit now c ch d =
    IsValid d.manager × IsFrom old now d.inactive × Added old limit now c ch d

visit-Visited :
    (old : Map GnuId ℕ) (limit now : ℕ) (c : Cleaner) (ch : ChannelState)
    → IsValid c.manager
    → IsFrom old now c.inactive
    → Visited old limit now c ch (visit limit now c ch)
unfolding visit
visit-Visited old limit now c ch v from =
    let P = Visited old limit now c ch in
    elim (Bool-cases ch.is_broadcasting) [
      | inl e ↦ subst P (sym (simp e refl)) (v, from, inl refl)
      | inr e ↦ elim (Bool-cases (is_idle ch)) [
        | inr i ↦
            subst P (sym (simp (e, i) refl))
              (v, delete-IsFrom old c.inactive now ch.id from, inl refl)
        | inl i ↦ elim (Option-cases (lookup ch.id c.inactive)) [
          | inl f ↦
              subst P (sym (simp (e, i, f) refl))
                (v, insert-IsFrom old c.inactive now ch.id from, inl refl)
          | inr (t, f) ↦ elim (Bool-cases (ltb limit (now - t))) [
            | inr g ↦ subst P (sym (simp (e, i, f, g) refl)) (v, from, inl refl)
            | inl g ↦ subst P (sym (simp (e, i, f, g) refl)) (
              stop_instance-IsValid c.manager ch.id none v,
              delete-IsFrom old c.inactive now ch.id from,
              inr (
                refl,
                old_entry old c.inactive limit now ch.id t from f g,
                e,
                ground (arith, i),
                ground (arith, i),
              ),
            )
          ]
        ]
      ]
    ]

-- What holds of those stopped, for a list of channels.
abbrev AllStopped : Map GnuId ℕ → ℕ → ℕ → List ChannelState → List GnuId → Type 0
AllStopped old limit now chs = All (λ id. IsIdleIn chs id × WasIdle old limit now id)

All-map :
    {A : Type 0} (P Q : A → Type 0) (xs : List A) → ((x : A) → P x → Q x) → All P xs → All Q xs
All-map P Q [] f a = tt
All-map P Q (x ∷ xs) f a = (f x a.0, All-map P Q xs f a.1)

-- The stopped ones after some channels: those before, and some of these.
abbrev Grown : Map GnuId ℕ → ℕ → ℕ → List ChannelState → List GnuId → List GnuId → Type 0
Grown old limit now chs before after =
    (more : List GnuId) × (after ≡ more ++ before) × AllStopped old limit now chs more

visit_all-Grown :
    (old : Map GnuId ℕ) (limit now : ℕ) (c : Cleaner) (chs : List ChannelState)
    → IsValid c.manager
    → IsFrom old now c.inactive
    → let d = visit_all limit now c chs in
      IsValid d.manager × Grown old limit now chs c.stopped d.stopped
unfolding visit_all
visit_all-Grown old limit now c [] v from = (v, ([], refl, tt))
visit_all-Grown old limit now c (ch ∷ chs) v from =
    let (w, kept, added) = visit-Visited old limit now c ch v from in
    let (u, (more, e, a)) = visit_all-Grown old limit now (visit limit now c ch) chs w kept in
    let later = All-map _ _ more (λ id p. (inr p.0, p.1)) a in
    elim added [
      | inl same ↦ (u, (more, e ∙ ap (◌++◌ more) same, later))
      | inr (one, was, live, l, r) ↦ (
        u,
        (
          more ++ ch.id ∷ [],
          e ∙ ap (◌++◌ more) one ∙ sym (append_assoc more (ch.id ∷ []) c.stopped),
          All-snoc _ more ch.id later (inl (refl, live, l, r), was),
        ),
      )
    ]
  where
    All-snoc :
        (P : GnuId → Type 0) (xs : List GnuId) (x : GnuId) → All P xs → P x → All P (xs ++ x ∷ [])
    All-snoc P [] x a p = (p, tt)
    All-snoc P (y ∷ ys) x a p = (a.0, All-snoc P ys x a.1 p)

-- A cleanup of a valid manager leaves it valid, and each channel that it stops is one of those
-- listed, a relay without listeners and relays, and was seen idle more than the limit ago by an
-- earlier cleanup.
pub cleanup-stops :
    (limit now : ℕ) (m : Manager) (inactive : Map GnuId ℕ) (chs : List ChannelState)
    → IsValid m
    → let c = cleanup limit now m inactive chs in
      IsValid c.manager × All (λ id. IsIdleIn chs id × WasIdle inactive limit now id) c.stopped
unfolding cleanup
cleanup-stops limit now m inactive chs v = elim (Bool-cases (limit == 0)) [
  | inl e ↦ rw e (v, tt)
  | inr e ↦
      let (w, (more, same, a)) =
        visit_all-Grown inactive limit now
          (record { manager = m; inactive = inactive; stopped = [] }) chs v (λ id t h. inr h) in
      rw e (w, subst (All _) (sym (same ∙ append-nil more)) a)
]
