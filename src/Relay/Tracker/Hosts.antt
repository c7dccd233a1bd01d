-- ===== src/Relay/Tracker/Hosts.antt =====
-- Which host readTrackerHost of internal/relay/findtracker.go takes for the tracker.
use peercast_mi.Base.{
  Option-cases, beq-cases, ◌∙◌, ℕ, ◌≡◌, ◌≢◌, refl, sym, ◌⊎◌, subst, inl, inr, ap, Bool-cases,
  nat_eq, true, false, ◌==◌, string_eq, List, [], ◌∷◌, ◌++◌, none, some, String, All, arith,
}
use peercast_mi.Pcp.{GnuId, PcpLibrary, find_child}
use peercast_mi.Relay.{AddressLibrary, SourceNode, parse_source_node}
use peercast_mi.Relay.Choice.{connect_addr, same_nat}
use peercast_mi.Relay.Tracker.{
  Lookup, found, tracker_not_found, broken, is_of_other, tracker_addr, read_tracker_host,
}

module _ (lib : PcpLibrary) (net : AddressLibrary) (channel_id : GnuId) (our_global_ip : ℕ) where
  open lib use {Atom, Tag, tag_eq, tag, host, quit, get_id, host_chan_id}

  -- A host that names a channel which is not the one asked for.
  abbrev pub NamesOther : Atom → Type 0
  NamesOther a =
      (c : Atom) × (id : GnuId) × (find_child lib a host_chan_id ≡ some c)
      × (get_id c ≡ some id)
      × (id ≢ channel_id)

  -- Where a node is dialled: its local place if it is behind the same address as this node and has
  -- one, else its global place, "" if there is none.
  abbrev pub IsPlaceOf : SourceNode → String → Type 0
  IsPlaceOf n addr =
      ((our_global_ip ≢ 0)
        × (n.global_ip ≡ our_global_ip)
        × (n.local_addr ≢ "")
        × (addr ≡ n.local_addr))
      ⊎ (((our_global_ip ≡ 0) ⊎ (n.global_ip ≢ our_global_ip) ⊎ (n.local_addr ≡ ""))
          × (addr ≡ n.global_addr))

  -- The report of the channel's tracker, which is dialled at the address.
  abbrev pub IsTrackerHost : Atom → String → Type 0
  IsTrackerHost a addr =
      (¬ NamesOther a)
      × ((parse_source_node lib net a).1 ≡ true)
      × ((parse_source_node lib net a).0.is_tracker ≡ true)
      × IsPlaceOf (parse_source_node lib net a).0 addr
      × (addr ≢ "")

  -- Any other report.
  abbrev pub IsOtherHost : Atom → Type 0
  IsOtherHost a =
      NamesOther a
      ⊎ ((parse_source_node lib net a).1 ≡ false)
      ⊎ ((parse_source_node lib net a).0.is_tracker ≡ false)
      ⊎ IsPlaceOf (parse_source_node lib net a).0 ""

  some_inj : {B : Type 0} {x y : B} → some x ≡ some y → x ≡ y
  some_inj e = cc

  some_ne_none : {B : Type 0} {x : B} → some x ≢ none
  some_ne_none e = cc

  is_of_other-cases :
      (a : Atom)
      → ((is_of_other lib net channel_id our_global_ip a ≡ true) × NamesOther a)
        ⊎ ((is_of_other lib net channel_id our_global_ip a ≡ false) × (¬ NamesOther a))
  unfolding is_of_other
  is_of_other-cases a = elim (Option-cases (find_child lib a host_chan_id)) [
    | inl e ↦ inr (rw (e, is_of_other) refl, λ (c, id, f, g, h). cc (e, f))
    | inr (c, e) ↦ elim (Option-cases (get_id c)) [
      | inl g ↦ inr (
        rw (e, is_of_other, g) refl,
        λ (c', id, f, k, h). some_ne_none (sym (ap get_id (some_inj (sym e ∙ f)) ∙ k) ∙ g),
      )
      | inr (id, g) ↦ elim (beq-cases id channel_id) [
        | inl (h, k) ↦ inr (
          rw (e, is_of_other, g, h) refl,
          λ (c', id', f, g', ne).
              ne (some_inj (sym (ap get_id (some_inj (sym e ∙ f)) ∙ g') ∙ g) ∙ k),
        )
        | inr (h, k) ↦ inl (rw (e, is_of_other, g, h) refl, (c, id, e, g, k))
      ]
    ]
  ]

  connect_addr-IsPlaceOf : (n : SourceNode) → IsPlaceOf n (connect_addr n our_global_ip)
  unfolding connect_addr same_nat
  connect_addr-IsPlaceOf n = ground (arith, beq-cases n.local_addr "")

  -- What a host is, and the address that it gives.
  host-cases :
      (a : Atom)
      → (IsOtherHost a × (tracker_addr lib net channel_id our_global_ip a ≡ ""))
        ⊎ IsTrackerHost a (tracker_addr lib net channel_id our_global_ip a)
  unfolding tracker_addr
  host-cases a =
      let n = (parse_source_node lib net a).0 in
      elim (is_of_other-cases a) [
        | inl (h, other) ↦ rw h (inl (inl other, refl))
        | inr (h, own) ↦ elim (Bool-cases (parse_source_node lib net a).1) [
          | inr p ↦ rw (h, p) (inl (inr (inl refl), refl))
          | inl p ↦ elim (Bool-cases n.is_tracker) [
            | inr q ↦ rw (h, p, q) (inl (inr (inr (inl refl)), refl))
            | inl q ↦ elim (beq-cases (connect_addr n our_global_ip) "") [
              | inl (e, k) ↦ inl (
                inr (inr (inr (subst (IsPlaceOf n) k (connect_addr-IsPlaceOf n)))),
                rw (h, p, q) k,
              )
              | inr (e, k) ↦ rw (h, p, q) (inr (own, refl, refl, connect_addr-IsPlaceOf n, k))
            ]
          ]
        ]
      ]

  -- An atom that a lookup reads on from: another host, or neither a host nor a quit.
  abbrev pub IsPassed : Atom → Type 0
  IsPassed a = ((tag a ≡ host) × IsOtherHost a) ⊎ ((tag a ≢ host) × (tag a ≢ quit))

  -- The atom that ends a lookup, and what it ends with.
  abbrev pub IsAnswer : Atom → Lookup → Type 0
  IsAnswer a l =
      ((tag a ≡ host) × (addr : String) × IsTrackerHost a addr × (l ≡ found addr))
      ⊎ ((tag a ≢ host) × (tag a ≡ quit) × (l ≡ tracker_not_found))

  -- The answer is that of the first atom that is not passed; with none the read fails in the end.
  abbrev pub IsFirst : List Atom → Lookup → Type 0
  IsFirst atoms l =
      (All IsPassed atoms × (l ≡ broken))
      ⊎ ((passed : List Atom) × (a : Atom) × (rest : List Atom) × (atoms ≡ passed ++ a ∷ rest)
          × All IsPassed passed
          × IsAnswer a l)

  IsFirst-cons :
      (a : Atom) (atoms : List Atom) (l : Lookup)
      → IsPassed a
      → IsFirst atoms l
      → IsFirst (a ∷ atoms) l
  IsFirst-cons a atoms l p (inl (ps, e)) = inl ((p, ps), e)
  IsFirst-cons a atoms l p (inr (passed, b, rest, e, ps, ans)) =
      inr (a ∷ passed, b, rest, ap (◌∷◌ a) e, (p, ps), ans)

  beq_false-ne : (x y : Tag) → tag_eq.beq x y ≡ false → x ≢ y
  beq_false-ne x y h e = cc ((tag_eq.beq_iff x y).1 e, h)

  beq_ne : (s : String) → s ≢ "" → (s == "") ≡ false
  beq_ne s ne = elim (beq-cases s "") [ inl (h, k) ↦ absurd (ne k) | inr (h, k) ↦ h ]

  -- What a lookup comes to at an atom: it reads on, or it ends.
  read-IsPassed :
      (a : Atom) (atoms : List Atom)
      → (IsPassed a
          × (read_tracker_host lib net channel_id our_global_ip (a ∷ atoms)
              ≡ read_tracker_host lib net channel_id our_global_ip atoms))
        ⊎ IsAnswer a (read_tracker_host lib net channel_id our_global_ip (a ∷ atoms))
  unfolding read_tracker_host
  read-IsPassed a atoms = elim (Bool-cases (tag_eq.beq (tag a) host)) [
    | inl h ↦
        let is_host = (tag_eq.beq_iff (tag a) host).0 h in
        elim (host-cases a) [
          | inl (other, e) ↦ inl (inl (is_host, other), rw (h, e) refl)
          | inr (own, p, q, place, ne) ↦
              inr (inl (is_host, _, (own, p, q, place, ne), rw (h, beq_ne _ ne) refl))
        ]
    | inr h ↦
        let no_host = beq_false-ne (tag a) host h in
        elim (Bool-cases (tag_eq.beq (tag a) quit)) [
          | inl q ↦ inr (inr (no_host, (tag_eq.beq_iff (tag a) quit).0 q, rw (h, q) refl))
          | inr q ↦ inl (inr (no_host, beq_false-ne (tag a) quit q), rw (h, q) refl)
        ]
  ]

  read_tracker_host-none : read_tracker_host lib net channel_id our_global_ip [] ≡ broken
  unfolding read_tracker_host
  read_tracker_host-none = refl

  pub read_tracker_host-IsFirst :
      (atoms : List Atom) → IsFirst atoms (read_tracker_host lib net channel_id our_global_ip atoms)
  read_tracker_host-IsFirst [] = inl (tt, read_tracker_host-none)
  read_tracker_host-IsFirst (a ∷ atoms) = elim (read-IsPassed a atoms) [
    | inl (p, e) ↦
        subst (IsFirst (a ∷ atoms)) (sym e)
          (IsFirst-cons a atoms _ p (read_tracker_host-IsFirst atoms))
    | inr ans ↦ inr ([], a, atoms, refl, tt, ans)
  ]

  IsPlaceOf-unique : (n : SourceNode) (x y : String) → IsPlaceOf n x → IsPlaceOf n y → x ≡ y
  IsPlaceOf-unique n x y (inl (_, _, _, e)) (inl (_, _, _, f)) = e ∙ sym f
  IsPlaceOf-unique n x y (inl (a, _, _, e)) (inr (inl b, f)) = absurd (a b)
  IsPlaceOf-unique n x y (inl (_, a, _, e)) (inr (inr (inl b), f)) = absurd (b a)
  IsPlaceOf-unique n x y (inl (_, _, a, e)) (inr (inr (inr b), f)) = absurd (a b)
  IsPlaceOf-unique n x y (inr (inl b, f)) (inl (a, _, _, e)) = absurd (a b)
  IsPlaceOf-unique n x y (inr (inr (inl b), f)) (inl (_, a, _, e)) = absurd (b a)
  IsPlaceOf-unique n x y (inr (inr (inr b), f)) (inl (_, _, a, e)) = absurd (a b)
  IsPlaceOf-unique n x y (inr (_, e)) (inr (_, f)) = e ∙ sym f

  IsOtherHost-IsTrackerHost : (a : Atom) (addr : String) → IsOtherHost a → ¬ IsTrackerHost a addr
  IsOtherHost-IsTrackerHost a addr (inl other) (own, p, q, place, ne) = own other
  IsOtherHost-IsTrackerHost a addr (inr (inl p')) (own, p, q, place, ne) = cc (p, p')
  IsOtherHost-IsTrackerHost a addr (inr (inr (inl q'))) (own, p, q, place, ne) = cc (q, q')
  IsOtherHost-IsTrackerHost a addr (inr (inr (inr none_there))) (own, p, q, place, ne) =
      ne (IsPlaceOf-unique (parse_source_node lib net a).0 addr "" place none_there)

  IsPassed-IsAnswer : (a : Atom) (l : Lookup) → IsPassed a → ¬ IsAnswer a l
  IsPassed-IsAnswer a l (inl (h, other)) (inl (k, addr, t, e)) =
      IsOtherHost-IsTrackerHost a addr other t
  IsPassed-IsAnswer a l (inl (h, other)) (inr (k, q, e)) = k h
  IsPassed-IsAnswer a l (inr (h, nq)) (inl (k, addr, t, e)) = h k
  IsPassed-IsAnswer a l (inr (h, nq)) (inr (k, q, e)) = nq q

  IsAnswer-unique : (a : Atom) (l m : Lookup) → IsAnswer a l → IsAnswer a m → l ≡ m
  IsAnswer-unique a l m (inl (_, x, (_, _, _, p, _), e)) (inl (_, y, (_, _, _, q, _), f)) =
      e ∙ ap found (IsPlaceOf-unique (parse_source_node lib net a).0 x y p q) ∙ sym f
  IsAnswer-unique a l m (inl (h, x, t, e)) (inr (k, q, f)) = absurd (k h)
  IsAnswer-unique a l m (inr (k, q, f)) (inl (h, x, t, e)) = absurd (k h)
  IsAnswer-unique a l m (inr (_, _, e)) (inr (_, _, f)) = e ∙ sym f

  read-passed :
      (passed rest : List Atom)
      → All IsPassed passed
      → read_tracker_host lib net channel_id our_global_ip (passed ++ rest)
        ≡ read_tracker_host lib net channel_id our_global_ip rest
  read-passed [] rest ps = refl
  read-passed (a ∷ passed) rest (p, ps) = elim (read-IsPassed a (passed ++ rest)) [
    | inl (_, e) ↦ e ∙ read-passed passed rest ps
    | inr ans ↦ absurd (IsPassed-IsAnswer a _ p ans)
  ]

  read-answer :
      (a : Atom) (rest : List Atom) (l : Lookup)
      → IsAnswer a l
      → read_tracker_host lib net channel_id our_global_ip (a ∷ rest) ≡ l
  read-answer a rest l ans = elim (read-IsPassed a rest) [
    | inl (p, _) ↦ absurd (IsPassed-IsAnswer a l p ans)
    | inr ans' ↦ IsAnswer-unique a _ l ans' ans
  ]

  -- A lookup comes to nothing but the answer of the first atom that has one.
  pub IsFirst-found :
      (atoms : List Atom) (addr : String)
      → IsFirst atoms (found addr)
      → read_tracker_host lib net channel_id our_global_ip atoms ≡ found addr
  IsFirst-found atoms addr (inl (_, e)) = cc e
  IsFirst-found atoms addr (inr (passed, a, rest, e, ps, ans)) =
      ap (read_tracker_host lib net channel_id our_global_ip) e
      ∙ read-passed passed (a ∷ rest) ps
      ∙ read-answer a rest (found addr) ans
