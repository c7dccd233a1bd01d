-- ===== src/Route/Hop.antt =====
-- What happens to a broadcast packet on its way from node to node.
use peercast_mi.Base.{
  ℕ, zero, suc, ◌+◌, ◌-◌, ◌%◌, ◌^◌, ◌<◌, ◌≡◌, ◌≢◌, inl, inr, refl, sym, ap, subst, ◌∙◌, true, false,
  nat_eq, List, [], ◌∷◌, map, Option, none, some, arith, Bool-cases, Option-cases, beq-cases, find,
}
use peercast_mi.Pcp.{PcpLibrary, find_child}
use peercast_mi.Route.{rewrite_child, send_on, forwarded}

-- What the library promises of the atoms that it builds and reads.
pub record IsLawful (lib : PcpLibrary) : Type 0 where
  pub parent_children :
      (t : lib.Tag) (cs : List lib.Atom) → lib.children (lib.new_parent_atom t cs) ≡ cs
  pub byte_tag : (t : lib.Tag) (b : ℕ) → lib.tag (lib.new_byte_atom t b) ≡ t
  pub byte_value :
      (t : lib.Tag) (b : ℕ) → b < 2 ^ 8 → lib.get_byte (lib.new_byte_atom t b) ≡ (b, true)
  pub byte_bound : (a : lib.Atom) → (lib.get_byte a).0 < 2 ^ 8
  pub ttl_ne_hops : lib.bcst_ttl ≢ lib.bcst_hops

module _ (lib : PcpLibrary) where
  open lib use {
    Atom, Tag, tag_eq, tag, children, get_byte, new_byte_atom, new_parent_atom, bcst, bcst_ttl,
    bcst_hops, bcst_group, bcst_from,
  }

  -- The byte in a child, 0 if there is none.
  abbrev pub byte_of : Option Atom → ℕ
  byte_of none = 0
  byte_of (some c) = (get_byte c).0

  -- The time to live and the hop count of a packet, 0 if it has none.
  abbrev pub ttl_of : Atom → ℕ
  ttl_of a = byte_of (find_child lib a bcst_ttl)

  abbrev pub hops_of : Atom → ℕ
  hops_of a = byte_of (find_child lib a bcst_hops)

  module _ (laws : IsLawful lib) (ttl hops : ℕ) where
    rewrite_child-tag : (c : Atom) → tag (rewrite_child lib ttl hops c) ≡ tag c
    unfolding rewrite_child
    rewrite_child-tag c = elim (Bool-cases (tag_eq.beq (tag c) bcst_ttl)) [
      | inl e ↦ rw (e, rewrite_child) (laws.byte_tag (tag c) ((ttl + 2 ^ 8 - 1) % 2 ^ 8))
      | inr e ↦ elim (Bool-cases (tag_eq.beq (tag c) bcst_hops)) [
        | inl h ↦ rw (e, rewrite_child) (rw h (laws.byte_tag (tag c) ((hops + 1) % 2 ^ 8)))
        | inr h ↦ rw (e, rewrite_child) (rw h refl)
      ]
    ]

    -- A child with a tag is found at the same place, rewritten.
    find_rewritten :
        (t : Tag) (cs : List Atom)
        → find (λ c. tag_eq.beq (tag c) t) (map (rewrite_child lib ttl hops) cs)
          ≡ elim (find (λ c. tag_eq.beq (tag c) t) cs) [
            | none ↦ none
            | some c ↦ some (rewrite_child lib ttl hops c)
          ]
    find_rewritten t [] = refl
    find_rewritten t (c ∷ cs) = elim (Bool-cases (tag_eq.beq (tag c) t)) [
      | inl e ↦ rw (rewrite_child-tag c) (rw e refl)
      | inr e ↦ rw (rewrite_child-tag c) (rw e (find_rewritten t cs))
    ]

    find-tag :
        (t : Tag) (cs : List Atom) (c : Atom)
        → find (λ c'. tag_eq.beq (tag c') t) cs ≡ some c
        → tag_eq.beq (tag c) t ≡ true
    find-tag t [] c e = cc
    find-tag t (x ∷ cs) c e = elim (Bool-cases (tag_eq.beq (tag x) t)) [
      | inl hit ↦
          let same : x ≡ c = ground (arith, hit, e) in
          subst (λ y. tag_eq.beq (tag y) t ≡ true) same hit
      | inr miss ↦ find-tag t cs c (ground (arith, miss, e))
    ]

    rewrite_child-ttl :
        (c : Atom)
        → tag_eq.beq (tag c) bcst_ttl ≡ true
        → 1 < ttl
        → ttl < 2 ^ 8
        → (get_byte (rewrite_child lib ttl hops c)).0 ≡ ttl - 1
    unfolding rewrite_child
    rewrite_child-ttl c e lower upper =
        let small : (ttl + 2 ^ 8 - 1) % 2 ^ 8 < 2 ^ 8 = omega arith in
        rw (e, rewrite_child)
          (ap (λ r. r.0) (laws.byte_value (tag c) ((ttl + 2 ^ 8 - 1) % 2 ^ 8) small) ∙ omega arith)

    rewrite_child-hops :
        (c : Atom)
        → tag_eq.beq (tag c) bcst_hops ≡ true
        → hops < 255
        → (get_byte (rewrite_child lib ttl hops c)).0 ≡ hops + 1
    unfolding rewrite_child
    rewrite_child-hops c e upper =
        let small : (hops + 1) % 2 ^ 8 < 2 ^ 8 = omega arith in
        let other : tag_eq.beq (tag c) bcst_ttl ≡ false =
          elim (beq-cases ⦃e = tag_eq⦄ (tag c) bcst_ttl) [
            | inl (_, t) ↦ absurd (laws.ttl_ne_hops (sym t ∙ (tag_eq.beq_iff _ _).0 e))
            | inr (t, _) ↦ t
          ] in
        rw (other, rewrite_child)
          (rw e (ap (λ r. r.0) (laws.byte_value (tag c) ((hops + 1) % 2 ^ 8) small) ∙ omega arith))

  abbrev rewritten : (a t h : Atom) → Atom
  rewritten a t h =
      new_parent_atom bcst (map (rewrite_child lib (get_byte t).0 (get_byte h).0) (children a))

  send_on-ttl :
      (a f t h g : Atom)
      → IsLawful lib
      → find_child lib a bcst_ttl ≡ some t
      → find_child lib a bcst_hops ≡ some h
      → send_on lib a t h g ≡ some f
      → (1 < ttl_of a)
        × (ttl_of f + 1 ≡ ttl_of a)
        × (hops_of f ≡ hops_of a + 1)
        × (hops_of f < 2 ^ 8)
  unfolding send_on
  send_on-ttl a f t h g laws et eh sent =
      let ttl = (get_byte t).0 in
      let hops = (get_byte h).0 in
      let goes : (1 < ttl) × (ttl < 2 ^ 8) × (hops < 255) × (some (rewritten a t h) ≡ some f) =
        ground (arith, sent, laws.byte_bound t, laws.byte_bound h) in
      let (lower, upper, hops_upper, same) = goes in
      let made : children f ≡ map (rewrite_child lib ttl hops) (children a) =
        subst
          (λ o.
            (elim o [ none ↦ [] | some x ↦ children x ])
            ≡ map (rewrite_child lib ttl hops) (children a))
          same (laws.parent_children bcst _) in
      let t_found =
        ap (find (λ c. tag_eq.beq (tag c) bcst_ttl)) made
        ∙ find_rewritten laws ttl hops bcst_ttl (children a) in
      let h_found =
        ap (find (λ c. tag_eq.beq (tag c) bcst_hops)) made
        ∙ find_rewritten laws ttl hops bcst_hops (children a) in
      let t_new =
        rewrite_child-ttl laws ttl hops t (find-tag laws ttl hops bcst_ttl (children a) t et) lower
          upper in
      let h_new =
        rewrite_child-hops laws ttl hops h (find-tag laws ttl hops bcst_hops (children a) h eh)
          hops_upper in
      rw (t_found, h_found) (rw (et, eh) (lower, omega (arith, t_new), h_new, omega (arith, h_new)))

  is_sent : {f : Atom} → none ≢ some f
  is_sent e = cc e

  -- A packet that is sent on had a time to live above 1 and a hop count below 255, and has one less
  -- of the first and one more of the second.
  pub forwarded_lem :
      (a f : Atom)
      → IsLawful lib
      → forwarded lib a ≡ some f
      → (1 < ttl_of a)
        × (ttl_of f + 1 ≡ ttl_of a)
        × (hops_of f ≡ hops_of a + 1)
        × (hops_of f < 2 ^ 8)
  unfolding forwarded
  forwarded_lem a f laws sent = elim (Option-cases (find_child lib a bcst_ttl)) [
    | inl e ↦ absurd (is_sent (rw (e, forwarded) at sent))
    | inr (t, et) ↦ elim (Option-cases (find_child lib a bcst_hops)) [
      | inl e ↦ absurd (is_sent (rw (et, e, forwarded) at sent))
      | inr (h, eh) ↦ elim (Option-cases (find_child lib a bcst_group)) [
        | inl e ↦ absurd (is_sent (rw (et, eh, e, forwarded) at sent))
        | inr (g, eg) ↦ elim (Option-cases (find_child lib a bcst_from)) [
          | inl e ↦ absurd (is_sent (rw (et, eh, eg, e, forwarded) at sent))
          | inr (fr, ef) ↦ send_on-ttl a f t h g laws et eh (rw (et, eh, eg, ef, forwarded) at sent)
        ]
      ]
    ]
  ]

  -- A packet and what it is after a number of nodes that sent it on.
  pub data Travels (a : Atom) : ℕ → Atom → Type 0 where
    origin : Travels a 0 a
    hop : {n : ℕ} {b c : Atom} → Travels a n b → forwarded lib b ≡ some c → Travels a (suc n) c

  -- Sending on stops: a packet that n nodes have sent on started with a time to live that is n more
  -- than it has left, and its hop count is n more than at the start.
  pub Travels-ttl :
      (a : Atom) (n : ℕ) (b : Atom)
      → IsLawful lib
      → Travels a n b
      → (n + ttl_of b ≡ ttl_of a) × (hops_of b ≡ n + hops_of a)
  Travels-ttl a zero b laws origin = omega arith
  Travels-ttl a (suc n) c laws (hop {b} t sent) =
      omega (arith, Travels-ttl a n _ laws t, forwarded_lem _ c laws sent)
