-- ===== src/Nodes/Select.antt =====
-- `selectSourceHosts` of internal/channel/nodes.go: which hosts a requester is sent to.
use mathlib.Core.List.{Perm}
use mathlib.Core.List.Perm
use peercast_mi.Base.{
  ℕ, zero, suc, ◌+◌, ◌^◌, ◌≤◌, ◌<◌, ◌≡◌, ◌≢◌, refl, ap, inl, inr, true, false, nat_eq, ltb, List,
  [], ◌∷◌, map, none, some, All, keep, ◌↔◌, arith, length, take, Bool-cases, lookup, length-take,
  ◌&&◌, length-map,
}
use peercast_mi.Pcp.{GnuId, PcpLibrary}
use peercast_mi.Nodes.{
  NodeTable, ScoreFields, insert_by_score, sort_by_score, is_candidate, candidates,
  select_source_hosts, host_score, base_score, read_children, no_fields, node_lifetime,
}
use peercast_mi.Nodes.Ids.{host_session_id, host_id_or_zero}

module _ {A : Type 0} where
  -- Every entry has at least the score of those behind it.
  abbrev pub Falling : List (A × ℕ) → Type 0
  Falling [] = Unit
  Falling (c ∷ cs) = All (λ d. d.1 ≤ c.1) cs × Falling cs

  insert_by_score-perm : (c : A × ℕ) (cs : List (A × ℕ)) → Perm (insert_by_score c cs) (c ∷ cs)
  unfolding insert_by_score
  insert_by_score-perm c [] = Perm.refl (c ∷ [])
  insert_by_score-perm c (d ∷ ds) = elim (Bool-cases (ltb c.1 d.1)) [
    | inl e ↦ rw e (Perm.trans (Perm.cons d (insert_by_score-perm c ds)) (Perm.swap c d ds))
    | inr e ↦ rw e (Perm.refl (c ∷ d ∷ ds))
  ]

  pub sort_by_score-perm : (cs : List (A × ℕ)) → Perm (sort_by_score cs) cs
  unfolding sort_by_score
  sort_by_score-perm [] = Perm.refl []
  sort_by_score-perm (c ∷ cs) =
      Perm.trans (insert_by_score-perm c (sort_by_score cs)) (Perm.cons c (sort_by_score-perm cs))

  All-le : (m k : ℕ) (cs : List (A × ℕ)) → m ≤ k → All (λ d. d.1 ≤ m) cs → All (λ d. d.1 ≤ k) cs
  All-le m k [] h a = tt
  All-le m k (c ∷ cs) h a = (omega arith, All-le m k cs h a.1)

  insert_by_score-All :
      (P : A × ℕ → Type 0) (c : A × ℕ) (cs : List (A × ℕ))
      → P c
      → All P cs
      → All P (insert_by_score c cs)
  unfolding insert_by_score
  insert_by_score-All P c [] h a = (h, tt)
  insert_by_score-All P c (d ∷ ds) h a = elim (Bool-cases (ltb c.1 d.1)) [
    | inl e ↦ rw e (a.0, insert_by_score-All P c ds h a.1)
    | inr e ↦ rw e (h, a)
  ]

  insert_by_score-Falling :
      (c : A × ℕ) (cs : List (A × ℕ)) → Falling cs → Falling (insert_by_score c cs)
  unfolding insert_by_score
  insert_by_score-Falling c [] f = (tt, tt)
  insert_by_score-Falling c (d ∷ ds) f = elim (Bool-cases (ltb c.1 d.1)) [
    | inl e ↦ rw e (
      insert_by_score-All (λ x. x.1 ≤ d.1) c ds (ground arith) f.0,
      insert_by_score-Falling c ds f.1,
    )
    | inr e ↦ rw e ((ground arith, All-le d.1 c.1 ds (ground arith) f.0), f)
  ]

  pub sort_by_score-Falling : (cs : List (A × ℕ)) → Falling (sort_by_score cs)
  unfolding sort_by_score
  sort_by_score-Falling [] = tt
  sort_by_score-Falling (c ∷ cs) = insert_by_score-Falling c _ (sort_by_score-Falling cs)

  sort_by_score-All : (P : A × ℕ → Type 0) (cs : List (A × ℕ)) → All P cs → All P (sort_by_score cs)
  unfolding sort_by_score
  sort_by_score-All P [] a = tt
  sort_by_score-All P (c ∷ cs) a =
      insert_by_score-All P c (sort_by_score cs) a.0 (sort_by_score-All P cs a.1)

  take-All : (P : A × ℕ → Type 0) (k : ℕ) (cs : List (A × ℕ)) → All P cs → All P (take k cs)
  take-All P zero cs a = tt
  take-All P (suc k) [] a = tt
  take-All P (suc k) (c ∷ cs) a = (a.0, take-All P k cs a.1)

module _ (lib : PcpLibrary) where
  open lib use {Atom, children}

  -- A host that may be handed out: it has no time or a recent one, and is not the requester.
  abbrev pub IsEligible : NodeTable Atom → ℕ → GnuId → Atom → Type 0
  IsEligible n now requester h =
      (elim (lookup (host_id_or_zero lib h) n.host_times) [
        | none ↦ Unit {0}
        | some t ↦ now ≤ t + node_lifetime
      ])
      × (host_session_id lib h ≢ some requester)

  is_candidate_iff :
      (n : NodeTable Atom) (now : ℕ) (requester : GnuId) (h : Atom)
      → (is_candidate lib n now requester h ≡ true) ↔ IsEligible n now requester h
  unfolding is_candidate
  is_candidate_iff n now requester h = ground arith

  module _ (n : NodeTable Atom) (now : ℕ) (requester : GnuId) (ip : ℕ) (draws : ℕ → ℕ) where
    -- The score of the host, for some draw of the random number.
    abbrev pub IsScored : Atom × ℕ → Type 0
    IsScored (h, score) = (i : ℕ) × (score ≡ host_score lib h ip (draws i))

    candidates-hosts :
        (i : ℕ) (hs : List Atom)
        → map (λ c. c.0) (candidates lib n now requester ip draws i hs)
          ≡ keep (is_candidate lib n now requester) hs
    unfolding candidates
    candidates-hosts i [] = refl
    candidates-hosts i (h ∷ hs) = elim (Bool-cases (is_candidate lib n now requester h)) [
      | inl e ↦ rw e (ap (◌∷◌ h) (candidates-hosts (suc i) hs))
      | inr e ↦ rw e (candidates-hosts i hs)
    ]

    candidates-IsScored :
        (i : ℕ) (hs : List Atom) → All IsScored (candidates lib n now requester ip draws i hs)
    unfolding candidates
    candidates-IsScored i [] = tt
    candidates-IsScored i (h ∷ hs) = elim (Bool-cases (is_candidate lib n now requester h)) [
      | inl e ↦ rw e ((i, refl), candidates-IsScored (suc i) hs)
      | inr e ↦ rw e (candidates-IsScored i hs)
    ]

    candidates-IsEligible :
        (i : ℕ) (hs : List Atom)
        → All (λ c. IsEligible n now requester c.0) (candidates lib n now requester ip draws i hs)
    unfolding candidates
    candidates-IsEligible i [] = tt
    candidates-IsEligible i (h ∷ hs) = elim (Bool-cases (is_candidate lib n now requester h)) [
      | inl e ↦ rw e ((is_candidate_iff n now requester h).0 e, candidates-IsEligible (suc i) hs)
      | inr e ↦ rw e (candidates-IsEligible i hs)
    ]

  selected_lem :
      (n : NodeTable Atom) (now : ℕ) (draws : ℕ → ℕ) (max : ℕ) (requester : GnuId) (ip : ℕ)
      → select_source_hosts lib n now draws max requester ip
        ≡ map
            (λ c. c.0)
            (take max (sort_by_score (candidates lib n now requester ip draws 0 n.known_hosts)))
  unfolding select_source_hosts
  selected_lem n now draws zero requester ip = refl
  selected_lem n now draws (suc m) requester ip = ground arith

  map-All :
      (P : Atom → Type 0) (cs : List (Atom × ℕ)) → All (λ c. P c.0) cs → All P (map (λ c. c.0) cs)
  map-All P [] a = tt
  map-All P (c ∷ cs) a = (a.0, map-All P cs a.1)

  -- `selectSourceHosts` returns at most `max` hosts. Each has no recorded time or one at most three
  -- minutes old, and is not the requester.
  pub select_source_hosts-IsEligible :
      (n : NodeTable Atom) (now : ℕ) (draws : ℕ → ℕ) (max : ℕ) (requester : GnuId) (ip : ℕ)
      → (length (select_source_hosts lib n now draws max requester ip) ≤ max)
        × All (IsEligible n now requester) (select_source_hosts lib n now draws max requester ip)
  select_source_hosts-IsEligible n now draws max requester ip =
      let cs = candidates lib n now requester ip draws 0 n.known_hosts in
      rw (selected_lem n now draws max requester ip) (
        omega (
          arith,
          length-map (take max (sort_by_score cs)) (λ c. c.0),
          length-take max (sort_by_score cs),
        ),
        map-All (IsEligible n now requester) (take max (sort_by_score cs)) (
            take-All _ max _ (
              sort_by_score-All _ cs
                (candidates-IsEligible n now requester ip draws 0 n.known_hosts))),
      )

  -- `selectSourceHosts` ranks all known hosts that are candidates, each with its score for some
  -- random draw, by falling score, and returns the first `max` of them.
  pub select_source_hosts-best_first :
      (n : NodeTable Atom) (now : ℕ) (draws : ℕ → ℕ) (max : ℕ) (requester : GnuId) (ip : ℕ)
      → (ranking : List (Atom × ℕ)) × (select_source_hosts lib n now draws max requester ip
          ≡ map (λ c. c.0) (take max ranking))
        × Perm (map (λ c. c.0) ranking) (keep (is_candidate lib n now requester) n.known_hosts)
        × Falling ranking
        × All (IsScored n now requester ip draws) ranking
  select_source_hosts-best_first n now draws max requester ip =
      let cs = candidates lib n now requester ip draws 0 n.known_hosts in
      (
        sort_by_score cs,
        selected_lem n now draws max requester ip,
        rw (← candidates-hosts n now requester ip draws 0 n.known_hosts)
            (Perm.map (λ c. c.0) (sort_by_score-perm cs)),
        sort_by_score-Falling cs,
        sort_by_score-All _ cs (candidates-IsScored n now requester ip draws 0 n.known_hosts),
      )

-- The points of a global endpoint outweigh all others together, up to 899 relays.
base_score-lt :
    (lib : PcpLibrary) (ip : ℕ) (f g : ScoreFields)
    → f.has_ip && f.has_port ≡ false
    → g.has_ip && g.has_port ≡ true
    → f.relays < 900
    → base_score lib ip f < base_score lib ip g
unfolding base_score
base_score-lt lib ip f g hf hg few = rw (hf, hg) (ground arith)

-- Of two hosts, where the second has no readable address with a port and reports fewer than 900
-- relays, the first scores higher if it has them, whatever the random draws.
host_score-global :
    (lib : PcpLibrary) (g h : lib.Atom) (ip d e : ℕ)
    → let f = read_children lib no_fields (lib.children g) in
      let f' = read_children lib no_fields (lib.children h) in
      f.has_ip && f.has_port ≡ true
      → f'.has_ip && f'.has_port ≡ false
      → f'.relays < 900
      → e < 2 ^ 53
      → host_score lib h ip e < host_score lib g ip d
unfolding host_score
host_score-global lib g h ip d e hg hf few draw =
    let f = read_children lib no_fields (lib.children g) in
    let f' = read_children lib no_fields (lib.children h) in
    let ahead = base_score-lt lib ip f' f hf hg few in omega (arith, ahead)
