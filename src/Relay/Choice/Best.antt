-- ===== src/Relay/Choice/Best.antt =====
-- That the choice takes the best host that can be dialled, is not firewalled and is not ignored.
use peercast_mi.Base.{
  ℕ, ◌≡◌, refl, sym, subst, ◌∙◌, ◌⊎◌, inl, inr, Bool, true, false, not, ◌&&◌, ◌==◌, string_eq,
  if◌then◌else◌, List, [], ◌∷◌, String, All, arith, Bool-cases,
}
use peercast_mi.Relay.{SourceNode}
use peercast_mi.Relay.Ignored.{IgnoredNodeCollection, contains, contains_stable}
use peercast_mi.Relay.Choice.{
  Scores, Search, connect_addr, score_of, same_nat, bonus_of, consider, search_all,
  select_source_host,
}

-- What the loop needs of the order of scores, and that every score is above -1.
pub record IsOrder (floats : Scores) : Type 0 where
  pub irreflexive : (x : floats.Score) → floats.above x x ≡ false
  pub transitive :
      (x y z : floats.Score)
      → floats.above x y ≡ true
      → floats.above y z ≡ true
      → floats.above x z ≡ true
  pub positive :
      (base bonus : ℕ) (draw : floats.Random)
      → floats.above (floats.score base draw bonus) floats.lowest ≡ true

-- An entry of a list that satisfies a condition.
abbrev pub Among : {A : Type 0} → (A → Type 0) → List A → Type 0
Among {A} P [] = ⊥
Among P (x ∷ xs) = P x ⊎ Among P xs

module _ (floats : Scores) (now our_global_ip : ℕ) where
  open floats use {Score, Random, above, lowest}

  -- A node that may be chosen.
  unfoldable pub is_eligible : IgnoredNodeCollection → SourceNode × Random → Bool
  is_eligible ignored (n, draw) =
      let addr = connect_addr n our_global_ip in
      not n.is_firewalled && (not (addr == "") && not (contains ignored now addr).1)

  abbrev pub its_score : SourceNode × Random → Score
  its_score (n, draw) = score_of floats n our_global_ip draw

  -- The outcome `(addr, score)` is that of an eligible node.
  abbrev pub IsOf : IgnoredNodeCollection → String → Score → SourceNode × Random → Type 0
  IsOf ignored addr best x =
      (is_eligible ignored x ≡ true)
      × (addr ≡ connect_addr x.0 our_global_ip)
      × (best ≡ its_score x)

  -- A node that does not beat a score.
  abbrev pub IsBelow : IgnoredNodeCollection → Score → SourceNode × Random → Type 0
  IsBelow ignored best x = (is_eligible ignored x ≡ false) ⊎ (above (its_score x) best ≡ false)

  abbrev Same : IgnoredNodeCollection → IgnoredNodeCollection → Type 0
  Same c d = (addr : String) → (contains d now addr).1 ≡ (contains c now addr).1

  -- A higher score is beaten by less.
  abbrev AtLeast : Score → Score → Type 0
  AtLeast best old = (x : Score) → above x old ≡ false → above x best ≡ false

  record Round (c : IgnoredNodeCollection) (s s' : Search floats) (x : SourceNode × Random)
      : Type 0 where
    same : Same c s'.ignored
    outcome :
        ((s'.best_addr ≡ s.best_addr) × (s'.best_score ≡ s.best_score))
        ⊎ IsOf c s'.best_addr s'.best_score x
    at_least : AtLeast s'.best_score s.best_score
    below : IsBelow c s'.best_score x

  keeps :
      (c : IgnoredNodeCollection) (s s' : Search floats) (x : SourceNode × Random)
      → Same c s'.ignored
      → s'.best_addr ≡ s.best_addr
      → s'.best_score ≡ s.best_score
      → (is_eligible c x ≡ false) ⊎ (above (its_score x) s.best_score ≡ false)
      → Round c s s' x
  keeps c s s' x same a b below = record {
    same = same;
    outcome = inl (a, b);
    at_least = λ y h. rw b h;
    below = elim below [ inl h ↦ inl h | inr h ↦ inr (rw b h) ];
  }

  move :
      (c : IgnoredNodeCollection) (s s' : Search floats) (x : SourceNode × Random)
      → consider floats now our_global_ip s x ≡ s'
      → Round c s s' x
      → Round c s (consider floats now our_global_ip s x) x
  move c s s' x e r = subst (λ t. Round c s t x) (sym e) r

  not_above :
      IsOrder floats
      → (y new old : Score) → above new old ≡ true
      → above y old ≡ false
      → above y new ≡ false
  not_above laws y new old e h = elim (Bool-cases (above y new)) [
    | inl t ↦ cc (laws.transitive y new old t e)
    | inr f ↦ f
  ]

  consider-Round :
      (c : IgnoredNodeCollection) (s : Search floats) (x : SourceNode × Random)
      → IsOrder floats
      → Same c s.ignored
      → Round c s (consider floats now our_global_ip s x) x
  unfolding consider is_eligible
  consider-Round c s (n, draw) laws same =
      let addr = connect_addr n our_global_ip in
      let score = score_of floats n our_global_ip draw in
      let asked : Same c (contains s.ignored now addr).0 =
        λ other. contains_stable s.ignored addr other now now (omega arith) ∙ same other in
      let passed : Search floats = record s { ignored = (contains s.ignored now addr).0 } in
      elim (Bool-cases n.is_firewalled) [
        | inl e ↦
            move c s _ (n, draw) (simp e refl)
              (keeps c s s (n, draw) same refl refl (inl (ground (arith, e))))
        | inr f ↦ elim (Bool-cases (addr == "")) [
          | inl e ↦
              move c s _ (n, draw) (simp (f, e) refl)
                (keeps c s s (n, draw) same refl refl (inl (ground (arith, f, e))))
          | inr a ↦ elim (Bool-cases (contains s.ignored now addr).1) [
            | inl e ↦
                move c s _ (n, draw) (simp (f, a, e) refl)
                  (keeps c s passed (n, draw) asked refl refl
                    (inl (ground (arith, f, e, same addr))))
            | inr g ↦ elim (Bool-cases (above score s.best_score)) [
              | inl e ↦
                  move c s _ (n, draw) (simp (f, a, g, e) refl)
                    (record {
                      same = asked;
                      outcome = inr (ground (arith, f, a, g, same addr), refl, refl);
                      at_least = λ y h. not_above laws y score s.best_score e h;
                      below = inr (laws.irreflexive score);
                    })
              | inr e ↦
                  move c s _ (n, draw) (simp (f, a, g, e) refl)
                    (keeps c s passed (n, draw) asked refl refl (inr e))
            ]
          ]
        ]
      ]

  -- The whole loop, over what it kept and what it saw.
  record Rounds (c : IgnoredNodeCollection) (s s' : Search floats) (xs : List (SourceNode × Random))
      : Type 0 where
    same : Same c s'.ignored
    outcome :
        ((s'.best_addr ≡ s.best_addr) × (s'.best_score ≡ s.best_score))
        ⊎ Among (IsOf c s'.best_addr s'.best_score) xs
    at_least : AtLeast s'.best_score s.best_score
    below : All (IsBelow c s'.best_score) xs

  search_all-Rounds :
      (c : IgnoredNodeCollection) (s : Search floats) (xs : List (SourceNode × Random))
      → IsOrder floats
      → Same c s.ignored
      → Rounds c s (search_all floats now our_global_ip s xs) xs
  unfolding search_all
  search_all-Rounds c s [] laws same = record {
    same = same;
    outcome = inl (refl, refl);
    at_least = λ x h. h;
    below = tt;
  }
  search_all-Rounds c s (x ∷ xs) laws same =
      let one = consider-Round c s x laws same in
      let rest = search_all-Rounds c (consider floats now our_global_ip s x) xs laws one.same in
      record {
        same = rest.same;
        outcome = elim rest.outcome [
          | inr p ↦ inr (inr p)
          | inl (a, b) ↦ elim one.outcome [
            | inl (a', b') ↦ inl (a ∙ a', b ∙ b')
            | inr (e, a', b') ↦ inr (inl (e, a ∙ a', b ∙ b'))
          ]
        ];
        at_least = λ y h. rest.at_least y (one.at_least y h);
        below = (
          elim one.below [ inl e ↦ inl e | inr h ↦ inr (rest.at_least (its_score x) h) ],
          rest.below,
        );
      }

  -- The answer is the address of a node that may be chosen and that no other such node beats.
  abbrev pub IsBest : IgnoredNodeCollection → List (SourceNode × Random) → String → Type 0
  IsBest ignored nodes r =
      (best : Score) × Among (IsOf ignored r best) nodes × All (IsBelow ignored best) nodes

  abbrev tracker_or_none : IgnoredNodeCollection → String → String
  tracker_or_none ignored tracker_addr =
      if not (tracker_addr == "") && not (contains ignored now tracker_addr).1
      then tracker_addr
      else ""

  -- What is among nodes holds for one of them.
  chosen_addr :
      (c : IgnoredNodeCollection) (addr : String) (best : Score) (xs : List (SourceNode × Random))
      → Among (IsOf c addr best) xs
      → addr == "" ≡ false
  unfolding is_eligible
  chosen_addr c addr best [] p = elim p [ ]
  chosen_addr c addr best ((n, draw) ∷ xs) (inl (e, a, b)) = ground (arith, e, a)
  chosen_addr c addr best (x ∷ xs) (inr p) = chosen_addr c addr best xs p

  none_eligible :
      (c : IgnoredNodeCollection) (xs : List (SourceNode × Random))
      → IsOrder floats
      → All (IsBelow c lowest) xs
      → All (λ x. is_eligible c x ≡ false) xs
  unfolding score_of
  none_eligible c [] laws b = tt
  none_eligible c ((n, draw) ∷ xs) laws b = (
    elim b.0 [
      | inl e ↦ e
      | inr h ↦
          cc (laws.positive (if same_nat n our_global_ip then 8000 else 0) (bonus_of n) draw, h)
    ],
    none_eligible c xs laws b.1,
  )

  -- Given an order of scores above -1, the answer is the address of a node that may be chosen (not
  -- firewalled, with an address, and that not ignored) and that no such node beats; or no node may
  -- be chosen, and the answer is the tracker's address, if it has one that is not ignored, else
  -- none.
  pub select_source_host-IsBest :
      (nodes : List (SourceNode × Random)) (ignored : IgnoredNodeCollection) (tracker_addr : String)
      → IsOrder floats
      → let r = select_source_host floats now our_global_ip nodes ignored tracker_addr in
        IsBest ignored nodes r
        ⊎ (All (λ x. is_eligible ignored x ≡ false) nodes
            × (r ≡ tracker_or_none ignored tracker_addr))
  unfolding select_source_host
  select_source_host-IsBest nodes ignored tracker_addr laws =
      let start : Search floats = record {
        ignored = ignored;
        best_addr = "";
        best_score = lowest;
      } in
      let all = search_all-Rounds ignored start nodes laws (λ addr. refl) in
      elim all.outcome [
        | inl (a, b) ↦ inr (
          none_eligible ignored nodes laws (subst (λ s. All (IsBelow ignored s) nodes) b all.below),
          rw (all.same tracker_addr) (simp a refl),
        )
        | inr p ↦
            let found = chosen_addr ignored _ _ nodes p in
            let best = (search_all floats now our_global_ip start nodes).best_score in
            inl
              (best, subst (λ r. Among (IsOf ignored r best) nodes) (simp found refl) p, all.below)
      ]
