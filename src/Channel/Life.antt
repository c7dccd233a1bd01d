-- ===== src/Channel/Life.antt =====
-- The life of a channel's output streams as a state machine: admissions under limits, departures,
-- evictions and the closing of all, in any order.
use peercast_mi.Base.{
  ℕ, ◌≤◌, ◌≡◌, ◌≢◌, refl, sym, ap, ◌∙◌, ◌⊎◌, inl, inr, String, Bool, not, leb, ◌==◌, nat_eq, List,
  [], ◌∷◌, ◌++◌, Option, none, some, All, arith, Option-cases, Bool-cases, find, subst, not, ◌&&◌,
  ◌||◌, ltb,
}
use peercast_mi.Pcp.{PcpLibrary}
use peercast_mi.Channel.{
  Channel, OutputStream, OutputStreamType, is_pcp, add_output, try_add_output, remove_output,
  remove_first, close_all, make_relayable, ban_remote, ban, is_victim,
}
use peercast_mi.Channel.Outputs.{IsCounted, IsObject, remove_output-IsCounted, try_add_output_lem}
use peercast_mi.Channel.Slots.{make_relayable_lem}

module _ (kind_of : ℕ → OutputStreamType) where
  -- Streams whose kind is that of the object that they are.
  abbrev pub HasKind : OutputStream → Type 0
  HasKind o = o.kind ≡ kind_of o.ref

  HasKind-IsObject :
      (o : OutputStream) (os : List OutputStream) → HasKind o → All HasKind os → IsObject o os
  HasKind-IsObject o [] k a = tt
  HasKind-IsObject o (x ∷ os) k a = (same, HasKind-IsObject o os k a.1)
    where
      same : (x.ref ≢ o.ref) ⊎ (x.kind ≡ o.kind)
      same = elim (Bool-cases (x.ref == o.ref)) [
        | inl e ↦ inr (a.0 ∙ ap kind_of (ground arith) ∙ sym k)
        | inr e ↦ inl (ground arith)
      ]

  pub HasKind-AreObjects :
      (os xs : List OutputStream) → All HasKind os → All HasKind xs → All (λ o. IsObject o os) xs
  HasKind-AreObjects os [] a b = tt
  HasKind-AreObjects os (x ∷ xs) a b = (HasKind-IsObject x os b.0 a, HasKind-AreObjects os xs a b.1)

  All-append :
      (os : List OutputStream) (o : OutputStream)
      → All HasKind os
      → HasKind o
      → All HasKind (os ++ o ∷ [])
  All-append [] o a k = (k, tt)
  All-append (x ∷ os) o a k = (a.0, All-append os o a.1 k)

  AllIn : Option (List OutputStream) → Type 0
  AllIn none = Unit {0}
  AllIn (some os) = All HasKind os

  AllIn-cons :
      (x : OutputStream) (r : Option (List OutputStream))
      → HasKind x
      → AllIn r
      → AllIn (elim r [ none ↦ none | some os ↦ some (x ∷ os) ])
  unfolding AllIn
  AllIn-cons x none k a = tt
  AllIn-cons x (some os) k a = (k, a)

  remove_first-AllIn :
      (ref : ℕ) (os : List OutputStream) → All HasKind os → AllIn (remove_first ref os)
  unfolding remove_first AllIn
  remove_first-AllIn ref [] a = tt
  remove_first-AllIn ref (o ∷ os) a = elim (Bool-cases (o.ref == ref)) [
    | inl e ↦ rw e (a.1)
    | inr e ↦ rw e (AllIn-cons o (remove_first ref os) a.0 (remove_first-AllIn ref os a.1))
  ]

  module _ {A : Type 0} where
    remove_output-All :
        (c : Channel A) (o : OutputStream)
        → All HasKind c.outputs
        → All HasKind (remove_output c o).outputs
    unfolding remove_output AllIn
    remove_output-All c o a =
        let kept = remove_first-AllIn o.ref c.outputs a in
        elim (Option-cases (remove_first o.ref c.outputs)) [
          | inl e ↦ rw (e, remove_output) a
          | inr (os, e) ↦
              let here : All HasKind os = rw e at kept in
              elim (Bool-cases (is_pcp o.kind)) [
                | inl k ↦ rw (e, remove_output) (rw k here)
                | inr k ↦ rw (e, remove_output) (rw k here)
              ]
        ]

  module _ (lib : PcpLibrary) (split_host : String → Option String) (is_local : String → Bool) where
    open lib use {Atom}

    ban_remote-outputs :
        (c : Channel Atom) (now : ℕ) (o : OutputStream)
        → (ban_remote lib split_host is_local c now o).outputs ≡ c.outputs
    unfolding ban_remote ban
    ban_remote-outputs c now o = elim (Option-cases (split_host o.remote_addr)) [
      | inl e ↦ rw (e, ban_remote)
      | inr (h, e) ↦ rw (e, ban_remote)
    ]

    make_relayable-All :
        (c : Channel Atom) (now max_relays : ℕ) (force : Bool)
        → All HasKind c.outputs
        → All HasKind (make_relayable lib split_host is_local c now max_relays force).0.outputs
    unfolding make_relayable
    make_relayable-All c now max_relays force a =
        elim (Bool-cases (not force && (max_relays == 0 || ltb c.num_relays max_relays))) [
          | inl free ↦ rw free a
          | inr full ↦
              elim (Option-cases (find (is_victim lib split_host is_local c now) c.outputs)) [
                | inl e ↦ rw full (rw (e, make_relayable) a)
                | inr (victim, e) ↦
                    let b = ban_remote lib split_host is_local c now victim in
                    let kept : All HasKind b.outputs = rw (ban_remote-outputs c now victim) a in
                    rw full (rw (e, make_relayable) (remove_output-All b victim kept))
              ]
        ]

    module _ (max_relays max_listeners : ℕ) where
      -- One step of a channel with these limits. A stream that joins is of the kind of its object.
      pub data Step (c : Channel Atom) : Channel Atom → Type 0 where
        admit :
            (o : OutputStream) → HasKind o → Step c (try_add_output c o max_relays max_listeners).0
        leave : (o : OutputStream) → HasKind o → Step c (remove_output c o)
        make_room :
            (now : ℕ) (force : Bool)
            → Step c (make_relayable lib split_host is_local c now max_relays force).0
        shut : Step c (close_all c).0

      pub data Reach (c : Channel Atom) : Channel Atom → Type 0 where
        here : Reach c c
        next : {d e : Channel Atom} → Reach c d → Step d e → Reach c e

      -- Within a limit, where 0 is none.
      abbrev pub Within : ℕ → ℕ → Type 0
      Within n limit = (limit ≡ 0) ⊎ (n ≤ limit)

      pub record IsSound (c : Channel Atom) : Type 0 where
        pub counted : IsCounted c
        pub kinds : All HasKind c.outputs
        pub relays_within : Within c.num_relays max_relays
        pub listeners_within : Within c.num_listeners max_listeners

      admit-All :
          (c : Channel Atom) (o : OutputStream)
          → HasKind o
          → All HasKind c.outputs
          → All HasKind (try_add_output c o max_relays max_listeners).0.outputs
      unfolding try_add_output add_output
      admit-All c o k a =
          let longer = All-append c.outputs o a k in
          elim (Bool-cases (is_pcp o.kind)) [
            | inl e ↦ rw e (elim (Bool-cases (ltb 0 max_relays && leb max_relays c.num_relays)) [
              | inl full ↦ rw full a
              | inr free ↦ rw free longer
            ])
            | inr e ↦
                rw e (elim (Bool-cases (ltb 0 max_listeners && leb max_listeners c.num_listeners)) [
                  | inl full ↦ rw full a
                  | inr free ↦ rw free longer
                ])
          ]

      admit-IsSound :
          (c : Channel Atom) (o : OutputStream)
          → HasKind o
          → IsSound c
          → IsSound (try_add_output c o max_relays max_listeners).0
      unfolding try_add_output add_output
      admit-IsSound c o k v = record {
        counted = (try_add_output_lem c o max_relays max_listeners v.counted).0;
        kinds = admit-All c o k v.kinds;
        relays_within = ground (arith, v.relays_within);
        listeners_within = ground (arith, v.listeners_within);
      }

      leave-IsSound :
          (c : Channel Atom) (o : OutputStream)
          → HasKind o
          → IsSound c
          → IsSound (remove_output c o)
      unfolding remove_output
      leave-IsSound c o k v = record {
        counted = remove_output-IsCounted c o (HasKind-IsObject o c.outputs k v.kinds) v.counted;
        kinds = remove_output-All c o v.kinds;
        relays_within = ground (arith, v.relays_within);
        listeners_within = ground (arith, v.listeners_within);
      }

      pub make_room-IsSound :
          (c : Channel Atom) (now : ℕ) (force : Bool)
          → IsSound c
          → IsSound (make_relayable lib split_host is_local c now max_relays force).0
      make_room-IsSound c now force v =
          let r =
            make_relayable_lem lib split_host is_local c now max_relays force v.counted
              (HasKind-AreObjects c.outputs c.outputs v.kinds v.kinds) in
          let a = make_relayable-All c now max_relays force v.kinds in
          elim r.1 [
            | inl (_, _, same, _, _) ↦ subst IsSound (sym same) v
            | inr (_, inl (_, same, _, _)) ↦ subst IsSound (sym same) v
            | inr (_, inr (_, _, _, _, rs, ls, _)) ↦ record {
              counted = r.0;
              kinds = a;
              relays_within = ground (arith, v.relays_within, rs);
              listeners_within = ground (arith, v.listeners_within, ls);
            }
          ]

      shut-IsSound : (c : Channel Atom) → IsSound (close_all c).0
      unfolding close_all
      shut-IsSound c = record {
        counted = record { relays = refl; listeners = refl };
        kinds = tt;
        relays_within = omega arith;
        listeners_within = omega arith;
      }

      Step-IsSound : {c d : Channel Atom} → Step c d → IsSound c → IsSound d
      Step-IsSound (admit o k) v = admit-IsSound _ o k v
      Step-IsSound (leave o k) v = leave-IsSound _ o k v
      Step-IsSound (make_room now force) v = make_room-IsSound _ now force v
      Step-IsSound shut v = shut-IsSound _

      -- Every channel that is reached from a sound one is sound: the counters are the numbers of
      -- its relay and player streams, each stream is of the kind of its object, and no limit is
      -- exceeded, after any order of admissions, departures, evictions and closings of all streams.
      pub Reach-IsSound : {c d : Channel Atom} → Reach c d → IsSound c → IsSound d
      Reach-IsSound here v = v
      Reach-IsSound (next r s) v = Step-IsSound s (Reach-IsSound r v)
