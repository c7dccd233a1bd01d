-- ===== src/Route/Accept.antt =====
-- Which broadcast packets a node takes for itself.
use peercast_mi.Base.{
  ◌≡◌, ◌≢◌, ◌↔◌, ◌⊎◌, inl, inr, refl, sym, ap, subst, ◌∙◌, Bool, true, false, not, ◌&&◌, ◌||◌, ◌==◌,
  nat_eq, if◌then◌else◌, Option, none, some, arith, Bool-cases, Option-cases, beq-cases,
}
use peercast_mi.Pcp.{GnuId, PcpLibrary, find_child}
use peercast_mi.Route.{admits, addressed, forwarded, route_bcst}

and_true : (a b c : Bool) → a && (b && c) ≡ true → (a ≡ true) × (b ≡ true) × (c ≡ true)
and_true a b c e = (ground arith, ground arith, ground arith)

-- Three early returns are one test.
guards :
    {A : Type 0} (a b c : Bool) (x y : A)
    → (if not a then x else if not b then x else if not c then x else y)
      ≡ (if a && (b && c) then y else x)
guards false b c x y = refl
guards true false c x y = refl
guards true true false x y = refl
guards true true true x y = refl

module _ (lib : PcpLibrary) where
  open lib use {Atom, tag_eq, tag, get_id, bcst, bcst_from, bcst_dest, bcst_channel_id}

  -- An identifier that is not there, or can be read and satisfies a condition.
  abbrev pub Reads : Option Atom → (GnuId → Type 0) → Type 0
  Reads none P = Unit
  Reads (some c) P = (id : GnuId) × (get_id c ≡ some id) × P id

  -- A packet that is a broadcast, not from the node itself, and for the channel or for any.
  pub record IsAccepted (a : Atom) (self channel_id : GnuId) : Type 0 where
    pub is_bcst : tag a ≡ bcst
    pub from : Reads (find_child lib a bcst_from) (λ id. id ≢ self)
    pub channel : Reads (find_child lib a bcst_channel_id) (λ id. (id ≡ 0) ⊎ (id ≡ channel_id))

  some-injective : {x y : GnuId} → some x ≡ some y → x ≡ y
  some-injective e = ap (λ o. elim o [ none ↦ 0 | some z ↦ z ]) e

  admits-Reads :
      (c : Option Atom) (ok : GnuId → Bool) (P : GnuId → Type 0)
      → ((id : GnuId) → (ok id ≡ true) ↔ P id)
      → (admits lib c ok ≡ true) ↔ Reads c P
  unfolding admits
  admits-Reads none ok P h = (λ _. tt, λ _. refl)
  admits-Reads (some c) ok P h = elim (Option-cases (get_id c)) [
    | inl e ↦ (rw e (λ p. cc p), λ (id, e', p). cc)
    | inr (id, e) ↦ (
      rw (e, admits) (λ p. (id, refl, (h id).0 p)),
      λ (id', e', p). rw (e, admits) ((h id).1 (subst P (some-injective (sym e' ∙ e)) p)),
    )
  ]

  -- The three tests that come first.
  unfoldable accepts : Atom → GnuId → GnuId → Bool
  accepts a self channel_id =
      tag_eq.beq (tag a) bcst
      && (admits lib (find_child lib a bcst_from) (λ id. not (id == self))
          && admits lib (find_child lib a bcst_channel_id) (λ id. id == 0 || id == channel_id))

  accepts-IsAccepted :
      (a : Atom) (self channel_id : GnuId)
      → (accepts a self channel_id ≡ true) ↔ IsAccepted a self channel_id
  unfolding accepts
  accepts-IsAccepted a self channel_id =
      let from =
        admits-Reads (find_child lib a bcst_from) _ (λ id. id ≢ self) (λ id. ground arith) in
      let channel =
        admits-Reads (find_child lib a bcst_channel_id) _ (λ id. (id ≡ 0) ⊎ (id ≡ channel_id))
          (λ id. ground arith) in
      let same = tag_eq.beq_iff (tag a) bcst in
      (
        λ h.
            let (x, y, z) = and_true _ _ _ h in
            record { is_bcst = same.0 x; from = from.0 y; channel = channel.0 z },
        λ v. rw (same.1 v.is_bcst, from.1 v.from) (channel.1 v.channel),
      )

  route_bcst-accepts :
      (a : Atom) (self channel_id : GnuId)
      → route_bcst lib (some a) self channel_id ≡ (
          if accepts a self channel_id
          then addressed lib (find_child lib a bcst_dest) (forwarded lib a) self
          else (false, none))
  unfolding accepts route_bcst
  route_bcst-accepts a self channel_id =
      guards (tag_eq.beq (tag a) bcst)
        (admits lib (find_child lib a bcst_from) (λ id. not (id == self)))
        (admits lib (find_child lib a bcst_channel_id) (λ id. id == 0 || id == channel_id))
        (false, none) (addressed lib (find_child lib a bcst_dest) (forwarded lib a) self)

  addressed-local :
      (dest forward : Option Atom) (self : GnuId)
      → ((addressed lib dest forward self).0 ≡ true) ↔ Reads dest (λ id. (id ≡ 0) ⊎ (id ≡ self))
  unfolding addressed
  addressed-local none forward self = (λ _. tt, λ _. refl)
  addressed-local (some d) forward self = elim (Option-cases (get_id d)) [
    | inl e ↦ (rw e (λ p. cc p), λ (id', e', p). cc)
    | inr (id, e) ↦ (
      rw (e, addressed) (λ p. (id, refl, ground (arith, p))),
      λ (id', e', p). rw (e, addressed) (ground (arith, p, some-injective (sym e' ∙ e))),
    )
  ]

  addressed-forwards :
      (dest forward : Option Atom) (self : GnuId) (f : Atom)
      → ((addressed lib dest forward self).1 ≡ some f)
        ↔ (Reads dest (λ id. id ≢ self) × (forward ≡ some f))
  unfolding addressed
  addressed-forwards none forward self f = (λ e. (tt, e), λ (_, e). e)
  addressed-forwards (some d) forward self f = elim (Option-cases (get_id d)) [
    | inl e ↦ (rw e (λ p. cc p), λ ((id', e', p), q). cc)
    | inr (id, e) ↦ elim (beq-cases id self) [
      | inl (t, same) ↦ (
        rw (e, addressed) (rw t (λ p. cc p)),
        λ ((id', e', p), q). absurd (p (some-injective (sym e' ∙ e) ∙ same)),
      )
      | inr (t, other) ↦ (
        rw (e, addressed) (rw t (λ p. ((id, refl, other), p))),
        λ (_, q). rw (e, addressed) (rw t q),
      )
    ]
  ]

  -- A packet is taken for the node itself exactly when it is accepted and its destination, if it
  -- names one, can be read and is everybody or the node.
  pub route_bcst-local :
      (a : Atom) (self channel_id : GnuId)
      → ((route_bcst lib (some a) self channel_id).0 ≡ true) ↔ (
          IsAccepted a self channel_id
          × Reads (find_child lib a bcst_dest) (λ id. (id ≡ 0) ⊎ (id ≡ self)))
  route_bcst-local a self channel_id =
      let accept = accepts-IsAccepted a self channel_id in
      let dest = addressed-local (find_child lib a bcst_dest) (forwarded lib a) self in
      elim (Bool-cases (accepts a self channel_id)) [
        | inl e ↦ (
          rw (route_bcst-accepts a self channel_id) (rw e (λ p. (accept.0 e, dest.0 p))),
          λ (_, p). rw (route_bcst-accepts a self channel_id) (rw e (dest.1 p)),
        )
        | inr e ↦ (
          rw (route_bcst-accepts a self channel_id) (rw e (λ p. cc p)),
          λ (v, _). absurd (ne (sym e ∙ accept.1 v)),
        )
      ]
    where
      ne : false ≢ true
      ne p = cc p

  -- A packet is sent on exactly when it is accepted, its destination, if it names one, can be
  -- read and is not the node, and its fields let it go on; it is sent on as they say.
  pub route_bcst-sends :
      (a f : Atom) (self channel_id : GnuId)
      → ((route_bcst lib (some a) self channel_id).1 ≡ some f) ↔ (
          IsAccepted a self channel_id
          × Reads (find_child lib a bcst_dest) (λ id. id ≢ self)
          × (forwarded lib a ≡ some f))
  route_bcst-sends a f self channel_id =
      let accept = accepts-IsAccepted a self channel_id in
      let dest = addressed-forwards (find_child lib a bcst_dest) (forwarded lib a) self f in
      elim (Bool-cases (accepts a self channel_id)) [
        | inl e ↦ (
          rw (route_bcst-accepts a self channel_id)
              (rw e (λ p. (accept.0 e, (dest.0 p).0, (dest.0 p).1))),
          λ (_, p, q). rw (route_bcst-accepts a self channel_id) (rw e (dest.1 (p, q))),
        )
        | inr e ↦ (
          rw (route_bcst-accepts a self channel_id) (rw e (λ p. cc p)),
          λ (v, _, _). absurd (ne (sym e ∙ accept.1 v)),
        )
      ]
    where
      ne : false ≢ true
      ne p = cc p
