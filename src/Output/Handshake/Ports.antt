-- ===== src/Output/Handshake/Ports.antt =====
-- The port that `handshake` of internal/servent/pcp.go keeps of a peer, and which addresses
-- isSiteLocal takes for those of its own site.
use peercast_mi.Base.{
  leb, ◌&&◌, ◌||◌, ◌==◌, get_or, subst, ℕ, ◌≤◌, ◌≡◌, ◌≢◌, refl, sym, ◌∙◌, ◌⊎◌, inl, inr, Bool, true,
  false, nat_eq, List, some, arith, Bool-cases, Option-cases, beq-cases,
}
use peercast_mi.Pcp.{HeloPacket}
use peercast_mi.Network.{IpLibrary}
use peercast_mi.Output.Handshake.{SiteLibrary, is_site_local, remote_port_of}

-- The first two bytes of an address in 10.0.0.0/8, 172.16.0.0/12, 192.168.0.0/16 or 169.254.0.0/16.
abbrev pub IsLocalRange : ℕ → ℕ → Type 0
IsLocalRange a b =
    (a ≡ 10) ⊎ ((a ≡ 172) × 16 ≤ b × b ≤ 31) ⊎ ((a ≡ 192) × (b ≡ 168)) ⊎ ((a ≡ 169) × (b ≡ 254))

in_local_range : ℕ → ℕ → Bool
in_local_range a b =
    a == 10
    || ((a == 172 && (leb 16 b && leb b 31)) || ((a == 192 && b == 168) || (a == 169 && b == 254)))

in_local_range-cases :
    (a b : ℕ)
    → ((in_local_range a b ≡ true) × IsLocalRange a b)
      ⊎ ((in_local_range a b ≡ false) × (¬ IsLocalRange a b))
unfolding in_local_range
in_local_range-cases a b = elim (Bool-cases (in_local_range a b)) [
  | inl h ↦ inl (h, ground (arith, h))
  | inr h ↦ inr (h, λ r. ground (arith, h, r))
]

some_inj : {x y : List ℕ} → some x ≡ some y → x ≡ y
some_inj e = cc

-- An address that only its own site reaches: the standard library says so, or it has a 4-byte form
-- in such a range.
abbrev pub IsSiteLocal : IpLibrary → SiteLibrary → List ℕ → Type 0
IsSiteLocal net site ip =
    (site.is_private ip ≡ true)
    ⊎ (site.is_link_local ip ≡ true)
    ⊎ ((v4 : List ℕ) × (net.to4 ip ≡ some v4) × IsLocalRange (get_or v4 0 0) (get_or v4 1 0))

is_site_local-cases :
    (net : IpLibrary) (site : SiteLibrary) (ip : List ℕ)
    → ((is_site_local net site ip ≡ true) × IsSiteLocal net site ip)
      ⊎ ((is_site_local net site ip ≡ false) × (¬ IsSiteLocal net site ip))
unfolding is_site_local in_local_range
is_site_local-cases net site ip = elim (Bool-cases (site.is_private ip)) [
  | inl p ↦ inl (rw p refl, inl p)
  | inr p ↦ elim (Bool-cases (site.is_link_local ip)) [
    | inl q ↦ inl (rw (p, q) refl, inr (inl q))
    | inr q ↦ elim (Option-cases (net.to4 ip)) [
      | inl e ↦ inr (
        rw (p, q, e, is_site_local) refl,
        λ l. elim l [
          | inl p' ↦ cc (p, p')
          | inr (inl q') ↦ cc (q, q')
          | inr (inr (v4, e', r)) ↦ cc (e, e')
        ],
      )
      | inr (v4, e) ↦ elim (in_local_range-cases (get_or v4 0 0) (get_or v4 1 0)) [
        | inl (t, r) ↦ inl (rw (p, q, e, is_site_local) t, inr (inr (v4, e, r)))
        | inr (t, no_range) ↦ inr (
          rw (p, q, e, is_site_local) t,
          λ l. elim l [
            | inl p' ↦ cc (p, p')
            | inr (inl q') ↦ cc (q, q')
            | inr (inr (v4', e', r)) ↦
                no_range (
                  subst (λ v. IsLocalRange (get_or v 0 0) (get_or v 1 0)) (some_inj (sym e' ∙ e)) r)
          ],
        )
      ]
    ]
  ]
]

-- What the node keeps as the port of a peer: the one that the helo asks to be checked, if the remote
-- address is not of this site and answers there; none if it asks and that fails; and the one that
-- it claims, unchecked, if it asks for nothing.
abbrev pub IsPortOf : IpLibrary → SiteLibrary → HeloPacket → List ℕ → Bool → ℕ → Type 0
IsPortOf net site peer remote answered port =
    ((peer.ping ≢ 0) × (¬ IsSiteLocal net site remote) × (answered ≡ true) × (port ≡ peer.ping))
    ⊎ ((peer.ping ≢ 0) × (IsSiteLocal net site remote ⊎ (answered ≡ false)) × (port ≡ 0))
    ⊎ ((peer.ping ≡ 0) × (port ≡ peer.port))

pub remote_port_of-IsPortOf :
    (net : IpLibrary) (site : SiteLibrary) (peer : HeloPacket) (remote : List ℕ) (answered : Bool)
    → IsPortOf net site peer remote answered
        (remote_port_of peer (is_site_local net site remote) answered)
unfolding remote_port_of
remote_port_of-IsPortOf net site peer remote answered = elim (beq-cases peer.ping 0) [
  | inl (e, p) ↦ rw e (inr (inr (p, refl)))
  | inr (e, p) ↦ elim (is_site_local-cases net site remote) [
    | inl (f, l) ↦ rw (e, f) (inr (inl (p, inl l, refl)))
    | inr (f, l) ↦ elim (Bool-cases answered) [
      | inl g ↦ rw (e, f, g) (inl (p, l, refl, refl))
      | inr g ↦ rw (e, f, g) (inr (inl (p, inr refl, refl)))
    ]
  ]
]
