-- ===== src/Relay/Reports/Own.antt =====
-- What BuildHostAtom of internal/pcputil/host.go takes for a node's own address and for its being
-- firewalled.
use peercast_mi.Base.{
  subst, ℕ, ◌≡◌, ◌≢◌, refl, sym, ap, ◌∙◌, ◌⊎◌, inl, inr, Bool, true, false, not, ◌&&◌, ◌==◌, nat_eq,
  if◌then◌else◌, List, Option, none, some, length, replicate, arith, Bool-cases, Option-cases,
  beq-cases,
}
use peercast_mi.Pcp.{PcpLibrary}
use peercast_mi.Network.{IpLibrary, NetworkState, status, protocol_version}
use peercast_mi.Network.Host.{HostAtomParams, Reach, reach_of, from_network, or_from}

module _ (lib : PcpLibrary) (ips : IpLibrary) (to_number : List ℕ → ℕ)
    (to16 : List ℕ → List ℕ) where
  -- An address that is given, or else the one that a number is.
  abbrev pub IsGiven : Option (List ℕ) → ℕ → List ℕ → Type 0
  IsGiven o n ip = (o ≡ some ip) ⊎ ((o ≡ none) × (ip ≡ lib.ipv4_from_uint32 n))

  -- The global address before what an IPv6 node says without one: the one that the state of the
  -- network has for the family of the local address, or else the one that is given.
  abbrev pub IsKnown : HostAtomParams → List ℕ → List ℕ → Type 0
  IsKnown p here raw =
      ((p.network ≡ none) × IsGiven p.global_address p.global_ip raw)
      ⊎ ((nw : NetworkState) × (p.network ≡ some nw)
          × (((length (status ips nw (some here)).ip ≢ 0) × (raw ≡ (status ips nw (some here)).ip))
              ⊎ ((length (status ips nw (some here)).ip ≡ 0)
                  × IsGiven p.global_address p.global_ip raw)))

  abbrev pub IsThere : List ℕ → Type 0
  IsThere ip = (length ip ≢ 0) × (ips.is_unspecified ip ≡ false)

  abbrev pub IsMissing : List ℕ → Type 0
  IsMissing ip = (length ip ≡ 0) ⊎ (ips.is_unspecified ip ≡ true)

  -- The address that a node reports as its own; sixteen zero bytes for an IPv6 node without one.
  abbrev pub IsOwnAddress : HostAtomParams → List ℕ → List ℕ → Type 0
  IsOwnAddress p here own =
      (raw : List ℕ) × IsKnown p here raw
      × ((((protocol_version ips (some here) ≢ 100) ⊎ IsThere raw) × (own ≡ raw))
          ⊎ ((protocol_version ips (some here) ≡ 100) × IsMissing raw × (own ≡ replicate 16 0)))

  -- A node is firewalled unless its port is known to be open; without a state of the network it is
  -- what it is said to be.
  abbrev pub IsFirewalled : HostAtomParams → List ℕ → Bool → Type 0
  IsFirewalled p here f =
      ((p.network ≡ none) × (f ≡ p.firewalled))
      ⊎ ((nw : NetworkState) × (p.network ≡ some nw)
          × ((((status ips nw (some here)).known ≡ true)
                × ((status ips nw (some here)).port_open ≡ true)
                × (f ≡ false))
              ⊎ ((((status ips nw (some here)).known ≡ false)
                    ⊎ ((status ips nw (some here)).port_open ≡ false))
                  × (f ≡ true))))

  pub or_from-IsGiven :
      (o : Option (List ℕ)) (n : ℕ) (ip : List ℕ)
      → IsGiven o n ip
      → or_from ips lib to_number to16 o n ≡ ip
  unfolding or_from
  or_from-IsGiven o n ip (inl e) = rw e refl
  or_from-IsGiven o n ip (inr (e, k)) = rw e (sym k)

  -- What `BuildHostAtom` starts from.
  abbrev given_reach : HostAtomParams → Reach
  given_reach p = record {
    address = or_from ips lib to_number to16 p.global_address p.global_ip;
    is_firewalled = p.firewalled;
    has_global = p.has_global_ip;
  }

  abbrev known_reach : HostAtomParams → List ℕ → Reach
  known_reach p here = from_network ips lib to_number to16 p.network here (given_reach p)

  known_reach-address :
      (p : HostAtomParams) (here raw : List ℕ)
      → IsKnown p here raw
      → (known_reach p here).address ≡ raw
  unfolding from_network
  known_reach-address p here raw (inl (e, g)) = rw (e, from_network) (or_from-IsGiven _ _ raw g)
  known_reach-address p here raw (inr (nw, e, inl (there, k))) =
      elim (beq-cases (length (status ips nw (some here)).ip) 0) [
        | inl (h, z) ↦ absurd (there z)
        | inr (h, z) ↦ rw (e, from_network, h) (sym k)
      ]
  known_reach-address p here raw (inr (nw, e, inr (z, g))) =
      let h : (length (status ips nw (some here)).ip == 0) ≡ true = ground arith in
      rw (e, from_network, h) (or_from-IsGiven _ _ raw g)

  known_reach-IsFirewalled :
      (p : HostAtomParams) (here : List ℕ) → IsFirewalled p here (known_reach p here).is_firewalled
  unfolding from_network
  known_reach-IsFirewalled p here = elim (Option-cases p.network) [
    | inl e ↦ rw (e, from_network) (inl (refl, refl))
    | inr (nw, e) ↦ elim (Bool-cases (status ips nw (some here)).known) [
      | inr k ↦ rw (e, from_network, k) (inr (nw, refl, inr (inl k, refl)))
      | inl k ↦ elim (Bool-cases (status ips nw (some here)).port_open) [
        | inr o ↦ rw (e, from_network, k, o) (inr (nw, refl, inr (inr o, refl)))
        | inl o ↦ rw (e, from_network, k, o) (inr (nw, refl, inl (k, o, refl)))
      ]
    ]
  ]

  -- The end of `BuildHostAtom`'s look at addresses.
  abbrev zeroed : List ℕ → Reach → Reach
  zeroed here r =
      if protocol_version ips (some here) == 100
        && not (not (length r.address == 0) && not (ips.is_unspecified r.address))
      then record r { address = replicate 16 0 }
      else r

  zeroed-is_firewalled :
      (here : List ℕ) (r : Reach) → (zeroed here r).is_firewalled ≡ r.is_firewalled
  zeroed-is_firewalled here r = ground arith

  zeroed-kept :
      (here : List ℕ) (r : Reach)
      → (protocol_version ips (some here) ≢ 100) ⊎ IsThere r.address
      → (zeroed here r).address ≡ r.address
  zeroed-kept here r h = ground (arith, h)

  zeroed-missing :
      (here : List ℕ) (r : Reach)
      → protocol_version ips (some here) ≡ 100
      → IsMissing r.address
      → (zeroed here r).address ≡ replicate 16 0
  zeroed-missing here r h m = ground (arith, h, m)

  reach_of-zeroed :
      (p : HostAtomParams) (here : List ℕ)
      → IsGiven p.local_address p.local_ip here
      → reach_of ips lib to_number to16 p ≡ zeroed here (known_reach p here)
  unfolding reach_of
  reach_of-zeroed p here g =
      ap (λ l. zeroed l (known_reach p l)) (or_from-IsGiven p.local_address p.local_ip here g)

  pub reach_of-address :
      (p : HostAtomParams) (here own : List ℕ)
      → IsGiven p.local_address p.local_ip here
      → IsOwnAddress p here own
      → (reach_of ips lib to_number to16 p).address ≡ own
  reach_of-address p here own g (raw, k, inl (h, e)) =
      ap (λ (r : Reach). r.address) (reach_of-zeroed p here g)
      ∙ zeroed-kept here (known_reach p here) (
          subst (λ a. (protocol_version ips (some here) ≢ 100) ⊎ IsThere a)
            (sym (known_reach-address p here raw k)) h)
      ∙ known_reach-address p here raw k
      ∙ sym e
  reach_of-address p here own g (raw, k, inr (h, m, e)) =
      ap (λ (r : Reach). r.address) (reach_of-zeroed p here g)
      ∙ zeroed-missing here (known_reach p here) h
          (subst IsMissing (sym (known_reach-address p here raw k)) m)
      ∙ sym e

  pub reach_of-IsFirewalled :
      (p : HostAtomParams) (here : List ℕ)
      → IsGiven p.local_address p.local_ip here
      → IsFirewalled p here (reach_of ips lib to_number to16 p).is_firewalled
  reach_of-IsFirewalled p here g =
      subst (IsFirewalled p here)
        (sym (
          ap (λ (r : Reach). r.is_firewalled) (reach_of-zeroed p here g)
          ∙ zeroed-is_firewalled here (known_reach p here)))
        (known_reach-IsFirewalled p here)
