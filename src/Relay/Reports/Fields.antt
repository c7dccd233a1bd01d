-- ===== src/Relay/Reports/Fields.antt =====
-- The atoms of a report one by one, as internal/relay/sourcenode.go reads them.
use mathlib.Core.List.{reverse, reverse-cons, reverse-reverse}
use peercast_mi.Base.{
  ℕ, ◌^◌, ◌<◌, ◌≡◌, refl, ap, ◌∙◌, ◌⊎◌, inl, inr, true, false, nat_eq, string_eq, List, [], ◌∷◌,
  ◌++◌, none, some, length, length-append, arith, ltb,
}
use peercast_mi.Pcp.{PcpLibrary}
use peercast_mi.Network.{IpLibrary, atom_ip, ip_atom}
use peercast_mi.Relay.{SourceNode, AddressLibrary, Parsed, with_flags, read_field, read_fields}
use peercast_mi.Relay.Reports.{IsHostLibrary}

module _ (lib : PcpLibrary) (net : AddressLibrary) (ips : IpLibrary) (to16 : List ℕ → List ℕ)
    (laws : IsHostLibrary lib) where
  open lib use {Atom, Tag, tag}

  -- An address that an atom carries, and what it reads back as: its 4-byte form, if it has one,
  -- or its 16 bytes.
  abbrev pub ReadsBack : List ℕ → List ℕ → Type 0
  ReadsBack ip shown =
      ((v4 : List ℕ) × (ips.to4 ip ≡ some v4)
        × (net.ipv4_to_uint32 v4 < 2 ^ 32)
        × (lib.ipv4_from_uint32 (net.ipv4_to_uint32 v4) ≡ shown))
      ⊎ ((ips.to4 ip ≡ none) × (to16 ip ≡ shown) × (length shown ≡ 16))

  abbrev pub built_ip : Tag → List ℕ → Atom
  built_ip t ip = ip_atom ips lib net.ipv4_to_uint32 to16 t ip

  -- The atom of such an address.
  abbrev pub Carries : Tag → List ℕ → Atom → Type 0
  Carries t shown a =
      ((v : ℕ) × (a ≡ lib.new_int_atom t v) × (v < 2 ^ 32) × (lib.ipv4_from_uint32 v ≡ shown))
      ⊎ ((a ≡ lib.new_bytes_atom t (reverse shown)) × (length shown ≡ 16))

  pub ip_atom-Carries :
      (t : Tag) (ip shown : List ℕ) → ReadsBack ip shown → Carries t shown (built_ip t ip)
  unfolding ip_atom
  ip_atom-Carries t ip shown (inl (v4, e, b, k)) =
      inl (net.ipv4_to_uint32 v4, rw (e, ip_atom) refl, b, k)
  ip_atom-Carries t ip shown (inr (e, k, l)) = inr (rw (e, k, l, ip_atom) refl, l)

  length-reverse : (xs : List ℕ) → length (reverse xs) ≡ length xs
  length-reverse [] = refl
  length-reverse (x ∷ xs) =
      ap length (reverse-cons x xs)
      ∙ length-append (reverse xs) (x ∷ [])
      ∙ omega (arith, length-reverse xs)

  atom_ip-int :
      (t : Tag) (v : ℕ)
      → v < 2 ^ 32
      → atom_ip lib (lib.new_int_atom t v) ≡ some (lib.ipv4_from_uint32 v)
  unfolding atom_ip
  atom_ip-int t v b = rw (laws.length_int t v, laws.int_int t v b) refl

  atom_ip-bytes :
      (t : Tag) (v : List ℕ)
      → length v ≡ 16
      → atom_ip lib (lib.new_bytes_atom t v) ≡ some (reverse v)
  unfolding atom_ip
  atom_ip-bytes t v l = rw (laws.payload_bytes t v l, l) refl

  atom_ip-ip_atom :
      (t : Tag) (shown : List ℕ) (a : Atom) → Carries t shown a → atom_ip lib a ≡ some shown
  atom_ip-ip_atom t shown a (inl (v, e, b, k)) = ap (atom_ip lib) e ∙ atom_ip-int t v b ∙ ap some k
  atom_ip-ip_atom t shown a (inr (e, l)) =
      ap (atom_ip lib) e
      ∙ atom_ip-bytes t (reverse shown) (length-reverse shown ∙ l)
      ∙ ap some (reverse-reverse shown)

  Carries-tag : (t : Tag) (shown : List ℕ) (a : Atom) → Carries t shown a → tag a ≡ t
  Carries-tag t shown a (inl (v, e, b, k)) = ap tag e ∙ laws.tag_int t v
  Carries-tag t shown a (inr (e, l)) = ap tag e ∙ laws.tag_bytes t (reverse shown)

  -- What `IPAtom` builds has its tag, whatever the address.
  pub tag-ip_atom : (t : Tag) (ip : List ℕ) → tag (built_ip t ip) ≡ t
  unfolding ip_atom
  tag-ip_atom t ip = grind (arith, laws.tag_int, laws.tag_bytes)

  abbrev pub parsed : SourceNode → List (List ℕ) → List ℕ → Parsed
  parsed n addresses ports = record { node = n; ips = addresses; ports = ports }

  pub reads :
      (p q r : Parsed) (c : Atom) (cs : List Atom)
      → read_field lib net p c ≡ q
      → read_fields lib net q cs ≡ r
      → read_fields lib net p (c ∷ cs) ≡ r
  unfolding read_fields
  reads p q r c cs e h = ap (λ x. read_fields lib net x cs) e ∙ h

  pub reads-append :
      (xs ys : List Atom) (p q r : Parsed)
      → read_fields lib net p xs ≡ q
      → read_fields lib net q ys ≡ r
      → read_fields lib net p (xs ++ ys) ≡ r
  unfolding read_fields
  reads-append [] ys p q r e h = ap (λ x. read_fields lib net x ys) e ∙ h
  reads-append (x ∷ xs) ys p q r e h = reads-append xs ys (read_field lib net p x) q r e h

  module _ (n : SourceNode) (is : List (List ℕ)) (ps : List ℕ) where
    pub read_field-id :
        (v : ℕ)
        → read_field lib net (parsed n is ps) (lib.new_id_atom lib.host_id v)
          ≡ parsed (record n { session_id = v }) is ps
    unfolding read_field
    read_field-id v =
        rw
          (
            laws.tag_id lib.host_id v,
            laws.same_number lib.host_id lib.host_id,
            laws.number_id,
            laws.id_id lib.host_id v,
          )
          refl

    pub read_field-ip :
        (shown : List ℕ) (a : Atom)
        → Carries lib.host_ip shown a
        → length is < 2
        → read_field lib net (parsed n is ps) a ≡ parsed n (is ++ shown ∷ []) ps
    unfolding read_field
    read_field-ip shown a c l =
        let few : ltb (length is) 2 ≡ true = ground arith in
        rw
          (
            Carries-tag lib.host_ip shown a c,
            laws.same_number lib.host_ip lib.host_id,
            laws.same_number lib.host_ip lib.host_ip,
            laws.number_id,
            laws.number_ip,
            few,
            atom_ip-ip_atom lib.host_ip shown a c,
          )
          refl

    pub read_field-port :
        (v : ℕ)
        → v < 2 ^ 16
        → length ps < 2
        → read_field lib net (parsed n is ps) (lib.new_short_atom lib.host_port v)
          ≡ parsed n is (ps ++ v ∷ [])
    unfolding read_field
    read_field-port v b l =
        let few : ltb (length ps) 2 ≡ true = ground arith in
        rw
          (
            laws.tag_short lib.host_port v,
            laws.same_number lib.host_port lib.host_id,
            laws.same_number lib.host_port lib.host_ip,
            laws.same_number lib.host_port lib.host_port,
            laws.number_id,
            laws.number_ip,
            laws.number_port,
            few,
            laws.short_short lib.host_port v b,
          )
          refl

    pub read_field-flags :
        (v : ℕ)
        → v < 2 ^ 8
        → read_field lib net (parsed n is ps) (lib.new_byte_atom lib.host_flags1 v)
          ≡ parsed (with_flags lib net n v) is ps
    unfolding read_field
    read_field-flags v b =
        rw
          (
            laws.tag_byte lib.host_flags1 v,
            laws.same_number lib.host_flags1 lib.host_id,
            laws.same_number lib.host_flags1 lib.host_ip,
            laws.same_number lib.host_flags1 lib.host_port,
            laws.same_number lib.host_flags1 lib.host_flags1,
            laws.number_id,
            laws.number_ip,
            laws.number_port,
            laws.number_flags,
            laws.byte_byte lib.host_flags1 v b,
          )
          refl

    pub read_field-relays :
        (v : ℕ)
        → v < 2 ^ 32
        → read_field lib net (parsed n is ps) (lib.new_int_atom lib.host_num_relays v)
          ≡ parsed (record n { relay_count = v }) is ps
    unfolding read_field
    read_field-relays v b =
        let t = lib.host_num_relays in
        rw
          (
            laws.tag_int t v,
            laws.same_number t lib.host_id,
            laws.same_number t lib.host_ip,
            laws.same_number t lib.host_port,
            laws.same_number t lib.host_flags1,
            laws.same_number t t,
            laws.number_id,
            laws.number_ip,
            laws.number_port,
            laws.number_flags,
            laws.number_relays,
            laws.int_int t v b,
          )
          refl

    pub read_field-hops :
        (v : ℕ)
        → v < 2 ^ 32
        → read_field lib net (parsed n is ps) (lib.new_int_atom lib.host_uphost_hops v)
          ≡ parsed (record n { hops = v }) is ps
    unfolding read_field
    read_field-hops v b =
        let t = lib.host_uphost_hops in
        rw
          (
            laws.tag_int t v,
            laws.same_number t lib.host_id,
            laws.same_number t lib.host_ip,
            laws.same_number t lib.host_port,
            laws.same_number t lib.host_flags1,
            laws.same_number t lib.host_num_relays,
            laws.same_number t t,
            laws.number_id,
            laws.number_ip,
            laws.number_port,
            laws.number_flags,
            laws.number_relays,
            laws.number_hops,
            laws.int_int t v b,
          )
          refl

  -- An atom with another tag is passed over.
  pub read_field-other :
      (p : Parsed) (c : Atom) (t : Tag) → tag c ≡ t → 5 < laws.number t → read_field lib net p c ≡ p
  unfolding read_field
  read_field-other p c t e h =
      let k0 : lib.tag_eq.beq t lib.host_id ≡ false =
        laws.same_number t lib.host_id ∙ rw laws.number_id (ground arith) in
      let k1 : lib.tag_eq.beq t lib.host_ip ≡ false =
        laws.same_number t lib.host_ip ∙ rw laws.number_ip (ground arith) in
      let k2 : lib.tag_eq.beq t lib.host_port ≡ false =
        laws.same_number t lib.host_port ∙ rw laws.number_port (ground arith) in
      let k3 : lib.tag_eq.beq t lib.host_flags1 ≡ false =
        laws.same_number t lib.host_flags1 ∙ rw laws.number_flags (ground arith) in
      let k4 : lib.tag_eq.beq t lib.host_num_relays ≡ false =
        laws.same_number t lib.host_num_relays ∙ rw laws.number_relays (ground arith) in
      let k5 : lib.tag_eq.beq t lib.host_uphost_hops ≡ false =
        laws.same_number t lib.host_uphost_hops ∙ rw laws.number_hops (ground arith) in
      rw (e, k0, k1, k2, k3, k4, k5) refl
