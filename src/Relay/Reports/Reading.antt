-- ===== src/Relay/Reports/Reading.antt =====
-- A whole report of internal/pcputil/host.go, as internal/relay/sourcenode.go reads it.
use peercast_mi.Base.{
  ℕ, ◌%◌, ◌^◌, ◌<◌, ◌≡◌, refl, sym, ap, ◌∙◌, inl, inr, Bool, true, false, not, ◌&&◌, ◌||◌, ◌==◌,
  nat_eq, string_eq, if◌then◌else◌, List, [], ◌∷◌, ◌++◌, arith, Bool-cases,
}
use peercast_mi.Pcp.{PcpLibrary}
use peercast_mi.Network.{IpLibrary}
use peercast_mi.Network.Host.{
  HostAtomParams, Reach, reach_of, or_from, host_flags, host_children, tracker_children,
  hops_children, upstream_children, build_host_atom,
}
use peercast_mi.Relay.{
  SourceNode, AddressLibrary, Parsed, blank_node, read_field, read_fields, dialable, with_global,
  with_local, nth, parse_source_node,
}
use peercast_mi.Relay.Reports.{IsHostLibrary}
use peercast_mi.Relay.Reports.Flags.{flags_of, flags_of-byte, host_flags_lem, with_flags_lem}
use peercast_mi.Relay.Reports.Fields.{
  ReadsBack, ip_atom-Carries, tag-ip_atom, parsed, reads, reads-append, read_field-id,
  read_field-ip, read_field-port, read_field-flags, read_field-relays, read_field-hops,
  read_field-other,
}

module _ (lib : PcpLibrary) (net : AddressLibrary) (ips : IpLibrary) (to16 : List ℕ → List ℕ)
    (laws : IsHostLibrary lib) where
  open lib use {Atom, Tag, tag}

  abbrev pub own_reach : HostAtomParams → Reach
  own_reach p = reach_of ips lib net.ipv4_to_uint32 to16 p

  abbrev pub own_local : HostAtomParams → List ℕ
  own_local p = or_from ips lib net.ipv4_to_uint32 to16 p.local_address p.local_ip

  -- The hops of a report, which it names only with the node upstream.
  unfoldable pub announced_hops : HostAtomParams → ℕ
  announced_hops p =
      if not (
          ips.is_unspecified
            (or_from ips lib net.ipv4_to_uint32 to16 p.upstream_address p.uphost_ip))
        || not (p.uphost_port == 0)
      then p.uphost_hops
      else 0

  -- The node without the places where it can be dialled.
  abbrev pub reported : HostAtomParams → SourceNode
  reported p = record blank_node {
    session_id = p.session_id;
    is_firewalled = (own_reach p).is_firewalled;
    is_relay_full = p.relay_full;
    is_receiving = p.is_receiving;
    is_tracker = p.is_tracker;
    relay_count = p.num_relays % 2 ^ 32;
  }

  abbrev pub global_port : HostAtomParams → ℕ
  global_port p = if (own_reach p).is_firewalled then 0 else p.listen_port

  other_int :
      (p : Parsed) (t : Tag) (v : ℕ)
      → 5 < laws.number t
      → read_field lib net p (lib.new_int_atom t v) ≡ p
  other_int p t v h = read_field-other lib net ips to16 laws p _ t (laws.tag_int t v) h

  next :
      {q r : Parsed} (p : Parsed) (c : Atom) (cs : List Atom)
      → read_field lib net p c ≡ q
      → read_fields lib net q cs ≡ r
      → read_fields lib net p (c ∷ cs) ≡ r
  next {q} {r} p c cs e h = reads lib net ips to16 laws p q r c cs e h

  read_field-host_flags :
      (p : HostAtomParams) (r : Reach) (n : SourceNode) (is : List (List ℕ)) (ps : List ℕ)
      → read_field lib net
          (parsed lib net ips to16 laws n is ps)
          (lib.new_byte_atom lib.host_flags1 (host_flags ips lib net.ipv4_to_uint32 to16 p r))
        ≡ parsed lib net ips to16 laws
            (record n {
              is_firewalled = r.is_firewalled;
              is_relay_full = p.relay_full;
              is_receiving = p.is_receiving;
              is_tracker = p.is_tracker;
            })
            is
            ps
  read_field-host_flags p r n is ps =
      let direct = r.has_global && not p.direct_full in
      let v = flags_of p.is_tracker direct (not p.relay_full) p.is_receiving r.is_firewalled in
      ap
        (λ v.
          read_field lib net (parsed lib net ips to16 laws n is ps)
            (lib.new_byte_atom lib.host_flags1 v))
        (host_flags_lem ips lib net.ipv4_to_uint32 to16 laws p r)
      ∙ read_field-flags lib net ips to16 laws n is ps v
          (flags_of-byte p.is_tracker direct (not p.relay_full) p.is_receiving r.is_firewalled)
      ∙ ap (λ n. parsed lib net ips to16 laws n is ps)
          (with_flags_lem lib net laws n p.is_tracker direct p.relay_full p.is_receiving
            r.is_firewalled)

  read_fields-none : (p : Parsed) → read_fields lib net p [] ≡ p
  unfolding read_fields
  read_fields-none p = refl

  read-host_children :
      (p : HostAtomParams) (global local : List ℕ)
      → ReadsBack lib net ips to16 laws (own_reach p).address global
      → ReadsBack lib net ips to16 laws (own_local p) local
      → p.listen_port < 2 ^ 16
      → read_fields lib net
          (parsed lib net ips to16 laws blank_node [] [])
          (host_children ips lib net.ipv4_to_uint32 to16 p (own_reach p))
        ≡ parsed lib net ips to16 laws
            (reported p)
            (global ∷ local ∷ [])
            (global_port p ∷ p.listen_port ∷ [])
  unfolding host_children
  read-host_children p global local g l b =
      next _ _ _ (read_field-id lib net ips to16 laws _ _ _ p.session_id) (
        next _ _ _
          (read_field-ip lib net ips to16 laws _ _ _ global _
            (ip_atom-Carries lib net ips to16 laws lib.host_ip _ global g) (omega arith))
          (next _ _ _
            (read_field-port lib net ips to16 laws _ _ _ (global_port p) (ground arith)
              (omega arith))
            (next _ _ _
              (read_field-ip lib net ips to16 laws _ _ _ local _
                (ip_atom-Carries lib net ips to16 laws lib.host_ip _ local l) (omega arith))
              (next _ _ _
                (read_field-port lib net ips to16 laws _ _ _ p.listen_port b (omega arith))
                (next _ _ _ (other_int _ lib.host_num_listeners _ laws.number_others.0) (
                  next _ _ _
                    (read_field-relays lib net ips to16 laws _ _ _ (p.num_relays % 2 ^ 32)
                      (omega arith))
                    (next _ _ _ (other_int _ lib.host_uptime _ laws.number_others.1.0) (
                      next _ _ _ (other_int _ lib.host_old_pos _ laws.number_others.1.1.0) (
                        next _ _ _ (other_int _ lib.host_new_pos _ laws.number_others.1.1.1.0) (
                          next _ _ _
                            (read_field-other lib net ips to16 laws _ _ lib.host_chan_id
                              (laws.tag_id _ _) laws.number_others.1.1.1.1.0)
                            (next _ _ _ (read_field-host_flags p (own_reach p) _ _ _) (
                              next _ _ _
                                (other_int _ lib.host_version _ laws.number_others.1.1.1.1.1.0)
                                (next _ _ _
                                  (other_int _ lib.host_version_vp _
                                    laws.number_others.1.1.1.1.1.1.0)
                                  (next _ _ _
                                    (read_field-other lib net ips to16 laws _ _
                                      lib.host_version_ex_prefix (laws.tag_bytes _ _)
                                      laws.number_others.1.1.1.1.1.1.1.0)
                                    (next _ _ _
                                      (read_field-other lib net ips to16 laws _ _
                                        lib.host_version_ex_number (laws.tag_short _ _)
                                        laws.number_others.1.1.1.1.1.1.1.1.0)
                                      (read_fields-none _))))))))))))))))

  read-tracker_children :
      (p : Parsed) (b : Bool)
      → read_fields lib net p (tracker_children ips lib net.ipv4_to_uint32 to16 b) ≡ p
  unfolding tracker_children
  read-tracker_children p true =
      next _ _ _ (other_int p lib.host_tracker 1 laws.number_others.1.1.1.1.1.1.1.1.1.0)
        (read_fields-none p)
  read-tracker_children p false = read_fields-none p

  -- What a report that names so many hops is read as.
  abbrev pub with_hops : HostAtomParams → ℕ → SourceNode
  with_hops p v = record (reported p) { hops = v }

  read-hops_children :
      (p : HostAtomParams) (is : List (List ℕ)) (ps : List ℕ) (v : ℕ)
      → v < 2 ^ 32
      → read_fields lib net
          (parsed lib net ips to16 laws (reported p) is ps)
          (hops_children ips lib net.ipv4_to_uint32 to16 v)
        ≡ parsed lib net ips to16 laws (with_hops p v) is ps
  unfolding hops_children
  read-hops_children p is ps v b = elim (Bool-cases (v == 0)) [
    | inl h ↦
        let z : v ≡ 0 = ground arith in
        rw h (
          read_fields-none _ ∙ ap (λ v. parsed lib net ips to16 laws (with_hops p v) is ps) (sym z))
    | inr h ↦
        rw h (next _ _ _ (read_field-hops lib net ips to16 laws _ _ _ v b) (read_fields-none _))
  ]

  read-upstream_children :
      (p : HostAtomParams) (is : List (List ℕ)) (ps : List ℕ)
      → p.uphost_hops < 2 ^ 32
      → read_fields lib net
          (parsed lib net ips to16 laws (reported p) is ps)
          (upstream_children ips lib net.ipv4_to_uint32 to16 p)
        ≡ parsed lib net ips to16 laws (with_hops p (announced_hops p)) is ps
  unfolding upstream_children announced_hops
  read-upstream_children p is ps b =
      elim (Bool-cases (
        not (
          ips.is_unspecified
            (or_from ips lib net.ipv4_to_uint32 to16 p.upstream_address p.uphost_ip))
        || not (p.uphost_port == 0))) [
          | inl h ↦ rw h (
              next _ _ _
                (read_field-other lib net ips to16 laws _ _ lib.host_uphost_ip
                  (tag-ip_atom lib net ips to16 laws _ _) laws.number_others.1.1.1.1.1.1.1.1.1.1.0)
                (next _ _ _
                  (other_int _ lib.host_uphost_port _ laws.number_others.1.1.1.1.1.1.1.1.1.1.1.0)
                  (read-hops_children p is ps p.uphost_hops b)))
          | inr h ↦ rw h (read_fields-none _)
        ]

  children_report :
      (p : HostAtomParams)
      → lib.children (build_host_atom ips lib net.ipv4_to_uint32 to16 p)
        ≡ host_children ips lib net.ipv4_to_uint32 to16 p (own_reach p)
          ++ tracker_children ips lib net.ipv4_to_uint32 to16 p.tracker_atom
          ++ upstream_children ips lib net.ipv4_to_uint32 to16 p
  unfolding build_host_atom
  children_report p = laws.children_parent lib.host _

  pub read-report :
      (p : HostAtomParams) (global local : List ℕ)
      → ReadsBack lib net ips to16 laws (own_reach p).address global
      → ReadsBack lib net ips to16 laws (own_local p) local
      → p.listen_port < 2 ^ 16
      → p.uphost_hops < 2 ^ 32
      → read_fields lib net
          (parsed lib net ips to16 laws blank_node [] [])
          (lib.children (build_host_atom ips lib net.ipv4_to_uint32 to16 p))
        ≡ parsed lib net ips to16 laws
            (with_hops p (announced_hops p))
            (global ∷ local ∷ [])
            (global_port p ∷ p.listen_port ∷ [])
  read-report p global local g l b c =
      ap (read_fields lib net (parsed lib net ips to16 laws blank_node [] [])) (children_report p)
      ∙ reads-append lib net ips to16 laws _ _ _ _ _
          (reads-append lib net ips to16 laws _ _ _ _ _ (read-host_children p global local g l b)
            (read-tracker_children _ p.tracker_atom))
          (read-upstream_children p _ _ c)

  -- What is made of the fields that were read.
  abbrev pub placed : Parsed → SourceNode × Bool
  placed p =
      let n =
        with_local lib net
          (with_global lib net p.node (dialable lib net (nth 0 p.ips) (nth 0 p.ports)))
          (dialable lib net (nth 1 p.ips) (nth 1 p.ports)) in
      (n, not (n.global_addr == "" && n.local_addr == ""))

  pub parse_source_node-placed :
      (a : Atom) (p : Parsed)
      → read_fields lib net (parsed lib net ips to16 laws blank_node [] []) (lib.children a) ≡ p
      → parse_source_node lib net a ≡ placed p
  unfolding parse_source_node
  parse_source_node-placed a p e = ap placed e
