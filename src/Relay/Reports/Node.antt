-- ===== src/Relay/Reports/Node.antt =====
-- The node that internal/relay/sourcenode.go takes a report of internal/pcputil/host.go for.
use peercast_mi.Base.{
  ℕ, ◌%◌, ◌^◌, ◌<◌, ◌≡◌, ◌≢◌, refl, sym, ◌⊎◌, inl, inr, Bool, true, false, not, ◌&&◌, ◌==◌, nat_eq,
  string_eq, if◌then◌else◌, List, Option, none, some, arith, subst, Bool-cases, beq-cases, String,
}
use peercast_mi.Pcp.{PcpLibrary}
use peercast_mi.Network.{IpLibrary}
use peercast_mi.Network.Host.{HostAtomParams, build_host_atom}
use peercast_mi.Relay.{
  SourceNode, AddressLibrary, dialable, with_global, with_local, parse_source_node,
}
use peercast_mi.Relay.Reports.{IsHostLibrary}
use peercast_mi.Relay.Reports.Fields.{ReadsBack}
use peercast_mi.Relay.Reports.Own.{
  IsGiven, IsOwnAddress, IsFirewalled, or_from-IsGiven, reach_of-address, reach_of-IsFirewalled,
}
use peercast_mi.Relay.Reports.Reading.{
  own_reach, global_port, announced_hops, with_hops, read-report, parse_source_node-placed,
}

-- An address that a report has, and the number or the name of the place that it stands for.
abbrev text_of : AddressLibrary → Option (List ℕ × ℕ) → String
text_of net none = ""
text_of net (some (ip, port)) = net.join_host_port ip port

abbrev number_of : AddressLibrary → Option (List ℕ × ℕ) → ℕ
number_of net none = 0
number_of net (some (ip, port)) = net.ipv4_to_uint32 ip

module _ (lib : PcpLibrary) (net : AddressLibrary) (ips : IpLibrary) (to16 : List ℕ → List ℕ)
    (laws : IsHostLibrary lib) where
  -- An address and a port that a node can be dialled at.
  abbrev pub CanDial : List ℕ → ℕ → Type 0
  CanDial ip port = (port ≢ 0) × (net.is_unspecified ip ≡ false) × (net.is_loopback ip ≡ false)

  abbrev pub CannotDial : List ℕ → ℕ → Type 0
  CannotDial ip port = (port ≡ 0) ⊎ (net.is_unspecified ip ≡ true) ⊎ (net.is_loopback ip ≡ true)

  -- The global place of a node, which one that is firewalled has none of.
  abbrev pub IsGlobalPlace : Bool → List ℕ → ℕ → String → ℕ → Type 0
  IsGlobalPlace firewalled ip port addr number =
      ((firewalled ≡ false)
        × CanDial ip port
        × (addr ≡ net.join_host_port ip port)
        × (number ≡ net.ipv4_to_uint32 ip))
      ⊎ (((firewalled ≡ true) ⊎ CannotDial ip port) × (addr ≡ "") × (number ≡ 0))

  abbrev pub IsLocalPlace : List ℕ → ℕ → String → Type 0
  IsLocalPlace ip port addr =
      (CanDial ip port × (addr ≡ net.join_host_port ip port)) ⊎ (CannotDial ip port × (addr ≡ ""))

  -- The hops of a report, which it has only with the node upstream.
  abbrev pub IsHops : HostAtomParams → List ℕ → ℕ → Type 0
  IsHops p upstream hops =
      (((ips.is_unspecified upstream ≡ false) ⊎ (p.uphost_port ≢ 0)) × (hops ≡ p.uphost_hops))
      ⊎ ((ips.is_unspecified upstream ≡ true) × (p.uphost_port ≡ 0) × (hops ≡ 0))

  -- A node is taken up if it has a place.
  abbrev pub IsTakenUp : SourceNode → Bool → Type 0
  IsTakenUp n taken =
      ((taken ≡ true) × ((n.global_addr ≢ "") ⊎ (n.local_addr ≢ "")))
      ⊎ ((taken ≡ false) × (n.global_addr ≡ "") × (n.local_addr ≡ ""))

  -- The node that a report is about: `here` is its local address and `upstream` that of the node
  -- upstream, and its two addresses read back as `global` and `local`.
  pub record IsReported (p : HostAtomParams) (here upstream global local : List ℕ) (n : SourceNode)
      (taken : Bool) : Type 0 where
    pub session : n.session_id ≡ p.session_id
    pub firewalled : IsFirewalled lib ips net.ipv4_to_uint32 to16 p here n.is_firewalled
    pub relay_full : n.is_relay_full ≡ p.relay_full
    pub receiving : n.is_receiving ≡ p.is_receiving
    pub tracker : n.is_tracker ≡ p.is_tracker
    pub relays : n.relay_count ≡ p.num_relays % 2 ^ 32
    pub hops : IsHops p upstream n.hops
    pub global_place : IsGlobalPlace n.is_firewalled global p.listen_port n.global_addr n.global_ip
    pub local_place : IsLocalPlace local p.listen_port n.local_addr
    pub taken_up : IsTakenUp n taken

  dialable-cases :
      (ip : List ℕ) (port : ℕ)
      → (CanDial ip port × (dialable lib net (some ip) (some port) ≡ some (ip, port)))
        ⊎ (CannotDial ip port × (dialable lib net (some ip) (some port) ≡ none))
  unfolding dialable
  dialable-cases ip port = elim (beq-cases port 0) [
    | inl (e, z) ↦ rw e (inr (inl z, refl))
    | inr (e, nz) ↦ elim (Bool-cases (net.is_unspecified ip)) [
      | inl u ↦ rw (e, u) (inr (inr (inl refl), refl))
      | inr u ↦ elim (Bool-cases (net.is_loopback ip)) [
        | inl l ↦ rw (e, u, l) (inr (inr (inr refl), refl))
        | inr l ↦ rw (e, u, l) (inl ((nz, refl, refl), refl))
      ]
    ]
  ]

  local-IsLocalPlace :
      (ip : List ℕ) (port : ℕ)
      → IsLocalPlace ip port (text_of net (dialable lib net (some ip) (some port)))
  local-IsLocalPlace ip port = elim (dialable-cases ip port) [
    | inl (can, e) ↦ rw e (inl (can, refl))
    | inr (cannot, e) ↦ rw e (inr (cannot, refl))
  ]

  global-IsGlobalPlace :
      (firewalled : Bool) (ip : List ℕ) (port : ℕ)
      → let place = dialable lib net (some ip) (some (if firewalled then 0 else port)) in
        IsGlobalPlace firewalled ip port (text_of net place) (number_of net place)
  global-IsGlobalPlace true ip port = elim (dialable-cases ip 0) [
    | inl ((nz, _, _), e) ↦ absurd (nz refl)
    | inr (cannot, e) ↦ rw e (inr (inl refl, refl, refl))
  ]
  global-IsGlobalPlace false ip port = elim (dialable-cases ip port) [
    | inl (can, e) ↦ rw e (inl (refl, can, refl, refl))
    | inr (cannot, e) ↦ rw e (inr (inr cannot, refl, refl))
  ]

  announced_hops-IsHops :
      (p : HostAtomParams) (upstream : List ℕ)
      → IsGiven lib ips net.ipv4_to_uint32 to16 p.upstream_address p.uphost_ip upstream
      → IsHops p upstream (announced_hops lib net ips to16 laws p)
  unfolding announced_hops
  announced_hops-IsHops p upstream g =
      rw (or_from-IsGiven lib ips net.ipv4_to_uint32 to16 p.upstream_address p.uphost_ip upstream g)
        (ground (arith, beq-cases p.uphost_port 0))

  taken-IsTakenUp : (n : SourceNode) → IsTakenUp n (not (n.global_addr == "" && n.local_addr == ""))
  taken-IsTakenUp n = ground (arith, beq-cases n.global_addr "", beq-cases n.local_addr "")

  -- A node whose places are filled in.
  with_places-fields :
      (p : HostAtomParams) (v : ℕ) (g l : Option (List ℕ × ℕ))
      → let n =
          with_local lib net (with_global lib net (with_hops lib net ips to16 laws p v) g) l in
        (n.session_id ≡ p.session_id)
        × (n.is_firewalled ≡ (own_reach lib net ips to16 laws p).is_firewalled)
        × (n.is_relay_full ≡ p.relay_full)
        × (n.is_receiving ≡ p.is_receiving)
        × (n.is_tracker ≡ p.is_tracker)
        × (n.relay_count ≡ p.num_relays % 2 ^ 32)
        × (n.hops ≡ v)
        × (n.global_addr ≡ text_of net g)
        × (n.global_ip ≡ number_of net g)
        × (n.local_addr ≡ text_of net l)
  unfolding with_local with_global
  with_places-fields p v none none = (refl, refl, refl, refl, refl, refl, refl, refl, refl, refl)
  with_places-fields p v none (some l) =
      (refl, refl, refl, refl, refl, refl, refl, refl, refl, refl)
  with_places-fields p v (some g) none =
      (refl, refl, refl, refl, refl, refl, refl, refl, refl, refl)
  with_places-fields p v (some g) (some l) =
      (refl, refl, refl, refl, refl, refl, refl, refl, refl, refl)

  with_places-IsReported :
      (p : HostAtomParams) (here upstream global local : List ℕ)
      → IsGiven lib ips net.ipv4_to_uint32 to16 p.local_address p.local_ip here
      → IsGiven lib ips net.ipv4_to_uint32 to16 p.upstream_address p.uphost_ip upstream
      → let n =
          with_local lib net
            (with_global lib net
              (with_hops lib net ips to16 laws p (announced_hops lib net ips to16 laws p))
              (dialable lib net (some global) (some (global_port lib net ips to16 laws p))))
            (dialable lib net (some local) (some p.listen_port)) in
        IsReported p here upstream global local n (not (n.global_addr == "" && n.local_addr == ""))
  with_places-IsReported p here upstream global local h u =
      let g = dialable lib net (some global) (some (global_port lib net ips to16 laws p)) in
      let l = dialable lib net (some local) (some p.listen_port) in
      let firewalled = (own_reach lib net ips to16 laws p).is_firewalled in
      let n =
        with_local lib net
          (with_global lib net
            (with_hops lib net ips to16 laws p (announced_hops lib net ips to16 laws p)) g)
          l in
      let (session, fw, full, receiving, tracker, relays, hops, addr, number, near) =
        with_places-fields p (announced_hops lib net ips to16 laws p) g l in
      record {
        session = session;
        firewalled =
            subst (IsFirewalled lib ips net.ipv4_to_uint32 to16 p here) (sym fw)
              (reach_of-IsFirewalled lib ips net.ipv4_to_uint32 to16 p here h);
        relay_full = full;
        receiving = receiving;
        tracker = tracker;
        relays = relays;
        hops = subst (IsHops p upstream) (sym hops) (announced_hops-IsHops p upstream u);
        global_place = rw (fw, addr, number) (global-IsGlobalPlace firewalled global p.listen_port);
        local_place =
            subst (IsLocalPlace local p.listen_port) (sym near)
              (local-IsLocalPlace local p.listen_port);
        taken_up = taken-IsTakenUp n;
      }

  -- Given that the library builds and reads atoms as it documents, a report with a 16-bit port, 32-bit
  -- hops and addresses that an atom can carry is read as a node with its session, its flags, its
  -- number of relays, and its hops if it names a node upstream, else 0. It is firewalled unless its
  -- port is known to be open, or as it is said to be without a state of the network. Its global place
  -- is its own address with its port, if it is not firewalled and that can be dialled, else none; its
  -- local place is its local address with its port, if that can be dialled, else none; and it is taken
  -- up exactly if it has a place that is not empty.
  pub parse_source_node-build_host_atom :
      (p : HostAtomParams) (here upstream own global local : List ℕ)
      → IsGiven lib ips net.ipv4_to_uint32 to16 p.local_address p.local_ip here
      → IsGiven lib ips net.ipv4_to_uint32 to16 p.upstream_address p.uphost_ip upstream
      → IsOwnAddress lib ips net.ipv4_to_uint32 to16 p here own
      → ReadsBack lib net ips to16 laws own global
      → ReadsBack lib net ips to16 laws here local
      → p.listen_port < 2 ^ 16
      → p.uphost_hops < 2 ^ 32
      → let (n, taken) =
          parse_source_node lib net (build_host_atom ips lib net.ipv4_to_uint32 to16 p) in
        IsReported p here upstream global local n taken
  parse_source_node-build_host_atom p here upstream own global local h u o g l b c =
      let g' =
        subst (λ a. ReadsBack lib net ips to16 laws a global)
          (sym (reach_of-address lib ips net.ipv4_to_uint32 to16 p here own h o)) g in
      let l' =
        subst (λ a. ReadsBack lib net ips to16 laws a local)
          (sym (or_from-IsGiven lib ips net.ipv4_to_uint32 to16 p.local_address p.local_ip here h))
          l in
      subst (λ (r : SourceNode × Bool). IsReported p here upstream global local r.0 r.1)
        (sym (
          parse_source_node-placed lib net ips to16 laws _ _
            (read-report lib net ips to16 laws p global local g' l' b c)))
        (with_places-IsReported p here upstream global local h u)
