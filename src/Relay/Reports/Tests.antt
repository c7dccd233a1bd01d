-- ===== src/Relay/Reports/Tests.antt =====
-- A report at a concrete library, read back.
use peercast_mi.Base.{
  ℕ, ◌≡◌, refl, ap, inl, inr, true, false, ◌==◌, nat_eq, List, [], ◌∷◌, none, some, length,
  replicate, if◌then◌else◌, arith,
}
use peercast_mi.Samples.{as_list-of_list, sample_library}
use peercast_mi.Pcp.{PcpLibrary}
use peercast_mi.Network.{IpLibrary, protocol_version}
use peercast_mi.Network.Host.{HostAtomParams, build_host_atom}
use peercast_mi.Relay.{AddressLibrary, parse_source_node}
use peercast_mi.Relay.Reports.{IsHostLibrary}
use peercast_mi.Relay.Reports.Node.{IsReported, parse_source_node-build_host_atom}

-- A number has four bytes, of which three are 0.
abbrev four_bytes : List ℕ → List ℕ
four_bytes (x ∷ []) = x ∷ 0 ∷ 0 ∷ 0 ∷ []
four_bytes xs = xs

abbrev sample : PcpLibrary
sample = record sample_library {
  payload = λ a. four_bytes (sample_library.payload a);
  host_id = 0;
  host_ip = 1;
  host_port = 2;
  host_flags1 = 3;
  host_num_relays = 4;
  host_uphost_hops = 5;
  host_num_listeners = 6;
  flag_tracker = 1;
  flag_relay = 2;
  flag_direct = 4;
  flag_push = 8;
  flag_recv = 16;
  flag_cin = 32;
}

four_bytes-long : (v : List ℕ) → length v ≡ 16 → four_bytes v ≡ v
four_bytes-long [] h = refl
four_bytes-long (x ∷ []) h = absurd (omega arith)
four_bytes-long (x ∷ y ∷ v) h = refl

sample-IsHostLibrary : IsHostLibrary sample
sample-IsHostLibrary = record {
  tag_id = λ t v. refl;
  tag_int = λ t v. refl;
  tag_short = λ t v. refl;
  tag_byte = λ t v. refl;
  tag_bytes = λ t v. refl;
  children_parent = λ t cs. as_list-of_list cs;
  id_id = λ t v. refl;
  int_int = λ t v h. refl;
  short_short = λ t v h. refl;
  byte_byte = λ t v h. ap (λ x. (x, true)) (omega arith);
  length_int = λ t v. refl;
  payload_bytes = λ t v h. four_bytes-long v h;
  number = λ t. t;
  same_number = λ a b. refl;
  number_id = refl;
  number_ip = refl;
  number_port = refl;
  number_flags = refl;
  number_relays = refl;
  number_hops = refl;
  number_others = (
    omega arith,
    (
      omega arith,
      (
        omega arith,
        (
          omega arith,
          (
            omega arith,
            (
              omega arith,
              (
                omega arith,
                (omega arith, (omega arith, (omega arith, (omega arith, (omega arith, tt))))),
              ),
            ),
          ),
        ),
      ),
    ),
  );
  tracker_bit = refl;
  relay_bit = refl;
  direct_bit = refl;
  push_bit = refl;
  recv_bit = refl;
  cin_bit = refl;
}

abbrev first_byte : List ℕ → ℕ
first_byte [] = 0
first_byte (x ∷ xs) = 7

abbrev addresses : AddressLibrary
addresses = record {
  is_unspecified = λ ip. false;
  is_loopback = λ ip. false;
  join_host_port = λ ip port. "host";
  ipv4_to_uint32 = first_byte;
}

-- An address of four bytes has a 4-byte form.
abbrev ips : IpLibrary
ips = record { is_unspecified = λ ip. false; to4 = λ ip. if length ip == 4 then some ip else none }

-- A tracker that receives, seen at an IPv4 address behind an IPv6 one.
abbrev report : HostAtomParams
report = record {
  network = none;
  local_address = some (replicate 16 1);
  global_address = some (192 ∷ 0 ∷ 2 ∷ 1 ∷ []);
  upstream_address = none;
  firewalled = false;
  session_id = 42;
  local_ip = 0;
  global_ip = 0;
  listen_port = 7144;
  channel_id = 5;
  num_listeners = 1;
  num_relays = 2;
  uptime = 60;
  old_pos = 0;
  new_pos = 100;
  is_tracker = true;
  has_global_ip = true;
  relay_full = false;
  direct_full = false;
  tracker_atom = true;
  is_receiving = true;
  uphost_ip = 0;
  uphost_port = 7144;
  uphost_hops = 1;
}

abbrev here : List ℕ
here = replicate 16 1

parse_source_node-build_host_atom_example :
    let (n, taken) =
      parse_source_node sample addresses
        (build_host_atom ips sample first_byte (λ ip. ip) report) in
    IsReported sample addresses ips
      (λ ip. ip)
      sample-IsHostLibrary
      report
      here
      (0 ∷ [])
      (7 ∷ [])
      here
      n
      taken
unfolding protocol_version
parse_source_node-build_host_atom_example =
    parse_source_node-build_host_atom sample addresses ips (λ ip. ip) sample-IsHostLibrary report
      here (0 ∷ []) (192 ∷ 0 ∷ 2 ∷ 1 ∷ []) (7 ∷ []) here (inl refl) (inr (refl, refl))
      (192 ∷ 0 ∷ 2 ∷ 1 ∷ [], inl (refl, inl refl), inl (inr (λ e. ground arith, refl), refl))
      (inl (192 ∷ 0 ∷ 2 ∷ 1 ∷ [], refl, omega arith, refl)) (inr (refl, refl, refl)) (omega arith)
      (omega arith)
