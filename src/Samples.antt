-- ===== src/Samples.antt =====
-- Concrete atoms and a concrete library of them, on which the modules of tests run the definitions.
use peercast_mi.Base.{
  ℕ, ◌%◌, ◌^◌, ◌≡◌, refl, ap, Bool, true, false, nat_eq, List, [], ◌∷◌, Option, none, some,
}
use peercast_mi.Pcp.{ChanPacket, HeloPacket, PcpLibrary}

mutual
  pub data SampleAtom : Type 0 where
    leaf : ℕ → List ℕ → SampleAtom
    parent : ℕ → SampleAtoms → SampleAtom
    chan_atom : ChanPacket → SampleAtom
    helo_atom : ℕ → HeloPacket → SampleAtom

  pub data SampleAtoms : Type 0 where
    end : SampleAtoms
    more : SampleAtom → SampleAtoms → SampleAtoms

abbrev sample_tag : SampleAtom → ℕ
sample_tag (leaf t bytes) = t
sample_tag (parent t xs) = t
sample_tag (chan_atom c) = 30
sample_tag (helo_atom t h) = t

abbrev sample_payload : SampleAtom → List ℕ
sample_payload (leaf t bytes) = bytes
sample_payload (parent t xs) = []
sample_payload (chan_atom c) = []
sample_payload (helo_atom t h) = []

abbrev pub as_list : SampleAtoms → List SampleAtom
as_list end = []
as_list (more a xs) = a ∷ as_list xs

abbrev pub of_list : List SampleAtom → SampleAtoms
of_list [] = end
of_list (a ∷ xs) = more a (of_list xs)

pub as_list-of_list : (xs : List SampleAtom) → as_list (of_list xs) ≡ xs
as_list-of_list [] = refl
as_list-of_list (a ∷ xs) = ap (◌∷◌ a) (as_list-of_list xs)

abbrev sample_children : SampleAtom → List SampleAtom
sample_children (leaf t bytes) = []
sample_children (parent t xs) = as_list xs
sample_children (chan_atom c) = []
sample_children (helo_atom t h) = []

abbrev sample_chan : SampleAtom → Option ChanPacket
sample_chan (chan_atom c) = some c
sample_chan _ = none

abbrev sample_peer : HeloPacket
sample_peer = record {
  agent = "sample";
  session_id = 9;
  version = 1218;
  port = 7144;
  ping = 0;
  remote_ip = 0;
}

abbrev sample_helo : SampleAtom → Option HeloPacket
sample_helo (helo_atom t h) = some h
sample_helo (parent t xs) = some sample_peer
sample_helo _ = none

abbrev read_id : List ℕ → Option ℕ
read_id [] = none
read_id (x ∷ xs) = some x

abbrev read_number : List ℕ → ℕ × Bool
read_number [] = (0, false)
read_number (x ∷ xs) = (x, true)

abbrev read_byte : List ℕ → ℕ × Bool
read_byte [] = (0, false)
read_byte (x ∷ xs) = (x % 2 ^ 8, true)

-- Tags are numbers, and a number is one entry of a payload.
abbrev pub sample_library : PcpLibrary
sample_library = record {
  Atom = SampleAtom;
  Tag = ℕ;
  tag_eq = nat_eq;
  tag = sample_tag;
  children = sample_children;
  payload = sample_payload;
  ipv4_from_uint32 = λ n. n ∷ [];
  get_id = λ a. read_id (sample_payload a);
  get_int = λ a. read_number (sample_payload a);
  get_short = λ a. read_number (sample_payload a);
  get_byte = λ a. read_byte (sample_payload a);
  new_byte_atom = λ t b. leaf t (b ∷ []);
  new_short_atom = λ t n. leaf t (n ∷ []);
  new_int_atom = λ t n. leaf t (n ∷ []);
  new_id_atom = λ t n. leaf t (n ∷ []);
  new_bytes_atom = leaf;
  build_chan = chan_atom;
  parse_chan = sample_chan;
  build_oleh = helo_atom 35;
  parse_helo = sample_helo;
  type_head = 1;
  type_data = 2;
  chan = 30;
  host = 20;
  quit = 32;
  ok = 33;
  helo = 34;
  oleh = 35;
  bcst_version = 36;
  bcst_version_vp = 37;
  bcst_version_ex_prefix = 38;
  bcst_version_ex_number = 39;
  error_quit = 1000;
  error_skip = 1;
  error_unavailable = 3;
  error_shutdown = 7;
  error_not_identified = 5;
  error_loopback = 2;
  error_bad_agent = 4;
  new_parent_atom = λ t xs. parent t (of_list xs);
  host_id = 1;
  host_ip = 2;
  host_port = 3;
  host_flags1 = 4;
  host_num_listeners = 5;
  host_num_relays = 6;
  host_uphost_hops = 7;
  host_uphost_ip = 50;
  host_uphost_port = 51;
  host_chan_id = 52;
  host_uptime = 53;
  host_old_pos = 54;
  host_new_pos = 55;
  host_version = 56;
  host_version_vp = 57;
  host_version_ex_prefix = 58;
  host_version_ex_number = 59;
  host_tracker = 60;
  bcst = 8;
  bcst_from = 9;
  bcst_dest = 10;
  bcst_channel_id = 11;
  bcst_group = 12;
  bcst_ttl = 13;
  bcst_hops = 14;
  helo_remote_ip = 15;
  helo_port = 16;
  flag_relay = 1;
  flag_recv = 2;
  flag_push = 4;
  flag_tracker = 8;
  flag_direct = 16;
  flag_cin = 32;
  group_relays = 1;
  group_trackers = 2;
}

-- A report of node 7, with an address and a port, and a broadcast from node 5 to all, with a time
-- to live of 3 and no hop so far.
abbrev pub sample_host : SampleAtom
sample_host = parent 20 (
    of_list
      (leaf 1 (7 ∷ []) ∷ leaf 2 (1 ∷ 2 ∷ 3 ∷ 4 ∷ []) ∷ leaf 3 (7144 ∷ []) ∷ leaf 4 (3 ∷ []) ∷ []))

abbrev pub bare_host : SampleAtom
bare_host = parent 20 (of_list (leaf 1 (8 ∷ []) ∷ leaf 6 (2 ∷ []) ∷ []))

abbrev pub sample_bcst : SampleAtom
sample_bcst =
    parent 8
      (of_list (leaf 9 (5 ∷ []) ∷ leaf 12 (1 ∷ []) ∷ leaf 13 (3 ∷ []) ∷ leaf 14 (0 ∷ []) ∷ []))
