-- ===== src/Relay/Tracker/Tests.antt =====
-- A lookup at concrete yellow pages: one that cannot be reached, and one that hands out a tracker.
use peercast_mi.Base.{◌≡◌, ◌⊎◌, true, false, List, [], ◌∷◌, ◌++◌, none, some, String, All, length}
use peercast_mi.Samples.{SampleAtom, leaf, parent, of_list, sample_library}
use peercast_mi.Relay.{AddressLibrary}
use peercast_mi.Relay.Tracker.{YellowPage, tracker_not_found, found, find_tracker}
use peercast_mi.Relay.Tracker.Answers.{HasFailed, IsTrackerOf, find_tracker_lem}

abbrev addresses : AddressLibrary
addresses = record {
  is_unspecified = λ ip. false;
  is_loopback = λ ip. false;
  join_host_port = λ ip port. "host";
  ipv4_to_uint32 = length;
}

-- The flags of a tracker, with an address and a port.
abbrev tracker : SampleAtom
tracker =
    parent 20 (of_list (leaf 2 (1 ∷ 2 ∷ 3 ∷ 4 ∷ []) ∷ leaf 3 (7144 ∷ []) ∷ leaf 4 (8 ∷ []) ∷ []))

abbrev unreached : YellowPage SampleAtom
unreached = record {
  addr = "yp1";
  dialled = false;
  get_written = false;
  helo_written = false;
  status = none;
  atoms = [];
}

abbrev answering : YellowPage SampleAtom
answering = record {
  addr = "yp2";
  dialled = true;
  get_written = true;
  helo_written = true;
  status = some 503;
  atoms = leaf 33 [] ∷ tracker ∷ leaf 32 (0 ∷ []) ∷ [];
}

abbrev yps : List (YellowPage SampleAtom)
yps = unreached ∷ answering ∷ []

find_tracker_lem_example :
    (All (HasFailed sample_library addresses 5 0) yps
      × (find_tracker sample_library addresses 5 0 yps ≡ tracker_not_found))
    ⊎ ((failed : List (YellowPage SampleAtom)) × (yp : YellowPage SampleAtom) × (rest : List
          (YellowPage SampleAtom))
        × (addr : String) × (yps ≡ failed ++ yp ∷ rest)
        × All (HasFailed sample_library addresses 5 0) failed
        × IsTrackerOf sample_library addresses 5 0 yp addr
        × (find_tracker sample_library addresses 5 0 yps ≡ found addr))
find_tracker_lem_example = find_tracker_lem sample_library addresses 5 0 yps
