-- ===== src/Network/Tests.antt =====
-- A run of the network state at concrete inputs.
use peercast_mi.Base.{◌≡◌, refl, false, [], ◌∷◌, none, some}
use peercast_mi.Samples.{SampleAtom, leaf, parent, of_list, sample_library}
use peercast_mi.Network.{
  IpLibrary, NetworkState, no_status, helo_port, observe, atom_ip, protocol_version,
}
use peercast_mi.Network.Ports.{helo_port-observe}

abbrev all_v4 : IpLibrary
all_v4 = record { is_unspecified = λ ip. false; to4 = λ ip. some ip }

abbrev address : SampleAtom
address = leaf 15 (1 ∷ 2 ∷ 3 ∷ 4 ∷ [])

abbrev port_atom : SampleAtom
port_atom = leaf 16 (7144 ∷ [])

abbrev oleh : SampleAtom
oleh = parent 30 (of_list (address ∷ port_atom ∷ []))

abbrev unknown : NetworkState
unknown = record { v4 = no_status; v6 = no_status; public_ipv4 = [] }

helo_port-observe_example :
    helo_port all_v4 (observe all_v4 sample_library unknown oleh) none 7144 ≡ (7144, 0)
unfolding atom_ip protocol_version
helo_port-observe_example =
    helo_port-observe all_v4 sample_library unknown oleh address port_atom (1 ∷ []) 7144 7144 none
      refl refl refl refl refl
