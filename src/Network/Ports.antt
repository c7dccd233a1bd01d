-- ===== src/Network/Ports.antt =====
-- Which port a node announces after it has been told whether its own one is open.
use peercast_mi.Base.{ℕ, ◌≡◌, true, false, ◌==◌, nat_eq, if◌then◌else◌, List, Option, some, arith}
use peercast_mi.Pcp.{PcpLibrary, find_child}
use peercast_mi.Network.{atom_ip, IpLibrary, NetworkState, protocol_version, helo_port, observe}

-- After an oleh with a specified address and a readable port, a node announces in the family of that
-- address its port if the one reported is not 0, and none if it is, without asking for a check. In
-- the other family it announces what it did before.
pub helo_port-observe :
    (net : IpLibrary) (lib : PcpLibrary) (n : NetworkState) (oleh a p : lib.Atom) (ip : List ℕ)
    (port listen : ℕ) (local : Option (List ℕ))
    → find_child lib oleh lib.helo_remote_ip ≡ some a
    → atom_ip lib a ≡ some ip
    → net.is_unspecified ip ≡ false
    → find_child lib oleh lib.helo_port ≡ some p
    → lib.get_short p ≡ (port, true)
    → helo_port net (observe net lib n oleh) local listen ≡ (
        if protocol_version net local == protocol_version net (some ip)
        then if port == 0 then (0, 0) else (listen, 0)
        else helo_port net n local listen)
unfolding helo_port observe protocol_version
helo_port-observe net lib n oleh a p ip port listen local ha hip hu hp hport =
    rw (ha, hip, hu, hp, hport, observe) (ground arith)
