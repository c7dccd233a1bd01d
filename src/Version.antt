-- ===== src/Version.antt =====
-- internal/version/version.go: what a node says of its program.
use peercast_mi.Base.{ℕ, String, List, [], ◌∷◌}

abbrev pub pcp_version : ℕ
pcp_version = 1218

abbrev pub pcp_version_vp : ℕ
pcp_version_vp = 27

abbrev pub agent_name : String
agent_name = "PeerCast-MI/0.0.1"

abbrev pub min_version : ℕ
min_version = 1200

-- The characters of "MI", and the number of version 0.0.1.
abbrev pub ex_prefix : List ℕ
ex_prefix = b'M' ∷ b'I' ∷ []

abbrev pub ex_number : ℕ
ex_number = 1
