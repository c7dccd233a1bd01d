-- ===== src/Listener/Viewers/Tests.antt =====
-- Requests of viewers at concrete inputs.
use peercast_mi.Base.{
  ℕ, ◌≡◌, ◌↔◌, ◌⊎◌, inl, refl, true, false, String, List, [], ◌∷◌, ◌++◌, Option, none, some, length,
  replicate, nat_eq, string_eq,
}
use peercast_mi.Pcp.{GnuId}
use peercast_mi.Listener.Viewers.{
  Status, forbidden, ViewerRequest, request, ViewerPolicy, viewer_allowed, RelayOutcome, started,
  refused, handle_viewer, parse_channel_id_path, parse_viewer_request, after_prefix,
}
use peercast_mi.Listener.Viewers.Paths.{IsExtension, parse_channel_id_path_iff}
use peercast_mi.Listener.Viewers.Answers.{
  IsDirect, IsRelayed, handle_viewer_lem, malformed-handle_viewer,
}

-- Digits that name the channel of their number.
abbrev decode : List ℕ → Option GnuId
decode digits = some (length digits)

abbrev stream : List ℕ
stream = b'/' ∷ b's' ∷ b'/' ∷ []

abbrev path : List ℕ
path = stream ++ (replicate 32 b'a' ++ b'.' ∷ b'f' ∷ [])

parse_channel_id_path_iff_example : (parse_channel_id_path decode path stream ≡ some 32) ↔ (
    (digits ext : List ℕ) × (path ≡ stream ++ (digits ++ ext))
    × (length digits ≡ 32)
    × (some (length digits) ≡ some 32)
    × IsExtension ext)
parse_channel_id_path_iff_example = parse_channel_id_path_iff decode path stream 32

abbrev policy : ViewerPolicy
policy = record {
  viewer_token = "key";
  expected_authorization = "Bearer key";
  relay_request_from_any = false;
}

abbrev by_id : GnuId → Option ℕ
by_id id = none

abbrev relay : Option (GnuId → String → RelayOutcome ℕ)
relay = some (λ id tip. started id)

abbrev viewer : ViewerRequest
viewer = record { channel_id = 7; tip = ""; authorization = "Bearer key" }

abbrev fine : Option Status
fine = none

handle_viewer_lem_example :
    let a = handle_viewer policy by_id relay true (request viewer fine) in
    ((viewer_allowed policy viewer ≡ false) × (a ≡ refused false forbidden))
    ⊎ ((viewer_allowed policy viewer ≡ true)
        × (((bad : Status) × (fine ≡ some bad) × (a ≡ refused false bad))
            ⊎ ((fine ≡ none)
                × (IsDirect policy by_id relay true 7 a
                    ⊎ IsRelayed policy by_id relay true 7 "" a))))
handle_viewer_lem_example = handle_viewer_lem policy by_id relay true viewer fine

-- The right token, and a path without a channel.
malformed-handle_viewer_example :
    handle_viewer policy by_id relay true (
      parse_viewer_request decode
        (λ t. none)
        (λ t. none)
        (some (record { path = []; tip = ""; authorization = "Bearer key" }))
        stream)
    ≡ refused false forbidden
unfolding parse_channel_id_path after_prefix
malformed-handle_viewer_example =
    malformed-handle_viewer policy by_id relay true decode (λ t. none) (λ t. none)
      (record { path = []; tip = ""; authorization = "Bearer key" }) stream (λ e. cc e) (inl refl)
