-- ===== src/Listener/Viewers.antt =====
-- The requests of viewers in internal/servent/listener.go: what their paths name, and how they are
-- answered. A path is the list of its bytes; the text of a response is a constructor of `Status`.
pub mod Paths
pub mod Answers
mod Tests
use peercast_mi.Base.{
  ℕ, ◌+◌, Bool, true, false, not, ◌&&◌, ◌||◌, ◌==◌, nat_eq, string_eq, any, ltb, leb, if◌then◌else◌,
  List, [], ◌∷◌, Option, none, some, String, length, take, drop,
}
use peercast_mi.Pcp.{GnuId}

pub data Status : Type 0 where
  bad_request forbidden not_found service_unavailable : Status

-- `strings.HasPrefix`, and what follows the prefix.
unfoldable pub after_prefix : List ℕ → List ℕ → Option (List ℕ)
after_prefix [] path = some path
after_prefix (c ∷ prefix) [] = none
after_prefix (c ∷ prefix) (d ∷ path) = if c == d then after_prefix prefix path else none

-- What may follow the 32 digits: nothing, or a dot and a name without slashes and dots.
unfoldable pub is_bad_extension : List ℕ → Bool
is_bad_extension [] = false
is_bad_extension (c ∷ name) =
    not (c == b'.') || (length name == 0 || any (λ x. x == b'/' || x == b'.') name)

-- `decode` is `hex.DecodeString` of the digits, and the identifier that 16 bytes are.
module _ (decode : List ℕ → Option GnuId) where
  unfoldable pub parse_digits : List ℕ → Option GnuId
  unfolding is_bad_extension
  parse_digits rest =
      if ltb (length rest) 32
      then none
      else if is_bad_extension (drop 32 rest)
      then none
      else decode (take 32 rest)

  unfoldable pub parse_channel_id_path : List ℕ → List ℕ → Option GnuId
  parse_channel_id_path path prefix = elim (after_prefix prefix path) [
    | none ↦ none
    | some rest ↦ parse_digits rest
  ]

-- `net.SplitHostPort`, and `strconv.Atoi`, where a number below 0 counts as an error.
module _ (split_host_port : String → Option (String × String)) (atoi : String → Option ℕ) where
  unfoldable pub parse_tip : String → Option String
  parse_tip tip = if tip == "" then some "" else elim (split_host_port tip) [
    | none ↦ none
    | some (host, port) ↦ if host == "" then none else elim (atoi port) [
      | none ↦ none
      | some n ↦ if ltb n 1 || ltb 65535 n then none else some tip
    ]
  ]

-- What is read of a request, if it can be.
pub record RawRequest : Type 0 where
  pub path : List ℕ
  pub tip : String
  pub authorization : String

pub record ViewerRequest : Type 0 where
  pub channel_id : GnuId
  pub tip : String
  pub authorization : String

abbrev pub no_request : ViewerRequest
no_request = record { channel_id = 0; tip = ""; authorization = "" }

-- What `parseViewerRequest` returns: an error, or a request with the status to answer it with, if
-- it is malformed.
pub data ParsedRequest : Type 0 where
  unreadable : ParsedRequest
  request : ViewerRequest → Option Status → ParsedRequest

-- `ViewerToken`, `RelayRequestFromAny`, and the header that a viewer shows the token with.
pub record ViewerPolicy : Type 0 where
  pub viewer_token : String
  pub expected_authorization : String
  pub relay_request_from_any : Bool

unfoldable pub viewer_allowed : ViewerPolicy → ViewerRequest → Bool
viewer_allowed policy vr =
    policy.viewer_token == "" || vr.authorization == policy.expected_authorization

-- What `OnDemandRelay` returns: a channel, or none, the error of the limit, or another error.
pub data RelayOutcome (C : Type 0) : Type 0 where
  started : C → RelayOutcome C
  nothing channel_limit failed : RelayOutcome C

-- A channel or the status to answer with, and whether `OnDemandRelay` was called.
pub record Lookup (C : Type 0) : Type 0 where
  pub channel : Option C
  pub status : Option Status
  pub asked : Bool

-- How a viewer's request ends: closed without an answer, with a status, or with a channel; and
-- whether `OnDemandRelay` was called.
pub data Answer (C : Type 0) : Type 0 where
  closed : Answer C
  refused : Bool → Status → Answer C
  serve : Bool → C → Answer C

module _ {C : Type 0} where
  unfoldable pub relay_lookup : RelayOutcome C → Lookup C
  relay_lookup (started ch) = record { channel = some ch; status = none; asked = true }
  relay_lookup nothing = record { channel = none; status = some not_found; asked = true }
  relay_lookup channel_limit = record {
    channel = none;
    status = some service_unavailable;
    asked = true;
  }
  relay_lookup failed = record { channel = none; status = some not_found; asked = true }

  -- `lookupChannel`, given the channel that is registered, `OnDemandRelay`, if it is set, and
  -- whether the remote address is private.
  unfoldable pub lookup_channel :
      ViewerPolicy
      → (GnuId → Option C)
      → Option (GnuId → String → RelayOutcome C)
      → Bool
      → GnuId
      → String
      → Lookup C
  unfolding relay_lookup
  lookup_channel policy by_id on_demand is_private id tip = elim (by_id id) [
    | some ch ↦ record { channel = some ch; status = none; asked = false }
    | none ↦ elim on_demand [
      | none ↦ record { channel = none; status = some not_found; asked = false }
      | some relay ↦
          if not policy.relay_request_from_any && not is_private
          then record { channel = none; status = some forbidden; asked = false }
          else relay_lookup (relay id tip)
    ]
  ]

  unfoldable pub answer_lookup : Lookup C → Answer C
  answer_lookup found = elim found.status [
    | some status ↦ refused found.asked status
    | none ↦ elim found.channel [ none ↦ closed | some ch ↦ serve found.asked ch ]
  ]

  -- What `handlePLS` and `handleHTTPStream` do up to the channel.
  unfoldable pub handle_viewer :
      ViewerPolicy
      → (GnuId → Option C)
      → Option (GnuId → String → RelayOutcome C)
      → Bool
      → ParsedRequest
      → Answer C
  handle_viewer policy by_id on_demand is_private unreadable = closed
  handle_viewer policy by_id on_demand is_private (request vr status) =
      if not (viewer_allowed policy vr) then refused false forbidden else elim status [
        | some bad ↦ refused false bad
        | none ↦
            answer_lookup (lookup_channel policy by_id on_demand is_private vr.channel_id vr.tip)
      ]

-- `parseViewerRequest`
module _ (decode : List ℕ → Option GnuId) (split_host_port : String → Option (String × String))
    (atoi : String → Option ℕ) where
  unfoldable pub parse_viewer_request : Option RawRequest → List ℕ → ParsedRequest
  parse_viewer_request none prefix = unreadable
  parse_viewer_request (some raw) prefix = elim (parse_channel_id_path decode raw.path prefix) [
    | none ↦ request no_request (some bad_request)
    | some id ↦ elim (parse_tip split_host_port atoi raw.tip) [
      | none ↦ request no_request (some bad_request)
      | some tip ↦
          request (record { channel_id = id; tip = tip; authorization = raw.authorization }) none
    ]
  ]
