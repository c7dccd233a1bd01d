-- ===== src/Listener/Viewers/Answers.antt =====
-- How internal/servent/listener.go answers viewers.
use peercast_mi.Base.{
  ℕ, ◌≡◌, ◌≢◌, refl, ◌⊎◌, inl, inr, Bool, true, false, not, ◌&&◌, ◌==◌, string_eq, String, Option,
  none, some, arith, Bool-cases, Option-cases, beq-cases, sym, if◌then◌else◌, List,
}
use peercast_mi.Pcp.{GnuId}
use peercast_mi.Listener.Viewers.{
  Status, bad_request, forbidden, not_found, service_unavailable, RawRequest, ViewerRequest,
  no_request, request, ViewerPolicy, viewer_allowed, RelayOutcome, started, nothing, channel_limit,
  failed, lookup_channel, relay_lookup, Answer, refused, serve, answer_lookup, handle_viewer,
  parse_channel_id_path, parse_tip, parse_viewer_request,
}

module _ {C : Type 0} (policy : ViewerPolicy) (by_id : GnuId → Option C)
    (on_demand : Option (GnuId → String → RelayOutcome C)) (is_private : Bool) where
  -- The relay was asked for, and the answer is its outcome.
  abbrev pub IsRelayed : GnuId → String → Answer C → Type 0
  IsRelayed id tip a =
      (relay : GnuId → String → RelayOutcome C) × (on_demand ≡ some relay)
      × (by_id id ≡ none)
      × ((policy.relay_request_from_any ≡ true) ⊎ (is_private ≡ true))
      × (((ch : C) × (relay id tip ≡ started ch) × (a ≡ serve true ch))
          ⊎ ((relay id tip ≡ channel_limit) × (a ≡ refused true service_unavailable))
          ⊎ (((relay id tip ≡ nothing) ⊎ (relay id tip ≡ failed)) × (a ≡ refused true not_found)))

  -- The relay was not asked for.
  abbrev pub IsDirect : GnuId → Answer C → Type 0
  IsDirect id a =
      ((ch : C) × (by_id id ≡ some ch) × (a ≡ serve false ch))
      ⊎ ((by_id id ≡ none) × (on_demand ≡ none) × (a ≡ refused false not_found))
      ⊎ ((by_id id ≡ none)
          × (policy.relay_request_from_any ≡ false)
          × (is_private ≡ false)
          × (a ≡ refused false forbidden))

  relayed :
      (id : GnuId) (tip : String) (o : RelayOutcome C)
      → ((ch : C) × (o ≡ started ch) × (answer_lookup (relay_lookup o) ≡ serve true ch))
        ⊎ ((o ≡ channel_limit)
            × (answer_lookup (relay_lookup o) ≡ refused true service_unavailable))
        ⊎ (((o ≡ nothing) ⊎ (o ≡ failed))
            × (answer_lookup (relay_lookup o) ≡ refused true not_found))
  unfolding answer_lookup relay_lookup
  relayed id tip (started ch) = inl (ch, refl, refl)
  relayed id tip nothing = inr (inr (inl refl, refl))
  relayed id tip channel_limit = inr (inl (refl, refl))
  relayed id tip failed = inr (inr (inr refl, refl))

  lookup-answers :
      (id : GnuId) (tip : String)
      → let a = answer_lookup (lookup_channel policy by_id on_demand is_private id tip) in
        IsDirect id a ⊎ IsRelayed id tip a
  unfolding lookup_channel answer_lookup
  lookup-answers id tip = elim (Option-cases (by_id id)) [
    | inr (ch, e) ↦ rw (e, lookup_channel) (inl (inl (ch, refl, refl)))
    | inl e ↦ elim (Option-cases on_demand) [
      | inl f ↦ rw (e, lookup_channel, f) (inl (inr (inl (refl, refl, refl))))
      | inr (relay, f) ↦ elim (Bool-cases (not policy.relay_request_from_any && not is_private)) [
        | inl g ↦
            rw (e, lookup_channel, f, g)
              (inl (inr (inr (refl, ground (arith, g), ground (arith, g), refl))))
        | inr g ↦
            rw (e, lookup_channel, f, g)
              (inr (relay, refl, refl, ground (arith, g), relayed id tip (relay id tip)))
      ]
    ]
  ]

  -- A request that can be read and whose viewer may not watch is refused as forbidden; one of a viewer
  -- that may is answered with the status of what is wrong with it, if anything is. Else it is served
  -- the channel that is registered, or a relay is asked for: only then, only if that is set, and
  -- only if it may be from any address or the viewer's is private, else the request is forbidden or
  -- the channel is not found. A relay that starts is served; one over the limit of channels is not
  -- available; and the channel is not found if none is returned or the relay fails otherwise.
  pub handle_viewer_lem :
      (vr : ViewerRequest) (status : Option Status)
      → let a = handle_viewer policy by_id on_demand is_private (request vr status) in
        ((viewer_allowed policy vr ≡ false) × (a ≡ refused false forbidden))
        ⊎ ((viewer_allowed policy vr ≡ true)
            × (((bad : Status) × (status ≡ some bad) × (a ≡ refused false bad))
                ⊎ ((status ≡ none)
                    × (IsDirect vr.channel_id a ⊎ IsRelayed vr.channel_id vr.tip a))))
  unfolding handle_viewer
  handle_viewer_lem vr none = elim (Bool-cases (viewer_allowed policy vr)) [
    | inr e ↦ rw e (inl (refl, refl))
    | inl e ↦ rw e (inr (refl, inr (refl, lookup-answers vr.channel_id vr.tip)))
  ]
  handle_viewer_lem vr (some bad) = elim (Bool-cases (viewer_allowed policy vr)) [
    | inr e ↦ rw e (inl (refl, refl))
    | inl e ↦ rw e (inr (refl, inl (bad, refl, refl)))
  ]

malformed-parse_viewer_request :
    (decode : List ℕ → Option GnuId) (split_host_port : String → Option (String × String))
    (atoi : String → Option ℕ) (raw : RawRequest) (prefix : List ℕ)
    → (parse_channel_id_path decode raw.path prefix ≡ none)
      ⊎ (parse_tip split_host_port atoi raw.tip ≡ none)
    → parse_viewer_request decode split_host_port atoi (some raw) prefix
      ≡ request no_request (some bad_request)
unfolding parse_viewer_request
malformed-parse_viewer_request decode split atoi raw prefix bad =
    elim (Option-cases (parse_channel_id_path decode raw.path prefix)) [
      | inl e ↦ rw (e, parse_viewer_request) refl
      | inr (id, e) ↦ elim bad [ inl f ↦ cc (e, f) | inr f ↦ rw (e, parse_viewer_request, f) refl ]
    ]

-- A request whose path or tip is malformed is refused as forbidden when a token is set, whatever the
-- request shows, and as a bad request only when none is.
pub malformed-handle_viewer :
    {C : Type 0} (policy : ViewerPolicy) (by_id : GnuId → Option C)
    (on_demand : Option (GnuId → String → RelayOutcome C)) (is_private : Bool)
    (decode : List ℕ → Option GnuId) (split_host_port : String → Option (String × String))
    (atoi : String → Option ℕ) (raw : RawRequest) (prefix : List ℕ)
    → policy.expected_authorization ≢ ""
    → (parse_channel_id_path decode raw.path prefix ≡ none)
      ⊎ (parse_tip split_host_port atoi raw.tip ≡ none)
    → handle_viewer policy by_id on_demand is_private
        (parse_viewer_request decode split_host_port atoi (some raw) prefix)
      ≡ refused false (if policy.viewer_token == "" then bad_request else forbidden)
unfolding handle_viewer viewer_allowed
malformed-handle_viewer policy by_id on_demand is_private decode split atoi raw prefix ne bad =
    rw (malformed-parse_viewer_request decode split atoi raw prefix bad)
      (elim (beq-cases policy.viewer_token "") [
        | inl (e, p) ↦ rw e refl
        | inr (e, p) ↦ elim (beq-cases "" policy.expected_authorization) [
          | inl (f, q) ↦ absurd (ne (sym q))
          | inr (f, q) ↦ rw (e, f) refl
        ]
      ])
