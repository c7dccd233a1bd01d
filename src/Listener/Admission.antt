-- ===== src/Listener/Admission.antt =====
-- That the admission of internal/servent/listener.go keeps to its limits and comes to an end.
use peercast_mi.Base.{
  ℕ, zero, suc, ◌+◌, ◌≤◌, ◌<◌, ◌≡◌, refl, ◌⊎◌, inl, inr, String, Bool, true, false, ◌&&◌, ◌||◌,
  nat_eq, string_eq, ltb, leb, List, [], ◌∷◌, ◌++◌, Option, none, some, arith, Bool-cases,
  Option-cases, lookup, delete, Map,
}
use peercast_mi.Pcp.{PcpLibrary}
use peercast_mi.Channel.{
  Channel, OutputStream, OutputStreamType, Event, is_pcp, has_banned, make_relayable,
  try_add_output, add_output,
}
use peercast_mi.Channel.Slots.{make_relayable_lem}
use peercast_mi.Channel.Life.{IsSound, HasKind-AreObjects, make_room-IsSound}
use peercast_mi.Listener.{
  Limits, is_upstream_full, is_total_full, try_admit, evict_while_full, make_slot, can_admit_relay,
}

-- A number within a limit, where 0 is none.
abbrev pub Fits : ℕ → ℕ → Type 0
Fits n limit = (limit ≡ 0) ⊎ (n ≤ limit)

-- What a stream that is admitted leaves: its channel's limit and, for a relay, the limit of all
-- channels still hold.
abbrev pub HasRoom : {A : Type 0} → Limits → ℕ → OutputStream → Channel A → Type 0
HasRoom l other o c =
    ((is_pcp o.kind ≡ true)
      × Fits c.num_relays l.max_relays
      × Fits (other + c.num_relays) l.max_relays_total)
    ⊎ ((is_pcp o.kind ≡ false) × Fits c.num_listeners l.max_listeners)

-- A stream that is admitted is added at the end of its channel's streams, the bandwidth was not
-- full, and no limit that applies to it is exceeded; one that is not admitted changes nothing.
pub try_admit_lem :
    {A : Type 0} (l : Limits) (other : ℕ) (c : Channel A) (o : OutputStream) (send_rate : ℕ)
    → let (c', admitted) = try_admit l other c o send_rate in
      ((admitted ≡ true)
        × (c'.outputs ≡ c.outputs ++ o ∷ [])
        × (is_upstream_full l send_rate ≡ false)
        × HasRoom l other o c')
      ⊎ ((admitted ≡ false) × (c' ≡ c))
unfolding try_admit is_total_full try_add_output add_output
try_admit_lem l other c o send_rate = elim (Bool-cases (is_pcp o.kind)) [
  | inr http ↦ elim (Bool-cases (is_upstream_full l send_rate)) [
    | inl full ↦ rw (http, full) (inr (refl, refl))
    | inr free ↦ elim (Bool-cases (ltb 0 l.max_listeners && leb l.max_listeners c.num_listeners)) [
      | inl none_left ↦ rw (http, free, none_left) (inr (refl, refl))
      | inr left ↦ rw (http, free, left) (inl (refl, refl, refl, inr (refl, ground (arith, left))))
    ]
  ]
  | inl pcp ↦
      elim (Bool-cases
        (ltb 0 l.max_relays_total && leb l.max_relays_total (other + c.num_relays))) [
          | inl total ↦ rw (pcp, total) (inr (refl, refl))
          | inr below ↦ elim (Bool-cases (is_upstream_full l send_rate)) [
            | inl full ↦ rw (pcp, below, full) (inr (refl, refl))
            | inr free ↦ elim (Bool-cases (ltb 0 l.max_relays && leb l.max_relays c.num_relays)) [
              | inl none_left ↦ rw (pcp, below, free, none_left) (inr (refl, refl))
              | inr left ↦
                  rw (pcp, below, free, left)
                    (inl
                      (refl, refl, refl, inl (refl, ground (arith, left), ground (arith, below))))
            ]
          ]
        ]
]

module _ (l : Limits) (other : ℕ) (lib : PcpLibrary) (split_host : String → Option String)
    (is_local : String → Bool) (kind_of : ℕ → OutputStreamType) where
  open lib use {Atom}

  abbrev pub Sound : Channel Atom → Type 0
  Sound = IsSound kind_of lib split_host is_local l.max_relays l.max_listeners

  -- A forced eviction does not look at the channel's limit.
  forced-Sound :
      (c : Channel Atom) (now : ℕ)
      → Sound c
      → Sound (make_relayable lib split_host is_local c now 0 true).0
  unfolding make_relayable
  forced-Sound c now v =
      make_room-IsSound kind_of lib split_host is_local l.max_relays l.max_listeners c now true v

  -- It fails, or leaves one relay fewer.
  forced-fewer :
      (c : Channel Atom) (now : ℕ)
      → Sound c
      → let (c', es, evicted) = make_relayable lib split_host is_local c now 0 true in
        (evicted ≡ false) ⊎ (c'.num_relays < c.num_relays)
  forced-fewer c now v =
      let (counted, ways) =
        make_relayable_lem lib split_host is_local c now 0 true v.counted
          (HasKind-AreObjects kind_of c.outputs c.outputs v.kinds v.kinds) in
      elim ways [
        | inl (e, _, _, _, _) ↦ cc e
        | inr (_, inl (_, _, _, f)) ↦ inl f
        | inr (_, inr (victim, _, _, _, n, _, _)) ↦ inr (omega (arith, n))
      ]

  -- A loop that has ended: the channel is sound, and if it ended well, the limit of the
  -- relays of all channels is not reached.
  abbrev pub HasEnded : Channel Atom × List (Event Atom) × Option Bool → Type 0
  HasEnded (c, es, none) = ⊥
  HasEnded (c, es, some false) = Sound c
  HasEnded (c, es, some true) = Sound c × (is_total_full l other c ≡ false)

  evict_while_full-HasEnded :
      (fuel : ℕ) (c : Channel Atom) (now : ℕ) (rates : ℕ → ℕ)
      → Sound c
      → c.num_relays < fuel
      → HasEnded (evict_while_full l other lib split_host is_local fuel c now rates)
  unfolding evict_while_full
  evict_while_full-HasEnded zero c now rates v h = elim h [ ]
  evict_while_full-HasEnded (suc fuel) c now rates v h =
      let r = make_relayable lib split_host is_local c now 0 true in
      elim (Bool-cases (is_total_full l other c || is_upstream_full l (rates 0))) [
        | inr free ↦ rw free (v, ground (arith, free))
        | inl full ↦ elim (Bool-cases r.2) [
          | inr no_one ↦ rw (full, no_one) (forced-Sound c now v)
          | inl gone ↦ elim (forced-fewer c now v) [
            | inl e ↦ cc (gone, e)
            | inr fewer ↦
                rw (full, gone)
                  (evict_while_full-HasEnded fuel r.0 now (λ n. rates (suc n))
                    (forced-Sound c now v) (omega (arith, fewer, h)))
          ]
        ]
      ]

  -- What an answer means: if the relay can be admitted, a slot is free in its channel, and below the
  -- limit of all channels.
  abbrev pub HasAnswer : Channel Atom × List (Event Atom) × Option Bool → Type 0
  HasAnswer (c, es, none) = ⊥
  HasAnswer (c, es, some false) = Sound c
  HasAnswer (c, es, some true) =
      Sound c
      × (is_total_full l other c ≡ false)
      × ((l.max_relays ≡ 0) ⊎ (c.num_relays < l.max_relays))

  freed-HasAnswer :
      (c c' : Channel Atom) (es : List (Event Atom)) (freed : Bool)
      → Sound c'
      → ((freed ≡ true)
          → (is_total_full l other c' ≡ false)
            × ((l.max_relays ≡ 0) ⊎ (c'.num_relays < l.max_relays)))
      → HasAnswer (c', es, some freed)
  freed-HasAnswer c c' es false v h = v
  freed-HasAnswer c c' es true v h = let (a, b) = h refl in (v, a, b)

  room-HasAnswer :
      (c : Channel Atom) (es : List (Event Atom)) (now : ℕ)
      → Sound c
      → is_total_full l other c ≡ false
      → HasAnswer (make_slot l other lib split_host is_local (c, es, some true) now)
  unfolding make_slot is_total_full
  room-HasAnswer c es now v below =
      let r = make_relayable lib split_host is_local c now l.max_relays false in
      let (counted, ways) =
        make_relayable_lem lib split_host is_local c now l.max_relays false v.counted
          (HasKind-AreObjects kind_of c.outputs c.outputs v.kinds v.kinds) in
      freed-HasAnswer c r.0 (es ++ r.1) r.2
        (make_room-IsSound kind_of lib split_host is_local l.max_relays l.max_listeners c now false
          v)
        (elim ways [
          | inl (_, slot, same, _, _) ↦ λ h. rw same (below, slot)
          | inr (_, inl (_, _, _, f)) ↦ λ h. cc (f, h)
          | inr (_, inr (victim, _, _, _, n, _, _)) ↦
              λ h. (ground (arith, below, n), ground (arith, n, v.relays_within))
        ])

  -- The end of the admission, after the loop.
  slot-HasAnswer :
      (x : Channel Atom × List (Event Atom) × Option Bool) (now : ℕ)
      → HasEnded x
      → HasAnswer (make_slot l other lib split_host is_local x now)
  unfolding make_slot
  slot-HasAnswer (c, es, none) now v = elim v [ ]
  slot-HasAnswer (c, es, some false) now v = v
  slot-HasAnswer (c, es, some true) now (v, below) = room-HasAnswer c es now v below

  unbanned-Sound :
      (c : Channel Atom) (bans : Map String ℕ) → Sound c → Sound (record c { ban_list = bans })
  unbanned-Sound c bans v = record {
    counted = record { relays = v.counted.relays; listeners = v.counted.listeners };
    kinds = v.kinds;
    relays_within = v.relays_within;
    listeners_within = v.listeners_within;
  }

  has_banned-Sound :
      (c : Channel Atom) (now : ℕ) (ip : String)
      → Sound c
      → Sound (has_banned c now ip).0 × ((has_banned c now ip).0.num_relays ≡ c.num_relays)
  unfolding has_banned
  has_banned-Sound c now ip v = elim (Option-cases (lookup ip c.ban_list)) [
    | inl e ↦ rw (e, has_banned) (v, refl)
    | inr (until, e) ↦ elim (Bool-cases (ltb now until)) [
      | inl f ↦ rw (e, has_banned, f) (v, refl)
      | inr f ↦ rw (e, has_banned, f) (unbanned-Sound c (delete ip c.ban_list) v, refl)
    ]
  ]

  -- On a sound channel with fewer relays than the rounds that the loop is given, the question
  -- whether a relay can be admitted is answered. The channel is sound after it, and if the answer is
  -- yes, a slot is free in the channel and below the limit of all channels.
  pub can_admit_relay-HasAnswer :
      (fuel : ℕ) (c : Channel Atom) (now : ℕ) (rates : ℕ → ℕ) (ip : Option String)
      → Sound c
      → c.num_relays < fuel
      → HasAnswer (can_admit_relay l other lib split_host is_local fuel c now rates ip)
  unfolding can_admit_relay
  can_admit_relay-HasAnswer fuel c now rates none v h =
      slot-HasAnswer _ now (evict_while_full-HasEnded fuel c now rates v h)
  can_admit_relay-HasAnswer fuel c now rates (some ip) v h =
      let (v', same) = has_banned-Sound c now ip v in
      elim (Bool-cases (has_banned c now ip).1) [
        | inl banned ↦ rw banned v'
        | inr free ↦ rw free (
            slot-HasAnswer _ now (
              evict_while_full-HasEnded fuel (has_banned c now ip).0 now rates v'
                (omega (arith, same, h))))
      ]
