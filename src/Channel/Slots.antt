-- ===== src/Channel/Slots.antt =====
-- Freeing a relay slot and banning the evicted node: `makeRelayable`, `Ban` and `HasBanned` of
-- internal/channel/channel.go.
use peercast_mi.Base.{
  ℕ, ◌+◌, ◌≤◌, ◌<◌, ◌≡◌, ◌≢◌, refl, ap, ◌∙◌, ◌⊎◌, inl, inr, String, Bool, true, false, not, ◌&&◌,
  ◌||◌, ◌==◌, nat_eq, string_eq, ltb, if◌then◌else◌, List, [], ◌∷◌, Option, none, some, All, arith,
  Option-cases, Bool-cases, find, lookup, subst, Map, beq_refl, lookup-insert, lookup-delete,
  beq-cases,
}
use peercast_mi.Pcp.{PcpLibrary}
use peercast_mi.Nodes.Stats.{relay_unproductive}
use peercast_mi.Channel.{
  Channel, OutputStream, Event, evict, remove_output, remove_first, relay_ban_duration, ban,
  has_banned, is_victim, ban_remote, make_relayable,
}
use peercast_mi.Channel.Outputs.{
  IsCounted, IsObject, relay, remove_output-IsCounted, remove_output-relay,
}

module _ {A : Type 0} (c : Channel A) where
  -- A key is banned after `Ban` until the given time, and no other key is affected.
  has_banned-ban :
      (key j : String) (until now : ℕ)
      → (has_banned (ban c key until) now j).1
        ≡ (if key == j then ltb now until else (has_banned c now j).1)
  unfolding has_banned ban
  has_banned-ban key j until now = ground (arith, lookup-insert j key until c.ban_list)

  -- `HasBanned` drops entries that have expired, which changes no answer at that time or later.
  has_banned_stable :
      (key j : String) (now later : ℕ)
      → now ≤ later
      → (has_banned (has_banned c now key).0 later j).1 ≡ (has_banned c later j).1
  unfolding has_banned
  has_banned_stable key j now later h =
      ground (arith, lookup-delete j key c.ban_list, beq-cases key j)

-- The entry that a loop with a test stops at has passed the test, and has what all entries have.
find-All :
    (P : OutputStream → Type 0) (p : OutputStream → Bool) (os : List OutputStream)
    (x : OutputStream)
    → All P os
    → find p os ≡ some x
    → (p x ≡ true) × P x
find-All P p [] x a e = cc
find-All P p (o ∷ os) x a e = elim (Bool-cases (p o)) [
  | inl hit ↦
      let same : o ≡ x = ground (arith, hit, e) in
      (subst (λ y. p y ≡ true) same hit, subst P same a.0)
  | inr miss ↦ find-All P p os x a.1 (ground (arith, miss, e))
]

-- A stream that is there is found by `RemoveOutput`.
remove_first-found :
    (p : OutputStream → Bool) (os : List OutputStream) (x : OutputStream)
    → find p os ≡ some x
    → (os' : List OutputStream) × (remove_first x.ref os ≡ some os')
unfolding remove_first
remove_first-found p [] x e = cc
remove_first-found p (o ∷ os) x e = elim (Bool-cases (o.ref == x.ref)) [
  | inl same ↦ (os, rw same)
  | inr other ↦
      let (os', found) = remove_first-found p os x (ground (arith, other, e)) in
      (o ∷ os', rw other (rw found))
]

find-none :
    (p : OutputStream → Bool) (os : List OutputStream)
    → find p os ≡ none
    → All (λ o. p o ≡ false) os
find-none p [] e = tt
find-none p (o ∷ os) e = ground (arith, find-none p os, e)

-- The time until which a host is banned, if there is a host and it has an entry.
abbrev pub ban_of : Option String → Map String ℕ → Option ℕ
ban_of none bans = none
ban_of (some host) bans = lookup host bans

-- A time for a host, if there is one.
abbrev pub until_of : Option String → ℕ → Option ℕ
until_of none until = none
until_of (some host) until = some until

-- A slot is not to be had as it is: it is to be freed by force, or the limit is reached.
abbrev pub IsFull : ℕ → ℕ → Bool → Type 0
IsFull limit used force = (force ≡ true) ⊎ ((limit ≢ 0) × limit ≤ used)

slot-IsFull :
    (limit used : ℕ) (force : Bool)
    → not force && (limit == 0 || ltb used limit) ≡ false
    → IsFull limit used force
slot-IsFull limit used true h = inl refl
slot-IsFull limit used false h = inr (λ e. ground arith, ground arith)

slot_free :
    (limit used : ℕ) (force : Bool)
    → not force && (limit == 0 || ltb used limit) ≡ true
    → (limit ≡ 0) ⊎ (used < limit)
slot_free limit used force h = ground arith

-- Any stream whose identity another one of the list has is the same object.
abbrev pub AreObjects : List OutputStream → Type 0
AreObjects os = All (λ o. IsObject o os) os

module _ (lib : PcpLibrary) (split_host : String → Option String) (is_local : String → Bool) where
  open lib use {Atom}

  -- A relay stream that may be evicted: of no local address, and whose host is known to be
  -- firewalled, or not to be, and serves nobody.
  pub record IsEvictable (c : Channel Atom) (now : ℕ) (o : OutputStream) : Type 0 where
    pub kind : relay o ≡ true
    pub remote : (elim (split_host o.remote_addr) [ none ↦ false | some h ↦ is_local h ]) ≡ false
    pub idle :
        (o.firewalled ≡ some true)
        ⊎ ((o.firewalled ≡ some false)
            × ((elim o.peer [ none ↦ false | some id ↦ relay_unproductive lib c.nodes now id ])
                ≡ true))

  is_victim-IsEvictable :
      (c : Channel Atom) (now : ℕ) (o : OutputStream)
      → is_victim lib split_host is_local c now o ≡ true
      → IsEvictable c now o
  unfolding is_victim
  is_victim-IsEvictable c now o h = ground arith

  IsEvictable-is_victim :
      (c : Channel Atom) (now : ℕ) (o : OutputStream)
      → IsEvictable c now o
      → is_victim lib split_host is_local c now o ≡ true
  unfolding is_victim
  IsEvictable-is_victim c now o h = ground (arith, h.kind, h.remote, h.idle)

  not_victims :
      (c : Channel Atom) (now : ℕ) (os : List OutputStream)
      → All (λ o. is_victim lib split_host is_local c now o ≡ false) os
      → All (λ o. ¬ IsEvictable c now o) os
  not_victims c now [] a = tt
  not_victims c now (o ∷ os) a =
      (λ ev. cc (IsEvictable-is_victim c now o ev, a.0), not_victims c now os a.1)

  -- The slot is free already: nothing is done.
  abbrev pub HasSlot : Channel Atom → ℕ → Bool → Channel Atom × List (Event Atom) × Bool → Type 0
  HasSlot c max_relays force (c', events, freed) =
      (force ≡ false)
      × ((max_relays ≡ 0) ⊎ (c.num_relays < max_relays))
      × (c' ≡ c)
      × (events ≡ [])
      × (freed ≡ true)

  -- Nobody can be evicted: nothing is done.
  abbrev pub HasNoVictim : Channel Atom → ℕ → Channel Atom × List (Event Atom) × Bool → Type 0
  HasNoVictim c now (c', events, freed) =
      All (λ o. ¬ IsEvictable c now o) c.outputs × (c' ≡ c) × (events ≡ []) × (freed ≡ false)

  -- One relay has left its slot, and its host is banned for 90 seconds.
  abbrev pub HasEvicted : Channel Atom → ℕ → Channel Atom × List (Event Atom) × Bool → Type 0
  HasEvicted c now (c', events, freed) =
      (victim : OutputStream) × IsEvictable c now victim
      × (events ≡ evict victim.ref ∷ [])
      × (freed ≡ true)
      × (c'.num_relays + 1 ≡ c.num_relays)
      × (c'.num_listeners ≡ c.num_listeners)
      × (ban_of (split_host victim.remote_addr) c'.ban_list
          ≡ until_of (split_host victim.remote_addr) (now + relay_ban_duration))

  ban_remote-frame :
      (c : Channel Atom) (now : ℕ) (o : OutputStream)
      → let b = ban_remote lib split_host is_local c now o in
        (b.outputs ≡ c.outputs)
        × (b.num_relays ≡ c.num_relays)
        × (b.num_listeners ≡ c.num_listeners)
        × (ban_of (split_host o.remote_addr) b.ban_list
            ≡ until_of (split_host o.remote_addr) (now + relay_ban_duration))
  unfolding ban_remote ban
  ban_remote-frame c now o = elim (Option-cases (split_host o.remote_addr)) [
    | inl e ↦ rw (e, ban_remote) (refl, refl, refl, refl)
    | inr (h, e) ↦
        rw (e, ban_remote)
          (
            refl,
            refl,
            refl,
            (ground (arith, lookup-insert h h (now + relay_ban_duration) c.ban_list, beq_refl h)),
          )
  ]

  evicted :
      (c : Channel Atom) (now : ℕ) (victim : OutputStream)
      → IsCounted c
      → IsObject victim c.outputs
      → IsEvictable c now victim
      → (os : List OutputStream) × (remove_first victim.ref c.outputs ≡ some os)
      → let b = ban_remote lib split_host is_local c now victim in
        IsCounted (remove_output b victim)
        × HasEvicted c now (remove_output b victim, evict victim.ref ∷ [], true)
  evicted c now victim v obj ev found =
      let b = ban_remote lib split_host is_local c now victim in
      let (os, rs, ls, bans) = ban_remote-frame c now victim in
      let obj' : IsObject victim b.outputs = rw os obj in
      let v' : IsCounted b = record {
        relays = rw (os, rs) v.relays;
        listeners = rw (os, ls) v.listeners;
      } in
      let found' = rw (← os) at found in
      let (r, l, same) = remove_output-relay b victim obj' v' ev.kind found' in
      (
        remove_output-IsCounted b victim obj' v',
        (
          victim,
          ev,
          refl,
          refl,
          r ∙ rs,
          l ∙ ls,
          ap (ban_of (split_host victim.remote_addr)) same ∙ bans,
        ),
      )

  -- On a channel with right counters, `makeRelayable` leaves them right and does one of three things.
  -- Either it is not forced and there is no limit or it is not reached, it changes nothing and
  -- succeeds. Or it is forced, or there is a limit and it is reached; then, either no stream may be
  -- evicted, it changes nothing and fails, or it evicts one relay stream, of no local address and
  -- either firewalled or reported to serve nobody, takes exactly that one off the relay counter, bans
  -- its host for 90 seconds, and succeeds.
  pub make_relayable_lem :
      (c : Channel Atom) (now max_relays : ℕ) (force : Bool)
      → IsCounted c
      → AreObjects c.outputs
      → let r = make_relayable lib split_host is_local c now max_relays force in
        IsCounted r.0
        × (HasSlot c max_relays force r
            ⊎ (IsFull max_relays c.num_relays force × (HasNoVictim c now r ⊎ HasEvicted c now r)))
  unfolding make_relayable
  make_relayable_lem c now max_relays force v objs =
      elim (Bool-cases (not force && (max_relays == 0 || ltb c.num_relays max_relays))) [
        | inl free ↦ rw free (
          v,
          inl (
            ground (arith, free),
            slot_free max_relays c.num_relays force free,
            refl,
            refl,
            refl,
          ),
        )
        | inr full ↦
            elim (Option-cases (find (is_victim lib split_host is_local c now) c.outputs)) [
              | inl e ↦ rw full (
                  rw (e, make_relayable)
                    (
                      v,
                      inr (
                        slot-IsFull max_relays c.num_relays force full,
                        inl (
                          not_victims c now c.outputs (find-none _ c.outputs e),
                          refl,
                          refl,
                          refl,
                        ),
                      ),
                    ))
              | inr (victim, e) ↦
                  let (hit, obj) = find-All _ _ c.outputs victim objs e in
                  let (counted, done) =
                    evicted c now victim v obj (is_victim-IsEvictable c now victim hit)
                      (remove_first-found _ c.outputs victim e) in
                  rw full (
                    rw (e, make_relayable)
                      (counted, inr (slot-IsFull max_relays c.num_relays force full, inr done)))
            ]
      ]
