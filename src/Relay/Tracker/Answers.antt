-- ===== src/Relay/Tracker/Answers.antt =====
-- What the lookups of internal/relay/findtracker.go find.
use peercast_mi.Base.{
  ◌&&◌, if◌then◌else◌, ◌∙◌, ℕ, ◌≡◌, ◌≢◌, refl, sym, ◌⊎◌, subst, inl, inr, ap, Bool-cases, nat_eq,
  Bool, true, false, ◌==◌, string_eq, List, [], ◌∷◌, ◌++◌, Option, none, some, String, All, arith,
}
use peercast_mi.Pcp.{GnuId, PcpLibrary}
use peercast_mi.Relay.{AddressLibrary}
use peercast_mi.Relay.Tracker.{
  Lookup, found, tracker_not_found, broken, YellowPage, read_tracker_host, by_status,
  find_tracker_at, find_tracker,
}
use peercast_mi.Relay.Tracker.Hosts.{IsFirst, read_tracker_host-IsFirst, IsFirst-found}

module _ (lib : PcpLibrary) (net : AddressLibrary) (channel_id : GnuId) (our_global_ip : ℕ) where
  open lib use {Atom}

  -- How a lookup can have an address: the yellow page relays the channel itself, or hands one out.
  abbrev pub IsTrackerOf : YellowPage Atom → String → Type 0
  IsTrackerOf yp addr =
      (yp.dialled ≡ true)
      × (yp.get_written ≡ true)
      × (yp.helo_written ≡ true)
      × (((yp.status ≡ some 200) × (addr ≡ yp.addr))
          ⊎ ((yp.status ≡ some 503)
              × IsFirst lib net channel_id our_global_ip yp.atoms (found addr)))

  -- There is no address to be had.
  abbrev pub HasFailed : YellowPage Atom → Type 0
  HasFailed yp = (addr : String) → ¬ IsTrackerOf yp addr

  found-inj : {x y : String} → found x ≡ found y → y ≡ x
  found-inj e = cc

  broken_ne_found : (addr : String) → broken ≢ found addr
  broken_ne_found addr e = cc

  by_status-IsTrackerOf :
      (yp : YellowPage Atom) (status : ℕ) (addr : String)
      → by_status lib net channel_id our_global_ip yp status ≡ found addr
      → ((status ≡ 200) × (addr ≡ yp.addr))
        ⊎ ((status ≡ 503) × IsFirst lib net channel_id our_global_ip yp.atoms (found addr))
  unfolding by_status
  by_status-IsTrackerOf yp status addr e = elim (Bool-cases (status == 200)) [
    | inl h ↦
        let e' : by_status lib net channel_id our_global_ip yp status ≡ found yp.addr = rw h refl in
        inl (ground arith, found-inj (sym e' ∙ e))
    | inr h ↦ elim (Bool-cases (status == 503)) [
      | inl k ↦
          let e' : by_status lib net channel_id our_global_ip yp status
              ≡ read_tracker_host lib net channel_id our_global_ip yp.atoms =
            rw (h, k) refl in
          inr (
            ground arith,
            subst (IsFirst lib net channel_id our_global_ip yp.atoms) (sym e' ∙ e)
                (read_tracker_host-IsFirst lib net channel_id our_global_ip yp.atoms),
          )
      | inr k ↦
          let e' : by_status lib net channel_id our_global_ip yp status ≡ broken = rw (h, k) refl in
          absurd (broken_ne_found addr (sym e' ∙ e))
    ]
  ]

  -- The answer to a request that was sent.
  answer_of : YellowPage Atom → Option ℕ → Lookup
  answer_of yp s = elim s [
    | none ↦ broken
    | some status ↦ by_status lib net channel_id our_global_ip yp status
  ]

  with_status :
      (yp : YellowPage Atom) (s : Option ℕ) (addr : String)
      → answer_of yp s ≡ found addr
      → ((s ≡ some 200) × (addr ≡ yp.addr))
        ⊎ ((s ≡ some 503) × IsFirst lib net channel_id our_global_ip yp.atoms (found addr))
  unfolding answer_of
  with_status yp none addr e = absurd (broken_ne_found addr e)
  with_status yp (some status) addr e = elim (by_status-IsTrackerOf yp status addr e) [
    | inl (k, l) ↦ inl (ap some k, l)
    | inr (k, l) ↦ inr (ap some k, l)
  ]

  when_sent :
      (d g h : Bool) (l : Lookup) (addr : String)
      → (if d && (g && h) then l else broken) ≡ found addr
      → (d ≡ true) × (g ≡ true) × (h ≡ true) × (l ≡ found addr)
  when_sent true true true l addr e = (refl, refl, refl, e)
  when_sent true true false l addr e = absurd (broken_ne_found addr e)
  when_sent true false h l addr e = absurd (broken_ne_found addr e)
  when_sent false g h l addr e = absurd (broken_ne_found addr e)

  find_tracker_at-sent :
      (yp : YellowPage Atom) (addr : String)
      → find_tracker_at lib net channel_id our_global_ip yp ≡ found addr
      → (yp.dialled ≡ true)
        × (yp.get_written ≡ true)
        × (yp.helo_written ≡ true)
        × (answer_of yp yp.status ≡ found addr)
  unfolding find_tracker_at answer_of
  find_tracker_at-sent yp addr e =
      when_sent yp.dialled yp.get_written yp.helo_written (answer_of yp yp.status) addr e

  find_tracker_at-IsTrackerOf :
      (yp : YellowPage Atom) (addr : String)
      → find_tracker_at lib net channel_id our_global_ip yp ≡ found addr
      → IsTrackerOf yp addr
  find_tracker_at-IsTrackerOf yp addr e =
      let (d, g, h, a) = find_tracker_at-sent yp addr e in
      (d, g, h, with_status yp yp.status addr a)

  is_found :
      (l : Lookup) → ((addr : String) × (l ≡ found addr)) ⊎ ((addr : String) → l ≢ found addr)
  is_found (found addr) = inl (addr, refl)
  is_found tracker_not_found = inr (λ addr e. cc)
  is_found broken = inr (λ addr e. cc)

  by_status-found :
      (yp : YellowPage Atom) (addr : String)
      → IsFirst lib net channel_id our_global_ip yp.atoms (found addr)
      → by_status lib net channel_id our_global_ip yp 503 ≡ found addr
  unfolding by_status
  by_status-found yp addr first = IsFirst-found lib net channel_id our_global_ip yp.atoms addr first

  by_status-own :
      (yp : YellowPage Atom) → by_status lib net channel_id our_global_ip yp 200 ≡ found yp.addr
  unfolding by_status
  by_status-own yp = refl

  IsTrackerOf-found :
      (yp : YellowPage Atom) (addr : String)
      → IsTrackerOf yp addr
      → find_tracker_at lib net channel_id our_global_ip yp ≡ found addr
  unfolding find_tracker_at
  IsTrackerOf-found yp addr (d, g, h, inl (s, k)) =
      rw (d, g, h, s, find_tracker_at) (by_status-own yp ∙ ap found (sym k))
  IsTrackerOf-found yp addr (d, g, h, inr (s, first)) =
      rw (d, g, h, s, find_tracker_at) (by_status-found yp addr first)

  NotFound : YellowPage Atom → Type 0
  NotFound yp = (addr : String) → find_tracker_at lib net channel_id our_global_ip yp ≢ found addr

  outcome :
      (yp : YellowPage Atom)
      → ((addr : String) × (find_tracker_at lib net channel_id our_global_ip yp ≡ found addr))
        ⊎ (HasFailed yp × NotFound yp)
  unfolding NotFound
  outcome yp = elim (is_found (find_tracker_at lib net channel_id our_global_ip yp)) [
    | inl there ↦ inl there
    | inr f ↦ inr (λ addr t. f addr (IsTrackerOf-found yp addr t), f)
  ]

  find_tracker-none : find_tracker lib net channel_id our_global_ip [] ≡ tracker_not_found
  unfolding find_tracker
  find_tracker-none = refl

  find_tracker-found :
      (yp : YellowPage Atom) (yps : List (YellowPage Atom)) (addr : String)
      → find_tracker_at lib net channel_id our_global_ip yp ≡ found addr
      → find_tracker lib net channel_id our_global_ip (yp ∷ yps) ≡ found addr
  unfolding find_tracker
  find_tracker-found yp yps addr e = rw (e, find_tracker) refl

  -- The rest of the yellow pages is asked when the first has no address.
  or_later : Lookup → Lookup → Lookup
  or_later l later = elim l [ found addr ↦ found addr | tracker_not_found ↦ later | broken ↦ later ]

  or_later-failed :
      (l later : Lookup) → ((addr : String) → l ≢ found addr) → or_later l later ≡ later
  unfolding or_later
  or_later-failed (found addr) later f = absurd (f addr refl)
  or_later-failed tracker_not_found later f = refl
  or_later-failed broken later f = refl

  find_tracker-failed :
      (yp : YellowPage Atom) (yps : List (YellowPage Atom))
      → NotFound yp
      → find_tracker lib net channel_id our_global_ip (yp ∷ yps)
        ≡ find_tracker lib net channel_id our_global_ip yps
  unfolding find_tracker or_later NotFound
  find_tracker-failed yp yps f =
      or_later-failed (find_tracker_at lib net channel_id our_global_ip yp) _ f

  -- Either no yellow page has an address for the channel and the tracker is not found, or the result
  -- is that of the first which has one. A yellow page that takes the request has its own address if it
  -- relays the channel (200), and after a 503 that of the first host which names no other channel, can
  -- be read, is the tracker and has a place, if no quit stands before it: its local place if it is
  -- behind this node's global address and has one, else its global place.
  pub find_tracker_lem :
      (yps : List (YellowPage Atom))
      → (All HasFailed yps
          × (find_tracker lib net channel_id our_global_ip yps ≡ tracker_not_found))
        ⊎ ((failed : List (YellowPage Atom)) × (yp : YellowPage Atom) × (rest : List
              (YellowPage Atom))
            × (addr : String) × (yps ≡ failed ++ yp ∷ rest)
            × All HasFailed failed
            × IsTrackerOf yp addr
            × (find_tracker lib net channel_id our_global_ip yps ≡ found addr))
  find_tracker_lem [] = inl (tt, find_tracker-none)
  find_tracker_lem (yp ∷ yps) = elim (outcome yp) [
    | inl (addr, e) ↦ inr (
      [],
      yp,
      yps,
      addr,
      refl,
      tt,
      find_tracker_at-IsTrackerOf yp addr e,
      find_tracker-found yp yps addr e,
    )
    | inr (f, nf) ↦ elim (find_tracker_lem yps) [
      | inl (fs, e) ↦ inl ((f, fs), find_tracker-failed yp yps nf ∙ e)
      | inr (failed, at, rest, addr, e, fs, t, l) ↦ inr (
        yp ∷ failed,
        at,
        rest,
        addr,
        ap (◌∷◌ yp) e,
        (f, fs),
        t,
        find_tracker-failed yp yps nf ∙ l,
      )
    ]
  ]
