-- ===== src/Client/Run/Hosts.antt =====
-- That `Run` of internal/relay/client.go tries no host twice before its time as an ignored one is
-- over, and so gives up.
use peercast_mi.Base.{
  ℕ, suc, ◌+◌, ◌≤◌, ◌≡◌, ◌≢◌, refl, sym, ap, subst, ◌∙◌, ◌⊎◌, inl, inr, Bool, true, false, not,
  ◌&&◌, ◌==◌, string_eq, List, [], ◌∷◌, ◌++◌, Option, none, some, String, All, arith, any, length,
  Bool-cases, beq-cases, lookup, lookup-insert, lookup-delete,
}
use peercast_mi.Pcp.{PcpLibrary}
use peercast_mi.Network.{IpLibrary}
use peercast_mi.Channel.{Event}
use peercast_mi.Relay.{AddressLibrary, SourceNode}
use peercast_mi.Relay.Ignored.{IgnoredNodeCollection, add, contains}
use peercast_mi.Relay.Choice.{
  Scores, Search, consider, search_all, select_source_host, connect_addr,
}
use peercast_mi.Relay.Choice.Best.{IsOrder, Among, IsOf, is_eligible, select_source_host-IsBest}
use peercast_mi.Client.{Client, StopReason, no_reason, failed, unavailable, off_air, Stop}
use peercast_mi.Client.Exchange.{connect_to}
use peercast_mi.Client.Frame.{Keeps, Ended, is_end, connect_to-Keeps, connect_to-ends}
use peercast_mi.Client.Run.{
  Round, RunState, Status, going, returned, ignore, judge, finish, candidates, still_ignored,
  conclude, settle, try_host, run_round,
}

-- An address that was ignored at `t0` or later.
unfoldable pub IsHeld : ℕ → IgnoredNodeCollection → String → Type 0
IsHeld t0 c addr = (t : ℕ) × (lookup addr c.entries ≡ some t) × t0 ≤ t

-- What holds after a change: no address that is held is let go, and the threshold is the same.
Holds : ℕ → IgnoredNodeCollection → IgnoredNodeCollection → Type 0
Holds t0 c d = ((a : String) → IsHeld t0 c a → IsHeld t0 d a) × (d.threshold ≡ c.threshold)

module _ (t0 : ℕ) where
  contains-IsHeld :
      (c : IgnoredNodeCollection) (now : ℕ) (a : String)
      → now ≤ t0 + c.threshold
      → IsHeld t0 c a
      → (contains c now a).1 ≡ true
  unfolding contains IsHeld
  contains-IsHeld c now a h (t, e, le) = ground (arith, e)

  contains-Holds :
      (c : IgnoredNodeCollection) (now : ℕ) (b : String)
      → now ≤ t0 + c.threshold
      → Holds t0 c (contains c now b).0
  unfolding contains IsHeld Holds
  contains-Holds c now b h = (
    λ a (t, e, le). (t, ground (arith, e, le, lookup-delete a b c.entries, beq-cases b a), le),
    ground arith,
  )

  add-Holds :
      (c : IgnoredNodeCollection) (now : ℕ) (b : String) → t0 ≤ now → Holds t0 c (add c now b)
  unfolding add IsHeld Holds
  add-Holds c now b h = (
    λ a (t, e, le). elim (beq-cases b a) [
      | inl (f, _) ↦ (now, ground (arith, f, lookup-insert a b now c.entries), h)
      | inr (f, _) ↦ (t, ground (arith, f, e, lookup-insert a b now c.entries), le)
    ],
    refl,
  )

  add-IsHeld :
      (c : IgnoredNodeCollection) (now : ℕ) (b : String) → t0 ≤ now → IsHeld t0 (add c now b) b
  unfolding add IsHeld
  add-IsHeld c now b h = (now, ground (arith, lookup-insert b b now c.entries, beq-cases b b), h)

  Holds-refl : (c : IgnoredNodeCollection) → Holds t0 c c
  unfolding Holds
  Holds-refl c = (λ a h. h, refl)

  Holds-trans : (c d e : IgnoredNodeCollection) → Holds t0 c d → Holds t0 d e → Holds t0 c e
  unfolding Holds
  Holds-trans c d e h k = (λ a x. k.0 a (h.0 a x), k.1 ∙ h.1)

  Holds-bound :
      (c d : IgnoredNodeCollection) (now : ℕ)
      → Holds t0 c d
      → now ≤ t0 + c.threshold
      → now ≤ t0 + d.threshold
  unfolding Holds
  Holds-bound c d now k le = omega (arith, le, k.1)

  module _ (floats : Scores) where
    open floats use {Random}

    consider-Holds :
        (now ip : ℕ) (s : Search floats) (x : SourceNode × Random)
        → now ≤ t0 + s.ignored.threshold
        → Holds t0 s.ignored (consider floats now ip s x).ignored
    unfolding consider
    consider-Holds now ip s (n, draw) h =
        ground (arith, Holds-refl s.ignored, contains-Holds s.ignored now (connect_addr n ip) h)

    search_all-Holds :
        (now ip : ℕ) (s : Search floats) (xs : List (SourceNode × Random))
        → now ≤ t0 + s.ignored.threshold
        → Holds t0 s.ignored (search_all floats now ip s xs).ignored
    unfolding search_all
    search_all-Holds now ip s [] h = Holds-refl s.ignored
    search_all-Holds now ip s (x ∷ xs) h =
        let one = consider-Holds now ip s x h in
        Holds-trans _ _ _ one (
          search_all-Holds now ip (consider floats now ip s x) xs
            (Holds-bound s.ignored _ now one h))

    not_ignored :
        (now ip : ℕ) (c : IgnoredNodeCollection) (r : String) (best : floats.Score)
        (xs : List (SourceNode × Random))
        → Among (IsOf floats now ip c r best) xs
        → (contains c now r).1 ≡ false
    unfolding is_eligible
    not_ignored now ip c r best [] p = elim p [ ]
    not_ignored now ip c r best ((n, draw) ∷ xs) (inl (e, a, b)) = rw a (ground (arith, e))
    not_ignored now ip c r best (x ∷ xs) (inr p) = not_ignored now ip c r best xs p

    -- An address that is chosen is not ignored.
    chosen-contains :
        (now ip : ℕ) (nodes : List (SourceNode × Random)) (c : IgnoredNodeCollection)
        (tracker : String)
        → IsOrder floats
        → let r = select_source_host floats now ip nodes c tracker in
          (r == "" ≡ true) ⊎ ((contains c now r).1 ≡ false)
    chosen-contains now ip nodes c tracker laws =
        elim (select_source_host-IsBest floats now ip nodes c tracker laws) [
          | inr (none_left, e) ↦
              rw e (elim (Bool-cases (not (tracker == "") && not (contains c now tracker).1)) [
                | inl f ↦ inr (rw f (ground (arith, f)))
                | inr f ↦ inl (rw f refl)
              ])
          | inl (best, found, below) ↦ inr (not_ignored now ip c _ best nodes found)
        ]

-- No two entries are equal.
unfoldable pub IsDistinct : List String → Type 0
IsDistinct [] = Unit {0}
IsDistinct (x ∷ xs) = All (λ y. y ≢ x) xs × IsDistinct xs

-- The hosts that were tried are distinct, and ignored since `t0` or later.
unfoldable pub IsTried : {A : Type 0} → ℕ → RunState A → Type 0
IsTried t0 s = IsDistinct s.dialled × All (IsHeld t0 s.client.ignored_nodes) s.dialled

All-Holds :
    (t0 : ℕ) (c d : IgnoredNodeCollection) (xs : List String)
    → Holds t0 c d
    → All (IsHeld t0 c) xs
    → All (IsHeld t0 d) xs
unfolding Holds
All-Holds t0 c d [] h a = tt
All-Holds t0 c d (x ∷ xs) h a = (h.0 x a.0, All-Holds t0 c d xs h a.1)

-- An address that is not ignored is none of those that are.
All-fresh :
    (t0 now : ℕ) (c : IgnoredNodeCollection) (r : String) (xs : List String)
    → now ≤ t0 + c.threshold
    → (contains c now r).1 ≡ false
    → All (IsHeld t0 c) xs
    → All (λ y. y ≢ r) xs
All-fresh t0 now c r [] h f a = tt
All-fresh t0 now c r (x ∷ xs) h f a =
    (λ e. cc (contains-IsHeld t0 c now x h a.0, f, e), All-fresh t0 now c r xs h f a.1)

module _ (t0 : ℕ) {A : Type 0} where
  -- A connection that ended without `Reconnect` has its host ignored, or `Run` stops.
  judge_lem :
      (c : Client A) (now : ℕ) (addr : String) (reason : StopReason)
      → reason ≢ no_reason
      → t0 ≤ now
      → ((judge c now addr false reason).1 ≡ false)
        ⊎ (Holds t0 c.ignored_nodes (judge c now addr false reason).0.ignored_nodes
            × IsHeld t0 (judge c now addr false reason).0.ignored_nodes addr)
  unfolding judge ignore
  judge_lem c now addr no_reason ne h = absurd (ne refl)
  judge_lem c now addr unavailable ne h =
      inr (add-Holds t0 c.ignored_nodes now addr h, add-IsHeld t0 c.ignored_nodes now addr h)
  judge_lem c now addr failed ne h = elim (Bool-cases (addr == c.tracker_addr)) [
    | inl e ↦ inl (rw e refl)
    | inr e ↦
        inr
          (rw e (add-Holds t0 c.ignored_nodes now addr h, add-IsHeld t0 c.ignored_nodes now addr h))
  ]
  judge_lem c now addr off_air ne h = elim (Bool-cases (addr == c.tracker_addr)) [
    | inl e ↦ inl (rw e refl)
    | inr e ↦
        inr
          (rw e (add-Holds t0 c.ignored_nodes now addr h, add-IsHeld t0 c.ignored_nodes now addr h))
  ]

module _ (lib : PcpLibrary) (net : AddressLibrary) (ips : IpLibrary) (floats : Scores)
    (t0 : ℕ) where
  open lib use {Atom}
  open floats use {Random}

  -- A round without a reconnection that chooses a host up to `limit` and whose connection ends at
  -- `t0` or later.
  unfoldable pub IsPlain : ℕ → Round Atom Random → Type 0
  IsPlain limit r =
      r.now ≤ limit
      × t0 ≤ r.end
      × (r.bumped ≡ false)
      × (any (is_end lib net ips) r.attempt.reads ≡ true)

  abbrev threshold : RunState Atom → ℕ
  threshold s = s.client.ignored_nodes.threshold

  -- A round that began with the hosts `before` tried has returned, or goes on and has tried one more.
  abbrev pub Progress : RunState Atom → RunState Atom × Status → Type 0
  Progress s (s', status) =
      IsDistinct s'.dialled
      × ((status ≡ returned)
          ⊎ ((status ≡ going)
              × IsTried t0 s'
              × (threshold s' ≡ threshold s)
              × (length s'.dialled ≡ suc (length s.dialled))))

  conclude-Progress :
      (s tried : RunState Atom) (addr : String) (c : Client Atom) (more : Bool)
      → IsTried t0 s
      → tried.dialled ≡ addr ∷ s.dialled
      → All (λ y. y ≢ addr) s.dialled
      → (more ≡ false)
        ⊎ (Holds t0 s.client.ignored_nodes c.ignored_nodes × IsHeld t0 c.ignored_nodes addr)
      → Progress s (conclude lib net ips floats tried (c, more))
  unfolding conclude finish IsTried IsDistinct Holds
  conclude-Progress s tried addr c false (distinct, held) e fresh k =
      (subst IsDistinct (sym e) (fresh, distinct), inl refl)
  conclude-Progress s tried addr c true (distinct, held) e fresh (inl k) = cc k
  conclude-Progress s tried addr c true (distinct, held) e fresh (inr (holds, it)) =
      let kept : All (IsHeld t0 c.ignored_nodes) (addr ∷ s.dialled) =
        (it, All-Holds t0 s.client.ignored_nodes c.ignored_nodes s.dialled holds held) in
      let all : IsDistinct (addr ∷ s.dialled) = (fresh, distinct) in
      (
        subst IsDistinct (sym e) all,
        inr (
          refl,
          (subst IsDistinct (sym e) all, subst (All (IsHeld t0 c.ignored_nodes)) (sym e) kept),
          holds.1,
          ap length e,
        ),
      )

  settle-Progress :
      (s : RunState Atom) (r : Round Atom Random) (addr : String) (c : Client Atom)
      (es : List (Event Atom)) (stop : Option Stop)
      → IsTried t0 s
      → All (λ y. y ≢ addr) s.dialled
      → Keeps s.client c
      → Ended lib net ips stop
      → r.bumped ≡ false
      → t0 ≤ r.end
      → Progress s (settle lib net ips floats s r addr ((c, es), stop))
  unfolding settle Keeps
  settle-Progress s r addr c es none tried fresh kept ended plain late = elim ended [ ]
  settle-Progress s r addr c es (some e) tried fresh kept ended plain late =
      let after : RunState Atom = record {
        client = c;
        events = s.events ++ es;
        dialled = addr ∷ s.dialled;
      } in
      let judged = judge c r.end addr false e.reason in
      rw plain (
        conclude-Progress s after addr judged.0 judged.1 tried refl fresh
          (rw⁻¹ (kept.0) (judge_lem t0 c r.end addr e.reason ended late)))

  try_host-Progress :
      (s : RunState Atom) (r : Round Atom Random) (addr : String)
      → IsTried t0 s
      → All (λ y. y ≢ addr) s.dialled
      → IsPlain (t0 + threshold s) r
      → Progress s (try_host lib net ips floats s r addr)
  unfolding try_host IsPlain
  try_host-Progress s r addr tried fresh (le, late, plain, ends) =
      let res = connect_to lib net ips s.client r.attempt in
      settle-Progress s r addr res.0.0 res.0.1 res.1 tried fresh
        (connect_to-Keeps lib net ips s.client r.attempt)
        (connect_to-ends lib net ips s.client r.attempt ends) plain late

  still_ignored-Holds :
      (c : Client Atom) (now : ℕ) (draw : SourceNode → Random)
      → now ≤ t0 + c.ignored_nodes.threshold
      → Holds t0 c.ignored_nodes (still_ignored lib net ips floats c now draw)
  unfolding still_ignored
  still_ignored-Holds c now draw le =
      let start : Search floats = record {
        ignored = c.ignored_nodes;
        best_addr = "";
        best_score = floats.lowest;
      } in
      let found =
        search_all floats now c.global_ip start (candidates lib net ips floats c now draw) in
      let one =
        search_all-Holds t0 floats now c.global_ip start (candidates lib net ips floats c now draw)
          le in
      elim (Bool-cases (found.best_addr == "" && not (c.tracker_addr == ""))) [
        | inl e ↦ rw e (
            Holds-trans t0 _ _ _ one (
              contains-Holds t0 found.ignored now c.tracker_addr
                (Holds-bound t0 c.ignored_nodes found.ignored now one le)))
        | inr e ↦ rw e one
      ]

  finish-Progress :
      (s t : RunState Atom) → IsTried t0 s → t.dialled ≡ s.dialled → Progress s (finish t, returned)
  unfolding finish IsTried
  finish-Progress s t tried e = (subst IsDistinct (sym e) tried.0, inl refl)

  asked : RunState Atom → Round Atom Random → RunState Atom
  asked s r = record s {
    client = record (s.client) {
      ignored_nodes = still_ignored lib net ips floats s.client r.now r.draw;
    };
  }

  asked-Progress :
      (s : RunState Atom) (r : Round Atom Random) (addr : String)
      → IsTried t0 s
      → IsPlain (t0 + threshold s) r
      → All (λ y. y ≢ addr) s.dialled
      → Progress s (try_host lib net ips floats (asked s r) r addr)
  unfolding IsPlain IsTried Holds asked
  asked-Progress s r addr tried plain fresh =
      let h = still_ignored-Holds s.client r.now r.draw plain.0 in
      let (distinct, k) =
        try_host-Progress (asked s r) r addr
          (tried.0, All-Holds t0 s.client.ignored_nodes _ s.dialled h tried.1) fresh
          (omega (arith, h.1, plain.0), plain.1, plain.2, plain.3) in
      (distinct, elim k [ inl over ↦ inl over | inr (g, t, e, n) ↦ inr (g, t, e ∙ h.1, n) ])

  pub run_round-Progress :
      (s : RunState Atom) (r : Round Atom Random)
      → IsOrder floats
      → IsTried t0 s
      → IsPlain (t0 + threshold s) r
      → Progress s (run_round lib net ips floats s r)
  unfolding run_round asked IsPlain IsTried
  run_round-Progress s r laws tried plain =
      let c = s.client in
      let nodes = candidates lib net ips floats c r.now r.draw in
      let addr = select_source_host floats r.now c.global_ip nodes c.ignored_nodes c.tracker_addr in
      elim (Bool-cases r.cancelled) [
        | inl e ↦ simp e (finish-Progress s s tried refl)
        | inr e ↦ elim (Bool-cases (addr == "")) [
          | inl f ↦ simp (e, f) (finish-Progress s (asked s r) tried refl)
          | inr f ↦
              simp (e, f)
                (asked-Progress s r addr tried plain
                  (elim (chosen-contains t0 floats r.now c.global_ip nodes c.ignored_nodes
                    c.tracker_addr laws) [
                      | inl g ↦ cc (f, g)
                      | inr free ↦
                          All-fresh t0 r.now c.ignored_nodes addr s.dialled plain.0 free tried.1
                    ]))
        ]
      ]
