-- ===== src/Client/Run/GivesUp.antt =====
-- That `Run` of internal/relay/client.go returns once it has no host left to try.
use peercast_mi.Base.{
  ℕ, ◌+◌, ◌≤◌, ◌<◌, ◌≡◌, ◌≢◌, refl, sym, subst, ◌⊎◌, inl, inr, Bool, true, not, ◌==◌, string_eq,
  List, [], ◌∷◌, String, All, arith, any, length, keep, beq-cases,
}
use peercast_mi.Pcp.{PcpLibrary}
use peercast_mi.Network.{IpLibrary}
use peercast_mi.Relay.{AddressLibrary}
use peercast_mi.Relay.Choice.{Scores}
use peercast_mi.Relay.Choice.Best.{IsOrder}
use peercast_mi.Client.Run.{
  Round, RunState, Status, going, waiting, returned, run_round, run, go_on,
}
use peercast_mi.Client.Run.Hosts.{IsDistinct, IsTried, IsPlain, run_round-Progress}

-- The list has an entry that is the address.
abbrev pub has : List String → String → Bool
has xs a = any (λ x. x == a) xs

without : String → List String → List String
without a xs = keep (λ x. not (x == a)) xs

length-without : (a : String) (xs : List String) → length (without a xs) ≤ length xs
unfolding without
length-without a [] = omega arith
length-without a (x ∷ xs) = ground (arith, length-without a xs)

length-without_less :
    (a : String) (xs : List String) → has xs a ≡ true → length (without a xs) < length xs
unfolding without
length-without_less a [] h = cc h
length-without_less a (x ∷ xs) h = ground (arith, h, length-without a xs, length-without_less a xs)

has-without :
    (a b : String) (xs : List String) → b ≢ a → has xs b ≡ true → has (without a xs) b ≡ true
unfolding without
has-without a b [] ne h = cc h
has-without a b (x ∷ xs) ne h =
    ground (arith, ne, h, has-without a b xs ne, beq-cases x a, beq-cases x b)

All-without :
    (a : String) (ys xs : List String)
    → All (λ y. y ≢ a) ys
    → All (λ y. has xs y ≡ true) ys
    → All (λ y. has (without a xs) y ≡ true) ys
All-without a [] xs ne h = tt
All-without a (y ∷ ys) xs ne h = (has-without a y xs ne.0 h.0, All-without a ys xs ne.1 h.1)

-- Distinct entries of a list are no more than it has.
distinct_le :
    (ys xs : List String) → IsDistinct ys → All (λ y. has xs y ≡ true) ys → length ys ≤ length xs
unfolding IsDistinct
distinct_le [] xs d h = omega arith
distinct_le (y ∷ ys) xs d h = omega (
  arith,
  distinct_le ys (without y xs) d.1 (All-without y ys xs d.0 h.1),
  length-without_less y xs h.0,
)

module _ {A : Type 0} where
  go_on-going :
      (x : RunState A × Status) (next : RunState A → RunState A × Status)
      → x.1 ≡ going
      → go_on x next ≡ next x.0
  unfolding go_on
  go_on-going (s, going) next e = refl
  go_on-going (s, waiting) next e = cc e
  go_on-going (s, returned) next e = cc e

  go_on-returned :
      (x : RunState A × Status) (next : RunState A → RunState A × Status)
      → x.1 ≡ returned
      → go_on x next ≡ x
  unfolding go_on
  go_on-returned (s, going) next e = cc e
  go_on-returned (s, waiting) next e = cc e
  go_on-returned (s, returned) next e = refl

module _ (lib : PcpLibrary) (net : AddressLibrary) (ips : IpLibrary) (floats : Scores)
    (t0 : ℕ) where
  open lib use {Atom}
  open floats use {Random}

  -- Rounds, none of which asks for a reconnection and each of whose connections ends, that choose
  -- their hosts before the first one that was ignored may be tried again: no host is tried twice,
  -- and `Run` returns or has tried one host in each round.
  pub run-IsDistinct :
      (rs : List (Round Atom Random)) (s : RunState Atom)
      → IsOrder floats
      → IsTried t0 s
      → All (IsPlain lib net ips floats t0 (t0 + s.client.ignored_nodes.threshold)) rs
      → (let (s', status) = run lib net ips floats s rs in
          IsDistinct s'.dialled
          × ((status ≡ returned)
              ⊎ ((status ≡ going) × (length s'.dialled ≡ length s.dialled + length rs))))
  unfolding run IsTried
  run-IsDistinct [] s laws tried plain = (tried.0, inr (refl, omega arith))
  run-IsDistinct (r ∷ rs) s laws tried plain =
      let res = run_round lib net ips floats s r in
      let (distinct, step) = run_round-Progress lib net ips floats t0 s r laws tried plain.0 in
      elim step [
        | inl over ↦ rw (go_on-returned res _ over) (distinct, inl over)
        | inr (more, tried', same, n) ↦
            let (d, k) =
              run-IsDistinct rs res.0 laws tried'
                (subst (λ t. All (IsPlain lib net ips floats t0 (t0 + t)) rs) (sym same) plain.1) in
            rw (go_on-going res _ more)
              (d, elim k [ inl x ↦ inl x | inr (g, m) ↦ inr (g, omega (arith, m, n)) ])
      ]

  -- In such rounds, more than there are addresses among which each host that was tried is, `Run`
  -- that had tried none before returns.
  pub run-returns :
      (rs : List (Round Atom Random)) (s : RunState Atom) (addrs : List String)
      → IsOrder floats
      → s.dialled ≡ []
      → All (IsPlain lib net ips floats t0 (t0 + s.client.ignored_nodes.threshold)) rs
      → All (λ a. has addrs a ≡ true) (run lib net ips floats s rs).0.dialled
      → length addrs < length rs
      → (run lib net ips floats s rs).1 ≡ returned
  unfolding IsTried IsDistinct
  run-returns rs s addrs laws fresh plain known enough =
      let tried : IsTried t0 s = (subst IsDistinct (sym fresh) tt, subst (All _) (sym fresh) tt) in
      let (distinct, k) = run-IsDistinct rs s laws tried plain in
      elim k [
        | inl over ↦ over
        | inr (g, n) ↦
            let few = distinct_le (run lib net ips floats s rs).0.dialled addrs distinct known in
            let bad : ⊥ = omega (arith, n, enough, few) in absurd bad
      ]
