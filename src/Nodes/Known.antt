-- ===== src/Nodes/Known.antt =====
-- The cache of known hosts of internal/channel/nodes.go: its bound, and one entry for each node.
use mathlib.Core.List.{map-append}
use peercast_mi.Base.{
  ℕ, suc, ◌≤◌, ◌≡◌, ◌≢◌, refl, sym, ap, ◌∙◌, inl, inr, ◌==◌, nat_eq, if◌then◌else◌, List, [], ◌∷◌,
  ◌++◌, map, Option, none, some, All, arith, length, find, leb, Bool-cases, Option-cases,
  length-append, drop, Map, lookup, insert, lookup-insert, lookup-delete,
}
use peercast_mi.Pcp.{GnuId, PcpLibrary}
use peercast_mi.Nodes.{NodeTable, max_known_hosts, replace_host, evict, add_known_host}
use peercast_mi.Nodes.Ids.{host_session_id, host_id_or_zero}

abbrev Fresh : GnuId → List GnuId → Type 0
Fresh id = All (λ j. j ≢ id)

-- Identifiers that are not empty and pairwise different.
abbrev pub Distinct : List GnuId → Type 0
Distinct [] = Unit
Distinct (id ∷ ids) = (id ≢ 0) × Fresh id ids × Distinct ids

Fresh-snoc : (id j : GnuId) (ids : List GnuId) → Fresh id ids → j ≢ id → Fresh id (ids ++ j ∷ [])
Fresh-snoc id j [] f ne = (ne, tt)
Fresh-snoc id j (k ∷ ids) f ne = (f.0, Fresh-snoc id j ids f.1 ne)

Distinct-snoc :
    (id : GnuId) (ids : List GnuId)
    → id ≢ 0
    → Fresh id ids
    → Distinct ids
    → Distinct (ids ++ id ∷ [])
Distinct-snoc id [] ne f d = (ne, tt, tt)
Distinct-snoc id (k ∷ ids) ne f d =
    (d.0, Fresh-snoc k id ids d.1 (λ e. f.0 (sym e)), Distinct-snoc id ids ne f.1 d.2)

module _ (lib : PcpLibrary) where
  open lib use {Atom, get_id, host_id}

  abbrev pub ids : List Atom → List GnuId
  ids = map (host_id_or_zero lib)

  abbrev pub IsValid : NodeTable Atom → Type 0
  IsValid n = (length n.known_hosts ≤ max_known_hosts) × Distinct (ids n.known_hosts)

  -- An identifier that is read from a host is not the empty one.
  pub host_session_id-ne-zero : (h : Atom) (id : GnuId) → host_session_id lib h ≡ some id → id ≢ 0
  unfolding host_session_id
  host_session_id-ne-zero h id e = ground arith

  -- What the overwriting loop returns: nothing if no host has the identifier, else the hosts with
  -- that one replaced.
  abbrev Replaced : GnuId → Atom → List Atom → Option (List Atom) → Type 0
  Replaced sid host hs none = Fresh sid (ids hs)
  Replaced sid host hs (some hs') =
      (ids hs' ≡ ids hs)
      × (length hs' ≡ length hs)
      × (find (λ h. host_id_or_zero lib h == sid) hs' ≡ some host)

  Replaced-cons :
      (sid : GnuId) (host h : Atom) (hs : List Atom) (o : Option (List Atom))
      → host_id_or_zero lib h ≢ sid
      → Replaced sid host hs o
      → Replaced sid host (h ∷ hs) (elim o [ none ↦ none | some hs' ↦ some (h ∷ hs') ])
  Replaced-cons sid host h hs none ne r = (ne, r)
  Replaced-cons sid host h hs (some hs') ne (e, l, f) =
      (ap (◌∷◌ (host_id_or_zero lib h)) e, ap suc l, ground (arith, ne))

  replace_host-Replaced :
      (sid : GnuId) (host : Atom) (hs : List Atom)
      → sid ≢ 0
      → host_session_id lib host ≡ some sid
      → Replaced sid host hs (replace_host lib sid host hs)
  unfolding replace_host
  replace_host-Replaced sid host [] ne same = tt
  replace_host-Replaced sid host (h ∷ hs) ne same =
      let rest = replace_host-Replaced sid host hs ne same in
      let later = Replaced-cons sid host h hs (replace_host lib sid host hs) in
      elim (Option-cases (host_session_id lib h)) [
        | inl unread ↦ rw (unread, replace_host) (later (ground arith) rest)
        | inr (id, known) ↦ elim (Bool-cases (id == sid)) [
          | inl here ↦ rw (known, replace_host) (rw here (ground arith))
          | inr there ↦ rw (known, replace_host) (rw there (later (ground arith) rest))
        ]
      ]

  -- The hosts after the eviction are the old ones, or the old ones without the first.
  evict-hosts :
      (hs : List Atom) (times : Map GnuId ℕ)
      → (evict lib hs times).0 ≡ (if leb max_known_hosts (length hs) then drop 1 hs else hs)
  unfolding evict
  evict-hosts [] times = refl
  evict-hosts (h ∷ hs) times = ground arith

  -- The eviction leaves the time of a node alone that is not among the hosts.
  lookup-evict :
      (sid : GnuId) (hs : List Atom) (times : Map GnuId ℕ)
      → sid ≢ 0
      → Fresh sid (ids hs)
      → lookup sid (evict lib hs times).1 ≡ lookup sid times
  unfolding evict
  lookup-evict sid [] times ne f = refl
  lookup-evict sid (h ∷ hs) times ne f = elim (Option-cases (host_session_id lib h)) [
    | inl e ↦ rw (e, evict) (ground arith)
    | inr (id, e) ↦ ground (arith, lookup-delete sid id times)
  ]

  evicted-Distinct :
      (hs : List Atom) (sid : GnuId)
      → length hs ≤ max_known_hosts
      → Distinct (ids hs)
      → Fresh sid (ids hs)
      → let kept = (if leb max_known_hosts (length hs) then drop 1 hs else hs) in
        (suc (length kept) ≤ max_known_hosts) × Distinct (ids kept) × Fresh sid (ids kept)
  evicted-Distinct [] sid l d f = omega arith
  evicted-Distinct (h ∷ hs) sid l d f = ground arith

  find-snoc :
      (sid : GnuId) (host : Atom) (hs : List Atom)
      → host_id_or_zero lib host ≡ sid
      → Fresh sid (ids hs)
      → find (λ h. host_id_or_zero lib h == sid) (hs ++ host ∷ []) ≡ some host
  find-snoc sid host [] e f = ground arith
  find-snoc sid host (h ∷ hs) e f = ground (arith, find-snoc sid host hs e f.1)

  Distinct-append :
      (sid : GnuId) (host : Atom) (hs : List Atom)
      → host_id_or_zero lib host ≡ sid
      → sid ≢ 0
      → Fresh sid (ids hs)
      → Distinct (ids hs)
      → Distinct (ids (hs ++ host ∷ []))
  Distinct-append sid host hs e ne f d =
      rw (map-append (host_id_or_zero lib) hs (host ∷ []), e) (Distinct-snoc sid (ids hs) ne f d)

  -- The cache is valid, and has this host under its identifier, reported just now.
  abbrev pub Holds : GnuId → Atom → ℕ → NodeTable Atom → Type 0
  Holds sid host now n =
      IsValid n
      × (find (λ h. host_id_or_zero lib h == sid) n.known_hosts ≡ some host)
      × (lookup sid n.host_times ≡ some now)

  append-Holds :
      (n : NodeTable Atom) (sid : GnuId) (host : Atom) (now : ℕ)
      → host_session_id lib host ≡ some sid
      → IsValid n
      → Fresh sid (ids n.known_hosts)
      → let (hosts, times) = evict lib n.known_hosts (insert sid now n.host_times) in
        Holds sid host now (record n { known_hosts = hosts ++ host ∷ []; host_times = times })
  append-Holds n sid host now same v f =
      let ne = host_session_id-ne-zero host sid same in
      let id : host_id_or_zero lib host ≡ sid = ground arith in
      let kept =
        (if leb max_known_hosts (length n.known_hosts)
          then drop 1 n.known_hosts
          else n.known_hosts) in
      let (l, d, f') = evicted-Distinct n.known_hosts sid v.0 v.1 f in
      rw (evict-hosts n.known_hosts (insert sid now n.host_times)) (
        (
          omega (arith, l, length-append kept (host ∷ [])),
          Distinct-append sid host kept id ne f' d,
        ),
        find-snoc sid host kept id f',
        lookup-evict sid n.known_hosts (insert sid now n.host_times) ne f
            ∙ (ground (arith, lookup-insert sid sid now n.host_times)),
      )

  -- After `addKnownHost` of a host with an identifier, the cache still has at most 32 hosts, each
  -- with an identifier that no other has; it has that host under its identifier, as reported now.
  pub add_known_host-Holds :
      (n : NodeTable Atom) (now : ℕ) (host : Atom) (sid : GnuId)
      → IsValid n
      → host_session_id lib host ≡ some sid
      → Holds sid host now (add_known_host lib n now host)
  unfolding add_known_host
  add_known_host-Holds n now host sid v same =
      let ne = host_session_id-ne-zero host sid same in
      let replaced = replace_host-Replaced sid host n.known_hosts ne same in
      elim (Option-cases (replace_host lib sid host n.known_hosts)) [
        | inl e ↦
            rw (same, add_known_host)
              (rw (e, add_known_host) (append-Holds n sid host now same v (rw e at replaced)))
        | inr (hs', e) ↦
            let (i, l, f) = rw e at replaced in
            rw (same, add_known_host)
              (rw (e, add_known_host)
                ((rw l v.0, rw i v.1), f, ground (arith, lookup-insert sid sid now n.host_times)))
      ]

  -- `addKnownHost` keeps the cache within 32 hosts, each with an identifier that no other has.
  add_known_host-IsValid :
      (n : NodeTable Atom) (now : ℕ) (host : Atom)
      → IsValid n
      → IsValid (add_known_host lib n now host)
  unfolding add_known_host
  add_known_host-IsValid n now host v = elim (Option-cases (host_session_id lib host)) [
    | inl e ↦ rw (e, add_known_host) v
    | inr (sid, e) ↦ (add_known_host-Holds n now host sid v e).0
  ]
