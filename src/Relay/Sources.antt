-- ===== src/Relay/Sources.antt =====
-- What the list of source nodes remembers, and which addresses are read out of an atom.
use peercast_mi.Base.{
  ℕ, ◌-◌, ◌≤◌, ◌≡◌, refl, sym, ap, ◌∙◌, Bool, true, false, ◌==◌, nat_eq, string_eq, leb,
  if◌then◌else◌, [], ◌∷◌, Option, none, some, lookup, insert, UniqueKeys, Absent, keep, arith,
  beq-cases, lookup-insert, lookup-Absent, insert-UniqueKeys,
}
use peercast_mi.Pcp.{GnuId}
use peercast_mi.Relay.{SourceNode, SourceNodeList, node_expiry, is_live, add_source, list_sources}

-- What a list says of a session at a time.
abbrev pub live : ℕ → Option SourceNode → Option SourceNode
live now none = none
live now (some n) = if leb (now - n.updated_at) node_expiry then some n else none

-- Looking up among the entries that are live.
lookup-keep :
    (now : ℕ) (id : GnuId) (l : SourceNodeList)
    → UniqueKeys l
    → lookup id (keep (is_live now) l) ≡ live now (lookup id l)
unfolding lookup
lookup-keep now id [] u = refl
lookup-keep now id ((j, n) ∷ l) u =
    ground (arith, lookup-keep now id l u.1, lookup-Absent id l, beq-cases j id)

Absent-keep :
    (now : ℕ) (id : GnuId) (l : SourceNodeList) → Absent id l → Absent id (keep (is_live now) l)
Absent-keep now id [] a = tt
Absent-keep now id ((j, n) ∷ l) a = ground (arith, Absent-keep now id l a.1)

keep-UniqueKeys : (now : ℕ) (l : SourceNodeList) → UniqueKeys l → UniqueKeys (keep (is_live now) l)
keep-UniqueKeys now [] u = tt
keep-UniqueKeys now ((j, n) ∷ l) u =
    ground (arith, keep-UniqueKeys now l u.1, Absent-keep now j l u.0)

-- What is no longer live stays so.
live-later :
    (now later : ℕ) (o : Option SourceNode) → now ≤ later → live later (live now o) ≡ live later o
live-later now later none h = refl
live-later now later (some n) h = ground arith

live-if :
    (later : ℕ) (b : Bool) (x y : Option SourceNode)
    → live later (if b then x else y) ≡ (if b then live later x else live later y)
live-if later true x y = refl
live-if later false x y = refl

-- `Add` keeps one entry for each session, and `List` then gives the node that was added, until it
-- is older than three minutes, and of every other session what it gave before: the entries that
-- `Add` drops would not be listed again.
list_sources-add :
    (l : SourceNodeList) (node : SourceNode) (id : GnuId) (now later : ℕ)
    → UniqueKeys l
    → now ≤ later
    → UniqueKeys (add_source l now node)
      × (lookup id (list_sources (add_source l now node) later) ≡ (
          if node.session_id == id
          then live later (some (record node { updated_at = now }))
          else lookup id (list_sources l later)))
unfolding add_source list_sources
list_sources-add l node id now later u h =
    let node' : SourceNode = record node { updated_at = now } in
    let all = insert node.session_id node' l in
    let u' = insert-UniqueKeys node.session_id node' l u in
    let u'' = keep-UniqueKeys now all u' in
    (
      u'',
      lookup-keep later id (keep (is_live now) all) u''
          ∙ ap (live later) (lookup-keep now id all u')
          ∙ live-later now later (lookup id all) h
          ∙ ap (live later) (lookup-insert id node.session_id node' l)
          ∙ live-if later (node.session_id == id) (some node') (lookup id l)
          ∙ ap (λ o. if node.session_id == id then live later (some node') else o)
              (sym (lookup-keep later id l u)),
    )
