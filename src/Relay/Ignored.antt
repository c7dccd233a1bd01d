-- ===== src/Relay/Ignored.antt =====
-- internal/relay/ignorednode.go: addresses that are skipped for a while.
use peercast_mi.Base.{
  ℕ, ◌-◌, ◌*◌, ◌^◌, ◌≤◌, ◌≡◌, Bool, true, false, ◌==◌, string_eq, ltb, leb, if◌then◌else◌, [], none,
  some, String, Map, lookup, insert, delete, arith, lookup-insert, lookup-delete, beq-cases,
}

pub record IgnoredNodeCollection : Type 0 where
  pub entries : Map String ℕ
  pub threshold : ℕ

abbrev pub new_ignored_node_collection : IgnoredNodeCollection
new_ignored_node_collection = record { entries = []; threshold = 3 * 60 * 10 ^ 9 }

unfoldable pub add : IgnoredNodeCollection → ℕ → String → IgnoredNodeCollection
add c now addr = record c { entries = insert addr now c.entries }

unfoldable pub contains : IgnoredNodeCollection → ℕ → String → IgnoredNodeCollection × Bool
contains c now addr = elim (lookup addr c.entries) [
  | none ↦ (c, false)
  | some t ↦
      if ltb c.threshold (now - t)
      then (record c { entries = delete addr c.entries }, false)
      else (c, true)
]

-- An address that is added is contained until the threshold has passed, and no other address is
-- affected.
contains-add :
    (c : IgnoredNodeCollection) (addr other : String) (now later : ℕ)
    → (contains (add c now addr) later other).1
      ≡ (if addr == other then leb (later - now) c.threshold else (contains c later other).1)
unfolding contains add
contains-add c addr other now later =
    ground (arith, lookup-insert other addr now c.entries, beq-cases addr other)

-- Asking drops an entry that is over, which changes no answer at that time or later.
pub contains_stable :
    (c : IgnoredNodeCollection) (addr other : String) (now later : ℕ)
    → now ≤ later
    → (contains (contains c now addr).0 later other).1 ≡ (contains c later other).1
unfolding contains
contains_stable c addr other now later h =
    ground (arith, lookup-delete other addr c.entries, beq-cases addr other)
