-- ===== src/StreamKeys/Cache.antt =====
-- The cache file of the stream key store: what `LoadCache` makes of what `saveCache` wrote.
use peercast_mi.Base.{
  String, ◌≡◌, ◌≢◌, inl, inr, refl, sym, ◌∙◌, true, string_eq, [], ◌∷◌, none, some, Map, lookup,
  insert, lookup-insert, lookup-Absent, Absent, Absent-of_lookup, beq-cases, beq_refl, arith,
  UniqueKeys, insert-UniqueKeys, Option-cases,
}
use peercast_mi.StreamKeys.{
  StreamKeyStore, new_stream_key_store, set_cache_path, load_entries, load_cache, accounts_of,
}
use peercast_mi.StreamKeys.Effect.{IsValid, SameMaps, SameMaps-IsValid}

abbrev Entries : Type 0
Entries = Map String String

-- The entries read from key to account.
abbrev swapped : Entries → Entries
swapped [] = []
swapped ((name, key) ∷ es) = (key, name) ∷ swapped es

lookup-swapped :
    (es : Entries) (name key : String)
    → UniqueKeys es
    → lookup key (swapped es) ≡ some name
    → lookup name es ≡ some key
unfolding lookup
lookup-swapped [] name key u h = cc
lookup-swapped ((n, k) ∷ es) name key u h = ground (
  arith,
  lookup-swapped es name key u.1,
  lookup-Absent n es u.0,
  beq-cases k key,
  beq-cases n name,
)

swapped-none :
    (es : Entries) (name key : String) → lookup key (swapped es) ≡ none → lookup name es ≢ some key
unfolding lookup
swapped-none [] name key e h = cc
swapped-none ((n, k) ∷ es) name key e h =
    ground (arith, swapped-none es name key, beq-cases k key, beq-cases n name)

-- No two accounts have the same key.
abbrev IsInjective : Entries → Type 0
IsInjective es = (a b k : String) → (lookup a es ≡ some k) × (lookup b es ≡ some k) → a ≡ b

IsInjective-tail :
    (n k : String) (es : Entries) → Absent n es → IsInjective ((n, k) ∷ es) → IsInjective es
unfolding lookup
IsInjective-tail n k es u inj a b key (ha, hb) = inj a b key (
  ground (arith, lookup-Absent n es u, ha, beq-cases n a),
  ground (arith, lookup-Absent n es u, hb, beq-cases n b),
)

swapped-UniqueKeys : (es : Entries) → UniqueKeys es → IsInjective es → UniqueKeys (swapped es)
unfolding lookup
swapped-UniqueKeys [] u inj = tt
swapped-UniqueKeys ((n, k) ∷ es) u inj = (
  Absent-of_lookup k (swapped es) not_again,
  swapped-UniqueKeys es u.1 (IsInjective-tail n k es u.0 inj),
)
  where
    not_again : lookup k (swapped es) ≡ none
    not_again = elim (Option-cases (lookup k (swapped es))) [
      | inl e ↦ e
      | inr (m, e) ↦
          let had = lookup-swapped es m k u.1 e in
          let same : n ≡ m = inj n m k (ground (arith, beq_refl n), ground (arith, had)) in
          absurd (ground (arith, had, lookup-Absent n es u.0, same))
    ]

-- The loop of `LoadCache` overrides what the store had for the accounts and keys of the file.
lookup-load_entries :
    (es : Entries) (s : StreamKeyStore) (a k : String)
    → UniqueKeys es
    → UniqueKeys (swapped es)
    → (lookup a (load_entries es s).accounts
        ≡ (elim (lookup a es) [ none ↦ lookup a s.accounts | some key ↦ some key ]))
      × (lookup k (load_entries es s).stream_keys ≡ (elim (lookup k (swapped es)) [
        | none ↦ lookup k s.stream_keys
        | some name ↦ some name
      ]))
unfolding load_entries lookup
lookup-load_entries [] s a k u v = (refl, refl)
lookup-load_entries ((name, key) ∷ es) s a k u v =
    let s' = record s {
      accounts = insert name key s.accounts;
      stream_keys = insert key name s.stream_keys;
    } in
    let rest = lookup-load_entries es s' a k u.1 v.1 in
    (
      ground (
        arith,
        rest.0,
        lookup-insert a name key s.accounts,
        lookup-Absent name es u.0,
        beq-cases name a,
      ),
      ground (
        arith,
        rest.1,
        lookup-insert k key name s.stream_keys,
        lookup-Absent key (swapped es) v.0,
        beq-cases key k,
      ),
    )

load_entries-UniqueKeys :
    (es : Entries) (s : StreamKeyStore)
    → UniqueKeys s.accounts
    → UniqueKeys (load_entries es s).accounts
unfolding load_entries
load_entries-UniqueKeys [] s u = u
load_entries-UniqueKeys ((name, key) ∷ es) s u =
    load_entries-UniqueKeys es _ (insert-UniqueKeys name key s.accounts u)

valid-IsInjective : (s : StreamKeyStore) → IsValid s → IsInjective s.accounts
valid-IsInjective s v a b k (ha, hb) =
    let ea = (v.inverse a k).0 ha in let eb = (v.inverse b k).0 hb in cc (ea, eb)

keys-swapped :
    (s : StreamKeyStore) (k : String)
    → IsValid s
    → lookup k s.stream_keys ≡ lookup k (swapped s.accounts)
keys-swapped s k v = elim (Option-cases (lookup k (swapped s.accounts))) [
  | inr (a, e) ↦ (v.inverse a k).0 (lookup-swapped s.accounts a k v.unique e) ∙ sym e
  | inl e ↦ elim (Option-cases (lookup k s.stream_keys)) [
    | inl none_there ↦ none_there ∙ sym e
    | inr (a, owned) ↦ absurd (swapped-none s.accounts a k e ((v.inverse a k).1 owned))
  ]
]

restored :
    (s : StreamKeyStore)
    → IsValid s
    → SameMaps s (load_entries s.accounts (set_cache_path new_stream_key_store true))
unfolding lookup
restored s v a k =
    let loaded =
      lookup-load_entries s.accounts (set_cache_path new_stream_key_store true) a k v.unique
        (swapped-UniqueKeys s.accounts v.unique (valid-IsInjective s v)) in
    (ground (arith, loaded.0), ground (arith, loaded.1, keys-swapped s k v))

-- A node that starts with a cache path and reads the accounts that a valid store had saved gets,
-- without an error, a valid store with the same accounts and the same keys.
pub load_cache-restores :
    (s : StreamKeyStore)
    → IsValid s
    → let (s', done) =
        load_cache (set_cache_path new_stream_key_store true) (accounts_of s.accounts) in
      SameMaps s s' × IsValid s' × (done ≡ true)
unfolding load_cache
load_cache-restores s v =
    let fresh = set_cache_path new_stream_key_store true in
    let same = restored s v in
    (
      same,
      SameMaps-IsValid s (load_entries s.accounts fresh) same
          (load_entries-UniqueKeys s.accounts fresh tt) v,
      refl,
    )
