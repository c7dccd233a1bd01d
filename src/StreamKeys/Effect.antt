-- ===== src/StreamKeys/Effect.antt =====
-- What issuing and revoking a key do to the stream key store, and that its two maps stay inverse.
use peercast_mi.Base.{
  String, ◌≡◌, ◌≢◌, ◌↔◌, ◌⊎◌, inl, inr, refl, ap, ◌∙◌, Bool, true, false, ◌&&◌, ◌==◌, string_eq,
  if◌then◌else◌, Option, none, some, lookup, delete, lookup-insert, lookup-delete, beq-cases,
  map_laws, arith, UniqueKeys, insert-UniqueKeys, delete-UniqueKeys, Option-cases, Bool-cases,
}
use peercast_mi.StreamKeys.{
  StreamKeyStore, IssueResult, issue_stream_key, issued, assigned, save_failed, revoke_stream_key,
  owned_by_other, assign, roll_back, save_cache, withdraw,
}

-- The maps are inverse to each other, and no account has two entries.
pub record IsValid (s : StreamKeyStore) : Type 0 where
  pub inverse : (a k : String) → (lookup a s.accounts ≡ some k) ↔ (lookup k s.stream_keys ≡ some a)
  pub unique : UniqueKeys s.accounts

-- The maps as functions, after an assignment.
pub lookup-assign :
    (s : StreamKeyStore) (name key : String) (a k : String)
    → (lookup a (assign s name key).accounts
        ≡ (if name == a then some key else lookup a s.accounts))
      × (lookup k (assign s name key).stream_keys ≡ (
          if key == k
          then some name
          else if (elim (lookup name s.accounts) [ none ↦ false | some old ↦ old == k ])
          then none
          else lookup k s.stream_keys))
unfolding assign
lookup-assign s name key a k = elim (Option-cases (lookup name s.accounts)) [
  | inl e ↦
      rw (e, assign) (lookup-insert a name key s.accounts, lookup-insert k key name s.stream_keys)
  | inr (old, e) ↦
      rw (e, assign)
        (
          lookup-insert a name key s.accounts,
          lookup-insert k key name (delete old s.stream_keys)
              ∙ rw (lookup-delete k old s.stream_keys) refl,
        )
]

module _ (s : StreamKeyStore) (v : IsValid s) (name key : String) where
  -- An assignment of a key that nobody else has.
  assign-inverse :
      owned_by_other s name key ≡ false
      → (a k : String)
      → (lookup a (assign s name key).accounts ≡ some k)
        ↔ (lookup k (assign s name key).stream_keys ≡ some a)
  assign-inverse free a k =
      let (la, lk) = lookup-assign s name key a k in
      elim (Option-cases (lookup name s.accounts)) [
        | inl e ↦
            rw (la, lk, e)
              (ground (
                arith,
                free,
                e,
                v.inverse a k,
                v.inverse name k,
                v.inverse a key,
                beq-cases name a,
                beq-cases key k,
                beq-cases a name,
              ))
        | inr (old, e) ↦
            rw (la, lk, e)
              (ground (
                arith,
                free,
                e,
                v.inverse a k,
                v.inverse name k,
                v.inverse a key,
                v.inverse name old,
                v.inverse a old,
                beq-cases name a,
                beq-cases key k,
                beq-cases a name,
                beq-cases old k,
              ))
      ]

  assign-IsValid : owned_by_other s name key ≡ false → IsValid (assign s name key)
  unfolding assign
  assign-IsValid free = record {
    inverse = assign-inverse free;
    unique = insert-UniqueKeys name key s.accounts v.unique;
  }

  -- A key that nobody else has is the account's own, or nobody's.
  owner-none :
      owned_by_other s name key ≡ false
      → (lookup key s.stream_keys ≡ none) ⊎ (lookup name s.accounts ≡ some key)
  owner-none free = elim (Option-cases (lookup key s.stream_keys)) [
    | inl e ↦ inl e
    | inr (owner, e) ↦ inr (ground (arith, free, e, v.inverse name key, beq-cases owner name))
  ]

  -- The repair after a failed save gives every account and every key back what it had.
  lookup-roll_back :
      owned_by_other s name key ≡ false
      → (a k : String)
      → let s' = roll_back (assign s name key) name key (lookup name s.accounts) in
        (lookup a s'.accounts ≡ lookup a s.accounts)
        × (lookup k s'.stream_keys ≡ lookup k s.stream_keys)
  unfolding roll_back assign
  lookup-roll_back free a k =
      let owner-named = owner-none free in
      elim (Option-cases (lookup name s.accounts)) [
        | inl e ↦
            rw (e, roll_back)
              (rw (e, assign)
                (
                  simp map_laws (ground (arith, e, beq-cases name a)),
                  simp map_laws (ground (arith, free, owner-named, beq-cases key k)),
                ))
        | inr (old, e) ↦
            rw (e, roll_back)
              (rw (e, assign)
                (
                  simp map_laws (ground (arith, e, beq-cases name a)),
                  simp map_laws (
                      ground (
                        arith,
                        e,
                        v.inverse name k,
                        owner-named,
                        beq-cases key k,
                        beq-cases old k,
                      )),
                ))
      ]

-- The same accounts and the same keys, whatever the order of the entries.
abbrev pub SameMaps : StreamKeyStore → StreamKeyStore → Type 0
SameMaps s s' =
    (a k : String)
    → (lookup a s'.accounts ≡ lookup a s.accounts)
      × (lookup k s'.stream_keys ≡ lookup k s.stream_keys)

-- Whether the account has the key.
abbrev pub has_key : StreamKeyStore → String → String → Bool
has_key s name k = elim (lookup name s.accounts) [ none ↦ false | some old ↦ old == k ]

-- What each result of `IssueStreamKey` says of the store after the call.
abbrev pub IssueEffect : StreamKeyStore → String → String → StreamKeyStore → IssueResult → Type 0
IssueEffect s name key s' issued =
    ((a k : String)
      → (lookup a s'.accounts ≡ (if name == a then some key else lookup a s.accounts))
        × (lookup k s'.stream_keys ≡ (
            if key == k
            then some name
            else if has_key s name k
            then none
            else lookup k s.stream_keys)))
    × (s'.disk ≡ (if s.cached then some s'.accounts else s.disk))
IssueEffect s name key s' assigned =
    (s' ≡ s) × (owner : String) × (lookup key s.stream_keys ≡ some owner) × (owner ≢ name)
IssueEffect s name key s' save_failed = SameMaps s s' × (s.cached ≡ true) × (s'.disk ≡ s.disk)

assign-frame :
    (s : StreamKeyStore) (name key : String)
    → ((assign s name key).cached ≡ s.cached) × ((assign s name key).disk ≡ s.disk)
unfolding assign
assign-frame s name key = (refl, refl)

roll_back-frame :
    (s : StreamKeyStore) (name key : String) (old : Option String)
    → (roll_back s name key old).disk ≡ s.disk
unfolding roll_back
roll_back-frame s name key none = refl
roll_back-frame s name key (some k) = refl

roll_back-UniqueKeys :
    (s : StreamKeyStore) (name key : String) (old : Option String)
    → UniqueKeys s.accounts
    → UniqueKeys (roll_back s name key old).accounts
unfolding roll_back
roll_back-UniqueKeys s name key none u = delete-UniqueKeys name s.accounts u
roll_back-UniqueKeys s name key (some k) u = insert-UniqueKeys name k s.accounts u

-- Stores with the same maps are valid together.
pub SameMaps-IsValid :
    (s s' : StreamKeyStore) → SameMaps s s' → UniqueKeys s'.accounts → IsValid s → IsValid s'
SameMaps-IsValid s s' same u v = record {
  inverse = λ a k. rw ((same a k).0, (same a k).1) (v.inverse a k);
  unique = u;
}

taken_by :
    (s : StreamKeyStore) (name key : String)
    → owned_by_other s name key ≡ true
    → (owner : String) × (lookup key s.stream_keys ≡ some owner) × (owner ≢ name)
taken_by s name key taken = elim (Option-cases (lookup key s.stream_keys)) [
  | inl e ↦ absurd (ground (arith, taken, e))
  | inr (owner, e) ↦ (owner, e, ground (arith, taken, e, beq-cases owner name))
]

-- The three outcomes of a save.
pub save_cache-cases :
    (s : StreamKeyStore) (writable : Bool)
    → ((save_cache s writable ≡ (record s { disk = some s.accounts }, true)) × (s.cached ≡ true))
      ⊎ ((save_cache s writable ≡ (s, true)) × (s.cached ≡ false))
      ⊎ ((save_cache s writable ≡ (s, false)) × (s.cached ≡ true))
unfolding save_cache
save_cache-cases s writable = elim (Bool-cases s.cached) [
  | inl c ↦ elim (Bool-cases writable) [
    | inl w ↦ inl (rw (c, w), c)
    | inr w ↦ inr (inr (rw (c, w), c))
  ]
  | inr c ↦ inr (inl (rw c, c))
]

-- `IssueStreamKey` on a valid store leaves it valid. If it succeeds, the account has the key and no
-- other, the key belongs to the account, all other accounts and keys are as before, and the cache
-- file, where one is used, holds the new accounts. If the key belongs to another account, nothing
-- changes. If the save fails, every account and every key is as before, and so is the file.
pub issue_stream_key_lem :
    (s : StreamKeyStore) (writable : Bool) (name key : String)
    → IsValid s
    → let (s', result) = issue_stream_key s writable name key in
      IsValid s' × IssueEffect s name key s' result
unfolding issue_stream_key
issue_stream_key_lem s writable name key v = elim (Bool-cases (owned_by_other s name key)) [
  | inl taken ↦ let (owner, e, ne) = taken_by s name key taken in rw taken (v, (refl, owner, e, ne))
  | inr free ↦
      let s1 = assign s name key in
      let valid = assign-IsValid s v name key free in
      let (cached, disk) = assign-frame s name key in
      let undone = lookup-roll_back s v name key free in
      rw free (elim (save_cache-cases s1 writable) [
        | inl (e, c) ↦ rw e (
          record { inverse = valid.inverse; unique = valid.unique },
          (lookup-assign s name key, ground (arith, c, cached)),
        )
        | inr (inl (e, c)) ↦
            rw e (valid, (lookup-assign s name key, ground (arith, c, cached, disk)))
        | inr (inr (e, c)) ↦ rw e (
          SameMaps-IsValid s (roll_back s1 name key (lookup name s.accounts)) undone
              (roll_back-UniqueKeys s1 name key (lookup name s.accounts) valid.unique) v,
          (
            undone,
            ground (arith, c, cached),
            roll_back-frame s1 name key (lookup name s.accounts) ∙ disk,
          ),
        )
      ])
]

abbrev pub has_account : StreamKeyStore → String → Bool
has_account s name = elim (lookup name s.accounts) [ none ↦ false | some key ↦ true ]

save_cache-maps :
    (s : StreamKeyStore) (writable : Bool)
    → ((save_cache s writable).0.accounts ≡ s.accounts)
      × ((save_cache s writable).0.stream_keys ≡ s.stream_keys)
unfolding save_cache
save_cache-maps s writable = ground arith

withdraw-IsValid :
    (s : StreamKeyStore) (name key : String)
    → IsValid s
    → lookup name s.accounts ≡ some key
    → IsValid (withdraw s name key)
unfolding withdraw
withdraw-IsValid s name key v e = record {
  inverse = λ a k. simp map_laws (
      ground (
        arith,
        e,
        v.inverse a k,
        v.inverse name k,
        v.inverse a key,
        v.inverse name key,
        beq-cases name a,
        beq-cases key k,
      ));
  unique = delete-UniqueKeys name s.accounts v.unique;
}

-- `RevokeStreamKey` on a valid store leaves it valid and reports whether the account had a key. The
-- account then has none, its key belongs to nobody, and all other accounts and keys are as before.
-- The cache file holds the accounts left, if there is one, the account had a key, and the save
-- succeeds; else it is as before.
pub revoke_stream_key_lem :
    (s : StreamKeyStore) (writable : Bool) (name : String)
    → IsValid s
    → let (s', found) = revoke_stream_key s writable name in
      IsValid s'
      × (found ≡ has_account s name)
      × ((a k : String)
          → (lookup a s'.accounts ≡ (if name == a then none else lookup a s.accounts))
            × (lookup k s'.stream_keys
                ≡ (if has_key s name k then none else lookup k s.stream_keys)))
      × (s'.disk
          ≡ (if s.cached && (writable && has_account s name) then some s'.accounts else s.disk))
unfolding revoke_stream_key save_cache withdraw
revoke_stream_key_lem s writable name v = elim (Option-cases (lookup name s.accounts)) [
  | inl e ↦
      rw (e, revoke_stream_key)
        (
          v,
          ground (arith, e),
          λ a k. (ground (arith, e, beq-cases name a), ground (arith, e)),
          ground (arith, e),
        )
  | inr (key, e) ↦
      let (accounts, keys) = save_cache-maps (withdraw s name key) writable in
      rw (e, revoke_stream_key)
        (
          SameMaps-IsValid (withdraw s name key) (save_cache (withdraw s name key) writable).0
              (λ a k. (ap (lookup a) accounts, ap (lookup k) keys))
              (rw accounts (delete-UniqueKeys name s.accounts v.unique))
              (withdraw-IsValid s name key v e),
          ground (arith, e),
          λ a k. (
            ground (arith, lookup-delete a name s.accounts),
            ground (arith, e, lookup-delete k key s.stream_keys),
          ),
          ground (arith, e),
        )
]
