-- ===== src/StreamKeys/Tests.antt =====
-- Runs of the stream key store at concrete inputs.
use peercast_mi.Base.{
  String, string_eq, ◌==◌, ◌≡◌, true, false, [], ◌∷◌, if◌then◌else◌, none, some, lookup, arith,
  beq-cases,
}
use peercast_mi.StreamKeys.{
  StreamKeyStore, new_stream_key_store, set_cache_path, issue_stream_key, revoke_stream_key,
  load_cache, accounts_of,
}
use peercast_mi.StreamKeys.Effect.{
  IsValid, IssueEffect, SameMaps, has_key, issue_stream_key_lem, revoke_stream_key_lem,
}
use peercast_mi.StreamKeys.Cache.{load_cache-restores}

abbrev one_key : StreamKeyStore
one_key = record {
  cached = true;
  accounts = ("alice", "aa1111") ∷ [];
  stream_keys = ("aa1111", "alice") ∷ [];
  disk = none;
}

one_key-IsValid : IsValid one_key
unfolding lookup
one_key-IsValid = record {
  inverse = λ a k. ground (arith, beq-cases "alice" a, beq-cases "aa1111" k);
  unique = (tt, tt);
}

-- The save of a second key for the account fails.
issue_stream_key_lem_example :
    let (s', result) = issue_stream_key one_key false "alice" "bb2222" in
    IsValid s' × IssueEffect one_key "alice" "bb2222" s' result
issue_stream_key_lem_example = issue_stream_key_lem one_key false "alice" "bb2222" one_key-IsValid

revoke_stream_key_lem_example :
    let (s', found) = revoke_stream_key one_key true "alice" in
    IsValid s'
    × (found ≡ true)
    × ((a k : String)
        → (lookup a s'.accounts ≡ (if "alice" == a then none else lookup a one_key.accounts))
          × (lookup k s'.stream_keys
              ≡ (if has_key one_key "alice" k then none else lookup k one_key.stream_keys)))
    × (s'.disk ≡ some s'.accounts)
unfolding lookup
revoke_stream_key_lem_example = revoke_stream_key_lem one_key true "alice" one_key-IsValid

load_cache-restores_example :
    let (s', done) =
      load_cache
        (set_cache_path new_stream_key_store true)
        (accounts_of (("alice", "aa1111") ∷ [])) in
    SameMaps one_key s' × IsValid s' × (done ≡ true)
load_cache-restores_example = load_cache-restores one_key one_key-IsValid
