-- ===== src/StreamKeys.antt =====
-- internal/channel/stream_key_store.go: which account has which stream key. The file system enters
-- as the outcome of a save or a load, an argument of the call that makes it.
mod Tests
pub mod Effect
pub mod Cache
use peercast_mi.Base.{
  ℕ, String, Bool, true, false, not, ◌&&◌, ◌==◌, string_eq, if◌then◌else◌, List, [], ◌∷◌, Option,
  none, some, Map, lookup, insert, delete,
}

-- `cached` says that a cache path is set, `disk` is what its file holds, if it is there.
pub record StreamKeyStore : Type 0 where
  pub cached : Bool
  pub accounts : Map String String
  pub stream_keys : Map String String
  pub disk : Option (Map String String)

abbrev pub new_stream_key_store : StreamKeyStore
new_stream_key_store = record { cached = false; accounts = []; stream_keys = []; disk = none }

abbrev pub set_cache_path : StreamKeyStore → Bool → StreamKeyStore
set_cache_path s named = record s { cached = named }

-- `saveCache`, where writing and renaming the file succeed or not. The file is replaced as a whole.
unfoldable pub save_cache : StreamKeyStore → Bool → StreamKeyStore × Bool
save_cache s writable =
    if s.cached
    then if writable then (record s { disk = some s.accounts }, true) else (s, false)
    else (s, true)

pub data IssueResult : Type 0 where
  issued assigned save_failed : IssueResult

-- The test at the head of `IssueStreamKey`.
abbrev pub owned_by_other : StreamKeyStore → String → String → Bool
owned_by_other s name key = elim (lookup key s.stream_keys) [
  | none ↦ false
  | some owner ↦ not (owner == name)
]

-- The two maps with the new key in place of the account's old one.
unfoldable pub assign : StreamKeyStore → String → String → StreamKeyStore
assign s name key =
    let dropped : Map String String = elim (lookup name s.accounts) [
      | none ↦ s.stream_keys
      | some old ↦ delete old s.stream_keys
    ] in
    record s { accounts = insert name key s.accounts; stream_keys = insert key name dropped }

-- The repair after a failed save: `old` is what the account had before.
unfoldable pub roll_back : StreamKeyStore → String → String → Option String → StreamKeyStore
roll_back s name key old =
    let keys = delete key s.stream_keys in
    elim old [
      | none ↦ record s { accounts = delete name s.accounts; stream_keys = keys }
      | some k ↦ record s { accounts = insert name k s.accounts; stream_keys = insert k name keys }
    ]

unfoldable pub issue_stream_key :
    StreamKeyStore → Bool → String → String → StreamKeyStore × IssueResult
unfolding save_cache assign roll_back
issue_stream_key s writable name key =
    if owned_by_other s name key
    then (s, assigned)
    else let (s', saved) = save_cache (assign s name key) writable in
      if saved then (s', issued) else (roll_back s' name key (lookup name s.accounts), save_failed)

-- The two maps without the account and its key.
unfoldable pub withdraw : StreamKeyStore → String → String → StreamKeyStore
withdraw s name key = record s {
  accounts = delete name s.accounts;
  stream_keys = delete key s.stream_keys;
}

-- A failed save is only logged.
unfoldable pub revoke_stream_key : StreamKeyStore → Bool → String → StreamKeyStore × Bool
unfolding save_cache withdraw
revoke_stream_key s writable name = elim (lookup name s.accounts) [
  | none ↦ (s, false)
  | some key ↦ ((save_cache (withdraw s name key) writable).0, true)
]

unfoldable pub is_issued_key : StreamKeyStore → String → Bool
is_issued_key s key = elim (lookup key s.stream_keys) [ none ↦ false | some owner ↦ true ]

-- What reading and parsing the cache file gives.
pub data Loaded : Type 0 where
  missing read_failed parse_failed : Loaded
  accounts_of : Map String String → Loaded

-- The loop of `LoadCache`.
unfoldable pub load_entries : Map String String → StreamKeyStore → StreamKeyStore
load_entries [] s = s
load_entries ((name, key) ∷ entries) s = load_entries entries (record s {
  accounts = insert name key s.accounts;
  stream_keys = insert key name s.stream_keys;
})

-- The second part says that no error is returned.
unfoldable pub load_cache : StreamKeyStore → Loaded → StreamKeyStore × Bool
unfolding load_entries
load_cache s file = if s.cached then load s file else (s, true)
  where
    load : StreamKeyStore → Loaded → StreamKeyStore × Bool
    load s missing = (s, true)
    load s read_failed = (s, false)
    load s parse_failed = (s, false)
    load s (accounts_of entries) = (load_entries entries s, true)
