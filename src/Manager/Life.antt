-- ===== src/Manager/Life.antt =====
-- The life of a manager: broadcasts, relays and stops, in any order.
use peercast_mi.Base.{ℕ, String, string_eq, nat_eq, Bool, ◌≡◌, ◌≢◌, Option, none, lookup}
use peercast_mi.Pcp.{GnuId}
use peercast_mi.Manager.{
  Manager, broadcast, stop_instance, stop_all, start_relay, set_global_ip, new_manager,
}
use peercast_mi.Manager.Valid.{
  IsValid, broadcast-IsValid, start_relay-IsValid, stop_instance-IsValid,
}

-- A broadcast has a key that is not empty, and a channel identifier that stands for no other
-- active key: it is computed from the key.
pub data Step (m : Manager) : Manager → Type 0 where
  start :
      (is_issued : Bool) (key : String) (id : GnuId) (ch : ℕ)
      → key ≢ ""
      → lookup id m.stream_key_by_id ≡ none
      → Step m (broadcast m is_issued key id ch).0
  relay : (id : GnuId) (ch r : ℕ) → Step m (start_relay m id ch r).0
  stop : (id : GnuId) (expected : Option ℕ) → Step m (stop_instance m id expected).0
  shut_down : Step m (stop_all m).0
  learn : (ip : ℕ) → Step m (set_global_ip m ip).0

pub data Reach (m : Manager) : Manager → Type 0 where
  here : Reach m m
  next : {n o : Manager} → Reach m n → Step n o → Reach m o

new_manager-IsValid : (has_factory : Bool) (limit : ℕ) → IsValid (new_manager has_factory limit)
unfolding lookup
new_manager-IsValid has_factory limit = record {
  keys = λ key ch h. cc h;
  ids = λ id key h. cc h;
  unique = λ id other key a b. cc a;
  named = λ id h. cc h;
  clients = λ id r h. cc h;
}

stop_all-IsValid : (m : Manager) → IsValid (stop_all m).0
unfolding stop_all lookup
stop_all-IsValid m = record {
  keys = λ key ch h. cc h;
  ids = λ id key h. cc h;
  unique = λ id other key a b. cc a;
  named = λ id h. cc h;
  clients = λ id r h. cc h;
}

set_global_ip-IsValid : (m : Manager) (ip : ℕ) → IsValid m → IsValid (set_global_ip m ip).0
unfolding set_global_ip
set_global_ip-IsValid m ip v = record {
  keys = v.keys;
  ids = v.ids;
  unique = v.unique;
  named = v.named;
  clients = v.clients;
}

Step-IsValid : {m n : Manager} → Step m n → IsValid m → IsValid n
Step-IsValid (start is_issued key id ch ne free) v =
    broadcast-IsValid _ is_issued key id ch v ne free
Step-IsValid (relay id ch r) v = start_relay-IsValid _ id ch r v
Step-IsValid (stop id expected) v = stop_instance-IsValid _ id expected v
Step-IsValid shut_down v = stop_all-IsValid _
Step-IsValid (learn ip) v = set_global_ip-IsValid _ ip v

Reach-IsValid_from : {m n : Manager} → Reach m n → IsValid m → IsValid n
Reach-IsValid_from here v = v
Reach-IsValid_from (next r s) v = Step-IsValid s (Reach-IsValid_from r v)

-- In every manager that a new one can become, a stream key leads to a channel exactly when the
-- channel's identifier leads to both, no key stands for two identifiers or is empty, and each relay
-- client has a channel. Broadcasts have keys that are not empty and identifiers that stand for no
-- other active key.
pub Reach-IsValid :
    (has_factory : Bool) (limit : ℕ) (m : Manager)
    → Reach (new_manager has_factory limit) m
    → IsValid m
Reach-IsValid has_factory limit m r = Reach-IsValid_from r (new_manager-IsValid has_factory limit)
