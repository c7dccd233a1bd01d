-- ===== src/Manager/Valid.antt =====
-- That the maps of the manager agree, whatever it does.
use peercast_mi.Base.{
  ℕ, String, string_eq, nat_eq, Eq, Bool, true, false, ◌&&◌, ltb, leb, Option, none, some, Map,
  lookup, insert, delete, length, lookup-insert, lookup-delete, beq-cases, Option-cases, Bool-cases,
  ◌≡◌, ◌≢◌, ◌⊎◌, inl, inr, sym, subst, ap, ◌∙◌, arith,
}
use peercast_mi.Pcp.{GnuId}
use peercast_mi.Manager.{
  Manager, broadcast, key_or_empty, deregister, stop_instance, add_relay_channel, start_relay,
  register, is_expected,
}

-- A stream key leads to a channel exactly when the channel's identifier leads to both; a key stands
-- for one identifier and is not empty; and each relay client has a channel.
pub record IsValid (m : Manager) : Type 0 where
  pub keys :
      (key : String) (ch : ℕ)
      → lookup key m.by_stream_key ≡ some ch
      → (id : GnuId) × (lookup id m.stream_key_by_id ≡ some key) × (lookup id m.by_id ≡ some ch)
  pub ids :
      (id : GnuId) (key : String)
      → lookup id m.stream_key_by_id ≡ some key
      → (ch : ℕ) × (lookup id m.by_id ≡ some ch) × (lookup key m.by_stream_key ≡ some ch)
  pub unique :
      (id other : GnuId) (key : String)
      → lookup id m.stream_key_by_id ≡ some key
      → lookup other m.stream_key_by_id ≡ some key
      → id ≡ other
  pub named : (id : GnuId) → lookup id m.stream_key_by_id ≢ some ""
  pub clients :
      (id : GnuId) (r : ℕ) → lookup id m.relays ≡ some r → (ch : ℕ) × (lookup id m.by_id ≡ some ch)

module _ {K V : Type 0} ⦃e : Eq K⦄ where
  insert_same : (k : K) (v : V) (m : Map K V) → lookup k (insert k v m) ≡ some v
  insert_same k v m = ground (arith, lookup-insert k k v m, beq-cases k k)

  insert_other : (j k : K) (v : V) (m : Map K V) → k ≢ j → lookup j (insert k v m) ≡ lookup j m
  insert_other j k v m ne = ground (arith, lookup-insert j k v m, beq-cases k j)

  delete_other : (j k : K) (m : Map K V) → k ≢ j → lookup j (delete k m) ≡ lookup j m
  delete_other j k m ne = ground (arith, lookup-delete j k m, beq-cases k j)

  -- What is found after a deletion was there, under another key.
  delete_found :
      (j k : K) (v : V) (m : Map K V)
      → lookup j (delete k m) ≡ some v
      → (k ≢ j) × (lookup j m ≡ some v)
  delete_found j k v m h = ground (arith, lookup-delete j k m, beq-cases k j, h)

  -- What is found after an insertion is the new value under its key, or was there.
  insert_found :
      (j k : K) (v w : V) (m : Map K V)
      → lookup j (insert k v m) ≡ some w
      → ((k ≡ j) × (some v ≡ some w)) ⊎ ((k ≢ j) × (lookup j m ≡ some w))
  insert_found j k v w m h = ground (arith, lookup-insert j k v m, beq-cases k j, h)

-- A channel that is taken out of a valid manager leaves it valid.
pub deregister-IsValid : (m : Manager) (id : GnuId) → IsValid m → IsValid (deregister m id)
unfolding deregister
deregister-IsValid m id v = record {
  keys = λ key ch h.
      let (ne, e) = delete_found key (key_or_empty m id) ch m.by_stream_key h in
      let (j, named, owned) = v.keys key ch e in
      let other : id ≢ j = λ p. ne (ground (arith, named, p)) in
      (
        j,
        delete_other j id m.stream_key_by_id other ∙ named,
        delete_other j id m.by_id other ∙ owned,
      );
  ids = λ j key h.
      let (ne, e) = delete_found j id key m.stream_key_by_id h in
      let (ch, owned, keyed) = v.ids j key e in
      (
        ch,
        delete_other j id m.by_id ne ∙ owned,
        delete_other key (key_or_empty m id) m.by_stream_key (not_its_key m v id j key ne e)
            ∙ keyed,
      );
  unique = λ j k key a b.
      v.unique j k key (delete_found j id key m.stream_key_by_id a).1
        (delete_found k id key m.stream_key_by_id b).1;
  named = λ j h. v.named j (delete_found j id "" m.stream_key_by_id h).1;
  clients = λ j r h.
      let (ne, e) = delete_found j id r m.relays h in
      let (ch, owned) = v.clients j r e in (ch, delete_other j id m.by_id ne ∙ owned);
}
  where
    not_its_key :
        (m : Manager) (v : IsValid m) (id j : GnuId) (key : String)
        → id ≢ j
        → lookup j m.stream_key_by_id ≡ some key
        → key_or_empty m id ≢ key
    not_its_key m v id j key ne e p = elim (Option-cases (lookup id m.stream_key_by_id)) [
      | inl f ↦ v.named j (ground (arith, e, f, p))
      | inr (k, f) ↦ ne (v.unique id j key (ground (arith, f, p)) e)
    ]

key_of : Option String → String
key_of none = ""
key_of (some key) = key

module _ (m : Manager) (key : String) (id : GnuId) (ch : ℕ) (v : IsValid m) where
  clients_after :
      (j : GnuId) (r : ℕ)
      → lookup j m.relays ≡ some r
      → (c : ℕ) × (lookup j (insert id ch m.by_id) ≡ some c)
  clients_after j r h =
      let (c, owned) = v.clients j r h in
      elim (beq-cases id j) [
        | inl (_, p) ↦
            (ch, ap (λ k. lookup k (insert id ch m.by_id)) (sym p) ∙ insert_same id ch m.by_id)
        | inr (_, other) ↦ (c, insert_other j id ch m.by_id other ∙ owned)
      ]

  module _ (free : lookup id m.stream_key_by_id ≡ none) where
    -- An identifier that a key stands for is another one.
    taken_other : (j : GnuId) (k : String) → lookup j m.stream_key_by_id ≡ some k → id ≢ j
    taken_other j k e p = ground (arith, e, free, p)

    module _ (absent : lookup key m.by_stream_key ≡ none) where
      no_holder : (j : GnuId) (k : String) → lookup j m.stream_key_by_id ≡ some k → key ≢ k
      no_holder j k e p = let (c, owned, keyed) = v.ids j k e in ground (arith, keyed, absent, p)

      -- A channel under a new key, and an identifier that no key stands for.
      register-IsValid : key ≢ "" → IsValid (register m key id ch)
      unfolding register key_of
      register-IsValid ne = record {
        keys = λ k c h. elim (insert_found k key ch c m.by_stream_key h) [
          | inl (p, e) ↦
              (id, insert_same id key m.stream_key_by_id ∙ ap some p, insert_same id ch m.by_id ∙ e)
          | inr (_, e) ↦
              let (j, named, owned) = v.keys k c e in
              let other = taken_other j k named in
              (
                j,
                insert_other j id key m.stream_key_by_id other ∙ named,
                insert_other j id ch m.by_id other ∙ owned,
              )
        ];
        ids = λ j k h. elim (insert_found j id key k m.stream_key_by_id h) [
          | inl (p, e) ↦ (
            ch,
            ap (λ i. lookup i (insert id ch m.by_id)) (sym p) ∙ insert_same id ch m.by_id,
            ap (λ i. lookup i (insert key ch m.by_stream_key)) (sym (ap key_of e))
                ∙ insert_same key ch m.by_stream_key,
          )
          | inr (other, e) ↦
              let (c, owned, keyed) = v.ids j k e in
              (
                c,
                insert_other j id ch m.by_id other ∙ owned,
                insert_other k key ch m.by_stream_key (no_holder j k e) ∙ keyed,
              )
        ];
        unique = λ i j k a b. elim (insert_found i id key k m.stream_key_by_id a) [
          | inl (p, e) ↦ elim (insert_found j id key k m.stream_key_by_id b) [
            | inl (q, _) ↦ sym p ∙ q
            | inr (_, f) ↦ absurd (no_holder j k f (ap key_of e))
          ]
          | inr (_, e) ↦ elim (insert_found j id key k m.stream_key_by_id b) [
            | inl (_, f) ↦ absurd (no_holder i k e (ap key_of f))
            | inr (_, f) ↦ v.unique i j k e f
          ]
        ];
        named = λ j h. elim (insert_found j id key "" m.stream_key_by_id h) [
          | inl (_, e) ↦ ne (ap key_of e)
          | inr (_, e) ↦ v.named j e
        ];
        clients = clients_after;
      }

    add_relay_channel-IsValid : (r : ℕ) → IsValid (add_relay_channel m id ch r)
    unfolding add_relay_channel
    add_relay_channel-IsValid r = record {
      keys = λ k c h.
          let (j, named, owned) = v.keys k c h in
          (j, named, insert_other j id ch m.by_id (taken_other j k named) ∙ owned);
      ids = λ j k h.
          let (c, owned, keyed) = v.ids j k h in
          (c, insert_other j id ch m.by_id (taken_other j k h) ∙ owned, keyed);
      unique = v.unique;
      named = v.named;
      clients = λ j s h. elim (insert_found j id r s m.relays h) [
        | inl (p, _) ↦
            (ch, ap (λ k. lookup k (insert id ch m.by_id)) (sym p) ∙ insert_same id ch m.by_id)
        | inr (_, e) ↦ clients_after j s e
      ];
    }

-- A manager that is valid stays so when a channel is started for a key.
pub broadcast-IsValid :
    (m : Manager) (is_issued : Bool) (key : String) (id : GnuId) (ch : ℕ)
    → IsValid m
    → key ≢ ""
    → lookup id m.stream_key_by_id ≡ none
    → IsValid (broadcast m is_issued key id ch).0
unfolding broadcast
broadcast-IsValid m is_issued key id ch v ne free = elim (Bool-cases is_issued) [
  | inr e ↦ rw e v
  | inl e ↦ elim (Option-cases (lookup key m.by_stream_key)) [
    | inl absent ↦ rw e (rw (absent, broadcast) (register-IsValid m key id ch v free absent ne))
    | inr (c, active) ↦ rw e (rw (active, broadcast) v)
  ]
]

abbrev is_full : Manager → Bool
is_full m = ltb 0 m.max_relay_channels && leb m.max_relay_channels (length m.relays)

-- `StartRelay` that is refused, or finds the channel.
same :
    (m : Manager) (id : GnuId) (ch r : ℕ)
    → (m.has_factory ≡ false) ⊎ (((c : ℕ) × (lookup id m.by_id ≡ some c)) ⊎ (is_full m ≡ true))
    → (start_relay m id ch r).0 ≡ m
unfolding start_relay
same m id ch r h = ground arith

added :
    (m : Manager) (id : GnuId) (ch r : ℕ)
    → m.has_factory ≡ true
    → lookup id m.by_id ≡ none
    → is_full m ≡ false
    → (start_relay m id ch r).0 ≡ add_relay_channel m id ch r
unfolding start_relay
added m id ch r e f g = ground arith

-- An identifier without a channel has no key.
keyless :
    (m : Manager) (id : GnuId)
    → IsValid m
    → lookup id m.by_id ≡ none
    → lookup id m.stream_key_by_id ≡ none
keyless m id v f = elim (Option-cases (lookup id m.stream_key_by_id)) [
  | inl e ↦ e
  | inr (key, e) ↦ let (c, owned, keyed) = v.ids id key e in absurd (ground (arith, owned, f))
]

pub start_relay-IsValid :
    (m : Manager) (id : GnuId) (ch r : ℕ) → IsValid m → IsValid (start_relay m id ch r).0
unfolding start_relay
start_relay-IsValid m id ch r v = elim (Bool-cases m.has_factory) [
  | inr e ↦ subst IsValid (sym (same m id ch r (inl e))) v
  | inl e ↦ elim (Option-cases (lookup id m.by_id)) [
    | inr (c, f) ↦ subst IsValid (sym (same m id ch r (inr (inl (c, f))))) v
    | inl f ↦ elim (Bool-cases (is_full m)) [
      | inl g ↦ subst IsValid (sym (same m id ch r (inr (inr g)))) v
      | inr g ↦
          subst IsValid (sym (added m id ch r e f g))
            (add_relay_channel-IsValid m "" id ch v (keyless m id v f) r)
    ]
  ]
]

pub stop_instance-IsValid :
    (m : Manager) (id : GnuId) (expected : Option ℕ)
    → IsValid m
    → IsValid (stop_instance m id expected).0
unfolding stop_instance
stop_instance-IsValid m id expected v = elim (Option-cases (lookup id m.by_id)) [
  | inl e ↦ rw (e, stop_instance) v
  | inr (ch, e) ↦ elim (Bool-cases (is_expected expected ch)) [
    | inl same ↦ rw (e, stop_instance) (rw same (deregister-IsValid m id v))
    | inr other ↦ rw (e, stop_instance) (rw other v)
  ]
]
