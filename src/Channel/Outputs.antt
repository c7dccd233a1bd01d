-- ===== src/Channel/Outputs.antt =====
-- The counters of a channel against its list of output streams, and the limits on them.
use peercast_mi.Base.{
  ℕ, ◌+◌, ◌-◌, ◌≡◌, ◌≢◌, ◌⊎◌, inl, inr, Bool, true, not, ◌==◌, nat_eq, string_eq, if◌then◌else◌,
  List, [], ◌∷◌, ◌++◌, Option, none, some, count, All, arith, Option-cases, Bool-cases,
}
use peercast_mi.Channel.{
  Channel, OutputStream, is_pcp, add_output, try_add_output, remove_output, remove_first,
  is_relay_full, is_direct_full,
}

abbrev pub relay : OutputStream → Bool
relay o = is_pcp o.kind

abbrev pub player : OutputStream → Bool
player o = not (is_pcp o.kind)

-- The counters are the numbers of relay streams and of player streams.
pub record IsCounted {A : Type 0} (c : Channel A) : Type 0 where
  pub relays : c.num_relays ≡ count relay c.outputs
  pub listeners : c.num_listeners ≡ count player c.outputs

-- A stream is an object: what has its identity has its kind.
abbrev pub IsObject : OutputStream → List OutputStream → Type 0
IsObject o = All (λ x. (x.ref ≢ o.ref) ⊎ (x.kind ≡ o.kind))

pub count-append :
    (p : OutputStream → Bool) (xs : List OutputStream) (o : OutputStream)
    → count p (xs ++ o ∷ []) ≡ count p xs + (if p o then 1 else 0)
count-append p [] o = omega arith
count-append p (x ∷ xs) o = omega (arith, count-append p xs o)

module _ {A : Type 0} (c : Channel A) where
  pub add_output-IsCounted : (o : OutputStream) → IsCounted c → IsCounted (add_output c o)
  unfolding add_output
  add_output-IsCounted o v =
      ground (arith, count-append relay c.outputs o, count-append player c.outputs o)

-- What the loop of `RemoveOutput` does to the counts.
abbrev Removed : OutputStream → List OutputStream → Option (List OutputStream) → Type 0
Removed o os none = Unit {0}
Removed o os (some os') =
    (count relay os ≡ count relay os' + (if relay o then 1 else 0))
    × (count player os ≡ count player os' + (if player o then 1 else 0))

Removed-cons :
    (o x : OutputStream) (os : List OutputStream) (r : Option (List OutputStream))
    → Removed o os r
    → Removed o (x ∷ os) (elim r [ none ↦ none | some os' ↦ some (x ∷ os') ])
Removed-cons o x os none h = tt
Removed-cons o x os (some os') h = omega (arith, h.0, h.1)

remove_first-Removed :
    (o : OutputStream) (os : List OutputStream)
    → IsObject o os
    → Removed o os (remove_first o.ref os)
unfolding remove_first
remove_first-Removed o [] obj = tt
remove_first-Removed o (x ∷ os) obj = elim (Bool-cases (x.ref == o.ref)) [
  | inl e ↦ rw e (ground (arith, obj.0, e))
  | inr e ↦ rw e (Removed-cons o x os (remove_first o.ref os) (remove_first-Removed o os obj.1))
]

module _ {A : Type 0} (c : Channel A) (o : OutputStream) where
  fewer-IsCounted :
      (os : List OutputStream)
      → Removed o c.outputs (some os)
      → IsCounted c
      → IsCounted (
          if is_pcp o.kind
          then record c { outputs = os; num_relays = c.num_relays - 1 }
          else record c { outputs = os; num_listeners = c.num_listeners - 1 })
  fewer-IsCounted os r v = ground (arith, r.0, r.1)

  -- `RemoveOutput` keeps the counters right; a counter that goes down is not 0.
  pub remove_output-IsCounted : IsObject o c.outputs → IsCounted c → IsCounted (remove_output c o)
  unfolding remove_output
  remove_output-IsCounted obj v =
      let removed = remove_first-Removed o c.outputs obj in
      elim (Option-cases (remove_first o.ref c.outputs)) [
        | inl e ↦ rw (e, remove_output) v
        | inr (os, e) ↦ rw (e, remove_output) (fewer-IsCounted os (rw e at removed) v)
      ]

  -- `RemoveOutput` of a relay stream that is there takes one off the relay counter only.
  pub remove_output-relay :
      IsObject o c.outputs
      → IsCounted c
      → relay o ≡ true
      → (os : List OutputStream) × (remove_first o.ref c.outputs ≡ some os)
      → let c' = remove_output c o in
        (c'.num_relays + 1 ≡ c.num_relays)
        × (c'.num_listeners ≡ c.num_listeners)
        × (c'.ban_list ≡ c.ban_list)
  unfolding remove_output
  remove_output-relay obj v is_relay (os, found) =
      let removed = rw found at (remove_first-Removed o c.outputs obj) in
      rw (found, remove_output) (ground (arith, is_relay, removed.0))

  -- On a channel with right counters, `TryAddOutput` leaves them right. It refuses a stream exactly
  -- when its kind has a limit and has reached it, and then the list of streams stays as it is; else
  -- it adds the stream at the end.
  pub try_add_output_lem :
      (max_relays max_listeners : ℕ)
      → IsCounted c
      → let (c', added) = try_add_output c o max_relays max_listeners in
        IsCounted c'
        × (added
            ≡ not (if relay o then is_relay_full c max_relays else is_direct_full c max_listeners))
        × (c'.outputs ≡ (if added then c.outputs ++ o ∷ [] else c.outputs))
  unfolding try_add_output is_relay_full is_direct_full
  try_add_output_lem max_relays max_listeners v =
      ground (arith, count-append relay c.outputs o, count-append player c.outputs o)
