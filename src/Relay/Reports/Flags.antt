-- ===== src/Relay/Reports/Flags.antt =====
-- The flags of a report, built by internal/pcputil/host.go and read by internal/relay/sourcenode.go.
use peercast_mi.Base.{
  ℕ, ◌^◌, ◌<◌, ◌≡◌, refl, sym, ◌∙◌, bit_and, Bool, true, false, not, ◌&&◌, ◌==◌, nat_eq, string_eq,
  if◌then◌else◌, List, arith, ltb,
}
use peercast_mi.Pcp.{PcpLibrary}
use peercast_mi.Network.{IpLibrary}
use peercast_mi.Network.Host.{HostAtomParams, Reach, set_flag, host_flags}
use peercast_mi.Relay.{SourceNode, AddressLibrary, with_flags}
use peercast_mi.Relay.Reports.{IsHostLibrary}

-- Statements about a truth value, by trying both.
abbrev both : (Bool → Bool) → Bool
both p = p true && p false

both-each : (p : Bool → Bool) → both p ≡ true → (b : Bool) → p b ≡ true
both-each p h true = ground arith
both-each p h false = ground arith

abbrev Test : Type 0
Test = Bool → Bool → Bool → Bool → Bool → Bool

abbrev all : Test → Bool
all p = both (λ t. both (λ d. both (λ r. both (λ v. both (λ f. p t d r v f)))))

all-each : (p : Test) → all p ≡ true → (t d r v f : Bool) → p t d r v f ≡ true
all-each p h t d r v f =
    let ht = both-each (λ t. both (λ d. both (λ r. both (λ v. both (p t d r v))))) h t in
    let hd = both-each (λ d. both (λ r. both (λ v. both (p t d r v)))) ht d in
    let hr = both-each (λ r. both (λ v. both (p t d r v))) hd r in
    let hv = both-each (λ v. both (p t d r v)) hr v in both-each (p t d r v) hv f

abbrev agree : Bool → Bool → Bool
agree a b = if b then a else not a

agree_eq : (a b : Bool) → agree a b ≡ true → a ≡ b
agree_eq true true h = refl
agree_eq false true h = h
agree_eq true false h = sym h
agree_eq false false h = refl

-- The flags of a report with their values.
abbrev pub flags_of : Bool → Bool → Bool → Bool → Bool → ℕ
unfolding set_flag
flags_of t d r v f = set_flag t 1 (set_flag d 4 (set_flag r 2 (set_flag v 16 (set_flag f 8 32))))

pub tracker_read : (t d r v f : Bool) → not (bit_and (flags_of t d r v f) 1 == 0) ≡ t
unfolding set_flag
tracker_read t d r v f =
    agree_eq _ _
      (all-each (λ t d r v f. agree (not (bit_and (flags_of t d r v f) 1 == 0)) t) refl t d r v f)

pub full_read : (t d r v f : Bool) → bit_and (flags_of t d r v f) 2 == 0 ≡ not r
unfolding set_flag
full_read t d r v f =
    agree_eq _ _
      (all-each (λ t d r v f. agree (bit_and (flags_of t d r v f) 2 == 0) (not r)) refl t d r v f)

pub push_read : (t d r v f : Bool) → not (bit_and (flags_of t d r v f) 8 == 0) ≡ f
unfolding set_flag
push_read t d r v f =
    agree_eq _ _
      (all-each (λ t d r v f. agree (not (bit_and (flags_of t d r v f) 8 == 0)) f) refl t d r v f)

pub recv_read : (t d r v f : Bool) → not (bit_and (flags_of t d r v f) 16 == 0) ≡ v
unfolding set_flag
recv_read t d r v f =
    agree_eq _ _
      (all-each (λ t d r v f. agree (not (bit_and (flags_of t d r v f) 16 == 0)) v) refl t d r v f)

pub flags_of-byte : (t d r v f : Bool) → flags_of t d r v f < 2 ^ 8
unfolding set_flag
flags_of-byte t d r v f =
    let h = all-each (λ t d r v f. ltb (flags_of t d r v f) (2 ^ 8)) refl t d r v f in ground arith

not-not : (b : Bool) → not (not b) ≡ b
not-not true = refl
not-not false = refl

pub host_flags_lem :
    (net : IpLibrary) (lib : PcpLibrary) (to_number : List ℕ → ℕ) (to16 : List ℕ → List ℕ)
    (laws : IsHostLibrary lib) (p : HostAtomParams) (r : Reach)
    → host_flags net lib to_number to16 p r
      ≡ flags_of p.is_tracker
          (r.has_global && not p.direct_full)
          (not p.relay_full)
          p.is_receiving
          r.is_firewalled
unfolding host_flags set_flag
host_flags_lem net lib to_number to16 laws p r =
    rw
      (
        laws.tracker_bit, laws.relay_bit, laws.direct_bit, laws.push_bit, laws.recv_bit,
        laws.cin_bit,
      )
      refl

-- What is read back from flags.
pub with_flags_lem :
    (lib : PcpLibrary) (net : AddressLibrary) (laws : IsHostLibrary lib) (n : SourceNode)
    (t d full v f : Bool)
    → with_flags lib net n (flags_of t d (not full) v f)
      ≡ record n { is_firewalled = f; is_relay_full = full; is_receiving = v; is_tracker = t }
unfolding with_flags
with_flags_lem lib net laws n t d full v f =
    let e : (bit_and (flags_of t d (not full) v f) 2 == 0) ≡ full =
      full_read t d (not full) v f ∙ not-not full in
    rw
      (
        laws.tracker_bit,
        laws.relay_bit,
        laws.push_bit,
        laws.recv_bit,
        tracker_read t d (not full) v f,
        e,
        push_read t d (not full) v f,
        recv_read t d (not full) v f,
      )
      refl
