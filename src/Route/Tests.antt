-- ===== src/Route/Tests.antt =====
-- Runs of the routing of broadcast packets at concrete inputs.
use native.Mathlib.Nat.{mod-lt, mod-eq_of_lt}
use peercast_mi.Base.{◌+◌, ◌^◌, ◌<◌, ◌≡◌, ◌≢◌, ◌↔◌, ◌⊎◌, refl, ap, true, [], ◌∷◌, some, arith}
use peercast_mi.Pcp.{find_child}
use peercast_mi.Samples.{
  SampleAtom, leaf, parent, of_list, as_list-of_list, sample_library, sample_bcst,
}
use peercast_mi.Route.{route_bcst, forwarded}
use peercast_mi.Route.Accept.{IsAccepted, Reads, route_bcst-local, route_bcst-sends}
use peercast_mi.Route.Hop.{IsLawful, origin, hop, ttl_of, hops_of, Travels-ttl}

-- The packet after one node.
abbrev sent_bcst : SampleAtom
sent_bcst =
    parent 8
      (of_list (leaf 9 (5 ∷ []) ∷ leaf 12 (1 ∷ []) ∷ leaf 13 (2 ∷ []) ∷ leaf 14 (1 ∷ []) ∷ []))

byte_small : (a : SampleAtom) → (sample_library.get_byte a).0 < 2 ^ 8
byte_small (leaf t []) = omega arith
byte_small (leaf t (x ∷ xs)) = omega (arith, mod-lt x {m = 2 ^ 8} (omega arith))
byte_small _ = omega arith

sample_library-IsLawful : IsLawful sample_library
sample_library-IsLawful = record {
  parent_children = λ t xs. as_list-of_list xs;
  byte_tag = λ t b. refl;
  byte_value = λ t b h. ap (λ n. (n, true)) (mod-eq_of_lt h);
  byte_bound = byte_small;
  ttl_ne_hops = λ e. omega (arith, e);
}

-- The run that the other tests are about.
sample_bcst-forwarded : forwarded sample_library sample_bcst ≡ some sent_bcst
unfolding forwarded
sample_bcst-forwarded = refl

route_bcst-local_example : ((route_bcst sample_library (some sample_bcst) 7 3).0 ≡ true) ↔ (
    IsAccepted sample_library sample_bcst 7 3
    × Reads sample_library (find_child sample_library sample_bcst 10) (λ id. (id ≡ 0) ⊎ (id ≡ 7)))
route_bcst-local_example = route_bcst-local sample_library sample_bcst 7 3

route_bcst-sends_example :
    ((route_bcst sample_library (some sample_bcst) 7 3).1 ≡ some sent_bcst) ↔ (
      IsAccepted sample_library sample_bcst 7 3
      × Reads sample_library (find_child sample_library sample_bcst 10) (λ id. id ≢ 7)
      × (forwarded sample_library sample_bcst ≡ some sent_bcst))
route_bcst-sends_example = route_bcst-sends sample_library sample_bcst sent_bcst 7 3

Travels-ttl_example :
    (1 + ttl_of sample_library sent_bcst ≡ ttl_of sample_library sample_bcst)
    × (hops_of sample_library sent_bcst ≡ 1 + hops_of sample_library sample_bcst)
Travels-ttl_example =
    Travels-ttl sample_library sample_bcst 1 sent_bcst sample_library-IsLawful
      (hop origin sample_bcst-forwarded)
