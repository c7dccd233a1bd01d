-- ===== src/Rate/Tests.antt =====
-- A run of the counter at concrete inputs.
use peercast_mi.Base.{ℕ, ◌≡◌, List, [], ◌∷◌, arith}
use peercast_mi.Rate.{ByteCounter, rate}
use peercast_mi.Rate.Second.{add_all, rate-add_all}

abbrev begun : ByteCounter
begun = record { current = 5; previous = 0; bucket_t = 1000000000 }

abbrev writes : List (ℕ × ℕ)
writes = (1100000000, 7) ∷ (1900000000, 8) ∷ []

rate-add_all_example : (rate (add_all begun writes) 2500000000 2500000001).1 ≡ 20
rate-add_all_example =
    rate-add_all begun writes 2500000000 2500000001 (λ e. omega (arith, e))
      (omega arith, (omega arith, tt)) (omega arith) (omega arith)
