-- ===== src/Rate/Second.antt =====
-- What the counter reports for a second.
use peercast_mi.Base.{ℕ, ◌+◌, ◌*◌, ◌^◌, ◌≤◌, ◌<◌, ◌≡◌, ◌≢◌, refl, List, [], ◌∷◌, All, arith, nat_eq}
use peercast_mi.Rate.{ByteCounter, add, rate}

-- Writes in order, each with its time and its bytes.
unfoldable pub add_all : ByteCounter → List (ℕ × ℕ) → ByteCounter
add_all c [] = c
add_all c ((now, n) ∷ ws) = add_all (add c now n) ws

abbrev pub sum : List (ℕ × ℕ) → ℕ
sum [] = 0
sum ((now, n) ∷ ws) = n + sum ws

add-within :
    (c : ByteCounter) (now n : ℕ)
    → c.bucket_t ≢ 0
    → now < c.bucket_t + 10 ^ 9
    → ((add c now n).bucket_t ≡ c.bucket_t) × ((add c now n).current ≡ c.current + n)
unfolding add
add-within c now n started within = ground arith

add_all-within :
    (c : ByteCounter) (ws : List (ℕ × ℕ)) (t : ℕ)
    → c.bucket_t ≡ t
    → t ≢ 0
    → All (λ w. w.0 < t + 10 ^ 9) ws
    → ((add_all c ws).bucket_t ≡ t) × ((add_all c ws).current ≡ c.current + sum ws)
unfolding add_all
add_all-within c [] t same started within = (same, omega arith)
add_all-within c ((now, n) ∷ ws) t same started within =
    let one = add-within c now n (ground (arith, same, started)) (omega (arith, same, within.0)) in
    let rest = add_all-within (add c now n) ws t (omega (arith, one.0, same)) started within.1 in
    (rest.0, omega (arith, rest.1, one.1))

-- A counter whose bucket was started at a time t counts writes in the second after t. Asked in the
-- second after that one, it reports exactly the bytes that it had counted and those of the writes.
pub rate-add_all :
    (c : ByteCounter) (ws : List (ℕ × ℕ)) (now then_now : ℕ)
    → c.bucket_t ≢ 0
    → All (λ w. w.0 < c.bucket_t + 10 ^ 9) ws
    → c.bucket_t + 10 ^ 9 ≤ now
    → now < c.bucket_t + 2 * 10 ^ 9
    → (rate (add_all c ws) now then_now).1 ≡ c.current + sum ws
unfolding rate
rate-add_all c ws now then_now started within lower upper =
    let (same, total) = add_all-within c ws c.bucket_t refl started within in
    ground (arith, same, total)
