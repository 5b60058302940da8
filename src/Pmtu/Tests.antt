-- ===== src/Pmtu/Tests.antt =====
-- Feedback for a packet of 24 bytes, and a limiter that is asked three times.
use amt.Prelude.{ℕ, List, [], ◌∷◌, true, false, ◌≡◌, refl, arith}
use amt.Address.{IpAddr, v4}
use amt.Collections.BTreeMap.{get}
use amt.Pmtu.{Flow}
use amt.Pmtu.Limiter.{new_limiter, allow, allow_each, allow-interval}

abbrev packet : List ℕ
packet =
    69 ∷ 0 ∷ 0 ∷ 24 ∷ 0 ∷ 1 ∷ 0 ∷ 0 ∷ 64 ∷ 17 ∷ 208 ∷ 209 ∷ 192 ∷ 0 ∷ 2 ∷ 1 ∷ 232 ∷ 0 ∷ 0 ∷ 1 ∷ 1
    ∷ 2 ∷ 3 ∷ 4 ∷ []

abbrev local : IpAddr
local = v4 3221225993

abbrev feedback : List ℕ
feedback =
    69 ∷ 0 ∷ 0 ∷ 52 ∷ 0 ∷ 0 ∷ 0 ∷ 0 ∷ 64 ∷ 1 ∷ 246 ∷ 190 ∷ 192 ∷ 0 ∷ 2 ∷ 9 ∷ 192 ∷ 0 ∷ 2 ∷ 1 ∷ 3 ∷ 4
    ∷ 243 ∷ 125 ∷ 0 ∷ 0 ∷ 5 ∷ 120 ∷ 69 ∷ 0 ∷ 0 ∷ 24 ∷ 0 ∷ 1 ∷ 0 ∷ 0 ∷ 64 ∷ 17 ∷ 208 ∷ 209 ∷ 192 ∷ 0
    ∷ 2 ∷ 1 ∷ 232 ∷ 0 ∷ 0 ∷ 1 ∷ 1 ∷ 2 ∷ 3 ∷ 4 ∷ []

abbrev flow : Flow
flow = record { source = v4 3221225985; group = v4 3892314113 }

abbrev other : Flow
other = record { source = v4 3221225986; group = v4 3892314113 }

abbrev calls : List (ℕ × Flow)
calls = (4, other) ∷ (7, flow) ∷ []

first_granted : (allow (new_limiter 10 8) 3 flow).1 ≡ true
unfolding allow new_limiter get
first_granted = refl

interval_new : (new_limiter 10 8).minimum_interval ≡ 10
unfolding new_limiter
interval_new = refl

allow-interval_example :
    (allow (allow_each (allow (new_limiter 10 8) 3 flow).0 calls) 12 flow).1 ≡ false
allow-interval_example =
    allow-interval (new_limiter 10 8) 3 12 flow calls first_granted (rw interval_new (ground arith))
      (rw interval_new (ground arith))
