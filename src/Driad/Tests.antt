-- ===== src/Driad/Tests.antt =====
-- A query for the name `a.bc.`, its response, and a limiter of two queries in ten nanoseconds.
use amt.Prelude.{ℕ, ◌≡◌, ◌≤◌, refl, arith, none, some, List, [], ◌∷◌}
use amt.Driad.Limiter.{
  new_limiter, reserve_at, reserve_each, within, reserve_each-within, reserve_at-granted,
}

abbrev name : List ℕ
name = 97 ∷ 46 ∷ 98 ∷ 99 ∷ 46 ∷ []

abbrev query : List ℕ
query =
    0x12 ∷ 0x34 ∷ 1 ∷ 0 ∷ 0 ∷ 1 ∷ 0 ∷ 0 ∷ 0 ∷ 0 ∷ 0 ∷ 0 ∷ 1 ∷ 97 ∷ 2 ∷ 98 ∷ 99 ∷ 0 ∷ 1 ∷ 4 ∷ 0 ∷ 1
    ∷ []

abbrev times : List ℕ
times = 1 ∷ 2 ∷ 3 ∷ 12 ∷ []

granted_times : (reserve_each (new_limiter 2 10, []) times).1 ≡ 1 ∷ 2 ∷ 12 ∷ []
unfolding reserve_each new_limiter
granted_times = refl

reserve_each-within_example : within 10 12 (reserve_each (new_limiter 2 10, []) times).1 ≤ 2
reserve_each-within_example =
    reserve_each-within 2 10 12 times (omega arith) (omega arith) (ground arith) (ground arith)

asks_to_wait : (reserve_at (record { maximum = 2; window = 10; queries = 1 ∷ 2 ∷ [] }) 3).1 ≡ some 8
unfolding reserve_at
asks_to_wait = refl

reserve_at-granted_example :
    (reserve_at (reserve_at (record { maximum = 2; window = 10; queries = 1 ∷ 2 ∷ [] }) 3).0 11).1
    ≡ none
reserve_at-granted_example =
    reserve_at-granted (record { maximum = 2; window = 10; queries = 1 ∷ 2 ∷ [] }) 3 8 (omega arith)
      (ground arith) asks_to_wait
