-- ===== src/Driad/Limiter.antt =====
-- The limiter of DNS queries of driad.rs: at most `maximum` of them in any window of time. An instant
-- is a number of nanoseconds.
use amt.Prelude.{
  ℕ, suc, ◌+◌, ◌-◌, ◌<◌, ◌≤◌, ◌≡◌, refl, sym, ap, ◌∙◌, arith, Option, none, some, List, [], ◌∷◌,
  ◌++◌, if◌then◌else◌, length, length-append, All, All-append, ltb, leb, ltb→lt, Bool-cases, inl,
  inr,
}
use mathlib.Core.List.{append_assoc}

pub record DnsQueryLimiter : Type 0 where
  pub maximum : ℕ
  pub window : ℕ
  pub queries : List ℕ

unfoldable pub new_limiter : ℕ → ℕ → DnsQueryLimiter
new_limiter maximum window = record { maximum = maximum; window = window; queries = [] }

-- The loop that drops the queries that the window has left behind.
unfoldable pub recent : ℕ → ℕ → List ℕ → List ℕ
recent window now [] = []
recent window now (query ∷ rest) =
    let later = recent window now rest in if leb window (now - query) then later else query ∷ rest

abbrev pub front_wait : ℕ → ℕ → List ℕ → Option ℕ
front_wait window now [] = none
front_wait window now (query ∷ rest) = some (window - (now - query))

-- `none` grants the query, `some wait` asks to wait.
unfoldable pub reserve_at : DnsQueryLimiter → ℕ → DnsQueryLimiter × Option ℕ
unfolding recent
reserve_at l now =
    let queries = recent l.window now l.queries in
    if ltb (length queries) l.maximum
    then (record l { queries = queries ++ (now ∷ []) }, none)
    else (record l { queries = queries }, front_wait l.window now queries)

-- The limiter after one more reservation, and the instants of the queries that it has granted.
abbrev pub granted : Option ℕ → ℕ → List ℕ → List ℕ
granted none now log = log ++ (now ∷ [])
granted (some wait) now log = log

unfoldable pub reserve_next : DnsQueryLimiter × List ℕ → ℕ → DnsQueryLimiter × List ℕ
unfolding reserve_at
reserve_next (l, log) now = let (l', wait) = reserve_at l now in (l', granted wait now log)

unfoldable pub reserve_each : DnsQueryLimiter × List ℕ → List ℕ → DnsQueryLimiter × List ℕ
unfolding reserve_next
reserve_each s [] = s
reserve_each s (now ∷ rest) = reserve_each (reserve_next s now) rest

-- The instants never go back, from `last` on.
abbrev pub IsForward : ℕ → List ℕ → Type 0
IsForward last [] = Unit
IsForward last (now ∷ rest) = (last ≤ now) × IsForward now rest

-- How many of the instants the window that ends at `now` reaches.
unfoldable pub within : ℕ → ℕ → List ℕ → ℕ
within window now [] = 0
within window now (t ∷ rest) =
    let n = within window now rest in if ltb now (t + window) then suc n else n

within-append :
    (window now : ℕ) (xs ys : List ℕ)
    → within window now (xs ++ ys) ≡ within window now xs + within window now ys
unfolding within
within-append window now [] ys = omega arith
within-append window now (x ∷ xs) ys = ground (arith, within-append window now xs ys)

within-le : (window now : ℕ) (xs : List ℕ) → within window now xs ≤ length xs
unfolding within
within-le window now [] = omega arith
within-le window now (x ∷ xs) = ground (arith, within-le window now xs)

-- What has left the window behind at `last`.
abbrev IsOld : ℕ → ℕ → ℕ → Type 0
IsOld window last t = t + window ≤ last

within-IsOld :
    (window last now : ℕ) (old : List ℕ)
    → last ≤ now
    → All (IsOld window last) old
    → within window now old ≡ 0
unfolding within
within-IsOld window last now [] le h = refl
within-IsOld window last now (t ∷ old) le h =
    ground (arith, h.0, within-IsOld window last now old le h.1)

IsOld-later :
    (window last now : ℕ) (old : List ℕ)
    → last ≤ now
    → All (IsOld window last) old
    → All (IsOld window now) old
IsOld-later window last now [] le h = tt
IsOld-later window last now (t ∷ old) le h =
    (omega (arith, h.0, le), IsOld-later window last now old le h.1)

-- The log is what is old, and then the limiter's queue.
record Kept (maximum window last : ℕ) (s : DnsQueryLimiter × List ℕ) : Type 0 where
  same_maximum : s.0.maximum ≡ maximum
  same_window : s.0.window ≡ window
  old : List ℕ
  split : s.1 ≡ old ++ s.0.queries
  is_old : All (IsOld window last) old
  bounded : length s.0.queries ≤ maximum

-- The queries that the loop drops are old.
recent-split :
    (window now : ℕ) (queries : List ℕ)
    → 0 < window
    → (dropped : List ℕ) × (queries ≡ dropped ++ recent window now queries)
      × All (IsOld window now) dropped
      × (length (recent window now queries) ≤ length queries)
unfolding recent
recent-split window now [] positive = ([], refl, tt, omega arith)
recent-split window now (query ∷ rest) positive =
    let (dropped, split, is_old, shorter) = recent-split window now rest positive in
    elim (Bool-cases (leb window (now - query))) [
      | inr kept ↦ ([], rw kept refl, tt, rw kept (omega arith))
      | inl gone ↦ (
        query ∷ dropped,
        rw gone (ap (◌∷◌ query) split),
        (ground arith, is_old),
        rw gone (omega (arith, shorter)),
      )
    ]

front_wait-granted :
    (window now : ℕ) (queries log : List ℕ)
    → 0 < length queries
    → granted (front_wait window now queries) now log ≡ log
front_wait-granted window now [] log h = absurd (omega (arith, h))
front_wait-granted window now (query ∷ rest) log h = refl

reserve_next-Kept :
    (maximum window last now : ℕ) (s : DnsQueryLimiter × List ℕ)
    → 0 < maximum
    → 0 < window
    → last ≤ now
    → Kept maximum window last s
    → Kept maximum window now (reserve_next s now)
unfolding reserve_next reserve_at
reserve_next-Kept maximum window last now (l, log) some_query positive le k =
    let queries = recent l.window now l.queries in
    let (dropped, split, is_old, shorter) =
      recent-split l.window now l.queries (rw k.same_window positive) in
    let old = k.old ++ dropped in
    let all_old : All (IsOld window now) old =
      All-append (IsOld window now) k.old dropped (IsOld-later window last now k.old le k.is_old)
        (rw (sym k.same_window) is_old) in
    let parts : log ≡ old ++ queries =
      k.split ∙ ap (◌++◌ k.old) split ∙ sym (append_assoc k.old dropped queries) in
    let short : length queries ≤ maximum = omega (arith, shorter, k.bounded) in
    elim (Bool-cases (ltb (length queries) l.maximum)) [
      | inl room ↦ rw room (record {
        same_maximum = k.same_maximum;
        same_window = k.same_window;
        old = old;
        split = ap (λ (xs : List ℕ). xs ++ (now ∷ [])) parts ∙ append_assoc old queries (now ∷ []);
        is_old = all_old;
        bounded = omega (
          arith,
          length-append queries (now ∷ []),
          ltb→lt (length queries) l.maximum room,
          k.same_maximum,
        );
      })
      | inr full ↦ rw full (record {
        same_maximum = k.same_maximum;
        same_window = k.same_window;
        old = old;
        split =
            front_wait-granted l.window now queries log
              (ground (arith, full, some_query, k.same_maximum))
            ∙ parts;
        is_old = all_old;
        bounded = short;
      })
    ]

reserve_each-Kept :
    (maximum window last now : ℕ) (s : DnsQueryLimiter × List ℕ) (times : List ℕ)
    → 0 < maximum
    → 0 < window
    → last ≤ now
    → IsForward last times
    → All (λ t. t ≤ now) times
    → Kept maximum window last s
    → Kept maximum window now (reserve_each s times)
unfolding reserve_each
reserve_each-Kept maximum window last now s [] some_query positive le forward before k = record {
  same_maximum = k.same_maximum;
  same_window = k.same_window;
  old = k.old;
  split = k.split;
  is_old = IsOld-later window last now k.old le k.is_old;
  bounded = k.bounded;
}
reserve_each-Kept maximum window last now s (t ∷ rest) some_query positive le forward before k =
    reserve_each-Kept maximum window t now (reserve_next s t) rest some_query positive before.0
      forward.1 before.1 (reserve_next-Kept maximum window last t s some_query positive forward.0 k)

-- However often the limiter is asked, at instants that never go back, of the queries that it has
-- granted no more than its maximum lie within the window before any later instant.
pub reserve_each-within :
    (maximum window now : ℕ) (times : List ℕ)
    → 0 < maximum
    → 0 < window
    → IsForward 0 times
    → All (λ t. t ≤ now) times
    → within window now (reserve_each (new_limiter maximum window, []) times).1 ≤ maximum
unfolding new_limiter
reserve_each-within maximum window now times some_query positive forward before =
    let s = reserve_each (new_limiter maximum window, []) times in
    let k : Kept maximum window now s =
      reserve_each-Kept maximum window 0 now (new_limiter maximum window, []) times some_query
        positive (omega arith) forward before
        (record {
          same_maximum = refl;
          same_window = refl;
          old = [];
          split = refl;
          is_old = tt;
          bounded = omega arith;
        }) in
    rw k.split (
      omega (
        arith,
        within-append window now k.old s.0.queries,
        within-IsOld window now now k.old (omega arith) k.is_old,
        within-le window now s.0.queries,
        k.bounded,
      ))

recent-length :
    (window now : ℕ) (queries : List ℕ) → length (recent window now queries) ≤ length queries
unfolding recent
recent-length window now [] = omega arith
recent-length window now (query ∷ rest) = ground (arith, recent-length window now rest)

recent-All :
    (window now : ℕ) (queries : List ℕ)
    → All (λ t. t ≤ now) queries
    → All (λ t. t ≤ now) (recent window now queries)
unfolding recent
recent-All window now [] h = tt
recent-All window now (query ∷ rest) h = ground (arith, recent-All window now rest h.1, h)

-- The front query is behind after its wait.
recent-after :
    (window now wait : ℕ) (queries : List ℕ)
    → All (λ t. t ≤ now) queries
    → front_wait window now queries ≡ some wait
    → length (recent window (now + wait) queries) < length queries
unfolding recent
recent-after window now wait [] h e = absurd cc
recent-after window now wait (query ∷ rest) h e =
    ground (arith, h.0, recent-length window (now + wait) rest)

-- Where the limiter asks for a wait, the query is granted after it, if no other has come in between.
pub reserve_at-granted :
    (l : DnsQueryLimiter) (now wait : ℕ)
    → length l.queries ≤ l.maximum
    → All (λ t. t ≤ now) l.queries
    → (reserve_at l now).1 ≡ some wait
    → (reserve_at (reserve_at l now).0 (now + wait)).1 ≡ none
unfolding reserve_at
reserve_at-granted l now wait bounded before e =
    let queries = recent l.window now l.queries in
    elim (Bool-cases (ltb (length queries) l.maximum)) [
      | inl room ↦ absurd (let gone = rw room at e in cc)
      | inr full ↦
          (let asked : front_wait l.window now queries ≡ some wait = rw full at e in
            let shorter =
              recent-after l.window now wait queries (recent-All l.window now l.queries before)
                asked in
            rw full (ground (arith, shorter, recent-length l.window now l.queries, bounded)))
    ]
