-- ===== src/Pmtu/Limiter.antt =====
-- The rate limiter of pmtu.rs: a flow gets no feedback twice within the interval.
use amt.Prelude.{
  ℕ, ◌+◌, ◌-◌, ◌<◌, ◌≡◌, refl, arith, Bool, true, false, not, ◌&&◌, ◌||◌, Option, none, some, List,
  [], ◌∷◌, ◌++◌, if◌then◌else◌, length, All, leb, ◌==◌,
}
use amt.Collections.BTreeMap.{get, insert, remove, get-insert, get-remove}
use amt.Collections.Key.{eq_refl}
use amt.Pmtu.{Flow, flow_key, flow_eq_iff, FeedbackRateLimiter}
use amt.State.Ops.{is_some}

unfoldable pub new_limiter : ℕ → ℕ → FeedbackRateLimiter
new_limiter minimum_interval max_tracked_flows = record {
  last_feedback = [];
  expirations = [];
  minimum_interval = minimum_interval;
  max_tracked_flows = max_tracked_flows;
}

-- `checked_duration_since` is none for an instant that lies ahead.
abbrev pub is_expired : ℕ → ℕ → ℕ → Bool
is_expired minimum now observed = leb observed now && leb minimum (now - observed)

abbrev pub observed_at : Option ℕ → ℕ → Bool
observed_at none observed = false
observed_at (some last) observed = last == observed

-- The loop that drops what has expired: what is left of the map and of the queue.
unfoldable pub expire :
    ℕ → ℕ → List (Flow × ℕ) → List (Flow × ℕ) → List (Flow × ℕ) × List (Flow × ℕ)
expire minimum now last [] = (last, [])
expire minimum now last ((flow, observed) ∷ rest) =
    let dropped =
      expire minimum now (if observed_at (get flow last) observed then remove flow last else last)
        rest in
    if not (is_expired minimum now observed) then (last, (flow, observed) ∷ rest) else dropped

unfoldable pub allow : FeedbackRateLimiter → ℕ → Flow → FeedbackRateLimiter × Bool
unfolding expire
allow l now flow =
    let (last, queue) = expire l.minimum_interval now l.last_feedback l.expirations in
    if is_some (get flow last) || leb l.max_tracked_flows (length last)
    then (record l { last_feedback = last; expirations = queue }, false)
    else (
      record l { last_feedback = insert flow now last; expirations = queue ++ ((flow, now) ∷ []) },
      true,
    )

-- Calls of the limiter in order, each an instant and a flow.
unfoldable pub allow_each : FeedbackRateLimiter → List (ℕ × Flow) → FeedbackRateLimiter
unfolding allow
allow_each l [] = l
allow_each l ((now, flow) ∷ rest) = allow_each (allow l now flow).0 rest

-- What is not expired stays.
expire-get :
    (minimum now : ℕ) (last queue : List (Flow × ℕ)) (flow : Flow) (t : ℕ)
    → get flow last ≡ some t
    → is_expired minimum now t ≡ false
    → get flow (expire minimum now last queue).0 ≡ some t
unfolding expire
expire-get minimum now last [] flow t h live = h
expire-get minimum now last ((f, observed) ∷ rest) flow t h live = ground (
  arith,
  flow_eq_iff flow f,
  get-remove flow f last,
  expire-get minimum now (remove f last) rest flow t,
  expire-get minimum now last rest flow t,
)

allow-get :
    (l : FeedbackRateLimiter) (now : ℕ) (f flow : Flow) (t : ℕ)
    → get flow l.last_feedback ≡ some t
    → is_expired l.minimum_interval now t ≡ false
    → (get flow (allow l now f).0.last_feedback ≡ some t)
      × ((allow l now f).0.minimum_interval ≡ l.minimum_interval)
unfolding allow
allow-get l now f flow t h live =
    let last = (expire l.minimum_interval now l.last_feedback l.expirations).0 in
    (
      ground (
        arith,
        flow_eq_iff flow f,
        expire-get l.minimum_interval now l.last_feedback l.expirations flow t h live,
        get-insert flow f now last,
      ),
      ground arith,
    )

allow_each-get :
    (l : FeedbackRateLimiter) (calls : List (ℕ × Flow)) (flow : Flow) (t : ℕ)
    → get flow l.last_feedback ≡ some t
    → All (λ call. call.0 < t + l.minimum_interval) calls
    → (get flow (allow_each l calls).last_feedback ≡ some t)
      × ((allow_each l calls).minimum_interval ≡ l.minimum_interval)
unfolding allow_each
allow_each-get l [] flow t h within = (h, refl)
allow_each-get l ((now, f) ∷ rest) flow t h within =
    let (kept, same) = allow-get l now f flow t h (ground (arith, within.0)) in
    let (kept', same') = allow_each-get (allow l now f).0 rest flow t kept (rw same within.1) in
    (kept', cc (same, same'))

granted :
    (l : FeedbackRateLimiter) (t : ℕ) (flow : Flow)
    → (allow l t flow).1 ≡ true
    → (get flow (allow l t flow).0.last_feedback ≡ some t)
      × ((allow l t flow).0.minimum_interval ≡ l.minimum_interval)
unfolding allow
granted l t flow h =
    let last = (expire l.minimum_interval t l.last_feedback l.expirations).0 in
    (ground (arith, get-insert flow flow t last, eq_refl flow), ground arith)

refused :
    (l : FeedbackRateLimiter) (now : ℕ) (flow : Flow) (t : ℕ)
    → get flow l.last_feedback ≡ some t
    → is_expired l.minimum_interval now t ≡ false
    → (allow l now flow).1 ≡ false
unfolding allow
refused l now flow t h live =
    ground (arith, expire-get l.minimum_interval now l.last_feedback l.expirations flow t h live)

-- Once a flow has been granted feedback it is refused it until the interval has passed, whatever
-- other calls come in between, for that flow or for others.
pub allow-interval :
    (l : FeedbackRateLimiter) (t now : ℕ) (flow : Flow) (calls : List (ℕ × Flow))
    → (allow l t flow).1 ≡ true
    → All (λ call. call.0 < t + l.minimum_interval) calls
    → now < t + l.minimum_interval
    → (allow (allow_each (allow l t flow).0 calls) now flow).1 ≡ false
allow-interval l t now flow calls g within h =
    let l' = (allow l t flow).0 in
    let (kept, same) = granted l t flow g in
    let (kept', same') = allow_each-get l' calls flow t kept (rw same within) in
    refused (allow_each l' calls) now flow t kept' (rw (same', same) (ground arith))
