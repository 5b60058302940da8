-- ===== src/Relay/Rotation.antt =====
-- The response MACs that a relay gives out, across a rotation of its secret.
use amt.Prelude.{
  ℕ, ◌≡◌, ◌≤◌, ◌+◌, ◌*◌, ◌⊎◌, inl, inr, refl, sym, ap, ◌∙◌, arith, true, Option, none, some, List,
  [], ◌∷◌, All, Bool-cases, Result-cases, ok, err,
}
use amt.Query.{query_interval}
use amt.Address.{IpAddr}
use amt.Protocol.{ResponseMac, Message}
use amt.Protocol.Codec.{constant_time_eq, decode}
use amt.Protocol.Mac.{constant_time_eq_iff}
use amt.Relay.{Host, PreviousSecret, Relay}
use amt.Prelude.{◌&&◌, Bool, false}
use amt.Address.{SocketAddr}
use amt.Collections.BTreeMap.{get-remove}
use amt.Collections.Key.{socket_key, socket_eq_iff}
use amt.Relay.Handle.{
  Prepared, handle_teardown, handle_message, prepare_datagram, commit, handle_datagram,
}
use amt.Relay.Auth.{
  gateway_ecn_capable, remember_gateway_ecn_capability, retain_fresh, gateway_capability_lifetime,
  response_mac, valid_response_mac, is_due, rotate_secret_if_due, in_grace, previous_accepts,
  response_mac_with_secret,
}

accepts_itself : (mac : ResponseMac) → constant_time_eq mac mac ≡ true
accepts_itself mac = (constant_time_eq_iff mac mac refl).1 refl

-- Two query intervals, in nanoseconds: the grace that relay.rs promises a previous secret.
abbrev pub grace : ℕ → ℕ
grace code = 2 * (query_interval code * 1_000_000_000)

-- The relay's secret, or the one before it, is `secret`, and that was not replaced before `given`.
abbrev Knows : List ℕ → ℕ → Relay → Type 0
Knows secret given relay =
    (relay.config.secret ≡ secret)
    ⊎ ((t : ℕ) × (given ≤ t)
        × (relay.previous_secret ≡ some (record { secret = secret; rotated_at = t })))

interval_code : Relay → ℕ
interval_code relay = relay.config.general_query.query_interval_code

rotate_secret_if_due-interval_code :
    (relay : Relay) (now : ℕ) (drawn : Option (List ℕ))
    → interval_code (rotate_secret_if_due relay now drawn) ≡ interval_code relay
unfolding rotate_secret_if_due interval_code
rotate_secret_if_due-interval_code relay now drawn = ground arith

-- A rotation keeps the secret that it replaces; where there is none, the relay is as it was.
rotate_secret_if_due-cases :
    (relay : Relay) (now : ℕ) (drawn : Option (List ℕ))
    → (rotate_secret_if_due relay now drawn ≡ relay)
      ⊎ ((in_grace relay now relay.previous_secret ≡ false)
          × ((rotate_secret_if_due relay now drawn).previous_secret
              ≡ some (record { secret = relay.config.secret; rotated_at = now })))
unfolding rotate_secret_if_due
rotate_secret_if_due-cases relay now none = inl (ground arith)
rotate_secret_if_due-cases relay now (some next) =
    elim (Bool-cases (is_due relay now relay.config.secret_rotation_interval)) [
      | inr e ↦ inl (rw e refl)
      | inl e ↦ elim (Bool-cases (in_grace relay now relay.previous_secret)) [
        | inl g ↦ inl (rw (e, g) refl)
        | inr g ↦ inr (g, rw (e, g) refl)
      ]
    ]

in_grace-until :
    (relay : Relay) (secret : List ℕ) (given t now : ℕ)
    → given ≤ t
    → now ≤ given + grace (interval_code relay)
    → in_grace relay now (some (record { secret = secret; rotated_at = t })) ≡ true
unfolding in_grace gateway_capability_lifetime interval_code
in_grace-until relay secret given t now later before = ground (arith, later, before)

at_rotation : List ℕ → ℕ → Option PreviousSecret
at_rotation secret now = some (record { secret = secret; rotated_at = now })

rotate_secret_if_due-Knows :
    (secret : List ℕ) (given now : ℕ) (relay : Relay) (drawn : Option (List ℕ))
    → given ≤ now
    → now ≤ given + grace (interval_code relay)
    → Knows secret given relay
    → Knows secret given (rotate_secret_if_due relay now drawn)
unfolding at_rotation
rotate_secret_if_due-Knows secret given now relay drawn since before known =
    elim (rotate_secret_if_due-cases relay now drawn) [
      | inl same ↦ rw same known
      | inr (ended, kept) ↦ elim known [
        | inl e ↦ inr (now, since, kept ∙ ap (λ (old : List ℕ). at_rotation old now) e)
        | inr (t, later, e) ↦ absurd (
            let running = in_grace-until relay secret given t now later before in
            let over = rw e at ended in cc)
      ]
    ]

-- What stands in the relay's memory for the validation of MACs.
abbrev Secrets : Type 0
Secrets = List ℕ × (Option PreviousSecret × ℕ)

secrets : Relay → Secrets
secrets relay = (relay.config.secret, (relay.previous_secret, interval_code relay))

handle_message-secrets :
    (host : Host) (relay : Relay) (now : ℕ) (peer : SocketAddr) (message : Message)
    → secrets (handle_message host relay now peer message).0 ≡ secrets relay
unfolding handle_message remember_gateway_ecn_capability handle_teardown secrets interval_code
handle_message-secrets host relay now peer (Message.relay_discovery nonce) = refl
handle_message-secrets host relay now peer (Message.request nonce protocol ecn) = refl
handle_message-secrets host relay now peer (Message.membership_update mac nonce update) = refl
handle_message-secrets host relay now peer (Message.teardown mac nonce gateway) = ground arith
handle_message-secrets host relay now peer (Message.relay_advertisement nonce address) = refl
handle_message-secrets host relay now peer
      (Message.membership_query mac nonce limit gateway query) =
    refl
handle_message-secrets host relay now peer (Message.multicast_data packet) = refl

commit-secrets : (relay : Relay) (p : Prepared) → secrets (commit relay p).0 ≡ secrets relay
unfolding secrets interval_code
commit-secrets relay (err e) = refl
commit-secrets relay (ok (action, none)) = refl
commit-secrets relay (ok (action, some next_state)) = refl

handle_datagram-secrets :
    (host : Host) (relay : Relay) (now : ℕ) (drawn : Option (List ℕ)) (peer : SocketAddr)
    (datagram : List ℕ)
    → secrets (handle_datagram host relay now drawn peer datagram).0
      ≡ secrets (rotate_secret_if_due relay now drawn)
unfolding handle_datagram
handle_datagram-secrets host relay now drawn peer datagram =
    let rotated = rotate_secret_if_due relay now drawn in
    let (relay', prepared) = prepare_datagram host relay now drawn peer datagram in
    commit-secrets relay' prepared ∙ elim (Result-cases (decode datagram)) [
      | inl (message, e) ↦
          rw (e, prepare_datagram) (handle_message-secrets host rotated now peer message)
      | inr (failure, e) ↦ rw (e, prepare_datagram) refl
    ]

-- A datagram that comes to the relay: when, from where, and the secret that would be drawn.
pub record Arrival : Type 0 where
  pub now : ℕ
  pub drawn : Option (List ℕ)
  pub peer : SocketAddr
  pub datagram : List ℕ

-- The relay after the datagrams that have come to it.
unfoldable pub handle_each : Host → Relay → List Arrival → Relay
unfolding handle_datagram
handle_each host relay [] = relay
handle_each host relay (a ∷ rest) =
    handle_each host (handle_datagram host relay a.now a.drawn a.peer a.datagram).0 rest

secrets-Knows :
    (secret : List ℕ) (given : ℕ) (relay next : Relay)
    → secrets relay ≡ secrets next
    → Knows secret given relay
    → Knows secret given next
unfolding secrets
secrets-Knows secret given relay next e known =
    let current : relay.config.secret ≡ next.config.secret = ap (λ (s : Secrets). s.0) e in
    let previous : relay.previous_secret ≡ next.previous_secret = ap (λ (s : Secrets). s.1.0) e in
    elim known [
      | inl h ↦ inl (sym current ∙ h)
      | inr (t, later, h) ↦ inr (t, later, sym previous ∙ h)
    ]

handle_each-Knows :
    (host : Host) (secret : List ℕ) (given : ℕ) (relay : Relay) (arrivals : List Arrival)
    → All (λ a. (given ≤ a.now) × (a.now ≤ given + grace (interval_code relay))) arrivals
    → Knows secret given relay
    → Knows secret given (handle_each host relay arrivals)
      × (interval_code (handle_each host relay arrivals) ≡ interval_code relay)
unfolding handle_each secrets
handle_each-Knows host secret given relay [] within known = (known, refl)
handle_each-Knows host secret given relay (a ∷ rest) within known =
    let rotated = rotate_secret_if_due relay a.now a.drawn in
    let next = (handle_datagram host relay a.now a.drawn a.peer a.datagram).0 in
    let kept = handle_datagram-secrets host relay a.now a.drawn a.peer a.datagram in
    let same : interval_code next ≡ interval_code relay =
      ap (λ (s : Secrets). s.1.1) kept ∙ rotate_secret_if_due-interval_code relay a.now a.drawn in
    let known' =
      secrets-Knows secret given rotated next (sym kept)
        (rotate_secret_if_due-Knows secret given a.now relay a.drawn within.0.0 within.0.1 known) in
    let (known'', same') =
      handle_each-Knows host secret given next rest (rw same within.1) known' in
    (known'', same' ∙ same)

Knows-valid_response_mac :
    (host : Host) (secret : List ℕ) (given now : ℕ) (relay : Relay) (ip : IpAddr) (port nonce : ℕ)
    → now ≤ given + grace (interval_code relay)
    → Knows secret given relay
    → valid_response_mac host relay now
        (response_mac_with_secret host secret ip port nonce)
        ip
        port
        nonce
      ≡ true
unfolding valid_response_mac response_mac previous_accepts
Knows-valid_response_mac host secret given now relay ip port nonce before (inl e) = rw (sym e) (
    ground
      (arith, accepts_itself (response_mac_with_secret host relay.config.secret ip port nonce)))
Knows-valid_response_mac host secret given now relay ip port nonce before (inr (t, later, e)) =
    rw e (
      ground (
        arith,
        in_grace-until relay secret given t now later before,
        accepts_itself (response_mac_with_secret host secret ip port nonce),
      ))

-- At the rotation itself the MAC that was given out before is valid.
pub rotate_secret_if_due-response_mac :
    (host : Host) (relay : Relay) (now : ℕ) (drawn : Option (List ℕ)) (ip : IpAddr) (port nonce : ℕ)
    → valid_response_mac host
        (rotate_secret_if_due relay now drawn)
        now
        (response_mac host relay ip port nonce)
        ip
        port
        nonce
      ≡ true
unfolding response_mac
rotate_secret_if_due-response_mac host relay now drawn ip port nonce =
    let rotated = rotate_secret_if_due relay now drawn in
    Knows-valid_response_mac host relay.config.secret now now rotated ip port nonce (omega arith) (
      rotate_secret_if_due-Knows relay.config.secret now now relay drawn (omega arith) (omega arith)
        (inl refl))

-- A MAC that the relay gives out stays valid for two query intervals, whatever datagrams come to the
-- relay in that time and however often they make it try to rotate its secret.
pub handle_each-valid_response_mac :
    (host : Host) (relay : Relay) (given now : ℕ) (arrivals : List Arrival) (ip : IpAddr)
    (port nonce : ℕ)
    → All
        (λ a.
          (given ≤ a.now) × (a.now ≤ given + grace relay.config.general_query.query_interval_code))
        arrivals
    → now ≤ given + grace relay.config.general_query.query_interval_code
    → valid_response_mac host
        (handle_each host relay arrivals)
        now
        (response_mac host relay ip port nonce)
        ip
        port
        nonce
      ≡ true
unfolding response_mac interval_code
handle_each-valid_response_mac host relay given now arrivals ip port nonce within before =
    let (known, same) =
      handle_each-Knows host relay.config.secret given relay arrivals within (inl refl) in
    Knows-valid_response_mac host relay.config.secret given now (handle_each host relay arrivals) ip
      port nonce (rw same before) known

-- A gateway whose latest Request does not declare ECN, or that asks a relay with ECN off, is not
-- treated as ECN-capable.
pub remember-gateway_ecn_capable :
    (relay : Relay) (now : ℕ) (endpoint : SocketAddr) (capable : Bool)
    → (relay.config.ecn && capable) ≡ false
    → gateway_ecn_capable (remember_gateway_ecn_capability relay now endpoint capable) now endpoint
      ≡ false
unfolding remember_gateway_ecn_capability gateway_ecn_capable gateway_capability_lifetime
remember-gateway_ecn_capable relay now endpoint capable h = ground (
  arith,
  socket_eq_iff endpoint endpoint,
  get-remove endpoint endpoint
      (retain_fresh now (gateway_capability_lifetime relay) relay.gateway_ecn_capabilities),
)
