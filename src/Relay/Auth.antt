-- ===== src/Relay/Auth.antt =====
-- The relay's response MACs, its secrets and the ECN capabilities of its gateways.
use amt.Prelude.{
  ℕ, ◌*◌, Bool, true, false, not, ◌&&◌, ◌||◌, Option, none, some, List, [], ◌∷◌, ◌++◌,
  if◌then◌else◌, length, take, ltb, leb,
}
use amt.Prelude.Bytes.{to_be}
use amt.Address.{IpAddr, SocketAddr}
use amt.Collections.BTreeMap
use amt.Collections.Key.{socket_key}
use amt.Protocol.{ResponseMac}
use amt.Protocol.Codec.{constant_time_eq, from_ip_addr}
use amt.Query.{query_interval}
use amt.State.Ops.{empty_state, is_near_limits, is_ip_near_endpoint_limit}
use amt.Relay.{Host, RelayConfig, PreviousSecret, Relay, nanoseconds, elapsed}

abbrev pub new : RelayConfig → ℕ → Relay
new config now = record {
  config = config;
  state = empty_state;
  previous_secret = none;
  secret_rotated_at = now;
  gateway_ecn_capabilities = [];
}

unfoldable pub response_mac_with_secret : Host → List ℕ → IpAddr → ℕ → ℕ → ResponseMac
response_mac_with_secret host secret gateway_ip gateway_port request_nonce =
    take 6 (
      host.hmac secret (from_ip_addr gateway_ip ++ (to_be 2 gateway_port ++ to_be 4 request_nonce)))

unfoldable pub response_mac : Host → Relay → IpAddr → ℕ → ℕ → ResponseMac
unfolding response_mac_with_secret
response_mac host relay gateway_ip gateway_port request_nonce =
    response_mac_with_secret host relay.config.secret gateway_ip gateway_port request_nonce

-- Twice the query interval: the grace of a previous secret, and the lifetime of a capability.
unfoldable pub gateway_capability_lifetime : Relay → ℕ
unfolding query_interval
gateway_capability_lifetime relay =
    nanoseconds (query_interval relay.config.general_query.query_interval_code) * 2

unfoldable pub in_grace : Relay → ℕ → Option PreviousSecret → Bool
unfolding gateway_capability_lifetime
in_grace relay now none = false
in_grace relay now (some previous) =
    leb (elapsed now previous.rotated_at) (gateway_capability_lifetime relay)

unfoldable pub previous_accepts :
    Host → Relay → ℕ → Option PreviousSecret → ResponseMac → IpAddr → ℕ → ℕ → Bool
unfolding in_grace response_mac_with_secret constant_time_eq
previous_accepts host relay now none actual ip port nonce = false
previous_accepts host relay now (some previous) actual ip port nonce =
    in_grace relay now (some previous)
    && constant_time_eq actual (response_mac_with_secret host previous.secret ip port nonce)

unfoldable pub valid_response_mac : Host → Relay → ℕ → ResponseMac → IpAddr → ℕ → ℕ → Bool
unfolding response_mac previous_accepts constant_time_eq
valid_response_mac host relay now actual ip port nonce =
    constant_time_eq actual (response_mac host relay ip port nonce)
    || previous_accepts host relay now relay.previous_secret actual ip port nonce

unfoldable pub refusing_new_endpoint : Relay → IpAddr → Bool
refusing_new_endpoint relay address =
    relay.config.limit
    || (is_near_limits relay.state relay.config.limits
        || is_ip_near_endpoint_limit relay.state address relay.config.limits.max_endpoints_per_ip)

-- The rotation itself, where a secret could be drawn.
abbrev pub rotate_secret : Relay → ℕ → Option (List ℕ) → Relay
rotate_secret relay now none = relay
rotate_secret relay now (some next_secret) = record relay {
  config = record relay.config { secret = next_secret };
  previous_secret = some (record { secret = relay.config.secret; rotated_at = now });
  secret_rotated_at = now;
}

abbrev pub is_due : Relay → ℕ → Option ℕ → Bool
is_due relay now none = false
is_due relay now (some interval) = not (ltb (elapsed now relay.secret_rotated_at) interval)

-- `drawn` is the secret that `RelaySecret::try_generate` gives.
unfoldable pub rotate_secret_if_due : Relay → ℕ → Option (List ℕ) → Relay
unfolding in_grace
rotate_secret_if_due relay now drawn =
    if not (is_due relay now relay.config.secret_rotation_interval)
    then relay
    else if in_grace relay now relay.previous_secret
    then relay
    else rotate_secret relay now drawn

-- `retain` on the capabilities.
unfoldable pub retain_fresh : ℕ → ℕ → List (SocketAddr × ℕ) → List (SocketAddr × ℕ)
retain_fresh now lifetime [] = []
retain_fresh now lifetime ((endpoint, observed) ∷ rest) =
    let kept = retain_fresh now lifetime rest in
    if leb (elapsed now observed) lifetime then (endpoint, observed) ∷ kept else kept

abbrev pub is_some {ℓ} : {A : Type ℓ} → Option A → Bool
is_some none = false
is_some (some a) = true

unfoldable pub remember_gateway_ecn_capability : Relay → ℕ → SocketAddr → Bool → Relay
unfolding retain_fresh gateway_capability_lifetime
remember_gateway_ecn_capability relay now endpoint capable =
    let fresh =
      retain_fresh now (gateway_capability_lifetime relay) relay.gateway_ecn_capabilities in
    let kept =
      (if not relay.config.ecn || not capable
        then BTreeMap.remove endpoint fresh
        else if is_some (BTreeMap.get endpoint fresh)
            || ltb (length fresh) relay.config.limits.max_endpoints
        then BTreeMap.insert endpoint now fresh
        else fresh) in
    record relay { gateway_ecn_capabilities = kept }

abbrev pub observed_recently : Relay → ℕ → Option ℕ → Bool
unfolding gateway_capability_lifetime
observed_recently relay now none = false
observed_recently relay now (some observed) =
    leb (elapsed now observed) (gateway_capability_lifetime relay)

unfoldable pub gateway_ecn_capable : Relay → ℕ → SocketAddr → Bool
unfolding observed_recently
gateway_ecn_capable relay now endpoint =
    relay.config.ecn
    && observed_recently relay now (BTreeMap.get endpoint relay.gateway_ecn_capabilities)
