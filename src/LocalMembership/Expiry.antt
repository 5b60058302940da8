-- ===== src/LocalMembership/Expiry.antt =====
-- Which reporters of the local network expire.
use amt.Prelude.{
  ℕ, ◌≡◌, refl, arith, Bool, false, not, ◌&&◌, Option, none, some, List, [], ◌∷◌, ◌==◌,
}
use amt.Address.{IpAddr, SocketAddr, socket_eq}
use amt.Collections.BTreeMap.{get, remove, IsSorted, Above→IsSorted, get-Above, get-remove}
use amt.Collections.BTreeSet.{contains}
use amt.Collections.Key.{ip_key, socket_key, ip_eq_iff}
use amt.State.{RelayState}
use amt.State.Index.{rebuild_indexes}
use amt.State.Ops.{is_some, contains_endpoint, remove_endpoint}
use amt.LocalMembership.{LocalMembershipManager}
use amt.LocalMembership.Manager.{
  is_stale, stale_reporters, remove_reporters, prune_stale_reporters_at, reporter_endpoint,
}

remove_endpoint-endpoints :
    (s : RelayState) (endpoint : SocketAddr)
    → (remove_endpoint s endpoint).0.endpoints ≡ remove endpoint s.endpoints
unfolding remove_endpoint rebuild_indexes
remove_endpoint-endpoints s endpoint = ground arith

contains-remove_endpoint :
    (s : RelayState) (endpoint e : SocketAddr)
    → contains_endpoint (remove_endpoint s endpoint).0 e
      ≡ (not (socket_eq e endpoint) && contains_endpoint s e)
unfolding contains_endpoint
contains-remove_endpoint s endpoint e =
    rw (remove_endpoint-endpoints s endpoint, get-remove e endpoint s.endpoints) (ground arith)

-- Whether the reporter of an endpoint is among those that are removed.
abbrev listed : List IpAddr → SocketAddr → Bool
listed reporters e = e.port == 0 && contains e.ip reporters

remove_reporters-contains_endpoint :
    (m : LocalMembershipManager) (reporters : List IpAddr) (e : SocketAddr)
    → contains_endpoint (remove_reporters m reporters).state e
      ≡ (not (listed reporters e) && contains_endpoint m.state e)
unfolding remove_reporters contains
remove_reporters-contains_endpoint m [] e = ground arith
remove_reporters-contains_endpoint m (reporter ∷ rest) e = ground (
  arith,
  remove_reporters-contains_endpoint
      (record m {
        reporter_last_seen = remove reporter m.reporter_last_seen;
        state = (remove_endpoint m.state (reporter_endpoint reporter)).0;
      })
      rest e,
  contains-remove_endpoint m.state (reporter_endpoint reporter) e,
)

-- Whether a reporter that was last seen then is stale; one that was never seen is not.
abbrev pub seen_is_stale : ℕ → ℕ → Option ℕ → Bool
seen_is_stale timeout now none = false
seen_is_stale timeout now (some last_seen) = is_stale timeout now last_seen

contains-stale_reporters :
    (timeout now : ℕ) (seen : List (IpAddr × ℕ)) (r : IpAddr)
    → IsSorted seen
    → contains r (stale_reporters timeout now seen) ≡ seen_is_stale timeout now (get r seen)
unfolding stale_reporters contains get
contains-stale_reporters timeout now [] r s = refl
contains-stale_reporters timeout now ((x, last_seen) ∷ rest) r s = ground (
  arith,
  ip_eq_iff r x,
  contains-stale_reporters timeout now rest r (Above→IsSorted x rest s),
  get-Above x rest s,
)

-- Pruning removes exactly the endpoints whose reporter was last seen at least the timeout ago, where
-- the manager queries its network; where it does not, none. The times of the reporters are sorted, as
-- a BTreeMap is.
pub prune_stale_reporters_at-contains_endpoint :
    (m : LocalMembershipManager) (now : ℕ) (e : SocketAddr)
    → IsSorted m.reporter_last_seen
    → contains_endpoint (prune_stale_reporters_at m now).0.state e ≡ (
        contains_endpoint m.state e
        && not (
            is_some m.config.query_interval
            && (e.port == 0
                && seen_is_stale m.config.reporter_timeout now (get e.ip m.reporter_last_seen))))
unfolding prune_stale_reporters_at
prune_stale_reporters_at-contains_endpoint m now e s =
    let stale = stale_reporters m.config.reporter_timeout now m.reporter_last_seen in
    ground (
      arith,
      remove_reporters-contains_endpoint m stale e,
      contains-stale_reporters m.config.reporter_timeout now m.reporter_last_seen e.ip s,
    )
