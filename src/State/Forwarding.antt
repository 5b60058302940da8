-- ===== src/State/Forwarding.antt =====
-- The forwarding index finds exactly the endpoints that want a packet.
use amt.Prelude.{◌≡◌, arith, Bool, true, ◌&&◌, ◌||◌, [], ◌∷◌, Bool-cases, inl, inr}
use amt.Address.{IpAddr, ip_eq, SocketAddr, socket_eq}
use amt.Collections.BTreeSet.{contains, contains-nil, contains-insert, contains-retain}
use amt.Collections.BTreeSet
use amt.Collections.BTreeMap.{get, get-insert}
use amt.Collections.Key.{ip_key, socket_key, ip_eq_iff}
use amt.State.{GroupInterest, Groups, Endpoints, RelayState}
use amt.State.Interest.{interest_wants}
use amt.State.Index.{
  Index, index_group, index_groups, index_endpoint, index_endpoints, empty_index, rebuild_indexes,
  endpoints_or_empty,
}
use amt.State.Ops.{matching_endpoints, endpoint_interest, group_of, is_some}

abbrev forwards : Index → IpAddr → SocketAddr → Bool
forwards ix g e = contains e (endpoints_or_empty (get g ix.forwarding))

forwards_equal :
    (ix : Index) (g group : IpAddr) (e : SocketAddr)
    → ip_eq g group ≡ true
    → forwards ix g e ≡ forwards ix group e
forwards_equal ix g group e h = rw ((ip_eq_iff g group).0 h)

index_group-forwards :
    (endpoint : SocketAddr) (ix : Index) (group : IpAddr) (i : GroupInterest) (g : IpAddr)
    (e : SocketAddr)
    → forwards (index_group endpoint ix group i) g e
      ≡ ((ip_eq g group && socket_eq e endpoint) || forwards ix g e)
unfolding index_group
index_group-forwards endpoint ix group i g e =
    let listed = endpoints_or_empty (get group ix.forwarding) in
    ground (
      arith,
      get-insert g group (BTreeSet.insert endpoint listed) ix.forwarding,
      contains-insert e endpoint listed,
      forwards_equal ix g group e,
    )

-- What is forwarded stays forwarded.
index_groups_keeps :
    (endpoint : SocketAddr) (ix : Index) (groups : Groups) (g : IpAddr) (e : SocketAddr)
    → forwards ix g e ≡ true
    → forwards (index_groups endpoint ix groups) g e ≡ true
unfolding index_groups
index_groups_keeps endpoint ix [] g e h = h
index_groups_keeps endpoint ix ((group, i) ∷ rest) g e h =
    index_groups_keeps endpoint (index_group endpoint ix group i) rest g e
      (ground (arith, index_group-forwards endpoint ix group i g e))

index_endpoints_keeps :
    (ix : Index) (endpoints : Endpoints) (g : IpAddr) (e : SocketAddr)
    → forwards ix g e ≡ true
    → forwards (index_endpoints ix endpoints) g e ≡ true
unfolding index_endpoints index_endpoint
index_endpoints_keeps ix [] g e h = h
index_endpoints_keeps ix ((endpoint, st) ∷ rest) g e h =
    index_endpoints_keeps (index_endpoint endpoint ix st) rest g e
      (index_groups_keeps endpoint _ st.groups g e h)

index_groups_finds :
    (endpoint : SocketAddr) (ix : Index) (groups : Groups) (g : IpAddr) (e : SocketAddr)
    → is_some (get g groups) ≡ true
    → socket_eq e endpoint ≡ true
    → forwards (index_groups endpoint ix groups) g e ≡ true
unfolding index_groups get
index_groups_finds endpoint ix [] g e h same = cc
index_groups_finds endpoint ix ((group, i) ∷ rest) g e h same = elim (Bool-cases (ip_eq g group)) [
  | inl eq ↦
      index_groups_keeps endpoint (index_group endpoint ix group i) rest g e
        (ground (arith, index_group-forwards endpoint ix group i g e))
  | inr ne ↦
      index_groups_finds endpoint (index_group endpoint ix group i) rest g e (rw ne at h) same
]

index_endpoints_finds :
    (ix : Index) (endpoints : Endpoints) (g : IpAddr) (e : SocketAddr)
    → is_some (group_of (get e endpoints) g) ≡ true
    → forwards (index_endpoints ix endpoints) g e ≡ true
unfolding index_endpoints index_endpoint get
index_endpoints_finds ix [] g e h = cc
index_endpoints_finds ix ((endpoint, st) ∷ rest) g e h = elim (Bool-cases (socket_eq e endpoint)) [
  | inl eq ↦
      index_endpoints_keeps (index_endpoint endpoint ix st) rest g e
        (index_groups_finds endpoint _ st.groups g e (rw eq at h) eq)
  | inr ne ↦ index_endpoints_finds (index_endpoint endpoint ix st) rest g e (rw ne at h)
]

-- In a state whose indexes are up to date, the endpoints that a packet is forwarded to are exactly
-- those whose own interest in the group wants the source.
pub matching_endpoints-wants :
    (s : RelayState) (source group : IpAddr) (endpoint : SocketAddr)
    → contains endpoint (matching_endpoints (rebuild_indexes s) source group)
      ≡ interest_wants (endpoint_interest s endpoint group) source
unfolding matching_endpoints rebuild_indexes
matching_endpoints-wants s source group endpoint = ground (
  arith,
  contains-retain endpoint (λ e. interest_wants (group_of (get e s.endpoints) group) source)
      (endpoints_or_empty (get group (index_endpoints empty_index s.endpoints).forwarding)),
  index_endpoints_finds empty_index s.endpoints group endpoint,
)
