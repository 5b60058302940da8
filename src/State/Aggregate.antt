-- ===== src/State/Aggregate.antt =====
-- The aggregate that `rebuild_indexes` computes covers exactly what the endpoints want.
use amt.Prelude.{
  ◌≡◌, refl, ◌∙◌, arith, true, false, Option, none, some, List, [], ◌∷◌, if◌then◌else◌,
}
use amt.Address.{IpAddr, ip_eq}
use amt.Collections.BTreeSet.{contains, contains-nil}
use amt.Collections.BTreeMap.{get, Above, IsSorted, get-Above, Above→IsSorted}
use amt.Collections.Key.{ip_key, ip_eq_iff}
use amt.State.{GroupInterest, Groups, RelayState}
use amt.State.Interest.{wants, interest_wants, wants_source}
use amt.State.Coverage.{
  summaries_want, into_interest-wants, index_endpoints-wants, index_endpoints-IsSorted, any_wants,
  SortedGroups,
}
use amt.State.Index.{
  GroupSummary, into_interest, empty_index, aggregate_of, prepend_some, rebuild_indexes,
}

prepend-wants :
    (group : IpAddr) (o : Option GroupInterest) (rest : Groups) (g source : IpAddr)
    → (ip_eq g group ≡ true → wants rest g source ≡ false)
    → wants (prepend_some group o rest) g source
      ≡ (if ip_eq g group then interest_wants o source else wants rest g source)
unfolding get wants_source
prepend-wants group none rest g source h = ground arith
prepend-wants group (some i) rest g source h = ground arith

summaries-Above :
    (group : IpAddr) (rest : List (IpAddr × GroupSummary)) (g source : IpAddr)
    → Above group rest
    → ip_eq g group ≡ true
    → summaries_want rest g source ≡ false
unfolding contains
summaries-Above group rest g source a e = rw ((ip_eq_iff g group).0 e, get-Above group rest a)

aggregate_of-wants :
    (groups : List (IpAddr × GroupSummary)) (g source : IpAddr)
    → IsSorted groups
    → wants (aggregate_of groups) g source ≡ summaries_want groups g source
unfolding aggregate_of get wants_source contains
aggregate_of-wants [] g source s = refl
aggregate_of-wants ((group, sm) ∷ rest) g source s =
    let tails = aggregate_of-wants rest g source (Above→IsSorted group rest s) in
    ground (
      arith,
      tails,
      summaries-Above group rest g source s,
      prepend-wants group (into_interest sm) (aggregate_of rest) g source
          (λ e. tails ∙ summaries-Above group rest g source s e),
      into_interest-wants sm source,
    )

-- Where the group maps of the endpoints are sorted, as a BTreeMap is, the aggregate interest that is
-- subscribed upstream wants a packet exactly when some endpoint does, for every source and group.
pub rebuild_indexes-wants :
    (s : RelayState) (group source : IpAddr)
    → SortedGroups s.endpoints
    → wants (rebuild_indexes s).aggregate group source ≡ any_wants s.endpoints group source
unfolding rebuild_indexes get
rebuild_indexes-wants s group source h =
    aggregate_of-wants _ group source (index_endpoints-IsSorted empty_index s.endpoints tt)
    ∙ ground
        (arith, index_endpoints-wants empty_index s.endpoints group source h, contains-nil source)
