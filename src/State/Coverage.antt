-- ===== src/State/Coverage.antt =====
-- The summaries that `rebuild_indexes` accumulates stand for what the endpoints want.
use amt.Prelude.{
  ◌+◌, length, ◌≡◌, refl, arith, Bool, true, false, not, ◌&&◌, ◌||◌, Option, none, some, List, [],
  ◌∷◌,
}
use amt.Address.{IpAddr, SocketAddr, ip_eq}
use amt.Collections.BTreeSet.{
  contains, contains-nil, contains-extend, contains-remove_each, contains-retain, remove_each,
}
use amt.Collections.BTreeMap.{
  get, get-insert, Above, IsSorted, insert-IsSorted, Above-weaken, Above→IsSorted,
}
use amt.Collections.Key.{ip_key, socket_key, ip_eq_iff, lt-ne}
use amt.State.{FilterMode, include, exclude, GroupInterest, Groups, Endpoints}
use amt.State.Interest.{wants, interest_wants, wants_source}
use amt.State.Asked.{wants-include, wants-exclude}
use amt.State.Index.{
  GroupSummary, apply, apply_mode, excluded, into_interest, interest_of, summary_or_empty, Index,
  index_group, index_groups, index_endpoint, index_endpoints,
}

-- What a summary stands for.
abbrev pub not_kept : Option (List IpAddr) → IpAddr → Bool
not_kept none source = false
not_kept (some kept) source = not (contains source kept)

abbrev pub summary_wants : GroupSummary → IpAddr → Bool
summary_wants s source = contains source s.include_sources || not_kept s.exclude_sources source

not_kept-excluded :
    (kept : Option (List IpAddr)) (sources : List IpAddr) (source : IpAddr)
    → not_kept (some (excluded kept sources)) source
      ≡ (not (contains source sources) || not_kept kept source)
not_kept-excluded none sources source = ground arith
not_kept-excluded (some kept) sources source =
    ground (arith, contains-retain source (λ x. contains x sources) kept)

apply_mode-wants :
    (mode : FilterMode) (s : GroupSummary) (i : GroupInterest) (source : IpAddr)
    → i.mode ≡ mode
    → summary_wants (apply_mode mode s i.sources) source
      ≡ (wants_source i source || summary_wants s source)
unfolding wants_source
apply_mode-wants include s i source e =
    ground (arith, contains-extend source s.include_sources i.sources)
apply_mode-wants exclude s i source e =
    ground (arith, not_kept-excluded s.exclude_sources i.sources source)

apply-wants :
    (s : GroupSummary) (i : GroupInterest) (source : IpAddr)
    → summary_wants (apply s i) source ≡ (wants_source i source || summary_wants s source)
unfolding apply
apply-wants s i source = apply_mode-wants i.mode s i source refl

interest_of-wants :
    (kept : Option (List IpAddr)) (included : List IpAddr) (source : IpAddr)
    → interest_wants (interest_of kept included) source
      ≡ (contains source included || not_kept kept source)
unfolding wants_source
interest_of-wants none [] source = ground (arith, contains-nil source)
interest_of-wants none (x ∷ xs) source = ground (arith, wants-include (x ∷ xs) source)
interest_of-wants (some kept) included source = ground (
  arith,
  wants-exclude (remove_each kept included) source,
  contains-remove_each source kept included,
)

pub into_interest-wants :
    (s : GroupSummary) (source : IpAddr)
    → interest_wants (into_interest s) source ≡ summary_wants s source
unfolding into_interest
into_interest-wants s source = interest_of-wants s.exclude_sources s.include_sources source

-- What the summaries of all groups stand for.
abbrev pub summaries_want : List (IpAddr × GroupSummary) → IpAddr → IpAddr → Bool
summaries_want groups g source = summary_wants (summary_or_empty (get g groups)) source

summaries_equal :
    (g group : IpAddr) (groups : List (IpAddr × GroupSummary)) (source : IpAddr)
    → ip_eq g group ≡ true
    → summaries_want groups g source ≡ summaries_want groups group source
summaries_equal g group groups source h = rw ((ip_eq_iff g group).0 h)

index_group-wants :
    (endpoint : SocketAddr) (ix : Index) (group : IpAddr) (i : GroupInterest) (g source : IpAddr)
    → summaries_want (index_group endpoint ix group i).groups g source
      ≡ ((ip_eq g group && wants_source i source) || summaries_want ix.groups g source)
unfolding index_group
index_group-wants endpoint ix group i g source = ground (
  arith,
  get-insert g group (apply (summary_or_empty (get group ix.groups)) i) ix.groups,
  apply-wants (summary_or_empty (get group ix.groups)) i source,
  summaries_equal g group ix.groups source,
)

-- A list of groups read through, where `wants` looks a group up.
listed_wants : Groups → IpAddr → IpAddr → Bool
listed_wants [] g source = false
listed_wants ((group, i) ∷ rest) g source =
    (ip_eq g group && wants_source i source) || listed_wants rest g source

listed-Above :
    (x : IpAddr) (groups : Groups) (source : IpAddr)
    → Above x groups
    → listed_wants groups x source ≡ false
unfolding listed_wants
listed-Above x [] source a = refl
listed-Above x ((group, i) ∷ rest) source a =
    ground
      (arith, lt-ne x group a.0, listed-Above x rest source (Above-weaken x group rest a.0 a.1))

listed_equal :
    (g group : IpAddr) (groups : Groups) (source : IpAddr)
    → ip_eq g group ≡ true
    → listed_wants groups g source ≡ listed_wants groups group source
listed_equal g group groups source h = rw ((ip_eq_iff g group).0 h)

listed-wants :
    (groups : Groups) (g source : IpAddr)
    → IsSorted groups
    → listed_wants groups g source ≡ wants groups g source
unfolding listed_wants get wants_source
listed-wants [] g source s = refl
listed-wants ((group, i) ∷ rest) g source s = ground (
  arith,
  listed-wants rest g source (Above→IsSorted group rest s),
  listed-Above group rest source s,
  listed_equal g group rest source,
)

index_groups-wants :
    (endpoint : SocketAddr) (ix : Index) (groups : Groups) (g source : IpAddr)
    → summaries_want (index_groups endpoint ix groups).groups g source
      ≡ (listed_wants groups g source || summaries_want ix.groups g source)
unfolding index_groups listed_wants
index_groups-wants endpoint ix [] g source = refl
index_groups-wants endpoint ix ((group, i) ∷ rest) g source = ground (
  arith,
  index_groups-wants endpoint (index_group endpoint ix group i) rest g source,
  index_group-wants endpoint ix group i g source,
)

-- Whether some endpoint wants the traffic.
unfoldable pub any_wants : Endpoints → IpAddr → IpAddr → Bool
any_wants [] group source = false
any_wants ((endpoint, st) ∷ rest) group source =
    wants st.groups group source || any_wants rest group source

-- The groups of every endpoint are sorted, as a map's are.
abbrev pub SortedGroups : Endpoints → Type 0
SortedGroups [] = Unit
SortedGroups ((endpoint, st) ∷ rest) = IsSorted st.groups × SortedGroups rest

pub index_endpoints-wants :
    (ix : Index) (endpoints : Endpoints) (g source : IpAddr)
    → SortedGroups endpoints
    → summaries_want (index_endpoints ix endpoints).groups g source
      ≡ (any_wants endpoints g source || summaries_want ix.groups g source)
unfolding index_endpoints index_endpoint any_wants
index_endpoints-wants ix [] g source s = refl
index_endpoints-wants ix ((endpoint, st) ∷ rest) g source s = ground (
  arith,
  index_endpoints-wants (index_endpoint endpoint ix st) rest g source s.1,
  index_groups-wants endpoint
      (record ix { total_endpoint_groups = ix.total_endpoint_groups + length st.groups }) st.groups
      g source,
  listed-wants st.groups g source s.0,
)

-- The summaries stay sorted.
index_groups-IsSorted :
    (endpoint : SocketAddr) (ix : Index) (groups : Groups)
    → IsSorted ix.groups
    → IsSorted (index_groups endpoint ix groups).groups
unfolding index_groups index_group
index_groups-IsSorted endpoint ix [] s = s
index_groups-IsSorted endpoint ix ((group, i) ∷ rest) s =
    index_groups-IsSorted endpoint (index_group endpoint ix group i) rest
      (insert-IsSorted group _ ix.groups s)

pub index_endpoints-IsSorted :
    (ix : Index) (endpoints : Endpoints)
    → IsSorted ix.groups
    → IsSorted (index_endpoints ix endpoints).groups
unfolding index_endpoints index_endpoint
index_endpoints-IsSorted ix [] s = s
index_endpoints-IsSorted ix ((endpoint, st) ∷ rest) s =
    index_endpoints-IsSorted (index_endpoint endpoint ix st) rest
      (index_groups-IsSorted endpoint _ st.groups s)
