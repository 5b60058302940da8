-- ===== src/LocalMembership/Reports.antt =====
-- The reports of local_membership.rs bring whoever applies them to the interests of the manager.
use amt.Prelude.{
  ◌≡◌, refl, sym, ap, ◌∙◌, arith, Bool, true, false, not, ◌&&◌, ◌||◌, Option, none, some, List, [],
  ◌∷◌, ◌++◌, if◌then◌else◌, Bool-cases, inl, inr,
}
use amt.Address.{IpAddr, ip_eq}
use amt.Collections.BTreeSet.{contains, extend, contains-extend}
use amt.Collections.BTreeMap.{get}
use amt.Collections.Key.{ip_key, ip_eq_iff}
use amt.Protocol.{MembershipProtocol}
use amt.Membership.{MembershipRecord, MembershipReport}
use amt.State.Aggregate.{rebuild_indexes-wants}
use amt.State.Coverage.{any_wants}
use amt.State.Valid.{IsValid}
use amt.State.{RelayState, GroupInterest, Groups, EndpointState}
use amt.State.Interest.{apply_record, interest_wants, wants, wants_source, asks}
use amt.State.Asked.{apply_record-asks}
use amt.State.Ops.{apply_records}
use amt.LocalMembership.{LocalMembershipManager, group_matches_protocol}
use amt.LocalMembership.Delta.{
  record_for_interest, keys, same_interest, change_record, delta_for, delta_records,
  filter_exportable_interests, is_amt_exportable_group,
}
use amt.LocalMembership.Manager.{report_of, pending_report}

same_interest-eq : (a b : Option GroupInterest) → same_interest a b ≡ true → a ≡ b
unfolding same_interest
same_interest-eq a b h = ground arith

-- A change record settles what is wanted of its group.
change_record-group :
    (group : IpAddr) (now : Option GroupInterest) → (change_record group now).group ≡ group
unfolding record_for_interest
change_record-group group none = refl
change_record-group group (some i) = refl

change_record-asks :
    (group : IpAddr) (now : Option GroupInterest) (source : IpAddr) (before : Bool)
    → (let r = change_record group now in asks r.kind (contains source r.sources) before)
      ≡ interest_wants now source
unfolding record_for_interest wants_source contains
change_record-asks group none source before = refl
change_record-asks group (some i) source before = ground arith

apply_change_record :
    (st : EndpointState) (group : IpAddr) (now : Option GroupInterest) (g source : IpAddr)
    → wants (apply_record st (change_record group now)).0.groups g source
      ≡ (if ip_eq g group then interest_wants now source else wants st.groups g source)
apply_change_record st group now g source =
    let r = change_record group now in
    apply_record-asks st r g source
    ∙ rw
        (
          change_record-group group now,
          change_record-asks group now source (wants st.groups group source),
        )
        refl

apply_records-wants_step :
    (st : EndpointState) (r : MembershipRecord) (rest : List MembershipRecord)
    → (apply_records st (r ∷ rest)).0 ≡ (apply_records (apply_record st r).0 rest).0
unfolding apply_records
apply_records-wants_step st r rest = refl

-- Whether the loop over `groups` writes a record for `g`.
abbrev settles : MembershipProtocol → Groups → Groups → List IpAddr → IpAddr → Bool
settles protocol previous current groups g =
    contains g groups
    && (group_matches_protocol protocol g && not (same_interest (get g previous) (get g current)))

delta_for-wants :
    (protocol : MembershipProtocol) (previous current : Groups) (groups : List IpAddr)
    (st : EndpointState) (g source : IpAddr)
    → wants (apply_records st (delta_for protocol previous current groups)).0.groups g source ≡ (
        if settles protocol previous current groups g
        then wants current g source
        else wants st.groups g source)
unfolding delta_for apply_records contains
delta_for-wants protocol previous current [] st g source = refl
delta_for-wants protocol previous current (x ∷ rest) st g source =
    let r = change_record x (get x current) in
    ground (
      arith,
      ip_eq_iff g x,
      delta_for-wants protocol previous current rest st g source,
      delta_for-wants protocol previous current rest (apply_record st r).0 g source,
      apply_change_record st x (get x current) g source,
    )

get-keys : (groups : Groups) (g : IpAddr) → contains g (keys groups) ≡ false → get g groups ≡ none
unfolding contains get
get-keys [] g h = refl
get-keys ((x, i) ∷ rest) g h = ground (arith, get-keys rest g)

contains-append :
    (x : IpAddr) (xs ys : List IpAddr) → contains x (xs ++ ys) ≡ (contains x xs || contains x ys)
unfolding contains
contains-append x [] ys = refl
contains-append x (y ∷ xs) ys = ground (arith, contains-append x xs ys)

-- Whoever wants the traffic that the interests before want, and applies the records of the change to
-- the interests after, wants the traffic that those want, for every group of the protocol's family.
-- The other groups are left as they were.
pub delta_records-wants :
    (protocol : MembershipProtocol) (previous current : Groups) (st : EndpointState)
    (g source : IpAddr)
    → wants st.groups g source ≡ wants previous g source
    → wants (apply_records st (delta_records protocol previous current)).0.groups g source ≡ (
        if group_matches_protocol protocol g
        then wants current g source
        else wants previous g source)
unfolding delta_records
delta_records-wants protocol previous current st g source same =
    let groups = extend [] (keys previous ++ keys current) in
    ground (
      arith,
      delta_for-wants protocol previous current groups st g source,
      contains-extend g [] (keys previous ++ keys current),
      contains-append g (keys previous) (keys current),
      get-keys previous g,
      get-keys current g,
      same_interest-eq (get g previous) (get g current),
    )

get-filter_exportable_interests :
    (protocol : MembershipProtocol) (groups : Groups) (g : IpAddr)
    → get g (filter_exportable_interests protocol groups) ≡ (
        if group_matches_protocol protocol g && is_amt_exportable_group g
        then get g groups
        else none)
unfolding get filter_exportable_interests
get-filter_exportable_interests protocol [] g = ground arith
get-filter_exportable_interests protocol ((x, i) ∷ rest) g =
    ground (arith, ip_eq_iff g x, get-filter_exportable_interests protocol rest g)

filter_exportable_interests-wants :
    (protocol : MembershipProtocol) (groups : Groups) (g source : IpAddr)
    → group_matches_protocol protocol g ≡ true
    → wants (filter_exportable_interests protocol groups) g source
      ≡ (is_amt_exportable_group g && wants groups g source)
unfolding wants_source
filter_exportable_interests-wants protocol groups g source family =
    rw (get-filter_exportable_interests protocol groups g, family)
      (elim (Bool-cases (is_amt_exportable_group g)) [ inl e ↦ rw e refl | inr e ↦ rw e refl ])

aggregate-any_wants :
    (s : RelayState) (g source : IpAddr)
    → IsValid s
    → wants s.aggregate g source ≡ any_wants s.endpoints g source
aggregate-any_wants s g source v =
    sym (ap (λ (t : RelayState). wants t.aggregate g source) v.indexed)
    ∙ rebuild_indexes-wants s g source v.groups_sorted

-- The endpoint after a report, if there is one.
abbrev pub reported : Option MembershipReport → EndpointState → EndpointState
reported none st = st
reported (some report) st = (apply_records st report.records).0

report_of-reported :
    (protocol : MembershipProtocol) (records : List MembershipRecord) (st : EndpointState)
    → reported (report_of protocol records) st ≡ (apply_records st records).0
unfolding apply_records
report_of-reported protocol [] st = refl
report_of-reported protocol (r ∷ rest) st = refl

-- Whoever wants what the manager has advertised, and applies its pending report, wants the traffic
-- of an exportable group of the protocol's family exactly where some reporter on the local network
-- does, and none of other groups of that family. The manager's state is valid.
pub pending_report-wants :
    (m : LocalMembershipManager) (st : EndpointState) (g source : IpAddr)
    → IsValid m.state
    → group_matches_protocol m.config.protocol g ≡ true
    → wants st.groups g source ≡ wants m.advertised g source
    → wants (reported (pending_report m) st).groups g source
      ≡ (is_amt_exportable_group g && any_wants m.state.endpoints g source)
unfolding pending_report
pending_report-wants m st g source v family same =
    let protocol = m.config.protocol in
    let current = filter_exportable_interests protocol m.state.aggregate in
    let records = delta_records protocol m.advertised current in
    ap (λ (e : EndpointState). wants e.groups g source) (report_of-reported protocol records st)
    ∙ delta_records-wants protocol m.advertised current st g source same
    ∙ rw family (
        filter_exportable_interests-wants protocol m.state.aggregate g source family
        ∙ ap (λ (w : Bool). is_amt_exportable_group g && w)
            (aggregate-any_wants m.state g source v))
