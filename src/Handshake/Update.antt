-- ===== src/Handshake/Update.antt =====
-- A report that a connected gateway sends is the one that the relay applies for it.
use amt.Prelude.{
  ℕ, ◌^◌, ◌<◌, ◌≤◌, ◌≡◌, refl, sym, ap, ◌∙◌, arith, true, false, not, ◌&&◌, Option, none, some,
  List, [], ◌∷◌, Result, ok, >>=-eq-ok, length, All, Bool-cases, Result-cases, inl, inr,
}
use amt.Address.{SocketAddr}
use amt.Protocol.{Message, MembershipProtocol, igmpv3, mldv2, ResponseMac}
use amt.Protocol.Codec.{encode, decode}
use amt.Protocol.RoundTrip.{update_round_trip}
use amt.Ip.{is_amt_forwardable_group}
use amt.Membership.{MembershipRecord, MembershipReport}
use amt.Membership.Build.{
  build_membership_report, build_igmpv3_membership_report, build_mldv2_membership_report,
}
use amt.Membership.Checks.{
  encode_record_kind, validate_build_record, validate_build_records, validate_each_build_record,
}
use amt.Membership.Built.{IsRecord}
use amt.Membership.Parse.{parse_membership_report_with_limits}
use amt.Membership.RoundTrip.{build_membership_report-parses}
use amt.State.{RelayState, RelayLimits, StateLimitError}
use amt.State.Ops.{apply_report_limited, preview_report, contains_endpoint}
use amt.State.Preview.{preview_report_unchanged}
use amt.State.Valid.{IsValid}
use amt.State.Bounds.{apply_report_limited-Within}
use amt.State.Rollback.{Outcome, apply_report_limited_rollback}
use amt.Gateway.{Gateway, GatewaySession}
use amt.Gateway.Memberships.{membership_update}
use amt.Relay
use amt.Relay.{Host, Relay}
use amt.Relay.Auth.{response_mac, valid_response_mac, rotate_secret_if_due, refusing_new_endpoint}
use amt.Relay.Handle.{
  Prepared, commit, accept_report, handle_update, unforwardable, parse_limits, handle_datagram,
}
use amt.Relay.Rotation.{rotate_secret_if_due-response_mac}
use amt.Handshake.{gateway_datagram, IsDigest, IsConnected}
use amt.Handshake.Answers.{handle_datagram-decoded, length-response_mac}

pair_eq : (p : Outcome) {r : Result StateLimitError ℕ} → p.1 ≡ r → p ≡ (p.0, r)
pair_eq p e = ap (λ (r : Result StateLimitError ℕ). (p.0, r)) e

-- A report that is unchanged by the preview may be skipped, also under limits.
unchanged-apply_report_limited :
    (s : RelayState) (endpoint : SocketAddr) (report : MembershipReport) (limits : RelayLimits)
    → IsValid s
    → (preview_report s endpoint report).1 ≡ false
    → (apply_report_limited s endpoint report limits).0 ≡ s
unchanged-apply_report_limited s endpoint report limits v h =
    elim (Result-cases (apply_report_limited s endpoint report limits).1) [
      | inl (n, e) ↦
          (let (_, _, same, _) =
              apply_report_limited-Within s _ endpoint report limits n (pair_eq _ e) in
            sym same ∙ preview_report_unchanged s endpoint report v h)
      | inr (x, e) ↦
          apply_report_limited_rollback s _ endpoint report limits x v.indexed v.sorted
            (pair_eq _ e)
    ]

-- What the relay makes of a report for a forwardable group, accepted or not.
accept_report-state :
    (relay : Relay) (peer : SocketAddr) (bytes : ℕ) (report : MembershipReport)
    → IsValid relay.state
    → (commit relay (accept_report relay peer bytes report none)).0.state
      ≡ (apply_report_limited relay.state peer report relay.config.limits).0
unfolding accept_report
accept_report-state relay peer bytes report v =
    elim (Bool-cases (preview_report relay.state peer report).1) [
      | inr e ↦
          rw e
            (sym (unchanged-apply_report_limited relay.state peer report relay.config.limits v e))
      | inl e ↦
          elim (Result-cases (apply_report_limited relay.state peer report relay.config.limits).1) [
            | inl (n, r) ↦ rw (e, r) refl
            | inr (x, r) ↦
                rw (e, r)
                  (sym (
                    apply_report_limited_rollback relay.state _ peer report relay.config.limits x
                      v.indexed v.sorted (pair_eq _ r)))
          ]
    ]

-- The records that the builder accepts are those of forwardable groups.
validate_each-unforwardable :
    (protocol : MembershipProtocol) (records : List MembershipRecord)
    → validate_each_build_record protocol records ≡ ok tt
    → unforwardable records ≡ none
unfolding validate_each_build_record validate_build_record unforwardable
validate_each-unforwardable protocol [] h = refl
validate_each-unforwardable protocol (r ∷ rest) h =
    let (_, first, others) = >>=-eq-ok (validate_build_record protocol r) _ h in
    let (_, _, first') = >>=-eq-ok (encode_record_kind r.kind) _ first in
    let found = validate_each-unforwardable protocol rest others in
    let forwardable : is_amt_forwardable_group r.group ≡ true = ground arith in
    rw (forwardable, found) refl

validate-unforwardable :
    (protocol : MembershipProtocol) (records : List MembershipRecord)
    → validate_build_records protocol records ≡ ok tt
    → unforwardable records ≡ none
unfolding validate_build_records
validate-unforwardable protocol records h =
    validate_each-unforwardable protocol records (ground arith)

build-unforwardable :
    (protocol : MembershipProtocol) (records : List MembershipRecord) (packet : List ℕ)
    → build_membership_report (record { protocol = protocol; records = records }) ≡ ok packet
    → unforwardable records ≡ none
unfolding build_membership_report build_igmpv3_membership_report build_mldv2_membership_report
build-unforwardable igmpv3 records packet h =
    validate-unforwardable igmpv3 records (>>=-eq-ok (validate_build_records igmpv3 records) _ h).1
build-unforwardable mldv2 records packet h =
    validate-unforwardable mldv2 records (>>=-eq-ok (validate_build_records mldv2 records) _ h).1

-- The relay's handling of an update whose MAC is valid and whose report parses.
handle_update-state :
    (host : Host) (relay : Relay) (now : ℕ) (peer : SocketAddr) (mac : ResponseMac) (nonce : ℕ)
    (update : List ℕ) (report : MembershipReport)
    → valid_response_mac host relay now mac peer.ip peer.port nonce ≡ true
    → (not (contains_endpoint relay.state peer) && refusing_new_endpoint relay peer.ip) ≡ false
    → parse_membership_report_with_limits update (parse_limits relay.config.limits) ≡ ok report
    → unforwardable report.records ≡ none
    → IsValid relay.state
    → (commit relay (handle_update host relay now peer mac nonce update)).0.state
      ≡ (apply_report_limited relay.state peer report relay.config.limits).0
unfolding handle_update
handle_update-state host relay now peer mac nonce update report valid admitted parsed forwardable
      v =
    rw (valid, admitted, parsed, handle_update, forwardable)
      (accept_report-state relay peer (length update) report v)

rotated-admits :
    (relay : Relay) (now : ℕ) (drawn : Option (List ℕ)) (peer : SocketAddr)
    → (let relay' = rotate_secret_if_due relay now drawn in
        (relay'.state ≡ relay.state)
        × (relay'.config.limits ≡ relay.config.limits)
        × (refusing_new_endpoint relay' peer.ip ≡ refusing_new_endpoint relay peer.ip))
unfolding rotate_secret_if_due refusing_new_endpoint
rotated-admits relay now drawn peer = (ground arith, ground arith, ground arith)

sent_update :
    (g : Gateway) (report : MembershipReport) (relay_addr : SocketAddr) (session : GatewaySession)
    (packet : List ℕ)
    → g.relay_endpoint ≡ some relay_addr
    → g.session ≡ some session
    → build_membership_report report ≡ ok packet
    → gateway_datagram (membership_update g report).1
      ≡ encode (Message.membership_update session.response_mac session.request_nonce packet)
unfolding membership_update
sent_update g report relay_addr session packet known held built =
    rw (membership_update, known, held, built) refl

handled_update :
    (host : Host) (now : ℕ) (drawn : Option (List ℕ)) (peer : SocketAddr) (relay : Relay)
    (mac : ResponseMac) (nonce : ℕ) (packet : List ℕ)
    → decode (encode (Message.membership_update mac nonce packet))
      ≡ ok (Message.membership_update mac nonce packet)
    → (let relay' = rotate_secret_if_due relay now drawn in
        (handle_datagram host relay now drawn peer
          (encode (Message.membership_update mac nonce packet))).0.state
        ≡ (commit relay' (handle_update host relay' now peer mac nonce packet)).0.state)
unfolding Relay.Handle.handle_message
handled_update host now drawn peer relay mac nonce packet e =
    ap (λ (r : Relay × Result Relay.RelayError Relay.RelayAction). r.0.state)
      (handle_datagram-decoded host relay now drawn peer _ _ e)

received_update :
    (host : Host) (now : ℕ) (drawn : Option (List ℕ)) (peer : SocketAddr) (relay : Relay)
    (mac : ResponseMac) (nonce : ℕ) (packet : List ℕ) (report : MembershipReport)
    → length mac ≡ 6
    → nonce < 2 ^ 32
    → mac ≡ response_mac host relay peer.ip peer.port nonce
    → IsValid relay.state
    → parse_membership_report_with_limits packet (parse_limits relay.config.limits) ≡ ok report
    → unforwardable report.records ≡ none
    → (not (contains_endpoint relay.state peer) && refusing_new_endpoint relay peer.ip) ≡ false
    → (handle_datagram host relay now drawn peer
        (encode (Message.membership_update mac nonce packet))).0.state
      ≡ (apply_report_limited relay.state peer report relay.config.limits).0
received_update host now drawn peer relay mac nonce packet report m fits own v parsed forwardable
      admitted =
    let relay' = rotate_secret_if_due relay now drawn in
    let (same, limits, refusing) = rotated-admits relay now drawn peer in
    let valid : valid_response_mac host relay' now mac peer.ip peer.port nonce ≡ true =
      rw own (rotate_secret_if_due-response_mac host relay now drawn peer.ip peer.port nonce) in
    let admitted' : (not (contains_endpoint relay'.state peer)
          && refusing_new_endpoint relay' peer.ip)
        ≡ false =
      rw (refusing, same) admitted in
    let parsed' : parse_membership_report_with_limits packet (parse_limits relay'.config.limits)
        ≡ ok report =
      rw limits parsed in
    let v' : IsValid relay'.state = rw same v in
    handled_update host now drawn peer relay mac nonce packet
      (update_round_trip mac nonce packet m fits)
    ∙ handle_update-state host relay' now peer mac nonce packet report valid admitted' parsed'
        forwardable v'
    ∙ cc (same, limits)

-- The report of a connected gateway reaches the relay whole: where the report can be built and is
-- within the relay's limits for parsing, and the relay admits the gateway or knows it, the relay's
-- membership state after the gateway's datagram is the one that the report leads to under the
-- limits. The secret may rotate in between. The state is valid, and addresses and the nonce fit.
pub membership_update-handle_datagram :
    (host : Host) (now : ℕ) (drawn : Option (List ℕ)) (peer : SocketAddr) (g : Gateway)
    (relay : Relay) (report : MembershipReport) (packet : List ℕ)
    (connected : IsConnected host peer g relay)
    → IsDigest host
    → connected.session.request_nonce < 2 ^ 32
    → IsValid relay.state
    → build_membership_report report ≡ ok packet
    → All (IsRecord (parse_limits relay.config.limits)) report.records
    → length report.records ≤ relay.config.limits.max_records_per_report
    → (not (contains_endpoint relay.state peer) && refusing_new_endpoint relay peer.ip) ≡ false
    → (handle_datagram host relay now drawn peer
        (gateway_datagram (membership_update g report).1)).0.state
      ≡ (apply_report_limited relay.state peer report relay.config.limits).0
membership_update-handle_datagram host now drawn peer g relay report packet connected digest fits v
      built records counted admitted =
    let session = connected.session in
    rw
      (sent_update g report connected.relay_addr session packet connected.known connected.held
        built)
      (received_update host now drawn peer relay session.response_mac session.request_nonce packet
        report
        (ap length connected.mac
          ∙ length-response_mac host relay peer.ip peer.port session.request_nonce digest)
        fits connected.mac v
        (build_membership_report-parses (parse_limits relay.config.limits) report packet built
          records counted)
        (build-unforwardable report.protocol report.records packet built) admitted)
