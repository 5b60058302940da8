-- ===== src/Protocol/Tests.antt =====
-- Messages and datagrams at which the theorems on the codec apply.
use amt.Prelude.{ℕ, ◌≡◌, refl, arith, true, some, List, [], ◌∷◌, ok, err, length, All}
use amt.Prelude.Bytes.{IsByte}
use amt.Protocol.{Message, GatewayEndpoint, IsMessage, DecodeError, truncated, MessageType}
use amt.Protocol.Codec.{encode, decode, encoded_len}
use amt.Protocol.RoundTrip.{decode-encode}
use amt.Protocol.Decoded.{decode-IsMessage, decode-Fault, Fault}

abbrev gateway : GatewayEndpoint
gateway = record {
  port = 2268;
  address = 0 ∷ 0 ∷ 0 ∷ 0 ∷ 0 ∷ 0 ∷ 0 ∷ 0 ∷ 0 ∷ 0 ∷ 0 ∷ 0 ∷ 192 ∷ 0 ∷ 2 ∷ 1 ∷ [];
}

abbrev mac : List ℕ
mac = 1 ∷ 2 ∷ 3 ∷ 4 ∷ 5 ∷ 6 ∷ []

abbrev query : Message
query = Message.membership_query mac 99 true (some gateway) (0x11 ∷ 0x22 ∷ [])

query-IsMessage : IsMessage query
query-IsMessage = ground arith

decode-encode_example : decode (encode query) ≡ ok query
decode-encode_example = decode-encode query query-IsMessage

abbrev discovery : List ℕ
discovery = 1 ∷ 0 ∷ 0 ∷ 0 ∷ 0 ∷ 0 ∷ 0 ∷ 5 ∷ []

discovery_bytes : All IsByte discovery
discovery_bytes = ground arith

decodes_discovery : decode discovery ≡ ok (Message.relay_discovery 5)
unfolding decode
decodes_discovery = refl

decode-IsMessage_example :
    IsMessage (Message.relay_discovery 5)
    × (encoded_len (Message.relay_discovery 5) ≡ length discovery)
decode-IsMessage_example =
    decode-IsMessage discovery (Message.relay_discovery 5) discovery_bytes decodes_discovery

abbrev short : DecodeError
short = truncated (some MessageType.relay_discovery) 8 3

refuses_short : decode (1 ∷ 0 ∷ 0 ∷ []) ≡ err short
unfolding decode
refuses_short = refl

short_bytes : All IsByte (1 ∷ 0 ∷ 0 ∷ [])
short_bytes = ground arith

decode-Fault_example : Fault (1 ∷ 0 ∷ 0 ∷ []) short
decode-Fault_example = decode-Fault (1 ∷ 0 ∷ 0 ∷ []) short short_bytes refuses_short
