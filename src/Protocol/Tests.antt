-- ===== src/Protocol/Tests.antt =====
-- Runs of src/network/protocol.c on concrete inputs.
use xsan.Base.{ℕ, ◌≡◌, refl, true, false, some, List, [], ◌∷◌, ◌++◌, arith}
use xsan.Protocol.{Header, header_init, header_serialize, header_deserialize, verify_checksum, seal}
use xsan.Protocol.Bytes.{all_bytes-AllBytes}
use xsan.Protocol.RoundTrip.{IsHeader, deserialize-serialize}
use xsan.Protocol.Checksum.{tampered_payload}

abbrev read_request : Header
read_request = record {
  magic = 0x5853414E;
  type = 602;
  version = 1;
  payload_length = 3;
  transaction_id = 0x1_0000_0007;
  checksum = 0x1234;
}

abbrev wire : List ℕ
wire =
    0x58 ∷ 0x53 ∷ 0x41 ∷ 0x4E ∷ 0x02 ∷ 0x5A ∷ 0 ∷ 1 ∷ 0 ∷ 0 ∷ 0 ∷ 3 ∷ 0 ∷ 0 ∷ 0 ∷ 1 ∷ 0 ∷ 0 ∷ 0 ∷ 7
    ∷ 0 ∷ 0 ∷ 0x12 ∷ 0x34 ∷ []

wire_bytes : header_serialize read_request ≡ wire
unfolding header_serialize
wire_bytes = refl

read_request-IsHeader : IsHeader read_request
read_request-IsHeader = omega arith

deserialize-serialize_example :
    header_deserialize (header_serialize read_request ++ (9 ∷ [])) ≡ some read_request
deserialize-serialize_example = deserialize-serialize read_request read_request-IsHeader (9 ∷ [])

abbrev payload : List ℕ
payload = 1 ∷ 2 ∷ 250 ∷ []

-- The checksum of the header of a message of three bytes, and of its payload.
sealed_checksum : (seal (header_init 602 3 7) payload).header.checksum ≡ 670
unfolding seal header_init
sealed_checksum = refl

tampered_payload_example :
    verify_checksum (seal (header_init 602 3 7) payload).header (1 ∷ 3 ∷ 250 ∷ []) true ≡ false
unfolding seal header_init
tampered_payload_example =
    tampered_payload (header_init 602 3 7) payload 1 3 (all_bytes-AllBytes payload refl)
      (omega arith) (omega arith) (omega arith) (omega arith)
