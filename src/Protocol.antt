-- ===== src/Protocol.antt =====
-- src/network/protocol.c and the header of src/include/xsan_protocol.h: the 24-byte message
-- header in network byte order, the checksum, and the creation of messages. Bytes and the fields
-- of a header are numbers; `IsHeader` states the ranges of the fields. A buffer is the list of
-- its bytes. The results of allocations are arguments.
pub mod Bytes
pub mod RoundTrip
pub mod Checksum
mod Tests
use xsan.Base.{
  ℕ, zero, suc, ◌+◌, ◌-◌, ◌*◌, ◌/◌, ◌%◌, ◌^◌, ◌<◌, Bool, true, false, Option, none, some, List, [],
  ◌∷◌, ◌++◌, get_or, length, take, drop, replicate, ltb, ◌==◌, if◌then◌else◌, not, ◌&&◌,
}
use xsan.Status.{Status}

-- `xsan_message_header_t`
pub record Header : Type 0 where
  pub magic : ℕ
  pub type : ℕ
  pub version : ℕ
  pub payload_length : ℕ
  pub transaction_id : ℕ
  pub checksum : ℕ

abbrev pub protocol_magic : ℕ
protocol_magic = 0x5853414E

abbrev pub protocol_version : ℕ
protocol_version = 1

abbrev pub max_payload_size : ℕ
max_payload_size = 16 * 1024 * 1024

-- `sizeof(xsan_message_header_t)`, a packed structure
abbrev pub header_size : ℕ
header_size = 4 + 2 + 2 + 4 + 8 + 4

-- The enum value is cast to `uint16_t`; the other fields have their own type.
unfoldable pub header_init : (type payload_length transaction_id : ℕ) → Header
header_init type payload_length transaction_id = record {
  magic = protocol_magic;
  type = type % 2 ^ 16;
  version = protocol_version;
  payload_length = payload_length;
  transaction_id = transaction_id;
  checksum = 0;
}

-- The bytes of `htons`, `htonl` and `htonll` of a number: the most significant byte first.
abbrev pub byte_of : (number shift : ℕ) → ℕ
byte_of n s = n / 2 ^ s % 256

abbrev pub bytes_16 : ℕ → List ℕ
bytes_16 n = byte_of n 8 ∷ byte_of n 0 ∷ []

abbrev pub bytes_32 : ℕ → List ℕ
bytes_32 n = byte_of n 24 ∷ byte_of n 16 ∷ byte_of n 8 ∷ byte_of n 0 ∷ []

-- `local_htonll` swaps the halves and converts each by `htonl`.
pub bytes_64 : ℕ → List ℕ
bytes_64 n = bytes_32 (n / 2 ^ 32) ++ bytes_32 (n % 2 ^ 32)

unfoldable pub header_serialize : Header → List ℕ
unfolding bytes_64
header_serialize h =
    bytes_32 h.magic
    ++ (bytes_16 h.type
        ++ (bytes_16 h.version
            ++ (bytes_32 h.payload_length ++ (bytes_64 h.transaction_id ++ bytes_32 h.checksum))))

-- The number that `ntohs` and `ntohl` read from the bytes at an offset of a buffer.
abbrev pub read_16 : List ℕ → ℕ → ℕ
read_16 b i = get_or b i 0 * 256 + get_or b (i + 1) 0

abbrev pub read_32 : List ℕ → ℕ → ℕ
read_32 b i = read_16 b i * 2 ^ 16 + read_16 b (i + 2)

pub read_64 : List ℕ → ℕ → ℕ
read_64 b i = read_32 b i * 2 ^ 32 + read_32 b (i + 4)

-- The header, or none for XSAN_ERROR_INVALID_PARAM: a wrong magic number or a payload too large.
-- The buffer holds at least 24 bytes. The version is read and not checked.
unfoldable pub header_deserialize : List ℕ → Option Header
unfolding read_64
header_deserialize b =
    if not (read_32 b 0 == protocol_magic)
    then none
    else if ltb max_payload_size (read_32 b 8)
    then none
    else some (record {
      magic = read_32 b 0;
      type = read_16 b 4;
      version = read_16 b 6;
      payload_length = read_32 b 8;
      transaction_id = read_64 b 12;
      checksum = read_32 b 20;
    })

-- The loop of `calculate_checksum`.
unfoldable pub checksum_from : ℕ → List ℕ → ℕ
checksum_from sum [] = sum
checksum_from sum (d ∷ ds) = checksum_from ((sum + d) % 2 ^ 32) ds

unfoldable pub calculate_checksum : List ℕ → ℕ
unfolding checksum_from
calculate_checksum ds = checksum_from 0 ds

-- A message: the payload is a list as long as `payload_length` says, [] for NULL.
pub record Message : Type 0 where
  pub header : Header
  pub payload : List ℕ

-- The buffer that the checksum runs over: the header with its checksum field zero, then the
-- payload.
unfoldable pub checksum_data : Header → List ℕ → List ℕ
unfolding header_serialize
checksum_data h payload = header_serialize (record h { checksum = 0 }) ++ payload

-- `malloc_ok`: the buffer for the checksum can be allocated.
unfoldable pub verify_checksum : Header → List ℕ → (malloc_ok : Bool) → Bool
unfolding calculate_checksum checksum_data
verify_checksum h payload malloc_ok =
    if h.checksum == 0
    then true
    else malloc_ok && (calculate_checksum (checksum_data h payload) == h.checksum)

-- The last step of both ways to create a message: the header is complete but for its checksum.
unfoldable pub seal : Header → List ℕ → Message
unfolding calculate_checksum checksum_data
seal h payload = record {
  header = record h { checksum = calculate_checksum (checksum_data h payload) };
  payload = payload;
}

-- The payload that `create` stores: a NULL `payload_data` gives zero bytes.
unfoldable pub payload_of : Option (List ℕ) → ℕ → List ℕ
payload_of none n = replicate n 0
payload_of (some ds) n = take n ds

-- `payload_data` holds at least `payload_length` bytes or is NULL; `malloc_ok` says whether all
-- the allocations succeed.
unfoldable pub message_create :
    (type transaction_id : ℕ)
    → Option (List ℕ)
    → (payload_length : ℕ) → (malloc_ok : Bool) → Option Message
unfolding header_init seal payload_of
message_create type tid payload_data n malloc_ok =
    if ltb max_payload_size n
    then none
    else if not malloc_ok
    then none
    else some (seal (header_init type n tid) (payload_of payload_data n))

-- The structured part and the data are not NULL where their lengths are not 0. The total is a
-- `uint64_t`, so it does not wrap.
unfoldable pub message_create_with_data :
    (type transaction_id : ℕ) (structured additional : List ℕ) → (malloc_ok : Bool) → Option Message
unfolding header_init seal
message_create_with_data type tid structured additional malloc_ok =
    if ltb max_payload_size (length structured + length additional)
    then none
    else if not malloc_ok
    then none
    else some (
        seal (header_init type (length structured + length additional) tid)
          (structured ++ additional))
