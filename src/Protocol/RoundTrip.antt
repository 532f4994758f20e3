-- ===== src/Protocol/RoundTrip.antt =====
-- Serialising and deserialising the message header of src/network/protocol.c.
use xsan.Base.{
  ℕ, zero, suc, drop, ap, ap₂, sym, ◌∙◌, ◌+◌, ◌*◌, ◌/◌, ◌%◌, ◌^◌, ◌≤◌, ◌<◌, ◌≡◌, refl, none, some,
  List, [], ◌∷◌, ◌++◌, arith, length, get_or, ◌==◌, if◌then◌else◌, ◌&&◌, leb, take,
}
use mathlib.Core.Path.{subst}
use xsan.Protocol.{
  Header, protocol_magic, max_payload_size, header_size, header_serialize, header_deserialize,
  bytes_16, bytes_32, read_16, read_32,
}
use xsan.Protocol.Bytes.{join_16, join_32, join_64, split_16, split_32, read_32-lt, AllBytes}

-- The ranges of the fields' C types.
pub record IsHeader (h : Header) : Type 0 where
  pub magic : h.magic < 2 ^ 32
  pub type : h.type < 2 ^ 16
  pub version : h.version < 2 ^ 16
  pub payload_length : h.payload_length < 2 ^ 32
  pub transaction_id : h.transaction_id < 2 ^ 64
  pub checksum : h.checksum < 2 ^ 32

pub length-header_serialize : (h : Header) → length (header_serialize h) ≡ header_size
unfolding header_serialize
length-header_serialize h = refl

module _ (h : Header) (v : IsHeader h) (rest : List ℕ) where
  read_magic : read_32 (header_serialize h ++ rest) 0 ≡ h.magic
  unfolding header_serialize
  read_magic = join_32 h.magic v.magic

  read_payload_length : read_32 (header_serialize h ++ rest) 8 ≡ h.payload_length
  unfolding header_serialize
  read_payload_length = join_32 h.payload_length v.payload_length

  -- A serialised header deserialises to itself, whatever follows it in the buffer, exactly if its
  -- magic number is right and its payload is not too large; otherwise it is refused.
  pub deserialize-serialize : header_deserialize (header_serialize h ++ rest) ≡ (
      if (h.magic == protocol_magic) && leb h.payload_length max_payload_size then some h else none)
  unfolding header_serialize header_deserialize
  deserialize-serialize =
      rw
        (
          join_32 h.magic v.magic,
          join_32 h.payload_length v.payload_length,
          join_16 h.type v.type,
          join_16 h.version v.version,
          join_32 h.checksum v.checksum,
          join_32 (h.transaction_id / 2 ^ 32) (omega (arith, v.transaction_id)),
          join_32 (h.transaction_id % 2 ^ 32) (omega arith),
          join_64 h.transaction_id v.transaction_id,
        )
        (ground arith)

take_step :
    (b : List ℕ) (n i : ℕ)
    → i < length b
    → take (suc n) (drop i b) ≡ get_or b i 0 ∷ take n (drop (suc i) b)
take_step [] n i h = absurd (omega arith)
take_step (x ∷ b) n zero h = refl
take_step (x ∷ b) n (suc i) h = take_step b n i (omega arith)

abbrev nth_bytes : List ℕ → (n i : ℕ) → List ℕ
nth_bytes b zero i = []
nth_bytes b (suc n) i = get_or b i 0 ∷ nth_bytes b n (suc i)

take-nth_bytes : (b : List ℕ) (n i : ℕ) → n + i ≤ length b → take n (drop i b) ≡ nth_bytes b n i
take-nth_bytes b zero i h = refl
take-nth_bytes b (suc n) i h =
    take_step b n i (omega arith)
    ∙ ap (λ r. get_or b i 0 ∷ r) (take-nth_bytes b n (suc i) (omega arith))

-- The header that the fields of a buffer make up.
abbrev fields : List ℕ → Header
fields b = record {
  magic = read_32 b 0;
  type = read_16 b 4;
  version = read_16 b 6;
  payload_length = read_32 b 8;
  transaction_id = read_32 b 12 * 2 ^ 32 + read_32 b (12 + 4);
  checksum = read_32 b 20;
}

deserialize-fields :
    (b : List ℕ) (h : Header)
    → header_deserialize b ≡ some h
    → (fields b ≡ h) × (h.magic ≡ protocol_magic) × (h.payload_length ≤ max_payload_size)
unfolding header_deserialize
deserialize-fields b h e = ground arith

module _ (b : List ℕ) (bytes : AllBytes b) where
  quad :
      (i : ℕ)
      → bytes_32 (read_32 b i)
        ≡ get_or b i 0 ∷ get_or b (i + 1) 0 ∷ get_or b (i + 2) 0 ∷ get_or b (i + 2 + 1) 0 ∷ []
  quad i = split_32 _ _ _ _ (bytes i) (bytes (i + 1)) (bytes (i + 2)) (bytes (i + 2 + 1))

  pair : (i : ℕ) → bytes_16 (read_16 b i) ≡ get_or b i 0 ∷ get_or b (i + 1) 0 ∷ []
  pair i = split_16 _ _ (bytes i) (bytes (i + 1))

  high : (read_32 b 12 * 2 ^ 32 + read_32 b (12 + 4)) / 2 ^ 32 ≡ read_32 b 12
  high = omega (arith, read_32-lt b (12 + 4) bytes)

  low : (read_32 b 12 * 2 ^ 32 + read_32 b (12 + 4)) % 2 ^ 32 ≡ read_32 b (12 + 4)
  low = omega (arith, read_32-lt b (12 + 4) bytes)

  serialize-fields : header_serialize (fields b) ≡ nth_bytes b header_size 0
  unfolding header_serialize
  serialize-fields = ap₂ ◌++◌ (quad 0) (
      ap₂ ◌++◌ (pair 4) (
        ap₂ ◌++◌ (pair 6) (
          ap₂ ◌++◌ (quad 8) (
            ap₂ ◌++◌ (ap₂ ◌++◌ (ap bytes_32 high ∙ quad 12) (ap bytes_32 low ∙ quad 16))
              (quad 20)))))

  fields-IsHeader : IsHeader (fields b)
  fields-IsHeader = record {
    magic = read_32-lt b 0 bytes;
    type = omega (arith, bytes 4, bytes 5);
    version = omega (arith, bytes 6, bytes 7);
    payload_length = read_32-lt b 8 bytes;
    transaction_id = omega (arith, read_32-lt b 12 bytes, read_32-lt b 16 bytes);
    checksum = read_32-lt b 20 bytes;
  }

-- A buffer of at least 24 bytes that deserialises to a header starts with the serialisation of
-- that header, whose fields are in their ranges, with the protocol's magic number and a payload
-- length within the limit.
pub serialize-deserialize :
    (b : List ℕ) (h : Header)
    → AllBytes b
    → header_size ≤ length b
    → header_deserialize b ≡ some h
    → (header_serialize h ≡ take header_size b)
      × IsHeader h
      × (h.magic ≡ protocol_magic)
      × (h.payload_length ≤ max_payload_size)
serialize-deserialize b h bytes long e =
    let (same, magic, fits) = deserialize-fields b h e in
    (
      ap header_serialize (sym same)
          ∙ (serialize-fields b bytes ∙ sym (take-nth_bytes b header_size 0 (omega arith))),
      subst IsHeader same (fields-IsHeader b bytes),
      magic,
      fits,
    )

get_or-append : (xs ys : List ℕ) (i : ℕ) → i < length xs → get_or (xs ++ ys) i 0 ≡ get_or xs i 0
get_or-append [] ys i h = absurd (omega arith)
get_or-append (x ∷ xs) ys zero h = refl
get_or-append (x ∷ xs) ys (suc i) h = get_or-append xs ys i (omega arith)

-- Bytes behind the first 24 do not change what a buffer deserialises to.
pub deserialize-append :
    (b ys : List ℕ) → header_size ≤ length b → header_deserialize (b ++ ys) ≡ header_deserialize b
unfolding header_deserialize
deserialize-append b ys h = rw (
  get_or-append b ys 0 (omega arith),
  get_or-append b ys 1 (omega arith),
  get_or-append b ys 2 (omega arith),
  get_or-append b ys 3 (omega arith),
  get_or-append b ys 4 (omega arith),
  get_or-append b ys 5 (omega arith),
  get_or-append b ys 6 (omega arith),
  get_or-append b ys 7 (omega arith),
  get_or-append b ys 8 (omega arith),
  get_or-append b ys 9 (omega arith),
  get_or-append b ys 10 (omega arith),
  get_or-append b ys 11 (omega arith),
  get_or-append b ys 12 (omega arith),
  get_or-append b ys 13 (omega arith),
  get_or-append b ys 14 (omega arith),
  get_or-append b ys 15 (omega arith),
  get_or-append b ys 16 (omega arith),
  get_or-append b ys 17 (omega arith),
  get_or-append b ys 18 (omega arith),
  get_or-append b ys 19 (omega arith),
  get_or-append b ys 20 (omega arith),
  get_or-append b ys 21 (omega arith),
  get_or-append b ys 22 (omega arith),
  get_or-append b ys 23 (omega arith),
)
