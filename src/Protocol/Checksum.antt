-- ===== src/Protocol/Checksum.antt =====
-- The checksum of src/network/protocol.c: a sum of bytes modulo 2^32, and the messages that
-- `message_create` seals with it.
use xsan.Base.{
  ℕ, zero, suc, ◌+◌, ◌%◌, ◌^◌, ◌≤◌, ◌<◌, ◌≡◌, ◌≢◌, refl, ap, ◌∙◌, true, false, Option, none, some,
  List, [], ◌∷◌, ◌++◌, arith, length, get_or, set, length-take, length-replicate, length-append,
  ==_iff,
}
use xsan.Protocol.{
  Header, Message, max_payload_size, header_serialize, header_deserialize, header_init,
  checksum_from, calculate_checksum, checksum_data, verify_checksum, seal, payload_of,
  message_create, message_create_with_data,
}
use xsan.Protocol.Bytes.{AllBytes}
use xsan.Protocol.RoundTrip.{IsHeader, deserialize-serialize}

abbrev pub sum : List ℕ → ℕ
sum [] = 0
sum (d ∷ ds) = d + sum ds

checksum_from-sum : (s : ℕ) (ds : List ℕ) → s < 2 ^ 32 → checksum_from s ds ≡ (s + sum ds) % 2 ^ 32
unfolding checksum_from
checksum_from-sum s [] h = omega arith
checksum_from-sum s (d ∷ ds) h =
    omega (arith, checksum_from-sum ((s + d) % 2 ^ 32) ds (omega arith))

pub calculate_checksum-sum : (ds : List ℕ) → calculate_checksum ds ≡ sum ds % 2 ^ 32
unfolding calculate_checksum
calculate_checksum-sum ds =
    checksum_from-sum 0 ds (omega arith) ∙ ap (λ n. n % 2 ^ 32) (omega arith)

sum-append : (xs ys : List ℕ) → sum (xs ++ ys) ≡ sum xs + sum ys
sum-append [] ys = omega arith
sum-append (x ∷ xs) ys = omega (arith, sum-append xs ys)

sum-set : (xs : List ℕ) (i v : ℕ) → i < length xs → sum (set xs i v) + get_or xs i 0 ≡ sum xs + v
sum-set [] i v h = absurd (omega arith)
sum-set (x ∷ xs) zero v h = omega arith
sum-set (x ∷ xs) (suc i) v h = omega (arith, sum-set xs i v (omega arith))

-- A sealed message passes the check of its own checksum.
pub seal_verifies :
    (h : Header) (p : List ℕ) → verify_checksum (seal h p).header (seal h p).payload true ≡ true
unfolding seal verify_checksum checksum_data
seal_verifies h p = ground (
  arith,
  ==_iff (calculate_checksum (checksum_data h p)) (calculate_checksum (checksum_data h p)),
)

-- A change of one payload byte of a sealed message is detected, unless its checksum is 0, which
-- the protocol takes for a checksum that is not used.
pub tampered_payload :
    (h : Header) (p : List ℕ) (i v : ℕ)
    → AllBytes p
    → i < length p
    → v < 256
    → v ≢ get_or p i 0
    → (seal h p).header.checksum ≢ 0
    → verify_checksum (seal h p).header (set p i v) true ≡ false
unfolding seal verify_checksum checksum_data
tampered_payload h p i v bytes lt small differs used =
    let before : calculate_checksum (checksum_data h p) ≡ (sum head + sum p) % 2 ^ 32 =
      calculate_checksum-sum (checksum_data h p) ∙ ap (λ n. n % 2 ^ 32) (sum-append head p) in
    let after : calculate_checksum (checksum_data h (set p i v))
        ≡ (sum head + sum (set p i v)) % 2 ^ 32 =
      calculate_checksum-sum (checksum_data h (set p i v))
      ∙ ap (λ n. n % 2 ^ 32) (sum-append head (set p i v)) in
    let changed = sum-set p i v lt in
    let differ : calculate_checksum (checksum_data h (set p i v))
        ≢ calculate_checksum (checksum_data h p) =
      omega (arith, bytes i) in
    ground arith
  where
    head : List ℕ
    head = header_serialize (record h { checksum = 0 })

calculate_checksum-lt : (ds : List ℕ) → calculate_checksum ds < 2 ^ 32
calculate_checksum-lt ds = omega (arith, calculate_checksum-sum ds)

-- What a receiver needs of a message.
pub record IsWire (m : Message) : Type 0 where
  pub header : header_deserialize (header_serialize m.header ++ m.payload) ≡ some m.header
  pub checked : verify_checksum m.header m.payload true ≡ true
  pub counted : length m.payload ≡ m.header.payload_length

pub seal-IsWire :
    (ty tid n : ℕ) (p : List ℕ)
    → tid < 2 ^ 64
    → n ≤ max_payload_size
    → length p ≡ n
    → IsWire (seal (header_init ty n tid) p)
unfolding seal header_init
seal-IsWire ty tid n p small fits e = record {
  header = deserialize-serialize (seal (header_init ty n tid) p).header ranges p ∙ ground arith;
  checked = seal_verifies (header_init ty n tid) p;
  counted = e;
}
  where
    ranges : IsHeader (seal (header_init ty n tid) p).header
    ranges = record {
      magic = omega arith;
      type = omega arith;
      version = omega arith;
      payload_length = omega arith;
      transaction_id = small;
      checksum = calculate_checksum-lt (checksum_data (header_init ty n tid) p);
    }

-- The caller's payload holds the bytes that it announces.
abbrev pub Holds : Option (List ℕ) → ℕ → Type 0
Holds none n = Unit
Holds (some ds) n = n ≤ length ds

length-payload_of : (pd : Option (List ℕ)) (n : ℕ) → Holds pd n → length (payload_of pd n) ≡ n
unfolding payload_of
length-payload_of none n h = length-replicate n 0
length-payload_of (some ds) n h = omega (arith, length-take n ds)

-- `message_create` with enough memory, from a payload of at most 16 MB that is as long as
-- announced and a 64-bit transaction id, creates a message that a receiver accepts: its serialised
-- header, followed by the payload, deserialises to that header, the checksum is verified, and the
-- payload is as long as the header says.
pub message_create_lem :
    (ty tid n : ℕ) (pd : Option (List ℕ))
    → tid < 2 ^ 64
    → Holds pd n
    → n ≤ max_payload_size
    → (m : Message) × (message_create ty tid pd n true ≡ some m) × IsWire m
unfolding message_create
message_create_lem ty tid n pd small h fits = (
  seal (header_init ty n tid) (payload_of pd n),
  ground arith,
  seal-IsWire ty tid n (payload_of pd n) small fits (length-payload_of pd n h),
)

-- `message_create_with_data` with enough memory, from parts of at most 16 MB together and a 64-bit
-- transaction id, creates a message that a receiver accepts and that carries the structured part
-- followed by the data.
pub message_create_with_data_lem :
    (ty tid : ℕ) (s a : List ℕ)
    → tid < 2 ^ 64
    → length s + length a ≤ max_payload_size
    → (m : Message) × (message_create_with_data ty tid s a true ≡ some m)
      × IsWire m
      × (m.payload ≡ s ++ a)
unfolding message_create_with_data seal
message_create_with_data_lem ty tid s a small fits = (
  seal (header_init ty (length s + length a) tid) (s ++ a),
  ground arith,
  seal-IsWire ty tid (length s + length a) (s ++ a) small fits (length-append s a),
  refl,
)
