-- ===== src/Volume/Handler.antt =====
-- The requests that a node sends to the replicas of a volume, and what the replicas do with them:
-- the messages that xsan_volume_write_async and _xsan_try_read_from_next_replica make and
-- xsan_volume_manager_handle_replica_write_req and _read_req in src/storage/volume_manager.c. The
-- layout of a packed structure in memory is the compiler's: it is an argument. The answer to a
-- request whose local I/O was started is sent by a function that no source file defines.
use xsan.Base.{
  ℕ, ◌+◌, ◌-◌, ◌/◌, ◌%◌, ◌^◌, ◌<◌, ◌≡◌, Bool, true, false, Option, none, some, List, [], ◌++◌, ltb,
  ◌==◌, if◌then◌else◌, not, ◌||◌, length, take, drop,
}
use xsan.Status.{Status}
use xsan.Protocol.{Message, message_create, message_create_with_data}
use xsan.Volume.{Volume}
use xsan.Volume.Mapping.{Outside, Submission, submit_single_io, mul_size}

abbrev pub replica_write_req : ℕ
replica_write_req = 600

abbrev pub replica_read_req : ℕ
replica_read_req = 602

-- `xsan_replica_write_req_payload_t` and `xsan_replica_read_req_payload_t`, which have the same
-- fields.
pub record BlockRequest : Type 0 where
  pub volume_id : ℕ
  pub block_lba_on_volume : ℕ
  pub num_blocks : ℕ

-- The size of both: 16, 8 and 4 bytes, packed.
abbrev pub request_size : ℕ
request_size = 16 + 8 + 4

-- How a request stands in memory: as many bytes as its size, from which it can be read.
pub record Layout : Type 0 where
  pub bytes_of : BlockRequest → List ℕ
  pub request_of : List ℕ → BlockRequest
  pub bytes_length : (r : BlockRequest) → length (bytes_of r) ≡ request_size
  pub read_back :
      (r : BlockRequest) (rest : List ℕ)
      → r.volume_id < 2 ^ 128
      → r.block_lba_on_volume < 2 ^ 64
      → r.num_blocks < 2 ^ 32
      → request_of (bytes_of r ++ rest) ≡ r

-- The request for the bytes of a volume with the given block size; the number of blocks is a
-- `uint32_t`.
abbrev pub block_request : (volume_id block_size offset len : ℕ) → BlockRequest
block_request vid bs offset len = record {
  volume_id = vid;
  block_lba_on_volume = offset / bs;
  num_blocks = (len / bs) % 2 ^ 32;
}

-- What a handler does: it answers with an error and the block address of the request, if it got
-- that far, or it starts a local read or write of the bytes of a volume.
pub data Handled : Type 0 where
  refused : Status → (block_lba : ℕ) → Handled
  started : (volume_id offset len : ℕ) → (bytes : List ℕ) → Submission → Handled

module _ (layout : Layout) where
  -- The message that carries a write to a replica; the length goes through a `uint32_t`.
  unfoldable pub write_message :
      (volume_id block_size offset : ℕ)
      → (user_buf : List ℕ) → (tid : ℕ) → (malloc_ok : Bool) → Option Message
  write_message vid bs offset user_buf tid malloc_ok =
      message_create_with_data replica_write_req tid
        (layout.bytes_of (block_request vid bs offset (length user_buf)))
        (take (length user_buf % 2 ^ 32) user_buf) malloc_ok

  -- The message that asks a replica for the bytes of a volume.
  unfoldable pub read_message :
      (volume_id block_size offset len tid : ℕ) → (malloc_ok : Bool) → Option Message
  read_message vid bs offset len tid malloc_ok =
      message_create replica_read_req tid (some (layout.bytes_of (block_request vid bs offset len)))
        request_size malloc_ok

  -- `volume` is what xsan_volume_get_by_id finds, `malloc_ok`: the handler's context can be
  -- allocated. From there on, with the request read from the payload.
  unfoldable pub write_blocks :
      Outside → (malloc_ok : Bool) → Message → BlockRequest → Option Volume → Handled
  write_blocks o malloc_ok m req none = refused Status.not_found req.block_lba_on_volume
  write_blocks o malloc_ok m req (some v) =
      if v.block_size_bytes == 0 || req.num_blocks == 0
      then refused Status.invalid_param req.block_lba_on_volume
      else if not
          (m.header.payload_length - request_size == mul_size req.num_blocks v.block_size_bytes)
      then refused Status.invalid_param_size req.block_lba_on_volume
      else if not malloc_ok
      then refused Status.out_of_memory req.block_lba_on_volume
      else started req.volume_id (mul_size req.block_lba_on_volume v.block_size_bytes)
          (m.header.payload_length - request_size) (drop request_size m.payload)
          (submit_single_io o (some v) (mul_size req.block_lba_on_volume v.block_size_bytes)
            (m.header.payload_length - request_size) false)

  -- `xsan_volume_manager_handle_replica_write_req`, its pointers not NULL.
  unfoldable pub handle_write_req :
      (get_volume : ℕ → Option Volume) → Outside → (malloc_ok : Bool) → Message → Handled
  unfolding write_blocks
  handle_write_req get_volume o malloc_ok m =
      if not (m.header.type == replica_write_req)
      then refused Status.invalid_msg_type 0
      else if ltb m.header.payload_length request_size
      then refused Status.protocol_generic 0
      else write_blocks o malloc_ok m (layout.request_of m.payload)
          (get_volume (layout.request_of m.payload).volume_id)

  -- `dma_ok`: the buffer for the bytes can be allocated.
  unfoldable pub read_blocks :
      Outside → (malloc_ok dma_ok : Bool) → BlockRequest → Option Volume → Handled
  read_blocks o malloc_ok dma_ok req none = refused Status.not_found req.block_lba_on_volume
  read_blocks o malloc_ok dma_ok req (some v) =
      if v.block_size_bytes == 0 || req.num_blocks == 0
      then refused Status.invalid_param req.block_lba_on_volume
      else if not malloc_ok || not dma_ok
      then refused Status.out_of_memory req.block_lba_on_volume
      else started req.volume_id (mul_size req.block_lba_on_volume v.block_size_bytes)
          (mul_size req.num_blocks v.block_size_bytes) []
          (submit_single_io o (some v) (mul_size req.block_lba_on_volume v.block_size_bytes)
            (mul_size req.num_blocks v.block_size_bytes) true)

  -- `xsan_volume_manager_handle_replica_read_req`, its pointers not NULL.
  unfoldable pub handle_read_req :
      (get_volume : ℕ → Option Volume) → Outside → (malloc_ok dma_ok : Bool) → Message → Handled
  unfolding read_blocks
  handle_read_req get_volume o malloc_ok dma_ok m =
      if not (m.header.type == replica_read_req)
      then refused Status.invalid_msg_type 0
      else if not (m.header.payload_length == request_size)
      then refused Status.protocol_generic 0
      else read_blocks o malloc_ok dma_ok (layout.request_of m.payload)
          (get_volume (layout.request_of m.payload).volume_id)
