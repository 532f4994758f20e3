-- ===== src/IoRequest.antt =====
-- src/io/xsan_io.c: requests to a block device. SPDK and the allocations are arguments, what the code
-- asks of them and of the caller is a list of effects.
use xsan.Base.{
  ℕ, ◌+◌, ◌-◌, ◌*◌, ◌/◌, ◌%◌, ◌^◌, Bool, true, false, Option, none, some, List, [], ◌∷◌, ◌++◌, ◌==◌,
  if◌then◌else◌, not, ◌&&◌, ◌||◌, size_mod, take, drop,
}
use xsan.Status.{Status}
pub mod Balance
pub mod Served
pub mod Tests

-- `xsan_io_request_t`. A pointer is whether it is set, a buffer its bytes.
pub record Request : Type 0 where
  pub bdev_named : Bool
  pub is_read_op : Bool
  pub user_buffer : Option (List ℕ)
  pub offset_bytes : ℕ
  pub length_bytes : ℕ
  pub offset_blocks : ℕ
  pub num_blocks : ℕ
  pub block_size_bytes : ℕ
  pub user_cb : Bool
  pub dma_buffer : Option (List ℕ)
  pub dma_buffer_is_internal : Bool
  pub bdev_desc : Bool
  pub io_channel : Bool
  pub own_spdk_resources : Bool
  pub status : Status

abbrev pub made : (user_buffer : Option (List ℕ)) (offset len bs : ℕ) (is_read : Bool) → Request
made buffer offset len bs is_read = record {
  bdev_named = false;
  is_read_op = is_read;
  user_buffer = buffer;
  offset_bytes = offset;
  length_bytes = len;
  offset_blocks = offset / bs;
  num_blocks = (len / bs) % 2 ^ 32;
  block_size_bytes = bs;
  user_cb = true;
  dma_buffer = none;
  dma_buffer_is_internal = false;
  bdev_desc = false;
  io_channel = false;
  own_spdk_resources = false;
  status = Status.ok;
}

unfoldable pub request_create :
    (memory : Bool) (user_buffer : Option (List ℕ)) (offset len bs : ℕ) (is_read user_cb : Bool)
    → Option Request
request_create memory none offset len bs is_read user_cb = none
request_create memory (some buffer) offset len bs is_read user_cb =
    if len == 0 || (bs == 0 || not user_cb)
    then none
    else if not (offset % bs == 0) || not (len % bs == 0)
    then none
    else if memory
    then some (made (some buffer) offset len bs is_read)
    else none

pub data Effect : Type 0 where
  open_desc : Effect
  close_desc : Effect
  get_channel : Effect
  put_channel : Effect
  dma_malloc : (size : ℕ) → Effect
  dma_free : Effect
  device_read : (offset_blocks num_blocks : ℕ) → Effect
  device_write : (offset_blocks num_blocks : ℕ) (bytes : List ℕ) → Effect
  call_back : Status → Effect
  free_request : Effect

-- What spdk_bdev_read_blocks or spdk_bdev_write_blocks returns.
pub data Queued : Type 0 where
  queued : Queued
  no_memory_left : Queued
  refused : Queued

-- What the code outside answers to one submission; `fresh_dma` is the content of a new DMA buffer.
pub record Device : Type 0 where
  pub on_spdk_thread : Bool
  pub found : Bool
  pub open_error : Option Status
  pub has_channel : Bool
  pub block_size : ℕ
  pub fresh_dma : Option (List ℕ)
  pub answer : Queued

-- The status returned, the request unless it was freed, and the effects.
pub record Outcome : Type 0 where
  pub returned : Status
  pub request : Option Request
  pub effects : List Effect

abbrev pub ended : Status → Option Request → List Effect → Outcome
ended e r fx = record { returned = e; request = r; effects = fx }

-- xsan_io_request_free
unfoldable pub request_free : Request → List Effect
request_free r =
    if r.dma_buffer_is_internal
    then elim r.dma_buffer [ none ↦ free_request ∷ [] | some b ↦ dma_free ∷ free_request ∷ [] ]
    else free_request ∷ []

-- The channel and the descriptor that a request owns.
unfoldable pub release : Request → List Effect
release r =
    if r.own_spdk_resources
    then (if r.io_channel then put_channel ∷ [] else [])
      ++ (if r.bdev_desc then close_desc ∷ [] else [])
    else []

unfoldable pub refusal : Status → Request → List Effect → Outcome
refusal e r fx =
    let dma =
      if r.dma_buffer_is_internal
      then elim r.dma_buffer [ none ↦ [] | some b ↦ dma_free ∷ [] ]
      else [] in
    let left = if r.dma_buffer_is_internal then record r { dma_buffer = none } else r in
    ended e none
      (fx ++ dma ++ release r ++ (if r.user_cb then call_back e ∷ [] else []) ++ request_free left)

-- Step 4 and 5 of the submission, the payload being `bytes`.
unfoldable pub send : Queued → Request → (bytes : List ℕ) → List Effect → Outcome
unfolding refusal
send a r bytes fx =
    let op =
      if r.is_read_op
      then device_read r.offset_blocks r.num_blocks
      else device_write r.offset_blocks r.num_blocks bytes in
    elim a [
      | queued ↦ ended Status.ok (some r) (fx ++ op ∷ [])
      | no_memory_left ↦ refusal Status.no_memory r (fx ++ op ∷ [])
      | refused ↦ refusal Status.io r (fx ++ op ∷ [])
    ]

-- `memcpy` of the first `n` bytes
abbrev pub copied_over : ℕ → (src dest : List ℕ) → List ℕ
copied_over n src dest = take n src ++ drop n dest

abbrev with_dma : Request → List ℕ → Request
with_dma r b = record r { dma_buffer = some b; dma_buffer_is_internal = true }

-- Step 3 with an internal buffer.
unfoldable pub use_internal :
    Queued → Request → (size : ℕ) → Option (List ℕ) → List Effect → Outcome
unfolding send release
use_internal a r size none fx =
    ended Status.no_memory (some (record r { dma_buffer = none })) (fx ++ release r)
use_internal a r size (some b) fx =
    let fx' = fx ++ dma_malloc size ∷ [] in
    if r.is_read_op then send a (with_dma r b) b fx' else elim r.user_buffer [
      | none ↦
          ended Status.invalid_param (some (record (with_dma r b) { dma_buffer = none }))
            (fx' ++ release r ++ dma_free ∷ [])
      | some u ↦
          let filled = copied_over r.length_bytes u b in send a (with_dma r filled) filled fx'
    ]

abbrev pub io_size : Device → Request → ℕ
io_size d r = (r.num_blocks * d.block_size) % size_mod

unfoldable pub prepare : Device → Request → List Effect → Outcome
unfolding use_internal
prepare d r fx =
    let internal = use_internal d.answer r (io_size d r) d.fresh_dma fx in
    if not (r.length_bytes == io_size d r)
    then ended Status.invalid_param (some r) (fx ++ release r)
    else elim r.dma_buffer [
      | none ↦ internal
      | some b ↦ if r.dma_buffer_is_internal then internal else send d.answer r b fx
    ]

-- Step 2, from the channel on.
unfoldable pub take_channel : Device → Request → List Effect → Outcome
unfolding prepare
take_channel d r fx =
    if r.io_channel
    then prepare d r fx
    else if d.has_channel
    then prepare d (record r { io_channel = true }) (fx ++ get_channel ∷ [])
    else if r.own_spdk_resources && r.bdev_desc
    then ended Status.io (some (record r { bdev_desc = false })) (fx ++ close_desc ∷ [])
    else ended Status.io (some r) fx

-- xsan_io_submit_request_to_bdev
unfoldable pub submit : Device → Request → Outcome
unfolding take_channel
submit d r =
    if not r.user_cb || (not r.bdev_named || r.num_blocks == 0)
    then ended Status.invalid_param (some r) []
    else if not d.on_spdk_thread
    then ended Status.thread_context (some r) []
    else if not d.found
    then ended Status.not_found (some r) []
    else if r.bdev_desc
    then take_channel d r []
    else elim d.open_error [
      | some e ↦ ended e (some r) []
      | none ↦
          take_channel d (record r { bdev_desc = true; own_spdk_resources = true }) (open_desc ∷ [])
    ]

-- The effects of _xsan_io_spdk_completion_cb and the user's buffer after it; `bytes` is the content
-- of the DMA buffer then.
unfoldable pub completion_cb :
    (success : Bool) (bytes : List ℕ) → Request → List Effect × Option (List ℕ)
unfolding release request_free
completion_cb success bytes r =
    let has_dma = elim r.dma_buffer as (λ _. Bool) [ none ↦ false | some b ↦ true ] in
    let copy = success && (r.is_read_op && (r.dma_buffer_is_internal && has_dma)) in
    let no_buffer = elim r.user_buffer as (λ _. Bool) [ none ↦ true | some u ↦ false ] in
    let result = if success then Status.ok else Status.io in
    let status = if copy && no_buffer then Status.invalid_param else result in
    let buffer = elim r.user_buffer as (λ _. Option (List ℕ)) [
      | none ↦ none
      | some u ↦ some (if copy then copied_over r.length_bytes bytes u else u)
    ] in
    (release r ++ (if r.user_cb then call_back status ∷ [] else []) ++ request_free r, buffer)
