-- ===== src/Volume/Read.antt =====
-- Reads of src/storage/volume_manager.c that go from replica to replica until one succeeds:
-- xsan_volume_read_async, _xsan_try_read_from_next_replica, _xsan_replica_read_attempt_complete_cb
-- and xsan_volume_manager_process_replica_read_response.
use xsan.Base.{
  ℕ, zero, suc, ◌-◌, Bool, true, false, Option, none, some, List, [], ◌∷◌, ◌++◌, leb, ◌==◌,
  if◌then◌else◌, not, ◌&&◌, ◌||◌,
}
use xsan.Status.{Status, is_ok}
use xsan.Volume.{Volume, max_replicas}
use xsan.Volume.Mapping.{Submission, submitted, rejected, misaligned}

-- `xsan_replica_read_coordinator_ctx_t`, as far as it steers the attempts, with what is seen of it from
-- outside: whether it was freed and whether it was used after that, how many attempts are on their
-- way, and what the user's callback was called with, the first call first.
pub record Coordinator : Type 0 where
  pub current_replica_idx_to_try : ℕ
  pub last_attempt_status : Status
  pub freed : Bool
  pub used_freed : Bool
  pub in_flight : ℕ
  pub callbacks : List Status

-- What the attempts meet: what the local submission returns, and, where that is an error, whether the
-- completion callback was called as well (xsan_io calls it if SPDK refuses the request, and returns
-- the error), and whether there is memory for the attempt on a remote replica (the buffer, which an
-- earlier attempt may have allocated, the context, and the message).
pub record World : Type 0 where
  pub local_submission : Submission
  pub refused_calls_back : Bool
  pub dma_ok : ℕ → Bool
  pub ctx_ok : ℕ → Bool
  pub msg_ok : ℕ → Bool

abbrev pub status_of : Submission → Status
status_of (submitted d b n r) = Status.ok
status_of (rejected s) = s

-- What starting an attempt gives at once. One that is on its way may never complete: the result of
-- xsan_node_comm_connect is not looked at.
pub data Start : Type 0 where
  begun : Start
  refused : Status → (called_back : Bool) → Start

abbrev pub start_attempt : World → ℕ → Start
start_attempt w zero =
    if is_ok (status_of w.local_submission)
    then begun
    else refused (status_of w.local_submission) w.refused_calls_back
start_attempt w (suc i) =
    if w.dma_ok (suc i) && (w.ctx_ok (suc i) && w.msg_ok (suc i))
    then begun
    else refused Status.out_of_memory false

abbrev pub no_more_replicas : (actual_replica_count : ℕ) → Coordinator → Bool
no_more_replicas n c =
    leb n c.current_replica_idx_to_try || leb max_replicas c.current_replica_idx_to_try

abbrev pub touched : Coordinator → Coordinator
touched c = record c { used_freed = c.used_freed || c.freed }

abbrev pub on_next : Coordinator → Status → Coordinator
on_next c s = record c {
  current_replica_idx_to_try = suc c.current_replica_idx_to_try;
  last_attempt_status = s;
}

abbrev pub on_begun : Coordinator → Coordinator
on_begun c = record c {
  last_attempt_status =
      if c.current_replica_idx_to_try == 0 then Status.ok else c.last_attempt_status;
  in_flight = suc c.in_flight;
}

-- The user's callback, and the end of the coordinator.
abbrev pub finish_read : Status → Coordinator → Coordinator
finish_read s c = record c { callbacks = c.callbacks ++ s ∷ []; freed = true }

-- What follows the start of an attempt, `again` being `_xsan_try_read_from_next_replica`. A refusal
-- that has called `_xsan_replica_read_attempt_complete_cb` has moved on already.
abbrev pub go_on : (again : Coordinator → Coordinator) → Coordinator → Start → Coordinator
go_on again c begun = on_begun c
go_on again c (refused s false) = again (on_next c s)
go_on again c (refused s true) = again (on_next (touched (again (on_next c s))) s)

module _ (w : World) (n : ℕ) where
  -- `_xsan_try_read_from_next_replica`, `n` being the volume's number of replicas. Each call of
  -- itself moves to the next replica, so four are enough.
  unfoldable pub try_next : (fuel : ℕ) → Coordinator → Coordinator
  try_next zero c = c
  try_next (suc fuel) c =
      if c.freed
      then touched c
      else if no_more_replicas n c
      then finish_read c.last_attempt_status c
      else go_on (try_next fuel) c (start_attempt w c.current_replica_idx_to_try)

  -- `_xsan_replica_read_attempt_complete_cb`
  unfoldable pub attempt_complete : Status → Coordinator → Coordinator
  unfolding try_next
  attempt_complete s c =
      if c.freed
      then touched c
      else if is_ok s
      then finish_read Status.ok c
      else try_next (suc max_replicas) (on_next c s)

  -- Attempts that are on their way complete, one after the other, with the given statuses.
  unfoldable pub completions : Coordinator → List Status → Coordinator
  unfolding attempt_complete
  completions c [] = c
  completions c (s ∷ ss) =
      if c.in_flight == 0
      then c
      else completions (attempt_complete s (record c { in_flight = c.in_flight - 1 })) ss

  abbrev pub first_coordinator : Coordinator
  first_coordinator = record {
    current_replica_idx_to_try = 0;
    last_attempt_status = Status.ok;
    freed = false;
    used_freed = false;
    in_flight = 0;
    callbacks = [];
  }

  -- A read from its first attempt on, of which as many attempts complete as there are statuses.
  unfoldable pub read_replicas : List Status → Coordinator
  unfolding completions try_next
  read_replicas ss = completions (try_next (suc max_replicas) first_coordinator) ss

-- `xsan_volume_read_async`, its pointers not NULL: an error, or the first attempt.
unfoldable pub read_async :
    World → Option Volume → (offset len : ℕ) → (malloc_ok : Bool) → Status × Option Coordinator
unfolding try_next
read_async w none offset len malloc_ok =
    (if len == 0 then Status.invalid_param else Status.not_found, none)
read_async w (some v) offset len malloc_ok =
    if len == 0
    then (Status.invalid_param, none)
    else if misaligned v offset len
    then (Status.invalid_param_alignment, none)
    else if not malloc_ok
    then (Status.out_of_memory, none)
    else (
      Status.ok,
      some (
          try_next w v.actual_replica_count (suc max_replicas)
            (first_coordinator w v.actual_replica_count)),
    )

-- `xsan_volume_manager_process_replica_read_response`: the status with which the attempt completes.
-- The option is the length of the data, none for NULL; `dma_ok`: the buffer exists or can be made.
unfoldable pub response_status :
    Status → (data_len : Option ℕ) → (expected : ℕ) → (dma_ok : Bool) → Status
response_status s none expected dma_ok = if is_ok s then Status.protocol_generic else s
response_status s (some n) expected dma_ok =
    if not (is_ok s)
    then s
    else if n == expected
    then (if dma_ok then Status.ok else Status.out_of_memory)
    else Status.protocol_generic
