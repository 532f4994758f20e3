-- ===== src/Volume/Write.antt =====
-- Replicated writes of src/storage/volume_manager.c: xsan_volume_write_async, the callbacks that
-- count the replicas' answers, and the context of src/replication/xsan_replication.c. Whether a
-- write is complete is decided by a function that no source file defines; here the counters that
-- it reads are followed.
use xsan.Base.{
  ℕ, zero, suc, ◌+◌, ◌-◌, ◌%◌, ◌^◌, Bool, true, false, Option, none, some, List, [], ◌∷◌, ltb, ◌==◌,
  if◌then◌else◌, not, ◌||◌,
}
use xsan.Status.{Status, is_ok}
use xsan.Volume.{
  Volume, Replica, State, online, offline, degraded, failed, max_replicas, replicas_in_use,
}
use xsan.Volume.Mapping.{misaligned}

-- The counters of `xsan_replicated_io_ctx_t`.
pub record WriteCtx : Type 0 where
  pub total_replicas_targeted : ℕ
  pub successful_writes : ℕ
  pub failed_writes : ℕ
  pub final_status : Status

-- `xsan_replicated_io_ctx_create`, its pointers not NULL.
unfoldable pub write_ctx_create : Volume → (malloc_ok : Bool) → Option WriteCtx
write_ctx_create v malloc_ok =
    if not malloc_ok
    then none
    else if v.actual_replica_count == 0 || ltb max_replicas v.actual_replica_count
    then none
    else some (record {
      total_replicas_targeted = v.actual_replica_count;
      successful_writes = 0;
      failed_writes = 0;
      final_status = Status.ok;
    })

-- The counters are `uint32_t`.
abbrev pub incremented : ℕ → ℕ
incremented n = (n + 1) % 2 ^ 32

-- How every callback counts a replica that failed; the first error is kept.
unfoldable pub count_failure : Status → WriteCtx → WriteCtx
count_failure s c = record c {
  failed_writes = incremented c.failed_writes;
  final_status = if is_ok c.final_status then s else c.final_status;
}

unfoldable pub count_status : Status → WriteCtx → WriteCtx
unfolding count_failure
count_status s c =
    if is_ok s
    then record c { successful_writes = incremented c.successful_writes }
    else count_failure s c

-- The first replica in use after the local one that is on a node gets a new state.
unfoldable pub set_remote : (count node : ℕ) → State → List Replica → List Replica
set_remote zero node s rs = rs
set_remote (suc n) node s [] = []
set_remote (suc n) node s (r ∷ rs) =
    let rest = set_remote n node s rs in
    if r.node_id == node then record r { state = s } ∷ rs else r ∷ rest

abbrev pub with_remote : Volume → ℕ → State → Volume
with_remote v node s = record v {
  replica_nodes = elim v.replica_nodes [
    | [] ↦ []
    | r ∷ rs ↦ r ∷ set_remote (v.actual_replica_count - 1) node s rs
  ];
}

abbrev pub with_local : Volume → State → Volume
with_local v s = record v {
  replica_nodes = elim v.replica_nodes [ [] ↦ [] | r ∷ rs ↦ record r { state = s } ∷ rs ];
}

-- What the callbacks of one write are told: a status where one is computed.
pub data WriteEvent : Type 0 where
  local_written : Status → WriteEvent
  sent : (node_id : ℕ) → WriteEvent
  not_connected not_sent answered : (node_id : ℕ) → Status → WriteEvent

-- `_xsan_local_replica_write_complete_cb`
unfoldable pub local_write_complete : Status → Volume → Volume
local_write_complete s v =
    if ltb 0 v.actual_replica_count then with_local v (if is_ok s then online else failed) else v

-- The loss of a connection, in `_xsan_remote_replica_connect_then_send_cb` and
-- `_xsan_remote_replica_request_send_actual_cb`.
unfoldable pub remote_lost : ℕ → Volume → Volume
unfolding set_remote
remote_lost node v = with_remote v node offline

-- `xsan_volume_manager_process_replica_write_response`, on the volume.
unfoldable pub remote_answered : ℕ → Status → Volume → Volume
unfolding set_remote
remote_answered node s v = with_remote v node (if is_ok s then online else degraded)

unfoldable pub volume_after : WriteEvent → Volume → Volume
unfolding local_write_complete remote_lost remote_answered
volume_after (local_written s) v = local_write_complete s v
volume_after (sent n) v = v
volume_after (not_connected n s) v = remote_lost n v
volume_after (not_sent n s) v = remote_lost n v
volume_after (answered n s) v = remote_answered n s v

unfoldable pub ctx_after : WriteEvent → WriteCtx → WriteCtx
unfolding count_failure count_status
ctx_after (local_written s) c = count_status s c
ctx_after (sent n) c = c
ctx_after (not_connected n s) c = count_failure s c
ctx_after (not_sent n s) c = count_failure s c
ctx_after (answered n s) c = count_status s c

-- One callback, where the volume still exists.
unfoldable pub step : WriteEvent → Volume × WriteCtx → Volume × WriteCtx
unfolding volume_after ctx_after
step e (v, c) = (volume_after e v, ctx_after e c)

unfoldable pub run : List WriteEvent → Volume × WriteCtx → Volume × WriteCtx
unfolding step
run [] s = s
run (e ∷ es) s = run es (step e s)

-- What xsan_volume_write_async does for one replica, with its index and its node.
pub data Target : Type 0 where
  skipped attempted : (index node_id : ℕ) → Target

abbrev pub is_writable : State → Bool
is_writable online = true
is_writable degraded = true
is_writable _ = false

unfoldable pub plan : (index : ℕ) → List Replica → List Target
plan i [] = []
plan i (r ∷ rs) =
    (if is_writable r.state then attempted i r.node_id else skipped i r.node_id) ∷ plan (suc i) rs

-- The callback that is called at once for a replica that is skipped; the context for a remote one
-- can be allocated.
abbrev pub skip_event : (index node_id : ℕ) → WriteEvent
skip_event zero node = local_written Status.resource_unavailable
skip_event (suc i) node = not_sent node Status.resource_unavailable

unfoldable pub count_skipped : List Target → Volume × WriteCtx → Volume × WriteCtx
unfolding step
count_skipped [] s = s
count_skipped (skipped i node ∷ ts) s = count_skipped ts (step (skip_event i node) s)
count_skipped (attempted i node ∷ ts) s = count_skipped ts s

unfoldable pub any_attempted : List Target → Bool
any_attempted [] = false
any_attempted (skipped i node ∷ ts) = any_attempted ts
any_attempted (attempted i node ∷ ts) = true

-- The loop after an attempt at no replica, which counts every replica as failed.
unfoldable pub count_failures : ℕ → WriteCtx → WriteCtx
count_failures zero c = c
count_failures (suc n) c =
    count_failures n (record c { failed_writes = incremented c.failed_writes })

-- A write that was refused, or the volume and the context after its start, with the status returned
-- where no replica was attempted.
pub data WriteStart : Type 0 where
  write_refused : Status → WriteStart
  write_failed : Status → Volume × WriteCtx → WriteStart
  write_started : List Target → Volume × WriteCtx → WriteStart

-- What is counted once more where no replica was attempted.
abbrev pub give_up : Volume × WriteCtx → Volume × WriteCtx
give_up (v, c) = (
  v,
  count_failures c.total_replicas_targeted
      (record c { final_status = Status.replication_unavailable }),
)

-- The end of `xsan_volume_write_async`, from its loop over the replicas on.
unfoldable pub write_replicas : Volume → WriteCtx → WriteStart
unfolding plan count_skipped any_attempted
write_replicas v c =
    let ts = plan 0 (replicas_in_use v) in
    if any_attempted ts
    then write_started ts (count_skipped ts (v, c))
    else write_failed Status.replication_unavailable (give_up (count_skipped ts (v, c)))

-- `xsan_volume_write_async`, its pointers and the volume's id not null; the option is the volume
-- that xsan_volume_get_by_id finds, `table_ok`: the context can be put in the table.
unfoldable pub write_async :
    Option Volume → (offset len : ℕ) → (malloc_ok table_ok : Bool) → WriteStart
unfolding write_replicas write_ctx_create
write_async none offset len malloc_ok table_ok =
    if len == 0 then write_refused Status.invalid_param else write_refused Status.not_found
write_async (some v) offset len malloc_ok table_ok =
    if len == 0
    then write_refused Status.invalid_param
    else if elim v.state [ offline ↦ true | failed ↦ true | _ ↦ false ]
    then write_refused Status.resource_unavailable
    else if misaligned v offset len
    then write_refused Status.invalid_param_alignment
    else if v.actual_replica_count == 0
    then write_refused Status.replication_unavailable
    else elim (write_ctx_create v malloc_ok) [
      | none ↦ write_refused Status.out_of_memory
      | some c ↦ if table_ok then write_replicas v c else write_refused Status.out_of_memory
    ]
