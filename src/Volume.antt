-- ===== src/Volume.antt =====
-- The volumes of src/include/xsan_storage.h and the state that src/storage/volume_manager.c
-- derives from their replicas. An identifier, a name or an address is a number; 0 is the null id.
pub mod Health
mod Tests
mod IoTests
mod Arith
pub mod Mapping
pub mod Placement
pub mod Submit
pub mod Handler
pub mod Replicate
pub mod Transport
pub mod Write
pub mod Counting
pub mod Targets
pub mod Read
pub mod Failover
pub mod Create
use xsan.Base.{
  ℕ, zero, suc, ◌+◌, ◌*◌, ◌/◌, ◌%◌, ◌^◌, Bool, true, false, Option, none, some, List, [], ◌∷◌, ltb,
  leb, ◌==◌, if◌then◌else◌, ◌&&◌, take, length,
}

-- `xsan_storage_state_t`
pub data State : Type 0 where
  unknown initializing online offline degraded failed missing rebuilding maintenance : State

abbrev pub is_online : State → Bool
is_online online = true
is_online _ = false

-- `xsan_replica_location_t`, without the time of the last contact.
pub record Replica : Type 0 where
  pub node_id : ℕ
  pub node_ip_addr : ℕ
  pub node_comm_port : ℕ
  pub state : State

-- `xsan_volume_t`: `replica_nodes` is the whole array, `actual_replica_count` its part in use.
pub record Volume : Type 0 where
  pub id : ℕ
  pub name : ℕ
  pub size_bytes : ℕ
  pub block_size_bytes : ℕ
  pub num_blocks : ℕ
  pub state : State
  pub source_group_id : ℕ
  pub thin_provisioned : Bool
  pub allocated_bytes : ℕ
  pub ftt : ℕ
  pub actual_replica_count : ℕ
  pub replica_nodes : List Replica

abbrev pub max_replicas : ℕ
max_replicas = 3

abbrev pub replicas_in_use : Volume → List Replica
replicas_in_use v = take v.actual_replica_count v.replica_nodes

-- The loop that counts the replicas that are online.
unfoldable pub count_online : List Replica → ℕ
count_online [] = 0
count_online (r ∷ rs) = if is_online r.state then suc (count_online rs) else count_online rs

unfoldable pub required_online : Volume → ℕ
required_online v =
    if ltb v.actual_replica_count (v.ftt + 1) && ltb 0 v.actual_replica_count
    then v.actual_replica_count
    else v.ftt + 1

unfoldable pub overall_state : (online_replicas required : ℕ) → State
overall_state n r = if leb r n then online else if ltb 0 n then degraded else offline

-- `_xsan_volume_update_overall_state`, which saves the volume where its state changed.
unfoldable pub update_overall_state : Volume → Volume
unfolding overall_state count_online required_online
update_overall_state v = record v {
  state = overall_state (count_online (replicas_in_use v)) (required_online v);
}
