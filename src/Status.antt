-- ===== src/Status.antt =====
-- The error codes that the modelled functions return: include/xsan_error.h, and the further
-- names that src/storage/volume_manager.c uses and no header declares.
use native.Mathlib.Omega.{arith}
use xsan.Base.{◌≡◌, Bool, true, false}

pub data Status : Type 0 where
  ok generic invalid_param busy not_found already_exists no_memory io system : Status
  not_initialized thread_context insufficient_space storage_generic config_parse : Status
  connection_lost unmapped_lba out_of_bounds invalid_param_alignment resource_unavailable : Status
  internal too_many_extents replication_unavailable protocol_generic invalid_msg_type : Status
  invalid_param_size out_of_memory : Status

-- `status == XSAN_OK`
abbrev pub is_ok : Status → Bool
is_ok Status.ok = true
is_ok _ = false

pub is_ok-ok : (s : Status) → is_ok s ≡ true → s ≡ Status.ok
is_ok-ok s h = ground arith
