-- ===== src/Volume/Mapping.antt =====
-- From a logical block of a volume to a block of a disk, and the local read or write that follows:
-- xsan_volume_map_lba_to_physical and _xsan_volume_submit_single_io_attempt of
-- src/storage/volume_manager.c. The disk manager's search, the metadata store with its JSON reader,
-- the allocator and the block device are arguments.
use xsan.Base.{
  ℕ, ◌-◌, ◌*◌, ◌/◌, ◌%◌, Bool, Option, none, some, List, [], ◌∷◌, ltb, leb, ◌==◌, if◌then◌else◌,
  not, ◌&&◌, ◌||◌, size_mod, add_size,
}
use xsan.Status.{Status, is_ok}
use xsan.Volume.{Volume}

-- What the code uses of `xsan_disk_t`.
pub record Disk : Type 0 where
  pub block_size_bytes : ℕ
  pub bdev_descriptor : Bool

-- `xsan_volume_extent_mapping_t`
pub record Extent : Type 0 where
  pub disk_id : ℕ
  pub start_block_on_disk : ℕ
  pub num_blocks_on_disk : ℕ
  pub volume_start_lba : ℕ

-- `xsan_volume_allocation_meta_t`: `num_extents` is the length of the list.
pub record AllocationMeta : Type 0 where
  pub disk_group_id : ℕ
  pub extents : List Extent
  pub total_volume_blocks_logical : ℕ
  pub volume_logical_block_size : ℕ

-- The metadata store's answer, and what the JSON reader makes of it.
pub data StoredMeta : Type 0 where
  lookup_failed : Status → StoredMeta
  unreadable : StoredMeta
  stored_meta : AllocationMeta → StoredMeta

pub data Mapped : Type 0 where
  mapped : (disk_id block block_size : ℕ) → Mapped
  unmapped : Status → Mapped

abbrev pub mul_size : ℕ → ℕ → ℕ
mul_size a b = (a * b) % size_mod

abbrev pub extent_bytes : Disk → Extent → ℕ
extent_bytes d e = mul_size e.num_blocks_on_disk d.block_size_bytes

module _ (vb lba : ℕ) where
  abbrev pub covers : Disk → Extent → Bool
  covers d e =
      leb e.volume_start_lba lba && ltb lba (add_size e.volume_start_lba (extent_bytes d e / vb))

  abbrev pub offset_in : Extent → ℕ
  offset_in e = mul_size (lba - e.volume_start_lba) vb

  unfoldable pub place : Disk → Extent → Mapped
  place d e =
      if ltb (extent_bytes d e) (add_size (offset_in e) vb) && ltb (offset_in e) (extent_bytes d e)
      then unmapped Status.internal
      else mapped e.disk_id (add_size e.start_block_on_disk (offset_in e / d.block_size_bytes))
          d.block_size_bytes

  -- One round of the loop, `rest` being what the other extents give.
  unfoldable pub try_extent : Extent → (rest : Mapped) → Option Disk → Mapped
  unfolding place
  try_extent e rest none = rest
  try_extent e rest (some d) =
      if d.block_size_bytes == 0 then rest else if covers d e then place d e else rest

  unfoldable pub walk : (find_disk : ℕ → Option Disk) → List Extent → Mapped
  unfolding try_extent
  walk find_disk [] = unmapped Status.unmapped_lba
  walk find_disk (e ∷ es) = try_extent e (walk find_disk es) (find_disk e.disk_id)

-- An entry that is missing from the metadata store means a volume without extents.
unfoldable pub lookup_error : Status → Status
lookup_error Status.not_found = Status.unmapped_lba
lookup_error e = e

-- `xsan_volume_map_lba_to_physical`, the manager being initialized and the pointers not NULL; the
-- option is the volume that xsan_volume_get_by_id finds. An identifier that is 0 is the null one.
unfoldable pub map_lba : (ℕ → Option Disk) → Option Volume → StoredMeta → ℕ → Mapped
unfolding walk lookup_error
map_lba find_disk none meta lba = unmapped Status.not_found
map_lba find_disk (some v) meta lba =
    if v.id == 0
    then unmapped Status.invalid_param
    else if leb v.num_blocks lba
    then unmapped Status.out_of_bounds
    else elim meta [
      | lookup_failed e ↦ unmapped (lookup_error e)
      | unreadable ↦ unmapped Status.storage_generic
      | stored_meta a ↦
          if a.volume_logical_block_size == 0
          then unmapped Status.storage_generic
          else walk a.volume_logical_block_size lba find_disk a.extents
    ]

-- The request that goes to the block device, or the error returned.
pub data Submission : Type 0 where
  submitted : (disk_id byte_offset length_bytes : ℕ) → (is_read : Bool) → Submission
  rejected : Status → Submission

-- The tests on the offset and the length, which the read and write entry points make too.
abbrev pub misaligned : Volume → (offset len : ℕ) → Bool
misaligned v offset len =
    v.block_size_bytes == 0
    || (not (offset % v.block_size_bytes == 0)
        || (not (len % v.block_size_bytes == 0) || ltb v.size_bytes (add_size offset len)))

-- What the code outside of the volume manager answers to one submission: the disk manager, the
-- metadata store, the two allocations together, and the block device.
pub record Outside : Type 0 where
  pub find_disk : ℕ → Option Disk
  pub meta : StoredMeta
  pub malloc_ok : Bool
  pub io : Status

-- On the disk of the mapped block.
unfoldable pub submit_to :
    Outside → (disk_id byte_offset len : ℕ) → (is_read : Bool) → Option Disk → Submission
submit_to o d at_byte len is_read none = rejected Status.storage_generic
submit_to o d at_byte len is_read (some disk) =
    if not disk.bdev_descriptor
    then rejected Status.resource_unavailable
    else if not o.malloc_ok
    then rejected Status.out_of_memory
    else if is_ok o.io
    then submitted d at_byte len is_read
    else rejected o.io

-- From the mapped block on.
unfoldable pub submit_mapped : Outside → (len : ℕ) → (is_read : Bool) → Mapped → Submission
unfolding submit_to
submit_mapped o len is_read (unmapped e) = rejected e
submit_mapped o len is_read (mapped d b s) =
    if s == 0
    then rejected Status.storage_generic
    else if not (len % s == 0)
    then rejected Status.invalid_param_alignment
    else submit_to o d (mul_size b s) len is_read (o.find_disk d)

-- `_xsan_volume_submit_single_io_attempt`, the manager being initialized.
unfoldable pub submit_single_io :
    Outside → Option Volume → (offset len : ℕ) → (is_read : Bool) → Submission
unfolding map_lba submit_mapped
submit_single_io o none offset len is_read = rejected Status.not_found
submit_single_io o (some v) offset len is_read =
    if misaligned v offset len || len == 0
    then rejected Status.invalid_param_alignment
    else submit_mapped o len is_read
        (map_lba o.find_disk (some v) o.meta (offset / v.block_size_bytes))
