-- ===== src/Volume/Tests.antt =====
-- Runs of the volume manager of src/storage/volume_manager.c on concrete inputs.
use xsan.Base.{ℕ, ◌<◌, ◌≡◌, refl, sym, ◌%◌, true, false, Option, some, List, [], ◌∷◌, arith}
use mathlib.Core.List.Memᴰ.{head, tail}
use xsan.Status.{Status}
use mathlib.Core.Option.{some-injective}
use mathlib.Core.Path.{subst}
use xsan.Volume.{Volume, Replica, State, online}
use xsan.Volume.Mapping.{
  Disk, Extent, AllocationMeta, stored_meta, walk, try_extent, place, map_lba, Outside, submitted,
  submit_single_io, submit_mapped, submit_to,
}
use xsan.Volume.Placement.{IsSane, Outcome, AllSane, walk_lem}
use xsan.Volume.Submit.{IsSent, submit_single_io-IsSent, IsInside, one_block-IsInside, AllDivide}
use xsan.Volume.Create.{
  Node, remote_replica, assign, choose_replicas, IsChosen, choose_replicas-IsChosen,
}

abbrev pub replica : ℕ → State → Replica
replica n s = record { node_id = n; node_ip_addr = n; node_comm_port = 7; state = s }

-- Two replicas; eight blocks of 4096 bytes.
abbrev pub two_replicas : Volume
two_replicas = record {
  id = 9;
  name = 1;
  size_bytes = 32768;
  block_size_bytes = 4096;
  num_blocks = 8;
  state = online;
  source_group_id = 2;
  thin_provisioned = false;
  allocated_bytes = 32768;
  ftt = 1;
  actual_replica_count = 2;
  replica_nodes = replica 1 online ∷ replica 2 online ∷ [];
}

-- Blocks 0 to 3 from block 80 on of disk 5, the others from block 8 on of disk 6, with blocks of 512
-- bytes.
abbrev first_extent : Extent
first_extent = record {
  disk_id = 5;
  start_block_on_disk = 80;
  num_blocks_on_disk = 32;
  volume_start_lba = 0;
}

abbrev second_extent : Extent
second_extent = record {
  disk_id = 6;
  start_block_on_disk = 8;
  num_blocks_on_disk = 32;
  volume_start_lba = 4;
}

abbrev two_extents : List Extent
two_extents = first_extent ∷ second_extent ∷ []

abbrev small_disk : Disk
small_disk = record { block_size_bytes = 512; bdev_descriptor = true }

abbrev pub always_small : ℕ → Option Disk
always_small d = some small_disk

at_small :
    (P : Disk → Extent → Type 0) (a e : Extent) (d : Disk)
    → P small_disk a
    → e ≡ a
    → some small_disk ≡ some d
    → P d e
at_small P a e d p same found =
    subst (λ x. P x e) (some-injective small_disk d found) (subst (P small_disk) (sym same) p)

two_extents-AllSane : AllSane always_small two_extents
two_extents-AllSane e d i q = elim i [
  | head same ↦ at_small IsSane first_extent e d (omega arith) same q
  | tail j ↦ elim j [
    | head same ↦ at_small IsSane second_extent e d (omega arith) same q
    | tail k ↦ elim k [ ]
  ]
]

two_extents-AllDivide : AllDivide always_small 4096 two_extents
two_extents-AllDivide e d i q =
    at_small (λ x y. (0 < x.block_size_bytes) × (4096 % x.block_size_bytes ≡ 0)) e e d
      (omega arith, refl) refl q

walk_lem_example : Outcome always_small 4096 5 two_extents (walk 4096 5 always_small two_extents)
walk_lem_example = walk_lem always_small 4096 5 (omega arith) two_extents two_extents-AllSane

abbrev two_extents_meta : AllocationMeta
two_extents_meta = record {
  disk_group_id = 2;
  extents = two_extents;
  total_volume_blocks_logical = 8;
  volume_logical_block_size = 4096;
}

abbrev pub outside : Outside
outside = record {
  find_disk = always_small;
  meta = stored_meta two_extents_meta;
  malloc_ok = true;
  io = Status.ok;
}

-- Block 5 is the second of the second extent.
fifth_block :
    submit_single_io outside (some two_replicas) 20480 4096 false ≡ submitted 6 8192 4096 false
unfolding submit_single_io submit_mapped submit_to map_lba walk try_extent place
fifth_block = refl

submit_single_io-IsSent_example : IsSent outside two_replicas 20480 4096 false 6 8192 4096 false
submit_single_io-IsSent_example =
    submit_single_io-IsSent outside two_replicas 20480 4096 false (omega arith) fifth_block

one_block-IsInside_example : IsInside outside two_extents 4096 5 6 8192 4096
one_block-IsInside_example =
    one_block-IsInside outside two_replicas two_extents_meta 20480 false (omega arith) refl refl
      two_extents-AllSane two_extents-AllDivide fifth_block

-- A volume with smaller blocks than its disk: the second block starts where the first does.
abbrev large_disk : Disk
large_disk = record { block_size_bytes = 4096; bdev_descriptor = true }

abbrev small_blocks : AllocationMeta
small_blocks = record two_extents_meta {
  extents = first_extent ∷ [];
  volume_logical_block_size = 512;
}

abbrev on_large_disk : Outside
on_large_disk = record outside { find_disk = λ d. some large_disk; meta = stored_meta small_blocks }

abbrev small_block_volume : Volume
small_block_volume = record two_replicas { block_size_bytes = 512; num_blocks = 64 }

same_place :
    submit_single_io on_large_disk (some small_block_volume) 512 4096 false
    ≡ submit_single_io on_large_disk (some small_block_volume) 0 4096 false
unfolding submit_single_io submit_mapped submit_to map_lba walk try_extent place
same_place = refl

-- Two other nodes are known, and the local one.
abbrev known : List Node
known =
    record { id = 2; ip = 2; port = 7 }
    ∷ record { id = 1; ip = 1; port = 7 }
    ∷ record { id = 3; ip = 3; port = 7 }
    ∷ []

choose_replicas-IsChosen_example : IsChosen 1 1 known (choose_replicas 1 1 (some known))
choose_replicas-IsChosen_example = choose_replicas-IsChosen 1 1 known (omega arith) (omega arith)

chosen : choose_replicas 1 1 (some known) ≡ record {
  ftt = 1;
  actual_replica_count = 2;
  remotes = remote_replica (record { id = 2; ip = 2; port = 7 }) ∷ [];
}
unfolding choose_replicas assign
chosen = refl
