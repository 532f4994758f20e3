-- ===== src/Volume/Submit.antt =====
-- What _xsan_volume_submit_single_io_attempt of src/storage/volume_manager.c sends to a disk.
use xsan.Base.{
  ℕ, ◌+◌, ◌-◌, ◌*◌, ◌/◌, ◌%◌, ◌^◌, ◌≤◌, ◌<◌, ◌≡◌, sym, ap, ap₂, ◌∙◌, Bool, Option, some, List,
  arith,
}
use mathlib.Core.List.{Memᴰ}
use mathlib.Core.Path.{subst}
use native.Mathlib.Nat.{add-mul}
use xsan.Volume.{Volume}
use xsan.Volume.Arith.{exact_quotient, byte_end}
use xsan.Volume.Mapping.{
  Disk, Extent, AllocationMeta, StoredMeta, stored_meta, Mapped, mapped, unmapped, mul_size,
  map_lba, walk, submitted, Outside, submit_to, submit_mapped, submit_single_io,
}
use xsan.Volume.Placement.{IsSane, IsPlaced, AllSane, Outcome, lands, nowhere, walk_lem}

-- What is known of a request that was sent.
pub record IsSent (o : Outside) (v : Volume) (offset len : ℕ) (is_read : Bool)
    (disk_id at_byte n : ℕ) (r : Bool) : Type 0 where
  pub same_length : n ≡ len
  pub same_kind : r ≡ is_read
  pub some_bytes : 0 < len
  pub whole_first : offset % v.block_size_bytes ≡ 0
  pub whole_length : len % v.block_size_bytes ≡ 0
  pub in_bytes : offset + len ≤ v.size_bytes
  pub in_blocks : offset / v.block_size_bytes < v.num_blocks
  pub block : ℕ
  pub block_size : ℕ
  pub found :
      map_lba o.find_disk (some v) o.meta (offset / v.block_size_bytes)
      ≡ mapped disk_id block block_size
  pub position : at_byte ≡ mul_size block block_size
  pub whole_blocks : len % block_size ≡ 0

submit_to-inv :
    (o : Outside) (d b n : ℕ) (r : Bool) (k : Option Disk) {d' b' n' : ℕ} {r' : Bool}
    → submit_to o d b n r k ≡ submitted d' b' n' r'
    → (d ≡ d') × (b ≡ b') × (n ≡ n') × (r ≡ r')
unfolding submit_to
submit_to-inv o d b n r k e = ground arith

submit_mapped-inv :
    (o : Outside) (len : ℕ) (is_read : Bool) (m : Mapped) {d b n : ℕ} {r : Bool}
    → submit_mapped o len is_read m ≡ submitted d b n r
    → (n ≡ len)
      × (r ≡ is_read)
      × (k : ℕ) × (s : ℕ) × (m ≡ mapped d k s)
      × (b ≡ mul_size k s)
      × (len % s ≡ 0)
unfolding submit_mapped
submit_mapped-inv o len is_read (unmapped x) e = ground arith
submit_mapped-inv o len is_read (mapped d' k s) {d} {b} {n} {r} e =
    (sym issued.2, sym issued.3, k, s, ap (λ x. mapped x k s) issued.0, sym issued.1, ground arith)
  where
    issued : (d' ≡ d) × (mul_size k s ≡ b) × (len ≡ n) × (is_read ≡ r)
    issued = submit_to-inv o d' (mul_size k s) len is_read (o.find_disk d') (ground arith)

-- What is mapped is a block that the volume has.
map_lba-lt :
    (find_disk : ℕ → Option Disk) (v : Volume) (m : StoredMeta) (lba : ℕ) {d k s : ℕ}
    → map_lba find_disk (some v) m lba ≡ mapped d k s
    → lba < v.num_blocks
unfolding map_lba
map_lba-lt find_disk v m lba e = ground arith

submit_single_io-mapped :
    (o : Outside) (v : Volume) (offset len : ℕ) (is_read : Bool) {d b n : ℕ} {r : Bool}
    → submit_single_io o (some v) offset len is_read ≡ submitted d b n r
    → submit_mapped o len is_read
        (map_lba o.find_disk (some v) o.meta (offset / v.block_size_bytes))
      ≡ submitted d b n r
unfolding submit_single_io submit_mapped
submit_single_io-mapped o v offset len is_read e = ground arith

-- What a submission that succeeds sends, where the end of the range does not wrap around in 64 bits:
-- all the bytes asked for, at least one, from the byte of the block that the volume's block was
-- mapped to. The range starts at one of the volume's blocks, is a multiple of its block size, and of
-- the disk's, and ends within the volume's size in bytes.
pub submit_single_io-IsSent :
    (o : Outside) (v : Volume) (offset len : ℕ) (is_read : Bool) {d b n : ℕ} {r : Bool}
    → offset + len < 2 ^ 64
    → submit_single_io o (some v) offset len is_read ≡ submitted d b n r
    → IsSent o v offset len is_read d b n r
unfolding submit_single_io submit_mapped
submit_single_io-IsSent o v offset len is_read {d} {b} {n} {r} no_wrap e =
    let (same, kind, k, s, m, at_block, whole) =
      submit_mapped-inv o len is_read _ (submit_single_io-mapped o v offset len is_read e) in
    record {
      same_length = same;
      same_kind = kind;
      some_bytes = ground arith;
      whole_first = ground arith;
      whole_length = ground arith;
      in_bytes = ground arith;
      in_blocks = map_lba-lt o.find_disk v o.meta (offset / v.block_size_bytes) m;
      block = k;
      block_size = s;
      found = m;
      position = at_block;
      whole_blocks = whole;
    }

-- The bytes of an extent that a request covers.
pub record IsInside (o : Outside) (es : List Extent) (vb lba disk_id at_byte n : ℕ) : Type 0 where
  pub extent : Extent
  pub disk : Disk
  pub listed : Memᴰ extent es
  pub named : disk_id ≡ extent.disk_id
  pub exists : o.find_disk extent.disk_id ≡ some disk
  pub position :
      at_byte
      ≡ extent.start_block_on_disk * disk.block_size_bytes + (lba - extent.volume_start_lba) * vb
  pub before_end :
      at_byte + n ≤ (extent.start_block_on_disk + extent.num_blocks_on_disk) * disk.block_size_bytes

-- The disks that exist have blocks whose size divides that of the volume's.
abbrev pub AllDivide : (find_disk : ℕ → Option Disk) → (vb : ℕ) → List Extent → Type 0
AllDivide find_disk vb es =
    (e : Extent) (d : Disk)
    → Memᴰ e es
    → find_disk e.disk_id ≡ some d
    → (0 < d.block_size_bytes) × (vb % d.block_size_bytes ≡ 0)

module _ (o : Outside) (vb lba : ℕ) (es : List Extent) where
  -- The byte of the block, and the end of what it holds.
  landed :
      (e : Extent) (d : Disk) (k : ℕ)
      → 0 < d.block_size_bytes
      → vb % d.block_size_bytes ≡ 0
      → IsSane d e
      → IsPlaced vb lba d e k
      → (mul_size k d.block_size_bytes
          ≡ e.start_block_on_disk * d.block_size_bytes + (lba - e.volume_start_lba) * vb)
        × (mul_size k d.block_size_bytes + vb
            ≤ (e.start_block_on_disk + e.num_blocks_on_disk) * d.block_size_bytes)
  landed e d k pos divides w p =
      (omega (arith, product, ends, w.last_byte), omega (arith, product, ends, w.last_byte))
    where
      x : ℕ
      x = (lba - e.volume_start_lba) * vb

      product : k * d.block_size_bytes ≡ e.start_block_on_disk * d.block_size_bytes + x
      product =
          ap (λ t. t * d.block_size_bytes) p.exact
          ∙ (add-mul e.start_block_on_disk (x / d.block_size_bytes) d.block_size_bytes
              ∙ ap (λ t. e.start_block_on_disk * d.block_size_bytes + t)
                  (exact_quotient (lba - e.volume_start_lba) vb d.block_size_bytes pos divides))

      ends :
          e.start_block_on_disk * d.block_size_bytes + x + vb
          ≤ (e.start_block_on_disk + e.num_blocks_on_disk) * d.block_size_bytes
      ends = byte_end e.start_block_on_disk e.num_blocks_on_disk d.block_size_bytes x vb p.room

  inside :
      (vb_pos : 0 < vb)
      → AllSane o.find_disk es
      → AllDivide o.find_disk vb es
      → (m : Mapped) → Outcome o.find_disk vb lba es m
      → {d k s : ℕ} → m ≡ mapped d k s
      → IsInside o es vb lba d (mul_size k s) vb
  inside vb_pos sane divide _ (lands e disk k i q h p) {k = k'} {s = s} e' = record {
    extent = e;
    disk = disk;
    listed = i;
    named = ground arith;
    exists = q;
    position = ap₂ mul_size number size ∙ where_to.0;
    before_end =
        subst (λ t. t + vb ≤ (e.start_block_on_disk + e.num_blocks_on_disk) * disk.block_size_bytes)
          (sym (ap₂ mul_size number size)) where_to.1;
  }
    where
      number : k' ≡ k
      number = ground arith

      size : s ≡ disk.block_size_bytes
      size = ground arith

      where_to :
          (mul_size k disk.block_size_bytes
            ≡ e.start_block_on_disk * disk.block_size_bytes + (lba - e.volume_start_lba) * vb)
          × (mul_size k disk.block_size_bytes + vb
              ≤ (e.start_block_on_disk + e.num_blocks_on_disk) * disk.block_size_bytes)
      where_to = landed e disk k (divide e disk i q).0 (divide e disk i q).1 (sane e disk i q) p
  inside vb_pos sane divide _ (nowhere none_there) e' = ground arith

map_lba-walk :
    (find_disk : ℕ → Option Disk) (v : Volume) (a : AllocationMeta) (lba : ℕ) {d k s : ℕ}
    → map_lba find_disk (some v) (stored_meta a) lba ≡ mapped d k s
    → walk a.volume_logical_block_size lba find_disk a.extents ≡ mapped d k s
unfolding map_lba
map_lba-walk find_disk v a lba e = ground arith

-- A read or write of one block of a volume whose allocation metadata gives the volume's own block
-- size and lists extents that do not wrap around, on disks whose block size divides the volume's,
-- covers bytes of one of these extents: those that the block's position in the extent gives.
pub one_block-IsInside :
    (o : Outside) (v : Volume) (a : AllocationMeta) (offset : ℕ) (is_read : Bool) {d b n : ℕ}
    {r : Bool}
    → 0 < v.block_size_bytes
    → o.meta ≡ stored_meta a
    → a.volume_logical_block_size ≡ v.block_size_bytes
    → AllSane o.find_disk a.extents
    → AllDivide o.find_disk v.block_size_bytes a.extents
    → submit_single_io o (some v) offset v.block_size_bytes is_read ≡ submitted d b n r
    → IsInside o a.extents v.block_size_bytes (offset / v.block_size_bytes) d b n
one_block-IsInside o v a offset is_read {d} {b} {n} {r} vb_pos m same sane divide e =
    let (same_length, _, k, s, found, position, _) =
      submit_mapped-inv o v.block_size_bytes is_read _
        (submit_single_io-mapped o v offset v.block_size_bytes is_read e) in
    simp (same_length, position)
      (inside o v.block_size_bytes (offset / v.block_size_bytes) a.extents vb_pos sane divide _
        (walk_lem o.find_disk v.block_size_bytes (offset / v.block_size_bytes) vb_pos a.extents
          sane)
        (walked k s found))
  where
    walked :
        (k s : ℕ)
        → map_lba o.find_disk (some v) o.meta (offset / v.block_size_bytes) ≡ mapped d k s
        → walk v.block_size_bytes (offset / v.block_size_bytes) o.find_disk a.extents ≡ mapped d k s
    walked k s found =
        ap (λ vb. walk vb (offset / v.block_size_bytes) o.find_disk a.extents) (sym same)
        ∙ map_lba-walk o.find_disk v a (offset / v.block_size_bytes)
            (ap (λ t. map_lba o.find_disk (some v) t (offset / v.block_size_bytes)) (sym m) ∙ found)
