-- ===== src/Volume/Placement.antt =====
-- Where xsan_volume_map_lba_to_physical of src/storage/volume_manager.c puts a block.
use xsan.Base.{
  ℕ, ◌+◌, ◌-◌, ◌*◌, ◌/◌, ◌^◌, ◌≤◌, ◌<◌, ◌≡◌, refl, sym, ap, ◌∙◌, true, false, Option, none, some,
  List, [], ◌∷◌, ltb, ◌==◌, add_size, arith, Bool-cases, Option-cases, inl, inr, lt→ltb, le→leb,
  ltb→lt, ge→ltb,
}
use mathlib.Core.List.{Memᴰ}
use mathlib.Core.List.Memᴰ.{head, tail}
use mathlib.Core.Path.{subst}
use mathlib.Core.Option.{none-ne-some, some-injective}
use native.Mathlib.Nat.{div-le_self}
use xsan.Status.{Status}
use xsan.Volume.Arith.{block_end, block_before}
use xsan.Volume.Mapping.{
  Disk, Extent, Mapped, mapped, unmapped, extent_bytes, covers, offset_in, place, try_extent, walk,
}

-- An extent whose numbers do not wrap around in 64 bits, on its disk.
pub record IsSane (d : Disk) (e : Extent) : Type 0 where
  pub bytes : e.num_blocks_on_disk * d.block_size_bytes < 2 ^ 64
  pub last_block : e.start_block_on_disk + e.num_blocks_on_disk < 2 ^ 64
  pub last_byte : (e.start_block_on_disk + e.num_blocks_on_disk) * d.block_size_bytes < 2 ^ 64
  pub last_lba : e.volume_start_lba + e.num_blocks_on_disk * d.block_size_bytes < 2 ^ 64

-- The blocks of the volume that an extent holds in full.
pub record Holds (vb lba : ℕ) (d : Disk) (e : Extent) : Type 0 where
  pub first : e.volume_start_lba ≤ lba
  pub last : lba < e.volume_start_lba + e.num_blocks_on_disk * d.block_size_bytes / vb

-- `block` is the block of the extent with the first byte of the volume's block, and the rest of it
-- lies within the extent's bytes.
pub record IsPlaced (vb lba : ℕ) (d : Disk) (e : Extent) (block : ℕ) : Type 0 where
  pub exact : block ≡ e.start_block_on_disk + (lba - e.volume_start_lba) * vb / d.block_size_bytes
  pub before_end : block < e.start_block_on_disk + e.num_blocks_on_disk
  pub room : (lba - e.volume_start_lba) * vb + vb ≤ e.num_blocks_on_disk * d.block_size_bytes

module _ (vb lba : ℕ) (d : Disk) (e : Extent) (vb_pos : 0 < vb) (sane : IsSane d e) where
  bytes-same : extent_bytes d e ≡ e.num_blocks_on_disk * d.block_size_bytes
  bytes-same = omega (arith, sane.bytes)

  room-lem :
      Holds vb lba d e
      → (lba - e.volume_start_lba) * vb + vb ≤ e.num_blocks_on_disk * d.block_size_bytes
  room-lem h =
      block_end (lba - e.volume_start_lba) (e.num_blocks_on_disk * d.block_size_bytes) vb
        (omega (arith, h.first, h.last)) vb_pos

  quotient-le :
      e.num_blocks_on_disk * d.block_size_bytes / vb ≤ e.num_blocks_on_disk * d.block_size_bytes
  quotient-le = div-le_self (e.num_blocks_on_disk * d.block_size_bytes) vb

  end-same :
      add_size e.volume_start_lba (extent_bytes d e / vb)
      ≡ e.volume_start_lba + e.num_blocks_on_disk * d.block_size_bytes / vb
  end-same = rw bytes-same (omega (arith, quotient-le, sane.last_lba))

  covers-Holds : covers vb lba d e ≡ true → Holds vb lba d e
  covers-Holds c = record {
    first = ground arith;
    last = omega (arith, end-same, ltb→lt lba _ after);
  }
    where
      after : ltb lba (add_size e.volume_start_lba (extent_bytes d e / vb)) ≡ true
      after = ground arith

  Holds-covers : Holds vb lba d e → covers vb lba d e ≡ true
  Holds-covers h =
      simp (le→leb e.volume_start_lba lba h.first) (lt→ltb lba _ (omega (arith, end-same, h.last)))

  placed :
      0 < d.block_size_bytes
      → Holds vb lba d e
      → (block : ℕ) × (place vb lba d e ≡ mapped e.disk_id block d.block_size_bytes)
        × IsPlaced vb lba d e block
  unfolding place
  placed pos h = (
    e.start_block_on_disk + off / d.block_size_bytes,
    rw (bytes-same, off-same, fits) (ap (λ b. mapped e.disk_id b d.block_size_bytes) whole),
    record { exact = refl; before_end = omega (arith, within); room = room-lem h },
  )
    where
      off : ℕ
      off = (lba - e.volume_start_lba) * vb

      off-same : offset_in vb lba e ≡ off
      off-same = omega (arith, room-lem h, sane.bytes)

      within : off / d.block_size_bytes < e.num_blocks_on_disk
      within =
          block_before off e.num_blocks_on_disk d.block_size_bytes
            (omega (arith, room-lem h, vb_pos)) pos

      fits : ltb (e.num_blocks_on_disk * d.block_size_bytes) (add_size off vb) ≡ false
      fits = ge→ltb _ _ (omega (arith, room-lem h, sane.bytes))

      whole :
          add_size e.start_block_on_disk (off / d.block_size_bytes)
          ≡ e.start_block_on_disk + off / d.block_size_bytes
      whole = omega (arith, within, sane.last_block)

-- No usable disk holds the block by this extent.
abbrev pub NotHeld : (find_disk : ℕ → Option Disk) → (vb lba : ℕ) → Extent → Type 0
NotHeld find_disk vb lba e =
    (d : Disk) → find_disk e.disk_id ≡ some d → 0 < d.block_size_bytes → ¬ Holds vb lba d e

-- The outcome of the search through the extents.
pub data Outcome (find_disk : ℕ → Option Disk) (vb lba : ℕ) (es : List Extent)
    : Mapped → Type 0 where
  lands :
      (e : Extent) (d : Disk) (block : ℕ)
      → Memᴰ e es
      → find_disk e.disk_id ≡ some d
      → Holds vb lba d e
      → IsPlaced vb lba d e block
      → Outcome find_disk vb lba es (mapped e.disk_id block d.block_size_bytes)
  nowhere :
      ((e : Extent) → Memᴰ e es → NotHeld find_disk vb lba e)
      → Outcome find_disk vb lba es (unmapped Status.unmapped_lba)

-- The extents do not wrap around on the disks that exist.
abbrev pub AllSane : (find_disk : ℕ → Option Disk) → List Extent → Type 0
AllSane find_disk es =
    (e : Extent) (d : Disk) → Memᴰ e es → find_disk e.disk_id ≡ some d → IsSane d e

module _ (find_disk : ℕ → Option Disk) (vb lba : ℕ) (vb_pos : 0 < vb) where
  -- An extent that does not take the block leaves the search to the others.
  passed :
      (e : Extent) {es : List Extent} {m : Mapped}
      → NotHeld find_disk vb lba e
      → Outcome find_disk vb lba es m
      → Outcome find_disk vb lba (e ∷ es) m
  passed e away (lands f d b i q h p) = lands f d b (tail i) q h p
  passed e away (nowhere none_there) = nowhere (λ f i. elim i [
    | head q ↦ subst (NotHeld find_disk vb lba) (sym q) away
    | tail j ↦ none_there f j
  ])

  absent : (e : Extent) → find_disk e.disk_id ≡ none → NotHeld find_disk vb lba e
  absent e q d q' pos h = absurd (none-ne-some d (sym q ∙ q'))

  only :
      (e : Extent) (d : Disk)
      → find_disk e.disk_id ≡ some d
      → (0 < d.block_size_bytes → ¬ Holds vb lba d e)
      → NotHeld find_disk vb lba e
  only e d q away d' q' =
      subst (λ x. 0 < x.block_size_bytes → ¬ Holds vb lba x e) (some-injective d d' (sym q ∙ q'))
        away

  taken :
      (e : Extent) (d : Disk) (es : List Extent)
      → find_disk e.disk_id ≡ some d
      → 0 < d.block_size_bytes
      → IsSane d e
      → covers vb lba d e ≡ true
      → Outcome find_disk vb lba (e ∷ es) (place vb lba d e)
  taken e d es q pos sane c =
      let h = covers-Holds vb lba d e vb_pos sane c in
      let (b, same, good) = placed vb lba d e vb_pos sane pos h in
      simp same (lands e d b (head refl) q h good)

  step :
      (e : Extent) (es : List Extent) (m : Mapped)
      → AllSane find_disk (e ∷ es)
      → Outcome find_disk vb lba es m
      → Outcome find_disk vb lba (e ∷ es) (try_extent vb lba e m (find_disk e.disk_id))
  unfolding try_extent
  step e es m sane rest = elim (Option-cases (find_disk e.disk_id)) [
    | inl q ↦ simp q (passed e (absent e q) rest)
    | inr (d, q) ↦ simp q (elim (Bool-cases (d.block_size_bytes == 0)) [
      | inl z ↦ simp z (passed e (only e d q (λ pos h. ground arith)) rest)
      | inr nz ↦ simp nz (elim (Bool-cases (covers vb lba d e)) [
        | inl c ↦ simp c (taken e d es q (ground arith) (sane e d (head refl) q) c)
        | inr c ↦ simp c (
            passed e
              (only e d q
                (λ pos h. cc (c, Holds-covers vb lba d e vb_pos (sane e d (head refl) q) h)))
              rest)
      ])
    ])
  ]

  -- In 64-bit numbers that do not wrap around, the search through the extents finds a block of an
  -- extent that holds the volume's block in full, on a disk that exists: the one with its first
  -- byte, before the extent's end, with room for the rest. Only where no extent on a usable disk
  -- holds it does the search answer that the block is unmapped, and it answers nothing else.
  pub walk_lem :
      (es : List Extent)
      → AllSane find_disk es
      → Outcome find_disk vb lba es (walk vb lba find_disk es)
  unfolding walk try_extent
  walk_lem [] sane = nowhere (λ f i. elim i [ ])
  walk_lem (e ∷ es) sane =
      step e es (walk vb lba find_disk es) sane (walk_lem es (λ f d i. sane f d (tail i)))
