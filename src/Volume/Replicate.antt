-- ===== src/Volume/Replicate.antt =====
-- Requests to replicas, from the message to the local I/O: src/storage/volume_manager.c, both ends.
use xsan.Base.{
  ℕ, ◌+◌, ◌-◌, ◌/◌, ◌%◌, ◌^◌, ◌≤◌, ◌<◌, ◌≡◌, refl, sym, ap, ◌∙◌, true, false, Option, some, List,
  [], ◌++◌, ltb, ◌==◌, length, ge→ltb, Bool-cases, ==_iff, ==_self, pos-ne_zero, inl, inr, arith,
  drop-length_append, take, take_all,
}
use native.Mathlib.Nat.{div-le_self}
use mathlib.Core.List.{append-nil}
use xsan.Protocol.{
  Message, message_create, message_create_with_data, max_payload_size, seal, header_init,
  payload_of,
}
use xsan.Volume.{Volume}
use xsan.Volume.Arith.{multiple}
use xsan.Volume.Mapping.{Outside, submit_single_io, mul_size}
use xsan.Volume.Handler.{
  Layout, BlockRequest, block_request, started, write_message, read_message, write_blocks,
  handle_write_req, handle_read_req, read_blocks, request_size, replica_write_req, replica_read_req,
}

-- Bytes of a volume that a request may name, as the entry points check.
pub record IsRange (v : Volume) (offset len : ℕ) : Type 0 where
  pub id : v.id < 2 ^ 128
  pub some_blocks : 0 < v.block_size_bytes
  pub offset_aligned : offset % v.block_size_bytes ≡ 0
  pub len_aligned : len % v.block_size_bytes ≡ 0
  pub some_bytes : 0 < len
  pub within : offset + len < 2 ^ 64
  pub fits : request_size + len ≤ max_payload_size

module _ (layout : Layout) (v : Volume) (offset len : ℕ) (w : IsRange v offset len) where
  offset-same : mul_size (offset / v.block_size_bytes) v.block_size_bytes ≡ offset
  offset-same = omega (arith, multiple offset _ w.some_blocks w.offset_aligned, w.within)

  few_blocks : len / v.block_size_bytes < 2 ^ 32
  few_blocks = omega (arith, div-le_self len v.block_size_bytes, w.fits)

  len-same : mul_size ((len / v.block_size_bytes) % 2 ^ 32) v.block_size_bytes ≡ len
  len-same =
      ap (λ t. mul_size t v.block_size_bytes) small
      ∙ omega (arith, multiple len _ w.some_blocks w.len_aligned, w.within)
    where
      small : (len / v.block_size_bytes) % 2 ^ 32 ≡ len / v.block_size_bytes
      small = omega (arith, few_blocks)

  some_blocks-len : ((len / v.block_size_bytes) % 2 ^ 32 == 0) ≡ false
  some_blocks-len = elim (Bool-cases ((len / v.block_size_bytes) % 2 ^ 32 == 0)) [
    | inl z ↦ absurd (
        omega (
          arith,
          w.some_bytes,
          len-same,
          ap (λ t. mul_size t v.block_size_bytes)
              ((==_iff ((len / v.block_size_bytes) % 2 ^ 32) 0).0 z),
        ))
    | inr z ↦ z
  ]

  abbrev request : BlockRequest
  request = block_request v.id v.block_size_bytes offset len

  request-read : (rest : List ℕ) → layout.request_of (layout.bytes_of request ++ rest) ≡ request
  request-read rest =
      layout.read_back request rest w.id
        (omega (arith, div-le_self offset v.block_size_bytes, w.within)) (omega arith)

-- The request for a write, followed by the bytes, under a header with its checksum.
abbrev pub written : Layout → Volume → (offset tid : ℕ) → List ℕ → Message
written layout v offset tid bytes =
    let req = layout.bytes_of (block_request v.id v.block_size_bytes offset (length bytes)) in
    seal (header_init replica_write_req (length req + length bytes) tid) (req ++ bytes)

module _ (layout : Layout) (v : Volume) (offset tid : ℕ) (bytes : List ℕ)
    (w : IsRange v offset (length bytes)) where
  -- With enough memory the sender makes that message, and a replica that has a volume under the same
  -- id with the same block size starts a local write of the same bytes at the same offset.
  pub handle-write_message :
      (get_volume : ℕ → Option Volume) (u : Volume) (o : Outside)
      → get_volume v.id ≡ some u
      → u.block_size_bytes ≡ v.block_size_bytes
      → (write_message layout v.id v.block_size_bytes offset bytes tid true
          ≡ some (written layout v offset tid bytes))
        × (handle_write_req layout get_volume o true (written layout v offset tid bytes)
            ≡ started v.id offset
                (length bytes)
                bytes
                (submit_single_io o (some u) offset (length bytes) false))
  unfolding write_message handle_write_req write_blocks message_create_with_data seal header_init
  handle-write_message get_volume u o found same = (
    simp
        (
          uncut,
          layout.bytes_length req,
          ge→ltb max_payload_size (request_size + length bytes) w.fits,
        )
        refl,
    simp
        (
          layout.bytes_length req,
          request-read layout v offset (length bytes) w bytes,
          found,
          same,
          cut,
          enough,
          pos-ne_zero v.block_size_bytes w.some_blocks,
          ==_self (length bytes),
          some_blocks-len layout v offset (length bytes) w,
          offset-same layout v offset (length bytes) w,
          len-same layout v offset (length bytes) w,
          drop-length_append request_size (layout.bytes_of req) bytes
              (sym (layout.bytes_length req)),
        )
        refl,
  )
    where
      req : BlockRequest
      req = block_request v.id v.block_size_bytes offset (length bytes)

      uncut : take (length bytes % 2 ^ 32) bytes ≡ bytes
      uncut = take_all (length bytes % 2 ^ 32) bytes (omega (arith, w.fits))

      cut : request_size + length bytes - request_size ≡ length bytes
      cut = omega arith

      enough : ltb (request_size + length bytes) request_size ≡ false
      enough = ge→ltb _ _ (omega arith)

-- A read that the sender asks for, likewise: a replica that has a volume under the same id with the
-- same block size, and enough memory, starts a local read of the same range.
pub handle-read_message :
    (layout : Layout) (v : Volume) (offset len tid : ℕ)
    → IsRange v offset len
    → (get_volume : ℕ → Option Volume) (u : Volume) (o : Outside) → get_volume v.id ≡ some u
    → u.block_size_bytes ≡ v.block_size_bytes
    → (m : Message) × (read_message layout v.id v.block_size_bytes offset len tid true ≡ some m)
      × (handle_read_req layout get_volume o true true m
          ≡ started v.id offset len [] (submit_single_io o (some u) offset len true))
unfolding read_message handle_read_req read_blocks message_create seal header_init payload_of
handle-read_message layout v offset len tid w get_volume u o found same = (
  seal (header_init replica_read_req request_size tid) (layout.bytes_of req),
  simp (take_all request_size (layout.bytes_of req) (omega (arith, layout.bytes_length req))) refl,
  simp
      (
        whole,
        found,
        same,
        pos-ne_zero v.block_size_bytes w.some_blocks,
        some_blocks-len layout v offset len w,
        offset-same layout v offset len w,
        len-same layout v offset len w,
      )
      refl,
)
  where
    req : BlockRequest
    req = block_request v.id v.block_size_bytes offset len

    whole : layout.request_of (layout.bytes_of req) ≡ req
    whole =
        ap layout.request_of (sym (append-nil (layout.bytes_of req)))
        ∙ request-read layout v offset len w []
