-- ===== src/Volume/Transport.antt =====
-- A write on its way to a replica: from the message that src/storage/volume_manager.c makes, through
-- the receive buffer and the choice of a handler in src/network/xsan_node_comm.c, to the handler.
use xsan.Base.{
  ℕ, ◌+◌, ◌^◌, ◌≤◌, ◌<◌, ◌≡◌, refl, sym, ◌∙◌, Bool, true, false, Option, some, List, [], ◌∷◌, map,
  length, length-append, ◌++◌, ap, arith,
}
use mathlib.Core.List.{append-nil}
use xsan.Protocol.{Header, seal, header_init}
use xsan.Protocol.Checksum.{IsWire, seal-IsWire}
use xsan.NodeComm.{bytes, process_received, recipient, specific}
use xsan.NodeComm.Wire.{wire, no_more, and_then, idle}
use xsan.NodeComm.Capacity.{Fits, AllSmall, none_left, and_then as and_small, largest_capacity}
use xsan.NodeComm.Arrive.{joined, Offered, Delivers, process_received-stream}
use xsan.Volume.{Volume}
use xsan.Volume.Mapping.{Outside, submit_single_io}
use xsan.Volume.Handler.{
  Layout, block_request, started, write_message, handle_write_req, request_size, replica_write_req,
}
use xsan.Volume.Replicate.{IsRange, written, handle-write_message}

module _ (layout : Layout) (v : Volume) (offset tid : ℕ) (ds : List ℕ)
    (w : IsRange v offset (length ds)) where
  abbrev request : List ℕ
  request = layout.bytes_of (block_request v.id v.block_size_bytes offset (length ds))

  -- The length of the message's payload.
  counted : length request + length ds ≡ request_size + length ds
  counted =
      ap (λ n. n + length ds)
        (layout.bytes_length (block_request v.id v.block_size_bytes offset (length ds)))

  written-IsWire : tid < 2 ^ 64 → IsWire (written layout v offset tid ds)
  written-IsWire small =
      seal-IsWire replica_write_req tid (length request + length ds) (request ++ ds) small
        (omega (arith, counted, w.fits)) (length-append request ds)

  written-AllSmall :
      request_size + length ds ≤ largest_capacity → AllSmall (written layout v offset tid ds ∷ [])
  unfolding seal header_init
  written-AllSmall small = and_small (omega (arith, counted)) none_left

  -- A write whose request and bytes take at most 8437760 bytes together, for a range that the sender's
  -- own checks let pass, reaches the replica as it was. With enough memory the sender makes a message.
  -- Its bytes, in whatever pieces spdk_sock_recv gives them, each with at most as many bytes as the
  -- buffer has room for, make a connection that is between two messages, with a buffer of the initial
  -- capacity doubled at most 11 times, dispatch exactly this message, to the handler for replica
  -- writes if one is registered. With enough memory that handler, on a node that has a volume under
  -- the same id with the same block size, starts a local write of the same bytes at the same offset.
  pub write_message-process_received :
      (get_volume : ℕ → Option Volume) (u : Volume) (o : Outside)
      → get_volume v.id ≡ some u
      → u.block_size_bytes ≡ v.block_size_bytes
      → tid < 2 ^ 64
      → request_size + length ds ≤ largest_capacity
      → (n : ℕ) (h : Header) (dss : List (List ℕ)) → Fits (idle n h)
      → joined dss ≡ wire (written layout v offset tid ds)
      → Offered (idle n h) dss
      → (registered : ℕ → Bool) (has_generic : Bool) → registered replica_write_req ≡ true
      → (write_message layout v.id v.block_size_bytes offset ds tid true
          ≡ some (written layout v offset tid ds))
        × Delivers
            (process_received (idle n h) (map bytes dss))
            (written layout v offset tid ds ∷ [])
            (written layout v offset tid ds).header
        × (recipient registered has_generic (written layout v offset tid ds)
            ≡ specific replica_write_req)
        × (handle_write_req layout get_volume o true (written layout v offset tid ds)
            ≡ started v.id offset
                (length ds)
                ds
                (submit_single_io o (some u) offset (length ds) false))
  unfolding recipient seal header_init
  write_message-process_received get_volume u o found same small few n h dss fits all offered
        registered has_generic known =
      (
        handled.0,
        process_received-stream n h (written layout v offset tid ds ∷ []) dss fits
            (and_then (written-IsWire small) no_more) (written-AllSmall few)
            (all ∙ sym (append-nil (wire (written layout v offset tid ds)))) offered,
        rw known refl,
        handled.1,
      )
    where
      handled :
          (write_message layout v.id v.block_size_bytes offset ds tid true
            ≡ some (written layout v offset tid ds))
          × (handle_write_req layout get_volume o true (written layout v offset tid ds)
              ≡ started v.id offset
                  (length ds)
                  ds
                  (submit_single_io o (some u) offset (length ds) false))
      handled = handle-write_message layout v offset tid ds w get_volume u o found same
