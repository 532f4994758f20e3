-- ===== src/Volume/IoTests.antt =====
-- Runs of replicated reads and writes of src/storage/volume_manager.c on concrete inputs.
use xsan.Base.{
  ℕ, ◌+◌, ◌*◌, ◌/◌, ◌%◌, ◌^◌, ◌<◌, ◌≡◌, refl, true, false, Option, none, some, List, [], ◌∷◌, ◌++◌,
  arith, ◌==◌, if◌then◌else◌, replicate, map, take, drop,
}
use xsan.Status.{Status}
use xsan.Protocol.{Message, bytes_32, read_32}
use xsan.Protocol.Bytes.{join_32}
use xsan.Volume.{Volume, initializing}
use xsan.Volume.Mapping.{submitted, rejected, submit_single_io}
use xsan.Volume.Handler.{
  Layout, BlockRequest, started, write_message, handle_write_req, read_message, handle_read_req,
}
use xsan.Volume.Replicate.{IsRange, written, handle-read_message}
use xsan.Volume.Transport.{write_message-process_received}
use xsan.Protocol.{header_serialize, header_deserialize, seal, header_init}
use xsan.NodeComm.{
  bytes, process_received, recipient, specific, no_header, grow, feed, drain, round, take_payload,
  take_header, resume,
}
use xsan.NodeComm.Wire.{wire, idle}
use xsan.NodeComm.Arrive.{joined, Offered, Delivers}
use xsan.Volume.Write.{WriteEvent, local_written, sent, answered, run, write_replicas}
use xsan.Volume.Counting.{run-tallied}
use xsan.Volume.Targets.{Accounted, fresh_ctx, write_replicas_lem}
use xsan.Volume.Read.{World}
use xsan.Volume.Tests.{replica, two_replicas, outside}

-- The structures of a big-endian machine.
abbrev request_bytes : BlockRequest → List ℕ
request_bytes r =
    bytes_32 (r.volume_id / 2 ^ 96)
    ++ (bytes_32 (r.volume_id / 2 ^ 64 % 2 ^ 32)
        ++ (bytes_32 (r.volume_id / 2 ^ 32 % 2 ^ 32)
            ++ (bytes_32 (r.volume_id % 2 ^ 32)
                ++ (bytes_32 (r.block_lba_on_volume / 2 ^ 32)
                    ++ (bytes_32 (r.block_lba_on_volume % 2 ^ 32) ++ bytes_32 r.num_blocks)))))

abbrev read_request : List ℕ → BlockRequest
read_request b = record {
  volume_id = read_32 b 0 * 2 ^ 96 + read_32 b 4 * 2 ^ 64 + read_32 b 8 * 2 ^ 32 + read_32 b 12;
  block_lba_on_volume = read_32 b 16 * 2 ^ 32 + read_32 b 20;
  num_blocks = read_32 b 24;
}

with_request :
    {a b x y p q : ℕ}
    → a ≡ b
    → x ≡ y
    → p ≡ q
    → Path BlockRequest
        (record { volume_id = a; block_lba_on_volume = x; num_blocks = p })
        (record { volume_id = b; block_lba_on_volume = y; num_blocks = q })
with_request e f g = λ i. record { volume_id = e i; block_lba_on_volume = f i; num_blocks = g i }

big_endian-read_back :
    (r : BlockRequest) (rest : List ℕ)
    → r.volume_id < 2 ^ 128
    → r.block_lba_on_volume < 2 ^ 64
    → r.num_blocks < 2 ^ 32
    → read_request (request_bytes r ++ rest) ≡ r
big_endian-read_back r rest id lba n =
    with_request
      (omega (
        arith,
        join_32 (r.volume_id / 2 ^ 96) (omega (arith, id)),
        join_32 (r.volume_id / 2 ^ 64 % 2 ^ 32) (omega arith),
        join_32 (r.volume_id / 2 ^ 32 % 2 ^ 32) (omega arith),
        join_32 (r.volume_id % 2 ^ 32) (omega arith),
      ))
      (omega (
        arith,
        join_32 (r.block_lba_on_volume / 2 ^ 32) (omega (arith, lba)),
        join_32 (r.block_lba_on_volume % 2 ^ 32) (omega arith),
      ))
      (join_32 r.num_blocks n)

abbrev big_endian : Layout
big_endian = record {
  bytes_of = request_bytes;
  request_of = read_request;
  bytes_length = λ r. refl;
  read_back = big_endian-read_back;
}

abbrev one_volume : ℕ → Option Volume
one_volume i = if i == 9 then some two_replicas else none

abbrev user_buf : List ℕ
user_buf = replicate 4096 7

one_block-IsRange : IsRange two_replicas 20480 4096
one_block-IsRange = omega arith

abbrev sent_write : Message
sent_write = written big_endian two_replicas 20480 77 user_buf

-- In two reads, the second one byte short of what the buffer has room for.
abbrev two_pieces : List (List ℕ)
two_pieces = take 20 (wire sent_write) ∷ drop 20 (wire sent_write) ∷ []

two_pieces-joined : joined two_pieces ≡ wire sent_write
unfolding seal header_init header_serialize
two_pieces-joined = refl

two_pieces-Offered : Offered (idle 8240 no_header) two_pieces
unfolding Offered grow feed drain round take_payload take_header resume header_serialize
    header_deserialize seal header_init
two_pieces-Offered = (omega arith, (omega arith, tt))

write_message-process_received_example :
    (write_message big_endian 9 4096 20480 user_buf 77 true ≡ some sent_write)
    × Delivers
        (process_received (idle 8240 no_header) (map bytes two_pieces))
        (sent_write ∷ [])
        sent_write.header
    × (recipient (λ t. t == 600) false sent_write ≡ specific 600)
    × (handle_write_req big_endian one_volume outside true sent_write
        ≡ started 9 20480 4096 user_buf
            (submit_single_io outside (some two_replicas) 20480 4096 false))
write_message-process_received_example =
    write_message-process_received big_endian two_replicas 20480 77 user_buf one_block-IsRange
      one_volume two_replicas outside refl refl (omega arith) (omega arith) 8240 no_header
      two_pieces (record { times = 1; few = omega arith; capacity = refl; room = omega arith })
      two_pieces-joined two_pieces-Offered (λ t. t == 600) false refl

handle-read_message_example :
    (m : Message) × (read_message big_endian 9 4096 20480 4096 77 true ≡ some m)
    × (handle_read_req big_endian one_volume outside true true m
        ≡ started 9 20480 4096 [] (submit_single_io outside (some two_replicas) 20480 4096 true))
handle-read_message_example =
    handle-read_message big_endian two_replicas 20480 4096 77 one_block-IsRange one_volume
      two_replicas outside refl refl

-- The local write succeeds, and the request reaches the other replica, which refuses it.
abbrev half_written : List WriteEvent
half_written = sent 2 ∷ local_written Status.ok ∷ answered 2 Status.io ∷ []

run-tallied_example : (run half_written (two_replicas, fresh_ctx two_replicas)).1 ≡ record {
  total_replicas_targeted = 2;
  successful_writes = 1;
  failed_writes = 1;
  final_status = Status.io;
}
run-tallied_example = run-tallied half_written two_replicas (fresh_ctx two_replicas) (omega arith)

-- No replica is in a state to be written.
abbrev starting : Volume
starting = record two_replicas {
  replica_nodes = replica 1 initializing ∷ replica 2 initializing ∷ [];
}

write_replicas_lem_example : Accounted starting (write_replicas starting (fresh_ctx starting))
write_replicas_lem_example = write_replicas_lem starting (omega arith)

-- The local replica fails when its read completes, and the other one answers.
abbrev second_answers : World
second_answers = record {
  local_submission = submitted 6 8192 4096 true;
  refused_calls_back = false;
  dma_ok = λ i. true;
  ctx_ok = λ i. true;
  msg_ok = λ i. true;
}

-- SPDK refuses the local read.
abbrev spdk_refuses : World
spdk_refuses = record second_answers {
  local_submission = rejected Status.io;
  refused_calls_back = true;
}
