-- ===== src/NodeComm/Tests.antt =====
-- Runs of the receiving side of src/network/xsan_node_comm.c on concrete inputs.
use xsan.Base.{ℕ, List, ◌≡◌, refl, true, none, map, take, arith, false, some, [], ◌∷◌, ◌++◌, ◌==◌}
use xsan.Protocol.{
  Message, header_serialize, header_deserialize, verify_checksum, calculate_checksum, checksum_from,
  checksum_data,
}
use xsan.Protocol.Checksum.{IsWire}
use xsan.NodeComm.{
  Received, new_connection, no_header, feed, drain, round, take_payload, take_header, resume,
  process_received, recv, followed, grow, bytes, would_block, recipient, specific,
}
use xsan.NodeComm.Delivery.{then_feed, feed-append}
use xsan.NodeComm.Wire.{AllWire, no_more, and_then, wire, stream, idle}
use xsan.NodeComm.Arrive.{joined, Offered, Delivers, process_received-stream}
use xsan.Status.{Status}
use xsan.NodeComm.Send.{
  wrote, status, iov_bytes, send_msg, run_sends, after_writev, all_sent, disconnect, stuck,
}
use xsan.NodeComm.Sent.{ready, whole, delivered, run_sends-process_received, send_msg-blocked}
use xsan.NodeComm.Capacity.{
  AllSmall, none_left, and_then as and_small, Bounded, new_connection-Fits,
  process_received-Bounded,
}

abbrev write_request : Message
write_request = record {
  header = record {
    magic = 0x5853414E;
    type = 600;
    version = 1;
    payload_length = 2;
    transaction_id = 7;
    checksum = 423;
  };
  payload = 4 ∷ 5 ∷ [];
}

abbrev heartbeat : Message
heartbeat = record {
  header = record {
    magic = 0x5853414E;
    type = 2;
    version = 1;
    payload_length = 0;
    transaction_id = 8;
    checksum = 325;
  };
  payload = [];
}

write_request-IsWire : IsWire write_request
unfolding header_serialize header_deserialize verify_checksum calculate_checksum checksum_from
    checksum_data
write_request-IsWire = record { header = refl; checked = refl; counted = refl }

heartbeat-IsWire : IsWire heartbeat
unfolding header_serialize header_deserialize verify_checksum calculate_checksum checksum_from
    checksum_data
heartbeat-IsWire = record { header = refl; checked = refl; counted = refl }

abbrev read_result : Received
read_result = (write_request ∷ heartbeat ∷ [], some (idle 4120 heartbeat.header))

two_messages-AllWire : AllWire (write_request ∷ heartbeat ∷ [])
two_messages-AllWire = and_then write_request-IsWire (and_then heartbeat-IsWire no_more)

two_messages-AllSmall : AllSmall (write_request ∷ heartbeat ∷ [])
two_messages-AllSmall = and_small (omega arith) (and_small (omega arith) none_left)

-- Both messages in two reads: the first ends within the payload of the first message.
abbrev two_pieces : List (List ℕ)
two_pieces = take 25 (wire write_request) ∷ (5 ∷ wire heartbeat) ∷ []

two_pieces-joined : joined two_pieces ≡ stream (write_request ∷ heartbeat ∷ [])
unfolding header_serialize
two_pieces-joined = refl

two_pieces-Offered : Offered (idle 4120 no_header) two_pieces
unfolding Offered grow feed drain round take_payload take_header resume header_serialize
    header_deserialize
two_pieces-Offered = (omega arith, (omega arith, tt))

process_received-stream_example :
    Delivers
      (process_received (idle 4120 no_header) (map bytes two_pieces))
      (write_request ∷ heartbeat ∷ [])
      heartbeat.header
process_received-stream_example =
    process_received-stream 4120 no_header (write_request ∷ heartbeat ∷ []) two_pieces
      new_connection-Fits two_messages-AllWire two_messages-AllSmall two_pieces-joined
      two_pieces-Offered

-- A read that ends within a header.
feed-append_example :
    feed new_connection ((0x58 ∷ 0x53 ∷ []) ++ (1 ∷ []))
    ≡ then_feed (feed new_connection (0x58 ∷ 0x53 ∷ [])) (1 ∷ [])
feed-append_example = feed-append new_connection (0x58 ∷ 0x53 ∷ []) (1 ∷ [])

process_received-Bounded_example : Bounded (
    process_received new_connection
      (bytes (wire write_request) ∷ bytes (wire heartbeat) ∷ would_block ∷ []))
process_received-Bounded_example =
    process_received-Bounded new_connection
      (bytes (wire write_request) ∷ bytes (wire heartbeat) ∷ would_block ∷ []) new_connection-Fits

two_reads :
    process_received new_connection
      (bytes (wire write_request) ∷ bytes (wire heartbeat) ∷ would_block ∷ [])
    ≡ read_result
unfolding process_received recv followed grow feed drain round take_payload take_header resume
    header_serialize header_deserialize
two_reads = refl

to_specific : recipient (λ t. t == 600) false write_request ≡ specific 600
unfolding recipient
to_specific = refl

two_pieces-all_sent :
    joined two_pieces
    ≡ all_sent (run_sends ready (map (whole true) (write_request ∷ heartbeat ∷ []))).0
unfolding run_sends send_msg after_writev header_serialize
two_pieces-all_sent = refl

run_sends-process_received_example :
    (run_sends ready (map (whole true) (write_request ∷ heartbeat ∷ []))
      ≡ (map (delivered true) (write_request ∷ heartbeat ∷ []), ready))
    × Delivers
        (process_received (idle 4120 no_header) (map bytes two_pieces))
        (write_request ∷ heartbeat ∷ [])
        heartbeat.header
run_sends-process_received_example =
    run_sends-process_received true 4120 no_header (write_request ∷ heartbeat ∷ []) two_pieces
      new_connection-Fits two_messages-AllWire two_messages-AllSmall two_pieces-all_sent
      two_pieces-Offered

send_msg-blocked_example :
    ((send_msg ready (record (whole true write_request) { writev = wrote 10 })).0 ≡ record {
      answer = status Status.ok;
      called = none;
      bytes_sent = take 10 (iov_bytes write_request);
    })
    × (all_sent
          (run_sends ready
            (record (whole true write_request) { writev = wrote 10 } ∷ whole true heartbeat ∷ [])).0
        ≡ take 10 (iov_bytes write_request))
unfolding header_serialize
send_msg-blocked_example =
    send_msg-blocked write_request 10 (whole true heartbeat ∷ []) (omega arith)

-- Disconnecting a connection that is on the list.
disconnect_listed : disconnect (3 ∷ 5 ∷ []) (some 5) ≡ stuck
unfolding disconnect
disconnect_listed = refl
