-- ===== src/NodeComm/Wire.antt =====
-- Messages as they stand on the wire, and what the loop over the buffer of a connection of
-- src/network/xsan_node_comm.c makes of them once they are in it.
use xsan.Base.{
  ℕ, suc, ◌≤◌, ◌≡◌, refl, ap, sym, ◌∙◌, false, some, List, [], ◌∷◌, ◌++◌, arith, length, take, drop,
  length-append, take_all, drop_all, drop-length_append,
}
use xsan.Protocol.{Header, Message, header_serialize, header_size}
use xsan.Protocol.RoundTrip.{length-header_serialize}
use xsan.Protocol.Checksum.{IsWire}
use xsan.NodeComm.{Connection, emit, round, drain, rounds, with_bytes, feed}
use xsan.NodeComm.Framing.{round_by, good, complete}
use xsan.NodeComm.Delivery.{drain_enough, then_feed, feed-append}

abbrev pub wire : Message → List ℕ
wire m = header_serialize m.header ++ m.payload

abbrev pub stream : List Message → List ℕ
stream [] = []
stream (m ∷ ms) = wire m ++ stream ms

pub data AllWire : List Message → Type 0 where
  no_more : AllWire []
  and_then : {m : Message} {ms : List Message} → IsWire m → AllWire ms → AllWire (m ∷ ms)

-- A connection between two messages, with the last header that it read.
abbrev pub idle : ℕ → Header → Connection
idle n h = record {
  recv_buf = [];
  recv_buf_capacity = n;
  partial_recv_header = h;
  header_fully_received = false;
}

abbrev pub last_header : Header → List Message → Header
last_header h [] = h
last_header h (m ∷ ms) = last_header m.header ms

round-wire :
    (n : ℕ) (h : Header) (m : Message)
    → IsWire m
    → round (with_bytes (idle n h) (wire m)) ≡ emit m (idle n m.header)
round-wire n h m w =
    round_by (
      good m.header refl (omega (arith, length-append (header_serialize m.header) m.payload, size))
        w.header (complete fits))
    ∙ simp (dropped, take_whole, drop_none)
  where
    size : length (header_serialize m.header) ≡ header_size
    size = length-header_serialize m.header

    dropped : drop header_size (wire m) ≡ m.payload
    dropped = drop-length_append header_size (header_serialize m.header) m.payload (sym size)

    fits : m.header.payload_length ≤ length (drop header_size (wire m))
    fits = omega (arith, w.counted, ap length dropped)

    drop_none : drop m.header.payload_length m.payload ≡ []
    drop_none = drop_all m.header.payload_length m.payload (omega (arith, w.counted))

    take_whole : take m.header.payload_length m.payload ≡ m.payload
    take_whole = take_all m.header.payload_length m.payload (omega (arith, w.counted))

feed-wire :
    (n : ℕ) (h : Header) (m : Message)
    → IsWire m
    → feed (idle n h) (wire m) ≡ (m ∷ [], some (idle n m.header))
unfolding feed drain round
feed-wire n h m w =
    drain_enough (rounds c) (suc (suc (rounds c))) c (omega arith) (omega arith)
    ∙ rw (round-wire n h m w) refl
  where
    c : Connection
    c = with_bytes (idle n h) (wire m)

-- Messages that are as message_create makes them (their header deserialises to itself, their checksum
-- holds, and their payload has the length in the header), appended to an empty buffer whatever its
-- capacity, make the loop dispatch exactly these messages, in order, and leave the connection open
-- between two messages.
pub feed-stream :
    (n : ℕ) (h : Header) (ms : List Message)
    → AllWire ms
    → feed (idle n h) (stream ms) ≡ (ms, some (idle n (last_header h ms)))
unfolding feed drain round
feed-stream n h [] no_more = refl
feed-stream n h (m ∷ ms) (and_then w ws) =
    feed-append (idle n h) (wire m) (stream ms)
    ∙ (ap (λ o. then_feed o (stream ms)) (feed-wire n h m w)
        ∙ ap (λ o. (m ∷ o.0, o.1)) (feed-stream n m.header ms ws))
