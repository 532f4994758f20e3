-- ===== src/NodeComm.antt =====
-- The receiving side of src/network/xsan_node_comm.c: the buffer of a connection, the loop that
-- cuts it into messages, the choice of a handler, and the loop that reads from the socket.
-- spdk_sock_recv is an argument: the list of its results. The allocations of messages and of the
-- larger buffer succeed. A handler takes the message over, and leaves the connection alone.
pub mod Framing
pub mod Delivery
pub mod Wire
pub mod Capacity
pub mod Settled
pub mod Coming
pub mod Arrive
pub mod Send
pub mod Sent
mod Tests
use xsan.Base.{
  ℕ, zero, suc, ◌+◌, ◌-◌, ◌*◌, ◌≤◌, Bool, true, false, Option, none, some, List, [], ◌∷◌, ◌++◌,
  length, take, drop, ltb, leb, ◌==◌, if◌then◌else◌, not, ◌&&◌,
}
use xsan.Protocol.{Header, Message, header_deserialize, header_size, max_payload_size}

-- `xsan_connection_ctx_t`, as far as receiving goes: `recv_buf` is the list of the bytes that it
-- holds, so its length is `recv_buf_len`.
pub record Connection : Type 0 where
  pub recv_buf : List ℕ
  pub recv_buf_capacity : ℕ
  pub partial_recv_header : Header
  pub header_fully_received : Bool

abbrev pub initial_recv_buf_size : ℕ
initial_recv_buf_size = header_size + 4096

-- Above this capacity the connection is closed.
abbrev pub recv_buf_limit : ℕ
recv_buf_limit = max_payload_size + header_size + 4096

-- `memset` leaves a header of zeros.
abbrev pub no_header : Header
no_header = record {
  magic = 0;
  type = 0;
  version = 0;
  payload_length = 0;
  transaction_id = 0;
  checksum = 0;
}

abbrev pub new_connection : Connection
new_connection = record {
  recv_buf = [];
  recv_buf_capacity = initial_recv_buf_size;
  partial_recv_header = no_header;
  header_fully_received = false;
}

-- What one round of the loop over the buffer does: it leaves the loop, it closes the connection,
-- or it dispatches a message and goes on.
pub data Round : Type 0 where
  leave : Connection → Round
  close : Round
  emit : Message → Connection → Round

-- The second half of a round, once the header is there.
unfoldable pub take_payload : Connection → Round
take_payload c =
    if leb c.partial_recv_header.payload_length (length c.recv_buf)
    then emit
        (record {
          header = c.partial_recv_header;
          payload = take c.partial_recv_header.payload_length c.recv_buf;
        })
        (record c {
          recv_buf = drop c.partial_recv_header.payload_length c.recv_buf;
          header_fully_received = false;
        })
    else leave c

-- The first half, with the result of `header_deserialize`, which has checked the magic number and
-- the payload length that the code checks again.
unfoldable pub take_header : Connection → Option Header → Round
unfolding take_payload
take_header c none = close
take_header c (some h) = take_payload (record c {
  recv_buf = drop header_size c.recv_buf;
  partial_recv_header = h;
  header_fully_received = true;
})

-- One round of `while (conn_ctx->recv_buf_len > 0)`, its test included.
unfoldable pub round : Connection → Round
unfolding take_payload take_header
round c =
    if length c.recv_buf == 0
    then leave c
    else if c.header_fully_received
    then take_payload c
    else if leb header_size (length c.recv_buf)
    then take_header c (header_deserialize c.recv_buf)
    else leave c

-- The messages dispatched, and the connection, or none where it was closed.
abbrev pub Received : Type 0
Received = List Message × Option Connection

-- What follows a round, `again` being the rest of the loop.
unfoldable pub resume : (again : Connection → Received) → Round → Received
resume again (leave c) = ([], some c)
resume again close = ([], none)
resume again (emit m c) = let (ms, o) = again c in (m ∷ ms, o)

unfoldable pub drain : ℕ → Connection → Received
unfolding resume
drain zero c = ([], some c)
drain (suc fuel) c = resume (drain fuel) (round c)

-- Rounds enough for the bytes in the buffer: each takes a header or ends a message.
abbrev pub rounds : Connection → ℕ
rounds c = 2 * length c.recv_buf + (if c.header_fully_received then 1 else 0) + 1

abbrev pub with_bytes : Connection → List ℕ → Connection
with_bytes c ds = record c { recv_buf = c.recv_buf ++ ds }

-- The bytes of one read, appended and worked off.
unfoldable pub feed : Connection → List ℕ → Received
unfolding drain
feed c ds = drain (rounds (with_bytes c ds)) (with_bytes c ds)

-- The buffer is doubled when it is full; none where that exceeds the limit.
unfoldable pub grow : Connection → Option Connection
grow c =
    let capacity =
      if ltb 0 c.recv_buf_capacity then c.recv_buf_capacity * 2 else initial_recv_buf_size in
    if length c.recv_buf == c.recv_buf_capacity
    then (if ltb recv_buf_limit capacity
        then none
        else some (record c { recv_buf_capacity = capacity }))
    else some c

-- A result of spdk_sock_recv: bytes, the peer's end of the stream, EAGAIN, or another error.
pub data RecvResult : Type 0 where
  bytes : List ℕ → RecvResult
  end_of_stream would_block failed : RecvResult

-- What follows the messages of one read, `again` being the rest of the reading.
pub followed : (again : Connection → Received) → Received → Received
followed again (ms, none) = (ms, none)
followed again (ms, some d) = let (ns, o) = again d in (ms ++ ns, o)

-- The result of one call of spdk_sock_recv, after the buffer was made large enough; the call gives
-- at most as many bytes as the buffer has room for.
pub recv : (again : Connection → Received) → RecvResult → Option Connection → Received
unfolding followed feed
recv again r none = ([], none)
recv again (bytes ds) (some c) =
    followed again (feed c (take (c.recv_buf_capacity - length c.recv_buf) ds))
recv again end_of_stream (some c) = ([], none)
recv again would_block (some c) = ([], some c)
recv again failed (some c) = ([], none)

-- `_process_received_data_for_connection`, over the results that spdk_sock_recv gives in turn. A
-- list that is exhausted leaves the loop as EAGAIN does.
pub process_received : Connection → List RecvResult → Received
unfolding grow recv
process_received c [] = ([], some c)
process_received c (r ∷ rs) = recv (λ d. process_received d rs) r (grow c)

abbrev pub msg_type_max : ℕ
msg_type_max = 604

-- Who gets a message: the handler registered for its type, the connection's generic handler, or
-- nobody.
pub data Recipient : Type 0 where
  specific : ℕ → Recipient
  generic discarded : Recipient

-- `registered` says whether a type has a specific handler; `has_generic`: the connection has one.
unfoldable pub recipient : (registered : ℕ → Bool) → (has_generic : Bool) → Message → Recipient
recipient registered has_generic m =
    if ltb 0 m.header.type && (ltb m.header.type msg_type_max && registered m.header.type)
    then specific m.header.type
    else if has_generic
    then generic
    else discarded
