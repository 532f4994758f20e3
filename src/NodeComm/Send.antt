-- ===== src/NodeComm/Send.antt =====
-- The sending side of src/network/xsan_node_comm.c, the handlers' table and the list of connections.
-- What spdk_sock_writev answers is an argument, and so are whether there is an SPDK thread and
-- whether the socket has its connection's context.
use xsan.Base.{
  ℕ, zero, suc, Bool, false, Option, none, some, List, [], ◌∷◌, ◌++◌, length, take, ltb, leb, ◌==◌,
  if◌then◌else◌, not, ◌||◌, set,
}
use xsan.Status.{Status}
use xsan.StringUtils.Compare.{ℤ, pos, negsuc}
use xsan.Protocol.{Message, header_serialize}
use xsan.NodeComm.{msg_type_max}

-- How many bytes are taken, or the `errno`.
pub data Writev : Type 0 where
  wrote : ℕ → Writev
  write_failed : (errno : ℕ) → Writev

-- A status of the module's own, or the one that xsan_error_from_errno gives for an `errno`.
pub data SendStatus : Type 0 where
  status : Status → SendStatus
  from_errno : ℕ → SendStatus

-- `sending` is whether the connection's `current_send_cb` is set.
pub record Sender : Type 0 where
  pub module_initialized : Bool
  pub sending : Bool

pub record SendCall : Type 0 where
  pub has_sock : Bool
  pub msg : Option Message
  pub has_cb : Bool
  pub in_thread : Bool
  pub has_context : Bool
  pub writev : Writev

-- The status, what the callback is called with (0 or a negated `errno`), and the bytes that leave.
pub record Sending : Type 0 where
  pub answer : SendStatus
  pub called : Option ℤ
  pub bytes_sent : List ℕ

abbrev refuse : Status → Sending
refuse s = record { answer = status s; called = none; bytes_sent = [] }

-- The two parts of `iov`; a payload that is NULL is empty.
abbrev pub iov_bytes : Message → List ℕ
iov_bytes m = header_serialize m.header ++ take m.header.payload_length m.payload

-- The code is an `int`.
abbrev negated : ℕ → ℤ
negated zero = pos 0
negated (suc n) = negsuc n

abbrev callback : Bool → ℤ → Option ℤ
callback has_cb code = if has_cb then some code else none

unfoldable pub after_writev : Sender → (has_cb : Bool) → List ℕ → Writev → Sending × Sender
after_writev s has_cb out (write_failed e) =
    (record { answer = from_errno e; called = callback has_cb (negated e); bytes_sent = [] }, s)
after_writev s has_cb out (wrote n) =
    if ltb n (length out)
    then (
      record { answer = status Status.ok; called = none; bytes_sent = take n out },
      record s { sending = has_cb },
    )
    else (
      record { answer = status Status.ok; called = callback has_cb (pos 0); bytes_sent = out },
      s,
    )

abbrev pub send_checked : Sender → SendCall → Option Message → Sending × Sender
send_checked s x none = (refuse Status.invalid_param, s)
send_checked s x (some m) =
    if not x.has_sock
    then (refuse Status.invalid_param, s)
    else if not x.in_thread
    then (refuse Status.thread_context, s)
    else if not x.has_context
    then (refuse Status.invalid_param, s)
    else if s.sending
    then (refuse Status.busy, s)
    else after_writev s x.has_cb (iov_bytes m) x.writev

unfoldable pub send_msg : Sender → SendCall → Sending × Sender
unfolding after_writev
send_msg s x =
    if not s.module_initialized then (refuse Status.generic, s) else send_checked s x x.msg

-- One call after the other, on one connection.
unfoldable pub run_sends : Sender → List SendCall → List Sending × Sender
unfolding send_msg
run_sends s [] = ([], s)
run_sends s (x ∷ xs) =
    let (r, s') = send_msg s x in let (rs, s'') = run_sends s' xs in (r ∷ rs, s'')

abbrev pub all_sent : List Sending → List ℕ
all_sent [] = []
all_sent (r ∷ rs) = r.bytes_sent ++ all_sent rs

-- The handlers by message type; 0 is NULL.
unfoldable pub register_message_handler :
    (initialized : Bool) → List ℕ → (type handler : ℕ) → Status × List ℕ
register_message_handler initialized handlers type handler =
    if not initialized
    then (Status.not_initialized, handlers)
    else if type == 0 || leb msg_type_max type
    then (Status.invalid_param, handlers)
    else (Status.ok, set handlers type handler)

-- The connections by their sockets, the newest first.
unfoldable pub add_connection : List ℕ → (sock : ℕ) → List ℕ
add_connection socks sock = sock ∷ socks

unfoldable pub find_connection : List ℕ → (sock : ℕ) → Bool
find_connection [] sock = false
find_connection (c ∷ cs) sock = c == sock || find_connection cs sock

-- The call closes the socket, or never returns: it removes a connection from the list with the lock
-- held that the removal takes again.
pub data Disconnect : Type 0 where
  nothing_to_do closed stuck : Disconnect

unfoldable pub disconnect : List ℕ → (sock : Option ℕ) → Disconnect
unfolding find_connection
disconnect socks none = nothing_to_do
disconnect socks (some sock) =
    if sock == 0 then nothing_to_do else if find_connection socks sock then stuck else closed
