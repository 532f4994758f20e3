-- ===== src/NodeComm/Sent.antt =====
-- What arrives of the messages that xsan_node_comm_send_msg of src/network/xsan_node_comm.c sends.
use mathlib.Core.List.{append-nil}
use xsan.Base.{
  ℕ, Bool, true, false, Option, none, some, List, [], ◌∷◌, ◌++◌, map, length, take, take_all,
  if◌then◌else◌, if_false, if_true, if_cases, ge→ltb, lt→ltb, not, ◌<◌, arith, ◌≡◌, refl, ap, ap₂,
  ◌∙◌,
}
use xsan.Status.{Status}
use xsan.Protocol.{Header, Message, header_serialize}
use xsan.Protocol.Checksum.{IsWire}
use xsan.StringUtils.Compare.{pos}
use xsan.NodeComm.{bytes, process_received}
use xsan.NodeComm.Capacity.{Fits, AllSmall}
use xsan.NodeComm.Arrive.{joined, Offered, Delivers, process_received-stream}
use xsan.NodeComm.Wire.{wire, stream, AllWire, no_more, and_then, idle, last_header}
use xsan.NodeComm.Send.{
  wrote, status, Sender, SendCall, Sending, iov_bytes, send_checked, after_writev, send_msg,
  run_sends, all_sent,
}

-- A connection that can send.
abbrev pub ready : Sender
ready = record { module_initialized = true; sending = false }

-- A call of which the socket takes all bytes, and their number.
abbrev pub whole : Bool → Message → SendCall
whole has_cb m = record {
  has_sock = true;
  msg = some m;
  has_cb = has_cb;
  in_thread = true;
  has_context = true;
  writev = wrote (length (iov_bytes m));
}

abbrev pub delivered : Bool → Message → Sending
delivered has_cb m = record {
  answer = status Status.ok;
  called = if has_cb then some (pos 0) else none;
  bytes_sent = iov_bytes m;
}

send_msg-whole :
    (has_cb : Bool) (m : Message) → send_msg ready (whole has_cb m) ≡ (delivered has_cb m, ready)
unfolding send_msg after_writev
send_msg-whole has_cb m =
    if_false _ _ (ge→ltb (length (iov_bytes m)) (length (iov_bytes m)) (omega arith))

run_sends-whole :
    (has_cb : Bool) (ms : List Message)
    → run_sends ready (map (whole has_cb) ms) ≡ (map (delivered has_cb) ms, ready)
unfolding run_sends
run_sends-whole has_cb [] = refl
run_sends-whole has_cb (m ∷ ms) =
    ap
      (λ r. (
        r.0 ∷ (run_sends r.1 (map (whole has_cb) ms)).0,
        (run_sends r.1 (map (whole has_cb) ms)).1,
      ))
      (send_msg-whole has_cb m)
    ∙ ap (λ r. (delivered has_cb m ∷ r.0, r.1)) (run_sends-whole has_cb ms)

iov_bytes-wire : (m : Message) → IsWire m → iov_bytes m ≡ wire m
iov_bytes-wire m w =
    ap (λ p. header_serialize m.header ++ p)
      (take_all m.header.payload_length m.payload (omega (arith, w.counted)))

all_sent-stream :
    (has_cb : Bool) (ms : List Message)
    → AllWire ms
    → all_sent (map (delivered has_cb) ms) ≡ stream ms
all_sent-stream has_cb [] no_more = refl
all_sent-stream has_cb (m ∷ ms) (and_then w ws) =
    ap₂ (λ a b. a ++ b) (iov_bytes-wire m w) (all_sent-stream has_cb ms ws)

-- Messages as message_create makes them, each with a payload of at most 8437760 bytes, sent one after
-- the other over a connection whose socket takes every write whole, are each answered with XSAN_OK
-- and, where there is one, a callback with 0. The bytes that leave, in whatever pieces
-- spdk_sock_recv gives them, each with at most as many bytes as the buffer has room for, make a
-- connection that is between two messages, with a buffer of the initial capacity doubled at most 11
-- times, dispatch exactly these messages, in order, and stay open between two messages.
pub run_sends-process_received :
    (has_cb : Bool) (n : ℕ) (h : Header) (ms : List Message) (dss : List (List ℕ))
    → Fits (idle n h)
    → AllWire ms
    → AllSmall ms
    → joined dss ≡ all_sent (run_sends ready (map (whole has_cb) ms)).0
    → Offered (idle n h) dss
    → (run_sends ready (map (whole has_cb) ms) ≡ (map (delivered has_cb) ms, ready))
      × Delivers (process_received (idle n h) (map bytes dss)) ms (last_header h ms)
run_sends-process_received has_cb n h ms dss fits w small all offered = (
  run_sends-whole has_cb ms,
  process_received-stream n h ms dss fits w small
      (all ∙ ap (λ r. all_sent r.0) (run_sends-whole has_cb ms) ∙ all_sent-stream has_cb ms w)
      offered,
)

-- A connection whose last write was cut short and had a callback.
abbrev pub blocked : Sender
blocked = record { module_initialized = true; sending = true }

abbrev IsSilent : Sending × Sender → Type 0
IsSilent r = (r.0.bytes_sent ≡ []) × (r.1 ≡ blocked)

send_checked-IsSilent : (x : SendCall) (o : Option Message) → IsSilent (send_checked blocked x o)
send_checked-IsSilent x none = (refl, refl)
send_checked-IsSilent x (some m) =
    if_cases IsSilent (not x.has_sock) _ _ (λ a. (refl, refl))
      λ a.
        if_cases IsSilent (not x.in_thread) _ _ (λ b. (refl, refl))
          λ b. if_cases IsSilent (not x.has_context) _ _ (λ c. (refl, refl)) λ c. (refl, refl)

send_msg-IsSilent : (x : SendCall) → IsSilent (send_msg blocked x)
unfolding send_msg
send_msg-IsSilent x = send_checked-IsSilent x x.msg

send_msg-cut :
    (m : Message) (n : ℕ)
    → n < length (iov_bytes m)
    → send_msg ready (record (whole true m) { writev = wrote n }) ≡ (
      record { answer = status Status.ok; called = none; bytes_sent = take n (iov_bytes m) },
      blocked,
    )
unfolding send_msg after_writev
send_msg-cut m n h = if_true _ _ (lt→ltb n (length (iov_bytes m)) h)

-- Nothing ever leaves over such a connection again, whatever is sent.
pub run_sends-blocked : (xs : List SendCall) → all_sent (run_sends blocked xs).0 ≡ []
unfolding run_sends
run_sends-blocked [] = refl
run_sends-blocked (x ∷ xs) =
    let (silent, same) = send_msg-IsSilent x in
    ap₂ (λ a b. a ++ b) silent (ap (λ s. all_sent (run_sends s xs).0) same ∙ run_sends-blocked xs)

-- If the socket takes only a part of a message, xsan_node_comm_send_msg with a callback answers
-- XSAN_OK and does not call it, and whatever is sent over the connection afterwards, nothing leaves
-- any more: neither the rest of the message nor a later one.
pub send_msg-blocked :
    (m : Message) (n : ℕ) (xs : List SendCall)
    → n < length (iov_bytes m)
    → ((send_msg ready (record (whole true m) { writev = wrote n })).0
        ≡ record { answer = status Status.ok; called = none; bytes_sent = take n (iov_bytes m) })
      × (all_sent (run_sends ready (record (whole true m) { writev = wrote n } ∷ xs)).0
          ≡ take n (iov_bytes m))
unfolding run_sends
send_msg-blocked m n xs h =
    let cut : send_msg ready (record (whole true m) { writev = wrote n }) ≡ (
      record { answer = status Status.ok; called = none; bytes_sent = take n (iov_bytes m) },
      blocked,
    ) =
      send_msg-cut m n h in
    (
      ap (λ r. r.0) cut,
      ap (λ r. r.0.bytes_sent ++ all_sent (run_sends r.1 xs).0) cut
          ∙ ap (λ b. take n (iov_bytes m) ++ b) (run_sends-blocked xs)
          ∙ append-nil (take n (iov_bytes m)),
    )
