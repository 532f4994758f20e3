-- ===== src/NodeComm/Arrive.antt =====
-- Messages that reach a connection of src/network/xsan_node_comm.c through its receive buffer, which
-- grows up to a limit, in whatever pieces spdk_sock_recv gives their bytes.
use mathlib.Core.Path.{subst}
use xsan.Base.{
  ℕ, ◌-◌, ◌≤◌, ◌≡◌, refl, ap, sym, ◌∙◌, Option, none, some, List, [], ◌∷◌, ◌++◌, map, length,
  take_all,
}
use xsan.Protocol.{Header, Message}
use xsan.NodeComm.{Connection, Received, feed, grow, bytes, recv, followed, process_received}
use xsan.NodeComm.Wire.{AllWire, stream, idle, last_header, feed-stream}
use xsan.NodeComm.Capacity.{Fits, AllSmall, IfFits, grow-Fits}
use xsan.NodeComm.Settled.{
  idle-IsSettled, feed-IsSettled, with_capacity, result_of_capacity, feed-with_capacity,
}
use xsan.NodeComm.Coming.{Coming, grows, AllSmall-right, AfterRead, goes_on, after_read}

abbrev pub joined : List (List ℕ) → List ℕ
joined [] = []
joined (ds ∷ dss) = ds ++ joined dss

-- What holds of the connection after a read, if it is still open.
abbrev Later : (Connection → Type 0) → Option Connection → Type 0
Later next none = Unit {0}
Later next (some e) = next e

abbrev FitsRoom : List ℕ → (Connection → Type 0) → Option Connection → Type 0
FitsRoom ds next none = Unit {0}
FitsRoom ds next (some d) =
    (length ds ≤ d.recv_buf_capacity - length d.recv_buf) × Later next (feed d ds).1

-- What spdk_sock_recv promises of the pieces that it gives in turn: each has at most as many bytes as
-- the buffer has room for, after it was made larger where it was full.
unfoldable pub Offered : Connection → List (List ℕ) → Type 0
Offered c [] = Unit {0}
Offered c (ds ∷ dss) = FitsRoom ds (λ e. Offered e dss) (grow c)

-- The messages, in order, from a connection that is open between two messages afterwards.
abbrev pub Delivers : Received → List Message → Header → Type 0
Delivers o ms h = (n : ℕ) × (o ≡ (ms, some (idle n h))) × Fits (idle n h)

recv-Delivers :
    (again : Connection → Received) (d : Connection) (ds : List ℕ) (ns ls : List Message)
    (e : Connection) (h : Header)
    → length ds ≤ d.recv_buf_capacity - length d.recv_buf
    → feed d ds ≡ (ns, some e)
    → Delivers (again e) ls h
    → Delivers (recv again (bytes ds) (some d)) (ns ++ ls) h
unfolding recv followed
recv-Delivers again d ds ns ls e h l f (n, q, v) =
    (n, rw (take_all _ ds l, f) (ap (λ o. (ns ++ o.0, o.1)) q), v)

-- One read, `again` being the rest of the reading.
read_arrives :
    (again : Connection → Received) (c : Connection) (ms : List Message) (h : Header) (ds : List ℕ)
    (dss : List (List ℕ))
    → ((e : Connection) (ls : List Message)
        → AllSmall ls
        → Coming e ls h (joined dss)
        → Offered e dss
        → Delivers (again e) ls h)
    → AllSmall ms
    → Coming c ms h (ds ++ joined dss)
    → FitsRoom ds (λ e. Offered e dss) (grow c)
    → Delivers (recv again (bytes ds) (grow c)) ms h
read_arrives again c ms h ds dss rest small w q = rw g (
    next (
      after_read d ms h n ds (joined dss) (subst IfFits g (grow-Fits c w.fits)) offered.0
        (feed-with_capacity n c (ds ++ joined dss) ∙ ap (result_of_capacity n) w.due)))
  where
    grown : (n : ℕ) × (grow c ≡ some (with_capacity n c))
    grown = grows c ms h (ds ++ joined dss) small w

    n : ℕ
    n = grown.0

    d : Connection
    d = with_capacity n c

    g : grow c ≡ some d
    g = grown.1

    offered : FitsRoom ds (λ e. Offered e dss) (some d)
    offered = subst (FitsRoom ds (λ e. Offered e dss)) g q

    next : AfterRead ms h (joined dss) (feed d ds) → Delivers (recv again (bytes ds) (some d)) ms h
    next (goes_on ns e ls f whole k) =
        subst (λ t. Delivers (recv again (bytes ds) (some d)) t h) whole
          (recv-Delivers again d ds ns ls e h offered.0 f (
            rest e ls (AllSmall-right ns (subst AllSmall (sym whole) small)) k
              (subst (λ (o : Received). Later (λ x. Offered x dss) o.1) f offered.1)))

arrives :
    (c : Connection) (ms : List Message) (h : Header) (dss : List (List ℕ))
    → AllSmall ms
    → Coming c ms h (joined dss)
    → Offered c dss
    → Delivers (process_received c (map bytes dss)) ms h
unfolding process_received Offered
arrives c ms h [] small w q =
    let e : ([], some c) ≡ (ms, some (idle w.size h)) = sym (feed-IsSettled c w.settled) ∙ w.due in
    (w.size, e, subst IfFits (ap (λ (o : Received). o.1) e) w.fits)
arrives c ms h (ds ∷ dss) small w q =
    read_arrives (λ d. process_received d (map bytes dss)) c ms h ds dss
      (λ e ls. arrives e ls h dss) small w q

-- Messages that are as message_create makes them (their header deserialises to itself, their
-- checksum holds, and their payload has the length in the header), each with a payload of at most
-- 8437760 bytes, arrive at a connection that is between two messages, with a receive buffer of the
-- initial capacity doubled at most 11 times. In whatever pieces spdk_sock_recv gives their bytes, each
-- with at most as many bytes as the buffer has room for, they are dispatched, exactly these and in
-- order, and the connection stays open, between two messages, with such a buffer.
pub process_received-stream :
    (n : ℕ) (h : Header) (ms : List Message) (dss : List (List ℕ))
    → Fits (idle n h)
    → AllWire ms
    → AllSmall ms
    → joined dss ≡ stream ms
    → Offered (idle n h) dss
    → Delivers (process_received (idle n h) (map bytes dss)) ms (last_header h ms)
process_received-stream n h ms dss fits wires small whole =
    arrives (idle n h) ms (last_header h ms) dss small (record {
      fits = fits;
      settled = idle-IsSettled (idle n h) refl;
      size = n;
      due = ap (feed (idle n h)) whole ∙ feed-stream n h ms wires;
    })
