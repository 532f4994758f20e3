-- ===== src/NodeComm/Capacity.antt =====
-- How large the receive buffer of a connection gets, and with it the messages that it takes.
use xsan.Base.{
  ℕ, zero, suc, ◌+◌, ◌-◌, ◌*◌, ◌≤◌, ◌<◌, ◌≡◌, refl, ap, true, Option, none, some, List, [], ◌∷◌,
  ◌++◌, arith, length, take, length-append, length-drop, length-take, ltb, ◌==◌, Bool-cases, ==_iff,
  lt→ltb, inl, inr,
}
use xsan.Protocol.{Header, Message, header_size}
use xsan.NodeComm.{
  Connection, Received, Round, leave, close, emit, round, resume, drain, with_bytes, feed, grow,
  RecvResult, bytes, end_of_stream, would_block, failed, process_received, recv, followed,
  new_connection, recv_buf_limit, initial_recv_buf_size,
}
use xsan.NodeComm.Framing.{
  headed, RoundView, PayloadView, round_view, good, waiting, complete, partial, empty, short, bad,
}

-- The initial capacity, doubled some times.
abbrev pub doubled : ℕ → ℕ
doubled zero = initial_recv_buf_size
doubled (suc k) = doubled k * 2

-- The largest capacity below the limit that doubling reaches.
abbrev pub largest_capacity : ℕ
largest_capacity = doubled 11

pub doubled-le : (k d : ℕ) → d + k ≡ 11 → doubled k ≤ largest_capacity
doubled-le k zero h = omega (arith, ap doubled last)
  where
    last : k ≡ 11
    last = omega arith
doubled-le k (suc d) h = omega (arith, doubled-le (suc k) d (omega arith))

doubled_pos : (k : ℕ) → 0 < doubled k
doubled_pos zero = omega arith
doubled_pos (suc k) = omega (arith, doubled_pos k)

-- The capacity is the initial one, doubled at most 11 times, and the bytes fit.
pub record Fits (c : Connection) : Type 0 where
  pub times : ℕ
  pub few : times ≤ 11
  pub capacity : c.recv_buf_capacity ≡ doubled times
  pub room : length c.recv_buf ≤ c.recv_buf_capacity

pub new_connection-Fits : Fits new_connection
new_connection-Fits = record { times = 0; few = omega arith; capacity = refl; room = omega arith }

twice-few : (k n : ℕ) → k ≤ 11 → n ≡ doubled k → n * 2 ≤ recv_buf_limit → suc k ≤ 11
twice-few k n h e l = elim (Bool-cases (k == 11)) [
  | inl y ↦ absurd (omega (arith, ap doubled ((==_iff k 11).0 y)))
  | inr y ↦ ground arith
]

twice-Fits :
    (c : Connection)
    → Fits c
    → c.recv_buf_capacity * 2 ≤ recv_buf_limit
    → Fits (record c { recv_buf_capacity = c.recv_buf_capacity * 2 })
twice-Fits c v l = record {
  times = suc v.times;
  few = twice-few v.times c.recv_buf_capacity v.few v.capacity l;
  capacity = ap (λ n. n * 2) v.capacity;
  room = omega (arith, v.room);
}

abbrev pub IfFits : Option Connection → Type 0
IfFits none = Unit
IfFits (some d) = Fits d

pub positive : (c : Connection) → Fits c → ltb 0 c.recv_buf_capacity ≡ true
positive c v = simp (v.capacity) (lt→ltb _ _ (doubled_pos v.times))

pub grow-Fits : (c : Connection) → Fits c → IfFits (grow c)
unfolding grow
grow-Fits c v = elim (Bool-cases (length c.recv_buf == c.recv_buf_capacity)) [
  | inl full ↦
      simp (full, positive c v)
        (elim (Bool-cases (ltb recv_buf_limit (c.recv_buf_capacity * 2))) [
          | inl big ↦ simp big tt
          | inr small ↦ simp small (twice-Fits c v (ground arith))
        ])
  | inr free ↦ simp free v
]

-- Every payload fits the largest buffer, and so does what stays in the buffer.
pub data AllSmall : List Message → Type 0 where
  none_left : AllSmall []
  and_then :
      {m : Message} {ms : List Message}
      → m.header.payload_length ≤ largest_capacity
      → AllSmall ms
      → AllSmall (m ∷ ms)

abbrev pub Bounded : Received → Type 0
Bounded (ms, o) = AllSmall ms × IfFits o

AllSmall-append : {ms ns : List Message} → AllSmall ms → AllSmall ns → AllSmall (ms ++ ns)
AllSmall-append none_left t = t
AllSmall-append (and_then p s) t = and_then p (AllSmall-append s t)

-- A round keeps the capacity and dispatches only what the buffer holds.
abbrev RoundFits : Connection → Round → Type 0
RoundFits c (leave d) = Fits d
RoundFits c close = Unit
RoundFits c (emit m d) = (m.header.payload_length ≤ largest_capacity) × Fits d

pub room-le : (c : Connection) → Fits c → length c.recv_buf ≤ largest_capacity
room-le c v =
    omega (arith, v.room, v.capacity, doubled-le v.times (11 - v.times) (omega (arith, v.few)))

payload-Fits : (b c : Connection) {r : Round} → Fits c → PayloadView c r → RoundFits b r
payload-Fits b c v (complete p) = (
  omega (arith, room-le c v),
  record {
    times = v.times;
    few = v.few;
    capacity = v.capacity;
    room = omega (arith, v.room, length-drop c.partial_recv_header.payload_length c.recv_buf);
  },
)
payload-Fits b c v (partial p) = v

headed-Fits : (c : Connection) (h : Header) → Fits c → Fits (headed c h)
headed-Fits c h v = record {
  times = v.times;
  few = v.few;
  capacity = v.capacity;
  room = omega (arith, v.room, length-drop header_size c.recv_buf);
}

view-Fits : (c : Connection) {r : Round} → Fits c → RoundView c r → RoundFits c r
view-Fits c v (empty z) = v
view-Fits c v (short r l) = v
view-Fits c v (bad r l e) = tt
view-Fits c v (good h r l e p) = payload-Fits c (headed c h) (headed-Fits c h v) p
view-Fits c v (waiting r l p) = payload-Fits c c v p

pub drain-Bounded : (f : ℕ) (c : Connection) → Fits c → Bounded (drain f c)
unfolding drain
drain-Bounded zero c v = (none_left, v)
drain-Bounded (suc f) c v = go (round c) (view-Fits c v (round_view c)) (drain-Bounded f)
  where
    go :
        (r : Round)
        → RoundFits c r
        → ((d : Connection) → Fits d → Bounded (drain f d))
        → Bounded (resume (drain f) r)
    go (leave d) w again = (none_left, w)
    go close w again = (none_left, tt)
    go (emit m d) (p, w) again = (and_then p (again d w).0, (again d w).1)

read-Fits :
    (c : Connection) (ds : List ℕ)
    → Fits c
    → Fits (with_bytes c (take (c.recv_buf_capacity - length c.recv_buf) ds))
read-Fits c ds v = record {
  times = v.times;
  few = v.few;
  capacity = v.capacity;
  room = omega (arith, v.room, length-append c.recv_buf (take space ds), length-take space ds);
}
  where
    space : ℕ
    space = c.recv_buf_capacity - length c.recv_buf

followed-Bounded :
    (again : Connection → Received)
    → ((d : Connection) → Fits d → Bounded (again d))
    → (o : Received) → Bounded o
    → Bounded (followed again o)
unfolding followed
followed-Bounded again h (ms, none) (s, v) = (s, v)
followed-Bounded again h (ms, some d) (s, v) = (AllSmall-append s (h d v).0, (h d v).1)

recv-Bounded :
    (again : Connection → Received)
    → ((d : Connection) → Fits d → Bounded (again d))
    → (r : RecvResult) (o : Option Connection) → IfFits o
    → Bounded (recv again r o)
unfolding recv feed
recv-Bounded again h r none v = (none_left, tt)
recv-Bounded again h (bytes ds) (some c) v =
    followed-Bounded again h _ (drain-Bounded _ _ (read-Fits c ds v))
recv-Bounded again h end_of_stream (some c) v = (none_left, tt)
recv-Bounded again h would_block (some c) v = (none_left, v)
recv-Bounded again h failed (some c) v = (none_left, tt)

-- Whatever spdk_sock_recv gives, a connection whose capacity is the initial one doubled at most 11
-- times, with no more bytes than that in its buffer, stays one while it is open, and dispatches no
-- message with a payload of more than 8437760 bytes, the largest capacity that it reaches.
pub process_received-Bounded :
    (c : Connection) (rs : List RecvResult) → Fits c → Bounded (process_received c rs)
unfolding process_received
process_received-Bounded c [] v = (none_left, v)
process_received-Bounded c (r ∷ rs) v =
    recv-Bounded (λ d. process_received d rs) (λ d w. process_received-Bounded d rs w) r (grow c)
      (grow-Fits c v)
