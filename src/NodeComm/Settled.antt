-- ===== src/NodeComm/Settled.antt =====
-- What the receive loop of src/network/xsan_node_comm.c leaves in the buffer of a connection.
use mathlib.Core.List.{append-nil}
use xsan.Base.{
  ℕ, zero, suc, ◌≤◌, ◌<◌, ◌≡◌, refl, ap, ◌∙◌, true, Option, none, some, List, [], ◌∷◌, arith,
  length,
}
use xsan.Protocol.{Message, header_size}
use xsan.NodeComm.{
  Connection, Received, Round, leave, close, emit, round, resume, drain, rounds, with_bytes, feed,
}
use xsan.NodeComm.Delivery.{drain_enough}
use xsan.NodeComm.Framing.{
  PayloadView, complete, partial, RoundView, empty, short, bad, good, waiting, round_by, round_view,
  take_payload_by, round-waiting, Shrinks, view-Shrinks,
}

-- Why there is nothing to do: not even a header, or a header that waits for its payload.
pub data Waits (c : Connection) : Type 0 where
  few_bytes : length c.recv_buf ≤ header_size → Waits c
  for_payload :
      c.header_fully_received ≡ true
      → length c.recv_buf < c.partial_recv_header.payload_length
      → Waits c

pub record IsSettled (c : Connection) : Type 0 where
  pub stays : round c ≡ leave c
  pub waits : Waits c

pub idle-IsSettled : (c : Connection) → length c.recv_buf ≡ 0 → IsSettled c
idle-IsSettled c z = record { stays = round_by (empty z); waits = few_bytes (omega arith) }

abbrev Leaves : Round → Type 0
Leaves (leave d) = IsSettled d
Leaves close = Unit
Leaves (emit m d) = Unit

payload-Leaves :
    {c : Connection} {r : Round} → c.header_fully_received ≡ true → PayloadView c r → Leaves r
payload-Leaves r (complete p) = tt
payload-Leaves {c} r (partial p) = record {
  stays = round-waiting c r (omega arith) ∙ take_payload_by (partial p);
  waits = for_payload r p;
}

view-Leaves : {c : Connection} {r : Round} → RoundView c r → Leaves r
view-Leaves {c} (empty z) = idle-IsSettled c z
view-Leaves (short r l) = record { stays = round_by (short r l); waits = few_bytes (omega arith) }
view-Leaves (bad r l e) = tt
view-Leaves (good h r l e p) = payload-Leaves refl p
view-Leaves (waiting r l p) = payload-Leaves r p

abbrev pub IfSettled : Option Connection → Type 0
IfSettled none = Unit
IfSettled (some d) = IsSettled d

drain-IfSettled : (f : ℕ) (c : Connection) → rounds c ≤ f → IfSettled (drain f c).1
unfolding drain
drain-IfSettled zero c h = absurd (omega arith)
drain-IfSettled (suc f) c h =
    go (round c) (view-Shrinks (round_view c)) (view-Leaves (round_view c)) (drain-IfSettled f)
  where
    go :
        (r : Round)
        → Shrinks c r
        → Leaves r
        → ((d : Connection) → rounds d ≤ f → IfSettled (drain f d).1)
        → IfSettled (resume (drain f) r).1
    go (leave d) s l again = l
    go close s l again = tt
    go (emit m d) s l again = again d (omega arith)

pub feed-IfSettled : (c : Connection) (ds : List ℕ) → IfSettled (feed c ds).1
unfolding feed
feed-IfSettled c ds = drain-IfSettled (rounds (with_bytes c ds)) (with_bytes c ds) (omega arith)

-- Nothing happens without new bytes.
pub feed-IsSettled : (c : Connection) → IsSettled c → feed c [] ≡ ([], some c)
unfolding feed drain
feed-IsSettled c s =
    ap (λ b. drain (rounds (record c { recv_buf = b })) (record c { recv_buf = b }))
      (append-nil c.recv_buf)
    ∙ (drain_enough (rounds c) (suc (rounds c)) c (omega arith) (omega arith)
        ∙ ap (resume (drain (rounds c))) s.stays)

-- The same connection with a buffer of another size.
abbrev pub with_capacity : ℕ → Connection → Connection
with_capacity n c = record c { recv_buf_capacity = n }

abbrev round_of_capacity : ℕ → Round → Round
round_of_capacity n (leave d) = leave (with_capacity n d)
round_of_capacity n close = close
round_of_capacity n (emit m d) = emit m (with_capacity n d)

abbrev pub result_of_capacity : ℕ → Received → Received
result_of_capacity n (ms, none) = (ms, none)
result_of_capacity n (ms, some d) = (ms, some (with_capacity n d))

round-with_capacity :
    (n : ℕ) (c : Connection) {r : Round}
    → RoundView c r
    → round (with_capacity n c) ≡ round_of_capacity n r
round-with_capacity n c (empty z) = round_by (empty z)
round-with_capacity n c (short r l) = round_by (short r l)
round-with_capacity n c (bad r l e) = round_by (bad r l e)
round-with_capacity n c (good h r l e (complete p)) = round_by (good h r l e (complete p))
round-with_capacity n c (good h r l e (partial p)) = round_by (good h r l e (partial p))
round-with_capacity n c (waiting r l (complete p)) = round_by (waiting r l (complete p))
round-with_capacity n c (waiting r l (partial p)) = round_by (waiting r l (partial p))

drain-with_capacity :
    (n f : ℕ) (c : Connection) → drain f (with_capacity n c) ≡ result_of_capacity n (drain f c)
unfolding drain
drain-with_capacity n zero c = refl
drain-with_capacity n (suc f) c =
    ap (resume (drain f)) (round-with_capacity n c (round_view c))
    ∙ go (round c) (drain-with_capacity n f)
  where
    cons :
        (m : Message) (o : Received)
        → (m ∷ (result_of_capacity n o).0, (result_of_capacity n o).1)
          ≡ result_of_capacity n (m ∷ o.0, o.1)
    cons m (ms, none) = refl
    cons m (ms, some d) = refl

    go :
        (r : Round)
        → ((d : Connection) → drain f (with_capacity n d) ≡ result_of_capacity n (drain f d))
        → resume (drain f) (round_of_capacity n r) ≡ result_of_capacity n (resume (drain f) r)
    go (leave d) again = refl
    go close again = refl
    go (emit m d) again = ap (λ o. (m ∷ o.0, o.1)) (again d) ∙ cons m (drain f d)

pub feed-with_capacity :
    (n : ℕ) (c : Connection) (ds : List ℕ)
    → feed (with_capacity n c) ds ≡ result_of_capacity n (feed c ds)
unfolding feed
feed-with_capacity n c ds = drain-with_capacity n (rounds (with_bytes c ds)) (with_bytes c ds)
