-- ===== src/NodeComm/Delivery.antt =====
-- The stream of a connection of src/network/xsan_node_comm.c, cut into reads.
use xsan.Base.{
  ℕ, zero, suc, ◌≤◌, ◌≡◌, refl, ap, sym, ◌∙◌, none, some, List, ◌∷◌, ◌++◌, arith, length-append,
}
use mathlib.Core.List.{append_assoc}
use xsan.Protocol.{Message}
use xsan.NodeComm.{
  Connection, Received, Round, leave, close, emit, round, resume, drain, rounds, with_bytes, feed,
}
use xsan.NodeComm.Framing.{round_view, Shrinks, view-Shrinks, Extends, view-Extends}

-- Fuel for the bytes in the buffer is enough: more changes nothing.
pub drain_enough : (f g : ℕ) (c : Connection) → rounds c ≤ f → rounds c ≤ g → drain f c ≡ drain g c
unfolding drain
drain_enough zero g c hf hg = absurd (omega arith)
drain_enough (suc f) zero c hf hg = absurd (omega arith)
drain_enough (suc f) (suc g) c hf hg = go (round c) (view-Shrinks (round_view c)) (drain_enough f g)
  where
    go :
        (r : Round)
        → Shrinks c r
        → ((d : Connection) → rounds d ≤ f → rounds d ≤ g → drain f d ≡ drain g d)
        → resume (drain f) r ≡ resume (drain g) r
    go (leave d) s again = refl
    go close s again = refl
    go (emit m d) s again = ap (λ o. (m ∷ o.0, o.1)) (again d (omega arith) (omega arith))

-- The outcome of one read followed by the bytes of another.
abbrev pub then_feed : Received → List ℕ → Received
then_feed (ms, none) ys = (ms, none)
then_feed (ms, some d) ys = let (ns, o) = feed d ys in (ms ++ ns, o)

then_feed-cons :
    (m : Message) (o : Received) (ys : List ℕ)
    → then_feed (m ∷ o.0, o.1) ys ≡ (m ∷ (then_feed o ys).0, (then_feed o ys).1)
then_feed-cons m (ms, none) ys = refl
then_feed-cons m (ms, some d) ys = refl

drain_more :
    (f g : ℕ) (c : Connection) (ys : List ℕ)
    → rounds c ≤ f
    → rounds (with_bytes c ys) ≤ g
    → drain g (with_bytes c ys) ≡ then_feed (drain f c) ys
unfolding drain feed
drain_more zero g c ys hf hg = absurd (omega arith)
drain_more (suc f) zero c ys hf hg = absurd (omega arith)
drain_more (suc f) (suc g) c ys hf hg =
    go (round c) (view-Shrinks (round_view c)) (view-Extends ys (round_view c)) (drain_more f g)
  where
    go :
        (r : Round)
        → Shrinks c r
        → Extends ys c r
        → ((d : Connection) (zs : List ℕ)
            → rounds d ≤ f
            → rounds (with_bytes d zs) ≤ g
            → drain g (with_bytes d zs) ≡ then_feed (drain f d) zs)
        → resume (drain g) (round (with_bytes c ys)) ≡ then_feed (resume (drain f) r) ys
    go (leave d) s e again = rw e (
        drain_enough (suc g) (rounds (with_bytes d ys)) (with_bytes d ys)
          (omega (arith, length-append c.recv_buf ys, length-append d.recv_buf ys)) (omega arith))
    go close s e again = rw e
    go (emit m d) s e again = rw e (
        ap (λ o. (m ∷ o.0, o.1))
          (again d ys (omega arith)
            (omega (arith, length-append c.recv_buf ys, length-append d.recv_buf ys)))
        ∙ sym (then_feed-cons m (drain f d) ys))

-- Reading `xs` and then `ys` dispatches the same messages, in the same order, and leaves the same
-- connection, open or closed, as reading all the bytes at once.
pub feed-append : (c : Connection) (xs ys : List ℕ) → feed c (xs ++ ys) ≡ then_feed (feed c xs) ys
unfolding feed
feed-append c xs ys =
    rw (← append_assoc c.recv_buf xs ys)
      (drain_more (rounds (with_bytes c xs)) _ (with_bytes c xs) ys (omega arith) (omega arith))
