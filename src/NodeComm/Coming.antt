-- ===== src/NodeComm/Coming.antt =====
-- What waits in the receive buffer of a connection of src/network/xsan_node_comm.c while small messages
-- arrive, and that the buffer has room or can be made larger.
use mathlib.Core.Option.{none-ne-some, some-injective}
use mathlib.Core.Path.{subst}
use mathlib.Core.Bool.{true≢false}
use xsan.Base.{
  ℕ, suc, ◌-◌, ◌*◌, ◌≤◌, ◌<◌, ◌≡◌, refl, ap, sym, ◌∙◌, true, Bool-cases, none, some, List, [], ◌∷◌,
  ◌++◌, arith, length, ge→ltb, ◌==◌, ==_iff, length-append, inl, inr,
}
use xsan.Protocol.{Header, Message}
use xsan.NodeComm.{
  Connection, Received, Round, round, resume, drain, rounds, with_bytes, feed, grow, recv_buf_limit,
}
use xsan.NodeComm.Framing.{PayloadView, complete, partial, payload_view, round-waiting}
use xsan.NodeComm.Delivery.{drain_enough, then_feed, feed-append}
use xsan.NodeComm.Wire.{idle}
use xsan.NodeComm.Capacity.{
  Fits, AllSmall, and_then, doubled, largest_capacity, IfFits, drain-Bounded, doubled-le, positive,
}
use xsan.NodeComm.Settled.{
  Waits, few_bytes, for_payload, IsSettled, IfSettled, feed-IfSettled, with_capacity,
}

-- The messages and the connection that the rest of the bytes makes, and that nothing waits for them.
pub record Coming (c : Connection) (ms : List Message) (h : Header) (rest : List ℕ) : Type 0 where
  pub fits : Fits c
  pub settled : IsSettled c
  pub size : ℕ
  pub due : feed c rest ≡ (ms, some (idle size h))

head_small :
    {m : Message} {ms : List Message}
    → AllSmall (m ∷ ms)
    → m.header.payload_length ≤ largest_capacity
head_small (and_then p s) = p

-- A header whose payload is still to come is one of a message that is due.
payload_small :
    (c : Connection) (ms : List Message) (h : Header) (n : ℕ) (rest : List ℕ)
    → c.header_fully_received ≡ true
    → 0 < c.partial_recv_header.payload_length
    → AllSmall ms
    → feed c rest ≡ (ms, some (idle n h))
    → c.partial_recv_header.payload_length ≤ largest_capacity
unfolding feed drain
payload_small c ms h n rest r p small due =
    go _ (payload_view b) (sym (round-waiting b r p))
      (drain_enough (suc (rounds b)) (rounds b) b (omega arith) (omega arith) ∙ due)
  where
    b : Connection
    b = with_bytes c rest

    go :
        (o : Round)
        → PayloadView b o
        → o ≡ round b
        → resume (drain (rounds b)) (round b) ≡ (ms, some (idle n h))
        → c.partial_recv_header.payload_length ≤ largest_capacity
    go _ (complete q) e f =
        head_small
          (subst AllSmall (sym (ap (λ o. o.0) (ap (resume (drain (rounds b))) e ∙ f))) small)
    go _ (partial q) e f = absurd (
        true≢false (
          sym r
          ∙ ap (λ (x : Connection). x.header_fully_received)
              (some-injective _ _ (ap (λ o. o.1) (ap (resume (drain (rounds b))) e ∙ f)))))

-- What waits in the buffer is less than the largest capacity.
below :
    (c : Connection) (ms : List Message) (h : Header) (rest : List ℕ)
    → AllSmall ms
    → Coming c ms h rest
    → length c.recv_buf < largest_capacity
below c ms h rest small w = go w.settled.waits
  where
    go : Waits c → length c.recv_buf < largest_capacity
    go (few_bytes l) = omega arith
    go (for_payload r l) =
        omega (arith, payload_small c ms h w.size rest r (omega arith) small w.due)

twice_below : (k n : ℕ) → k ≤ 11 → n ≡ doubled k → n < largest_capacity → n * 2 ≤ recv_buf_limit
twice_below k n few e l = elim (Bool-cases (k == 11)) [
  | inl y ↦ absurd (omega (arith, ap doubled ((==_iff k 11).0 y)))
  | inr y ↦ omega (arith, doubled-le (suc k) (10 - k) (ground arith))
]

-- The buffer of a connection that waits for small messages can be made large enough.
pub grows :
    (c : Connection) (ms : List Message) (h : Header) (rest : List ℕ)
    → AllSmall ms
    → Coming c ms h rest
    → (n : ℕ) × (grow c ≡ some (with_capacity n c))
unfolding grow
grows c ms h rest small w = elim (Bool-cases (length c.recv_buf == c.recv_buf_capacity)) [
  | inl full ↦ (
    c.recv_buf_capacity * 2,
    simp (full, positive c w.fits, ge→ltb recv_buf_limit (c.recv_buf_capacity * 2) (room full))
        refl,
  )
  | inr free ↦ (c.recv_buf_capacity, simp free refl)
]
  where
    room :
        (length c.recv_buf == c.recv_buf_capacity) ≡ true → c.recv_buf_capacity * 2 ≤ recv_buf_limit
    room full = twice_below w.fits.times c.recv_buf_capacity w.fits.few w.fits.capacity (
        omega (
          arith,
          below c ms h rest small w,
          (==_iff (length c.recv_buf) c.recv_buf_capacity).0 full,
        ))

pub AllSmall-right : (ms : List Message) {ns : List Message} → AllSmall (ms ++ ns) → AllSmall ns
AllSmall-right [] s = s
AllSmall-right (m ∷ ms) (and_then p s) = AllSmall-right ms s

-- What a read leaves to come, of which the connection stays open.
pub data AfterRead (ms : List Message) (h : Header) (rest : List ℕ) (o : Received) : Type 0 where
  goes_on :
      (ns : List Message) (e : Connection) (ls : List Message)
      → o ≡ (ns, some e)
      → ns ++ ls ≡ ms
      → Coming e ls h rest
      → AfterRead ms h rest o

with_bytes-Fits :
    (d : Connection) (ds : List ℕ)
    → Fits d
    → length ds ≤ d.recv_buf_capacity - length d.recv_buf
    → Fits (with_bytes d ds)
with_bytes-Fits d ds v l = record {
  times = v.times;
  few = v.few;
  capacity = v.capacity;
  room = omega (arith, v.room, length-append d.recv_buf ds);
}

pub after_read :
    (d : Connection) (ms : List Message) (h : Header) (n : ℕ) (ds rest : List ℕ)
    → Fits d
    → length ds ≤ d.recv_buf_capacity - length d.recv_buf
    → feed d (ds ++ rest) ≡ (ms, some (idle n h))
    → AfterRead ms h rest (feed d ds)
after_read d ms h n ds rest v l due =
    go (feed d ds) (feed-IfSettled d ds)
      (unfold feed in (drain-Bounded _ _ (with_bytes-Fits d ds v l)).1)
      (sym (feed-append d ds rest) ∙ due)
  where
    go :
        (o : Received)
        → IfSettled o.1
        → IfFits o.1
        → then_feed o rest ≡ (ms, some (idle n h))
        → AfterRead ms h rest o
    go (ns, none) s f e = absurd (none-ne-some (idle n h) (ap (λ p. p.1) e))
    go (ns, some e) s f q = goes_on ns e (feed e rest).0 refl (ap (λ p. p.0) q) (record {
      fits = f;
      settled = s;
      size = n;
      due = ap (λ o. ((feed e rest).0, o)) (ap (λ p. p.1) q);
    })
