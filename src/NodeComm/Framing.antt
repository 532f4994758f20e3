-- ===== src/NodeComm/Framing.antt =====
-- The ways through one round of the receive loop of src/network/xsan_node_comm.c.
use xsan.Base.{
  ℕ, ◌+◌, ◌*◌, ◌≤◌, ◌<◌, ◌≡◌, refl, sym, ◌∙◌, true, false, none, some, List, arith, length, take,
  drop, length-append, length-drop, drop_append, take_append, leb, leb→le, le→leb, gt→leb, ◌==◌,
  Bool-cases, Option-cases, inl, inr,
}
use xsan.Protocol.{Header, Message, header_deserialize, header_size}
use xsan.Protocol.RoundTrip.{deserialize-append}
use xsan.NodeComm.{
  Connection, Round, leave, close, emit, take_payload, take_header, round, rounds, with_bytes,
}

abbrev pub headed : Connection → Header → Connection
headed c h = record c {
  recv_buf = drop header_size c.recv_buf;
  partial_recv_header = h;
  header_fully_received = true;
}

abbrev pub message_of : Connection → Message
message_of c = record {
  header = c.partial_recv_header;
  payload = take c.partial_recv_header.payload_length c.recv_buf;
}

abbrev pub after_message : Connection → Connection
after_message c = record c {
  recv_buf = drop c.partial_recv_header.payload_length c.recv_buf;
  header_fully_received = false;
}

-- The ways through the second half of a round.
pub data PayloadView (c : Connection) : Round → Type 0 where
  complete :
      c.partial_recv_header.payload_length ≤ length c.recv_buf
      → PayloadView c (emit (message_of c) (after_message c))
  partial : length c.recv_buf < c.partial_recv_header.payload_length → PayloadView c (leave c)

-- The ways through a round.
pub data RoundView (c : Connection) : Round → Type 0 where
  empty : length c.recv_buf ≡ 0 → RoundView c (leave c)
  short : c.header_fully_received ≡ false → length c.recv_buf < header_size → RoundView c (leave c)
  bad :
      c.header_fully_received ≡ false
      → header_size ≤ length c.recv_buf
      → header_deserialize c.recv_buf ≡ none
      → RoundView c close
  good :
      (h : Header) {r : Round}
      → c.header_fully_received ≡ false
      → header_size ≤ length c.recv_buf
      → header_deserialize c.recv_buf ≡ some h
      → PayloadView (headed c h) r
      → RoundView c r
  waiting :
      {r : Round}
      → c.header_fully_received ≡ true
      → 0 < length c.recv_buf
      → PayloadView c r
      → RoundView c r

-- Each way determines the result.
pub take_payload_by : {c : Connection} {r : Round} → PayloadView c r → take_payload c ≡ r
unfolding take_payload
take_payload_by {c} (complete p) = simp (le→leb c.partial_recv_header.payload_length _ p)
take_payload_by {c} (partial p) = simp (gt→leb c.partial_recv_header.payload_length _ p)

pub round_by : {c : Connection} {r : Round} → RoundView c r → round c ≡ r
unfolding round take_header
round_by (empty z) = ground arith
round_by {c} (short r l) = simp (r, gt→leb _ _ l) (ground arith)
round_by {c} (bad r l e) = simp (r, le→leb _ _ l, e) (ground arith)
round_by {c} (good h r l e p) = simp (r, le→leb _ _ l, e, take_payload_by p) (ground arith)
round_by {c} (waiting r l p) = simp (r, take_payload_by p) (ground arith)

pub payload_view : (c : Connection) → PayloadView c (take_payload c)
unfolding take_payload
payload_view c = elim (Bool-cases (leb c.partial_recv_header.payload_length (length c.recv_buf))) [
  | inl e ↦ simp e (complete (leb→le _ _ e))
  | inr e ↦ simp e (partial (ground arith))
]

pub round_view : (c : Connection) → RoundView c (round c)
unfolding round take_header
round_view c = elim (Bool-cases (length c.recv_buf == 0)) [
  | inl z ↦ simp z (empty (ground arith))
  | inr nz ↦ simp nz (elim (Bool-cases c.header_fully_received) [
    | inl r ↦ simp r (waiting r (ground arith) (payload_view c))
    | inr r ↦ simp r (elim (Bool-cases (leb header_size (length c.recv_buf))) [
      | inl l ↦ simp l (elim (Option-cases (header_deserialize c.recv_buf)) [
        | inl e ↦ simp e (bad r (leb→le _ _ l) e)
        | inr (h, e) ↦ simp e (good h r (leb→le _ _ l) e (payload_view (headed c h)))
      ])
      | inr l ↦ simp l (short r (ground arith))
    ])
  ])
]

-- A round that dispatches a message leaves fewer rounds to do, one that leaves the loop no more.
abbrev pub Shrinks : Connection → Round → Type 0
Shrinks c (leave d) = rounds d ≤ rounds c
Shrinks c close = Unit
Shrinks c (emit m d) = rounds d < rounds c

rounds-true :
    (c : Connection) → c.header_fully_received ≡ true → rounds c ≡ 2 * length c.recv_buf + 2
rounds-true c r = simp r (omega arith)

rounds-false :
    (c : Connection) → c.header_fully_received ≡ false → rounds c ≡ 2 * length c.recv_buf + 1
rounds-false c r = simp r (omega arith)

payload-Shrinks :
    (c d : Connection) {r : Round}
    → PayloadView c r
    → rounds c ≤ rounds d
    → c.header_fully_received ≡ true
    → Shrinks d r
payload-Shrinks c d (complete p) h r =
    omega (arith, rounds-true c r, length-drop c.partial_recv_header.payload_length c.recv_buf)
payload-Shrinks c d (partial p) h r = h

pub view-Shrinks : {c : Connection} {r : Round} → RoundView c r → Shrinks c r
view-Shrinks (empty z) = omega arith
view-Shrinks (short r l) = omega arith
view-Shrinks (bad r l e) = tt
view-Shrinks {c} (good h r l e p) =
    payload-Shrinks (headed c h) c p
      (omega (arith, length-drop header_size c.recv_buf, rounds-false c r)) refl
view-Shrinks {c} (waiting r l p) = payload-Shrinks c c p (omega arith) r

-- How a round on more bytes relates to the round on fewer.
abbrev pub Extends : List ℕ → Connection → Round → Type 0
Extends ys c (leave d) = round (with_bytes c ys) ≡ round (with_bytes d ys)
Extends ys c close = round (with_bytes c ys) ≡ close
Extends ys c (emit m d) = round (with_bytes c ys) ≡ emit m (with_bytes d ys)

-- A header that waits for a payload: the test for an empty buffer makes no difference.
pub round-waiting :
    (c : Connection)
    → c.header_fully_received ≡ true
    → 0 < c.partial_recv_header.payload_length
    → round c ≡ take_payload c
round-waiting c r p = elim (Bool-cases (length c.recv_buf == 0)) [
  | inl z ↦ round_by (empty (ground arith)) ∙ sym (take_payload_by (partial (ground arith)))
  | inr nz ↦ round_by (waiting r (ground arith) (payload_view c))
]

module _ (ys : List ℕ) where
  complete-more :
      (c : Connection)
      → c.partial_recv_header.payload_length ≤ length c.recv_buf
      → take_payload (with_bytes c ys) ≡ emit (message_of c) (with_bytes (after_message c) ys)
  complete-more c p =
      take_payload_by {c = with_bytes c ys} (complete (omega (arith, length-append c.recv_buf ys)))
      ∙ simp (
        take_append c.partial_recv_header.payload_length c.recv_buf ys p,
        drop_append c.partial_recv_header.payload_length c.recv_buf ys p,
      )

  header-more :
      (c : Connection) (h : Header)
      → c.header_fully_received ≡ false
      → header_size ≤ length c.recv_buf
      → header_deserialize c.recv_buf ≡ some h
      → round (with_bytes c ys) ≡ take_payload (with_bytes (headed c h) ys)
  header-more c h r l e =
      round_by {c = with_bytes c ys} (
        good h r (omega (arith, length-append c.recv_buf ys))
          (deserialize-append c.recv_buf ys l ∙ e) (payload_view (headed (with_bytes c ys) h)))
      ∙ simp (drop_append header_size c.recv_buf ys l)

  pub view-Extends : {c : Connection} {r : Round} → RoundView c r → Extends ys c r
  view-Extends (empty z) = refl
  view-Extends (short r l) = refl
  view-Extends {c} (bad r l e) =
      round_by {c = with_bytes c ys} (
        bad r (omega (arith, length-append c.recv_buf ys)) (deserialize-append c.recv_buf ys l ∙ e))
  view-Extends {c} (good h r l e (complete p)) =
      header-more c h r l e ∙ complete-more (headed c h) p
  view-Extends {c} (good h r l e (partial p)) =
      header-more c h r l e ∙ sym (round-waiting (with_bytes (headed c h) ys) refl (omega arith))
  view-Extends {c} (waiting r l (complete p)) =
      round_by {c = with_bytes c ys}
        (waiting r (omega (arith, length-append c.recv_buf ys)) (payload_view (with_bytes c ys)))
      ∙ complete-more c p
  view-Extends {c} (waiting r l (partial p)) = refl
