-- ===== src/RingBuffer/Refine.antt =====
-- The simulation between the ring buffer of src/common/ring_buffer.c and the bounded queue.
use xsan.Base.{
  ℕ, zero, suc, ◌+◌, ◌-◌, ◌%◌, ◌<◌, ◌≡◌, refl, ap, ap₂, ◌⊎◌, inl, inr, Option, some, List, [], ◌∷◌,
  ◌++◌, arith, length, get_or, set, get_or-set_self, get_or-set_ne, add_size, Bool-cases, ◌==◌,
}
use xsan.RingBuffer.{
  RingBuffer, next_index, stored, push, pop, peek, size, is_empty, is_full, clear, destroy_from, Op,
  op_push, op_pop, op_peek, op_size, op_empty, op_full, op_clear, Reply, call, run,
}
use xsan.RingBuffer.Inv.{IsValid, NextOf, next_index_cases, stored-IsValid, popped-IsValid}
use xsan.RingBuffer.Fifo.{drop_null, spec_call, spec_run}

module _ (buf : List ℕ) (modulus : ℕ) where
  -- the `n` values from slot `i` on
  abbrev pub slots : ℕ → ℕ → List ℕ
  slots i zero = []
  slots i (suc n) = get_or buf i 0 ∷ slots (add_size i 1 % modulus) n

  pub length-slots : (i n : ℕ) → length (slots i n) ≡ n
  length-slots i zero = refl
  length-slots i (suc n) = ap suc (length-slots (add_size i 1 % modulus) n)

  pub slots_pos :
      (i n : ℕ) → 0 < n → slots i n ≡ get_or buf i 0 ∷ slots (add_size i 1 % modulus) (n - 1)
  slots_pos i zero h = absurd (omega arith)
  slots_pos i (suc n) h = ap (λ k. slots i (suc k)) (omega arith)

abbrev pub contents : RingBuffer → List ℕ
contents rb = slots rb.buffer rb.capacity rb.head rb.count

-- A write into the first free slot adds its value at the end.
slots-stored :
    (rb : RingBuffer) (v n i : ℕ)
    → IsValid rb
    → i < rb.capacity
    → n < rb.capacity
    → ((rb.tail ≡ i + n) ⊎ (rb.tail + rb.capacity ≡ i + n))
    → slots (set rb.buffer rb.tail v) rb.capacity i (suc n)
      ≡ slots rb.buffer rb.capacity i n ++ (v ∷ [])
slots-stored rb v zero i h hi hn at =
    let e : rb.tail ≡ i = ground arith in
    ap (λ w. w ∷ []) (get_or-set_self_at rb.buffer rb.tail i v e (ground arith))
  where
    get_or-set_self_at :
        (xs : List ℕ) (j i v : ℕ) → j ≡ i → i < length xs → get_or (set xs j v) i 0 ≡ v
    get_or-set_self_at xs j i v e p = rw e (get_or-set_self xs i v 0 p)
slots-stored rb v (suc n) i h hi hn at = ap₂ ◌∷◌ (get_or-set_ne rb.buffer v 0 (ground arith)) (
    slots-stored rb v n (next_index rb i) h (ground (arith, next)) (omega arith)
      (ground (arith, next)))
  where
    next : NextOf rb.capacity i (next_index rb i)
    next = next_index_cases rb i h.small hi

-- What the loop of `clear` destroys.
destroy_from-slots :
    (rb : RingBuffer) (i n : ℕ) → destroy_from rb i n ≡ drop_null (slots rb.buffer rb.capacity i n)
unfolding destroy_from drop_null
destroy_from-slots rb i zero = refl
destroy_from-slots rb i (suc n) = rw (destroy_from-slots rb (next_index rb i) n)

-- One call gives the reply of the queue, and leaves a valid buffer of the same capacity and
-- destructor that holds the queue's values.
record Agrees (rb : RingBuffer) (o : Op) (out : Reply × Option RingBuffer) : Type 0 where
  after : RingBuffer
  reply : out.0 ≡ (spec_call rb.capacity rb.value_destroy_func o (contents rb)).0
  returned : out.1 ≡ some after
  valid : IsValid after
  held : contents after ≡ (spec_call rb.capacity rb.value_destroy_func o (contents rb)).1
  capacity_kept : after.capacity ≡ rb.capacity
  destructor_kept : after.value_destroy_func ≡ rb.value_destroy_func

-- A call that leaves the structure as it is.
unchanged :
    (o : Op) (rb : RingBuffer) (out : Reply × Option RingBuffer)
    → IsValid rb
    → out ≡ ((spec_call rb.capacity rb.value_destroy_func o (contents rb)).0, some rb)
    → contents rb ≡ (spec_call rb.capacity rb.value_destroy_func o (contents rb)).1
    → Agrees rb o out
unchanged o rb out h e same = record {
  after = rb;
  reply = ap (λ t. t.0) e;
  returned = ap (λ t. t.1) e;
  valid = h;
  held = same;
  capacity_kept = refl;
  destructor_kept = refl;
}

module _ (rb : RingBuffer) (h : IsValid rb) where
  count_lem : length (contents rb) ≡ rb.count
  count_lem = length-slots rb.buffer rb.capacity rb.head rb.count

  held_empty : rb.count ≡ 0 → contents rb ≡ []
  held_empty e = ap (slots rb.buffer rb.capacity rb.head) e

  held_some :
      0 < rb.count
      → contents rb
        ≡ get_or rb.buffer rb.head 0
          ∷ slots rb.buffer rb.capacity (next_index rb rb.head) (rb.count - 1)
  held_some p = slots_pos rb.buffer rb.capacity rb.head rb.count p

  push-Agrees : (v : ℕ) → Agrees rb (op_push v) (call (op_push v) (some rb))
  unfolding call push spec_call
  push-Agrees v = elim (Bool-cases (rb.count == rb.capacity)) [
    | inl full ↦
        unchanged (op_push v) rb _ h (ground (arith, count_lem)) (ground (arith, count_lem))
    | inr room ↦ record {
      after = stored rb v;
      reply = ground (arith, count_lem);
      returned = ground arith;
      valid = stored-IsValid rb v h (ground arith);
      held = ground (arith, count_lem, slots-stored rb v rb.count rb.head h, h.linked);
      capacity_kept = refl;
      destructor_kept = refl;
    }
  ]

  pop-Agrees : Agrees rb op_pop (call op_pop (some rb))
  unfolding call pop spec_call
  pop-Agrees = elim (Bool-cases (rb.count == 0)) [
    | inl empty ↦ unchanged op_pop rb _ h (ground (arith, held_empty)) (ground (arith, held_empty))
    | inr some_left ↦ record {
      after = record rb { head = next_index rb rb.head; count = rb.count - 1 };
      reply = ground (arith, held_some);
      returned = ground arith;
      valid = popped-IsValid rb h (ground arith);
      held = ground (arith, held_some);
      capacity_kept = refl;
      destructor_kept = refl;
    }
  ]

  peek-Agrees : Agrees rb op_peek (call op_peek (some rb))
  unfolding call peek spec_call
  peek-Agrees =
      unchanged op_peek rb _ h (ground (arith, held_some, held_empty))
        (ground (arith, held_some, held_empty))

  clear-Agrees : Agrees rb op_clear (call op_clear (some rb))
  unfolding call clear spec_call
  clear-Agrees = record {
    after = record rb { head = 0; tail = 0; count = 0 };
    reply = ground (arith, destroy_from-slots rb rb.head rb.count);
    returned = refl;
    valid = ground arith;
    held = refl;
    capacity_kept = refl;
    destructor_kept = refl;
  }

  call-Agrees : (o : Op) → Agrees rb o (call o (some rb))
  unfolding call size is_empty is_full spec_call
  call-Agrees (op_push v) = push-Agrees v
  call-Agrees op_pop = pop-Agrees
  call-Agrees op_peek = peek-Agrees
  call-Agrees op_size = unchanged op_size rb _ h (ground (arith, count_lem)) refl
  call-Agrees op_empty = unchanged op_empty rb _ h (ground (arith, count_lem)) refl
  call-Agrees op_full = unchanged op_full rb _ h (ground (arith, count_lem)) refl
  call-Agrees op_clear = clear-Agrees

-- Every sequence of pushes, pops, peeks, size and fullness queries and clears on a valid ring
-- buffer gives the replies of the bounded queue that starts with the buffer's contents, holds at
-- most `capacity` values, and on a clear destroys its non-NULL values in order if the buffer has
-- a destructor.
pub run_refines :
    (os : List Op) (rb : RingBuffer)
    → IsValid rb
    → run os (some rb) ≡ spec_run rb.capacity rb.value_destroy_func os (contents rb)
unfolding run spec_run
run_refines [] rb h = refl
run_refines (o ∷ os) rb h =
    let a = call-Agrees rb h o in
    ap₂ ◌∷◌ a.reply
      (rw (a.returned, run_refines os a.after a.valid, a.held, a.capacity_kept, a.destructor_kept))
