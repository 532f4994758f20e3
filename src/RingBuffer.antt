-- ===== src/RingBuffer.antt =====
-- src/common/ring_buffer.c: a bounded FIFO of `void *` values. A pointer is a number and NULL
-- is 0; a `xsan_ring_buffer_t *` is an Option. The result of each allocation is an argument.
-- A function that updates `*rb` returns the new structure.
pub mod Inv
pub mod Refine
pub mod Fifo
mod Tests
use xsan.Base.{
  ℕ, zero, suc, ◌-◌, ◌%◌, Bool, true, false, Option, none, some, List, [], ◌∷◌, get_or, set,
  replicate, add_size, if◌then◌else◌, ◌==◌, ◌||◌, not,
}
use xsan.Status.{Status}

pub record RingBuffer : Type 0 where
  pub buffer : List ℕ
  pub capacity : ℕ
  pub count : ℕ
  pub head : ℕ
  pub tail : ℕ
  pub value_destroy_func : Bool

abbrev pub fresh : ℕ → Bool → RingBuffer
fresh n d = record {
  buffer = replicate n 0;
  capacity = n;
  count = 0;
  head = 0;
  tail = 0;
  value_destroy_func = d;
}

-- `malloc_ok` and `calloc_ok` say whether the two allocations succeed.
pub create : ℕ → Bool → (malloc_ok calloc_ok : Bool) → Option RingBuffer
create n d malloc_ok calloc_ok =
    if n == 0
    then none
    else if not malloc_ok
    then none
    else if not calloc_ok
    then none
    else some (fresh n d)

abbrev pub next_index : RingBuffer → ℕ → ℕ
next_index rb i = add_size i 1 % rb.capacity

abbrev pub stored : RingBuffer → ℕ → RingBuffer
stored rb v = record rb {
  buffer = set rb.buffer rb.tail v;
  tail = next_index rb rb.tail;
  count = add_size rb.count 1;
}

pub push : Option RingBuffer → ℕ → Status × Option RingBuffer
push none v = (Status.invalid_param, none)
push (some rb) v =
    if rb.count == rb.capacity
    then (Status.insufficient_space, some rb)
    else (Status.ok, some (stored rb v))

-- `wants` says whether `value_ptr` is not NULL; the option is what is written through it.
pub pop : Option RingBuffer → (wants : Bool) → Status × Option ℕ × Option RingBuffer
pop none wants = (Status.invalid_param, none, none)
pop (some rb) wants =
    if not wants
    then (Status.invalid_param, none, some rb)
    else if rb.count == 0
    then (Status.not_found, none, some rb)
    else (
      Status.ok,
      some (get_or rb.buffer rb.head 0),
      some (record rb { head = next_index rb rb.head; count = rb.count - 1 }),
    )

pub peek : Option RingBuffer → (wants : Bool) → Status × Option ℕ
peek none wants = (Status.invalid_param, none)
peek (some rb) wants =
    if not wants
    then (Status.invalid_param, none)
    else if rb.count == 0
    then (Status.not_found, none)
    else (Status.ok, some (get_or rb.buffer rb.head 0))

pub size : Option RingBuffer → ℕ
size none = 0
size (some rb) = rb.count

pub capacity_of : Option RingBuffer → ℕ
capacity_of none = 0
capacity_of (some rb) = rb.capacity

pub is_empty : Option RingBuffer → Bool
is_empty none = true
is_empty (some rb) = rb.count == 0

pub is_full : Option RingBuffer → Bool
is_full none = false
is_full (some rb) = rb.count == rb.capacity

-- The loop of `clear`: `n` rounds from slot `i`, and the values passed to `value_destroy_func`.
destroy_from : RingBuffer → ℕ → ℕ → List ℕ
destroy_from rb i zero = []
destroy_from rb i (suc n) =
    let v = get_or rb.buffer i 0 in
    let rest = destroy_from rb (next_index rb i) n in if v == 0 then rest else v ∷ rest

-- The list is that of the values destroyed, in order.
pub clear : Option RingBuffer → List ℕ × Option RingBuffer
unfolding destroy_from
clear none = ([], none)
clear (some rb) = (
  if rb.value_destroy_func then destroy_from rb rb.head rb.count else [],
  some (record rb { head = 0; tail = 0; count = 0 }),
)

-- What `destroy` passes to `value_destroy_func` before it frees the two blocks.
pub destroy : Option RingBuffer → List ℕ
destroy none = []
destroy (some rb) = (clear (some rb)).0

-- A client's calls in order on a buffer that is not NULL, with what each returns.
pub data Op : Type 0 where
  op_push : ℕ → Op
  op_pop op_peek op_size op_empty op_full op_clear : Op

-- A status, a value that came back through a pointer, a number or a truth value.
pub data Reply : Type 0 where
  replied : Status → Option ℕ → Reply
  counted : ℕ → Reply
  truth : Bool → Reply
  destroyed : List ℕ → Reply

pub call : Op → Option RingBuffer → Reply × Option RingBuffer
unfolding push pop peek size is_empty is_full clear
call (op_push v) rb = let (s, rb') = push rb v in (replied s none, rb')
call op_pop rb = let (s, v, rb') = pop rb true in (replied s v, rb')
call op_peek rb = let (s, v) = peek rb true in (replied s v, rb)
call op_size rb = (counted (size rb), rb)
call op_empty rb = (truth (is_empty rb), rb)
call op_full rb = (truth (is_full rb), rb)
call op_clear rb = let (vs, rb') = clear rb in (destroyed vs, rb')

pub run : List Op → Option RingBuffer → List Reply
unfolding call
run [] rb = []
run (o ∷ os) rb = let (r, rb') = call o rb in r ∷ run os rb'
