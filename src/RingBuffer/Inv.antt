-- ===== src/RingBuffer/Inv.antt =====
-- The representation invariant of `struct xsan_ring_buffer`.
use xsan.Base.{
  ℕ, ◌+◌, ◌-◌, ◌%◌, ◌≤◌, ◌<◌, ◌≡◌, Bool, ◌⊎◌, some, arith, length, length-set, length-replicate,
  add_size, size_mod,
}
use xsan.RingBuffer.{RingBuffer, next_index, stored, create}

-- `tail` stands `count` slots after `head`, going round at `capacity`.
pub record IsValid (rb : RingBuffer) : Type 0 where
  pub positive : 0 < rb.capacity
  pub small : rb.capacity < size_mod
  pub storage : length rb.buffer ≡ rb.capacity
  pub head_in : rb.head < rb.capacity
  pub tail_in : rb.tail < rb.capacity
  pub count_in : rb.count ≤ rb.capacity
  pub linked : (rb.tail ≡ rb.head + rb.count) ⊎ (rb.tail + rb.capacity ≡ rb.head + rb.count)

abbrev pub NextOf : ℕ → ℕ → ℕ → Type 0
NextOf cap i j = ((j ≡ i + 1) × (i + 1 < cap)) ⊎ ((j ≡ 0) × (i + 1 ≡ cap))

-- One step round the buffer, with no division left.
pub next_index_cases :
    (rb : RingBuffer) (i : ℕ)
    → rb.capacity < size_mod
    → i < rb.capacity
    → NextOf rb.capacity i (next_index rb i)
next_index_cases rb i small h =
    let e : add_size i 1 ≡ i + 1 = omega arith in rw e (step rb.capacity h)
  where
    step : (c : ℕ) → i < c → NextOf c i ((i + 1) % c)
    step c h = grind arith

pub stored-IsValid :
    (rb : RingBuffer) (v : ℕ) → IsValid rb → rb.count < rb.capacity → IsValid (stored rb v)
stored-IsValid rb v h lt =
    ground (arith, length-set rb.buffer rb.tail v, next_index_cases rb rb.tail h.small h.tail_in)

pub popped-IsValid :
    (rb : RingBuffer)
    → IsValid rb
    → 0 < rb.count
    → IsValid (record rb { head = next_index rb rb.head; count = rb.count - 1 })
popped-IsValid rb h lt = ground (arith, next_index_cases rb rb.head h.small h.head_in)

-- A buffer that `create` returns is valid, is empty and holds up to the requested number.
pub create-IsValid :
    (n : ℕ) (d m c : Bool) (rb : RingBuffer)
    → n < size_mod
    → create n d m c ≡ some rb
    → IsValid rb × (rb.count ≡ 0) × (rb.capacity ≡ n) × (rb.value_destroy_func ≡ d)
unfolding create
create-IsValid n d m c rb h e = ground (arith, length-replicate {A = ℕ} n 0)
