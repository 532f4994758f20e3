-- ===== src/Memory/Pool.antt =====
-- The memory pool of src/utils/memory.c. Its blocks lie on a heap that maps addresses to blocks; both
-- lists, of the free blocks and of all, run through the same field `next`. The answers of xsan_malloc
-- are arguments: the address of a block's record and of its bytes, 0 for NULL. The mutex is not
-- modelled.
use xsan.Base.{
  ℕ, zero, suc, ◌+◌, Bool, true, false, Option, none, some, List, [], ◌∷◌, ◌==◌, ltb, if◌then◌else◌,
  not, ◌&&◌, ◌||◌, add_size,
}
pub mod Chains
pub mod Owned
pub mod Handed
pub mod Lost

pub record PoolConfig : Type 0 where
  pub block_size : ℕ
  pub initial_blocks : ℕ
  pub max_blocks : ℕ

pub record PoolBlock : Type 0 where
  pub bytes : ℕ
  pub in_use : Bool
  pub next : ℕ

abbrev pub PoolHeap : Type 0
PoolHeap = ℕ → Option PoolBlock

unfoldable pub write_block : PoolHeap → ℕ → PoolBlock → PoolHeap
write_block h p b = λ q. if p == q then some b else h q

pub record Pool : Type 0 where
  pub config : PoolConfig
  pub free_blocks : ℕ
  pub all_blocks : ℕ
  pub current_blocks : ℕ
  pub heap : PoolHeap

-- The two answers for one block: `at` for its record, `bytes` for its bytes.
pub record BlockAnswer : Type 0 where
  pub at : ℕ
  pub bytes : ℕ

abbrev pub answer_refused : BlockAnswer → Bool
answer_refused a = a.at == 0 || a.bytes == 0

-- The body of the loop that makes the first blocks: the field `next` is written twice.
unfoldable pub with_block : Pool → BlockAnswer → Pool
unfolding write_block
with_block p a = record p {
  free_blocks = a.at;
  all_blocks = a.at;
  current_blocks = add_size p.current_blocks 1;
  heap =
      write_block
        (write_block p.heap a.at (record { bytes = a.bytes; in_use = false; next = p.free_blocks }))
        a.at (record { bytes = a.bytes; in_use = false; next = p.all_blocks });
}

-- The loop stops when an allocation fails.
unfoldable pub initial : (n : ℕ) → Pool → (ℕ → BlockAnswer) → Pool
unfolding with_block
initial zero p answers = p
initial (suc n) p answers =
    if answer_refused (answers n) then p else initial n (with_block p (answers n)) answers

unfoldable pub pool_create :
    Option PoolConfig → (allocated : Bool) → (ℕ → BlockAnswer) → Option Pool
unfolding initial
pool_create none allocated answers = none
pool_create (some c) allocated answers =
    if c.block_size == 0 || not allocated
    then none
    else some (
        initial c.initial_blocks
          (record {
            config = c;
            free_blocks = 0;
            all_blocks = 0;
            current_blocks = 0;
            heap = λ q. none;
          })
          answers)

abbrev pub take_free : Pool → Option PoolBlock → ℕ × Pool
take_free p none = (0, p)
take_free p (some b) = (
  b.bytes,
  record p {
    free_blocks = b.next;
    heap = write_block p.heap p.free_blocks (record b { in_use = true });
  },
)

abbrev pub make_block : Pool → BlockAnswer → ℕ × Pool
make_block p a = if answer_refused a then (0, p) else (
  a.bytes,
  record p {
    all_blocks = a.at;
    current_blocks = add_size p.current_blocks 1;
    heap = write_block p.heap a.at (record { bytes = a.bytes; in_use = true; next = p.all_blocks });
  },
)

-- The bytes handed out, or 0.
unfoldable pub pool_alloc : Pool → BlockAnswer → ℕ × Pool
unfolding write_block
pool_alloc p a =
    if not (p.free_blocks == 0)
    then take_free p (p.heap p.free_blocks)
    else if ltb p.current_blocks p.config.max_blocks
    then make_block p a
    else (0, p)

-- The walk along `all_blocks` to the block with these bytes.
unfoldable pub find_block : (fuel : ℕ) → PoolHeap → (at bytes : ℕ) → Option ℕ
find_block zero h at bytes = none
find_block (suc fuel) h at bytes = elim (h at) as (λ _. Option ℕ) [
  | none ↦ none
  | some b ↦ if b.bytes == bytes then some at else find_block fuel h b.next bytes
]

abbrev pub give_back : Pool → ℕ → Option PoolBlock → Pool
give_back p at none = p
give_back p at (some b) =
    if b.in_use
    then record p {
      free_blocks = at;
      heap = write_block p.heap at (record b { in_use = false; next = p.free_blocks });
    }
    else p

abbrev pub give_back_found : Pool → Option ℕ → Pool
give_back_found p none = p
give_back_found p (some at) = give_back p at (p.heap at)

unfoldable pub pool_free : (fuel : ℕ) → Pool → (bytes : ℕ) → Pool
unfolding find_block write_block
pool_free fuel p bytes =
    if bytes == 0 then p else give_back_found p (find_block fuel p.heap p.all_blocks bytes)

-- What `destroy` frees on its walk along `all_blocks`: the bytes and the record of each block.
unfoldable pub freed_blocks : (fuel : ℕ) → PoolHeap → (at : ℕ) → List ℕ
freed_blocks zero h at = []
freed_blocks (suc fuel) h at = elim (h at) as (λ _. List ℕ) [
  | none ↦ []
  | some b ↦ b.bytes ∷ at ∷ freed_blocks fuel h b.next
]

unfoldable pub pool_destroy : (fuel : ℕ) → Option Pool → List ℕ
unfolding freed_blocks
pool_destroy fuel none = []
pool_destroy fuel (some p) = freed_blocks fuel p.heap p.all_blocks
