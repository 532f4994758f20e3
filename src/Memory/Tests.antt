-- ===== src/Memory/Tests.antt =====
-- Runs of src/utils/memory.c.
use mathlib.Core.Option.{none-ne-some}
use xsan.Base.{
  ℕ, zero, suc, ◌*◌, ◌^◌, true, false, none, some, [], ltb, if◌then◌else◌, arith, ◌≡◌, refl, ap,
  ◌∙◌, inl, inr, size_mod,
}
use xsan.Memory.{
  Manager, memory_init, malloc, calloc, free, find_header, unlink_header, allocated, realloc,
  memory_cleanup, deadlocks,
}
use xsan.Memory.Accounts.{IsValid, sum_sizes}
use xsan.Memory.History.{here, next, inits, mallocs, frees, before_init, Reach-IsValid}
use xsan.Memory.Calloc.{calloc_lem}
use xsan.Memory.Pool.{
  PoolConfig, PoolBlock, Pool, BlockAnswer, pool_create, initial, with_block, write_block,
  pool_alloc, pool_free,
}
use xsan.Memory.Pool.Owned.{IsNew}
use xsan.Memory.Pool.Chains.{write_block_cases}
use xsan.Memory.Pool.Handed as Handed
use xsan.Memory.Pool.Handed.{IsHandedOut, pool_alloc-IsHandedOut}
use xsan.Memory.Pool.Lost.{IsPair, pool_free_loses}

abbrev sys : ℕ → ℕ
sys n = 4096

abbrev debugging : Manager
debugging = record before_init { initialized = true; debug_enabled = true }

abbrev one_block : Manager
one_block = (malloc sys debugging 100).2

abbrev freed : Manager
freed = (free one_block 4144).1

freed_stats : (freed.stats.peak_allocated ≡ 100) × (freed.stats.current_allocated ≡ 0)
unfolding malloc free allocated find_header unlink_header before_init
freed_stats = (refl, refl)

-- Resizing a block in debug mode, and cleaning up with a leak.
stuck :
    (realloc sys (λ p n. 0) one_block 4144 200 ≡ deadlocks) × (memory_cleanup one_block ≡ deadlocks)
unfolding malloc free allocated find_header realloc memory_cleanup before_init
stuck = (refl, refl)

Reach-IsValid_example : IsValid (free (malloc sys (memory_init before_init true) 100).2 4144).1
unfolding sum_sizes memory_init before_init
Reach-IsValid_example = Reach-IsValid (
    next (next (next here (inits true refl)) (mallocs sys 100 (omega arith) refl))
      (frees 4144 refl))

calloc_lem_example : calloc sys debugging (2 ^ 33) (2 ^ 32) ≡ (
    if ltb (2 ^ 33 * 2 ^ 32) size_mod
    then malloc sys debugging (2 ^ 33 * 2 ^ 32)
    else (0, [], debugging))
calloc_lem_example = calloc_lem sys debugging (2 ^ 33) (2 ^ 32) (omega arith)

abbrev one_config : PoolConfig
one_config = record { block_size = 64; initial_blocks = 1; max_blocks = 2 }

abbrev first_answer : BlockAnswer
first_answer = record { at = 10; bytes = 20 }

abbrev second_answer : BlockAnswer
second_answer = record { at = 30; bytes = 40 }

abbrev one_pool : Pool
one_pool = with_block (Handed.no_blocks one_config) first_answer

first-IsNew : IsNew (Handed.no_blocks one_config) first_answer
first-IsNew = record {
  not_null = λ e. absurd (omega (arith, e));
  no_block = refl;
  new_bytes = λ x b e. absurd (none-ne-some b e);
}

second-IsNew : IsNew one_pool second_answer
unfolding with_block write_block
second-IsNew = record {
  not_null = λ e. absurd (omega (arith, e));
  no_block = refl;
  new_bytes = λ x b e.
      elim (write_block_cases
        (write_block (λ q. none) 10 (record { bytes = 20; in_use = false; next = 0 })) 10 x
        (record { bytes = 20; in_use = false; next = 0 }) b e) [
          | inl (at, is) ↦ λ q. absurd (omega (arith, ap (λ (k : PoolBlock). k.bytes) is ∙ q))
          | inr (n, old) ↦
              elim (write_block_cases (λ q. none) 10 x
                (record { bytes = 20; in_use = false; next = 0 }) b old) [
                  | inl (at, is) ↦
                      λ q. absurd (omega (arith, ap (λ (k : PoolBlock). k.bytes) is ∙ q))
                  | inr (m, none_there) ↦ absurd (none-ne-some b none_there)
                ]
        ];
}

pool_alloc-IsHandedOut_example : IsHandedOut one_pool (pool_alloc one_pool second_answer)
unfolding pool_create initial
pool_alloc-IsHandedOut_example =
    pool_alloc-IsHandedOut second_answer
      (Handed.creates one_config (λ n. first_answer) (λ r. first-IsNew, tt) refl) second-IsNew

abbrev two_config : PoolConfig
two_config = record { block_size = 64; initial_blocks = 2; max_blocks = 2 }

abbrev two_answers : ℕ → BlockAnswer
two_answers zero = first_answer
two_answers (suc n) = second_answer

abbrev two_pool : Pool
two_pool = initial 2 (Handed.no_blocks two_config) two_answers

two_pool-IsPair : IsPair two_pool 10 30 20 40
unfolding initial with_block write_block
two_pool-IsPair = record {
  free_is = refl;
  all_is = refl;
  x_is = refl;
  y_is = refl;
  null = refl;
  x_not_null = λ e. absurd (omega (arith, e));
  y_not_null = λ e. absurd (omega (arith, e));
  apart = λ e. absurd (omega (arith, e));
  bytes_apart = λ e. absurd (omega (arith, e));
  bx_not_null = λ e. absurd (omega (arith, e));
  by_not_null = λ e. absurd (omega (arith, e));
}

pool_free_loses_example :
    (q : Pool) × (pool_alloc two_pool second_answer ≡ (20, q))
    × ((pool_alloc q second_answer).0 ≡ 40)
    × ((fuel more : ℕ)
        → (pool_free more (pool_free (suc fuel) (pool_alloc q second_answer).1 20) 40
            ≡ pool_free (suc fuel) (pool_alloc q second_answer).1 20)
          × (b : PoolBlock) × ((pool_free (suc fuel) (pool_alloc q second_answer).1 20).heap 30
              ≡ some b)
          × (b.in_use ≡ true))
pool_free_loses_example = pool_free_loses two_pool 10 30 20 40 two_pool-IsPair second_answer
