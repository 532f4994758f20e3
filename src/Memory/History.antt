-- ===== src/Memory/History.antt =====
-- What the statistics of src/utils/memory.c say, over any sequence of calls.
use mathlib.Core.Path.{subst}
use xsan.Base.{ℕ, ◌+◌, ◌*◌, ◌%◌, ◌^◌, ◌<◌, Bool, false, [], arith, ◌≡◌, refl, sym, size_mod}
use xsan.Memory.{
  Manager, zero_stats, memory_init, malloc, calloc, free, returns, realloc, memory_cleanup,
}
use xsan.Memory.Accounts.{
  IsValid, sum_sizes, IsValidCall, malloc-IsValid, calloc-IsValid, free-IsValid, realloc-IsValid,
  memory_init-IsValid, memory_cleanup-IsValid,
}

-- One call that returns. The blocks of an allocation lie beside those that are allocated, so their
-- bytes are fewer than 2 ^ 64.
pub data Step (m n : Manager) : Type 0 where
  inits : (debug : Bool) → n ≡ memory_init m debug → Step m n
  mallocs :
      (sys : ℕ → ℕ) (size : ℕ)
      → size + sum_sizes m.allocated_blocks < 2 ^ 64
      → n ≡ (malloc sys m size).2
      → Step m n
  callocs :
      (sys : ℕ → ℕ) (nmemb size : ℕ)
      → (nmemb * size) % size_mod + sum_sizes m.allocated_blocks < 2 ^ 64
      → n ≡ (calloc sys m nmemb size).2
      → Step m n
  frees : (p : ℕ) → n ≡ (free m p).1 → Step m n
  reallocs :
      (sys : ℕ → ℕ) (resize : ℕ → ℕ → ℕ) (p size q : ℕ)
      → size + sum_sizes m.allocated_blocks < 2 ^ 64
      → realloc sys resize m p size ≡ returns q n
      → Step m n
  cleans : (q : ℕ) → memory_cleanup m ≡ returns q n → Step m n

pub data Reach (m : Manager) : Manager → Type 0 where
  here : Reach m m
  next : {n o : Manager} → Reach m n → Step n o → Reach m o

Step-IsValid : {m n : Manager} → Step m n → IsValid m → IsValid n
Step-IsValid {m} (inits debug e) v = subst IsValid (sym e) (memory_init-IsValid m debug v)
Step-IsValid {m} (mallocs sys size s e) v = subst IsValid (sym e) (malloc-IsValid sys m size s v)
Step-IsValid {m} (callocs sys nmemb size s e) v =
    subst IsValid (sym e) (calloc-IsValid sys m nmemb size s v)
Step-IsValid {m} (frees p e) v = subst IsValid (sym e) (free-IsValid m p v)
Step-IsValid {m} (reallocs sys resize p size q s e) v =
    subst IsValidCall (e) (realloc-IsValid sys resize m p size s v)
Step-IsValid {m} (cleans q e) v = subst IsValidCall (e) (memory_cleanup-IsValid m v)

-- The state that the program starts with.
unfoldable pub before_init : Manager
before_init = record {
  initialized = false;
  debug_enabled = false;
  stats = zero_stats;
  allocated_blocks = [];
  oom_callback = false;
}

-- After any sequence of initialising, allocating, resizing, freeing and cleaning up in which every
-- call returns and the blocks fit the address space, the bytes allocated are those freed and those
-- current, modulo 2 ^ 64, and the peak is at least the current bytes; in debug mode the current bytes
-- are the sum of the sizes of the blocks on the list, and the allocations as many as the releases
-- and those blocks, modulo 2 ^ 64.
pub Reach-IsValid : {m : Manager} → Reach before_init m → IsValid m
Reach-IsValid here =
    unfold before_init sum_sizes in
    record {
      total_is = omega arith;
      peak_is = omega arith;
      small = omega arith;
      current_is = λ e. refl;
      count_is = λ e. omega arith;
    }
Reach-IsValid (next r s) = Step-IsValid s (Reach-IsValid r)
