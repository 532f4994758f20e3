-- ===== src/Memory.antt =====
-- The allocator of src/utils/memory.c: its statistics and, in debug mode, the list of blocks that are
-- allocated, as the sequence of their headers. The system's `malloc` is the argument `sys`: the
-- address of a block of so many bytes, or 0.
use xsan.Base.{
  ℕ, suc, ◌+◌, ◌-◌, ◌*◌, ◌/◌, ◌%◌, Bool, true, false, Option, none, some, List, [], ◌∷◌, ltb, ◌==◌,
  if◌then◌else◌, not, ◌&&◌, add_size, sub_size, size_mod, length, take,
}
pub mod Accounts
pub mod History
pub mod Calloc
pub mod Pool
mod Tests

-- The counters are 64 bits wide.
pub record Stats : Type 0 where
  pub total_allocated : ℕ
  pub total_freed : ℕ
  pub current_allocated : ℕ
  pub peak_allocated : ℕ
  pub allocation_count : ℕ
  pub free_count : ℕ
  pub pool_hits : ℕ
  pub pool_misses : ℕ

-- A header with the magic number: the address behind it, which the client has, and its size.
pub record BlockHeader : Type 0 where
  pub at : ℕ
  pub size : ℕ

pub record Manager : Type 0 where
  pub initialized : Bool
  pub debug_enabled : Bool
  pub stats : Stats
  pub allocated_blocks : List BlockHeader
  pub oom_callback : Bool

abbrev pub zero_stats : Stats
zero_stats = record {
  total_allocated = 0;
  total_freed = 0;
  current_allocated = 0;
  peak_allocated = 0;
  allocation_count = 0;
  free_count = 0;
  pool_hits = 0;
  pool_misses = 0;
}

unfoldable pub memory_init : Manager → (enable_debug : Bool) → Manager
memory_init m enable_debug = if m.initialized then m else record m {
  initialized = true;
  debug_enabled = enable_debug;
  stats = zero_stats;
  allocated_blocks = [];
}

-- `sizeof(memory_block_header_t)`
abbrev pub header_bytes : ℕ
header_bytes = 48

abbrev pub counted_alloc : Stats → ℕ → Stats
counted_alloc s size =
    let current = add_size s.current_allocated size in
    record s {
      total_allocated = add_size s.total_allocated size;
      current_allocated = current;
      peak_allocated = if ltb s.peak_allocated current then current else s.peak_allocated;
      allocation_count = add_size s.allocation_count 1;
    }

-- What is asked of the system.
abbrev pub system_request : Manager → ℕ → ℕ
system_request m size =
    if m.initialized && m.debug_enabled then add_size header_bytes size else size

-- What is done with the address that the system answers.
unfoldable pub allocated : Manager → (size at : ℕ) → ℕ × List ℕ × Manager
allocated m size at =
    if at == 0
    then (0, if m.oom_callback then size ∷ [] else [], m)
    else if m.debug_enabled
    then (
      at + header_bytes,
      [],
      record m {
        stats = counted_alloc m.stats size;
        allocated_blocks = (record { at = at + header_bytes; size = size }) ∷ m.allocated_blocks;
      },
    )
    else (at, [], record m { stats = counted_alloc m.stats size })

-- The pointer, and the sizes that the callback is called with.
unfoldable pub malloc : (sys : ℕ → ℕ) → Manager → ℕ → ℕ × List ℕ × Manager
unfolding allocated
malloc sys m size =
    if size == 0
    then (0, [], m)
    else if m.initialized
    then allocated m size (sys (system_request m size))
    else (sys size, [], m)

-- Is the product of the two 64-bit numbers one?
unfoldable pub overflows : (nmemb size : ℕ) → Bool
overflows nmemb size = not (nmemb == 0) && not (((nmemb * size) % size_mod) / nmemb == size)

-- The block's bytes are zeroed.
unfoldable pub calloc : (sys : ℕ → ℕ) → Manager → (nmemb size : ℕ) → ℕ × List ℕ × Manager
unfolding malloc overflows
calloc sys m nmemb size =
    if overflows nmemb size then (0, [], m) else malloc sys m ((nmemb * size) % size_mod)

unfoldable pub find_header : ℕ → List BlockHeader → Option BlockHeader
find_header p [] = none
find_header p (h ∷ hs) = let rest = find_header p hs in if h.at == p then some h else rest

unfoldable pub unlink_header : ℕ → List BlockHeader → List BlockHeader
unlink_header p [] = []
unlink_header p (h ∷ hs) = let rest = unlink_header p hs in if h.at == p then hs else h ∷ rest

abbrev pub counted_free : Stats → ℕ → Stats
counted_free s size = record s {
  total_freed = add_size s.total_freed size;
  current_allocated = sub_size s.current_allocated size;
  free_count = add_size s.free_count 1;
}

-- A pointer in front of which there is no header with the magic number is refused.
abbrev pub freed_block : Manager → ℕ → Option BlockHeader → List ℕ × Manager
freed_block m p none = ([], m)
freed_block m p (some h) = (
  (p - header_bytes) ∷ [],
  record m {
    stats = counted_free m.stats h.size;
    allocated_blocks = unlink_header p m.allocated_blocks;
  },
)

-- What is given back to the system, and the state.
unfoldable pub free : Manager → ℕ → List ℕ × Manager
unfolding find_header unlink_header
free m p =
    if p == 0
    then ([], m)
    else if not m.initialized
    then (p ∷ [], m)
    else if m.debug_enabled
    then freed_block m p (find_header p m.allocated_blocks)
    else (
      p ∷ [],
      record m { stats = record m.stats { free_count = add_size m.stats.free_count 1 } },
    )

-- Also the pointer that is left where `ptr` points, if it points anywhere.
unfoldable pub safe_free : Manager → (ptr : Option ℕ) → List ℕ × Manager × Option ℕ
unfolding free
safe_free m none = ([], m, none)
safe_free m (some p) = ((free m p).0, (free m p).1, some 0)

unfoldable pub get_stats : Manager → (has_stats : Bool) → Option Stats
get_stats m has_stats = if has_stats then some m.stats else none

-- A call that locks a mutex that it holds never returns.
pub data CallOutcome : Type 0 where
  returns : (pointer : ℕ) → Manager → CallOutcome
  deadlocks : CallOutcome

abbrev pub debug_realloc : Manager → Option BlockHeader → CallOutcome
debug_realloc m none = returns 0 m
debug_realloc m (some h) = deadlocks

-- `resize` is the system's `realloc`. In debug mode xsan_malloc is called with the mutex held.
unfoldable pub realloc : (sys : ℕ → ℕ) (resize : ℕ → ℕ → ℕ) → Manager → (ptr size : ℕ) → CallOutcome
unfolding malloc free find_header
realloc sys resize m ptr size =
    if ptr == 0
    then returns (malloc sys m size).0 (malloc sys m size).2
    else if size == 0
    then returns 0 (free m ptr).1
    else if not m.initialized
    then returns (resize ptr size) m
    else if m.debug_enabled
    then debug_realloc m (find_header ptr m.allocated_blocks)
    else if resize ptr size == 0
    then returns 0 m
    else returns (resize ptr size) (record m {
      stats = record m.stats { allocation_count = add_size m.stats.allocation_count 1 };
    })

abbrev pub any_header : List BlockHeader → Bool
any_header [] = false
any_header (h ∷ hs) = true

unfoldable pub check_leaks : Manager → Bool
check_leaks m = m.debug_enabled && any_header m.allocated_blocks

-- The leaks are looked for with the mutex held.
unfoldable pub memory_cleanup : Manager → CallOutcome
memory_cleanup m =
    if not m.initialized
    then returns 0 m
    else if m.debug_enabled && any_header m.allocated_blocks
    then deadlocks
    else returns 0 (record m { initialized = false })

unfoldable pub set_oom_callback : Manager → Bool → Manager
set_oom_callback m callback = record m { oom_callback = callback }

abbrev pub copied_text : ℕ → List ℕ → Option (List ℕ)
copied_text p s = if p == 0 then none else some s

-- The copy's text, if there is one.
unfoldable pub str_dup : (sys : ℕ → ℕ) → Manager → Option (List ℕ) → Option (List ℕ) × Manager
unfolding malloc
str_dup sys m none = (none, m)
str_dup sys m (some s) =
    (copied_text (malloc sys m (suc (length s))).0 s, (malloc sys m (suc (length s))).2)

unfoldable pub strndup : (sys : ℕ → ℕ) → Manager → Option (List ℕ) → ℕ → Option (List ℕ) × Manager
unfolding malloc
strndup sys m none n = (none, m)
strndup sys m (some s) n = (
  copied_text (malloc sys m (suc (length (take n s)))).0 (take n s),
  (malloc sys m (suc (length (take n s)))).2,
)
