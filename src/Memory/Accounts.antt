-- ===== src/Memory/Accounts.antt =====
-- What the statistics of src/utils/memory.c say after each call.
use mathlib.Core.Option.{none-ne-some, some-injective}
use xsan.Base.{
  ℕ, suc, ◌+◌, ◌*◌, ◌%◌, ◌^◌, ◌≤◌, ◌<◌, Bool, true, false, Bool-cases, Option, none, some, List, [],
  ◌∷◌, ◌==◌, not, ◌&&◌, length, inl, inr, arith, ◌≡◌, refl, sym, ap, ◌∙◌, add_size, size_mod,
  if_cases,
}
use xsan.Memory.{
  Stats, BlockHeader, Manager, memory_init, counted_alloc, counted_free, allocated, system_request,
  malloc, overflows, calloc, find_header, unlink_header, free, freed_block, CallOutcome, returns,
  deadlocks, realloc, memory_cleanup, any_header, header_bytes, debug_realloc,
}

unfoldable pub sum_sizes : List BlockHeader → ℕ
sum_sizes [] = 0
sum_sizes (h ∷ hs) = h.size + sum_sizes hs

sum_sizes-unlink_header :
    (p : ℕ) (hs : List BlockHeader) (h : BlockHeader)
    → find_header p hs ≡ some h
    → (sum_sizes hs ≡ h.size + sum_sizes (unlink_header p hs))
      × (length hs ≡ suc (length (unlink_header p hs)))
unfolding find_header unlink_header sum_sizes
sum_sizes-unlink_header p [] h e = absurd (none-ne-some h e)
sum_sizes-unlink_header p (g ∷ hs) h e = elim (Bool-cases (g.at == p)) [
  | inl same ↦
      let is : g ≡ h = some-injective g h (simp same at e) in
      rw same (omega (arith, ap (λ (x : BlockHeader). x.size) is), refl)
  | inr other ↦
      let (sum, len) = sum_sizes-unlink_header p hs h (simp other at e) in
      rw other (omega (arith, sum), omega (arith, len))
]

-- The counters' relations; those of the blocks hold in debug mode.
pub record IsValid (m : Manager) : Type 0 where
  pub total_is : m.stats.total_allocated ≡ add_size m.stats.total_freed m.stats.current_allocated
  pub peak_is : m.stats.current_allocated ≤ m.stats.peak_allocated
  pub small : sum_sizes m.allocated_blocks < 2 ^ 64
  pub current_is : m.debug_enabled ≡ true → m.stats.current_allocated ≡ sum_sizes m.allocated_blocks
  pub count_is :
      m.debug_enabled ≡ true
      → m.stats.allocation_count ≡ add_size m.stats.free_count (length m.allocated_blocks)

-- The state after an allocation is counted; in debug mode the block is on the list.
alloc_total :
    (s : Stats) (size : ℕ)
    → s.total_allocated ≡ add_size s.total_freed s.current_allocated
    → (counted_alloc s size).total_allocated
      ≡ add_size (counted_alloc s size).total_freed (counted_alloc s size).current_allocated
alloc_total s size h = omega (arith, h)

alloc_peak :
    (s : Stats) (size : ℕ)
    → (counted_alloc s size).current_allocated ≤ (counted_alloc s size).peak_allocated
alloc_peak s size = ground arith

debug_alloc-IsValid :
    (m : Manager) (size at : ℕ)
    → size + sum_sizes m.allocated_blocks < 2 ^ 64
    → m.debug_enabled ≡ true
    → IsValid m
    → IsValid (record m {
      stats = counted_alloc m.stats size;
      allocated_blocks = (record { at = at; size = size }) ∷ m.allocated_blocks;
    })
unfolding sum_sizes
debug_alloc-IsValid m size at s d v = record {
  total_is = alloc_total m.stats size v.total_is;
  peak_is = alloc_peak m.stats size;
  small = s;
  current_is = λ e. omega (arith, v.current_is d, s);
  count_is = λ e. omega (arith, v.count_is d);
}

true-ne-false : ¬ (true ≡ false)
true-ne-false e = ground (arith, e)

plain_alloc-IsValid :
    (m : Manager) (size : ℕ)
    → m.debug_enabled ≡ false
    → IsValid m
    → IsValid (record m { stats = counted_alloc m.stats size })
plain_alloc-IsValid m size d v = record {
  total_is = alloc_total m.stats size v.total_is;
  peak_is = alloc_peak m.stats size;
  small = v.small;
  current_is = λ e. absurd (true-ne-false (sym e ∙ d));
  count_is = λ e. absurd (true-ne-false (sym e ∙ d));
}

abbrev IsLeft : ℕ × List ℕ × Manager → Type 0
IsLeft r = IsValid r.2

abbrev IsRest : List ℕ × Manager → Type 0
IsRest r = IsValid r.1

allocated-IsValid :
    (m : Manager) (size at : ℕ)
    → size + sum_sizes m.allocated_blocks < 2 ^ 64
    → IsValid m
    → IsValid (allocated m size at).2
unfolding allocated
allocated-IsValid m size at s v =
    if_cases IsLeft (at == 0) _ _ (λ z. v)
      λ nz.
        if_cases IsLeft m.debug_enabled _ _
          (λ d. debug_alloc-IsValid m size (at + header_bytes) s d v)
          (λ d. plain_alloc-IsValid m size d v)

debug_free-IsValid :
    (m : Manager) (p : ℕ) (h : BlockHeader)
    → find_header p m.allocated_blocks ≡ some h
    → m.debug_enabled ≡ true
    → IsValid m
    → IsValid (record m {
      stats = counted_free m.stats h.size;
      allocated_blocks = unlink_header p m.allocated_blocks;
    })
debug_free-IsValid m p h e d v =
    let (sum, len) = sum_sizes-unlink_header p m.allocated_blocks h e in
    record {
      total_is = omega (arith, v.total_is, v.current_is d, sum, v.small);
      peak_is = omega (arith, v.peak_is, v.current_is d, sum, v.small);
      small = omega (arith, sum, v.small);
      current_is = λ e. omega (arith, v.current_is d, sum, v.small);
      count_is = λ e. omega (arith, v.count_is d, len);
    }

plain_free-IsValid :
    (m : Manager)
    → m.debug_enabled ≡ false
    → IsValid m
    → IsValid (record m { stats = record m.stats { free_count = add_size m.stats.free_count 1 } })
plain_free-IsValid m d v = record {
  total_is = v.total_is;
  peak_is = v.peak_is;
  small = v.small;
  current_is = λ e. absurd (true-ne-false (sym e ∙ d));
  count_is = λ e. absurd (true-ne-false (sym e ∙ d));
}

freed_block-IsValid :
    (m : Manager) (p : ℕ) (o : Option BlockHeader)
    → find_header p m.allocated_blocks ≡ o
    → m.debug_enabled ≡ true
    → IsValid m
    → IsValid (freed_block m p o).1
freed_block-IsValid m p none e d v = v
freed_block-IsValid m p (some h) e d v = debug_free-IsValid m p h e d v

pub free-IsValid : (m : Manager) (p : ℕ) → IsValid m → IsValid (free m p).1
unfolding free
free-IsValid m p v =
    if_cases IsRest (p == 0) _ _ (λ z. v)
      λ nz.
        if_cases IsRest (not m.initialized) _ _ (λ i. v)
          λ i.
            if_cases IsRest m.debug_enabled _ _
              (λ d. freed_block-IsValid m p (find_header p m.allocated_blocks) refl d v)
              (λ d. plain_free-IsValid m d v)

pub malloc-IsValid :
    (sys : ℕ → ℕ) (m : Manager) (size : ℕ)
    → size + sum_sizes m.allocated_blocks < 2 ^ 64
    → IsValid m
    → IsValid (malloc sys m size).2
unfolding malloc
malloc-IsValid sys m size s v =
    if_cases IsLeft (size == 0) _ _ (λ z. v)
      λ nz.
        if_cases IsLeft m.initialized _ _
          (λ i. allocated-IsValid m size (sys (system_request m size)) s v) (λ i. v)

pub calloc-IsValid :
    (sys : ℕ → ℕ) (m : Manager) (nmemb size : ℕ)
    → (nmemb * size) % size_mod + sum_sizes m.allocated_blocks < 2 ^ 64
    → IsValid m
    → IsValid (calloc sys m nmemb size).2
unfolding calloc
calloc-IsValid sys m nmemb size s v =
    if_cases IsLeft (overflows nmemb size) _ _ (λ o. v) λ o. malloc-IsValid sys m _ s v

-- The state after a call that returns.
abbrev pub IsValidCall : CallOutcome → Type 0
IsValidCall (returns p m) = IsValid m
IsValidCall deadlocks = Unit {0}

pub realloc-IsValid :
    (sys : ℕ → ℕ) (resize : ℕ → ℕ → ℕ) (m : Manager) (p size : ℕ)
    → size + sum_sizes m.allocated_blocks < 2 ^ 64
    → IsValid m
    → IsValidCall (realloc sys resize m p size)
unfolding realloc
realloc-IsValid sys resize m p size s v =
    if_cases IsValidCall (p == 0) _ _ (λ z. malloc-IsValid sys m size s v)
      λ nz.
        if_cases IsValidCall (size == 0) _ _ (λ z. free-IsValid m p v)
          λ ns.
            if_cases IsValidCall (not m.initialized) _ _ (λ i. v)
              λ i.
                if_cases IsValidCall m.debug_enabled _ _
                  (λ d. debug_realloc-IsValid (find_header p m.allocated_blocks))
                  (λ d.
                    if_cases IsValidCall (resize p size == 0) _ _ (λ z. v)
                      λ ok. record {
                        total_is = v.total_is;
                        peak_is = v.peak_is;
                        small = v.small;
                        current_is = λ e. absurd (true-ne-false (sym e ∙ d));
                        count_is = λ e. absurd (true-ne-false (sym e ∙ d));
                      })
  where
    debug_realloc-IsValid : (o : Option BlockHeader) → IsValidCall (debug_realloc m o)
    debug_realloc-IsValid none = v
    debug_realloc-IsValid (some h) = tt

pub memory_init-IsValid : (m : Manager) (debug : Bool) → IsValid m → IsValid (memory_init m debug)
unfolding memory_init
memory_init-IsValid m debug v =
    if_cases IsValid m.initialized _ _ (λ i. v)
      λ i. record {
        total_is = omega arith;
        peak_is = omega arith;
        small = unfold sum_sizes in omega arith;
        current_is = λ e. unfold sum_sizes in refl;
        count_is = λ e. omega arith;
      }

pub memory_cleanup-IsValid : (m : Manager) → IsValid m → IsValidCall (memory_cleanup m)
unfolding memory_cleanup
memory_cleanup-IsValid m v =
    if_cases IsValidCall (not m.initialized) _ _ (λ i. v)
      λ i.
        if_cases IsValidCall (m.debug_enabled && any_header m.allocated_blocks) _ _ (λ l. tt)
          λ l. record {
            total_is = v.total_is;
            peak_is = v.peak_is;
            small = v.small;
            current_is = v.current_is;
            count_is = v.count_is;
          }
