-- ===== src/Memory/Pool/Handed.antt =====
-- What a memory pool of src/utils/memory.c hands out, after any sequence of calls.
use mathlib.Core.Path.{subst}
use mathlib.Core.Option.{none-ne-some, some-injective}
use xsan.Base.{
  ℕ, zero, suc, Bool, true, false, Option, none, some, List, [], ◌∷◌, ◌==◌, ltb, if◌then◌else◌, not,
  ◌||◌, inl, inr, arith, ◌≡◌, ◌≢◌, ◌⊎◌, refl, sym, ap, ◌∙◌, if_cases,
}
use xsan.Memory.Pool.{
  PoolConfig, PoolBlock, Pool, BlockAnswer, answer_refused, with_block, initial, pool_create,
  take_free, make_block, pool_alloc, pool_free,
}
use xsan.Memory.Pool.Owned.{
  IsHeld, IsValid, IsNew, pool_alloc-IsValid, pool_free-IsValid, with_block-IsValid,
}
use xsan.Memory.Pool.Chains.{IsFreeChain, write_block_other, write_block_same, true-ne-false}

-- The answers for the first blocks are new where they are given.
abbrev pub AllNew : ℕ → Pool → (ℕ → BlockAnswer) → Type 0
AllNew zero p answers = Unit {0}
AllNew (suc n) p answers =
    (answer_refused (answers n) ≡ false → IsNew p (answers n))
    × AllNew n (with_block p (answers n)) answers

abbrev pub no_blocks : PoolConfig → Pool
no_blocks c = record {
  config = c;
  free_blocks = 0;
  all_blocks = 0;
  current_blocks = 0;
  heap = λ q. none;
}

initial-IsValid :
    (n : ℕ) (p : Pool) (answers : ℕ → BlockAnswer)
    → AllNew n p answers
    → p.free_blocks ≡ p.all_blocks
    → IsValid p
    → IsValid (initial n p answers)
unfolding initial
initial-IsValid zero p answers new same v = v
initial-IsValid (suc n) p answers (new, rest) same v =
    if_cases IsValid (answer_refused (answers n)) _ _ (λ r. v)
      λ r.
        initial-IsValid n (with_block p (answers n)) answers rest (unfold with_block in refl)
          (with_block-IsValid p (answers n) (new r) same v)

no_blocks-IsValid : (c : PoolConfig) → IsValid (no_blocks c)
no_blocks-IsValid c = record {
  free_list = [];
  chain = unfold IsFreeChain in refl;
  different = tt;
  null = refl;
  bytes_differ = λ x y b d e f q. absurd (none-ne-some b e);
}

-- The pools that calls lead to, from creating one.
pub data Reach : Pool → Type 0 where
  creates :
      {p : Pool} (c : PoolConfig) (answers : ℕ → BlockAnswer)
      → AllNew c.initial_blocks (no_blocks c) answers
      → pool_create (some c) true answers ≡ some p
      → Reach p
  allocs : {p q : Pool} (a : BlockAnswer) → Reach p → IsNew p a → q ≡ (pool_alloc p a).1 → Reach q
  frees : {p q : Pool} (fuel bytes : ℕ) → Reach p → q ≡ pool_free fuel p bytes → Reach q

created-IsValid :
    (c : PoolConfig) (answers : ℕ → BlockAnswer) (b : Bool) (p : Pool)
    → AllNew c.initial_blocks (no_blocks c) answers
    → (if b then none else some (initial c.initial_blocks (no_blocks c) answers)) ≡ some p
    → IsValid p
created-IsValid c answers true p new e = absurd (none-ne-some p e)
created-IsValid c answers false p new e =
    subst IsValid (some-injective _ p e)
      (initial-IsValid c.initial_blocks (no_blocks c) answers new refl (no_blocks-IsValid c))

Reach-IsValid : {p : Pool} → Reach p → IsValid p
Reach-IsValid {p} (creates c answers new e) =
    created-IsValid c answers (c.block_size == 0 || not true) p new (unfold pool_create in e)
Reach-IsValid (allocs {p} a r new e) =
    subst IsValid (sym e) (pool_alloc-IsValid p a new (Reach-IsValid r))
Reach-IsValid (frees {p} fuel bytes r e) =
    subst IsValid (sym e) (pool_free-IsValid fuel p bytes (Reach-IsValid r))

-- Nothing happened, or the bytes were nobody's, are held now, and whatever was held still is.
abbrev pub IsHandedOut : Pool → ℕ × Pool → Type 0
IsHandedOut p (r, q) =
    ((r ≡ 0) × (q ≡ p)) ⊎ ((¬ IsHeld p r) × IsHeld q r × ((s : ℕ) → IsHeld p s → IsHeld q s))

take_free-IsHandedOut :
    (p : Pool) (o : Option PoolBlock)
    → p.heap p.free_blocks ≡ o
    → p.free_blocks ≢ 0
    → IsValid p
    → IsHandedOut p (take_free p o)
unfolding IsHeld IsFreeChain
take_free-IsHandedOut p none e n v = inl (refl, refl)
take_free-IsHandedOut p (some b) e n v = inr (
  λ (q, c, is, used, same). true-ne-false (
      sym used
      ∙ ap (λ (k : PoolBlock). k.in_use)
          (some-injective c b
            (sym is ∙ ap p.heap (v.bytes_differ q p.free_blocks c b is e same) ∙ e))
      ∙ unused v.free_list v.chain),
  (p.free_blocks, used_block, write_block_same p.heap p.free_blocks used_block, refl, refl),
  λ s (q, c, is, used, same). (
    q,
    c,
    write_block_other p.heap p.free_blocks q used_block (λ at. true-ne-false (
          sym used
          ∙ ap (λ (k : PoolBlock). k.in_use) (some-injective c b (sym is ∙ ap p.heap (sym at) ∙ e))
          ∙ unused v.free_list v.chain))
        ∙ is,
    used,
    same,
  ),
)
  where
    used_block : PoolBlock
    used_block = record b { in_use = true }

    unused : (xs : List ℕ) → IsFreeChain p.heap p.free_blocks xs → b.in_use ≡ false
    unused [] f = absurd (n f)
    unused (x ∷ xs) (at, c, is, free, rest) =
        ap (λ (k : PoolBlock). k.in_use) (some-injective b c (sym e ∙ ap p.heap at ∙ is)) ∙ free

make_block-IsHandedOut : (p : Pool) (a : BlockAnswer) → IsNew p a → IsHandedOut p (make_block p a)
unfolding IsHeld
make_block-IsHandedOut p a new =
    if_cases (IsHandedOut p) (answer_refused a) _ _ (λ r. inl (refl, refl))
      λ r. inr (
        λ (q, c, is, used, same). new.new_bytes q c is same,
        (a.at, made_block, write_block_same p.heap a.at made_block, refl, refl),
        λ s (q, c, is, used, same). (
          q,
          c,
          write_block_other p.heap a.at q made_block
                (λ at. none-ne-some c (sym new.no_block ∙ ap p.heap at ∙ is))
              ∙ is,
          used,
          same,
        ),
      )
  where
    made_block : PoolBlock
    made_block = record { bytes = a.bytes; in_use = true; next = p.all_blocks }

-- After creating a pool and any sequence of taking and returning bytes, xsan_memory_pool_alloc
-- returns NULL and changes nothing, or returns bytes that nobody holds; they are held then, and all
-- that were held still are. It is relied on that what xsan_malloc returns is not in use.
pub pool_alloc-IsHandedOut :
    {p : Pool} (a : BlockAnswer) → Reach p → IsNew p a → IsHandedOut p (pool_alloc p a)
unfolding pool_alloc
pool_alloc-IsHandedOut {p} a r new =
    if_cases (IsHandedOut p) (not (p.free_blocks == 0)) _ _
      (λ e. take_free-IsHandedOut p (p.heap p.free_blocks) refl (ground arith) (Reach-IsValid r))
      λ e.
        if_cases (IsHandedOut p) (ltb p.current_blocks p.config.max_blocks) _ _
          (λ l. make_block-IsHandedOut p a new) λ l. inl (refl, refl)
