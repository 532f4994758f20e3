-- ===== src/Memory/Pool/Chains.antt =====
-- Chains of free blocks on the heap of a memory pool of src/utils/memory.c, and writes beside them.
use mathlib.Core.Path.{fun_ext}
use mathlib.Core.Option.{some-injective}
use xsan.Base.{
  ℕ, true, false, Bool-cases, some, List, [], ◌∷◌, ◌==◌, inl, inr, ◌⊎◌, arith, ◌≡◌, ◌≢◌, refl, sym,
  ap, ◌∙◌, ==_iff, ==_self,
}
use xsan.Memory.Pool.{PoolBlock, PoolHeap, write_block}

-- The free list runs through exactly these blocks, none of them in use, and ends in NULL.
unfoldable pub IsFreeChain : PoolHeap → ℕ → List ℕ → Type 0
IsFreeChain h at [] = at ≡ 0
IsFreeChain h at (x ∷ xs) =
    (at ≡ x) × (b : PoolBlock) × (h x ≡ some b) × (b.in_use ≡ false) × IsFreeChain h b.next xs

-- An address is not among these.
abbrev pub NotAmong : ℕ → List ℕ → Type 0
NotAmong y [] = Unit {0}
NotAmong y (x ∷ xs) = (y ≢ x) × NotAmong y xs

abbrev pub AllDifferent : List ℕ → Type 0
AllDifferent [] = Unit {0}
AllDifferent (x ∷ xs) = NotAmong x xs × AllDifferent xs

pub write_block_other : (h : PoolHeap) (p q : ℕ) (b : PoolBlock) → p ≢ q → write_block h p b q ≡ h q
unfolding write_block
write_block_other h p q b n = elim (Bool-cases (p == q)) [
  | inl e ↦ absurd (n ((==_iff p q).0 e))
  | inr e ↦ rw e refl
]

pub write_block_same : (h : PoolHeap) (p : ℕ) (b : PoolBlock) → write_block h p b p ≡ some b
unfolding write_block
write_block_same h p b = rw (==_self p) refl

pub open_chain :
    (h : PoolHeap) (at x : ℕ) (xs : List ℕ)
    → IsFreeChain h at (x ∷ xs)
    → (at ≡ x) × (b : PoolBlock) × (h x ≡ some b) × (b.in_use ≡ false) × IsFreeChain h b.next xs
unfolding IsFreeChain
open_chain h at x xs f = f

-- A write to another block leaves the chain.
pub IsFreeChain-write_block :
    (h : PoolHeap) (y : ℕ) (c : PoolBlock) (at : ℕ) (xs : List ℕ)
    → NotAmong y xs
    → IsFreeChain h at xs
    → IsFreeChain (write_block h y c) at xs
unfolding IsFreeChain
IsFreeChain-write_block h y c at [] n f = f
IsFreeChain-write_block h y c at (x ∷ xs) (n, ns) (e, b, is, unused, rest) = (
  e,
  b,
  write_block_other h y x c n ∙ is,
  unused,
  IsFreeChain-write_block h y c b.next xs ns rest,
)

pub true-ne-false : ¬ (true ≡ false)
true-ne-false e = ground (arith, e)

-- A block that is in use, or none, is not on the free list.
pub NotAmong-free :
    (h : PoolHeap) (y : ℕ) (at : ℕ) (xs : List ℕ)
    → ((b : PoolBlock) → h y ≡ some b → b.in_use ≡ true)
    → IsFreeChain h at xs
    → NotAmong y xs
unfolding IsFreeChain
NotAmong-free h y at [] used f = tt
NotAmong-free h y at (x ∷ xs) used (e, b, is, unused, rest) = (
  λ same. true-ne-false (sym (used b (ap h same ∙ is)) ∙ unused),
  NotAmong-free h y b.next xs used rest,
)

pub write_block_cases :
    (h : PoolHeap) (y x : ℕ) (c d : PoolBlock)
    → write_block h y c x ≡ some d
    → ((y ≡ x) × (c ≡ d)) ⊎ ((y ≢ x) × (h x ≡ some d))
unfolding write_block
write_block_cases h y x c d e = elim (Bool-cases (y == x)) [
  | inl s ↦ inl ((==_iff y x).0 s, some-injective c d (simp s at e))
  | inr n ↦ inr (λ q. true-ne-false (sym ((==_iff y x).1 q) ∙ n), simp n at e)
]

-- Where a block is rewritten with the same bytes, every block was there with its bytes.
pub old_block :
    (h : PoolHeap) (y : ℕ) (b c : PoolBlock)
    → h y ≡ some b
    → b.bytes ≡ c.bytes
    → (x : ℕ) (d : PoolBlock) → write_block h y c x ≡ some d
    → (d0 : PoolBlock) × (h x ≡ some d0) × (d0.bytes ≡ d.bytes)
old_block h y b c is same x d e = elim (write_block_cases h y x c d e) [
  | inl (at, is_d) ↦ (b, ap h (sym at) ∙ is, same ∙ ap (λ (k : PoolBlock). k.bytes) is_d)
  | inr (n, old) ↦ (d, old, refl)
]

pub write_block_twice :
    (h : PoolHeap) (p : ℕ) (b c : PoolBlock)
    → write_block (write_block h p b) p c ≡ write_block h p c
unfolding write_block
write_block_twice h p b c =
    fun_ext λ q. elim (Bool-cases (p == q)) [ inl e ↦ simp e refl | inr e ↦ simp e refl ]
