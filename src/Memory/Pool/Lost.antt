-- ===== src/Memory/Pool/Lost.antt =====
-- Returning the blocks of a memory pool of src/utils/memory.c in the order in which they were taken.
use xsan.Base.{
  ℕ, zero, suc, true, false, Bool-cases, none, some, ◌==◌, inl, inr, ◌≡◌, ◌≢◌, refl, sym, ap, ◌∙◌,
  ==_iff, ==_self,
}
use xsan.Memory.Pool.{
  PoolBlock, PoolHeap, Pool, BlockAnswer, write_block, pool_alloc, find_block, give_back, pool_free,
}
use xsan.Memory.Pool.Chains.{write_block_other, write_block_same}

-- Both lists are the same two blocks, as xsan_memory_pool_create leaves a pool of two.
pub record IsPair (p : Pool) (x y bx by : ℕ) : Type 0 where
  pub free_is : p.free_blocks ≡ x
  pub all_is : p.all_blocks ≡ x
  pub x_is : p.heap x ≡ some (record { bytes = bx; in_use = false; next = y })
  pub y_is : p.heap y ≡ some (record { bytes = by; in_use = false; next = 0 })
  pub null : p.heap 0 ≡ none
  pub x_not_null : x ≢ 0
  pub y_not_null : y ≢ 0
  pub apart : x ≢ y
  pub bytes_apart : bx ≢ by
  pub bx_not_null : bx ≢ 0
  pub by_not_null : by ≢ 0

differ : (a b : ℕ) → a ≢ b → (a == b) ≡ false
differ a b h = elim (Bool-cases (a == b)) [ inl e ↦ absurd (h ((==_iff a b).0 e)) | inr e ↦ e ]

find_block_hit :
    (fuel : ℕ) (h : PoolHeap) (at : ℕ) (b : PoolBlock)
    → h at ≡ some b
    → find_block (suc fuel) h at b.bytes ≡ some at
unfolding find_block
find_block_hit fuel h at b e = rw (e, find_block) (rw (==_self b.bytes) refl)

find_block_miss :
    (fuel : ℕ) (h : PoolHeap) (at bytes : ℕ) (b : PoolBlock)
    → h at ≡ some b
    → b.bytes ≢ bytes
    → find_block (suc fuel) h at bytes ≡ find_block fuel h b.next bytes
unfolding find_block
find_block_miss fuel h at bytes b e n = rw (e, find_block) (rw (differ b.bytes bytes n) refl)

find_block_null :
    (fuel : ℕ) (h : PoolHeap) (at bytes : ℕ) → h at ≡ none → find_block fuel h at bytes ≡ none
unfolding find_block
find_block_null zero h at bytes e = refl
find_block_null (suc fuel) h at bytes e = rw (e, find_block) refl

module _ (p : Pool) (x y bx by : ℕ) (h : IsPair p x y bx by) (a : BlockAnswer) where
  abbrev x_used : PoolBlock
  x_used = record { bytes = bx; in_use = true; next = y }

  abbrev y_used : PoolBlock
  y_used = record { bytes = by; in_use = true; next = 0 }

  abbrev x_free : PoolBlock
  x_free = record { bytes = bx; in_use = false; next = 0 }

  p1 : Pool
  p1 = record p { free_blocks = y; heap = write_block p.heap x x_used }

  p2 : Pool
  p2 = record p { free_blocks = 0; heap = write_block (write_block p.heap x x_used) y y_used }

  p3 : Pool
  p3 = record p {
    free_blocks = x;
    heap = write_block (write_block (write_block p.heap x x_used) y y_used) x x_free;
  }

  first_alloc : pool_alloc p a ≡ (bx, p1)
  unfolding pool_alloc p1
  first_alloc =
      rw
        (
          ap (λ f. f == 0) h.free_is ∙ differ x 0 h.x_not_null,
          ap p.heap h.free_is ∙ h.x_is,
          h.free_is,
        )
        refl

  y_in_p1 : p1.heap y ≡ some (record { bytes = by; in_use = false; next = 0 })
  unfolding p1
  y_in_p1 = write_block_other p.heap x y x_used h.apart ∙ h.y_is

  second_alloc : pool_alloc p1 a ≡ (by, p2)
  unfolding pool_alloc p1 p2
  second_alloc = rw (differ y 0 h.y_not_null, y_in_p1) refl

  x_in_p2 : p2.heap x ≡ some x_used
  unfolding p2
  x_in_p2 =
      write_block_other (write_block p.heap x x_used) y x y_used (λ e. h.apart (sym e))
      ∙ write_block_same p.heap x x_used

  first_found : (fuel : ℕ) → find_block (suc fuel) p2.heap p2.all_blocks bx ≡ some x
  unfolding p2
  first_found fuel =
      ap (λ f. find_block (suc fuel) p2.heap f bx) h.all_is
      ∙ find_block_hit fuel p2.heap x x_used x_in_p2

  first_free : (fuel : ℕ) → pool_free (suc fuel) p2 bx ≡ p3
  unfolding pool_free
  first_free fuel =
      rw (differ bx 0 h.bx_not_null, first_found fuel)
        (ap (give_back p2 x) x_in_p2 ∙ unfold p2 p3 in refl)

  null_in_p3 : p3.heap 0 ≡ none
  unfolding p3
  null_in_p3 =
      write_block_other (write_block (write_block p.heap x x_used) y y_used) x 0 x_free h.x_not_null
      ∙ write_block_other (write_block p.heap x x_used) y 0 y_used h.y_not_null
      ∙ write_block_other p.heap x 0 x_used h.x_not_null
      ∙ h.null

  x_in_p3 : p3.heap x ≡ some x_free
  unfolding p3
  x_in_p3 = write_block_same (write_block (write_block p.heap x x_used) y y_used) x x_free

  y_in_p3 : p3.heap y ≡ some y_used
  unfolding p3
  y_in_p3 =
      write_block_other (write_block (write_block p.heap x x_used) y y_used) x y x_free h.apart
      ∙ write_block_same (write_block p.heap x x_used) y y_used

  not_found : (fuel : ℕ) → find_block fuel p3.heap x by ≡ none
  not_found zero = unfold find_block in refl
  not_found (suc fuel) =
      find_block_miss fuel p3.heap x by x_free x_in_p3 h.bytes_apart
      ∙ find_block_null fuel p3.heap 0 by null_in_p3

  all_in_p3 : p3.all_blocks ≡ x
  unfolding p3
  all_in_p3 = h.all_is

  second_free : (fuel : ℕ) → pool_free fuel p3 by ≡ p3
  unfolding pool_free
  second_free fuel =
      rw
        (
          differ by 0 h.by_not_null,
          ap (λ f. find_block fuel p3.heap f by) all_in_p3 ∙ not_found fuel,
        )
        refl

  -- A pool of two free blocks hands out both. If the first of them is returned first, the second is
  -- lost: returning it changes nothing, however long the walk may be, and it stays in use.
  pub pool_free_loses :
      (q : Pool) × (pool_alloc p a ≡ (bx, q))
      × ((pool_alloc q a).0 ≡ by)
      × ((fuel more : ℕ)
          → (pool_free more (pool_free (suc fuel) (pool_alloc q a).1 bx) by
              ≡ pool_free (suc fuel) (pool_alloc q a).1 bx)
            × (b : PoolBlock) × ((pool_free (suc fuel) (pool_alloc q a).1 bx).heap y ≡ some b)
            × (b.in_use ≡ true))
  pool_free_loses = (
    p1,
    first_alloc,
    ap (λ r. r.0) second_alloc,
    λ fuel more.
        let at_p3 : pool_free (suc fuel) (pool_alloc p1 a).1 bx ≡ p3 =
          ap (λ r. pool_free (suc fuel) r.1 bx) second_alloc ∙ first_free fuel in
        (
          ap (λ q. pool_free more q by) at_p3 ∙ second_free more ∙ sym at_p3,
          y_used,
          ap (λ (q : Pool). q.heap y) at_p3 ∙ y_in_p3,
          refl,
        ),
  )
