-- ===== src/Memory/Calloc.antt =====
-- The overflow check of xsan_calloc, and what xsan_malloc asks of the system, of src/utils/memory.c.
use xsan.Base.{
  ℕ, ◌+◌, ◌*◌, ◌/◌, ◌%◌, ◌≤◌, ◌<◌, true, false, Bool-cases, [], ltb, ◌==◌, if◌then◌else◌, not, inl,
  inr, arith, ◌≡◌, ◌↔◌, refl, sym, ap, size_mod, ==_iff, ==_self, ltb→lt, lt→ltb,
}
use xsan.Memory.{Manager, system_request, malloc, overflows, calloc, header_bytes}

product_fits :
    (nmemb size : ℕ) → nmemb * size < size_mod → ((nmemb * size) % size_mod) ≡ nmemb * size
product_fits nmemb size h = grind arith

quotient_small : (nmemb total size : ℕ) → 0 < nmemb → total / nmemb ≡ size → nmemb * size ≤ total
quotient_small nmemb total size p h = grind arith

quotient_exact : (nmemb size : ℕ) → 0 < nmemb → (nmemb * size) / nmemb ≡ size
quotient_exact nmemb size p = grind arith

-- A product that wraps is not seen as exact.
wrapped :
    (nmemb size : ℕ)
    → (nmemb == 0) ≡ false
    → size_mod ≤ nmemb * size
    → (((nmemb * size) % size_mod) / nmemb == size) ≡ false
wrapped nmemb size nz h = elim (Bool-cases (((nmemb * size) % size_mod) / nmemb == size)) [
  | inr differ ↦ differ
  | inl same ↦
      let below : nmemb * size ≤ (nmemb * size) % size_mod =
        quotient_small nmemb ((nmemb * size) % size_mod) size (ground arith)
          ((==_iff _ size).0 same) in
      absurd (omega (arith, below, h))
]

ltb-false : (a b : ℕ) → ltb a b ≡ false → b ≤ a
ltb-false a b h = ground arith

overflows_lem :
    (nmemb size : ℕ) → size < size_mod → overflows nmemb size ≡ not (ltb (nmemb * size) size_mod)
unfolding overflows
overflows_lem nmemb size s = elim (Bool-cases (nmemb == 0)) [
  | inl z ↦ rw z (zero_product ((==_iff nmemb 0).0 z))
  | inr nz ↦ elim (Bool-cases (ltb (nmemb * size) size_mod)) [
    | inl fits ↦
        rw
          (
            nz,
            fits,
            product_fits nmemb size (ltb→lt _ _ fits),
            quotient_exact nmemb size (ground arith),
            ==_self size,
          )
          refl
    | inr wraps ↦ rw (nz, wraps) (ap not (wrapped nmemb size nz (ltb-false _ _ wraps)))
  ]
]
  where
    zero_product : nmemb ≡ 0 → false ≡ not (ltb (nmemb * size) size_mod)
    zero_product e = sym (ap not (lt→ltb (nmemb * size) size_mod (grind arith)))

-- xsan_calloc, for two 64-bit numbers, allocates exactly their product as xsan_malloc does, and
-- returns NULL with nothing changed if the product does not fit 64 bits.
pub calloc_lem :
    (sys : ℕ → ℕ) (m : Manager) (nmemb size : ℕ)
    → size < size_mod
    → calloc sys m nmemb size
      ≡ (if ltb (nmemb * size) size_mod then malloc sys m (nmemb * size) else (0, [], m))
unfolding calloc
calloc_lem sys m nmemb size s =
    rw (overflows_lem nmemb size s) (elim (Bool-cases (ltb (nmemb * size) size_mod)) [
      | inl fits ↦ rw (fits, product_fits nmemb size (ltb→lt _ _ fits)) refl
      | inr wraps ↦ rw wraps refl
    ])

-- In debug mode xsan_malloc asks the system for at least the bytes that it then counts exactly if
-- these and the header fit 64 bits.
pub system_request-le :
    (m : Manager) (size : ℕ)
    → m.initialized ≡ true
    → m.debug_enabled ≡ true
    → size < size_mod
    → (size ≤ system_request m size) ↔ (header_bytes + size < size_mod)
system_request-le m size i d s = rw (i, d) (λ h. omega (arith, h), λ h. omega (arith, h))
