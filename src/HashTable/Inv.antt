-- ===== src/HashTable/Inv.antt =====
-- The representation invariant of `struct xsan_hashtable`, and what `put` and `remove` do to it.
use xsan.Base.{
  ℕ, zero, suc, ◌+◌, ◌-◌, ◌<◌, ◌≡◌, ◌∙◌, Bool, true, false, none, some, List, [], ◌∷◌, arith,
  length, get_or, set, get_or-set_self, get_or-set_ne, length-set, add_size, size_mod, Option-cases,
  Bool-cases, inl, inr, ◌==◌,
}
use xsan.HashTable.{
  HashTable, Entry, EntryChain, index_of, chain_of, replace, unlink, put_in, put_found, remove_in,
}
use xsan.HashTable.Chain.{
  IsKeyTest, distinct, find-replace, replace-none, find-unlink, replace-distinct, distinct-cons,
  unlink-distinct,
}

abbrev pub total : List EntryChain → ℕ
total [] = 0
total (c ∷ bs) = length c + total bs

pub record IsValid (t : HashTable) : Type 0 where
  pub keys : IsKeyTest t.compare_func t.hash_func
  pub positive : 0 < t.capacity
  pub storage : length t.buckets ≡ t.capacity
  pub chains : (i : ℕ) → distinct t.compare_func (get_or t.buckets i []) ≡ true
  pub sized : t.size ≡ total t.buckets

total-set :
    (bs : List EntryChain) (i : ℕ) (c : EntryChain)
    → i < length bs
    → total (set bs i c) + length (get_or bs i []) ≡ total bs + length c
total-set [] i c h = absurd (omega arith)
total-set (b ∷ bs) zero c h = omega arith
total-set (b ∷ bs) (suc i) c h = omega (arith, total-set bs i c (omega arith))

pub index-lt : (t : HashTable) (k : ℕ) → IsValid t → index_of t k < length t.buckets
index-lt t k h = omega (arith, h.positive, h.storage)

set-chains :
    (same : ℕ → ℕ → Bool) (bs : List EntryChain) (i : ℕ) (c : EntryChain)
    → ((j : ℕ) → distinct same (get_or bs j []) ≡ true)
    → distinct same c ≡ true
    → i < length bs
    → (j : ℕ) → distinct same (get_or (set bs i c) j []) ≡ true
set-chains same bs i c h d lt j = elim (Bool-cases (i == j)) [
  | inl e ↦ ground (arith, get_or-set_self bs i c [] lt)
  | inr ne ↦ ground (arith, get_or-set_ne bs {i = i} {j = j} c [] (ground arith), h j)
]

-- A table whose chain at `k` is replaced by a chain of distinct keys, with the size to match.
pub rechained-IsValid :
    (t : HashTable) (k : ℕ) (c : EntryChain) (n : ℕ)
    → IsValid t
    → distinct t.compare_func c ≡ true
    → n + length (chain_of t k) ≡ t.size + length c
    → IsValid (record t { buckets = set t.buckets (index_of t k) c; size = n })
rechained-IsValid t k c n h d e = record {
  keys = h.keys;
  positive = h.positive;
  storage = length-set t.buckets (index_of t k) c ∙ h.storage;
  chains = set-chains t.compare_func t.buckets (index_of t k) c h.chains d (index-lt t k h);
  sized = omega (arith, total-set t.buckets (index_of t k) c (index-lt t k h), h.sized);
}

-- `put` on a valid table leaves a valid table on every branch, unless the count would wrap.
pub put_in-IsValid :
    (t : HashTable) (k v : ℕ) (m : Bool)
    → IsValid t
    → t.size + 1 < size_mod
    → IsValid (put_in t k v m).2
unfolding put_in
put_in-IsValid t k v m h small = elim (Bool-cases (k == 0)) [
  | inl z ↦ rw z h
  | inr nz ↦ rw nz (elim (Option-cases (replace t.compare_func k v (chain_of t k))) [
    | inl e ↦ rw e (added e m)
    | inr ((old, c), e) ↦ rw e (
        rechained-IsValid t k c t.size h
          (replace-distinct t.compare_func t.hash_func h.keys k v (chain_of t k) old c e
            (h.chains (index_of t k)))
          (omega (
            arith,
            (find-replace t.compare_func t.hash_func h.keys k v k (chain_of t k) old c e).2,
          )))
  ])
]
  where
    added :
        replace t.compare_func k v (chain_of t k) ≡ none
        → (b : Bool) → IsValid (put_found t k v b none).2
    added e true =
        rechained-IsValid t k ((k, v) ∷ chain_of t k) (add_size t.size 1) h
          (distinct-cons t.compare_func t.hash_func h.keys k v (chain_of t k)
            (replace-none t.compare_func t.hash_func h.keys k v (chain_of t k) e)
            (h.chains (index_of t k)))
          (omega arith)
    added e false = h

-- `remove` on a valid table leaves a valid table on every branch.
pub remove_in-IsValid : (t : HashTable) (k : ℕ) → IsValid t → IsValid (remove_in t k).3
unfolding remove_in
remove_in-IsValid t k h = elim (Bool-cases (k == 0)) [
  | inl z ↦ rw z h
  | inr nz ↦ rw nz (elim (Option-cases (unlink t.compare_func k (chain_of t k))) [
    | inl e ↦ rw e h
    | inr ((o, c), e) ↦ rw e (
        rechained-IsValid t k c (t.size - 1) h
          (unlink-distinct t.compare_func t.hash_func h.keys k (chain_of t k) o c e
            (h.chains (index_of t k)))
          (unlinked_size o c e))
  ])
]
  where
    unlinked_size :
        (o : Entry) (c : EntryChain)
        → unlink t.compare_func k (chain_of t k) ≡ some (o, c)
        → t.size - 1 + length (chain_of t k) ≡ t.size + length c
    unlinked_size o c e = omega (
      arith,
      (find-unlink t.compare_func t.hash_func h.keys k k (chain_of t k) o c
          (h.chains (index_of t k)) e).2,
      total-set t.buckets (index_of t k) c (index-lt t k h),
      h.sized,
    )
