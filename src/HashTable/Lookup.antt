-- ===== src/HashTable/Lookup.antt =====
-- What `get` returns after `put`, `remove` and `clear` of src/common/hashtable.c.
use xsan.Base.{
  ℕ, ◌≡◌, ◌≢◌, refl, Bool, true, false, ◌&&◌, Option, none, not, ◌||◌, some, [], ◌∷◌, arith, get_or,
  set, get_or-set_self, get_or-set_ne, Option-cases, Bool-cases, inl, inr, if◌then◌else◌, ◌==◌,
}
use xsan.Status.{is_ok}
use xsan.HashTable.{
  HashTable, Entry, EntryChain, index_of, chain_of, find, replace, unlink, put_in, put_found,
  remove_in, get,
}
use xsan.HashTable.Chain.{find-replace, replace-none, find-unlink, unlink-none, find_congr}
use xsan.HashTable.Inv.{IsValid, index-lt}

-- The value under a key that is not NULL.
abbrev pub value_of : Option ℕ → ℕ
value_of none = 0
value_of (some v) = v

pub get-find :
    (t : HashTable) (k : ℕ)
    → k ≢ 0
    → get (some t) k ≡ value_of (find t.compare_func k (chain_of t k))
unfolding get
get-find t k nz = ground arith

-- The chain of `j` after a write to the chain of `k`.
chain_after :
    (t : HashTable) (k j : ℕ) (c : EntryChain)
    → IsValid t
    → get_or (set t.buckets (index_of t k) c) (index_of t j) []
      ≡ (if index_of t k == index_of t j then c else chain_of t j)
chain_after t k j c h = ground (
  arith,
  get_or-set_self t.buckets (index_of t k) c [] (index-lt t k h),
  get_or-set_ne t.buckets {i = index_of t k} {j = index_of t j} c [],
)

-- A chain written back with the entry of `k` changed to `r` changes what is found at keys equal
-- to `k` only.
find_after :
    (t : HashTable) (k j : ℕ) (c : EntryChain) (r : Option ℕ)
    → IsValid t
    → find t.compare_func j c
      ≡ (if t.compare_func k j then r else find t.compare_func j (chain_of t k))
    → find t.compare_func j (get_or (set t.buckets (index_of t k) c) (index_of t j) [])
      ≡ (if t.compare_func k j then r else find t.compare_func j (chain_of t j))
find_after t k j c r h e = rw (chain_after t k j c h) (elim (Bool-cases (t.compare_func k j)) [
  | inl same ↦ ground (arith, h.keys.hash_congr k j same)
  | inr differ ↦ ground arith
])

find-front :
    (same : ℕ → ℕ → Bool) (k v j : ℕ) (c : EntryChain)
    → find same j ((k, v) ∷ c) ≡ (if same k j then some v else find same j c)
unfolding find
find-front same k v j c = refl

-- A conditional commutes with `value_of`.
value_of-if :
    (b : Bool) (o p : Option ℕ)
    → value_of (if b then o else p) ≡ (if b then value_of o else value_of p)
value_of-if true o p = refl
value_of-if false o p = refl

abbrev pub present : HashTable → ℕ → Bool
present t k = is_some (find t.compare_func k (chain_of t k))
  where
    is_some : Option ℕ → Bool
    is_some none = false
    is_some (some v) = true

-- `put` succeeds exactly if the key is not NULL and either is present or can be given an entry.
pub put_status :
    (t : HashTable) (k v : ℕ) (m : Bool)
    → IsValid t
    → is_ok (put_in t k v m).0 ≡ (not (k == 0) && (present t k || m))
unfolding put_in
put_status t k v m h = elim (Bool-cases (k == 0)) [
  | inl z ↦ rw z
  | inr nz ↦ rw nz (elim (Option-cases (replace t.compare_func k v (chain_of t k))) [
    | inl e ↦
        rw (e, replace-none t.compare_func t.hash_func h.keys k v (chain_of t k) e) (by_alloc m)
    | inr ((old, c), e) ↦
        rw (e, (find-replace t.compare_func t.hash_func h.keys k v k (chain_of t k) old c e).1)
  ])
]
  where
    by_alloc : (b : Bool) → is_ok (put_found t k v b none).0 ≡ b
    by_alloc true = refl
    by_alloc false = refl

-- After `put` of `v` at `k`, on every branch, `get` of a key that is not NULL gives `v` if `put`
-- succeeded and the key compares equal to `k`, and what it gave before otherwise.
pub get-put :
    (t : HashTable) (k v j : ℕ) (m : Bool)
    → IsValid t
    → j ≢ 0
    → get (some (put_in t k v m).2) j
      ≡ (if is_ok (put_in t k v m).0 && t.compare_func k j then v else get (some t) j)
unfolding put_in
get-put t k v j m h nz =
    rw (get-find t j nz, get-find (put_in t k v m).2 j nz)
      (elim (Bool-cases (k == 0)) [
        | inl z ↦ rw z
        | inr p ↦ rw p (elim (Option-cases (replace t.compare_func k v (chain_of t k))) [
          | inl e ↦ rw e (added m)
          | inr ((old, c), e) ↦ rw e (
              rw
                (find_after t k j c (some v) h
                  (find-replace t.compare_func t.hash_func h.keys k v j (chain_of t k) old c e).0)
                (value_of-if (t.compare_func k j) _ _))
        ])
      ])
  where
    added :
        (b : Bool)
        → value_of
            (find (put_found t k v b none).2.compare_func j (chain_of (put_found t k v b none).2 j))
          ≡ (if is_ok (put_found t k v b none).0 && t.compare_func k j
              then v
              else value_of (find t.compare_func j (chain_of t j)))
    added true =
        rw
          (find_after t k j ((k, v) ∷ chain_of t k) (some v) h
            (find-front t.compare_func k v j (chain_of t k)))
          (value_of-if (t.compare_func k j) _ _)
    added false = refl

-- `remove` succeeds exactly if the key is not NULL and is present. After it, on every branch,
-- `get` of a key that is not NULL gives NULL if the key compares equal to the removed one, and
-- what it gave before otherwise.
pub get-remove :
    (t : HashTable) (k j : ℕ)
    → IsValid t
    → k ≢ 0
    → j ≢ 0
    → (is_ok (remove_in t k).0 ≡ present t k)
      × (get (some (remove_in t k).3) j ≡ (if t.compare_func k j then 0 else get (some t) j))
unfolding remove_in
get-remove t k j h knz nz =
    rw (get-find t j nz, get-find (remove_in t k).3 j nz, not_null)
      (elim (Option-cases (unlink t.compare_func k (chain_of t k))) [
        | inl e ↦ rw e (absent e)
        | inr ((o, c), e) ↦ rw e (unlinked o c e)
      ])
  where
    not_null : (k == 0) ≡ false
    not_null = ground arith

    absent :
        unlink t.compare_func k (chain_of t k) ≡ none
        → (false ≡ present t k)
          × (value_of (find t.compare_func j (chain_of t j))
              ≡ (if t.compare_func k j then 0 else value_of (find t.compare_func j (chain_of t j))))
    absent e =
        let missing = unlink-none t.compare_func t.hash_func h.keys k (chain_of t k) e in
        (
          rw missing,
          ground (
            arith,
            missing,
            h.keys.hash_congr k j,
            find_congr t.compare_func t.hash_func h.keys k j (chain_of t k),
          ),
        )

    unlinked :
        (o : Entry) (c : EntryChain)
        → unlink t.compare_func k (chain_of t k) ≡ some (o, c)
        → (true ≡ present t k)
          × (value_of
                (find t.compare_func j (get_or (set t.buckets (index_of t k) c) (index_of t j) []))
              ≡ (if t.compare_func k j then 0 else value_of (find t.compare_func j (chain_of t j))))
    unlinked o c e =
        let (others, found, fewer) =
          find-unlink t.compare_func t.hash_func h.keys k j (chain_of t k) o c
            (h.chains (index_of t k)) e in
        (rw found, rw (find_after t k j c none h others) (value_of-if (t.compare_func k j) _ _))
