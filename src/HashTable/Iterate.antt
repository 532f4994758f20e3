-- ===== src/HashTable/Iterate.antt =====
-- The iterator of src/common/hashtable.c, and what `clear` destroys.
use xsan.Base.{
  ℕ, zero, suc, ◌+◌, ◌-◌, ◌≤◌, ◌<◌, ◌≡◌, refl, sym, ap, ap₂, ◌∙◌, none, some, List, [], ◌∷◌, ◌++◌,
  map, arith, length, get_or, length-append, if◌then◌else◌, replicate, length-replicate,
}
use native.Mathlib.Numerals.{add-one}
use xsan.HashTable.{
  HashTable, Entry, EntryChain, Iter, entries_from, next_bucket, iter_next, iter_init, iterate,
  rest_of, head_of, clear, get, find, index_of,
}
use xsan.HashTable.Chain.{distinct}
use xsan.HashTable.Inv.{IsValid, total}

-- What an iterator at bucket `i` with the chain `c` has yet to hand out.
module _ (t : HashTable) where
  abbrev ahead : (left i : ℕ) → EntryChain → List Entry
  ahead left i c = c ++ entries_from t.buckets i left

  -- The search for the next bucket skips empty ones only, and stays within the table.
  next_bucket_lem :
      (finish left i : ℕ) (c : EntryChain)
      → left + i ≡ finish
      → let (i', c') = next_bucket t left i c in
        (ahead (finish - i') i' c' ≡ ahead left i c)
        × (i' ≤ finish)
        × (c' ≡ [] → ahead left i c ≡ [])
  unfolding next_bucket entries_from
  next_bucket_lem finish left i (e ∷ c) h =
      let p : finish - i ≡ left = omega arith in (rw p, omega arith, λ q. cc)
  next_bucket_lem finish zero i [] h =
      let p : finish - i ≡ 0 = omega arith in (rw p, omega arith, λ q. refl)
  next_bucket_lem finish (suc left) i [] h =
      next_bucket_lem finish left (i + 1) (get_or t.buckets i []) (omega arith)

  abbrev at : ℕ → EntryChain → Iter
  at i c = record { ht = some t; current_bucket_index = i; current = c }

  -- With fuel for one round more than there are entries ahead, the loop hands out all of them.
  iterate_from :
      (fuel i : ℕ) (c : EntryChain)
      → i ≤ t.capacity
      → length (ahead (t.capacity - i) i (rest_of c)) < fuel
      → iterate fuel (at i c) ≡ ahead (t.capacity - i) i (rest_of c)
  unfolding iterate iter_next
  iterate_from zero i c h lt = absurd (omega arith)
  iterate_from (suc fuel) i c h lt =
      step (next_bucket t (t.capacity - i) i (rest_of c)).0
        (next_bucket t (t.capacity - i) i (rest_of c)).1
        (next_bucket_lem t.capacity (t.capacity - i) i (rest_of c) (omega arith))
        (iterate_from fuel)
    where
      step :
          (i' : ℕ) (c' : EntryChain)
          → (ahead (t.capacity - i') i' c' ≡ ahead (t.capacity - i) i (rest_of c))
            × (i' ≤ t.capacity)
            × (c' ≡ [] → ahead (t.capacity - i) i (rest_of c) ≡ [])
          → ((k : ℕ) (d : EntryChain)
              → k ≤ t.capacity
              → length (ahead (t.capacity - k) k (rest_of d)) < fuel
              → iterate fuel (at k d) ≡ ahead (t.capacity - k) k (rest_of d))
          → (elim (head_of c') [ none ↦ [] | some x ↦ x ∷ iterate fuel (at i' c') ])
            ≡ ahead (t.capacity - i) i (rest_of c)
      step i' [] (same, below, empty) again = sym (empty refl)
      step i' (e ∷ d) (same, below, empty) again =
          ap (λ r. e ∷ r) (again i' (e ∷ d) below (omega (arith, ap length same))) ∙ same

-- The entries of the table, bucket by bucket.
abbrev pub entries : HashTable → List Entry
entries t = entries_from t.buckets 0 t.capacity

entries_from-cons :
    (b : EntryChain) (bs : List EntryChain) (n i : ℕ)
    → entries_from (b ∷ bs) (i + 1) n ≡ entries_from bs i n
unfolding entries_from
entries_from-cons b bs zero i = refl
entries_from-cons b bs (suc n) i =
    ap₂ ◌++◌ (ap (λ k. get_or (b ∷ bs) k []) (add-one i)) (entries_from-cons b bs n (i + 1))

length-entries_from : (bs : List EntryChain) → length (entries_from bs 0 (length bs)) ≡ total bs
unfolding entries_from
length-entries_from [] = refl
length-entries_from (b ∷ bs) = omega (
  arith,
  length-append b (entries_from (b ∷ bs) 1 (length bs)),
  ap length (entries_from-cons b bs (length bs) 0),
  length-entries_from bs,
)

pub length-entries : (t : HashTable) → IsValid t → length (entries t) ≡ t.size
length-entries t h = omega (
  arith,
  length-entries_from t.buckets,
  ap (λ n. length (entries_from t.buckets 0 n)) h.storage,
  h.sized,
)

-- A loop over a fresh iterator on a valid table ends after `size` entries, and hands out every
-- entry of every bucket once, in bucket order.
pub iterate_all :
    (t : HashTable)
    → IsValid t
    → (iterate (t.size + 1) (iter_init (some t)) ≡ entries t) × (length (entries t) ≡ t.size)
unfolding iter_init
iterate_all t h =
    let whole : t.capacity - 0 ≡ t.capacity = omega arith in
    let found =
      iterate_from t (t.size + 1) 0 [] (omega arith)
        (rw whole (omega (arith, length-entries t h))) in
    (rw whole at found, length-entries t h)

total-replicate : (n : ℕ) → total (replicate n []) ≡ 0
total-replicate zero = refl
total-replicate (suc n) = omega (arith, total-replicate n)

get_or-replicate : (n i : ℕ) → get_or {A = EntryChain} (replicate n []) i [] ≡ []
get_or-replicate zero i = refl
get_or-replicate (suc n) zero = refl
get_or-replicate (suc n) (suc i) = get_or-replicate n i

abbrev pub cleared : HashTable → HashTable
cleared t = record t { buckets = replicate t.capacity []; size = 0 }

-- `clear` on a valid table hands to the key destructor the keys, and to the value destructor the
-- values, of exactly the entries that an iteration hands out, in that order, and to a missing
-- destructor nothing; it leaves a valid table of size 0 in which `get` of any key gives NULL.
pub clear_lem :
    (t : HashTable) (j : ℕ)
    → IsValid t
    → let walk = iterate (t.size + 1) (iter_init (some t)) in
      ((clear (some t)).0 ≡ (if t.key_destroy_func then map (λ e. e.0) walk else []))
      × ((clear (some t)).1 ≡ (if t.value_destroy_func then map (λ e. e.1) walk else []))
      × ((clear (some t)).2 ≡ some (cleared t))
      × IsValid (cleared t)
      × (get (some (cleared t)) j ≡ 0)
unfolding clear get find distinct
clear_lem t j h =
    let seen = (iterate_all t h).0 in
    (
      rw seen,
      rw seen,
      refl,
      record {
        keys = h.keys;
        positive = h.positive;
        storage = length-replicate t.capacity [];
        chains = λ i. rw (get_or-replicate t.capacity i);
        sized = sym (total-replicate t.capacity);
      },
      rw (get_or-replicate t.capacity (index_of t j)) (ground arith),
    )
