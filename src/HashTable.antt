-- ===== src/HashTable.antt =====
-- src/common/hashtable.c: a chained hash table of `void *` keys and values with the client's hash
-- and comparison. A pointer is a number and NULL is 0. A chain of entries is the list of its
-- keys and values; the table owns its chains. A function that frees through a destructor returns
-- the list of the pointers that it passes to it.
pub mod Chain
pub mod Inv
pub mod Lookup
pub mod Iterate
mod Tests
use xsan.Base.{
  ℕ, zero, suc, ◌+◌, ◌-◌, ◌%◌, Bool, true, false, Option, none, some, List, [], ◌∷◌, ◌++◌, map,
  get_or, set, replicate, add_size, if◌then◌else◌, ◌==◌, ltb, ◌||◌, ◌&&◌, not,
}
use xsan.Status.{Status}

abbrev pub Entry : Type 0
Entry = ℕ × ℕ

abbrev pub EntryChain : Type 0
EntryChain = List Entry

-- `compare_func a b` is the test `compare_func(a, b) == 0`. The last two fields say whether the
-- destructors are not NULL.
pub record HashTable : Type 0 where
  pub buckets : List EntryChain
  pub capacity : ℕ
  pub size : ℕ
  pub hash_func : ℕ → ℕ
  pub compare_func : ℕ → ℕ → Bool
  pub key_destroy_func : Bool
  pub value_destroy_func : Bool

abbrev pub default_capacity : ℕ
default_capacity = 16

abbrev pub chosen_capacity : ℕ → ℕ
chosen_capacity n = if ltb 0 n then n else default_capacity

-- The functions are an option, for NULL; the last two say whether the allocations succeed.
pub create :
    ℕ
    → Option (ℕ → ℕ)
    → Option (ℕ → ℕ → Bool)
    → (kd vd malloc_ok calloc_ok : Bool) → Option HashTable
create n none cmp kd vd malloc_ok calloc_ok = none
create n (some h) none kd vd malloc_ok calloc_ok = none
create n (some h) (some cmp) kd vd malloc_ok calloc_ok =
    if not malloc_ok
    then none
    else if not calloc_ok
    then none
    else some (record {
      buckets = replicate (chosen_capacity n) [];
      capacity = chosen_capacity n;
      size = 0;
      hash_func = h;
      compare_func = cmp;
      key_destroy_func = kd;
      value_destroy_func = vd;
    })

abbrev pub index_of : HashTable → ℕ → ℕ
index_of t k = t.hash_func k % t.capacity

abbrev pub chain_of : HashTable → ℕ → EntryChain
chain_of t k = get_or t.buckets (index_of t k) []

module _ (same : ℕ → ℕ → Bool) where
  -- The walk of `get`: the value of the first entry whose key compares equal.
  pub find : ℕ → EntryChain → Option ℕ
  find k [] = none
  find k ((j, w) ∷ c) = if same j k then some w else find k c

  -- The walk of `put`: the old value, and the chain with the new value in its place.
  pub replace : ℕ → ℕ → EntryChain → Option (ℕ × EntryChain)
  replace k v [] = none
  replace k v ((j, w) ∷ c) =
      let rest = replace k v c in
      if same j k
      then some (w, (j, v) ∷ c)
      else elim rest [ none ↦ none | some (old, c') ↦ some (old, (j, w) ∷ c') ]

  -- The walk of `remove`: the entry that is unlinked, and the chain without it.
  pub unlink : ℕ → EntryChain → Option (Entry × EntryChain)
  unlink k [] = none
  unlink k ((j, w) ∷ c) =
      let rest = unlink k c in
      if same j k
      then some ((j, w), c)
      else elim rest [ none ↦ none | some (e, c') ↦ some (e, (j, w) ∷ c') ]

abbrev pub with_chain : HashTable → ℕ → EntryChain → HashTable
with_chain t k c = record t { buckets = set t.buckets (index_of t k) c }

abbrev pub inserted : HashTable → ℕ → ℕ → HashTable
inserted t k v = record t {
  buckets = set t.buckets (index_of t k) ((k, v) ∷ chain_of t k);
  size = add_size t.size 1;
}

-- What `put` does after its walk. The list is that of the values destroyed; `malloc_ok`: the new
-- entry can be allocated.
pub put_found :
    HashTable
    → (key value : ℕ) → (malloc_ok : Bool) → Option (ℕ × EntryChain)
    → Status × List ℕ × HashTable
put_found t k v malloc_ok (some (old, c)) =
    (Status.ok, if t.value_destroy_func && not (old == v) then old ∷ [] else [], with_chain t k c)
put_found t k v malloc_ok none =
    if malloc_ok then (Status.ok, [], inserted t k v) else (Status.no_memory, [], t)

-- `put` on a table that is not NULL.
pub put_in : HashTable → (key value : ℕ) → (malloc_ok : Bool) → Status × List ℕ × HashTable
unfolding put_found
put_in t k v malloc_ok =
    if k == 0
    then (Status.invalid_param, [], t)
    else put_found t k v malloc_ok (replace t.compare_func k v (chain_of t k))

pub put :
    Option HashTable → (key value : ℕ) → (malloc_ok : Bool) → Status × List ℕ × Option HashTable
unfolding put_in
put none k v malloc_ok = (Status.invalid_param, [], none)
put (some t) k v malloc_ok = let (s, vs, t') = put_in t k v malloc_ok in (s, vs, some t')

pub get : Option HashTable → ℕ → ℕ
get none k = 0
get (some t) k =
    if k == 0 then 0 else elim (find t.compare_func k (chain_of t k)) [ none ↦ 0 | some v ↦ v ]

abbrev pub removed : HashTable → ℕ → EntryChain → HashTable
removed t k c = record t { buckets = set t.buckets (index_of t k) c; size = t.size - 1 }

-- What `remove` does after its walk. The lists are those of the keys and of the values
-- destroyed. The table holds the unlinked entry, so `size--` does not wrap.
pub remove_found :
    HashTable → ℕ → Option (Entry × EntryChain) → Status × List ℕ × List ℕ × HashTable
remove_found t k none = (Status.not_found, [], [], t)
remove_found t k (some ((j, w), c)) = (
  Status.ok,
  if t.key_destroy_func then j ∷ [] else [],
  if t.value_destroy_func then w ∷ [] else [],
  removed t k c,
)

-- `remove` on a table that is not NULL.
pub remove_in : HashTable → ℕ → Status × List ℕ × List ℕ × HashTable
unfolding remove_found
remove_in t k =
    if k == 0
    then (Status.invalid_param, [], [], t)
    else remove_found t k (unlink t.compare_func k (chain_of t k))

pub remove : Option HashTable → ℕ → Status × List ℕ × List ℕ × Option HashTable
unfolding remove_in
remove none k = (Status.invalid_param, [], [], none)
remove (some t) k = let (s, ks, vs, t') = remove_in t k in (s, ks, vs, some t')

pub size_of : Option HashTable → ℕ
size_of none = 0
size_of (some t) = t.size

-- The buckets from index `i` on, `n` of them, as the loops over `i < ht->capacity` read them.
pub entries_from : List EntryChain → (i n : ℕ) → List Entry
entries_from bs i zero = []
entries_from bs i (suc n) = get_or bs i [] ++ entries_from bs (i + 1) n

-- The lists are those of the keys and of the values destroyed.
pub clear : Option HashTable → List ℕ × List ℕ × Option HashTable
unfolding entries_from
clear none = ([], [], none)
clear (some t) = (
  if t.key_destroy_func then map (λ e. e.0) (entries_from t.buckets 0 t.capacity) else [],
  if t.value_destroy_func then map (λ e. e.1) (entries_from t.buckets 0 t.capacity) else [],
  some (record t { buckets = replicate t.capacity []; size = 0 }),
)

-- What `destroy` passes to the destructors before it frees the table.
pub destroy : Option HashTable → List ℕ × List ℕ
destroy none = ([], [])
destroy (some t) = let (ks, vs, t') = clear (some t) in (ks, vs)

-- `current` is the chain from `current_entry` on; a NULL entry is the empty chain.
pub record Iter : Type 0 where
  pub ht : Option HashTable
  pub current_bucket_index : ℕ
  pub current : EntryChain

-- An iterator on the table, or the mark that `iter->ht` is NULL.
pub iter_init : Option HashTable → Iter
iter_init ht = record { ht = ht; current_bucket_index = 0; current = [] }

abbrev pub rest_of : EntryChain → EntryChain
rest_of [] = []
rest_of (e ∷ c) = c

abbrev pub head_of : EntryChain → Option Entry
head_of [] = none
head_of (e ∷ c) = some e

-- The loop that looks for the next bucket with an entry, over the buckets that are left.
pub next_bucket : HashTable → (left i : ℕ) → EntryChain → ℕ × EntryChain
next_bucket t left i (e ∷ c) = (i, e ∷ c)
next_bucket t zero i [] = (i, [])
next_bucket t (suc left) i [] = next_bucket t left (i + 1) (get_or t.buckets i [])

-- The entry that is handed out, or none for `false`.
pub iter_next : Iter → Option Entry × Iter
iter_next it = elim it.ht [
  | none ↦ (none, it)
  | some t ↦
      let (i, c) =
        next_bucket t (t.capacity - it.current_bucket_index) it.current_bucket_index
          (rest_of it.current) in
      (head_of c, record it { current_bucket_index = i; current = c })
]

-- A client's loop `while (iter_next(...))`, for at most `fuel` rounds.
pub iterate : ℕ → Iter → List Entry
iterate zero it = []
iterate (suc fuel) it =
    let (e, it') = iter_next it in
    let rest = iterate fuel it' in elim e [ none ↦ [] | some x ↦ x ∷ rest ]
