-- ===== src/HashTable/Tests.antt =====
-- Runs of the hash table of src/common/hashtable.c on concrete inputs.
use xsan.Base.{ℕ, zero, suc, get_or, ◌≡◌, refl, Bool, true, false, some, [], ◌∷◌, arith, ◌==◌}
use xsan.Status.{Status, is_ok}
use xsan.HashTable.{
  HashTable, put_in, put, remove_in, get, find, replace, iterate, iter_init, entries_from,
}
use xsan.HashTable.Chain.{IsKeyTest, distinct}
use xsan.HashTable.Inv.{IsValid}
use xsan.HashTable.Lookup.{get-put, get-remove}
use xsan.HashTable.Iterate.{iterate_all}

abbrev by_number : ℕ → ℕ → Bool
by_number a b = a == b

by_number-IsKeyTest : IsKeyTest by_number (λ k. k)
by_number-IsKeyTest = record {
  same_refl = λ a. ground arith;
  same_sym = λ a b. ground arith;
  same_congr = λ a b c h. ground arith;
  hash_congr = λ a b h. ground arith;
}

-- 5 and 3 share a bucket
abbrev two_keys : HashTable
two_keys = record {
  buckets = [] ∷ ((5, 50) ∷ (3, 30) ∷ []) ∷ [];
  capacity = 2;
  size = 2;
  hash_func = λ k. k;
  compare_func = by_number;
  key_destroy_func = false;
  value_destroy_func = true;
}

two_keys-chains : (i : ℕ) → distinct by_number (get_or two_keys.buckets i []) ≡ true
unfolding distinct find
two_keys-chains zero = refl
two_keys-chains (suc zero) = refl
two_keys-chains (suc (suc i)) = refl

two_keys-IsValid : IsValid two_keys
two_keys-IsValid = record {
  keys = by_number-IsKeyTest;
  positive = omega arith;
  storage = refl;
  chains = two_keys-chains;
  sized = refl;
}

put_collision :
    put (some two_keys) 3 31 true
    ≡ (Status.ok, 30 ∷ [], some (record two_keys { buckets = [] ∷ ((5, 50) ∷ (3, 31) ∷ []) ∷ [] }))
unfolding put replace
put_collision = refl

get-put_example : get (some (put_in two_keys 3 31 true).2) 3 ≡ 31
unfolding put_in replace
get-put_example = get-put two_keys 3 31 3 true two_keys-IsValid (omega arith)

get-remove_example :
    (is_ok (remove_in two_keys 3).0 ≡ true) × (get (some (remove_in two_keys 3).3) 5 ≡ 50)
unfolding find get
get-remove_example = get-remove two_keys 3 5 two_keys-IsValid (omega arith) (omega arith)

iterate_all_example :
    (iterate 3 (iter_init (some two_keys)) ≡ (5, 50) ∷ (3, 30) ∷ []) × (◌≡◌ {A = ℕ} 2 2)
unfolding entries_from
iterate_all_example = iterate_all two_keys two_keys-IsValid
