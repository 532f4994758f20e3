-- ===== src/HashTable/Chain.antt =====
-- What the walks over one chain of src/common/hashtable.c find, replace and unlink.
use xsan.Base.{
  ℕ, ◌+◌, ◌≡◌, refl, Bool, true, false, ◌&&◌, Option, none, some, [], ◌∷◌, arith, length,
  Option-cases, inl, inr, if◌then◌else◌,
}
use xsan.HashTable.{Entry, EntryChain, find, replace, unlink}

-- What the table relies on of `compare_func` and `hash_func`, which the client supplies: the
-- test for equal keys is an equivalence, and equal keys have equal hashes.
pub record IsKeyTest (same : ℕ → ℕ → Bool) (hash : ℕ → ℕ) : Type 0 where
  pub same_refl : (a : ℕ) → same a a ≡ true
  pub same_sym : (a b : ℕ) → same a b ≡ same b a
  pub same_congr : (a b c : ℕ) → same a b ≡ true → same a c ≡ same b c
  pub hash_congr : (a b : ℕ) → same a b ≡ true → hash a ≡ hash b

abbrev pub is_none : Option ℕ → Bool
is_none none = true
is_none (some v) = false

-- No two entries of a chain have equal keys.
unfoldable pub distinct : (ℕ → ℕ → Bool) → EntryChain → Bool
distinct same [] = true
distinct same ((j, w) ∷ c) = is_none (find same j c) && distinct same c

module _ (same : ℕ → ℕ → Bool) (hash : ℕ → ℕ) (keys : IsKeyTest same hash) where
  -- A key that compares equal is found alike.
  pub find_congr : (a b : ℕ) (c : EntryChain) → same a b ≡ true → find same a c ≡ find same b c
  unfolding find
  find_congr a b [] h = refl
  find_congr a b ((j, w) ∷ c) h =
      ground (arith, find_congr a b c, keys.same_congr a b j, keys.same_sym a j, keys.same_sym b j)

  pub same_right : (a b c : ℕ) → same a b ≡ true → same c a ≡ same c b
  same_right a b c h = ground (arith, keys.same_congr a b c, keys.same_sym a c, keys.same_sym b c)

  -- A chain where nothing is replaced does not hold the key.
  pub replace-none : (k v : ℕ) (c : EntryChain) → replace same k v c ≡ none → find same k c ≡ none
  unfolding find replace
  replace-none k v [] h = refl
  replace-none k v ((j, w) ∷ c) h = ground (arith, replace-none k v c)

  -- The old value is the one found, and the new one is found for equal keys only.
  pub find-replace :
      (k v i : ℕ) (c : EntryChain) (old : ℕ) (c' : EntryChain)
      → replace same k v c ≡ some (old, c')
      → (find same i c' ≡ (if same k i then some v else find same i c))
        × (find same k c ≡ some old)
        × (length c' ≡ length c)
  unfolding find replace
  find-replace k v i [] old c' h = ground arith
  find-replace k v i ((j, w) ∷ c) old c' h = elim (Option-cases (replace same k v c)) [
    | inl e ↦ ground (arith, keys.same_congr j k i)
    | inr ((o, d), e) ↦
        ground (arith, keys.same_congr j k i, same_right k i j, find-replace k v i c o d e)
  ]

  pub unlink-none : (k : ℕ) (c : EntryChain) → unlink same k c ≡ none → find same k c ≡ none
  unfolding find unlink
  unlink-none k [] h = refl
  unlink-none k ((j, w) ∷ c) h = ground (arith, unlink-none k c)

  -- A key that is not found is not found after the removal of another entry.
  pub find-unlink-none :
      (k i : ℕ) (c : EntryChain) (e : Entry) (c' : EntryChain)
      → unlink same k c ≡ some (e, c')
      → find same i c ≡ none
      → find same i c' ≡ none
  unfolding find unlink
  find-unlink-none k i [] e c' h n = ground arith
  find-unlink-none k i ((j, w) ∷ c) e c' h n = elim (Option-cases (unlink same k c)) [
    | inl q ↦ ground arith
    | inr ((o, d), q) ↦ ground (arith, find-unlink-none k i c o d q)
  ]

  -- In a chain of distinct keys the removal hides the key, leaves the others, and takes out one
  -- entry, the one found.
  pub find-unlink :
      (k i : ℕ) (c : EntryChain) (e : Entry) (c' : EntryChain)
      → distinct same c ≡ true
      → unlink same k c ≡ some (e, c')
      → (find same i c' ≡ (if same k i then none else find same i c))
        × (find same k c ≡ some e.1)
        × (length c' + 1 ≡ length c)
  unfolding distinct find unlink
  find-unlink k i [] e c' d h = ground arith
  find-unlink k i ((j, w) ∷ c) e c' d h = elim (Option-cases (unlink same k c)) [
    | inl q ↦ ground (arith, keys.same_congr j k i, find_congr j i c, unlink-none k c q)
    | inr ((o, r), q) ↦
        ground
          (arith, keys.same_congr j k i, same_right k i j, find_congr j i c, find-unlink k i c o r)
  ]

  pub replace-distinct :
      (k v : ℕ) (c : EntryChain) (old : ℕ) (c' : EntryChain)
      → replace same k v c ≡ some (old, c')
      → distinct same c ≡ true
      → distinct same c' ≡ true
  unfolding distinct find replace
  replace-distinct k v [] old c' h d = ground arith
  replace-distinct k v ((j, w) ∷ c) old c' h d = elim (Option-cases (replace same k v c)) [
    | inl q ↦ ground arith
    | inr ((o, r), q) ↦
        ground (arith, find-replace k v j c o r q, replace-distinct k v c o r q, keys.same_sym j k)
  ]

  pub unlink-distinct :
      (k : ℕ) (c : EntryChain) (e : Entry) (c' : EntryChain)
      → unlink same k c ≡ some (e, c')
      → distinct same c ≡ true
      → distinct same c' ≡ true
  unfolding distinct find unlink
  unlink-distinct k [] e c' h d = ground arith
  unlink-distinct k ((j, w) ∷ c) e c' h d = elim (Option-cases (unlink same k c)) [
    | inl q ↦ ground arith
    | inr ((o, r), q) ↦ ground (arith, find-unlink-none k j c o r q, unlink-distinct k c o r q)
  ]

  pub distinct-cons :
      (k v : ℕ) (c : EntryChain)
      → find same k c ≡ none
      → distinct same c ≡ true
      → distinct same ((k, v) ∷ c) ≡ true
  unfolding distinct
  distinct-cons k v c n d = ground arith
