-- ===== src/StringUtils/Replaced.antt =====
-- The loops of xsan_str_replace against one pass over the text.
use mathlib.Core.Option.{map, some-injective, none-ne-some}
use native.Mathlib.Nat.{add-mod-mod, add-mul-mod_self_right, mod-eq_of_lt}
use xsan.Base.{
  ℕ, zero, suc, ◌+◌, ◌-◌, ◌*◌, ◌%◌, ◌≤◌, ◌<◌, true, false, Bool-cases, Option, none, some,
  Option-cases, List, [], ◌∷◌, ◌++◌, if◌then◌else◌, length, length-append, length-drop, length-take,
  take, drop, size_mod, add_size, sub_size, leb, inl, inr, arith, ◌≡◌, refl, sym, ap, ◌∙◌,
}
use xsan.StringUtils.Replace.{
  starts, find_text, count_occurrences, copy_replaced, written, replace_counted, replace_text,
  str_replace,
}

-- From left to right: an occurrence of `old` gives way to `new`, any other byte stays. `skip` bytes of
-- an occurrence are still to be left out.
unfoldable pub replaced : List ℕ → List ℕ → ℕ → List ℕ → List ℕ
replaced old new skip [] = []
replaced old new (suc skip) (c ∷ s) = replaced old new skip s
replaced old new zero (c ∷ s) =
    let found = starts old (c ∷ s) in
    let rest = replaced old new (if found then length old - 1 else 0) s in
    if found then new ++ rest else c ∷ rest

map-none : {A B : Type 0} (f : A → B) (o : Option A) → map f o ≡ none → o ≡ none
map-none f none h = refl
map-none f (some a) h = absurd (none-ne-some _ (sym h))

map-some :
    {A B : Type 0} (f : A → B) {b : B} (o : Option A)
    → map f o ≡ some b
    → (a : A) × (o ≡ some a) × (f a ≡ b)
map-some f none h = absurd (none-ne-some _ h)
map-some f (some a) h = (a, refl, some-injective _ _ h)

module _ (d : ℕ) (p new : List ℕ) where
  abbrev old : List ℕ
  old = d ∷ p

  replaced-drop : (n : ℕ) (s : List ℕ) → replaced old new n s ≡ replaced old new 0 (drop n s)
  unfolding replaced
  replaced-drop zero s = refl
  replaced-drop (suc n) [] = refl
  replaced-drop (suc n) (c ∷ s) = replaced-drop n s

  starts-length : (q s : List ℕ) → starts q s ≡ true → length q ≤ length s
  unfolding starts
  starts-length [] s h = omega arith
  starts-length (x ∷ q) [] h = absurd (ground arith)
  starts-length (x ∷ q) (c ∷ s) h = ground (arith, starts-length q s)

  replaced-none : (s : List ℕ) → find_text old s ≡ none → replaced old new 0 s ≡ s
  unfolding find_text replaced
  replaced-none [] h = refl
  replaced-none (c ∷ s) h = elim (Bool-cases (starts old (c ∷ s))) [
    | inl e ↦ absurd (none-ne-some 0 (sym (simp e at h)))
    | inr e ↦ simp e (ap (λ r. c ∷ r) (replaced-none s (map-none suc _ (simp e at h))))
  ]

  starts_nil : starts old [] ≡ false
  unfolding starts
  starts_nil = refl

  replaced-some :
      (s : List ℕ) (i k : ℕ)
      → k ≡ i + length old
      → find_text old s ≡ some i
      → (k ≤ length s) × (replaced old new 0 s ≡ take i s ++ (new ++ replaced old new 0 (drop k s)))
  unfolding find_text replaced
  replaced-some s i zero q h = absurd (omega arith)
  replaced-some [] i (suc k) q h = absurd (none-ne-some i (simp starts_nil at h))
  replaced-some (c ∷ s) zero (suc k) q h = elim (Bool-cases (starts old (c ∷ s))) [
    | inl e ↦ (
      omega (arith, starts-length old (c ∷ s) e),
      simp e
          (ap (λ r. new ++ r) (ap (λ n. replaced old new n s) (omega arith) ∙ replaced-drop k s)),
    )
    | inr e ↦ let (j, _, w) = map-some suc (find_text old s) (simp e at h) in absurd (omega arith)
  ]
  replaced-some (c ∷ s) (suc i) (suc k) q h = elim (Bool-cases (starts old (c ∷ s))) [
    | inl e ↦ let w : 0 ≡ suc i = some-injective 0 (suc i) (simp e at h) in absurd (omega arith)
    | inr e ↦
        let (j, found, w) = map-some suc (find_text old s) (simp e at h) in
        let (inside, same) = replaced-some s i k (omega arith) (found ∙ ap some (omega arith)) in
        (omega arith, simp e (ap (λ r. c ∷ r) same))
  ]

  length_parts : (a b c : List ℕ) → length (a ++ (b ++ c)) ≡ length a + (length b + length c)
  length_parts a b c = omega (arith, length-append a (b ++ c), length-append b c)

  -- One more occurrence in the sum of the lengths.
  scale :
      (x y n rest part i : ℕ) {total whole : ℕ}
      → part + n * x ≡ rest + n * y
      → total ≡ i + (y + part)
      → whole ≡ i + x + rest
      → total + suc n * x ≡ whole + suc n * y
  scale x y n rest part i p q r = grind arith

  -- What both loops give: the number of occurrences and the text, whose length follows from it.
  abbrev IsReplacedBy : ℕ → List ℕ → Type 0
  IsReplacedBy fuel s =
      (n : ℕ) × (count_occurrences old fuel s ≡ some n)
      × (copy_replaced old new fuel s ≡ some (replaced old new 0 s))
      × (length (replaced old new 0 s) + n * length old ≡ length s + n * length new)
      × (n ≡ 0 → replaced old new 0 s ≡ s)

  loops_lem : (fuel : ℕ) (s : List ℕ) → length s < fuel → IsReplacedBy fuel s
  unfolding count_occurrences copy_replaced
  loops_lem zero s h = absurd (omega arith)
  loops_lem (suc fuel) s h = elim (Option-cases (find_text old s)) [
    | inl e ↦
        let same : replaced old new 0 s ≡ s = replaced-none s e in
        (
          0,
          rw (count_occurrences, e) refl,
          rw (copy_replaced, e) (ap some (sym same)),
          omega (arith, ap length same),
          λ _. same,
        )
    | inr (i, e) ↦
        let (inside, same) = replaced-some s i (i + length old) refl e in
        let (n, counted, copied, size, _) =
          loops_lem fuel (drop (i + length old) s)
            (omega (arith, length-drop (i + length old) s)) in
        (
          suc n,
          rw (count_occurrences, e, counted) refl,
          rw (copy_replaced, e, copied) (ap some (sym same)),
          scale (length old) (length new) n (length (drop (i + length old) s))
              (length (replaced old new 0 (drop (i + length old) s))) i size
              (ap length same
                ∙ length_parts (take i s) new (replaced old new 0 (drop (i + length old) s))
                ∙ ap (λ a. a + (length new + length (replaced old new 0 (drop (i + length old) s))))
                    (length-take i s ∙ omega arith))
              (omega (arith, length-drop (i + length old) s)),
          λ z. absurd (omega (arith, z)),
        )
  ]

shifted :
    (n l a b total c w : ℕ) → a + w ≡ b + c → total + n * b ≡ l + n * a → l + n * c ≡ total + n * w
shifted n l a b total c w e h =
    let scaled : n * (a + w) ≡ n * (b + c) = ap (λ x. n * x) e in grind arith

-- The size that the source computes, which may pass through a negative difference of lengths.
size_lem :
    (l n a b total : ℕ)
    → a < size_mod
    → b < size_mod
    → total + 1 < size_mod
    → total + n * b ≡ l + n * a
    → add_size (add_size l ((n * sub_size a b) % size_mod)) 1 ≡ total + 1
size_lem l n a b total ha hb ht e =
    ap (λ x. (x + 1) % size_mod) (add-mod-mod l (n * sub_size a b) size_mod ∙ wrapped)
    ∙ mod-eq_of_lt ht
  where
    wrapped : (l + n * sub_size a b) % size_mod ≡ total
    wrapped = elim (Bool-cases (leb b a)) [
      | inl h ↦
          let d : sub_size a b ≡ a - b = ground arith in
          let exact : l + n * (a - b) ≡ total + n * 0 =
            shifted n l a b total (a - b) 0 (ground arith) e in
          rw (d, exact) (mod-eq_of_lt {n = total + n * 0} (omega arith) ∙ omega arith)
      | inr h ↦
          let d : sub_size a b ≡ a + size_mod - b = ground arith in
          let exact : l + n * (a + size_mod - b) ≡ total + n * size_mod =
            shifted n l a b total (a + size_mod - b) size_mod (ground arith) e in
          rw (d, exact) (add-mul-mod_self_right total n size_mod ∙ mod-eq_of_lt (omega arith))
    ]

-- If the sizes fit size_t and the allocation succeeds, xsan_str_replace ends for a text to search for
-- that is not empty, its result is what one pass from left to right gives, and the bytes that it asks
-- for are exactly those of the result and its NUL.
pub str_replace_lem :
    (d : ℕ) (p s new : List ℕ)
    → length (d ∷ p) < size_mod
    → length new < size_mod
    → length (replaced (d ∷ p) new 0 s) + 1 < size_mod
    → str_replace true (some s) (some (d ∷ p)) (some new)
      ≡ written (length (replaced (d ∷ p) new 0 s) + 1) (replaced (d ∷ p) new 0 s)
unfolding str_replace replace_text replace_counted
str_replace_lem d p s new hp hn ht =
    let (n, counted, copied, size, none_found) = loops_lem d p new (length s + 1) s (omega arith) in
    rw (replace_text, counted) (counted_lem n copied size none_found)
  where
    out : List ℕ
    out = replaced (d ∷ p) new 0 s

    counted_lem :
        (n : ℕ)
        → copy_replaced (d ∷ p) new (length s + 1) s ≡ some out
        → length out + n * length (d ∷ p) ≡ length s + n * length new
        → (n ≡ 0 → out ≡ s)
        → replace_counted true s (d ∷ p) new (length s + 1) n ≡ written (length out + 1) out
    counted_lem zero c e z = rw (z refl) refl
    counted_lem (suc n) c e z =
        rw (replace_counted, c)
          (ap (λ m. written m out)
            (size_lem (length s) (suc n) (length new) (length (d ∷ p)) _ hn hp ht e))
