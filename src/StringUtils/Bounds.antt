-- ===== src/StringUtils/Bounds.antt =====
-- Where the copies of xsan_strcpy_safe and xsan_strcat_safe end.
use xsan.Base.{
  ℕ, zero, suc, ◌+◌, ◌-◌, ◌≤◌, ◌<◌, true, Bool-cases, Option, some, List, [], ◌∷◌, ◌++◌, ltb, inl,
  inr, set, take, drop, length, length-append, length-take, arith, ◌≡◌, refl, sym, ap, ap₂, ◌∙◌,
  length-set, take_all, pos-ne_zero, gt→leb,
}
use xsan.StringUtils.{text, no_nul, store}
use xsan.StringUtils.Copy.{fitting, strcpy_safe, strcat_safe}

pub text-append : (s r : List ℕ) → no_nul s ≡ true → text (s ++ 0 ∷ r) ≡ s
unfolding text no_nul
text-append [] r h = refl
text-append (c ∷ s) r h = ground (arith, text-append s r)

store-shift : (c : ℕ) (d : List ℕ) (i : ℕ) (s : List ℕ) → store (c ∷ d) (suc i) s ≡ c ∷ store d i s
unfolding store
store-shift c d i [] = refl
store-shift c d i (x ∷ s) = store-shift c (set d i x) (suc i) s

length-store : (d : List ℕ) (i : ℕ) (s : List ℕ) → length (store d i s) ≡ length d
unfolding store
length-store d i [] = refl
length-store d i (x ∷ s) = length-store (set d i x) (suc i) s ∙ length-set d i x

-- A copy to position `i` with its NUL leaves the bytes before and after.
pub terminated :
    (d : List ℕ) (i : ℕ) (s : List ℕ) (n : ℕ)
    → n ≡ i + length s
    → n < length d
    → set (store d i s) n 0 ≡ take i d ++ s ++ 0 ∷ drop (suc n) d
unfolding store
terminated [] i s n e h = absurd (omega arith)
terminated (x ∷ d) zero [] zero e h = refl
terminated (x ∷ d) zero [] (suc n) e h = absurd (omega arith)
terminated (x ∷ d) zero (c ∷ s) zero e h = absurd (omega arith)
terminated (x ∷ d) zero (c ∷ s) (suc n) e h =
    rw (store-shift c d 0 s) (ap (λ r. c ∷ r) (terminated d 0 s n (omega arith) (omega arith)))
terminated (x ∷ d) (suc i) s zero e h = absurd (omega arith)
terminated (x ∷ d) (suc i) s (suc n) e h =
    rw (store-shift x d i s) (ap (λ r. x ∷ r) (terminated d i s n (omega arith) (omega arith)))

no_nul-take : (n : ℕ) (s : List ℕ) → no_nul s ≡ true → no_nul (take n s) ≡ true
unfolding no_nul
no_nul-take zero s h = refl
no_nul-take (suc n) [] h = refl
no_nul-take (suc n) (c ∷ s) h = ground (arith, no_nul-take n s)

text-take : (n : ℕ) (d : List ℕ) → length (text (take n d)) < n → text (take n d) ≡ text d
unfolding text
text-take zero d h = absurd (omega arith)
text-take (suc n) [] h = refl
text-take (suc n) (c ∷ d) h = ground (arith, text-take n d)

take-text : (d : List ℕ) → take (length (text d)) d ≡ text d
unfolding text
take-text [] = refl
take-text (c ∷ d) = ground (arith, take-text d)

text-no_nul : (d : List ℕ) → no_nul (text d) ≡ true
unfolding text no_nul
text-no_nul [] = refl
text-no_nul (c ∷ d) = ground (arith, text-no_nul d)

pub no_nul-append : (s t : List ℕ) → no_nul s ≡ true → no_nul t ≡ true → no_nul (s ++ t) ≡ true
unfolding no_nul
no_nul-append [] t h k = k
no_nul-append (c ∷ s) t h k = ground (arith, no_nul-append s t)

drop-set : (n i : ℕ) (d : List ℕ) (v : ℕ) → i < n → drop n (set d i v) ≡ drop n d
drop-set n i [] v h = refl
drop-set zero i (x ∷ d) v h = absurd (omega arith)
drop-set (suc n) zero (x ∷ d) v h = refl
drop-set (suc n) (suc i) (x ∷ d) v h = drop-set n i d v (omega arith)

drop-store : (n i : ℕ) (d s : List ℕ) → i + length s ≤ n → drop n (store d i s) ≡ drop n d
unfolding store
drop-store n i d [] h = refl
drop-store n i d (x ∷ s) h =
    drop-store n (suc i) (set d i x) s (omega arith) ∙ drop-set n i d x (omega arith)

take_past : (m : ℕ) (s t : List ℕ) (n : ℕ) → n ≡ length s + m → take n (s ++ t) ≡ s ++ take m t
take_past m [] t n e = ap (λ k. take k t) (omega arith)
take_past m (c ∷ s) t zero e = absurd (omega arith)
take_past m (c ∷ s) t (suc n) e = ap (λ r. c ∷ r) (take_past m s t n (omega arith))

take-fitting : (size : ℕ) (s : List ℕ) → take (fitting (length s) size) s ≡ take (size - 1) s
take-fitting size s = elim (Bool-cases (ltb (length s) (size - 1))) [
  | inl e ↦
      simp e (take_all (length s) s (omega arith) ∙ sym (take_all (size - 1) s (ground arith)))
  | inr e ↦ simp e refl
]

length-fitting :
    (size : ℕ) (s : List ℕ) → length (take (fitting (length s) size) s) ≡ fitting (length s) size
length-fitting size s = rw (length-take (fitting (length s) size) s) (ground arith)

-- `out` is the answer and the buffer after a copy that leaves `content` in `dest`: the answer is its
-- length, the text ends inside `size`, and nothing changes past it.
abbrev pub IsFilled : ℕ → List ℕ → List ℕ → ℕ × Option (List ℕ) → Type 0
IsFilled size dest content out =
    (d : List ℕ) × (out ≡ (length content, some d))
    × (text d ≡ content)
    × (length content < size)
    × (length d ≡ length dest)
    × (drop size d ≡ drop size dest)

-- What both functions do once they know where the text goes.
filled :
    (size : ℕ) (dest s : List ℕ) (i n : ℕ)
    → n ≡ i + length s
    → n < size
    → size ≤ length dest
    → no_nul (take i dest) ≡ true
    → no_nul s ≡ true
    → IsFilled size dest (take i dest ++ s) (n, some (set (store dest i s) n 0))
filled size dest s i n e h k p q = (
  set (store dest i s) n 0,
  ap (λ m. (m, some (set (store dest i s) n 0))) same,
  ap text (terminated dest i s n e (omega arith))
      ∙ text-append (take i dest ++ s) _ (no_nul-append (take i dest) s p q),
  omega (arith, same),
  length-set _ n 0 ∙ length-store dest i s,
  drop-set size n (store dest i s) 0 h ∙ drop-store size i dest s (omega arith),
)
  where
    same : n ≡ length (take i dest ++ s)
    same = rw (length-append, length-take i dest) (omega arith)

-- Given a text and a destination of at least the size that the caller states, xsan_strcpy_safe leaves
-- in it, before a NUL and within that size, as much of the text as leaves room for the NUL, returns
-- its length, and changes no byte past that size.
pub strcpy_safe-IsFilled :
    (dest src : List ℕ) (size : ℕ)
    → no_nul src ≡ true
    → 0 < size
    → size ≤ length dest
    → IsFilled size dest (take (size - 1) src) (strcpy_safe (some dest) (some src) size)
unfolding strcpy_safe no_nul
strcpy_safe-IsFilled dest src size p h k =
    rw (pos-ne_zero size h, sym (take-fitting size src))
      (filled size dest added 0 (fitting (length src) size) (omega (arith, length-fitting size src))
        (ground arith) k refl (no_nul-take _ src p))
  where
    added : List ℕ
    added = take (fitting (length src) size) src

-- If the destination's text ends within the stated size, xsan_strcat_safe leaves in it, before a NUL
-- and within that size, as much of the two texts' concatenation as leaves room for the NUL, returns
-- its length, and changes no byte past that size.
pub strcat_safe-IsFilled :
    (dest src : List ℕ) (size : ℕ)
    → no_nul src ≡ true
    → length (text (take size dest)) < size
    → size ≤ length dest
    → IsFilled size dest
        (take (size - 1) (text dest ++ src))
        (strcat_safe (some dest) (some src) size)
unfolding strcat_safe
strcat_safe-IsFilled dest src size p h k =
    rw (pos-ne_zero size (omega arith), gt→leb size at h, room)
      (filled size dest added at _ (ap (λ m. at + m) (sym (length-fitting (size - at) src)))
        (ground arith) k (simp prefix (text-no_nul dest)) (no_nul-take _ src p))
  where
    at : ℕ
    at = length (text (take size dest))

    added : List ℕ
    added = take (fitting (length src) (size - at)) src

    whole : text (take size dest) ≡ text dest
    whole = text-take size dest h

    prefix : take at dest ≡ text dest
    prefix = ap (λ t. take (length t) dest) whole ∙ take-text dest

    room : take (size - 1) (text dest ++ src) ≡ take at dest ++ added
    room =
        take_past (size - at - 1) (text dest) src (size - 1) (omega (arith, ap length whole))
        ∙ ap₂ (λ a b. a ++ b) (sym prefix) (sym (take-fitting (size - at) src))
