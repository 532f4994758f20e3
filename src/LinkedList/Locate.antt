-- ===== src/LinkedList/Locate.antt =====
-- The operations of the sequence at a node that stands in it.
use xsan.Base.{
  ℕ, true, false, Bool-cases, [], ◌∷◌, ◌++◌, ◌==◌, inl, inr, arith, ◌≡◌, refl, sym, ap, ==_iff,
  ==_self,
}
use xsan.LinkedList.{Ptr}
use xsan.LinkedList.Seg.{Cells, has}
use xsan.LinkedList.Sequence.{put_after, put_before, without, value_at, split_last}

-- A sequence cut at a node.
pub split_at :
    (at : Ptr) (c : Cells)
    → has at c ≡ true
    → (xs : Cells) × (w : ℕ) × (ys : Cells) × (c ≡ xs ++ (at, w) ∷ ys) × (has at xs ≡ false)
split_at at [] i = absurd (ground arith)
split_at at ((p, v) ∷ c) i = elim (Bool-cases (at == p)) [
  | inl e ↦ ([], v, c, ap (λ q. (q, v) ∷ c) (sym ((==_iff at p).0 e)), refl)
  | inr e ↦
      let (xs, w, ys, same, out) = split_at at c (ground (arith, i, e)) in
      ((p, v) ∷ xs, w, ys, ap (λ r. (p, v) ∷ r) same, simp (e, out) refl)
]

module _ (at w : ℕ) where
  skipped :
      (p v : ℕ) (xs : Cells)
      → has at ((p, v) ∷ xs) ≡ false
      → ((p == at) ≡ false) × (has at xs ≡ false)
  skipped p v xs out = (ground arith, ground arith)

  pub put_after_lem :
      (c : Ptr × ℕ) (xs ys : Cells)
      → has at xs ≡ false
      → put_after at c (xs ++ (at, w) ∷ ys) ≡ xs ++ (at, w) ∷ c ∷ ys
  unfolding put_after
  put_after_lem c [] ys out = rw (==_self at) refl
  put_after_lem c ((p, v) ∷ xs) ys out =
      let (other, later) = skipped p v xs out in
      rw other (ap (λ r. (p, v) ∷ r) (put_after_lem c xs ys later))

  pub put_before_lem :
      (c : Ptr × ℕ) (xs ys : Cells)
      → has at xs ≡ false
      → put_before at c (xs ++ (at, w) ∷ ys) ≡ xs ++ c ∷ (at, w) ∷ ys
  unfolding put_before
  put_before_lem c [] ys out = rw (==_self at) refl
  put_before_lem c ((p, v) ∷ xs) ys out =
      let (other, later) = skipped p v xs out in
      rw other (ap (λ r. (p, v) ∷ r) (put_before_lem c xs ys later))

  pub without_lem : (xs ys : Cells) → has at xs ≡ false → without at (xs ++ (at, w) ∷ ys) ≡ xs ++ ys
  unfolding without
  without_lem [] ys out = rw (==_self at) refl
  without_lem ((p, v) ∷ xs) ys out =
      let (other, later) = skipped p v xs out in
      rw other (ap (λ r. (p, v) ∷ r) (without_lem xs ys later))

  pub value_at_lem : (xs ys : Cells) → has at xs ≡ false → value_at at (xs ++ (at, w) ∷ ys) ≡ w
  unfolding value_at
  value_at_lem [] ys out = rw (==_self at) refl
  value_at_lem ((p, v) ∷ xs) ys out =
      let (other, later) = skipped p v xs out in rw other (value_at_lem xs ys later)

pub split_last_lem :
    (p v : ℕ) (c : Cells)
    → (xs : Cells) × (q : Ptr) × (w : ℕ) × ((p, v) ∷ c ≡ xs ++ (q, w) ∷ [])
      × (split_last ((p, v) ∷ c) ≡ (w, xs))
unfolding split_last
split_last_lem p v [] = ([], p, v, refl, refl)
split_last_lem p v ((r, u) ∷ c) =
    let (xs, q, w, same, split) = split_last_lem r u c in
    ((p, v) ∷ xs, q, w, ap (λ r. (p, v) ∷ r) same, simp split refl)
