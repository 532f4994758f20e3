-- ===== src/LinkedList/Seg.antt =====
-- Doubly linked segments on the heap.
use xsan.Base.{
  ℕ, Bool, true, false, Option, some, List, [], ◌∷◌, ◌++◌, ◌==◌, not, ◌&&◌, ◌||◌, arith, ◌≡◌, refl,
  sym, ap, ◌∙◌, ==_self,
}
use xsan.LinkedList.{Ptr, ListNode, node, Heap, write, set_next, set_prev, link_next, link_prev}

-- What a list stands for: address and value of each node, in order.
abbrev pub Cells : Type 0
Cells = List (Ptr × ℕ)

abbrev pub has : Ptr → Cells → Bool
has p [] = false
has p ((q, _) ∷ xs) = (p == q) || has p xs

-- No null address and none twice.
abbrev pub distinct : Cells → Bool
distinct [] = true
distinct ((p, _) ∷ xs) = (not (p == 0) && not (has p xs)) && distinct xs

abbrev pub first : Cells → Ptr → Ptr
first [] after = after
first ((p, _) ∷ xs) after = p

abbrev pub last : Ptr → Cells → Ptr
last before [] = before
last before ((p, _) ∷ xs) = last p xs

-- The nodes of `xs` stand in this order between the addresses `before` and `after`.
abbrev pub Seg : Heap → Ptr → Cells → Ptr → Type 0
Seg h before [] after = Unit
Seg h before ((p, v) ∷ xs) after = (h p ≡ some (node v before (first xs after))) × Seg h p xs after

-- `g` differs from `h` at most at the addresses of `xs`.
abbrev pub SameOutside : Cells → Heap → Heap → Type 0
SameOutside xs h g = (p : Ptr) → has p xs ≡ false → g p ≡ h p

abbrev pub Apart : Cells → Cells → Type 0
Apart xs ys = (p : Ptr) → has p xs ≡ true → has p ys ≡ false

pub has-append : (p : Ptr) (xs ys : Cells) → has p (xs ++ ys) ≡ (has p xs || has p ys)
has-append p [] ys = refl
has-append p ((q, v) ∷ xs) ys = ground (arith, has-append p xs ys)

pub Seg-frame :
    {h g : Heap} (b : Ptr) (xs : Cells) (a : Ptr)
    → Seg h b xs a
    → ((p : Ptr) → has p xs ≡ true → g p ≡ h p)
    → Seg g b xs a
Seg-frame b [] a s same = tt
Seg-frame b ((p, v) ∷ xs) a s same =
    (same p (ground arith) ∙ s.0, Seg-frame p xs a s.1 λ q i. same q (ground arith))

pub Seg-Apart :
    {h g : Heap} (b : Ptr) (xs : Cells) (a : Ptr) (ys : Cells)
    → Seg h b xs a
    → SameOutside ys h g
    → Apart xs ys
    → Seg g b xs a
Seg-Apart b xs a ys s same apart = Seg-frame b xs a s λ p i. same p (apart p i)

pub write_same : (h : Heap) (p : Ptr) (n : Option ListNode) → write h p n p ≡ n
unfolding write
write_same h p n = rw (==_self p) refl

pub write_other :
    (h : Heap) (p q : Ptr) (n : Option ListNode) → (q == p) ≡ false → write h p n q ≡ h q
unfolding write
write_other h p q n e = simp e refl

pub Seg-write :
    (h : Heap) (b : Ptr) (xs : Cells) (a p : Ptr) (n : Option ListNode)
    → Seg h b xs a
    → has p xs ≡ false
    → Seg (write h p n) b xs a
Seg-write h b xs a p n s out = Seg-frame b xs a s λ q i. write_other h p q n (other q xs i out)
  where
    other : (q : Ptr) (ys : Cells) → has q ys ≡ true → has p ys ≡ false → (q == p) ≡ false
    other q [] i o = absurd (ground arith)
    other q ((r, v) ∷ ys) i o = ground (arith, other q ys)

pub first-append : (xs ys : Cells) (a : Ptr) → first (xs ++ ys) a ≡ first xs (first ys a)
first-append [] ys a = refl
first-append ((p, v) ∷ xs) ys a = refl

pub Seg-append :
    (h : Heap) (b : Ptr) (xs ys : Cells) (a : Ptr)
    → Seg h b xs (first ys a)
    → Seg h (last b xs) ys a
    → Seg h b (xs ++ ys) a
Seg-append h b [] ys a s t = t
Seg-append h b ((p, v) ∷ xs) ys a s t =
    (s.0 ∙ ap (λ q. some (node v b q)) (sym (first-append xs ys a)), Seg-append h p xs ys a s.1 t)

pub Seg-split :
    (h : Heap) (b : Ptr) (xs ys : Cells) (a : Ptr)
    → Seg h b (xs ++ ys) a
    → (Seg h b xs (first ys a)) × (Seg h (last b xs) ys a)
Seg-split h b [] ys a s = (tt, s)
Seg-split h b ((p, v) ∷ xs) ys a s =
    let (left, right) = Seg-split h p xs ys a s.1 in
    ((s.0 ∙ ap (λ q. some (node v b q)) (first-append xs ys a), left), right)

pub last-append : (b : Ptr) (xs ys : Cells) → last b (xs ++ ys) ≡ last (last b xs) ys
last-append b [] ys = refl
last-append b ((p, v) ∷ xs) ys = last-append p xs ys

pub set_next-some :
    (h : Heap) (p q : Ptr) (n : ListNode)
    → h p ≡ some n
    → set_next h p q ≡ some (write h p (some (record n { next = q })))
unfolding set_next
set_next-some h p q n e = rw e refl

pub set_prev-some :
    (h : Heap) (p q : Ptr) (n : ListNode)
    → h p ≡ some n
    → set_prev h p q ≡ some (write h p (some (record n { prev = q })))
unfolding set_prev
set_prev-some h p q n e = rw e refl

pub distinct_parts :
    (p v : ℕ) (xs : Cells)
    → distinct ((p, v) ∷ xs) ≡ true
    → ((p == 0) ≡ false) × (has p xs ≡ false) × (distinct xs ≡ true)
distinct_parts p v xs d = (ground arith, ground arith, ground arith)

-- What a write to the next or the previous pointer at the border of a segment gives.
abbrev pub Linked : Option Heap → Heap → Ptr → Cells → Ptr → Type 0
Linked out h b xs a = (g : Heap) × (out ≡ some g) × Seg g b xs a × SameOutside xs h g

pub set_next_last :
    (h : Heap) (b p v : ℕ) (xs : Cells) (a q : Ptr)
    → Seg h b ((p, v) ∷ xs) a
    → distinct ((p, v) ∷ xs) ≡ true
    → Linked (set_next h (last p xs) q) h b ((p, v) ∷ xs) q
set_next_last h b p v [] a q s d = (
  write h p (some (node v b q)),
  set_next-some h p q (node v b a) s.0,
  (write_same h p (some (node v b q)), tt),
  λ r o. write_other h p r _ (ground arith),
)
set_next_last h b p v ((r, w) ∷ xs) a q s d =
    let (_, out, tail) = distinct_parts p v ((r, w) ∷ xs) d in
    let (g, ran, t, same) = set_next_last h p r w xs a q s.1 tail in
    (g, ran, (same p out ∙ s.0, t), λ o apart. same o (outside o apart))
  where
    outside : (o : Ptr) → has o ((p, v) ∷ (r, w) ∷ xs) ≡ false → has o ((r, w) ∷ xs) ≡ false
    outside o apart = ground arith

pub last-ne_zero : (p v : ℕ) (xs : Cells) → distinct ((p, v) ∷ xs) ≡ true → (last p xs == 0) ≡ false
last-ne_zero p v [] d = ground arith
last-ne_zero p v ((q, w) ∷ xs) d = last-ne_zero q w xs ((distinct_parts p v ((q, w) ∷ xs) d).2)

pub link_next_lem :
    (h : Heap) (xs : Cells) (a q : Ptr)
    → Seg h 0 xs a
    → distinct xs ≡ true
    → Linked (link_next h (last 0 xs) q) h 0 xs q
link_next_lem h [] a q s d = (h, refl, tt, λ p o. refl)
link_next_lem h ((p, v) ∷ xs) a q s d =
    rw (last-ne_zero p v xs d) (set_next_last h 0 p v xs a q s d)

pub set_prev_first :
    (h : Heap) (b p v : ℕ) (xs : Cells) (q : Ptr)
    → Seg h b ((p, v) ∷ xs) 0
    → distinct ((p, v) ∷ xs) ≡ true
    → Linked (set_prev h p q) h q ((p, v) ∷ xs) 0
set_prev_first h b p v xs q s d = (
  write h p (some (node v q (first xs 0))),
  set_prev-some h p q (node v b (first xs 0)) s.0,
  (
    write_same h p (some (node v q (first xs 0))),
    Seg-write h p xs 0 p _ s.1 ((distinct_parts p v xs d).1),
  ),
  λ r o. write_other h p r _ (ground arith),
)

pub link_prev_lem :
    (h : Heap) (b : Ptr) (xs : Cells) (q : Ptr)
    → Seg h b xs 0
    → distinct xs ≡ true
    → Linked (link_prev h (first xs 0) q) h q xs 0
link_prev_lem h b [] q s d = (h, refl, tt, λ p o. refl)
link_prev_lem h b ((p, v) ∷ xs) q s d =
    rw ((distinct_parts p v xs d).0) (set_prev_first h b p v xs q s d)
