-- ===== src/LinkedList/Weave.antt =====
-- A node put between two segments, and taken from between them.
use xsan.Base.{
  ℕ, true, false, Bool-cases, none, some, [], ◌∷◌, ◌++◌, ◌==◌, inl, inr, arith, ◌≡◌, refl, ap, ◌∙◌,
  ==_self,
}
use xsan.LinkedList.{Ptr, node, Heap, write, link_next, link_prev}
use xsan.LinkedList.Seg.{
  Cells, has, distinct, first, last, Seg, Apart, has-append, Seg-Apart, Seg-write, Seg-append,
  Seg-split, last-append, link_next_lem, link_prev_lem, distinct_parts,
}

pub distinct_left : (xs ys : Cells) → distinct (xs ++ ys) ≡ true → distinct xs ≡ true
distinct_left [] ys d = refl
distinct_left ((p, v) ∷ xs) ys d =
    let (nonnull, out, tail) = distinct_parts p v (xs ++ ys) d in
    ground (arith, distinct_left xs ys tail, has-append p xs ys, nonnull, out)

pub distinct_right : (xs ys : Cells) → distinct (xs ++ ys) ≡ true → distinct ys ≡ true
distinct_right [] ys d = d
distinct_right ((p, v) ∷ xs) ys d = distinct_right xs ys ((distinct_parts p v (xs ++ ys) d).2)

pub distinct-Apart : (xs ys : Cells) → distinct (xs ++ ys) ≡ true → Apart xs ys
distinct-Apart [] ys d q i = absurd (ground arith)
distinct-Apart ((p, v) ∷ xs) ys d q i =
    let (_, out, tail) = distinct_parts p v (xs ++ ys) d in
    let later : has q xs ≡ true → has q ys ≡ false = distinct-Apart xs ys tail q in
    ground (arith, has-append p xs ys, later, out, i)

pub Apart-sym : (xs ys : Cells) → Apart xs ys → Apart ys xs
Apart-sym xs ys apart p i = elim (Bool-cases (has p xs)) [
  | inl e ↦ absurd (ground (arith, apart p e))
  | inr e ↦ e
]

pub outside_parts :
    (p : Ptr) (xs ys : Cells) → has p (xs ++ ys) ≡ false → (has p xs ≡ false) × (has p ys ≡ false)
outside_parts p xs ys out = (ground (arith, has-append p xs ys), ground (arith, has-append p xs ys))

distinct_cons :
    (p v : ℕ) (xs : Cells)
    → (p == 0) ≡ false
    → has p xs ≡ false
    → distinct xs ≡ true
    → distinct ((p, v) ∷ xs) ≡ true
distinct_cons p v xs a b c = simp (a, b, c) refl

has_remove :
    (q p v : ℕ) (xs ys : Cells) → has q (xs ++ (p, v) ∷ ys) ≡ false → has q (xs ++ ys) ≡ false
has_remove q p v xs ys out =
    let (left, right) = outside_parts q xs ((p, v) ∷ ys) out in
    has-append q xs ys ∙ ground (arith, left, right)

has_insert :
    (q p v : ℕ) (xs ys : Cells)
    → has q (xs ++ ys) ≡ false
    → (q == p) ≡ false
    → has q (xs ++ (p, v) ∷ ys) ≡ false
has_insert q p v xs ys out e =
    let (left, right) = outside_parts q xs ys out in
    has-append q xs ((p, v) ∷ ys) ∙ simp (left, e, right) refl

pub distinct_insert :
    (xs ys : Cells) (p v : ℕ)
    → distinct (xs ++ ys) ≡ true
    → has p (xs ++ ys) ≡ false
    → (p == 0) ≡ false
    → distinct (xs ++ (p, v) ∷ ys) ≡ true
distinct_insert [] ys p v d out nonnull = ground arith
distinct_insert ((q, w) ∷ xs) ys p v d out nonnull =
    let (start, inner, tail) = distinct_parts q w (xs ++ ys) d in
    let (apart, later) = outside_parts p ((q, w) ∷ []) (xs ++ ys) out in
    distinct_cons q w (xs ++ (p, v) ∷ ys) start (has_insert q p v xs ys inner (ground arith))
      (distinct_insert xs ys p v tail later nonnull)

pub distinct_remove :
    (xs ys : Cells) (p v : ℕ) → distinct (xs ++ (p, v) ∷ ys) ≡ true → distinct (xs ++ ys) ≡ true
distinct_remove [] ys p v d = (distinct_parts p v ys d).2
distinct_remove ((q, w) ∷ xs) ys p v d =
    let (start, inner, tail) = distinct_parts q w (xs ++ (p, v) ∷ ys) d in
    distinct_cons q w (xs ++ ys) start (has_remove q p v xs ys inner)
      (distinct_remove xs ys p v tail)

pub removed_lem :
    (p v : ℕ) (xs ys : Cells) → distinct (xs ++ (p, v) ∷ ys) ≡ true → has p (xs ++ ys) ≡ false
removed_lem p v xs ys d =
    let right : has p ys ≡ false = (distinct_parts p v ys (distinct_right xs ((p, v) ∷ ys) d)).1 in
    let self : has p ((p, v) ∷ ys) ≡ true = rw (==_self p) refl in
    let left : has p xs ≡ false =
      Apart-sym xs ((p, v) ∷ ys) (distinct-Apart xs ((p, v) ∷ ys) d) p self in
    has-append p xs ys ∙ simp (left, right) refl

-- The links of a node that already points to both neighbours, from the right neighbour on.
pub weave_left :
    (h : Heap) (b a new v : ℕ) (xs ys : Cells)
    → Seg h 0 xs a
    → Seg h b ys 0
    → distinct (xs ++ ys) ≡ true
    → has new (xs ++ ys) ≡ false
    → h new ≡ some (node v (last 0 xs) (first ys 0))
    → (g : Heap) × (k : Heap) × (link_prev h (first ys 0) new ≡ some g)
      × (link_next g (last 0 xs) new ≡ some k)
      × Seg k 0 (xs ++ (new, v) ∷ ys) 0
weave_left h b a new v xs ys s t d out e =
    let (apart, apart') = outside_parts new xs ys out in
    let (g, ran, t', same) = link_prev_lem h b ys new t (distinct_right xs ys d) in
    let s1 : Seg g 0 xs a = Seg-Apart 0 xs a ys s same (distinct-Apart xs ys d) in
    let (k, ran', s', same') = link_next_lem g xs a new s1 (distinct_left xs ys d) in
    (
      g,
      k,
      ran,
      ran',
      Seg-append k 0 xs ((new, v) ∷ ys) 0 s' (
        same' new apart ∙ same new apart' ∙ e,
        Seg-Apart new ys 0 xs t' same' (Apart-sym xs ys (distinct-Apart xs ys d)),
      ),
    )

-- The same from the left neighbour on.
pub weave_right :
    (h : Heap) (b a new v : ℕ) (xs ys : Cells)
    → Seg h 0 xs a
    → Seg h b ys 0
    → distinct (xs ++ ys) ≡ true
    → has new (xs ++ ys) ≡ false
    → h new ≡ some (node v (last 0 xs) (first ys 0))
    → (g : Heap) × (k : Heap) × (link_next h (last 0 xs) new ≡ some g)
      × (link_prev g (first ys 0) new ≡ some k)
      × Seg k 0 (xs ++ (new, v) ∷ ys) 0
weave_right h b a new v xs ys s t d out e =
    let (apart, apart') = outside_parts new xs ys out in
    let (g, ran, s', same) = link_next_lem h xs a new s (distinct_left xs ys d) in
    let t1 : Seg g b ys 0 = Seg-Apart b ys 0 xs t same (Apart-sym xs ys (distinct-Apart xs ys d)) in
    let (k, ran', t', same') = link_prev_lem g b ys new t1 (distinct_right xs ys d) in
    (
      g,
      k,
      ran,
      ran',
      Seg-append k 0 xs ((new, v) ∷ ys) 0 (Seg-Apart 0 xs new ys s' same' (distinct-Apart xs ys d))
          (same' new apart' ∙ same new apart ∙ e, t'),
    )

-- The neighbours of a node that is taken out.
pub unweave :
    (h : Heap) (p v : ℕ) (xs ys : Cells)
    → Seg h 0 (xs ++ (p, v) ∷ ys) 0
    → distinct (xs ++ (p, v) ∷ ys) ≡ true
    → (h p ≡ some (node v (last 0 xs) (first ys 0)))
      × (g : Heap) × (k : Heap) × (link_next h (last 0 xs) (first ys 0) ≡ some g)
      × (link_prev g (first ys 0) (last 0 xs) ≡ some k)
      × Seg (write k p none) 0 (xs ++ ys) 0
unweave h p v xs ys s d =
    let (left, (here, right)) = Seg-split h 0 xs ((p, v) ∷ ys) 0 s in
    let d' : distinct (xs ++ ys) ≡ true = distinct_remove xs ys p v d in
    let (g, ran, s', same) = link_next_lem h xs p (first ys 0) left (distinct_left xs ys d') in
    let t1 : Seg g p ys 0 =
      Seg-Apart p ys 0 xs right same (Apart-sym xs ys (distinct-Apart xs ys d')) in
    let (k, ran', t', same') = link_prev_lem g p ys (last 0 xs) t1 (distinct_right xs ys d') in
    (
      here,
      g,
      k,
      ran,
      ran',
      Seg-write k 0 (xs ++ ys) 0 p none
          (Seg-append k 0 xs ys 0
            (Seg-Apart 0 xs (first ys 0) ys s' same' (distinct-Apart xs ys d')) t')
          (removed_lem p v xs ys d),
    )

pub has_last : (p v : ℕ) (xs : Cells) → has (last p xs) ((p, v) ∷ xs) ≡ true
has_last p v [] = rw (==_self p) refl
has_last p v ((q, w) ∷ xs) = ground (arith, has_last q w xs)

pub not-mem_ne : (p q : Ptr) (xs : Cells) → has p xs ≡ false → has q xs ≡ true → (p == q) ≡ false
not-mem_ne p q [] out i = absurd (ground arith)
not-mem_ne p q ((r, v) ∷ xs) out i = ground (arith, not-mem_ne p q xs)

pub has_at : (at w : ℕ) (xs ys : Cells) → has at (xs ++ (at, w) ∷ ys) ≡ true
has_at at w [] ys = rw (==_self at) refl
has_at at w ((p, u) ∷ xs) ys = ground (arith, has_at at w xs ys)

-- A node with others before it is not the first, one with others after it not the last.
pub not_head :
    (at w q u : ℕ) (xs ys : Cells)
    → distinct ((q, u) ∷ xs ++ (at, w) ∷ ys) ≡ true
    → (at == q) ≡ false
not_head at w q u xs ys d =
    let (_, out, _) = distinct_parts q u (xs ++ (at, w) ∷ ys) d in
    ground (arith, not-mem_ne q at _ out (has_at at w xs ys))

pub not_tail :
    (at w q u : ℕ) (xs ys : Cells)
    → distinct (xs ++ (at, w) ∷ (q, u) ∷ ys) ≡ true
    → (at == last 0 (xs ++ (at, w) ∷ (q, u) ∷ ys)) ≡ false
not_tail at w q u xs ys d =
    let (_, ahead, _) =
      distinct_parts at w ((q, u) ∷ ys) (distinct_right xs ((at, w) ∷ (q, u) ∷ ys) d) in
    ap (λ t. at == t) (last-append 0 xs ((at, w) ∷ (q, u) ∷ ys))
    ∙ not-mem_ne at (last q ys) ((q, u) ∷ ys) ahead (has_last q u ys)
