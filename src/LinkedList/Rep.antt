-- ===== src/LinkedList/Rep.antt =====
-- The sequence that a list's state stands for, and the operations that insert a node.
use mathlib.Core.List.{append-nil}
use native.Mathlib.Nat.{mod-eq_of_lt}
use xsan.Base.{
  ℕ, suc, ◌+◌, ◌<◌, true, false, Option, some, [], ◌∷◌, ◌++◌, ◌==◌, length, length-append, arith,
  ◌≡◌, refl, sym, ap, ◌∙◌, ◌%◌, size_mod, add_size,
}
use xsan.LinkedList.{
  Ptr, node, Heap, ListState, write, set_next, set_prev, with_node, resized, append, prepend,
}
use xsan.LinkedList.Seg.{
  Cells, has, distinct, first, last, Seg, write_same, Seg-write, Seg-append, last-append,
  distinct_parts, set_next_last, set_prev_first, last-ne_zero, set_next-some, set_prev-some,
}
use xsan.LinkedList.Weave.{distinct_insert}

pub record IsRep (s : ListState) (cells : Cells) : Type 0 where
  pub seg : Seg s.heap 0 cells 0
  pub addresses : distinct cells ≡ true
  pub head_eq : s.list.head ≡ first cells 0
  pub tail_eq : s.list.tail ≡ last 0 cells
  pub size_eq : s.list.size ≡ length cells
  pub fits : length cells < size_mod

-- An address that the allocation may return for a new node.
pub record IsFresh (cells : Cells) (new : Ptr) : Type 0 where
  pub not_null : (new == 0) ≡ false
  pub outside : has new cells ≡ false
  pub room : suc (length cells) < size_mod

-- `out` is the new node's address and a state that stands for `cells`.
abbrev pub IsInserted : ListState → Ptr → Cells → Option (Ptr × ListState) → Type 0
IsInserted s new cells out =
    (h : Heap) × (head : Ptr) × (tail : Ptr) × (size : ℕ) × (out
      ≡ some (new, resized s h head tail size))
    × IsRep (resized s h head tail size) cells

next_size : (n size : ℕ) → size ≡ n → suc n < size_mod → add_size size 1 ≡ suc n
next_size n size e h = ap (λ m. (m + 1) % size_mod) e ∙ mod-eq_of_lt (omega arith) ∙ omega arith

pub length_inserted :
    (xs ys : Cells) (new v : ℕ) → length (xs ++ (new, v) ∷ ys) ≡ suc (length (xs ++ ys))
length_inserted xs ys new v = omega (arith, length-append xs ((new, v) ∷ ys), length-append xs ys)

pub inserted-IsRep :
    (s : ListState) (new v : ℕ) (xs ys cells : Cells) (g : Heap) (head tail : Ptr)
    → xs ++ ys ≡ cells
    → IsRep s cells
    → IsFresh cells new
    → Seg g 0 (xs ++ (new, v) ∷ ys) 0
    → head ≡ first (xs ++ (new, v) ∷ ys) 0
    → tail ≡ last 0 (xs ++ (new, v) ∷ ys)
    → IsRep (resized s g head tail (add_size s.list.size 1)) (xs ++ (new, v) ∷ ys)
inserted-IsRep s new v xs ys cells g head tail e r f seg eh et = record {
  seg = seg;
  addresses =
      distinct_insert xs ys new v (ap distinct e ∙ r.addresses) (ap (has new) e ∙ f.outside)
        f.not_null;
  head_eq = eh;
  tail_eq = et;
  size_eq =
      next_size (length cells) s.list.size r.size_eq f.room
      ∙ sym (length_inserted xs ys new v ∙ ap (λ c. suc (length c)) e);
  fits = omega (arith, length_inserted xs ys new v, ap length e, f.room);
}

module _ (s : ListState) (new v : ℕ) where
  abbrev pub h0 : Heap
  h0 = with_node s.heap new v

  pub Seg-new : (b a : Ptr) (xs : Cells) → Seg s.heap b xs a → has new xs ≡ false → Seg h0 b xs a
  Seg-new b a xs t out = Seg-write s.heap b xs a new _ t out

  pub append-IsInserted :
      (cells : Cells)
      → IsRep s cells
      → IsFresh cells new
      → IsInserted s new (cells ++ (new, v) ∷ []) (append new v s)
  unfolding append
  append-IsInserted [] r f = (
    with_node s.heap new v,
    new,
    new,
    add_size s.list.size 1,
    let null : (s.list.tail == 0) ≡ true = ap (λ p. p == 0) r.tail_eq in rw (f.not_null, null) refl,
    inserted-IsRep s new v [] [] [] _ new new refl r f (write_same s.heap new _, tt) refl refl,
  )
  append-IsInserted ((p, w) ∷ xs) r f =
      let (g, ran, t, same) =
        set_next_last h0 0 p w xs 0 new (Seg-new 0 0 ((p, w) ∷ xs) r.seg f.outside) r.addresses in
      let found : g new ≡ some (node v 0 0) = same new f.outside ∙ write_same s.heap new _ in
      let full : (s.list.tail == 0) ≡ false =
        ap (λ q. q == 0) r.tail_eq ∙ last-ne_zero p w xs r.addresses in
      let ran' : set_next h0 s.list.tail new ≡ some g =
        ap (λ q. set_next h0 q new) r.tail_eq ∙ ran in
      (
        write g new (some (node v s.list.tail 0)),
        s.list.head,
        new,
        add_size s.list.size 1,
        rw (f.not_null, full, ran', set_prev-some g new s.list.tail (node v 0 0) found) refl,
        inserted-IsRep s new v ((p, w) ∷ xs) [] ((p, w) ∷ xs) _ s.list.head new (append-nil _) r f
            (Seg-append _ 0 ((p, w) ∷ xs) ((new, v) ∷ []) 0
              (Seg-write g 0 ((p, w) ∷ xs) new new _ t f.outside)
              (write_same g new _ ∙ ap (λ q. some (node v q 0)) r.tail_eq, tt))
            r.head_eq (sym (last-append 0 ((p, w) ∷ xs) ((new, v) ∷ []))),
      )

  pub prepend-IsInserted :
      (cells : Cells)
      → IsRep s cells
      → IsFresh cells new
      → IsInserted s new ((new, v) ∷ cells) (prepend new v s)
  unfolding prepend
  prepend-IsInserted [] r f = (
    with_node s.heap new v,
    new,
    new,
    add_size s.list.size 1,
    let null : (s.list.head == 0) ≡ true = ap (λ p. p == 0) r.head_eq in rw (f.not_null, null) refl,
    inserted-IsRep s new v [] [] [] _ new new refl r f (write_same s.heap new _, tt) refl refl,
  )
  prepend-IsInserted ((p, w) ∷ xs) r f =
      let (g, ran, t, same) =
        set_prev_first h0 0 p w xs new (Seg-new 0 0 ((p, w) ∷ xs) r.seg f.outside) r.addresses in
      let found : g new ≡ some (node v 0 0) = same new f.outside ∙ write_same s.heap new _ in
      let full : (s.list.head == 0) ≡ false =
        ap (λ q. q == 0) r.head_eq ∙ (distinct_parts p w xs r.addresses).0 in
      let ran' : set_prev h0 s.list.head new ≡ some g =
        ap (λ q. set_prev h0 q new) r.head_eq ∙ ran in
      (
        write g new (some (node v 0 s.list.head)),
        new,
        s.list.tail,
        add_size s.list.size 1,
        rw (f.not_null, full, ran', set_next-some g new s.list.head (node v 0 0) found) refl,
        inserted-IsRep s new v [] ((p, w) ∷ xs) ((p, w) ∷ xs) _ new s.list.tail refl r f
            (
              write_same g new _ ∙ ap (λ q. some (node v 0 q)) r.head_eq,
              Seg-write g new ((p, w) ∷ xs) 0 new _ t f.outside,
            )
            refl r.tail_eq,
      )
