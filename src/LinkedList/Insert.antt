-- ===== src/LinkedList/Insert.antt =====
-- xsan_list_insert_after and xsan_list_insert_before on a state that stands for a sequence.
use mathlib.Core.List.{append_assoc}
use mathlib.Core.Path.{subst}
use xsan.Base.{
  ℕ, true, false, some, [], ◌∷◌, ◌++◌, ◌==◌, arith, ◌≡◌, refl, sym, ap, ◌∙◌, ==_iff, add_size,
}
use xsan.LinkedList.{
  Ptr, ListNode, node, Heap, ListState, write, set_next, set_prev, link_next, link_prev, resized,
  append, insert_after, insert_before,
}
use xsan.LinkedList.Seg.{
  Cells, has, distinct, first, last, Seg, write_same, write_other, Seg-write, Seg-split,
  first-append, last-append, distinct_parts, set_next-some, set_prev-some,
}
use xsan.LinkedList.Weave.{
  not_head, not_tail, not-mem_ne, has_at, weave_left, weave_right, distinct_right, outside_parts,
}
use xsan.LinkedList.Rep.{
  IsRep, IsFresh, IsInserted, inserted-IsRep, h0, Seg-new, append-IsInserted, prepend-IsInserted,
}

link_next_on : (h : Heap) (p q : Ptr) → (p == 0) ≡ false → link_next h p q ≡ set_next h p q
link_next_on h p q e = rw e refl

link_prev_on : (h : Heap) (p q : Ptr) → (p == 0) ≡ false → link_prev h p q ≡ set_prev h p q
link_prev_on h p q e = rw e refl

module _ (s : ListState) (at w new v : ℕ) where
  -- The heap once the new node points to both neighbours, in two writes.
  abbrev pointed : ListNode → Ptr → Ptr → Heap
  pointed n p q = write (write (h0 s new v) new (some n)) new (some (node v p q))

  Seg-pointed :
      (n : ListNode) (p q b a : Ptr) (xs : Cells)
      → Seg s.heap b xs a
      → has new xs ≡ false
      → Seg (pointed n p q) b xs a
  Seg-pointed n p q b a xs t out =
      Seg-write _ b xs a new _ (Seg-write _ b xs a new _ (Seg-new s new v b a xs t out) out) out

  -- The node at `at` is still there when the new node has been written.
  still_there :
      (cells : Cells) (n : ListNode)
      → has new cells ≡ false
      → has at cells ≡ true
      → s.heap at ≡ some n
      → h0 s new v at ≡ some n
  still_there cells n out i e =
      let other : (at == new) ≡ false = ground (arith, not-mem_ne new at cells out i) in
      write_other s.heap new at _ other ∙ e

  pub insert_before-IsInserted :
      (xs ys : Cells)
      → IsRep s (xs ++ (at, w) ∷ ys)
      → IsFresh (xs ++ (at, w) ∷ ys) new
      → IsInserted s new (xs ++ (new, v) ∷ (at, w) ∷ ys) (insert_before at new v s)
  unfolding insert_before
  insert_before-IsInserted [] ys r f =
      let (nonnull, _, _) = distinct_parts at w ys r.addresses in
      let is_head : (at == s.list.head) ≡ true = (==_iff at s.list.head).1 (sym r.head_eq) in
      rw (nonnull, is_head) (prepend-IsInserted s new v ((at, w) ∷ ys) r f)
  insert_before-IsInserted ((q, u) ∷ xs) ys r f =
      let left = (q, u) ∷ xs in
      let right = (at, w) ∷ ys in
      let (nonnull, _, _) = distinct_parts at w ys (distinct_right left right r.addresses) in
      let (apart, apart') = outside_parts new left right f.outside in
      let (s1, s2) = Seg-split s.heap 0 left right 0 r.seg in
      let k0 = last q xs in
      let (g, k, ran, ran', woven) =
        weave_right (pointed (node v k0 0) k0 at) k0 at new v left right
          (Seg-pointed (node v k0 0) k0 at 0 at left s1 apart)
          (Seg-pointed (node v k0 0) k0 at k0 0 right s2 apart') r.addresses f.outside
          (write_same _ new _) in
      (
        k,
        s.list.head,
        s.list.tail,
        add_size s.list.size 1,
        rw
            (
              nonnull,
              ap (λ t. at == t) r.head_eq ∙ not_head at w q u xs ys r.addresses,
              f.not_null,
              still_there (left ++ right) _ f.outside (has_at at w left ys) s2.0,
              set_prev-some (h0 s new v) new k0 (node v 0 0) (write_same s.heap new _),
              set_next-some (write (h0 s new v) new (some (node v k0 0))) new at (node v k0 0)
                  (write_same _ new _),
              ran,
              sym (link_prev_on g at new nonnull) ∙ ran',
            )
            refl,
        inserted-IsRep s new v left right (left ++ right) k s.list.head s.list.tail refl r f woven
            r.head_eq
            (r.tail_eq ∙ last-append 0 left right ∙ sym (last-append 0 left ((new, v) ∷ right))),
      )

  after_head :
      (xs right : Cells)
      → s.list.head ≡ first (xs ++ (at, w) ∷ right) 0
      → s.list.head ≡ first (xs ++ (at, w) ∷ (new, v) ∷ right) 0
  after_head xs right e =
      e ∙ first-append xs ((at, w) ∷ right) 0 ∙ sym (first-append xs ((at, w) ∷ (new, v) ∷ right) 0)

  pub insert_after-IsInserted :
      (xs ys : Cells)
      → IsRep s (xs ++ (at, w) ∷ ys)
      → IsFresh (xs ++ (at, w) ∷ ys) new
      → IsInserted s new (xs ++ (at, w) ∷ (new, v) ∷ ys) (insert_after at new v s)
  unfolding insert_after
  insert_after-IsInserted xs [] r f =
      let (nonnull, _, _) = distinct_parts at w [] (distinct_right xs ((at, w) ∷ []) r.addresses) in
      let is_tail : (at == s.list.tail) ≡ true =
        (==_iff at s.list.tail).1 (sym (r.tail_eq ∙ last-append 0 xs ((at, w) ∷ []))) in
      rw (nonnull, is_tail)
        (subst (λ c. IsInserted s new c (append new v s))
          (append_assoc xs ((at, w) ∷ []) ((new, v) ∷ []))
          (append-IsInserted s new v (xs ++ (at, w) ∷ []) r f))
  insert_after-IsInserted xs ((q, u) ∷ ys) r f =
      let left = xs ++ (at, w) ∷ [] in
      let right = (q, u) ∷ ys in
      let e : left ++ right ≡ xs ++ (at, w) ∷ right = append_assoc xs ((at, w) ∷ []) right in
      let (nonnull, _, _) =
        distinct_parts at w right (distinct_right xs ((at, w) ∷ right) r.addresses) in
      let out : has new (left ++ right) ≡ false = ap (has new) e ∙ f.outside in
      let (apart, apart') = outside_parts new left right out in
      let ends : last 0 left ≡ at = last-append 0 xs ((at, w) ∷ []) in
      let (_, (here, _)) = Seg-split s.heap 0 xs ((at, w) ∷ right) 0 r.seg in
      let (s1, s2) =
        Seg-split s.heap 0 left right 0 (subst (λ c. Seg s.heap 0 c 0) (sym e) r.seg) in
      let not_tail : (at == s.list.tail) ≡ false =
        ap (λ t. at == t) r.tail_eq ∙ not_tail at w q u xs ys r.addresses in
      let (g, k, ran, ran', woven) =
        weave_left (pointed (node v 0 q) at q) (last 0 left) q new v left right
          (Seg-pointed (node v 0 q) at q 0 q left s1 apart)
          (Seg-pointed (node v 0 q) at q (last 0 left) 0 right s2 apart')
          (ap distinct e ∙ r.addresses) out
          (write_same _ new _ ∙ ap (λ p. some (node v p q)) (sym ends)) in
      (
        k,
        s.list.head,
        s.list.tail,
        add_size s.list.size 1,
        rw
            (
              nonnull,
              not_tail,
              f.not_null,
              still_there (xs ++ (at, w) ∷ right) _ f.outside (has_at at w xs right) here,
              set_next-some (h0 s new v) new q (node v 0 0) (write_same s.heap new _),
              set_prev-some (write (h0 s new v) new (some (node v 0 q))) new at (node v 0 q)
                  (write_same _ new _),
              ran,
              sym (link_next_on g at new nonnull) ∙ ap (λ p. link_next g p new) (sym ends) ∙ ran',
            )
            refl,
        subst (λ c. IsRep (resized s k s.list.head s.list.tail (add_size s.list.size 1)) c)
            (append_assoc xs ((at, w) ∷ []) ((new, v) ∷ right))
            (inserted-IsRep s new v left right (xs ++ (at, w) ∷ right) k s.list.head s.list.tail e r
              f woven
              (after_head xs right r.head_eq
                ∙ ap (λ c. first c 0) (sym (append_assoc xs ((at, w) ∷ []) ((new, v) ∷ right))))
              (r.tail_eq
                ∙ last-append 0 xs ((at, w) ∷ right)
                ∙ sym (last-append 0 left ((new, v) ∷ right)))),
      )
