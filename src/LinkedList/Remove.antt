-- ===== src/LinkedList/Remove.antt =====
-- xsan_list_remove_node, xsan_list_pop_front, xsan_list_pop_back and xsan_list_clear on a state that
-- stands for a sequence.
use mathlib.Core.List.{append-nil}
use mathlib.Core.Path.{subst}
use xsan.Base.{
  ℕ, suc, ◌<◌, true, false, none, some, List, [], ◌∷◌, ◌++◌, ◌==◌, if◌then◌else◌, arith, ◌≡◌, refl,
  sym, ap, ◌∙◌, ==_iff, sub_size, length, size_mod,
}
use xsan.Status.{Status}
use xsan.LinkedList.{
  Ptr, node, Heap, ListState, write, resized, destroy_value, unlinked_state, remove_node, pop_front,
  pop_back,
}
use xsan.LinkedList.Seg.{
  Cells, has, first, last, Seg, last-append, distinct_parts, last-ne_zero, Seg-write, Seg-split,
  link_next_lem, link_prev_lem,
}
use xsan.LinkedList.Weave.{
  unweave, distinct_left, removed_lem, distinct_right, distinct_remove, not_head, not_tail,
}
use xsan.LinkedList.Rep.{IsRep, length_inserted}

less_one : (n size : ℕ) → size ≡ suc n → suc n < size_mod → sub_size size 1 ≡ n
less_one n size e h = ap (λ m. sub_size m 1) e ∙ omega arith

-- What the source sets the ends to when the list has become empty is what they are then.
end_first :
    (cells : Cells) (m p : ℕ)
    → m ≡ length cells
    → p ≡ first cells 0
    → (if m == 0 then 0 else p) ≡ first cells 0
end_first [] m p e f = ground arith
end_first ((q, u) ∷ cells) m p e f = ground arith

end_last :
    (cells : Cells) (m p : ℕ)
    → m ≡ length cells
    → p ≡ last 0 cells
    → (if m == 0 then 0 else p) ≡ last 0 cells
end_last [] m p e f = ground arith
end_last ((q, u) ∷ cells) m p e f =
    let some_left : (m == 0) ≡ false = ground arith in rw some_left f

module _ (s : ListState) (at w : ℕ) where
  new_head :
      (xs ys : Cells)
      → IsRep s (xs ++ (at, w) ∷ ys)
      → (if at == s.list.head then first ys 0 else s.list.head) ≡ first (xs ++ ys) 0
  new_head [] ys r =
      let e : (at == s.list.head) ≡ true = (==_iff at s.list.head).1 (sym r.head_eq) in rw e refl
  new_head ((q, u) ∷ xs) ys r =
      let e : (at == s.list.head) ≡ false =
        ap (λ t. at == t) r.head_eq ∙ not_head at w q u xs ys r.addresses in
      rw e r.head_eq

  new_tail :
      (xs ys : Cells)
      → IsRep s (xs ++ (at, w) ∷ ys)
      → (if at == s.list.tail then last 0 xs else s.list.tail) ≡ last 0 (xs ++ ys)
  new_tail xs [] r =
      let e : (at == s.list.tail) ≡ true =
        (==_iff at s.list.tail).1 (sym (r.tail_eq ∙ last-append 0 xs ((at, w) ∷ []))) in
      rw e (ap (last 0) (sym (append-nil xs)))
  new_tail xs ((q, u) ∷ ys) r =
      let e : (at == s.list.tail) ≡ false =
        ap (λ t. at == t) r.tail_eq ∙ not_tail at w q u xs ys r.addresses in
      rw e (
        r.tail_eq ∙ last-append 0 xs ((at, w) ∷ (q, u) ∷ ys) ∙ sym (last-append 0 xs ((q, u) ∷ ys)))

  smaller :
      (xs ys : Cells) → IsRep s (xs ++ (at, w) ∷ ys) → sub_size s.list.size 1 ≡ length (xs ++ ys)
  smaller xs ys r =
      less_one _ s.list.size (r.size_eq ∙ length_inserted xs ys at w)
        (omega (arith, r.fits, length_inserted xs ys at w))

  removed-IsRep :
      (xs ys : Cells) (g : Heap) (head tail : Ptr) (gone : List ℕ)
      → IsRep s (xs ++ (at, w) ∷ ys)
      → Seg g 0 (xs ++ ys) 0
      → head ≡ first (xs ++ ys) 0
      → tail ≡ last 0 (xs ++ ys)
      → IsRep
          (record (resized s g head tail (sub_size s.list.size 1)) { destroyed = gone })
          (xs ++ ys)
  removed-IsRep xs ys g head tail gone r seg eh et = record {
    seg = seg;
    addresses = distinct_remove xs ys at w r.addresses;
    head_eq = eh;
    tail_eq = et;
    size_eq = smaller xs ys r;
    fits = omega (arith, r.fits, length_inserted xs ys at w);
  }

  pub remove_node-IsRep :
      (xs ys : Cells)
      → IsRep s (xs ++ (at, w) ∷ ys)
      → (t : ListState) × (remove_node at s ≡ some (Status.ok, t))
        × IsRep t (xs ++ ys)
        × (t.destroyed ≡ destroy_value s w)
        × (t.list.has_destructor ≡ s.list.has_destructor)
  unfolding remove_node
  remove_node-IsRep xs ys r =
      let (here, g, k, ran, ran', seg) = unweave s.heap at w xs ys r.seg r.addresses in
      let (nonnull, _, _) = distinct_parts at w ys (distinct_right xs ((at, w) ∷ ys) r.addresses) in
      let n = node w (last 0 xs) (first ys 0) in
      (
        unlinked_state at n k s,
        rw (nonnull, here, ran, ran') refl,
        removed-IsRep xs ys (write k at none) _ _ (destroy_value s w) r seg
            (end_first (xs ++ ys) _ _ (smaller xs ys r) (new_head xs ys r))
            (end_last (xs ++ ys) _ _ (smaller xs ys r) (new_tail xs ys r)),
        refl,
        refl,
      )

  pub pop_front-IsRep :
      (ys : Cells)
      → IsRep s ((at, w) ∷ ys)
      → (t : ListState) × (pop_front s ≡ some (w, t))
        × IsRep t ys
        × (t.destroyed ≡ s.destroyed)
        × (t.list.has_destructor ≡ s.list.has_destructor)
  unfolding pop_front
  pop_front-IsRep ys r =
      let (nonnull, out, tail) = distinct_parts at w ys r.addresses in
      let (k, ran, seg, _) = link_prev_lem s.heap at ys 0 (r.seg).1 tail in
      let full : (s.list.head == 0) ≡ false = ap (λ p. p == 0) r.head_eq ∙ nonnull in
      let here : s.heap s.list.head ≡ some (node w 0 (first ys 0)) =
        ap s.heap r.head_eq ∙ (r.seg).0 in
      let freed : Seg (write k s.list.head none) 0 ys 0 =
        Seg-write k 0 ys 0 s.list.head none seg (ap (λ p. has p ys) r.head_eq ∙ out) in
      (
        resized s (write k s.list.head none) (first ys 0)
            (if first ys 0 == 0 then 0 else s.list.tail) (sub_size s.list.size 1),
        rw (full, here, ran) refl,
        removed-IsRep [] ys _ (first ys 0) _ s.destroyed r freed refl (last_left ys r),
        refl,
        refl,
      )
    where
      last_left :
          (zs : Cells)
          → IsRep s ((at, w) ∷ zs)
          → (if first zs 0 == 0 then 0 else s.list.tail) ≡ last 0 zs
      last_left [] rep = refl
      last_left ((q, u) ∷ zs) rep =
          let (_, _, tail) = distinct_parts at w ((q, u) ∷ zs) rep.addresses in
          rw ((distinct_parts q u zs tail).0) rep.tail_eq

  pub pop_back-IsRep :
      (xs : Cells)
      → IsRep s (xs ++ (at, w) ∷ [])
      → (t : ListState) × (pop_back s ≡ some (w, t))
        × IsRep t xs
        × (t.destroyed ≡ s.destroyed)
        × (t.list.has_destructor ≡ s.list.has_destructor)
  unfolding pop_back
  pop_back-IsRep xs r =
      let (s1, (here, _)) = Seg-split s.heap 0 xs ((at, w) ∷ []) 0 r.seg in
      let at_tail : s.list.tail ≡ at = r.tail_eq ∙ last-append 0 xs ((at, w) ∷ []) in
      let (nonnull, _, _) = distinct_parts at w [] (distinct_right xs ((at, w) ∷ []) r.addresses) in
      let (k, ran, seg, _) =
        link_next_lem s.heap xs at 0 s1 (distinct_left xs ((at, w) ∷ []) r.addresses) in
      let full : (s.list.tail == 0) ≡ false = ap (λ p. p == 0) at_tail ∙ nonnull in
      let here' : s.heap s.list.tail ≡ some (node w (last 0 xs) 0) = ap s.heap at_tail ∙ here in
      let out : has at (xs ++ []) ≡ false = removed_lem at w xs [] r.addresses in
      let freed : Seg (write k s.list.tail none) 0 (xs ++ []) 0 =
        Seg-write k 0 (xs ++ []) 0 s.list.tail none
          (subst (λ c. Seg k 0 c 0) (sym (append-nil xs)) seg)
          (ap (λ p. has p (xs ++ [])) at_tail ∙ out) in
      let t : ListState =
        resized s (write k s.list.tail none) (if last 0 xs == 0 then 0 else s.list.head) (last 0 xs)
          (sub_size s.list.size 1) in
      (
        t,
        rw (full, here', ran) refl,
        subst (λ c. IsRep t c) (append-nil xs)
            (removed-IsRep xs [] _ _ (last 0 xs) s.destroyed r freed (first_left xs r)
              (ap (last 0) (sym (append-nil xs)))),
        refl,
        refl,
      )
    where
      first_left :
          (zs : Cells)
          → IsRep s (zs ++ (at, w) ∷ [])
          → (if last 0 zs == 0 then 0 else s.list.head) ≡ first (zs ++ []) 0
      first_left [] rep = refl
      first_left ((q, u) ∷ zs) rep =
          rw (last-ne_zero q u zs (distinct_left ((q, u) ∷ zs) ((at, w) ∷ []) rep.addresses))
            rep.head_eq
