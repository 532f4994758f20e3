-- ===== src/LinkedList/Refine.antt =====
-- The list on the heap against the sequence.
use mathlib.Core.Path.{subst}
use xsan.Base.{
  ℕ, true, false, Bool-cases, Option, some, List, [], ◌∷◌, ◌++◌, ◌==◌, ◌||◌, inl, inr, arith, ◌≡◌,
  ◌⊎◌, refl, sym, ap, ◌∙◌, ==_iff,
}
use xsan.Status.{Status}
use xsan.LinkedList.{
  Ptr, ListState, append, prepend, insert_after, insert_before, remove_node, pop_front, pop_back,
}
use xsan.LinkedList.Seg.{Cells, has}
use xsan.LinkedList.Rep.{IsRep, IsFresh, IsInserted, append-IsInserted, prepend-IsInserted}
use xsan.LinkedList.Insert.{insert_after-IsInserted, insert_before-IsInserted}
use xsan.LinkedList.Remove.{remove_node-IsRep, pop_front-IsRep, pop_back-IsRep}
use xsan.LinkedList.Clear.{destroyed_after, list_clear_lem}
use xsan.LinkedList.Api.{
  op_append, op_prepend, op_insert_after, op_insert_before, op_remove_node, op_pop_front,
  op_pop_back, op_clear, Reply, at_node, with_value, returned, Answer, answer, call,
}
use xsan.LinkedList.Sequence.{
  put_after, put_before, without, value_at, split_last, spec_call, IsOwn, IsNew,
}
use xsan.LinkedList.Locate.{
  split_at, put_after_lem, put_before_lem, without_lem, value_at_lem, split_last_lem,
}

abbrev pub IsStep : ListState → Reply × Cells × List ℕ → Answer → Type 0
IsStep s (r, c, g) out =
    (t : ListState) × (out ≡ some (r, t))
    × IsRep t c
    × (t.destroyed ≡ g)
    × (t.list.has_destructor ≡ s.list.has_destructor)

module _ (s : ListState) where
  unchanged : (r : Reply) (c : Cells) → IsRep s c → IsStep s (r, c, s.destroyed) (some (r, s))
  unchanged r c rep = (s, refl, rep, refl, refl)

  inserted-IsStep :
      (new : Ptr) (c : Cells) (out : Option (Ptr × ListState))
      → IsInserted s new c out
      → IsStep s (at_node new, c, s.destroyed) (answer at_node out)
  inserted-IsStep new c out (h, head, tail, size, ran, rep) =
      (_, ap (answer at_node) ran, rep, refl, refl)

  append_null : (new v : ℕ) → (new == 0) ≡ true → append new v s ≡ some (0, s)
  unfolding append
  append_null new v e = rw e refl

  prepend_null : (new v : ℕ) → (new == 0) ≡ true → prepend new v s ≡ some (0, s)
  unfolding prepend
  prepend_null new v e = rw e refl

  pub append-IsStep :
      (c : Cells) (new v : ℕ)
      → IsRep s c
      → IsNew c new
      → IsStep s
          (spec_call s.list.has_destructor (op_append new v) c s.destroyed)
          (call (op_append new v) s)
  unfolding call spec_call
  append-IsStep c new v rep n = elim n [
    | inl z ↦
        let e : (new == 0) ≡ true = (==_iff new 0).1 z in
        rw (e, append_null new v e) (unchanged (at_node 0) c rep)
    | inr f ↦ rw (f.not_null) (inserted-IsStep new _ _ (append-IsInserted s new v c rep f))
  ]

  pub prepend-IsStep :
      (c : Cells) (new v : ℕ)
      → IsRep s c
      → IsNew c new
      → IsStep s
          (spec_call s.list.has_destructor (op_prepend new v) c s.destroyed)
          (call (op_prepend new v) s)
  unfolding call spec_call
  prepend-IsStep c new v rep n = elim n [
    | inl z ↦
        let e : (new == 0) ≡ true = (==_iff new 0).1 z in
        rw (e, prepend_null new v e) (unchanged (at_node 0) c rep)
    | inr f ↦ rw (f.not_null) (inserted-IsStep new _ _ (prepend-IsInserted s new v c rep f))
  ]

  after_null :
      (at new v : ℕ) → ((at == 0) || (new == 0)) ≡ true → insert_after at new v s ≡ some (0, s)
  unfolding insert_after
  after_null at new v e = elim (Bool-cases (at == 0)) [
    | inl a ↦ rw a refl
    | inr a ↦
        let z : (new == 0) ≡ true = ground (arith, e, a) in
        elim (Bool-cases (at == s.list.tail)) [
          | inl t ↦ rw (a, t) (append_null new v z)
          | inr t ↦ rw (a, t, z) refl
        ]
  ]

  before_null :
      (at new v : ℕ) → ((at == 0) || (new == 0)) ≡ true → insert_before at new v s ≡ some (0, s)
  unfolding insert_before
  before_null at new v e = elim (Bool-cases (at == 0)) [
    | inl a ↦ rw a refl
    | inr a ↦
        let z : (new == 0) ≡ true = ground (arith, e, a) in
        elim (Bool-cases (at == s.list.head)) [
          | inl t ↦ rw (a, t) (prepend_null new v z)
          | inr t ↦ rw (a, t, z) refl
        ]
  ]

  -- Either a pointer is null, or the node stands in the list and the new one does not.
  null_or_own :
      (c : Cells) (at new : Ptr)
      → IsOwn c at
      → IsNew c new
      → (((at == 0) || (new == 0)) ≡ true)
        ⊎ ((((at == 0) || (new == 0)) ≡ false) × (has at c ≡ true) × IsFresh c new)
  null_or_own c at new own n = elim (Bool-cases ((at == 0) || (new == 0))) [
    | inl e ↦ inl e
    | inr e ↦ elim own [
      | inl z ↦ absurd (ground (arith, e, z))
      | inr i ↦ elim n [ inl z ↦ absurd (ground (arith, e, z)) | inr f ↦ inr (e, i, f) ]
    ]
  ]

  pub after-IsStep :
      (c : Cells) (at new v : ℕ)
      → IsRep s c
      → IsOwn c at
      → IsNew c new
      → IsStep s
          (spec_call s.list.has_destructor (op_insert_after at new v) c s.destroyed)
          (call (op_insert_after at new v) s)
  unfolding call spec_call
  after-IsStep c at new v rep own n = elim (null_or_own c at new own n) [
    | inl e ↦ rw (e, after_null at new v e) (unchanged (at_node 0) c rep)
    | inr (e, i, f) ↦
        let (xs, w, ys, same, out) = split_at at c i in
        rw e (
          inserted-IsStep new (put_after at (new, v) c) _ (
            subst (λ z. IsInserted s new z (insert_after at new v s))
              (sym (ap (put_after at (new, v)) same ∙ put_after_lem at w (new, v) xs ys out))
              (insert_after-IsInserted s at w new v xs ys (subst (λ z. IsRep s z) same rep)
                (subst (λ z. IsFresh z new) same f))))
  ]

  pub before-IsStep :
      (c : Cells) (at new v : ℕ)
      → IsRep s c
      → IsOwn c at
      → IsNew c new
      → IsStep s
          (spec_call s.list.has_destructor (op_insert_before at new v) c s.destroyed)
          (call (op_insert_before at new v) s)
  unfolding call spec_call
  before-IsStep c at new v rep own n = elim (null_or_own c at new own n) [
    | inl e ↦ rw (e, before_null at new v e) (unchanged (at_node 0) c rep)
    | inr (e, i, f) ↦
        let (xs, w, ys, same, out) = split_at at c i in
        rw e (
          inserted-IsStep new (put_before at (new, v) c) _ (
            subst (λ z. IsInserted s new z (insert_before at new v s))
              (sym (ap (put_before at (new, v)) same ∙ put_before_lem at w (new, v) xs ys out))
              (insert_before-IsInserted s at w new v xs ys (subst (λ z. IsRep s z) same rep)
                (subst (λ z. IsFresh z new) same f))))
  ]

  remove_null : (at : Ptr) → (at == 0) ≡ true → remove_node at s ≡ some (Status.invalid_param, s)
  unfolding remove_node
  remove_null at e = rw e refl

  pub remove-IsStep :
      (c : Cells) (at : ℕ)
      → IsRep s c
      → IsOwn c at
      → IsStep s
          (spec_call s.list.has_destructor (op_remove_node at) c s.destroyed)
          (call (op_remove_node at) s)
  unfolding call spec_call destroyed_after
  remove-IsStep c at rep own = elim (Bool-cases (at == 0)) [
    | inl e ↦ rw (e, remove_null at e) (unchanged (returned Status.invalid_param) c rep)
    | inr e ↦ elim own [
      | inl z ↦ absurd (ground (arith, e, z))
      | inr i ↦
          let (xs, w, ys, same, out) = split_at at c i in
          let (t, ran, rep', gone, kept) =
            remove_node-IsRep s at w xs ys (subst (λ z. IsRep s z) same rep) in
          let left : without at c ≡ xs ++ ys = ap (without at) same ∙ without_lem at w xs ys out in
          let value : value_at at c ≡ w = ap (value_at at) same ∙ value_at_lem at w xs ys out in
          rw (e, left, value) (t, ap (answer returned) ran, rep', gone, kept)
    ]
  ]

  pub clear-IsStep :
      (c : Cells)
      → IsRep s c
      → IsStep s (spec_call s.list.has_destructor op_clear c s.destroyed) (call op_clear s)
  unfolding call spec_call
  clear-IsStep c rep =
      let (t, ran, rep', _, _, gone, kept) = list_clear_lem s c rep in
      (t, rw ran refl, rep', gone, kept)

  pub pop_front-IsStep :
      (c : Cells)
      → IsRep s c
      → IsStep s (spec_call s.list.has_destructor op_pop_front c s.destroyed) (call op_pop_front s)
  unfolding call spec_call pop_front
  pop_front-IsStep [] rep =
      let e : (s.list.head == 0) ≡ true = ap (λ p. p == 0) rep.head_eq in
      rw e (unchanged (with_value 0) [] rep)
  pop_front-IsStep ((p, v) ∷ c) rep =
      let (t, ran, rep', gone, kept) = pop_front-IsRep s p v c rep in
      (t, ap (answer with_value) ran, rep', gone, kept)

  pub pop_back-IsStep :
      (c : Cells)
      → IsRep s c
      → IsStep s (spec_call s.list.has_destructor op_pop_back c s.destroyed) (call op_pop_back s)
  unfolding call spec_call pop_back split_last
  pop_back-IsStep [] rep =
      let e : (s.list.tail == 0) ≡ true = ap (λ p. p == 0) rep.tail_eq in
      rw e (unchanged (with_value 0) [] rep)
  pop_back-IsStep ((p, v) ∷ c) rep =
      let (xs, q, w, same, split) = split_last_lem p v c in
      let (t, ran, rep', gone, kept) = pop_back-IsRep s q w xs (subst (λ z. IsRep s z) same rep) in
      rw split (t, ap (answer with_value) ran, rep', gone, kept)
