-- ===== src/LinkedList/Runs.antt =====
-- Every run of the list against the sequence, and the walk from node to node.
use mathlib.Core.Path.{subst}
use xsan.Base.{ℕ, Bool, some, List, [], ◌∷◌, ◌++◌, ◌==◌, arith, ◌≡◌, refl, ap, ap₂, ◌∙◌}
use xsan.LinkedList.{Heap, ListState, create}
use xsan.LinkedList.Seg.{Cells, distinct_parts, first, last, Seg-split}
use xsan.LinkedList.Weave.{distinct_right}
use xsan.LinkedList.Rep.{IsRep}
use xsan.LinkedList.Api.{
  Op, op_append, op_prepend, op_insert_after, op_insert_before, op_remove_node, op_pop_front,
  op_pop_back, op_get_head, op_get_tail, op_size, op_is_empty, op_clear, at_node, counted, truth,
  call, run, node_next, node_prev, node_get_value,
}
use xsan.LinkedList.Sequence.{spec_call, spec_run, IsCall, IsRun}
use xsan.LinkedList.Refine.{
  IsStep, append-IsStep, prepend-IsStep, after-IsStep, before-IsStep, remove-IsStep,
  pop_front-IsStep, pop_back-IsStep, clear-IsStep,
}

call_lem :
    (s : ListState) (c : Cells) (o : Op)
    → IsRep s c
    → IsCall c o
    → IsStep s (spec_call s.list.has_destructor o c s.destroyed) (call o s)
unfolding call spec_call
call_lem s c (op_append new v) rep n = append-IsStep s c new v rep n
call_lem s c (op_prepend new v) rep n = prepend-IsStep s c new v rep n
call_lem s c (op_insert_after at new v) rep n = after-IsStep s c at new v rep n.0 n.1
call_lem s c (op_insert_before at new v) rep n = before-IsStep s c at new v rep n.0 n.1
call_lem s c (op_remove_node at) rep n = remove-IsStep s c at rep n
call_lem s c op_pop_front rep n = pop_front-IsStep s c rep
call_lem s c op_pop_back rep n = pop_back-IsStep s c rep
call_lem s c op_get_head rep n = (s, ap (λ p. some (at_node p, s)) rep.head_eq, rep, refl, refl)
call_lem s c op_get_tail rep n = (s, ap (λ p. some (at_node p, s)) rep.tail_eq, rep, refl, refl)
call_lem s c op_size rep n = (s, ap (λ m. some (counted m, s)) rep.size_eq, rep, refl, refl)
call_lem s c op_is_empty rep n =
    (s, ap (λ m. some (truth (m == 0), s)) rep.size_eq, rep, refl, refl)
call_lem s c op_clear rep n = clear-IsStep s c rep

module _ (d : Bool) where
  run_lem :
      (os : List Op) (s : ListState) (c : Cells) (g : List ℕ)
      → IsRep s c
      → s.list.has_destructor ≡ d
      → s.destroyed ≡ g
      → IsRun d os c g
      → (t : ListState) × (run os s ≡ some ((spec_run d os c g).0, t))
        × IsRep t ((spec_run d os c g).1)
        × (t.destroyed ≡ (spec_run d os c g).2)
  unfolding run spec_run IsRun
  run_lem [] s c g rep kd kg ok = (s, refl, rep, kg)
  run_lem (o ∷ os) s c g rep kd kg ok =
      let (t, ran, rep', gone, kept) =
        subst (λ e. IsStep s e (call o s)) (ap₂ (λ e f. spec_call e o c f) kd kg)
          (call_lem s c o rep ok.0) in
      let (u, ran', rep'', gone') = run_lem os t _ _ rep' (kept ∙ kd) gone ok.1 in
      (u, rw (ran, ran') refl, rep'', gone')

  -- From xsan_list_create on, every run of calls in which each node that is passed is NULL or in the
  -- list, and each allocation fails or returns an address that is not, never follows a pointer to no
  -- node, ends, and replies as the sequence does. The nodes left are those of the sequence, linked in
  -- its order, and the destructor has been called on the same values in the same order.
  pub list_runs :
      (h : Heap) (os : List Op)
      → IsRun d os [] []
      → (t : ListState) × (run os (create d h) ≡ some ((spec_run d os [] []).0, t))
        × IsRep t ((spec_run d os [] []).1)
        × (t.destroyed ≡ (spec_run d os [] []).2)
  list_runs h os ok = run_lem os (create d h) [] [] empty refl refl ok
    where
      empty : IsRep (create d h) []
      empty = record {
        seg = tt;
        addresses = refl;
        head_eq = refl;
        tail_eq = refl;
        size_eq = refl;
        fits = omega arith;
      }

-- At a node of a list that a state stands for, xsan_list_node_next, xsan_list_node_prev and
-- xsan_list_node_get_value give the neighbours in the sequence, or NULL at its ends, and the value.
pub neighbours_lem :
    (s : ListState) (xs ys : Cells) (at w : ℕ)
    → IsRep s (xs ++ (at, w) ∷ ys)
    → (node_next at s.heap ≡ some (first ys 0))
      × (node_prev at s.heap ≡ some (last 0 xs))
      × (node_get_value at s.heap ≡ some w)
unfolding node_next node_prev node_get_value
neighbours_lem s xs ys at w rep =
    let (_, (here, _)) = Seg-split s.heap 0 xs ((at, w) ∷ ys) 0 rep.seg in
    let (nonnull, _, _) = distinct_parts at w ys (distinct_right xs ((at, w) ∷ ys) rep.addresses) in
    (rw (nonnull, here) refl, rw (nonnull, here) refl, rw (nonnull, here) refl)
