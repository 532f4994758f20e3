-- ===== src/LinkedList/Tests.antt =====
-- Runs of the list, and the theorems at concrete lists.
use xsan.Base.{true, false, none, some, List, [], ◌∷◌, inr, arith, ◌≡◌, refl}
use xsan.Status.{Status}
use xsan.LinkedList.{list_create, list_destroy, Ptr, node, Heap, ListState, create, write, clear}
use xsan.LinkedList.Seg.{Cells, has}
use xsan.LinkedList.Rep.{IsRep}
use xsan.LinkedList.Clear.{list_clear_lem, destroyed_after}
use xsan.LinkedList.Api.{
  Op, op_append, op_prepend, op_insert_after, op_insert_before, op_remove_node, op_pop_back,
  op_get_tail, op_size, op_is_empty, op_clear, at_node, with_value, returned, counted, truth,
  nothing, call_null, run,
}
use xsan.LinkedList.Sequence.{
  spec_run, spec_call, put_after, put_before, without, value_at, split_last, IsRun,
}
use xsan.LinkedList.Runs.{list_runs}

abbrev no_nodes : Heap
no_nodes p = none

abbrev calls : List Op
calls =
    op_append 1 10
    ∷ op_prepend 2 20
    ∷ op_insert_after 2 3 30
    ∷ op_insert_before 1 4 0
    ∷ op_remove_node 3
    ∷ op_pop_back
    ∷ op_get_tail
    ∷ op_size
    ∷ op_clear
    ∷ []

calls-IsRun : IsRun true calls [] []
unfolding IsRun spec_call put_after put_before without value_at split_last
calls-IsRun = (
  inr (record { not_null = refl; outside = refl; room = omega arith }),
  (
    inr (record { not_null = refl; outside = refl; room = omega arith }),
    (
      (inr refl, inr (record { not_null = refl; outside = refl; room = omega arith })),
      (
        (inr refl, inr (record { not_null = refl; outside = refl; room = omega arith })),
        (inr refl, (tt, (tt, (tt, (tt, tt))))),
      ),
    ),
  ),
)

list_runs_example :
    (t : ListState) × (run calls (create true no_nodes)
      ≡ some (
        at_node 1
            ∷ at_node 2
            ∷ at_node 3
            ∷ at_node 4
            ∷ returned Status.ok
            ∷ with_value 10
            ∷ at_node 4
            ∷ counted 2
            ∷ nothing
            ∷ [],
        t,
      ))
    × IsRep t []
    × (t.destroyed ≡ 30 ∷ 20 ∷ [])
unfolding spec_run spec_call put_after put_before without value_at split_last destroyed_after
list_runs_example = list_runs true no_nodes calls calls-IsRun

-- The list 7, 8 at the addresses 5 and 6.
abbrev two_nodes : ListState
two_nodes = record {
  heap = write (write no_nodes 5 (some (node 7 0 6))) 6 (some (node 8 5 0));
  list = record { head = 5; tail = 6; size = 2; has_destructor = true };
  destroyed = [];
}

abbrev two_cells : Cells
two_cells = (5, 7) ∷ (6, 8) ∷ []

two_nodes-IsRep : IsRep two_nodes two_cells
unfolding write
two_nodes-IsRep = record {
  seg = (refl, (refl, tt));
  addresses = refl;
  head_eq = refl;
  tail_eq = refl;
  size_eq = refl;
  fits = omega arith;
}

list_clear_lem_example :
    (t : ListState) × (clear two_nodes ≡ some t)
    × IsRep t []
    × ((p : Ptr) → has p two_cells ≡ true → t.heap p ≡ none)
    × ((p : Ptr) → has p two_cells ≡ false → t.heap p ≡ two_nodes.heap p)
    × (t.destroyed ≡ 7 ∷ 8 ∷ [])
    × (t.list.has_destructor ≡ true)
unfolding destroyed_after
list_clear_lem_example = list_clear_lem two_nodes two_cells two_nodes-IsRep

refused : call_null op_is_empty ≡ truth true
unfolding call_null
refused = refl

no_memory : list_create false true no_nodes ≡ none
unfolding list_create
no_memory = refl

destroy_nothing : list_destroy none ≡ some none
unfolding list_destroy
destroy_nothing = refl
