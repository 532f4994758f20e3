-- ===== src/LinkedList/Sequence.antt =====
-- The contract of src/common/list.c: a sequence of values, each under an address.
use xsan.Base.{ℕ, Bool, true, List, [], ◌∷◌, ◌++◌, ◌==◌, if◌then◌else◌, ◌||◌, length, ◌≡◌, ◌⊎◌}
use xsan.Status.{Status}
use xsan.LinkedList.{Ptr}
use xsan.LinkedList.Seg.{Cells, has, first, last}
use xsan.LinkedList.Rep.{IsFresh}
use xsan.LinkedList.Clear.{destroyed_after}
use xsan.LinkedList.Api.{
  Op, op_append, op_prepend, op_insert_after, op_insert_before, op_remove_node, op_pop_front,
  op_pop_back, op_get_head, op_get_tail, op_size, op_is_empty, op_clear, Reply, at_node, with_value,
  returned, counted, truth, nothing,
}

unfoldable pub put_after : Ptr → Ptr × ℕ → Cells → Cells
put_after at c [] = []
put_after at c ((p, v) ∷ cells) =
    let rest = put_after at c cells in if p == at then (p, v) ∷ c ∷ cells else (p, v) ∷ rest

unfoldable pub put_before : Ptr → Ptr × ℕ → Cells → Cells
put_before at c [] = []
put_before at c ((p, v) ∷ cells) =
    let rest = put_before at c cells in if p == at then c ∷ (p, v) ∷ cells else (p, v) ∷ rest

unfoldable pub without : Ptr → Cells → Cells
without at [] = []
without at ((p, v) ∷ cells) =
    let rest = without at cells in if p == at then cells else (p, v) ∷ rest

unfoldable pub value_at : Ptr → Cells → ℕ
value_at at [] = 0
value_at at ((p, v) ∷ cells) = let rest = value_at at cells in if p == at then v else rest

unfoldable pub split_last : Cells → ℕ × Cells
split_last [] = (0, [])
split_last ((p, v) ∷ []) = (v, [])
split_last ((p, v) ∷ c ∷ cells) = let (w, rest) = split_last (c ∷ cells) in (w, (p, v) ∷ rest)

-- The values that were destroyed so far follow the sequence.
module _ (destructor : Bool) where
  unfoldable pub spec_call : Op → Cells → List ℕ → Reply × Cells × List ℕ
  spec_call (op_append new v) c g =
      if new == 0 then (at_node 0, c, g) else (at_node new, c ++ (new, v) ∷ [], g)
  spec_call (op_prepend new v) c g =
      if new == 0 then (at_node 0, c, g) else (at_node new, (new, v) ∷ c, g)
  spec_call (op_insert_after at new v) c g =
      if at == 0 || new == 0 then (at_node 0, c, g) else (at_node new, put_after at (new, v) c, g)
  spec_call (op_insert_before at new v) c g =
      if at == 0 || new == 0 then (at_node 0, c, g) else (at_node new, put_before at (new, v) c, g)
  spec_call (op_remove_node at) c g = if at == 0 then (returned Status.invalid_param, c, g) else (
    returned Status.ok,
    without at c,
    destroyed_after destructor g ((at, value_at at c) ∷ []),
  )
  spec_call op_pop_front [] g = (with_value 0, [], g)
  spec_call op_pop_front ((p, v) ∷ c) g = (with_value v, c, g)
  spec_call op_pop_back c g = let (v, rest) = split_last c in (with_value v, rest, g)
  spec_call op_get_head c g = (at_node (first c 0), c, g)
  spec_call op_get_tail c g = (at_node (last 0 c), c, g)
  spec_call op_size c g = (counted (length c), c, g)
  spec_call op_is_empty c g = (truth (length c == 0), c, g)
  spec_call op_clear c g = (nothing, [], destroyed_after destructor g c)

  unfoldable pub spec_run : List Op → Cells → List ℕ → List Reply × Cells × List ℕ
  spec_run [] c g = ([], c, g)
  spec_run (o ∷ os) c g =
      let (r, c', g') = spec_call o c g in
      let (rs, c'', g'') = spec_run os c' g' in (r ∷ rs, c'', g'')

-- A pointer that the caller passes is NULL or a node of the list.
abbrev pub IsOwn : Cells → Ptr → Type 0
IsOwn c at = (at ≡ 0) ⊎ (has at c ≡ true)

-- The allocation fails, or returns an address outside the list while its size can still grow.
abbrev pub IsNew : Cells → Ptr → Type 0
IsNew c new = (new ≡ 0) ⊎ IsFresh c new

abbrev pub IsCall : Cells → Op → Type 0
IsCall c (op_append new v) = IsNew c new
IsCall c (op_prepend new v) = IsNew c new
IsCall c (op_insert_after at new v) = IsOwn c at × IsNew c new
IsCall c (op_insert_before at new v) = IsOwn c at × IsNew c new
IsCall c (op_remove_node at) = IsOwn c at
IsCall c _ = Unit

-- So for each call of a run.
unfoldable pub IsRun : Bool → List Op → Cells → List ℕ → Type 0
IsRun d [] c g = Unit
IsRun d (o ∷ os) c g = IsCall c o × (let (_, c', g') = spec_call d o c g in IsRun d os c' g')
