-- ===== src/LinkedList/Api.antt =====
-- The operations of src/common/list.c as one step function on the list, and those on a node.
use xsan.Base.{ℕ, Bool, true, Option, none, some, List, [], ◌∷◌, ◌==◌, if◌then◌else◌}
use xsan.Status.{Status}
use xsan.LinkedList.{
  Ptr, Heap, ListState, ◌>>=◌, append, prepend, insert_after, insert_before, remove_node, pop_front,
  pop_back, clear,
}

-- `new` is the address that the allocation returns.
pub data Op : Type 0 where
  op_append : (new : Ptr) (value : ℕ) → Op
  op_prepend : (new : Ptr) (value : ℕ) → Op
  op_insert_after : (at new : Ptr) (value : ℕ) → Op
  op_insert_before : (at new : Ptr) (value : ℕ) → Op
  op_remove_node : (at : Ptr) → Op
  op_pop_front : Op
  op_pop_back : Op
  op_get_head : Op
  op_get_tail : Op
  op_size : Op
  op_is_empty : Op
  op_clear : Op

pub data Reply : Type 0 where
  at_node : Ptr → Reply
  with_value : ℕ → Reply
  returned : Status → Reply
  counted : ℕ → Reply
  truth : Bool → Reply
  nothing : Reply

unfoldable pub list_size : Option ListState → ℕ
list_size none = 0
list_size (some s) = s.list.size

unfoldable pub list_is_empty : Option ListState → Bool
list_is_empty none = true
list_is_empty (some s) = s.list.size == 0

unfoldable pub get_head : Option ListState → Ptr
get_head none = 0
get_head (some s) = s.list.head

unfoldable pub get_tail : Option ListState → Ptr
get_tail none = 0
get_tail (some s) = s.list.tail

-- xsan_list_node_next, xsan_list_node_prev and xsan_list_node_get_value
unfoldable pub node_next : Ptr → Heap → Option Ptr
node_next p h = if p == 0 then some 0 else do n ← h p; some n.next

unfoldable pub node_prev : Ptr → Heap → Option Ptr
node_prev p h = if p == 0 then some 0 else do n ← h p; some n.prev

unfoldable pub node_get_value : Ptr → Heap → Option ℕ
node_get_value p h = if p == 0 then some 0 else do n ← h p; some n.value

abbrev pub Answer : Type 0
Answer = Option (Reply × ListState)

abbrev pub answer : {A : Type 0} → (A → Reply) → Option (A × ListState) → Answer
answer f none = none
answer f (some (a, t)) = some (f a, t)

-- The list pointer is not NULL.
unfoldable pub call : Op → ListState → Answer
unfolding list_size list_is_empty get_head get_tail
call (op_append new v) s = answer at_node (append new v s)
call (op_prepend new v) s = answer at_node (prepend new v s)
call (op_insert_after at new v) s = answer at_node (insert_after at new v s)
call (op_insert_before at new v) s = answer at_node (insert_before at new v s)
call (op_remove_node at) s = answer returned (remove_node at s)
call op_pop_front s = answer with_value (pop_front s)
call op_pop_back s = answer with_value (pop_back s)
call op_get_head s = some (at_node (get_head (some s)), s)
call op_get_tail s = some (at_node (get_tail (some s)), s)
call op_size s = some (counted (list_size (some s)), s)
call op_is_empty s = some (truth (list_is_empty (some s)), s)
call op_clear s = do t ← clear s; some (nothing, t)

-- It is NULL.
unfoldable pub call_null : Op → Reply
unfolding list_size list_is_empty get_head get_tail
call_null (op_append new v) = at_node 0
call_null (op_prepend new v) = at_node 0
call_null (op_insert_after at new v) = at_node 0
call_null (op_insert_before at new v) = at_node 0
call_null (op_remove_node at) = returned Status.invalid_param
call_null op_pop_front = with_value 0
call_null op_pop_back = with_value 0
call_null op_get_head = at_node (get_head none)
call_null op_get_tail = at_node (get_tail none)
call_null op_size = counted (list_size none)
call_null op_is_empty = truth (list_is_empty none)
call_null op_clear = nothing

unfoldable pub run : List Op → ListState → Option (List Reply × ListState)
run [] s = some ([], s)
run (o ∷ os) s = do (r, t) ← call o s; (rs, u) ← run os t; some (r ∷ rs, u)
