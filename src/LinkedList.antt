-- ===== src/LinkedList.antt =====
-- src/common/list.c: a doubly linked list of nodes on a heap. An operation gives `none` where it
-- would follow a pointer to no node, or where the loop of xsan_list_clear runs out of fuel. An
-- operation that makes a node gets the address that the allocation returns, which is 0 if it fails.
use xsan.Base.{
  ℕ, zero, suc, ◌+◌, ◌-◌, Bool, true, false, Option, none, some, List, [], ◌∷◌, ◌++◌, ◌==◌,
  if◌then◌else◌, not, ◌&&◌, add_size, sub_size,
}
use xsan.Status.{Status}
pub mod Seg
pub mod Weave
pub mod Rep
pub mod Insert
pub mod Remove
pub mod Clear
pub mod Api
pub mod Sequence
pub mod Locate
pub mod Refine
pub mod Runs
mod Tests

abbrev pub Ptr : Type 0
Ptr = ℕ

-- `struct xsan_list_node`
pub record ListNode : Type 0 where
  pub value : ℕ
  pub prev : Ptr
  pub next : Ptr

abbrev pub node : ℕ → Ptr → Ptr → ListNode
node v p q = record { value = v; prev = p; next = q }

-- `struct xsan_list`
pub record XsanList : Type 0 where
  pub head : Ptr
  pub tail : Ptr
  pub size : ℕ
  pub has_destructor : Bool

abbrev pub Heap : Type 0
Heap = Ptr → Option ListNode

-- `destroyed` is what the destructor was called with, in order.
pub record ListState : Type 0 where
  pub heap : Heap
  pub list : XsanList
  pub destroyed : List ℕ

unfoldable pub write : Heap → Ptr → Option ListNode → Heap
write h p n q = if q == p then n else h q

infixl 5 ◌>>=◌
abbrev pub ◌>>=◌ : {A B : Type 0} → Option A → (A → Option B) → Option B
none >>= f = none
some a >>= f = f a

-- `p->next = q` and `p->prev = q`
unfoldable pub set_next : Heap → Ptr → Ptr → Option Heap
set_next h p q = do n ← h p; some (write h p (some (record n { next = q })))

unfoldable pub set_prev : Heap → Ptr → Ptr → Option Heap
set_prev h p q = do n ← h p; some (write h p (some (record n { prev = q })))

-- The same, left out for a null pointer.
abbrev pub link_next : Heap → Ptr → Ptr → Option Heap
link_next h p q = if p == 0 then some h else set_next h p q

abbrev pub link_prev : Heap → Ptr → Ptr → Option Heap
link_prev h p q = if p == 0 then some h else set_prev h p q

abbrev pub Result : Type 0
Result = Option (Ptr × ListState)

abbrev pub create : Bool → Heap → ListState
create has_destructor h = record {
  heap = h;
  list = record { head = 0; tail = 0; size = 0; has_destructor = has_destructor };
  destroyed = [];
}

abbrev pub resized : ListState → Heap → Ptr → Ptr → ℕ → ListState
resized s h head tail size = record s {
  heap = h;
  list = record s.list { head = head; tail = tail; size = size };
}

-- The node of create_new_node.
abbrev pub with_node : Heap → Ptr → ℕ → Heap
with_node h new value = write h new (some (node value 0 0))

unfoldable pub append : Ptr → ℕ → ListState → Result
append new value s =
    let h = with_node s.heap new value in
    if new == 0
    then some (0, s)
    else if s.list.tail == 0
    then some (new, resized s h new new (add_size s.list.size 1))
    else do
      h1 ← set_next h s.list.tail new
      h2 ← set_prev h1 new s.list.tail
      some (new, resized s h2 s.list.head new (add_size s.list.size 1))

unfoldable pub prepend : Ptr → ℕ → ListState → Result
prepend new value s =
    let h = with_node s.heap new value in
    if new == 0
    then some (0, s)
    else if s.list.head == 0
    then some (new, resized s h new new (add_size s.list.size 1))
    else do
      h1 ← set_prev h s.list.head new
      h2 ← set_next h1 new s.list.head
      some (new, resized s h2 new s.list.tail (add_size s.list.size 1))

unfoldable pub insert_after : Ptr → Ptr → ℕ → ListState → Result
insert_after at new value s =
    let h = with_node s.heap new value in
    if at == 0
    then some (0, s)
    else if at == s.list.tail
    then append new value s
    else if new == 0
    then some (0, s)
    else do
      n ← h at
      h1 ← set_next h new n.next
      h2 ← set_prev h1 new at
      h3 ← link_prev h2 n.next new
      h4 ← set_next h3 at new
      some (new, resized s h4 s.list.head s.list.tail (add_size s.list.size 1))

unfoldable pub insert_before : Ptr → Ptr → ℕ → ListState → Result
insert_before at new value s =
    let h = with_node s.heap new value in
    if at == 0
    then some (0, s)
    else if at == s.list.head
    then prepend new value s
    else if new == 0
    then some (0, s)
    else do
      n ← h at
      h1 ← set_prev h new n.prev
      h2 ← set_next h1 new at
      h3 ← link_next h2 n.prev new
      h4 ← set_prev h3 at new
      some (new, resized s h4 s.list.head s.list.tail (add_size s.list.size 1))

abbrev pub destroy_value : ListState → ℕ → List ℕ
destroy_value s v =
    if s.list.has_destructor && not (v == 0) then s.destroyed ++ v ∷ [] else s.destroyed

-- The end of xsan_list_remove_node, once the neighbours of node `n` at `at` are linked.
abbrev pub unlinked_state : Ptr → ListNode → Heap → ListState → ListState
unlinked_state at n h s =
    let size = sub_size s.list.size 1 in
    let head = if at == s.list.head then n.next else s.list.head in
    let tail = if at == s.list.tail then n.prev else s.list.tail in
    record (resized s (write h at none) (if size == 0 then 0 else head)
      (if size == 0 then 0 else tail) size) { destroyed = destroy_value s n.value }

unfoldable pub remove_node : Ptr → ListState → Option (Status × ListState)
remove_node at s = if at == 0 then some (Status.invalid_param, s) else do
  n ← s.heap at
  h1 ← link_next s.heap n.prev n.next
  h2 ← link_prev h1 n.next n.prev
  some (Status.ok, unlinked_state at n h2 s)

-- The value, or 0 for NULL.
unfoldable pub pop_front : ListState → Option (ℕ × ListState)
pop_front s = if s.list.head == 0 then some (0, s) else do
  n ← s.heap s.list.head
  h ← link_prev s.heap n.next 0
  some (
    n.value,
    resized s (write h s.list.head none) n.next (if n.next == 0 then 0 else s.list.tail)
        (sub_size s.list.size 1),
  )

unfoldable pub pop_back : ListState → Option (ℕ × ListState)
pop_back s = if s.list.tail == 0 then some (0, s) else do
  n ← s.heap s.list.tail
  h ← link_next s.heap n.prev 0
  some (
    n.value,
    resized s (write h s.list.tail none) (if n.prev == 0 then 0 else s.list.head) n.prev
        (sub_size s.list.size 1),
  )

-- The loop of xsan_list_clear from `current` on.
unfoldable pub clear_from : ℕ → Ptr → ListState → Option ListState
clear_from zero current s = none
clear_from (suc fuel) current s = if current == 0 then some s else do
  n ← s.heap current
  clear_from fuel n.next
      (record s { heap = write s.heap current none; destroyed = destroy_value s n.value })

-- Each turn frees a node, so the list's size and one more turn are enough.
unfoldable pub clear : ListState → Option ListState
clear s = do t ← clear_from (suc s.list.size) s.list.head s; some (resized t t.heap 0 0 0)

-- xsan_list_create: `none` is NULL, where the allocation fails.
unfoldable pub list_create : (memory has_destructor : Bool) → Heap → Option ListState
list_create memory has_destructor h = if memory then some (create has_destructor h) else none

-- xsan_list_destroy: the heap and the destroyed values that are left without the list.
unfoldable pub list_destroy : Option ListState → Option (Option (Heap × List ℕ))
unfolding clear
list_destroy none = some none
list_destroy (some s) = do t ← clear s; some (some (t.heap, t.destroyed))
