-- ===== src/LinkedList/Clear.antt =====
-- xsan_list_clear on a state that stands for a sequence.
use xsan.Base.{
  ℕ, zero, suc, ◌<◌, Bool, true, false, Bool-cases, ==_iff, inl, inr, none, some, List, [], ◌∷◌,
  ◌++◌, ◌==◌, if◌then◌else◌, not, ◌&&◌, arith, ◌≡◌, refl, ap, ◌∙◌, length,
}
use xsan.LinkedList.{Ptr, Heap, ListState, write, resized, destroy_value, clear_from, clear}
use xsan.LinkedList.Seg.{
  Cells, has, distinct, first, Seg, distinct_parts, Seg-write, write_same, write_other,
}
use xsan.LinkedList.Rep.{IsRep}

-- What the destructor has been called with after the nodes of a sequence.
unfoldable pub destroyed_after : Bool → List ℕ → Cells → List ℕ
destroyed_after destructor gone [] = gone
destroyed_after destructor gone ((p, v) ∷ cells) =
    destroyed_after destructor (if destructor && not (v == 0) then gone ++ v ∷ [] else gone) cells

-- A heap without the nodes of a sequence.
unfoldable pub freed : Cells → Heap → Heap
freed [] h = h
freed ((p, v) ∷ cells) h = freed cells (write h p none)

freed_other : (cells : Cells) (h : Heap) (p : Ptr) → has p cells ≡ false → freed cells h p ≡ h p
unfolding freed
freed_other [] h p out = refl
freed_other ((q, v) ∷ cells) h p out =
    freed_other cells (write h q none) p (ground arith) ∙ write_other h q p none (ground arith)

freed_gone :
    (cells : Cells) (h : Heap) (p : Ptr)
    → distinct cells ≡ true
    → has p cells ≡ true
    → freed cells h p ≡ none
unfolding freed
freed_gone [] h p d i = absurd (ground arith)
freed_gone ((q, v) ∷ cells) h p d i =
    let (_, out, tail) = distinct_parts q v cells d in
    elim (Bool-cases (p == q)) [
      | inl e ↦
          let same : p ≡ q = (==_iff p q).0 e in
          freed_other cells (write h q none) p (ap (λ r. has r cells) same ∙ out)
          ∙ ap (write h q none) same
          ∙ write_same h q none
      | inr e ↦ freed_gone cells (write h q none) p tail (ground arith)
    ]

clear_from_lem :
    (fuel : ℕ) (b : Ptr) (cells : Cells) (s : ListState)
    → length cells < fuel
    → Seg s.heap b cells 0
    → distinct cells ≡ true
    → clear_from fuel (first cells 0) s
      ≡ some (record s {
        heap = freed cells s.heap;
        destroyed = destroyed_after s.list.has_destructor s.destroyed cells;
      })
unfolding clear_from destroyed_after freed
clear_from_lem zero b cells s l t d = absurd (omega arith)
clear_from_lem (suc fuel) b [] s l t d = refl
clear_from_lem (suc fuel) b ((p, v) ∷ cells) s l t d =
    let (nonnull, out, tail) = distinct_parts p v cells d in
    rw (nonnull, t.0)
      (clear_from_lem fuel p cells
        (record s { heap = write s.heap p none; destroyed = destroy_value s v }) (omega arith)
        (Seg-write s.heap p cells 0 p none t.1 out) tail)

-- xsan_list_clear ends on every list that a state stands for, without following a pointer to no
-- node: it leaves the empty list, frees each of the list's nodes and no other address, and has called
-- the destructor, if there is one, on the values that are not NULL from the first to the last.
pub list_clear_lem :
    (s : ListState) (cells : Cells)
    → IsRep s cells
    → (t : ListState) × (clear s ≡ some t)
      × IsRep t []
      × ((p : Ptr) → has p cells ≡ true → t.heap p ≡ none)
      × ((p : Ptr) → has p cells ≡ false → t.heap p ≡ s.heap p)
      × (t.destroyed ≡ destroyed_after s.list.has_destructor s.destroyed cells)
      × (t.list.has_destructor ≡ s.list.has_destructor)
unfolding clear
list_clear_lem s cells r =
    let ran =
      ap (λ p. clear_from (suc s.list.size) p s) r.head_eq
      ∙ clear_from_lem (suc s.list.size) 0 cells s (omega (arith, r.size_eq)) r.seg r.addresses in
    (
      record (resized s (freed cells s.heap) 0 0 0) {
        destroyed = destroyed_after s.list.has_destructor s.destroyed cells;
      },
      rw ran refl,
      record {
        seg = tt;
        addresses = refl;
        head_eq = refl;
        tail_eq = refl;
        size_eq = refl;
        fits = omega arith;
      },
      λ p i. freed_gone cells s.heap p r.addresses i,
      freed_other cells s.heap,
      refl,
      refl,
    )
