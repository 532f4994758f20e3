-- ===== src/RingBuffer/Fifo.antt =====
-- The contract of a ring buffer: a queue of at most `limit` values, oldest first, whose clear
-- destroys the values that are not NULL in order if there is a destructor.
use xsan.Base.{ℕ, Bool, List, [], ◌∷◌, ◌++◌, none, some, length, if◌then◌else◌, ◌==◌}
use xsan.Status.{Status}
use xsan.RingBuffer.{
  Op, op_push, op_pop, op_peek, op_size, op_empty, op_full, op_clear, Reply, replied, counted,
  truth, destroyed,
}

unfoldable pub drop_null : List ℕ → List ℕ
drop_null [] = []
drop_null (v ∷ q) = let rest = drop_null q in if v == 0 then rest else v ∷ rest

module _ (limit : ℕ) (has_destructor : Bool) where
  unfoldable pub spec_call : Op → List ℕ → Reply × List ℕ
  spec_call (op_push v) q =
      if length q == limit
      then (replied Status.insufficient_space none, q)
      else (replied Status.ok none, q ++ (v ∷ []))
  spec_call op_pop [] = (replied Status.not_found none, [])
  spec_call op_pop (v ∷ q) = (replied Status.ok (some v), q)
  spec_call op_peek [] = (replied Status.not_found none, [])
  spec_call op_peek (v ∷ q) = (replied Status.ok (some v), v ∷ q)
  spec_call op_size q = (counted (length q), q)
  spec_call op_empty q = (truth (length q == 0), q)
  spec_call op_full q = (truth (length q == limit), q)
  spec_call op_clear q = (destroyed (if has_destructor then drop_null q else []), [])

  unfoldable pub spec_run : List Op → List ℕ → List Reply
  spec_run [] q = []
  spec_run (o ∷ os) q = let (r, q') = spec_call o q in r ∷ spec_run os q'
