-- ===== src/RingBuffer/Tests.antt =====
-- Runs of the ring buffer of src/common/ring_buffer.c on concrete inputs.
use xsan.Base.{◌≡◌, refl, true, List, [], ◌∷◌, none, some, arith}
use xsan.Status.{Status}
use xsan.RingBuffer.{
  RingBuffer, run, destroy, clear, Op, op_push, op_pop, op_peek, op_size, op_full, op_clear,
  replied, counted, truth, destroyed,
}
use xsan.RingBuffer.Inv.{IsValid}
use xsan.RingBuffer.Refine.{contents, run_refines}
use xsan.RingBuffer.Fifo.{spec_run}

-- 8, 0, 9 from slot 2 on, round the end of the storage
abbrev wrapped : RingBuffer
wrapped = record {
  buffer = 0 ∷ 9 ∷ 8 ∷ [];
  capacity = 3;
  count = 3;
  head = 2;
  tail = 2;
  value_destroy_func = true;
}

wrapped-IsValid : IsValid wrapped
wrapped-IsValid = ground arith

abbrev script : List Op
script = op_push 7 ∷ op_pop ∷ op_push 7 ∷ op_peek ∷ op_size ∷ op_full ∷ op_clear ∷ op_pop ∷ []

run-wrapped :
    run script (some wrapped)
    ≡ replied Status.insufficient_space none
      ∷ replied Status.ok (some 8)
      ∷ replied Status.ok none
      ∷ replied Status.ok (some 0)
      ∷ counted 3
      ∷ truth true
      ∷ destroyed (9 ∷ 7 ∷ [])
      ∷ replied Status.not_found none
      ∷ []
unfolding run
run-wrapped = refl

destroy-wrapped : destroy (some wrapped) ≡ 8 ∷ 9 ∷ []
unfolding destroy clear
destroy-wrapped = refl

run_refines_example : run script (some wrapped) ≡ spec_run 3 true script (contents wrapped)
run_refines_example = run_refines script wrapped wrapped-IsValid
