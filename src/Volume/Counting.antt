-- ===== src/Volume/Counting.antt =====
-- What the counters of a replicated write say: src/storage/volume_manager.c.
use xsan.Base.{
  ℕ, suc, ◌+◌, ◌^◌, ◌<◌, ◌≡◌, refl, ap, ◌∙◌, true, false, List, [], ◌∷◌, if◌then◌else◌, length,
  arith, map, Bool-cases, inl, inr, ◌⊎◌,
}
use xsan.Status.{Status, is_ok, is_ok-ok}
use xsan.Volume.{Volume}
use xsan.Volume.Write.{
  WriteCtx, count_status, WriteEvent, volume_after, ctx_after, step, run, count_failure,
  local_written, sent, not_connected, not_sent, answered,
}

-- What a callback says of its replica: nothing yet, success, or failure with a status.
pub data Result : Type 0 where
  pending won : Result
  lost : Status → Result

abbrev pub result_of : WriteEvent → Result
result_of (local_written s) = if is_ok s then won else lost s
result_of (sent n) = pending
result_of (not_connected n s) = lost s
result_of (not_sent n s) = lost s
result_of (answered n s) = if is_ok s then won else lost s

abbrev pub successes : List Result → ℕ
successes [] = 0
successes (pending ∷ rs) = successes rs
successes (won ∷ rs) = suc (successes rs)
successes (lost s ∷ rs) = successes rs

abbrev pub failures : List Result → ℕ
failures [] = 0
failures (pending ∷ rs) = failures rs
failures (won ∷ rs) = failures rs
failures (lost s ∷ rs) = suc (failures rs)

abbrev pub first_error : List Result → Status
first_error [] = Status.ok
first_error (pending ∷ rs) = first_error rs
first_error (won ∷ rs) = first_error rs
first_error (lost s ∷ rs) = if is_ok s then first_error rs else s

-- The counters after some results.
abbrev pub tallied : WriteCtx → List Result → WriteCtx
tallied c rs = record c {
  successful_writes = c.successful_writes + successes rs;
  failed_writes = c.failed_writes + failures rs;
  final_status = if is_ok c.final_status then first_error rs else c.final_status;
}

-- The counters stay below 2 ^ 32 for as many callbacks.
pub record IsSmall (c : WriteCtx) (n : ℕ) : Type 0 where
  pub successes : c.successful_writes + n < 2 ^ 32
  pub failures : c.failed_writes + n < 2 ^ 32

-- One result, counted.
abbrev plus : WriteCtx → Result → WriteCtx
plus c pending = c
plus c won = record c { successful_writes = c.successful_writes + 1 }
plus c (lost s) = record c {
  failed_writes = c.failed_writes + 1;
  final_status = if is_ok c.final_status then s else c.final_status;
}

with_fields :
    (c : WriteCtx) {a b x y : ℕ} {s t : Status}
    → a ≡ b
    → x ≡ y
    → s ≡ t
    → Path WriteCtx
        (record c { successful_writes = a; failed_writes = x; final_status = s })
        (record c { successful_writes = b; failed_writes = y; final_status = t })
with_fields c p q r =
    λ i. record c { successful_writes = p i; failed_writes = q i; final_status = r i }

failure-plus :
    (s : Status) (c : WriteCtx) {n : ℕ} → IsSmall c (suc n) → count_failure s c ≡ plus c (lost s)
unfolding count_failure
failure-plus s c small = with_fields c refl (omega (arith, small.failures)) refl

status-plus :
    (s : Status) (c : WriteCtx) {n : ℕ}
    → IsSmall c (suc n)
    → count_status s c ≡ plus c (if is_ok s then won else lost s)
unfolding count_status
status-plus s c small = elim (Bool-cases (is_ok s)) [
  | inl good ↦ simp good (with_fields c (omega (arith, small.successes)) refl refl)
  | inr bad ↦ simp bad (failure-plus s c small)
]

after-plus :
    (e : WriteEvent) (c : WriteCtx) {n : ℕ}
    → IsSmall c (suc n)
    → ctx_after e c ≡ plus c (result_of e)
unfolding ctx_after
after-plus (local_written s) c small = status-plus s c small
after-plus (sent n) c small = refl
after-plus (not_connected n s) c small = failure-plus s c small
after-plus (not_sent n s) c small = failure-plus s c small
after-plus (answered n s) c small = status-plus s c small

plus-IsSmall : (r : Result) (c : WriteCtx) (n : ℕ) → IsSmall c (suc n) → IsSmall (plus c r) n
plus-IsSmall pending c n small = omega (arith, small.successes, small.failures)
plus-IsSmall won c n small = omega (arith, small.successes, small.failures)
plus-IsSmall (lost s) c n small = omega (arith, small.successes, small.failures)

plus-tallied :
    (r : Result) (c : WriteCtx) (rs : List Result) → tallied (plus c r) rs ≡ tallied c (r ∷ rs)
plus-tallied pending c rs = refl
plus-tallied won c rs = with_fields c (omega arith) refl refl
plus-tallied (lost s) c rs =
    with_fields c refl (omega arith) (kept (Bool-cases (is_ok c.final_status)))
  where
    kept :
        (is_ok c.final_status ≡ true) ⊎ (is_ok c.final_status ≡ false)
        → (if is_ok (if is_ok c.final_status then s else c.final_status)
            then first_error rs
            else (if is_ok c.final_status then s else c.final_status))
          ≡ (if is_ok c.final_status
              then (if is_ok s then first_error rs else s)
              else c.final_status)
    kept (inl good) = simp good
    kept (inr bad) = simp bad

-- Whatever the replicas answer to a write, in any order, the counters count the successes and the
-- failures, as long as they stay below 2 ^ 32, and the final status stays as it was if it is an error
-- and is the first error among the results otherwise.
pub run-tallied :
    (es : List WriteEvent) (v : Volume) (c : WriteCtx)
    → IsSmall c (length es)
    → (run es (v, c)).1 ≡ tallied c (map result_of es)
unfolding run step
run-tallied [] v c small =
    with_fields c (omega arith) (omega arith) (none_lost (Bool-cases (is_ok c.final_status)))
  where
    none_lost :
        (is_ok c.final_status ≡ true) ⊎ (is_ok c.final_status ≡ false)
        → c.final_status ≡ (if is_ok c.final_status then Status.ok else c.final_status)
    none_lost (inl good) = simp good (is_ok-ok c.final_status good)
    none_lost (inr bad) = simp bad
run-tallied (e ∷ es) v c small =
    ap (λ c'. (run es (volume_after e v, c')).1) (after-plus e c small)
    ∙ (run-tallied es (volume_after e v) (plus c (result_of e))
          (plus-IsSmall (result_of e) c (length es) small)
        ∙ plus-tallied (result_of e) c (map result_of es))
