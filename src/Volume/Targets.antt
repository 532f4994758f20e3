-- ===== src/Volume/Targets.antt =====
-- Which replicas xsan_volume_write_async of src/storage/volume_manager.c writes to, and what it
-- counts before any of them answers.
use xsan.Base.{
  ℕ, zero, suc, ◌+◌, ◌*◌, ◌^◌, ◌≤◌, ◌<◌, ◌≡◌, refl, ap, ◌∙◌, false, List, [], ◌∷◌, length, arith,
  Bool-cases, inl, inr, length-take,
}
use xsan.Status.{Status}
use xsan.Volume.{Volume, Replica, replicas_in_use}
use xsan.Volume.Write.{
  WriteCtx, incremented, count_failure, count_status, ctx_after, volume_after, step, skip_event,
  Target, skipped, attempted, plan, count_skipped, any_attempted, count_failures, WriteStart,
  write_failed, write_started, write_replicas,
}

abbrev pub skips : List Target → ℕ
skips [] = 0
skips (skipped i node ∷ ts) = suc (skips ts)
skips (attempted i node ∷ ts) = skips ts

abbrev pub attempts : List Target → ℕ
attempts [] = 0
attempts (skipped i node ∷ ts) = attempts ts
attempts (attempted i node ∷ ts) = suc (attempts ts)

-- A context whose replicas are those of the volume, before anything was counted.
abbrev pub fresh_ctx : Volume → WriteCtx
fresh_ctx v = record {
  total_replicas_targeted = v.actual_replica_count;
  successful_writes = 0;
  failed_writes = 0;
  final_status = Status.ok;
}

skip-failure :
    (i node : ℕ) (c : WriteCtx)
    → ctx_after (skip_event i node) c ≡ count_failure Status.resource_unavailable c
unfolding ctx_after count_status
skip-failure zero node c = refl
skip-failure (suc i) node c = refl

-- What skipping some replicas does to the counters.
record IsSkipped (ts : List Target) (c d : WriteCtx) : Type 0 where
  pub failed : d.failed_writes ≡ c.failed_writes + skips ts
  pub successful : d.successful_writes ≡ c.successful_writes
  pub total : d.total_replicas_targeted ≡ c.total_replicas_targeted

count_skipped-IsSkipped :
    (ts : List Target) (v : Volume) (c : WriteCtx)
    → c.failed_writes + length ts < 2 ^ 32
    → IsSkipped ts c (count_skipped ts (v, c)).1
unfolding count_skipped step count_failure
count_skipped-IsSkipped [] v c h = record { failed = omega arith; successful = refl; total = refl }
count_skipped-IsSkipped (skipped i node ∷ ts) v c h = more (skip-failure i node c) (
    count_skipped-IsSkipped ts (volume_after (skip_event i node) v)
      (ctx_after (skip_event i node) c))
  where
    more :
        {e d : WriteCtx}
        → e ≡ count_failure Status.resource_unavailable c
        → (e.failed_writes + length ts < 2 ^ 32 → IsSkipped ts e d)
        → IsSkipped (skipped i node ∷ ts) c d
    more same again =
        let r = again (omega (arith, ap (λ x. x.failed_writes) same, h)) in
        record {
          failed = omega (arith, r.failed, ap (λ x. x.failed_writes) same, h);
          successful = r.successful ∙ ap (λ x. x.successful_writes) same;
          total = r.total ∙ ap (λ x. x.total_replicas_targeted) same;
        }
count_skipped-IsSkipped (attempted i node ∷ ts) v c h =
    let r = count_skipped-IsSkipped ts v c (omega (arith, h)) in
    record { failed = r.failed; successful = r.successful; total = r.total }

skips-attempts : (ts : List Target) → skips ts + attempts ts ≡ length ts
skips-attempts [] = omega arith
skips-attempts (skipped i node ∷ ts) = omega (arith, skips-attempts ts)
skips-attempts (attempted i node ∷ ts) = omega (arith, skips-attempts ts)

length-plan : (i : ℕ) (rs : List Replica) → length (plan i rs) ≡ length rs
unfolding plan
length-plan i [] = refl
length-plan i (r ∷ rs) = ap suc (length-plan (suc i) rs)

-- The array holds as many replicas as are in use, at most three.
pub record IsReplicated (v : Volume) : Type 0 where
  pub bounded : v.actual_replica_count ≤ 3
  pub in_range : v.actual_replica_count ≤ length v.replica_nodes

targets-length :
    (v : Volume) → IsReplicated v → length (plan 0 (replicas_in_use v)) ≡ v.actual_replica_count
targets-length v w =
    length-plan 0 (replicas_in_use v)
    ∙ omega (arith, length-take v.actual_replica_count v.replica_nodes, w.in_range)

none_attempted : (ts : List Target) → any_attempted ts ≡ false → attempts ts ≡ 0
unfolding any_attempted
none_attempted [] h = refl
none_attempted (skipped i node ∷ ts) h = none_attempted ts h
none_attempted (attempted i node ∷ ts) h = ground arith

count_failures-failed :
    (n : ℕ) (c : WriteCtx)
    → c.failed_writes + n < 2 ^ 32
    → (count_failures n c).failed_writes ≡ c.failed_writes + n
unfolding count_failures
count_failures-failed zero c h = omega arith
count_failures-failed (suc n) c h = omega (
  arith,
  count_failures-failed n (record c { failed_writes = incremented c.failed_writes }) (omega arith),
)

-- What a start of a write counts.
pub data Accounted (v : Volume) : WriteStart → Type 0 where
  some_attempted :
      (ts : List Target) (u : Volume) (c : WriteCtx)
      → c.failed_writes + attempts ts ≡ v.actual_replica_count
      → c.successful_writes ≡ 0
      → length ts ≡ v.actual_replica_count
      → Accounted v (write_started ts (u, c))
  twice_counted :
      (u : Volume) (c : WriteCtx)
      → c.failed_writes ≡ 2 * v.actual_replica_count
      → Accounted v (write_failed Status.replication_unavailable (u, c))

-- For a volume with at most three replicas in use: either the write is started, each replica is
-- attempted or counted as failed, and none as successful; or no replica is attempted, the write fails
-- with REPLICATION_UNAVAILABLE, and every replica is counted as failed twice.
pub write_replicas_lem :
    (v : Volume) → IsReplicated v → Accounted v (write_replicas v (fresh_ctx v))
unfolding write_replicas
write_replicas_lem v w = elim (Bool-cases (any_attempted ts)) [
  | inl some_yes ↦ simp some_yes (
      some_attempted ts (count_skipped ts (v, fresh_ctx v)).0 after
        (omega (arith, counted.failed, skips-attempts ts, targets-length v w)) counted.successful
        (targets-length v w))
  | inr none_yes ↦ simp none_yes (
      twice_counted (count_skipped ts (v, fresh_ctx v)).0
        (count_failures after.total_replicas_targeted
          (record after { final_status = Status.replication_unavailable }))
        (omega (
          arith,
          counted.failed,
          again,
          counted.total,
          skips-attempts ts,
          targets-length v w,
          none_attempted ts none_yes,
        )))
]
  where
    ts : List Target
    ts = plan 0 (replicas_in_use v)

    after : WriteCtx
    after = (count_skipped ts (v, fresh_ctx v)).1

    counted : IsSkipped ts (fresh_ctx v) after
    counted =
        count_skipped-IsSkipped ts v (fresh_ctx v) (omega (arith, targets-length v w, w.bounded))

    again :
        (count_failures after.total_replicas_targeted
          (record after { final_status = Status.replication_unavailable })).failed_writes
        ≡ after.failed_writes + after.total_replicas_targeted
    again =
        count_failures-failed after.total_replicas_targeted
          (record after { final_status = Status.replication_unavailable })
          (omega (
            arith,
            counted.failed,
            counted.total,
            skips-attempts ts,
            targets-length v w,
            w.bounded,
          ))
