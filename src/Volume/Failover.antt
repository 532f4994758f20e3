-- ===== src/Volume/Failover.antt =====
-- How a read that goes from replica to replica ends: src/storage/volume_manager.c.
use xsan.Base.{ℕ, zero, suc, ◌≡◌, true, false, Option, none, some, List, [], ◌∷◌, if◌then◌else◌}
use xsan.Status.{Status, is_ok}
use xsan.Volume.Read.{World, Coordinator, Start, begun, refused, start_attempt, finish_read}

-- What a replica contributes, `later` being what the next ones do: a refusal leaves it to them, and so
-- does an attempt that completes with a failure; without a completion there is no result.
abbrev tried : (later : Status → List Status → Option Status) → Start → List Status → Option Status
tried later (refused s b) ss = later s ss
tried later begun [] = none
tried later begun (s ∷ ss) = if is_ok s then some Status.ok else later s ss

-- The status that the attempts on some replicas in a row come to, with the statuses of those that
-- complete: success with the first success, or else the last failure.
abbrev pub result : World → (left i : ℕ) → (last : Status) → List Status → Option Status
result w zero i last ss = some last
result w (suc left) i last ss = tried (λ s. result w left (suc i) s) (start_attempt w i) ss

-- The user's callback has been called once, with the result, and the coordinator is gone; or it has
-- not been called, and one attempt is on its way.
abbrev pub Comes : Option Status → Coordinator → Type 0
Comes none c = (c.callbacks ≡ []) × (c.in_flight ≡ 1) × (c.freed ≡ false) × (c.used_freed ≡ false)
Comes (some s) c =
    (c.callbacks ≡ s ∷ []) × (c.in_flight ≡ 0) × (c.freed ≡ true) × (c.used_freed ≡ false)

-- Before an attempt.
abbrev at : ℕ → Status → Coordinator
at i s = record {
  current_replica_idx_to_try = i;
  last_attempt_status = s;
  freed = false;
  used_freed = false;
  in_flight = 0;
  callbacks = [];
}

-- The coordinator that was freed in the callback, and moved on once more.
abbrev misused : Status → Coordinator
misused s = record (finish_read s (at 2 s)) { used_freed = true }
