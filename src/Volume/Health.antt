-- ===== src/Volume/Health.antt =====
-- What the state of a volume says of its replicas: _xsan_volume_update_overall_state of
-- src/storage/volume_manager.c.
use xsan.Base.{ℕ, zero, suc, ◌≤◌, ◌<◌, ◌≡◌, ◌≢◌, List, [], ◌∷◌, take, set, arith}
use xsan.Volume.{
  Volume, Replica, online, offline, replicas_in_use, count_online, required_online, overall_state,
  update_overall_state,
}

-- Changing one replica takes at most one from the count.
count_online-set :
    (n i : ℕ) (rs : List Replica) (r : Replica)
    → count_online (take n rs) ≤ suc (count_online (take n (set rs i r)))
unfolding count_online
count_online-set zero i rs r = omega arith
count_online-set (suc n) i [] r = omega arith
count_online-set (suc n) zero (x ∷ rs) r = ground arith
count_online-set (suc n) (suc i) (x ∷ rs) r = let again = count_online-set n i rs r in ground arith

overall_online : (n r : ℕ) → overall_state n r ≡ online → r ≤ n
unfolding overall_state
overall_online n r e = ground arith

overall_some : (n r : ℕ) → 0 < n → overall_state n r ≢ offline
unfolding overall_state
overall_some n r pos e = ground arith

two_required : (v : Volume) → 1 ≤ v.ftt → v.ftt < v.actual_replica_count → 2 ≤ required_online v
unfolding required_online
two_required v tolerant replicated = ground arith

-- A volume that tolerates a failure and that is online does not go offline when the state of any one
-- of its replicas changes: it is online or degraded after the next update.
pub one_failure :
    (v : Volume) (i : ℕ) (r : Replica)
    → 1 ≤ v.ftt
    → v.ftt < v.actual_replica_count
    → (update_overall_state v).state ≡ online
    → (update_overall_state (record v { replica_nodes = set v.replica_nodes i r })).state ≢ offline
unfolding update_overall_state
one_failure v i r tolerant replicated up =
    overall_some
      (count_online (replicas_in_use (record v { replica_nodes = set v.replica_nodes i r })))
      (required_online v)
      (omega (arith, enough, required, count_online-set v.actual_replica_count i v.replica_nodes r))
  where
    enough : required_online v ≤ count_online (replicas_in_use v)
    enough = overall_online _ _ up

    required : 2 ≤ required_online v
    required = two_required v tolerant replicated
