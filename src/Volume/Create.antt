-- ===== src/Volume/Create.antt =====
-- The choice of a new volume's replicas in xsan_volume_create of src/storage/volume_manager.c. The
-- nodes that the cluster knows are an argument: none where xsan_cluster_get_all_known_nodes fails.
use xsan.Base.{
  ℕ, suc, ◌+◌, ◌-◌, ◌≤◌, ◌<◌, ◌≡◌, refl, true, false, Option, none, some, List, [], ◌∷◌, ltb, ◌==◌,
  if◌then◌else◌, not, length, min, arith, Bool-cases, inl, inr, ◌⊎◌, lt→ltb, ltb→lt,
}
use xsan.Volume.{Replica, initializing, max_replicas}

-- What the code uses of `xsan_node_t`.
pub record Node : Type 0 where
  pub id : ℕ
  pub ip : ℕ
  pub port : ℕ

abbrev pub remote_replica : Node → Replica
remote_replica k = record {
  node_id = k.id;
  node_ip_addr = k.ip;
  node_comm_port = k.port;
  state = initializing;
}

module _ (local_node ftt : ℕ) where
  -- The loop over the known nodes.
  unfoldable pub assign : (remote_assigned : ℕ) → List Node → List Replica
  assign n [] = []
  assign n (k ∷ ks) =
      let next = assign n ks in
      let taken = remote_replica k ∷ assign (suc n) ks in
      if not (ltb n ftt)
      then []
      else if k.id == local_node
      then next
      else if ltb (n + 1) max_replicas
      then taken
      else next

-- The failures to tolerate and the number of replicas that the volume gets, and its remote replicas.
pub record Chosen : Type 0 where
  pub ftt : ℕ
  pub actual_replica_count : ℕ
  pub remotes : List Replica

abbrev pub adjusted : ℕ → List Replica → Chosen
adjusted ftt rs =
    if ltb (length rs) ftt
    then record { ftt = length rs; actual_replica_count = length rs + 1; remotes = rs }
    else record { ftt = ftt; actual_replica_count = ftt + 1; remotes = rs }

unfoldable pub choose_replicas : (local_node ftt : ℕ) → (known : Option (List Node)) → Chosen
unfolding assign
choose_replicas l f known =
    if not (ltb 1 (f + 1))
    then record { ftt = f; actual_replica_count = f + 1; remotes = [] }
    else elim known [
      | none ↦ record { ftt = 0; actual_replica_count = 1; remotes = [] }
      | some ks ↦ adjusted f (assign l f 0 ks)
    ]

-- The nodes that may hold a remote replica.
abbrev pub others : ℕ → List Node → ℕ
others l [] = 0
others l (k ∷ ks) = if k.id == l then others l ks else suc (others l ks)

-- Replicas that wait for their first write on other nodes.
pub data AllRemote (local_node : ℕ) : List Replica → Type 0 where
  no_remote : AllRemote local_node []
  and_remote :
      {r : Replica} {rs : List Replica}
      → (r.node_id == local_node) ≡ false
      → r.state ≡ initializing
      → AllRemote local_node rs
      → AllRemote local_node (r ∷ rs)

length-assign :
    (l f n : ℕ) (ks : List Node)
    → f < max_replicas
    → n ≤ f
    → length (assign l f n ks) ≡ min (f - n) (others l ks)
unfolding assign
length-assign l f n [] small h = omega arith
length-assign l f n (k ∷ ks) small h =
    step (Bool-cases (ltb n f)) (Bool-cases (k.id == l)) (length-assign l f n ks small h)
      (length-assign l f (suc n) ks small)
  where
    step :
        (ltb n f ≡ true) ⊎ (ltb n f ≡ false)
        → (k.id == l ≡ true) ⊎ (k.id == l ≡ false)
        → length (assign l f n ks) ≡ min (f - n) (others l ks)
        → (suc n ≤ f → length (assign l f (suc n) ks) ≡ min (f - suc n) (others l ks))
        → length (assign l f n (k ∷ ks)) ≡ min (f - n) (others l (k ∷ ks))
    step (inl more) (inl here) same next = simp (more, here) same
    step (inl more) (inr away) same next =
        simp (more, away, lt→ltb (n + 1) max_replicas (omega (arith, small, ltb→lt n f more)))
          (omega (arith, next (omega (arith, ltb→lt n f more)), ltb→lt n f more))
    step (inr full) c same next = simp full (omega (arith, past))
      where
        past : f ≤ n
        past = ground arith

assign-AllRemote : (l f n : ℕ) (ks : List Node) → AllRemote l (assign l f n ks)
unfolding assign
assign-AllRemote l f n [] = no_remote
assign-AllRemote l f n (k ∷ ks) =
    step (Bool-cases (ltb n f)) (Bool-cases (k.id == l)) (Bool-cases (ltb (n + 1) max_replicas))
      (assign-AllRemote l f n ks) (assign-AllRemote l f (suc n) ks)
  where
    step :
        (ltb n f ≡ true) ⊎ (ltb n f ≡ false)
        → (k.id == l ≡ true) ⊎ (k.id == l ≡ false)
        → (ltb (n + 1) max_replicas ≡ true) ⊎ (ltb (n + 1) max_replicas ≡ false)
        → AllRemote l (assign l f n ks)
        → AllRemote l (assign l f (suc n) ks)
        → AllRemote l (assign l f n (k ∷ ks))
    step (inl more) (inl here) c same next = simp (more, here) same
    step (inl more) (inr away) (inl room) same next =
        simp (more, away, room) (and_remote away refl next)
    step (inl more) (inr away) (inr none_left) same next = simp (more, away, none_left) same
    step (inr full) c d same next = simp full no_remote

-- What a volume gets when the cluster knows some nodes.
pub record IsChosen (l f : ℕ) (ks : List Node) (c : Chosen) : Type 0 where
  pub tolerated : c.ftt ≡ min f (others l ks)
  pub replicas : c.actual_replica_count ≡ c.ftt + 1
  pub counted : length c.remotes ≡ c.ftt
  pub remote : AllRemote l c.remotes

adjusted-IsChosen :
    (l f : ℕ) (ks : List Node) (rs : List Replica)
    → length rs ≡ min f (others l ks)
    → AllRemote l rs
    → IsChosen l f ks (adjusted f rs)
adjusted-IsChosen l f ks rs n remote = elim (Bool-cases (ltb (length rs) f)) [
  | inl fewer ↦
      simp fewer (record { tolerated = n; replicas = refl; counted = refl; remote = remote })
  | inr enough ↦ simp enough (record {
    tolerated = omega (arith, n, full enough);
    replicas = refl;
    counted = omega (arith, n, full enough);
    remote = remote;
  })
]
  where
    full : ltb (length rs) f ≡ false → f ≤ length rs
    full e = ground arith

-- A new volume that is to tolerate one failure or two tolerates as many as the cluster knows other
-- nodes for, and no more than asked; it has one replica more than that, and as many remote ones, each
-- on another node than the local one and in the state INITIALIZING.
pub choose_replicas-IsChosen :
    (l f : ℕ) (ks : List Node)
    → 0 < f
    → f < max_replicas
    → IsChosen l f ks (choose_replicas l f (some ks))
unfolding choose_replicas
choose_replicas-IsChosen l f ks pos small = simp (lt→ltb 1 (f + 1) (omega (arith, pos))) (
    adjusted-IsChosen l f ks (assign l f 0 ks)
      (omega (arith, length-assign l f 0 ks small (omega arith))) (assign-AllRemote l f 0 ks))
