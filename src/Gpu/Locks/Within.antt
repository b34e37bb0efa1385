-- ===== src/Gpu/Locks/Within.antt =====
-- No GPU is promised beyond its capacity, whatever the machines of a cluster lock, read and unlock, and
-- in whatever order.
use cluster_api_provider_elf.Base.{
  ℕ, ◌+◌, ◌≤◌, ◌<◌, String, subst, inl, inr, List, [], ◌∷◌, Option, none, some, arith, str_eq,
  eq_iff, Bool-cases, Option-cases, All, ltb, ◌==◌, length,
}
use cluster_api_provider_elf.Base.Dict.{lookup, insert, delete, lookup-insert, lookup-delete}
use cluster_api_provider_elf.Gpu.{GpuDeviceInfo, GpuVmInfos}
use cluster_api_provider_elf.Gpu.Locks.{
  LockedVmGpus, LockedClusterGpuMap, LockedGpuMap, gpu_lock_timeout, drop_expired,
  get_locked_cluster_gpus, get_locked_count_map, available_counts, has_room, locked_devices,
  lock_gpu_devices_for_vm, filter_gpu_vm_infos_by_lock_gpu_devices, get_gpu_devices_locked_by_vm,
  unlock_gpu_devices_locked_by_vm,
}
use cluster_api_provider_elf.Gpu.Locks.Counts.{claimed, held, AreCounts, AreLocks}
use cluster_api_provider_elf.Gpu.Locks.Room.{DistinctIds, IsOffer, has_room_sound}

held-drop_expired :
    (now : ℕ) (k : String) (es : LockedClusterGpuMap) → held k (drop_expired now es) ≤ held k es
unfolding drop_expired
held-drop_expired now k [] = omega arith
held-drop_expired now k ((vm, g) ∷ es) = ground (arith, held-drop_expired now k es)

drop_expired-AreLocks :
    (now : ℕ) (es : LockedClusterGpuMap) → AreLocks es → AreLocks (drop_expired now es)
unfolding drop_expired
drop_expired-AreLocks now [] h = tt
drop_expired-AreLocks now ((vm, g) ∷ es) h =
    elim (Bool-cases (ltb now (g.locked_at + gpu_lock_timeout))) [
      | inl e ↦ rw e (h.0, drop_expired-AreLocks now es h.1)
      | inr e ↦ rw e (drop_expired-AreLocks now es h.1)
    ]

held-insert :
    (k vm : String) (g : LockedVmGpus) (es : LockedClusterGpuMap)
    → held k (insert vm g es) ≤ claimed k g.gpu_devices + held k es
unfolding insert
held-insert k vm g [] = omega arith
held-insert k vm g ((j, w) ∷ es) = ground (arith, held-insert k vm g es)

insert-AreLocks :
    (vm : String) (g : LockedVmGpus) (es : LockedClusterGpuMap)
    → AreCounts g.gpu_devices
    → AreLocks es
    → AreLocks (insert vm g es)
unfolding insert
insert-AreLocks vm g [] c h = (c, tt)
insert-AreLocks vm g ((j, w) ∷ es) c h = elim (Bool-cases (str_eq j vm)) [
  | inl e ↦ rw e (c, h.1)
  | inr e ↦ rw e (h.0, insert-AreLocks vm g es c h.1)
]

held-delete : (k vm : String) (es : LockedClusterGpuMap) → held k (delete vm es) ≤ held k es
unfolding delete
held-delete k vm [] = omega arith
held-delete k vm ((j, w) ∷ es) = ground (arith, held-delete k vm es)

delete-AreLocks : (vm : String) (es : LockedClusterGpuMap) → AreLocks es → AreLocks (delete vm es)
unfolding delete
delete-AreLocks vm [] h = tt
delete-AreLocks vm ((j, w) ∷ es) h = elim (Bool-cases (str_eq j vm)) [
  | inl e ↦ rw e (delete-AreLocks vm es h.1)
  | inr e ↦ rw e (h.0, delete-AreLocks vm es h.1)
]

locked_devices-AreCounts :
    (cap : String → ℕ) (ds : List GpuDeviceInfo)
    → All (IsOffer cap) ds
    → AreCounts (locked_devices ds)
unfolding locked_devices
locked_devices-AreCounts cap [] o = tt
locked_devices-AreCounts cap (d ∷ ds) o = (o.0.asked, locked_devices-AreCounts cap ds o.1)

-- The locks of one cluster fit, and are counts.
pub record Fits (cap : String → ℕ) (es : LockedClusterGpuMap) : Type 0 where
  pub within : (k : String) → held k es ≤ cap k
  pub counts : AreLocks es

abbrev pub entries : Option LockedClusterGpuMap → LockedClusterGpuMap
entries none = []
entries (some es) = es

-- The locks of every cluster fit.
abbrev pub IsWithin : (String → String → ℕ) → LockedGpuMap → Type 0
IsWithin cap locks = (cluster : String) → Fits (cap cluster) (entries (lookup cluster locks))

insert-IsWithin :
    (cap : String → String → ℕ) (cluster : String) (es : LockedClusterGpuMap) (locks : LockedGpuMap)
    → Fits (cap cluster) es
    → IsWithin cap locks
    → IsWithin cap (insert cluster es locks)
insert-IsWithin cap cluster es locks f w c = elim (Bool-cases (str_eq cluster c)) [
  | inl e ↦
      rw (lookup-insert cluster c es locks, e)
        (subst (λ x. Fits (cap x) es) ((eq_iff cluster c).0 e) f)
  | inr e ↦ rw (lookup-insert cluster c es locks, e) (w c)
]

delete-IsWithin :
    (cap : String → String → ℕ) (cluster : String) (locks : LockedGpuMap)
    → IsWithin cap locks
    → IsWithin cap (delete cluster locks)
delete-IsWithin cap cluster locks w c = elim (Bool-cases (str_eq cluster c)) [
  | inl e ↦
      rw (lookup-delete cluster c locks, e) (record { within = λ k. omega arith; counts = tt })
  | inr e ↦ rw (lookup-delete cluster c locks, e) (w c)
]

drop_expired-Fits :
    (cap : String → ℕ) (now : ℕ) (es : LockedClusterGpuMap)
    → Fits cap es
    → Fits cap (drop_expired now es)
drop_expired-Fits cap now es f = record {
  within = λ k. omega (arith, held-drop_expired now k es, f.within k);
  counts = drop_expired-AreLocks now es f.counts;
}

get_locked_cluster_gpus_wf :
    (cap : String → String → ℕ) (now : ℕ) (cluster : String) (locks : LockedGpuMap)
    → IsWithin cap locks
    → Fits (cap cluster) (get_locked_cluster_gpus now cluster locks).0
      × IsWithin cap (get_locked_cluster_gpus now cluster locks).1
unfolding get_locked_cluster_gpus
get_locked_cluster_gpus_wf cap now cluster locks w = elim (Option-cases (lookup cluster locks)) [
  | inl e ↦ rw (e, get_locked_cluster_gpus) (record { within = λ k. omega arith; counts = tt }, w)
  | inr (es, e) ↦
      let f : Fits (cap cluster) (drop_expired now es) =
        drop_expired-Fits (cap cluster) now es
          (subst (λ o. Fits (cap cluster) (entries o)) e (w cluster)) in
      rw (e, get_locked_cluster_gpus) (f, insert-IsWithin cap cluster _ locks f w)
]

lock_gpu_devices_for_vm-IsWithin :
    (cap : String → String → ℕ) (now : ℕ) (cluster vm host : String) (ds : List GpuDeviceInfo)
    (locks : LockedGpuMap)
    → ((k : String) → cap cluster k < 2147483648)
    → DistinctIds ds
    → All (IsOffer (cap cluster)) ds
    → IsWithin cap locks
    → IsWithin cap (lock_gpu_devices_for_vm now cluster vm host ds locks).1
unfolding lock_gpu_devices_for_vm
lock_gpu_devices_for_vm-IsWithin cap now cluster vm host ds locks small u o w =
    let (f, w') = get_locked_cluster_gpus_wf cap now cluster locks w in
    let es : LockedClusterGpuMap = (get_locked_cluster_gpus now cluster locks).0 in
    let lock : LockedVmGpus = record {
      host_id = host;
      gpu_devices = locked_devices ds;
      locked_at = now;
    } in
    elim (Bool-cases (has_room (get_locked_count_map es) (available_counts ds []))) [
      | inl e ↦ rw e (
          insert-IsWithin cap cluster (insert vm lock es) _
            (record {
              within = λ k. omega (
                arith,
                held-insert k vm lock es,
                has_room_sound (cap cluster) k ds es u o f.counts (f.within k) (small k) e,
              );
              counts =
                  insert-AreLocks vm lock es (locked_devices-AreCounts (cap cluster) ds o) f.counts;
            })
            w')
      | inr e ↦ rw e w'
    ]

unlock_gpu_devices_locked_by_vm-IsWithin :
    (cap : String → String → ℕ) (now : ℕ) (cluster vm : String) (locks : LockedGpuMap)
    → IsWithin cap locks
    → IsWithin cap (unlock_gpu_devices_locked_by_vm now cluster vm locks)
unfolding unlock_gpu_devices_locked_by_vm
unlock_gpu_devices_locked_by_vm-IsWithin cap now cluster vm locks w =
    let (f, w') = get_locked_cluster_gpus_wf cap now cluster locks w in
    let es : LockedClusterGpuMap = (get_locked_cluster_gpus now cluster locks).0 in
    elim (Bool-cases (length (delete vm es) == 0)) [
      | inl e ↦ rw e (delete-IsWithin cap cluster _ w')
      | inr e ↦ rw e (
          insert-IsWithin cap cluster (delete vm es) _
            (record {
              within = λ k. omega (arith, held-delete k vm es, f.within k);
              counts = delete-AreLocks vm es f.counts;
            })
            w')
    ]

-- The operations on the locks; each runs at a time of its own.
pub data Call : Type 0 where
  locks_for : (cluster vm host : String) → List GpuDeviceInfo → Call
  filters : (cluster : String) → GpuVmInfos → Call
  reads : (cluster vm : String) → Call
  unlocks : (cluster vm : String) → Call

pub step : ℕ × Call → LockedGpuMap → LockedGpuMap
step (now, locks_for cluster vm host ds) locks =
    (lock_gpu_devices_for_vm now cluster vm host ds locks).1
step (now, filters cluster gs) locks =
    (filter_gpu_vm_infos_by_lock_gpu_devices now cluster gs locks).1
step (now, reads cluster vm) locks = (get_gpu_devices_locked_by_vm now cluster vm locks).1
step (now, unlocks cluster vm) locks = unlock_gpu_devices_locked_by_vm now cluster vm locks

pub run : List (ℕ × Call) → LockedGpuMap → LockedGpuMap
run [] locks = locks
run (c ∷ cs) locks = run cs (step c locks)

-- A lock asks for distinct GPUs, of each no more than Tower reports as available, and Tower reports no
-- more than the GPU's capacity.
abbrev pub IsFair : (String → String → ℕ) → ℕ × Call → Type 0
IsFair cap (now, locks_for cluster vm host ds) = DistinctIds ds × All (IsOffer (cap cluster)) ds
IsFair cap (now, _) = Unit

step-IsWithin :
    (cap : String → String → ℕ) (c : ℕ × Call) (locks : LockedGpuMap)
    → ((cluster k : String) → cap cluster k < 2147483648)
    → IsFair cap c
    → IsWithin cap locks
    → IsWithin cap (step c locks)
unfolding step filter_gpu_vm_infos_by_lock_gpu_devices get_gpu_devices_locked_by_vm
step-IsWithin cap (now, locks_for cluster vm host ds) locks small f w =
    lock_gpu_devices_for_vm-IsWithin cap now cluster vm host ds locks (small cluster) f.0 f.1 w
step-IsWithin cap (now, filters cluster gs) locks small f w =
    (get_locked_cluster_gpus_wf cap now cluster locks w).1
step-IsWithin cap (now, reads cluster vm) locks small f w =
    (get_locked_cluster_gpus_wf cap now cluster locks w).1
step-IsWithin cap (now, unlocks cluster vm) locks small f w =
    unlock_gpu_devices_locked_by_vm-IsWithin cap now cluster vm locks w

-- Whatever calls are made, in whatever order and at whatever times: if the locks fitted the capacity
-- of every GPU of every cluster at first (as no locks do), and every call that locks asks for
-- distinct GPUs within what is available, they fit in the end. Capacities are below 2^31.
pub run-IsWithin :
    (cap : String → String → ℕ) (cs : List (ℕ × Call)) (locks : LockedGpuMap)
    → ((cluster k : String) → cap cluster k < 2147483648)
    → All (IsFair cap) cs
    → IsWithin cap locks
    → IsWithin cap (run cs locks)
unfolding run
run-IsWithin cap [] locks small f w = w
run-IsWithin cap (c ∷ cs) locks small f w =
    run-IsWithin cap cs (step c locks) small f.1 (step-IsWithin cap c locks small f.0 w)
