-- ===== src/Gpu/Locks.antt =====
-- The GPU locks of controllers/vm_limiter.go: which GPU counts the machines of a cluster have claimed
-- before Tower knows of it. `gpuLock` makes each operation one step, at the time given.
pub mod Counts
pub mod Room
pub mod Within
use cluster_api_provider_elf.Base.{
  ℕ, ◌+◌, String, Bool, true, false, Option, none, some, List, [], ◌∷◌, map, length, ltb, leb, ◌==◌,
  if◌then◌else◌,
}
use cluster_api_provider_elf.Base.Dict.{lookup, insert, delete}
use cluster_api_provider_elf.Base.Int.{ℤ, pos, int32, ◌-ℤ◌, ltb_ℤ, leb_ℤ}
use cluster_api_provider_elf.Tower.{GpuVmInfo}
use cluster_api_provider_elf.Collections.{filter_by}
use cluster_api_provider_elf.Gpu.{
  GpuDeviceInfo, GpuVmInfos, add_count, get_available_count_from_gpu_vm_info,
}

pub record LockedGpuDevice : Type 0 where
  pub id : String
  pub count : ℤ

pub record LockedVmGpus : Type 0 where
  pub host_id : String
  pub gpu_devices : List LockedGpuDevice
  pub locked_at : ℕ

-- The locks of a cluster by machine, and of all clusters.
abbrev pub LockedClusterGpuMap : Type 0
LockedClusterGpuMap = List (String × LockedVmGpus)

abbrev pub LockedGpuMap : Type 0
LockedGpuMap = List (String × LockedClusterGpuMap)

abbrev pub gpu_lock_timeout : ℕ
gpu_lock_timeout = 480

unfoldable pub get_gpu_ids : LockedVmGpus → List String
get_gpu_ids g = map (λ d. d.id) g.gpu_devices

unfoldable pub get_gpu_device_infos : LockedVmGpus → List GpuDeviceInfo
get_gpu_device_infos g =
    map (λ d. record { id = d.id; allocated_count = d.count; available_count = pos 0 })
      g.gpu_devices

-- The loop that deletes expired entries.
unfoldable pub drop_expired : ℕ → LockedClusterGpuMap → LockedClusterGpuMap
drop_expired now [] = []
drop_expired now ((vm, g) ∷ es) =
    let rest = drop_expired now es in
    if ltb now (g.locked_at + gpu_lock_timeout) then (vm, g) ∷ rest else rest

-- The locks of the cluster. Expired ones are deleted from the map that `lockedGPUMap` holds too,
-- since both names are one map; a missing cluster gets a map that is not stored.
unfoldable pub get_locked_cluster_gpus :
    ℕ → String → LockedGpuMap → LockedClusterGpuMap × LockedGpuMap
unfolding drop_expired
get_locked_cluster_gpus now cluster_id locks = elim (lookup cluster_id locks) [
  | none ↦ ([], locks)
  | some es ↦ (drop_expired now es, insert cluster_id (drop_expired now es) locks)
]

unfoldable pub count_devices : List LockedGpuDevice → List (String × ℤ) → List (String × ℤ)
unfolding add_count
count_devices [] counts = counts
count_devices (d ∷ ds) counts = count_devices ds (add_count d.id d.count counts)

unfoldable pub count_entries : LockedClusterGpuMap → List (String × ℤ) → List (String × ℤ)
unfolding count_devices
count_entries [] counts = counts
count_entries ((vm, g) ∷ es) counts = count_entries es (count_devices g.gpu_devices counts)

unfoldable pub get_locked_count_map : LockedClusterGpuMap → List (String × ℤ)
unfolding count_entries
get_locked_count_map es = count_entries es []

-- availableCountMap: what would be left of each GPU.
unfoldable pub available_counts : List GpuDeviceInfo → List (String × ℤ) → List (String × ℤ)
available_counts [] counts = counts
available_counts (d ∷ ds) counts =
    available_counts ds (insert d.id (int32 (d.available_count -ℤ d.allocated_count)) counts)

abbrev pub exceeds : Option ℤ → ℤ → Bool
exceeds none available = false
exceeds (some locked) available = ltb_ℤ available locked

-- The loop over availableCountMap: every GPU has room.
unfoldable pub has_room : List (String × ℤ) → List (String × ℤ) → Bool
has_room locked [] = true
has_room locked ((id, available) ∷ rest) =
    if exceeds (lookup id locked) available then false else has_room locked rest

unfoldable pub locked_devices : List GpuDeviceInfo → List LockedGpuDevice
locked_devices [] = []
locked_devices (d ∷ ds) = record { id = d.id; count = d.allocated_count } ∷ locked_devices ds

unfoldable pub lock_gpu_devices_for_vm :
    ℕ → String → String → String → List GpuDeviceInfo → LockedGpuMap → Bool × LockedGpuMap
lock_gpu_devices_for_vm now cluster_id vm_name host_id infos locks =
    let locked : LockedVmGpus = record {
      host_id = host_id;
      gpu_devices = locked_devices infos;
      locked_at = now;
    } in
    let (es, locks') = get_locked_cluster_gpus now cluster_id locks in
    if has_room (get_locked_count_map es) (available_counts infos [])
    then (true, insert cluster_id (insert vm_name locked es) locks')
    else (false, locks')

-- A GPU stays unless its locked count has reached its available count.
abbrev pub is_unlocked : List (String × ℤ) → GpuVmInfo → Bool
is_unlocked locked g = elim (lookup g.id locked) [
  | none ↦ true
  | some count ↦ ltb_ℤ count (get_available_count_from_gpu_vm_info g)
]

unfoldable pub filter_gpu_vm_infos_by_lock_gpu_devices :
    ℕ → String → GpuVmInfos → LockedGpuMap → GpuVmInfos × LockedGpuMap
filter_gpu_vm_infos_by_lock_gpu_devices now cluster_id gs locks =
    let (es, locks') = get_locked_cluster_gpus now cluster_id locks in
    (filter_by (λ g. g.id) (is_unlocked (get_locked_count_map es) ∷ []) gs, locks')

unfoldable pub get_gpu_devices_locked_by_vm :
    ℕ → String → String → LockedGpuMap → Option LockedVmGpus × LockedGpuMap
get_gpu_devices_locked_by_vm now cluster_id vm_name locks =
    let (es, locks') = get_locked_cluster_gpus now cluster_id locks in (lookup vm_name es, locks')

unfoldable pub unlock_gpu_devices_locked_by_vm : ℕ → String → String → LockedGpuMap → LockedGpuMap
unlock_gpu_devices_locked_by_vm now cluster_id vm_name locks =
    let (es, locks') = get_locked_cluster_gpus now cluster_id locks in
    let rest = delete vm_name es in
    if length rest == 0 then delete cluster_id locks' else insert cluster_id rest locks'
