-- ===== src/Tests/GpuTests.antt =====
-- Two GPUs of a host, and what the locks and the selections do with them.
use cluster_api_provider_elf.Base.{
  ℕ, ◌+◌, ◌≤◌, String, ◌≡◌, refl, Bool, List, [], ◌∷◌, none, All, arith, str_eq, if◌then◌else◌, any,
}
use cluster_api_provider_elf.Base.Dict.{lookup, insert}
use cluster_api_provider_elf.Base.Int.{pos, int32, ◌-ℤ◌}
use cluster_api_provider_elf.Tower.{GpuVmInfo, passthrough, vgpu}
use cluster_api_provider_elf.Machine.{GpuPassthroughDeviceSpec, VgpuDeviceSpec}
use cluster_api_provider_elf.Collections.{filter_by}
use cluster_api_provider_elf.Collections.Laws.{lookup-filter_by}
use cluster_api_provider_elf.Gpu.{GpuDeviceInfo, GpuVmInfos}
use cluster_api_provider_elf.Gpu.Locks.{
  LockedClusterGpuMap, get_locked_count_map, locked_devices, has_room, available_counts,
}
use cluster_api_provider_elf.Gpu.Locks.Counts.{
  count_of, claimed, held, count_of-get_locked_count_map,
}
use cluster_api_provider_elf.Gpu.Locks.Room.{DistinctIds, IsOffer, has_room_sound}
use cluster_api_provider_elf.Gpu.Locks.Within.{
  IsWithin, run, locks_for, unlocks, run-IsWithin, Call,
}
use cluster_api_provider_elf.Gpu.Select.{select_gpu_devices_for_vm, select_vgpu_devices_for_vm}
use cluster_api_provider_elf.Gpu.Select.Passthrough
use cluster_api_provider_elf.Gpu.Select.Passthrough.{select_gpu_devices_for_vm_lem}
use cluster_api_provider_elf.Gpu.Select.Distinct.{
  select_gpu_devices_for_vm-IsFair, same_model_twice,
}
use cluster_api_provider_elf.Gpu.Select.Vgpu
use cluster_api_provider_elf.Gpu.Select.Vgpu.{
  IsVgpu, IsRequired, allocated, select_vgpu_devices_for_vm_lem, select_vgpu_devices_for_vm_exact,
}
use cluster_api_provider_elf.Cache.Assoc.{assoc_cache}
use cluster_api_provider_elf.Memory.{Memory}
use cluster_api_provider_elf.TowerCache.Caches.{set_gpu_vm_infos_cache}
use cluster_api_provider_elf.Tests.HistoryTests.{Entries, empty_memory}

abbrev gpu : String → String → GpuVmInfo
gpu id model = record {
  id = id;
  host_id = "host";
  model = model;
  user_vgpu_type_name = "";
  user_usage = passthrough;
  available_vgpus_num = pos 0;
  vms = [];
}

abbrev vgpu_of : String → ℕ → GpuVmInfo
vgpu_of id n = record {
  id = id;
  host_id = "host";
  model = "A16";
  user_vgpu_type_name = "A16-1";
  user_usage = vgpu;
  available_vgpus_num = pos n;
  vms = [];
}

abbrev gpus : GpuVmInfos
gpus = ("a", gpu "a" "T4") ∷ ("b", gpu "b" "A40") ∷ []

abbrev vgpus : GpuVmInfos
vgpus = ("v", vgpu_of "v" 2) ∷ ("w", vgpu_of "w" 4) ∷ []

abbrev t4 : GpuPassthroughDeviceSpec
t4 = record { model = "T4"; count = pos 1 }

abbrev three_vgpus : VgpuDeviceSpec
three_vgpus = record { type_name = "A16-1"; count = pos 3 }

abbrev device_a : GpuDeviceInfo
device_a = record { id = "a"; allocated_count = pos 1; available_count = pos 1 }

abbrev one_of_each : String → ℕ
one_of_each k = 1

device_a-IsOffer : IsOffer one_of_each device_a
device_a-IsOffer = record {
  asked = refl;
  offered = refl;
  enough = omega arith;
  capped = omega arith;
}

-- A second machine asks for the GPU that the first has locked, and again after it was unlocked.
abbrev calls : List (ℕ × Call)
calls =
    (10, locks_for "c" "vm1" "host" (device_a ∷ []))
    ∷ (11, locks_for "c" "vm2" "host" (device_a ∷ []))
    ∷ (12, unlocks "c" "vm1")
    ∷ (13, locks_for "c" "vm2" "host" (device_a ∷ []))
    ∷ []

locks_a : DistinctIds (device_a ∷ []) × All (IsOffer one_of_each) (device_a ∷ [])
locks_a = ((tt, tt), (device_a-IsOffer, tt))

run-IsWithin_example : IsWithin (λ c. one_of_each) (run calls [])
unfolding lookup
run-IsWithin_example =
    run-IsWithin (λ c. one_of_each) calls [] (λ c k. omega arith)
      (locks_a, (locks_a, (tt, (locks_a, tt))))
      (λ c. record { within = λ k. omega arith; counts = tt })

abbrev lock_of_vm1 : LockedClusterGpuMap
lock_of_vm1 =
    (
      "vm1",
      record {
        host_id = "host";
        gpu_devices = record { id = "a"; count = pos 1 } ∷ [];
        locked_at = 10;
      },
    )
    ∷ []

count_of-get_locked_count_map_example :
    count_of "a" (get_locked_count_map lock_of_vm1) ≡ pos (held "a" lock_of_vm1)
count_of-get_locked_count_map_example =
    count_of-get_locked_count_map "a" lock_of_vm1 ((refl, tt), tt) (omega arith)

-- Two GPUs of the kind fit beside the lock.
abbrev device_v : GpuDeviceInfo
device_v = record { id = "v"; allocated_count = pos 2; available_count = pos 3 }

abbrev lock_of_v : LockedClusterGpuMap
lock_of_v =
    (
      "vm1",
      record {
        host_id = "host";
        gpu_devices = record { id = "v"; count = pos 1 } ∷ [];
        locked_at = 10;
      },
    )
    ∷ []

has_room_sound_example : claimed "v" (locked_devices (device_v ∷ [])) + held "v" lock_of_v ≤ 3
unfolding has_room available_counts insert lookup get_locked_count_map int32 ◌-ℤ◌
has_room_sound_example =
    has_room_sound (λ k. 3) "v" (device_v ∷ []) lock_of_v (tt, tt)
      (record { asked = refl; offered = refl; enough = omega arith; capped = omega arith }, tt)
      ((refl, tt), tt) (omega arith) (omega arith) refl

select_gpu_devices_for_vm_lem_example :
    select_gpu_devices_for_vm gpus (t4 ∷ [])
    ≡ (if Passthrough.all_enough gpus (t4 ∷ []) then Passthrough.chosen gpus (t4 ∷ []) else [])
select_gpu_devices_for_vm_lem_example = select_gpu_devices_for_vm_lem gpus (t4 ∷ [])

select_gpu_devices_for_vm-IsFair_example :
    DistinctIds (select_gpu_devices_for_vm gpus (t4 ∷ []))
    × All (IsOffer one_of_each) (select_gpu_devices_for_vm gpus (t4 ∷ []))
select_gpu_devices_for_vm-IsFair_example =
    select_gpu_devices_for_vm-IsFair gpus ((refl, tt), (tt, tt)) (refl, (refl, tt)) one_of_each
      (t4 ∷ []) (λ k g e. omega arith) (tt, tt)

same_model_twice_example : ¬ DistinctIds (select_gpu_devices_for_vm gpus (t4 ∷ t4 ∷ []))
same_model_twice_example = same_model_twice gpus t4 (omega arith) refl

vgpus-IsVgpu : All (λ x. IsVgpu x.1) vgpus
vgpus-IsVgpu = (
  record { usage = refl; count = refl; small = omega arith },
  (record { usage = refl; count = refl; small = omega arith }, tt),
)

three_vgpus-IsRequired : All IsRequired (three_vgpus ∷ [])
three_vgpus-IsRequired =
    (record { number = refl; positive = omega arith; bounded = omega arith }, tt)

select_vgpu_devices_for_vm_lem_example : select_vgpu_devices_for_vm vgpus (three_vgpus ∷ []) ≡ (
    if Vgpu.all_enough vgpus (three_vgpus ∷ []) then Vgpu.chosen vgpus (three_vgpus ∷ []) else [])
select_vgpu_devices_for_vm_lem_example =
    select_vgpu_devices_for_vm_lem vgpus vgpus-IsVgpu (three_vgpus ∷ []) three_vgpus-IsRequired

select_vgpu_devices_for_vm_exact_example :
    allocated (select_vgpu_devices_for_vm vgpus (three_vgpus ∷ [])) ≡ 3
select_vgpu_devices_for_vm_exact_example =
    select_vgpu_devices_for_vm_exact vgpus vgpus-IsVgpu (three_vgpus ∷ []) three_vgpus-IsRequired
      refl

abbrev is_t4 : GpuVmInfo → Bool
is_t4 g = str_eq g.model "T4"

lookup-filter_by_example : lookup "b" (filter_by (λ g. g.id) (is_t4 ∷ []) gpus) ≡ none
unfolding lookup any
lookup-filter_by_example =
    lookup-filter_by (λ g. g.id) (is_t4 ∷ []) gpus "b" ((refl, tt), (tt, tt)) (refl, (refl, tt))

-- A GPU that was cached is read, and is gone.
abbrev cached : Memory Entries
cached = set_gpu_vm_infos_cache 10 gpus empty_memory
