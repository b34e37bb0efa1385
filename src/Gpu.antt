-- ===== src/Gpu.antt =====
-- The GPU parts of pkg/service/util.go and pkg/service/types.go: how much of a GPU can be allocated,
-- and whether the GPUs of a machine can be used for it.
pub mod Locks
pub mod Select
use cluster_api_provider_elf.Base.{
  ℕ, String, Bool, true, false, not, ◌&&◌, ◌||◌, Option, none, some, List, [], ◌∷◌, length, ltb,
  ◌==◌, filter, any, str_eq, if◌then◌else◌,
}
use cluster_api_provider_elf.Base.Dict.{lookup, insert}
use cluster_api_provider_elf.Base.Int.{ℤ, pos, int32, ◌+ℤ◌, ltb_ℤ}
use cluster_api_provider_elf.Tower.{
  VmStatus, GpuUsage, GpuVmDetail, GpuVmInfo, stopped, passthrough, vgpu,
}
use cluster_api_provider_elf.Machine.{ElfMachine, VgpuDeviceSpec, requires_pass_through_gpu_devices}

-- service.GPUDeviceInfo; HostID is never set.
pub record GpuDeviceInfo : Type 0 where
  pub id : String
  pub allocated_count : ℤ
  pub available_count : ℤ

-- service.GPUVMInfos, as a map by ID.
abbrev pub GpuVmInfos : Type 0
GpuVmInfos = List (String × GpuVmInfo)

abbrev pub is_stopped : VmStatus → Bool
is_stopped stopped = true
is_stopped _ = false

abbrev pub is_set : Option Bool → Bool
is_set none = false
is_set (some b) = b

-- A machine in the recycle bin, or stopped, occupies nothing.
abbrev pub occupies : GpuVmDetail → Bool
occupies d = not (is_set d.in_recycle_bin) && not (is_stopped d.status)

unfoldable pub get_vms_occupying_gpu : List GpuVmDetail → List GpuVmDetail
get_vms_occupying_gpu = filter occupies

unfoldable pub get_available_count_from_gpu_vm_info : GpuVmInfo → ℤ
unfolding get_vms_occupying_gpu
get_available_count_from_gpu_vm_info g = elim g.user_usage [
  | passthrough ↦ if ltb 0 (length (get_vms_occupying_gpu g.vms)) then pos 0 else pos 1
  | vgpu ↦ g.available_vgpus_num
]

-- More than one machine occupies the GPU, or one that is not the named one.
unfoldable pub occupied_by_other : String → List GpuVmDetail → Bool
occupied_by_other name [] = false
occupied_by_other name (d ∷ []) = not (str_eq d.name name)
occupied_by_other name (d ∷ e ∷ ds) = true

abbrev pub count_or_zero : Option ℤ → ℤ
count_or_zero none = pos 0
count_or_zero (some n) = n

-- `m[key] = count + n`, or `m[key] = n` where the key is missing.
unfoldable pub add_count : String → ℤ → List (String × ℤ) → List (String × ℤ)
add_count key n counts = elim (lookup key counts) [
  | none ↦ insert key n counts
  | some count ↦ insert key (int32 (count +ℤ n)) counts
]

-- The loop that adds up the available vGPUs of each type.
unfoldable pub count_by_type : GpuVmInfos → List (String × ℤ) → List (String × ℤ)
unfolding add_count
count_by_type [] counts = counts
count_by_type ((id, g) ∷ gs) counts =
    count_by_type gs
      (add_count g.user_vgpu_type_name (get_available_count_from_gpu_vm_info g) counts)

abbrev pub lacks : List (String × ℤ) → VgpuDeviceSpec → Bool
lacks counts d = elim (lookup d.type_name counts) [ none ↦ true | some count ↦ ltb_ℤ count d.count ]

unfoldable pub has_gpus_can_not_be_used_for_vm : {S : Type 0} → GpuVmInfos → ElfMachine S → Bool
unfolding occupied_by_other count_by_type get_vms_occupying_gpu
has_gpus_can_not_be_used_for_vm gs m =
    if requires_pass_through_gpu_devices m
    then any (λ e. occupied_by_other m.name (get_vms_occupying_gpu e.1.vms)) gs
    else if length gs == 0
    then false
    else any (lacks (count_by_type gs [])) m.spec.vgpu_devices
