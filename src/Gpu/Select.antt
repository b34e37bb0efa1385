-- ===== src/Gpu/Select.antt =====
-- selectGPUDevicesForVM and selectVGPUDevicesForVM of controllers/elfmachine_controller_gpu.go: which
-- devices of one host a machine is given. An empty list means that the host cannot serve it.
pub mod Groups
pub mod Passthrough
pub mod Distinct
pub mod Vgpu
use cluster_api_provider_elf.Base.{
  ℕ, String, Bool, true, false, ◌&&◌, Option, none, some, List, [], ◌∷◌, ◌++◌, length, take, ltb,
  if◌then◌else◌,
}
use cluster_api_provider_elf.Base.Dict.{lookup, insert}
use cluster_api_provider_elf.Base.Int.{ℤ, pos, pos_part, int32, ◌-ℤ◌, ltb_ℤ, leb_ℤ}
use cluster_api_provider_elf.Tower.{GpuVmInfo}
use cluster_api_provider_elf.Machine.{GpuPassthroughDeviceSpec, VgpuDeviceSpec}
use cluster_api_provider_elf.Gpu.{GpuDeviceInfo, GpuVmInfos, get_available_count_from_gpu_vm_info}

-- A GPU joins the group of its key: a new one, or the end of the old one.
unfoldable pub add_to_group :
    String → GpuVmInfo → List (String × List GpuVmInfo) → List (String × List GpuVmInfo)
add_to_group key g groups = elim (lookup key groups) [
  | none ↦ insert key (g ∷ []) groups
  | some old ↦ insert key (old ++ g ∷ []) groups
]

-- The loop that groups GPUs by model, or by vGPU type.
unfoldable pub group_by :
    (GpuVmInfo → String)
    → GpuVmInfos
    → List (String × List GpuVmInfo)
    → List (String × List GpuVmInfo)
unfolding add_to_group
group_by key [] groups = groups
group_by key ((id, g) ∷ gs) groups = group_by key gs (add_to_group (key g) g groups)

-- One whole GPU.
unfoldable pub whole : List GpuVmInfo → List GpuDeviceInfo
whole [] = []
whole (g ∷ gs) = record { id = g.id; allocated_count = pos 1; available_count = pos 1 } ∷ whole gs

-- The loop over the required devices. `selected` is what the loop has appended so far. (A negative
-- count, which the API server does not admit, would panic.)
unfoldable pub select_gpu_loop :
    List (String × List GpuVmInfo)
    → List GpuPassthroughDeviceSpec
    → List GpuDeviceInfo
    → List GpuDeviceInfo
unfolding whole
select_gpu_loop groups [] selected = selected
select_gpu_loop groups (r ∷ rs) selected = elim (lookup r.model groups) [
  | none ↦ []
  | some gs ↦ elim (ltb (length gs) (pos_part r.count)) [
    | true ↦ []
    | false ↦ select_gpu_loop groups rs (selected ++ whole (take (pos_part r.count) gs))
  ]
]

unfoldable pub select_gpu_devices_for_vm :
    GpuVmInfos → List GpuPassthroughDeviceSpec → List GpuDeviceInfo
unfolding group_by select_gpu_loop
select_gpu_devices_for_vm gs required = select_gpu_loop (group_by (λ g. g.model) gs []) required []

-- The loop over the GPUs of one type: what is still required, and what was taken.
unfoldable pub take_vgpus : List GpuVmInfo → ℤ → List GpuDeviceInfo → ℤ × List GpuDeviceInfo
take_vgpus [] required taken = (required, taken)
take_vgpus (g ∷ gs) required taken =
    let available = get_available_count_from_gpu_vm_info g in
    elim (leb_ℤ available (pos 0)) [
      | true ↦ take_vgpus gs required taken
      | false ↦ elim (leb_ℤ required available) [
        | true ↦ (
          pos 0,
          taken
              ++ record { id = g.id; allocated_count = required; available_count = available } ∷ [],
        )
        | false ↦ take_vgpus gs (int32 (required -ℤ g.available_vgpus_num)) (
            taken
            ++ record {
              id = g.id;
              allocated_count = g.available_vgpus_num;
              available_count = available;
            }
              ∷ [])
      ]
    ]

-- What follows the loop over the GPUs: nothing if some vGPUs are missing.
unfoldable pub settle :
    ℤ × List GpuDeviceInfo → (List GpuDeviceInfo → List GpuDeviceInfo) → List GpuDeviceInfo
settle (missing, taken) next = elim (ltb_ℤ (pos 0) missing) [ true ↦ [] | false ↦ next taken ]

unfoldable pub select_vgpu_loop :
    List (String × List GpuVmInfo) → List VgpuDeviceSpec → List GpuDeviceInfo → List GpuDeviceInfo
select_vgpu_loop groups [] selected = selected
select_vgpu_loop groups (r ∷ rs) selected = elim (lookup r.type_name groups) [
  | none ↦ []
  | some gs ↦
      settle (take_vgpus gs r.count []) (λ taken. select_vgpu_loop groups rs (selected ++ taken))
]

unfoldable pub select_vgpu_devices_for_vm : GpuVmInfos → List VgpuDeviceSpec → List GpuDeviceInfo
unfolding group_by select_vgpu_loop take_vgpus settle
select_vgpu_devices_for_vm gs required =
    select_vgpu_loop (group_by (λ g. g.user_vgpu_type_name) gs []) required []
