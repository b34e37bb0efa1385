-- ===== src/Gpu/Select/Passthrough.antt =====
-- Which whole GPUs a machine is given, and when it is given none.
use cluster_api_provider_elf.Base.{
  ℕ, suc, ◌+◌, ◌≤◌, String, ◌≡◌, refl, sym, ◌∙◌, ap, Bool, true, ◌&&◌, List, [], ◌∷◌, ◌++◌, arith,
  if◌then◌else◌, Bool-cases, inl, inr, length, take, ltb, leb, length-take, length-append,
}
use mathlib.Core.List.{append-nil, append_assoc}
use cluster_api_provider_elf.Base.Dict.{lookup}
use cluster_api_provider_elf.Base.Int.{pos_part}
use cluster_api_provider_elf.Tower.{GpuVmInfo}
use cluster_api_provider_elf.Machine.{GpuPassthroughDeviceSpec}
use cluster_api_provider_elf.Gpu.{GpuVmInfos, GpuDeviceInfo}
use cluster_api_provider_elf.Gpu.Select.{
  group_by, whole, select_gpu_loop, select_gpu_devices_for_vm,
}
use cluster_api_provider_elf.Gpu.Select.Groups.{with_key, found_group, lookup-group_by}

abbrev pub model_of : GpuVmInfo → String
model_of g = g.model

-- The GPUs of a required model, and whether there are as many as required (and at least one).
abbrev pub of_model : GpuVmInfos → GpuPassthroughDeviceSpec → List GpuVmInfo
of_model gs r = with_key model_of r.model gs

abbrev pub enough : GpuVmInfos → GpuPassthroughDeviceSpec → Bool
enough gs r = ltb 0 (length (of_model gs r)) && leb (pos_part r.count) (length (of_model gs r))

abbrev pub all_enough : GpuVmInfos → List GpuPassthroughDeviceSpec → Bool
all_enough gs [] = true
all_enough gs (r ∷ rs) = enough gs r && all_enough gs rs

-- For each requirement the first GPUs of its model.
abbrev pub chosen : GpuVmInfos → List GpuPassthroughDeviceSpec → List GpuDeviceInfo
chosen gs [] = []
chosen gs (r ∷ rs) = whole (take (pos_part r.count) (of_model gs r)) ++ chosen gs rs

select_gpu_loop_step :
    (l : List GpuVmInfo) (groups : List (String × List GpuVmInfo)) (r : GpuPassthroughDeviceSpec)
    (rs : List GpuPassthroughDeviceSpec) (selected : List GpuDeviceInfo)
    → lookup r.model groups ≡ found_group l
    → select_gpu_loop groups (r ∷ rs) selected ≡ (
        if ltb 0 (length l) && leb (pos_part r.count) (length l)
        then select_gpu_loop groups rs (selected ++ whole (take (pos_part r.count) l))
        else [])
unfolding select_gpu_loop
select_gpu_loop_step [] groups r rs selected e = rw (e, select_gpu_loop)
select_gpu_loop_step (g ∷ l) groups r rs selected e = rw (e, select_gpu_loop) (ground arith)

select_gpu_loop_lem :
    (gs : GpuVmInfos) (rs : List GpuPassthroughDeviceSpec) (selected : List GpuDeviceInfo)
    → select_gpu_loop (group_by model_of gs []) rs selected
      ≡ (if all_enough gs rs then selected ++ chosen gs rs else [])
select_gpu_loop_lem gs [] selected = unfold select_gpu_loop in sym (append-nil selected)
select_gpu_loop_lem gs (r ∷ rs) selected =
    select_gpu_loop_step (of_model gs r) _ r rs selected (lookup-group_by model_of r.model gs)
    ∙ elim (Bool-cases (enough gs r)) [
      | inl e ↦ rw e (
          select_gpu_loop_lem gs rs _
          ∙ ap (λ l. if all_enough gs rs then l else [])
              (append_assoc selected (whole (take (pos_part r.count) (of_model gs r)))
                (chosen gs rs)))
      | inr e ↦ rw e
    ]

-- The selection gives for each requirement the first GPUs of its model, in the order in which the map
-- is met, if each model has a GPU and as many as required; otherwise it gives nothing.
pub select_gpu_devices_for_vm_lem :
    (gs : GpuVmInfos) (rs : List GpuPassthroughDeviceSpec)
    → select_gpu_devices_for_vm gs rs ≡ (if all_enough gs rs then chosen gs rs else [])
unfolding select_gpu_devices_for_vm
select_gpu_devices_for_vm_lem gs rs = select_gpu_loop_lem gs rs []

length-whole : (gs : List GpuVmInfo) → length (whole gs) ≡ length gs
unfolding whole
length-whole [] = refl
length-whole (g ∷ gs) = ap suc (length-whole gs)

abbrev pub required_total : List GpuPassthroughDeviceSpec → ℕ
required_total [] = 0
required_total (r ∷ rs) = pos_part r.count + required_total rs

pub length-chosen :
    (gs : GpuVmInfos) (rs : List GpuPassthroughDeviceSpec)
    → all_enough gs rs ≡ true
    → length (chosen gs rs) ≡ required_total rs
length-chosen gs [] h = refl
length-chosen gs (r ∷ rs) h =
    let few : pos_part r.count ≤ length (of_model gs r) = ground arith in
    omega (
      arith,
      length-append (whole (take (pos_part r.count) (of_model gs r))) (chosen gs rs),
      length-whole (take (pos_part r.count) (of_model gs r)),
      length-take (pos_part r.count) (of_model gs r) few,
      length-chosen gs rs (ground arith),
    )
