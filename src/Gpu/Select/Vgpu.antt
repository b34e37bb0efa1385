-- ===== src/Gpu/Select/Vgpu.antt =====
-- How the vGPUs of one type are shared out: the loop takes what it needs, and no more than there is.
use cluster_api_provider_elf.Base.{
  ℕ, ◌+◌, ◌-◌, ◌≤◌, ◌<◌, String, ◌≡◌, refl, sym, ◌∙◌, ap, Bool, true, ◌&&◌, List, [], ◌∷◌, ◌++◌,
  arith, if◌then◌else◌, Bool-cases, inl, inr, All, leb, ◌==◌, str_eq,
}
use Prim.Native.Nat.{min}
use mathlib.Core.List.{append-nil, append_assoc}
use cluster_api_provider_elf.Base.Int.{pos, pos_part, int32, ◌-ℤ◌}
use cluster_api_provider_elf.Base.Dict.{lookup}
use cluster_api_provider_elf.Tower.{GpuVmInfo, vgpu}
use cluster_api_provider_elf.Machine.{VgpuDeviceSpec}
use cluster_api_provider_elf.Gpu.{GpuVmInfos, GpuDeviceInfo, get_available_count_from_gpu_vm_info}
use cluster_api_provider_elf.Gpu.Locks.Room.{IsOffer}
use cluster_api_provider_elf.Gpu.Select.{
  group_by, settle, take_vgpus, select_vgpu_loop, select_vgpu_devices_for_vm,
}
use cluster_api_provider_elf.Gpu.Select.Groups.{with_key, found_group, lookup-group_by}

-- A vGPU device whose available number is an int32 and not negative, as Tower reports it.
pub record IsVgpu (g : GpuVmInfo) : Type 0 where
  pub usage : g.user_usage ≡ vgpu
  pub count : g.available_vgpus_num ≡ pos (pos_part g.available_vgpus_num)
  pub small : pos_part g.available_vgpus_num < 2147483648

abbrev pub stock : GpuVmInfo → ℕ
stock g = pos_part g.available_vgpus_num

abbrev pub stocks : List GpuVmInfo → ℕ
stocks [] = 0
stocks (g ∷ gs) = stock g + stocks gs

abbrev pub allocated : List GpuDeviceInfo → ℕ
allocated [] = 0
allocated (d ∷ ds) = pos_part d.allocated_count + allocated ds

abbrev pub device : String → ℕ → ℕ → GpuDeviceInfo
device id asked available = record {
  id = id;
  allocated_count = pos asked;
  available_count = pos available;
}

-- The devices that the loop takes for `n` vGPUs.
pub picks : List GpuVmInfo → ℕ → List GpuDeviceInfo
picks [] n = []
picks (g ∷ gs) n =
    let skip = picks gs n in
    let more = device g.id (stock g) (stock g) ∷ picks gs (n - stock g) in
    if stock g == 0 then skip else if leb n (stock g) then device g.id n (stock g) ∷ [] else more

available_lem : (g : GpuVmInfo) → IsVgpu g → get_available_count_from_gpu_vm_info g ≡ pos (stock g)
unfolding get_available_count_from_gpu_vm_info
available_lem g v = ground arith

rest_lem :
    (g : GpuVmInfo) (n : ℕ)
    → IsVgpu g
    → stock g < n
    → n < 2147483648
    → int32 (pos n -ℤ g.available_vgpus_num) ≡ pos (n - stock g)
unfolding int32 ◌-ℤ◌
rest_lem g n v h l = ground arith

take_vgpus_lem :
    (gs : List GpuVmInfo) (n : ℕ) (taken : List GpuDeviceInfo)
    → All IsVgpu gs
    → 0 < n
    → n < 2147483648
    → take_vgpus gs (pos n) taken ≡ (pos (n - stocks gs), taken ++ picks gs n)
unfolding take_vgpus picks
take_vgpus_lem [] n taken v p l = ground (arith, append-nil taken)
take_vgpus_lem (g ∷ gs) n taken v p l = ground (
  arith,
  v.0.count,
  available_lem g v.0,
  rest_lem g n v.0,
  append_assoc taken (device g.id (stock g) (stock g) ∷ []) (picks gs (n - stock g)),
  take_vgpus_lem gs n taken v.1,
  take_vgpus_lem gs (n - stock g) (taken ++ device g.id (stock g) (stock g) ∷ []) v.1,
)

allocated-picks : (gs : List GpuVmInfo) (n : ℕ) → 0 < n → allocated (picks gs n) ≡ min n (stocks gs)
unfolding picks
allocated-picks [] n p = omega arith
allocated-picks (g ∷ gs) n p =
    ground (arith, allocated-picks gs n p, allocated-picks gs (n - stock g))

picks-IsOffer :
    (cap : String → ℕ) (gs : List GpuVmInfo) (n : ℕ)
    → All (λ g. stock g ≤ cap g.id) gs
    → All (IsOffer cap) (picks gs n)
unfolding picks
picks-IsOffer cap [] n c = tt
picks-IsOffer cap (g ∷ gs) n c =
    ground (arith, picks-IsOffer cap gs n c.1, picks-IsOffer cap gs (n - stock g) c.1)

abbrev pub type_of : GpuVmInfo → String
type_of g = g.user_vgpu_type_name

-- The vGPU devices of a required type, and whether they have as many vGPUs as required.
abbrev pub of_type : GpuVmInfos → VgpuDeviceSpec → List GpuVmInfo
of_type gs r = with_key type_of r.type_name gs

abbrev pub enough : GpuVmInfos → VgpuDeviceSpec → Bool
enough gs r = leb (pos_part r.count) (stocks (of_type gs r))

abbrev pub all_enough : GpuVmInfos → List VgpuDeviceSpec → Bool
all_enough gs [] = true
all_enough gs (r ∷ rs) = enough gs r && all_enough gs rs

abbrev pub chosen : GpuVmInfos → List VgpuDeviceSpec → List GpuDeviceInfo
chosen gs [] = []
chosen gs (r ∷ rs) = picks (of_type gs r) (pos_part r.count) ++ chosen gs rs

-- A requirement that the API server admits: at least one, and an int32.
pub record IsRequired (r : VgpuDeviceSpec) : Type 0 where
  pub number : r.count ≡ pos (pos_part r.count)
  pub positive : 0 < pos_part r.count
  pub bounded : pos_part r.count < 2147483648

take_vgpus_required :
    (gs : List GpuVmInfo) (r : VgpuDeviceSpec)
    → All IsVgpu gs
    → IsRequired r
    → take_vgpus gs r.count [] ≡ (pos (pos_part r.count - stocks gs), picks gs (pos_part r.count))
take_vgpus_required gs r v q =
    ap (λ c. take_vgpus gs c []) q.number
    ∙ take_vgpus_lem gs (pos_part r.count) [] v q.positive q.bounded

settle_lem :
    (n m : ℕ) (taken : List GpuDeviceInfo) (next : List GpuDeviceInfo → List GpuDeviceInfo)
    → settle (pos (n - m), taken) next ≡ (if leb n m then next taken else [])
unfolding settle
settle_lem n m taken next = ground arith

select_vgpu_loop_step :
    (l : List GpuVmInfo) (groups : List (String × List GpuVmInfo)) (r : VgpuDeviceSpec)
    (rs : List VgpuDeviceSpec) (selected : List GpuDeviceInfo)
    → All IsVgpu l
    → IsRequired r
    → lookup r.type_name groups ≡ found_group l
    → select_vgpu_loop groups (r ∷ rs) selected ≡ (
        if leb (pos_part r.count) (stocks l)
        then select_vgpu_loop groups rs (selected ++ picks l (pos_part r.count))
        else [])
unfolding select_vgpu_loop
select_vgpu_loop_step [] groups r rs selected v q e =
    rw (e, select_vgpu_loop) (ground (arith, q.positive))
select_vgpu_loop_step (g ∷ l) groups r rs selected v q e =
    rw (e, select_vgpu_loop)
      (rw (take_vgpus_required (g ∷ l) r v q) (settle_lem (pos_part r.count) (stocks (g ∷ l)) _ _))

with_key-IsVgpu :
    (key : GpuVmInfo → String) (k : String) (gs : GpuVmInfos)
    → All (λ x. IsVgpu x.1) gs
    → All IsVgpu (with_key key k gs)
with_key-IsVgpu key k [] v = tt
with_key-IsVgpu key k ((id, g) ∷ gs) v = elim (Bool-cases (str_eq (key g) k)) [
  | inl e ↦ rw e (v.0, with_key-IsVgpu key k gs v.1)
  | inr e ↦ rw e (with_key-IsVgpu key k gs v.1)
]

abbrev pub required_total : List VgpuDeviceSpec → ℕ
required_total [] = 0
required_total (r ∷ rs) = pos_part r.count + required_total rs

allocated-append : (xs ys : List GpuDeviceInfo) → allocated (xs ++ ys) ≡ allocated xs + allocated ys
allocated-append [] ys = omega arith
allocated-append (x ∷ xs) ys = omega (arith, allocated-append xs ys)

module _ (gs : GpuVmInfos) (v : All (λ x. IsVgpu x.1) gs) where
  select_vgpu_loop_lem :
      (rs : List VgpuDeviceSpec) (selected : List GpuDeviceInfo)
      → All IsRequired rs
      → select_vgpu_loop (group_by type_of gs []) rs selected
        ≡ (if all_enough gs rs then selected ++ chosen gs rs else [])
  select_vgpu_loop_lem [] selected q = unfold select_vgpu_loop in sym (append-nil selected)
  select_vgpu_loop_lem (r ∷ rs) selected q =
      select_vgpu_loop_step (of_type gs r) _ r rs selected
        (with_key-IsVgpu type_of r.type_name gs v) q.0 (lookup-group_by type_of r.type_name gs)
      ∙ elim (Bool-cases (enough gs r)) [
        | inl e ↦ rw e (
            select_vgpu_loop_lem rs _ q.1
            ∙ ap (λ l. if all_enough gs rs then l else [])
                (append_assoc selected (picks (of_type gs r) (pos_part r.count)) (chosen gs rs)))
        | inr e ↦ rw e
      ]

  -- On devices with proper counts, and if every requirement asks for at least one vGPU (and for an
  -- int32), the selection takes for each requirement from the devices of its type, one after the other,
  -- if each type has as many vGPUs as one requirement asks for; otherwise it gives nothing.
  pub select_vgpu_devices_for_vm_lem :
      (rs : List VgpuDeviceSpec)
      → All IsRequired rs
      → select_vgpu_devices_for_vm gs rs ≡ (if all_enough gs rs then chosen gs rs else [])
  unfolding select_vgpu_devices_for_vm
  select_vgpu_devices_for_vm_lem rs q = select_vgpu_loop_lem rs [] q

  allocated-chosen :
      (rs : List VgpuDeviceSpec)
      → All IsRequired rs
      → all_enough gs rs ≡ true
      → allocated (chosen gs rs) ≡ required_total rs
  allocated-chosen [] q e = refl
  allocated-chosen (r ∷ rs) q e =
      let few : pos_part r.count ≤ stocks (of_type gs r) = ground arith in
      omega (
        arith,
        allocated-append (picks (of_type gs r) (pos_part r.count)) (chosen gs rs),
        allocated-picks (of_type gs r) (pos_part r.count) q.0.positive,
        allocated-chosen rs q.1 (ground arith),
      )

  -- If every requirement asks for at least one vGPU (and for an int32), and there are as many of its type
  -- on devices with proper counts, the selection allocates exactly as many as are required in all.
  pub select_vgpu_devices_for_vm_exact :
      (rs : List VgpuDeviceSpec)
      → All IsRequired rs
      → all_enough gs rs ≡ true
      → allocated (select_vgpu_devices_for_vm gs rs) ≡ required_total rs
  select_vgpu_devices_for_vm_exact rs q e =
      rw (select_vgpu_devices_for_vm_lem rs q, e) (allocated-chosen rs q e)
