-- ===== src/Gpu/Select/Distinct.antt =====
-- That no GPU is given twice, and that what is given can be locked.
use cluster_api_provider_elf.Base.{
  ℕ, zero, suc, ◌≤◌, ◌<◌, String, ◌≡◌, refl, sym, subst, true, false, some, List, [], ◌∷◌, ◌++◌,
  arith, str_eq, eq_iff, Bool-cases, inl, inr, All, All-append, All-take, weaken, right_part, take,
  length,
}
use cluster_api_provider_elf.Base.Dict.{lookup, IsMap, eq_self}
use cluster_api_provider_elf.Base.Int.{pos_part}
use cluster_api_provider_elf.Tower.{GpuVmInfo}
use cluster_api_provider_elf.Machine.{GpuPassthroughDeviceSpec}
use cluster_api_provider_elf.Collections.{IsKeyed}
use cluster_api_provider_elf.Gpu.{GpuVmInfos, GpuDeviceInfo}
use cluster_api_provider_elf.Gpu.Locks.Room.{DistinctIds, IsOffer}
use cluster_api_provider_elf.Gpu.Select.{whole, select_gpu_devices_for_vm}
use cluster_api_provider_elf.Gpu.Select.Groups.{
  IsOf, with_key-IsOf, DistinctGpus, with_key-DistinctGpus,
}
use cluster_api_provider_elf.Gpu.Select.Passthrough.{
  model_of, of_model, all_enough, chosen, select_gpu_devices_for_vm_lem,
}

take-DistinctGpus : (n : ℕ) (gs : List GpuVmInfo) → DistinctGpus gs → DistinctGpus (take n gs)
take-DistinctGpus zero gs d = tt
take-DistinctGpus (suc n) [] d = tt
take-DistinctGpus (suc n) (g ∷ gs) d =
    (All-take (λ x. str_eq g.id x.id ≡ false) n gs d.0, take-DistinctGpus n gs d.1)

All-whole :
    (P : String → Type 0) (gs : List GpuVmInfo)
    → All (λ g. P g.id) gs
    → All (λ d. P d.id) (whole gs)
unfolding whole
All-whole P [] h = tt
All-whole P (g ∷ gs) h = (h.0, All-whole P gs h.1)

whole-DistinctIds : (gs : List GpuVmInfo) → DistinctGpus gs → DistinctIds (whole gs)
unfolding whole
whole-DistinctIds [] d = tt
whole-DistinctIds (g ∷ gs) d =
    (All-whole (λ j. str_eq g.id j ≡ false) gs d.0, whole-DistinctIds gs d.1)

whole-IsOffer :
    (cap : String → ℕ) (gs : List GpuVmInfo)
    → All (λ g. 1 ≤ cap g.id) gs
    → All (IsOffer cap) (whole gs)
unfolding whole
whole-IsOffer cap [] c = tt
whole-IsOffer cap (g ∷ gs) c = (
  record { asked = refl; offered = refl; enough = omega arith; capped = c.0 },
  whole-IsOffer cap gs c.1,
)

append-DistinctIds :
    (xs ys : List GpuDeviceInfo)
    → DistinctIds xs
    → DistinctIds ys
    → All (λ x. All (λ y. str_eq x.id y.id ≡ false) ys) xs
    → DistinctIds (xs ++ ys)
append-DistinctIds [] ys dx dy h = dy
append-DistinctIds (x ∷ xs) ys dx dy h = (
  All-append (λ y. str_eq x.id y.id ≡ false) xs ys dx.0 h.0,
  append-DistinctIds xs ys dx.1 dy h.1,
)

-- The ID of a GPU of the collection that has the model; that has another one.
abbrev HasModel : GpuVmInfos → String → String → Type 0
HasModel gs m id = (g : GpuVmInfo) × (lookup id gs ≡ some g) × (g.model ≡ m)

abbrev HasOther : GpuVmInfos → String → String → Type 0
HasOther gs m id = (g : GpuVmInfo) × (lookup id gs ≡ some g) × (str_eq m g.model ≡ false)

-- No model is required twice.
abbrev pub DistinctModels : List GpuPassthroughDeviceSpec → Type 0
DistinctModels [] = Unit
DistinctModels (r ∷ rs) = All (λ s. str_eq r.model s.model ≡ false) rs × DistinctModels rs

ids_differ :
    (gs : GpuVmInfos) (m i j : String) → HasModel gs m i → HasOther gs m j → str_eq i j ≡ false
ids_differ gs m i j (g, l, e) (h, k, f) = ground (arith, eq_iff i j, eq_iff m h.model, e, f, l, k)

module _ (gs : GpuVmInfos) (m : IsMap gs) (h : IsKeyed (λ g. g.id) gs) where
  first-HasModel :
      (r : GpuPassthroughDeviceSpec)
      → All (λ d. HasModel gs r.model d.id) (whole (take (pos_part r.count) (of_model gs r)))
  first-HasModel r = All-whole (HasModel gs r.model) (take (pos_part r.count) (of_model gs r)) (
      weaken (λ g (o : IsOf model_of r.model gs g). (g, o.0, o.1)) _
        (All-take (IsOf model_of r.model gs) (pos_part r.count) (of_model gs r)
          (with_key-IsOf model_of r.model gs m h)))

  chosen-HasOther :
      (k : String) (rs : List GpuPassthroughDeviceSpec)
      → All (λ s. str_eq k s.model ≡ false) rs
      → All (λ d. HasOther gs k d.id) (chosen gs rs)
  chosen-HasOther k [] u = tt
  chosen-HasOther k (r ∷ rs) u =
      All-append (λ d. HasOther gs k d.id) _ (chosen gs rs)
        (weaken
          (λ d (o : HasModel gs r.model d.id).
            (o.0, o.1, subst (λ x. str_eq k x ≡ false) (sym o.2) u.0))
          _ (first-HasModel r))
        (chosen-HasOther k rs u.1)

  chosen-DistinctIds :
      (rs : List GpuPassthroughDeviceSpec) → DistinctModels rs → DistinctIds (chosen gs rs)
  chosen-DistinctIds [] u = tt
  chosen-DistinctIds (r ∷ rs) u =
      append-DistinctIds _ (chosen gs rs)
        (whole-DistinctIds _ (
          take-DistinctGpus (pos_part r.count) (of_model gs r)
            (with_key-DistinctGpus model_of r.model gs m h)))
        (chosen-DistinctIds rs u.1)
        (weaken
          (λ d (o : HasModel gs r.model d.id).
            weaken (λ e (p : HasOther gs r.model e.id). ids_differ gs r.model d.id e.id o p)
              (chosen gs rs) (chosen-HasOther r.model rs u.0))
          _ (first-HasModel r))

  chosen-IsOffer :
      (cap : String → ℕ)
      → ((k : String) (g : GpuVmInfo) → lookup k gs ≡ some g → 1 ≤ cap k)
      → (rs : List GpuPassthroughDeviceSpec) → All (IsOffer cap) (chosen gs rs)
  chosen-IsOffer cap c [] = tt
  chosen-IsOffer cap c (r ∷ rs) =
      All-append (IsOffer cap) _ (chosen gs rs)
        (whole-IsOffer cap (take (pos_part r.count) (of_model gs r)) (
          All-take (λ g. 1 ≤ cap g.id) (pos_part r.count) (of_model gs r)
            (weaken (λ g (o : IsOf model_of r.model gs g). c g.id g o.0) (of_model gs r)
              (with_key-IsOf model_of r.model gs m h))))
        (chosen-IsOffer cap c rs)

  -- On a map keyed by ID, if no model is required twice, no GPU is selected twice, and the selection asks of each GPU for no
  -- more than the one that is available: it meets what the locks rely on, for all capacities that
  -- give each GPU of the host at least one.
  pub select_gpu_devices_for_vm-IsFair :
      (cap : String → ℕ) (rs : List GpuPassthroughDeviceSpec)
      → ((k : String) (g : GpuVmInfo) → lookup k gs ≡ some g → 1 ≤ cap k)
      → DistinctModels rs
      → DistinctIds (select_gpu_devices_for_vm gs rs)
        × All (IsOffer cap) (select_gpu_devices_for_vm gs rs)
  select_gpu_devices_for_vm-IsFair cap rs c u = elim (Bool-cases (all_enough gs rs)) [
    | inl e ↦
        rw (select_gpu_devices_for_vm_lem gs rs, e)
          (chosen-DistinctIds rs u, chosen-IsOffer cap c rs)
    | inr e ↦ rw (select_gpu_devices_for_vm_lem gs rs, e) (tt, tt)
  ]

whole_twice :
    (n : ℕ) (l : List GpuVmInfo)
    → 0 < n
    → 0 < length l
    → ¬ DistinctIds (whole (take n l) ++ (whole (take n l) ++ []))
unfolding whole
whole_twice zero l p q d = absurd (omega arith)
whole_twice (suc n) [] p q d = absurd (omega arith)
whole_twice (suc n) (g ∷ l) p q d =
    cc (eq_self g.id, (right_part _ (whole (take n l)) (whole (take (suc n) (g ∷ l)) ++ []) d.0).0)

-- If a requirement of at least one GPU stands twice in the list, and the host has enough GPUs for it
-- once, then some GPU is selected twice.
pub same_model_twice :
    (gs : GpuVmInfos) (r : GpuPassthroughDeviceSpec)
    → 0 < pos_part r.count
    → all_enough gs (r ∷ []) ≡ true
    → ¬ DistinctIds (select_gpu_devices_for_vm gs (r ∷ r ∷ []))
same_model_twice gs r p e d =
    let both : all_enough gs (r ∷ r ∷ []) ≡ true = ground arith in
    whole_twice (pos_part r.count) (of_model gs r) p (ground arith)
      (rw (select_gpu_devices_for_vm_lem gs (r ∷ r ∷ []), both) at d)
