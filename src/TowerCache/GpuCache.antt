-- ===== src/TowerCache/GpuCache.antt =====
-- What is left of the cached GPUs once they were read (getGPUVMInfosFromCache).
use cluster_api_provider_elf.Base.{
  ℕ, String, ◌≡◌, refl, ap, ◌∙◌, Option, none, some, List, [], ◌∷◌, All, arith,
}
use cluster_api_provider_elf.Base.Dict.{eq_self}
use cluster_api_provider_elf.Cache.{GoCache}
use cluster_api_provider_elf.Memory.{Memory, Value, gpu_vm_info}
use cluster_api_provider_elf.Gpu.{GpuVmInfos}
use cluster_api_provider_elf.Limiter.{get_in_memory, delete_in_memory}
use cluster_api_provider_elf.TowerCache.{get_key_for_gpu_vm_info}
use cluster_api_provider_elf.TowerCache.Caches.{
  take_gpu_vm_info, get_gpu_vm_infos_from, get_gpu_vm_infos_from_cache,
}

module _ {C : Type 0} ⦃g : GoCache C Value⦄ where
  delete_absent :
      (now : ℕ) (k key : String) (m : Memory C)
      → get_in_memory now k m ≡ none
      → get_in_memory now k (delete_in_memory key m) ≡ none
  delete_absent now k key m h = ground (arith, g.get-delete now key k m.in_memory)

  take_absent :
      (now : ℕ) (k key : String) (o : Option Value) (gs : GpuVmInfos) (m : Memory C)
      → get_in_memory now k m ≡ none
      → get_in_memory now k (take_gpu_vm_info key o (gs, m)).1 ≡ none
  unfolding take_gpu_vm_info
  take_absent now k key none gs m h = h
  take_absent now k key (some (gpu_vm_info i)) gs m h = delete_absent now k key m h
  take_absent now k key (some v) gs m h = delete_absent now k key m h

  taken_absent :
      (now : ℕ) (key : String) (o : Option Value) (gs : GpuVmInfos) (m : Memory C)
      → get_in_memory now key m ≡ o
      → get_in_memory now key (take_gpu_vm_info key o (gs, m)).1 ≡ none
  unfolding take_gpu_vm_info
  taken_absent now key none gs m h = h
  taken_absent now key (some (gpu_vm_info i)) gs m h =
      g.get-delete now key key m.in_memory ∙ rw (eq_self key)
  taken_absent now key (some v) gs m h = g.get-delete now key key m.in_memory ∙ rw (eq_self key)

  read_absent :
      (now : ℕ) (k : String) (ids : List String) (acc : GpuVmInfos × Memory C)
      → get_in_memory now k acc.1 ≡ none
      → get_in_memory now k (get_gpu_vm_infos_from now ids acc).1 ≡ none
  unfolding get_gpu_vm_infos_from
  read_absent now k [] acc h = h
  read_absent now k (id ∷ ids) (gs, m) h =
      let key = get_key_for_gpu_vm_info id in
      read_absent now k ids (take_gpu_vm_info key (get_in_memory now key m) (gs, m))
        (take_absent now k key (get_in_memory now key m) gs m h)

  -- The GPUs are not in the cache.
  abbrev AreAbsent : ℕ → List String → Memory C → Type 0
  AreAbsent now ids m = All (λ id. get_in_memory now (get_key_for_gpu_vm_info id) m ≡ none) ids

  all_absent :
      (now : ℕ) (ids : List String) (acc : GpuVmInfos × Memory C)
      → AreAbsent now ids (get_gpu_vm_infos_from now ids acc).1
  unfolding get_gpu_vm_infos_from
  all_absent now [] acc = tt
  all_absent now (id ∷ ids) (gs, m) =
      let key = get_key_for_gpu_vm_info id in
      let o = get_in_memory now key m in
      (
        read_absent now key ids (take_gpu_vm_info key o (gs, m)) (taken_absent now key o gs m refl),
        all_absent now ids (take_gpu_vm_info key o (gs, m)),
      )

  absent_lem :
      (now : ℕ) (ids : List String) (acc : GpuVmInfos × Memory C)
      → AreAbsent now ids acc.1
      → get_gpu_vm_infos_from now ids acc ≡ acc
  unfolding get_gpu_vm_infos_from take_gpu_vm_info
  absent_lem now [] acc h = refl
  absent_lem now (id ∷ ids) (gs, m) h =
      let key = get_key_for_gpu_vm_info id in
      ap (λ o. get_gpu_vm_infos_from now ids (take_gpu_vm_info key o (gs, m))) h.0
      ∙ absent_lem now ids (gs, m) h.1

  -- A read of cached GPUs empties the cache of them, whatever it finds: read again at the same time,
  -- the same GPUs give nothing, and nothing changes any more.
  gpus_read_once :
      (now : ℕ) (ids : List String) (m : Memory C)
      → let m' = (get_gpu_vm_infos_from_cache now ids m).1 in
        get_gpu_vm_infos_from_cache now ids m' ≡ ([], m')
  unfolding get_gpu_vm_infos_from_cache
  gpus_read_once now ids m =
      let m' = (get_gpu_vm_infos_from now ids ([], m)).1 in
      absent_lem now ids ([], m') (all_absent now ids ([], m))
