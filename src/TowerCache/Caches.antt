-- ===== src/TowerCache/Caches.antt =====
-- The caches of placement groups and of GPUs of controllers/tower_cache.go.
use cluster_api_provider_elf.Base.{ℕ, String, Option, none, some, List, [], ◌∷◌}
use cluster_api_provider_elf.Cache.{GoCache}
use cluster_api_provider_elf.Memory.{Memory, Value, placement_group, gpu_vm_info}
use cluster_api_provider_elf.Tower.{PlacementGroup}
use cluster_api_provider_elf.Collections.{insert}
use cluster_api_provider_elf.Gpu.{GpuVmInfos}
use cluster_api_provider_elf.Limiter.{set_in_memory, get_in_memory, delete_in_memory}
use cluster_api_provider_elf.TowerCache.{
  pg_cache_duration, gpu_cache_duration, get_key_for_pg_cache, get_key_for_gpu_vm_info,
}

module _ {C : Type 0} ⦃g : GoCache C Value⦄ where
  unfoldable pub set_pg_cache : ℕ → PlacementGroup → Memory C → Memory C
  set_pg_cache now pg =
      set_in_memory now (get_key_for_pg_cache pg.name) (placement_group pg) (some pg_cache_duration)

  unfoldable pub del_pg_caches : List String → Memory C → Memory C
  del_pg_caches [] m = m
  del_pg_caches (name ∷ names) m =
      del_pg_caches names (delete_in_memory (get_key_for_pg_cache name) m)

  -- A value of another type is deleted.
  unfoldable pub pg_of : String → Option Value → Memory C → Option PlacementGroup × Memory C
  pg_of key none m = (none, m)
  pg_of key (some (placement_group pg)) m = (some pg, m)
  pg_of key (some v) m = (none, delete_in_memory key m)

  unfoldable pub get_pg_from_cache : ℕ → String → Memory C → Option PlacementGroup × Memory C
  unfolding pg_of
  get_pg_from_cache now pg_name m =
      let key = get_key_for_pg_cache pg_name in pg_of key (get_in_memory now key m) m

  unfoldable pub set_gpu_vm_infos_cache : ℕ → GpuVmInfos → Memory C → Memory C
  set_gpu_vm_infos_cache now [] m = m
  set_gpu_vm_infos_cache now ((id, g) ∷ gs) m =
      set_gpu_vm_infos_cache now gs (
        set_in_memory now (get_key_for_gpu_vm_info g.id) (gpu_vm_info g) (some gpu_cache_duration)
          m)

  -- One round of the loop: every value that is found is deleted, also one of the right type.
  unfoldable pub take_gpu_vm_info :
      String → Option Value → GpuVmInfos × Memory C → GpuVmInfos × Memory C
  take_gpu_vm_info key none (gs, m) = (gs, m)
  take_gpu_vm_info key (some (gpu_vm_info g)) (gs, m) =
      (insert (λ x. x.id) g gs, delete_in_memory key m)
  take_gpu_vm_info key (some v) (gs, m) = (gs, delete_in_memory key m)

  unfoldable pub get_gpu_vm_infos_from :
      ℕ → List String → GpuVmInfos × Memory C → GpuVmInfos × Memory C
  unfolding take_gpu_vm_info
  get_gpu_vm_infos_from now [] acc = acc
  get_gpu_vm_infos_from now (id ∷ ids) (gs, m) =
      let key = get_key_for_gpu_vm_info id in
      get_gpu_vm_infos_from now ids (take_gpu_vm_info key (get_in_memory now key m) (gs, m))

  unfoldable pub get_gpu_vm_infos_from_cache : ℕ → List String → Memory C → GpuVmInfos × Memory C
  unfolding get_gpu_vm_infos_from
  get_gpu_vm_infos_from_cache now ids m = get_gpu_vm_infos_from now ids ([], m)
