-- ===== src/TowerCache.antt =====
-- controllers/tower_cache.go: the records of insufficient memory, insufficient storage and broken
-- placement policies, by which the controllers keep from hammering Tower, and the caches of
-- placement groups and GPUs. `lock` makes each operation one step, at the time given.
pub mod Schedule
pub mod Caches
pub mod Retries
pub mod GpuCache
use cluster_api_provider_elf.Base.{
  ℕ, suc, ◌+◌, String, ◌+++◌, Bool, true, false, Option, none, some, List, [], ◌∷◌, ltb, str_eq,
  if◌then◌else◌, Result, ok, err, ◌&&◌, ◌||◌,
}
use cluster_api_provider_elf.Base.Int.{ℤ, pos, int32, int64, ◌-ℤ◌, ◌*ℤ◌, ltb_ℤ, eqb_ℤ}
use cluster_api_provider_elf.Cache.{GoCache}
use cluster_api_provider_elf.Memory.{
  Memory, ClusterResource, Value, nil, time, resource, placement_group, gpu_vm_info, write,
}
use cluster_api_provider_elf.Tower.{PlacementGroup, GpuVmInfo}
use cluster_api_provider_elf.Machine.{ElfMachine}
use cluster_api_provider_elf.Context.{MachineContext, get_elf_cluster_id}
use cluster_api_provider_elf.Limiter.{set_in_memory, get_in_memory, delete_in_memory}

abbrev pub resource_silence_time : ℕ
resource_silence_time = 300

abbrev pub resource_duration : ℕ
resource_duration = 600

abbrev pub default_storage_amount : ℤ
default_storage_amount = pos 200

abbrev pub pg_cache_duration : ℕ
pg_cache_duration = 20

abbrev pub gpu_cache_duration : ℕ
gpu_cache_duration = 3

abbrev pub get_key_for_insufficient_storage_error : String → String
get_key_for_insufficient_storage_error cluster_id = "insufficient:storage:" +++ cluster_id

abbrev pub get_key_for_insufficient_memory_error : String → String
get_key_for_insufficient_memory_error cluster_id = "insufficient:memory:" +++ cluster_id

abbrev pub get_key_for_duplicate_placement_group_error : String → String
get_key_for_duplicate_placement_group_error group = "pg:duplicate:" +++ group

abbrev pub get_key_for_pg_cache : String → String
get_key_for_pg_cache name = "pg:" +++ (name +++ ":cache")

abbrev pub get_key_for_gpu_vm_info : String → String
get_key_for_gpu_vm_info gpu_id = "gpu:vm:info:" +++ gpu_id

module _ {S : Type 0} where
  unfoldable pub get_memory_request_amount : ElfMachine S → ℤ
  get_memory_request_amount m =
      int64 (int64 (m.spec.memory_mib *ℤ pos 1048576) -ℤ m.status.resources.memory)

  unfoldable pub get_storage_request_amount : ElfMachine S → ℤ
  get_storage_request_amount m =
      if eqb_ℤ m.spec.disk_gib (pos 0)
      then default_storage_amount
      else int32 (m.spec.disk_gib -ℤ m.status.resources.disk)

module _ {C : Type 0} ⦃g : GoCache C Value⦄ where
  -- newClusterResource stores its object in the heap, and the cache gets the pointer.
  unfoldable pub record_resource : ℕ → String → ℤ → Memory C → Memory C
  record_resource now key amount m =
      let r : ClusterResource = record {
        last_detected = now;
        last_retried = now;
        request_amount = amount;
      } in
      let p = m.next_resource in
      record m {
        in_memory = g.set now key (resource p) (some resource_duration) m.in_memory;
        resources = write m.resources p r;
        next_resource = suc p;
      }

  -- A value of another type is deleted.
  unfoldable pub resource_of : String → Option Value → Memory C → Option ℕ × Memory C
  resource_of key none m = (none, m)
  resource_of key (some (resource p)) m = (some p, m)
  resource_of key (some v) m = (none, delete_in_memory key m)

  unfoldable pub get_cluster_resource : ℕ → String → Memory C → Option ℕ × Memory C
  unfolding resource_of
  get_cluster_resource now key m = resource_of key (get_in_memory now key m) m

  -- What canRetry does with the record that it found.
  unfoldable pub retry_resource : ℕ → ℤ → ℕ → Memory C → Bool × Memory C
  retry_resource now amount p m =
      let r = m.resources p in
      if ltb_ℤ amount r.request_amount
      then (true, m)
      else if ltb now (r.last_detected + resource_silence_time)
      then (false, m)
      else if ltb now (r.last_retried + resource_silence_time)
      then (false, m)
      else (true, record m { resources = write m.resources p (record r { last_retried = now }) })

  unfoldable pub can_retry : ℕ → String → ℤ → Memory C → Bool × Memory C
  unfolding get_cluster_resource retry_resource
  can_retry now key amount m =
      let (found, m') = get_cluster_resource now key m in
      elim found [ none ↦ (false, m') | some p ↦ retry_resource now amount p m' ]

  -- The record is made, or deleted.
  unfoldable pub record_or_delete : ℕ → String → ℤ → Bool → Memory C → Memory C
  unfolding record_resource
  record_or_delete now key amount is_error m =
      if is_error then record_resource now key amount m else delete_in_memory key m

  module _ {S : Type 0} (ctx : MachineContext S) where
    unfoldable pub record_elf_cluster_memory_insufficient : ℕ → Bool → Memory C → Memory C
    unfolding record_or_delete
    record_elf_cluster_memory_insufficient now is_insufficient =
        record_or_delete now (get_key_for_insufficient_memory_error (get_elf_cluster_id ctx))
          (get_memory_request_amount ctx.elf_machine) is_insufficient

    unfoldable pub record_elf_cluster_storage_insufficient : ℕ → Bool → Memory C → Memory C
    unfolding record_or_delete
    record_elf_cluster_storage_insufficient now is_error =
        record_or_delete now (get_key_for_insufficient_storage_error (get_elf_cluster_id ctx))
          (get_storage_request_amount ctx.elf_machine) is_error

    unfoldable pub can_retry_memory_allocation : ℕ → Memory C → Bool × Memory C
    unfolding can_retry
    can_retry_memory_allocation now =
        can_retry now (get_key_for_insufficient_memory_error (get_elf_cluster_id ctx))
          (get_memory_request_amount ctx.elf_machine)

    unfoldable pub can_retry_storage_allocation : ℕ → Memory C → Bool × Memory C
    unfolding can_retry
    can_retry_storage_allocation now =
        can_retry now (get_key_for_insufficient_storage_error (get_elf_cluster_id ctx))
          (get_storage_request_amount ctx.elf_machine)

    -- `name` is the answer of GetVMPlacementGroupName.
    unfoldable pub can_retry_vm_operation : ℕ → Result String → Memory C → Result Bool × Memory C
    unfolding can_retry_memory_allocation can_retry_storage_allocation
    can_retry_vm_operation now name m =
        let (by_memory, m₁) = can_retry_memory_allocation now m in
        if by_memory
        then (ok true, m₁)
        else let (by_storage, m₂) = can_retry_storage_allocation now m₁ in
          if by_storage then (ok true, m₂) else elim name [
            | err e ↦ (err e, m₂)
            | ok group ↦
                let (by_group, m₃) =
                  can_retry now (get_key_for_duplicate_placement_group_error group) (pos 0) m₂ in
                (ok by_group, m₃)
          ]

  unfoldable pub record_placement_group_policy_not_satisfied :
      ℕ → Result String → Bool → Memory C → Result (Unit {0}) × Memory C
  unfolding record_or_delete
  record_placement_group_policy_not_satisfied now (err e) not_satisfied m = (err e, m)
  record_placement_group_policy_not_satisfied now (ok group) not_satisfied m = (
    ok tt,
    record_or_delete now (get_key_for_duplicate_placement_group_error group) (pos 0) not_satisfied
        m,
  )
