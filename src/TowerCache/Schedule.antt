-- ===== src/TowerCache/Schedule.antt =====
-- isELFScheduleVMErrorRecorded of controllers/tower_cache.go: the gate before a virtual machine is
-- created or powered on.
use cluster_api_provider_elf.Base.{
  ℕ, String, ◌+++◌, Bool, true, false, Option, none, some, Result, ok, err,
}
use cluster_api_provider_elf.Cache.{GoCache}
use cluster_api_provider_elf.Conditions.{Conditions, info, mark_false}
use cluster_api_provider_elf.Memory.{Memory, Value}
use cluster_api_provider_elf.Machine.{ElfMachine}
use cluster_api_provider_elf.Context.{MachineContext, get_elf_cluster_id}
use cluster_api_provider_elf.Reasons.{
  vm_provisioned_condition, waiting_for_elf_cluster_with_sufficient_memory_reason,
  waiting_for_elf_cluster_with_sufficient_storage_reason,
  waiting_for_placement_group_policy_satisfied_reason,
}
use cluster_api_provider_elf.TowerCache.{
  get_key_for_insufficient_memory_error, get_key_for_insufficient_storage_error,
  get_key_for_duplicate_placement_group_error, get_cluster_resource,
}

-- The answer with the message, the ElfMachine and the memory.
abbrev pub Recorded : Type 0 → Type 0 → Type 0
Recorded S C = Result (Bool × String) × ElfMachine S × Memory C

module _ {S : Type 0} ⦃c : Conditions S⦄ where
  -- conditions.MarkFalse on VMProvisionedCondition, with severity info and no message.
  abbrev pub mark_waiting : String → ElfMachine S → ElfMachine S
  mark_waiting reason m =
      let s = m.status in
      record m {
        status = record s {
          conditions = mark_false vm_provisioned_condition reason info "" s.conditions;
        };
      }

module _ {S C : Type 0} ⦃c : Conditions S⦄ ⦃g : GoCache C Value⦄ (ctx : MachineContext S) where
  -- isELFClusterMemoryInsufficient and isELFClusterStorageInsufficient
  unfoldable pub is_elf_cluster_memory_insufficient : ℕ → Memory C → Option String × Memory C
  is_elf_cluster_memory_insufficient now m =
      let id = get_elf_cluster_id ctx in
      let (found, m') = get_cluster_resource now (get_key_for_insufficient_memory_error id) m in
      (
        elim found [
          | none ↦ none
          | some p ↦ some ("Insufficient memory detected for the ELF cluster " +++ id)
        ],
        m',
      )

  unfoldable pub is_elf_cluster_storage_insufficient : ℕ → Memory C → Option String × Memory C
  is_elf_cluster_storage_insufficient now m =
      let id = get_elf_cluster_id ctx in
      let (found, m') = get_cluster_resource now (get_key_for_insufficient_storage_error id) m in
      (
        elim found [
          | none ↦ none
          | some p ↦ some ("Insufficient storage detected for the ELF cluster " +++ id)
        ],
        m',
      )

  -- The third test, under the answer of GetVMPlacementGroupName.
  unfoldable pub is_placement_group_unsatisfied : ℕ → Result String → Memory C → Recorded S C
  is_placement_group_unsatisfied now (err e) m = (err e, ctx.elf_machine, m)
  is_placement_group_unsatisfied now (ok group) m =
      let (found, m') =
        get_cluster_resource now (get_key_for_duplicate_placement_group_error group) m in
      elim found [
        | none ↦ (ok (false, ""), ctx.elf_machine, m')
        | some p ↦ (
          ok (true, "Not satisfy policy detected for the placement group " +++ group),
          mark_waiting waiting_for_placement_group_policy_satisfied_reason ctx.elf_machine,
          m',
        )
      ]

  unfoldable pub is_elf_schedule_vm_error_recorded : ℕ → Result String → Memory C → Recorded S C
  unfolding is_elf_cluster_memory_insufficient is_elf_cluster_storage_insufficient
      is_placement_group_unsatisfied
  is_elf_schedule_vm_error_recorded now name m =
      let (by_memory, m₁) = is_elf_cluster_memory_insufficient now m in
      elim by_memory [
        | some message ↦ (
          ok (true, message),
          mark_waiting waiting_for_elf_cluster_with_sufficient_memory_reason ctx.elf_machine,
          m₁,
        )
        | none ↦
            let (by_storage, m₂) = is_elf_cluster_storage_insufficient now m₁ in
            elim by_storage [
              | some message ↦ (
                ok (true, message),
                mark_waiting waiting_for_elf_cluster_with_sufficient_storage_reason ctx.elf_machine,
                m₂,
              )
              | none ↦ is_placement_group_unsatisfied now name m₂
            ]
      ]
