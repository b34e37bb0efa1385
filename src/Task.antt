-- ===== src/Task.antt =====
-- reconcileVMTask and reconcileVMFailedTask of controllers/elfmachine_controller.go: what follows
-- when Tower has finished a task of a virtual machine.
pub mod Laws
pub mod Errors
pub mod Finalizer
use cluster_api_provider_elf.Base.{
  ℕ, String, ◌+++◌, Bool, true, false, not, ◌&&◌, ◌||◌, Option, none, some, str_eq, if◌then◌else◌,
  Result, ok, err,
}
use cluster_api_provider_elf.Cache.{GoCache}
use cluster_api_provider_elf.Memory.{Memory, Value}
use cluster_api_provider_elf.Conditions.{
  Conditions, Severity, info, warning, mark_false, reason_of, false_status,
}
use cluster_api_provider_elf.Reasons.{
  vm_provisioned_condition, task_failure_reason, resources_hot_updated_condition,
  expanding_vm_disk_reason, expanding_vm_disk_failed_reason, expanding_vm_compute_resources_reason,
  expanding_vm_compute_resources_failed_reason,
}
use cluster_api_provider_elf.Tower.{Task, TaskStatus, failed, successed}
use cluster_api_provider_elf.Machine.{ElfMachine, set_task, has_task, requires_gpu_devices}
use cluster_api_provider_elf.Context.{MachineContext, get_elf_cluster_id}
use cluster_api_provider_elf.Limiter.{release_ticket_for_create_vm, set_vm_duplicate}
use cluster_api_provider_elf.TowerCache.{
  record_elf_cluster_memory_insufficient, record_elf_cluster_storage_insufficient,
  record_placement_group_policy_not_satisfied,
}
use cluster_api_provider_elf.Gpu.Locks.{LockedGpuMap, unlock_gpu_devices_locked_by_vm}
use cluster_api_provider_elf.Messages.{
  get_tower_string, is_task_not_found, is_vm_duplicate_error, is_gpu_assign_failed,
  is_cloud_init_config_error, is_storage_insufficient_error, is_memory_insufficient_error,
  is_placement_group_error, parse_gpu_assign_failed, format_cloud_init_error, is_clone_vm_task,
  is_power_on_vm_task, is_update_vm_task, is_update_vm_disk_task, is_vm_cold_migration_task,
}

-- The message that a failed task is handled by.
abbrev pub failure_text : Task → String
failure_text task =
    let message = get_tower_string task.error_message in
    if is_gpu_assign_failed message then parse_gpu_assign_failed message else message

-- What a reconcile reads and writes: the machine in its context, the caches, and the GPU locks.
pub record World (S C : Type 0) : Type 0 where
  pub ctx : MachineContext S
  pub memory : Memory C
  pub locks : LockedGpuMap

module _ {S : Type 0} ⦃c : Conditions S⦄ where
  -- conditions.MarkFalse on the machine.
  abbrev pub mark : String → String → Severity → String → ElfMachine S → ElfMachine S
  mark t reason severity text m =
      let s = m.status in
      record m { status = record s { conditions = mark_false t reason severity text s.conditions } }

module _ {S : Type 0} where
  -- The first boot is noted once.
  abbrev pub set_first_boot : ℕ → ElfMachine S → ElfMachine S
  set_first_boot now m = elim m.vm_first_boot_timestamp [
    | none ↦ record m { vm_first_boot_timestamp = some now }
    | some t ↦ m
  ]

module _ {S C : Type 0} ⦃c : Conditions S⦄ ⦃g : GoCache C Value⦄ where
  abbrev pub machine : World S C → ElfMachine S
  machine w = w.ctx.elf_machine

  abbrev pub with_machine : (ElfMachine S → ElfMachine S) → World S C → World S C
  with_machine f w =
      let x = w.ctx in record w { ctx = record x { elf_machine = f w.ctx.elf_machine } }

  abbrev pub with_memory : (Memory C → Memory C) → World S C → World S C
  with_memory f w = record w { memory = f w.memory }

  -- unlockGPUDevicesLockedByVM, for a machine that has GPUs.
  unfoldable pub unlock_gpus : ℕ → World S C → World S C
  unfolding unlock_gpu_devices_locked_by_vm
  unlock_gpus now w =
      if requires_gpu_devices (machine w)
      then record w {
        locks =
            unlock_gpu_devices_locked_by_vm now (get_elf_cluster_id w.ctx) (machine w).name w.locks;
      }
      else w

  -- The failure that the machine reports.
  unfoldable pub report_failure : String → World S C → World S C
  report_failure text w =
      let marked = with_machine (mark vm_provisioned_condition task_failure_reason info text) w in
      if is_cloud_init_config_error text
      then with_machine
          (λ m.
            let s = m.status in
            record m {
              status = record s {
                failure_reason = some "CloudInitConfigError";
                failure_message =
                    some ("VM cloud-init config error: " +++ format_cloud_init_error text);
              };
            })
          marked
      else marked

  -- The mark of a hot update that failed, where one of two reasons stood.
  unfoldable pub fail_hot_update : String → String → String → World S C → World S C
  fail_hot_update running failing text w =
      let reason =
        reason_of (c.get resources_hot_updated_condition (machine w).status.conditions) in
      if str_eq reason running || str_eq reason failing
      then with_machine (mark resources_hot_updated_condition failing warning text) w
      else w

  -- The first switch of reconcileVMFailedTask, by the kind of the task.
  unfoldable pub clean_up : ℕ → Task → String → World S C → World S C
  clean_up now task text w =
      if is_clone_vm_task task
      then unlock_gpus now (
          with_memory
            (λ m.
              let released = release_ticket_for_create_vm (machine w).name m in
              if is_vm_duplicate_error text
              then set_vm_duplicate now (machine w).name released
              else released)
            w)
      else if is_update_vm_disk_task task (machine w).name
      then fail_hot_update expanding_vm_disk_reason expanding_vm_disk_failed_reason text w
      else if is_update_vm_task task
          && false_status (c.get resources_hot_updated_condition (machine w).status.conditions)
      then fail_hot_update expanding_vm_compute_resources_reason
          expanding_vm_compute_resources_failed_reason text w
      else if is_power_on_vm_task task || (is_update_vm_task task || is_vm_cold_migration_task task)
      then unlock_gpus now w
      else w

  -- `group` is the answer of GetVMPlacementGroupName.
  unfoldable pub record_policy_failure :
      ℕ → Result String → World S C → Result (Unit {0}) × World S C
  unfolding record_placement_group_policy_not_satisfied
  record_policy_failure now group w =
      let (answer, m) = record_placement_group_policy_not_satisfied now group true w.memory in
      (
        elim answer [
          | err e ↦ err e
          | ok u ↦ err "The placement group policy can not be satisfied"
        ],
        record w { memory = m },
      )

  -- The second switch, by the message.
  unfoldable pub record_failure :
      ℕ → Result String → String → World S C → Result (Unit {0}) × World S C
  record_failure now group text w =
      if is_vm_duplicate_error text
      then (ok tt, with_memory (set_vm_duplicate now (machine w).name) w)
      else if is_storage_insufficient_error text
      then (
        err ("Insufficient storage detected for the ELF cluster " +++ get_elf_cluster_id w.ctx),
        with_memory (record_elf_cluster_storage_insufficient w.ctx now true) w,
      )
      else if is_memory_insufficient_error text
      then (
        err ("Insufficient memory detected for the ELF cluster " +++ get_elf_cluster_id w.ctx),
        with_memory (record_elf_cluster_memory_insufficient w.ctx now true) w,
      )
      else if is_placement_group_error text
      then record_policy_failure now group w
      else (ok tt, w)

  unfoldable pub reconcile_vm_failed_task :
      ℕ → Result String → Task → World S C → Result (Unit {0}) × World S C
  unfolding report_failure clean_up record_failure
  reconcile_vm_failed_task now group task w =
      let text = failure_text task in
      record_failure now group text (clean_up now task text (report_failure text w))

  -- What a task that succeeded leads to.
  unfoldable pub reconcile_vm_succeeded_task :
      ℕ → Result String → Task → World S C → Result (Unit {0}) × World S C
  unfolding unlock_gpus
  reconcile_vm_succeeded_task now group task w =
      let changes = is_clone_vm_task task || (is_power_on_vm_task task || is_update_vm_task task) in
      let unlocked = if changes then unlock_gpus now w else w in
      let booted =
        if is_power_on_vm_task task then with_machine (set_first_boot now) unlocked else unlocked in
      if changes
      then (let m = record_elf_cluster_memory_insufficient w.ctx now false (
            record_elf_cluster_storage_insufficient w.ctx now false
              (release_ticket_for_create_vm (machine w).name booted.memory)) in
          let (answer, m') = record_placement_group_policy_not_satisfied now group false m in
          (answer, record booted { memory = m' }))
      else (ok tt, booted)

  -- The body of reconcileVMTask from the switch on, whether the task is done, and the error.
  unfoldable pub handle_vm_task :
      ℕ → Result String → Task → World S C → (Bool × Result (Unit {0})) × World S C
  unfolding reconcile_vm_failed_task reconcile_vm_succeeded_task
  handle_vm_task now group task w = elim task.status [
    | failed ↦ let (e, w') = reconcile_vm_failed_task now group task w in ((true, e), w')
    | successed ↦ let (e, w') = reconcile_vm_succeeded_task now group task w in ((true, e), w')
    | _ ↦ ((false, ok tt), w)
  ]

  -- The deferred function: a task that is done is forgotten, and an operation of the virtual machine
  -- that is under way is waited for.
  unfoldable pub settle_task :
      Bool → (Bool × Result (Unit {0})) × World S C → (Bool × Result (Unit {0})) × World S C
  settle_task busy ((done, e), w) =
      ((done && not busy, e), if done then with_machine (set_task "") w else w)

  -- Without a task, the virtual machine may still be performing an operation.
  unfoldable pub without_task : Bool → World S C → (Bool × Result (Unit {0})) × World S C
  without_task busy w = ((not busy, ok tt), w)

  -- `found` is the answer of GetTask, `busy` is whether there is a virtual machine whose
  -- EntityAsyncStatus is set.
  unfoldable pub reconcile_vm_task :
      ℕ → Result String → Result Task → Bool → World S C → (Bool × Result (Unit {0})) × World S C
  unfolding handle_vm_task settle_task without_task
  reconcile_vm_task now group found busy w =
      if has_task (machine w)
      then (elim found [
        | ok task ↦ settle_task busy (handle_vm_task now group task w)
        | err e ↦
            if is_task_not_found e then without_task busy (with_machine (set_task "") w) else (
              (
                false,
                err (
                    "failed to get task "
                    +++ ((machine w).status.task_ref
                        +++ (" for VM " +++ ((machine w).status.vm_ref +++ (": " +++ e))))),
              ),
              w,
            )
      ])
      else without_task busy w
