-- ===== src/Lifecycle.antt =====
-- The operations on a virtual machine of controllers/elfmachine_controller.go that its status calls
-- for: reconcileVMStatus, shutDownVM, powerOffVM, powerOnVM and updateVM.
pub mod Deletion
pub mod Creation
pub mod BringUp
pub mod Laws
use cluster_api_provider_elf.Base.{
  ℕ, ◌+◌, ◌/◌, String, ◌+++◌, Bool, true, false, not, ◌&&◌, ◌||◌, Option, none, some, if◌then◌else◌,
  Result, ok, err, str_eq,
}
use cluster_api_provider_elf.Base.Int.{ℤ, pos, pos_part, neg_part, sub_ℕ, ltb_ℤ, leb_ℤ}
use cluster_api_provider_elf.Action.{Action, pure, raise, attempt, step, from_result, ◌>>=◌, ◌>>◌}
use cluster_api_provider_elf.Cache.{GoCache}
use cluster_api_provider_elf.Memory.{Memory, Value}
use cluster_api_provider_elf.Conditions.{
  Conditions, Severity, info, warning, message_of, has_status, false_status,
}
use cluster_api_provider_elf.Reasons.{
  vm_provisioned_condition, resources_hot_updated_condition, shutting_down_reason,
  shutting_down_failed_reason, power_off_reason, powering_off_failed_reason, powering_on_reason,
  powering_on_failed_reason, updating_reason, updating_failed_reason,
}
use cluster_api_provider_elf.Tower.{Vm, VmStatus, running, stopped, suspended, deleted, unknown}
use cluster_api_provider_elf.Machine.{ElfMachine, set_task, requires_gpu_devices}
use cluster_api_provider_elf.Context.{MachineContext}
use cluster_api_provider_elf.Messages.{is_shut_down_timeout}
use cluster_api_provider_elf.Limiter.{acquire_ticket_for_updating_vm}
use cluster_api_provider_elf.TowerCache.{can_retry_vm_operation}
use cluster_api_provider_elf.TowerCache.Schedule.{is_elf_schedule_vm_error_recorded}
use cluster_api_provider_elf.Task.{mark}
use cluster_api_provider_elf.Outside.{
  VmService, Call, Site, Reconcile, ask, on_machine, on_memory, read_ctx, time_now,
}
use cluster_api_provider_elf.PlacementGroup.{group_name}

abbrev pub tower_vcpu : ℤ → ℤ → ℤ
tower_vcpu vm_num_cpus vcpu = if leb_ℤ vcpu (pos 0) then vm_num_cpus else vcpu

abbrev pub tower_cpu_socket_cores : ℤ → ℤ → ℤ
tower_cpu_socket_cores cores vcpu = if leb_ℤ cores (pos 0) then vcpu else cores

abbrev pub same_sign : ℤ → ℤ → Bool
same_sign a b = if ltb_ℤ a (pos 0) then ltb_ℤ b (pos 0) else not (ltb_ℤ b (pos 0))

-- Go's division, towards zero. The cores are never 0: they are positive or the number of CPUs.
abbrev pub tower_cpu_sockets : ℤ → ℤ → ℤ
tower_cpu_sockets vcpu cores =
    let n = (pos_part vcpu + neg_part vcpu) / (pos_part cores + neg_part cores) in
    if same_sign vcpu cores then pos n else sub_ℕ 0 n

abbrev pub never_booted : Option ℕ → Bool
never_booted none = true
never_booted (some t) = false

module _ {S C T : Type 0} (v : VmService S C T) ⦃c : Conditions S⦄ ⦃g : GoCache C Value⦄ where
  -- The ticket for an operation on the machine's virtual machine: without it nothing is done.
  unfoldable pub with_vm_ticket : Reconcile S C T (Unit {0}) → Reconcile S C T (Unit {0})
  unfolding ◌>>=◌ pure on_memory time_now read_ctx acquire_ticket_for_updating_vm
  with_vm_ticket body = do
    ctx ← read_ctx (λ x. x)
    now ← time_now v
    acquired ← on_memory (acquire_ticket_for_updating_vm now ctx.elf_machine.name)
    (if acquired then body else pure tt)

  -- What follows a call that starts a task: the machine is marked, and notes the task.
  unfoldable pub note_started :
      String → String → String → Result String → Reconcile S C T (Unit {0})
  unfolding ◌>>=◌ ◌>>◌ raise on_machine set_task
  note_started started failing text (err e) = do
    on_machine (mark vm_provisioned_condition failing warning e)
    raise (text +++ (": " +++ e))
  note_started started failing text (ok task) = do
    on_machine (mark vm_provisioned_condition started info "")
    on_machine (set_task task)

  -- A call on the virtual machine, under the ticket.
  unfoldable pub start_operation :
      String → String → String → (MachineContext S → Call C T String) → Reconcile S C T (Unit {0})
  unfolding ◌>>=◌ attempt ask read_ctx with_vm_ticket note_started
  start_operation started failing text call = with_vm_ticket (do
    ctx ← read_ctx (λ x. x)
    answer ← attempt (ask (call ctx))
    note_started started failing text answer)

  -- Where the text of an error prints the Go context, that is left out.
  unfoldable pub shut_down_vm : Reconcile S C T (Unit {0})
  unfolding start_operation
  shut_down_vm =
      start_operation shutting_down_reason shutting_down_failed_reason
        "failed to trigger shut down for VM" (λ ctx. v.shut_down ctx.elf_machine.status.vm_ref)

  unfoldable pub power_off_vm : Reconcile S C T (Unit {0})
  unfolding start_operation
  power_off_vm =
      start_operation power_off_reason powering_off_failed_reason
        "failed to trigger powering off for VM" (λ ctx. v.power_off ctx.elf_machine.status.vm_ref)

  unfoldable pub update_vm : Vm → Reconcile S C T (Unit {0})
  unfolding start_operation
  update_vm vm =
      start_operation updating_reason updating_failed_reason "failed to trigger update for VM"
        (λ ctx. v.update_vm vm ctx.elf_machine)

  -- A machine with GPUs starts on the host that has them.
  abbrev pub start_host : Vm → ElfMachine S → String
  start_host vm m = if requires_gpu_devices m then vm.host_id else ""

  unfoldable pub start_vm : Vm → Reconcile S C T (Unit {0})
  unfolding start_operation requires_gpu_devices
  start_vm vm =
      start_operation powering_on_reason powering_on_failed_reason
        "failed to trigger power on for VM"
        (λ ctx. v.power_on ctx.elf_machine.status.vm_ref (start_host vm ctx.elf_machine))

  -- isELFScheduleVMErrorRecorded on the machine of the reconcile.
  unfoldable pub schedule_error : Result String → Reconcile S C T (Bool × String)
  unfolding is_elf_schedule_vm_error_recorded
  schedule_error name s =
      let ctx = s.ctx in
      let x = s.shared in
      let (answer, m, memory) =
        is_elf_schedule_vm_error_recorded ctx (v.now x.outside) name x.memory in
      (
        answer,
        record s { ctx = record ctx { elf_machine = m }; shared = record x { memory = memory } },
      )

  -- canRetryVMOperation, where an error is recorded.
  unfoldable pub may_retry : Result String → Bool × String → Reconcile S C T Bool
  unfolding ◌>>=◌ pure read_ctx time_now on_memory from_result can_retry_vm_operation
  may_retry name (false, message) = pure true
  may_retry name (true, message) = do
    ctx ← read_ctx (λ x. x)
    now ← time_now v
    answer ← on_memory (can_retry_vm_operation ctx now name)
    from_result answer

  -- The name of the placement group, which the two checks read where they need it, is read first.
  unfoldable pub power_on_vm : Vm → Reconcile S C T (Unit {0})
  unfolding ◌>>=◌ pure attempt group_name schedule_error may_retry start_vm
  power_on_vm vm = do
    name ← attempt (group_name v)
    recorded ← schedule_error name
    may ← may_retry name recorded
    (if may then start_vm vm else pure tt)

  -- Whether the virtual machine has more CPUs than it is to have: GetUpdatedVMRestrictedFields is
  -- not empty.
  unfoldable pub has_updated_restricted_fields : Vm → ElfMachine S → Bool
  has_updated_restricted_fields vm m =
      let vcpu = tower_vcpu v.vm_num_cpus m.spec.num_cpus in
      let cores = tower_cpu_socket_cores m.spec.num_cores_per_socket vcpu in
      ltb_ℤ vcpu vm.vcpu
      || (ltb_ℤ cores vm.cpu_cores || ltb_ℤ (tower_cpu_sockets vcpu cores) vm.cpu_sockets)

  unfoldable pub is_hot_updating : ElfMachine S → Bool
  is_hot_updating m =
      let st = c.get resources_hot_updated_condition m.status.conditions in
      has_status st && false_status st

  -- `restores` is IsAllowCustomVMConfig, which tells whether a configuration that was changed is
  -- restored, and `volume` is reconcieVMVolume.
  module _ (restores : Bool) (volume : Vm → Reconcile S C T Bool) where
    abbrev pub then_false : Reconcile S C T (Unit {0}) → Reconcile S C T Bool
    then_false m = do m; pure false

    unfoldable pub when_running : Bool → Reconcile S C T Bool
    unfolding ◌>>=◌ ◌>>◌ pure read_ctx is_shut_down_timeout power_off_vm shut_down_vm
    when_running changed = if not changed then pure true else do
      ctx ← read_ctx (λ x. x)
      let message = message_of (c.get vm_provisioned_condition ctx.elf_machine.status.conditions)
      then_false (if is_shut_down_timeout message then power_off_vm else shut_down_vm)

    -- Before the first start the disk is enlarged, where it is too small.
    unfoldable pub when_stopped : Bool → Vm → Reconcile S C T Bool
    unfolding ◌>>=◌ ◌>>◌ pure read_ctx is_hot_updating update_vm power_on_vm
    when_stopped changed vm = if changed then then_false (update_vm vm) else do
      ctx ← read_ctx (λ x. x)
      let fresh = never_booted ctx.elf_machine.vm_first_boot_timestamp
      sized ← (if fresh && not (is_hot_updating ctx.elf_machine) then volume vm else pure true)
      if not sized then pure false else then_false (power_on_vm vm)

    unfoldable pub by_status : Bool → Vm → Option VmStatus → Reconcile S C T Bool
    unfolding ◌>>=◌ ◌>>◌ pure when_running when_stopped power_off_vm
    by_status changed vm (some running) = when_running changed
    by_status changed vm (some stopped) = when_stopped changed vm
    by_status changed vm (some suspended) = then_false power_off_vm
    by_status changed vm _ = pure false

    unfoldable pub reconcile_vm_status : Vm → Reconcile S C T Bool
    unfolding ◌>>=◌ read_ctx has_updated_restricted_fields by_status
    reconcile_vm_status vm = do
      ctx ← read_ctx (λ x. x)
      by_status (has_updated_restricted_fields vm ctx.elf_machine && restores) vm vm.status
