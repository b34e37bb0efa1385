-- ===== src/Lifecycle/Deletion.antt =====
-- The deletion of virtual machines in controllers/elfmachine_controller.go: reconcileDelete,
-- reconcileDeleteVM, deleteDuplicateVMs and deleteVM, and GetVMRef of pkg/util/tower.go.
pub mod Laws
pub mod Steps
pub mod Finalizer
use cluster_api_provider_elf.Base.{
  ℕ, ◌+◌, String, Bool, true, false, not, ◌&&◌, ◌||◌, Option, none, some, List, [], ◌∷◌, length,
  leb, ltb, str_eq, if◌then◌else◌, Result, ok, err,
}
use cluster_api_provider_elf.Action.{pure, raise, attempt, deferred, ◌>>=◌, ◌>>◌}
use cluster_api_provider_elf.Cache.{GoCache}
use cluster_api_provider_elf.Memory.{Value}
use cluster_api_provider_elf.Conditions.{Conditions, info, warning, message_of}
use cluster_api_provider_elf.Reasons.{vm_provisioned_condition}
use cluster_api_provider_elf.Tower.{Vm, Task}
use cluster_api_provider_elf.Uuid.{is_uuid}
use cluster_api_provider_elf.Machine.{
  ElfMachine, set_vm, has_vm, set_task, has_task, requires_vgpu_devices, requires_gpu_devices,
}
use cluster_api_provider_elf.Context.{MachineContext}
use cluster_api_provider_elf.Messages.{is_vm_not_found, is_shut_down_timeout}
use cluster_api_provider_elf.Task.{World, mark, reconcile_vm_task, unlock_gpus}
use cluster_api_provider_elf.Outside.{
  VmService, Site, Reconcile, ask, on_machine, set_machine, read_ctx, time_now,
}
use cluster_api_provider_elf.PlacementGroup.{group_name}
use cluster_api_provider_elf.PlacementGroup.Room.{is_running, is_stopped}
use cluster_api_provider_elf.PlacementGroup.Removal.{delete_placement_group}

unfoldable pub get_vm_ref : Vm → String
unfolding is_uuid
get_vm_ref vm = if is_uuid vm.local_id then vm.local_id else vm.id

abbrev pub check_duplicate_vm_duration : ℕ
check_duplicate_vm_duration = 3600

abbrev pub deleting_reason : String
deleting_reason = "Deleting"

abbrev pub deletion_failed_reason : String
deletion_failed_reason = "DeletionFailed"

abbrev pub remove_finalizer : {S : Type 0} → ElfMachine S → ElfMachine S
remove_finalizer m = record m { has_finalizer = false }

module _ {S C T : Type 0} (v : VmService S C T) ⦃c : Conditions S⦄ ⦃g : GoCache C Value⦄ where
  -- What Tower is asked before reconcileVMTask handles the task, which then is one step on the
  -- memory, the locks and the machine. `busy` is whether the virtual machine performs an operation.
  unfoldable pub handle_task : ℕ → Result String → Result Task → Bool → Reconcile S C T Bool
  unfolding reconcile_vm_task
  handle_task now name found busy s =
      let x = s.shared in
      let w : World S C = record { ctx = s.ctx; memory = x.memory; locks = x.locks } in
      let ((done, e), w') = reconcile_vm_task now name found busy w in
      (
        elim e [ ok u ↦ ok done | err text ↦ err text ],
        record { ctx = w'.ctx; shared = record x { memory = w'.memory; locks = w'.locks } },
      )

  unfoldable pub run_task : Bool → Reconcile S C T Bool
  unfolding ◌>>=◌ attempt ask read_ctx time_now group_name has_task handle_task
  run_task busy = do
    ctx ← read_ctx (λ x. x)
    let m = ctx.elf_machine
    found ← attempt (if has_task m then ask (v.get_task m.status.task_ref) else raise "")
    name ← attempt (group_name v)
    now ← time_now v
    handle_task now name found busy

  -- A virtual machine that runs is stopped first: shut down where a vGPU license or the cluster wants
  -- that and it has not timed out, powered off otherwise.
  abbrev pub is_powered_off : MachineContext S → Bool
  is_powered_off ctx =
      is_shut_down_timeout
        (message_of (c.get vm_provisioned_condition ctx.elf_machine.status.conditions))
      || not (requires_vgpu_devices ctx.elf_machine || ctx.vm_graceful_shutdown)

  unfoldable pub stop_vm : Reconcile S C T (Unit {0})
  unfolding ◌>>=◌ ask read_ctx on_machine set_task is_shut_down_timeout requires_vgpu_devices
  stop_vm = do
    ctx ← read_ctx (λ x. x)
    let ref = ctx.elf_machine.status.vm_ref
    task ← ask (if is_powered_off ctx then v.power_off ref else v.shut_down ref)
    on_machine (set_task task)

  -- The node goes first.
  unfoldable pub destroy_vm : Reconcile S C T (Unit {0})
  unfolding ◌>>=◌ ◌>>◌ ask read_ctx on_machine set_task
  destroy_vm = do
    ctx ← read_ctx (λ x. x)
    ask (v.delete_node ctx)
    task ← ask (v.delete ctx.elf_machine.status.vm_ref)
    on_machine (set_task task)

  -- What follows the answer of Get.
  unfoldable pub delete_found_vm : Result Vm → Reconcile S C T (Unit {0})
  unfolding ◌>>=◌ ◌>>◌ pure raise on_machine set_vm is_vm_not_found run_task stop_vm destroy_vm
  delete_found_vm (err e) = if is_vm_not_found e then on_machine (set_vm "") >> raise e else raise e
  delete_found_vm (ok vm) = do
    done ← run_task vm.entity_async_status
    if not done then pure tt else if is_running vm then stop_vm else destroy_vm

  unfoldable pub reconcile_delete_vm : Reconcile S C T (Unit {0})
  unfolding ◌>>=◌ attempt ask read_ctx delete_found_vm
  reconcile_delete_vm = do
    ctx ← read_ctx (λ x. x)
    found ← attempt (ask (v.get ctx.elf_machine.status.vm_ref))
    delete_found_vm found

  -- A duplicate that performs an operation is left for later.
  unfoldable pub delete_vm : Vm → Reconcile S C T (Unit {0})
  unfolding ◌>>=◌ pure ask
  delete_vm vm = if vm.entity_async_status then pure tt else do task ← ask (v.delete vm.id); pure tt

  -- The loop over the duplicates: the first one that is not the machine's own and is stopped is
  -- deleted. The answer is whether to come back.
  unfoldable pub delete_first : String → List Vm → Reconcile S C T Bool
  unfolding ◌>>=◌ ◌>>◌ pure delete_vm
  delete_first own [] = pure false
  delete_first own (vm ∷ vms) =
      let rest = delete_first own vms in
      if str_eq vm.id own || (str_eq vm.local_id own || not (is_stopped vm))
      then rest
      else (do delete_vm vm; pure true)

  unfoldable pub delete_duplicate_vms : Reconcile S C T Bool
  unfolding ◌>>=◌ pure ask read_ctx time_now delete_first
  delete_duplicate_vms = do
    ctx ← read_ctx (λ x. x)
    now ← time_now v
    let m = ctx.elf_machine
    if not m.deleted && ltb (m.creation_timestamp + check_duplicate_vm_duration) now
        then pure false
        else do
          vms ← ask (v.find_vms_by_name m.name)
          (if leb (length vms) 1
              then pure false
              else if str_eq m.status.vm_ref ""
              then pure true
              else delete_first m.status.vm_ref vms)

  -- The last part of reconcileDelete.
  unfoldable pub delete_last : Result (Unit {0}) → Reconcile S C T Bool
  unfolding ◌>>=◌ ◌>>◌ pure raise on_machine is_vm_not_found
  delete_last (ok u) = pure true
  delete_last (err e) =
      if is_vm_not_found e
      then on_machine remove_finalizer >> pure false
      else on_machine (mark vm_provisioned_condition deletion_failed_reason warning e) >> raise e

  unfoldable pub delete_created : Reconcile S C T Bool
  unfolding ◌>>=◌ pure attempt delete_duplicate_vms reconcile_delete_vm delete_last
  delete_created = do
    again ← delete_duplicate_vms
    if again then pure true else do answer ← attempt reconcile_delete_vm; delete_last answer

  -- A virtual machine that the machine has not saved is looked for by its name.
  unfoldable pub delete_unsaved : Result Vm → Reconcile S C T Bool
  unfolding ◌>>=◌ ◌>>◌ pure raise on_machine is_vm_not_found set_vm get_vm_ref delete_created
  delete_unsaved (ok vm) = on_machine (set_vm (get_vm_ref vm)) >> delete_created
  delete_unsaved (err e) =
      if is_vm_not_found e then on_machine remove_finalizer >> pure false else raise e

  unfoldable pub delete_machine : Reconcile S C T Bool
  unfolding ◌>>=◌ ◌>>◌ pure attempt ask read_ctx on_machine has_vm delete_placement_group
      delete_created delete_unsaved
  delete_machine = do
    gone ← delete_placement_group v
    ctx ← read_ctx (λ x. x)
    if not gone
        then pure true
        else if ctx.force_delete_cluster
        then on_machine remove_finalizer >> pure false
        else if has_vm ctx.elf_machine
        then delete_created
        else do found ← attempt (ask (v.get_by_name ctx.elf_machine.name)); delete_unsaved found

  -- The deferred release of the GPUs of a machine that is let go.
  unfoldable pub let_go : Site S C T → Site S C T
  unfolding unlock_gpus requires_gpu_devices
  let_go s =
      let x = s.shared in
      let w : World S C = record { ctx = s.ctx; memory = x.memory; locks = x.locks } in
      if s.ctx.elf_machine.has_finalizer
      then s
      else record s { shared = record x { locks = (unlock_gpus (v.now x.outside) w).locks } }

  -- The answer is whether to come back after DefaultRequeueTimeout.
  unfoldable pub reconcile_delete : Reconcile S C T Bool
  unfolding ◌>>=◌ ◌>>◌ deferred on_machine delete_machine let_go
  reconcile_delete = do
    on_machine (mark vm_provisioned_condition deleting_reason info "")
    deferred (λ _. let_go) delete_machine
