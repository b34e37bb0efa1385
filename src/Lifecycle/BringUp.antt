-- ===== src/Lifecycle/BringUp.antt =====
-- reconcileVM of controllers/elfmachine_controller.go: how a virtual machine gets from nothing to
-- running in its placement group, one reconcile after the other.
pub mod Laws
use cluster_api_provider_elf.Base.{
  ℕ, String, ◌+++◌, Bool, true, false, not, Option, none, some, if◌then◌else◌, Result, ok, err,
}
use cluster_api_provider_elf.Action.{pure, ◌>>=◌, ◌>>◌}
use cluster_api_provider_elf.Cache.{GoCache}
use cluster_api_provider_elf.Memory.{Value}
use cluster_api_provider_elf.Conditions.{Conditions}
use cluster_api_provider_elf.Tower.{Vm}
use cluster_api_provider_elf.Uuid.{is_uuid}
use cluster_api_provider_elf.Machine.{ElfMachine, set_vm, has_vm}
use cluster_api_provider_elf.Context.{MachineContext}
use cluster_api_provider_elf.Outside.{VmService, Call, Reconcile, on_machine, read_ctx}
use cluster_api_provider_elf.PlacementGroup.Join.{join_placement_group}
use cluster_api_provider_elf.Lifecycle.{reconcile_vm_status}
use cluster_api_provider_elf.Lifecycle.Deletion.{get_vm_ref, run_task}
use cluster_api_provider_elf.Lifecycle.Creation.{
  Choice, Bootstrap, fail_machine, is_vm_in_recycle_bin, get_vm, create_vm,
}

-- The parts of the controller that are parameters: reconcileHostAndZone, reconcileGPUDevices,
-- reconcieVMVolume and reconcileVMResources, with IsAllowCustomVMConfig.
pub record Parts (S C T : Type 0) : Type 0 where
  pub maximum : ℕ
  pub bootstrap : MachineContext S → Call C T Bootstrap
  pub select_host : Reconcile S C T Choice
  pub host_and_zone : Vm → Reconcile S C T (Unit {0})
  pub gpu_devices : Vm → Reconcile S C T Bool
  pub restores : Bool
  pub volume : Vm → Reconcile S C T Bool
  pub resources : Vm → Reconcile S C T Bool

-- The virtual machine, and whether it is as it is to be.
abbrev pub Seen : Type 0
Seen = Option Vm × Bool

abbrev pub forget_disconnection : {S : Type 0} → ElfMachine S → ElfMachine S
forget_disconnection m = record m { vm_disconnection_timestamp = none }

abbrev pub recycled : {S : Type 0} → ElfMachine S → ElfMachine S
recycled m =
    fail_machine "MovedToRecycleBin"
      ("The VM "
        +++ (m.status.vm_ref
            +++ " was moved to the Tower recycle bin by users, so treat it as deleted."))
      m

-- A machine that names its virtual machine by a UUID keeps that name.
abbrev pub name_vm : {S : Type 0} → String → ElfMachine S → ElfMachine S
name_vm ref m = if is_uuid m.status.vm_ref then m else set_vm ref m

module _ {S C T : Type 0} (v : VmService S C T) (parts : Parts S C T) ⦃c : Conditions S⦄
    ⦃g : GoCache C Value⦄ where
  -- One step of the way: where it is not done, the rest waits.
  abbrev pub when_done : Vm → Reconcile S C T Bool → Reconcile S C T Seen → Reconcile S C T Seen
  when_done vm m rest = do done ← m; (if done then rest else pure (some vm, false))

  -- From the placement group to the resources.
  unfoldable pub bring_up : Vm → Reconcile S C T Seen
  unfolding ◌>>=◌ pure join_placement_group reconcile_vm_status
  bring_up vm = when_done vm (join_placement_group v vm) (
      when_done vm (parts.gpu_devices vm) (
        when_done vm (reconcile_vm_status v parts.restores parts.volume vm)
          (when_done vm (parts.resources vm) (pure (some vm, true)))))

  -- A virtual machine that Tower has created.
  unfoldable pub use_created : Vm → Reconcile S C T Seen
  unfolding ◌>>=◌ ◌>>◌ pure on_machine set_vm is_uuid is_vm_in_recycle_bin bring_up
  use_created vm = do
    on_machine (name_vm (get_vm_ref vm))
    parts.host_and_zone vm
    (if is_vm_in_recycle_bin vm
        then (do on_machine recycled; on_machine (set_vm ""); pure (some vm, false))
        else bring_up vm)

  unfoldable pub use_vm : Vm → Reconcile S C T Seen
  unfolding ◌>>=◌ ◌>>◌ pure on_machine is_uuid get_vm_ref run_task use_created
  use_vm vm = do
    on_machine forget_disconnection
    when_done vm (run_task v vm.entity_async_status)
        (if is_uuid (get_vm_ref vm) then use_created vm else pure (some vm, false))

  unfoldable pub reconcile_vm : Reconcile S C T Seen
  unfolding ◌>>=◌ pure read_ctx has_vm create_vm get_vm use_vm
  reconcile_vm = do
    ctx ← read_ctx (λ x. x)
    there ←
        (if has_vm ctx.elf_machine
          then pure true
          else create_vm v parts.maximum parts.bootstrap parts.select_host)
    (if there then (do vm ← get_vm v; use_vm vm) else pure (none, false))
