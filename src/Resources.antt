-- ===== src/Resources.antt =====
-- controllers/elfmachine_controller_resources.go: how the resources of a virtual machine are brought
-- to what its machine asks for. The jobs of the host agent are in Jobs, the CPU and the memory in
-- Compute, the disk in Volume, the network devices in Network.
mod Jobs
mod Compute
mod Volume
mod Network
mod SystemDisk
mod Frame
pub mod Enough
unfoldable pub use Jobs.*
unfoldable pub use Compute.*
unfoldable pub use Volume.*
unfoldable pub use Network.*
use cluster_api_provider_elf.Base.{Bool, true, false, if◌then◌else◌}
use cluster_api_provider_elf.Action.{pure, ◌>>=◌, ◌>>◌}
use cluster_api_provider_elf.Cache.{GoCache}
use cluster_api_provider_elf.Memory.{Value}
use cluster_api_provider_elf.Conditions.{Conditions, false_status, mark_true}
use cluster_api_provider_elf.Reasons.{resources_hot_updated_condition}
use cluster_api_provider_elf.Tower.{Vm}
use cluster_api_provider_elf.Machine.{ElfMachine}
use cluster_api_provider_elf.Outside.{VmService, Reconcile, read_ctx, on_machine}

module _ {S C T : Type 0} (v : VmService S C T) (agent : HostAgent S C T) ⦃c : Conditions S⦄
    ⦃g : GoCache C Value⦄ where
  abbrev pub mark_updated : ElfMachine S → ElfMachine S
  mark_updated m =
      let s = m.status in
      record m {
        status = record s { conditions = mark_true resources_hot_updated_condition s.conditions };
      }

  unfoldable pub finish_update : Reconcile S C T Bool
  unfolding ◌>>=◌ ◌>>◌ pure read_ctx on_machine
  finish_update = do
    ctx ← read_ctx (λ x. x)
    let st = c.get resources_hot_updated_condition ctx.elf_machine.status.conditions
    (if false_status st then on_machine mark_updated >> pure true else pure true)

  -- A step that is not done ends the reconcile.
  abbrev pub and_then : Reconcile S C T Bool → Reconcile S C T Bool → Reconcile S C T Bool
  unfolding ◌>>=◌ pure
  and_then m rest = do done ← m; (if done then rest else pure false)

  unfoldable pub reconcile_vm_resources : Vm → Reconcile S C T Bool
  unfolding and_then reconcile_vm_cpu_and_memory restart_kubelet reconcile_vm_volume
      expand_vm_root_partition reconcile_vm_network_devices finish_update
  reconcile_vm_resources vm = and_then (reconcile_vm_cpu_and_memory v vm) (
      and_then (restart_kubelet v agent) (
        and_then (reconcile_vm_volume v vm resources_hot_updated_condition) (
          and_then (expand_vm_root_partition v agent)
            (and_then (reconcile_vm_network_devices v agent vm) finish_update))))
