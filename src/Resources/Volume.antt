-- ===== src/Resources/Volume.antt =====
-- reconcieVMVolume and resizeVMVolume of controllers/elfmachine_controller_resources.go, with
-- GetVMSystemDisk of pkg/service/util.go.
use cluster_api_provider_elf.Base.{
  ℕ, String, ◌+++◌, Bool, true, false, not, ◌&&◌, Option, none, some, List, [], ◌∷◌, ok, err,
  str_eq, if◌then◌else◌,
}
use cluster_api_provider_elf.Base.Int.{ℤ, pos, int32, int64, ◌*ℤ◌, eqb_ℤ, ltb_ℤ, quot_ℤ}
use cluster_api_provider_elf.Action.{pure, raise, attempt, wrap, ◌>>=◌, ◌>>◌}
use cluster_api_provider_elf.Cache.{GoCache}
use cluster_api_provider_elf.Memory.{Value}
use cluster_api_provider_elf.Conditions.{Conditions, info, warning}
use cluster_api_provider_elf.Reasons.{expanding_vm_disk_reason, expanding_vm_disk_failed_reason}
use cluster_api_provider_elf.Tower.{Vm, VmDisk, VmVolume}
use cluster_api_provider_elf.Machine.{ElfMachine, set_task}
use cluster_api_provider_elf.TowerCache.{can_retry_storage_allocation}
use cluster_api_provider_elf.TowerCache.Schedule.{is_elf_cluster_storage_insufficient}
use cluster_api_provider_elf.Task.{mark}
use cluster_api_provider_elf.Outside.{VmService, Reconcile, ask, on_machine, read_ctx}
use cluster_api_provider_elf.Resources.Jobs.{reason_at}
use cluster_api_provider_elf.Resources.Compute.{may_allocate}

abbrev pub gi_b : ℕ
gi_b = 1073741824

unfoldable pub byte_to_gi_b : ℤ → ℤ
unfolding int32
byte_to_gi_b bytes = int32 (quot_ℤ bytes gi_b)

abbrev pub tower_disk : ℤ → ℤ
unfolding int64 ◌*ℤ◌
tower_disk disk_gib = int64 (disk_gib *ℤ pos gi_b)

-- The loop from the first disk on.
unfoldable pub least_boot : VmDisk → List VmDisk → VmDisk
least_boot best [] = best
least_boot best (d ∷ ds) = least_boot (if ltb_ℤ d.boot best.boot then d else best) ds

unfoldable pub get_vm_system_disk : List VmDisk → Option VmDisk
unfolding least_boot
get_vm_system_disk [] = none
get_vm_system_disk (d ∷ ds) = some (least_boot d (d ∷ ds))

abbrev pub note_disk : {S : Type 0} → ℤ → ElfMachine S → ElfMachine S
note_disk size m =
    let s = m.status in
    let r = s.resources in record m { status = record s { resources = record r { disk = size } } }

module _ {S C T : Type 0} (v : VmService S C T) ⦃c : Conditions S⦄ ⦃g : GoCache C Value⦄ where
  -- The call that resizes the volume, unless an operation on it is under way.
  unfoldable pub start_resize : VmVolume → ℤ → String → Reconcile S C T (Unit {0})
  unfolding ◌>>=◌ ◌>>◌ pure raise attempt ask on_machine set_task
  start_resize volume size condition = if volume.entity_async_status then pure tt else do
    resized ← attempt (ask (v.resize_vm_volume volume.id size))
    elim resized [
      | err e ↦ do
        on_machine (mark condition expanding_vm_disk_failed_reason warning e)
        raise ("failed to trigger expand size for vm volume: " +++ e)
      | ok task ↦ on_machine (set_task task)
    ]

  -- The numbers in the text of the error are left out.
  unfoldable pub resize_vm_volume : VmVolume → ℤ → String → Reconcile S C T (Unit {0})
  unfolding ◌>>=◌ ◌>>◌ pure read_ctx on_machine may_allocate start_resize
      is_elf_cluster_storage_insufficient can_retry_storage_allocation
  resize_vm_volume volume size condition = do
    ctx ← read_ctx (λ x. x)
    let reason = reason_at v condition ctx
    (if not (str_eq reason expanding_vm_disk_reason)
          && not (str_eq reason expanding_vm_disk_failed_reason)
        then on_machine (mark condition expanding_vm_disk_reason info "")
        else do
          may ←
              may_allocate v (is_elf_cluster_storage_insufficient ctx)
                (can_retry_storage_allocation ctx)
          (if may
              then start_resize volume size condition
              else on_machine (
                  mark condition expanding_vm_disk_reason info
                    "Waiting for the ELF cluster with sufficient storage")))

  unfoldable pub size_volume : VmVolume → String → Reconcile S C T Bool
  unfolding ◌>>=◌ ◌>>◌ pure read_ctx on_machine byte_to_gi_b tower_disk resize_vm_volume
  size_volume volume condition = do
    on_machine (note_disk (byte_to_gi_b volume.size))
    ctx ← read_ctx (λ x. x)
    let wanted = ctx.elf_machine.spec.disk_gib
    (if ltb_ℤ (byte_to_gi_b volume.size) wanted
        then resize_vm_volume volume (tower_disk wanted) condition >> pure false
        else pure true)

  unfoldable pub by_disk : Vm → String → Option VmDisk → Reconcile S C T Bool
  unfolding ◌>>=◌ raise ask size_volume
  by_disk vm condition none = raise ("no disks found for vm " +++ (vm.id +++ ("/" +++ vm.name)))
  by_disk vm condition (some disk) = do
    volume ← ask (v.get_vm_volume disk.vm_volume_id)
    size_volume volume condition

  -- reconcieVMVolume, for the condition that is to tell of it.
  unfoldable pub reconcile_vm_volume : Vm → String → Reconcile S C T Bool
  unfolding ◌>>=◌ pure wrap ask read_ctx get_vm_system_disk by_disk
  reconcile_vm_volume vm condition = do
    ctx ← read_ctx (λ x. x)
    (if eqb_ℤ ctx.elf_machine.spec.disk_gib (pos 0) then pure true else do
      disks ←
          wrap ("failed to get disks for vm " +++ (vm.id +++ ("/" +++ vm.name)))
            (ask (v.get_vm_disks vm.vm_disks))
      by_disk vm condition (get_vm_system_disk disks))
