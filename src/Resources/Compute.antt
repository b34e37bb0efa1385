-- ===== src/Resources/Compute.antt =====
-- reconcileVMCPUAndMemory of controllers/elfmachine_controller_resources.go.
use cluster_api_provider_elf.Base.{
  ℕ, String, ◌+++◌, Bool, true, false, not, ◌&&◌, ◌||◌, Option, none, some, Result, ok, err, str_eq,
  if◌then◌else◌,
}
use cluster_api_provider_elf.Base.Int.{ℤ, pos, int64, ◌*ℤ◌, ltb_ℤ, quot_ℤ}
use cluster_api_provider_elf.Action.{pure, raise, attempt, ◌>>=◌, ◌>>◌}
use cluster_api_provider_elf.Cache.{GoCache}
use cluster_api_provider_elf.Memory.{Memory, Value}
use cluster_api_provider_elf.Conditions.{Conditions, info, warning}
use cluster_api_provider_elf.Reasons.{
  expanding_vm_compute_resources_reason, expanding_vm_compute_resources_failed_reason,
}
use cluster_api_provider_elf.Tower.{Vm}
use cluster_api_provider_elf.Machine.{ElfMachine, set_task}
use cluster_api_provider_elf.Context.{MachineContext}
use cluster_api_provider_elf.TowerCache.{can_retry_memory_allocation}
use cluster_api_provider_elf.TowerCache.Schedule.{is_elf_cluster_memory_insufficient}
use cluster_api_provider_elf.Limiter.{acquire_ticket_for_updating_vm}
use cluster_api_provider_elf.Outside.{
  VmService, Reconcile, ask, on_machine, on_memory, read_ctx, time_now,
}
use cluster_api_provider_elf.Resources.Jobs.{update_reason, mark_update}

abbrev pub mi_b : ℕ
mi_b = 1048576

abbrev pub byte_to_mi_b : ℤ → ℤ
byte_to_mi_b bytes = quot_ℤ bytes mi_b

abbrev pub note_compute : {S : Type 0} → Vm → ElfMachine S → ElfMachine S
note_compute vm m =
    let s = m.status in
    let r = s.resources in
    record m {
      status = record s {
        resources = record r {
          cpu_cores = vm.vcpu;
          memory = int64 (int64 (byte_to_mi_b vm.memory *ℤ pos 1024) *ℤ pos 1024);
        };
      };
    }

abbrev pub update_error : Vm → String → String
update_error vm e = "failed to trigger update CPU and memory for VM " +++ (vm.name +++ (": " +++ e))

-- The virtual machine has fewer CPUs or less memory than it is to have.
unfoldable pub lacks_compute : {S : Type 0} → Vm → ElfMachine S → Bool
lacks_compute vm m =
    ltb_ℤ vm.vcpu m.spec.num_cpus || ltb_ℤ (byte_to_mi_b vm.memory) m.spec.memory_mib

module _ {S C T : Type 0} (v : VmService S C T) ⦃c : Conditions S⦄ ⦃g : GoCache C Value⦄ where
  -- Whether a test of a recorded shortage, and the retry that it leaves, let an allocation go on.
  unfoldable pub may_allocate :
      (ℕ → Memory C → Option String × Memory C)
      → (ℕ → Memory C → Bool × Memory C)
      → Reconcile S C T Bool
  unfolding ◌>>=◌ pure time_now on_memory
  may_allocate insufficient can_retry = do
    now ← time_now v
    short ← on_memory (insufficient now)
    elim short [ none ↦ pure true | some message ↦ on_memory (can_retry now) ]

  unfoldable pub after_update : Vm → Result String → Reconcile S C T Bool
  unfolding ◌>>=◌ ◌>>◌ pure raise on_machine set_task mark_update
  after_update vm (err e) = do
    mark_update v expanding_vm_compute_resources_failed_reason warning e
    raise (update_error vm e)
  after_update vm (ok task) = on_machine (set_task task) >> pure false

  unfoldable pub update_compute : Vm → Reconcile S C T Bool
  unfolding ◌>>=◌ pure attempt ask read_ctx on_memory time_now after_update
      acquire_ticket_for_updating_vm
  update_compute vm = do
    ctx ← read_ctx (λ x. x)
    now ← time_now v
    acquired ← on_memory (acquire_ticket_for_updating_vm now ctx.elf_machine.name)
    (if not acquired
        then pure false
        else do updated ← attempt (ask (v.update_vm vm ctx.elf_machine)); after_update vm updated)

  -- The update where a shortage of memory does not stand against it.
  unfoldable pub allocated : Vm → Bool → Reconcile S C T Bool
  unfolding ◌>>=◌ ◌>>◌ pure mark_update update_compute
  allocated vm true = update_compute vm
  allocated vm false = do
    mark_update v expanding_vm_compute_resources_reason info
        "Waiting for the ELF cluster with sufficient memory"
    pure false

  -- The mark is saved by one reconcile before the next one updates.
  unfoldable pub grow_compute : Vm → MachineContext S → Reconcile S C T Bool
  unfolding ◌>>=◌ ◌>>◌ pure mark_update may_allocate allocated is_elf_cluster_memory_insufficient
      can_retry_memory_allocation
  grow_compute vm ctx =
      if not (str_eq (update_reason v ctx) expanding_vm_compute_resources_reason)
        && not (str_eq (update_reason v ctx) expanding_vm_compute_resources_failed_reason)
      then mark_update v expanding_vm_compute_resources_reason info "" >> pure false
      else may_allocate (is_elf_cluster_memory_insufficient ctx) (can_retry_memory_allocation ctx)
        >>= allocated vm

  unfoldable pub reconcile_vm_cpu_and_memory : Vm → Reconcile S C T Bool
  unfolding ◌>>=◌ ◌>>◌ pure read_ctx on_machine lacks_compute grow_compute
  reconcile_vm_cpu_and_memory vm = do
    on_machine (note_compute vm)
    ctx ← read_ctx (λ x. x)
    (if not (lacks_compute vm ctx.elf_machine) then pure true else grow_compute vm ctx)
