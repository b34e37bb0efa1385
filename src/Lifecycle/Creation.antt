-- ===== src/Lifecycle/Creation.antt =====
-- reconcileVM and getVM of controllers/elfmachine_controller.go: how a virtual machine is created under
-- a ticket, and what is done with it in each later reconcile.
pub mod Ticket
use cluster_api_provider_elf.Base.{
  ℕ, ◌+◌, String, ◌+++◌, Bool, true, false, not, ◌&&◌, Option, none, some, List, [], ltb, str_eq,
  if◌then◌else◌, Result, ok, err,
}
use cluster_api_provider_elf.Base.Dict.{lookup}
use cluster_api_provider_elf.Action.{pure, raise, attempt, ◌>>=◌, ◌>>◌}
use cluster_api_provider_elf.Cache.{GoCache}
use cluster_api_provider_elf.Memory.{Value}
use cluster_api_provider_elf.Conditions.{Conditions, info, warning, has_status}
use cluster_api_provider_elf.Reasons.{
  vm_provisioned_condition, cloning_reason, cloning_failed_reason,
}
use cluster_api_provider_elf.Kubernetes.{has_control_plane_label, is_control_plane_machine}
use cluster_api_provider_elf.Tower.{Vm}
use cluster_api_provider_elf.Uuid.{is_uuid}
use cluster_api_provider_elf.Machine.{ElfMachine, set_vm, has_vm, set_task}
use cluster_api_provider_elf.Context.{MachineContext, get_elf_cluster_id}
use cluster_api_provider_elf.Gpu.{GpuDeviceInfo}
use cluster_api_provider_elf.Messages.{is_vm_not_found, is_vm_duplicate}
use cluster_api_provider_elf.Limiter.{acquire_ticket_for_create_vm, release_ticket_for_create_vm}
use cluster_api_provider_elf.Task.{World, mark, unlock_gpus}
use cluster_api_provider_elf.Outside.{
  VmService, Call, Site, Reconcile, CloneVmInfo, ask, on_machine, on_memory, set_memory, read_ctx,
  time_now,
}
use cluster_api_provider_elf.PlacementGroup.{group_name}
use cluster_api_provider_elf.PlacementGroup.Join.{join_placement_group}
use cluster_api_provider_elf.PlacementGroup.PreCheck.{pre_check_placement_group}
use cluster_api_provider_elf.Lifecycle.{schedule_error, may_retry, reconcile_vm_status}
use cluster_api_provider_elf.Lifecycle.Deletion.{get_vm_ref, run_task}

-- VMDisconnectionTimeout
abbrev pub vm_disconnection_timeout : ℕ
vm_disconnection_timeout = 60

-- The host that was chosen, if there is one, with the GPUs.
abbrev pub Choice : Type 0
Choice = Option String × List GpuDeviceInfo

-- The host name and the bootstrap data.
abbrev pub Bootstrap : Type 0
Bootstrap = String × String

unfoldable pub is_vm_in_recycle_bin : Vm → Bool
is_vm_in_recycle_bin vm = elim vm.in_recycle_bin [ some true ↦ true | _ ↦ false ]

abbrev pub fail_machine : {S : Type 0} → String → String → ElfMachine S → ElfMachine S
fail_machine reason message m =
    let s = m.status in
    record m { status = record s { failure_reason = some reason; failure_message = some message } }

-- The virtual machine is missing since the time noted, or since now.
abbrev pub note_disconnected : {S : Type 0} → ℕ → ElfMachine S → ElfMachine S
note_disconnected t m = record m { vm_disconnection_timestamp = some t }

abbrev pub or_now : ℕ → Option ℕ → ℕ
or_now now none = now
or_now now (some t) = t

module _ {S C T : Type 0} (v : VmService S C T) ⦃c : Conditions S⦄ ⦃g : GoCache C Value⦄ where
  unfoldable pub disconnected : String → Reconcile S C T Vm
  unfolding ◌>>=◌ ◌>>◌ raise read_ctx time_now on_machine
  disconnected e = do
    ctx ← read_ctx (λ x. x)
    now ← time_now v
    let since = or_now now ctx.elf_machine.vm_disconnection_timestamp
    let ref = ctx.elf_machine.status.vm_ref
    on_machine (note_disconnected since)
    if not (ltb (since + vm_disconnection_timeout) now) then raise e else do
      on_machine (
          fail_machine "RemovedFromInfrastructure" (
            "Unable to find VM by UUID " +++ (ref +++ ". The VM was removed from infrastructure.")))
      raise e

  unfoldable pub get_vm_found : Result Vm → Reconcile S C T Vm
  unfolding ◌>>=◌ ◌>>◌ pure raise read_ctx on_machine set_vm is_vm_not_found is_uuid run_task
      disconnected
  get_vm_found (ok vm) = pure vm
  get_vm_found (err e) = if not (is_vm_not_found e) then raise e else do
    ctx ← read_ctx (λ x. x)
    if is_uuid ctx.elf_machine.status.vm_ref then disconnected e else do
      run_task v false
      on_machine (set_vm "")
      raise (
          "failed to create VM for ElfMachine "
          +++ (ctx.machine.namespace +++ ("/" +++ (ctx.elf_machine.name +++ (": " +++ e)))))

  unfoldable pub get_vm : Reconcile S C T Vm
  unfolding ◌>>=◌ attempt ask read_ctx get_vm_found
  get_vm = do
    ctx ← read_ctx (λ x. x)
    found ← attempt (ask (v.get ctx.elf_machine.status.vm_ref))
    get_vm_found found

  unfoldable pub give_ticket_back : String → Reconcile S C T (Unit {0})
  unfolding release_ticket_for_create_vm
  give_ticket_back name s = (ok tt, set_memory (release_ticket_for_create_vm name) s)

  -- unlockGPUDevicesLockedByVM, for a machine that has GPUs.
  unfoldable pub unlock_own_gpus : Reconcile S C T (Unit {0})
  unfolding unlock_gpus
  unlock_own_gpus s =
      let x = s.shared in
      let w : World S C = record { ctx = s.ctx; memory = x.memory; locks = x.locks } in
      (ok tt, record s { shared = record x { locks = (unlock_gpus (v.now x.outside) w).locks } })

  -- What follows the answer of Clone. The answer is whether there is a virtual machine now.
  unfoldable pub cloned : String → Result (String × String) → Reconcile S C T Bool
  unfolding ◌>>=◌ ◌>>◌ pure raise ask on_machine set_vm set_task is_vm_duplicate get_vm_ref
      give_ticket_back unlock_own_gpus
  cloned name (ok (id, task)) = do on_machine (set_vm id); on_machine (set_task task); pure true
  cloned name (err e) = do
    give_ticket_back name
    if is_vm_duplicate e
        then (do vm ← ask (v.get_by_name name); on_machine (set_vm (get_vm_ref vm)); pure true)
        else do
          unlock_own_gpus
          on_machine (mark vm_provisioned_condition cloning_failed_reason warning e)
          raise e

  unfoldable pub clone_on : String → Bootstrap → String → List GpuDeviceInfo → Reconcile S C T Bool
  unfolding ◌>>=◌ attempt ask read_ctx get_elf_cluster_id cloned
  clone_on name (host_name, text) host gpus = do
    ctx ← read_ctx (λ x. x)
    let info : CloneVmInfo = record {
      cluster = get_elf_cluster_id ctx;
      host = host;
      cloud_init = text;
      gpu_devices = gpus;
      host_name = host_name;
    }
    answer ← attempt (ask (v.clone ctx.elf_machine info))
    cloned name answer

  -- Without a host the ticket goes back.
  unfoldable pub after_choice : String → Bootstrap → Result Choice → Reconcile S C T Bool
  unfolding ◌>>=◌ ◌>>◌ pure raise give_ticket_back clone_on
  after_choice name boot (err e) = do give_ticket_back name; raise e
  after_choice name boot (ok (none, gpus)) = do give_ticket_back name; pure false
  after_choice name boot (ok (some host, gpus)) = clone_on name boot host gpus

  -- `maximum` is config.MaxConcurrentVMCreations, `bootstrap` GenerateHostname with
  -- getBootstrapData, and `select_host` selectHostAndGPUsForVM.
  module _ (maximum : ℕ) (bootstrap : MachineContext S → Call C T Bootstrap)
      (select_host : Reconcile S C T Choice) where
    unfoldable pub choose_host : Reconcile S C T Choice
    unfolding ◌>>=◌ pure read_ctx is_control_plane_machine pre_check_placement_group
    choose_host = do
      ctx ← read_ctx (λ x. x)
      (if is_control_plane_machine ctx.machine
          then (do host ← pre_check_placement_group v; pure (host, []))
          else select_host)

    -- What is done under the ticket.
    unfoldable pub create_ticketed : String → Bootstrap → Reconcile S C T Bool
    unfolding ◌>>=◌ attempt choose_host after_choice
    create_ticketed name boot = do choice ← attempt choose_host; after_choice name boot choice

    -- Without a ticket nothing is created.
    unfoldable pub create_checked : Bootstrap → Reconcile S C T Bool
    unfolding ◌>>=◌ pure attempt read_ctx on_memory time_now group_name schedule_error may_retry
        lookup acquire_ticket_for_create_vm create_ticketed
    create_checked boot = do
      group ← attempt (group_name v)
      recorded ← schedule_error v group
      may ← may_retry v group recorded
      if not may then pure false else do
        ctx ← read_ctx (λ x. x)
        now ← time_now v
        let m = ctx.elf_machine
        acquired ←
            on_memory
              (acquire_ticket_for_create_vm maximum now m.name (has_control_plane_label m.labels))
        (if acquired.0 then create_ticketed m.name boot else pure false)

    unfoldable pub create_booted : Result Bootstrap → Reconcile S C T Bool
    unfolding ◌>>=◌ ◌>>◌ raise on_machine create_checked
    create_booted (err e) = do
      on_machine (mark vm_provisioned_condition cloning_failed_reason warning e)
      raise e
    create_booted (ok (host_name, text)) =
        if str_eq text "" then raise "bootstrapData is empty" else create_checked (host_name, text)

    -- A condition that stands already is kept.
    abbrev pub mark_cloning : ElfMachine S → ElfMachine S
    mark_cloning m =
        if has_status (c.get vm_provisioned_condition m.status.conditions)
        then m
        else mark vm_provisioned_condition cloning_reason info "" m

    unfoldable pub create_vm : Reconcile S C T Bool
    unfolding ◌>>=◌ ◌>>◌ attempt ask read_ctx on_machine create_booted
    create_vm = do
      on_machine mark_cloning
      ctx ← read_ctx (λ x. x)
      booted ← attempt (ask (bootstrap ctx))
      create_booted booted
