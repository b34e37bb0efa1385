-- ===== src/Lifecycle/Laws.antt =====
-- When a virtual machine counts as running.
use cluster_api_provider_elf.Base.{
  ◌≡◌, ◌≢◌, refl, Bool, true, false, not, ◌&&◌, Option, none, some, Result, ok, if◌then◌else◌,
}
use cluster_api_provider_elf.Action.{pure, ◌>>◌}
use cluster_api_provider_elf.Action.Always.{each_result}
use cluster_api_provider_elf.Cache.{GoCache}
use cluster_api_provider_elf.Memory.{Value}
use cluster_api_provider_elf.Conditions.{Conditions, message_of}
use cluster_api_provider_elf.Reasons.{vm_provisioned_condition}
use cluster_api_provider_elf.Messages.{is_shut_down_timeout}
use cluster_api_provider_elf.Tower.{Vm, VmStatus, running, stopped, suspended, deleted, unknown}
use cluster_api_provider_elf.Outside.{VmService, Site, Reconcile}
use cluster_api_provider_elf.Lifecycle.{
  shut_down_vm, power_off_vm, update_vm, power_on_vm, has_updated_restricted_fields,
  is_hot_updating, never_booted, then_false, when_running, when_stopped, by_status,
  reconcile_vm_status,
}

module _ {S C T : Type 0} (v : VmService S C T) ⦃c : Conditions S⦄ ⦃g : GoCache C Value⦄ where
  abbrev NotTrue : Result Bool → Type 0
  NotTrue r = r ≢ ok true

  module _ (restores : Bool) (volume : Vm → Reconcile S C T Bool) where
    false_lem :
        (m : Reconcile S C T (Unit {0})) (s : Site S C T)
        → NotTrue (then_false v restores volume m s).0
    unfolding ◌>>◌ pure
    false_lem m s = each_result NotTrue m (λ _. pure false) (λ a q s' e. cc) (λ e k. cc) s

    pub running_answers :
        (changed : Bool) (s : Site S C T)
        → (when_running v restores volume changed s).0 ≡ ok true
        → changed ≡ false
    unfolding when_running
    running_answers false s h = refl
    running_answers true s h =
        let message =
          message_of (c.get vm_provisioned_condition s.ctx.elf_machine.status.conditions) in
        absurd
          (false_lem (if is_shut_down_timeout message then power_off_vm v else shut_down_vm v) s h)

    sized_lem :
        (sized : Bool) (vm : Vm) (s : Site S C T)
        → NotTrue
            ((if not sized then pure false else then_false v restores volume (power_on_vm v vm))
              s).0
    unfolding pure
    sized_lem true vm s = false_lem (power_on_vm v vm) s
    sized_lem false vm s = λ e. cc

    stopped_answers :
        (changed : Bool) (vm : Vm) (s : Site S C T)
        → NotTrue (when_stopped v restores volume changed vm s).0
    unfolding when_stopped
    stopped_answers true vm s = false_lem (update_vm v vm) s
    stopped_answers false vm s =
        each_result NotTrue
          (if never_booted s.ctx.elf_machine.vm_first_boot_timestamp
              && not (is_hot_updating v s.ctx.elf_machine)
            then volume vm
            else pure true)
          (λ sized.
            if not sized then pure false else then_false v restores volume (power_on_vm v vm))
          (λ sized q s'. sized_lem sized vm s') (λ e k. cc) s

    answers_lem :
        (changed : Bool) (vm : Vm) (st : Option VmStatus) (s : Site S C T)
        → (by_status v restores volume changed vm st s).0 ≡ ok true
        → (st ≡ some running) × (changed ≡ false)
    unfolding by_status
    answers_lem changed vm (some running) s h = (refl, running_answers changed s h)
    answers_lem changed vm (some stopped) s h = absurd (stopped_answers changed vm s h)
    answers_lem changed vm (some suspended) s h = absurd (false_lem (power_off_vm v) s h)
    answers_lem changed vm (some deleted) s h = cc
    answers_lem changed vm (some unknown) s h = cc
    answers_lem changed vm none s h = cc

    -- If reconcileVMStatus answers that the virtual machine runs as expected, then its status is RUNNING
    -- and it has no more CPUs, cores or sockets than its machine asks for, or configurations are not
    -- restored.
    pub true_means_running :
        (vm : Vm) (s : Site S C T)
        → (reconcile_vm_status v restores volume vm s).0 ≡ ok true
        → (vm.status ≡ some running)
          × ((has_updated_restricted_fields v vm s.ctx.elf_machine && restores) ≡ false)
    unfolding reconcile_vm_status
    true_means_running vm s h =
        answers_lem (has_updated_restricted_fields v vm s.ctx.elf_machine && restores) vm vm.status
          s h
