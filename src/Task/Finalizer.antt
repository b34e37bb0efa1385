-- ===== src/Task/Finalizer.antt =====
-- Handling a task leaves the finalizer of the machine alone.
use cluster_api_provider_elf.Base.{
  ℕ, String, ◌≡◌, refl, ◌∙◌, Bool, true, false, ◌&&◌, ◌||◌, if◌then◌else◌, Result, ok, err, arith,
}
use cluster_api_provider_elf.Cache.{GoCache}
use cluster_api_provider_elf.Conditions.{Conditions, false_status}
use cluster_api_provider_elf.Reasons.{resources_hot_updated_condition}
use cluster_api_provider_elf.Messages.{
  is_clone_vm_task, is_power_on_vm_task, is_update_vm_task, is_update_vm_disk_task,
  is_vm_cold_migration_task,
}
use cluster_api_provider_elf.Memory.{Value}
use cluster_api_provider_elf.Tower.{Task, executing, failed, paused, pending, successed}
use cluster_api_provider_elf.Machine.{set_task}
use cluster_api_provider_elf.Task.{
  World, failure_text, machine, unlock_gpus, report_failure, fail_hot_update, clean_up,
  record_failure, record_policy_failure, reconcile_vm_failed_task, reconcile_vm_succeeded_task,
  set_first_boot, with_machine, handle_vm_task, settle_task, without_task, reconcile_vm_task,
}

module _ {S C : Type 0} ⦃c : Conditions S⦄ ⦃g : GoCache C Value⦄ where
  abbrev finalizer : World S C → Bool
  finalizer w = (machine w).has_finalizer

  unlock_lem : (now : ℕ) (w : World S C) → finalizer (unlock_gpus now w) ≡ finalizer w
  unfolding unlock_gpus
  unlock_lem now w = ground arith

  report_lem : (text : String) (w : World S C) → finalizer (report_failure text w) ≡ finalizer w
  unfolding report_failure
  report_lem text w = ground arith

  hot_lem :
      (a b text : String) (w : World S C) → finalizer (fail_hot_update a b text w) ≡ finalizer w
  unfolding fail_hot_update
  hot_lem a b text w = ground arith

  if_keeps :
      (b : Bool) (x y w : World S C)
      → finalizer x ≡ finalizer w
      → finalizer y ≡ finalizer w
      → finalizer (if b then x else y) ≡ finalizer w
  if_keeps true x y w h k = h
  if_keeps false x y w h k = k

  clean_lem :
      (now : ℕ) (task : Task) (text : String) (w : World S C)
      → finalizer (clean_up now task text w) ≡ finalizer w
  unfolding clean_up
  clean_lem now task text w = if_keeps (is_clone_vm_task task) _ _ w (unlock_lem now _) (
      if_keeps (is_update_vm_disk_task task (machine w).name) _ _ w (hot_lem _ _ text w) (
        if_keeps
          (is_update_vm_task task
            && false_status (c.get resources_hot_updated_condition (machine w).status.conditions))
          _ _ w (hot_lem _ _ text w)
          (if_keeps
            (is_power_on_vm_task task || (is_update_vm_task task || is_vm_cold_migration_task task))
            _ _ w (unlock_lem now w) refl)))

  record_lem :
      (now : ℕ) (group : Result String) (text : String) (w : World S C)
      → finalizer (record_failure now group text w).1 ≡ finalizer w
  unfolding record_failure record_policy_failure
  record_lem now group text w = ground arith

  failed_lem :
      (now : ℕ) (group : Result String) (task : Task) (w : World S C)
      → finalizer (reconcile_vm_failed_task now group task w).1 ≡ finalizer w
  unfolding reconcile_vm_failed_task
  failed_lem now group task w =
      let text = failure_text task in
      let reported = report_failure text w in
      record_lem now group text (clean_up now task text reported)
      ∙ clean_lem now task text reported
      ∙ report_lem text w

  boot_lem :
      (now : ℕ) (w : World S C) → finalizer (with_machine (set_first_boot now) w) ≡ finalizer w
  boot_lem now w = ground arith

  succeeded_lem :
      (now : ℕ) (group : Result String) (task : Task) (w : World S C)
      → finalizer (reconcile_vm_succeeded_task now group task w).1 ≡ finalizer w
  unfolding reconcile_vm_succeeded_task
  succeeded_lem now group task w =
      ground (arith, unlock_lem now w, boot_lem now (unlock_gpus now w), boot_lem now w)

  handled_lem :
      (now : ℕ) (group : Result String) (task : Task) (w : World S C)
      → finalizer (handle_vm_task now group task w).1 ≡ finalizer w
  unfolding handle_vm_task
  handled_lem now group task w =
      elim task.status
        as (λ x.
          finalizer (handle_vm_task now group (record task { status = x }) w).1 ≡ finalizer w) [
            | executing ↦ refl
            | failed ↦ failed_lem now group (record task { status = failed }) w
            | paused ↦ refl
            | pending ↦ refl
            | successed ↦ succeeded_lem now group (record task { status = successed }) w
          ]

  settle_lem :
      (busy : Bool) (r : (Bool × Result (Unit {0})) × World S C)
      → finalizer (settle_task busy r).1 ≡ finalizer r.1
  unfolding settle_task set_task
  settle_lem busy ((true, e), w) = refl
  settle_lem busy ((false, e), w) = refl

  pub task_finalizer :
      (now : ℕ) (group : Result String) (found : Result Task) (busy : Bool) (w : World S C)
      → (machine (reconcile_vm_task now group found busy w).1).has_finalizer
        ≡ (machine w).has_finalizer
  unfolding reconcile_vm_task without_task set_task
  task_finalizer now group (ok task) busy w =
      ground
        (arith, settle_lem busy (handle_vm_task now group task w), handled_lem now group task w)
  task_finalizer now group (err e) busy w = ground arith
