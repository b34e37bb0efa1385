-- ===== src/Task/Laws.antt =====
-- What a finished task leads to.
use cluster_api_provider_elf.Base.{
  ℕ, String, ◌≡◌, refl, ap, ◌∙◌, Bool, true, false, not, Result, ok, err, arith, Bool-cases, inl,
  inr,
}
use cluster_api_provider_elf.Base.Int.{ℤ}
use cluster_api_provider_elf.Cache.{GoCache}
use cluster_api_provider_elf.Context.{get_elf_cluster_id}
use cluster_api_provider_elf.Conditions.{Conditions}
use cluster_api_provider_elf.Memory.{Memory, Value}
use cluster_api_provider_elf.Tower.{Task, TaskStatus, executing, failed, paused, pending, successed}
use cluster_api_provider_elf.Machine.{has_task, set_task}
use cluster_api_provider_elf.Limiter.{
  get_key_for_vm, release_ticket_for_create_vm, set_vm_duplicate,
}
use cluster_api_provider_elf.TowerCache.{
  get_key_for_insufficient_memory_error, get_key_for_insufficient_storage_error,
  get_memory_request_amount, get_storage_request_amount, record_resource, record_or_delete,
  record_elf_cluster_memory_insufficient, record_elf_cluster_storage_insufficient,
  record_placement_group_policy_not_satisfied,
}
use cluster_api_provider_elf.Messages.{is_power_on_vm_task, is_clone_vm_task, is_vm_duplicate_error}
use cluster_api_provider_elf.Task.{
  World, failure_text, machine, unlock_gpus, report_failure, clean_up, record_failure,
  record_policy_failure, reconcile_vm_failed_task, reconcile_vm_succeeded_task, handle_vm_task,
  settle_task, reconcile_vm_task,
}

-- The task has ended, either way.
abbrev pub finished : TaskStatus → Bool
finished failed = true
finished successed = true
finished _ = false

module _ {C : Type 0} ⦃g : GoCache C Value⦄ where
  record_tickets :
      (now : ℕ) (key : String) (amount : ℤ) (b : Bool) (m : Memory C)
      → (record_or_delete now key amount b m).vm_concurrent ≡ m.vm_concurrent
  unfolding record_or_delete record_resource
  record_tickets now key amount true m = refl
  record_tickets now key amount false m = refl

  policy_tickets :
      (now : ℕ) (group : Result String) (b : Bool) (m : Memory C)
      → (record_placement_group_policy_not_satisfied now group b m).1.vm_concurrent
        ≡ m.vm_concurrent
  unfolding record_placement_group_policy_not_satisfied
  policy_tickets now (err e) b m = refl
  policy_tickets now (ok name) b m = record_tickets now _ _ b m

module _ {S C : Type 0} ⦃c : Conditions S⦄ ⦃g : GoCache C Value⦄ where
  done_lem :
      (now : ℕ) (group : Result String) (task : Task) (w : World S C)
      → (handle_vm_task now group task w).0.0 ≡ finished task.status
  unfolding handle_vm_task
  done_lem now group task w =
      elim task.status
        as (λ x. (handle_vm_task now group (record task { status = x }) w).0.0 ≡ finished x) [
          | executing ↦ refl
          | failed ↦ refl
          | paused ↦ refl
          | pending ↦ refl
          | successed ↦ refl
        ]

  -- Whether a task that Tower finds is handled, and what is settled after it.
  found_lem :
      (now : ℕ) (group : Result String) (task : Task) (busy : Bool) (w : World S C)
      → has_task (machine w) ≡ true
      → reconcile_vm_task now group (ok task) busy w
        ≡ settle_task busy (handle_vm_task now group task w)
  unfolding reconcile_vm_task
  found_lem now group task busy w h = rw h

  settled_lem :
      (busy : Bool) (r : (Bool × Result (Unit {0})) × World S C)
      → r.0.0 ≡ true
      → ((settle_task busy r).0.0 ≡ not busy)
        × ((machine (settle_task busy r).1).status.task_ref ≡ "")
  unfolding settle_task set_task
  settled_lem busy ((true, e), w) h = (refl, refl)
  settled_lem busy ((false, e), w) h = cc

  -- If Tower finds the task of a machine and it has ended, well or badly, then the machine forgets it,
  -- whatever the error is, and the task counts as done just when the virtual machine performs no
  -- operation.
  pub finished_task :
      (now : ℕ) (group : Result String) (task : Task) (busy : Bool) (w : World S C)
      → has_task (machine w) ≡ true
      → finished task.status ≡ true
      → let r = reconcile_vm_task now group (ok task) busy w in
        (r.0.0 ≡ not busy) × ((machine r.1).status.task_ref ≡ "")
  finished_task now group task busy w h f =
      rw (found_lem now group task busy w h)
        (settled_lem busy (handle_vm_task now group task w) (done_lem now group task w ∙ f))

  settle_memory :
      (busy : Bool) (r : (Bool × Result (Unit {0})) × World S C)
      → (settle_task busy r).1.memory ≡ r.1.memory
  unfolding settle_task
  settle_memory busy ((true, e), w) = refl
  settle_memory busy ((false, e), w) = refl

  unlock_memory : (now : ℕ) (w : World S C) → (unlock_gpus now w).memory ≡ w.memory
  unfolding unlock_gpus
  unlock_memory now w = ground arith

  failure_tickets :
      (now : ℕ) (group : Result String) (text : String) (w : World S C)
      → (record_failure now group text w).1.memory.vm_concurrent ≡ w.memory.vm_concurrent
  unfolding record_failure record_policy_failure record_elf_cluster_memory_insufficient
      record_elf_cluster_storage_insufficient set_vm_duplicate
  failure_tickets now group text w = ground (
    arith,
    record_tickets now (get_key_for_insufficient_storage_error (get_elf_cluster_id w.ctx))
        (get_storage_request_amount (machine w)) true w.memory,
    record_tickets now (get_key_for_insufficient_memory_error (get_elf_cluster_id w.ctx))
        (get_memory_request_amount (machine w)) true w.memory,
    policy_tickets now group true w.memory,
  )

  clone_tickets :
      (now : ℕ) (task : Task) (text : String) (w : World S C)
      → is_clone_vm_task task ≡ true
      → (clean_up now task text w).memory.vm_concurrent
        ≡ g.delete (get_key_for_vm (machine w).name) w.memory.vm_concurrent
  unfolding clean_up set_vm_duplicate release_ticket_for_create_vm
  clone_tickets now task text w e = rw e (
      ap (λ m. m.vm_concurrent) (unlock_memory now _)
      ∙ elim (Bool-cases (is_vm_duplicate_error text)) [ inl d ↦ rw d | inr d ↦ rw d ])

  report_frame :
      (text : String) (w : World S C)
      → ((report_failure text w).memory ≡ w.memory)
        × ((machine (report_failure text w)).name ≡ (machine w).name)
  unfolding report_failure
  report_frame text w = (ground arith, ground arith)

  failed_tickets :
      (now : ℕ) (group : Result String) (task : Task) (w : World S C)
      → is_clone_vm_task task ≡ true
      → (reconcile_vm_failed_task now group task w).1.memory.vm_concurrent
        ≡ g.delete (get_key_for_vm (machine w).name) w.memory.vm_concurrent
  unfolding reconcile_vm_failed_task
  failed_tickets now group task w e =
      let text = failure_text task in
      let reported = report_failure text w in
      let (memory, name) = report_frame text w in
      failure_tickets now group text (clean_up now task text reported)
      ∙ clone_tickets now task text reported e
      ∙ ap (λ n. g.delete (get_key_for_vm n) reported.memory.vm_concurrent) name
      ∙ ap (λ m. g.delete (get_key_for_vm (machine w).name) m.vm_concurrent) memory

  succeeded_tickets :
      (now : ℕ) (group : Result String) (task : Task) (w : World S C)
      → is_clone_vm_task task ≡ true
      → (reconcile_vm_succeeded_task now group task w).1.memory.vm_concurrent
        ≡ g.delete (get_key_for_vm (machine w).name) w.memory.vm_concurrent
  unfolding reconcile_vm_succeeded_task record_elf_cluster_memory_insufficient
      record_elf_cluster_storage_insufficient record_or_delete release_ticket_for_create_vm
  succeeded_tickets now group task w e =
      let key = get_key_for_vm (machine w).name in
      let unlocked = ap (λ m. g.delete key m.vm_concurrent) (unlock_memory now w) in
      rw e (
        policy_tickets now group false _ ∙ elim (Bool-cases (is_power_on_vm_task task)) [
          | inl p ↦ rw p unlocked
          | inr p ↦ rw p unlocked
        ])

  handled_tickets :
      (now : ℕ) (group : Result String) (task : Task) (w : World S C)
      → finished task.status ≡ true
      → is_clone_vm_task task ≡ true
      → (handle_vm_task now group task w).1.memory.vm_concurrent
        ≡ g.delete (get_key_for_vm (machine w).name) w.memory.vm_concurrent
  unfolding handle_vm_task is_clone_vm_task
  handled_tickets now group task w f e =
      elim task.status
          as (λ x.
            finished x ≡ true
            → (handle_vm_task now group (record task { status = x }) w).1.memory.vm_concurrent
              ≡ g.delete (get_key_for_vm (machine w).name) w.memory.vm_concurrent) [
                | failed ↦ λ h. failed_tickets now group (record task { status = failed }) w e
                | successed ↦
                    λ h. succeeded_tickets now group (record task { status = successed }) w e
                | executing ↦ λ h. cc
                | paused ↦ λ h. cc
                | pending ↦ λ h. cc
              ]
        f

  -- A clone task that has ended, well or badly, gives the machine's ticket for its creation back, and
  -- changes nothing else of the creation tickets, whatever the message and the answer about the
  -- placement group are.
  pub clone_returns_ticket :
      (now : ℕ) (group : Result String) (task : Task) (busy : Bool) (w : World S C)
      → has_task (machine w) ≡ true
      → finished task.status ≡ true
      → is_clone_vm_task task ≡ true
      → (reconcile_vm_task now group (ok task) busy w).1.memory.vm_concurrent
        ≡ g.delete (get_key_for_vm (machine w).name) w.memory.vm_concurrent
  clone_returns_ticket now group task busy w h f e =
      ap (λ (r : (Bool × Result (Unit {0})) × World S C). r.1.memory.vm_concurrent)
        (found_lem now group task busy w h)
      ∙ ap (λ m. m.vm_concurrent) (settle_memory busy (handle_vm_task now group task w))
      ∙ handled_tickets now group task w f e
