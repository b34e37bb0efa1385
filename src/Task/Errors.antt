-- ===== src/Task/Errors.antt =====
-- What a task that failed for want of memory leads to.
use cluster_api_provider_elf.Base.{
  ℕ, ◌+◌, ◌≤◌, String, ◌+++◌, ◌≡◌, sym, ap, ◌∙◌, subst, true, false, none, some, Result, ok, err,
  arith, leb, ◌&&◌, ◌||◌, Bool-cases, inl, inr, if◌then◌else◌,
}
use cluster_api_provider_elf.Base.Int.{ℤ, ltb_ℤ}
use cluster_api_provider_elf.Cache.{GoCache}
use cluster_api_provider_elf.Conditions.{Conditions}
use cluster_api_provider_elf.Context.{MachineContext, get_failure_domain, get_elf_cluster_id}
use cluster_api_provider_elf.Memory.{Memory, Value, resource}
use cluster_api_provider_elf.Tower.{Task}
use cluster_api_provider_elf.TowerCache.{
  resource_duration, resource_silence_time, can_retry_memory_allocation,
  get_key_for_insufficient_memory_error, get_memory_request_amount, record_resource,
  record_or_delete, resource_of, get_cluster_resource, record_elf_cluster_memory_insufficient,
}
use cluster_api_provider_elf.TowerCache.Schedule.{
  is_elf_cluster_memory_insufficient, is_elf_schedule_vm_error_recorded,
}
use cluster_api_provider_elf.TowerCache.Retries.{get_record, can_retry-record}
use cluster_api_provider_elf.Reasons.{
  expanding_vm_disk_reason, expanding_vm_disk_failed_reason, expanding_vm_compute_resources_reason,
  expanding_vm_compute_resources_failed_reason,
}
use cluster_api_provider_elf.Messages.{
  is_clone_vm_task, is_vm_duplicate_error, is_storage_insufficient_error,
  is_memory_insufficient_error,
}
use cluster_api_provider_elf.Task.{
  World, failure_text, machine, with_memory, unlock_gpus, report_failure, fail_hot_update, clean_up,
  record_failure, reconcile_vm_failed_task,
}

leb_of_le : (a b : ℕ) → a ≤ b → leb a b ≡ true
leb_of_le a b h = ground arith

module _ {C : Type 0} ⦃g : GoCache C Value⦄ where
  found_memory :
      (now later : ℕ) (key : String) (amount : ℤ) (m : Memory C)
      → later ≤ now + resource_duration
      → get_cluster_resource later key (record_or_delete now key amount true m)
        ≡ (some m.next_resource, record_or_delete now key amount true m)
  unfolding get_cluster_resource record_or_delete resource_of
  found_memory now later key amount m l =
      let m' = record_resource now key amount m in
      ap (λ o. resource_of key o m')
        (get_record now later key amount m
          ∙ ap (λ b. if b then some (resource m.next_resource) else none)
              (leb_of_le later (now + resource_duration) l))

module _ {S C : Type 0} ⦃c : Conditions S⦄ ⦃g : GoCache C Value⦄ where
  unlock_cluster :
      (now : ℕ) (w : World S C)
      → get_elf_cluster_id (unlock_gpus now w).ctx ≡ get_elf_cluster_id w.ctx
  unfolding unlock_gpus
  unlock_cluster now w = ground arith

  hot_update_cluster :
      (running failing text : String) (w : World S C)
      → get_elf_cluster_id (fail_hot_update running failing text w).ctx ≡ get_elf_cluster_id w.ctx
  unfolding fail_hot_update get_elf_cluster_id get_failure_domain
  hot_update_cluster running failing text w = ground arith

  clean_up_cluster :
      (now : ℕ) (task : Task) (text : String) (w : World S C)
      → get_elf_cluster_id (clean_up now task text w).ctx ≡ get_elf_cluster_id w.ctx
  unfolding clean_up
  clean_up_cluster now task text w = elim (Bool-cases (is_clone_vm_task task)) [
    | inl e ↦ rw e (unlock_cluster now _)
    | inr e ↦ ground (
      arith,
      unlock_cluster now w,
      hot_update_cluster expanding_vm_disk_reason expanding_vm_disk_failed_reason text w,
      hot_update_cluster expanding_vm_compute_resources_reason
          expanding_vm_compute_resources_failed_reason text w,
    )
  ]

  report_cluster :
      (text : String) (w : World S C)
      → get_elf_cluster_id (report_failure text w).ctx ≡ get_elf_cluster_id w.ctx
  unfolding report_failure get_elf_cluster_id get_failure_domain
  report_cluster text w = ground arith

  no_memory :
      (now : ℕ) (group : Result String) (text : String) (w : World S C)
      → is_vm_duplicate_error text ≡ false
      → is_storage_insufficient_error text ≡ false
      → is_memory_insufficient_error text ≡ true
      → record_failure now group text w ≡ (
        err ("Insufficient memory detected for the ELF cluster " +++ get_elf_cluster_id w.ctx),
        with_memory
            (record_or_delete now
              (get_key_for_insufficient_memory_error (get_elf_cluster_id w.ctx))
              (get_memory_request_amount (machine w))
              true)
            w,
      )
  unfolding record_failure record_elf_cluster_memory_insufficient
  no_memory now group text w d s e = rw (d, s, e)

  -- A record of insufficient memory stops the machines of the cluster.
  recorded_stops :
      (now later : ℕ) (amount : ℤ) (group : Result String) (ctx : MachineContext S) (m : Memory C)
      → later ≤ now + resource_duration
      → (is_elf_schedule_vm_error_recorded ctx later group (
          record_or_delete now
            (get_key_for_insufficient_memory_error (get_elf_cluster_id ctx))
            amount
            true
            m)).0
        ≡ ok (true, "Insufficient memory detected for the ELF cluster " +++ get_elf_cluster_id ctx)
  unfolding is_elf_schedule_vm_error_recorded get_elf_cluster_id
  recorded_stops now later amount group ctx m l =
      let key = get_key_for_insufficient_memory_error (get_elf_cluster_id ctx) in
      rw (
        found_memory now later key amount m l,
        is_elf_schedule_vm_error_recorded,
        is_elf_cluster_memory_insufficient,
      )

  -- While it stands, a retry is let through if it asks for less, or after five minutes.
  recorded_retry :
      (now later : ℕ) (amount : ℤ) (ctx : MachineContext S) (m : Memory C)
      → later ≤ now + resource_duration
      → (can_retry_memory_allocation ctx later (
          record_or_delete now
            (get_key_for_insufficient_memory_error (get_elf_cluster_id ctx))
            amount
            true
            m)).0
        ≡ (ltb_ℤ (get_memory_request_amount ctx.elf_machine) amount
            || leb (now + resource_silence_time) later)
  unfolding can_retry_memory_allocation
  recorded_retry now later amount ctx m l =
      let key = get_key_for_insufficient_memory_error (get_elf_cluster_id ctx) in
      let asked = get_memory_request_amount ctx.elf_machine in
      can_retry-record now later key amount asked m
      ∙ ap (λ b. b && (ltb_ℤ asked amount || leb (now + resource_silence_time) later))
          (leb_of_le later (now + resource_duration) l)

  -- If a task fails for want of memory (and neither for a duplicate nor for want of storage), the
  -- failure is returned as an error, and in the ten minutes that follow, as long as nothing else
  -- touches the caches, isELFScheduleVMErrorRecorded, which stands before a creation or a power-on,
  -- answers for every machine of the same cluster that memory is insufficient; the test for a retry,
  -- canRetryMemoryAllocation, then lets a machine through just when it asks for less memory than the
  -- one whose task failed, or when five minutes have passed.
  pub no_memory_stops :
      (now later : ℕ) (group group' : Result String) (task : Task) (w : World S C)
      (ctx : MachineContext S)
      → is_vm_duplicate_error (failure_text task) ≡ false
      → is_storage_insufficient_error (failure_text task) ≡ false
      → is_memory_insufficient_error (failure_text task) ≡ true
      → get_elf_cluster_id ctx ≡ get_elf_cluster_id w.ctx
      → later ≤ now + resource_duration
      → let message =
          "Insufficient memory detected for the ELF cluster " +++ get_elf_cluster_id ctx in
        let r = reconcile_vm_failed_task now group task w in
        (r.0 ≡ err message)
        × ((is_elf_schedule_vm_error_recorded ctx later group' r.1.memory).0 ≡ ok (true, message))
        × ((can_retry_memory_allocation ctx later r.1.memory).0 ≡ (
            ltb_ℤ
              (get_memory_request_amount ctx.elf_machine)
              (get_memory_request_amount (machine r.1))
            || leb (now + resource_silence_time) later))
  unfolding reconcile_vm_failed_task
  no_memory_stops now later group group' task w ctx d s e same l =
      let text = failure_text task in
      let w' = clean_up now task text (report_failure text w) in
      let amount = get_memory_request_amount (machine w') in
      let recorded : String → Memory C = λ id.
        record_or_delete now (get_key_for_insufficient_memory_error id) amount true w'.memory in
      let cluster =
        clean_up_cluster now task text (report_failure text w) ∙ report_cluster text w ∙ sym same in
      rw (no_memory now group text w' d s e) (
        ap (λ id. err ("Insufficient memory detected for the ELF cluster " +++ id)) cluster,
        subst
            (λ id.
              (is_elf_schedule_vm_error_recorded ctx later group' (recorded id)).0
              ≡ ok (
                true,
                "Insufficient memory detected for the ELF cluster " +++ get_elf_cluster_id ctx,
              ))
            (sym cluster) (recorded_stops now later amount group' ctx w'.memory l),
        subst
            (λ id. (can_retry_memory_allocation ctx later (recorded id)).0 ≡ (
              ltb_ℤ (get_memory_request_amount ctx.elf_machine) amount
              || leb (now + resource_silence_time) later))
            (sym cluster) (recorded_retry now later amount ctx w'.memory l),
      )
