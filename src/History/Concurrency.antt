-- ===== src/History/Concurrency.antt =====
-- The limit on how many virtual machines are created at a time.
use cluster_api_provider_elf.Base.{
  ℕ, ◌≤◌, String, ◌≡◌, ◌≢◌, refl, true, false, Option, none, some, List, [], ◌∷◌, All, length,
  arith,
}
use cluster_api_provider_elf.Base.Int.{ℤ}
use cluster_api_provider_elf.Cache.{GoCache, AllDistinct}
use cluster_api_provider_elf.Memory.{Memory, Value, resource, placement_group, nil, time}
use cluster_api_provider_elf.Limiter.{
  get_key_for_vm, get_key_for_gc_label_time, get_in_memory, vm_creation_timeout,
  acquire_ticket_for_create_vm, release_ticket_for_create_vm, acquire_ticket_for_updating_vm,
  set_vm_duplicate, acquire_ticket_for_placement_group_operation,
  release_ticket_for_placement_group_operation, set_placement_group_duplicate, check_gc_time,
  acquire_lock_for_gc_tower_labels, release_lock_for_for_gc_tower_labels,
  record_gc_time_for_tower_labels,
}
use cluster_api_provider_elf.TowerCache.{
  get_key_for_pg_cache, resource_of, get_cluster_resource, can_retry, record_resource,
  record_or_delete,
}
use cluster_api_provider_elf.TowerCache.Caches.{set_pg_cache, pg_of, get_pg_from_cache}
use cluster_api_provider_elf.History.{
  Call, creates, releases, updates, marks_vm, locks_group, unlocks_group, marks_group, locks_gc,
  unlocks_gc, records_gc, reads_error, retries, records_error, caches_group, reads_group, sweeps,
  error_key, step, run,
}

module _ {C : Type 0} ⦃g : GoCache C Value⦄ where
  resource_of_concurrent :
      (key : String) (o : Option Value) (m : Memory C)
      → (resource_of key o m).1.vm_concurrent ≡ m.vm_concurrent
  unfolding resource_of
  resource_of_concurrent key none m = refl
  resource_of_concurrent key (some (resource p)) m = refl
  resource_of_concurrent key (some v) m = refl

  can_retry_concurrent :
      (now : ℕ) (key : String) (amount : ℤ) (m : Memory C)
      → (can_retry now key amount m).1.vm_concurrent ≡ m.vm_concurrent
  unfolding can_retry
  can_retry_concurrent now key amount m =
      ground (arith, resource_of_concurrent key (get_in_memory now key m) m)

  pg_of_concurrent :
      (key : String) (o : Option Value) (m : Memory C)
      → (pg_of key o m).1.vm_concurrent ≡ m.vm_concurrent
  unfolding pg_of
  pg_of_concurrent key none m = refl
  pg_of_concurrent key (some (placement_group pg)) m = refl
  pg_of_concurrent key (some v) m = refl

  check_gc_time_concurrent :
      (now : ℕ) (key : String) (o : Option Value) (m : Memory C)
      → (check_gc_time now key o m).1.vm_concurrent ≡ m.vm_concurrent
  unfolding check_gc_time
  check_gc_time_concurrent now key none m = refl
  check_gc_time_concurrent now key (some (time last)) m = refl
  check_gc_time_concurrent now key (some v) m = refl

  -- A call leaves at most `maximum` tickets, where there were no more before it.
  step_bound :
      (maximum now : ℕ) (c : Call) (m : Memory C)
      → g.item_count m.vm_concurrent ≤ maximum
      → g.item_count (step maximum (now, c) m).vm_concurrent ≤ maximum
  unfolding step acquire_ticket_for_create_vm release_ticket_for_create_vm
      acquire_ticket_for_updating_vm set_vm_duplicate acquire_ticket_for_placement_group_operation
      release_ticket_for_placement_group_operation set_placement_group_duplicate
      acquire_lock_for_gc_tower_labels release_lock_for_for_gc_tower_labels
      record_gc_time_for_tower_labels set_pg_cache get_cluster_resource get_pg_from_cache
      record_or_delete record_resource
  step_bound maximum now (creates vm cp) m h = ground (
    arith,
    g.item_count-set now (get_key_for_vm vm) nil (some vm_creation_timeout) m.vm_concurrent,
  )
  step_bound maximum now (releases vm) m h =
      ground (arith, g.item_count-delete (get_key_for_vm vm) m.vm_concurrent)
  step_bound maximum now (updates vm) m h = ground arith
  step_bound maximum now (marks_vm vm) m h = h
  step_bound maximum now (locks_group group) m h = ground arith
  step_bound maximum now (unlocks_group group) m h = h
  step_bound maximum now (marks_group group) m h = h
  step_bound maximum now (locks_gc tower) m h = ground (
    arith,
    let key = get_key_for_gc_label_time tower in
        check_gc_time_concurrent now key (get_in_memory now key m) m,
  )
  step_bound maximum now (unlocks_gc tower) m h = h
  step_bound maximum now (records_gc tower) m h = h
  step_bound maximum now (reads_error e) m h =
      ground (arith, resource_of_concurrent (error_key e) (get_in_memory now (error_key e) m) m)
  step_bound maximum now (retries e amount) m h =
      ground (arith, can_retry_concurrent now (error_key e) amount m)
  step_bound maximum now (records_error e amount true) m h = h
  step_bound maximum now (records_error e amount false) m h = h
  step_bound maximum now (caches_group pg) m h = h
  step_bound maximum now (reads_group name) m h =
      let key = get_key_for_pg_cache name in
      ground (arith, pg_of_concurrent key (get_in_memory now key m) m)
  step_bound maximum now sweeps m h =
      ground (arith, g.item_count-delete_expired now m.vm_concurrent)

  run_bound :
      (maximum : ℕ) (cs : List (ℕ × Call)) (m : Memory C)
      → g.item_count m.vm_concurrent ≤ maximum
      → g.item_count (run maximum cs m).vm_concurrent ≤ maximum
  unfolding run
  run_bound maximum [] m h = h
  run_bound maximum ((now, c) ∷ cs) m h =
      run_bound maximum cs (step maximum (now, c) m) (step_bound maximum now c m h)

  -- The limiter: from a memory with at most `maximum` tickets, whatever calls are made in whatever
  -- order, at no time are more than `maximum` different keys, of which each machine has one, found to
  -- hold a ticket for a creation.
  pub vms_le_maximum :
      (maximum : ℕ) (cs : List (ℕ × Call)) (m : Memory C) (later : ℕ) (ks : List String)
      → g.item_count m.vm_concurrent ≤ maximum
      → AllDistinct ks
      → All (λ k. g.get later k (run maximum cs m).vm_concurrent ≢ none) ks
      → length ks ≤ maximum
  vms_le_maximum maximum cs m later ks h d a =
      ground
        (arith, run_bound maximum cs m h, g.live_le later ks (run maximum cs m).vm_concurrent d a)
