-- ===== src/History/Frame.antt =====
-- A call leaves alone every key of the cache but those that it names.
use cluster_api_provider_elf.Base.{
  ℕ, ◌≤◌, String, ◌≡◌, refl, true, false, Option, none, some, List, [], ◌∷◌, All, arith, str_eq,
}
use cluster_api_provider_elf.Base.Int.{ℤ}
use cluster_api_provider_elf.Cache.{GoCache}
use cluster_api_provider_elf.Memory.{Memory, Value, nil, time, resource, placement_group}
use cluster_api_provider_elf.Limiter.{
  get_key_for_vm, get_key_for_vm_duplicate, get_key_for_placement_group,
  get_key_for_placement_group_duplicate, get_key_for_gc_label, get_key_for_gc_label_time,
  get_in_memory, vm_operation_rate_limit, acquire_ticket_for_create_vm,
  release_ticket_for_create_vm, acquire_ticket_for_updating_vm, set_vm_duplicate,
  acquire_ticket_for_placement_group_operation, release_ticket_for_placement_group_operation,
  set_placement_group_duplicate, check_gc_time, acquire_lock_for_gc_tower_labels,
  release_lock_for_for_gc_tower_labels, record_gc_time_for_tower_labels,
}
use cluster_api_provider_elf.TowerCache.{
  get_key_for_pg_cache, resource_of, get_cluster_resource, can_retry, record_or_delete,
}
use cluster_api_provider_elf.TowerCache.Caches.{set_pg_cache, pg_of, get_pg_from_cache}
use cluster_api_provider_elf.History.{
  Call, creates, releases, updates, marks_vm, locks_group, unlocks_group, marks_group, locks_gc,
  unlocks_gc, records_gc, reads_error, retries, records_error, caches_group, reads_group, sweeps,
  error_key, step,
}

-- The keys of `inMemoryCache` that a call may set or delete.
abbrev pub touched : Call → List String
touched (updates vm) = get_key_for_vm vm ∷ []
touched (marks_vm vm) = get_key_for_vm_duplicate vm ∷ []
touched (locks_group group) = get_key_for_placement_group group ∷ []
touched (unlocks_group group) = get_key_for_placement_group group ∷ []
touched (marks_group group) = get_key_for_placement_group_duplicate group ∷ []
touched (locks_gc tower) = get_key_for_gc_label tower ∷ get_key_for_gc_label_time tower ∷ []
touched (unlocks_gc tower) = get_key_for_gc_label tower ∷ []
touched (records_gc tower) = get_key_for_gc_label_time tower ∷ []
touched (reads_error k) = error_key k ∷ []
touched (retries k amount) = error_key k ∷ []
touched (records_error k amount b) = error_key k ∷ []
touched (caches_group pg) = get_key_for_pg_cache pg.name ∷ []
touched (reads_group name) = get_key_for_pg_cache name ∷ []
touched _ = []

abbrev pub Untouched : String → Call → Type 0
Untouched k c = All (λ j. str_eq j k ≡ false) (touched c)

module _ {C : Type 0} ⦃g : GoCache C Value⦄ where
  set_ne :
      (now later : ℕ) (k j : String) (v : Value) (d : Option ℕ) (c : C)
      → str_eq j k ≡ false
      → g.get later k (g.set now j v d c) ≡ g.get later k c
  set_ne now later k j v d c h = rw (g.get-set now later j k v d c, h)

  delete_ne :
      (later : ℕ) (k j : String) (c : C)
      → str_eq j k ≡ false
      → g.get later k (g.delete j c) ≡ g.get later k c
  delete_ne later k j c h = rw (g.get-delete later j k c, h)

  resource_of_frame :
      (later : ℕ) (k key : String) (o : Option Value) (m : Memory C)
      → str_eq key k ≡ false
      → get_in_memory later k (resource_of key o m).1 ≡ get_in_memory later k m
  unfolding resource_of
  resource_of_frame later k key none m h = refl
  resource_of_frame later k key (some (resource p)) m h = refl
  resource_of_frame later k key (some v) m h = delete_ne later k key m.in_memory h

  can_retry_frame :
      (now later : ℕ) (k key : String) (amount : ℤ) (m : Memory C)
      → str_eq key k ≡ false
      → get_in_memory later k (can_retry now key amount m).1 ≡ get_in_memory later k m
  unfolding can_retry
  can_retry_frame now later k key amount m h =
      ground (arith, resource_of_frame later k key (get_in_memory now key m) m h)

  pg_of_frame :
      (later : ℕ) (k key : String) (o : Option Value) (m : Memory C)
      → str_eq key k ≡ false
      → get_in_memory later k (pg_of key o m).1 ≡ get_in_memory later k m
  unfolding pg_of
  pg_of_frame later k key none m h = refl
  pg_of_frame later k key (some (placement_group pg)) m h = refl
  pg_of_frame later k key (some v) m h = delete_ne later k key m.in_memory h

  check_gc_time_frame :
      (now later : ℕ) (k key : String) (o : Option Value) (m : Memory C)
      → str_eq key k ≡ false
      → get_in_memory later k (check_gc_time now key o m).1 ≡ get_in_memory later k m
  unfolding check_gc_time
  check_gc_time_frame now later k key none m h = refl
  check_gc_time_frame now later k key (some (time last)) m h = refl
  check_gc_time_frame now later k key (some v) m h = delete_ne later k key m.in_memory h

  gc_frame :
      (now later : ℕ) (k tower : String) (m : Memory C)
      → Untouched k (locks_gc tower)
      → get_in_memory later k (acquire_lock_for_gc_tower_labels now tower m).1
        ≡ get_in_memory later k m
  unfolding acquire_lock_for_gc_tower_labels
  gc_frame now later k tower m u =
      let key = get_key_for_gc_label_time tower in
      let o = get_in_memory now key m in
      ground (
        arith,
        check_gc_time_frame now later k key o m u.1.0,
        set_ne now later k (get_key_for_gc_label tower) nil none
            (check_gc_time now key o m).1.in_memory u.0,
      )

  -- Whatever a call does, another key is found afterwards just as before.
  pub step_frame :
      (maximum now later : ℕ) (k : String) (c : Call) (m : Memory C)
      → now ≤ later
      → Untouched k c
      → get_in_memory later k (step maximum (now, c) m) ≡ get_in_memory later k m
  unfolding step acquire_ticket_for_create_vm release_ticket_for_create_vm
      acquire_ticket_for_updating_vm set_vm_duplicate acquire_ticket_for_placement_group_operation
      release_ticket_for_placement_group_operation set_placement_group_duplicate
      release_lock_for_for_gc_tower_labels record_gc_time_for_tower_labels set_pg_cache
      get_cluster_resource get_pg_from_cache record_or_delete
  step_frame maximum now later k (creates vm cp) m h u = ground arith
  step_frame maximum now later k (releases vm) m h u = refl
  step_frame maximum now later k (updates vm) m h u = ground (
    arith,
    set_ne now later k (get_key_for_vm vm) nil (some vm_operation_rate_limit) m.in_memory u.0,
  )
  step_frame maximum now later k (marks_vm vm) m h u = set_ne now later k _ _ _ m.in_memory u.0
  step_frame maximum now later k (locks_group group) m h u =
      ground
        (arith, set_ne now later k (get_key_for_placement_group group) nil none m.in_memory u.0)
  step_frame maximum now later k (unlocks_group group) m h u = delete_ne later k _ m.in_memory u.0
  step_frame maximum now later k (marks_group group) m h u =
      set_ne now later k _ _ _ m.in_memory u.0
  step_frame maximum now later k (locks_gc tower) m h u = gc_frame now later k tower m u
  step_frame maximum now later k (unlocks_gc tower) m h u = delete_ne later k _ m.in_memory u.0
  step_frame maximum now later k (records_gc tower) m h u = set_ne now later k _ _ _ m.in_memory u.0
  step_frame maximum now later k (reads_error e) m h u =
      resource_of_frame later k (error_key e) (get_in_memory now (error_key e) m) m u.0
  step_frame maximum now later k (retries e amount) m h u =
      can_retry_frame now later k (error_key e) amount m u.0
  step_frame maximum now later k (records_error e amount true) m h u =
      set_ne now later k _ _ _ m.in_memory u.0
  step_frame maximum now later k (records_error e amount false) m h u =
      delete_ne later k _ m.in_memory u.0
  step_frame maximum now later k (caches_group pg) m h u = set_ne now later k _ _ _ m.in_memory u.0
  step_frame maximum now later k (reads_group name) m h u =
      pg_of_frame later k _ (get_in_memory now (get_key_for_pg_cache name) m) m u.0
  step_frame maximum now later k sweeps m h u = g.get-delete_expired now later k m.in_memory h
