-- ===== src/History.antt =====
-- The controllers share the process's memory: the operations of controllers/vm_limiter.go and
-- controllers/tower_cache.go that change the caches (but delPGCaches and those of the GPU cache), each
-- as one call, and the runs that the reconciles of many machines make of them in any interleaving.
-- Overlap has the two parts of acquireTicketForUpdatingVM, which holds no mutex, apart. getPGFromCache
-- holds none either: its look and its removal of unexpected data are taken as one call.
pub mod Frame
pub mod Keys
pub mod Window
pub mod Tickets
pub mod Concurrency
pub mod Overlap
use cluster_api_provider_elf.Base.{ℕ, ◌≤◌, String, Bool, List, [], ◌∷◌}
use cluster_api_provider_elf.Base.Int.{ℤ}
use cluster_api_provider_elf.Cache.{GoCache}
use cluster_api_provider_elf.Memory.{Memory, Value}
use cluster_api_provider_elf.Tower.{PlacementGroup}
use cluster_api_provider_elf.Limiter.{
  acquire_ticket_for_create_vm, release_ticket_for_create_vm, acquire_ticket_for_updating_vm,
  set_vm_duplicate, acquire_ticket_for_placement_group_operation,
  release_ticket_for_placement_group_operation, set_placement_group_duplicate,
  acquire_lock_for_gc_tower_labels, release_lock_for_for_gc_tower_labels,
  record_gc_time_for_tower_labels,
}
use cluster_api_provider_elf.TowerCache.{
  get_key_for_insufficient_memory_error, get_key_for_insufficient_storage_error,
  get_key_for_duplicate_placement_group_error, can_retry, get_cluster_resource, record_or_delete,
}
use cluster_api_provider_elf.TowerCache.Caches.{set_pg_cache, get_pg_from_cache}

-- The three kinds of errors that are recorded.
pub data ErrorKey : Type 0 where
  memory storage placement : String → ErrorKey

abbrev pub error_key : ErrorKey → String
error_key (memory cluster) = get_key_for_insufficient_memory_error cluster
error_key (storage cluster) = get_key_for_insufficient_storage_error cluster
error_key (placement group) = get_key_for_duplicate_placement_group_error group

pub data Call : Type 0 where
  creates : String → Bool → Call
  releases updates marks_vm locks_group unlocks_group marks_group : String → Call
  locks_gc unlocks_gc records_gc : String → Call
  reads_error : ErrorKey → Call
  retries : ErrorKey → ℤ → Call
  records_error : ErrorKey → ℤ → Bool → Call
  caches_group : PlacementGroup → Call
  reads_group : String → Call
  -- The janitor of the cache.
  sweeps : Call

module _ {C : Type 0} ⦃g : GoCache C Value⦄ (maximum : ℕ) where
  unfoldable pub step : ℕ × Call → Memory C → Memory C
  step (now, creates vm cp) m = (acquire_ticket_for_create_vm maximum now vm cp m).1
  step (now, releases vm) m = release_ticket_for_create_vm vm m
  step (now, updates vm) m = (acquire_ticket_for_updating_vm now vm m).1
  step (now, marks_vm vm) m = set_vm_duplicate now vm m
  step (now, locks_group group) m = (acquire_ticket_for_placement_group_operation now group m).1
  step (now, unlocks_group group) m = release_ticket_for_placement_group_operation group m
  step (now, marks_group group) m = set_placement_group_duplicate now group m
  step (now, locks_gc tower) m = (acquire_lock_for_gc_tower_labels now tower m).1
  step (now, unlocks_gc tower) m = release_lock_for_for_gc_tower_labels tower m
  step (now, records_gc tower) m = record_gc_time_for_tower_labels now tower m
  step (now, reads_error k) m = (get_cluster_resource now (error_key k) m).1
  step (now, retries k amount) m = (can_retry now (error_key k) amount m).1
  step (now, records_error k amount b) m = record_or_delete now (error_key k) amount b m
  step (now, caches_group pg) m = set_pg_cache now pg m
  step (now, reads_group name) m = (get_pg_from_cache now name m).1
  step (now, sweeps) m = record m {
    in_memory = g.delete_expired now m.in_memory;
    vm_concurrent = g.delete_expired now m.vm_concurrent;
  }

  unfoldable pub run : List (ℕ × Call) → Memory C → Memory C
  run [] m = m
  run (c ∷ cs) m = run cs (step c m)

-- The clock does not run back: each call happens at or after `start`, and after the one before it.
abbrev pub IsTimed : ℕ → List (ℕ × Call) → Type 0
IsTimed start [] = Unit
IsTimed start ((now, c) ∷ cs) = (start ≤ now) × IsTimed now cs

abbrev pub last_time : ℕ → List (ℕ × Call) → ℕ
last_time start [] = start
last_time start ((now, c) ∷ cs) = last_time now cs
