-- ===== src/Limiter.antt =====
-- controllers/vm_limiter.go, but for the GPU locks: tickets for operations on virtual machines and
-- placement groups, and the lock of the label garbage collection. Each operation takes the time at
-- which it runs, and is one step: it holds a mutex or is one call of the cache, but for
-- acquireTicketForUpdatingVM, whose look and store History/Overlap keeps apart.
use cluster_api_provider_elf.Base.{
  ℕ, ◌+◌, String, ◌+++◌, Bool, true, false, Option, none, some, leb, ltb, if◌then◌else◌,
}
use cluster_api_provider_elf.Cache.{GoCache}
use cluster_api_provider_elf.Memory.{Memory, Value, nil, time}

-- vmCreationTimeout
abbrev pub vm_creation_timeout : ℕ
vm_creation_timeout = 360

abbrev pub vm_operation_rate_limit : ℕ
vm_operation_rate_limit = 6

abbrev pub vm_silence_time : ℕ
vm_silence_time = 300

abbrev pub placement_group_silence_time : ℕ
placement_group_silence_time = 300

abbrev pub day : ℕ
day = 86400

abbrev pub get_key_for_placement_group : String → String
get_key_for_placement_group name = "pg:" +++ name

abbrev pub get_key_for_placement_group_duplicate : String → String
get_key_for_placement_group_duplicate name = "pg:duplicate:" +++ name

abbrev pub get_key_for_vm : String → String
get_key_for_vm name = "vm:" +++ name

abbrev pub get_key_for_vm_duplicate : String → String
get_key_for_vm_duplicate name = "vm:duplicate:" +++ name

abbrev pub get_key_for_gc_label : String → String
get_key_for_gc_label tower = "label:gc:" +++ tower

abbrev pub get_key_for_gc_label_time : String → String
get_key_for_gc_label_time tower = "label:gc:time:" +++ tower

-- The message of a refusal.
pub data Message : Type 0 where
  empty duplicate_detected : Message
  limit_reached : ℕ → Message

abbrev pub found : Option Value → Bool
found none = false
found (some v) = true

module _ {C : Type 0} ⦃g : GoCache C Value⦄ where
  -- A store, a delete and a read of `inMemoryCache`.
  abbrev pub set_in_memory : ℕ → String → Value → Option ℕ → Memory C → Memory C
  set_in_memory now k v d m = record m { in_memory = g.set now k v d m.in_memory }

  abbrev pub delete_in_memory : String → Memory C → Memory C
  delete_in_memory k m = record m { in_memory = g.delete k m.in_memory }

  abbrev pub get_in_memory : ℕ → String → Memory C → Option Value
  get_in_memory now k m = g.get now k m.in_memory

  -- `maximum` is config.MaxConcurrentVMCreations, which a flag sets.
  unfoldable pub acquire_ticket_for_create_vm :
      ℕ → ℕ → String → Bool → Memory C → (Bool × Message) × Memory C
  acquire_ticket_for_create_vm maximum now vm_name is_control_plane_vm m =
      if found (get_in_memory now (get_key_for_vm_duplicate vm_name) m)
      then ((false, duplicate_detected), m)
      else if is_control_plane_vm
      then ((true, empty), m)
      else if leb maximum (g.item_count m.vm_concurrent)
      then ((false, limit_reached maximum), m)
      else (
        (true, empty),
        record m {
          vm_concurrent =
              g.set now (get_key_for_vm vm_name) nil (some vm_creation_timeout) m.vm_concurrent;
        },
      )

  unfoldable pub release_ticket_for_create_vm : String → Memory C → Memory C
  release_ticket_for_create_vm vm_name m = record m {
    vm_concurrent = g.delete (get_key_for_vm vm_name) m.vm_concurrent;
  }

  abbrev pub store_ticket_for_updating_vm : ℕ → String → Memory C → Memory C
  store_ticket_for_updating_vm now vm_name =
      set_in_memory now (get_key_for_vm vm_name) nil (some vm_operation_rate_limit)

  -- As it runs when no other call comes between the look and the store: it holds no mutex.
  unfoldable pub acquire_ticket_for_updating_vm : ℕ → String → Memory C → Bool × Memory C
  acquire_ticket_for_updating_vm now vm_name m =
      if found (get_in_memory now (get_key_for_vm vm_name) m)
      then (false, m)
      else (true, store_ticket_for_updating_vm now vm_name m)

  unfoldable pub set_vm_duplicate : ℕ → String → Memory C → Memory C
  set_vm_duplicate now vm_name =
      set_in_memory now (get_key_for_vm_duplicate vm_name) nil (some vm_silence_time)

  unfoldable pub acquire_ticket_for_placement_group_operation :
      ℕ → String → Memory C → Bool × Memory C
  acquire_ticket_for_placement_group_operation now group_name m =
      if found (get_in_memory now (get_key_for_placement_group group_name) m)
      then (false, m)
      else (true, set_in_memory now (get_key_for_placement_group group_name) nil none m)

  unfoldable pub release_ticket_for_placement_group_operation : String → Memory C → Memory C
  release_ticket_for_placement_group_operation group_name =
      delete_in_memory (get_key_for_placement_group group_name)

  unfoldable pub set_placement_group_duplicate : ℕ → String → Memory C → Memory C
  set_placement_group_duplicate now group_name =
      set_in_memory now (get_key_for_placement_group_duplicate group_name) nil
        (some placement_group_silence_time)

  unfoldable pub can_create_placement_group : ℕ → String → Memory C → Bool
  can_create_placement_group now group_name m =
      if found (get_in_memory now (get_key_for_placement_group_duplicate group_name) m)
      then false
      else true

  -- What the lock does with the record of the last collection: refuse within a day of it, and
  -- drop a value that is no time.
  unfoldable pub check_gc_time : ℕ → String → Option Value → Memory C → Bool × Memory C
  check_gc_time now key none m = (true, m)
  check_gc_time now key (some (time last)) m = (if ltb now (last + day) then false else true, m)
  check_gc_time now key (some v) m = (true, delete_in_memory key m)

  unfoldable pub acquire_lock_for_gc_tower_labels : ℕ → String → Memory C → Bool × Memory C
  unfolding check_gc_time
  acquire_lock_for_gc_tower_labels now tower m =
      if found (get_in_memory now (get_key_for_gc_label tower) m)
      then (false, m)
      else let key = get_key_for_gc_label_time tower in
        let (due, m') = check_gc_time now key (get_in_memory now key m) m in
        if due
        then (true, set_in_memory now (get_key_for_gc_label tower) nil none m')
        else (false, m')

  unfoldable pub release_lock_for_for_gc_tower_labels : String → Memory C → Memory C
  release_lock_for_for_gc_tower_labels tower = delete_in_memory (get_key_for_gc_label tower)

  unfoldable pub record_gc_time_for_tower_labels : ℕ → String → Memory C → Memory C
  record_gc_time_for_tower_labels now tower =
      set_in_memory now (get_key_for_gc_label_time tower) (time now) none
