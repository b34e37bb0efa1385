-- ===== src/Tests/HistoryTests.antt =====
-- Runs of the limiter on a cache that is an association list.
use cluster_api_provider_elf.Base.{
  ℕ, ◌≤◌, String, ◌≡◌, ◌≢◌, refl, true, false, List, [], ◌∷◌, All, arith,
}
use cluster_api_provider_elf.Base.Dict.{lookup, insert}
use cluster_api_provider_elf.Base.Int.{pos}
use cluster_api_provider_elf.Cache.Assoc.{Item, assoc_cache, get, put, read}
use cluster_api_provider_elf.Memory.{Memory, Value}
use cluster_api_provider_elf.Limiter.{
  duplicate_detected, acquire_ticket_for_create_vm, acquire_ticket_for_updating_vm,
  store_ticket_for_updating_vm, acquire_ticket_for_placement_group_operation, set_vm_duplicate,
}
use cluster_api_provider_elf.History.{
  Call, creates, updates, marks_vm, marks_group, sweeps, step, run, IsTimed, unlocks_group,
}
use cluster_api_provider_elf.History.Tickets.{
  update_ticket_expires, group_lock_exclusive, duplicate_silences,
}
use cluster_api_provider_elf.History.Overlap.{
  Part, at_once, stores_ticket, run_parts, update_ticket_exclusive,
}
use cluster_api_provider_elf.History.Concurrency.{vms_le_maximum}

abbrev pub Entries : Type 0
Entries = List (String × Item Value)

abbrev pub empty_memory : Memory Entries
empty_memory = record {
  in_memory = [];
  vm_concurrent = [];
  resources = λ p. record { last_detected = 0; last_retried = 0; request_amount = pos 0 };
  next_resource = 0;
}

-- Other reconciles in between.
abbrev others : List (ℕ × Call)
others = (11, updates "b") ∷ (12, marks_vm "a") ∷ (12, sweeps) ∷ (13, marks_group "g") ∷ []

others-IsTimed : IsTimed 10 others
others-IsTimed = (omega arith, (omega arith, (omega arith, (omega arith, tt))))

-- One of the others overlaps, and stores its ticket late.
abbrev parts : List (ℕ × Part)
parts = (11, at_once (updates "b")) ∷ (12, stores_ticket "a") ∷ (13, at_once sweeps) ∷ []

update_ticket_exclusive_example :
    let stored = store_ticket_for_updating_vm 10 "a" empty_memory in
    let m' = run_parts 2 parts stored in
    ((acquire_ticket_for_updating_vm 10 "a" empty_memory).0 ≡ true
      → (acquire_ticket_for_updating_vm 10 "a" empty_memory).1 ≡ stored)
    × (acquire_ticket_for_updating_vm 16 "a" m' ≡ (false, m'))
update_ticket_exclusive_example =
    update_ticket_exclusive Entries 2 10 16 "a" empty_memory parts refl
      (omega arith, (omega arith, (omega arith, tt))) (omega arith) (omega arith)

update_ticket_expires_example :
    (acquire_ticket_for_updating_vm 17 "a"
      (run 2 others (acquire_ticket_for_updating_vm 10 "a" empty_memory).1)).0
    ≡ true
unfolding acquire_ticket_for_updating_vm get read lookup
update_ticket_expires_example =
    update_ticket_expires Entries 2 10 17 "a" empty_memory others refl
      ((refl, tt), ((refl, tt), (tt, ((refl, tt), tt)))) others-IsTimed (omega arith)

not_unlocked : All (λ (c : ℕ × Call). c.1 ≢ unlocks_group "g") others
not_unlocked = (λ e. cc, (λ e. cc, (λ e. cc, (λ e. cc, tt))))

group_lock_exclusive_example :
    let m' = run 2 others (acquire_ticket_for_placement_group_operation 10 "g" empty_memory).1 in
    acquire_ticket_for_placement_group_operation 100000 "g" m' ≡ (false, m')
unfolding acquire_ticket_for_placement_group_operation get read lookup
group_lock_exclusive_example =
    group_lock_exclusive Entries 2 10 100000 "g" empty_memory others refl refl not_unlocked
      others-IsTimed (omega arith)

-- The group is locked, unlocked, and can be locked again.
abbrev locked : Memory Entries
unfolding acquire_ticket_for_placement_group_operation
locked = (acquire_ticket_for_placement_group_operation 10 "g" empty_memory).1

duplicate_silences_example :
    let m' = run 2 others (set_vm_duplicate 10 "b" empty_memory) in
    acquire_ticket_for_create_vm 2 310 "b" true m' ≡ ((false, duplicate_detected), m')
duplicate_silences_example =
    duplicate_silences Entries 2 10 310 "b" true empty_memory others others-IsTimed (omega arith)
      (omega arith)

-- Two machines ask for a ticket where one is allowed.
abbrev two_creations : List (ℕ × Call)
two_creations = (10, creates "a" false) ∷ (11, creates "b" false) ∷ []

vms_le_maximum_example : 1 ≤ 1
unfolding run step acquire_ticket_for_create_vm get read lookup put insert
vms_le_maximum_example =
    vms_le_maximum 1 two_creations empty_memory 12 ("vm:a" ∷ []) (omega arith) (tt, tt)
      (λ e. cc, tt)
