-- ===== src/Tests/LifecycleTests.antt =====
-- Operations on virtual machines and their deletion, run on the service of the tests.
use cluster_api_provider_elf.Base.{
  ℕ, ◌≡◌, ◌⊎◌, none, refl, Bool, true, false, ◌&&◌, [], ◌∷◌, some, ok, err, has_prefix, contains,
}
use cluster_api_provider_elf.Cache.Assoc.{assoc_cache, get, put}
use cluster_api_provider_elf.Conditions.{list_conditions}
use cluster_api_provider_elf.Limiter.{acquire_ticket_for_updating_vm}
use cluster_api_provider_elf.Tower.{Vm, running}
use cluster_api_provider_elf.Outside.{Call, Reconcile, ask, read_ctx, on_machine}
use cluster_api_provider_elf.Action.{attempt, deferred, raise, pure, ◌>>=◌, ◌>>◌}
use cluster_api_provider_elf.Messages.{is_vm_not_found}
use cluster_api_provider_elf.Machine.{has_vm}
use cluster_api_provider_elf.PlacementGroup.Removal.{delete_placement_group}
use cluster_api_provider_elf.Memory.{Memory}
use cluster_api_provider_elf.Lifecycle.{has_updated_restricted_fields, reconcile_vm_status}
use cluster_api_provider_elf.Lifecycle.Laws.{true_means_running}
use cluster_api_provider_elf.Lifecycle.Deletion.{
  reconcile_delete_vm, delete_first, reconcile_delete, delete_machine, delete_unsaved, let_go,
}
use cluster_api_provider_elf.Lifecycle.Deletion.Laws.{
  with_delete, running_not_deleted, only_duplicates_deleted,
}
use cluster_api_provider_elf.Lifecycle.Deletion.Finalizer.{Reason, let_go_justified}
use cluster_api_provider_elf.Outside.{VmService}
use cluster_api_provider_elf.Context.{MachineContext}
use cluster_api_provider_elf.Kubernetes.{get_placement_group_name}
use cluster_api_provider_elf.Lifecycle.Creation.{Bootstrap, Choice, create_ticketed}
use cluster_api_provider_elf.Lifecycle.Creation.Ticket.{creation_ticket, ticket_kept_for_vm}
use cluster_api_provider_elf.Lifecycle.BringUp.{Parts, reconcile_vm}
use cluster_api_provider_elf.Lifecycle.BringUp.Laws.{IsReady, vm_brought_up}
use cluster_api_provider_elf.Tests.HistoryTests.{Entries, empty_memory}
use cluster_api_provider_elf.Tests.TaskTests.{Conds, ctx}
use cluster_api_provider_elf.Tests.ServiceTests.{
  answer, created, vm_on, service, site, control_plane,
}

-- An operation was started four seconds ago.
abbrev limited : Memory Entries
limited = (acquire_ticket_for_updating_vm 6 "node" empty_memory).1

abbrev no_volume : Vm → Reconcile Conds Entries ℕ Bool
no_volume vm s = (ok true, s)

true_means_running_example :
    ((vm_on "a" running).status ≡ some running)
    × ((has_updated_restricted_fields service (vm_on "a" running) ctx.elf_machine && true) ≡ false)
unfolding reconcile_vm_status
true_means_running_example =
    true_means_running service true no_volume (vm_on "a" running) (site ctx empty_memory) refl

running_not_deleted_example :
    reconcile_delete_vm service (site ctx empty_memory)
    ≡ reconcile_delete_vm (with_delete service λ id. answer "never") (site ctx empty_memory)
running_not_deleted_example =
    running_not_deleted service (λ id. answer "never") (vm_on "b" running) (site ctx empty_memory)
      (site ctx empty_memory).shared refl refl

-- The one is the machine's own, the other runs.
only_duplicates_deleted_example :
    delete_first service "own" (vm_on "a" running ∷ []) (site ctx empty_memory)
    ≡ delete_first
        (with_delete service λ id. answer "never")
        "own"
        (vm_on "a" running ∷ [])
        (site ctx empty_memory)
only_duplicates_deleted_example =
    only_duplicates_deleted service (λ id. answer "never") "own" (vm_on "a" running ∷ [])
      (site ctx empty_memory) ((λ d. cc), tt)

-- Tower knows of no virtual machine of the name.
abbrev without_vm : VmService Conds Entries ℕ
without_vm = record service { get_by_name = λ name s. (err "VM_NOT_FOUND", s) }

let_go_justified_example : Reason without_vm control_plane
unfolding reconcile_delete delete_machine delete_placement_group delete_unsaved is_vm_not_found
    has_vm attempt deferred ask read_ctx on_machine ◌>>=◌ ◌>>◌ let_go raise pure has_prefix contains
let_go_justified_example = let_go_justified without_vm (site control_plane empty_memory) refl refl

abbrev boot : MachineContext Conds → Call Entries ℕ Bootstrap
boot x = answer ("host", "data")

abbrev select : Reconcile Conds Entries ℕ Choice
select s = (ok (some "a", []), s)

ticket_kept_for_vm_example :
    let r = create_ticketed service 5 boot select "node" ("host", "data") (site ctx limited) in
    (r.0 ≡ ok true) ⊎ (creation_ticket 50 "node" r.1.shared ≡ none)
ticket_kept_for_vm_example =
    ticket_kept_for_vm service "node" 50 boot select (λ x h. h) 5 ("host", "data")
      (site ctx limited)

abbrev parts : Parts Conds Entries ℕ
parts = record {
  maximum = 5;
  bootstrap = boot;
  select_host = select;
  host_and_zone = λ vm s. (ok tt, s);
  gpu_devices = no_volume;
  restores = true;
  volume = no_volume;
  resources = no_volume;
}

-- The machine has its virtual machine already.
abbrev settled : MachineContext Conds
settled = record ctx { elf_machine = created }

vm_brought_up_example : IsReady service parts (vm_on "b" running)
unfolding reconcile_vm get put get_placement_group_name
vm_brought_up_example =
    vm_brought_up service parts (vm_on "b" running) (site settled empty_memory) refl
