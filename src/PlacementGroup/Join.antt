-- ===== src/PlacementGroup/Join.antt =====
-- joinPlacementGroup, migrateVM, addVMsToPlacementGroup and deletePlacementGroup of
-- controllers/elfmachine_controller_placement_group.go.
pub mod Ticket
pub mod Room
use cluster_api_provider_elf.Base.{
  ℕ, ◌+◌, String, ◌+++◌, Bool, true, false, not, ◌&&◌, ◌||◌, Option, none, some, List, [], ◌∷◌, any,
  length, ltb, ◌==◌, str_eq, has_prefix, if◌then◌else◌, Result, ok, err,
}
use cluster_api_provider_elf.Base.Int.{ℤ}
use cluster_api_provider_elf.Action.{pure, raise, attempt, deferred, ◌>>=◌, ◌>>◌}
use cluster_api_provider_elf.Cache.{GoCache}
use cluster_api_provider_elf.Memory.{Value}
use cluster_api_provider_elf.Conditions.{Conditions, info, warning}
use cluster_api_provider_elf.Reasons.{
  vm_provisioned_condition, joining_placement_group_reason, joining_placement_group_failed_reason,
}
use cluster_api_provider_elf.Kubernetes.{
  ControlPlane, Deployment, is_control_plane_machine, is_kcp_in_rolling_update,
}
use cluster_api_provider_elf.Tower.{PlacementGroup, Task, TaskStatus, failed, Vm, Host}
use cluster_api_provider_elf.Machine.{ElfMachine, set_task}
use cluster_api_provider_elf.Context.{MachineContext, get_elf_cluster_id, get_failure_domain}
use cluster_api_provider_elf.Collections.{unsorted_list}
use cluster_api_provider_elf.Hosts.{
  Hosts, contains_host, is_empty, find, filter_unavailable_hosts_or_without_enough_memory,
}
use cluster_api_provider_elf.Messages.{is_vm_placement_group_not_found}
use cluster_api_provider_elf.TowerCache.Caches.{del_pg_caches}
use cluster_api_provider_elf.Task.{mark}
use cluster_api_provider_elf.Outside.{
  VmService, Site, Reconcile, ask, on_machine, on_memory, set_machine, read_ctx,
}
use cluster_api_provider_elf.PlacementGroup.{
  tower_memory, get_kcp_by_machine, get_md_by_machine, group_name, get_placement_group,
  with_group_ticket, waiting_failed, get_vm_placement_group_name_prefix,
}
use cluster_api_provider_elf.PlacementGroup.Room.{
  add_member, get_vms_in_placement_group, get_hosts_in_placement_group, get_available_hosts_for_vm,
  is_stopped,
}

abbrev pub set_placement_group_ref : {S : Type 0} → String → ElfMachine S → ElfMachine S
set_placement_group_ref id m =
    let s = m.status in record m { status = record s { placement_group_ref = id } }

-- The hosts of the other control plane machines that are in the group.
unfoldable pub hosts_of_others : {S : Type 0} → String → String → List (ElfMachine S) → List String
hosts_of_others name group_id [] = []
hosts_of_others name group_id (m ∷ ms) =
    let rest = hosts_of_others name group_id ms in
    if not (str_eq name m.name) && str_eq m.status.placement_group_ref group_id
    then add_member m.status.host_server_ref rest
    else rest

module _ {S C T : Type 0} ⦃c : Conditions S⦄ where
  -- The deferred mark.
  unfoldable pub mark_joining : Result Bool → Site S C T → Site S C T
  mark_joining (err e) =
      set_machine (mark vm_provisioned_condition joining_placement_group_failed_reason warning e)
  mark_joining (ok false) =
      set_machine (mark vm_provisioned_condition joining_placement_group_reason info "")
  mark_joining (ok true) = λ s. s

module _ {S C T : Type 0} (v : VmService S C T) where
  unfoldable pub memory_of : MachineContext S → ℤ
  unfolding tower_memory
  memory_of ctx = tower_memory v.vm_memory_mib ctx.elf_machine.spec.memory_mib

  unfoldable pub migrate_vm : Vm → String → Reconcile S C T Bool
  unfolding ◌>>=◌ ◌>>◌ pure ask on_machine set_task
  migrate_vm vm target =
      if str_eq vm.host_id target
      then pure true
      else do task ← ask (v.migrate vm.id target); on_machine (set_task task); pure false

  -- The last steps before a migration: whether enough of the others are in the group, and the
  -- first of the available hosts is not used by one of them.
  unfoldable pub migrate_to_free :
      Vm → ControlPlane → List String → List Host → Reconcile S C T Bool
  unfolding pure raise migrate_vm
  migrate_to_free vm kcp others [] = raise "index out of range"
  migrate_to_free vm kcp others (target ∷ _) =
      if ltb (length others + 1) kcp.spec_replicas
      then pure true
      else if any (str_eq target.id) others
      then pure true
      else migrate_vm vm target.id

  -- A virtual machine that runs on a host that is not available is migrated, or left as it is.
  unfoldable pub try_migrate : Vm → PlacementGroup → Hosts → Reconcile S C T Bool
  unfolding ◌>>=◌ pure ask read_ctx get_kcp_by_machine is_kcp_in_rolling_update unsorted_list
      migrate_to_free hosts_of_others
  try_migrate vm group available = do
    ctx ← read_ctx (λ x. x)
    kcp ← ask (get_kcp_by_machine v ctx.machine)
    if is_kcp_in_rolling_update kcp then pure true else do
      machines ← ask (v.list_control_plane ctx.owner.namespace ctx.owner.name)
      let others = hosts_of_others ctx.elf_machine.name group.id machines
      if not (length machines == kcp.spec_replicas)
          then pure true
          else migrate_to_free vm kcp others (unsorted_list available)

  -- The group is full. The answer is whether the virtual machine may go on without it.
  unfoldable pub full_group : Vm → Hosts → Reconcile S C T Bool
  unfolding ◌>>=◌ pure ask read_ctx get_kcp_by_machine is_kcp_in_rolling_update memory_of is_empty
      filter_unavailable_hosts_or_without_enough_memory
  full_group vm used = do
    ctx ← read_ctx (λ x. x)
    kcp ← ask (get_kcp_by_machine v ctx.machine)
    pure (
        if is_kcp_in_rolling_update kcp && is_stopped vm
        then is_empty (filter_unavailable_hosts_or_without_enough_memory (memory_of ctx) used)
        else not (is_stopped vm))

  abbrev pub finally_with : Reconcile S C T Bool → Reconcile S C T (Option Bool)
  finally_with m = do answer ← m; pure (some answer)

  -- The branches for a control plane machine: an answer that is returned at once, or `none` to go
  -- on and join.
  unfoldable pub choose_way : Vm → PlacementGroup → Hosts → Hosts → Reconcile S C T (Option Bool)
  unfolding ◌>>=◌ pure read_ctx get_failure_domain is_empty contains_host full_group try_migrate
  choose_way vm group used available = do
    ctx ← read_ctx (λ x. x)
    if not (str_eq (get_failure_domain ctx) "")
        then (if is_empty available && is_stopped vm then pure (some false) else pure none)
        else if is_empty available
        then finally_with (full_group vm used)
        else if not (contains_host vm.host_id available) && not (is_stopped vm)
        then finally_with (try_migrate vm group available)
        else pure none

  unfoldable pub place_control_plane : Vm → PlacementGroup → Reconcile S C T (Option Bool)
  unfolding ◌>>=◌ pure ask read_ctx get_elf_cluster_id find get_hosts_in_placement_group
      get_available_hosts_for_vm choose_way memory_of
  place_control_plane vm group = do
    ctx ← read_ctx (λ x. x)
    hosts ← ask (v.get_hosts_by_cluster (get_elf_cluster_id ctx) ctx.datastore_id)
    used_ids ← get_hosts_in_placement_group v group
    let used = find used_ids hosts
    choose_way vm group used (get_available_hosts_for_vm (memory_of ctx) hosts used (some vm))

  module _ ⦃c : Conditions S⦄ ⦃g : GoCache C Value⦄ where
    -- What follows the task that adds to a group.
    unfoldable pub added_vms : PlacementGroup → String → Result Task → Reconcile S C T (Unit {0})
    unfolding raise on_machine
    added_vms group task_id (err e) =
        raise (waiting_failed "updating" v.wait_timeout group.name task_id e)
    added_vms group task_id (ok task) = elim task.status [
      | failed ↦
          raise ("failed to update placement group " +++ (group.name +++ (" in task " +++ task_id)))
      | _ ↦ on_machine (set_placement_group_ref group.id)
    ]

    unfoldable pub add_vms_to_placement_group :
        PlacementGroup → List String → Reconcile S C T (Unit {0})
    unfolding ◌>>=◌ ◌>>◌ ask on_memory attempt del_pg_caches added_vms
    add_vms_to_placement_group group vm_ids = do
      task_id ← ask (v.add_vms_to_placement_group group vm_ids)
      on_memory (λ m. (tt, del_pg_caches (group.name ∷ []) m))
      waited ← attempt (ask (v.wait_task task_id))
      added_vms group task_id waited

    -- The end of the function: a virtual machine that was not placed otherwise is added.
    unfoldable pub join_unless : Vm → PlacementGroup → Option Bool → Reconcile S C T Bool
    unfolding ◌>>=◌ ◌>>◌ pure add_vms_to_placement_group get_vms_in_placement_group
    join_unless vm group (some answer) = pure answer
    join_unless vm group none = do
      add_vms_to_placement_group group (add_member vm.id (get_vms_in_placement_group group))
      pure true

    unfoldable pub join_group : Vm → PlacementGroup → Reconcile S C T Bool
    unfolding ◌>>=◌ ◌>>◌ pure read_ctx on_machine is_control_plane_machine any
        get_vms_in_placement_group place_control_plane join_unless
    join_group vm group =
        if any (str_eq vm.id) (get_vms_in_placement_group group)
        then on_machine (set_placement_group_ref group.id) >> pure true
        else do
          ctx ← read_ctx (λ x. x)
          placed ←
              (if is_control_plane_machine ctx.machine
                then place_control_plane vm group
                else pure none)
          join_unless vm group placed

    -- What is done under the ticket.
    unfoldable pub join_locked : Vm → String → Reconcile S C T Bool
    unfolding ◌>>=◌ pure get_placement_group join_group
    join_locked vm name = do
      found ← get_placement_group v name
      elim found [ none ↦ pure false | some group ↦ join_group vm group ]

    unfoldable pub join_placement_group : Vm → Reconcile S C T Bool
    unfolding ◌>>=◌ deferred group_name with_group_ticket join_locked mark_joining
    join_placement_group vm =
        deferred mark_joining
          (do name ← group_name v; with_group_ticket v name false (join_locked vm name))
