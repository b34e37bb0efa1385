-- ===== src/PlacementGroup/PreCheck.antt =====
-- preCheckPlacementGroup and getVMHostForRollingUpdate of
-- controllers/elfmachine_controller_placement_group.go, and Newest of
-- pkg/util/capi/collections/machine_collection.go: whether there is a host for a machine that is to be
-- created.
pub mod Laws
use cluster_api_provider_elf.Base.{
  ℕ, String, ◌+++◌, Bool, true, false, not, ◌&&◌, ◌||◌, Option, none, some, List, [], ◌∷◌, ltb,
  ◌==◌, str_eq, if◌then◌else◌, Result, ok, err, codes,
}
use cluster_api_provider_elf.Base.Dict
use cluster_api_provider_elf.Base.Dict.{lookup}
use cluster_api_provider_elf.Base.Int.{ℤ}
use cluster_api_provider_elf.Action.{pure, wrap, deferred, ◌>>=◌, ◌>>◌}
use cluster_api_provider_elf.Cache.{GoCache}
use cluster_api_provider_elf.Memory.{Value}
use cluster_api_provider_elf.Conditions.{Conditions, info}
use cluster_api_provider_elf.Reasons.{
  vm_provisioned_condition, waiting_for_available_host_required_by_placement_group_reason,
}
use cluster_api_provider_elf.Kubernetes.{
  ClusterMachine, ControlPlane, is_control_plane_machine, has_annotation, delete_machine_annotation,
  is_kcp_in_rolling_update, is_kcp_in_scaling_down,
}
use cluster_api_provider_elf.Tower.{PlacementGroup, NestedVm}
use cluster_api_provider_elf.Machine.{ElfMachine}
use cluster_api_provider_elf.Uuid.{is_uuid}
use cluster_api_provider_elf.Context.{MachineContext, get_elf_cluster_id, get_failure_domain}
use cluster_api_provider_elf.Hosts.{
  Hosts, is_empty, len, find, get_host, is_available_host,
  filter_unavailable_hosts_or_without_enough_memory,
}
use cluster_api_provider_elf.Task.{mark}
use cluster_api_provider_elf.Outside.{VmService, Call, Site, Reconcile, ask, set_machine, read_ctx}
use cluster_api_provider_elf.PlacementGroup.{get_kcp_by_machine, group_name, get_placement_group}
use cluster_api_provider_elf.PlacementGroup.Room.{
  get_hosts_in_placement_group, get_available_hosts_for_vm,
}
use cluster_api_provider_elf.PlacementGroup.Join.{memory_of}

-- `a < b` on texts.
unfoldable pub text_before : List ℕ → List ℕ → Bool
text_before xs [] = false
text_before [] (y ∷ ys) = true
text_before (x ∷ xs) (y ∷ ys) = if x == y then text_before xs ys else ltb x y

-- machinesByCreationTimestamp.Less
unfoldable pub created_before : ClusterMachine → ClusterMachine → Bool
unfolding text_before
created_before a b =
    if a.creation_timestamp == b.creation_timestamp
    then text_before (codes a.name) (codes b.name)
    else ltb a.creation_timestamp b.creation_timestamp

-- The last one in that order.
unfoldable pub newest : List ClusterMachine → Option ClusterMachine
unfolding created_before
newest [] = none
newest (m ∷ ms) = elim (newest ms) [
  | none ↦ some m
  | some n ↦ some (if created_before m n then n else m)
]

-- The ElfMachines that have a virtual machine, by name, from a map on; a later one takes the place
-- of an earlier one.
unfoldable pub created_elf_machines :
    {S : Type 0} → List (String × ElfMachine S) → List (ElfMachine S) → List (String × ElfMachine S)
unfolding is_uuid Dict.insert
created_elf_machines by_name [] = by_name
created_elf_machines by_name (m ∷ ms) =
    created_elf_machines (if is_uuid m.status.vm_ref then Dict.insert m.name m by_name else by_name)
      ms

-- The placement group machines, the map of their virtual machines.
abbrev pub Placed : Type 0
Placed = List ClusterMachine × List (String × String)

abbrev pub patch_failed : ClusterMachine → String
patch_failed m =
    "failed to patch Machine "
    +++ (m.namespace
        +++ ("/"
            +++ (m.name +++ " to add delete machine annotation cluster.x-k8s.io/delete-machine.")))

abbrev pub marked : ClusterMachine → ClusterMachine
marked m = record m { annotations = Dict.insert delete_machine_annotation "" m.annotations }

module _ {S C T : Type 0} (v : VmService S C T) where
  -- The loop over the virtual machines of the group. A machine's later entry counts.
  unfoldable pub placed_machines :
      List (String × ElfMachine S) → List NestedVm → Placed → Reconcile S C T Placed
  unfolding ◌>>=◌ pure ask lookup Dict.insert
  placed_machines by_name [] acc = pure acc
  placed_machines by_name (x ∷ xs) acc = elim (lookup x.name by_name) [
    | none ↦ placed_machines by_name xs acc
    | some elf ↦ do
      machine ← ask (v.get_owner_machine elf)
      placed_machines by_name xs (machine ∷ acc.0, Dict.insert machine.name x.id acc.1)
  ]

  abbrev pub or_none : Option String → String
  or_none none = ""
  or_none (some s) = s

  -- The host of the newest machine, if it can take the new one.
  unfoldable pub host_of_newest :
      ℤ → Hosts → List (String × String) → Option ClusterMachine → Reconcile S C T String
  unfolding ◌>>=◌ pure ask lookup get_host is_available_host
  host_of_newest memory hosts vm_map none = pure ""
  host_of_newest memory hosts vm_map (some machine) = do
    vm ← ask (v.get (or_none (lookup machine.name vm_map)))
    pure (if (is_available_host (get_host vm.host_id hosts) memory).0 then vm.host_id else "")

  unfoldable pub get_vm_host_for_rolling_update : PlacementGroup → Hosts → Reconcile S C T String
  unfolding ◌>>=◌ pure ask read_ctx created_elf_machines placed_machines newest host_of_newest
      memory_of
  get_vm_host_for_rolling_update group hosts = do
    ctx ← read_ctx (λ x. x)
    elf_machines ← ask (v.list_control_plane ctx.owner.namespace ctx.owner.name)
    placed ← placed_machines (created_elf_machines [] elf_machines) group.vms ([], [])
    host_of_newest (memory_of v ctx) hosts placed.1 (newest placed.0)

  -- A machine that is not marked for deletion yet is marked, so that the scaling down takes it.
  unfoldable pub mark_for_deletion : ClusterMachine → Reconcile S C T (Option String)
  unfolding ◌>>=◌ ◌>>◌ pure ask wrap has_annotation Dict.insert
  mark_for_deletion m =
      if has_annotation m.annotations delete_machine_annotation then pure none else do
        wrap "failed to init patch helper" (ask (v.new_patch_helper m))
        wrap (patch_failed m) (ask (v.patch_machine (marked m)))
        pure none

  abbrev pub named_host : String → Option String
  named_host id = if str_eq id "" then none else some id

  -- The rolling update of a full group.
  unfoldable pub pre_check_rolling :
      ControlPlane → PlacementGroup → Hosts → Hosts → Reconcile S C T (Option String)
  unfolding ◌>>=◌ pure read_ctx len is_empty memory_of get_vm_host_for_rolling_update
      filter_unavailable_hosts_or_without_enough_memory
  pre_check_rolling kcp group hosts used = do
    ctx ← read_ctx (λ x. x)
    if ltb (len used) kcp.spec_replicas
          || not
              (is_empty (filter_unavailable_hosts_or_without_enough_memory (memory_of v ctx) used))
        then pure none
        else do id ← get_vm_host_for_rolling_update group hosts; pure (named_host id)

  -- No host is available.
  unfoldable pub pre_check_full : PlacementGroup → Hosts → Hosts → Reconcile S C T (Option String)
  unfolding ◌>>=◌ pure ask read_ctx get_kcp_by_machine is_kcp_in_rolling_update
      is_kcp_in_scaling_down mark_for_deletion pre_check_rolling
  pre_check_full group hosts used = do
    ctx ← read_ctx (λ x. x)
    kcp ← ask (get_kcp_by_machine v ctx.machine)
    if not (is_kcp_in_rolling_update kcp) && not (is_kcp_in_scaling_down kcp)
        then pure none
        else if is_kcp_in_scaling_down kcp
        then mark_for_deletion ctx.machine
        else pre_check_rolling kcp group hosts used

  unfoldable pub pre_check_group : PlacementGroup → Reconcile S C T (Option String)
  unfolding ◌>>=◌ pure ask read_ctx get_elf_cluster_id find is_empty get_hosts_in_placement_group
      get_available_hosts_for_vm memory_of pre_check_full
  pre_check_group group = do
    ctx ← read_ctx (λ x. x)
    used_ids ← get_hosts_in_placement_group v group
    hosts ← ask (v.get_hosts_by_cluster (get_elf_cluster_id ctx) ctx.datastore_id)
    let used = find used_ids hosts
    if not (is_empty (get_available_hosts_for_vm (memory_of v ctx) hosts used none))
        then pure (some "")
        else pre_check_full group hosts used

  -- A group that is being changed is waited for.
  unfoldable pub pre_check_found : Option PlacementGroup → Reconcile S C T (Option String)
  unfolding pure pre_check_group
  pre_check_found none = pure none
  pre_check_found (some group) = pre_check_group group

  module _ ⦃c : Conditions S⦄ ⦃g : GoCache C Value⦄ where
    -- The deferred mark, where no host is returned.
    unfoldable pub mark_waiting_for_host : Result (Option String) → Site S C T → Site S C T
    mark_waiting_for_host (ok (some host)) s = s
    mark_waiting_for_host _ s =
        set_machine
          (mark vm_provisioned_condition
            waiting_for_available_host_required_by_placement_group_reason info "")
          s

    unfoldable pub pre_check_placement_group : Reconcile S C T (Option String)
    unfolding ◌>>=◌ pure read_ctx deferred is_control_plane_machine get_failure_domain group_name
        get_placement_group pre_check_found mark_waiting_for_host
    pre_check_placement_group = deferred mark_waiting_for_host (do
      ctx ← read_ctx (λ x. x)
      if not (is_control_plane_machine ctx.machine) || not (str_eq (get_failure_domain ctx) "")
          then pure (some "")
          else do name ← group_name v; found ← get_placement_group v name; pre_check_found found)
