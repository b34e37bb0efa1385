-- ===== src/PlacementGroup.antt =====
-- pkg/resources/placement_group.go and the first half of
-- controllers/elfmachine_controller_placement_group.go: the names of placement groups, how a group is
-- found and created, and the lock under which it is changed.
pub mod Room
pub mod Frame
pub mod Join
pub mod Removal
pub mod PreCheck
use cluster_api_provider_elf.Base.{
  ℕ, zero, suc, String, ◌+++◌, Bool, true, false, not, ◌||◌, Option, none, some, List, [], ◌∷◌,
  str_eq, if◌then◌else◌, Result, ok, err,
}
use cluster_api_provider_elf.Base.Int.{ℤ, pos, int64, ◌*ℤ◌, leb_ℤ}
use cluster_api_provider_elf.Action.{
  Action, pure, raise, from_result, attempt, wrap, deferred, ◌>>=◌, ◌>>◌,
}
use cluster_api_provider_elf.Cache.{GoCache}
use cluster_api_provider_elf.Memory.{Memory, Value}
use cluster_api_provider_elf.Kubernetes.{
  Cluster, ClusterMachine, ControlPlane, Deployment, is_control_plane_machine,
  get_placement_group_name, get_kcp_name_by_machine, get_deployment_name_label,
}
use cluster_api_provider_elf.Tower.{
  PlacementGroup, VmPolicy, must_different, prefer_different, Task, TaskStatus, failed,
}
use cluster_api_provider_elf.Uuid.{is_uuid}
use cluster_api_provider_elf.Context.{MachineContext, get_elf_cluster_id}
use cluster_api_provider_elf.Messages.{
  get_tower_string, is_vm_placement_group_not_found, is_vm_placement_group_duplicate,
}
use cluster_api_provider_elf.Limiter.{
  acquire_ticket_for_placement_group_operation, release_ticket_for_placement_group_operation,
  set_placement_group_duplicate, can_create_placement_group,
}
use cluster_api_provider_elf.TowerCache.Caches.{set_pg_cache, get_pg_from_cache}
use cluster_api_provider_elf.Outside.{
  VmService, Call, Site, Reconcile, ask, on_memory, set_memory, read_ctx, time_now,
}

abbrev pub mib : ℤ
mib = pos 1048576

-- `vm_memory_mib` is the setting for a machine that names no memory.
unfoldable pub tower_memory : ℤ → ℤ → ℤ
tower_memory vm_memory_mib memory_mib =
    int64 ((if leb_ℤ memory_mib (pos 0) then vm_memory_mib else memory_mib) *ℤ mib)

unfoldable pub get_vm_placement_group_policy : ClusterMachine → VmPolicy
unfolding is_control_plane_machine
get_vm_placement_group_policy m =
    if is_control_plane_machine m then must_different else prefer_different

unfoldable pub get_vm_placement_group_name_prefix : String → Cluster → String
get_vm_placement_group_name_prefix prefix cluster =
    prefix +++ ("-managed-" +++ (cluster.uid +++ ("-" +++ cluster.namespace)))

-- `shortID[:n]`, of an ASCII text that may be shorter.
unfoldable pub first_characters : ℕ → String → String
first_characters zero s = ""
first_characters (suc n) String.[] = ""
first_characters (suc n) (String.◌∷◌ c s) = String.◌∷◌ c (first_characters n s)

-- The name of a group that the provider makes itself.
unfoldable pub managed_name : String → Cluster → Option String → String → String
unfolding get_vm_placement_group_name_prefix first_characters
managed_name prefix cluster failure_domain group =
    if str_eq group ""
    then ""
    else let name = get_vm_placement_group_name_prefix prefix cluster +++ ("-" +++ group) in
      elim failure_domain [ none ↦ name | some fd ↦ name +++ ("-" +++ first_characters 8 fd) ]

-- The message of a wait that failed.
abbrev pub waiting_failed : String → String → String → String → String → String
waiting_failed doing timeout name task_id e =
    "failed to wait for placement group "
    +++ (doing
        +++ (" task to complete in "
            +++ (timeout
                +++ (": pgName " +++ (name +++ (", taskID " +++ (task_id +++ (": " +++ e))))))))

module _ {S C T : Type 0} (v : VmService S C T) where
  unfoldable pub get_kcp_by_machine : ClusterMachine → Call C T ControlPlane
  unfolding ◌>>=◌ from_result
  get_kcp_by_machine m = do
    name ← from_result (get_kcp_name_by_machine m)
    v.get_kcp m.namespace name

  unfoldable pub get_md_by_machine : ClusterMachine → Call C T Deployment
  get_md_by_machine m = v.get_md m.namespace (get_deployment_name_label m)

  unfoldable pub get_vm_placement_group_name : ClusterMachine → Cluster → Call C T String
  unfolding ◌>>=◌ from_result pure get_kcp_by_machine get_md_by_machine managed_name
      is_control_plane_machine
  get_vm_placement_group_name m cluster =
      if is_control_plane_machine m
      then (do
        kcp ← get_kcp_by_machine m
        let given = get_placement_group_name kcp.annotations
        group ← from_result (get_kcp_name_by_machine m)
        pure (
            if str_eq given ""
            then managed_name v.resource_prefix cluster m.failure_domain group
            else given))
      else do
        md ← get_md_by_machine m
        let given = get_placement_group_name md.annotations
        let group = get_deployment_name_label m
        pure (
            if str_eq given ""
            then managed_name v.resource_prefix cluster m.failure_domain group
            else given)

  -- Its call in a reconcile.
  unfoldable pub group_name : Reconcile S C T String
  unfolding ◌>>=◌ read_ctx ask get_vm_placement_group_name
  group_name = do ctx ← read_ctx (λ x. x); ask (get_vm_placement_group_name ctx.machine ctx.owner)

  module _ ⦃g : GoCache C Value⦄ where
    -- A group that is being changed is waited for.
    unfoldable pub fetch_placement_group : String → Reconcile S C T (Option PlacementGroup)
    unfolding ◌>>=◌ ◌>>◌ pure ask on_memory time_now set_pg_cache is_uuid
    fetch_placement_group name = do
      group ← ask (v.get_vm_placement_group name)
      if not (is_uuid group.local_id) || group.entity_async_status then pure none else do
        now ← time_now v
        on_memory (λ m. (tt, set_pg_cache now group m))
        pure (some group)

    unfoldable pub cached_or_fetched :
        String → Option PlacementGroup → Reconcile S C T (Option PlacementGroup)
    unfolding pure fetch_placement_group
    cached_or_fetched name (some group) = pure (some group)
    cached_or_fetched name none = fetch_placement_group name

    unfoldable pub get_placement_group : String → Reconcile S C T (Option PlacementGroup)
    unfolding ◌>>=◌ pure on_memory time_now get_pg_from_cache cached_or_fetched
    get_placement_group name = do
      now ← time_now v
      cached ← on_memory (get_pg_from_cache now name)
      cached_or_fetched name cached

    -- A function body from acquireTicketForPlacementGroupOperation on, with the release that it
    -- defers: without the ticket it gives `busy`.
    unfoldable pub with_group_ticket :
        {A : Type 0} → String → A → Reconcile S C T A → Reconcile S C T A
    unfolding ◌>>=◌ pure on_memory time_now deferred release_ticket_for_placement_group_operation
        acquire_ticket_for_placement_group_operation
    with_group_ticket name busy body = do
      now ← time_now v
      acquired ← on_memory (acquire_ticket_for_placement_group_operation now name)
      (if acquired
          then deferred (λ _. set_memory (release_ticket_for_placement_group_operation name)) body
          else pure busy)

    -- The mark of a duplicate, at the time of the call.
    unfoldable pub note_duplicate : String → Reconcile S C T (Unit {0})
    unfolding ◌>>=◌ on_memory time_now set_placement_group_duplicate
    note_duplicate name = do
      now ← time_now v
      on_memory (λ m. (tt, set_placement_group_duplicate now name m))

    -- What follows the task that creates a group.
    unfoldable pub created_group :
        String → String → Result Task → Reconcile S C T (Option PlacementGroup)
    unfolding ◌>>=◌ ◌>>◌ pure raise note_duplicate get_placement_group
    created_group name task_id (err e) = do
      note_duplicate name
      raise (waiting_failed "creating" v.wait_timeout name task_id e)
    created_group name task_id (ok task) = elim task.status [
      | failed ↦ do
        (if is_vm_placement_group_duplicate (get_tower_string task.error_message)
            then note_duplicate name
            else pure tt)
        raise ("failed to create placement group " +++ (name +++ (" in task " +++ task.id)))
      | _ ↦ get_placement_group name
    ]

    unfoldable pub create_placement_group : String → Reconcile S C T (Option PlacementGroup)
    unfolding ◌>>=◌ pure ask read_ctx attempt on_memory time_now can_create_placement_group
        get_vm_placement_group_policy created_group
    create_placement_group name = do
      now ← time_now v
      can ← on_memory (λ m. (can_create_placement_group now name m, m))
      if not can then pure none else do
        ctx ← read_ctx (λ x. x)
        cluster_id ← ask (v.get_cluster (get_elf_cluster_id ctx))
        let policy = get_vm_placement_group_policy ctx.machine
        task_id ← ask (v.create_vm_placement_group name cluster_id policy)
        waited ← attempt (ask (v.wait_task task_id))
        created_group name task_id waited

    -- Whether to requeue: the group is not there yet.
    unfoldable pub is_awaited : Option PlacementGroup → Bool
    is_awaited none = true
    is_awaited (some group) = false

    -- What follows the first read: a group that Tower does not know is created under the ticket.
    unfoldable pub ensure_group : String → Result (Option PlacementGroup) → Reconcile S C T Bool
    unfolding ◌>>=◌ pure raise is_awaited with_group_ticket create_placement_group
    ensure_group name (ok found) = pure (is_awaited found)
    ensure_group name (err e) =
        if is_vm_placement_group_not_found e
        then with_group_ticket name true
            (do created ← create_placement_group name; pure (is_awaited created))
        else raise e

    -- The answer is whether the reconcile is to be repeated after DefaultRequeueTimeout.
    unfoldable pub reconcile_placement_group : Reconcile S C T Bool
    unfolding ◌>>=◌ attempt group_name get_placement_group ensure_group
    reconcile_placement_group = do
      name ← group_name
      found ← attempt (get_placement_group name)
      ensure_group name found
