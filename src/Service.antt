-- ===== src/Service.antt =====
-- TowerVMService of pkg/service/vm.go: the calls that the reconciles make of Tower, over those of the
-- REST client. The client is the record `TowerClient`: of what a call gives, its payload is kept.
pub mod Laws
pub mod Gpus
pub mod Prefix
pub mod Joins
use cluster_api_provider_elf.Base.{
  ℕ, zero, suc, String, Bool, true, false, ◌||◌, Option, none, some, List, [], ◌∷◌, str_eq,
  if◌then◌else◌,
}
use cluster_api_provider_elf.Base.Int.{ℤ}
use cluster_api_provider_elf.Action.{pure, raise, ◌>>=◌, ◌>>◌}
use cluster_api_provider_elf.Tower.{
  Host, PlacementGroup, VmPolicy, Task, TaskStatus, failed, successed, Vm, VmDisk, VmVolume, VmNic,
  VmNicParams,
}
use cluster_api_provider_elf.Collections.{insert_all}
use cluster_api_provider_elf.Hosts.{Hosts}
use cluster_api_provider_elf.Machine.{ElfMachine}
use cluster_api_provider_elf.PlacementGroup.{tower_memory}
use cluster_api_provider_elf.Lifecycle.{tower_vcpu, tower_cpu_socket_cores, tower_cpu_sockets}
use cluster_api_provider_elf.Outside.{VmService, Call}

-- models.VMWhereInput, as far as the calls use it: the local ID or the ID, only the ID, one of the
-- IDs, the name.
pub data VmWhere : Type 0 where
  with_any_id with_id with_name : String → VmWhere
  with_ids : List String → VmWhere

-- models.VMPlacementGroupWhereInput
pub data GroupWhere : Type 0 where
  group_named group_with_id : String → GroupWhere

-- models.VMUpdateParamsData
pub record VmUpdate : Type 0 where
  pub vcpu : ℤ
  pub cpu_cores : ℤ
  pub cpu_sockets : ℤ
  pub memory : ℤ

-- The calls of cloudtower-go-sdk. Where they start tasks, they give the IDs of the tasks.
pub record TowerClient (C T : Type 0) : Type 0 where
  pub get_vms : VmWhere → Call C T (List Vm)
  pub update_vm : VmUpdate → VmWhere → Call C T (List String)
  pub migrate_vm : String → VmWhere → Call C T (List String)
  pub delete_vm : VmWhere → Call C T (List String)
  pub poweroff_vm : VmWhere → Call C T (List String)
  pub start_vm : Option String → VmWhere → Call C T (List String)
  pub shut_down_vm : VmWhere → Call C T (List String)
  pub add_vm_nic : List VmNicParams → VmWhere → Call C T (List String)
  pub get_vm_nics : VmWhere → Call C T (List VmNic)
  pub get_vm_disks : List String → Call C T (List VmDisk)
  pub get_vm_volumes : String → Call C T (List VmVolume)
  pub update_vm_volume : ℤ → String → Call C T (List String)
  pub get_tasks : String → Call C T (List Task)
  pub get_vlans : String → Call C T (List String)
  pub get_clusters : String → Call C T (List String)
  -- With the active datastore mount that is asked for.
  pub get_hosts : String → Option String → Call C T (List Host)
  pub get_vm_placement_groups : GroupWhere → Call C T (List PlacementGroup)
  pub create_vm_placement_group : String → String → VmPolicy → Call C T (List String)
  pub update_vm_placement_group : PlacementGroup → List String → Call C T (List String)
  pub delete_vm_placement_group : GroupWhere → Call C T (List String)
  -- The wait between two polls of wait.PollUntilContextTimeout.
  pub sleep : Call C T (Unit {0})

-- The error of an index into an empty payload.
abbrev pub out_of_range : String
out_of_range = "runtime error: index out of range [0] with length 0"

abbrev pub deadline_exceeded : String
deadline_exceeded = "context deadline exceeded"

abbrev pub is_ended : TaskStatus → Bool
is_ended failed = true
is_ended successed = true
is_ended _ = false

module _ {C T : Type 0} where
  -- The first entry of a payload, or the error.
  unfoldable pub first_or : {A : Type 0} → String → List A → Call C T A
  unfolding raise pure
  first_or e [] = raise e
  first_or e (a ∷ as') = pure a

  -- NewHostsFromList of a payload that is not empty.
  unfoldable pub new_hosts : List Host → Call C T Hosts
  unfolding raise pure insert_all
  new_hosts [] = raise "HOST_NOT_FOUND"
  new_hosts (h ∷ hs) = pure (insert_all (λ x. x.id) (h ∷ hs) [])

module _ {C T : Type 0} (client : TowerClient C T) where
  unfoldable pub get : String → Call C T Vm
  unfolding ◌>>=◌ first_or
  get id = client.get_vms (with_any_id id) >>= first_or "VM_NOT_FOUND"

  unfoldable pub get_by_name : String → Call C T Vm
  unfolding ◌>>=◌ first_or
  get_by_name name = client.get_vms (with_name name) >>= first_or "VM_NOT_FOUND"

  unfoldable pub find_by_ids : List String → Call C T (List Vm)
  unfolding pure
  find_by_ids [] = pure []
  find_by_ids (id ∷ ids) = client.get_vms (with_ids (id ∷ ids))

  unfoldable pub find_vms_by_name : String → Call C T (List Vm)
  unfolding pure
  find_vms_by_name name = if str_eq name "" then pure [] else client.get_vms (with_name name)

  unfoldable pub migrate : String → String → Call C T String
  unfolding ◌>>=◌ first_or
  migrate vm_id host_id = client.migrate_vm host_id (with_any_id vm_id) >>= first_or out_of_range

  unfoldable pub delete : String → Call C T String
  unfolding ◌>>=◌ first_or
  delete id = client.delete_vm (with_any_id id) >>= first_or "VM_NOT_FOUND"

  unfoldable pub power_off : String → Call C T String
  unfolding ◌>>=◌ first_or
  power_off id = client.poweroff_vm (with_any_id id) >>= first_or "VM_NOT_FOUND"

  -- No host means that Tower chooses it.
  unfoldable pub power_on : String → String → Call C T String
  unfolding ◌>>=◌ first_or
  power_on id host_id =
      client.start_vm (if str_eq host_id "" then none else some host_id) (with_any_id id)
      >>= first_or "VM_NOT_FOUND"

  unfoldable pub shut_down : String → Call C T String
  unfolding ◌>>=◌ first_or
  shut_down id = client.shut_down_vm (with_any_id id) >>= first_or "VM_NOT_FOUND"

  -- With the settings VMNumCPUs and VMMemoryMiB.
  unfoldable pub update_vm : {S : Type 0} → ℤ → ℤ → Vm → ElfMachine S → Call C T String
  unfolding ◌>>=◌ first_or tower_memory
  update_vm vm_num_cpus vm_memory_mib vm m =
      let vcpu = tower_vcpu vm_num_cpus m.spec.num_cpus in
      let cores = tower_cpu_socket_cores m.spec.num_cores_per_socket vcpu in
      let data_of_update : VmUpdate = record {
        vcpu = vcpu;
        cpu_cores = cores;
        cpu_sockets = tower_cpu_sockets vcpu cores;
        memory = tower_memory vm_memory_mib m.spec.memory_mib;
      } in
      client.update_vm data_of_update (with_id vm.id) >>= first_or out_of_range

  unfoldable pub get_vm_disks : List String → Call C T (List VmDisk)
  get_vm_disks vm_disk_ids = client.get_vm_disks vm_disk_ids

  unfoldable pub get_vm_volume : String → Call C T VmVolume
  unfolding ◌>>=◌ first_or
  get_vm_volume volume_id = client.get_vm_volumes volume_id >>= first_or "VM_VOLUME_NOT_FOUND"

  unfoldable pub resize_vm_volume : String → ℤ → Call C T String
  unfolding ◌>>=◌ first_or
  resize_vm_volume volume_id size = client.update_vm_volume size volume_id >>= first_or out_of_range

  unfoldable pub get_vm_nics : String → Call C T (List VmNic)
  get_vm_nics vm_id = client.get_vm_nics (with_any_id vm_id)

  unfoldable pub add_vm_nics : String → List VmNicParams → Call C T String
  unfolding ◌>>=◌ first_or
  add_vm_nics vm_id nics =
      client.add_vm_nic nics (with_any_id vm_id) >>= first_or "VM_NIC_NOT_FOUND"

  unfoldable pub get_vlan : String → Call C T String
  unfolding ◌>>=◌ first_or
  get_vlan id = client.get_vlans id >>= first_or "VLAN_NOT_FOUND"

  unfoldable pub get_cluster : String → Call C T String
  unfolding ◌>>=◌ first_or
  get_cluster id = client.get_clusters id >>= first_or "CLUSTER_NOT_FOUND"

  unfoldable pub get_hosts_by_cluster : String → String → Call C T Hosts
  unfolding ◌>>=◌ new_hosts
  get_hosts_by_cluster cluster_id datastore_id =
      client.get_hosts cluster_id (if str_eq datastore_id "" then none else some datastore_id)
      >>= new_hosts

  unfoldable pub get_task : String → Call C T Task
  unfolding ◌>>=◌ first_or
  get_task id = client.get_tasks id >>= first_or "TASK_NOT_FOUND"

  -- With the number of polls that the timeout leaves room for.
  unfoldable pub wait_task : ℕ → String → Call C T Task
  unfolding ◌>>=◌ ◌>>◌ pure raise get_task
  wait_task zero id = raise deadline_exceeded
  wait_task (suc n) id = do
    task ← get_task id
    (if is_ended task.status then pure task else client.sleep >> wait_task n id)

  unfoldable pub create_vm_placement_group : String → String → VmPolicy → Call C T String
  unfolding ◌>>=◌ first_or
  create_vm_placement_group name cluster_id vm_policy =
      client.create_vm_placement_group name cluster_id vm_policy >>= first_or out_of_range

  unfoldable pub get_vm_placement_group : String → Call C T PlacementGroup
  unfolding ◌>>=◌ first_or
  get_vm_placement_group name =
      client.get_vm_placement_groups (group_named name) >>= first_or "VM_PLACEMENT_GROUP_NOT_FOUND"

  unfoldable pub add_vms_to_placement_group : PlacementGroup → List String → Call C T String
  unfolding ◌>>=◌ first_or
  add_vms_to_placement_group group vm_ids =
      client.update_vm_placement_group group vm_ids >>= first_or out_of_range

  -- Whether the group is gone; it is deleted where nothing happens to it.
  unfoldable pub delete_groups : String → List PlacementGroup → Call C T Bool
  unfolding ◌>>◌ pure
  delete_groups id [] = pure true
  delete_groups id (group ∷ groups) =
      if group.entity_async_status
      then pure false
      else client.delete_vm_placement_group (group_with_id id) >> pure false

  unfoldable pub delete_vm_placement_group_by_id : String → Call C T Bool
  unfolding ◌>>=◌ delete_groups
  delete_vm_placement_group_by_id id =
      client.get_vm_placement_groups (group_with_id id) >>= delete_groups id

  -- The calls of Kubernetes, the clock and the settings, with Clone, stay those of `v`.
  abbrev pub tower_service : {S : Type 0} → ℕ → VmService S C T → VmService S C T
  tower_service polls v = record v {
    get = get;
    get_by_name = get_by_name;
    find_vms_by_name = find_vms_by_name;
    find_by_ids = find_by_ids;
    migrate = migrate;
    delete = delete;
    power_off = power_off;
    power_on = power_on;
    shut_down = shut_down;
    update_vm = λ vm m. update_vm v.vm_num_cpus v.vm_memory_mib vm m;
    get_vm_disks = get_vm_disks;
    get_vm_volume = get_vm_volume;
    resize_vm_volume = resize_vm_volume;
    get_vm_nics = get_vm_nics;
    get_vlan = get_vlan;
    add_vm_nics = add_vm_nics;
    get_task = get_task;
    wait_task = wait_task polls;
    get_cluster = get_cluster;
    get_hosts_by_cluster = get_hosts_by_cluster;
    create_vm_placement_group = create_vm_placement_group;
    get_vm_placement_group = get_vm_placement_group;
    add_vms_to_placement_group = add_vms_to_placement_group;
    delete_vm_placement_group_by_id = delete_vm_placement_group_by_id;
  }
