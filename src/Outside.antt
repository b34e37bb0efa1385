-- ===== src/Outside.antt =====
-- What a reconcile reaches outside the process: the VMService interface of pkg/service/vm.go, the
-- Kubernetes client, the clock and the settings of pkg/config. A call of it is an action on what
-- reconciles share, so that other reconciles may run while it waits: they may change the caches, the
-- locks and the state of Tower in any way.
pub mod Frame
use cluster_api_provider_elf.Base.{
  ℕ, String, ◌+++◌, Bool, true, false, Option, none, some, List, [], ◌∷◌, Result, ok, err,
}
use cluster_api_provider_elf.Base.Int.{ℤ, pos, int64, ◌*ℤ◌, leb_ℤ}
use cluster_api_provider_elf.Action.{Action, pure, step, gets, attempt, wrap, deferred, ◌>>=◌, ◌>>◌}
use cluster_api_provider_elf.Cache.{GoCache}
use cluster_api_provider_elf.Memory.{Memory, Value}
use cluster_api_provider_elf.Conditions.{Conditions, Severity}
use cluster_api_provider_elf.Kubernetes.{ClusterMachine, ControlPlane, Deployment}
use cluster_api_provider_elf.Tower.{
  PlacementGroup, VmPolicy, Task, Vm, VmDisk, VmVolume, VmNic, VmNicParams,
}
use cluster_api_provider_elf.Hosts.{Hosts}
use cluster_api_provider_elf.Machine.{ElfMachine}
use cluster_api_provider_elf.Context.{MachineContext}
use cluster_api_provider_elf.Gpu.{GpuDeviceInfo}
use cluster_api_provider_elf.Gpu.Locks.{LockedGpuMap}
use cluster_api_provider_elf.Task.{World, mark}

-- What all reconciles of the process share, with the state `T` of the rest of the world.
pub record Shared (C T : Type 0) : Type 0 where
  pub memory : Memory C
  pub locks : LockedGpuMap
  pub outside : T

abbrev pub Call : Type 0 → Type 0 → Type 0 → Type 0
Call C T A = Action (Shared C T) A

-- service.CloneVMInfo, without the storage, which only passes through.
pub record CloneVmInfo : Type 0 where
  pub cluster : String
  pub host : String
  pub cloud_init : String
  pub gpu_devices : List GpuDeviceInfo
  pub host_name : String

-- The calls that are modelled. Ones that start a task give the ID of the task.
pub record VmService (S C T : Type 0) : Type 0 where
  pub now : T → ℕ
  -- The settings: VMMemoryMiB, VMNumCPUs, the timeout of operations on placement groups as it is printed, and
  -- the prefix of the names of resources in Tower.
  pub vm_memory_mib : ℤ
  pub wait_timeout : String
  pub vm_num_cpus : ℤ
  pub resource_prefix : String
  -- apierrors.IsNotFound
  pub is_not_found : String → Bool
  pub get : String → Call C T Vm
  pub get_by_name : String → Call C T Vm
  pub find_vms_by_name : String → Call C T (List Vm)
  pub find_by_ids : List String → Call C T (List Vm)
  pub migrate : String → String → Call C T String
  -- Clone gives the ID of the virtual machine too.
  pub clone : ElfMachine S → CloneVmInfo → Call C T (String × String)
  pub delete : String → Call C T String
  pub power_off : String → Call C T String
  pub power_on : String → String → Call C T String
  pub shut_down : String → Call C T String
  pub update_vm : Vm → ElfMachine S → Call C T String
  pub get_vm_disks : List String → Call C T (List VmDisk)
  pub get_vm_volume : String → Call C T VmVolume
  pub resize_vm_volume : String → ℤ → Call C T String
  pub get_vm_nics : String → Call C T (List VmNic)
  pub get_vlan : String → Call C T String
  pub add_vm_nics : String → List VmNicParams → Call C T String
  pub get_task : String → Call C T Task
  pub wait_task : String → Call C T Task
  pub get_cluster : String → Call C T String
  pub get_hosts_by_cluster : String → String → Call C T Hosts
  pub create_vm_placement_group : String → String → VmPolicy → Call C T String
  pub get_vm_placement_group : String → Call C T PlacementGroup
  pub add_vms_to_placement_group : PlacementGroup → List String → Call C T String
  pub delete_vm_placement_group_by_id : String → Call C T Bool
  -- The Kubernetes client: reads by namespace and name, the list of the control plane ElfMachines
  -- of a cluster, the Machine that owns an ElfMachine, a patch of a Machine, and deleteNode.
  pub get_kcp : String → String → Call C T ControlPlane
  pub get_md : String → String → Call C T Deployment
  pub list_control_plane : String → String → Call C T (List (ElfMachine S))
  pub get_owner_machine : ElfMachine S → Call C T ClusterMachine
  pub new_patch_helper : ClusterMachine → Call C T (Unit {0})
  pub patch_machine : ClusterMachine → Call C T (Unit {0})
  pub delete_node : MachineContext S → Call C T (Unit {0})

-- What one reconcile works on: its own machine, and what it shares.
pub record Site (S C T : Type 0) : Type 0 where
  pub ctx : MachineContext S
  pub shared : Shared C T

abbrev pub Reconcile : Type 0 → Type 0 → Type 0 → Type 0 → Type 0
Reconcile S C T A = Action (Site S C T) A

module _ {S C T : Type 0} where
  -- A call leaves the machine of the reconcile alone.
  unfoldable pub ask : {A : Type 0} → Call C T A → Reconcile S C T A
  ask m s = let (r, shared) = m s.shared in (r, record s { shared = shared })

  abbrev pub set_machine : (ElfMachine S → ElfMachine S) → Site S C T → Site S C T
  set_machine f s =
      let x = s.ctx in record s { ctx = record x { elf_machine = f s.ctx.elf_machine } }

  unfoldable pub on_machine : (ElfMachine S → ElfMachine S) → Reconcile S C T (Unit {0})
  on_machine f s = (ok tt, set_machine f s)

  abbrev pub set_memory : (Memory C → Memory C) → Site S C T → Site S C T
  set_memory f s = let x = s.shared in record s { shared = record x { memory = f x.memory } }

  unfoldable pub on_memory : {A : Type 0} → (Memory C → A × Memory C) → Reconcile S C T A
  on_memory f s =
      let x = s.shared in
      let (a, m) = f x.memory in (ok a, record s { shared = record x { memory = m } })

  unfoldable pub read_ctx : {A : Type 0} → (MachineContext S → A) → Reconcile S C T A
  read_ctx f s = (ok (f s.ctx), s)

  module _ (v : VmService S C T) where
    unfoldable pub time_now : Reconcile S C T ℕ
    time_now s = (ok (v.now s.shared.outside), s)
