-- ===== src/Lib.antt =====
-- Verification library of cluster-api-provider-elf, the Cluster API infrastructure provider for
-- SMTX ELF, which runs Kubernetes nodes as virtual machines of a Tower service.
--
-- The controllers reconcile many ElfMachines at a time in one process. They share two in-memory caches
-- and a map of GPU locks, by which they keep from hammering Tower, from creating too many machines at
-- once and from promising a GPU twice. This library models that core:
--
-- - Limiter: the tickets and marks of controllers/vm_limiter.go. Each Go function is a function of the
--   same name in snake case, from the time at which it runs and the memory to its answer and the new
--   memory; its mutex, or its being one call of the cache, makes it one step.
-- - TowerCache, TowerCache/Schedule, TowerCache/Caches: controllers/tower_cache.go, the records of
--   errors (which the cache holds by pointer, so that a retry changes the record in the heap of
--   Memory) and the caches of placement groups and GPUs.
--   TowerCache/Retries and TowerCache/GpuCache have the theorems.
-- - History: the calls of both files that change the caches, but for delPGCaches and the cache of GPUs
--   (whose keys no ticket shares), as one data type, and runs of them in any interleaving; its modules
--   state what holds over every run. History/Overlap has acquireTicketForUpdatingVM, which holds no
--   mutex, in two parts.
-- - Gpu, Gpu/Locks, Gpu/Select: the GPU parts of controllers/vm_limiter.go, pkg/service/util.go and
--   controllers/elfmachine_controller_gpu.go: which devices a machine is given, and the locks that
--   bridge the time until Tower knows of it.
-- - Collections: pkg/service/collections.go, maps by ID in the order in which Go meets the entries.
-- - Hosts: the sets of hosts of pkg/service/collections.go and IsAvailableHost.
-- - Messages: pkg/service/errors.go and the task kinds of pkg/service/util.go.
-- - Task: reconcileVMTask and reconcileVMFailedTask of controllers/elfmachine_controller.go, which tie
--   the caches, the GPU locks and the machine together; the answers of Tower are arguments.
-- - Action, Action/Always: Go functions with an error as actions on a state, and rules for what every
--   run of an action gives.
-- - Outside: the VMService interface, the Kubernetes client, the clock and the settings, as a record of
--   calls that the reconciles take as a parameter. A call may change all that reconciles share, since
--   other reconciles run while it waits. Kubernetes: the objects that it gives, with the helpers of
--   pkg/util/machine, pkg/util/kcp, pkg/util/labels and pkg/util/annotations.
-- - Service: TowerVMService of pkg/service/vm.go, which fills the calls of VMService from those of the
--   REST client, a record TowerClient; Service/Laws has the theorem on WaitTask, and
--   Service/Joins what joining a group comes to with it. The poll of a task is bounded by
--   the number of polls that its timeout leaves room for. Service/Gpus: its calls for GPU devices, for
--   labels and for the placement groups of a cluster, over a record TowerObjects; Service/Prefix has
--   the theorem.
-- - PlacementGroup: controllers/elfmachine_controller_placement_group.go and
--   pkg/resources/placement_group.go. PlacementGroup/Room has the hosts of a group, PreCheck the check
--   before a machine is created, Join how a machine joins its group, Removal the deletion of a group.
-- - Lifecycle: reconcileVMStatus and the operations that it starts; Lifecycle/Creation: getVM and the
--   creation of a virtual machine; Lifecycle/BringUp: reconcileVM; Lifecycle/Deletion: reconcileDelete
--   and what it calls, of controllers/elfmachine_controller.go. What reconcileVM calls for zones, GPUs,
--   volumes, resources and the bootstrap data is a parameter there.
-- - Resources: controllers/elfmachine_controller_resources.go, the hot update of a virtual machine.
--   Resources/Jobs: the jobs on its node; Compute: CPU and memory; Volume: the system disk; Network:
--   the nics and their configuration. SystemDisk: which disk is
--   the system disk. Frame: what a step leaves; Enough: what an answer means. The
--   package pkg/hostagent, which makes and reads the jobs, is the record HostAgent.
-- - Yaml: the trees of the YAML library and the helpers on them; CloudInit, CloudInit/Header: the
--   changes of the bootstrap data, both of controllers/elfmachine_controller_cloudinit.go. A change in
--   place is a function from a tree to the new tree and whether it changed; a nil dereference is an
--   error. Parser and printer are the record YamlCodec. CloudInit/Args and Laws: what a change of a
--   kubeadm document comes to.
-- - Uuid, Uuid/ProviderId: pkg/util/types/uuid.go and the provider IDs of pkg/util/machine/machine.go.
-- - Machine, Machine/Network, Context, Reasons: the fields and methods of api/v1beta1 and of
--   pkg/context/machine_context.go that the modelled code uses. Machine/Nameservers has the theorem.
-- - Cache, Conditions, Tower: what is not part of the repository: go-cache and the conditions of
--   Cluster API as interfaces of documented laws, each with an instance, and the objects of the Tower
--   API as records of the fields that are read.
-- - Base: shared helpers; Tests: the theorems at concrete inputs.
--
-- Times are whole seconds, given to each operation as an argument. int32 and int64 arithmetic wraps
-- as written in Base/Int. Loops run over lists, and the poll of a task over the number of polls.
-- Not modelled: the other reconcile functions, how the REST client and Kubernetes answer, Clone,
-- the templates and the zones of pkg/service/vm.go, logging, webhooks, and the templates of
-- pkg/cloudinit.
pub mod Base
pub mod Cache
pub mod Tower
pub mod Memory
pub mod Limiter
pub mod Conditions
pub mod Action
pub mod Kubernetes
pub mod Machine
pub mod Context
pub mod TowerCache
pub mod Collections
pub mod Reasons
pub mod Gpu
pub mod History
pub mod Hosts
pub mod Messages
pub mod Task
pub mod Uuid
pub mod Yaml
pub mod CloudInit
pub mod Outside
pub mod PlacementGroup
pub mod Lifecycle
pub mod Resources
pub mod Service
pub mod Tests
