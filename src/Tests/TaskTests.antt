-- ===== src/Tests/TaskTests.antt =====
-- Tasks of one machine, and a set of hosts.
use cluster_api_provider_elf.Base.{
  ◌||◌, leb, ℕ, String, ◌≡◌, refl, true, false, List, [], ◌∷◌, none, some, ok, err, arith, contains,
  has_prefix, length, any, ◌≤◌,
}
use cluster_api_provider_elf.Base.Int.{pos, ltb_ℤ}
use cluster_api_provider_elf.Base.Dict.{delete}
use cluster_api_provider_elf.Cache.Assoc.{assoc_cache}
use cluster_api_provider_elf.Conditions.{Status, list_conditions}
use cluster_api_provider_elf.Context.{MachineContext, get_elf_cluster_id}
use cluster_api_provider_elf.Limiter.{acquire_ticket_for_create_vm}
use cluster_api_provider_elf.Tower.{Task, failed, Host, connected_healthy}
use cluster_api_provider_elf.Machine.{ElfMachine, NetworkSpec, NetworkType, has_task}
use cluster_api_provider_elf.Machine.Network.{
  all_nameservers, get_default_route_device_index, get_limited_nameservers,
}
use cluster_api_provider_elf.Machine.Nameservers.{nameservers_limited}
use cluster_api_provider_elf.Cache.{AllDistinct}
use cluster_api_provider_elf.Messages.{
  is_vm_duplicate_error, is_storage_insufficient_error, is_memory_insufficient_error,
  is_gpu_assign_failed, is_clone_vm_task, parse_gpu_assign_failed, format_cloud_init_error,
}
use cluster_api_provider_elf.Task.{World, machine, reconcile_vm_task, reconcile_vm_failed_task}
use cluster_api_provider_elf.Task.Laws.{finished_task, clone_returns_ticket}
use cluster_api_provider_elf.Task.Errors.{no_memory_stops}
use cluster_api_provider_elf.TowerCache.{can_retry_memory_allocation, get_memory_request_amount}
use cluster_api_provider_elf.TowerCache.Schedule.{is_elf_schedule_vm_error_recorded}
use cluster_api_provider_elf.Hosts.{Hosts}
use cluster_api_provider_elf.Tests.HistoryTests.{Entries, empty_memory}

-- The messages of the tests in pkg/service/errors_test.go, in short.
gpu_message : parse_gpu_assign_failed "code: GPU_ASSIGN_FAILED x" ≡ "GPU_ASSIGN_FAILED x"
unfolding parse_gpu_assign_failed has_prefix
gpu_message = refl

cloud_init_message :
    format_cloud_init_error "{[VM_CLOUD_INIT_CONFIG_ERROR] The gateway is unreachable. }"
    ≡ "The gateway is unreachable."
unfolding format_cloud_init_error has_prefix
cloud_init_message = refl

abbrev pub Conds : Type 0
Conds = List (String × Status)

abbrev pub node : ElfMachine Conds
node = record {
  name = "node";
  labels = [];
  has_finalizer = true;
  deleted = false;
  creation_timestamp = 0;
  vm_disconnection_timestamp = none;
  vm_first_boot_timestamp = none;
  spec = record {
    network = record { devices = []; nameservers = [] };
    num_cpus = pos 2;
    num_cores_per_socket = pos 2;
    memory_mib = pos 4096;
    disk_gib = pos 60;
    gpu_devices = [];
    vgpu_devices = [];
  };
  status = record {
    conditions = [];
    vm_ref = "";
    task_ref = "task";
    host_server_ref = "";
    placement_group_ref = "";
    gpu_devices = [];
    network = [];
    resources = record { disk = pos 0; cpu_cores = pos 0; memory = pos 0 };
    failure_reason = none;
    failure_message = none;
  };
}

abbrev pub ctx : MachineContext Conds
ctx = record {
  owner = record { name = "c1"; namespace = "default"; uid = "u"; deleted = false };
  machine = record {
    name = "m1";
    namespace = "default";
    labels = [];
    annotations = [];
    kcp_owner = none;
    failure_domain = none;
    node_ref = some "node";
    creation_timestamp = 1;
  };
  cluster = "cluster";
  datastore_id = "";
  force_delete_cluster = false;
  vm_graceful_shutdown = false;
  elf_machine = node;
}

-- The machine holds a ticket for its creation.
abbrev world : World Conds Entries
world = record {
  ctx = ctx;
  memory = (acquire_ticket_for_create_vm 5 10 "node" false empty_memory).1;
  locks = [];
}

abbrev clone_task : Task
clone_task = record {
  id = "task";
  status = failed;
  description = some "Create a VM";
  error_message = some "HostAvailableMemoryFilter";
}

finished_task_example :
    let r = reconcile_vm_task 20 (ok "group") (ok clone_task) true world in
    (r.0.0 ≡ false) × ((machine r.1).status.task_ref ≡ "")
unfolding has_task
finished_task_example = finished_task 20 (ok "group") clone_task true world refl refl

clone_returns_ticket_example :
    (reconcile_vm_task 20 (ok "group") (ok clone_task) false world).1.memory.vm_concurrent
    ≡ delete "vm:node" world.memory.vm_concurrent
unfolding has_task is_clone_vm_task contains
clone_returns_ticket_example =
    clone_returns_ticket 20 (ok "group") clone_task false world refl refl refl

no_memory_stops_example :
    let message : String = "Insufficient memory detected for the ELF cluster cluster" in
    let r = reconcile_vm_failed_task 20 (ok "group") clone_task world in
    (r.0 ≡ err message)
    × ((is_elf_schedule_vm_error_recorded ctx 600 (ok "other") r.1.memory).0 ≡ ok (true, message))
    × ((can_retry_memory_allocation ctx 600 r.1.memory).0 ≡ (
        ltb_ℤ (get_memory_request_amount ctx.elf_machine) (get_memory_request_amount (machine r.1))
        || leb 320 600))
unfolding is_vm_duplicate_error is_storage_insufficient_error is_memory_insufficient_error
    is_gpu_assign_failed get_elf_cluster_id contains
no_memory_stops_example =
    no_memory_stops 20 600 (ok "group") (ok "other") clone_task world ctx refl refl refl refl
      (omega arith)

abbrev pub host : String → ℕ → Host
host id memory = record {
  id = id;
  status = some connected_healthy;
  host_state = none;
  allocatable_memory_bytes = pos memory;
}

abbrev hosts : Hosts
hosts = ("a", host "a" 10) ∷ ("b", host "b" 20) ∷ []

-- The name servers of the network, of the device with the default route, and of the other one.
abbrev network : NetworkSpec
network = record {
  devices =
      record {
        network_type = NetworkType.ipv4;
        vlan = "vlan";
        mac_addr = "";
        netmask = "";
        ip_addrs = [];
        default_route = false;
        nameservers = "1.1.1.1" ∷ [];
      }
      ∷ record {
        network_type = NetworkType.ipv4_dhcp;
        vlan = "vlan";
        mac_addr = "";
        netmask = "";
        ip_addrs = [];
        default_route = true;
        nameservers = "8.8.8.8" ∷ "9.9.9.9" ∷ [];
      }
      ∷ [];
  nameservers = "9.9.9.9" ∷ [];
}

two_nameservers : get_limited_nameservers 2 network ≡ "9.9.9.9" ∷ "8.8.8.8" ∷ []
unfolding get_limited_nameservers any all_nameservers get_default_route_device_index
two_nameservers = refl

nameservers_limited_example :
    (length (get_limited_nameservers 2 network) ≤ 2)
    × AllDistinct (get_limited_nameservers 2 network)
nameservers_limited_example = nameservers_limited 2 network
