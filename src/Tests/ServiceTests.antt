-- ===== src/Tests/ServiceTests.antt =====
-- A service that gives the same answers always, and the reconciles that the tests run on it. Its
-- outer state is the time.
use cluster_api_provider_elf.Base.{ℕ, String, true, false, [], ◌∷◌, none, some, ok}
use cluster_api_provider_elf.Base.Int.{pos}
use cluster_api_provider_elf.Kubernetes.{
  ControlPlane, Deployment, control_plane_label, placement_group_name_annotation,
}
use cluster_api_provider_elf.Tower.{PlacementGroup, Vm, VmStatus, running, Task, successed}
use cluster_api_provider_elf.Hosts.{Hosts}
use cluster_api_provider_elf.Machine.{ElfMachine}
use cluster_api_provider_elf.Context.{MachineContext}
use cluster_api_provider_elf.Memory.{Memory}
use cluster_api_provider_elf.Outside.{VmService, Call, Site}
use cluster_api_provider_elf.Tests.HistoryTests.{Entries}
use cluster_api_provider_elf.Tests.TaskTests.{Conds, node, ctx, host}

abbrev pub uuid : String
uuid = "0f3C9a71-41d2-4b5e-9c1a-2d3e4f5a6b7c"

abbrev pub answer : {A : Type 0} → A → Call Entries ℕ A
answer a s = (ok a, s)

abbrev pub vm_on : String → VmStatus → Vm
vm_on host_id status = record {
  id = "vm";
  local_id = uuid;
  name = "node";
  status = some status;
  entity_async_status = false;
  in_recycle_bin = none;
  vcpu = pos 2;
  memory = pos 4294967296;
  vm_disks = "disk" ∷ [];
  cpu_cores = pos 2;
  cpu_sockets = pos 1;
  host_id = host_id;
  gpu_devices = [];
}

abbrev pub group : PlacementGroup
group = record {
  id = "g";
  name = "group";
  local_id = uuid;
  entity_async_status = false;
  vms = record { id = "other"; name = "node" } ∷ [];
}

abbrev pub hosts : Hosts
hosts = ("a", host "a" 10) ∷ ("b", host "b" 5000000000) ∷ []

-- The control plane is in a rolling update.
abbrev pub rolling : ControlPlane
rolling = record {
  name = "kcp";
  annotations = (placement_group_name_annotation, "group") ∷ [];
  spec_replicas = 1;
  replicas = 1;
  updated_replicas = 0;
  resized = none;
}

abbrev pub named : Deployment
named = record {
  annotations = (placement_group_name_annotation, "group") ∷ [];
  spec_replicas = 1;
  deleted = false;
}

abbrev pub created : ElfMachine Conds
created = let s = node.status in record node { status = record s { vm_ref = uuid; task_ref = "" } }

abbrev pub task : Task
task = record { id = "t"; status = successed; description = none; error_message = none }

-- The virtual machines of the group are on the host `b`.
abbrev pub service : VmService Conds Entries ℕ
service = record {
  now = λ t. t;
  vm_memory_mib = pos 2048;
  wait_timeout = "10s";
  vm_num_cpus = pos 2;
  resource_prefix = "cape";
  is_not_found = λ e. false;
  get = λ id. answer (vm_on "b" running);
  get_by_name = λ name. answer (vm_on "b" running);
  find_vms_by_name = λ name. answer [];
  find_by_ids = λ ids. answer (vm_on "b" running ∷ []);
  migrate = λ id target. answer "t";
  clone = λ m info. answer ("vm", "t");
  delete = λ id. answer "t";
  power_off = λ id. answer "t";
  power_on = λ id target. answer "t";
  shut_down = λ id. answer "t";
  update_vm = λ vm m. answer "t";
  get_vm_disks = λ ids. answer (record { boot = pos 0; vm_volume_id = "volume" } ∷ []);
  get_vm_volume =
      λ id. answer (record { id = id; size = pos 64424509440; entity_async_status = false });
  resize_vm_volume = λ id size. answer "t";
  get_vm_nics = λ id. answer [];
  get_vlan = λ id. answer id;
  add_vm_nics = λ id nics. answer "t";
  get_task = λ id. answer task;
  wait_task = λ id. answer task;
  get_cluster = λ id. answer id;
  get_hosts_by_cluster = λ id datastore. answer hosts;
  create_vm_placement_group = λ name id policy. answer "t";
  get_vm_placement_group = λ name. answer group;
  add_vms_to_placement_group = λ g ids. answer "t";
  delete_vm_placement_group_by_id = λ id. answer true;
  get_kcp = λ namespace name. answer rolling;
  get_md = λ namespace name. answer named;
  list_control_plane = λ namespace name. answer (created ∷ []);
  get_owner_machine = λ m. answer ctx.machine;
  new_patch_helper = λ m. answer tt;
  patch_machine = λ m. answer tt;
  delete_node = λ x. answer tt;
}

abbrev pub control_plane : MachineContext Conds
control_plane =
    let m = ctx.machine in
    record ctx {
      machine = record m { labels = (control_plane_label, "") ∷ []; kcp_owner = some "kcp" };
    }

abbrev pub site : MachineContext Conds → Memory Entries → Site Conds Entries ℕ
site x m = record { ctx = x; shared = record { memory = m; locks = []; outside = 10 } }
