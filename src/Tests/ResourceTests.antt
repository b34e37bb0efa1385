-- ===== src/Tests/ResourceTests.antt =====
-- A virtual machine with all that its machine asks for, and one job of the host agent.
use cluster_api_provider_elf.Base.{ℕ, refl, [], ◌∷◌, none}
use cluster_api_provider_elf.Base.Dict.{lookup}
use cluster_api_provider_elf.Conditions.{list_conditions}
use cluster_api_provider_elf.Cache.Assoc.{assoc_cache}
use cluster_api_provider_elf.Tower.{running}
use cluster_api_provider_elf.Outside.{VmService}
use cluster_api_provider_elf.Resources.{HostAgent, HostJob, succeeded, reconcile_vm_resources}
use cluster_api_provider_elf.Resources.Enough.{
  ComputeSuffices, DiskSuffices, NicsSuffice, resources_suffice,
}
use cluster_api_provider_elf.Tests.HistoryTests.{Entries, empty_memory}
use cluster_api_provider_elf.Tests.TaskTests.{Conds, ctx, node}
use cluster_api_provider_elf.Tests.ServiceTests.{answer, vm_on, service, site}

abbrev job : HostJob
job = record {
  phase = succeeded;
  failure_message = "";
  last_execution_time = none;
  creation_timestamp = 1;
}

abbrev agent : HostAgent Conds Entries ℕ
agent = record {
  new_cluster_client = λ x. answer tt;
  get_host_job = λ m t types. answer job;
  generate_job = λ m t types name. answer job;
  create_job = λ j. answer tt;
  delete_job = λ j. answer tt;
}

abbrev with_nic : VmService Conds Entries ℕ
with_nic = record service {
  get_vm_nics = λ id.
      answer
        (record { ip_address = none; mac_address = none; gateway = none; subnet_mask = none } ∷ []);
}

resources_suffice_example :
    ComputeSuffices with_nic agent (vm_on "a" running) node.spec
    × DiskSuffices with_nic agent (vm_on "a" running) node.spec
    × NicsSuffice with_nic agent (vm_on "a" running) node.spec
unfolding reconcile_vm_resources lookup
resources_suffice_example =
    resources_suffice with_nic agent (vm_on "a" running) (site ctx empty_memory) refl
