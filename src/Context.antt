-- ===== src/Context.antt =====
-- pkg/context/machine_context.go: what a reconcile of one ElfMachine has at hand.
use cluster_api_provider_elf.Base.{String, Bool, none, some, str_eq, if◌then◌else◌}
use cluster_api_provider_elf.Kubernetes.{ClusterMachine, Cluster}
use cluster_api_provider_elf.Machine.{ElfMachine}

-- `owner` is the cluster, `machine` is the machine of cluster-api that owns the ElfMachine, and
-- `cluster` is ElfCluster.Spec.Cluster.
pub record MachineContext (S : Type 0) : Type 0 where
  pub owner : Cluster
  pub machine : ClusterMachine
  pub cluster : String
  pub datastore_id : String
  -- ElfCluster.HasForceDeleteCluster and ElfCluster.Spec.VMGracefulShutdown.
  pub force_delete_cluster : Bool
  pub vm_graceful_shutdown : Bool
  pub elf_machine : ElfMachine S

module _ {S : Type 0} where
  unfoldable pub get_failure_domain : MachineContext S → String
  get_failure_domain c = elim c.machine.failure_domain [ none ↦ "" | some fd ↦ fd ]

  -- The selected cluster, or else the default one.
  unfoldable pub get_elf_cluster_id : MachineContext S → String
  unfolding get_failure_domain
  get_elf_cluster_id c =
      if str_eq (get_failure_domain c) "" then c.cluster else get_failure_domain c
