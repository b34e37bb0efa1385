-- ===== src/Resources/Jobs.antt =====
-- reconcileHostJob, restartKubelet and expandVMRootPartition: the jobs that the host agent runs on a
-- node. pkg/hostagent, with the client of the workload cluster, is the record `HostAgent`.
use cluster_api_provider_elf.Base.{
  ℕ, ◌+◌, String, ◌+++◌, Bool, true, false, not, ◌||◌, Option, none, some, List, [], Result, ok,
  err, ltb, str_eq, if◌then◌else◌,
}
use cluster_api_provider_elf.Action.{pure, raise, attempt, wrap, ◌>>=◌, ◌>>◌}
use cluster_api_provider_elf.Conditions.{Conditions, Severity, info, warning, reason_of}
use cluster_api_provider_elf.Reasons.{
  resources_hot_updated_condition, expanding_vm_disk_reason, expanding_vm_disk_failed_reason,
  expanding_root_partition_reason, expanding_root_partition_failed_reason,
  expanding_vm_compute_resources_reason, expanding_vm_compute_resources_failed_reason,
  restarting_kubelet_reason, restarting_kubelet_failed_reason,
  setting_vm_network_device_config_failed_reason,
}
use cluster_api_provider_elf.Machine.{ElfMachine}
use cluster_api_provider_elf.Context.{MachineContext}
use cluster_api_provider_elf.Task.{mark}
use cluster_api_provider_elf.Outside.{
  VmService, Call, Reconcile, ask, on_machine, read_ctx, time_now,
}

pub data JobType : Type 0 where
  expand_root_partition restart_the_kubelet set_network_device_config : JobType

-- hostagent.MacType
pub record MacType : Type 0 where
  pub mac : String
  pub type_name : String

pub data Phase : Type 0 where
  succeeded failed other_phase : Phase

-- agentv1.HostOperationJob
pub record HostJob : Type 0 where
  pub phase : Phase
  pub failure_message : String
  pub last_execution_time : Option ℕ
  pub creation_timestamp : ℕ

-- capiremote.NewClusterClient, hostagent.GetHostJob under the name that hostagent.GetJobName gives,
-- hostagent.GenerateJob, and the calls of the client that create and delete a job.
pub record HostAgent (S C T : Type 0) : Type 0 where
  pub new_cluster_client : MachineContext S → Call C T (Unit {0})
  pub get_host_job : ElfMachine S → JobType → List MacType → Call C T HostJob
  pub generate_job : ElfMachine S → JobType → List MacType → String → Call C T HostJob
  pub create_job : HostJob → Call C T (Unit {0})
  pub delete_job : HostJob → Call C T (Unit {0})

abbrev pub fail_reason : JobType → String
fail_reason expand_root_partition = expanding_root_partition_failed_reason
fail_reason restart_the_kubelet = restarting_kubelet_failed_reason
fail_reason set_network_device_config = setting_vm_network_device_config_failed_reason

-- Three minutes.
abbrev pub retry_job_after : ℕ
retry_job_after = 180

abbrev pub executed_at : HostJob → ℕ
executed_at job = elim job.last_execution_time [ none ↦ job.creation_timestamp | some t ↦ t ]

module _ {S C T : Type 0} (v : VmService S C T) ⦃c : Conditions S⦄ where
  -- The reason that stands at a condition.
  abbrev pub reason_at : String → MachineContext S → String
  reason_at condition ctx = reason_of (c.get condition ctx.elf_machine.status.conditions)

  abbrev pub update_reason : MachineContext S → String
  update_reason ctx = reason_at resources_hot_updated_condition ctx

  unfoldable pub mark_update : String → Severity → String → Reconcile S C T (Unit {0})
  unfolding on_machine
  mark_update reason severity text =
      on_machine (mark resources_hot_updated_condition reason severity text)

  -- The error of a call, with the mark that goes with it.
  unfoldable pub fail_job : {A : Type 0} → JobType → String → String → Reconcile S C T A
  unfolding ◌>>=◌ ◌>>◌ raise mark_update
  fail_job job_type text e = do mark_update (fail_reason job_type) warning (text +++ e); raise e

  module _ (agent : HostAgent S C T) (job_type : JobType) (mac_types : List MacType) where
    -- A job that is not there is created.
    unfoldable pub start_job : String → Reconcile S C T Bool
    unfolding ◌>>=◌ ◌>>◌ pure attempt ask read_ctx fail_job
    start_job node_name = do
      ctx ← read_ctx (λ x. x)
      generated ← attempt (ask (agent.generate_job ctx.elf_machine job_type mac_types node_name))
      elim generated [
        | err e ↦ fail_job job_type "failed to generate host agent job: " e
        | ok job ↦ do
          created ← attempt (ask (agent.create_job job))
          elim created [ err e ↦ fail_job job_type "" e | ok u ↦ pure false ]
      ]

    -- A job that has failed is deleted after a while, and so started again.
    unfoldable pub failed_job : HostJob → Reconcile S C T Bool
    unfolding ◌>>=◌ ◌>>◌ pure wrap ask mark_update time_now
    failed_job job = do
      mark_update (fail_reason job_type) warning job.failure_message
      now ← time_now v
      (if ltb (executed_at job + retry_job_after) now
          then wrap "failed to delete hostJob for retry" (ask (agent.delete_job job)) >> pure false
          else pure false)

    unfoldable pub found_job : String → Result HostJob → Reconcile S C T Bool
    unfolding pure start_job failed_job fail_job
    found_job node_name (err e) =
        if v.is_not_found e
        then start_job node_name
        else fail_job job_type "failed to get HostOperationJob: " e
    found_job node_name (ok job) = elim job.phase [
      | succeeded ↦ pure true
      | failed ↦ failed_job job
      | other_phase ↦ pure false
    ]

    unfoldable pub reconcile_host_job : Reconcile S C T Bool
    unfolding ◌>>=◌ pure attempt ask read_ctx fail_job found_job
    reconcile_host_job = do
      ctx ← read_ctx (λ x. x)
      elim ctx.machine.node_ref [
        | none ↦ pure false
        | some node_name ↦ do
          client ← attempt (ask (agent.new_cluster_client ctx))
          elim client [
            | err e ↦ fail_job job_type "failed to create kubeClient: " e
            | ok u ↦ do
              found ← attempt (ask (agent.get_host_job ctx.elf_machine job_type mac_types))
              found_job node_name found
          ]
      ]

  -- A job for the reasons that lead to it; a failure keeps its mark.
  unfoldable pub job_for :
      HostAgent S C T → JobType → (String → Bool) → String → String → Reconcile S C T Bool
  unfolding ◌>>=◌ ◌>>◌ pure read_ctx mark_update reconcile_host_job
  job_for agent job_type leads started failing = do
    ctx ← read_ctx (λ x. x)
    let reason = update_reason ctx
    (if not (leads reason) then pure true else do
      (if str_eq reason failing then pure tt else mark_update started info "")
      reconcile_host_job agent job_type [])

  abbrev pub leads_to_kubelet : String → Bool
  leads_to_kubelet reason =
      str_eq reason expanding_vm_compute_resources_reason
      || (str_eq reason expanding_vm_compute_resources_failed_reason
          || (str_eq reason restarting_kubelet_reason
              || str_eq reason restarting_kubelet_failed_reason))

  unfoldable pub restart_kubelet : HostAgent S C T → Reconcile S C T Bool
  unfolding job_for
  restart_kubelet agent =
      job_for agent restart_the_kubelet leads_to_kubelet restarting_kubelet_reason
        restarting_kubelet_failed_reason

  abbrev pub leads_to_partition : String → Bool
  leads_to_partition reason =
      str_eq reason expanding_vm_disk_reason
      || (str_eq reason expanding_vm_disk_failed_reason
          || (str_eq reason expanding_root_partition_reason
              || str_eq reason expanding_root_partition_failed_reason))

  unfoldable pub expand_vm_root_partition : HostAgent S C T → Reconcile S C T Bool
  unfolding job_for
  expand_vm_root_partition agent =
      job_for agent expand_root_partition leads_to_partition expanding_root_partition_reason
        expanding_root_partition_failed_reason
