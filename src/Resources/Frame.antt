-- ===== src/Resources/Frame.antt =====
-- Bringing the resources of a virtual machine up leaves the specification of its machine alone.
use cluster_api_provider_elf.Base.{
  ℕ, ◌+◌, String, ◌+++◌, ◌≡◌, refl, Bool, true, false, not, ◌&&◌, Option, none, some, List, [],
  Result, ok, err, ltb, str_eq, if◌then◌else◌,
}
use cluster_api_provider_elf.Base.Int.{ℤ, pos, eqb_ℤ, ltb_ℤ}
use cluster_api_provider_elf.Action.{pure, attempt, wrap, ◌>>=◌, ◌>>◌}
use cluster_api_provider_elf.Action.Always.{
  Always, Always-pure, Always-raise, Always-if, Always-bind, Any,
}
use cluster_api_provider_elf.Cache.{GoCache}
use cluster_api_provider_elf.Memory.{Memory, Value}
use cluster_api_provider_elf.Conditions.{Conditions, Severity, info, warning}
use cluster_api_provider_elf.Reasons.{
  expanding_vm_compute_resources_reason, expanding_vm_compute_resources_failed_reason,
  expanding_vm_disk_reason, expanding_vm_disk_failed_reason,
}
use cluster_api_provider_elf.Tower.{Vm, VmDisk, VmVolume}
use cluster_api_provider_elf.Machine.{ElfMachine, ElfMachineSpec, set_task}
use cluster_api_provider_elf.Context.{MachineContext}
use cluster_api_provider_elf.Task.{mark}
use cluster_api_provider_elf.TowerCache.{can_retry_memory_allocation, can_retry_storage_allocation}
use cluster_api_provider_elf.TowerCache.Schedule.{
  is_elf_cluster_memory_insufficient, is_elf_cluster_storage_insufficient,
}
use cluster_api_provider_elf.Limiter.{acquire_ticket_for_updating_vm}
use cluster_api_provider_elf.Outside.{
  VmService, Call, Site, Reconcile, ask, on_machine, on_memory, read_ctx, time_now,
}
use cluster_api_provider_elf.Resources.Jobs.{
  HostAgent, HostJob, JobType, MacType, succeeded, failed, other_phase, mark_update, fail_job,
  start_job, failed_job, found_job, reconcile_host_job, job_for, update_reason, fail_reason,
  retry_job_after, executed_at, reason_at,
}
use cluster_api_provider_elf.Resources.Compute.{
  note_compute, update_error, lacks_compute, may_allocate, after_update, update_compute, allocated,
  grow_compute, reconcile_vm_cpu_and_memory,
}
use cluster_api_provider_elf.Resources.Volume.{
  note_disk, start_resize, resize_vm_volume, size_volume, by_disk, reconcile_vm_volume,
  get_vm_system_disk, byte_to_gi_b, tower_disk,
}

abbrev pub HasSpec : {S C T : Type 0} → ElfMachineSpec → Site S C T → Type 0
HasSpec spec s = s.ctx.elf_machine.spec ≡ spec

module _ {S C T : Type 0} (v : VmService S C T) ⦃c : Conditions S⦄ ⦃g : GoCache C Value⦄
    (spec : ElfMachineSpec) where
  abbrev pub Frames : {A : Type 0} → Reconcile S C T A → Type 0
  Frames m = Always (HasSpec spec) Any m

  pub then_frames :
      {A B : Type 0} (m : Reconcile S C T A) (f : A → Reconcile S C T B)
      → Frames m
      → ((a : A) → Frames (f a))
      → Frames (m >>= f)
  then_frames m f km kf = Always-bind m f km (λ a q. kf a) (λ e. tt)

  pub asked : {A : Type 0} (m : Call C T A) → Frames (ask m)
  unfolding ask
  asked m = record { at = λ s i. (tt, i) }

  attempted : {A : Type 0} (m : Reconcile S C T A) → Frames m → Frames (attempt m)
  unfolding attempt
  attempted m k = record { at = λ s i. (tt, (k.at s i).1) }

  pub wrapped_frame :
      {A : Type 0} (t : String) (m : Reconcile S C T A) → Frames m → Frames (wrap t m)
  unfolding wrap
  wrapped_frame t m k = record { at = λ s i. (tt, (k.at s i).1) }

  read : {A : Type 0} (f : MachineContext S → A) → Frames (read_ctx f)
  unfolding read_ctx
  read f = record { at = λ s i. (tt, i) }

  timed : Frames (time_now v)
  unfolding time_now
  timed = record { at = λ s i. (tt, i) }

  remembered : {A : Type 0} (f : Memory C → A × Memory C) → Frames (on_memory f)
  unfolding on_memory
  remembered f = record { at = λ s i. (tt, i) }

  changed :
      (f : ElfMachine S → ElfMachine S)
      → ((m : ElfMachine S) → (f m).spec ≡ m.spec)
      → Frames (on_machine f)
  unfolding on_machine
  changed f k = record { at = λ s i. (tt, rw (k s.ctx.elf_machine) i) }

  marked :
      (condition reason : String) (level : Severity) (text : String)
      → Frames (on_machine (mark condition reason level text))
  marked condition reason level text = changed (mark condition reason level text) (λ m. refl)

  pub update_marked :
      (reason : String) (level : Severity) (text : String)
      → Frames (mark_update v reason level text)
  unfolding mark_update on_machine
  update_marked reason level text = record { at = λ s i. (tt, i) }

  task_set : (task : String) → Frames (on_machine (set_task task))
  unfolding set_task
  task_set task = changed (set_task task) (λ m. refl)

  fail_job_frame :
      {A : Type 0} (job_type : JobType) (text e : String)
      → Frames (fail_job v {A = A} job_type text e)
  unfolding fail_job ◌>>◌
  fail_job_frame job_type text e =
      then_frames (mark_update v (fail_reason job_type) warning _) _
        (update_marked (fail_reason job_type) warning _) (λ u. Always-raise e tt)

  -- A call whose error fails the job.
  called :
      {A B : Type 0} (m : Call C T A) (f : Result A → Reconcile S C T B)
      → ((r : Result A) → Frames (f r))
      → Frames (attempt (ask m) >>= f)
  called m f k = then_frames (attempt (ask m)) f (attempted (ask m) (asked m)) k

  by_result :
      {A B : Type 0} (f : String → Reconcile S C T B) (k : A → Reconcile S C T B)
      → ((e : String) → Frames (f e))
      → ((a : A) → Frames (k a))
      → (r : Result A) → Frames (elim r [ err e ↦ f e | ok a ↦ k a ])
  by_result f k kf kk (err e) = kf e
  by_result f k kf kk (ok a) = kk a

  module _ (agent : HostAgent S C T) (job_type : JobType) (mac_types : List MacType) where
    start_frame : (node_name : String) → Frames (start_job v agent job_type mac_types node_name)
    unfolding start_job
    start_frame node_name = then_frames (read_ctx (λ x. x)) _ (read (λ x. x)) (λ x.
        called (agent.generate_job x.elf_machine job_type mac_types node_name) _ (
          by_result _ _ (fail_job_frame job_type "failed to generate host agent job: ") (λ job.
            called (agent.create_job job) _
              (by_result _ _ (fail_job_frame job_type "") (λ u. Always-pure false tt)))))

    failed_frame : (job : HostJob) → Frames (failed_job v agent job_type mac_types job)
    unfolding failed_job ◌>>◌
    failed_frame job =
        then_frames (mark_update v (fail_reason job_type) warning job.failure_message) _
          (update_marked (fail_reason job_type) warning job.failure_message)
          (λ u. then_frames (time_now v) _ timed (λ now.
            Always-if (ltb (executed_at job + retry_job_after) now) _ _
              (λ h.
                then_frames (wrap "failed to delete hostJob for retry" (ask (agent.delete_job job)))
                  _ (wrapped_frame _ _ (asked (agent.delete_job job))) (λ u. Always-pure false tt))
              (λ h. Always-pure false tt)))

    found_frame :
        (node_name : String) (found : Result HostJob)
        → Frames (found_job v agent job_type mac_types node_name found)
    unfolding found_job
    found_frame node_name (err e) =
        Always-if (v.is_not_found e) _ _ (λ h. start_frame node_name)
          (λ h. fail_job_frame job_type "failed to get HostOperationJob: " e)
    found_frame node_name (ok job) =
        elim job.phase
          as (λ p.
            Frames
              (found_job v agent job_type mac_types node_name (ok (record job { phase = p })))) [
                | succeeded ↦ Always-pure true tt
                | failed ↦ failed_frame (record job { phase = failed })
                | other_phase ↦ Always-pure false tt
              ]

    with_node :
        (x : MachineContext S) (node_ref : Option String)
        → Frames (elim node_ref [
          | none ↦ pure false
          | some node_name ↦ do
            client ← attempt (ask (agent.new_cluster_client x))
            elim client [
              | err e ↦ fail_job v job_type "failed to create kubeClient: " e
              | ok u ↦ do
                found ← attempt (ask (agent.get_host_job x.elf_machine job_type mac_types))
                found_job v agent job_type mac_types node_name found
            ]
        ])
    with_node x none = Always-pure false tt
    with_node x (some node_name) = called (agent.new_cluster_client x) _ (
        by_result _ _ (fail_job_frame job_type "failed to create kubeClient: ") (λ u.
          called (agent.get_host_job x.elf_machine job_type mac_types) _ (found_frame node_name)))

    pub host_job_frame : Frames (reconcile_host_job v agent job_type mac_types)
    unfolding reconcile_host_job
    host_job_frame =
        then_frames (read_ctx (λ x. x)) _ (read (λ x. x)) (λ x. with_node x x.machine.node_ref)

  pub job_for_frame :
      (agent : HostAgent S C T) (job_type : JobType) (leads : String → Bool)
      (started failing : String)
      → Frames (job_for v agent job_type leads started failing)
  unfolding job_for ◌>>◌
  job_for_frame agent job_type leads started failing =
      then_frames (read_ctx (λ x. x)) _ (read (λ x. x)) (λ x.
        Always-if (not (leads (update_reason v x))) _ _ (λ h. Always-pure true tt)
          (λ h.
            then_frames
              (if str_eq (update_reason v x) failing
                then pure tt
                else mark_update v started info "")
              _
              (Always-if (str_eq (update_reason v x) failing) _ _ (λ k. Always-pure tt tt)
                (λ k. update_marked started info ""))
              (λ u. host_job_frame agent job_type [])))

  allocate_frame :
      (insufficient : ℕ → Memory C → Option String × Memory C)
      (can_retry : ℕ → Memory C → Bool × Memory C)
      → Frames (may_allocate v insufficient can_retry)
  unfolding may_allocate
  allocate_frame insufficient can_retry = then_frames (time_now v) _ timed (λ now.
      then_frames (on_memory (insufficient now)) _ (remembered (insufficient now)) (λ short.
        elim short
          as (λ o. Frames (elim o [ none ↦ pure true | some m ↦ on_memory (can_retry now) ])) [
            | none ↦ Always-pure true tt
            | some m ↦ remembered (can_retry now)
          ]))

  after_frame : (vm : Vm) (updated : Result String) → Frames (after_update v vm updated)
  unfolding after_update ◌>>◌
  after_frame vm (err e) =
      then_frames (mark_update v expanding_vm_compute_resources_failed_reason warning e) _
        (update_marked expanding_vm_compute_resources_failed_reason warning e)
        (λ u. Always-raise (update_error vm e) tt)
  after_frame vm (ok task) =
      then_frames (on_machine (set_task task)) _ (task_set task) (λ u. Always-pure false tt)

  compute_update_frame : (vm : Vm) → Frames (update_compute v vm)
  unfolding update_compute
  compute_update_frame vm = then_frames (read_ctx (λ x. x)) _ (read (λ x. x)) (λ x.
      then_frames (time_now v) _ timed (λ now.
        then_frames (on_memory (acquire_ticket_for_updating_vm now x.elf_machine.name)) _
          (remembered (acquire_ticket_for_updating_vm now x.elf_machine.name))
          (λ acquired.
            Always-if (not acquired) _ _ (λ h. Always-pure false tt)
              (λ h. called (v.update_vm vm x.elf_machine) (after_update v vm) (after_frame vm)))))

  abbrev waiting : String
  waiting = "Waiting for the ELF cluster with sufficient memory"

  allocated_frame : (vm : Vm) (may : Bool) → Frames (allocated v vm may)
  unfolding allocated ◌>>◌
  allocated_frame vm true = compute_update_frame vm
  allocated_frame vm false =
      then_frames (mark_update v expanding_vm_compute_resources_reason info waiting) _
        (update_marked expanding_vm_compute_resources_reason info waiting)
        (λ u. Always-pure false tt)

  grow_frame : (vm : Vm) (x : MachineContext S) → Frames (grow_compute v vm x)
  unfolding grow_compute ◌>>◌
  grow_frame vm x =
      Always-if
        (not (str_eq (update_reason v x) expanding_vm_compute_resources_reason)
          && not (str_eq (update_reason v x) expanding_vm_compute_resources_failed_reason))
        _ _
        (λ k.
          then_frames (mark_update v expanding_vm_compute_resources_reason info "") _
            (update_marked expanding_vm_compute_resources_reason info "")
            (λ u. Always-pure false tt))
        (λ k.
          then_frames
            (may_allocate v (is_elf_cluster_memory_insufficient x) (can_retry_memory_allocation x))
            (allocated v vm)
            (allocate_frame (is_elf_cluster_memory_insufficient x) (can_retry_memory_allocation x))
            (allocated_frame vm))

  pub compute_frame : (vm : Vm) → Frames (reconcile_vm_cpu_and_memory v vm)
  unfolding reconcile_vm_cpu_and_memory ◌>>◌
  compute_frame vm =
      then_frames (on_machine (note_compute vm)) _ (changed (note_compute vm) (λ m. refl)) (λ u.
        then_frames (read_ctx (λ x. x)) _ (read (λ x. x)) (λ x.
          Always-if (not (lacks_compute vm x.elf_machine)) _ _ (λ h. Always-pure true tt)
            (λ h. grow_frame vm x)))

  start_resize_frame :
      (volume : VmVolume) (size : ℤ) (condition : String)
      → Frames (start_resize v volume size condition)
  unfolding start_resize ◌>>◌
  start_resize_frame volume size condition =
      Always-if volume.entity_async_status _ _ (λ h. Always-pure tt tt)
        (λ h. called (v.resize_vm_volume volume.id size) _ (
          by_result _ _
            (λ e.
              then_frames (on_machine (mark condition expanding_vm_disk_failed_reason warning e)) _
                (marked condition expanding_vm_disk_failed_reason warning e)
                (λ u. Always-raise ("failed to trigger expand size for vm volume: " +++ e) tt))
            task_set))

  resize_frame :
      (volume : VmVolume) (size : ℤ) (condition : String)
      → Frames (resize_vm_volume v volume size condition)
  unfolding resize_vm_volume
  resize_frame volume size condition = then_frames (read_ctx (λ x. x)) _ (read (λ x. x)) (λ x.
      let reason = reason_at v condition x in
      Always-if
        (not (str_eq reason expanding_vm_disk_reason)
          && not (str_eq reason expanding_vm_disk_failed_reason))
        _ _ (λ h. marked condition expanding_vm_disk_reason info "")
        (λ h.
          then_frames
            (may_allocate v (is_elf_cluster_storage_insufficient x)
              (can_retry_storage_allocation x))
            _
            (allocate_frame (is_elf_cluster_storage_insufficient x)
              (can_retry_storage_allocation x))
            (λ may.
              Always-if may _ _ (λ j. start_resize_frame volume size condition)
                (λ j.
                  marked condition expanding_vm_disk_reason info
                    "Waiting for the ELF cluster with sufficient storage"))))

  pub size_frame :
      (volume : VmVolume) (condition : String) → Frames (size_volume v volume condition)
  unfolding size_volume ◌>>◌
  size_frame volume condition =
      let size = byte_to_gi_b volume.size in
      then_frames (on_machine (note_disk size)) _ (changed (note_disk size) (λ m. refl)) (λ u.
        then_frames (read_ctx (λ x. x)) _ (read (λ x. x)) (λ x.
          let wanted = x.elf_machine.spec.disk_gib in
          Always-if (ltb_ℤ size wanted) _ _
            (λ h.
              then_frames (resize_vm_volume v volume (tower_disk wanted) condition) _
                (resize_frame volume (tower_disk wanted) condition) (λ u. Always-pure false tt))
            (λ h. Always-pure true tt)))

  pub disk_frame :
      (vm : Vm) (condition : String) (disk : Option VmDisk) → Frames (by_disk v vm condition disk)
  unfolding by_disk
  disk_frame vm condition none =
      Always-raise ("no disks found for vm " +++ (vm.id +++ ("/" +++ vm.name))) tt
  disk_frame vm condition (some disk) =
      then_frames (ask (v.get_vm_volume disk.vm_volume_id)) _
        (asked (v.get_vm_volume disk.vm_volume_id)) (λ volume. size_frame volume condition)

  pub volume_frame : (vm : Vm) (condition : String) → Frames (reconcile_vm_volume v vm condition)
  unfolding reconcile_vm_volume
  volume_frame vm condition = then_frames (read_ctx (λ x. x)) _ (read (λ x. x)) (λ x.
      Always-if (eqb_ℤ x.elf_machine.spec.disk_gib (pos 0)) _ _ (λ h. Always-pure true tt)
        (λ h.
          then_frames
            (wrap ("failed to get disks for vm " +++ (vm.id +++ ("/" +++ vm.name)))
              (ask (v.get_vm_disks vm.vm_disks)))
            _
            (wrapped_frame ("failed to get disks for vm " +++ (vm.id +++ ("/" +++ vm.name)))
              (ask (v.get_vm_disks vm.vm_disks)) (asked (v.get_vm_disks vm.vm_disks)))
            (λ disks. disk_frame vm condition (get_vm_system_disk disks))))
