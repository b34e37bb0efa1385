-- ===== src/Resources/Enough.antt =====
-- What it means that the resources are reported as reconciled.
use cluster_api_provider_elf.Base.{
  String, ◌+++◌, ◌≡◌, refl, ap, subst, ◌≤◌, ◌⊎◌, inl, inr, Bool, true, false, not, ◌&&◌, ◌||◌,
  Option, none, some, List, length, leb, ◌==◌, str_eq, Result, ok, err, if◌then◌else◌, arith,
  leb→le,
}
use cluster_api_provider_elf.Base.Int.{ℤ, pos, ◌≤ℤ◌, ltb_ℤ, eqb_ℤ}
use cluster_api_provider_elf.Action.{pure, raise, attempt, wrap, wrapped, ◌>>=◌, ◌>>◌}
use cluster_api_provider_elf.Action.Always.{
  Always, Gives, each_result, bind_result, run_result, if_lem,
}
use cluster_api_provider_elf.Cache.{GoCache}
use cluster_api_provider_elf.Memory.{Value}
use cluster_api_provider_elf.Conditions.{Conditions, info}
use cluster_api_provider_elf.Reasons.{
  resources_hot_updated_condition, expanding_vm_compute_resources_reason,
  expanding_vm_compute_resources_failed_reason, restarting_kubelet_reason,
  restarting_kubelet_failed_reason, adding_vm_network_device_reason,
  adding_vm_network_device_failed_reason, expanding_root_partition_reason,
  expanding_root_partition_failed_reason,
}
use cluster_api_provider_elf.Tower.{Vm, VmVolume, VmNic, VmNicParams, VmDisk}
use cluster_api_provider_elf.Machine.{ElfMachineSpec, set_task}
use cluster_api_provider_elf.Context.{MachineContext}
use cluster_api_provider_elf.Outside.{
  VmService, Call, Site, Reconcile, ask, on_machine, set_machine,
}
use cluster_api_provider_elf.TowerCache.{can_retry_memory_allocation}
use cluster_api_provider_elf.TowerCache.Schedule.{is_elf_cluster_memory_insufficient}
use cluster_api_provider_elf.Resources.{
  HostAgent, reconcile_vm_resources, finish_update, restart_kubelet, expand_vm_root_partition,
  reconcile_vm_cpu_and_memory, lacks_compute, note_compute, byte_to_mi_b, may_allocate,
  after_update, update_compute, allocated, grow_compute, update_reason, mark_update, added_nics,
  new_nics, reconcile_vm_volume, byte_to_gi_b, by_disk, size_volume, get_vm_system_disk,
  reconcile_vm_network_devices, use_nics, after_config, add_nics, and_then, is_adding, drop,
  note_network, reconcile_vm_nics, restart_the_kubelet, expand_root_partition, leads_to_kubelet,
  leads_to_partition, resize_vm_volume, note_disk, tower_disk,
}
use cluster_api_provider_elf.Resources.Frame.{
  HasSpec, Frames, compute_frame, job_for_frame, volume_frame,
}
use cluster_api_provider_elf.Resources.SystemDisk.{IsSystemDisk, system_disk_lem}

module _ {S C T : Type 0} (v : VmService S C T) (agent : HostAgent S C T) ⦃c : Conditions S⦄
    ⦃g : GoCache C Value⦄ (vm : Vm) (spec : ElfMachineSpec) where
  -- `disk` is the system disk of the disks that Tower has given of the virtual machine.
  abbrev pub IsDisk : VmDisk → Type 0
  IsDisk disk =
      (disks : List VmDisk) × Gives {S = Site S C T} (ask (v.get_vm_disks vm.vm_disks)) (ok disks)
      × IsSystemDisk disks disk

  -- The volume that Tower has given of the system disk is at least as large as is asked for, if a
  -- size is.
  abbrev pub DiskSuffices : Type 0
  DiskSuffices =
      (eqb_ℤ spec.disk_gib (pos 0) ≡ true)
      ⊎ ((disk : VmDisk) × IsDisk disk
          × ((volume : VmVolume) × Gives {S = Site S C T} (ask (v.get_vm_volume disk.vm_volume_id))
                (ok volume)
              × (spec.disk_gib ≤ℤ byte_to_gi_b volume.size)))

  abbrev pub NicsSuffice : Type 0
  NicsSuffice =
      (nics : List VmNic) × Gives {S = Site S C T} (ask (v.get_vm_nics vm.id)) (ok nics)
      × (length spec.network.devices ≤ length nics)

  abbrev pub ComputeSuffices : Type 0
  ComputeSuffices = (spec.num_cpus ≤ℤ vm.vcpu) × (spec.memory_mib ≤ℤ byte_to_mi_b vm.memory)

  -- What the answer true of a step is to mean.
  abbrev If : Type 0 → Result Bool → Type 0
  If P r = r ≡ ok true → P

  module _ (P : Type 0) where
    after_lem : (r : Result String) (s : Site S C T) → If P (after_update v vm r s).0
    unfolding after_update
    after_lem (err e) s h = cc
    after_lem (ok task) s h = cc

    -- An update never answers true.
    update_lem : (s : Site S C T) → If P (update_compute v vm s).0
    unfolding update_compute
    update_lem s =
        if_lem (If P) _ (pure false)
          (attempt (ask (v.update_vm vm s.ctx.elf_machine)) >>= after_update v vm) _ (λ h k. cc)
          (λ h.
            each_result (If P) (attempt (ask (v.update_vm vm s.ctx.elf_machine)))
              (after_update v vm) (λ r q s'. after_lem r s') (λ e k. cc) _)

  compute_tests : (a b d e : ℤ) → (ltb_ℤ a b || ltb_ℤ d e) ≡ false → (b ≤ℤ a) × (e ≤ℤ d)
  compute_tests a b d e h = (ground arith, ground arith)

  -- The answer true does not come after a call whose answer is thrown away.
  false_lem :
      {A : Type 0} (P : Type 0) (m : Reconcile S C T A) (s : Site S C T)
      → If P ((m >> pure false) s).0
  unfolding ◌>>◌ pure
  false_lem P m s = each_result (If P) m (λ _. pure false) (λ a q s' h. cc) (λ e h. cc) s

  not_lem : (b : Bool) → not b ≡ true → b ≡ false
  not_lem b h = ground arith

  allocated_lem : (P : Type 0) (may : Bool) (s : Site S C T) → If P (allocated v vm may s).0
  unfolding allocated
  allocated_lem P true s = update_lem P s
  allocated_lem P false s =
      false_lem P
        (mark_update v expanding_vm_compute_resources_reason info
          "Waiting for the ELF cluster with sufficient memory")
        s

  grow_lem : (P : Type 0) (x : MachineContext S) (s : Site S C T) → If P (grow_compute v vm x s).0
  unfolding grow_compute
  grow_lem P x s =
      let marked = mark_update v expanding_vm_compute_resources_reason info "" in
      let may =
        may_allocate v (is_elf_cluster_memory_insufficient x) (can_retry_memory_allocation x) in
      if_lem (If P)
        (not (str_eq (update_reason v x) expanding_vm_compute_resources_reason)
          && not (str_eq (update_reason v x) expanding_vm_compute_resources_failed_reason))
        (marked >> pure false) (may >>= allocated v vm) s (λ k. false_lem P marked s)
        (λ k.
          each_result (If P) may (allocated v vm) (λ b q s'. allocated_lem P b s') (λ e h. cc) s)

  compute_lem :
      (s : Site S C T)
      → s.ctx.elf_machine.spec ≡ spec
      → If ComputeSuffices (reconcile_vm_cpu_and_memory v vm s).0
  unfolding reconcile_vm_cpu_and_memory lacks_compute pure
  compute_lem s i =
      let m = note_compute vm s.ctx.elf_machine in
      let y = s.ctx in
      let x = record y { elf_machine = m } in
      let asks = s.ctx.elf_machine.spec in
      if_lem (If ComputeSuffices) (not (lacks_compute vm m)) (pure true) (grow_compute v vm x)
        (set_machine (note_compute vm) s)
        (λ h k.
          subst
            (λ (sp : ElfMachineSpec).
              (sp.num_cpus ≤ℤ vm.vcpu) × (sp.memory_mib ≤ℤ byte_to_mi_b vm.memory))
            i
            (compute_tests vm.vcpu asks.num_cpus (byte_to_mi_b vm.memory) asks.memory_mib
              (not_lem (lacks_compute vm m) h)))
        (λ h. grow_lem ComputeSuffices x (set_machine (note_compute vm) s))

  compute_step : Always (HasSpec spec) (If ComputeSuffices) (reconcile_vm_cpu_and_memory v vm)
  compute_step = record { at = λ s i. (compute_lem s i, ((compute_frame v spec vm).at s i).1) }

  given_frame :
      {A : Type 0} (m : Call C T A)
      → Always {S = Site S C T} (HasSpec spec) (Gives {S = Site S C T} (ask m)) (ask m)
  unfolding ask
  given_frame m = record { at = λ s i. ((s, refl), i) }

  not_below : (a b : ℤ) → ltb_ℤ a b ≡ false → b ≤ℤ a
  not_below a b h = ground arith

  size_lem :
      (disk : VmDisk) (volume : VmVolume) (condition : String)
      → IsDisk disk
      → Gives {S = Site S C T} (ask (v.get_vm_volume disk.vm_volume_id)) (ok volume)
      → (s : Site S C T) → s.ctx.elf_machine.spec ≡ spec
      → If DiskSuffices (size_volume v volume condition s).0
  unfolding size_volume
  size_lem disk volume condition found given s i =
      let size = byte_to_gi_b volume.size in
      let wanted = s.ctx.elf_machine.spec.disk_gib in
      let s₁ = set_machine (note_disk size) s in
      if_lem (If DiskSuffices) (ltb_ℤ size wanted)
        (resize_vm_volume v volume (tower_disk wanted) condition >> pure false) (pure true) s₁
        (λ h. false_lem DiskSuffices (resize_vm_volume v volume (tower_disk wanted) condition) s₁)
        (λ h k. inr (
          disk,
          found,
          (
            volume,
            given,
            subst (λ (sp : ElfMachineSpec). sp.disk_gib ≤ℤ size) i (not_below size wanted h),
          ),
        ))

  disk_lem :
      (condition : String) (disk : Option VmDisk)
      → ((d : VmDisk) → disk ≡ some d → IsDisk d)
      → (s : Site S C T) → s.ctx.elf_machine.spec ≡ spec
      → If DiskSuffices (by_disk v vm condition disk s).0
  unfolding by_disk raise
  disk_lem condition none f s i = λ h. cc
  disk_lem condition (some d) f s i =
      bind_result (If DiskSuffices) (ask (v.get_vm_volume d.vm_volume_id))
        (λ volume. size_volume v volume condition) (given_frame (v.get_vm_volume d.vm_volume_id))
        (λ volume q s' i'. size_lem d volume condition (f d refl) q s' i') (λ e h. cc) s i

  -- What a call gives is seen through the text that is put before its error.
  unwrapped_lem :
      {A : Type 0} (text : String) (r : Result A) (a : A) → wrapped text r ≡ ok a → r ≡ ok a
  unwrapped_lem text (ok b) a h = h
  unwrapped_lem text (err e) a h = cc

  wrapped_gives :
      {A : Type 0} (text : String) (m : Call C T A)
      → Always
          (HasSpec {S = S} {C = C} {T = T} spec)
          (λ r. (a : A) → r ≡ ok a → Gives {S = Site S C T} (ask m) (ok a))
          (wrap text (ask m))
  unfolding wrap ask
  wrapped_gives text m = record {
    at = λ s i. ((λ a h. (s, unwrapped_lem text (m s.shared).0 a h)), i);
  }

  volume_lem :
      (condition : String) (s : Site S C T)
      → s.ctx.elf_machine.spec ≡ spec
      → If DiskSuffices (reconcile_vm_volume v vm condition s).0
  unfolding reconcile_vm_volume
  volume_lem condition s i =
      let text : String = "failed to get disks for vm " +++ (vm.id +++ ("/" +++ vm.name)) in
      if_lem (If DiskSuffices) (eqb_ℤ s.ctx.elf_machine.spec.disk_gib (pos 0)) (pure true)
        (wrap text (ask (v.get_vm_disks vm.vm_disks)) >>= λ disks.
          by_disk v vm condition (get_vm_system_disk disks))
        s (λ h k. inl (subst (λ (sp : ElfMachineSpec). eqb_ℤ sp.disk_gib (pos 0) ≡ true) i h))
        (λ h.
          bind_result (If DiskSuffices) (wrap text (ask (v.get_vm_disks vm.vm_disks)))
            (λ disks. by_disk v vm condition (get_vm_system_disk disks))
            (wrapped_gives text (v.get_vm_disks vm.vm_disks))
            (λ disks q s' i'.
              disk_lem condition (get_vm_system_disk disks)
                (λ d e. (disks, q disks refl, system_disk_lem disks d e)) s' i')
            (λ e k. cc) s i)

  added_lem :
      (P : Type 0) (reason : String) (r : Result String) (s : Site S C T)
      → If P (added_nics v reason r s).0
  unfolding added_nics ◌>>◌ pure raise
  added_lem P reason (err e) s = λ h. cc
  added_lem P reason (ok task) s =
      each_result (If P)
        (if str_eq reason adding_vm_network_device_failed_reason
          then mark_update v adding_vm_network_device_reason info ""
          else pure tt)
        (λ _. on_machine (set_task task) >> pure false)
        (λ a q s'. false_lem P (on_machine (set_task task)) s') (λ e h. cc) s

  add_lem :
      (P : Type 0) (nics : List VmNic) (x : MachineContext S) (s : Site S C T)
      → If P (add_nics v vm nics x s).0
  unfolding add_nics
  add_lem P nics x s =
      let reason = update_reason v x in
      let marked = mark_update v adding_vm_network_device_reason info "" in
      let asked_for = new_nics v (drop (length nics) x.elf_machine.spec.network.devices) in
      let add : List VmNicParams → Reconcile S C T (Result String) =
        λ params. attempt (ask (v.add_vm_nics vm.id params)) in
      if_lem (If P) (not (is_adding reason)) (marked >> pure false)
        (asked_for >>= λ params. add params >>= added_nics v reason) s (λ h. false_lem P marked s)
        (λ h.
          each_result (If P) asked_for (λ params. add params >>= added_nics v reason)
            (λ params q s'.
              each_result (If P) (add params) (added_nics v reason)
                (λ r q' s''. added_lem P reason r s'') (λ e k. cc) s')
            (λ e k. cc) s)

  nics_lem :
      (nics : List VmNic) (s : Site S C T)
      → s.ctx.elf_machine.spec ≡ spec
      → If (length spec.network.devices ≤ length nics) (reconcile_vm_nics v vm nics s).0
  unfolding reconcile_vm_nics
  nics_lem nics s i =
      let enough = leb (length s.ctx.elf_machine.spec.network.devices) (length nics) in
      let noted : Reconcile S C T (Unit {0}) = on_machine (note_network nics) in
      if_lem (If (length spec.network.devices ≤ length nics)) enough (pure true)
        (noted >> add_nics v vm nics s.ctx) s
        (λ h k.
          subst (λ (sp : ElfMachineSpec). length sp.network.devices ≤ length nics) i
            (leb→le (length s.ctx.elf_machine.spec.network.devices) (length nics) h))
        (λ h.
          add_lem (length spec.network.devices ≤ length nics) nics s.ctx
            (set_machine (note_network nics) s))

  use_lem :
      (nics : List VmNic)
      → Gives {S = Site S C T} (ask (v.get_vm_nics vm.id)) (ok nics)
      → (s : Site S C T) → s.ctx.elf_machine.spec ≡ spec
      → If NicsSuffice (use_nics v agent vm nics s).0
  unfolding use_nics pure
  use_lem nics given s i =
      run_result (If NicsSuffice) (If (length spec.network.devices ≤ length nics))
        (reconcile_vm_nics v vm nics)
        (λ enough. if enough then after_config v agent nics else pure false) s (nics_lem nics s i)
        (λ enough fact s'.
          if_lem (If NicsSuffice) enough (after_config v agent nics) (pure false) s'
            (λ h k. (nics, given, fact (ap ok h))) (λ h k. cc))
        (λ e h. cc)

  network_lem :
      (s : Site S C T)
      → s.ctx.elf_machine.spec ≡ spec
      → If NicsSuffice (reconcile_vm_network_devices v agent vm s).0
  unfolding reconcile_vm_network_devices pure
  network_lem s i =
      bind_result (If NicsSuffice) (ask (v.get_vm_nics vm.id))
        (λ nics. if length nics == 0 then pure false else use_nics v agent vm nics)
        (given_frame (v.get_vm_nics vm.id))
        (λ nics q s' i'.
          if_lem (If NicsSuffice) (length nics == 0) (pure false) (use_nics v agent vm nics) s'
            (λ h k. cc) (λ h. use_lem nics q s' i'))
        (λ e h. cc) s i

  -- Two steps, one after the other.
  steps_lem :
      (P Q : Type 0) (m rest : Reconcile S C T Bool)
      → Always (HasSpec spec) (If P) m
      → ((s : Site S C T) → s.ctx.elf_machine.spec ≡ spec → If Q (rest s).0)
      → (s : Site S C T) → s.ctx.elf_machine.spec ≡ spec
      → If (P × Q) (and_then v agent m rest s).0
  unfolding pure and_then ◌>>=◌
  steps_lem P Q m rest km kr s i =
      bind_result (If (P × Q)) m (λ done. if done then rest else pure false) km
        (λ done p s' i'.
          if_lem (If (P × Q)) done rest (pure false) s' (λ h k. (p (ap ok h), kr s' i' k))
            (λ h k. cc))
        (λ e h. cc) s i

  plain : (m : Reconcile S C T Bool) → Frames v spec m → Always (HasSpec spec) (If (Unit {0})) m
  plain m k = record { at = λ s i. ((λ h. tt), (k.at s i).1) }

  volume_step :
      Always
        (HasSpec spec)
        (If DiskSuffices)
        (reconcile_vm_volume v vm resources_hot_updated_condition)
  volume_step = record {
    at = λ s i. (
      volume_lem resources_hot_updated_condition s i,
      ((volume_frame v spec vm resources_hot_updated_condition).at s i).1,
    );
  }

  last_lem :
      (rest : Reconcile S C T Bool) (s : Site S C T)
      → s.ctx.elf_machine.spec ≡ spec
      → If NicsSuffice (and_then v agent (reconcile_vm_network_devices v agent vm) rest s).0
  unfolding and_then pure
  last_lem rest s i =
      run_result (If NicsSuffice) (If NicsSuffice) (reconcile_vm_network_devices v agent vm)
        (λ done. if done then rest else pure false) s (network_lem s i)
        (λ done fact s'.
          if_lem (If NicsSuffice) done rest (pure false) s' (λ h k. fact (ap ok h)) (λ h k. cc))
        (λ e h. cc)

  resources_lem :
      (s : Site S C T)
      → s.ctx.elf_machine.spec ≡ spec
      → If
          (ComputeSuffices × (Unit {0} × (DiskSuffices × (Unit {0} × NicsSuffice))))
          (reconcile_vm_resources v agent vm s).0
  unfolding reconcile_vm_resources restart_kubelet expand_vm_root_partition
  resources_lem =
      let finish = finish_update v agent in
      let nics = and_then v agent (reconcile_vm_network_devices v agent vm) finish in
      let partition = and_then v agent (expand_vm_root_partition v agent) nics in
      let volume =
        and_then v agent (reconcile_vm_volume v vm resources_hot_updated_condition) partition in
      let kubelet = and_then v agent (restart_kubelet v agent) volume in
      steps_lem ComputeSuffices (Unit {0} × (DiskSuffices × (Unit {0} × NicsSuffice)))
        (reconcile_vm_cpu_and_memory v vm) kubelet compute_step
        (steps_lem (Unit {0}) (DiskSuffices × (Unit {0} × NicsSuffice)) (restart_kubelet v agent)
          volume
          (plain (restart_kubelet v agent) (
            job_for_frame v spec agent restart_the_kubelet (leads_to_kubelet v)
              restarting_kubelet_reason restarting_kubelet_failed_reason))
          (steps_lem DiskSuffices (Unit {0} × NicsSuffice)
            (reconcile_vm_volume v vm resources_hot_updated_condition) partition volume_step
            (steps_lem (Unit {0}) NicsSuffice (expand_vm_root_partition v agent) nics
              (plain (expand_vm_root_partition v agent) (
                job_for_frame v spec agent expand_root_partition (leads_to_partition v)
                  expanding_root_partition_reason expanding_root_partition_failed_reason))
              (last_lem finish))))

module _ {S C T : Type 0} (v : VmService S C T) (agent : HostAgent S C T) ⦃c : Conditions S⦄
    ⦃g : GoCache C Value⦄ where
  -- If reconcileVMResources answers true, then the virtual machine has at least the CPUs and the
  -- memory that the machine asks for; if it asks for a size of the disk, then of the disks that Tower
  -- has given of the virtual machine, one with the smallest boot value has a volume, as Tower has
  -- given it, of at least this size; and Tower has given at least as many nics of the virtual
  -- machine as the machine has network devices.
  pub resources_suffice :
      (vm : Vm) (s : Site S C T)
      → (reconcile_vm_resources v agent vm s).0 ≡ ok true
      → let spec = s.ctx.elf_machine.spec in
        ComputeSuffices v agent vm spec × DiskSuffices v agent vm spec × NicsSuffice v agent vm spec
  resources_suffice vm s h =
      let r = resources_lem v agent vm s.ctx.elf_machine.spec s refl h in (r.0, r.1.1.0, r.1.1.1.1)
