-- ===== src/Lifecycle/BringUp/Laws.antt =====
-- What it means that a virtual machine is reported as ready.
use cluster_api_provider_elf.Base.{
  ◌≡◌, subst, Bool, true, false, none, some, if◌then◌else◌, Result, ok,
}
use cluster_api_provider_elf.Action.{pure, ◌>>=◌, ◌>>◌}
use cluster_api_provider_elf.Action.Always.{Gives, each_result, if_lem}
use cluster_api_provider_elf.Cache.{GoCache}
use cluster_api_provider_elf.Memory.{Value}
use cluster_api_provider_elf.Conditions.{Conditions}
use cluster_api_provider_elf.Tower.{Vm, running}
use cluster_api_provider_elf.Uuid.{is_uuid}
use cluster_api_provider_elf.Machine.{set_vm, has_vm}
use cluster_api_provider_elf.Outside.{VmService, Site, Reconcile, on_machine, set_machine}
use cluster_api_provider_elf.PlacementGroup.Join.{join_placement_group}
use cluster_api_provider_elf.Lifecycle.{reconcile_vm_status}
use cluster_api_provider_elf.Lifecycle.Laws.{true_means_running}
use cluster_api_provider_elf.Lifecycle.Deletion.{get_vm_ref, run_task}
use cluster_api_provider_elf.Lifecycle.Creation.{is_vm_in_recycle_bin, get_vm, create_vm}
use cluster_api_provider_elf.Lifecycle.BringUp.{
  Parts, Seen, when_done, forget_disconnection, recycled, name_vm, bring_up, use_created, use_vm,
  reconcile_vm,
}

abbrev seen_ready : Vm → Result Seen
seen_ready vm = ok (some vm, true)

same_vm : (vm w : Vm) → seen_ready vm ≡ seen_ready w → vm ≡ w
same_vm vm w e = cc

module _ {S C T : Type 0} (v : VmService S C T) (parts : Parts S C T) ⦃c : Conditions S⦄
    ⦃g : GoCache C Value⦄ where
  -- What a virtual machine that is reported as ready is.
  pub record IsReady (vm : Vm) : Type 0 where
    pub created : is_uuid (get_vm_ref vm) ≡ true
    pub kept : is_vm_in_recycle_bin vm ≡ false
    pub joined : Gives (join_placement_group v vm) (ok true)
    pub has_gpus : Gives (parts.gpu_devices vm) (ok true)
    pub runs : vm.status ≡ some running
    pub has_resources : Gives (parts.resources vm) (ok true)

  abbrev OnlyReady : Result Seen → Type 0
  OnlyReady r = (vm : Vm) → r ≡ ok (some vm, true) → IsReady vm

  waits : (vm : Vm) (s : Site S C T) → OnlyReady (pure {S = Site S C T} (some vm, false) s).0
  unfolding pure
  waits vm s = λ w e. cc

  done_or_waits :
      (vm : Vm) (m : Reconcile S C T Bool) (rest : Reconcile S C T Seen)
      → (Gives m (ok true) → (s : Site S C T) → OnlyReady (rest s).0)
      → (done : Bool) → Gives m (ok done)
      → (s : Site S C T) → OnlyReady ((if done then rest else pure (some vm, false)) s).0
  done_or_waits vm m rest k true q s = k q s
  done_or_waits vm m rest k false q s = waits vm s

  done_lem :
      (vm : Vm) (m : Reconcile S C T Bool) (rest : Reconcile S C T Seen) (s : Site S C T)
      → (Gives m (ok true) → (s' : Site S C T) → OnlyReady (rest s').0)
      → OnlyReady (when_done v parts vm m rest s).0
  done_lem vm m rest s k =
      each_result OnlyReady m (λ done. if done then rest else pure (some vm, false))
        (done_or_waits vm m rest k) (λ e w h. cc) s

  brought_up :
      (vm : Vm) (s : Site S C T)
      → is_uuid (get_vm_ref vm) ≡ true
      → is_vm_in_recycle_bin vm ≡ false
      → OnlyReady (bring_up v parts vm s).0
  unfolding bring_up
  brought_up vm s u k =
      let seen : Reconcile S C T Seen = pure (some vm, true) in
      let sized = when_done v parts vm (parts.resources vm) seen in
      let started =
        when_done v parts vm (reconcile_vm_status v parts.restores parts.volume vm) sized in
      done_lem vm (join_placement_group v vm) (when_done v parts vm (parts.gpu_devices vm) started)
        s
        (λ joined s₁. done_lem vm (parts.gpu_devices vm) started s₁ (λ gpus s₂.
          done_lem vm (reconcile_vm_status v parts.restores parts.volume vm) sized s₂ (λ ran s₃.
            done_lem vm (parts.resources vm) seen s₃ (λ q s₄ w e.
              subst IsReady (same_vm vm w e) (record {
                created = u;
                kept = k;
                joined = joined;
                has_gpus = gpus;
                runs = (true_means_running v parts.restores parts.volume vm ran.0 ran.1).0;
                has_resources = q;
              })))))

  used_created :
      (vm : Vm) (s : Site S C T)
      → is_uuid (get_vm_ref vm) ≡ true
      → OnlyReady (use_created v parts vm s).0
  unfolding use_created
  used_created vm s u =
      let thrown : Reconcile S C T Seen =
        on_machine recycled >> (on_machine (set_vm "") >> pure (some vm, false)) in
      each_result OnlyReady (parts.host_and_zone vm)
        (λ _. if is_vm_in_recycle_bin vm then thrown else bring_up v parts vm)
        (λ a q s'.
          if_lem OnlyReady (is_vm_in_recycle_bin vm) thrown (bring_up v parts vm) s' (λ r w e. cc)
            (λ k. brought_up vm s' u k))
        (λ e w h. cc) (set_machine (name_vm (get_vm_ref vm)) s)

  used : (vm : Vm) (s : Site S C T) → OnlyReady (use_vm v parts vm s).0
  unfolding use_vm
  used vm s =
      let rest =
        if is_uuid (get_vm_ref vm) then use_created v parts vm else pure (some vm, false) in
      done_lem vm (run_task v vm.entity_async_status) rest (set_machine forget_disconnection s)
        (λ q s'.
          if_lem OnlyReady (is_uuid (get_vm_ref vm)) (use_created v parts vm)
            (pure (some vm, false)) s' (λ u. used_created vm s' u) (λ n. waits vm s'))

  -- If reconcileVM reports a virtual machine as ready, then Tower has created it (its reference is a
  -- UUID), it is not in the recycle bin, and its status is RUNNING, and joinPlacementGroup,
  -- reconcileGPUDevices and reconcileVMResources answered true for it.
  pub vm_brought_up :
      (vm : Vm) (s : Site S C T) → (reconcile_vm v parts s).0 ≡ ok (some vm, true) → IsReady vm
  unfolding reconcile_vm
  vm_brought_up vm s =
      let given =
        if has_vm s.ctx.elf_machine
        then pure true
        else create_vm v parts.maximum parts.bootstrap parts.select_host in
      let rest : Bool → Reconcile S C T Seen =
        λ there. if there then get_vm v >>= use_vm v parts else pure (none, false) in
      each_result OnlyReady given rest
        (λ there q s'.
          if_lem OnlyReady there (get_vm v >>= use_vm v parts) (pure (none, false)) s'
            (λ t.
              each_result OnlyReady (get_vm v) (use_vm v parts) (λ w q s''. used w s'')
                (λ e w h. cc) s')
            (λ n w e. cc))
        (λ e w h. cc) s vm
