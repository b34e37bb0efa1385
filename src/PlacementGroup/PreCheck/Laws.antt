-- ===== src/PlacementGroup/PreCheck/Laws.antt =====
-- The host that preCheckPlacementGroup names for a new control plane machine.
use cluster_api_provider_elf.Base.{
  String, ◌≡◌, ◌≢◌, refl, sym, ap, subst, Bool, true, false, not, ◌&&◌, ◌||◌, Option, none, some,
  List, [], str_eq, eq_iff, Result, ok, if◌then◌else◌, arith, ltb,
}
use cluster_api_provider_elf.Base.Dict.{lookup}
use cluster_api_provider_elf.Base.Int.{ℤ}
use cluster_api_provider_elf.Action.{Action, pure, wrap, ◌>>=◌}
use cluster_api_provider_elf.Action.Always.{Gives, bind_result, each_result, run_result, if_lem}
use cluster_api_provider_elf.Cache.{GoCache}
use cluster_api_provider_elf.Memory.{Value}
use cluster_api_provider_elf.Conditions.{Conditions}
use cluster_api_provider_elf.Kubernetes.{
  ClusterMachine, ControlPlane, is_kcp_in_rolling_update, is_kcp_in_scaling_down, has_annotation,
  delete_machine_annotation, is_control_plane_machine,
}
use cluster_api_provider_elf.Tower.{PlacementGroup}
use cluster_api_provider_elf.Machine.{ElfMachine}
use cluster_api_provider_elf.Context.{MachineContext, get_elf_cluster_id, get_failure_domain}
use cluster_api_provider_elf.Hosts.{
  Hosts, len, is_empty, find, get_host, is_available_host,
  filter_unavailable_hosts_or_without_enough_memory,
}
use cluster_api_provider_elf.Outside.{VmService, Site, Reconcile, ask}
use cluster_api_provider_elf.Outside.Frame.{Always-ask}
use cluster_api_provider_elf.PlacementGroup.{get_kcp_by_machine, group_name, get_placement_group}
use cluster_api_provider_elf.PlacementGroup.Frame.{group_name_frame, get_group_frame}
use cluster_api_provider_elf.PlacementGroup.Room.{
  get_hosts_in_placement_group, get_available_hosts_for_vm,
}
use cluster_api_provider_elf.PlacementGroup.Join.{memory_of}
use cluster_api_provider_elf.PlacementGroup.Join.Room.{hosts_frame}
use cluster_api_provider_elf.PlacementGroup.PreCheck.{
  or_none, host_of_newest, created_elf_machines, placed_machines, newest, named_host,
  get_vm_host_for_rolling_update, pre_check_rolling, patch_failed, marked, mark_for_deletion,
  pre_check_full, pre_check_group, pre_check_found, pre_check_placement_group,
}

-- The host is one that can take a machine with the memory.
abbrev pub Fits : ℤ → Hosts → String → Type 0
Fits memory hosts id = (is_available_host (get_host id hosts) memory).0 ≡ true

-- If the answer is a host that is named, then it fits.
abbrev NamesFit : ℤ → Hosts → Result String → Type 0
NamesFit memory hosts r = (id : String) → r ≡ ok id → str_eq id "" ≡ false → Fits memory hosts id

answer_of : (a b : String) → ok a ≡ ok b → a ≡ b
answer_of a b e = cc

no_name : (id : String) → ok "" ≡ ok id → str_eq id "" ≡ false → ⊥
no_name id e n = ground (arith, eq_iff id "", answer_of "" id e)

chosen_lem :
    (memory : ℤ) (hosts : Hosts) (own : String) (b : Bool)
    → (is_available_host (get_host own hosts) memory).0 ≡ b
    → NamesFit memory hosts (ok (if b then own else ""))
chosen_lem memory hosts own true t id e n = subst (Fits memory hosts) (answer_of own id e) t
chosen_lem memory hosts own false t id e n = absurd (no_name id e n)

some_of : (a b : String) → ok (some a) ≡ ok (some b) → a ≡ b
some_of a b e = cc

abbrev IfNamed : (String → Type 0) → Result (Option String) → Type 0
IfNamed P r = (id : String) → r ≡ ok (some id) → str_eq id "" ≡ false → P id

update_lem : (a b : Bool) → (not a && not b) ≡ false → b ≡ false → a ≡ true
update_lem a b h k = ground arith

module _ {S C T : Type 0} (v : VmService S C T) where
  newest_lem :
      (memory : ℤ) (hosts : Hosts) (vms : List (String × String)) (m : Option ClusterMachine)
      (s : Site S C T)
      → NamesFit memory hosts (host_of_newest v memory hosts vms m s).0
  unfolding host_of_newest
  newest_lem memory hosts vms none s = λ id e n. absurd (no_name id e n)
  newest_lem memory hosts vms (some machine) s =
      each_result (NamesFit memory hosts) (ask (v.get (or_none v (lookup machine.name vms))))
        (λ vm.
          pure
            (if (is_available_host (get_host vm.host_id hosts) memory).0 then vm.host_id else ""))
        (λ vm q s'. chosen_lem memory hosts vm.host_id _ refl) (λ e id h k. cc) s

  update_host_lem :
      (group : PlacementGroup) (hosts : Hosts) (s : Site S C T)
      → NamesFit (memory_of v s.ctx) hosts (get_vm_host_for_rolling_update v group hosts s).0
  unfolding get_vm_host_for_rolling_update
  update_host_lem group hosts s =
      let memory = memory_of v s.ctx in
      let placed_from : List (ElfMachine S)
          → Reconcile S C T (List ClusterMachine × List (String × String)) =
        λ ms. placed_machines v (created_elf_machines [] ms) group.vms ([], []) in
      let last : List ClusterMachine × List (String × String) → Reconcile S C T String =
        λ placed. host_of_newest v memory hosts placed.1 (newest placed.0) in
      each_result (NamesFit memory hosts)
        (ask (v.list_control_plane s.ctx.owner.namespace s.ctx.owner.name))
        (λ ms. placed_from ms >>= last)
        (λ ms q s'.
          each_result (NamesFit memory hosts) (placed_from ms) last
            (λ placed p s''. newest_lem memory hosts placed.1 (newest placed.0) s'')
            (λ e id h k. cc) s')
        (λ e id h k. cc) s

  -- What the calls answered when a host is named: it is a host of the cluster that fits, and the
  -- control plane is in a rolling update.
  pub record NamedHost (ctx : MachineContext S) (id : String) : Type 0 where
    pub hosts : Hosts
    pub kcp : ControlPlane
    pub hosts_given :
        Gives (v.get_hosts_by_cluster (get_elf_cluster_id ctx) ctx.datastore_id) (ok hosts)
    pub kcp_given : Gives (get_kcp_by_machine v ctx.machine) (ok kcp)
    pub updating : is_kcp_in_rolling_update kcp ≡ true
    pub fits : Fits (memory_of v ctx) hosts id

  named_lem :
      (memory : ℤ) (hosts : Hosts) (id : String) (b : Bool)
      → NamesFit memory hosts (ok id)
      → IfNamed (Fits memory hosts) (ok (if b then none else some id))
  named_lem memory hosts id true k = λ id' e n. cc
  named_lem memory hosts id false k = λ id' e n. k id' (ap ok (some_of id id' e)) n

  rolling_lem :
      (kcp : ControlPlane) (group : PlacementGroup) (hosts used : Hosts) (s : Site S C T)
      → IfNamed (Fits (memory_of v s.ctx) hosts) (pre_check_rolling v kcp group hosts used s).0
  unfolding pre_check_rolling
  rolling_lem kcp group hosts used s =
      let memory = memory_of v s.ctx in
      let P = IfNamed (Fits memory hosts) in
      let full =
        ltb (len used) kcp.spec_replicas
        || not (is_empty (filter_unavailable_hosts_or_without_enough_memory memory used)) in
      let named : String → Reconcile S C T (Option String) = λ id. pure (named_host v id) in
      if_lem P full (pure none) (get_vm_host_for_rolling_update v group hosts >>= named) s
        (λ h id e n. cc)
        (λ h.
          run_result P (NamesFit memory hosts) (get_vm_host_for_rolling_update v group hosts) named
            s (update_host_lem group hosts s)
            (λ id k s'. named_lem memory hosts id (str_eq id "") k) (λ e id k n. cc))

  abbrev NoName : Result (Option String) → Type 0
  NoName r = (id : String) → r ≢ ok (some id)

  deletion_names_none : (m : ClusterMachine) (s : Site S C T) → NoName (mark_for_deletion v m s).0
  unfolding mark_for_deletion
  deletion_names_none m s =
      let last : Action (Site S C T) (Option String) = pure none in
      let after : Reconcile S C T (Unit {0}) → Reconcile S C T (Option String) =
        λ n. n >>= λ _. last in
      let never : (n : Reconcile S C T (Unit {0})) (s : Site S C T) → NoName (after n s).0 =
        λ n. each_result NoName n (λ _. last) (λ a q s' id e. cc) (λ e id k. cc) in
      let patched = wrap (patch_failed m) (ask (v.patch_machine (marked m))) in
      if_lem NoName (has_annotation m.annotations delete_machine_annotation) _ _ s (λ h id e. cc)
        (λ h.
          each_result NoName (wrap "failed to init patch helper" (ask (v.new_patch_helper m)))
            (λ _. after patched) (λ a q s'. never patched s') (λ e id k. cc) s)

  full_names :
      (group : PlacementGroup) (hosts used : Hosts) (s : Site S C T)
      → Gives (v.get_hosts_by_cluster (get_elf_cluster_id s.ctx) s.ctx.datastore_id) (ok hosts)
      → IfNamed (NamedHost s.ctx) (pre_check_full v group hosts used s).0
  unfolding pre_check_full
  full_names group hosts used s given =
      let P = IfNamed (NamedHost s.ctx) in
      let asked = get_kcp_by_machine v s.ctx.machine in
      let rest : ControlPlane → Reconcile S C T (Option String) = λ kcp.
        if not (is_kcp_in_rolling_update kcp) && not (is_kcp_in_scaling_down kcp)
        then pure none
        else if is_kcp_in_scaling_down kcp
        then mark_for_deletion v s.ctx.machine
        else pre_check_rolling v kcp group hosts used in
      bind_result P (ask asked) rest (Always-ask s.ctx asked)
        (λ kcp kcp_given s' i.
          if_lem P (not (is_kcp_in_rolling_update kcp) && not (is_kcp_in_scaling_down kcp)) _ _ s'
            (λ h id e n. cc)
            (λ h.
              if_lem P (is_kcp_in_scaling_down kcp) _ _ s'
                (λ d id e n. absurd (deletion_names_none s.ctx.machine s' id e))
                (λ d id e n. record {
                  hosts = hosts;
                  kcp = kcp;
                  hosts_given = given;
                  kcp_given = kcp_given;
                  updating =
                      update_lem (is_kcp_in_rolling_update kcp) (is_kcp_in_scaling_down kcp) h d;
                  fits =
                      subst (λ c. Fits (memory_of v c) hosts id) i
                        (rolling_lem kcp group hosts used s' id e n);
                })))
        (λ e id k n. cc) s refl

  full_at :
      (group : PlacementGroup) (hosts used : Hosts) (s : Site S C T) (ctx : MachineContext S)
      → s.ctx ≡ ctx
      → Gives (v.get_hosts_by_cluster (get_elf_cluster_id ctx) ctx.datastore_id) (ok hosts)
      → IfNamed (NamedHost ctx) (pre_check_full v group hosts used s).0
  full_at group hosts used s ctx i given =
      subst (λ c. IfNamed (NamedHost c) (pre_check_full v group hosts used s).0) i
        (full_names group hosts used s (
          subst
            (λ (c : MachineContext S).
              Gives (v.get_hosts_by_cluster (get_elf_cluster_id c) c.datastore_id) (ok hosts))
            (sym i) given))

  group_names :
      (group : PlacementGroup) (s : Site S C T)
      → IfNamed (NamedHost s.ctx) (pre_check_group v group s).0
  unfolding pre_check_group
  group_names group s =
      let P = IfNamed (NamedHost s.ctx) in
      let ctx = s.ctx in
      let asked = v.get_hosts_by_cluster (get_elf_cluster_id ctx) ctx.datastore_id in
      let rest : List String → Hosts → Reconcile S C T (Option String) = λ ids hosts.
        if not (is_empty (get_available_hosts_for_vm (memory_of v ctx) hosts (find ids hosts) none))
        then pure (some "")
        else pre_check_full v group hosts (find ids hosts) in
      bind_result P (get_hosts_in_placement_group v group) (λ ids. ask asked >>= rest ids)
        (hosts_frame v ctx group)
        (λ ids q s' i.
          bind_result P (ask asked) (rest ids) (Always-ask ctx asked)
            (λ hosts given s'' j.
              if_lem P
                (not (
                  is_empty
                    (get_available_hosts_for_vm (memory_of v ctx) hosts (find ids hosts) none)))
                _ _ s'' (λ h id e n. absurd (no_name id (ap ok (some_of "" id e)) n))
                (λ h. full_at group hosts (find ids hosts) s'' ctx j given))
            (λ e id k n. cc) s' i)
        (λ e id k n. cc) s refl

  group_at :
      (group : PlacementGroup) (s : Site S C T) (ctx : MachineContext S)
      → s.ctx ≡ ctx
      → IfNamed (NamedHost ctx) (pre_check_group v group s).0
  group_at group s ctx i =
      subst (λ c. IfNamed (NamedHost c) (pre_check_group v group s).0) i (group_names group s)

  maybe_group_at :
      (found : Option PlacementGroup) (s : Site S C T) (ctx : MachineContext S)
      → s.ctx ≡ ctx
      → IfNamed (NamedHost ctx) (pre_check_found v found s).0
  unfolding pre_check_found
  maybe_group_at none s ctx i = λ id e n. cc
  maybe_group_at (some group) s ctx i = group_at group s ctx i

  module _ ⦃c : Conditions S⦄ ⦃g : GoCache C Value⦄ where
    -- If preCheckPlacementGroup names a host for a new machine, then Tower answered that it is an
    -- available host of the cluster with enough memory for the machine, and the control plane of the
    -- machine is in a rolling update.
    pub pre_check_names :
        (s : Site S C T) (id : String)
        → (pre_check_placement_group v s).0 ≡ ok (some id)
        → str_eq id "" ≡ false
        → NamedHost s.ctx id
    unfolding pre_check_placement_group
    pre_check_names s =
        let P = IfNamed (NamedHost s.ctx) in
        let ctx = s.ctx in
        let last = pre_check_found v in
        if_lem P
          (not (is_control_plane_machine ctx.machine) || not (str_eq (get_failure_domain ctx) ""))
          (pure (some "")) (group_name v >>= λ name. get_placement_group v name >>= last) s
          (λ h id e n. absurd (no_name id (ap ok (some_of "" id e)) n))
          (λ h.
            bind_result P (group_name v) (λ name. get_placement_group v name >>= last)
              (group_name_frame v ctx)
              (λ name q s' i.
                bind_result P (get_placement_group v name) last (get_group_frame v ctx name)
                  (λ found q' s'' j. maybe_group_at found s'' ctx j) (λ e id k n. cc) s' i)
              (λ e id k n. cc) s refl)
