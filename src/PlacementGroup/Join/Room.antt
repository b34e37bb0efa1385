-- ===== src/PlacementGroup/Join/Room.antt =====
-- Where a control plane machine is when it joins its placement group.
use cluster_api_provider_elf.Base.{
  String, ◌≡◌, ◌≢◌, refl, sym, ap, ◌∙◌, Bool, true, false, not, ◌&&◌, ◌||◌, Option, none, some,
  List, any, str_eq, ok, if◌then◌else◌, arith,
}
use cluster_api_provider_elf.Base.Dict.{IsMap}
use cluster_api_provider_elf.Base.Int.{ℤ, pos}
use cluster_api_provider_elf.Action.{pure, ◌>>=◌}
use cluster_api_provider_elf.Action.Always.{
  Always, Always-pure, Always-bind, Always-Gives, Gives, Any, bind_result,
}
use cluster_api_provider_elf.Tower.{PlacementGroup, Vm}
use cluster_api_provider_elf.Collections.{IsKeyed}
use cluster_api_provider_elf.Context.{MachineContext, get_elf_cluster_id, get_failure_domain}
use cluster_api_provider_elf.Hosts.{Hosts, contains_host, is_empty, find, get_host}
use cluster_api_provider_elf.Hosts.Laws.{contains-find, contains-available, found_of_available}
use cluster_api_provider_elf.Outside.{VmService, Site, Reconcile, ask}
use cluster_api_provider_elf.Outside.Frame.{HasCtx, Always-ask}
use cluster_api_provider_elf.PlacementGroup.Room.{
  members, host_ids, get_vms_in_placement_group, get_hosts_in_placement_group,
  get_available_hosts_for_vm, is_stopped, is_running, is_suspended,
}
use cluster_api_provider_elf.PlacementGroup.Room.Laws.{available_hosts_exact}
use cluster_api_provider_elf.PlacementGroup.Join.{
  memory_of, finally_with, full_group, try_migrate, choose_way, place_control_plane,
}

unused_lem :
    (here group used enough free stays same healthy : Bool)
    → used ≡ (here && group)
    → enough ≡ free
    → (free ≡ true → here ≡ true)
    → (healthy ≡ true → here ≡ true)
    → (not used && (enough || (stays && (same && healthy)))) ≡ true
    → (here ≡ true) × (group ≡ false)
unused_lem here group used enough free stays same healthy u e f k h = (ground arith, ground arith)

-- A virtual machine whose own host can take it is on a host that no virtual machine of the group uses.
alone_lem :
    (vm : Vm) (hosts : Hosts) (ids : List String) (memory : ℤ)
    → IsMap hosts
    → IsKeyed (λ h. h.id) hosts
    → contains_host vm.host_id (get_available_hosts_for_vm memory hosts (find ids hosts) (some vm))
      ≡ true
    → (contains_host vm.host_id hosts ≡ true) × (any (str_eq vm.host_id) ids ≡ false)
unfolding get_host contains_host
alone_lem vm hosts ids memory m k h =
    let own = vm.host_id in
    unused_lem (contains_host own hosts) (any (str_eq own) ids) _ _ _
      (is_running vm || is_suspended vm) (str_eq own own) _ (contains-find hosts m k ids own)
      (contains-available hosts m k memory own) (found_of_available (get_host own hosts) memory)
      (found_of_available (get_host own hosts) (pos 0))
      (sym (available_hosts_exact hosts m k memory (find ids hosts) (some vm) own) ∙ h)

module _ {S C T : Type 0} (v : VmService S C T) where
  never_none : (m : Reconcile S C T Bool) (s : Site S C T) → (finally_with v m s).0 ≢ ok none
  never_none m s h =
      let never : Always {S = Site S C T} (λ s. Unit) (λ r. r ≢ ok none) (finally_with v m) =
        Always-bind m (λ a. pure (some a)) (Always-Gives m (λ s i. tt))
          (λ a q. Always-pure (some a) (λ e. cc)) (λ e. λ k. cc) in
      (never.at s tt).0 h

  way_lem :
      (fd empty here still : Bool) (m n : Reconcile S C T Bool) (s : Site S C T)
      → fd ≡ true
      → still ≡ false
      → ((if not fd
            then (if empty && still then pure (some false) else pure none)
            else if empty
            then finally_with v m
            else if not here && not still
            then finally_with v n
            else pure none)
          s).0
        ≡ ok none
      → here ≡ true
  way_lem fd empty true still m n s f t h = refl
  way_lem true true false still m n s f t h = absurd (never_none m s h)
  way_lem true false false false m n s f t h = absurd (never_none n s h)
  way_lem true false false true m n s f t h = cc
  way_lem false empty false still m n s f t h = cc

  -- Without a failure domain, a machine that runs and goes on to join is on an available host.
  chosen_lem :
      (vm : Vm) (group : PlacementGroup) (used available : Hosts) (s : Site S C T)
      → str_eq (get_failure_domain s.ctx) "" ≡ true
      → is_stopped vm ≡ false
      → (choose_way v vm group used available s).0 ≡ ok none
      → contains_host vm.host_id available ≡ true
  unfolding choose_way
  chosen_lem vm group used available s f n h =
      way_lem (str_eq (get_failure_domain s.ctx) "") (is_empty available)
        (contains_host vm.host_id available) (is_stopped vm) (full_group v vm used)
        (try_migrate v vm group available) s f n h

  -- What the calls of placeControlPlane answered when the machine goes on to join: no virtual machine
  -- of the group is on its host, which is one of the cluster.
  pub record JoinsAlone (ctx : MachineContext S) (vm : Vm) (group : PlacementGroup) : Type 0 where
    pub hosts : Hosts
    pub ids : List String
    pub hosts_given :
        Gives (v.get_hosts_by_cluster (get_elf_cluster_id ctx) ctx.datastore_id) (ok hosts)
    pub ids_given : Gives (get_hosts_in_placement_group v group) (ok ids)
    pub is_host : contains_host vm.host_id hosts ≡ true
    pub unused : any (str_eq vm.host_id) ids ≡ false

  -- Tower gives the hosts of a cluster as a map by their IDs.
  abbrev pub HostsKeyed : Type 0
  HostsKeyed =
      (cluster datastore : String) (hosts : Hosts)
      → Gives (v.get_hosts_by_cluster cluster datastore) (ok hosts)
      → IsMap hosts × IsKeyed (λ h. h.id) hosts

  pub hosts_frame :
      (ctx : MachineContext S) (group : PlacementGroup)
      → Always
          (HasCtx ctx)
          (Gives (get_hosts_in_placement_group v group))
          (get_hosts_in_placement_group v group)
  unfolding get_hosts_in_placement_group
  hosts_frame ctx group =
      let framed : Always (HasCtx ctx) Any (get_hosts_in_placement_group v group) =
        Always-bind (ask (v.find_by_ids (get_vms_in_placement_group group)))
          (λ vms. pure (members (host_ids vms))) (Always-ask ctx _) (λ vms q. Always-pure _ tt)
          (λ e. tt) in
      Always-Gives (get_hosts_in_placement_group v group) λ s i. (framed.at s i).1

  -- A control plane machine without a failure domain, whose virtual machine is not stopped, goes on to
  -- join its placement group only if its host is one of the cluster and none of the virtual machines of
  -- the group is on it, as Tower answered, if Tower gives the hosts of a cluster as a map by ID.
  pub joins_alone :
      HostsKeyed
      → (vm : Vm) (group : PlacementGroup) (s : Site S C T)
      → str_eq (get_failure_domain s.ctx) "" ≡ true
      → is_stopped vm ≡ false
      → (place_control_plane v vm group s).0 ≡ ok none
      → JoinsAlone s.ctx vm group
  unfolding place_control_plane
  joins_alone keyed vm group s f n h =
      let ctx = s.ctx in
      let memory = memory_of v ctx in
      let asked = v.get_hosts_by_cluster (get_elf_cluster_id ctx) ctx.datastore_id in
      let chosen : Hosts → List String → Reconcile S C T (Option Bool) = λ hosts ids.
        choose_way v vm group (find ids hosts)
          (get_available_hosts_for_vm memory hosts (find ids hosts) (some vm)) in
      bind_result (λ r. r ≡ ok none → JoinsAlone ctx vm group) (ask asked)
        (λ hosts. get_hosts_in_placement_group v group >>= chosen hosts) (Always-ask ctx asked)
        (λ hosts given.
          bind_result (λ r. r ≡ ok none → JoinsAlone ctx vm group)
            (get_hosts_in_placement_group v group) (chosen hosts) (hosts_frame ctx group)
            (λ ids ids_given s' i h'.
              let (m, k) = keyed _ _ hosts given in
              let (is_host, unused) = alone_lem vm hosts ids memory m k (
                chosen_lem vm group (find ids hosts) _ s'
                  (ap (λ x. str_eq (get_failure_domain x) "") i ∙ f) n h') in
              record {
                hosts = hosts;
                ids = ids;
                hosts_given = given;
                ids_given = ids_given;
                is_host = is_host;
                unused = unused;
              })
            (λ e h'. cc))
        (λ e h'. cc) s refl h
