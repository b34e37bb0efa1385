-- ===== src/Service/Joins.antt =====
-- Joining a placement group with TowerVMService as the service: the guard that no other virtual
-- machine of the group is on the host rests on what the REST client answers.
use cluster_api_provider_elf.Base.{
  ◌≡◌, refl, sym, ap, ◌∙◌, subst, ℕ, String, Bool, true, false, ◌||◌, Option, none, some, List, [],
  ◌∷◌, any, ok, str_eq, arith, if◌then◌else◌,
}
use cluster_api_provider_elf.Base.Dict.{lookup, lookup-insert}
use cluster_api_provider_elf.Action.{pure, raise}
use cluster_api_provider_elf.Action.Always.{Gives, each_result}
use cluster_api_provider_elf.Cache.{GoCache}
use cluster_api_provider_elf.Memory.{Value}
use cluster_api_provider_elf.Conditions.{Conditions}
use cluster_api_provider_elf.Tower.{Host, Vm, PlacementGroup}
use cluster_api_provider_elf.Collections.{insert, insert_all}
use cluster_api_provider_elf.Hosts.{Hosts, is_found, contains_host}
use cluster_api_provider_elf.Context.{MachineContext, get_failure_domain, get_elf_cluster_id}
use cluster_api_provider_elf.Outside.{VmService, Shared, Site}
use cluster_api_provider_elf.PlacementGroup.Room.{get_hosts_in_placement_group, is_stopped}
use cluster_api_provider_elf.PlacementGroup.Join.{place_control_plane}
use cluster_api_provider_elf.PlacementGroup.Join.Room.{HostsKeyed, joins_alone}
use cluster_api_provider_elf.Service.{TowerClient, tower_service, get_hosts_by_cluster, new_hosts}
use cluster_api_provider_elf.Service.Laws.{KeyedHosts, hosts_lem}

abbrev new_hosts_of : List Host → Hosts
new_hosts_of payload = insert_all (λ x. x.id) payload []

swap_or : (a b d : Bool) → (a || (b || d)) ≡ ((b || a) || d)
swap_or a b d = ground arith

test_lem :
    (b : Bool) (x : Host) (o : Option Host) → is_found (if b then some x else o) ≡ (b || is_found o)
test_lem true x o = refl
test_lem false x o = refl

ok_eq : {A : Type 0} (a b : A) → ok a ≡ ok b → a ≡ b
ok_eq a b h = cc

insert_lem :
    (k : String) (x : Host) (s : Hosts)
    → contains_host k (insert (λ h. h.id) x s) ≡ (str_eq x.id k || contains_host k s)
unfolding insert contains_host
insert_lem k x s = ap is_found (lookup-insert x.id k x s) ∙ test_lem (str_eq x.id k) x (lookup k s)

-- A host is in the map just when the list or the map before it has it.
listed_from :
    (k : String) (payload : List Host) (s : Hosts)
    → contains_host k (insert_all (λ x. x.id) payload s)
      ≡ (any (λ h. str_eq h.id k) payload || contains_host k s)
unfolding insert_all any
listed_from k [] s = refl
listed_from k (x ∷ xs) s =
    listed_from k xs (insert (λ h. h.id) x s)
    ∙ ap (λ b. any (λ h. str_eq h.id k) xs || b) (insert_lem k x s)
    ∙ swap_or (any (λ h. str_eq h.id k) xs) (str_eq x.id k) (contains_host k s)

listed_lem :
    (k : String) (payload : List Host)
    → contains_host k (new_hosts_of payload) ≡ any (λ h. str_eq h.id k) payload
unfolding contains_host
listed_lem k payload = listed_from k payload [] ∙ ground arith

module _ {C T : Type 0} (client : TowerClient C T) where
  -- The payload of GetHosts that the hosts of a cluster come from.
  abbrev Payload : String → String → Hosts → Type 0
  Payload cluster datastore hosts =
      (payload : List Host) × Gives
        (client.get_hosts cluster (if str_eq datastore "" then none else some datastore))
        (ok payload)
      × (new_hosts_of payload ≡ hosts)

  made_lem :
      (payload : List Host) (hosts : Hosts) (s : Shared C T)
      → (new_hosts payload s).0 ≡ ok hosts
      → new_hosts_of payload ≡ hosts
  unfolding new_hosts raise pure
  made_lem [] hosts s h = cc
  made_lem (x ∷ xs) hosts s h = ok_eq (new_hosts_of (x ∷ xs)) hosts h

  payload_lem :
      (cluster datastore : String) (hosts : Hosts)
      → Gives (get_hosts_by_cluster client cluster datastore) (ok hosts)
      → Payload cluster datastore hosts
  unfolding get_hosts_by_cluster
  payload_lem cluster datastore hosts (s, e) =
      let mount = if str_eq datastore "" then none else some datastore in
      each_result (λ r. r ≡ ok hosts → Payload cluster datastore hosts)
        (client.get_hosts cluster mount) new_hosts
        (λ payload given s' h. (payload, given, made_lem payload hosts s' h)) (λ x h. cc) s e

module _ {S C T : Type 0} ⦃c : Conditions S⦄ ⦃g : GoCache C Value⦄ (client : TowerClient C T)
    (v : VmService S C T) where
  tower_service-HostsKeyed : (polls : ℕ) → HostsKeyed (tower_service client polls v)
  tower_service-HostsKeyed polls cluster datastore hosts (s, e) =
      subst KeyedHosts e ((hosts_lem client cluster datastore).at s tt).0

  -- What the REST client answered when the machine goes on to join.
  pub record JoinsOnTower (polls : ℕ) (ctx : MachineContext S) (vm : Vm) (group : PlacementGroup)
      : Type 0 where
    pub payload : List Host
    pub payload_given :
        Gives
          (client.get_hosts
            (get_elf_cluster_id ctx)
            (if str_eq ctx.datastore_id "" then none else some ctx.datastore_id))
          (ok payload)
    pub is_listed : any (λ h. str_eq h.id vm.host_id) payload ≡ true
    pub used : List String
    pub used_given :
        Gives (get_hosts_in_placement_group (tower_service client polls v) group) (ok used)
    pub unused : any (str_eq vm.host_id) used ≡ false

  -- With TowerVMService as its service, a control plane machine without a failure domain, whose
  -- virtual machine is not stopped, goes on to join its placement group only if GetHosts of the REST
  -- client has answered, for the cluster and the datastore of the machine, with a list that has the
  -- host of the virtual machine, and none of the virtual machines of the group is on this host.
  pub joins_on_tower :
      (polls : ℕ) (vm : Vm) (group : PlacementGroup) (s : Site S C T)
      → str_eq (get_failure_domain s.ctx) "" ≡ true
      → is_stopped vm ≡ false
      → (place_control_plane (tower_service client polls v) vm group s).0 ≡ ok none
      → JoinsOnTower polls s.ctx vm group
  joins_on_tower polls vm group s f n h =
      let alone =
        joins_alone (tower_service client polls v) (tower_service-HostsKeyed polls) vm group s f n
          h in
      let (payload, given, made) =
        payload_lem client (get_elf_cluster_id s.ctx) s.ctx.datastore_id alone.hosts
          alone.hosts_given in
      record {
        payload = payload;
        payload_given = given;
        is_listed =
            sym (listed_lem vm.host_id payload)
            ∙ ap (contains_host vm.host_id) made
            ∙ alone.is_host;
        used = alone.ids;
        used_given = alone.ids_given;
        unused = alone.unused;
      }
