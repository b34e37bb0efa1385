-- ===== src/PlacementGroup/Room.antt =====
-- The hosts of a placement group, and the hosts that can take one more virtual machine of it
-- (getHostsInPlacementGroup and getAvailableHostsForVM of
-- controllers/elfmachine_controller_placement_group.go, GetVMsInPlacementGroup of
-- pkg/service/util.go).
pub mod Laws
use cluster_api_provider_elf.Base.{
  String, Bool, true, false, not, ◌&&◌, ◌||◌, Option, none, some, List, [], ◌∷◌, any, str_eq,
  if◌then◌else◌,
}
use cluster_api_provider_elf.Base.Int.{ℤ, pos}
use cluster_api_provider_elf.Action.{pure, ◌>>=◌}
use cluster_api_provider_elf.Tower.{
  PlacementGroup, NestedVm, Vm, VmStatus, running, stopped, suspended, Host,
}
use cluster_api_provider_elf.Collections.{insert}
use cluster_api_provider_elf.Hosts.{
  Hosts, contains_host, get_host, is_available_host, difference,
  filter_available_hosts_with_enough_memory,
}
use cluster_api_provider_elf.Outside.{VmService, Reconcile, ask}

-- A set of texts, as the list of its members.
abbrev pub add_member : String → List String → List String
add_member x xs = if any (str_eq x) xs then xs else x ∷ xs

abbrev pub members : List String → List String
members [] = []
members (x ∷ xs) = add_member x (members xs)

abbrev pub vm_ids : List NestedVm → List String
vm_ids [] = []
vm_ids (x ∷ xs) = x.id ∷ vm_ids xs

unfoldable pub get_vms_in_placement_group : PlacementGroup → List String
get_vms_in_placement_group group = members (vm_ids group.vms)

abbrev pub host_ids : List Vm → List String
host_ids [] = []
host_ids (x ∷ xs) = x.host_id ∷ host_ids xs

module _ {S C T : Type 0} (v : VmService S C T) where
  unfoldable pub get_hosts_in_placement_group : PlacementGroup → Reconcile S C T (List String)
  unfolding ◌>>=◌ pure ask get_vms_in_placement_group
  get_hosts_in_placement_group group = do
    vms ← ask (v.find_by_ids (get_vms_in_placement_group group))
    pure (members (host_ids vms))

-- The code reads the status only of a virtual machine that has one.
abbrev pub is_running : Vm → Bool
is_running vm = elim vm.status [ some running ↦ true | _ ↦ false ]

abbrev pub is_stopped : Vm → Bool
is_stopped vm = elim vm.status [ some stopped ↦ true | _ ↦ false ]

abbrev pub is_suspended : Vm → Bool
is_suspended vm = elim vm.status [ some suspended ↦ true | _ ↦ false ]

-- The virtual machine may stay on its own host, whatever memory that host has left.
unfoldable pub keep_own_host : Hosts → Option Host → Hosts → Hosts
unfolding is_available_host contains_host insert
keep_own_host used none available = available
keep_own_host used (some host) available =
    if (is_available_host (some host) (pos 0)).0 && not (contains_host host.id used)
    then insert (λ h. h.id) host available
    else available

-- `memory` is the memory that the virtual machine needs, in bytes.
unfoldable pub get_available_hosts_for_vm : ℤ → Hosts → Hosts → Option Vm → Hosts
unfolding difference filter_available_hosts_with_enough_memory keep_own_host contains_host get_host
get_available_hosts_for_vm memory hosts used none =
    difference (filter_available_hosts_with_enough_memory memory hosts) used
get_available_hosts_for_vm memory hosts used (some vm) =
    let available = difference (filter_available_hosts_with_enough_memory memory hosts) used in
    if (is_running vm || is_suspended vm) && not (contains_host vm.host_id available)
    then keep_own_host used (get_host vm.host_id hosts) available
    else available
