-- ===== src/Hosts.antt =====
-- The sets of hosts of pkg/service/collections.go and IsAvailableHost of pkg/service/util.go: which
-- hosts can take a virtual machine.
pub mod Laws
use cluster_api_provider_elf.Base.{
  ℕ, String, Bool, true, false, not, ◌&&◌, ◌||◌, Option, none, some, List, [], ◌∷◌, map, length,
  any, ◌==◌, str_eq, if◌then◌else◌,
}
use cluster_api_provider_elf.Base.Dict.{lookup}
use cluster_api_provider_elf.Base.Int.{ℤ, pos, ltb_ℤ}
use cluster_api_provider_elf.Tower.{
  HostStatus, connected_error, session_expired, initializing, MaintenanceMode, maintenance_mode,
  entering_maintenance_mode, Host,
}
use cluster_api_provider_elf.Collections.{filter_by, unsorted_list}

-- service.Hosts, as a map by ID.
abbrev pub Hosts : Type 0
Hosts = List (String × Host)

-- The message of IsAvailableHost, before it is formatted.
pub data Unavailable : Type 0 where
  silent : Unavailable
  in_status : HostStatus → Unavailable
  in_state : MaintenanceMode → Unavailable
  insufficient_memory : ℤ → ℤ → Unavailable

abbrev pub is_faulted : HostStatus → Bool
is_faulted connected_error = true
is_faulted session_expired = true
is_faulted initializing = true
is_faulted _ = false

abbrev pub is_maintained : MaintenanceMode → Bool
is_maintained maintenance_mode = true
is_maintained entering_maintenance_mode = true
is_maintained _ = false

-- The tests after that of the status.
unfoldable pub check_state_and_memory : Host → ℤ → Bool × Unavailable
check_state_and_memory h memory =
    let by_memory : Bool × Unavailable =
      if ltb_ℤ (pos 0) memory && ltb_ℤ h.allocatable_memory_bytes memory
      then (false, insufficient_memory memory h.allocatable_memory_bytes)
      else (true, silent) in
    elim h.host_state [
      | none ↦ by_memory
      | some state ↦ if is_maintained state then (false, in_state state) else by_memory
    ]

unfoldable pub is_available_host : Option Host → ℤ → Bool × Unavailable
unfolding check_state_and_memory
is_available_host none memory = (false, silent)
is_available_host (some h) memory = elim h.status [
  | none ↦ (false, silent)
  | some status ↦
      if is_faulted status then (false, in_status status) else check_state_and_memory h memory
]

abbrev pub is_found : Option Host → Bool
is_found none = false
is_found (some h) = true

unfoldable pub contains_host : String → Hosts → Bool
unfolding lookup
contains_host id s = is_found (lookup id s)

unfoldable pub len : Hosts → ℕ
len s = length s

unfoldable pub is_empty : Hosts → Bool
is_empty s = length s == 0

unfoldable pub get_host : String → Hosts → Option Host
unfolding lookup
get_host id s = lookup id s

unfoldable pub filter_available_hosts_with_enough_memory : ℤ → Hosts → Hosts
unfolding is_available_host filter_by
filter_available_hosts_with_enough_memory memory s =
    filter_by (λ h. h.id) ((λ h. (is_available_host (some h) memory).0) ∷ []) s

unfoldable pub filter_unavailable_hosts_or_without_enough_memory : ℤ → Hosts → Hosts
unfolding is_available_host filter_by
filter_unavailable_hosts_or_without_enough_memory memory s =
    filter_by (λ h. h.id) ((λ h. not (is_available_host (some h) memory).0) ∷ []) s

-- `targets` is the set of IDs.
unfoldable pub find : List String → Hosts → Hosts
unfolding filter_by
find targets s = filter_by (λ h. h.id) ((λ h. any (str_eq h.id) targets) ∷ []) s

unfoldable pub difference : Hosts → Hosts → Hosts
unfolding filter_by contains_host
difference s hosts = filter_by (λ h. h.id) ((λ h. not (contains_host h.id hosts)) ∷ []) s

unfoldable pub ids : Hosts → List String
unfolding unsorted_list
ids s = map (λ h. h.id) (unsorted_list s)
