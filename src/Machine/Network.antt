-- ===== src/Machine/Network.antt =====
-- The network devices of an ElfMachine (api/v1beta1/types.go, api/v1beta1/elfmachine_types.go): which
-- of them need an address, and the name servers that a machine is given.
use cluster_api_provider_elf.Base.{
  ℕ, suc, ◌-◌, String, Bool, true, false, not, ◌&&◌, List, [], ◌∷◌, ◌++◌, length, take, ltb, ◌==◌,
  filter, any, str_eq, if◌then◌else◌,
}
use cluster_api_provider_elf.Machine.{NetworkType, NetworkDeviceSpec, NetworkSpec}

abbrev pub is_ipv4 : NetworkType → Bool
is_ipv4 NetworkType.ipv4 = true
is_ipv4 _ = false

abbrev pub is_dhcp : NetworkType → Bool
is_dhcp NetworkType.ipv4_dhcp = true
is_dhcp _ = false

abbrev pub is_none : NetworkType → Bool
is_none NetworkType.none_type = true
is_none _ = false

abbrev pub lacks_static_ip : NetworkDeviceSpec → Bool
lacks_static_ip d = is_ipv4 d.network_type && (length d.ip_addrs == 0)

-- The loop of RequiresStaticIPs, and that of isWaitingForStaticIPAllocation.
unfoldable pub requires_static_ips : List NetworkDeviceSpec → Bool
requires_static_ips [] = false
requires_static_ips (d ∷ ds) = if lacks_static_ip d then true else requires_static_ips ds

-- The index of the first device with a default route; 0 without one. `i` counts the loop.
unfoldable pub default_route_from : ℕ → List NetworkDeviceSpec → ℕ
default_route_from i [] = 0
default_route_from i (d ∷ ds) = if d.default_route then i else default_route_from (suc i) ds

unfoldable pub get_default_route_device_index : List NetworkDeviceSpec → ℕ
unfolding default_route_from
get_default_route_device_index = default_route_from 0

unfoldable pub get_network_devices_requiring_ip : List NetworkDeviceSpec → List NetworkDeviceSpec
get_network_devices_requiring_ip = filter (λ d. not (is_none d.network_type))

unfoldable pub get_network_devices_requiring_dhcp : List NetworkDeviceSpec → List NetworkDeviceSpec
get_network_devices_requiring_dhcp = filter (λ d. is_dhcp d.network_type)

unfoldable pub is_machine_static_ip : String → List NetworkDeviceSpec → Bool
is_machine_static_ip ip =
    any (λ d. is_ipv4 d.network_type && any (λ static_ip. str_eq ip static_ip) d.ip_addrs)

-- The name servers of the device at an index; none past the end.
unfoldable pub nameservers_at : ℕ → List NetworkDeviceSpec → List String
nameservers_at n [] = []
nameservers_at n (d ∷ ds) = if n == 0 then d.nameservers else nameservers_at (n - 1) ds

-- The name servers of every device but the one at index `skip`; `i` counts the loop.
unfoldable pub other_nameservers : ℕ → ℕ → List NetworkDeviceSpec → List String
other_nameservers skip i [] = []
other_nameservers skip i (d ∷ ds) =
    (if i == skip then [] else d.nameservers) ++ other_nameservers skip (suc i) ds

-- The loop that keeps the first of equal name servers; `seen` is nameserverSet.
unfoldable pub distinct_from : List String → List String → List String
distinct_from seen [] = []
distinct_from seen (n ∷ ns) =
    if any (str_eq n) seen then distinct_from seen ns else n ∷ distinct_from (n ∷ seen) ns

-- All name servers in the order of preference.
unfoldable pub all_nameservers : NetworkSpec → List String
unfolding nameservers_at other_nameservers
all_nameservers n =
    let index = get_default_route_device_index n.devices in
    n.nameservers ++ (nameservers_at index n.devices ++ other_nameservers index 0 n.devices)

unfoldable pub get_limited_nameservers : ℕ → NetworkSpec → List String
unfolding distinct_from
get_limited_nameservers limit n =
    let limited = distinct_from [] (all_nameservers n) in
    let count = if ltb (length limited) limit then length limited else limit in take count limited
