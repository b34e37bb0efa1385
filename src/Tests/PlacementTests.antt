-- ===== src/Tests/PlacementTests.antt =====
-- Placement groups, run on the service of the tests.
use cluster_api_provider_elf.Base.{
  ◌≡◌, refl, subst, not, ◌&&◌, ◌||◌, [], ◌∷◌, none, some, ok, err, Result, any,
}
use cluster_api_provider_elf.Base.Dict.{IsMap, insert}
use cluster_api_provider_elf.Base.Int.{pos, int64, ◌*ℤ◌}
use cluster_api_provider_elf.Cache.Assoc.{assoc_cache, get}
use cluster_api_provider_elf.Conditions.{list_conditions}
use cluster_api_provider_elf.Memory.{Memory}
use cluster_api_provider_elf.Kubernetes.{get_placement_group_name, get_kcp_name_by_machine}
use cluster_api_provider_elf.Collections.{IsKeyed}
use cluster_api_provider_elf.Hosts.{Hosts, contains_host, filter_available_hosts_with_enough_memory}
use cluster_api_provider_elf.Limiter.{acquire_ticket_for_placement_group_operation}
use cluster_api_provider_elf.Tower.{running}
use cluster_api_provider_elf.Uuid.{is_uuid}
use cluster_api_provider_elf.Uuid.ProviderId.{
  convert_provider_id_to_uuid, convert_uuid_to_provider_id, provider_id_round_trip,
}
use cluster_api_provider_elf.Context.{get_failure_domain}
use cluster_api_provider_elf.PlacementGroup.{group_name}
use cluster_api_provider_elf.PlacementGroup.Room.{get_available_hosts_for_vm}
use cluster_api_provider_elf.PlacementGroup.Room.Laws.{stays_on, available_hosts_exact}
use cluster_api_provider_elf.PlacementGroup.Join.{join_placement_group, place_control_plane}
use cluster_api_provider_elf.PlacementGroup.Join.Ticket.{ticket_at, join_gives_back}
use cluster_api_provider_elf.PlacementGroup.Join.Room.{JoinsAlone, HostsKeyed, joins_alone}
use cluster_api_provider_elf.PlacementGroup.PreCheck.{pre_check_placement_group}
use cluster_api_provider_elf.PlacementGroup.PreCheck.Laws.{NamedHost, pre_check_names}
use cluster_api_provider_elf.Tests.HistoryTests.{Entries, empty_memory}
use cluster_api_provider_elf.Tests.TaskTests.{ctx, host}
use cluster_api_provider_elf.Tests.ServiceTests.{
  uuid, vm_on, group, hosts, service, control_plane, site,
}

provider_id_round_trip_example :
    convert_provider_id_to_uuid (some (convert_uuid_to_provider_id uuid)) ≡ uuid
unfolding is_uuid
provider_id_round_trip_example = provider_id_round_trip uuid refl

-- The host `a` has no memory for the machine, which runs there.
available_hosts_exact_example :
    contains_host "a" (
      get_available_hosts_for_vm
        (pos 20)
        hosts
        (("b", host "b" 5000000000) ∷ [])
        (some (vm_on "a" running)))
    ≡ (not (contains_host "a" (("b", host "b" 5000000000) ∷ []))
        && (contains_host "a" (filter_available_hosts_with_enough_memory (pos 20) hosts)
            || stays_on (some (vm_on "a" running)) "a" hosts))
available_hosts_exact_example =
    available_hosts_exact hosts ((refl, tt), (tt, tt)) (refl, (refl, tt)) (pos 20)
      (("b", host "b" 5000000000) ∷ []) (some (vm_on "a" running)) "a"

join_gives_back_example :
    ticket_at 50 "group"
      (join_placement_group service (vm_on "a" running) (site ctx empty_memory)).1
    ≡ none
unfolding group_name get_placement_group_name get
join_gives_back_example =
    join_gives_back service (vm_on "a" running) "group" (site ctx empty_memory)
      (site ctx empty_memory) 50 refl

-- Another reconcile holds the ticket.
abbrev held : Memory Entries
held = (acquire_ticket_for_placement_group_operation 5 "group" empty_memory).1

hosts_of : Result Hosts → Hosts
hosts_of (ok h) = h
hosts_of (err e) = []

service-HostsKeyed : HostsKeyed service
unfolding hosts_of
service-HostsKeyed cluster datastore h (s, e) =
    subst (λ r. IsMap (hosts_of r) × IsKeyed (λ x. x.id) (hosts_of r)) e
      (((refl, tt), (tt, tt)), (refl, (refl, tt)))

joins_alone_example : JoinsAlone service control_plane (vm_on "a" running) group
unfolding place_control_plane get_failure_domain int64 ◌*ℤ◌ insert any
joins_alone_example =
    joins_alone service service-HostsKeyed (vm_on "a" running) group
      (site control_plane empty_memory) refl refl refl

pre_check_names_example : NamedHost service control_plane "b"
unfolding pre_check_placement_group get_kcp_name_by_machine get int64 ◌*ℤ◌ any
pre_check_names_example = pre_check_names service (site control_plane empty_memory) "b" refl refl
