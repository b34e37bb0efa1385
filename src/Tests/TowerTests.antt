-- ===== src/Tests/TowerTests.antt =====
-- A REST client that gives the same answers always, but that a task is under way until the time 3.
use cluster_api_provider_elf.Base.{any, ◌≡◌, refl, ℕ, ◌+◌, ltb, if◌then◌else◌, [], ◌∷◌, none, ok}
use cluster_api_provider_elf.Cache.Assoc.{assoc_cache}
use cluster_api_provider_elf.Conditions.{list_conditions}
use cluster_api_provider_elf.Tower.{running, Task, executing, successed}
use cluster_api_provider_elf.Outside.{Shared}
use cluster_api_provider_elf.PlacementGroup.Join.{place_control_plane}
use cluster_api_provider_elf.Service.Joins.{JoinsOnTower, joins_on_tower}
use cluster_api_provider_elf.Context.{get_failure_domain}
use cluster_api_provider_elf.Base.Dict.{insert}
use cluster_api_provider_elf.Base.Int.{int64, ◌*ℤ◌}
use cluster_api_provider_elf.Service.{
  TowerClient, wait_task, get_task, first_or, new_hosts, get_hosts_by_cluster, find_by_ids,
}
use cluster_api_provider_elf.Service.Laws.{at_once, later, wait_task_ended}
use cluster_api_provider_elf.Service.Gpus.{
  TowerObjects, delete_vm_placement_groups_by_name_prefix, delete_found_groups, deletion_started,
}
use cluster_api_provider_elf.Service.Prefix.{no_names_left}
use cluster_api_provider_elf.Tests.HistoryTests.{Entries, empty_memory}
use cluster_api_provider_elf.Tests.TaskTests.{host}
use cluster_api_provider_elf.Tests.ServiceTests.{answer, service, group, control_plane, vm_on, site}

abbrev task_at : ℕ → Task
task_at now = record {
  id = "task";
  status = if ltb now 3 then executing else successed;
  description = none;
  error_message = none;
}

abbrev client : TowerClient Entries ℕ
client = record {
  get_vms = λ w. answer [];
  update_vm = λ d w. answer ("task" ∷ []);
  migrate_vm = λ h w. answer ("task" ∷ []);
  delete_vm = λ w. answer ("task" ∷ []);
  poweroff_vm = λ w. answer ("task" ∷ []);
  start_vm = λ h w. answer ("task" ∷ []);
  shut_down_vm = λ w. answer ("task" ∷ []);
  add_vm_nic = λ n w. answer ("task" ∷ []);
  get_vm_nics = λ w. answer [];
  get_vm_disks = λ i. answer [];
  get_vm_volumes = λ i. answer [];
  update_vm_volume = λ z i. answer ("task" ∷ []);
  get_tasks = λ i s. (ok (task_at s.outside ∷ []), s);
  get_vlans = λ i. answer ("vlan" ∷ []);
  get_clusters = λ i. answer ("cluster" ∷ []);
  get_hosts = λ c d. answer (host "a" 10 ∷ host "b" 20 ∷ host "a" 30 ∷ []);
  get_vm_placement_groups = λ w. answer (group ∷ []);
  create_vm_placement_group = λ n c p. answer ("task" ∷ []);
  update_vm_placement_group = λ g i. answer ("task" ∷ []);
  delete_vm_placement_group = λ w. answer ("task" ∷ []);
  sleep = λ s. (ok tt, record s { outside = 2 + s.outside });
}

abbrev shared_at : ℕ → Shared Entries ℕ
shared_at now = record { memory = empty_memory; locks = []; outside = now }

wait_task_ended_example : wait_task client 2 "task" (shared_at 1) ≡ (ok (task_at 3), shared_at 3)
unfolding get_task first_or
wait_task_ended_example =
    (wait_task_ended client 2 "task" (shared_at 1)).1 1 (task_at 3) (shared_at 3)
      (later refl refl refl (at_once refl refl)) refl

joins_on_tower_example : JoinsOnTower client service 5 control_plane (vm_on "a" running) group
unfolding place_control_plane get_failure_domain int64 ◌*ℤ◌ insert any first_or new_hosts
    get_hosts_by_cluster find_by_ids
joins_on_tower_example =
    joins_on_tower client service 5 (vm_on "a" running) group (site control_plane empty_memory) refl
      refl refl

-- No group is left.
abbrev objects : TowerObjects Entries ℕ
objects = record {
  add_vm_gpu_device = λ g w. answer ("task" ∷ []);
  remove_vm_gpu_device = λ g w. answer ("task" ∷ []);
  get_detail_vm_info = λ w. answer [];
  get_labels = λ w. answer [];
  create_label = λ k x. answer ("label" ∷ []);
  delete_label = λ w. answer [];
  add_labels_to_resources = λ l w. answer ("task" ∷ []);
  groups_with_prefix = λ p s. (ok (if ltb s.outside 3 then group ∷ [] else []), s);
  delete_groups_with_prefix = λ p. answer ("task" ∷ []);
  wait_for = λ i s. (ok (task_at 3), record s { outside = 3 });
  timeout_text = "10s";
}

-- The first call deletes, and gives the name.
first_call :
    delete_vm_placement_groups_by_name_prefix objects "cape" (shared_at 1)
    ≡ (ok ("group" ∷ []), shared_at 3)
unfolding delete_vm_placement_groups_by_name_prefix delete_found_groups deletion_started
first_call = refl

no_names_left_example : (objects.groups_with_prefix "cape" (shared_at 3)).0 ≡ ok []
unfolding delete_vm_placement_groups_by_name_prefix delete_found_groups
no_names_left_example = no_names_left objects "cape" (shared_at 3) refl
