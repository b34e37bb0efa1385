-- ===== src/Messages.antt =====
-- pkg/service/errors.go and the task kinds of pkg/service/util.go: what the controllers read out of
-- the messages and the descriptions that Tower gives its tasks.
use Prim.Native.Char.{code}
use cluster_api_provider_elf.Base.{
  ℕ, String, ◌+++◌, Bool, ◌&&◌, ◌||◌, Option, none, some, contains, has_prefix, str_eq,
  if◌then◌else◌, ◌==◌, leb,
}
use cluster_api_provider_elf.Tower.{Task}

abbrev pub get_tower_string : Option String → String
get_tower_string none = ""
get_tower_string (some s) = s

unfoldable pub is_task_not_found : String → Bool
is_task_not_found e = contains e "TASK_NOT_FOUND"

unfoldable pub is_vm_not_found : String → Bool
is_vm_not_found e = contains e "VM_NOT_FOUND"

unfoldable pub is_shut_down_timeout : String → Bool
is_shut_down_timeout message = contains message "JOB_VM_SHUTDOWN_TIMEOUT"

unfoldable pub is_vm_placement_group_not_found : String → Bool
is_vm_placement_group_not_found e = contains e "VM_PLACEMENT_GROUP_NOT_FOUND"

unfoldable pub is_vm_placement_group_duplicate : String → Bool
is_vm_placement_group_duplicate message = contains message "PLACEMENT_GROUP_DUPLICATE_NAME"

unfoldable pub is_vm_duplicate : String → Bool
is_vm_duplicate e = contains e "VM_DUPLICATE"

unfoldable pub is_vm_duplicate_error : String → Bool
is_vm_duplicate_error message = contains message "VM_DUPLICATED_NAME"

unfoldable pub is_gpu_assign_failed : String → Bool
is_gpu_assign_failed message = contains message "GPU_ASSIGN_FAILED"

unfoldable pub is_cloud_init_config_error : String → Bool
is_cloud_init_config_error message = contains message "VM_CLOUD_INIT_CONFIG_ERROR"

unfoldable pub is_storage_insufficient_error : String → Bool
is_storage_insufficient_error message = contains message "EAllocSpace"

unfoldable pub is_memory_insufficient_error : String → Bool
is_memory_insufficient_error message = contains message "HostAvailableMemoryFilter"

unfoldable pub is_placement_group_must_error : String → Bool
is_placement_group_must_error message = contains message "PlacementGroupMustFilter"

unfoldable pub is_placement_group_prior_error : String → Bool
is_placement_group_prior_error message = contains message "PlacementGroupPriorFilter"

unfoldable pub is_placement_group_error : String → Bool
unfolding is_placement_group_must_error is_placement_group_prior_error
is_placement_group_error message =
    contains message "PlacementGroupFilter"
    || (is_placement_group_must_error message || is_placement_group_prior_error message)

-- `message[i:]` at `i = strings.LastIndex(message, text)`, for a text that is not empty.
unfoldable pub from_last : String → String → Option String
from_last text String.[] = none
from_last text (String.◌∷◌ c s) =
    let later = from_last text s in
    elim later [
      | some r ↦ some r
      | none ↦ if has_prefix (String.◌∷◌ c s) text then some (String.◌∷◌ c s) else none
    ]

unfoldable pub parse_gpu_assign_failed : String → String
unfolding from_last
parse_gpu_assign_failed message = elim (from_last "GPU_ASSIGN_FAILED" message) [
  | none ↦ message
  | some r ↦ r
]

-- What follows a text that is as long as `text`.
unfoldable pub drop_text : String → String → String
drop_text String.[] s = s
drop_text (String.◌∷◌ c t) String.[] = ""
drop_text (String.◌∷◌ c t) (String.◌∷◌ d s) = drop_text t s

-- strings.TrimRight by the characters that pass `p`.
unfoldable pub trim_right : (ℕ → Bool) → String → String
trim_right p String.[] = ""
trim_right p (String.◌∷◌ c s) =
    let rest = trim_right p s in if str_eq rest "" && p (code c) then "" else String.◌∷◌ c rest

unfoldable pub trim_left : (ℕ → Bool) → String → String
trim_left p String.[] = ""
trim_left p (String.◌∷◌ c s) =
    let rest = trim_left p s in if p (code c) then rest else String.◌∷◌ c s

-- unicode.IsSpace
abbrev pub is_space : ℕ → Bool
is_space c =
    (leb 9 c && leb c 13)
    || ((c == 32)
        || ((c == 133)
            || ((c == 160)
                || ((c == 5760)
                    || ((leb 8192 c && leb c 8202)
                        || ((c == 8232)
                            || ((c == 8233) || ((c == 8239) || ((c == 8287) || (c == 12288))))))))))

unfoldable pub format_cloud_init_error : String → String
unfolding from_last drop_text trim_right trim_left
format_cloud_init_error message = elim (from_last "[VM_CLOUD_INIT_CONFIG_ERROR]" message) [
  | none ↦ message
  | some r ↦
      let msg = trim_right (λ c. c == b'}') (drop_text "[VM_CLOUD_INIT_CONFIG_ERROR]" r) in
      let msg = trim_right (λ c. c == 34) msg in
      let msg = trim_right (λ c. c == 92) msg in trim_left is_space (trim_right is_space msg)
]

unfoldable pub is_clone_vm_task : Task → Bool
is_clone_vm_task task = contains (get_tower_string task.description) "Create a VM"

unfoldable pub is_power_on_vm_task : Task → Bool
is_power_on_vm_task task = contains (get_tower_string task.description) "Start VM"

unfoldable pub is_update_vm_task : Task → Bool
is_update_vm_task task = contains (get_tower_string task.description) "Edit VM"

unfoldable pub is_update_vm_disk_task : Task → String → Bool
is_update_vm_disk_task task vm_name =
    str_eq (get_tower_string task.description) ("Edit VM " +++ (vm_name +++ " disk"))
    || contains (get_tower_string task.description) "Update virtual volume"

unfoldable pub is_vm_cold_migration_task : Task → Bool
is_vm_cold_migration_task task =
    contains (get_tower_string task.description) "performing a cold migration"
