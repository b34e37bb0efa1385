-- ===== src/Service/Gpus.antt =====
-- The GPU devices, the labels and the clean-up of placement groups in pkg/service/vm.go. The calls of
-- the REST client for them are the record `TowerObjects`.
use cluster_api_provider_elf.Base.{
  String, ◌+++◌, Bool, true, false, List, [], ◌∷◌, map, if◌then◌else◌,
}
use cluster_api_provider_elf.Base.Int.{ℤ}
use cluster_api_provider_elf.Action.{pure, raise, wrap, ◌>>=◌}
use cluster_api_provider_elf.Tower.{
  Task, TaskStatus, failed, GpuUsage, passthrough, vgpu, GpuVmInfo, PlacementGroup,
}
use cluster_api_provider_elf.Collections.{insert_all}
use cluster_api_provider_elf.Gpu.{GpuDeviceInfo}
use cluster_api_provider_elf.Outside.{Call}
use cluster_api_provider_elf.Service.{VmWhere, with_any_id, with_id, first_or}

-- models.VMGpuOperationParams
pub record GpuOperation : Type 0 where
  pub gpu_id : String
  pub amount : ℤ

-- models.GpuDeviceWhereInput: by IDs, or by usage and hosts and whether vGPUs are to be available.
pub data GpuWhere : Type 0 where
  gpus_with_ids : List String → GpuWhere
  gpus_of_hosts : GpuUsage → List String → Bool → GpuWhere

-- models.LabelWhereInput: a key and a value, with or without the condition that nothing has the
-- label; or keys whose labels nothing has since a day.
pub data LabelWhere : Type 0 where
  label_of : String → String → Bool → LabelWhere
  unused_labels : List String → LabelWhere

-- Labels are given by their IDs, and tasks too.
pub record TowerObjects (C T : Type 0) : Type 0 where
  pub add_vm_gpu_device : List GpuOperation → VmWhere → Call C T (List String)
  pub remove_vm_gpu_device : List GpuOperation → VmWhere → Call C T (List String)
  pub get_detail_vm_info : GpuWhere → Call C T (List GpuVmInfo)
  pub get_labels : LabelWhere → Call C T (List String)
  pub create_label : String → String → Call C T (List String)
  pub delete_label : LabelWhere → Call C T (List String)
  pub add_labels_to_resources : List String → VmWhere → Call C T (List String)
  pub groups_with_prefix : String → Call C T (List PlacementGroup)
  pub delete_groups_with_prefix : String → Call C T (List String)
  -- WaitTask, and the timeout as it is printed.
  pub wait_for : String → Call C T Task
  pub timeout_text : String

-- The int32 of the count passes through unchanged.
abbrev pub operation_of : GpuDeviceInfo → GpuOperation
operation_of g = record { gpu_id = g.id; amount = g.allocated_count }

abbrev pub is_vgpu : GpuUsage → Bool
is_vgpu passthrough = false
is_vgpu vgpu = true

abbrev pub has_failed : TaskStatus → Bool
has_failed failed = true
has_failed _ = false

abbrev pub deletion_timeout : String → String → String → String
deletion_timeout prefix timeout task_id =
    "failed to wait for placement groups with name prefix "
    +++ (prefix +++ (" deleting task to complete in " +++ (timeout +++ (": taskID " +++ task_id))))

module _ {C T : Type 0} (client : TowerObjects C T) where
  unfoldable pub remove_gpu_devices : String → List GpuOperation → Call C T String
  unfolding ◌>>=◌ first_or
  remove_gpu_devices id gpus =
      client.remove_vm_gpu_device gpus (with_any_id id) >>= first_or "VM_NOT_FOUND"

  unfoldable pub add_gpu_devices : String → List GpuDeviceInfo → Call C T String
  unfolding ◌>>=◌ first_or
  add_gpu_devices id infos =
      client.add_vm_gpu_device (map operation_of infos) (with_any_id id) >>= first_or "VM_NOT_FOUND"

  unfoldable pub get_gpu_devices_allocation_info_by_ids :
      List String → Call C T (List (String × GpuVmInfo))
  unfolding ◌>>=◌ pure insert_all
  get_gpu_devices_allocation_info_by_ids [] = pure []
  get_gpu_devices_allocation_info_by_ids (id ∷ ids) = do
    infos ← client.get_detail_vm_info (gpus_with_ids (id ∷ ids))
    pure (insert_all (λ g. g.id) infos [])

  unfoldable pub get_gpu_devices_allocation_info_by_host_ids :
      List String → GpuUsage → Call C T (List (String × GpuVmInfo))
  unfolding ◌>>=◌ pure insert_all
  get_gpu_devices_allocation_info_by_host_ids [] usage = pure []
  get_gpu_devices_allocation_info_by_host_ids (id ∷ ids) usage = do
    infos ← client.get_detail_vm_info (gpus_of_hosts usage (id ∷ ids) (is_vgpu usage))
    pure (insert_all (λ g. g.id) infos [])

  -- The label that stands, or else a new one.
  unfoldable pub found_or_created : String → String → List String → Call C T String
  unfolding ◌>>=◌ pure first_or
  found_or_created key value (label ∷ labels) = pure label
  found_or_created key value [] = client.create_label key value >>= first_or "LABEL_CREATE_FAILED"

  unfoldable pub upsert_label : String → String → Call C T String
  unfolding ◌>>=◌ found_or_created
  upsert_label key value =
      client.get_labels (label_of key value false) >>= found_or_created key value

  -- The ID of the label that is deleted, or no text.
  unfoldable pub first_or_empty : List String → Call C T String
  unfolding pure
  first_or_empty [] = pure ""
  first_or_empty (label ∷ labels) = pure label

  unfoldable pub delete_label : String → String → Bool → Call C T String
  unfolding ◌>>=◌ first_or_empty
  delete_label key value strict = client.delete_label (label_of key value strict) >>= first_or_empty

  unfoldable pub clean_unused_labels : List String → Call C T (List String)
  clean_unused_labels keys = client.delete_label (unused_labels keys)

  unfoldable pub add_labels_to_vm : String → List String → Call C T String
  unfolding ◌>>=◌ first_or
  add_labels_to_vm vm_id labels =
      client.add_labels_to_resources labels (with_id vm_id) >>= first_or "LABEL_ADD_FAILED"

  -- The wait for the first task of a deletion. An error takes the place of the names.
  unfoldable pub deletion_started : String → List String → List String → Call C T (List String)
  unfolding ◌>>=◌ pure raise wrap
  deletion_started prefix names [] = pure names
  deletion_started prefix names (task_id ∷ task_ids) = do
    task ← wrap (deletion_timeout prefix client.timeout_text task_id) (client.wait_for task_id)
    (if has_failed task.status
        then raise (
            "failed to delete placement groups with name prefix "
            +++ (prefix +++ (" in task " +++ task.id)))
        else pure names)

  -- The groups that Tower still has, which are deleted.
  unfoldable pub delete_found_groups : String → List PlacementGroup → Call C T (List String)
  unfolding ◌>>=◌ pure deletion_started
  delete_found_groups prefix [] = pure []
  delete_found_groups prefix (group ∷ groups) = do
    task_ids ← client.delete_groups_with_prefix prefix
    deletion_started prefix (map (λ x. x.name) (group ∷ groups)) task_ids

  unfoldable pub delete_vm_placement_groups_by_name_prefix : String → Call C T (List String)
  unfolding ◌>>=◌ delete_found_groups
  delete_vm_placement_groups_by_name_prefix prefix =
      client.groups_with_prefix prefix >>= delete_found_groups prefix
