-- ===== src/Reasons.antt =====
-- api/v1beta1/conditions_consts.go: the condition types and reasons that the modelled code names.
use cluster_api_provider_elf.Base.{String}

abbrev pub vm_provisioned_condition : String
vm_provisioned_condition = "VMProvisioned"

abbrev pub waiting_for_cluster_infrastructure_reason : String
waiting_for_cluster_infrastructure_reason = "WaitingForClusterInfrastructure"

abbrev pub waiting_for_bootstrap_data_reason : String
waiting_for_bootstrap_data_reason = "WaitingForBootstrapData"

abbrev pub waiting_for_static_ip_allocation_reason : String
waiting_for_static_ip_allocation_reason = "WaitingForStaticIPAllocation"

abbrev pub cloning_reason : String
cloning_reason = "Cloning"

abbrev pub updating_reason : String
updating_reason = "Updating"

abbrev pub powering_on_reason : String
powering_on_reason = "PoweringOn"

abbrev pub power_off_reason : String
power_off_reason = "PoweringOff"

abbrev pub shutting_down_reason : String
shutting_down_reason = "ShuttingDown"

abbrev pub powering_on_failed_reason : String
powering_on_failed_reason = "PoweringOnFailed"

abbrev pub powering_off_failed_reason : String
powering_off_failed_reason = "PoweringOffFailed"

abbrev pub shutting_down_failed_reason : String
shutting_down_failed_reason = "ShuttingDownFailed"

abbrev pub cloning_failed_reason : String
cloning_failed_reason = "CloningFailed"

abbrev pub updating_failed_reason : String
updating_failed_reason = "UpdatingFailed"

abbrev pub detaching_gpu_failed_reason : String
detaching_gpu_failed_reason = "DetachingGPUFailed"

abbrev pub attaching_gpu_failed_reason : String
attaching_gpu_failed_reason = "AttachingGPUFailed"

abbrev pub task_failure_reason : String
task_failure_reason = "TaskFailure"

abbrev pub waiting_for_network_addresses_reason : String
waiting_for_network_addresses_reason = "WaitingForNetworkAddresses"

abbrev pub waiting_for_network_mac_address_reason : String
waiting_for_network_mac_address_reason = "WaitingForNetworkMacAddress"

abbrev pub joining_placement_group_reason : String
joining_placement_group_reason = "JoiningPlacementGroup"

abbrev pub joining_placement_group_failed_reason : String
joining_placement_group_failed_reason = "JoiningPlacementGroupFailed"

abbrev pub waiting_for_placement_group_policy_satisfied_reason : String
waiting_for_placement_group_policy_satisfied_reason = "WaitingForPlacementGroupPolicySatisfied"

abbrev pub waiting_for_elf_cluster_with_sufficient_memory_reason : String
waiting_for_elf_cluster_with_sufficient_memory_reason = "WaitingForELFClusterWithSufficientMemory"

abbrev pub waiting_for_elf_cluster_with_sufficient_storage_reason : String
waiting_for_elf_cluster_with_sufficient_storage_reason = "WaitingForELFClusterWithSufficientStorage"

abbrev pub waiting_for_available_host_required_by_placement_group_reason : String
waiting_for_available_host_required_by_placement_group_reason =
    "WaitingForAvailableHostRequiredByPlacementGroup"

abbrev pub selecting_gpu_failed_reason : String
selecting_gpu_failed_reason = "SelectingGPUFailed"

abbrev pub waiting_for_available_host_with_enough_gpus_reason : String
waiting_for_available_host_with_enough_gpus_reason = "WaitingForAvailableHostWithEnoughGPUs"

abbrev pub resources_hot_updated_condition : String
resources_hot_updated_condition = "ResourceHotUpdated"

abbrev pub expanding_vm_disk_reason : String
expanding_vm_disk_reason = "ExpandingVMDisk"

abbrev pub expanding_vm_disk_failed_reason : String
expanding_vm_disk_failed_reason = "ExpandingVMDiskFailed"

abbrev pub expanding_root_partition_reason : String
expanding_root_partition_reason = "ExpandingRootPartition"

abbrev pub expanding_root_partition_failed_reason : String
expanding_root_partition_failed_reason = "ExpandingRootPartitionFailed"

abbrev pub expanding_vm_compute_resources_reason : String
expanding_vm_compute_resources_reason = "ExpandingVMComputeResources"

abbrev pub expanding_vm_compute_resources_failed_reason : String
expanding_vm_compute_resources_failed_reason = "ExpandingVMComputeResourcesFailed"

abbrev pub restarting_kubelet_reason : String
restarting_kubelet_reason = "RestartingKubelet"

abbrev pub restarting_kubelet_failed_reason : String
restarting_kubelet_failed_reason = "RestartingKubeletFailed"

abbrev pub adding_vm_network_device_reason : String
adding_vm_network_device_reason = "AddingVMNetworkDevice"

abbrev pub adding_vm_network_device_failed_reason : String
adding_vm_network_device_failed_reason = "AddingVMNetworkDeviceFailed"

abbrev pub setting_vm_network_device_config_reason : String
setting_vm_network_device_config_reason = "SettingVMNetworkDeviceConfig"

abbrev pub setting_vm_network_device_config_failed_reason : String
setting_vm_network_device_config_failed_reason = "SettingVMNetworkDeviceConfigFailed"

abbrev pub tower_available_condition : String
tower_available_condition = "TowerAvailable"

abbrev pub tower_unreachable_reason : String
tower_unreachable_reason = "TowerUnreachable"

abbrev pub control_plane_endpoint_ready_condition : String
control_plane_endpoint_ready_condition = "ControlPlaneEndpointReady"

abbrev pub waiting_for_vip_reason : String
waiting_for_vip_reason = "WaitingForVIP"
