-- ===== src/Tower.antt =====
-- The objects that the Tower API returns (models of cloudtower-go-sdk, which is not part of the
-- repository), with the fields that the controllers read. A pointer field that the code reads
-- without a test is a plain value.
use cluster_api_provider_elf.Base.{String, Option, Bool, List}
use cluster_api_provider_elf.Base.Int.{ℤ}

pub data VmStatus : Type 0 where
  running stopped suspended deleted unknown : VmStatus

pub data GpuUsage : Type 0 where
  passthrough vgpu : GpuUsage

-- models.GpuVMDetail
pub record GpuVmDetail : Type 0 where
  pub name : String
  pub status : VmStatus
  pub in_recycle_bin : Option Bool

-- models.GpuVMInfo
pub record GpuVmInfo : Type 0 where
  pub id : String
  pub host_id : String
  pub model : String
  pub user_vgpu_type_name : String
  pub user_usage : GpuUsage
  pub available_vgpus_num : ℤ
  pub vms : List GpuVmDetail

-- models.NestedVM
pub record NestedVm : Type 0 where
  pub id : String
  pub name : String

-- models.VMPlacementGroup
pub record PlacementGroup : Type 0 where
  pub id : String
  pub name : String
  pub local_id : String
  pub entity_async_status : Bool
  pub vms : List NestedVm

-- models.VMVMPolicy
pub data VmPolicy : Type 0 where
  must_different prefer_different : VmPolicy

pub data HostStatus : Type 0 where
  connected_healthy connected_error connecting session_expired initializing : HostStatus

pub data MaintenanceMode : Type 0 where
  in_use maintenance_mode entering_maintenance_mode : MaintenanceMode

-- models.Host
pub record Host : Type 0 where
  pub id : String
  pub status : Option HostStatus
  pub host_state : Option MaintenanceMode
  pub allocatable_memory_bytes : ℤ

pub data TaskStatus : Type 0 where
  executing failed paused pending successed : TaskStatus

-- models.Task
pub record Task : Type 0 where
  pub id : String
  pub status : TaskStatus
  pub description : Option String
  pub error_message : Option String

-- models.VM. `entity_async_status` is whether the pointer is set: an operation is under way.
pub record Vm : Type 0 where
  pub id : String
  pub local_id : String
  pub name : String
  pub status : Option VmStatus
  pub entity_async_status : Bool
  pub in_recycle_bin : Option Bool
  pub vcpu : ℤ
  pub memory : ℤ
  pub vm_disks : List String
  pub cpu_cores : ℤ
  pub cpu_sockets : ℤ
  pub host_id : String
  pub gpu_devices : List (String × String)

-- models.VMDisk
pub record VmDisk : Type 0 where
  pub boot : ℤ
  pub vm_volume_id : String

-- models.VMVolume
pub record VmVolume : Type 0 where
  pub id : String
  pub size : ℤ
  pub entity_async_status : Bool

-- models.VMNic
pub record VmNic : Type 0 where
  pub ip_address : Option String
  pub mac_address : Option String
  pub gateway : Option String
  pub subnet_mask : Option String

-- models.VMNicParams, with what differs between the calls.
pub record VmNicParams : Type 0 where
  pub connect_vlan_id : String
  pub mac_address : String
  pub subnet_mask : String
  pub ip_address : Option String
