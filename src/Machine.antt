-- ===== src/Machine.antt =====
-- api/v1beta1/elfmachine_types.go and the parts of api/v1beta1/types.go that it uses: the ElfMachine
-- object with the fields that the controllers read and write, and its methods.
pub mod Network
pub mod Nameservers
use cluster_api_provider_elf.Base.{
  ℕ, String, Bool, true, false, not, ◌&&◌, ◌||◌, Option, none, some, List, [], ◌∷◌, length, ltb,
  str_eq, if◌then◌else◌,
}
use cluster_api_provider_elf.Base.Int.{ℤ, pos, int64, ◌*ℤ◌, eqb_ℤ}

pub data NetworkType : Type 0 where
  none_type ipv4 ipv4_dhcp : NetworkType
  -- The empty text, or one that the API server does not admit.
  unset : NetworkType

pub record NetworkDeviceSpec : Type 0 where
  pub network_type : NetworkType
  pub vlan : String
  pub mac_addr : String
  pub netmask : String
  pub ip_addrs : List String
  pub default_route : Bool
  pub nameservers : List String

pub record NetworkSpec : Type 0 where
  pub devices : List NetworkDeviceSpec
  pub nameservers : List String

pub record GpuPassthroughDeviceSpec : Type 0 where
  pub model : String
  pub count : ℤ

pub record VgpuDeviceSpec : Type 0 where
  pub type_name : String
  pub count : ℤ

pub record GpuStatus : Type 0 where
  pub gpu_id : String
  pub name : String

pub record NetworkStatus : Type 0 where
  pub ip_addrs : List String
  pub mac_addr : String
  pub gateway : String
  pub subnet_mask : String

-- `memory` is the int64 value of the quantity, in bytes.
pub record ResourcesStatus : Type 0 where
  pub disk : ℤ
  pub cpu_cores : ℤ
  pub memory : ℤ

pub record ElfMachineSpec : Type 0 where
  pub network : NetworkSpec
  pub num_cpus : ℤ
  pub num_cores_per_socket : ℤ
  pub memory_mib : ℤ
  pub disk_gib : ℤ
  pub gpu_devices : List GpuPassthroughDeviceSpec
  pub vgpu_devices : List VgpuDeviceSpec

-- `S` is the type of the conditions.
pub record ElfMachineStatus (S : Type 0) : Type 0 where
  pub conditions : S
  pub vm_ref : String
  pub task_ref : String
  pub host_server_ref : String
  pub placement_group_ref : String
  pub gpu_devices : List GpuStatus
  pub resources : ResourcesStatus
  pub network : List NetworkStatus
  pub failure_reason : Option String
  pub failure_message : Option String

-- `has_finalizer` is whether MachineFinalizer stands among its finalizers, `deleted` whether it has a
-- deletion timestamp.
pub record ElfMachine (S : Type 0) : Type 0 where
  pub name : String
  pub labels : List (String × String)
  pub has_finalizer : Bool
  pub deleted : Bool
  pub creation_timestamp : ℕ
  -- The two timestamps that are kept as annotations.
  pub vm_disconnection_timestamp : Option ℕ
  pub vm_first_boot_timestamp : Option ℕ
  pub spec : ElfMachineSpec
  pub status : ElfMachineStatus S

abbrev pub is_some : Option String → Bool
is_some none = false
is_some (some s) = true

module _ {S : Type 0} where
  unfoldable pub set_vm : String → ElfMachine S → ElfMachine S
  set_vm uuid m =
      let s = m.status in record m { status = record s { task_ref = ""; vm_ref = uuid } }

  unfoldable pub has_vm : ElfMachine S → Bool
  has_vm m = not (str_eq m.status.vm_ref "")

  unfoldable pub has_task : ElfMachine S → Bool
  has_task m = not (str_eq m.status.task_ref "")

  unfoldable pub set_task : String → ElfMachine S → ElfMachine S
  set_task task_id m = let s = m.status in record m { status = record s { task_ref = task_id } }

  unfoldable pub is_failed : ElfMachine S → Bool
  is_failed m = is_some m.status.failure_reason || is_some m.status.failure_message

  unfoldable pub is_resources_up_to_date : ElfMachine S → Bool
  is_resources_up_to_date m =
      eqb_ℤ m.spec.disk_gib m.status.resources.disk
      && eqb_ℤ m.spec.num_cpus m.status.resources.cpu_cores
      && eqb_ℤ (int64 (m.spec.memory_mib *ℤ pos 1048576)) m.status.resources.memory

  unfoldable pub requires_pass_through_gpu_devices : ElfMachine S → Bool
  requires_pass_through_gpu_devices m = ltb 0 (length m.spec.gpu_devices)

  unfoldable pub requires_vgpu_devices : ElfMachine S → Bool
  requires_vgpu_devices m = ltb 0 (length m.spec.vgpu_devices)

  unfoldable pub requires_gpu_devices : ElfMachine S → Bool
  unfolding requires_pass_through_gpu_devices requires_vgpu_devices
  requires_gpu_devices m = requires_pass_through_gpu_devices m || requires_vgpu_devices m
