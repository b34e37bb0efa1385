-- ===== src/Resources/Network.antt =====
-- reconcieVMNetworkDevices, reconcileVMNics and setVMNetworkDeviceConfig of
-- controllers/elfmachine_controller_resources.go.
use cluster_api_provider_elf.Base.{
  ℕ, zero, suc, ◌-◌, String, ◌+++◌, Bool, true, false, not, ◌||◌, Option, none, some, List, [], ◌∷◌,
  map, length, leb, ◌==◌, Result, ok, err, str_eq, if◌then◌else◌,
}
use cluster_api_provider_elf.Action.{pure, raise, attempt, ◌>>=◌, ◌>>◌}
use cluster_api_provider_elf.Conditions.{Conditions, info, warning}
use cluster_api_provider_elf.Messages.{get_tower_string}
use cluster_api_provider_elf.Reasons.{
  adding_vm_network_device_reason, adding_vm_network_device_failed_reason,
  setting_vm_network_device_config_reason, setting_vm_network_device_config_failed_reason,
  waiting_for_network_addresses_reason, waiting_for_network_mac_address_reason,
}
use cluster_api_provider_elf.Tower.{Vm, VmNic, VmNicParams}
use cluster_api_provider_elf.Machine.{
  ElfMachine, NetworkType, none_type, ipv4, ipv4_dhcp, unset, NetworkDeviceSpec, NetworkStatus,
  set_task,
}
use cluster_api_provider_elf.Context.{MachineContext}
use cluster_api_provider_elf.Outside.{VmService, Reconcile, ask, on_machine, read_ctx}
use cluster_api_provider_elf.Resources.Jobs.{
  HostAgent, MacType, set_network_device_config, update_reason, mark_update, reconcile_host_job,
}

abbrev pub status_of : VmNic → NetworkStatus
status_of nic = record {
  ip_addrs = get_tower_string nic.ip_address ∷ [];
  mac_addr = get_tower_string nic.mac_address;
  gateway = get_tower_string nic.gateway;
  subnet_mask = get_tower_string nic.subnet_mask;
}

-- The network status is taken anew where it has another length.
abbrev pub note_network : {S : Type 0} → List VmNic → ElfMachine S → ElfMachine S
note_network nics m =
    let s = m.status in
    if length s.network == length nics
    then m
    else record m { status = record s { network = map status_of nics } }

abbrev pub first_text : List String → Option String
first_text [] = none
first_text (s ∷ ss) = some s

abbrev pub nic_params : NetworkDeviceSpec → String → VmNicParams
nic_params d vlan = record {
  connect_vlan_id = vlan;
  mac_address = d.mac_addr;
  subnet_mask = d.netmask;
  ip_address = first_text d.ip_addrs;
}

-- What follows the first `n` elements.
unfoldable pub drop {ℓ} : {A : Type ℓ} → ℕ → List A → List A
drop zero xs = xs
drop (suc n) [] = []
drop (suc n) (x ∷ xs) = drop n xs

abbrev pub is_without_network : NetworkType → Bool
is_without_network none_type = true
is_without_network _ = false

abbrev pub type_text : NetworkType → String
type_text none_type = "NONE"
type_text ipv4 = "IPV4"
type_text ipv4_dhcp = "IPV4_DHCP"
type_text unset = ""

abbrev pub is_adding : String → Bool
is_adding reason =
    str_eq reason adding_vm_network_device_reason
    || str_eq reason adding_vm_network_device_failed_reason

abbrev pub is_setting : String → Bool
is_setting reason =
    is_adding reason
    || (str_eq reason setting_vm_network_device_config_reason
        || (str_eq reason setting_vm_network_device_config_failed_reason
            || str_eq reason waiting_for_network_mac_address_reason))

-- The number of entries but the first.
abbrev pub all_but_first {ℓ} : {A : Type ℓ} → List A → ℕ
all_but_first xs = length xs - 1

abbrev pub index_out_of_range : String
index_out_of_range = "runtime error: index out of range"

module _ {S C T : Type 0} (v : VmService S C T) ⦃c : Conditions S⦄ where
  -- The loop over the devices that have no nic yet.
  unfoldable pub new_nics : List NetworkDeviceSpec → Reconcile S C T (List VmNicParams)
  unfolding ◌>>=◌ pure ask
  new_nics [] = pure []
  new_nics (d ∷ ds) = do
    vlan ← ask (v.get_vlan d.vlan)
    nics ← new_nics ds
    pure (nic_params d vlan ∷ nics)

  unfoldable pub added_nics : String → Result String → Reconcile S C T Bool
  unfolding ◌>>=◌ ◌>>◌ pure raise on_machine set_task mark_update
  added_nics reason (err e) = do
    mark_update v adding_vm_network_device_failed_reason warning e
    raise ("failed to trigger add new nics to vm: " +++ e)
  added_nics reason (ok task) = do
    (if str_eq reason adding_vm_network_device_failed_reason
        then mark_update v adding_vm_network_device_reason info ""
        else pure tt)
    on_machine (set_task task)
    pure false

  -- The mark is saved by one reconcile before the next one adds the nics.
  unfoldable pub add_nics : Vm → List VmNic → MachineContext S → Reconcile S C T Bool
  unfolding ◌>>=◌ ◌>>◌ pure attempt ask drop mark_update new_nics added_nics
  add_nics vm nics ctx =
      let reason = update_reason v ctx in
      if not (is_adding reason)
      then mark_update v adding_vm_network_device_reason info "" >> pure false
      else do
        params ← new_nics (drop (length nics) ctx.elf_machine.spec.network.devices)
        added ← attempt (ask (v.add_vm_nics vm.id params))
        added_nics reason added

  unfoldable pub reconcile_vm_nics : Vm → List VmNic → Reconcile S C T Bool
  unfolding ◌>>=◌ ◌>>◌ pure read_ctx on_machine add_nics
  reconcile_vm_nics vm nics = do
    ctx ← read_ctx (λ x. x)
    (if leb (length ctx.elf_machine.spec.network.devices) (length nics)
        then pure true
        else on_machine (note_network nics) >> add_nics vm nics ctx)

  -- The MAC addresses of the nics with the types of their devices, in the order of the loop, or
  -- whether one has no address yet.
  unfoldable pub mac_types : List VmNic → List NetworkDeviceSpec → Option (List MacType)
  mac_types (n ∷ ns) (d ∷ ds) =
      let rest = mac_types ns ds in
      if str_eq (get_tower_string n.mac_address) "" then none else elim rest [
        | none ↦ none
        | some ts ↦ some (
            record { mac = get_tower_string n.mac_address; type_name = type_text d.network_type }
            ∷ ts)
      ]
  mac_types _ _ = some []

  module _ (agent : HostAgent S C T) where
    unfoldable pub config_job : String → Option (List MacType) → Reconcile S C T Bool
    unfolding ◌>>=◌ ◌>>◌ pure mark_update reconcile_host_job
    config_job reason none = do
      mark_update v waiting_for_network_mac_address_reason info
          "Waiting for the vm network device mac address"
      pure false
    config_job reason (some types) = do
      (if str_eq reason setting_vm_network_device_config_failed_reason
          then pure tt
          else mark_update v setting_vm_network_device_config_reason info "")
      reconcile_host_job v agent set_network_device_config types

    -- The first nic is that of the management network. The number of the nic is left out of the
    -- text of the mark.
    unfoldable pub set_vm_network_device_config : List VmNic → Reconcile S C T Bool
    unfolding ◌>>=◌ ◌>>◌ pure read_ctx drop mark_update mac_types config_job
    set_vm_network_device_config nics = do
      ctx ← read_ctx (λ x. x)
      let reason = update_reason v ctx
      let devices = ctx.elf_machine.spec.network.devices
      let known = all_but_first ctx.elf_machine.status.network
      let wanted = all_but_first devices
      let start = all_but_first nics - (wanted - known)
      (if not (is_setting reason)
          then pure true
          else if leb wanted known
          then pure true
          else if not (length devices == length nics)
          then (do
            mark_update v setting_vm_network_device_config_failed_reason warning
                "The expected number of network devices is not equal to the number of vm nics"
            pure false)
          else config_job reason
              (mac_types (drop start (drop 1 nics)) (drop start (drop 1 devices))))

    -- The loop that waits for an address of each device that is to have one.
    unfoldable pub await_addresses : List NetworkDeviceSpec → List VmNic → Reconcile S C T Bool
    unfolding ◌>>=◌ ◌>>◌ pure raise mark_update
    await_addresses [] nics = pure true
    await_addresses (d ∷ ds) [] =
        if is_without_network d.network_type
        then await_addresses ds []
        else raise index_out_of_range
    await_addresses (d ∷ ds) (n ∷ ns) =
        let rest = await_addresses ds ns in
        if is_without_network d.network_type
        then rest
        else if str_eq (get_tower_string n.ip_address) ""
        then (do
          mark_update v waiting_for_network_addresses_reason info
              "waiting for the vm network device ready"
          pure false)
        else rest

    abbrev pub is_awaiting : String → Bool
    is_awaiting reason = is_setting reason || str_eq reason waiting_for_network_addresses_reason

    -- What follows the configuration of the nics.
    unfoldable pub after_config : List VmNic → Reconcile S C T Bool
    unfolding ◌>>=◌ pure read_ctx set_vm_network_device_config await_addresses
    after_config nics = do
      set ← set_vm_network_device_config nics
      (if not set then pure false else do
        ctx ← read_ctx (λ x. x)
        (if is_awaiting (update_reason v ctx)
            then await_addresses ctx.elf_machine.spec.network.devices nics
            else pure true))

    unfoldable pub use_nics : Vm → List VmNic → Reconcile S C T Bool
    unfolding ◌>>=◌ pure reconcile_vm_nics after_config
    use_nics vm nics = do
      enough ← reconcile_vm_nics vm nics
      (if enough then after_config nics else pure false)

    -- A virtual machine with no nics is waited for.
    unfoldable pub reconcile_vm_network_devices : Vm → Reconcile S C T Bool
    unfolding ◌>>=◌ pure ask use_nics
    reconcile_vm_network_devices vm = do
      nics ← ask (v.get_vm_nics vm.id)
      (if length nics == 0 then pure false else use_nics vm nics)
