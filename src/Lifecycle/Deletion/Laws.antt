-- ===== src/Lifecycle/Deletion/Laws.antt =====
-- Which virtual machines a deletion may delete.
use cluster_api_provider_elf.Base.{
  String, ◌≡◌, refl, ap, Bool, true, false, not, ◌||◌, List, [], ◌∷◌, All, str_eq, ok, arith,
  Bool-cases, inl, inr,
}
use cluster_api_provider_elf.Action.{pure, ◌>>=◌, then_of}
use cluster_api_provider_elf.Cache.{GoCache}
use cluster_api_provider_elf.Memory.{Value}
use cluster_api_provider_elf.Conditions.{Conditions}
use cluster_api_provider_elf.Tower.{Vm}
use cluster_api_provider_elf.Outside.{VmService, Call, Shared, Site, ask}
use cluster_api_provider_elf.PlacementGroup.Room.{is_running, is_stopped}
use cluster_api_provider_elf.Lifecycle.Deletion.{
  run_task, stop_vm, delete_found_vm, reconcile_delete_vm, delete_vm, delete_first,
}

none_of : (a b c : Bool) → (a || (b || not c)) ≡ false → (a ≡ false) × (b ≡ false) × (c ≡ true)
none_of a b c h = (ground arith, ground arith, ground arith)

module _ {S C T : Type 0} (v : VmService S C T) (other : String → Call C T String)
    ⦃c : Conditions S⦄ ⦃g : GoCache C Value⦄ where
  -- The service with another Delete.
  abbrev pub with_delete : VmService S C T
  with_delete = record v { delete = other }

  found_running :
      (vm : Vm) (s : Site S C T)
      → is_running vm ≡ true
      → delete_found_vm v (ok vm) s ≡ delete_found_vm with_delete (ok vm) s
  unfolding delete_found_vm stop_vm run_task
  found_running vm s h = rw h refl

  -- The duplicates that may be deleted.
  abbrev pub Deletable : String → Vm → Type 0
  Deletable own vm =
      (str_eq vm.id own ≡ false)
      × (str_eq vm.local_id own ≡ false)
      × (is_stopped vm ≡ true)
      × (vm.entity_async_status ≡ false)

  delete_agrees :
      (own : String) (vm : Vm) (s : Site S C T)
      → (str_eq vm.id own || (str_eq vm.local_id own || not (is_stopped vm))) ≡ false
      → (Deletable own vm → v.delete vm.id ≡ other vm.id)
      → delete_vm v vm s ≡ delete_vm with_delete vm s
  unfolding delete_vm
  delete_agrees own vm s h k = elim (Bool-cases vm.entity_async_status) [
    | inl b ↦ rw b refl
    | inr b ↦
        let parts = none_of (str_eq vm.id own) (str_eq vm.local_id own) (is_stopped vm) h in
        rw b (
          ap (λ (call : Call C T String). (ask {S = S} call >>= λ task. pure tt) s)
            (k (parts.0, parts.1, parts.2, b)))
  ]

  -- What deleteDuplicateVMs does with the virtual machines of one name depends on Delete only for
  -- those that are not the machine's own, are stopped, and perform no operation: no other virtual
  -- machine is ever deleted by it.
  pub only_duplicates_deleted :
      (own : String) (vms : List Vm) (s : Site S C T)
      → All (λ vm. Deletable own vm → v.delete vm.id ≡ other vm.id) vms
      → delete_first v own vms s ≡ delete_first with_delete own vms s
  unfolding delete_first
  only_duplicates_deleted own [] s h = refl
  only_duplicates_deleted own (vm ∷ vms) s (k, h) =
      elim (Bool-cases (str_eq vm.id own || (str_eq vm.local_id own || not (is_stopped vm)))) [
        | inl b ↦ rw b (only_duplicates_deleted own vms s h)
        | inr b ↦ rw b (
            then_of (delete_vm v vm) (delete_vm with_delete vm) (pure true) s
              (delete_agrees own vm s b k))
      ]

  -- If Tower answers that the virtual machine of a machine that is to be deleted runs, then what
  -- reconcileDeleteVM does depends in no way on Delete: a running virtual machine is never deleted.
  pub running_not_deleted :
      (vm : Vm) (s : Site S C T) (after : Shared C T)
      → v.get s.ctx.elf_machine.status.vm_ref s.shared ≡ (ok vm, after)
      → is_running vm ≡ true
      → reconcile_delete_vm v s ≡ reconcile_delete_vm with_delete s
  unfolding reconcile_delete_vm
  running_not_deleted vm s after e h = rw e (found_running vm (record s { shared = after }) h)
