-- ===== src/Lifecycle/Creation/Ticket.antt =====
-- The ticket for the creation of a virtual machine.
use cluster_api_provider_elf.Base.{
  ℕ, String, ◌≡◌, ◌⊎◌, inl, inr, refl, ◌∙◌, Bool, true, Option, none, some, List, Result, ok, err,
  Bool-cases,
}
use cluster_api_provider_elf.Base.Dict.{eq_self}
use cluster_api_provider_elf.Action.{pure, go_on, ◌>>◌}
use cluster_api_provider_elf.Cache.{GoCache}
use cluster_api_provider_elf.Memory.{Value}
use cluster_api_provider_elf.Conditions.{Conditions}
use cluster_api_provider_elf.Limiter.{get_key_for_vm, release_ticket_for_create_vm}
use cluster_api_provider_elf.Tower.{Vm}
use cluster_api_provider_elf.Messages.{is_vm_duplicate}
use cluster_api_provider_elf.Gpu.{GpuDeviceInfo}
use cluster_api_provider_elf.Context.{MachineContext}
use cluster_api_provider_elf.Outside.{
  VmService, Call, Shared, Site, Reconcile, set_memory, on_machine,
}
use cluster_api_provider_elf.Machine.{set_vm}
use cluster_api_provider_elf.Lifecycle.Deletion.{get_vm_ref}
use cluster_api_provider_elf.Lifecycle.Creation.{
  Choice, Bootstrap, cloned, clone_on, after_choice, choose_host, create_ticketed,
}

module _ {C T : Type 0} ⦃g : GoCache C Value⦄ where
  -- The ticket that a machine holds.
  abbrev pub creation_ticket : ℕ → String → Shared C T → Option Value
  creation_ticket later name x = g.get later (get_key_for_vm name) x.memory.vm_concurrent

module _ {S C T : Type 0} (v : VmService S C T) ⦃c : Conditions S⦄ ⦃g : GoCache C Value⦄
    (name : String) (later : ℕ) where
  -- The look for a duplicate leaves a ticket that the machine does not hold as it is: no other
  -- reconcile takes the ticket of this machine meanwhile.
  abbrev pub LooksOnly : Type 0
  LooksOnly =
      (x : Shared C T)
      → creation_ticket later name x ≡ none
      → creation_ticket later name (v.get_by_name name x).1 ≡ none

  -- The virtual machine is there, or the ticket is free.
  abbrev pub CreatedOrFree : Result Bool × Site S C T → Type 0
  CreatedOrFree r = (r.0 ≡ ok true) ⊎ (creation_ticket later name r.1.shared ≡ none)

  freed :
      (s : Site S C T)
      → creation_ticket later name (set_memory (release_ticket_for_create_vm name) s).shared ≡ none
  unfolding release_ticket_for_create_vm
  freed s = g.get-delete later (get_key_for_vm name) _ _ ∙ rw (eq_self (get_key_for_vm name)) refl

  found_lem :
      (r : Result Vm) (s : Site S C T)
      → creation_ticket later name s.shared ≡ none
      → CreatedOrFree (go_on (λ vm. on_machine (set_vm (get_vm_ref vm)) >> pure true) r s)
  unfolding ◌>>◌ on_machine pure
  found_lem (ok vm) s h = inl refl
  found_lem (err e) s h = inr h

  cloned_lem :
      LooksOnly
      → (r : Result (String × String)) (s : Site S C T) → CreatedOrFree (cloned v name r s)
  unfolding cloned
  cloned_lem looks (ok (id, task)) s = inl refl
  cloned_lem looks (err e) s = elim (Bool-cases (is_vm_duplicate e)) [
    | inl d ↦
        let released = set_memory (release_ticket_for_create_vm name) s in
        let (r, x) = v.get_by_name name released.shared in
        rw d (found_lem r (record released { shared = x }) (looks released.shared (freed s)))
    | inr n ↦ rw n (inr (freed s))
  ]

  clone_lem :
      LooksOnly
      → (host_name text host : String) (gpus : List GpuDeviceInfo) (s : Site S C T)
      → CreatedOrFree (clone_on v name (host_name, text) host gpus s)
  unfolding clone_on
  clone_lem looks host_name text host gpus s = cloned_lem looks _ _

  chosen_lem :
      LooksOnly
      → (boot : Bootstrap) (r : Result Choice) (s : Site S C T)
      → CreatedOrFree (after_choice v name boot r s)
  unfolding after_choice
  chosen_lem looks boot (err e) s = inr (freed s)
  chosen_lem looks boot (ok (none, gpus)) s = inr (freed s)
  chosen_lem looks (host_name, text) (ok (some host, gpus)) s = clone_lem looks _ _ host gpus s

  -- Once the ticket for its creation is acquired, either the machine has a virtual machine at the end,
  -- or the ticket is free again: no failure on the way to the clone keeps it, if the look for a
  -- duplicate leaves a ticket that is free so.
  pub ticket_kept_for_vm :
      (boot : MachineContext S → Call C T Bootstrap) (select : Reconcile S C T Choice)
      → LooksOnly
      → (maximum : ℕ) (given : Bootstrap) (s : Site S C T)
      → let r = create_ticketed v maximum boot select name given s in
        (r.0 ≡ ok true) ⊎ (creation_ticket later name r.1.shared ≡ none)
  unfolding create_ticketed
  ticket_kept_for_vm boot select looks maximum given s =
      let (r, s') = choose_host v maximum boot select s in chosen_lem looks given r s'
