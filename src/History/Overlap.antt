-- ===== src/History/Overlap.antt =====
-- acquireTicketForUpdatingVM of controllers/vm_limiter.go holds no mutex: between its look at the
-- cache and its store of the ticket, other reconciles may run. Such a call, in two parts, is its look,
-- which changes nothing, and later the part `stores_ticket`: two calls that overlap may both be given
-- the ticket.
use cluster_api_provider_elf.Base.{
  ℕ, ◌+◌, ◌≤◌, String, ◌≡◌, true, false, some, List, [], ◌∷◌, arith, IsName,
}
use cluster_api_provider_elf.Cache.{GoCache}
use cluster_api_provider_elf.Memory.{Memory, Value, nil}
use cluster_api_provider_elf.Limiter.{
  get_key_for_vm, vm_operation_rate_limit, acquire_ticket_for_updating_vm,
  store_ticket_for_updating_vm,
}
use cluster_api_provider_elf.History.{Call, step}
use cluster_api_provider_elf.History.Window.{Holds, set-Holds}
use cluster_api_provider_elf.History.Tickets.{vm-Keeps, stored-Holds}

-- A call that runs as one, or the second part of a call for updating a virtual machine.
pub data Part : Type 0 where
  at_once : Call → Part
  stores_ticket : String → Part

module _ {C : Type 0} ⦃g : GoCache C Value⦄ (maximum : ℕ) where
  unfoldable pub part_step : ℕ × Part → Memory C → Memory C
  unfolding step
  part_step (now, at_once c) m = step maximum (now, c) m
  part_step (now, stores_ticket vm) m = store_ticket_for_updating_vm now vm m

  unfoldable pub run_parts : List (ℕ × Part) → Memory C → Memory C
  unfolding part_step
  run_parts [] m = m
  run_parts (p ∷ ps) m = run_parts ps (part_step p m)

-- The clock does not run back.
abbrev pub AreTimed : ℕ → List (ℕ × Part) → Type 0
AreTimed start [] = Unit
AreTimed start ((now, p) ∷ ps) = (start ≤ now) × AreTimed now ps

abbrev pub end_time : ℕ → List (ℕ × Part) → ℕ
end_time start [] = start
end_time start ((now, p) ∷ ps) = end_time now ps

module _ (C : Type 0) ⦃g : GoCache C Value⦄ (maximum : ℕ) where
  part-Holds :
      (start now : ℕ) (vm : String) (p : Part) (m : Memory C)
      → IsName vm
      → start ≤ now
      → Holds (start + vm_operation_rate_limit) (get_key_for_vm vm) now m
      → Holds
          (start + vm_operation_rate_limit)
          (get_key_for_vm vm)
          now
          (part_step maximum (now, p) m)
  unfolding part_step
  part-Holds start now vm (at_once c) m n s h =
      vm-Keeps C maximum start (start + vm_operation_rate_limit) vm n c now m s h
  part-Holds start now vm (stores_ticket other) m n s h =
      set-Holds (start + vm_operation_rate_limit) now (get_key_for_vm vm) (get_key_for_vm other) nil
        (some vm_operation_rate_limit) m (λ u l e q. ground arith) h

  parts-Holds :
      (start now : ℕ) (vm : String) (ps : List (ℕ × Part)) (m : Memory C)
      → IsName vm
      → start ≤ now
      → AreTimed now ps
      → Holds (start + vm_operation_rate_limit) (get_key_for_vm vm) now m
      → Holds
          (start + vm_operation_rate_limit)
          (get_key_for_vm vm)
          (end_time now ps)
          (run_parts maximum ps m)
  unfolding run_parts
  parts-Holds start now vm [] m n s t h = h
  parts-Holds start now vm ((at, p) ∷ ps) m n s (l, t) h =
      parts-Holds start at vm ps (part_step maximum (at, p) m) n (ground arith) t
        (part-Holds start at vm p m n (ground arith) λ u l' e. ground (arith, h u))

  -- A call that is given a ticket for updating a virtual machine stores it; and once it is stored, at
  -- the time `start`, a call that looks for it in the `vm_operation_rate_limit` seconds that follow
  -- is given none, whatever calls and parts of overlapping calls come between. The machine's name
  -- has no colon.
  pub update_ticket_exclusive :
      (start later : ℕ) (vm : String) (m : Memory C) (ps : List (ℕ × Part))
      → IsName vm
      → AreTimed start ps
      → end_time start ps ≤ later
      → later ≤ start + vm_operation_rate_limit
      → let stored = store_ticket_for_updating_vm start vm m in
        let m' = run_parts maximum ps stored in
        ((acquire_ticket_for_updating_vm start vm m).0 ≡ true
          → (acquire_ticket_for_updating_vm start vm m).1 ≡ stored)
        × (acquire_ticket_for_updating_vm later vm m' ≡ (false, m'))
  unfolding acquire_ticket_for_updating_vm
  update_ticket_exclusive start later vm m ps n t l e =
      let end = start + vm_operation_rate_limit in
      let k = get_key_for_vm vm in
      let h =
        parts-Holds start start vm ps (store_ticket_for_updating_vm start vm m) n (ground arith) t (
          stored-Holds C maximum start end k (some vm_operation_rate_limit) m
            λ u e. ground arith) in
      ((λ given. ground arith), ground (arith, h later l e))
