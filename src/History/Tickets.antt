-- ===== src/History/Tickets.antt =====
-- What a ticket, once given, keeps other reconciles from, until it expires or is released, whatever
-- calls come in between.
use cluster_api_provider_elf.Base.{
  ℕ, ◌+◌, ◌≤◌, String, ◌≡◌, ◌≢◌, refl, sym, subst, inl, inr, Bool, true, false, Option, none, some,
  List, All, each_holds, weaken, arith, ltb, IsName,
}
use cluster_api_provider_elf.Base.Dict.{eq_self}
use cluster_api_provider_elf.Cache.{GoCache, alive}
use cluster_api_provider_elf.Memory.{Memory, Value, nil}
use cluster_api_provider_elf.Limiter.{
  get_key_for_vm, get_key_for_vm_duplicate, get_key_for_placement_group, set_in_memory,
  duplicate_detected, vm_operation_rate_limit, vm_silence_time, acquire_ticket_for_create_vm,
  acquire_ticket_for_updating_vm, set_vm_duplicate, acquire_ticket_for_placement_group_operation,
  release_ticket_for_placement_group_operation,
}
use cluster_api_provider_elf.History.{Call, unlocks_group, run, IsTimed, last_time}
use cluster_api_provider_elf.History.Frame.{Untouched}
use cluster_api_provider_elf.History.Keys.{vm_call, group_call, duplicate_call}
use cluster_api_provider_elf.History.Window.{
  Keeps, Holds, Untouched-Keeps, updates-Keeps, locks_group-Keeps, marks_vm-Keeps, run-Holds,
  run_frame,
}

module _ (C : Type 0) ⦃g : GoCache C Value⦄ (maximum : ℕ) where
  pub vm-Keeps :
      (start end : ℕ) (vm : String)
      → IsName vm
      → (c : Call) → Keeps C maximum start end (get_key_for_vm vm) c
  vm-Keeps start end vm n c = elim (vm_call vm n c) [
    | inl u ↦ Untouched-Keeps C maximum start end (get_key_for_vm vm) c u
    | inr e ↦
        subst (Keeps C maximum start end (get_key_for_vm vm)) (sym e)
          (updates-Keeps C maximum start end (get_key_for_vm vm) vm)
  ]

  group-Keeps :
      (start end : ℕ) (group : String)
      → IsName group
      → (c : Call) → c ≢ unlocks_group group
      → Keeps C maximum start end (get_key_for_placement_group group) c
  group-Keeps start end group n c ne = elim (group_call group n c) [
    | inl u ↦ Untouched-Keeps C maximum start end (get_key_for_placement_group group) c u
    | inr (inl e) ↦
        subst (Keeps C maximum start end (get_key_for_placement_group group)) (sym e)
          (locks_group-Keeps C maximum start end (get_key_for_placement_group group) group)
    | inr (inr e) ↦ elim (ne e) [ ]
  ]

  duplicate-Keeps :
      (start : ℕ) (vm : String) (c : Call)
      → Keeps C maximum start (start + vm_silence_time) (get_key_for_vm_duplicate vm) c
  duplicate-Keeps start vm c =
      let end = start + vm_silence_time in
      let k = get_key_for_vm_duplicate vm in
      elim (duplicate_call vm c) [
        | inl u ↦ Untouched-Keeps C maximum start end k c u
        | inr (v, inl e) ↦
            subst (Keeps C maximum start end k) (sym e) (updates-Keeps C maximum start end k v)
        | inr (v, inr e) ↦
            subst (Keeps C maximum start end k) (sym e) (marks_vm-Keeps C maximum start k v)
      ]

  pub stored-Holds :
      (start end : ℕ) (k : String) (d : Option ℕ) (m : Memory C)
      → ((u : ℕ) → u ≤ end → alive start d u ≡ true)
      → Holds end k start (set_in_memory start k nil d m)
  stored-Holds start end k d m a u l e =
      ground (arith, g.get-set start u k k nil d m.in_memory, eq_self k, a u e)

  -- A ticket for updating a virtual machine, once given, is given again after
  -- `vm_operation_rate_limit` seconds and not before, where no other call names its key.
  pub update_ticket_expires :
      (start later : ℕ) (vm : String) (m : Memory C) (cs : List (ℕ × Call))
      → (acquire_ticket_for_updating_vm start vm m).0 ≡ true
      → All (λ c. Untouched (get_key_for_vm vm) c.1) cs
      → IsTimed start cs
      → last_time start cs ≤ later
      → (acquire_ticket_for_updating_vm later vm
          (run maximum cs (acquire_ticket_for_updating_vm start vm m).1)).0
        ≡ ltb (start + vm_operation_rate_limit) later
  unfolding acquire_ticket_for_updating_vm
  update_ticket_expires start later vm m cs a n t l =
      let k = get_key_for_vm vm in
      ground (
        arith,
        run_frame C maximum k cs start later (acquire_ticket_for_updating_vm start vm m).1 n t l,
        g.get-set start later k k nil (some vm_operation_rate_limit) m.in_memory,
        eq_self k,
      )

  -- The lock of a placement group, once given, is given to nobody else, however much time passes
  -- and whatever calls are made meanwhile, until the group is unlocked. The group's name has no
  -- colon.
  pub group_lock_exclusive :
      (start later : ℕ) (group : String) (m : Memory C) (cs : List (ℕ × Call))
      → IsName group
      → (acquire_ticket_for_placement_group_operation start group m).0 ≡ true
      → All (λ c. c.1 ≢ unlocks_group group) cs
      → IsTimed start cs
      → last_time start cs ≤ later
      → let m' = run maximum cs (acquire_ticket_for_placement_group_operation start group m).1 in
        acquire_ticket_for_placement_group_operation later group m' ≡ (false, m')
  unfolding acquire_ticket_for_placement_group_operation
  group_lock_exclusive start later group m cs n a ne t l =
      let k = get_key_for_placement_group group in
      let h =
        run-Holds C maximum start later k cs start
          (acquire_ticket_for_placement_group_operation start group m).1
          (weaken (λ c. group-Keeps start later group n c.1) cs ne) (ground arith) t
          (λ u l e. ground (arith, stored-Holds start later k none m (λ u e. refl) u l e)) in
      ground (arith, h later l)

  -- The lock of a placement group, once released, is given again: whatever calls that do not name
  -- its key come between.
  group_lock_released :
      (start later : ℕ) (group : String) (m : Memory C) (cs : List (ℕ × Call))
      → All (λ c. Untouched (get_key_for_placement_group group) c.1) cs
      → IsTimed start cs
      → last_time start cs ≤ later
      → (acquire_ticket_for_placement_group_operation later group
          (run maximum cs (release_ticket_for_placement_group_operation group m))).0
        ≡ true
  unfolding acquire_ticket_for_placement_group_operation
      release_ticket_for_placement_group_operation
  group_lock_released start later group m cs n t l =
      let k = get_key_for_placement_group group in
      ground (
        arith,
        run_frame C maximum k cs start later (release_ticket_for_placement_group_operation group m)
            n t l,
        g.get-delete later k k m.in_memory,
        eq_self k,
      )

  -- After Tower has reported a duplicate of a virtual machine, for `vm_silence_time` seconds no
  -- ticket for its creation is given, to control-plane and worker machines alike, whatever calls
  -- are made meanwhile.
  pub duplicate_silences :
      (start later : ℕ) (vm : String) (cp : Bool) (m : Memory C) (cs : List (ℕ × Call))
      → IsTimed start cs
      → last_time start cs ≤ later
      → later ≤ start + vm_silence_time
      → let m' = run maximum cs (set_vm_duplicate start vm m) in
        acquire_ticket_for_create_vm maximum later vm cp m' ≡ ((false, duplicate_detected), m')
  unfolding acquire_ticket_for_create_vm set_vm_duplicate
  duplicate_silences start later vm cp m cs t l e =
      let end = start + vm_silence_time in
      let k = get_key_for_vm_duplicate vm in
      let h =
        run-Holds C maximum start end k cs start (set_vm_duplicate start vm m)
          (each_holds _ (λ c. duplicate-Keeps start vm c.1) cs) (ground arith) t
          (stored-Holds start end k (some vm_silence_time) m λ u e. ground arith) in
      ground (arith, h later l e)
