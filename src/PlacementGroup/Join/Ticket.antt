-- ===== src/PlacementGroup/Join/Ticket.antt =====
-- The ticket of a placement group around an operation on it.
use cluster_api_provider_elf.Base.{
  ℕ, String, ◌≡◌, refl, ap, ◌∙◌, Bool, true, false, Option, none, if◌then◌else◌, Result, ok, err,
  Bool-cases, inl, inr,
}
use cluster_api_provider_elf.Base.Dict.{eq_self}
use cluster_api_provider_elf.Action.{◌>>=◌, bind_of_ok, deferred_of}
use cluster_api_provider_elf.Cache.{GoCache}
use cluster_api_provider_elf.Memory.{Value}
use cluster_api_provider_elf.Conditions.{Conditions}
use cluster_api_provider_elf.Limiter.{found, get_in_memory, get_key_for_placement_group}
use cluster_api_provider_elf.Tower.{Vm}
use cluster_api_provider_elf.Outside.{VmService, Site, Reconcile}
use cluster_api_provider_elf.PlacementGroup.{group_name, with_group_ticket}
use cluster_api_provider_elf.PlacementGroup.Join.{join_locked, mark_joining, join_placement_group}

module _ {S C T : Type 0} ⦃g : GoCache C Value⦄ where
  -- The ticket of a group as a reconcile sees it.
  abbrev pub ticket_at : ℕ → String → Site S C T → Option Value
  ticket_at now name s = get_in_memory now (get_key_for_placement_group name) s.shared.memory

module _ {S C T : Type 0} (v : VmService S C T) ⦃g : GoCache C Value⦄ where
  abbrev pub is_held : String → Site S C T → Bool
  is_held name s = found (ticket_at (v.now s.shared.outside) name s)

  pub ticket_given_back :
      {A : Type 0} (name : String) (busy : A) (body : Reconcile S C T A) (s : Site S C T)
      (later : ℕ)
      → ticket_at later name (with_group_ticket v name busy body s).1
        ≡ (if is_held name s then ticket_at later name s else none)
  unfolding with_group_ticket
  ticket_given_back name busy body s later = elim (Bool-cases (is_held name s)) [
    | inl h ↦ rw h refl
    | inr h ↦ rw h (g.get-delete later _ _ _ ∙ rw (eq_self (get_key_for_placement_group name)) refl)
  ]

  pub busy_waits :
      {A : Type 0} (name : String) (busy : A) (body : Reconcile S C T A) (s : Site S C T)
      → is_held name s ≡ true
      → with_group_ticket v name busy body s ≡ (ok busy, s)
  unfolding with_group_ticket
  busy_waits name busy body s h = rw h refl

module _ {S C T : Type 0} (v : VmService S C T) ⦃c : Conditions S⦄ ⦃g : GoCache C Value⦄ where
  mark_shared : (r : Result Bool) (s : Site S C T) → (mark_joining r s).shared ≡ s.shared
  unfolding mark_joining
  mark_shared (err e) s = refl
  mark_shared (ok true) s = refl
  mark_shared (ok false) s = refl

  join_ticketed :
      (vm : Vm) (name : String) (s s' : Site S C T)
      → group_name v s ≡ (ok name, s')
      → let r = with_group_ticket v name false (join_locked v vm name) s' in
        join_placement_group v vm s ≡ (r.0, mark_joining r.0 r.1)
  unfolding join_placement_group
  join_ticketed vm name s s' h =
      let rest : String → Reconcile S C T Bool =
        λ n. with_group_ticket v n false (join_locked v vm n) in
      deferred_of mark_joining (group_name v >>= rest) s (rest name s')
        (bind_of_ok (group_name v) rest s name s' h)

  -- Once joinPlacementGroup has the name of the group, it ends with the ticket of the group free if
  -- it was free, and as it was if another reconcile held it: whatever Tower answers, the operation
  -- fails or succeeds, and other reconciles do meanwhile, no ticket is left behind.
  pub join_gives_back :
      (vm : Vm) (name : String) (s s' : Site S C T) (later : ℕ)
      → group_name v s ≡ (ok name, s')
      → ticket_at later name (join_placement_group v vm s).1
        ≡ (if is_held v name s' then ticket_at later name s' else none)
  join_gives_back vm name s s' later h =
      let body = join_locked v vm name in
      let r = with_group_ticket v name false body s' in
      ap (λ (x : Result Bool × Site S C T). ticket_at later name x.1) (join_ticketed vm name s s' h)
      ∙ ap (λ x. get_in_memory later (get_key_for_placement_group name) x.memory)
          (mark_shared r.0 r.1)
      ∙ ticket_given_back v name false body s' later

  -- If another reconcile holds the ticket of the group, then joinPlacementGroup gives false without
  -- an error, and leaves the caches, the locks and Tower as they were when it had the name.
  join_waits :
      (vm : Vm) (name : String) (s s' : Site S C T)
      → group_name v s ≡ (ok name, s')
      → is_held v name s' ≡ true
      → let r = join_placement_group v vm s in (r.0 ≡ ok false) × (r.1.shared ≡ s'.shared)
  join_waits vm name s s' h b =
      let e = busy_waits v name false (join_locked v vm name) s' b in
      rw (join_ticketed vm name s s' h, e) (refl, mark_shared (ok false) s')
