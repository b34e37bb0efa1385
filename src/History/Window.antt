-- ===== src/History/Window.antt =====
-- A key that is found up to the end of a window stays so, whatever calls come in between.
use cluster_api_provider_elf.Base.{
  ℕ, ◌+◌, ◌≤◌, String, ◌≡◌, refl, ap, ◌∙◌, true, false, Option, none, some, List, [], ◌∷◌, All,
  arith, str_eq, eq_iff, if◌then◌else◌, Bool-cases, inl, inr,
}
use cluster_api_provider_elf.Cache.{GoCache, alive}
use cluster_api_provider_elf.Memory.{Memory, Value, nil}
use cluster_api_provider_elf.Limiter.{
  get_key_for_vm, get_key_for_vm_duplicate, get_key_for_placement_group, get_in_memory,
  set_in_memory, found, vm_operation_rate_limit, vm_silence_time, acquire_ticket_for_updating_vm,
  set_vm_duplicate, acquire_ticket_for_placement_group_operation,
}
use cluster_api_provider_elf.History.{
  Call, updates, marks_vm, locks_group, step, run, IsTimed, last_time,
}
use cluster_api_provider_elf.History.Frame.{Untouched, step_frame}

last_time_le :
    (now : ℕ) (cs : List (ℕ × Call)) (later : ℕ)
    → IsTimed now cs
    → last_time now cs ≤ later
    → now ≤ later
last_time_le now [] later t l = l
last_time_le now ((at, c) ∷ cs) later (s, t) l = ground (arith, last_time_le at cs later t l)

module _ {C : Type 0} ⦃g : GoCache C Value⦄ where
  -- The key is found from `now` on, up to the end of the window.
  abbrev pub Holds : ℕ → String → ℕ → Memory C → Type 0
  Holds end k now m = (u : ℕ) → now ≤ u → u ≤ end → found (get_in_memory u k m) ≡ true

  -- Another key, or a key that is stored for long enough.
  pub set-Holds :
      (end now : ℕ) (k key : String) (v : Value) (d : Option ℕ) (m : Memory C)
      → ((u : ℕ) → now ≤ u → u ≤ end → str_eq key k ≡ true → alive now d u ≡ true)
      → Holds end k now m
      → Holds end k now (set_in_memory now key v d m)
  set-Holds end now k key v d m a h u l e =
      ground (arith, g.get-set now u key k v d m.in_memory, a u l e, h u l e)

  -- A key that is not found is not the one that holds.
  not_found-ne :
      (end now : ℕ) (k key : String) (m : Memory C)
      → Holds end k now m
      → now ≤ end
      → found (get_in_memory now key m) ≡ false
      → str_eq key k ≡ false
  not_found-ne end now k key m h l e = elim (Bool-cases (str_eq key k)) [
    | inl s ↦ ground (arith, h now, ap (λ j. found (get_in_memory now j m)) ((eq_iff key k).0 s))
    | inr n ↦ n
  ]

  -- Taking a ticket whose key may be the one that holds changes nothing of it.
  take_Holds :
      (end now : ℕ) (k key : String) (d : Option ℕ) (m : Memory C)
      → Holds end k now m
      → Holds end k now
          (if found (get_in_memory now key m) then m else set_in_memory now key nil d m)
  take_Holds end now k key d m h = elim (Bool-cases (found (get_in_memory now key m))) [
    | inl f ↦ ground (arith, h)
    | inr n ↦ λ u l e. ground (
      arith,
      set-Holds end now k key nil d m (λ u l e s. ground (arith, not_found-ne end now k key m h)) h
          u l e,
    )
  ]

module _ (C : Type 0) ⦃g : GoCache C Value⦄ (maximum : ℕ) where
  -- A call, made at or after `start`, leaves the key found.
  abbrev pub Keeps : ℕ → ℕ → String → Call → Type 0
  Keeps start end k c =
      (now : ℕ)
      → (m : Memory C) → start ≤ now
      → Holds end k now m
      → Holds end k now (step maximum (now, c) m)

  pub Untouched-Keeps :
      (start end : ℕ) (k : String) (c : Call) → Untouched k c → Keeps start end k c
  Untouched-Keeps start end k c n now m s h u l e =
      ap found (step_frame maximum now u k c m l n) ∙ h u l e

  pub updates-Keeps : (start end : ℕ) (k v : String) → Keeps start end k (updates v)
  unfolding step acquire_ticket_for_updating_vm
  updates-Keeps start end k v now m s h u l e =
      ground
        (arith, take_Holds end now k (get_key_for_vm v) (some vm_operation_rate_limit) m h u l e)

  pub locks_group-Keeps : (start end : ℕ) (k v : String) → Keeps start end k (locks_group v)
  unfolding step acquire_ticket_for_placement_group_operation
  locks_group-Keeps start end k v now m s h u l e =
      ground (arith, take_Holds end now k (get_key_for_placement_group v) none m h u l e)

  pub marks_vm-Keeps :
      (start : ℕ) (k v : String) → Keeps start (start + vm_silence_time) k (marks_vm v)
  unfolding step set_vm_duplicate
  marks_vm-Keeps start k v now m s h =
      set-Holds (start + vm_silence_time) now k (get_key_for_vm_duplicate v) nil
        (some vm_silence_time) m (λ u l e q. ground arith) h

  pub run-Holds :
      (start end : ℕ) (k : String) (cs : List (ℕ × Call)) (now : ℕ) (m : Memory C)
      → All (λ c. Keeps start end k c.1) cs
      → start ≤ now
      → IsTimed now cs
      → Holds end k now m
      → Holds end k (last_time now cs) (run maximum cs m)
  unfolding run
  run-Holds start end k [] now m a s t h = h
  run-Holds start end k ((at, c) ∷ cs) now m (a, rest) s (l, t) h =
      run-Holds start end k cs at (step maximum (at, c) m) rest (ground arith) t
        (a at m (ground arith) λ u l' e. ground (arith, h u))

  -- A run that never names a key leaves it as it was.
  pub run_frame :
      (k : String) (cs : List (ℕ × Call)) (now later : ℕ) (m : Memory C)
      → All (λ c. Untouched k c.1) cs
      → IsTimed now cs
      → last_time now cs ≤ later
      → get_in_memory later k (run maximum cs m) ≡ get_in_memory later k m
  unfolding run
  run_frame k [] now later m a t l = refl
  run_frame k ((at, c) ∷ cs) now later m (a, rest) (s, t) l =
      run_frame k cs at later (step maximum (at, c) m) rest t l
      ∙ step_frame maximum at later k c m (last_time_le at cs later t l) a
