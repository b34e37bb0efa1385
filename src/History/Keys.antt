-- ===== src/History/Keys.antt =====
-- Which calls name the key of a ticket: the prefixes of the keys keep the others apart.
use cluster_api_provider_elf.Base.{
  String, ◌+++◌, ◌≡◌, refl, ap, ◌∙◌, ◌⊎◌, inl, inr, false, str_eq, eq_iff, Bool-cases, IsName,
  prefixed_eq, prefixed_ne, key_ne, key_suffix_ne,
}
use cluster_api_provider_elf.Limiter.{
  get_key_for_vm, get_key_for_vm_duplicate, get_key_for_placement_group,
}
use cluster_api_provider_elf.History.{
  Call, creates, releases, updates, marks_vm, locks_group, unlocks_group, marks_group, locks_gc,
  unlocks_gc, records_gc, reads_error, retries, records_error, caches_group, reads_group, sweeps,
  ErrorKey, error_key, memory, storage, placement,
}
use cluster_api_provider_elf.History.Frame.{Untouched}

error_ne_vm : (e : ErrorKey) (vm : String) → str_eq (error_key e) (get_key_for_vm vm) ≡ false
error_ne_vm (memory v) vm = prefixed_ne "insufficient:memory:" "vm:" v vm refl
error_ne_vm (storage v) vm = prefixed_ne "insufficient:storage:" "vm:" v vm refl
error_ne_vm (placement v) vm = prefixed_ne "pg:duplicate:" "vm:" v vm refl

-- The calls that take a ticket for updating a machine name its key; no other call does.
pub vm_call :
    (vm : String) → IsName vm → (c : Call) → Untouched (get_key_for_vm vm) c ⊎ (c ≡ updates vm)
vm_call vm n (creates v cp) = inl tt
vm_call vm n (releases v) = inl tt
vm_call vm n (updates v) = elim (Bool-cases (str_eq v vm)) [
  | inl e ↦ inr (ap updates ((eq_iff v vm).0 e))
  | inr e ↦ inl (prefixed_eq "vm:" v vm ∙ e, tt)
]
vm_call vm n (marks_vm v) = inl (key_ne "vm:" "duplicate:" vm v n refl, tt)
vm_call vm n (locks_group v) = inl (prefixed_ne "pg:" "vm:" v vm refl, tt)
vm_call vm n (unlocks_group v) = inl (prefixed_ne "pg:" "vm:" v vm refl, tt)
vm_call vm n (marks_group v) = inl (prefixed_ne "pg:duplicate:" "vm:" v vm refl, tt)
vm_call vm n (locks_gc v) =
    inl
      (prefixed_ne "label:gc:" "vm:" v vm refl, (prefixed_ne "label:gc:time:" "vm:" v vm refl, tt))
vm_call vm n (unlocks_gc v) = inl (prefixed_ne "label:gc:" "vm:" v vm refl, tt)
vm_call vm n (records_gc v) = inl (prefixed_ne "label:gc:time:" "vm:" v vm refl, tt)
vm_call vm n (reads_error e) = inl (error_ne_vm e vm, tt)
vm_call vm n (retries e amount) = inl (error_ne_vm e vm, tt)
vm_call vm n (records_error e amount b) = inl (error_ne_vm e vm, tt)
vm_call vm n (caches_group pg) = inl (prefixed_ne "pg:" "vm:" (pg.name +++ ":cache") vm refl, tt)
vm_call vm n (reads_group name) = inl (prefixed_ne "pg:" "vm:" (name +++ ":cache") vm refl, tt)
vm_call vm n sweeps = inl tt

error_ne_group :
    (e : ErrorKey) (group : String)
    → IsName group
    → str_eq (error_key e) (get_key_for_placement_group group) ≡ false
error_ne_group (memory v) group n = prefixed_ne "insufficient:memory:" "pg:" v group refl
error_ne_group (storage v) group n = prefixed_ne "insufficient:storage:" "pg:" v group refl
error_ne_group (placement v) group n = key_ne "pg:" "duplicate:" group v n refl

-- The lock of a placement group is named by its own lock and unlock only.
pub group_call :
    (group : String)
    → IsName group
    → (c : Call)
    → Untouched (get_key_for_placement_group group) c
      ⊎ ((c ≡ locks_group group) ⊎ (c ≡ unlocks_group group))
group_call group n (creates v cp) = inl tt
group_call group n (releases v) = inl tt
group_call group n (updates v) = inl (prefixed_ne "vm:" "pg:" v group refl, tt)
group_call group n (marks_vm v) = inl (prefixed_ne "vm:duplicate:" "pg:" v group refl, tt)
group_call group n (locks_group v) = elim (Bool-cases (str_eq v group)) [
  | inl e ↦ inr (inl (ap locks_group ((eq_iff v group).0 e)))
  | inr e ↦ inl (prefixed_eq "pg:" v group ∙ e, tt)
]
group_call group n (unlocks_group v) = elim (Bool-cases (str_eq v group)) [
  | inl e ↦ inr (inr (ap unlocks_group ((eq_iff v group).0 e)))
  | inr e ↦ inl (prefixed_eq "pg:" v group ∙ e, tt)
]
group_call group n (marks_group v) = inl (key_ne "pg:" "duplicate:" group v n refl, tt)
group_call group n (locks_gc v) = inl (
  prefixed_ne "label:gc:" "pg:" v group refl,
  (prefixed_ne "label:gc:time:" "pg:" v group refl, tt),
)
group_call group n (unlocks_gc v) = inl (prefixed_ne "label:gc:" "pg:" v group refl, tt)
group_call group n (records_gc v) = inl (prefixed_ne "label:gc:time:" "pg:" v group refl, tt)
group_call group n (reads_error e) = inl (error_ne_group e group n, tt)
group_call group n (retries e amount) = inl (error_ne_group e group n, tt)
group_call group n (records_error e amount b) = inl (error_ne_group e group n, tt)
group_call group n (caches_group pg) = inl (key_suffix_ne "pg:" ":cache" group pg.name n refl, tt)
group_call group n (reads_group name) = inl (key_suffix_ne "pg:" ":cache" group name n refl, tt)
group_call group n sweeps = inl tt

error_ne_duplicate :
    (e : ErrorKey) (vm : String) → str_eq (error_key e) (get_key_for_vm_duplicate vm) ≡ false
error_ne_duplicate (memory v) vm = prefixed_ne "insufficient:memory:" "vm:duplicate:" v vm refl
error_ne_duplicate (storage v) vm = prefixed_ne "insufficient:storage:" "vm:duplicate:" v vm refl
error_ne_duplicate (placement v) vm = prefixed_ne "pg:duplicate:" "vm:duplicate:" v vm refl

-- Besides the mark itself, the record of a duplicate is named at most by a machine whose name
-- begins with `duplicate:`.
pub duplicate_call :
    (vm : String) (c : Call)
    → Untouched (get_key_for_vm_duplicate vm) c
      ⊎ ((v : String) × ((c ≡ updates v) ⊎ (c ≡ marks_vm v)))
duplicate_call vm (creates v cp) = inl tt
duplicate_call vm (releases v) = inl tt
duplicate_call vm (updates v) = inr (v, inl refl)
duplicate_call vm (marks_vm v) = inr (v, inr refl)
duplicate_call vm (locks_group v) = inl (prefixed_ne "pg:" "vm:duplicate:" v vm refl, tt)
duplicate_call vm (unlocks_group v) = inl (prefixed_ne "pg:" "vm:duplicate:" v vm refl, tt)
duplicate_call vm (marks_group v) = inl (prefixed_ne "pg:duplicate:" "vm:duplicate:" v vm refl, tt)
duplicate_call vm (locks_gc v) = inl (
  prefixed_ne "label:gc:" "vm:duplicate:" v vm refl,
  (prefixed_ne "label:gc:time:" "vm:duplicate:" v vm refl, tt),
)
duplicate_call vm (unlocks_gc v) = inl (prefixed_ne "label:gc:" "vm:duplicate:" v vm refl, tt)
duplicate_call vm (records_gc v) = inl (prefixed_ne "label:gc:time:" "vm:duplicate:" v vm refl, tt)
duplicate_call vm (reads_error e) = inl (error_ne_duplicate e vm, tt)
duplicate_call vm (retries e amount) = inl (error_ne_duplicate e vm, tt)
duplicate_call vm (records_error e amount b) = inl (error_ne_duplicate e vm, tt)
duplicate_call vm (caches_group pg) =
    inl (prefixed_ne "pg:" "vm:duplicate:" (pg.name +++ ":cache") vm refl, tt)
duplicate_call vm (reads_group name) =
    inl (prefixed_ne "pg:" "vm:duplicate:" (name +++ ":cache") vm refl, tt)
duplicate_call vm sweeps = inl tt
