-- ===== src/Gpu/Locks/Room.antt =====
-- What the test of `lockGPUDevicesForVM` establishes.
use cluster_api_provider_elf.Base.{
  ℕ, ◌+◌, ◌-◌, ◌≤◌, ◌<◌, String, ◌≡◌, refl, subst, ◌∙◌, ◌⊎◌, inl, inr, true, false, List, [], ◌∷◌,
  Option, none, some, arith, str_eq, eq_iff, Bool-cases, All,
}
use cluster_api_provider_elf.Base.Dict.{lookup, insert, lookup-insert}
use cluster_api_provider_elf.Base.Int.{ℤ, pos, pos_part, int32, ◌-ℤ◌}
use cluster_api_provider_elf.Gpu.{GpuDeviceInfo, count_or_zero}
use cluster_api_provider_elf.Gpu.Locks.{
  LockedGpuDevice, LockedClusterGpuMap, get_locked_count_map, available_counts, exceeds, has_room,
  locked_devices,
}
use cluster_api_provider_elf.Gpu.Locks.Counts.{
  claimed, held, AreLocks, count_of-get_locked_count_map,
}

-- No GPU stands twice among the devices.
abbrev pub DistinctIds : List GpuDeviceInfo → Type 0
DistinctIds [] = Unit
DistinctIds (d ∷ ds) = All (λ e. str_eq d.id e.id ≡ false) ds × DistinctIds ds

-- The selection asks for no more than Tower says is available, and Tower for no more than `cap`.
pub record IsOffer (cap : String → ℕ) (d : GpuDeviceInfo) : Type 0 where
  pub asked : d.allocated_count ≡ pos (pos_part d.allocated_count)
  pub offered : d.available_count ≡ pos (pos_part d.available_count)
  pub enough : pos_part d.allocated_count ≤ pos_part d.available_count
  pub capped : pos_part d.available_count ≤ cap d.id

-- What the lists of devices and of available counts say of one GPU.
abbrev pub Claim : (String → ℕ) → String → List LockedGpuDevice → List (String × ℤ) → Type 0
Claim cap k ds counts =
    (a b : ℕ) × (claimed k ds ≡ a)
    × (a ≤ b)
    × (b ≤ cap k)
    × (lookup k counts ≡ some (int32 (pos b -ℤ pos a)))

claimed_absent :
    (k : String) (ds : List GpuDeviceInfo)
    → All (λ e. str_eq k e.id ≡ false) ds
    → claimed k (locked_devices ds) ≡ 0
unfolding locked_devices
claimed_absent k [] h = refl
claimed_absent k (d ∷ ds) h = ground (arith, eq_iff k d.id, eq_iff d.id k, claimed_absent k ds h.1)

lookup_absent :
    (k : String) (ds : List GpuDeviceInfo) (counts : List (String × ℤ))
    → All (λ e. str_eq k e.id ≡ false) ds
    → lookup k (available_counts ds counts) ≡ lookup k counts
unfolding available_counts
lookup_absent k [] counts h = refl
lookup_absent k (d ∷ ds) counts h =
    lookup_absent k ds _ h.1
    ∙ ground (
      arith,
      eq_iff k d.id,
      eq_iff d.id k,
      lookup-insert d.id k (int32 (d.available_count -ℤ d.allocated_count)) counts,
    )

offer_cases :
    (cap : String → ℕ) (k : String) (ds : List GpuDeviceInfo) (counts : List (String × ℤ))
    → DistinctIds ds
    → All (IsOffer cap) ds
    → (claimed k (locked_devices ds) ≡ 0)
      ⊎ Claim cap k (locked_devices ds) (available_counts ds counts)
unfolding locked_devices available_counts
offer_cases cap k [] counts u o = inl refl
offer_cases cap k (d ∷ ds) counts u o = elim (Bool-cases (str_eq d.id k)) [
  | inl e ↦
      let same : d.id ≡ k = (eq_iff d.id k).0 e in
      let others : All (λ x. str_eq k x.id ≡ false) ds =
        subst (λ j. All (λ (x : GpuDeviceInfo). str_eq j x.id ≡ false) ds) same u.0 in
      inr (
        pos_part d.allocated_count,
        pos_part d.available_count,
        ground (arith, e, claimed_absent k ds others),
        o.0.enough,
        subst (λ j. pos_part d.available_count ≤ cap j) same o.0.capped,
        lookup_absent k ds _ others
            ∙ ground (
              arith,
              e,
              o.0.asked,
              o.0.offered,
              lookup-insert d.id k (int32 (d.available_count -ℤ d.allocated_count)) counts,
            ),
      )
  | inr e ↦
      elim (offer_cases cap k ds
        (insert d.id (int32 (d.available_count -ℤ d.allocated_count)) counts) u.1 o.1) [
          | inl z ↦ inl (ground (arith, e))
          | inr (a, b, p, q, r, t) ↦ inr (a, b, ground (arith, e), q, r, t)
        ]
]

has_room_at :
    (locked counts : List (String × ℤ)) (k : String) (n : ℤ)
    → has_room locked counts ≡ true
    → lookup k counts ≡ some n
    → exceeds (lookup k locked) n ≡ false
unfolding has_room lookup
has_room_at locked [] k n h e = cc
has_room_at locked ((j, m) ∷ rest) k n h e = ground (arith, eq_iff j k, has_room_at locked rest k n)

sub-int32 : (a b : ℕ) → a ≤ b → b < 2147483648 → int32 (pos b -ℤ pos a) ≡ pos (b - a)
unfolding int32 ◌-ℤ◌
sub-int32 a b h l = ground arith

room_at :
    (o : Option ℤ) (a b t : ℕ)
    → count_or_zero o ≡ pos t
    → exceeds o (int32 (pos b -ℤ pos a)) ≡ false
    → a ≤ b
    → b < 2147483648
    → (t + a ≤ b) ⊎ ((o ≡ none) × (t ≡ 0))
room_at none a b t e x h l = inr (refl, ground arith)
room_at (some c) a b t e x h l = inl (ground (arith, sub-int32 a b h l))

-- If the test passes, then what the new lock claims of a GPU and what is held of it already fit its
-- capacity together, given that the lock asks for distinct GPUs within what is available, that no count
-- is negative, that what is held fits, and that the capacity is below 2^31.
pub has_room_sound :
    (cap : String → ℕ) (k : String) (ds : List GpuDeviceInfo) (es : LockedClusterGpuMap)
    → DistinctIds ds
    → All (IsOffer cap) ds
    → AreLocks es
    → held k es ≤ cap k
    → cap k < 2147483648
    → has_room (get_locked_count_map es) (available_counts ds []) ≡ true
    → claimed k (locked_devices ds) + held k es ≤ cap k
has_room_sound cap k ds es u o c h l r = elim (offer_cases cap k ds [] u o) [
  | inl z ↦ omega arith
  | inr (a, b, p, q, t, f) ↦
      elim (room_at (lookup k (get_locked_count_map es)) a b (held k es)
        (count_of-get_locked_count_map k es c (omega arith))
        (has_room_at (get_locked_count_map es) (available_counts ds []) k _ r f) q (omega arith)) [
          | inl s ↦ omega arith
          | inr s ↦ omega (arith, s.1)
        ]
]
