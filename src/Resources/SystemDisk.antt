-- ===== src/Resources/SystemDisk.antt =====
-- GetVMSystemDisk of pkg/service/util.go: the disk that it finds is one of the disks, and none has a
-- smaller boot value.
use cluster_api_provider_elf.Base.{
  ◌≡◌, refl, subst, ◌⊎◌, inl, inr, Bool, true, false, Option, none, some, List, [], ◌∷◌, All, arith,
  if◌then◌else◌,
}
use cluster_api_provider_elf.Base.Int.{ℤ, ◌≤ℤ◌, ltb_ℤ}
use cluster_api_provider_elf.Tower.{VmDisk}
use cluster_api_provider_elf.Resources.Volume.{least_boot, get_vm_system_disk}

abbrev pub IsAmong : VmDisk → List VmDisk → Type 0
IsAmong disk [] = true ≡ false
IsAmong disk (d ∷ ds) = (disk ≡ d) ⊎ IsAmong disk ds

-- The system disk of the disks, described without the loop.
pub record IsSystemDisk (disks : List VmDisk) (disk : VmDisk) : Type 0 where
  pub is_among : IsAmong disk disks
  pub boots_first : All (λ d. disk.boot ≤ℤ d.boot) disks

-- The system disk, if one is found.
abbrev Of : List VmDisk → Option VmDisk → Type 0
Of disks none = Unit
Of disks (some disk) = IsSystemDisk disks disk

le_trans : (a b c : ℤ) → a ≤ℤ b → b ≤ℤ c → a ≤ℤ c
le_trans a b c h k = ground arith

le_of_ltb : (a b : ℤ) → ltb_ℤ a b ≡ true → a ≤ℤ b
le_of_ltb a b h = ground arith

le_of_not : (a b : ℤ) → ltb_ℤ a b ≡ false → b ≤ℤ a
le_of_not a b h = ground arith

le_self : (a : ℤ) → a ≤ℤ a
le_self a = ground arith

-- What the loop, from the disk `best` on, is to find among the disks that follow.
abbrev IsLeast : VmDisk → List VmDisk → VmDisk → Type 0
IsLeast best ds disk =
    ((disk ≡ best) ⊎ IsAmong disk ds) × (disk.boot ≤ℤ best.boot) × All (λ d. disk.boot ≤ℤ d.boot) ds

-- One disk more, which is smaller or not.
IsLeast-step :
    (best d : VmDisk) (ds : List VmDisk) (disk : VmDisk) (b : Bool)
    → ltb_ℤ d.boot best.boot ≡ b
    → IsLeast (if b then d else best) ds disk
    → IsLeast best (d ∷ ds) disk
IsLeast-step best d ds disk true e (from, le, rest) =
    (inr from, le_trans disk.boot d.boot best.boot le (le_of_ltb d.boot best.boot e), (le, rest))
IsLeast-step best d ds disk false e (inl same, le, rest) =
    (inl same, le, (le_trans disk.boot best.boot d.boot le (le_of_not d.boot best.boot e), rest))
IsLeast-step best d ds disk false e (inr among, le, rest) = (
  inr (inr among),
  le,
  (le_trans disk.boot best.boot d.boot le (le_of_not d.boot best.boot e), rest),
)

least_boot-IsLeast : (best : VmDisk) (ds : List VmDisk) → IsLeast best ds (least_boot best ds)
unfolding least_boot
least_boot-IsLeast best [] = (inl refl, le_self best.boot, tt)
least_boot-IsLeast best (d ∷ ds) =
    let next = if ltb_ℤ d.boot best.boot then d else best in
    IsLeast-step best d ds (least_boot next ds) (ltb_ℤ d.boot best.boot) refl
      (least_boot-IsLeast next ds)

head_lem :
    (d : VmDisk) (ds : List VmDisk) (disk : VmDisk)
    → (disk ≡ d) ⊎ IsAmong disk (d ∷ ds)
    → IsAmong disk (d ∷ ds)
head_lem d ds disk (inl same) = inl same
head_lem d ds disk (inr among) = among

pub system_disk_lem :
    (disks : List VmDisk) (disk : VmDisk)
    → get_vm_system_disk disks ≡ some disk
    → IsSystemDisk disks disk
unfolding get_vm_system_disk
system_disk_lem [] disk h = let e : none ≡ some disk = h in cc
system_disk_lem (d ∷ ds) disk h =
    let found = least_boot d (d ∷ ds) in
    let (from, le, rest) = least_boot-IsLeast d (d ∷ ds) in
    subst (λ o. Of (d ∷ ds) o) h
      (record { is_among = head_lem d ds found from; boots_first = rest })
