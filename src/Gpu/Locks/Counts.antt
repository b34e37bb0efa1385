-- ===== src/Gpu/Locks/Counts.antt =====
-- The locked counts of a cluster, as exact sums: what `getLockedCountMapWithoutLock` computes as long
-- as no int32 overflows.
use cluster_api_provider_elf.Base.{
  ℕ, ◌+◌, ◌<◌, String, ◌≡◌, refl, ap, ◌∙◌, List, [], ◌∷◌, arith, str_eq, eq_iff, if◌then◌else◌,
}
use cluster_api_provider_elf.Base.Dict.{lookup, lookup-insert}
use cluster_api_provider_elf.Base.Int.{ℤ, pos, pos_part, int32, ◌+ℤ◌}
use cluster_api_provider_elf.Gpu.{add_count, count_or_zero}
use cluster_api_provider_elf.Gpu.Locks.{
  LockedGpuDevice, LockedClusterGpuMap, count_devices, count_entries, get_locked_count_map,
}

-- The exact count that a list of devices claims of a GPU.
abbrev pub claimed : String → List LockedGpuDevice → ℕ
claimed k [] = 0
claimed k (d ∷ ds) = (if str_eq d.id k then pos_part d.count else 0) + claimed k ds

-- The exact count that all machines of a cluster claim of a GPU.
abbrev pub held : String → LockedClusterGpuMap → ℕ
held k [] = 0
held k ((vm, g) ∷ es) = claimed k g.gpu_devices + held k es

-- No count is negative.
abbrev pub AreCounts : List LockedGpuDevice → Type 0
AreCounts [] = Unit
AreCounts (d ∷ ds) = (d.count ≡ pos (pos_part d.count)) × AreCounts ds

abbrev pub AreLocks : LockedClusterGpuMap → Type 0
AreLocks [] = Unit
AreLocks ((vm, g) ∷ es) = AreCounts g.gpu_devices × AreLocks es

abbrev pub count_of : String → List (String × ℤ) → ℤ
count_of k counts = count_or_zero (lookup k counts)

int32_sum : (a b : ℕ) → a + b < 2147483648 → int32 (pos a +ℤ pos b) ≡ pos (a + b)
unfolding int32 ◌+ℤ◌
int32_sum a b h = ground arith

-- Each loop is exact at a GPU whose final count fits an int32, whatever happens to the others.
count_of-add_count :
    (key k : String) (n : ℤ) (counts : List (String × ℤ)) (v : ℕ)
    → count_of k counts ≡ pos v
    → n ≡ pos (pos_part n)
    → (if str_eq key k then pos_part n else 0) + v < 2147483648
    → count_of k (add_count key n counts) ≡ pos ((if str_eq key k then pos_part n else 0) + v)
unfolding add_count
count_of-add_count key k n counts v e hn h = ground (
  arith,
  eq_iff key k,
  int32_sum v (pos_part n),
  lookup-insert key k n counts,
  lookup-insert key k (int32 (count_of key counts +ℤ n)) counts,
)

count_of-count_devices :
    (k : String) (ds : List LockedGpuDevice) (counts : List (String × ℤ)) (v : ℕ)
    → count_of k counts ≡ pos v
    → AreCounts ds
    → claimed k ds + v < 2147483648
    → count_of k (count_devices ds counts) ≡ pos (claimed k ds + v)
unfolding count_devices
count_of-count_devices k [] counts v e c h = e ∙ ap pos (omega arith)
count_of-count_devices k (d ∷ ds) counts v e c h =
    let n = if str_eq d.id k then pos_part d.count else 0 in
    count_of-count_devices k ds (add_count d.id d.count counts) (n + v)
      (count_of-add_count d.id k d.count counts v e c.0 (omega arith)) c.1 (omega arith)
    ∙ ap pos (omega arith)

count_of-count_entries :
    (k : String) (es : LockedClusterGpuMap) (counts : List (String × ℤ)) (v : ℕ)
    → count_of k counts ≡ pos v
    → AreLocks es
    → held k es + v < 2147483648
    → count_of k (count_entries es counts) ≡ pos (held k es + v)
unfolding count_entries
count_of-count_entries k [] counts v e c h = e ∙ ap pos (omega arith)
count_of-count_entries k ((vm, g) ∷ es) counts v e c h =
    count_of-count_entries k es (count_devices g.gpu_devices counts) (claimed k g.gpu_devices + v)
      (count_of-count_devices k g.gpu_devices counts v e c.0 (omega arith)) c.1 (omega arith)
    ∙ ap pos (omega arith)

-- The locked count of a GPU is the exact sum over all machines of the cluster, as long as no count
-- is negative and the sum fits an int32; a GPU that is not counted has 0.
pub count_of-get_locked_count_map :
    (k : String) (es : LockedClusterGpuMap)
    → AreLocks es
    → held k es < 2147483648
    → count_of k (get_locked_count_map es) ≡ pos (held k es)
unfolding get_locked_count_map lookup
count_of-get_locked_count_map k es c h =
    count_of-count_entries k es [] 0 refl c (omega arith) ∙ ap pos (omega arith)
