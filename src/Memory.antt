-- ===== src/Memory.antt =====
-- What the controllers keep in the memory of their process: the two caches of
-- controllers/vm_limiter.go, with the values that are stored in them, and the heap of the
-- `*clusterResource` objects of controllers/tower_cache.go, which the cache holds by pointer.
use cluster_api_provider_elf.Base.{ℕ, ◌==◌, if◌then◌else◌}
use cluster_api_provider_elf.Base.Int.{ℤ}
use cluster_api_provider_elf.Tower.{PlacementGroup, GpuVmInfo}

pub record ClusterResource : Type 0 where
  pub last_detected : ℕ
  pub last_retried : ℕ
  pub request_amount : ℤ

-- The values of the caches, by their dynamic types.
pub data Value : Type 0 where
  nil : Value
  time : ℕ → Value
  resource : ℕ → Value
  placement_group : PlacementGroup → Value
  gpu_vm_info : GpuVmInfo → Value

pub record Memory (C : Type 0) : Type 0 where
  pub in_memory : C
  pub vm_concurrent : C
  -- The object behind each pointer, and the next pointer that an allocation takes.
  pub resources : ℕ → ClusterResource
  pub next_resource : ℕ

abbrev pub write : (ℕ → ClusterResource) → ℕ → ClusterResource → ℕ → ClusterResource
write h p r q = if q == p then r else h q
