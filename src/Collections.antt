-- ===== src/Collections.antt =====
-- pkg/service/collections.go: the sets of hosts and of GPUs, maps by ID that are rebuilt by inserting
-- the values that pass a filter. A list stands for the random order in which Go meets the entries.
pub mod Laws
use cluster_api_provider_elf.Base.{
  String, ◌≡◌, Bool, true, false, ◌&&◌, Option, none, some, List, [], ◌∷◌, map, filter,
  if◌then◌else◌,
}
use cluster_api_provider_elf.Base.Dict
use cluster_api_provider_elf.Base.Dict.{IsMap}

module _ {V : Type 0} where
  -- UnsortedList
  unfoldable pub unsorted_list : List (String × V) → List V
  unsorted_list = map (λ e. e.1)

  -- And and GPUVMInfoFilterAnd
  unfoldable pub all_filters : List (V → Bool) → V → Bool
  all_filters [] v = true
  all_filters (f ∷ fs) v = if f v then all_filters fs v else false

-- What the two collections share: `id` is the key of a value.
module _ {V : Type 0} (id : V → String) where
  unfoldable pub insert : V → List (String × V) → List (String × V)
  insert v s = Dict.insert (id v) v s

  unfoldable pub insert_all : List V → List (String × V) → List (String × V)
  unfolding insert
  insert_all [] s = s
  insert_all (v ∷ vs) s = insert_all vs (insert v s)

  -- newFilteredHostCollection and newFilteredGPUVMInfoCollection
  unfoldable pub new_filtered : (V → Bool) → List V → List (String × V) → List (String × V)
  unfolding insert
  new_filtered p [] s = s
  new_filtered p (v ∷ vs) s = new_filtered p vs (if p v then insert v s else s)

  unfoldable pub filter_by : List (V → Bool) → List (String × V) → List (String × V)
  unfolding new_filtered all_filters unsorted_list
  filter_by fs s = new_filtered (all_filters fs) (unsorted_list s) []

  -- What NewHosts and Insert keep: each key stands once, and is the ID of its value.
  abbrev pub IsKeyed : List (String × V) → Type 0
  IsKeyed [] = Unit
  IsKeyed ((k, v) ∷ s) = (k ≡ id v) × IsKeyed s
