-- ===== src/Gpu/Select/Groups.antt =====
-- What a group of GPUs holds: the GPUs with that model, or vGPU type, in the order met.
use cluster_api_provider_elf.Base.{
  String, ◌≡◌, refl, sym, subst, ◌∙◌, ap, false, Option, none, some, List, [], ◌∷◌, ◌++◌, arith,
  str_eq, eq_iff, if◌then◌else◌, Bool-cases, inl, inr, All, weaken,
}
use cluster_api_provider_elf.Base.Dict.{
  lookup, lookup-insert, IsMap, Fresh, lookup_of_Fresh, eq_self,
}
use mathlib.Core.List.{append-nil, append_assoc}
use cluster_api_provider_elf.Tower.{GpuVmInfo}
use cluster_api_provider_elf.Collections.{IsKeyed}
use cluster_api_provider_elf.Gpu.{GpuVmInfos}
use cluster_api_provider_elf.Gpu.Select.{add_to_group, group_by}

-- The GPUs with a key, in order.
abbrev pub with_key : (GpuVmInfo → String) → String → GpuVmInfos → List GpuVmInfo
with_key key k [] = []
with_key key k ((id, g) ∷ gs) =
    if str_eq (key g) k then g ∷ with_key key k gs else with_key key k gs

abbrev members : Option (List GpuVmInfo) → List GpuVmInfo
members none = []
members (some gs) = gs

lookup-add_to_group :
    (key k : String) (g : GpuVmInfo) (groups : List (String × List GpuVmInfo))
    → lookup k (add_to_group key g groups)
      ≡ (if str_eq key k then some (members (lookup k groups) ++ g ∷ []) else lookup k groups)
unfolding add_to_group
lookup-add_to_group key k g groups = ground (
  arith,
  eq_iff key k,
  lookup-insert key k (g ∷ []) groups,
  lookup-insert key k (members (lookup key groups) ++ g ∷ []) groups,
)

-- A group with more GPUs at its end; no group without any.
abbrev joined : Option (List GpuVmInfo) → List GpuVmInfo → Option (List GpuVmInfo)
joined none [] = none
joined none (g ∷ gs) = some (g ∷ gs)
joined (some old) gs = some (old ++ gs)

joined-nil : (o : Option (List GpuVmInfo)) → joined o [] ≡ o
joined-nil none = refl
joined-nil (some old) = ap some (append-nil old)

joined-cons :
    (o : Option (List GpuVmInfo)) (g : GpuVmInfo) (gs : List GpuVmInfo)
    → joined (some (members o ++ g ∷ [])) gs ≡ joined o (g ∷ gs)
joined-cons none g gs = refl
joined-cons (some old) g gs = ap some (append_assoc old (g ∷ []) gs)

lookup-group_by_from :
    (key : GpuVmInfo → String) (k : String) (gs : GpuVmInfos)
    (groups : List (String × List GpuVmInfo))
    → lookup k (group_by key gs groups) ≡ joined (lookup k groups) (with_key key k gs)
unfolding group_by
lookup-group_by_from key k [] groups = sym (joined-nil _)
lookup-group_by_from key k ((id, g) ∷ gs) groups = elim (Bool-cases (str_eq (key g) k)) [
  | inl e ↦
      lookup-group_by_from key k gs (add_to_group (key g) g groups)
      ∙ rw (lookup-add_to_group (key g) k g groups, e)
          (joined-cons (lookup k groups) g (with_key key k gs))
  | inr e ↦
      lookup-group_by_from key k gs (add_to_group (key g) g groups)
      ∙ rw (lookup-add_to_group (key g) k g groups, e)
]

-- A lookup finds the GPUs with the key, if there are any.
abbrev pub found_group : List GpuVmInfo → Option (List GpuVmInfo)
found_group [] = none
found_group (g ∷ gs) = some (g ∷ gs)

joined-none : (gs : List GpuVmInfo) → joined none gs ≡ found_group gs
joined-none [] = refl
joined-none (g ∷ gs) = refl

pub lookup-group_by :
    (key : GpuVmInfo → String) (k : String) (gs : GpuVmInfos)
    → lookup k (group_by key gs []) ≡ found_group (with_key key k gs)
unfolding lookup
lookup-group_by key k gs = lookup-group_by_from key k gs [] ∙ joined-none _

-- The GPUs with a key are GPUs of the collection, under their IDs, and have the key.
abbrev pub IsOf : (GpuVmInfo → String) → String → GpuVmInfos → GpuVmInfo → Type 0
IsOf key k gs g = (lookup g.id gs ≡ some g) × (key g ≡ k)

IsOf-cons :
    (key : GpuVmInfo → String) (k id : String) (g : GpuVmInfo) (gs : GpuVmInfos)
    → Fresh id gs
    → (x : GpuVmInfo) → IsOf key k gs x
    → IsOf key k ((id, g) ∷ gs) x
unfolding lookup
IsOf-cons key k id g gs f x (l, e) = (ground (arith, eq_iff id x.id, lookup_of_Fresh id gs f), e)

pub with_key-IsOf :
    (key : GpuVmInfo → String) (k : String) (gs : GpuVmInfos)
    → IsMap gs
    → IsKeyed (λ g. g.id) gs
    → All (IsOf key k gs) (with_key key k gs)
unfolding lookup
with_key-IsOf key k [] m h = tt
with_key-IsOf key k ((id, g) ∷ gs) m h =
    let rest : All (IsOf key k ((id, g) ∷ gs)) (with_key key k gs) =
      weaken (IsOf-cons key k id g gs m.0) (with_key key k gs) (with_key-IsOf key k gs m.1 h.1) in
    elim (Bool-cases (str_eq (key g) k)) [
      | inl e ↦ rw e ((rw (← h.0, eq_self id), (eq_iff (key g) k).0 e), rest)
      | inr e ↦ rw e rest
    ]

-- No two GPUs of a list have one ID.
abbrev pub DistinctGpus : List GpuVmInfo → Type 0
DistinctGpus [] = Unit
DistinctGpus (g ∷ gs) = All (λ x. str_eq g.id x.id ≡ false) gs × DistinctGpus gs

pub with_key-DistinctGpus :
    (key : GpuVmInfo → String) (k : String) (gs : GpuVmInfos)
    → IsMap gs
    → IsKeyed (λ g. g.id) gs
    → DistinctGpus (with_key key k gs)
with_key-DistinctGpus key k [] m h = tt
with_key-DistinctGpus key k ((id, g) ∷ gs) m h = elim (Bool-cases (str_eq (key g) k)) [
  | inl e ↦ rw e (
    weaken
        (λ x (o : IsOf key k gs x).
          subst (λ j. str_eq j x.id ≡ false) h.0
            (ground (arith, eq_iff id x.id, lookup_of_Fresh id gs m.0, o.0)))
        (with_key key k gs) (with_key-IsOf key k gs m.1 h.1),
    with_key-DistinctGpus key k gs m.1 h.1,
  )
  | inr e ↦ rw e (with_key-DistinctGpus key k gs m.1 h.1)
]
