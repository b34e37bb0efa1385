-- ===== src/Base/Dict.antt =====
-- Go maps keyed by strings, as association lists. The order of the list stands for the order
-- in which one `range` loop meets the entries.
use Prim.Native.String.{String}
use mathlib.Core.Path.{◌≡◌, refl}
use mathlib.Core.Bool.{true, false}
use mathlib.Core.Option.{Option, none, some}
use mathlib.Core.List.{List, [], ◌∷◌}
use native.Mathlib.Omega.{arith}
use text.Mathlib.Text.{◌==◌ as str_eq}
use text.Mathlib.TextEquality.{eq_iff}
use cluster_api_provider_elf.Base.Tests.{if◌then◌else◌}

pub eq_self : (s : String) → str_eq s s ≡ true
eq_self s = (eq_iff s s).1 refl

module _ {ℓ} {V : Type ℓ} where
  unfoldable pub lookup : String → List (String × V) → Option V
  lookup k [] = none
  lookup k ((j, v) ∷ m) = if str_eq j k then some v else lookup k m

  -- `m[k] = v`: an entry keeps its place, a new key goes to the end.
  unfoldable pub insert : String → V → List (String × V) → List (String × V)
  insert k v [] = (k, v) ∷ []
  insert k v ((j, w) ∷ m) = if str_eq j k then (k, v) ∷ m else (j, w) ∷ insert k v m

  -- `delete(m, k)`
  unfoldable pub delete : String → List (String × V) → List (String × V)
  delete k [] = []
  delete k ((j, w) ∷ m) = if str_eq j k then delete k m else (j, w) ∷ delete k m

  pub lookup-insert :
      (key asked : String) (value : V) (dict : List (String × V))
      → lookup asked (insert key value dict)
        ≡ (if str_eq key asked then some value else lookup asked dict)
  unfolding insert lookup
  lookup-insert key asked value [] = refl
  lookup-insert key asked value (e ∷ dict) = ground (
    arith,
    lookup-insert key asked value dict,
    eq_iff e.0 asked,
    eq_iff e.0 key,
    eq_iff key asked,
  )

  pub lookup-delete :
      (key asked : String) (dict : List (String × V))
      → lookup asked (delete key dict) ≡ (if str_eq key asked then none else lookup asked dict)
  unfolding delete lookup
  lookup-delete key asked [] = ground arith
  lookup-delete key asked (e ∷ dict) =
      ground
        (arith, lookup-delete key asked dict, eq_iff e.0 asked, eq_iff e.0 key, eq_iff key asked)

  -- No entry of the list has the key.
  abbrev pub Fresh : String → List (String × V) → Type 0
  Fresh k [] = Unit
  Fresh k ((j, v) ∷ m) = (str_eq j k ≡ false) × Fresh k m

  -- Each key stands once: what a Go map guarantees.
  abbrev pub IsMap : List (String × V) → Type 0
  IsMap [] = Unit
  IsMap ((k, v) ∷ m) = Fresh k m × IsMap m

  pub Fresh-insert :
      (k j : String) (v : V) (m : List (String × V))
      → str_eq j k ≡ false
      → Fresh k m
      → Fresh k (insert j v m)
  unfolding insert
  Fresh-insert k j v [] h f = (h, tt)
  Fresh-insert k j v ((i, w) ∷ m) h f = ground (arith, Fresh-insert k j v m)

  pub insert-IsMap : (k : String) (v : V) (m : List (String × V)) → IsMap m → IsMap (insert k v m)
  unfolding insert
  insert-IsMap k v [] h = (tt, tt)
  insert-IsMap k v ((j, w) ∷ m) h =
      ground (arith, eq_iff j k, eq_iff k j, insert-IsMap k v m, Fresh-insert j k v m)

  pub Fresh-delete : (k j : String) (m : List (String × V)) → Fresh k m → Fresh k (delete j m)
  unfolding delete
  Fresh-delete k j [] f = tt
  Fresh-delete k j ((i, w) ∷ m) f = ground (arith, Fresh-delete k j m)

  pub delete-IsMap : (k : String) (m : List (String × V)) → IsMap m → IsMap (delete k m)
  unfolding delete
  delete-IsMap k [] h = tt
  delete-IsMap k ((j, w) ∷ m) h = ground (arith, delete-IsMap k m, Fresh-delete j k m)

  pub delete-Fresh : (k : String) (m : List (String × V)) → Fresh k (delete k m)
  unfolding delete
  delete-Fresh k [] = tt
  delete-Fresh k ((j, w) ∷ m) = ground (arith, delete-Fresh k m)

  pub delete_of_Fresh : (k : String) (m : List (String × V)) → Fresh k m → delete k m ≡ m
  unfolding delete
  delete_of_Fresh k [] f = refl
  delete_of_Fresh k ((j, w) ∷ m) f = ground (arith, delete_of_Fresh k m)

  pub lookup_of_Fresh : (k : String) (m : List (String × V)) → Fresh k m → lookup k m ≡ none
  unfolding lookup
  lookup_of_Fresh k [] f = refl
  lookup_of_Fresh k ((j, w) ∷ m) f = ground (arith, lookup_of_Fresh k m)
