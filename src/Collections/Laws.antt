-- ===== src/Collections/Laws.antt =====
-- What a collection holds after it was filtered or extended.
use cluster_api_provider_elf.Base.{
  String, ◌≡◌, refl, ap, ◌∙◌, Bool, not, any, Option, none, some, List, [], ◌∷◌, arith, eq_iff,
  if◌then◌else◌, Bool-cases, inl, inr,
}
use cluster_api_provider_elf.Base.Dict
use cluster_api_provider_elf.Base.Dict.{IsMap, lookup-insert, insert-IsMap, lookup_of_Fresh}
use cluster_api_provider_elf.Collections.{
  insert, insert_all, unsorted_list, new_filtered, all_filters, filter_by, IsKeyed,
}

-- A value that passes, or else the default.
abbrev pub kept_or : {V : Type 0} → (V → Bool) → Option V → Option V → Option V
kept_or p none d = d
kept_or p (some v) d = if p v then some v else d

-- Passing all filters is being refused by none.
all_filters_lem :
    {V : Type 0} (fs : List (V → Bool)) (v : V) → all_filters fs v ≡ not (any (λ f. not (f v)) fs)
unfolding all_filters any
all_filters_lem [] v = refl
all_filters_lem (f ∷ fs) v = elim (Bool-cases (f v)) [
  | inl e ↦ rw e (all_filters_lem fs v)
  | inr e ↦ rw e refl
]

kept_lem :
    {V : Type 0} (fs : List (V → Bool)) (o : Option V)
    → kept_or (all_filters fs) o none ≡ kept_or (λ v. not (any (λ f. not (f v)) fs)) o none
kept_lem fs none = refl
kept_lem fs (some v) = ap (λ b. if b then some v else none) (all_filters_lem fs v)

module _ {V : Type 0} (id : V → String) where
  lookup-new_filtered :
      (p : V → Bool) (s acc : List (String × V)) (k : String)
      → IsMap s
      → IsKeyed id s
      → Dict.lookup k (new_filtered id p (unsorted_list s) acc)
        ≡ kept_or p (Dict.lookup k s) (Dict.lookup k acc)
  unfolding new_filtered unsorted_list Dict.lookup insert
  lookup-new_filtered p [] acc k m h = refl
  lookup-new_filtered p ((j, v) ∷ s) acc k m h = ground (
    arith,
    eq_iff j k,
    lookup_of_Fresh j s,
    lookup-insert (id v) k v acc,
    lookup-new_filtered p s acc k,
    lookup-new_filtered p s (Dict.insert (id v) v acc) k,
  )

  pub lookup-filtered :
      (fs : List (V → Bool)) (s : List (String × V)) (k : String)
      → IsMap s
      → IsKeyed id s
      → Dict.lookup k (filter_by id fs s) ≡ kept_or (all_filters fs) (Dict.lookup k s) none
  unfolding filter_by Dict.lookup
  lookup-filtered fs s k m h = lookup-new_filtered (all_filters fs) s [] k m h

  -- A filtered collection holds exactly the values of the collection that no filter refuses, each
  -- under its ID, if the collection is a map keyed by ID.
  pub lookup-filter_by :
      (fs : List (V → Bool)) (s : List (String × V)) (k : String)
      → IsMap s
      → IsKeyed id s
      → Dict.lookup k (filter_by id fs s)
        ≡ kept_or (λ v. not (any (λ f. not (f v)) fs)) (Dict.lookup k s) none
  lookup-filter_by fs s k m h = lookup-filtered fs s k m h ∙ kept_lem fs (Dict.lookup k s)

  insert-IsKeyed : (v : V) (s : List (String × V)) → IsKeyed id s → IsKeyed id (insert id v s)
  unfolding insert Dict.insert
  insert-IsKeyed v [] h = (refl, tt)
  insert-IsKeyed v ((j, w) ∷ s) h = ground (arith, insert-IsKeyed v s)

  insert-IsMap_lem : (v : V) (s : List (String × V)) → IsMap s → IsMap (insert id v s)
  unfolding insert
  insert-IsMap_lem v s m = insert-IsMap (id v) v s m

  new_filtered_wf :
      (p : V → Bool) (vs : List V) (s : List (String × V))
      → IsMap s
      → IsKeyed id s
      → IsMap (new_filtered id p vs s) × IsKeyed id (new_filtered id p vs s)
  unfolding new_filtered
  new_filtered_wf p [] s m h = (m, h)
  new_filtered_wf p (v ∷ vs) s m h = elim (Bool-cases (p v)) [
    | inl e ↦
        rw e (new_filtered_wf p vs (insert id v s) (insert-IsMap_lem v s m) (insert-IsKeyed v s h))
    | inr e ↦ rw e (new_filtered_wf p vs s m h)
  ]

  -- A filtered collection is a map again, keyed by ID, whatever the collection was.
  pub filter_by_wf :
      (fs : List (V → Bool)) (s : List (String × V))
      → IsMap (filter_by id fs s) × IsKeyed id (filter_by id fs s)
  unfolding filter_by
  filter_by_wf fs s = new_filtered_wf (all_filters fs) (unsorted_list s) [] tt tt

  -- Inserting values into a map keyed by ID, as NewHosts does into an empty one, gives such a map.
  pub insert_all_wf :
      (vs : List V) (s : List (String × V))
      → IsMap s
      → IsKeyed id s
      → IsMap (insert_all id vs s) × IsKeyed id (insert_all id vs s)
  unfolding insert_all
  insert_all_wf [] s m h = (m, h)
  insert_all_wf (v ∷ vs) s m h =
      insert_all_wf vs (insert id v s) (insert-IsMap_lem v s m) (insert-IsKeyed v s h)
