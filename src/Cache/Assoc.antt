-- ===== src/Cache/Assoc.antt =====
-- A cache as an association list: the assumptions of the interface can be met.
use cluster_api_provider_elf.Base.{
  ℕ, ◌+◌, ◌≤◌, String, ◌≡◌, refl, ◌≢◌, false, Option, none, some, List, [], ◌∷◌, length, All,
  str_eq, if◌then◌else◌, arith,
}
use cluster_api_provider_elf.Base.Dict
use cluster_api_provider_elf.Base.Dict.{lookup-insert, lookup-delete}
use cluster_api_provider_elf.Cache.{alive, AllDistinct, GoCache}

-- A value with the time at which it was stored and its duration.
pub record Item (V : Type 0) : Type 0 where
  pub value : V
  pub stored : ℕ
  pub duration : Option ℕ

module _ {V : Type 0} where
  unfoldable pub read : ℕ → Option (Item V) → Option V
  read now none = none
  read now (some i) = if alive i.stored i.duration now then some i.value else none

  unfoldable pub get : ℕ → String → List (String × Item V) → Option V
  unfolding read
  get now k c = read now (Dict.lookup k c)

  unfoldable pub put : ℕ → String → V → Option ℕ → List (String × Item V) → List (String × Item V)
  put now k v d c = Dict.insert k (record { value = v; stored = now; duration = d }) c

  pub get-put :
      (now later : ℕ) (k j : String) (v : V) (d : Option ℕ) (c : List (String × Item V))
      → get later j (put now k v d c)
        ≡ (if str_eq k j then (if alive now d later then some v else none) else get later j c)
  unfolding get put
  get-put now later k j v d c =
      ground (arith, lookup-insert k j (record { value = v; stored = now; duration = d }) c)

  pub get-delete :
      (now : ℕ) (k j : String) (c : List (String × Item V))
      → get now j (Dict.delete k c) ≡ (if str_eq k j then none else get now j c)
  unfolding get
  get-delete now k j c = ground (arith, lookup-delete k j c)

  pub length-put :
      (now : ℕ) (k : String) (v : V) (d : Option ℕ) (c : List (String × Item V))
      → length (put now k v d c) ≤ length c + 1
  unfolding put Dict.insert
  length-put now k v d [] = omega arith
  length-put now k v d ((j, w) ∷ c) = ground (arith, length-put now k v d c)

  pub length-delete :
      (k : String) (c : List (String × Item V)) → length (Dict.delete k c) ≤ length c
  unfolding Dict.delete
  length-delete k [] = omega arith
  length-delete k ((j, w) ∷ c) = ground (arith, length-delete k c)

  length-delete_found :
      (now : ℕ) (k : String) (c : List (String × Item V))
      → get now k c ≢ none
      → length (Dict.delete k c) + 1 ≤ length c
  unfolding get Dict.delete Dict.lookup
  length-delete_found now k [] h = absurd (h refl)
  length-delete_found now k ((j, w) ∷ c) h =
      ground (arith, length-delete k c, length-delete_found now k c)

  live-delete :
      (now : ℕ) (k : String) (ks : List String) (c : List (String × Item V))
      → All (λ j. str_eq k j ≡ false) ks
      → All (λ j. get now j c ≢ none) ks
      → All (λ j. get now j (Dict.delete k c) ≢ none) ks
  live-delete now k [] c d h = tt
  live-delete now k (j ∷ ks) c d h =
      (ground (arith, get-delete now k j c), live-delete now k ks c d.1 h.1)

  pub live-le-length :
      (now : ℕ) (ks : List String) (c : List (String × Item V))
      → AllDistinct ks
      → All (λ k. get now k c ≢ none) ks
      → length ks ≤ length c
  live-le-length now [] c d h = omega arith
  live-le-length now (k ∷ ks) c d h = omega (
    arith,
    length-delete_found now k c h.0,
    live-le-length now ks (Dict.delete k c) d.1 (live-delete now k ks c d.0 h.1),
  )

  -- A janitor that frees nothing: what `get` answers may not depend on it.
  abbrev pub sweep : ℕ → List (String × Item V) → List (String × Item V)
  sweep now c = c

instance abbrev pub assoc_cache : {V : Type 0} → GoCache (List (String × Item V)) V
assoc_cache {V} = record {
  get = get;
  set = put;
  delete = Dict.delete;
  item_count = length;
  delete_expired = sweep;
  get-set = get-put;
  get-delete = get-delete;
  get-delete_expired = λ now later j c h. refl;
  item_count-set = length-put;
  item_count-delete = length-delete;
  item_count-delete_expired = λ now c. omega arith;
  live_le = live-le-length;
}
