-- ===== src/Cache.antt =====
-- The interface of github.com/patrickmn/go-cache, which the controllers call and which is not part
-- of the repository: its operations, and what its documentation says of them. Times and
-- durations are seconds; an expiration of `none` is `cache.NoExpiration`.
pub mod Assoc
use cluster_api_provider_elf.Base.{
  ℕ, ◌+◌, ◌≤◌, String, ◌≡◌, ◌≢◌, Bool, true, false, not, ◌&&◌, Option, none, some, List, [], ◌∷◌,
  length, All, leb, str_eq, if◌then◌else◌,
}

-- An entry stored at `stored` for the given duration is still found at `now`.
abbrev pub alive : ℕ → Option ℕ → ℕ → Bool
alive stored none now = true
alive stored (some d) now = leb now (stored + d)

-- No key stands twice in the list.
abbrev pub AllDistinct : List String → Type 0
AllDistinct [] = Unit
AllDistinct (k ∷ ks) = All (λ j. str_eq k j ≡ false) ks × AllDistinct ks

pub record GoCache (C : Type 0) (V : Type 0) : Type 0 where
  pub get : ℕ → String → C → Option V
  pub set : ℕ → String → V → Option ℕ → C → C
  pub delete : String → C → C
  -- Entries that have expired and are not yet swept count too.
  pub item_count : C → ℕ
  -- What the janitor runs at an interval.
  pub delete_expired : ℕ → C → C
  pub get-set :
      (now later : ℕ) (k j : String) (v : V) (d : Option ℕ) (c : C)
      → get later j (set now k v d c)
        ≡ (if str_eq k j then (if alive now d later then some v else none) else get later j c)
  pub get-delete :
      (now : ℕ) (k j : String) (c : C)
      → get now j (delete k c) ≡ (if str_eq k j then none else get now j c)
  pub get-delete_expired :
      (now later : ℕ) (j : String) (c : C)
      → now ≤ later
      → get later j (delete_expired now c) ≡ get later j c
  pub item_count-set :
      (now : ℕ) (k : String) (v : V) (d : Option ℕ) (c : C)
      → item_count (set now k v d c) ≤ item_count c + 1
  pub item_count-delete : (k : String) (c : C) → item_count (delete k c) ≤ item_count c
  pub item_count-delete_expired :
      (now : ℕ) (c : C) → item_count (delete_expired now c) ≤ item_count c
  pub live_le :
      (now : ℕ) (ks : List String) (c : C)
      → AllDistinct ks
      → All (λ k. get now k c ≢ none) ks
      → length ks ≤ item_count c
