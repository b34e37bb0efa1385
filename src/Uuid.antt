-- ===== src/Uuid.antt =====
-- pkg/util/types/uuid.go and the provider IDs of pkg/util/machine/machine.go: the UUIDs by which Tower
-- names virtual machines, and the IDs that the nodes carry.
pub mod ProviderId
use cluster_api_provider_elf.Base.{
  ℕ, zero, suc, String, Bool, true, false, ◌&&◌, ◌||◌, Option, none, some, List, [], ◌∷◌, leb, ◌==◌,
  str_eq, if◌then◌else◌, codes,
}

-- [a-f\d], in either case.
abbrev pub is_hex : ℕ → Bool
is_hex c = (leb 48 c && leb c 57) || ((leb 97 c && leb c 102) || (leb 65 c && leb c 70))

-- What follows `n` such characters.
unfoldable pub hexes : ℕ → List ℕ → Option (List ℕ)
hexes zero cs = some cs
hexes (suc n) [] = none
hexes (suc n) (c ∷ cs) = if is_hex c then hexes n cs else none

-- What follows a dash and `n` such characters.
unfoldable pub dash_hexes : ℕ → Option (List ℕ) → Option (List ℕ)
unfolding hexes
dash_hexes n (some (c ∷ cs)) = if c == b'-' then hexes n cs else none
dash_hexes n _ = none

abbrev pub at_end : Option (List ℕ) → Bool
at_end (some []) = true
at_end _ = false

-- UUIDPattern
unfoldable pub matches_uuid : List ℕ → Bool
unfolding dash_hexes
matches_uuid cs = at_end (dash_hexes 12 (dash_hexes 4 (dash_hexes 4 (dash_hexes 4 (hexes 8 cs)))))

unfoldable pub is_uuid : String → Bool
unfolding matches_uuid
is_uuid uuid = if str_eq uuid "" then false else matches_uuid (codes uuid)
