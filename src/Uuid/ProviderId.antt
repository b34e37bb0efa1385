-- ===== src/Uuid/ProviderId.antt =====
-- ConvertUUIDToProviderID and ConvertProviderIDToUUID of pkg/util/machine/machine.go.
use Prim.Native.Char.{code}
use cluster_api_provider_elf.Base.{
  ℕ, ◌+◌, String, ◌+++◌, ◌≡◌, ◌⊎◌, Bool-cases, refl, ap, ◌∙◌, true, false, ◌&&◌, Option, none, some,
  List, [], ◌∷◌, leb, ◌==◌, str_eq, eq_iff, if◌then◌else◌, codes, arith, inl, inr,
}
use text.Mathlib.TextLemmas.{nil-append, cons-append}
use cluster_api_provider_elf.Base.Text.{str_eq_of_ne, codes-append}
use cluster_api_provider_elf.Uuid.{is_uuid, matches_uuid}

-- A capital Latin letter is read as the small one.
abbrev pub fold : ℕ → ℕ
fold c = if leb 65 c && leb c 90 then c + 32 else c

-- What follows a text that is `t` up to the case of its letters.
unfoldable pub after_fold : List ℕ → String → Option String
after_fold [] s = some s
after_fold (t ∷ ts) String.[] = none
after_fold (t ∷ ts) (String.◌∷◌ c s) = if fold (code c) == t then after_fold ts s else none

-- The group that ProviderIDPattern captures.
unfoldable pub capture : Option String → String
unfolding matches_uuid
capture none = ""
capture (some s) = if matches_uuid (codes s) then s else ""

abbrev pub provider_id_prefix : String
provider_id_prefix = "elf://"

unfoldable pub convert_provider_id_to_uuid : Option String → String
unfolding after_fold capture
convert_provider_id_to_uuid none = ""
convert_provider_id_to_uuid (some id) =
    if str_eq id "" then "" else capture (after_fold (codes provider_id_prefix) id)

unfoldable pub convert_uuid_to_provider_id : String → String
unfolding is_uuid
convert_uuid_to_provider_id uuid = if is_uuid uuid then provider_id_prefix +++ uuid else ""

-- The text has no capital letters.
abbrev pub IsFolded : String → Type 0
IsFolded String.[] = Unit
IsFolded (String.◌∷◌ c s) = ((fold (code c) == code c) ≡ true) × IsFolded s

after_fold-append : (p u : String) → IsFolded p → after_fold (codes p) (p +++ u) ≡ some u
unfolding after_fold
after_fold-append String.[] u h = ap some (nil-append u)
after_fold-append (String.◌∷◌ c p) u h =
    ap (after_fold (code c ∷ codes p)) (cons-append c p u) ∙ rw h.0 (after_fold-append p u h.1)

-- A provider ID is never empty.
prefix_nonempty : (u : String) → str_eq (provider_id_prefix +++ u) "" ≡ false
prefix_nonempty u =
    str_eq_of_ne _ _ λ e. ground (arith, codes-append provider_id_prefix u, ap codes e)

matches_of_uuid : (u : String) → is_uuid u ≡ true → matches_uuid (codes u) ≡ true
unfolding is_uuid
matches_of_uuid u h = ground arith

-- A UUID of a virtual machine comes back from the provider ID that is made of it.
pub provider_id_round_trip :
    (u : String)
    → is_uuid u ≡ true
    → convert_provider_id_to_uuid (some (convert_uuid_to_provider_id u)) ≡ u
unfolding convert_provider_id_to_uuid convert_uuid_to_provider_id capture
provider_id_round_trip u h =
    rw
      (
        h,
        prefix_nonempty u,
        after_fold-append provider_id_prefix u (refl, (refl, (refl, (refl, (refl, (refl, tt)))))),
      )
      (rw (matches_of_uuid u h) refl)

captured_uuid : (o : Option String) → (capture o ≡ "") ⊎ (is_uuid (capture o) ≡ true)
unfolding capture is_uuid
captured_uuid none = inl refl
captured_uuid (some s) = elim (Bool-cases (matches_uuid (codes s))) [
  | inl e ↦ elim (Bool-cases (str_eq s "")) [
    | inl z ↦ inl (rw e ((eq_iff s "").0 z))
    | inr z ↦ inr (rw (e, z) e)
  ]
  | inr e ↦ inl (rw e refl)
]

-- Whatever text a node carries as its provider ID, what is read from it is a UUID or empty.
pub read_uuid :
    (id : Option String)
    → (convert_provider_id_to_uuid id ≡ "") ⊎ (is_uuid (convert_provider_id_to_uuid id) ≡ true)
unfolding convert_provider_id_to_uuid capture is_uuid
read_uuid none = inl refl
read_uuid (some id) = elim (Bool-cases (str_eq id "")) [
  | inl e ↦ inl (rw e refl)
  | inr e ↦ rw e (captured_uuid (after_fold (codes provider_id_prefix) id))
]
