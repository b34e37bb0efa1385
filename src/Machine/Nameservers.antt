-- ===== src/Machine/Nameservers.antt =====
-- The name servers that a machine is given (GetLimitedNameservers).
use cluster_api_provider_elf.Base.{
  ℕ, zero, suc, ◌≤◌, String, ◌≡◌, false, List, [], ◌∷◌, length, take, any, arith, str_eq, eq_iff,
  if◌then◌else◌, ltb, Bool-cases, inl, inr, All, All-take, weaken,
}
use cluster_api_provider_elf.Cache.{AllDistinct}
use cluster_api_provider_elf.Machine.{NetworkSpec}
use cluster_api_provider_elf.Machine.Network.{
  distinct_from, all_nameservers, get_limited_nameservers,
}

-- The name server is not among those that were seen.
abbrev pub IsNew : List String → String → Type 0
IsNew seen n = any (str_eq n) seen ≡ false

distinct_from-IsNew : (seen ns : List String) → All (IsNew seen) (distinct_from seen ns)
unfolding distinct_from any
distinct_from-IsNew seen [] = tt
distinct_from-IsNew seen (n ∷ ns) = elim (Bool-cases (any (str_eq n) seen)) [
  | inl e ↦ rw e (distinct_from-IsNew seen ns)
  | inr e ↦ rw e (
    e,
    weaken (λ j (h : IsNew (n ∷ seen) j). ground (arith, h)) (distinct_from (n ∷ seen) ns)
        (distinct_from-IsNew (n ∷ seen) ns),
  )
]

distinct_from-AllDistinct : (seen ns : List String) → AllDistinct (distinct_from seen ns)
unfolding distinct_from any
distinct_from-AllDistinct seen [] = tt
distinct_from-AllDistinct seen (n ∷ ns) = elim (Bool-cases (any (str_eq n) seen)) [
  | inl e ↦ rw e (distinct_from-AllDistinct seen ns)
  | inr e ↦ rw e (
    weaken (λ j (h : IsNew (n ∷ seen) j). ground (arith, h, eq_iff n j, eq_iff j n))
        (distinct_from (n ∷ seen) ns) (distinct_from-IsNew (n ∷ seen) ns),
    distinct_from-AllDistinct (n ∷ seen) ns,
  )
]

take-AllDistinct : (n : ℕ) (ks : List String) → AllDistinct ks → AllDistinct (take n ks)
take-AllDistinct zero ks d = tt
take-AllDistinct (suc n) [] d = tt
take-AllDistinct (suc n) (k ∷ ks) d =
    (All-take (λ j. str_eq k j ≡ false) n ks d.0, take-AllDistinct n ks d.1)

length-take_le : (n : ℕ) (ks : List String) → length (take n ks) ≤ n
length-take_le zero ks = omega arith
length-take_le (suc n) [] = omega arith
length-take_le (suc n) (k ∷ ks) = omega (arith, length-take_le n ks)

-- A machine is given at most as many name servers as the limit says, and none of them twice.
pub nameservers_limited :
    (limit : ℕ) (n : NetworkSpec)
    → (length (get_limited_nameservers limit n) ≤ limit)
      × AllDistinct (get_limited_nameservers limit n)
unfolding get_limited_nameservers
nameservers_limited limit n =
    let ks = distinct_from [] (all_nameservers n) in
    (
      ground (arith, length-take_le (length ks) ks, length-take_le limit ks),
      take-AllDistinct (if ltb (length ks) limit then length ks else limit) ks
          (distinct_from-AllDistinct [] (all_nameservers n)),
    )
