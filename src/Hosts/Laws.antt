-- ===== src/Hosts/Laws.antt =====
-- How the sets of hosts that the controllers compute lie to one another.
use cluster_api_provider_elf.Base.{
  String, ◌≡◌, refl, sym, ap, ◌∙◌, Bool, true, false, not, ◌&&◌, ◌||◌, Option, none, some, List, [],
  ◌∷◌, any, arith, str_eq, eq_iff, Bool-cases, inl, inr,
}
use cluster_api_provider_elf.Base.Dict.{lookup, IsMap}
use cluster_api_provider_elf.Base.Int.{ℤ, pos, leb_ℤ}
use cluster_api_provider_elf.Tower.{
  Host, HostStatus, connected_healthy, connecting, MaintenanceMode, in_use,
}
use cluster_api_provider_elf.Collections.{filter_by, all_filters, IsKeyed}
use cluster_api_provider_elf.Collections.Laws.{kept_or, lookup-filtered}
use cluster_api_provider_elf.Hosts.{
  Hosts, is_found, is_available_host, contains_host, filter_available_hosts_with_enough_memory,
  difference, find, get_host,
}

abbrev pub passes : (Host → Bool) → Option Host → Bool
passes p none = false
passes p (some h) = p h

kept_lem :
    (p : Host → Bool) (o : Option Host)
    → is_found (kept_or (all_filters (p ∷ [])) o none) ≡ passes p o
unfolding all_filters
kept_lem p none = refl
kept_lem p (some h) = ground arith

available_lem :
    (memory : ℤ) (o : Option Host)
    → passes (λ x. (is_available_host (some x) memory).0) o ≡ (is_available_host o memory).0
unfolding is_available_host
available_lem memory none = refl
available_lem memory (some h) = refl

-- What a host is to be like to take a virtual machine, as a list of what is allowed.
abbrev works : Option HostStatus → Bool
works (some connected_healthy) = true
works (some connecting) = true
works _ = false

abbrev serves : Option MaintenanceMode → Bool
serves none = true
serves (some in_use) = true
serves _ = false

abbrev pub can_take : ℤ → Host → Bool
can_take memory h =
    works h.status
    && serves h.host_state
    && (leb_ℤ memory (pos 0) || leb_ℤ memory h.allocatable_memory_bytes)

-- A host that is available is there.
pub found_of_available :
    (o : Option Host) (memory : ℤ) → (is_available_host o memory).0 ≡ true → is_found o ≡ true
unfolding is_available_host
found_of_available none memory h = cc
found_of_available (some x) memory h = refl

-- A host stands under its ID.
passes_id :
    (s : Hosts) (k : String) (p : String → Bool)
    → IsKeyed (λ x. x.id) s
    → passes (λ h. p h.id) (lookup k s) ≡ (is_found (lookup k s) && p k)
unfolding lookup
passes_id [] k p h = refl
passes_id ((j, x) ∷ s) k p h = elim (Bool-cases (str_eq j k)) [
  | inl e ↦ rw e (ap p (sym h.0 ∙ (eq_iff j k).0 e))
  | inr e ↦ rw e (passes_id s k p h.1)
]

module _ (s : Hosts) (m : IsMap s) (h : IsKeyed (λ x. x.id) s) where
  contains_filtered :
      (p : Host → Bool) (k : String)
      → contains_host k (filter_by (λ x. x.id) (p ∷ []) s) ≡ passes p (lookup k s)
  unfolding contains_host
  contains_filtered p k =
      ap is_found (lookup-filtered (λ x. x.id) (p ∷ []) s k m h) ∙ kept_lem p (lookup k s)

  -- The difference holds the hosts of the one collection that are not in the other.
  pub contains-difference :
      (t : Hosts) (k : String)
      → contains_host k (difference s t) ≡ (contains_host k s && not (contains_host k t))
  unfolding difference contains_host
  contains-difference t k =
      contains_filtered (λ x. not (contains_host x.id t)) k
      ∙ passes_id s k (λ j. not (contains_host j t)) h

  pub contains-find :
      (targets : List String) (k : String)
      → contains_host k (find targets s) ≡ (contains_host k s && any (str_eq k) targets)
  unfolding find contains_host
  contains-find targets k =
      contains_filtered (λ x. any (str_eq x.id) targets) k
      ∙ passes_id s k (λ j. any (str_eq j) targets) h

  -- The filter for available hosts is the test of each host.
  pub contains-available :
      (memory : ℤ) (k : String)
      → contains_host k (filter_available_hosts_with_enough_memory memory s)
        ≡ (is_available_host (get_host k s) memory).0
  unfolding filter_available_hosts_with_enough_memory get_host
  contains-available memory k =
      contains_filtered (λ x. (is_available_host (some x) memory).0) k
      ∙ available_lem memory (lookup k s)
