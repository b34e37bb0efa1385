-- ===== src/PlacementGroup/Room/Laws.antt =====
-- Which hosts can take one more virtual machine of a placement group.
use cluster_api_provider_elf.Base.{
  String, ◌≡◌, refl, sym, ap, ◌∙◌, Bool, true, false, not, ◌&&◌, ◌||◌, Option, none, some, [], ◌∷◌,
  arith, str_eq, eq_iff, Bool-cases, inl, inr, if◌then◌else◌,
}
use cluster_api_provider_elf.Base.Dict.{eq_self, lookup, IsMap, lookup-insert}
use cluster_api_provider_elf.Base.Int.{ℤ, pos}
use cluster_api_provider_elf.Tower.{Host, Vm}
use cluster_api_provider_elf.Collections.{insert, IsKeyed}
use cluster_api_provider_elf.Collections.Laws.{filter_by_wf}
use cluster_api_provider_elf.Hosts.{
  Hosts, is_available_host, contains_host, get_host, filter_available_hosts_with_enough_memory,
  difference,
}
use cluster_api_provider_elf.Hosts.Laws.{contains-difference}
use cluster_api_provider_elf.PlacementGroup.Room.{
  is_running, is_suspended, keep_own_host, get_available_hosts_for_vm,
}

-- Whether a virtual machine runs on the host, which is healthy.
abbrev pub stays_on : Option Vm → String → Hosts → Bool
stays_on none id hosts = false
stays_on (some vm) id hosts =
    (is_running vm || is_suspended vm)
    && (str_eq vm.host_id id && (is_available_host (get_host id hosts) (pos 0)).0)

-- A value that a keyed map gives stands under its ID.
pub found_id :
    (hosts : Hosts) (id : String) (h : Host)
    → IsKeyed (λ x. x.id) hosts
    → get_host id hosts ≡ some h
    → h.id ≡ id
unfolding get_host lookup
found_id [] id h k e = cc
found_id ((j, x) ∷ s) id h k e = ground (arith, eq_iff j id, found_id s id h k.1)

contains-insert :
    (h : Host) (s : Hosts) (id : String)
    → contains_host id (insert (λ x. x.id) h s) ≡ (str_eq h.id id || contains_host id s)
unfolding contains_host insert
contains-insert h s id = ground (arith, lookup-insert h.id id h s)

insert_if :
    (b : Bool) (h : Host) (s : Hosts) (id : String)
    → contains_host id (if b then insert (λ x. x.id) h s else s)
      ≡ (contains_host id s || (str_eq h.id id && b))
insert_if true h s id = contains-insert h s id ∙ ground arith
insert_if false h s id = ground arith

either_host :
    (b c : Bool) (s t : Hosts) (id : String)
    → contains_host id (if b && not c then s else t)
      ≡ (if b && not c then contains_host id s else contains_host id t)
either_host b c s t id = ground arith

united_lem :
    (r own free kept o available u enough : Bool)
    → kept ≡ (free || (o && (available && not u)))
    → free ≡ (enough && not u)
    → (o ≡ true → own ≡ free)
    → (if r && not own then kept else free) ≡ (not u && (enough || (r && (o && available))))
united_lem r own free kept o available u enough h k e = ground arith

none_unavailable : (is_available_host none (pos 0)).0 ≡ false
unfolding is_available_host
none_unavailable = refl

module _ (hosts : Hosts) (m : IsMap hosts) (k : IsKeyed (λ x. x.id) hosts) where
  contains_free :
      (memory : ℤ) (used : Hosts) (id : String)
      → contains_host id (difference (filter_available_hosts_with_enough_memory memory hosts) used)
        ≡ (contains_host id (filter_available_hosts_with_enough_memory memory hosts)
            && not (contains_host id used))
  unfolding filter_available_hosts_with_enough_memory
  contains_free memory used id =
      let (m', k') =
        filter_by_wf (λ h. h.id) ((λ h. (is_available_host (some h) memory).0) ∷ []) hosts in
      contains-difference (filter_available_hosts_with_enough_memory memory hosts) m' k' used id

  kept_lem :
      (used available : Hosts) (own id : String) (o : Option Host)
      → get_host own hosts ≡ o
      → (str_eq own id ≡ true → get_host id hosts ≡ o)
      → contains_host id (keep_own_host used o available) ≡ (
          contains_host id available
          || (str_eq own id
              && ((is_available_host (get_host id hosts) (pos 0)).0
                  && not (contains_host id used))))
  unfolding keep_own_host
  kept_lem used available own id none e q = elim (Bool-cases (str_eq own id)) [
    | inl t ↦ rw (t, q t, none_unavailable) (ground arith)
    | inr f ↦ rw f (ground arith)
  ]
  kept_lem used available own id (some h) e q =
      let i : h.id ≡ own = found_id hosts own h k e in
      let b = (is_available_host (some h) (pos 0)).0 in
      let here = insert_if (b && not (contains_host h.id used)) h available id in
      let place : String → Bool =
        λ x. contains_host id available || (str_eq x id && (b && not (contains_host x used))) in
      elim (Bool-cases (str_eq own id)) [
        | inl t ↦ rw (t, q t) (here ∙ ap place (i ∙ (eq_iff own id).0 t) ∙ rw (eq_self id) refl)
        | inr f ↦ here ∙ ap place i ∙ rw f refl
      ]

  -- The hosts that can take one more virtual machine of a placement group are those that the group
  -- does not use and that are either available with enough memory, or healthy and the host on
  -- which the virtual machine already runs or is suspended, whatever memory is left there.
  pub available_hosts_exact :
      (memory : ℤ) (used : Hosts) (vm : Option Vm) (id : String)
      → contains_host id (get_available_hosts_for_vm memory hosts used vm) ≡ (
          not (contains_host id used)
          && (contains_host id (filter_available_hosts_with_enough_memory memory hosts)
              || stays_on vm id hosts))
  unfolding get_available_hosts_for_vm
  available_hosts_exact memory used none id = contains_free memory used id ∙ ground arith
  available_hosts_exact memory used (some vm) id =
      let free = difference (filter_available_hosts_with_enough_memory memory hosts) used in
      let kept =
        kept_lem used free vm.host_id id (get_host vm.host_id hosts) refl
          (λ t. ap (λ x. get_host x hosts) (sym ((eq_iff vm.host_id id).0 t))) in
      let same : (t : str_eq vm.host_id id ≡ true)
          → contains_host vm.host_id free ≡ contains_host id free =
        λ t. ap (λ x. contains_host x free) ((eq_iff vm.host_id id).0 t) in
      either_host (is_running vm || is_suspended vm) (contains_host vm.host_id free)
        (keep_own_host used (get_host vm.host_id hosts) free) free id
      ∙ united_lem (is_running vm || is_suspended vm) (contains_host vm.host_id free)
          (contains_host id free) _ _ _ _ _ kept (contains_free memory used id) same
