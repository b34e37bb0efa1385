-- ===== src/CloudInit/Args.antt =====
-- The provider ID among the arguments of the kubelet: it is set once, and a read finds it.
use cluster_api_provider_elf.Base.{
  ◌≡◌, refl, ap, subst, ◌∙◌, inl, inr, String, Bool, true, false, Option, none, some, ok, str_eq,
  Bool-cases, Option-cases,
}
use cluster_api_provider_elf.Yaml.{
  document, sequence, mapping, scalar, alias, Node, node, Nodes, nil, cons, is_mapping, find_in,
  set_in, append, empty_mapping, empty_sequence, find_yaml_map_value, get_yaml_map_string,
  append_yaml_map_value, upsert_yaml_map_string, upsert_named_value_sequence_item,
  new_string_yaml_node,
}
use cluster_api_provider_elf.Yaml.Laws.{
  IsPaired, ArePaired, Upserted, upserted_lem, item_upserted_lem, value_named, find-set, set_same,
  find-append,
}
use cluster_api_provider_elf.CloudInit.{
  provider_id_value, provide, new_extra_args, set_provider_id, ensure_kubelet_provider_id,
}

-- The arguments of the kubelet are a tree as the parser gives it.
abbrev pub AreArgs : Node → Type 0
AreArgs (node mapping t x ns) = IsPaired ns
AreArgs (node sequence t x ns) = ArePaired ns
AreArgs _ = Unit

-- The provider ID among the arguments, in either version of kubeadm.
unfoldable pub provider_id : Node → String
unfolding value_named get_yaml_map_string
provider_id (node mapping t x ns) = get_yaml_map_string (node mapping t x ns) "provider-id"
provider_id (node sequence t x ns) = value_named "provider-id" ns
provider_id _ = ""

record Provided (r : Bool × Node) : Type 0 where
  pub once : set_provider_id r.1 ≡ (false, r.1)
  pub seen : r.0 ≡ true → provider_id r.1 ≡ provider_id_value

-- For a mapping.
as_mapping :
    (n : Node)
    → is_mapping n ≡ true
    → (set_provider_id n ≡ upsert_yaml_map_string n "provider-id" provider_id_value)
      × (provider_id n ≡ get_yaml_map_string n "provider-id")
unfolding set_provider_id provider_id get_yaml_map_string
as_mapping (node mapping t x ns) h = (refl, refl)
as_mapping (node sequence t x ns) h = cc
as_mapping (node document t x ns) h = cc
as_mapping (node scalar t x ns) h = cc
as_mapping (node alias t x ns) h = cc

mapping_args_lem : (r : Bool × Node) → Upserted "provider-id" provider_id_value r → Provided r
mapping_args_lem r u =
    let (same, read) = as_mapping r.1 u.stays in
    record { once = same ∙ u.once; seen = λ q. read ∙ u.seen q }

sequence_args_lem :
    (t x : String) (ns : Nodes)
    → ArePaired ns
    → Provided
        (upsert_named_value_sequence_item (node sequence t x ns) "provider-id" provider_id_value)
unfolding set_provider_id upsert_named_value_sequence_item provider_id value_named
sequence_args_lem t x ns p =
    let u = item_upserted_lem "provider-id" provider_id_value ns p in
    record {
      once = ap (λ (r : Bool × Nodes). (r.0, node sequence t x r.1)) u.once;
      seen = λ q. u.seen q;
    }

args_lem : (args : Node) → AreArgs args → Provided (set_provider_id args)
unfolding set_provider_id
args_lem (node mapping t x ns) p =
    mapping_args_lem (upsert_yaml_map_string (node mapping t x ns) "provider-id" provider_id_value)
      (upserted_lem "provider-id" provider_id_value t x ns p)
args_lem (node sequence t x ns) p = sequence_args_lem t x ns p
args_lem (node document t x ns) p = record { once = refl; seen = λ q. cc }
args_lem (node scalar t x ns) p = record { once = refl; seen = λ q. cc }
args_lem (node alias t x ns) p = record { once = refl; seen = λ q. cc }

pub given_lem : (a b : Node) → some a ≡ some b → a ≡ b
given_lem a b h = cc

unfoldable pub provider_id_in : Option Node → String
unfolding provider_id
provider_id_in none = ""
provider_id_in (some args) = provider_id args

-- The provider ID of the mapping at nodeRegistration.
unfoldable pub registered : Node → String
unfolding provider_id_in find_yaml_map_value
registered registration = provider_id_in (find_yaml_map_value registration "kubeletExtraArgs")

new_AreArgs : (root args : Node) → new_extra_args root ≡ some args → AreArgs args
unfolding new_extra_args
new_AreArgs root args h =
    let version = get_yaml_map_string root "apiVersion" in
    elim (Bool-cases (str_eq version "kubeadm.k8s.io/v1beta3")) [
      | inl three ↦ subst AreArgs (given_lem empty_mapping args (rw three at h)) tt
      | inr other ↦ elim (Bool-cases (str_eq version "kubeadm.k8s.io/v1beta4")) [
        | inl four ↦ subst AreArgs (given_lem empty_sequence args (rw (other, four) at h)) tt
        | inr none_of ↦ let e : none ≡ some args = rw (other, none_of) at h in cc
      ]
    ]

module _ (root : Node) (t x : String) (ns : Nodes) where
  abbrev key : String
  key = "kubeletExtraArgs"

  with_args :
      (args : Node)
      → find_in key ns ≡ some args
      → ensure_kubelet_provider_id root (some (node mapping t x ns))
        ≡ ok (
          (set_provider_id args).0,
          some (node mapping t x (set_in key (set_provider_id args).1 ns)),
        )
  unfolding ensure_kubelet_provider_id find_yaml_map_value provide
  with_args args found =
      ap (λ (o : Option Node). ok (provide (node mapping t x ns) o (new_extra_args root))) found

  without_version :
      find_in key ns ≡ none
      → new_extra_args root ≡ none
      → ensure_kubelet_provider_id root (some (node mapping t x ns))
        ≡ ok (false, some (node mapping t x ns))
  unfolding ensure_kubelet_provider_id find_yaml_map_value provide
  without_version missing neither =
      ap (λ (o : Option Node). ok (provide (node mapping t x ns) o (new_extra_args root))) missing
      ∙ ap (λ (o : Option Node). ok (provide (node mapping t x ns) none o)) neither

  with_new_args :
      (args : Node)
      → find_in key ns ≡ none
      → new_extra_args root ≡ some args
      → ensure_kubelet_provider_id root (some (node mapping t x ns))
        ≡ ok (
          (set_provider_id args).0,
          some (
              node mapping t x
                (append ns (cons (new_string_yaml_node key) (cons (set_provider_id args).1 nil)))),
        )
  unfolding ensure_kubelet_provider_id find_yaml_map_value append_yaml_map_value provide
  with_new_args args missing made =
      ap (λ (o : Option Node). ok (provide (node mapping t x ns) o (new_extra_args root))) missing
      ∙ ap (λ (o : Option Node). ok (provide (node mapping t x ns) none o)) made

registered_lem :
    (t x : String) (ns : Nodes) (args : Node)
    → find_in "kubeletExtraArgs" ns ≡ some args
    → registered (node mapping t x ns) ≡ provider_id args
unfolding registered find_yaml_map_value provider_id_in
registered_lem t x ns args found = ap provider_id_in found

-- Once the arguments are as they are to be, a run leaves them.
run_again :
    (root : Node) (t x : String) (ns : Nodes) (args : Node)
    → find_in "kubeletExtraArgs" ns ≡ some args
    → set_provider_id args ≡ (false, args)
    → ensure_kubelet_provider_id root (some (node mapping t x ns))
      ≡ ok (false, some (node mapping t x ns))
run_again root t x ns args found u =
    with_args root t x ns args found
    ∙ ap (λ (r : Bool × Node). ok (r.0, some (node mapping t x (set_in "kubeletExtraArgs" r.1 ns))))
        u
    ∙ ap (λ (ms : Nodes). ok (false, some (node mapping t x ms)))
        (set_same "kubeletExtraArgs" args ns found)

-- One nodeRegistration, in all documents of the version.
pub record Settled (root registration : Node) : Type 0 where
  pub changed : Bool
  pub new : Node
  pub stays : is_mapping new ≡ true
  pub done : ensure_kubelet_provider_id root (some registration) ≡ ok (changed, some new)
  pub once :
      (root' : Node)
      → new_extra_args root' ≡ new_extra_args root
      → ensure_kubelet_provider_id root' (some new) ≡ ok (false, some new)
  pub seen : changed ≡ true → registered new ≡ provider_id_value

pub registration_lem :
    (root : Node) (t x : String) (ns : Nodes)
    → IsPaired ns
    → ((args : Node) → find_in "kubeletExtraArgs" ns ≡ some args → AreArgs args)
    → Settled root (node mapping t x ns)
registration_lem root t x ns p k =
    let key : String = "kubeletExtraArgs" in
    elim (Option-cases (find_in key ns)) [
      | inr (args, found) ↦
          let u = args_lem args (k args found) in
          let args' = (set_provider_id args).1 in
          let there = find-set key args' args ns found in
          record {
            changed = (set_provider_id args).0;
            new = node mapping t x (set_in key args' ns);
            stays = refl;
            done = with_args root t x ns args found;
            once = λ root' v. run_again root' t x (set_in key args' ns) args' there u.once;
            seen = λ q. registered_lem t x (set_in key args' ns) args' there ∙ u.seen q;
          }
      | inl missing ↦ elim (Option-cases (new_extra_args root)) [
        | inl neither ↦ record {
          changed = false;
          new = node mapping t x ns;
          stays = refl;
          done = without_version root t x ns missing neither;
          once = λ root' v. without_version root' t x ns missing (v ∙ neither);
          seen = λ q. cc;
        }
        | inr (args, made) ↦
            let u = args_lem args (new_AreArgs root args made) in
            let args' = (set_provider_id args).1 in
            let new = append ns (cons (new_string_yaml_node key) (cons args' nil)) in
            let there = find-append key key args' ns p missing in
            record {
              changed = (set_provider_id args).0;
              new = node mapping t x new;
              stays = refl;
              done = with_new_args root t x ns args missing made;
              once = λ root' v. run_again root' t x new args' there u.once;
              seen = λ q. registered_lem t x new args' there ∙ u.seen q;
            }
      ]
    ]
