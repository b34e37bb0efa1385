-- ===== src/CloudInit/Laws.antt =====
-- What the change of one kubeadm document comes to.
use cluster_api_provider_elf.Base.{
  ◌≡◌, refl, sym, ap, subst, ◌∙◌, ◌⊎◌, inl, inr, String, Bool, true, false, Option, none, some,
  Result, ok, err, if◌then◌else◌, Bool-cases, Option-cases,
}
use cluster_api_provider_elf.Yaml.{
  document, sequence, mapping, scalar, alias, Node, node, Nodes, nil, cons, content, is_mapping,
  find_in, set_in, append, empty_mapping, find_yaml_map_value, get_yaml_map_string,
  append_yaml_map_value, ensure_yaml_mapping_value, mapping_at, new_string_yaml_node,
}
use cluster_api_provider_elf.Yaml.Laws.{
  IsPaired, IsPaired-append, find-set, set_same, find_set_other, find-append,
}
use cluster_api_provider_elf.CloudInit.{
  provider_id_value, nil_pointer, new_extra_args, ensure_kubelet_provider_id, put_registration,
  ensure_kubeadm_node_registration,
}
use cluster_api_provider_elf.CloudInit.Args.{AreArgs, given_lem, registered, registration_lem}

-- A document as the parser gives it, as far as the change depends on it.
pub record IsDocument (root : Node) : Type 0 where
  pub paired : IsPaired (content root)
  pub registration_paired :
      (r : Node) → find_in "nodeRegistration" (content root) ≡ some r → IsPaired (content r)
  pub args_paired :
      (r args : Node)
      → find_in "nodeRegistration" (content root) ≡ some r
      → find_in "kubeletExtraArgs" (content r) ≡ some args
      → AreArgs args

abbrev pub registered_in : Option Node → String
unfolding registered
registered_in none = ""
registered_in (some r) = registered r

-- The provider ID that a document gives the kubelet.
abbrev pub kubelet_provider_id : Node → String
unfolding registered_in find_yaml_map_value
kubelet_provider_id root = registered_in (find_yaml_map_value root "nodeRegistration")

-- What a change of a document leaves.
pub record Ensured (r : Bool × Node) : Type 0 where
  pub once : ensure_kubeadm_node_registration r.1 ≡ ok (false, r.1)
  pub seen : r.0 ≡ true → kubelet_provider_id r.1 ≡ provider_id_value

version_lem :
    (t x : String) (ns ms : Nodes)
    → find_in "apiVersion" ms ≡ find_in "apiVersion" ns
    → new_extra_args (node mapping t x ms) ≡ new_extra_args (node mapping t x ns)
unfolding new_extra_args get_yaml_map_string find_yaml_map_value
version_lem t x ns ms e = rw e refl

abbrev run_at : Option Node × Bool × Node → Result (Bool × Node)
run_at (r, added, root) = put_registration root (ensure_kubelet_provider_id root r)

no_registration :
    (root : Node)
    → (ensure_kubelet_provider_id root none ≡ ok (false, none))
      ⊎ (ensure_kubelet_provider_id root none ≡ err nil_pointer)
unfolding ensure_kubelet_provider_id
no_registration root = elim (Option-cases (new_extra_args root)) [
  | inl neither ↦ inl (rw (neither, ensure_kubelet_provider_id) refl)
  | inr (args, made) ↦ inr (rw (made, ensure_kubelet_provider_id) refl)
]

module _ (t x : String) (ns : Nodes) where
  abbrev whole : Node
  whole = node mapping t x ns

  with_registration :
      (old new : Node) (c : Bool)
      → find_in "nodeRegistration" ns ≡ some old
      → is_mapping old ≡ true
      → ensure_kubelet_provider_id whole (some old) ≡ ok (c, some new)
      → ensure_kubeadm_node_registration whole
        ≡ ok (c, node mapping t x (set_in "nodeRegistration" new ns))
  unfolding ensure_kubeadm_node_registration ensure_yaml_mapping_value find_yaml_map_value
      mapping_at
  with_registration old new c found m e =
      ap (λ (o : Option Node). run_at (mapping_at whole "nodeRegistration" o)) found
      ∙ ap (λ (b : Bool). run_at ((if b then some old else none), false, whole)) m
      ∙ ap (put_registration whole) e

  -- A registration of another kind is left, or ends the run.
  with_other :
      (old : Node)
      → find_in "nodeRegistration" ns ≡ some old
      → is_mapping old ≡ false
      → (ensure_kubeadm_node_registration whole ≡ ok (false, whole))
        ⊎ (ensure_kubeadm_node_registration whole ≡ err nil_pointer)
  unfolding ensure_kubeadm_node_registration ensure_yaml_mapping_value find_yaml_map_value
      mapping_at
  with_other old found m =
      let e =
        ap (λ (o : Option Node). run_at (mapping_at whole "nodeRegistration" o)) found
        ∙ ap (λ (b : Bool). run_at ((if b then some old else none), false, whole)) m in
      elim (no_registration whole) [
        | inl h ↦ inl (e ∙ ap (put_registration whole) h)
        | inr h ↦ inr (e ∙ ap (put_registration whole) h)
      ]

  kubelet_lem :
      (r : Node) → find_in "nodeRegistration" ns ≡ some r → kubelet_provider_id whole ≡ registered r
  unfolding find_yaml_map_value kubelet_provider_id registered_in
  kubelet_lem r found = ap registered_in found

-- Where a mapping stands at nodeRegistration.
there_lem :
    (t x : String) (ns : Nodes) (u y : String) (ms : Nodes)
    → IsDocument (node mapping t x ns)
    → find_in "nodeRegistration" ns ≡ some (node mapping u y ms)
    → (r : Bool × Node) × (ensure_kubeadm_node_registration (node mapping t x ns) ≡ ok r)
      × Ensured r
there_lem t x ns u y ms d found =
    let key : String = "nodeRegistration" in
    let old = node mapping u y ms in
    let root = node mapping t x ns in
    let root' : Node → Node = λ new. node mapping t x (set_in key new ns) in
    let s =
      registration_lem root u y ms (d.registration_paired old found)
        (λ args e. d.args_paired old args found e) in
    let ns' = set_in key s.new ns in
    let there = find-set key s.new old ns found in
    let version = version_lem t x ns ns' (find_set_other key "apiVersion" s.new ns refl) in
    (
      (s.changed, node mapping t x ns'),
      with_registration t x ns old s.new s.changed found refl s.done,
      record {
        once =
            with_registration t x ns' s.new s.new false there s.stays
              (s.once (node mapping t x ns') version)
            ∙ ap (λ (ms : Nodes). ok (false, node mapping t x ms)) (set_same key s.new ns' there);
        seen = λ q. kubelet_lem t x ns' s.new there ∙ s.seen q;
      },
    )

other_kind : false ≡ true → ⊥
other_kind h = cc

old_lem :
    (t x : String) (ns : Nodes) (old : Node)
    → IsDocument (node mapping t x ns)
    → find_in "nodeRegistration" ns ≡ some old
    → is_mapping old ≡ true
    → (r : Bool × Node) × (ensure_kubeadm_node_registration (node mapping t x ns) ≡ ok r)
      × Ensured r
old_lem t x ns (node mapping u y ms) d found m = there_lem t x ns u y ms d found
old_lem t x ns (node document u y ms) d found m = absurd (other_kind m)
old_lem t x ns (node sequence u y ms) d found m = absurd (other_kind m)
old_lem t x ns (node scalar u y ms) d found m = absurd (other_kind m)
old_lem t x ns (node alias u y ms) d found m = absurd (other_kind m)

-- A document with no nodeRegistration is changed as the one with an empty one is.
missing_lem :
    (t x : String) (ns : Nodes)
    → find_in "nodeRegistration" ns ≡ none
    → IsPaired ns
    → ensure_kubeadm_node_registration (node mapping t x ns)
      ≡ ensure_kubeadm_node_registration
          (append_yaml_map_value (node mapping t x ns) "nodeRegistration" empty_mapping)
unfolding ensure_kubeadm_node_registration ensure_yaml_mapping_value find_yaml_map_value mapping_at
    append_yaml_map_value
missing_lem t x ns missing p =
    let whole = node mapping t x ns in
    let key : String = "nodeRegistration" in
    let there = find-append key key empty_mapping ns p missing in
    let grown = append_yaml_map_value whole key empty_mapping in
    ap (λ (o : Option Node). run_at (mapping_at whole key o)) missing
    ∙ sym (ap (λ (o : Option Node). run_at (mapping_at grown key o)) there)

none_given : (args : Node) → find_in "kubeletExtraArgs" nil ≡ some args → AreArgs args
unfolding find_in
none_given args h = cc

grown_IsDocument :
    (t x : String) (ns : Nodes)
    → find_in "nodeRegistration" ns ≡ none
    → IsPaired ns
    → IsDocument (append_yaml_map_value (node mapping t x ns) "nodeRegistration" empty_mapping)
unfolding append_yaml_map_value
grown_IsDocument t x ns missing p =
    let key : String = "nodeRegistration" in
    let there = find-append key key empty_mapping ns p missing in
    let is_empty : (r : Node)
        → find_in key (append ns (cons (new_string_yaml_node key) (cons empty_mapping nil)))
          ≡ some r
        → empty_mapping ≡ r =
      λ r e. given_lem empty_mapping r (sym there ∙ e) in
    record {
      paired = IsPaired-append ns (new_string_yaml_node key) empty_mapping p;
      registration_paired = λ r e. subst (λ n. IsPaired (content n)) (is_empty r e) tt;
      args_paired = λ r args e k.
          none_given args (
            subst (λ n. find_in "kubeletExtraArgs" (content n) ≡ some args) (sym (is_empty r e)) k);
    }

same_answer {ℓ} : {A : Type ℓ} (a b : A) (q : Result A) → q ≡ ok a → q ≡ ok b → a ≡ b
same_answer a b q h k = cc

-- Where the answer is known.
from_answer :
    (q : Result (Bool × Node)) (r : Bool × Node)
    → q ≡ ok r
    → (s : Bool × Node) × (q ≡ ok s) × Ensured s
    → Ensured r
from_answer q r h (s, e, u) = subst Ensured (same_answer s r q e h) u

untouched :
    (root : Node) → ensure_kubeadm_node_registration root ≡ ok (false, root) → Ensured (false, root)
untouched root h = record { once = h; seen = λ q. cc }

-- Nothing stands in a node that is no mapping.
plain_lem :
    (root : Node)
    → is_mapping root ≡ false
    → ensure_kubeadm_node_registration root ≡ ok (false, root)
unfolding ensure_kubeadm_node_registration ensure_yaml_mapping_value ensure_kubelet_provider_id
    new_extra_args get_yaml_map_string find_yaml_map_value
plain_lem (node mapping t x ns) h = cc
plain_lem (node document t x ns) h = refl
plain_lem (node sequence t x ns) h = refl
plain_lem (node scalar t x ns) h = refl
plain_lem (node alias t x ns) h = refl

left_lem :
    (root : Node) (r : Bool × Node)
    → is_mapping root ≡ false
    → ensure_kubeadm_node_registration root ≡ ok r
    → Ensured r
left_lem root r m h =
    let same = plain_lem root m in
    from_answer (ensure_kubeadm_node_registration root) r h
      ((false, root), same, untouched root same)

mapping_lem :
    (t x : String) (ns : Nodes) (r : Bool × Node)
    → IsDocument (node mapping t x ns)
    → ensure_kubeadm_node_registration (node mapping t x ns) ≡ ok r
    → Ensured r
unfolding append_yaml_map_value
mapping_lem t x ns r d h =
    let root = node mapping t x ns in
    let key : String = "nodeRegistration" in
    elim (Option-cases (find_in key ns)) [
      | inl missing ↦
          let new = append ns (cons (new_string_yaml_node key) (cons empty_mapping nil)) in
          from_answer (ensure_kubeadm_node_registration (node mapping t x new)) r
            (sym (missing_lem t x ns missing d.paired) ∙ h)
            (there_lem t x new "!!map" "" nil (grown_IsDocument t x ns missing d.paired)
              (find-append key key empty_mapping ns d.paired missing))
      | inr (old, found) ↦ elim (Bool-cases (is_mapping old)) [
        | inl m ↦
            from_answer (ensure_kubeadm_node_registration root) r h (old_lem t x ns old d found m)
        | inr other ↦ elim (with_other t x ns old found other) [
          | inl same ↦
              from_answer (ensure_kubeadm_node_registration root) r h
                ((false, root), same, untouched root same)
          | inr failed ↦ let e : err nil_pointer ≡ ok r = sym failed ∙ h in cc
        ]
      ]
    ]

-- If a document is as the parser gives it and ensureKubeadmNodeRegistration succeeds, then a second
-- run of it reports no change and changes nothing, and where the first run reports a change, the
-- kubelet of the document has the provider ID among its arguments.
pub provider_id_set_once :
    (root : Node) (r : Bool × Node)
    → IsDocument root
    → ensure_kubeadm_node_registration root ≡ ok r
    → Ensured r
provider_id_set_once (node mapping t x ns) r d h = mapping_lem t x ns r d h
provider_id_set_once (node document t x ns) r d h = left_lem _ r refl h
provider_id_set_once (node sequence t x ns) r d h = left_lem _ r refl h
provider_id_set_once (node scalar t x ns) r d h = left_lem _ r refl h
provider_id_set_once (node alias t x ns) r d h = left_lem _ r refl h
