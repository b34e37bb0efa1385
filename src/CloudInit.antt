-- ===== src/CloudInit.antt =====
-- controllers/elfmachine_controller_cloudinit.go, and getBootstrapData of
-- controllers/elfmachine_controller.go: the changes of the bootstrap data of a machine. The YAML
-- library is the record `YamlCodec`, and the log lines are left out.
mod Header
mod Args
pub mod Laws
unfoldable pub use Header.*
use cluster_api_provider_elf.Base.{
  ◌≡◌, String, ◌+++◌, Bool, true, false, not, ◌&&◌, ◌||◌, Option, none, some, List, [], ◌∷◌, Result,
  ok, err, str_eq, has_prefix, if◌then◌else◌,
}
use cluster_api_provider_elf.Yaml.{
  Node, Nodes, nil, cons, Kind, mapping, sequence, scalar, kind, tag, text, content, with_content,
  is_mapping, is_sequence, is_scalar, as_string, empty_mapping, empty_sequence, yaml_tag_string,
  append, new_scalar_nodes, find_yaml_map_value, set_yaml_map_value, get_yaml_map_string,
  append_yaml_map_value, upsert_yaml_map_string, upsert_named_value_sequence_item,
  ensure_yaml_mapping_value,
}

-- yaml.Unmarshal into a node, which fails or gives the document node; yaml.Marshal; and the nodes
-- that a yaml.Decoder gives one after the other, with whether io.EOF ends them.
pub record YamlCodec : Type 0 where
  pub unmarshal : String → Option Node
  pub marshal : Node → Result String
  pub decode : String → List Node × Bool

-- The text of the runtime error of a nil pointer, which ends the reconcile as an error does.
abbrev pub nil_pointer : String
nil_pointer = "invalid memory address or nil pointer dereference"

abbrev pub provider_id_value : String
provider_id_value = "elf://{{ ds.meta_data.instance_id }}"

unfoldable pub is_kubeadm_config_write_file : String → Bool
unfolding has_prefix has_suffix
is_kubeadm_config_write_file path = has_prefix path "/run/kubeadm/" && has_suffix path ".yaml"

abbrev pub first_of : Nodes → Option Node
first_of nil = none
first_of (cons n ns) = some n

-- The kubeletExtraArgs of a version of kubeadm.
unfoldable pub new_extra_args : Node → Option Node
unfolding get_yaml_map_string
new_extra_args root =
    let version = get_yaml_map_string root "apiVersion" in
    if str_eq version "kubeadm.k8s.io/v1beta3"
    then some empty_mapping
    else if str_eq version "kubeadm.k8s.io/v1beta4"
    then some empty_sequence
    else none

unfoldable pub set_provider_id : Node → Bool × Node
unfolding upsert_yaml_map_string upsert_named_value_sequence_item
set_provider_id args = elim (kind args) [
  | mapping ↦ upsert_yaml_map_string args "provider-id" provider_id_value
  | sequence ↦ upsert_named_value_sequence_item args "provider-id" provider_id_value
  | _ ↦ (false, args)
]

-- For the arguments that stand there, or else new ones.
abbrev pub provide : Node → Option Node → Option Node → Bool × Option Node
unfolding set_provider_id append_yaml_map_value
provide registration (some args) made =
    let (changed, args') = set_provider_id args in
    (changed, some (set_yaml_map_value registration "kubeletExtraArgs" args'))
provide registration none none = (false, some registration)
provide registration none (some args) =
    let (changed, args') = set_provider_id args in
    (changed, some (append_yaml_map_value registration "kubeletExtraArgs" args'))

-- With the node that stands at nodeRegistration, if that is a mapping.
unfoldable pub ensure_kubelet_provider_id : Node → Option Node → Result (Bool × Option Node)
unfolding find_yaml_map_value new_extra_args provide
ensure_kubelet_provider_id root none = elim (new_extra_args root) [
  | none ↦ ok (false, none)
  | some args ↦ err nil_pointer
]
ensure_kubelet_provider_id root (some r) =
    ok (provide r (find_yaml_map_value r "kubeletExtraArgs") (new_extra_args root))

-- What the registration was changed to is written into the document.
abbrev pub put_registration : Node → Result (Bool × Option Node) → Result (Bool × Node)
put_registration root (err e) = err e
put_registration root (ok (changed, none)) = ok (changed, root)
put_registration root (ok (changed, some r)) =
    ok (changed, set_yaml_map_value root "nodeRegistration" r)

unfoldable pub ensure_kubeadm_node_registration : Node → Result (Bool × Node)
unfolding ensure_yaml_mapping_value ensure_kubelet_provider_id
ensure_kubeadm_node_registration root =
    let (registration, added, root') = ensure_yaml_mapping_value root "nodeRegistration" in
    put_registration root' (ensure_kubelet_provider_id root' registration)

unfoldable pub is_kubeadm_node_registration_document : Node → Bool
unfolding get_yaml_map_string
is_kubeadm_node_registration_document root =
    let k = get_yaml_map_string root "kind" in
    str_eq k "InitConfiguration" || str_eq k "JoinConfiguration"

-- One item of a loop that changes items in place, before the rest.
abbrev pub also {ℓ} : {A : Type ℓ} → Bool × A → Result (Bool × List A) → Result (Bool × List A)
also (changed, a) (ok (rest, as')) = ok (changed || rest, a ∷ as')
also (changed, a) (err e) = err e

unfoldable pub ensure_document : Node → Result (Bool × Node)
unfolding is_kubeadm_node_registration_document ensure_kubeadm_node_registration
ensure_document d =
    if is_kubeadm_node_registration_document d
    then ensure_kubeadm_node_registration d
    else ok (false, d)

unfoldable pub ensure_kubeadm_node_registration_documents : List Node → Result (Bool × List Node)
unfolding ensure_document
ensure_kubeadm_node_registration_documents [] = ok (false, [])
ensure_kubeadm_node_registration_documents (d ∷ ds) = elim (ensure_document d) [
  | err e ↦ err e
  | ok r ↦ also r (ensure_kubeadm_node_registration_documents ds)
]

unfoldable pub ensure_hostname_commands_in_run_cmd : Node → String → Result (Bool × Node)
unfolding find_yaml_map_value append new_scalar_nodes
ensure_hostname_commands_in_run_cmd root host_name =
    if str_eq host_name "" then ok (false, root) else elim (find_yaml_map_value root "runcmd") [
      | none ↦ err nil_pointer
      | some runcmd ↦
          let commands =
            "echo \"::1         ipv6-localhost ipv6-loopback\" >/etc/hosts"
            ∷ "echo \"127.0.0.1   localhost\" >>/etc/hosts"
            ∷ ("echo \"127.0.0.1   " +++ (host_name +++ "\" >>/etc/hosts"))
            ∷ [] in
          let runcmd' = with_content (append (new_scalar_nodes commands) (content runcmd)) runcmd in
          ok (true, set_yaml_map_value root "runcmd" runcmd')
    ]

-- The content of the documents that have one.
unfoldable pub contents : List Node → List Node
contents [] = []
contents (d ∷ ds) = elim (first_of (content d)) [ none ↦ contents ds | some n ↦ n ∷ contents ds ]

abbrev pub not_empty {ℓ} : {A : Type ℓ} → List A → Bool
not_empty [] = false
not_empty (x ∷ xs) = true

module _ (y : YamlCodec) where
  unfoldable pub parse_yaml_mapping : String → Option Node
  parse_yaml_mapping s = elim (y.unmarshal s) [
    | none ↦ none
    | some d ↦ elim (first_of (content d)) [
      | none ↦ none
      | some root ↦ if is_mapping root then some root else none
    ]
  ]

  unfoldable pub parse_yaml_documents : String → Option (List Node)
  unfolding contents
  parse_yaml_documents s =
      let (documents, ended) = y.decode s in
      if ended && not_empty (contents documents) then some (contents documents) else none

  unfoldable pub rendered : List Node → Result (List String)
  unfolding trim_newline
  rendered [] = ok []
  rendered (d ∷ ds) =
      let rest = rendered ds in
      elim (y.marshal d) [
        | err e ↦ err e
        | ok s ↦ elim rest [ err e ↦ err e | ok ss ↦ ok (trim_newline s ∷ ss) ]
      ]

  unfoldable pub marshal_yaml_documents : List Node → String → Result String
  unfolding rendered join
  marshal_yaml_documents documents header = elim (rendered documents) [
    | err e ↦ err e
    | ok ss ↦
        let front = if str_eq header "" then "" else header +++ "\n" in
        ok (front +++ (join "\n---\n" ss +++ "\n"))
  ]

  -- What follows the changes of the documents.
  abbrev pub write_documents : Node → String → Bool × List Node → Result (Bool × Node)
  unfolding marshal_yaml_documents
  write_documents n header (false, documents) = ok (false, n)
  write_documents n header (true, documents) = elim (marshal_yaml_documents documents header) [
    | err e ↦ err ("failed to marshal kubeadm config after ensuring provider-id: " +++ e)
    | ok s ↦ ok (true, as_string s n)
  ]

  unfoldable pub ensure_kubeadm_config_content : Node → Result (Bool × Node)
  unfolding split_yaml_document_header parse_yaml_documents
      ensure_kubeadm_node_registration_documents marshal_yaml_documents
  ensure_kubeadm_config_content n =
      if not (is_scalar n) || (not (str_eq (tag n) "") && not (str_eq (tag n) yaml_tag_string))
      then ok (false, n)
      else (let (header, body) = split_yaml_document_header (text n) in
          elim (parse_yaml_documents body) [
            | none ↦ ok (false, n)
            | some documents ↦ elim (ensure_kubeadm_node_registration_documents documents) [
              | err e ↦ err e
              | ok r ↦ write_documents n header r
            ]
          ])

  -- An item of write_files.
  abbrev pub put_content : Node → Bool × Node → Bool × Node
  put_content item (changed, n) = (changed, set_yaml_map_value item "content" n)

  unfoldable pub ensure_item : Node → Result (Bool × Node)
  unfolding find_yaml_map_value is_kubeadm_config_write_file ensure_kubeadm_config_content
  ensure_item item = elim (find_yaml_map_value item "path") [
    | none ↦ ok (false, item)
    | some path ↦ elim (find_yaml_map_value item "content") [
      | none ↦ ok (false, item)
      | some n ↦
          if not (is_kubeadm_config_write_file (text path))
          then ok (false, item)
          else (elim (ensure_kubeadm_config_content n) [
            | err e ↦ err e
            | ok r ↦ ok (put_content item r)
          ])
    ]
  ]

  abbrev pub also_node : Bool × Node → Result (Bool × Nodes) → Result (Bool × Nodes)
  also_node (changed, n) (ok (rest, ns)) = ok (changed || rest, cons n ns)
  also_node (changed, n) (err e) = err e

  unfoldable pub ensure_items : Nodes → Result (Bool × Nodes)
  unfolding ensure_item
  ensure_items nil = ok (false, nil)
  ensure_items (cons item items) = elim (ensure_item item) [
    | err e ↦ err e
    | ok r ↦ also_node r (ensure_items items)
  ]

  abbrev pub put_files : Node → Node → Bool × Nodes → Bool × Node
  put_files root files (changed, items) =
      (changed, set_yaml_map_value root "write_files" (with_content items files))

  unfoldable pub ensure_kubeadm_config_in_write_files : Node → Result (Bool × Node)
  unfolding find_yaml_map_value ensure_items
  ensure_kubeadm_config_in_write_files root = elim (find_yaml_map_value root "write_files") [
    | none ↦ ok (false, root)
    | some files ↦
        if not (is_sequence files) then ok (false, root) else (elim (ensure_items (content files)) [
          | err e ↦ err e
          | ok r ↦ ok (put_files root files r)
        ])
  ]

  -- What is written of the tree that was changed.
  abbrev pub write_root : String → String → Bool × Node → Result String
  write_root original header (false, root) = ok original
  write_root original header (true, root) = elim (y.marshal root) [
    | err e ↦ err ("failed to marshal bootstrap data after mutating cloud-init: " +++ e)
    | ok s ↦ ok (if str_eq header "" then s else header +++ ("\n" +++ s))
  ]

  -- The second mutator, after the first one.
  abbrev pub and_files : Result (Bool × Node) → Result (Bool × Node)
  unfolding ensure_kubeadm_config_in_write_files
  and_files (err e) = err e
  and_files (ok (named, root)) = elim (ensure_kubeadm_config_in_write_files root) [
    | err e ↦ err e
    | ok (updated, root') ↦ ok (named || updated, root')
  ]

  unfoldable pub run_mutators : Node → String → Result (Bool × Node)
  unfolding ensure_hostname_commands_in_run_cmd and_files
  run_mutators root host_name = and_files (ensure_hostname_commands_in_run_cmd root host_name)

  abbrev pub written : String → String → Result (Bool × Node) → Result String
  written original header (err e) = err e
  written original header (ok r) = write_root original header r

  -- Data that is no mapping is passed on.
  abbrev pub patched : String → String → String → Option Node → Result String
  unfolding run_mutators
  patched original header host_name none = ok original
  patched original header host_name (some root) =
      written original header (run_mutators root host_name)

  unfoldable pub patch_cloud_init_bootstrap_data : String → String → Result String
  unfolding split_cloud_config_header parse_yaml_mapping patched
  patch_cloud_init_bootstrap_data bootstrap_data host_name =
      let (header, body) = split_cloud_config_header bootstrap_data in
      patched bootstrap_data header host_name (parse_yaml_mapping body)
