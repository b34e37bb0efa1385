-- ===== src/Tests/CloudInitTests.antt =====
-- A kubeadm document in the two versions, and bootstrap data that runs no commands.
use cluster_api_provider_elf.Base.{◌≡◌, refl, true, some, [], ◌∷◌, ok, err}
use cluster_api_provider_elf.Yaml.{
  Node, node, nil, cons, mapping, sequence, document, empty_mapping, new_string_yaml_node, of_list,
  find_in, set_in, find_yaml_map_value, get_yaml_map_string, append_yaml_map_value, append,
  upsert_named_value_sequence_item, upsert_item, new_named_value_mapping_node,
  ensure_yaml_mapping_value, mapping_at,
}
use cluster_api_provider_elf.CloudInit.{
  YamlCodec, nil_pointer, provider_id_value, set_provider_id, new_extra_args,
  ensure_kubelet_provider_id, ensure_kubeadm_node_registration, parse_yaml_mapping,
  patch_cloud_init_bootstrap_data, run_mutators, ensure_hostname_commands_in_run_cmd,
}
use cluster_api_provider_elf.CloudInit.Laws.{IsDocument, Ensured, provider_id_set_once}

abbrev join_document : Node
join_document = node mapping "!!map" "" (
    of_list (
      new_string_yaml_node "apiVersion"
      ∷ new_string_yaml_node "kubeadm.k8s.io/v1beta4"
      ∷ new_string_yaml_node "kind"
      ∷ new_string_yaml_node "JoinConfiguration"
      ∷ []))

abbrev joined : Node
joined = append_yaml_map_value join_document "nodeRegistration" (
    append_yaml_map_value empty_mapping "kubeletExtraArgs" (
      node sequence "!!seq" ""
        (of_list (new_named_value_mapping_node "provider-id" provider_id_value ∷ []))))

join_document-IsDocument : IsDocument join_document
unfolding new_string_yaml_node find_in
join_document-IsDocument = record {
  paired = tt;
  registration_paired = λ r e. cc;
  args_paired = λ r args e k. cc;
}

provider_id_set_once_example : Ensured (true, joined)
unfolding ensure_kubeadm_node_registration ensure_yaml_mapping_value mapping_at
    ensure_kubelet_provider_id new_extra_args set_provider_id get_yaml_map_string find_in set_in
    append append_yaml_map_value upsert_named_value_sequence_item upsert_item new_string_yaml_node
    new_named_value_mapping_node
provider_id_set_once_example =
    provider_id_set_once join_document (true, joined) join_document-IsDocument refl

-- A library that reads each text as an empty mapping.
abbrev codec : YamlCodec
codec = record {
  unmarshal = λ s. some (node document "" "" (cons empty_mapping nil));
  marshal = λ n. ok "";
  decode = λ s. ([], true);
}

-- Without commands to run, the patch ends at a nil pointer.
patch_without_run_cmd :
    patch_cloud_init_bootstrap_data codec "#cloud-config" "node" ≡ err nil_pointer
unfolding patch_cloud_init_bootstrap_data run_mutators ensure_hostname_commands_in_run_cmd
    parse_yaml_mapping find_yaml_map_value find_in
patch_without_run_cmd = refl
