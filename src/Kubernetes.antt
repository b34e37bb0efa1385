-- ===== src/Kubernetes.antt =====
-- The objects of Kubernetes and cluster-api that the controllers read (their types are not part of
-- the repository), with the fields that are read, and the helpers of pkg/util/machine,
-- pkg/util/kcp, pkg/util/annotations and pkg/util/labels on them. A label or an annotation stands at
-- most once. The counts are int32 fields that the API server keeps from being negative.
use cluster_api_provider_elf.Base.{
  ℕ, String, Bool, true, false, ◌&&◌, ◌||◌, Option, none, some, List, ltb, leb, ◌==◌, str_eq,
  Result, ok, err, ◌+++◌,
}
use cluster_api_provider_elf.Base.Dict.{lookup}
use cluster_api_provider_elf.Conditions.{Status, false_status, reason_of}

-- clusterv1.Cluster. `deleted` is whether it has a deletion timestamp.
pub record Cluster : Type 0 where
  pub name : String
  pub namespace : String
  pub uid : String
  pub deleted : Bool

-- clusterv1.Machine. `kcp_owner` is the name in its first owner reference of kind
-- KubeadmControlPlane.
pub record ClusterMachine : Type 0 where
  pub name : String
  pub namespace : String
  pub labels : List (String × String)
  pub annotations : List (String × String)
  pub kcp_owner : Option String
  pub failure_domain : Option String
  pub node_ref : Option String
  pub creation_timestamp : ℕ

-- controlplanev1.KubeadmControlPlane. `resized` is its condition Resized.
pub record ControlPlane : Type 0 where
  pub name : String
  pub annotations : List (String × String)
  pub spec_replicas : ℕ
  pub replicas : ℕ
  pub updated_replicas : ℕ
  pub resized : Option Status

-- clusterv1.MachineDeployment
pub record Deployment : Type 0 where
  pub annotations : List (String × String)
  pub spec_replicas : ℕ
  pub deleted : Bool

abbrev pub control_plane_label : String
control_plane_label = "cluster.x-k8s.io/control-plane"

abbrev pub deployment_name_label : String
deployment_name_label = "cluster.x-k8s.io/deployment-name"

abbrev pub delete_machine_annotation : String
delete_machine_annotation = "cluster.x-k8s.io/delete-machine"

abbrev pub scaling_down_reason : String
scaling_down_reason = "ScalingDown"

abbrev pub placement_group_name_annotation : String
placement_group_name_annotation = "cape.infrastructure.cluster.x-k8s.io/placement-group-name"

abbrev pub is_present : Option String → Bool
is_present none = false
is_present (some s) = true

-- A missing key of a Go map reads as the empty text.
abbrev pub or_empty : Option String → String
or_empty none = ""
or_empty (some s) = s

-- By the labels of an object.
abbrev pub has_control_plane_label : List (String × String) → Bool
has_control_plane_label labels = is_present (lookup control_plane_label labels)

unfoldable pub is_control_plane_machine : ClusterMachine → Bool
unfolding lookup
is_control_plane_machine m = has_control_plane_label m.labels

unfoldable pub has_annotation : List (String × String) → String → Bool
unfolding lookup
has_annotation annotations key = is_present (lookup key annotations)

unfoldable pub get_placement_group_name : List (String × String) → String
unfolding lookup
get_placement_group_name annotations = or_empty (lookup placement_group_name_annotation annotations)

unfoldable pub get_label_value : ClusterMachine → String → String
unfolding lookup
get_label_value m key = or_empty (lookup key m.labels)

unfoldable pub get_deployment_name_label : ClusterMachine → String
unfolding get_label_value
get_deployment_name_label m = get_label_value m deployment_name_label

-- The panic of a machine without such an owner ends the reconcile as an error does.
unfoldable pub get_kcp_name_by_machine : ClusterMachine → Result String
get_kcp_name_by_machine m = elim m.kcp_owner [
  | some name ↦ ok name
  | none ↦ err ("Machine " +++ (m.name +++ " is not owned by KubeadmControlPlane"))
]

unfoldable pub is_kcp_in_rolling_update : ControlPlane → Bool
is_kcp_in_rolling_update kcp =
    (ltb kcp.updated_replicas kcp.spec_replicas && leb kcp.spec_replicas kcp.replicas)
    || ((kcp.spec_replicas == kcp.updated_replicas) && ltb kcp.spec_replicas kcp.replicas)

unfoldable pub is_kcp_in_scaling_down : ControlPlane → Bool
is_kcp_in_scaling_down kcp =
    false_status kcp.resized
    && (str_eq (reason_of kcp.resized) scaling_down_reason
        && ltb kcp.spec_replicas kcp.updated_replicas)
