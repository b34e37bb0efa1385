-- ===== src/Yaml.antt =====
-- The YAML trees of gopkg.in/yaml.v3, which is not part of the repository, with the fields that the
-- code reads and writes, and the helpers of controllers/elfmachine_controller_cloudinit.go on them.
-- A pointer into a tree is a key of its parent: what the code writes through it is written there.
pub mod Laws
use cluster_api_provider_elf.Base.{
  String, Bool, true, false, Option, none, some, List, [], ◌∷◌, str_eq, if◌then◌else◌,
}

pub data Kind : Type 0 where
  document sequence mapping scalar alias : Kind

-- yaml.Node. The content of a mapping alternates keys and values.
mutual
  pub data Node : Type 0 where
    node : Kind → String → String → Nodes → Node

  pub data Nodes : Type 0 where
    nil : Nodes
    cons : Node → Nodes → Nodes

abbrev pub kind : Node → Kind
kind (node k tag value content) = k

abbrev pub tag : Node → String
tag (node k t value content) = t

abbrev pub text : Node → String
text (node k t value content) = value

abbrev pub content : Node → Nodes
content (node k t value ns) = ns

abbrev pub with_content : Nodes → Node → Node
with_content ns (node k t value old) = node k t value ns

abbrev pub is_mapping : Node → Bool
is_mapping n = elim (kind n) [ mapping ↦ true | _ ↦ false ]

abbrev pub is_sequence : Node → Bool
is_sequence n = elim (kind n) [ sequence ↦ true | _ ↦ false ]

abbrev pub is_scalar : Node → Bool
is_scalar n = elim (kind n) [ scalar ↦ true | _ ↦ false ]

abbrev pub yaml_tag_string : String
yaml_tag_string = "!!str"

unfoldable pub new_string_yaml_node : String → Node
new_string_yaml_node value = node scalar yaml_tag_string value nil

abbrev pub empty_mapping : Node
empty_mapping = node mapping "!!map" "" nil

abbrev pub empty_sequence : Node
empty_sequence = node sequence "!!seq" "" nil

abbrev pub of_list : List Node → Nodes
of_list [] = nil
of_list (n ∷ ns) = cons n (of_list ns)

unfoldable pub new_scalar_nodes : List String → Nodes
unfolding new_string_yaml_node
new_scalar_nodes [] = nil
new_scalar_nodes (s ∷ ss) = cons (new_string_yaml_node s) (new_scalar_nodes ss)

unfoldable pub append : Nodes → Nodes → Nodes
append nil ms = ms
append (cons n ns) ms = cons n (append ns ms)

-- The value of the first key with this text.
unfoldable pub find_in : String → Nodes → Option Node
find_in key nil = none
find_in key (cons k nil) = none
find_in key (cons k (cons v rest)) = if str_eq (text k) key then some v else find_in key rest

-- A write through the pointer that this read gives.
unfoldable pub set_in : String → Node → Nodes → Nodes
set_in key new nil = nil
set_in key new (cons k nil) = cons k nil
set_in key new (cons k (cons v rest)) =
    if str_eq (text k) key then cons k (cons new rest) else cons k (cons v (set_in key new rest))

unfoldable pub find_yaml_map_value : Node → String → Option Node
unfolding find_in
find_yaml_map_value n key = if is_mapping n then find_in key (content n) else none

abbrev pub set_yaml_map_value : Node → String → Node → Node
unfolding set_in
set_yaml_map_value n key new = with_content (set_in key new (content n)) n

abbrev pub string_of : Option Node → String
string_of none = ""
string_of (some n) = if is_scalar n then text n else ""

unfoldable pub get_yaml_map_string : Node → String → String
unfolding find_yaml_map_value
get_yaml_map_string n key = string_of (find_yaml_map_value n key)

unfoldable pub append_yaml_map_value : Node → String → Node → Node
unfolding append new_string_yaml_node
append_yaml_map_value parent key value =
    with_content (append (content parent) (cons (new_string_yaml_node key) (cons value nil))) parent

abbrev pub as_string : String → Node → Node
as_string value (node k t old ns) = node k yaml_tag_string value ns

-- Whether the mapping was changed, and the mapping.
unfoldable pub upsert_yaml_map_string : Node → String → String → Bool × Node
unfolding find_yaml_map_value append_yaml_map_value new_string_yaml_node set_in
upsert_yaml_map_string parent key value = elim (find_yaml_map_value parent key) [
  | none ↦ (true, append_yaml_map_value parent key (new_string_yaml_node value))
  | some old ↦
      if is_scalar old
      then (if str_eq (text old) value
          then (false, parent)
          else (true, set_yaml_map_value parent key (as_string value old)))
      else (false, parent)
]

unfoldable pub new_named_value_mapping_node : String → String → Node
unfolding append_yaml_map_value new_string_yaml_node
new_named_value_mapping_node name value =
    append_yaml_map_value (append_yaml_map_value empty_mapping "name" (new_string_yaml_node name))
      "value" (new_string_yaml_node value)

-- Whether an item is the mapping of this name.
abbrev pub text_is : String → Option Node → Bool
text_is name none = false
text_is name (some n) = str_eq (text n) name

unfoldable pub is_named : String → Node → Bool
unfolding find_yaml_map_value
is_named name item = text_is name (find_yaml_map_value item "name")

-- The loop over the items.
unfoldable pub upsert_item : String → String → Nodes → Bool × Nodes
unfolding upsert_yaml_map_string new_named_value_mapping_node is_named
upsert_item name value nil = (true, cons (new_named_value_mapping_node name value) nil)
upsert_item name value (cons item items) =
    let (changed, rest) = upsert_item name value items in
    let (done, new) = upsert_yaml_map_string item "value" value in
    if is_named name item then (done, cons new items) else (changed, cons item rest)

unfoldable pub upsert_named_value_sequence_item : Node → String → String → Bool × Node
unfolding upsert_item
upsert_named_value_sequence_item s name value =
    let (changed, items) = upsert_item name value (content s) in (changed, with_content items s)

-- The mapping that stands at the key, which is added where it is missing, whether it was added, and
-- the parent. Nothing stands there where another kind of node does.
unfoldable pub mapping_at : Node → String → Option Node → Option Node × Bool × Node
unfolding append_yaml_map_value
mapping_at parent key (some old) = ((if is_mapping old then some old else none), false, parent)
mapping_at parent key none =
    (some empty_mapping, true, append_yaml_map_value parent key empty_mapping)

unfoldable pub ensure_yaml_mapping_value : Node → String → Option Node × Bool × Node
unfolding find_yaml_map_value mapping_at
ensure_yaml_mapping_value parent key =
    if is_mapping parent
    then mapping_at parent key (find_yaml_map_value parent key)
    else (none, false, parent)
