-- ===== src/Yaml/Laws.antt =====
-- What the helpers on YAML trees do: an upsert is done once, and is seen by a read.
use cluster_api_provider_elf.Base.{
  ◌≡◌, refl, ap, ◌∙◌, inl, inr, String, Bool, true, false, none, some, str_eq, eq_iff,
  if◌then◌else◌, arith, Bool-cases, Option-cases,
}
use cluster_api_provider_elf.Base.Dict.{eq_self}
use cluster_api_provider_elf.Yaml.{
  document, sequence, mapping, scalar, alias, Node, node, Nodes, nil, cons, text, content,
  is_mapping, is_scalar, as_string, text_is, new_string_yaml_node, append, find_in, set_in,
  find_yaml_map_value, get_yaml_map_string, append_yaml_map_value, upsert_yaml_map_string,
  new_named_value_mapping_node, is_named, upsert_item,
}

-- Each key has its value.
abbrev pub IsPaired : Nodes → Type 0
IsPaired nil = Unit
IsPaired (cons k nil) = ⊥
IsPaired (cons k (cons v rest)) = IsPaired rest

pub IsPaired-append :
    (ns : Nodes) (k v : Node) → IsPaired ns → IsPaired (append ns (cons k (cons v nil)))
unfolding append
IsPaired-append nil k v p = tt
IsPaired-append (cons a nil) k v p = elim p [ ]
IsPaired-append (cons a (cons b rest)) k v p = IsPaired-append rest k v p

pub find-set :
    (key : String) (new old : Node) (ns : Nodes)
    → find_in key ns ≡ some old
    → find_in key (set_in key new ns) ≡ some new
unfolding find_in set_in
find-set key new old nil h = cc
find-set key new old (cons k nil) h = cc
find-set key new old (cons k (cons v rest)) h = ground (arith, find-set key new old rest)

pub set_same :
    (key : String) (old : Node) (ns : Nodes) → find_in key ns ≡ some old → set_in key old ns ≡ ns
unfolding find_in set_in
set_same key old nil h = cc
set_same key old (cons k nil) h = refl
set_same key old (cons k (cons v rest)) h = ground (arith, set_same key old rest)

pub set-set :
    (key : String) (a b : Node) (ns : Nodes) → set_in key a (set_in key b ns) ≡ set_in key a ns
unfolding set_in
set-set key a b nil = refl
set-set key a b (cons k nil) = refl
set-set key a b (cons k (cons v rest)) = ground (arith, set-set key a b rest)

pub find_set_other :
    (key other : String) (new : Node) (ns : Nodes)
    → str_eq key other ≡ false
    → find_in other (set_in key new ns) ≡ find_in other ns
unfolding find_in set_in
find_set_other key other new nil h = refl
find_set_other key other new (cons k nil) h = refl
find_set_other key other new (cons k (cons v rest)) h = ground (
  arith,
  find_set_other key other new rest,
  eq_iff (text k) key,
  eq_iff (text k) other,
  eq_iff key other,
)

pub find-append :
    (key asked : String) (new : Node) (ns : Nodes)
    → IsPaired ns
    → find_in key ns ≡ none
    → find_in asked (append ns (cons (new_string_yaml_node key) (cons new nil)))
      ≡ (if str_eq key asked then some new else find_in asked ns)
unfolding find_in append new_string_yaml_node
find-append key asked new nil p h = refl
find-append key asked new (cons k nil) p h = elim p [ ]
find-append key asked new (cons k (cons v rest)) p h = ground (
  arith,
  find-append key asked new rest p,
  eq_iff (text k) key,
  eq_iff (text k) asked,
  eq_iff key asked,
)

pub set-append :
    (key : String) (a b : Node) (ns : Nodes)
    → IsPaired ns
    → find_in key ns ≡ none
    → set_in key a (append ns (cons (new_string_yaml_node key) (cons b nil)))
      ≡ append ns (cons (new_string_yaml_node key) (cons a nil))
unfolding find_in set_in append new_string_yaml_node
set-append key a b nil p h = rw (eq_self key) refl
set-append key a b (cons k nil) p h = elim p [ ]
set-append key a b (cons k (cons v rest)) p h = ground (arith, set-append key a b rest p)

-- What an upsert comes to: a second one changes nothing, and what was changed is read.
pub record Upserted (key value : String) (r : Bool × Node) : Type 0 where
  pub once : upsert_yaml_map_string r.1 key value ≡ (false, r.1)
  pub seen : r.0 ≡ true → get_yaml_map_string r.1 key ≡ value
  pub stays : is_mapping r.1 ≡ true

module _ (key value tag shown : String) (ns : Nodes) where
  abbrev here : Node
  here = node mapping tag shown ns

  -- Where the value stands already.
  settled :
      (old : Node)
      → find_in key ns ≡ some old
      → is_scalar old ≡ true
      → text old ≡ value
      → (upsert_yaml_map_string here key value ≡ (false, here))
        × (get_yaml_map_string here key ≡ value)
  unfolding upsert_yaml_map_string find_yaml_map_value get_yaml_map_string
  settled old h s e = (rw (h, s, (eq_iff (text old) value).1 e) refl, rw (h, s) e)

  -- Where another node stands.
  blocked :
      (old : Node)
      → find_in key ns ≡ some old
      → is_scalar old ≡ false
      → upsert_yaml_map_string here key value ≡ (false, here)
  unfolding upsert_yaml_map_string find_yaml_map_value
  blocked old h s = rw (h, s) refl

  -- Where it has another text.
  changed :
      (old : Node)
      → find_in key ns ≡ some old
      → is_scalar old ≡ true
      → str_eq (text old) value ≡ false
      → upsert_yaml_map_string here key value
        ≡ (true, node mapping tag shown (set_in key (as_string value old) ns))
  unfolding upsert_yaml_map_string find_yaml_map_value
  changed old h s e = rw (h, s, e) refl

  added :
      find_in key ns ≡ none
      → upsert_yaml_map_string here key value ≡ (
        true,
        node mapping tag shown
            (append ns (cons (new_string_yaml_node key) (cons (new_string_yaml_node value) nil))),
      )
  unfolding upsert_yaml_map_string find_yaml_map_value append_yaml_map_value
  added h = rw h refl

still_scalar : (value : String) (old : Node) → is_scalar (as_string value old) ≡ is_scalar old
still_scalar value (node k t v ns) = refl

now_text : (value : String) (old : Node) → text (as_string value old) ≡ value
now_text value (node k t v ns) = refl

module _ (key value tag shown : String) (ns : Nodes) where
  -- What an upsert into a mapping leaves.
  pub upserted_lem :
      IsPaired ns
      → Upserted key value (upsert_yaml_map_string (node mapping tag shown ns) key value)
  unfolding new_string_yaml_node
  upserted_lem p = elim (Option-cases (find_in key ns)) [
    | inl missing ↦ rw (added key value tag shown ns missing) (
        let new = new_string_yaml_node value in
        let e = find-append key key new ns p missing ∙ rw (eq_self key) refl in
        let (once, seen) = settled key value tag shown _ new e refl refl in
        record { once = once; seen = λ q. seen; stays = refl })
    | inr (old, found) ↦ elim (Bool-cases (is_scalar old)) [
      | inr other ↦ rw (blocked key value tag shown ns old found other) (record {
        once = blocked key value tag shown ns old found other;
        seen = λ q. cc;
        stays = refl;
      })
      | inl plain ↦ elim (Bool-cases (str_eq (text old) value)) [
        | inl same ↦
            let (once, seen) =
              settled key value tag shown ns old found plain ((eq_iff (text old) value).0 same) in
            rw once (record { once = once; seen = λ q. seen; stays = refl })
        | inr differs ↦ rw (changed key value tag shown ns old found plain differs) (
            let new = as_string value old in
            let (once, seen) =
              settled key value tag shown _ new (find-set key new old ns found)
                (still_scalar value old ∙ plain) (now_text value old) in
            record { once = once; seen = λ q. seen; stays = refl })
      ]
    ]
  ]

-- Each mapping among the items has a value for each key.
abbrev pub ArePaired : Nodes → Type 0
ArePaired nil = Unit
ArePaired (cons n ns) = (is_mapping n ≡ true → IsPaired (content n)) × ArePaired ns

-- The value of the first item of a name.
unfoldable pub value_named : String → Nodes → String
unfolding is_named get_yaml_map_string
value_named name nil = ""
value_named name (cons n ns) =
    if is_named name n then get_yaml_map_string n "value" else value_named name ns

named_is_mapping : (name : String) (n : Node) → is_named name n ≡ true → is_mapping n ≡ true
unfolding is_named find_yaml_map_value
named_is_mapping name (node mapping t x ns) h = refl
named_is_mapping name (node document t x ns) h = cc
named_is_mapping name (node sequence t x ns) h = cc
named_is_mapping name (node scalar t x ns) h = cc
named_is_mapping name (node alias t x ns) h = cc

-- An upsert of the value keeps the name.
keeps_name :
    (name value t x : String) (ns : Nodes)
    → IsPaired ns
    → is_named name (upsert_yaml_map_string (node mapping t x ns) "value" value).1
      ≡ is_named name (node mapping t x ns)
unfolding is_named find_yaml_map_value
keeps_name name value t x ns p = elim (Option-cases (find_in "value" ns)) [
  | inl missing ↦
      rw (added "value" value t x ns missing)
        (ap (text_is name) (find-append "value" "name" (new_string_yaml_node value) ns p missing))
  | inr (old, found) ↦ elim (Bool-cases (is_scalar old)) [
    | inr other ↦ rw (blocked "value" value t x ns old found other) refl
    | inl plain ↦ elim (Bool-cases (str_eq (text old) value)) [
      | inl same ↦
          let e = (eq_iff (text old) value).0 same in
          rw (settled "value" value t x ns old found plain e).0 refl
      | inr differs ↦
          rw (changed "value" value t x ns old found plain differs)
            (ap (text_is name) (find_set_other "value" "name" (as_string value old) ns refl))
    ]
  ]
]

-- An upsert into the items of a sequence.
pub record ItemUpserted (name value : String) (r : Bool × Nodes) : Type 0 where
  pub once : upsert_item name value r.1 ≡ (false, r.1)
  pub seen : r.0 ≡ true → value_named name r.1 ≡ value

mapping_item :
    (name value : String) (n : Node) (ns : Nodes)
    → is_mapping n ≡ true
    → IsPaired (content n)
    → is_named name n ≡ true
    → Upserted "value" value (upsert_yaml_map_string n "value" value)
      × (is_named name (upsert_yaml_map_string n "value" value).1 ≡ true)
mapping_item name value (node mapping t x c) ns m p h =
    (upserted_lem "value" value t x c p, keeps_name name value t x c p ∙ h)
mapping_item name value (node document t x c) ns m p h = cc
mapping_item name value (node sequence t x c) ns m p h = cc
mapping_item name value (node scalar t x c) ns m p h = cc
mapping_item name value (node alias t x c) ns m p h = cc

new_item :
    (name value : String)
    → (is_named name (new_named_value_mapping_node name value) ≡ true)
      × (upsert_yaml_map_string (new_named_value_mapping_node name value) "value" value
          ≡ (false, new_named_value_mapping_node name value))
      × (get_yaml_map_string (new_named_value_mapping_node name value) "value" ≡ value)
unfolding is_named find_yaml_map_value new_named_value_mapping_node append_yaml_map_value
    get_yaml_map_string upsert_yaml_map_string new_string_yaml_node find_in append
new_item name value = (eq_self name, rw (eq_self value) refl, refl)

pub item_upserted_lem :
    (name value : String) (ns : Nodes)
    → ArePaired ns
    → ItemUpserted name value (upsert_item name value ns)
unfolding upsert_item value_named
item_upserted_lem name value nil p =
    let (named, once, seen) = new_item name value in
    record { once = rw (named, once) refl; seen = λ q. rw named seen }
item_upserted_lem name value (cons n ns) (p, ps) = elim (Bool-cases (is_named name n)) [
  | inl named ↦ rw named (
      let m = named_is_mapping name n named in
      let (done, still) = mapping_item name value n ns m (p m) named in
      record { once = rw (still, done.once) refl; seen = λ q. rw still (done.seen q) })
  | inr other ↦ rw other (
      let rest = item_upserted_lem name value ns ps in
      record { once = rw (other, rest.once) refl; seen = λ q. rw other (rest.seen q) })
]
