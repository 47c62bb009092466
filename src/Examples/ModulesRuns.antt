-- ===== src/Examples/ModulesRuns.antt =====
-- Two modules, of which one requires the other, on one node; and an attribute with its objects.
use netlab.Prelude.{
  ◌≡◌, ◌||◌, refl, String, Bool, true, false, [], ◌∷◌, none, some, ◌&&◌, any, arith, if◌then◌else◌,
  keep,
}
use netlab.Prelude.Texts.{contains}
use netlab.Prelude.Distinct.{IsDistinct}
use netlab.Data.{
  Value, Items, int, pos, str, list, cons, nil, dict, Fields, end, entry, get, has, truthy, elems,
  value_eq,
}
use netlab.Data.{is_in}
use netlab.Types.Scalars.{list_status}
use netlab.Data.Walks.{removed_attributes}
use netlab.Modules.Attributes.{
  Supplied, texts, get_effective_module_attribute, get_propagated_global_module_params,
}
use netlab.Modules.AttributeLaws.{
  get_effective_module_attribute_removed, get_effective_module_attribute_nearest, withheld,
  get-get_propagated_global_module_params,
}
use netlab.Modules.Usage.{
  ModNode, ModTopology, modules_of, check_module_dependencies, sort_module_list,
}
use netlab.Modules.Collect.{adjust_global_modules}
use netlab.Modules.References.{RefScope, known_in, validate_object_reference_list}
use netlab.Modules.ReferenceLaws.{validate_object_reference_list_sound}
use netlab.Modules.OrderLaws.{sort_module_list_order}
use netlab.Modules.CollectLaws.{adjust_global_modules_set, named}
use netlab.Modules.OrderLaws.{sort_module_list_order}
use netlab.Modules.CollectLaws.{adjust_global_modules_set, named}
use netlab.Modules.UsageLaws.{check_module_dependencies_node, check_module_dependencies_global}

abbrev evpn_settings : Fields
evpn_settings = entry "requires" (list (cons (str "bgp") nil)) end

abbrev settings : Fields
settings =
    entry "evpn" (dict evpn_settings) (entry "bgp" (dict (entry "as" (int (pos 65000)) end)) end)

abbrev leaf : ModNode
leaf = record {
  name = "leaf";
  modules = some ("evpn" ∷ "bgp" ∷ []);
  settings = end;
  interfaces = [];
  features = end;
}

abbrev fabric : ModTopology
fabric = record {
  modules = some ("bgp" ∷ "evpn" ∷ []);
  extra_modules = [];
  defaults = settings;
  nodes = leaf ∷ [];
}

requires_met_example : contains "bgp" (modules_of leaf.modules) ≡ true
unfolding contains texts elems get truthy check_module_dependencies
requires_met_example =
    check_module_dependencies_node fabric "evpn" 0 leaf "bgp" refl refl refl refl refl refl

global_requires_met_example : contains "bgp" (modules_of fabric.modules) ≡ true
unfolding contains texts elems get truthy check_module_dependencies
global_requires_met_example =
    check_module_dependencies_global fabric "evpn" "bgp" refl refl refl refl

module_order_example :
    (contains "bgp" ("evpn" ∷ []) ≡ false)
    × (contains "bgp" ("bgp" ∷ "evpn" ∷ [])
        ≡ (has settings "bgp" && contains "bgp" ("evpn" ∷ "bgp" ∷ [])))
unfolding sort_module_list keep has texts elems get contains
module_order_example =
    sort_module_list_order ("evpn" ∷ "bgp" ∷ []) ("bgp" ∷ "evpn" ∷ []) ("bgp" ∷ []) [] settings
      "config_after" "evpn" "bgp" "bgp" (omega arith) refl refl refl

abbrev known_modules : Fields
known_modules =
    entry "bgp" (dict (entry "supported_on" (dict end) end))
      (entry "evpn" (dict (entry "supported_on" (dict end) end)) end)

abbrev with_module_list : Items → Fields
with_module_list ms = entry "module" (list ms) (entry "defaults" (dict known_modules) end)

one_module_added :
    adjust_global_modules (with_module_list (cons (str "bgp") nil)) (leaf ∷ [])
    ≡ some (with_module_list (cons (str "bgp") (cons (str "evpn") nil)), [])
unfolding adjust_global_modules list_status value_eq is_in
one_module_added = refl

adjust_example :
    IsDistinct (named (with_module_list (cons (str "bgp") (cons (str "evpn") nil))))
    × (contains "evpn" (named (with_module_list (cons (str "bgp") (cons (str "evpn") nil)))) ≡ (
        contains "evpn" (texts (elems (cons (str "bgp") nil)))
        || any (λ n. contains "evpn" (modules_of n.modules)) (leaf ∷ [])))
unfolding get
adjust_example =
    adjust_global_modules_set (with_module_list (cons (str "bgp") nil))
      (with_module_list (cons (str "bgp") (cons (str "evpn") nil))) (leaf ∷ []) []
      (cons (str "bgp") nil) "evpn" refl one_module_added

abbrev interface_mtu : Fields
interface_mtu = entry "ipv4" (str "10.0.0.1") end

abbrev link_mtu : Fields
link_mtu = entry "mtu" (int (pos 1400)) end

abbrev node_mtu : Fields
node_mtu = entry "mtu" (int (pos 1500)) end

abbrev without_mtu : Fields
without_mtu = entry "_removed_attr" (list (cons (str "mtu") nil)) link_mtu

abbrev attached : Fields → Supplied
attached link = record {
  intf = some interface_mtu;
  link = some link;
  node = some node_mtu;
  topology = none;
  defaults = none;
}

nearest_example :
    get_effective_module_attribute get "mtu" (attached link_mtu) true ≡ some (int (pos 1400))
unfolding get truthy removed_attributes
nearest_example =
    get_effective_module_attribute_nearest get "mtu" true (attached link_mtu) (interface_mtu ∷ [])
      (node_mtu ∷ []) link_mtu (int (pos 1400)) refl (refl, (tt, tt)) refl refl tt refl

removed_example : get_effective_module_attribute get "mtu" (attached without_mtu) true ≡ none
unfolding get removed_attributes is_in elems value_eq
removed_example =
    get_effective_module_attribute_removed get "mtu" true (attached without_mtu)
      (interface_mtu ∷ []) (node_mtu ∷ []) without_mtu refl (refl, (tt, tt)) refl

abbrev no_such : String → Bool
no_such s = false

propagated_example :
    get (get_propagated_global_module_params no_such evpn_settings evpn_settings) "requires"
    ≡ (if withheld no_such evpn_settings "requires" then none else get evpn_settings "requires")
propagated_example =
    get-get_propagated_global_module_params no_such evpn_settings evpn_settings "requires"

abbrev vlan_scope : RefScope
vlan_scope = record {
  objects = some (entry "red" (dict end) end);
  refs = some ("red" ∷ "blue" ∷ []);
}

abbrev vlan_topology : RefScope
vlan_topology = record { objects = some (entry "blue" (dict end) end); refs = none }

abbrev keep_all : Value → Bool
keep_all v = true

references_example : known_in vlan_scope vlan_topology "blue" ≡ true
unfolding validate_object_reference_list has contains
references_example =
    validate_object_reference_list_sound vlan_scope vlan_topology true keep_all true "vxlan"
      ("red" ∷ "blue" ∷ []) "blue" refl refl refl
