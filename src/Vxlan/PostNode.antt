-- ===== src/Vxlan/PostNode.antt =====
-- netsim/modules/vxlan.py: validate_vxlan_list and the hook module_post_node_transform.
use netlab.Prelude.{ℕ, String, Bool, true, false, Option, none, some, List, [], ◌∷◌, ◌++◌}
use netlab.Log.{Reports}
use netlab.Data.{ℤ, Value, dict, Fields, get, put, keys}
use netlab.Ids.{Vars}
use netlab.Modules.Attributes.{inner_box}
use netlab.Modules.ReferenceLists.{ReferenceList, validate_references}
use netlab.Vxlan.Vni.{assign_vni}

abbrev vxlan_vlans : ReferenceList
vxlan_vlans = record {
  dotted = "vxlan.vlans";
  outer = "vxlan";
  inner = "vlans";
  dictionary = "vlans";
  module_name = "vxlan";
}

abbrev every_vlan : Value → Bool
every_vlan v = true

unfoldable pub validate_vxlan_list : Bool → Fields → Fields → Option (Bool × Fields × Reports)
unfolding validate_references
validate_vxlan_list is_topology toponode topology =
    validate_references vxlan_vlans true every_vlan true is_topology toponode topology

-- A node, or the topology, with its VNIs, the identifiers, and the errors; `none` where the program ends.
abbrev pub Numbered : Type 0
Numbered = Option (Fields × Vars × Reports)

abbrev also_errors : Reports → Numbered → Numbered
also_errors errors none = none
also_errors errors (some (toponode, vars, more)) = some (toponode, vars, errors ++ more)

abbrev put_numbered : Fields → String → Reports → Numbered → Numbered
put_numbered topology name errors none = none
put_numbered topology name errors (some (node, vars, more)) = some (
  put topology "nodes" (dict (put (inner_box (get topology "nodes")) name (dict node))),
  vars,
  errors ++ more,
)

abbrev numbered_then : Numbered → (Fields → Vars → Reports → Numbered) → Numbered
numbered_then none f = none
numbered_then (some (b, vars, errors)) f = f b vars errors

-- `int_of` is Python's int() on a text, and `start_vni` is defaults.vxlan.start_vni.
module _ (int_of : String → Option ℤ) (start_vni : ℕ) where
  abbrev assign_validated : Bool → Fields → Vars → Option (Bool × Fields × Reports) → Numbered
  assign_validated is_topology topology vars none = none
  assign_validated true topology vars (some (ok, toponode, errors)) =
      also_errors errors (assign_vni int_of start_vni toponode toponode vars)
  assign_validated false topology vars (some (ok, toponode, errors)) =
      also_errors errors (assign_vni int_of start_vni toponode topology vars)

  unfoldable pub number_object : Bool → Fields → Fields → Vars → Numbered
  unfolding validate_vxlan_list assign_vni
  number_object is_topology toponode topology vars =
      assign_validated is_topology topology vars (validate_vxlan_list is_topology toponode topology)

  unfoldable pub number_nodes : List String → Fields → Vars → Reports → Numbered
  unfolding number_object get put
  number_nodes [] topology vars errors = some (topology, vars, errors)
  number_nodes (name ∷ names) topology vars errors =
      numbered_then
        (put_numbered topology name errors (
          number_object false (inner_box (get (inner_box (get topology "nodes")) name)) topology
            vars))
        (λ topology' vars' errors'. number_nodes names topology' vars' errors')

  -- The topology first, then its nodes, in their order.
  unfoldable pub module_post_node_transform : Fields → Vars → Numbered
  unfolding number_object number_nodes keys get
  module_post_node_transform topology vars =
      numbered_then (number_object true topology topology vars) (λ topology' vars' errors.
        number_nodes (keys (inner_box (get topology' "nodes"))) topology' vars' errors)
