-- ===== src/Vxlan/Vtep.antt =====
-- netsim/modules/vxlan.py: node_set_vtep and build_vtep_list.
use netlab.Prelude.{
  String, Bool, true, false, not, ◌&&◌, Option, none, some, List, [], ◌∷◌, ◌++◌, ◌==◌, any,
  if◌then◌else◌,
}
use netlab.Log.{Reports, report, incorrect_value}
use netlab.Data.{
  Value, null, str, list, dict, Fields, end, get, has, put, pop, values, elems, items, is_in,
  value_eq, truthy,
}
use netlab.Modules.Attributes.{inner_box, get_device_attribute, get_device_features}
use netlab.Types.Framework.{value_or_none}

-- What b.k is where the key is missing: an empty Box.
abbrev pub value_or_box : Option Value → Value
value_or_box none = dict end
value_or_box (some v) = v

-- x.get('vni',None) == vlan.vni
abbrev pub same_vni : Value → Value → Bool
same_vni vni (dict x) = value_eq (value_or_none (get x "vni")) vni
same_vni vni x = false

-- ndata.get('vxlan.vtep',None)
abbrev pub vtep_of : Fields → Value
vtep_of ndata = value_or_none (get (inner_box (get ndata "vxlan")) "vtep")

abbrev pub is_vtep : Value → Bool
is_vtep null = false
is_vtep v = true

-- One round of the loop on the list of VTEPs.
abbrev pub with_remote : Value → Value → Fields → Value → List Value → List Value
with_remote local_vtep vni ndata remote_vtep vteps =
    if not (is_vtep remote_vtep)
    then vteps
    else if value_eq remote_vtep local_vtep
    then vteps
    else if is_in remote_vtep vteps
    then vteps
    else if any (same_vni vni) (values (inner_box (get ndata "vlans")))
    then vteps ++ (remote_vtep ∷ [])
    else vteps

abbrev pub remote_step : String → Value → Value → Fields → String → List Value → List Value
remote_step node local_vtep vni nodes n vteps =
    let ndata = inner_box (get nodes n) in
    if n == node
    then vteps
    else if not (has ndata "vlans")
    then vteps
    else with_remote local_vtep vni ndata (vtep_of ndata) vteps

unfoldable pub remote_vteps :
    String → Value → Value → Fields → List String → List Value → List Value
unfolding get has values value_eq is_in any
remote_vteps node local_vtep vni nodes [] vteps = vteps
remote_vteps node local_vtep vni nodes (n ∷ ns) vteps =
    remote_vteps node local_vtep vni nodes ns (remote_step node local_vtep vni nodes n vteps)

abbrev pub local_vtep_of : String → Fields → Value
local_vtep_of node nodes =
    value_or_box (get (inner_box (get (inner_box (get nodes node)) "vxlan")) "vtep")

abbrev with_vtep_list : Fields → List Value → Fields
with_vtep_list vlan [] = pop vlan "vtep_list"
with_vtep_list vlan (v ∷ vs) = put vlan "vtep_list" (list (items (v ∷ vs)))

-- The VLAN after the call, and the list. `topo_nodes` is topology.nodes.
unfoldable pub build_vtep_list : Fields → String → List String → Fields → Fields × List Value
unfolding remote_vteps get pop put items
build_vtep_list vlan node nodes topo_nodes =
    let vteps =
      remote_vteps node (local_vtep_of node topo_nodes) (value_or_box (get vlan "vni")) topo_nodes
        nodes [] in
    (with_vtep_list vlan vteps, vteps)

-- The interface with the VTEP address, and its name.
pub record VtepInterface : Type 0 where
  pub interface : Fields
  pub if_name : Value

abbrev is_vtep_loopback : Fields → Bool
is_vtep_loopback intf =
    value_eq (value_or_none (get intf "type")) (str "loopback")
    && truthy (value_or_none (get (inner_box (get intf "vxlan")) "vtep"))

unfoldable pub find_vtep_interface : VtepInterface → List Value → VtepInterface
unfolding get value_eq truthy
find_vtep_interface found [] = found
find_vtep_interface found (v ∷ vs) =
    let rest = find_vtep_interface found vs in
    let intf = inner_box (some v) in
    if is_vtep_loopback intf
    then record { interface = intf; if_name = value_or_box (get intf "ifname") }
    else rest

abbrev element_list : Option Value → List Value
element_list (some (list xs)) = elems xs
element_list _ = []

-- node.vxlan.key = v
abbrev pub put_vxlan : Fields → String → Value → Fields
put_vxlan node key v = put node "vxlan" (dict (put (inner_box (get node "vxlan")) key v))

-- What node_set_vtep returns, the node, and the errors.
pub record VtepSet : Type 0 where
  pub has_vtep : Bool
  pub node : Fields
  pub errors : Reports

abbrev vtep_fails : Fields → VtepSet
vtep_fails node = record {
  has_vtep = false;
  node = node;
  errors = report incorrect_value "vxlan" ∷ [];
}

-- `merge` is the `+` of python-box, `eval_format` the evaluation of a format string, here with
-- ifindex 0, and `intf_address` is get_intf_address, a call of Python's ipaddress: `none` is its
-- exception.
module _ (merge : Fields → Fields → Fields) (eval_format : String → String)
    (intf_address : Value → Option String) where
  -- devices.get_loopback_name; the outer `none` is the error about an unknown device
  abbrev name_format : Option (Option Value) → Option (Option String)
  name_format none = none
  name_format (some (some (str s))) = if s == "" then some none else some (some (eval_format s))
  name_format (some v) = some none

  unfoldable pub get_loopback_name : Fields → Fields → Option (Option String)
  unfolding get_device_attribute
  get_loopback_name node defaults =
      name_format (get_device_attribute merge node "loopback_interface_name" defaults)

  abbrev with_vtep_address : Fields → Value → Option String → Option VtepSet
  with_vtep_address node if_name none = none
  with_vtep_address node if_name (some vtep) = some (record {
    has_vtep = true;
    node = put_vxlan (put_vxlan node "vtep" (str vtep)) "vtep_interface" if_name;
    errors = [];
  })

  abbrev set_transport : Fields → VtepInterface → String → Option VtepSet
  set_transport node vtep vtep_af =
      let node' = put_vxlan node "transport" (str vtep_af) in
      elim (get vtep.interface vtep_af) [
        | none ↦ some (vtep_fails node')
        | some address ↦ with_vtep_address node' vtep.if_name (intf_address address)
      ]

  abbrev vtep_feature : Option Fields → Option Bool
  vtep_feature none = none
  vtep_feature (some features) =
      some (truthy (value_or_none (get (inner_box (get features "vxlan")) "vtep6")))

  abbrev over_ipv6 : Fields → VtepInterface → Option Bool → Option VtepSet
  over_ipv6 node vtep none = none
  over_ipv6 node vtep (some false) = some (vtep_fails node)
  over_ipv6 node vtep (some true) = set_transport node vtep "ipv6"

  abbrev choose_transport : Fields → Fields → VtepInterface → Option VtepSet
  choose_transport node topology vtep =
      if truthy (value_or_none (get (inner_box (get topology "vxlan")) "use_v6_vtep"))
      then over_ipv6 node vtep
          (vtep_feature (get_device_features merge node (inner_box (get topology "defaults"))))
      else set_transport node vtep "ipv4"

  abbrev with_loopback : Fields → Fields → Option (Option String) → Option VtepSet
  with_loopback node topology none = none
  with_loopback node topology (some none) = none
  with_loopback node topology (some (some loopback_name)) = choose_transport node topology (
      find_vtep_interface
        (record { interface = inner_box (get node "loopback"); if_name = str loopback_name })
        (element_list (get node "interfaces")))

  -- `none` where the program ends: an unknown device or one without a loopback name, device features
  -- that are no dictionary, or an address that ipaddress does not take.
  unfoldable pub node_set_vtep : Fields → Fields → Option VtepSet
  unfolding get_loopback_name get_device_features find_vtep_interface get put truthy elems
  node_set_vtep node topology =
      with_loopback node topology (get_loopback_name node (inner_box (get topology "defaults")))
