-- ===== src/Vrf/Nodes.antt =====
-- netsim/modules/vrf.py: the interfaces of VRFs and the index of a VRF on its node
-- (fix_vrf_unnumbered, get_vrf_loopback, node_post_link_transform, node_post_transform).
use netlab.Prelude.{
  ℕ, suc, ◌+◌, String, Bool, true, false, not, ◌&&◌, ◌||◌, Option, none, some, List, [], ◌∷◌, ◌++◌,
  map, leb, if◌then◌else◌,
}
use netlab.Log.{Reports, report, missing_value}
use netlab.Data.{
  pos, Value, bool, int, str, list, dict, Fields, end, entry, get, has, put, keys, elems, items,
  truthy, value_eq,
}
use netlab.Modules.Attributes.{inner_box}
use netlab.Types.Framework.{value_or_none}
use netlab.Vrf.Assign.{box_value}
use netlab.Vrf.Normal.{inner_value}

abbrev is_unnumbered : Value → Bool
is_unnumbered (bool b) = b
is_unnumbered v = false

-- The loopback of the VRF becomes the parent of its unnumbered interfaces.
unfoldable pub with_parent : String → Fields → Value → Value
unfolding get has put value_eq
with_parent vrfname lbdata v =
    let intf = inner_box (some v) in
    if not (has intf "vrf" && value_eq (value_or_none (get intf "vrf")) (str vrfname))
    then v
    else if not (is_unnumbered (value_or_none (get intf "ipv4")))
    then v
    else dict (
        put
          (put (put intf "_parent_intf" (box_value lbdata "ifname")) "_parent_ipv4"
            (box_value lbdata "ipv4"))
          "_parent_vrf" (str vrfname))

abbrev interfaces_of : Fields → List Value
interfaces_of node = elim (get node "interfaces") [ some (list xs) ↦ elems xs | _ ↦ [] ]

unfoldable pub fix_vrf_unnumbered : Fields → String → Fields → Fields
unfolding with_parent get has put elems items
fix_vrf_unnumbered node vrfname lbdata =
    if has node "interfaces"
    then put node "interfaces"
        (list (items (map (with_parent vrfname lbdata) (interfaces_of node))))
    else node

abbrev is_vrf_loopback : String → Fields → Bool
is_vrf_loopback vrf intf =
    value_eq (value_or_none (get intf "type")) (str "loopback")
    && value_eq (value_or_none (get intf "vrf")) (str vrf)

unfoldable pub first_loopback : String → List Value → Option Fields
unfolding get value_eq
first_loopback vrf [] = none
first_loopback vrf (v ∷ vs) =
    let rest = first_loopback vrf vs in
    if is_vrf_loopback vrf (inner_box (some v)) then some (inner_box (some v)) else rest

unfoldable pub get_vrf_loopback : Fields → String → Option Fields
unfolding first_loopback elems get
get_vrf_loopback node vrf = first_loopback vrf (interfaces_of node)

-- node_post_link_transform: the VRFs of the interfaces of a node become VRFs of the node.
abbrev with_local_vrf : String → Fields → Fields
with_local_vrf vrf node =
    let vrfs = inner_box (get node "vrfs") in
    if has vrfs vrf then node else put node "vrfs" (dict (put vrfs vrf (dict end)))

abbrev is_known_vrf : String → Fields → Fields → Bool
is_known_vrf vrf node topology =
    truthy (inner_value topology "vrfs" vrf) || truthy (inner_value node "vrfs" vrf)

abbrev interface_vrf : Fields → Option Value → Fields → Fields × Reports
interface_vrf topology (some (str vrf)) node =
    if is_known_vrf vrf node topology
    then (with_local_vrf vrf node, [])
    else (node, report missing_value "vrf" ∷ [])
interface_vrf topology vrf node = (node, [])

unfoldable pub pull_interface_vrfs : Fields → List Value → Fields × Reports → Fields × Reports
unfolding get has put truthy
pull_interface_vrfs topology [] r = r
pull_interface_vrfs topology (v ∷ vs) (node, errors) =
    let r = interface_vrf topology (get (inner_box (some v)) "vrf") node in
    pull_interface_vrfs topology vs (r.0, errors ++ r.1)

-- `merge` is the `+` of python-box.
unfoldable pub merge_global_vrfs :
    (Fields → Fields → Fields) → Fields → List String → Fields → Fields
unfolding get has put
merge_global_vrfs merge topo_vrfs [] vrfs = vrfs
merge_global_vrfs merge topo_vrfs (vname ∷ names) vrfs = merge_global_vrfs merge topo_vrfs names (
    if has topo_vrfs vname
    then put vrfs vname
        (dict (merge (inner_box (get topo_vrfs vname)) (inner_box (get vrfs vname))))
    else vrfs)

-- node_post_transform: the address families of the VRFs of interfaces, and the errors.
abbrev put_af : Fields → String → Fields
put_af obj af = put obj "af" (dict (put (inner_box (get obj "af")) af (bool true)))

abbrev mark_af : Fields → String → String → String → Fields → Fields
mark_af ifdata ip vpn vrf node =
    let vrfs = inner_box (get node "vrfs") in
    if has ifdata ip
    then put (put_af node vpn) "vrfs"
        (dict (put vrfs vrf (dict (put_af (inner_box (get vrfs vrf)) ip))))
    else node

abbrev interface_af : Fields → Option Value → Fields → Fields × Reports
interface_af ifdata (some (str vrf)) node =
    let vrfs = inner_box (get node "vrfs") in
    if truthy (inner_value vrfs vrf "rd")
    then (mark_af ifdata "ipv6" "vpnv6" vrf (mark_af ifdata "ipv4" "vpnv4" vrf node), [])
    else (node, report missing_value "vrf" ∷ [])
interface_af ifdata vrf node = (node, [])

unfoldable pub mark_vrf_afs : List Value → Fields × Reports → Fields × Reports
unfolding get has put truthy
mark_vrf_afs [] r = r
mark_vrf_afs (v ∷ vs) (node, errors) =
    let ifdata = inner_box (some v) in
    let r = interface_af ifdata (get ifdata "vrf") node in mark_vrf_afs vs (r.0, errors ++ r.1)

-- How many interfaces and loopbacks use VRFs.
unfoldable pub count_interfaces : List Value → ℕ
unfolding has
count_interfaces [] = 0
count_interfaces (v ∷ vs) =
    let rest = count_interfaces vs in if has (inner_box (some v)) "vrf" then suc rest else rest

unfoldable pub count_loopbacks : Bool → Fields → ℕ
unfolding has
count_loopbacks vrf_lb end = 0
count_loopbacks vrf_lb (entry vname v vrfs) =
    let rest = count_loopbacks vrf_lb vrfs in
    if has (inner_box (some v)) "loopback" || vrf_lb then suc rest else rest

unfoldable pub vrf_count : Fields → ℕ
unfolding count_interfaces count_loopbacks get elems truthy
vrf_count node =
    count_interfaces (interfaces_of node)
    + count_loopbacks (truthy (inner_value node "vrf" "loopback")) (inner_box (get node "vrfs"))

-- The VRFs sorted by their identifiers, which are numbers by then; equal ones keep their order.
abbrev id_of : Fields → String → ℕ
id_of vrfs vname = elim (inner_value vrfs vname "id") [ int (pos n) ↦ n | _ ↦ 0 ]

unfoldable pub insert_by_id : Fields → String → List String → List String
unfolding get
insert_by_id vrfs s [] = s ∷ []
insert_by_id vrfs s (x ∷ xs) =
    let rest = insert_by_id vrfs s xs in
    if leb (id_of vrfs s) (id_of vrfs x) then s ∷ x ∷ xs else x ∷ rest

unfoldable pub sorted_by_id : Fields → List String → List String
unfolding insert_by_id
sorted_by_id vrfs [] = []
sorted_by_id vrfs (s ∷ ss) = insert_by_id vrfs s (sorted_by_id vrfs ss)

unfoldable pub number_vrfs : ℕ → List String → Fields → Fields
unfolding get put
number_vrfs vrfidx [] vrfs = vrfs
number_vrfs vrfidx (vname ∷ names) vrfs =
    number_vrfs (vrfidx + 1) names
      (put vrfs vname (dict (put (inner_box (get vrfs vname)) "vrfidx" (int (pos vrfidx)))))

unfoldable pub set_vrfidx : Fields → Fields
unfolding number_vrfs sorted_by_id keys
set_vrfidx vrfs = number_vrfs 100 (sorted_by_id vrfs (keys vrfs)) vrfs
