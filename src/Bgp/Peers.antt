-- ===== src/Bgp/Peers.antt =====
-- The loops of build_ebgp_sessions, and what follows them: next hops, address families, clusters
use netlab.Prelude.{
  String, Bool, true, false, not, ◌&&◌, ◌||◌, Option, none, some, List, [], ◌∷◌, ◌++◌, ◌==◌, any,
  if◌then◌else◌,
}
use netlab.Log.{report, incorrect_value, warning, Reports}
use netlab.Data.{
  Value, bool, str, dict, list, Fields, end, get, has, put, pop, truthy, value_eq, is_in, elems,
  items,
}
use netlab.Data.Appending.{append_to_list}
use netlab.Bgp.Nodes.{
  BgpNode, Sessions, node_at, bgp_attr, bgp_as, attr_set, or_null, or_empty, is_rr,
}
use netlab.Bgp.Ebgp.{
  BgpFeatures, Peering, has_address, get_interface_as, ebgp_session, is_false, elements,
}

abbrev pub box_of : Option Value → Fields
box_of (some (dict b)) = b
box_of _ = end

abbrev appended : Fields → Fields → Fields
appended b ngb = or_empty (append_to_list (some b) "neighbors" (dict ngb) false).0

-- ebgp_data.activate[af] = True for the address families of the neighbor
abbrev activated : String → Fields → Fields
activated af ngb =
    if has ngb af
    then put ngb "activate" (dict (put (box_of (get ngb "activate")) af (bool true)))
    else ngb

unfoldable pub add_vrf_neighbor : BgpNode → String → Fields → BgpNode
unfolding has get put append_to_list
add_vrf_neighbor node vrf ngb =
    let vrf_data = box_of (get node.vrfs vrf) in
    let ngb' = activated "ipv6" (activated "ipv4" ngb) in
    if is_false (get vrf_data "bgp") then node else (record node {
      vrfs =
          put node.vrfs vrf
            (dict (put vrf_data "bgp" (dict (appended (box_of (get vrf_data "bgp")) ngb'))));
    })

unfoldable pub add_global_neighbor : BgpNode → Fields → BgpNode
unfolding append_to_list get
add_global_neighbor node ngb = record node { bgp = some (dict (appended (box_of node.bgp) ngb)) }

-- An empty VRF name is no VRF.
abbrev pub store_session : Option Value → Fields → BgpNode → BgpNode
store_session (some (str vrf)) ngb node =
    if vrf == "" then add_global_neighbor node ngb else add_vrf_neighbor node vrf ngb
store_session _ ngb node = add_global_neighbor node ngb

abbrev pub with_session : Option Value → Option Fields → BgpNode → BgpNode
with_session vrf none node = node
with_session vrf (some ngb) node = store_session vrf ngb node

abbrev pub node_named : Option Value → String
node_named (some (str s)) = s
node_named _ = ""

module _ (merge : Fields → Fields → Fields) (intf_address : Value → Value) (features : BgpFeatures)
    (sessions : Sessions) (nodes : List BgpNode) where
  abbrev pub with_peering : Option BgpNode → BgpNode → Fields → Fields → Option Peering
  with_peering none node l ngb = none
  with_peering (some neighbor) node l ngb =
      some (ebgp_session merge intf_address features node sessions l neighbor ngb)

  -- The loop over the neighbors on an interface. `none` is the exception about a neighbor that is no
  -- node of the topology; a neighbor with no address is passed over before it is looked up.
  unfoldable pub ebgp_neighbors :
      BgpNode → Fields → List Value → Option (BgpNode × (Fields × Reports))
  unfolding ebgp_session get has
  ebgp_neighbors node l [] = some (node, (l, []))
  ebgp_neighbors node l (v ∷ vs) =
      let ngb = box_of (some v) in
      if not (has_address ngb)
      then ebgp_neighbors node l vs
      else (elim (with_peering (node_at (node_named (get ngb "node")) nodes) node l ngb) [
        | none ↦ none
        | some p ↦ elim (ebgp_neighbors (with_session (get l "vrf") p.session node) p.intf vs) [
          | none ↦ none
          | some (node', (l', more)) ↦ some (node', (l', p.errors ++ more))
        ]
      ])

  -- A local AS needs a device that supports it, and in a VRF one that supports it there.
  abbrev pub local_as_refused : BgpNode → Fields → Bool
  local_as_refused node l =
      not (value_eq (bgp_as node) (get_interface_as node l))
      && (not features.local_as || (attr_set (get l "vrf") && not features.vrf_local_as))

  unfoldable pub ebgp_interface : BgpNode → Fields → Option (BgpNode × (Fields × Reports))
  unfolding ebgp_neighbors get has pop elems get_interface_as value_eq truthy
  ebgp_interface node l =
      if is_false (get l "bgp")
      then some (node, (pop l "bgp", []))
      else if not (has_address l)
      then some (node, (l, []))
      else if local_as_refused node l
      then some (node, (l, report incorrect_value "bgp" ∷ []))
      else ebgp_neighbors node l (elements (get l "neighbors"))

  unfoldable pub ebgp_interfaces :
      BgpNode → List Fields → Option (BgpNode × (List Fields × Reports))
  unfolding ebgp_interface
  ebgp_interfaces node [] = some (node, ([], []))
  ebgp_interfaces node (l ∷ ls) = elim (ebgp_interface node l) [
    | none ↦ none
    | some (node', (l', errors)) ↦ elim (ebgp_interfaces node' ls) [
      | none ↦ none
      | some (node'', (ls', more)) ↦ some (node'', (l' ∷ ls', errors ++ more))
    ]
  ]

  abbrev with_interfaces : Option (BgpNode × (List Fields × Reports)) → Option (BgpNode × Reports)
  with_interfaces none = none
  with_interfaces (some (node, (ls, errors))) = some (record node { interfaces = ls }, errors)

  unfoldable pub build_ebgp_sessions : BgpNode → Option (BgpNode × Reports)
  unfolding ebgp_interfaces
  build_ebgp_sessions node = with_interfaces (ebgp_interfaces node node.interfaces)

abbrev pub kind_is : String → Value → Bool
kind_is kind (dict ngb) = value_eq (or_null (get ngb "type")) (str kind)
kind_is kind v = false

abbrev pub fixed : Value → Value
fixed (dict ngb) =
    if kind_is "ibgp" (dict ngb) then dict (put ngb "next_hop_self" (str "all")) else dict ngb
fixed v = v

unfoldable pub fix_each : List Value → List Value
unfolding get put value_eq
fix_each [] = []
fix_each (v ∷ vs) = fixed v ∷ fix_each vs

-- node.bgp[attr] = v
abbrev pub set_bgp : BgpNode → String → Value → BgpNode
set_bgp node attr v = record node { bgp = some (dict (put (box_of node.bgp) attr v)) }

-- One localas_ibgp session makes the node the next hop on all its IBGP sessions.
unfoldable pub localas_ibgp_nhs_fixup : BgpNode → BgpNode × Reports
unfolding fix_each any elems items get put value_eq truthy
localas_ibgp_nhs_fixup node =
    let ngb_list = elements (bgp_attr node "neighbors") in
    if any (kind_is "localas_ibgp") ngb_list
    then (
      set_bgp node "neighbors" (list (items (fix_each ngb_list))),
      (if is_rr node then report warning "bgp" ∷ [] else []),
    )
    else (node, [])

-- af in activate and ngb.type in activate[af]
abbrev active_in : Option Value → Value → Bool
active_in (some (list kinds)) kind = is_in kind (elems kinds)
active_in _ kind = false

abbrev pub activation : BgpNode → Fields → String → Fields → Fields
activation node activate af ngb =
    if has ngb af
    then put ngb "activate" (
        dict (
          put (box_of (get ngb "activate")) af (
            if attr_set (bgp_attr node af)
            then bool (active_in (get activate af) (or_null (get ngb "type")))
            else or_null (bgp_attr node af))))
    else ngb

abbrev activate_one : BgpNode → Fields → Value → Value
activate_one node activate (dict ngb) =
    dict (activation node activate "ipv6" (activation node activate "ipv4" ngb))
activate_one node activate v = v

unfoldable pub activate_each : BgpNode → Fields → List Value → List Value
unfolding has get put is_in elems truthy
activate_each node activate [] = []
activate_each node activate (v ∷ vs) = activate_one node activate v ∷ activate_each node activate vs

unfoldable pub activate_bgp_default_af : BgpNode → Fields → BgpNode
unfolding activate_each get put elems items
activate_bgp_default_af node activate =
    set_bgp node "neighbors"
      (list (items (activate_each node activate (elements (bgp_attr node "neighbors")))))
