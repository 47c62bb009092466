-- ===== src/Examples/RoutingRuns.antt =====
-- A node with OSPF on a global interface and on one in a VRF
use netlab.Prelude.{◌≡◌, refl, true, [], ◌∷◌}
use netlab.Data.{str, list, cons, nil, dict, Fields, end, entry}
use netlab.Routing.{RoutingNode, igp_interfaces, boxes}

abbrev ospf_interface : Fields
ospf_interface = entry "ospf" (dict (entry "area" (str "0.0.0.0") end)) end

abbrev edge_node : RoutingNode
edge_node = record {
  settings = end;
  interfaces = ospf_interface ∷ [];
  vrfs =
      (
        "red",
        entry "ospf" (dict (entry "interfaces" (list (cons (dict ospf_interface) nil)) end)) end,
      )
      ∷ [];
}

-- The interface of the VRF has no key 'proto', so it is not yielded.
one_yielded : igp_interfaces edge_node "ospf" true ≡ ospf_interface ∷ []
unfolding igp_interfaces boxes
one_yielded = refl
