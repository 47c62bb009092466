-- ===== src/Evpn/Services.antt =====
-- netsim/modules/evpn.py: get_usable_evpn_asn, vrf_irb_setup, and the checks of VLANs and VRFs that
-- read no device features.
use netlab.Prelude.{not, ◌&&◌, some, [], ◌∷◌, ◌++◌, if◌then◌else◌}
use netlab.Log.{Reports, report, incorrect_attr}
use netlab.Data.{pos, Value, int, dict, Fields, end, entry, get, has, put, truthy}
use netlab.Data.Appending.{is_true_int}
use netlab.Modules.Attributes.{inner_box}
use netlab.Vrf.Assign.{box_value}
use netlab.Vrf.Normal.{vrf_or_else, inner_value}
use netlab.Evpn.Transit.{evpn_error}

abbrev usable_asn : Value → Value × Reports
usable_asn asn = if truthy asn && is_true_int asn then (asn, []) else (int (pos 0), evpn_error)

unfoldable pub get_usable_evpn_asn : Fields → Value × Reports
unfolding get truthy is_true_int
get_usable_evpn_asn topology = usable_asn (
    vrf_or_else (inner_value topology "evpn" "as")
      (vrf_or_else (inner_value topology "vrf" "as") (inner_value topology "bgp" "as")))

-- An EVPN VRF without an EVPN instance takes its own identifier.
abbrev irb_vrf : Fields → Fields
irb_vrf vrf_data =
    let evpn = inner_box (get vrf_data "evpn") in
    if has vrf_data "evpn" && not (has evpn "evi")
    then put vrf_data "evpn" (dict (put evpn "evi" (box_value vrf_data "id")))
    else vrf_data

abbrev irb_value : Value → Value
irb_value (dict vrf_data) = dict (irb_vrf vrf_data)
irb_value v = v

unfoldable pub vrf_irb_setup : Fields → Fields
unfolding get has put
vrf_irb_setup end = end
vrf_irb_setup (entry vrf_name v vrfs) = entry vrf_name (irb_value v) (vrf_irb_setup vrfs)

-- check_vlan of check_no_vnis_for_mpls, on the VLANs of the topology or of a node
unfoldable pub vni_errors : Fields → Reports
unfolding has
vni_errors end = []
vni_errors (entry vname v vlans) =
    (if has (inner_box (some v)) "vni" then report incorrect_attr "evpn" ∷ [] else [])
    ++ vni_errors vlans

unfoldable pub node_vni_errors : Fields → Reports
unfolding vni_errors get
node_vni_errors end = []
node_vni_errors (entry node ndata nodes) =
    vni_errors (inner_box (get (inner_box (some ndata)) "vlans")) ++ node_vni_errors nodes

unfoldable pub check_no_vnis_for_mpls : Fields → Reports
unfolding node_vni_errors vni_errors get
check_no_vnis_for_mpls topology =
    vni_errors (inner_box (get topology "vlans"))
    ++ node_vni_errors (inner_box (get topology "nodes"))

unfoldable pub node_vrf_errors : Fields → Reports
unfolding has
node_vrf_errors end = []
node_vrf_errors (entry vname v vrfs) =
    (if has (inner_box (some v)) "evpn" then evpn_error else []) ++ node_vrf_errors vrfs

unfoldable pub validate_no_node_vrf_attributes : Fields → Reports
unfolding node_vrf_errors get
validate_no_node_vrf_attributes node = node_vrf_errors (inner_box (get node "vrfs"))
