-- ===== src/Evpn/NodeChecks.antt =====
-- netsim/modules/evpn.py: copy_global_evpn_lists, trim_node_evpn_lists and set_local_evpn_rd.
use netlab.Prelude.{String, not, ◌||◌, none, some, [], ◌++◌, keep, if◌then◌else◌}
use netlab.Log.{Reports}
use netlab.Data.{Value, str, list, dict, Fields, end, entry, get, has, put, keys, items, truthy}
use netlab.Data.Walks.{name_in}
use netlab.Modules.Attributes.{inner_box}
use netlab.Modules.References.{text_values}
use netlab.Vrf.Assign.{box_value}
use netlab.Evpn.Transit.{evpn_error}

abbrev evpn_copied : Fields → String → Fields → Fields
evpn_copied g_evpn k evpn = elim (get g_evpn k) [
  | none ↦ evpn
  | some v ↦ if has evpn k then evpn else put evpn k v
]

unfoldable pub copy_global_evpn_lists : Fields → Fields → Fields
unfolding get has put truthy
copy_global_evpn_lists node topology =
    let g_evpn = inner_box (get topology "evpn") in
    let evpn =
      evpn_copied g_evpn "transport"
        (evpn_copied g_evpn "vrfs" (evpn_copied g_evpn "vlans" (inner_box (get node "evpn")))) in
    if has node "evpn" || truthy (dict evpn) then put node "evpn" (dict evpn) else node

-- The names of the node's objects that are in the list, in the order of the objects.
abbrev trimmed_list : Fields → String → Fields → Fields
trimmed_list node ref_list evpn = elim (get evpn ref_list) [
  | none ↦ evpn
  | some refs ↦ put evpn ref_list (
      list
        (items (text_values (keep (λ s. name_in s refs) (keys (inner_box (get node ref_list)))))))
]

unfoldable pub trim_node_evpn_lists : Fields → Fields
unfolding get has put keys keep name_in items text_values
trim_node_evpn_lists node =
    if has node "evpn"
    then put node "evpn"
        (dict (trimmed_list node "vrfs" (trimmed_list node "vlans" (inner_box (get node "evpn")))))
    else node

-- `rd_text` is f'{router_id}:{evi}'.
module _ (rd_text : Value → Value → String) (router_id : Value) where
  abbrev local_rd : Fields → Fields × Reports
  local_rd o_data =
      let evpn = inner_box (get o_data "evpn") in
      if not (has o_data "evpn")
      then (o_data, [])
      else if not (has evpn "evi")
      then (o_data, evpn_error)
      else if has evpn "rd"
      then (o_data, [])
      else (
        put o_data "evpn" (dict (put evpn "rd" (str (rd_text router_id (box_value evpn "evi"))))),
        [],
      )

  abbrev local_value : Value → Value × Reports
  local_value (dict o_data) = (dict (local_rd o_data).0, (local_rd o_data).1)
  local_value v = (v, [])

  -- The VLANs, or the VRFs, of a node.
  unfoldable pub local_rds : Fields → Fields × Reports
  unfolding get has put
  local_rds end = (end, [])
  local_rds (entry o_name v objs) =
      let rest = local_rds objs in
      (entry o_name (local_value v).0 rest.0, (local_value v).1 ++ rest.1)

  abbrev with_local_rds : String → Fields × Reports → Fields × Reports
  with_local_rds obj (node, errors) = elim (get node obj) [
    | none ↦ (node, errors)
    | some v ↦ let r = local_rds (inner_box (some v)) in (put node obj (dict r.0), errors ++ r.1)
  ]

  unfoldable pub set_local_evpn_rd : Fields → Fields × Reports
  unfolding local_rds get put
  set_local_evpn_rd node = with_local_rds "vrfs" (with_local_rds "vlans" (node, []))
