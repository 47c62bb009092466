-- ===== src/Vxlan/Transform.antt =====
-- netsim/modules/vxlan.py: the hooks node_pre_transform, module_post_node_transform and
-- module_post_transform of the VXLAN module.
use netlab.Prelude.{
  String, Bool, false, not, ◌||◌, Option, none, some, List, [], ◌∷◌, ◌++◌, ◌==◌, keep,
  if◌then◌else◌,
}
use netlab.Prelude.Texts.{contains, sorted}
use netlab.Log.{Reports, report, missing_value}
use netlab.Data.{Value, str, list, dict, Fields, get, has, put, pop, items, truthy, keys, value_eq}
use netlab.Modules.Attributes.{inner_box, texts, text_list}
use netlab.Modules.References.{text_values, append_missing, filtered_keys}
use netlab.Types.Framework.{Outcome, execute_test, value_or_none}
use netlab.Types.Scalars.{must_be_string}
use netlab.Vxlan.Vtep.{VtepSet, node_set_vtep, build_vtep_list, put_vxlan}

abbrev flooding_values : Fields → List Value
flooding_values node =
    if contains "evpn" (text_list (get node "module"))
    then str "static" ∷ str "evpn" ∷ []
    else str "static" ∷ []

-- must_be_string on node.vxlan.flooding
unfoldable pub check_flooding : Fields → Outcome
unfolding execute_test get texts contains
check_flooding node =
    execute_test must_be_string
      (record {
        create_empty = none;
        true_value = none;
        valid_values = flooding_values node;
        context = record { abort = false; silent = false };
        module_name = "";
      })
      "flooding" (inner_box (get node "vxlan"))

-- All VLANs with a VNI, and the VRFs with a transit VNI.
abbrev has_vni : Value → Bool
has_vni v = truthy (value_or_none (get (inner_box (some v)) "vni"))

abbrev has_transit_vni : Value → Bool
has_transit_vni v =
    truthy (value_or_none (get (inner_box (get (inner_box (some v)) "evpn")) "transit_vni"))

abbrev name_list : List String → Value
name_list names = list (items (text_values names))

abbrev with_vxlan_vlans : Fields → Fields
with_vxlan_vlans ndata = elim (get ndata "vlans") [
  | none ↦ ndata
  | some vlans ↦
      put_vxlan ndata "vlans" (name_list (filtered_keys has_vni (inner_box (some vlans))))
]

abbrev set_l3vnis : Fields → List String → Fields
set_l3vnis ndata [] = ndata
set_l3vnis ndata (v ∷ vs) = put_vxlan ndata "l3vnis" (name_list (v ∷ vs))

abbrev with_l3vnis : Fields → Fields
with_l3vnis ndata = set_l3vnis ndata (filtered_keys has_transit_vni (inner_box (get ndata "vrfs")))

abbrev uses_vxlan : Fields → Bool
uses_vxlan ndata =
    truthy (value_or_none (get (inner_box (get ndata "vxlan")) "vlans"))
    || truthy (value_or_none (get (inner_box (get ndata "vxlan")) "l3vnis"))

abbrev without_vxlan : Fields → Fields
without_vxlan ndata =
    pop
      (put ndata "module"
        (name_list (keep (λ m. not (m == "vxlan")) (text_list (get ndata "module")))))
      "vxlan"

-- A node after the first loop, and the flooding domain that it joins.
pub record Prepared : Type 0 where
  pub node_data : Fields
  pub domain : Option String
  pub errors : Reports

abbrev vxlan_apart : Fields → Reports → Prepared
vxlan_apart ndata errors = record { node_data = ndata; domain = none; errors = errors }

abbrev domain_of : Fields → Option String
domain_of ndata = elim (get (inner_box (get ndata "vxlan")) "domain") [
  | some (str d) ↦ some d
  | _ ↦ none
]

abbrev joined_domain : Option VtepSet → Option Prepared
joined_domain none = none
joined_domain (some r) = some (record {
  node_data = r.node;
  domain = if r.has_vtep then domain_of r.node else none;
  errors = r.errors;
})

-- The names of the nodes of each domain, domains in the order of their first nodes.
abbrev pub Domains : Type 0
Domains = List (String × List String)

unfoldable pub add_to_domain : String → String → Domains → Domains
add_to_domain d name [] = (d, name ∷ []) ∷ []
add_to_domain d name ((e, names) ∷ ds) =
    let more = add_to_domain d name ds in
    if e == d then (e, names ++ (name ∷ [])) ∷ ds else (e, names) ∷ more

pub record DomainScan : Type 0 where
  pub nodes : Fields
  pub domains : Domains
  pub errors : Reports

abbrev with_domain : String → Option String → Domains → Domains
with_domain name none ds = ds
with_domain name (some d) ds = add_to_domain d name ds

abbrev vxlan_scanned : String → DomainScan → Option Prepared → Option DomainScan
vxlan_scanned name scan none = none
vxlan_scanned name scan (some p) = some (record {
  nodes = put scan.nodes name (dict p.node_data);
  domains = with_domain name p.domain scan.domains;
  errors = scan.errors ++ p.errors;
})

-- One round of the loop on the VLANs of a node, and the VTEPs found for it so far.
abbrev put_vlan : Fields → String → String → Fields → Fields
put_vlan nodes node vname vlan =
    let ndata = inner_box (get nodes node) in
    put nodes node
      (dict (put ndata "vlans" (dict (put (inner_box (get ndata "vlans")) vname (dict vlan)))))

abbrev flood_built :
    Fields → String → String → List String → Fields × List Value → Fields × List String
flood_built nodes node vname vtep_set (vlan, vteps) =
    (put_vlan nodes node vname vlan, append_missing vtep_set (texts vteps))

unfoldable pub flood_vlans :
    String → List String → List String → Fields × List String → Fields × List String
unfolding build_vtep_list append_missing get put texts has
flood_vlans node domain [] r = r
flood_vlans node domain (vname ∷ vs) (nodes, vtep_set) =
    let vlan = inner_box (get (inner_box (get (inner_box (get nodes node)) "vlans")) vname) in
    flood_vlans node domain vs (
      if has vlan "vni"
      then flood_built nodes node vname vtep_set (build_vtep_list vlan node domain nodes)
      else (nodes, vtep_set))

abbrev set_vtep_list : String → Fields × List String → Fields
set_vtep_list node (nodes, vtep_set) =
    put nodes node
      (dict (put_vxlan (inner_box (get nodes node)) "vtep_list" (name_list (sorted vtep_set))))

unfoldable pub flood_nodes : List String → List String → Fields → Fields
unfolding flood_vlans get put keys value_eq sorted items text_values
flood_nodes domain [] nodes = nodes
flood_nodes domain (node ∷ ns) nodes =
    let ndata = inner_box (get nodes node) in
    flood_nodes domain ns (
      if value_eq (value_or_none (get (inner_box (get ndata "vxlan")) "flooding")) (str "static")
      then set_vtep_list node
          (flood_vlans node domain (keys (inner_box (get ndata "vlans"))) (nodes, []))
      else nodes)

unfoldable pub flood_domains : Domains → Fields → Fields
unfolding flood_nodes
flood_domains [] nodes = nodes
flood_domains ((d, names) ∷ ds) nodes = flood_domains ds (flood_nodes names names nodes)

-- The global parameter is a copy of the default where there is none.
unfoldable pub copy_use_v6_vtep : Fields → Fields
unfolding get put has
copy_use_v6_vtep topology =
    let vxlan = inner_box (get topology "vxlan") in
    let defaults = inner_box (get (inner_box (get topology "defaults")) "vxlan") in
    if has vxlan "use_v6_vtep"
    then topology
    else put topology "vxlan"
        (dict (put vxlan "use_v6_vtep" (value_or_none (get defaults "use_v6_vtep"))))

module _ (merge : Fields → Fields → Fields) (eval_format : String → String)
    (intf_address : Value → Option String) where
  abbrev prepare_vxlan : Fields → Fields → Option Prepared
  prepare_vxlan topology ndata =
      if uses_vxlan ndata
      then joined_domain (node_set_vtep merge eval_format intf_address ndata topology)
      else some (vxlan_apart (without_vxlan ndata) [])

  unfoldable pub prepare_node : Fields → Fields → Option Prepared
  unfolding node_set_vtep get put pop truthy texts contains filtered_keys keep items text_values
  prepare_node topology ndata =
      if not (contains "vxlan" (text_list (get ndata "module")))
      then some (vxlan_apart ndata [])
      else if not (truthy (value_or_none (get ndata "interfaces")))
      then some (vxlan_apart ndata (report missing_value "vxlan" ∷ []))
      else prepare_vxlan topology (with_l3vnis (with_vxlan_vlans ndata))

  unfoldable pub prepare_nodes : Fields → List String → DomainScan → Option DomainScan
  unfolding prepare_node add_to_domain get put
  prepare_nodes topology [] scan = some scan
  prepare_nodes topology (name ∷ ns) scan =
      elim (vxlan_scanned name scan (prepare_node topology (inner_box (get scan.nodes name)))) [
        | none ↦ none
        | some scan' ↦ prepare_nodes topology ns scan'
      ]

  abbrev flooded : Fields → Option DomainScan → Option (Fields × Reports)
  flooded topology none = none
  flooded topology (some scan) =
      some (put topology "nodes" (dict (flood_domains scan.domains scan.nodes)), scan.errors)

  unfoldable pub vxlan_post_transform : Fields → Option (Fields × Reports)
  unfolding prepare_nodes flood_domains copy_use_v6_vtep get put keys
  vxlan_post_transform topology =
      let topology' = copy_use_v6_vtep topology in
      let nodes = inner_box (get topology "nodes") in
      flooded topology'
        (prepare_nodes topology' (keys nodes) (record { nodes = nodes; domains = []; errors = [] }))
