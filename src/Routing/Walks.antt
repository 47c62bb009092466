-- ===== src/Routing/Walks.antt =====
-- neighbors, intf_neighbors, rp_data and igp_interfaces
use netlab.Prelude.{
  String, Bool, true, false, not, ◌&&◌, ◌||◌, Option, none, some, List, [], ◌∷◌, ◌++◌, ◌==◌, keep,
  if◌then◌else◌,
}
use netlab.Prelude.Texts.{contains}
use netlab.Data.{Value, null, str, list, dict, Fields, end, get, has, put, value_eq, truthy, elems}

pub record RoutingNode : Type 0 where
  pub settings : Fields
  pub interfaces : List Fields
  pub vrfs : List (String × Fields)

abbrev pub fields_at : Option Value → Fields
fields_at (some (dict b)) = b
fields_at _ = end

unfoldable pub boxes : List Value → List Fields
boxes [] = []
boxes (dict b ∷ vs) = b ∷ boxes vs
boxes (v ∷ vs) = boxes vs

abbrev pub boxes_at : Option Value → List Fields
boxes_at (some (list xs)) = boxes (elems xs)
boxes_at _ = []

abbrev session_kind : Fields → String → Bool
session_kind ngb kind = elim (get ngb "type") [ none ↦ false | some v ↦ value_eq v (str kind) ]

unfoldable pub kind_in : Fields → List String → Bool
unfolding get value_eq
kind_in ngb [] = false
kind_in ngb (k ∷ ks) = session_kind ngb k || kind_in ngb ks

unfoldable pub mark_vrf : String → List Fields → List Fields
unfolding put
mark_vrf vname [] = []
mark_vrf vname (ngb ∷ ngbs) = put ngb "_src_vrf" (str vname) ∷ mark_vrf vname ngbs

-- b.get('bgp.neighbors',[])
abbrev bgp_neighbors : Fields → List Fields
bgp_neighbors b = boxes_at (get (fields_at (get b "bgp")) "neighbors")

abbrev selected : List String → Fields → Bool
selected select ngb = kind_in ngb select || contains "*" select

unfoldable pub vrf_neighbors : List String → List (String × Fields) → List Fields
unfolding keep mark_vrf contains get boxes elems
vrf_neighbors select [] = []
vrf_neighbors select ((vname, vdata) ∷ vrfs) =
    mark_vrf vname (keep (selected select) (bgp_neighbors vdata)) ++ vrf_neighbors select vrfs

unfoldable pub neighbors : RoutingNode → Bool → List String → List Fields
unfolding keep vrf_neighbors get has contains boxes elems
neighbors n vrf select =
    if not (has n.settings "bgp")
    then []
    else keep (selected select) (bgp_neighbors n.settings)
      ++ (if vrf then vrf_neighbors select n.vrfs else [])

unfoldable pub vrf_data : List (String × Fields) → String → Fields
vrf_data [] v = end
vrf_data ((vname, vdata) ∷ vrfs) v = if vname == v then vdata else vrf_data vrfs v

abbrev value_or_null : Option Value → Value
value_or_null none = null
value_or_null (some v) = v

abbrev on_interface : Fields → List String → Fields → Bool
on_interface intf select ngb =
    value_eq (value_or_null (get ngb "ifindex")) (value_or_null (get intf "ifindex"))
    && kind_in ngb select

abbrev name_of : Option Value → String
name_of (some (str s)) = s
name_of _ = ""

unfoldable pub with_interface : Fields → List Fields → List (Fields × Fields)
with_interface intf [] = []
with_interface intf (ngb ∷ ngbs) = (intf, ngb) ∷ with_interface intf ngbs

unfoldable pub intf_neighbors_from :
    RoutingNode → Bool → List String → List Fields → List (Fields × Fields)
unfolding has get keep kind_in value_eq with_interface vrf_data boxes elems
intf_neighbors_from n vrf select [] = []
intf_neighbors_from n vrf select (intf ∷ intfs) =
    (if has intf "vrf"
      then (if vrf
          then with_interface intf (
              keep (on_interface intf select)
                (bgp_neighbors (vrf_data n.vrfs (name_of (get intf "vrf")))))
          else [])
      else with_interface intf (keep (on_interface intf select) (bgp_neighbors n.settings)))
    ++ intf_neighbors_from n vrf select intfs

unfoldable pub intf_neighbors : RoutingNode → Bool → List String → List (Fields × Fields)
unfolding intf_neighbors_from
intf_neighbors n vrf select = intf_neighbors_from n vrf select n.interfaces

-- isinstance(data,Box) or bool(data)
abbrev rp_active : Option Value → Bool
rp_active none = false
rp_active (some (dict b)) = true
rp_active (some v) = truthy v

-- The protocol's data, its interfaces and the name of the VRF.
pub record Instance : Type 0 where
  pub data_of : Value
  pub interfaces : List Fields
  pub vrf : Option String

unfoldable pub vrf_instances : String → List (String × Fields) → List Instance
unfolding get truthy boxes elems
vrf_instances proto [] = []
vrf_instances proto ((vname, vdata) ∷ vrfs) =
    (if rp_active (get vdata proto)
      then record {
        data_of = value_or_null (get vdata proto);
        interfaces = boxes_at (get (fields_at (get vdata proto)) "interfaces");
        vrf = some vname;
      }
        ∷ []
      else [])
    ++ vrf_instances proto vrfs

unfoldable pub rp_data : RoutingNode → String → List String → List Instance
unfolding get truthy keep has contains vrf_instances
rp_data n proto select =
    (if contains "global" select && rp_active (get n.settings proto)
      then record {
        data_of = value_or_null (get n.settings proto);
        interfaces = keep (λ intf. has intf proto) n.interfaces;
        vrf = none;
      }
        ∷ []
      else [])
    ++ (if contains "vrf" select then vrf_instances proto n.vrfs else [])

-- vdata[proto].interfaces, and nothing where there is no such list
abbrev pub vrf_interfaces : String → Fields → List Fields
vrf_interfaces proto vdata = boxes_at (get (fields_at (get vdata proto)) "interfaces")

-- The code looks for the key 'proto' in the interfaces of a VRF.
unfoldable pub vrf_igp_interfaces : String → List (String × Fields) → List Fields
unfolding keep has get boxes elems
vrf_igp_interfaces proto [] = []
vrf_igp_interfaces proto ((vname, vdata) ∷ vrfs) =
    keep (λ intf. has intf "proto") (vrf_interfaces proto vdata) ++ vrf_igp_interfaces proto vrfs

unfoldable pub igp_interfaces : RoutingNode → String → Bool → List Fields
unfolding keep has vrf_igp_interfaces
igp_interfaces n proto vrf =
    keep (λ intf. has intf proto) n.interfaces
    ++ (if vrf then vrf_igp_interfaces proto n.vrfs else [])
