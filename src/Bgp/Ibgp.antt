-- ===== src/Bgp/Ibgp.antt =====
-- build_ibgp_sessions: with whom a node has IBGP sessions, and the data of its neighbors
use netlab.Prelude.{
  String, Bool, true, false, not, ◌&&◌, ◌||◌, Option, none, some, List, [], ◌∷◌, ◌==◌, any, keep,
  if◌then◌else◌, is_some,
}
use netlab.Prelude.Texts.{contains}
use netlab.Log.{report, warning, Reports}
use netlab.Data.{Value, bool, str, dict, Fields, get, has, put, truthy, value_eq}
use netlab.Bgp.Nodes.{
  BgpNode, Sessions, bgp_attr, bgp_as, attr_set, is_rr, find_bgp_rr, get_neighbor_rr,
  get_remote_ibgp_endpoint, bgp_neighbor,
}

-- bgp.get('rr_mesh',True)
abbrev mesh_value : Option Value → Bool
mesh_value none = true
mesh_value (some v) = truthy v

abbrev pub rr_mesh : BgpNode → Bool
rr_mesh n = mesh_value (bgp_attr n "rr_mesh")

abbrev pub no_nodes : List BgpNode → Bool
no_nodes [] = true
no_nodes (n ∷ ns) = false

-- Every other node of the AS; from a route reflector outside the mesh, without the route reflectors
-- that are outside it too.
unfoldable pub as_nodes : BgpNode → List BgpNode → List BgpNode
unfolding keep value_eq get
as_nodes node nodes =
    let others = keep (λ n. not (n.name == node.name) && value_eq (bgp_as n) (bgp_as node)) nodes in
    if is_rr node && not (rr_mesh node)
    then keep (λ n. not (is_rr n) || rr_mesh n) others
    else others

unfoldable pub ibgp_ngb_list : BgpNode → List BgpNode → List BgpNode
unfolding as_nodes find_bgp_rr
ibgp_ngb_list node nodes =
    let rrlist = if is_rr node then [] else find_bgp_rr (bgp_as node) nodes in
    if is_rr node || no_nodes rrlist then as_nodes node nodes else rrlist

abbrev pub with_source : Option Fields → Fields → Fields
with_source none ngb = ngb
with_source (some loopback) ngb = put ngb "_source_intf" (dict loopback)

abbrev pub with_nhs : Bool → Fields → Fields
with_nhs nhs ngb = if nhs then put ngb "next_hop_self" (str "ebgp") else ngb

abbrev pub with_client : Bool → Fields → Fields
with_client rr ngb = if rr && not (has ngb "rr") then put ngb "rr_client" (bool true) else ngb

unfoldable pub ibgp_data : BgpNode → Fields → Fields
unfolding put has get
ibgp_data node ngb =
    with_client (is_rr node)
      (with_nhs (attr_set (bgp_attr node "next_hop_self")) (with_source node.loopback ngb))

module _ (intf_address : Value → Value) (ebgp_role : Value) where
  abbrev pub add_neighbor : BgpNode → Option Fields → List Fields → List Fields
  add_neighbor node none neighbors = neighbors
  add_neighbor node (some ngb) neighbors = ibgp_data node ngb ∷ neighbors

  -- The neighbors that the loop appends to node.bgp.neighbors.
  unfoldable pub ibgp_neighbors : BgpNode → Sessions → List BgpNode → List Fields
  unfolding ibgp_data bgp_neighbor get_remote_ibgp_endpoint get_neighbor_rr
  ibgp_neighbors node sessions [] = []
  ibgp_neighbors node sessions (n ∷ ns) =
      add_neighbor node
        (bgp_neighbor intf_address n (get_remote_ibgp_endpoint ebgp_role n) "ibgp" sessions
          (get_neighbor_rr n))
        (ibgp_neighbors node sessions ns)

  abbrev has_sessions : List Fields → Bool
  has_sessions [] = false
  has_sessions (n ∷ ns) = true

  -- The sessions, and the warning about a node with IBGP sessions and no IGP.
  unfoldable pub build_ibgp_sessions :
      BgpNode → Sessions → List BgpNode → Bool → List String → List Fields × Reports
  unfolding ibgp_neighbors ibgp_ngb_list any contains
  build_ibgp_sessions node sessions nodes missing_igp igp_list =
      let added = ibgp_neighbors node sessions (ibgp_ngb_list node nodes) in
      (
        added,
        (if has_sessions added
              && (missing_igp && is_some node.loopback)
              && not (any (λ igp. contains igp node.modules) igp_list)
            then report warning "bgp" ∷ []
            else []),
      )
