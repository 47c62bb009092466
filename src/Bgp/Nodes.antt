-- ===== src/Bgp/Nodes.antt =====
-- Nodes as the BGP code sees them: find_bgp_rr, bgp_neighbor and the remote end of a session
use netlab.Prelude.{
  String, Bool, false, not, ◌&&◌, ◌||◌, Option, none, some, List, [], ◌∷◌, ◌==◌, is_some, keep,
  if◌then◌else◌,
}
use netlab.Prelude.Texts.{contains}
use netlab.Data.{Value, null, bool, str, dict, Fields, end, entry, get, has, put, truthy, value_eq}

pub record BgpNode : Type 0 where
  pub name : String
  pub bgp : Option Value
  pub loopback : Option Fields
  pub daemon : Bool
  pub role : Option Value
  pub interfaces : List Fields
  pub modules : List String
  pub vrfs : Fields

-- The session types that are enabled for an address family.
pub record Sessions : Type 0 where
  pub ipv4 : List String
  pub ipv6 : List String

-- topology.nodes[s]
abbrev pub node_at : String → List BgpNode → Option BgpNode
node_at s [] = none
node_at s (n ∷ nodes) = if n.name == s then some n else node_at s nodes

-- b.get('k.attr'), where b[k] is v
abbrev pub attr_of : Option Value → String → Option Value
attr_of (some (dict b)) attr = get b attr
attr_of _ attr = none

-- n.get('bgp.attr')
abbrev pub bgp_attr : BgpNode → String → Option Value
bgp_attr n attr = attr_of n.bgp attr

abbrev pub attr_set : Option Value → Bool
attr_set none = false
attr_set (some v) = truthy v

-- None where there is no value
abbrev pub or_null : Option Value → Value
or_null none = null
or_null (some v) = v

abbrev pub bgp_as : BgpNode → Value
bgp_as n = or_null (bgp_attr n "as")

abbrev pub is_rr : BgpNode → Bool
is_rr n = attr_set (bgp_attr n "rr")

unfoldable pub find_bgp_rr : Value → List BgpNode → List BgpNode
unfolding keep value_eq get
find_bgp_rr asn nodes = keep (λ n. (is_some n.bgp && value_eq (bgp_as n) asn) && is_rr n) nodes

-- { rr: him }, where the neighbor has the attribute
unfoldable pub get_neighbor_rr : BgpNode → Fields
unfolding get
get_neighbor_rr n = elim (bgp_attr n "rr") [ none ↦ end | some rr ↦ entry "rr" rr end ]

-- The first interface that passes the test.
unfoldable pub first_such : (Fields → Bool) → List Fields → Option Fields
first_such test [] = none
first_such test (i ∷ is) = if test i then some i else first_such test is

abbrev pub or_else {ℓ} : {A : Type ℓ} → Option A → Option A → Option A
or_else none b = b
or_else (some a) b = some a

abbrev pub or_empty : Option Fields → Fields
or_empty none = end
or_empty (some b) = b

abbrev has_role : Value → Fields → Bool
has_role role i = value_eq (or_null (get i "role")) role

-- role == 'host'
abbrev pub is_host : Option Value → Bool
is_host none = false
is_host (some v) = value_eq v (str "host")

-- get_remote_cp_endpoint of netsim/modules/_routing.py: the first internal interface, or the first
-- external one, or the first one in a VRF
unfoldable pub best_interface : Value → List Fields → Option Fields
unfolding first_such has get value_eq
best_interface ebgp_role interfaces =
    or_else (first_such (λ i. not (has i "vrf") && not (has_role ebgp_role i)) interfaces) (
      or_else (first_such (λ i. not (has i "vrf") && has_role ebgp_role i) interfaces)
        (first_such (λ i. has i "vrf") interfaces))

unfoldable pub get_remote_cp_endpoint : Value → BgpNode → Fields
unfolding best_interface value_eq
get_remote_cp_endpoint ebgp_role n =
    let best = or_empty (best_interface ebgp_role n.interfaces) in
    elim n.loopback [ none ↦ best | some l ↦ if not (is_host n.role) then l else best ]

unfoldable pub get_remote_ibgp_endpoint : Value → BgpNode → Fields
unfolding get_remote_cp_endpoint
get_remote_ibgp_endpoint ebgp_role n = elim n.loopback [
  | some l ↦ l
  | none ↦ if n.daemon then get_remote_cp_endpoint ebgp_role n else end
]

-- `intf_address` is get_intf_address of netsim/utils/routing.py, a call of Python's ipaddress.
module _ (intf_address : Value → Value) where
  abbrev pub address_value : Value → Value
  address_value (bool b) = bool b
  address_value v = intf_address v

  -- An address family that is enabled for the session type, and that the interface has, is used.
  abbrev pub with_af : String → List String → String → Option Value → Fields → Fields
  with_af af enabled ctype none ngb = ngb
  with_af af enabled ctype (some a) ngb =
      if contains ctype enabled then put ngb af (address_value a) else ngb

  abbrev pub af_used : List String → String → Option Value → Bool
  af_used enabled ctype a = contains ctype enabled && is_some a

  unfoldable pub bgp_neighbor : BgpNode → Fields → String → Sessions → Fields → Option Fields
  unfolding contains put get
  bgp_neighbor n intf ctype sessions extra_data =
      let ngb = put (put (put extra_data "name" (str n.name)) "as" (bgp_as n)) "type" (str ctype) in
      if af_used sessions.ipv4 ctype (get intf "ipv4")
        || af_used sessions.ipv6 ctype (get intf "ipv6")
      then some (
          with_af "ipv6" sessions.ipv6 ctype (get intf "ipv6")
            (with_af "ipv4" sessions.ipv4 ctype (get intf "ipv4") ngb))
      else none
