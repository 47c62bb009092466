-- ===== src/Bgp/Advertise.antt =====
-- bgp_set_originate_af and bgp_set_advertise
use netlab.Prelude.{
  String, Bool, true, false, not, ◌&&◌, ◌||◌, Option, none, some, List, [], ◌∷◌, ◌==◌, is_some, any,
  if◌then◌else◌,
}
use netlab.Data.{Value, bool, str, dict, Fields, get, has, put, value_eq, truthy, is_in, elems}
use netlab.Prelude.Texts.{contains}
use netlab.Bgp.Nodes.{BgpNode, node_at, bgp_attr, attr_set, or_null}
use netlab.Bgp.Ebgp.{elements, is_false}
use netlab.Bgp.Peers.{box_of, node_named, set_bgp}

abbrev has_af : String → Value → Bool
has_af af (dict pfx) = has pfx af
has_af af v = false

abbrev pub originate_af : String → BgpNode → BgpNode
originate_af af n =
    if attr_set (bgp_attr n af)
    then n
    else if any (has_af af) (elements (bgp_attr n "advertise"))
    then set_bgp n af (bool true)
    else n

unfoldable pub bgp_set_originate_af : BgpNode → BgpNode
unfolding get put any has elems truthy
bgp_set_originate_af n =
    if not (is_some n.bgp) then n else originate_af "ipv6" (originate_af "ipv4" n)

-- l.bgp.advertise = v
abbrev pub advertise : Fields → Bool → Fields
advertise l v = put l "bgp" (dict (put (box_of (get l "bgp")) "advertise" (bool v)))

-- Interfaces with bgp: False, and those with the flag, are left.
abbrev pub left_alone : Fields → Bool
left_alone l = is_false (get l "bgp") || has (box_of (get l "bgp")) "advertise"

abbrev host_role : Option Value → Bool
host_role none = false
host_role (some v) = value_eq v (str "host")

-- A host that runs no routing daemon, or, for an IGP, a node without it; a name that is no node has
-- ended the program with an exception before.
abbrev pub passive_neighbor : String → Option BgpNode → Bool
passive_neighbor proto none = true
passive_neighbor proto (some n) =
    if proto == "" then not n.daemon && host_role n.role else not (contains proto n.modules)

-- is_true_stub of netsim/modules/_routing.py
unfoldable pub is_true_stub : String → List BgpNode → List Value → Bool
unfolding get contains value_eq
is_true_stub proto nodes [] = true
is_true_stub proto nodes (v ∷ vs) =
    passive_neighbor proto (node_at (node_named (get (box_of (some v)) "node")) nodes)
    && is_true_stub proto nodes vs

-- A missing type or role is null.
module _ (nodes : List BgpNode) (stub_roles : List Value) where
  unfoldable pub advertised : Bool → Fields → Fields
  unfolding get has put is_in value_eq is_true_stub elems
  advertised advertise_loopback l =
      let role = or_null (get l "role") in
      let kind = or_null (get l "type") in
      if left_alone l
      then l
      else if is_in kind stub_roles || is_in role stub_roles
      then advertise l (
          if not (value_eq role (str "stub"))
          then true
          else is_true_stub "" nodes (elements (get l "neighbors")))
      else if value_eq kind (str "loopback") && advertise_loopback
      then advertise l true
      else l

  unfoldable pub advertised_each : Bool → List Fields → List Fields
  unfolding advertised
  advertised_each advertise_loopback [] = []
  advertised_each advertise_loopback (l ∷ ls) =
      advertised advertise_loopback l ∷ advertised_each advertise_loopback ls

  abbrev advertised_loopback : Bool → Option Fields → Option Fields
  advertised_loopback advertise_loopback none = none
  advertised_loopback advertise_loopback (some l) = some (advertised advertise_loopback l)

  unfoldable pub bgp_set_advertise : BgpNode → BgpNode
  unfolding advertised_each get truthy
  bgp_set_advertise n =
      let advertise_loopback = attr_set (bgp_attr n "advertise_loopback") in
      record n {
        interfaces = advertised_each advertise_loopback n.interfaces;
        loopback = advertised_loopback advertise_loopback n.loopback;
      }
