-- ===== src/Bgp/Ebgp.antt =====
-- build_ebgp_sessions. A dotted key such as 'bgp.local_as' under a value that is no Box has the default
-- value, as python-box has it; the `except` branch around the neighbor's local AS is then not taken.
use netlab.Prelude.{
  String, Bool, true, false, not, ◌&&◌, ◌||◌, Option, none, some, List, [], ◌∷◌, ◌==◌,
  if◌then◌else◌,
}
use netlab.Log.{report, incorrect_value, Reports}
use netlab.Data.{
  Value, null, bool, str, dict, list, Fields, end, entry, get, has, put, pop, truthy, value_eq,
  is_in, elems,
}
use netlab.Bgp.Nodes.{BgpNode, Sessions, attr_of, bgp_attr, bgp_as, or_null, bgp_neighbor}

-- The device features that EBGP sessions need.
pub record BgpFeatures : Type 0 where
  pub local_as : Bool
  pub vrf_local_as : Bool
  pub ipv6_lla : Bool
  pub rfc8950 : Bool
  pub local_as_ibgp : Bool

-- a or b
abbrev pub or_value : Value → Value → Value
or_value a b = if truthy a then a else b

unfoldable pub get_interface_as : BgpNode → Fields → Value
unfolding get truthy
get_interface_as node intf =
    or_value (or_null (attr_of (get intf "bgp") "local_as"))
      (or_value (or_null (bgp_attr node "local_as")) (bgp_as node))

abbrev pub is_true : Option Value → Bool
is_true (some (bool true)) = true
is_true _ = false

abbrev is_text : Option Value → Bool
is_text (some (str s)) = true
is_text _ = false

abbrev pub is_false : Option Value → Bool
is_false (some (bool false)) = true
is_false _ = false

abbrev pub has_address : Fields → Bool
has_address intf = has intf "ipv4" || has intf "ipv6"

abbrev pub elements : Option Value → List Value
elements (some (list xs)) = elems xs
elements _ = []

abbrev pub peers_of : BgpNode → List Value
peers_of n = elements (attr_of (bgp_attr n "confederation") "peers")

-- Towards peers outside the confederation, a neighbor has the AS of the confederation.
unfoldable pub neighbor_real_as : BgpNode → Value → Value
unfolding get truthy value_eq is_in elems
neighbor_real_as neighbor node_local_as =
    let real_as = bgp_as neighbor in
    let confed = or_null (attr_of (bgp_attr neighbor "confederation") "as") in
    if truthy confed
      && not (value_eq real_as node_local_as)
      && not (is_in node_local_as (peers_of neighbor))
    then confed
    else real_as

unfoldable pub neighbor_local_as : BgpNode → Fields → Value → Value
unfolding get truthy
neighbor_local_as neighbor ngb_ifdata real_as =
    or_value (or_null (attr_of (get ngb_ifdata "bgp") "local_as"))
      (or_value (or_null (bgp_attr neighbor "local_as")) real_as)

-- How the two interfaces are addressed.
abbrev pub both_lla : Fields → Fields → Bool
both_lla l ngb = is_true (get l "ipv6") && is_true (get ngb "ipv6")

abbrev pub ipv6_num : Fields → Fields → Bool
ipv6_num l ngb = is_text (get l "ipv6") && is_text (get ngb "ipv6")

abbrev pub ipv4_unnum : Fields → Fields → Bool
ipv4_unnum l ngb = is_true (get l "ipv4") && is_true (get ngb "ipv4")

-- Unnumbered IPv4 without numbered IPv6 runs over an IPv6 link-local session.
abbrev pub lla_session : Fields → Fields → Bool
lla_session l ngb = (ipv4_unnum l ngb && not (ipv6_num l ngb)) || both_lla l ngb

abbrev pub with_ipv6 : Fields → Fields → Fields
with_ipv6 l ngb =
    if (ipv4_unnum l ngb && not (ipv6_num l ngb)) && not (has l "ipv6")
    then put l "ipv6" (bool true)
    else l

-- The local settings replace the neighbor's.
abbrev set_known : String → Value → Fields → Fields
set_known k null b = b
set_known k v b = put b k v

unfoldable pub local_setting : BgpNode → Fields → String → Fields → Fields
unfolding get put pop truthy
local_setting node l k extra =
    set_known k (or_value (or_null (attr_of (get l "bgp") k)) (or_null (bgp_attr node k)))
      (pop extra k)

unfoldable pub session_type : BgpNode → Value → Value → String
unfolding value_eq is_in elems get
session_type node node_as ngb_as =
    if value_eq ngb_as node_as
    then "localas_ibgp"
    else if is_in ngb_as (peers_of node)
    then "confed_ebgp"
    else "ebgp"

-- The next-hop settings that follow from the type of the session.
unfoldable pub session_settings : String → Value → Fields → Fields
unfolding put
session_settings kind ngb_as ngb =
    let ngb' = put ngb "as" ngb_as in
    if kind == "localas_ibgp"
    then put (put ngb' "rr_client" (bool true)) "next_hop_self" (str "all")
    else if kind == "confed_ebgp"
    then put ngb' "next_hop_self" (str "all")
    else ngb'

-- One neighbor on an interface: the interface after it, the errors, and the session, if any.
pub record Peering : Type 0 where
  pub intf : Fields
  pub errors : Reports
  pub session : Option Fields

abbrev pub no_session : Fields → Peering
no_session l = record { intf = l; errors = []; session = none }

abbrev pub refused : Fields → Peering
refused l = record { intf = l; errors = report incorrect_value "bgp" ∷ []; session = none }

abbrev pub established : Fields → String → Value → Option Fields → Peering
established l kind ngb_as none = no_session l
established l kind ngb_as (some ngb) = record {
  intf = l;
  errors = [];
  session = some (session_settings kind ngb_as ngb);
}

-- `merge` is the `+` of python-box, and `intf_address` is get_intf_address.
module _ (merge : Fields → Fields → Fields) (intf_address : Value → Value) where
  abbrev with_bgp : Option Value → Fields → Fields
  with_bgp (some (dict b)) extra = merge b extra
  with_bgp _ extra = extra

  abbrev with_vrf : Option Value → Fields → Fields
  with_vrf (some (str v)) extra = put extra "_vrf" (str v)
  with_vrf _ extra = extra

  abbrev with_lla : Fields → Fields → Fields → Fields
  with_lla l ngb extra =
      let local = put extra "local_if" (or_null (get l "ifname")) in
      if lla_session l ngb
      then (if ipv4_unnum l ngb then put local "ipv4_rfc8950" (bool true) else local)
      else extra

  abbrev with_rfc8950 : Fields → Fields → Fields → Fields
  with_rfc8950 l ngb extra =
      if ipv4_unnum l ngb && ipv6_num l ngb then put extra "ipv4_rfc8950" (bool true) else extra

  unfoldable pub extra_data : BgpNode → Fields → Fields → Fields
  unfolding get put local_setting
  extra_data node l ngb = local_setting node l "replace_global_as" (
      local_setting node l "local_as" (
        with_rfc8950 l ngb (
          with_lla l ngb (
            with_vrf (get ngb "vrf")
              (with_bgp (get ngb "bgp") (entry "ifindex" (or_null (get l "ifindex")) end))))))

  -- The checks of addressing and of the device, and the session.
  unfoldable pub checked_session :
      BgpFeatures → BgpNode → Sessions → Fields → BgpNode → Fields → Value → Value → Peering
  unfolding has get put session_settings session_type extra_data bgp_neighbor
  checked_session features node sessions l neighbor ngb node_as ngb_as =
      let kind = session_type node node_as ngb_as in
      let l' = with_ipv6 l ngb in
      if is_true (get l "ipv4") && not (ipv4_unnum l ngb)
      then refused l
      else if is_true (get l "ipv6") && not (both_lla l ngb)
      then refused l
      else if lla_session l ngb && not features.ipv6_lla
      then refused l'
      else if (ipv4_unnum l ngb && ipv6_num l ngb) && not features.rfc8950
      then refused l'
      else if kind == "localas_ibgp" && not features.local_as_ibgp
      then refused l'
      else established l' kind ngb_as
          (bgp_neighbor intf_address neighbor ngb kind sessions (extra_data node l ngb))

  unfoldable pub ebgp_session :
      BgpFeatures → BgpNode → Sessions → Fields → BgpNode → Fields → Peering
  unfolding has get_interface_as neighbor_real_as neighbor_local_as truthy value_eq checked_session
  ebgp_session features node sessions l neighbor ngb =
      let node_as = get_interface_as node l in
      let real_as = neighbor_real_as neighbor node_as in
      let ngb_as = neighbor_local_as neighbor ngb real_as in
      if not (has_address ngb)
      then no_session l
      else if not (truthy ngb_as)
      then no_session l
      else if value_eq (bgp_as node) real_as && value_eq node_as ngb_as
      then no_session l
      else checked_session features node sessions l neighbor ngb node_as ngb_as
