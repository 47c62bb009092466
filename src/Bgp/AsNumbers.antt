-- ===== src/Bgp/AsNumbers.antt =====
-- With which AS numbers two nodes peer, and of what type the session is.
use netlab.Prelude.{String, ◌≡◌, true, false, Bool-cases, inl, inr}
use netlab.Data.{Value, Fields, get, value_eq, truthy, is_in}
use netlab.Bgp.Nodes.{attr_of, bgp_attr, or_null, BgpNode, bgp_as}
use netlab.Bgp.Ebgp.{
  or_value, peers_of, get_interface_as, neighbor_real_as, neighbor_local_as, session_type,
}

-- The `local_as` of an interface.
abbrev pub interface_local_as : Fields → Value
interface_local_as intf = or_null (attr_of (get intf "bgp") "local_as")

abbrev pub node_local_as : BgpNode → Value
node_local_as n = or_null (bgp_attr n "local_as")

abbrev pub confederation_as : BgpNode → Value
confederation_as n = or_null (attr_of (bgp_attr n "confederation") "as")

-- The AS number of a node on an interface, where `own` is the node's: the local AS number of the
-- interface, then that of the node, then its own.
pub data PeersAs (n : BgpNode) (intf : Fields) (own : Value) : Value → Type 0 where
  by_interface :
      truthy (interface_local_as intf) ≡ true → PeersAs n intf own (interface_local_as intf)
  by_node :
      truthy (interface_local_as intf) ≡ false
      → truthy (node_local_as n) ≡ true
      → PeersAs n intf own (node_local_as n)
  by_own :
      truthy (interface_local_as intf) ≡ false
      → truthy (node_local_as n) ≡ false
      → PeersAs n intf own own

-- The AS number that a neighbor shows to a node with the AS number `asn`: that of its confederation to a
-- node outside it, else its own.
pub data ShownAs (n : BgpNode) (asn : Value) : Value → Type 0 where
  from_outside :
      truthy (confederation_as n) ≡ true
      → value_eq (bgp_as n) asn ≡ false
      → is_in asn (peers_of n) ≡ false
      → ShownAs n asn (confederation_as n)
  no_confederation : truthy (confederation_as n) ≡ false → ShownAs n asn (bgp_as n)
  same_as : value_eq (bgp_as n) asn ≡ true → ShownAs n asn (bgp_as n)
  from_member : is_in asn (peers_of n) ≡ true → ShownAs n asn (bgp_as n)

-- The type of a session between two AS numbers.
pub data SessionKind (n : BgpNode) (own other : Value) : String → Type 0 where
  internal : value_eq other own ≡ true → SessionKind n own other "localas_ibgp"
  confederation :
      value_eq other own ≡ false
      → is_in other (peers_of n) ≡ true
      → SessionKind n own other "confed_ebgp"
  external :
      value_eq other own ≡ false → is_in other (peers_of n) ≡ false → SessionKind n own other "ebgp"

own_or-PeersAs :
    (n : BgpNode) (intf : Fields) (own : Value)
    → PeersAs n intf own (or_value (interface_local_as intf) (or_value (node_local_as n) own))
own_or-PeersAs n intf own = elim (Bool-cases (truthy (interface_local_as intf))) [
  | inl a ↦ rw a (by_interface a)
  | inr a ↦ elim (Bool-cases (truthy (node_local_as n))) [
    | inl b ↦ rw (a, b) (by_node a b)
    | inr b ↦ rw (a, b) (by_own a b)
  ]
]

pub get_interface_as-PeersAs :
    (n : BgpNode) (intf : Fields) → PeersAs n intf (bgp_as n) (get_interface_as n intf)
unfolding get_interface_as
get_interface_as-PeersAs n intf = own_or-PeersAs n intf (bgp_as n)

pub neighbor_local_as-PeersAs :
    (n : BgpNode) (intf : Fields) (own : Value) → PeersAs n intf own (neighbor_local_as n intf own)
unfolding neighbor_local_as
neighbor_local_as-PeersAs n intf own = own_or-PeersAs n intf own

pub neighbor_real_as-ShownAs : (n : BgpNode) (asn : Value) → ShownAs n asn (neighbor_real_as n asn)
unfolding neighbor_real_as
neighbor_real_as-ShownAs n asn = elim (Bool-cases (truthy (confederation_as n))) [
  | inr a ↦ rw a (no_confederation a)
  | inl a ↦ elim (Bool-cases (value_eq (bgp_as n) asn)) [
    | inl b ↦ rw (a, b) (same_as b)
    | inr b ↦ elim (Bool-cases (is_in asn (peers_of n))) [
      | inl c ↦ rw (a, b, c) (from_member c)
      | inr c ↦ rw (a, b, c) (from_outside a b c)
    ]
  ]
]

pub session_type-SessionKind :
    (n : BgpNode) (own other : Value) → SessionKind n own other (session_type n own other)
unfolding session_type
session_type-SessionKind n own other = elim (Bool-cases (value_eq other own)) [
  | inl a ↦ rw a (internal a)
  | inr a ↦ elim (Bool-cases (is_in other (peers_of n))) [
    | inl b ↦ rw (a, b) (confederation a b)
    | inr b ↦ rw (a, b) (external a b)
  ]
]
