-- ===== src/Bgp.antt =====
-- netsim/modules/bgp.py: BGP sessions. A node keeps the parts of its data that this code reads;
-- interfaces and neighbor data are Boxes.
mod Nodes
pub mod Ibgp
pub mod Symmetry
pub mod Ebgp
pub mod Peers
pub mod AsNumbers
pub mod SessionLaws
pub mod IbgpLaws
pub mod Clusters
pub mod Advertise
pub use Nodes.{BgpNode, node_at, Sessions, bgp_attr, bgp_as, attr_set, attr_of}
