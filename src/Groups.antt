-- ===== src/Groups.antt =====
-- netsim/augment/groups.py: node, VLAN and VRF groups. The state is the part of the topology that
-- the group code reads and writes, after the data validation has fixed the types.
mod Defs
pub mod Members
pub mod Cycles
pub mod Topsort
mod Gathering
pub mod Reachability
pub mod CycleFree
pub mod ChildrenFirst
pub mod Expansion
pub mod Creation
pub mod Copying
pub mod Templates
pub mod ExpansionLaws
pub mod CopyLaws
pub use Defs.{Group, Node, Topology, is_setting, find, has_key, names, put_entry, namespace}
