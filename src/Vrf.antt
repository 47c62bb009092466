-- ===== src/Vrf.antt =====
-- netsim/modules/vrf.py: identifiers, route distinguishers and route targets of VRFs.
pub mod Search
pub mod SearchLaws
pub mod Normal
pub mod Assign
pub mod Targets
pub mod Nodes
