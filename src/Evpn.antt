-- ===== src/Evpn.antt =====
-- netsim/modules/evpn.py: transit VNIs of VRFs, EVPN instances, and the checks of nodes.
pub mod Transit
pub mod NextVni
pub mod Services
pub mod NodeChecks
