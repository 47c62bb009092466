-- ===== src/Vxlan.antt =====
-- netsim/modules/vxlan.py: the identifiers of VXLAN segments, and the addresses of tunnel endpoints.
pub mod Vni
pub mod Vtep
pub mod VtepLaws
pub mod VniLaws
pub mod NoClash
mod VniTests
pub mod Transform
pub mod PostNode
