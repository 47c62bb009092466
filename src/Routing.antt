-- ===== src/Routing.antt =====
-- netsim/utils/routing.py: walks over the BGP neighbors and the routing protocol interfaces of a node.
-- A generator is the list of what it yields.
mod Walks
pub use Walks.{RoutingNode, vrf_interfaces}
unfoldable pub use Walks.{neighbors, intf_neighbors, rp_data, igp_interfaces, boxes}
