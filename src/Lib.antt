-- ===== src/Lib.antt =====
-- netlab turns a lab topology (a YAML file) into detailed per-node data: addressing, modules, groups,
-- identifiers. This library models the transformation code of netsim/, component by component.
--
-- Values. Data.Box has the values of a topology (null, Booleans, integers, texts, lists and Boxes,
-- that is, dictionaries with text keys in insertion order), with Python's equality and truth. Floating
-- point numbers, dotted keys (which the python-box library resolves) and the sharing of mutable
-- objects are not modelled: an operation returns the new value.
-- Errors. Log.antt: log.error (netsim/utils/log.py) adds a report with its category and goes on; a
-- fatal error or an exception that ends the program is `none`. Message texts are not modelled.
--
-- Data      netsim/data/__init__.py: Walks (removed_attributes, null_to_string, remove_null_values,
--           cleanup_internal_attributes, bool_to_defaults), Appending (get_a_list, append_to_list,
--           find_in_list, is_true_int), Keywords (kw_lookup, kw_list_transform), Merging
--           (merge_with_removed_attributes).
-- Ids       netsim/modules/_dataplane.py: the identifier sets and counters, kept in the state `Vars`
--           in place of the global Box; reserve_id of netsim/augment/nodes.py is a client. The
--           `while True` loop of get_next_id runs on the distance to the maximum plus one, since the
--           code leaves the loop when the counter passes the maximum.
-- Sort      netsim/utils/sort.py: dependency, on its own watchdog counter.
-- Types     netsim/data/types.py: Framework (the type_test decorator: the value of a key, its conversion
--           and its test), and the tests themselves in Scalars, Numbers, Addresses and Names. int(),
--           ipaddress, netaddr and the names that the topology has are arguments; a key has no dots,
--           and there are no floating-point numbers.
-- Addressing  netsim/augment/addressing.py: pools, generators of subnets and their caches. Networks
--           are numbers (a first address and a prefix length); parsing and printing of addresses is
--           not modelled. The cache `cache_<af>` of a pool stands beside the generator `<af>`.
-- Groups    netsim/augment/groups.py: members of groups, the check for recursive groups, the sorting
--           of groups, the expansion of member lists (Python's re and fnmatch are arguments), and
--           what groups copy to nodes. The recursion of group_members runs on 100 less
--           its count argument; that of check_recursive_chain on the number of groups, which is
--           enough since a chain has distinct groups; the `while` loop of reverse_topsort on the
--           number of groups, which is enough where the groups form no cycle (it does not end
--           otherwise).
-- Bgp       netsim/modules/bgp.py: Nodes (the data of a node, bgp_neighbor, find_bgp_rr), Ibgp
--           (build_ibgp_sessions), Ebgp and Peers (build_ebgp_sessions and what follows it), Clusters
--           (build_bgp_rr_clusters, check_confederation_data), Advertise (the flags of advertised
--           prefixes). The box addition of python-box, Python's ipaddress and the features of a device
--           are arguments.
-- Nodes     netsim/augment/nodes.py: check_duplicate_mgmt_addr.
-- Routing   netsim/utils/routing.py: the generators over BGP neighbors, routing protocol instances and
--           interfaces.
-- Modules   netsim/modules/__init__.py: Usage (the module lists of the topology and its nodes, what
--           they require, their order), Collect (adjust_global_modules), Attributes (inheritance; the device lookups of
--           netsim/augment/devices.py), References (the checks of reference lists and of modules on
--           links; netsim/modules/_dataplane.py), ReferenceLists (the same on the Boxes that hold the
--           lists, with the call of must_be_list). The features of a node are part of its record.
-- Evpn      netsim/modules/evpn.py: Transit (the transit VNIs of VRFs; the `while True` loop of
--           get_next_vni runs on the length of the list of used VNIs plus one, which is enough since
--           each round but the last meets another number of the list), NextVni (that loop), Services
--           (the AS number, IRB and the checks of VLANs and VRFs), NodeChecks (the EVPN lists and
--           route distinguishers of a node). Types.Dotted runs a type test on a key with a dot.
-- Vrf       netsim/modules/vrf.py: Search (the static identifiers, and get_next_vrf_id, whose
--           `while True` loop runs on the distance of the counter to its maximum plus two: the counter
--           goes up in each round but the first), Normal (normalize_vrf_ids), Assign (set_vrf_ids),
--           Targets (route targets and route leaking), Nodes (VRFs of interfaces, VRF indices). How a
--           route distinguisher is written is an argument; `obj is topology` is one as well.
-- Vxlan     netsim/modules/vxlan.py: Vni (register_static_vni, assign_vni), Vtep (node_set_vtep,
--           build_vtep_list), PostNode (validate_vxlan_list and the hook that numbers the VLANs),
--           Transform (the other hooks of the module). Parsing of addresses and format
--           strings is an argument; the flooding domain of a node is a text.
-- Prelude   lists, texts, distinct names, and the pigeonhole principle.
-- Examples  the theorems at small inputs, and runs of the definitions.
--
-- Not modelled: input and output, the providers, the device quirks, the templates and the command
-- line, since they are calls of other programs or text generation; the remaining configuration
-- modules.
pub mod Prelude
pub mod Log
pub mod Data
pub mod Ids
pub mod Sort
pub mod Types
pub mod Evpn
pub mod Vrf
pub mod Vxlan
pub mod Addressing
pub mod Bgp
pub mod Nodes
pub mod Routing
pub mod Modules
pub mod Groups
pub mod Examples
