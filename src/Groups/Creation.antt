-- ===== src/Groups/Creation.antt =====
-- auto_create_members, add_node_to_group, add_node_level_groups and cleanup
use netlab.Prelude.{
  String, Bool, false, not, ◌&&◌, ◌||◌, Option, none, some, List, [], ◌∷◌, ◌++◌, ◌==◌,
  if◌then◌else◌,
}
use netlab.Prelude.Texts.{contains}
use netlab.Log.{incorrect_type, report, Reports}
use netlab.Groups.Defs.{Group, Node, Topology, find, has_key, put_entry, namespace, is_setting}

abbrev new_node : Node
new_node = record { device = none; modules = none; config = none; groups = none }

-- The new object goes to topology[obj_ns].
abbrev pub create_object : String → String → Topology → Topology
create_object kind n t =
    if kind == "node"
    then record t { nodes = t.nodes ++ ((n, new_node) ∷ []) }
    else if kind == "vlan"
    then record t { vlans = t.vlans ++ (n ∷ []) }
    else if kind == "vrf"
    then record t { vrfs = t.vrfs ++ (n ∷ []) }
    else t

unfoldable pub create_each : String → List String → Topology → Topology
unfolding contains
create_each kind [] t = t
create_each kind (n ∷ ns) t = create_each kind ns (
    if has_key n t.groups || contains n t.default_groups
    then t
    else if contains n (namespace t kind)
    then t
    else create_object kind n t)

abbrev created : Group → Bool → Topology → Topology
created g default_create t = elim g.members [
  | none ↦ t
  | some ms ↦ if not g.auto_create && not default_create then t else create_each g.kind ms t
]

-- The groups are those of the topology or of the defaults.
unfoldable pub auto_create_members : List (String × Group) → Bool → Topology → Topology
unfolding create_each
auto_create_members [] default_create t = t
auto_create_members ((gname, gdata) ∷ groups) default_create t =
    auto_create_members groups default_create
      (if is_setting gname then t else created gdata default_create t)

abbrev empty_group : Group
empty_group = record {
  kind = "node";
  members = none;
  device = none;
  modules = none;
  config = none;
  auto_create = false;
  default_group = false;
}

-- topology.groups[group], which the Box creates if it is missing
abbrev pub group_or_new : Option Group → Group
group_or_new none = empty_group
group_or_new (some g) = g

abbrev pub with_name : String → Option (List String) → List String
with_name n none = n ∷ []
with_name n (some ms) = if contains n ms then ms else ms ++ (n ∷ [])

-- The member is added to a group of another type too, after the error.
unfoldable pub add_node_to_group : String → String → Topology → Topology × Reports
unfolding contains
add_node_to_group node group t =
    let g = group_or_new (find group t.groups) in
    (
      record t {
        groups = put_entry group (record g { members = some (with_name node g.members) }) t.groups;
      },
      (if g.kind == "node" then [] else report incorrect_type "groups" ∷ []),
    )

unfoldable pub add_to_each : String → List String → Topology → Topology × Reports
unfolding add_node_to_group
add_to_each node [] t = (t, [])
add_to_each node (g ∷ gs) t =
    let (t', errors) = add_node_to_group node g t in
    let (t'', more) = add_to_each node gs t' in (t'', errors ++ more)

abbrev pub joined_groups : String → Option (List String) → Topology → Topology × Reports
joined_groups name none t = (t, [])
joined_groups name (some gs) t = add_to_each name gs t

unfoldable pub add_nodes_to_groups : List (String × Node) → Topology → Topology × Reports
unfolding add_to_each
add_nodes_to_groups [] t = (t, [])
add_nodes_to_groups ((name, n) ∷ nodes) t =
    let (t', errors) = joined_groups name n.groups t in
    let (t'', more) = add_nodes_to_groups nodes t' in (t'', errors ++ more)

unfoldable pub add_node_level_groups : Topology → Topology × Reports
unfolding add_nodes_to_groups
add_node_level_groups t = add_nodes_to_groups t.nodes t

-- cleanup: the settings are removed from the groups
unfoldable pub drop_settings : List (String × Group) → List (String × Group)
drop_settings [] = []
drop_settings ((g, d) ∷ groups) =
    let rest = drop_settings groups in if is_setting g then rest else (g, d) ∷ rest
