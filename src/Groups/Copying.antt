-- ===== src/Groups/Copying.antt =====
-- copy_group_device_module: devices and modules of groups are copy_to_members to their nodes.
use netlab.Prelude.{
  String, Bool, true, false, not, ◌&&◌, Option, none, some, List, [], ◌∷◌, ◌++◌, ◌==◌,
  if◌then◌else◌,
}
use netlab.Prelude.Texts.{contains}
use netlab.Log.{incorrect_value, report, Reports}
use netlab.Groups.Defs.{Group, Node, Topology, find}
use netlab.Groups.Members.{group_members}
use netlab.Groups.Topsort.{reverse_topsort}

-- f on the data of the node with the name
unfoldable pub update_node : (Node → Node) → String → List (String × Node) → List (String × Node)
update_node f name [] = []
update_node f name ((j, n) ∷ nodes) =
    if j == name then (j, f n) ∷ nodes else (j, n) ∷ update_node f name nodes

-- f on each node of the list; a name that is no node is passed over
unfoldable pub update_nodes :
    (Node → Node) → List String → List (String × Node) → List (String × Node)
unfolding update_node
update_nodes f [] nodes = nodes
update_nodes f (m ∷ ms) nodes = update_nodes f ms (update_node f m nodes)

-- A device that is set stays.
unfoldable pub set_device : String → Node → Node
set_device d n = record n { device = (elim n.device [ none ↦ some d | some e ↦ some e ]) }

unfoldable pub append_names : List String → List String → List String
unfolding contains
append_names xs [] = xs
append_names xs (y ∷ ys) = append_names (if contains y xs then xs else xs ++ (y ∷ [])) ys

abbrev modules_or_empty : Option (List String) → List String
modules_or_empty none = []
modules_or_empty (some ms) = ms

unfoldable pub add_modules : List String → Node → Node
unfolding append_names
add_modules ms n = record n { modules = some (append_names (modules_or_empty n.modules) ms) }

abbrev pub no_members : List String → Bool
no_members [] = true
no_members (m ∷ ms) = false

-- One group of a loop: the update goes to its members; a group with none is an error, unless it is
-- a default group. `none` is the fatal error of group_members.
abbrev pub copy_to_members :
    Bool → (Node → Node) → Option (List String) → Topology → Option (Topology × Reports)
copy_to_members default_group f none t = none
copy_to_members default_group f (some ms) t =
    if no_members ms && not default_group
    then some (t, report incorrect_value "groups" ∷ [])
    else some (record t { nodes = update_nodes f ms t.nodes }, [])

abbrev pub copy_device : String → Topology → Option Group → Option (Topology × Reports)
copy_device grp t none = some (t, [])
copy_device grp t (some g) = elim g.device [
  | none ↦ some (t, [])
  | some d ↦ copy_to_members g.default_group (set_device d) (group_members t grp "node").0 t
]

abbrev pub copy_modules : String → Topology → Option Group → Option (Topology × Reports)
copy_modules grp t none = some (t, [])
copy_modules grp t (some g) = elim g.modules [
  | none ↦ some (t, [])
  | some ms ↦ copy_to_members g.default_group (add_modules ms) (group_members t grp "node").0 t
]

abbrev pub with_reports : Reports → Option (Topology × Reports) → Option (Topology × Reports)
with_reports errors none = none
with_reports errors (some (t, more)) = some (t, errors ++ more)

-- A loop over the sorted groups.
unfoldable pub for_groups :
    (String → Topology → Option Group → Option (Topology × Reports))
    → List String
    → Topology
    → Option (Topology × Reports)
for_groups step [] t = some (t, [])
for_groups step (g ∷ gs) t = elim (step g t (find g t.groups)) [
  | none ↦ none
  | some (t', errors) ↦ with_reports errors (for_groups step gs t')
]

abbrev pub then_modules : List String → Option (Topology × Reports) → Option (Topology × Reports)
then_modules gs none = none
then_modules gs (some (t, errors)) = with_reports errors (for_groups copy_modules gs t)

unfoldable pub copy_group_device_module : Topology → Option (Topology × Reports)
unfolding for_groups update_nodes set_device add_modules group_members reverse_topsort
copy_group_device_module t = elim (reverse_topsort t) [
  | none ↦ none
  | some sorted_groups ↦ then_modules sorted_groups (for_groups copy_device sorted_groups t)
]
