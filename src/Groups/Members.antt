-- ===== src/Groups/Members.antt =====
-- special_node_group_members and group_members
use netlab.Prelude.{
  ℕ, zero, suc, String, Bool, true, false, not, Option, none, some, List, [], ◌∷◌, ◌++◌, ◌==◌,
  if◌then◌else◌,
}
use netlab.Prelude.Texts.{contains}
use netlab.Log.{incorrect_value, report, Reports}
use netlab.Groups.Defs.{Group, Node, Topology, find, has_key, names, namespace}

abbrev pub list_or_empty : Option (List String) → List String
list_or_empty none = []
list_or_empty (some xs) = xs

abbrev pub device_is : String → Option String → Bool
device_is d none = false
device_is d (some e) = e == d

unfoldable pub nodes_of_device : String → List (String × Node) → List String
nodes_of_device d [] = []
nodes_of_device d ((name, n) ∷ nodes) =
    let rest = nodes_of_device d nodes in if device_is d n.device then name ∷ rest else rest

unfoldable pub special_node_group_members : String → Topology → Option (List String)
unfolding nodes_of_device contains
special_node_group_members group t =
    if group == "all"
    then some (names t.nodes)
    else if contains group t.devices
    then some (nodes_of_device group t.nodes)
    else none

abbrev pub when_in : Bool → String → List String
when_in true m = m ∷ []
when_in false m = []

abbrev pub joined : List String → Option (List String) → Option (List String) → Option (List String)
joined own (some below) (some rest) = some (own ++ (below ++ rest))
joined own _ _ = none

-- The `for` loop over the members; `below` is the recursive call.
unfoldable pub gather :
    Topology → String → (String → Option (List String)) → List String → Option (List String)
unfolding contains
gather t grp_type below [] = some []
gather t grp_type below (m ∷ ms) =
    let rest = gather t grp_type below ms in
    joined (when_in (contains m (namespace t grp_type)) m)
      (if has_key m t.groups then below m else some []) rest

-- The members that a group named 'all' or after a device has without listing them.
abbrev pub special_of : Topology → Group → String → Option (List String)
special_of t g group = if g.kind == "node" then special_node_group_members group t else none

abbrev pub special_or : Option (List String) → Option (List String) → Option (List String)
special_or (some xs) ys = some xs
special_or none ys = ys

abbrev pub members_of_group :
    Topology
    → String
    → String
    → (String → Option (List String))
    → Option Group
    → Option (List String)
members_of_group t group grp_type below none = some []
members_of_group t group grp_type below (some g) =
    if not (g.kind == grp_type)
    then some []
    else special_or (special_of t g group) (gather t grp_type below (list_or_empty g.members))

-- The call with `fuel` levels left (fuel is 100 - count); `none` is the fatal error of a call that
-- starts with count above 99.
unfoldable pub members_from : ℕ → Topology → String → String → Option (List String)
unfolding gather special_node_group_members
members_from zero t grp_type group = if has_key group t.groups then none else some []
members_from (suc fuel) t grp_type group =
    members_of_group t group grp_type (members_from fuel t grp_type) (find group t.groups)

-- The first call has count 0; an unknown group is an internal error.
unfoldable pub group_members : Topology → String → String → Option (List String) × Reports
unfolding members_from
group_members t group grp_type = (
  members_from 100 t grp_type group,
  (if has_key group t.groups then [] else report incorrect_value "groups" ∷ []),
)
