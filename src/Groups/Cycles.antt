-- ===== src/Groups/Cycles.antt =====
-- check_recursive_chain and check_recursive_groups
use netlab.Prelude.{
  ℕ, zero, suc, String, Option, none, some, List, [], ◌∷◌, ◌++◌, length, if◌then◌else◌,
}
use netlab.Prelude.Texts.{contains}
use netlab.Log.{incorrect_value, report, Reports}
use netlab.Groups.Defs.{Group, Topology, find, has_key, names, is_setting}
use netlab.Groups.Members.{list_or_empty}

abbrev pub members_in : Option Group → List String
members_in none = []
members_in (some g) = list_or_empty g.members

-- topology.groups[group].members; an unknown group, which only a fatal internal error meets, has none
unfoldable pub children : Topology → String → List String
children t group = members_in (find group t.groups)

-- What a call returns: no chain, or the chain that it reports. The outer `none` is a fuel that is
-- too small, which the depth of the recursion never reaches (see Groups/CycleFree).
abbrev pub Found : Type 0
Found = Option (Option (List String))

-- after the recursive call for a member
abbrev pub after_call : List String → Found → Found → Found
after_call chain none rest = none
after_call chain (some none) rest = rest
after_call chain (some (some _)) rest = some (some chain)

-- The `for` loop; the chain ends with the group itself.
unfoldable pub scan : Topology → (List String → String → Found) → List String → List String → Found
unfolding contains
scan t call chain [] = some none
scan t call chain (m ∷ ms) =
    let rest = scan t call chain ms in
    if contains m chain
    then some (some (chain ++ (m ∷ [])))
    else if has_key m t.groups
    then after_call chain (call chain m) rest
    else rest

unfoldable pub check_recursive_chain : ℕ → Topology → List String → String → Found
unfolding scan children
check_recursive_chain zero t chain group = none
check_recursive_chain (suc fuel) t chain group =
    scan t (check_recursive_chain fuel t) (chain ++ (group ∷ [])) (children t group)

abbrev pub first_found : Found → Option Reports → Option Reports
first_found none rest = none
first_found (some none) rest = rest
first_found (some (some chain)) rest = some (report incorrect_value "groups" ∷ [])

-- The first recursive chain ends the loop.
unfoldable pub check_groups : Topology → List String → Option Reports
unfolding check_recursive_chain
check_groups t [] = some []
check_groups t (gname ∷ rest) =
    let later = check_groups t rest in
    if is_setting gname
    then later
    else first_found (check_recursive_chain (length (names t.groups)) t [] gname) later

unfoldable pub check_recursive_groups : Topology → Option Reports
unfolding check_groups
check_recursive_groups t = check_groups t (names t.groups)
