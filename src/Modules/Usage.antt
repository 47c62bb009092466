-- ===== src/Modules/Usage.antt =====
-- The lists of modules of the topology and its nodes
use netlab.Prelude.{String, not, Option, none, some, List, [], ◌∷◌, ◌++◌, ◌==◌, keep, if◌then◌else◌}
use netlab.Prelude.Texts.{contains}
use netlab.Log.{report, incorrect_value, missing_value, Reports}
use netlab.Sort.{dependency}
use netlab.Data.{Value, str, dict, Fields, get, has, elems, truthy}
use netlab.Modules.Attributes.{inner_box, text_list, texts, get_provider, pop_each}

-- `settings` is the rest of the node's data; the features are those of get_device_features.
pub record ModNode : Type 0 where
  pub name : String
  pub modules : Option (List String)
  pub settings : Fields
  pub interfaces : List Fields
  pub features : Fields

pub record ModTopology : Type 0 where
  pub modules : Option (List String)
  pub extra_modules : List String
  pub defaults : Fields
  pub nodes : List ModNode

abbrev pub modules_of : Option (List String) → List String
modules_of none = []
modules_of (some ms) = ms

-- remove_module(node,module,extra)
unfoldable pub pop_on_each : List String → List Fields → List Fields
unfolding pop_each
pop_on_each attrs [] = []
pop_on_each attrs (i ∷ is) = pop_each attrs i ∷ pop_on_each attrs is

unfoldable pub remove_module : ModNode → String → List String → ModNode
unfolding pop_each pop_on_each keep
remove_module n m extra = record n {
  settings = pop_each (extra ++ (m ∷ [])) n.settings;
  interfaces = pop_on_each (extra ++ (m ∷ [])) n.interfaces;
  modules = some (keep (λ x. not (x == m)) (modules_of n.modules));
}

-- requires, and config_after or transform_after, of a module
unfoldable pub module_order : Fields → String → String → List String
unfolding get
module_order mod_params secondary_sort m =
    let params = inner_box (get mod_params m) in
    text_list (get params "requires") ++ text_list (get params secondary_sort)

-- `none` is the error of the sort about modules that wait for one another.
unfoldable pub sort_module_list : List String → Fields → String → Option (List String)
unfolding dependency module_order keep has
sort_module_list mods mod_params secondary_sort =
    dependency (module_order mod_params secondary_sort) (keep (λ m. has mod_params m) mods)

unfoldable pub sort_nodes : Fields → String → List ModNode → Option (List ModNode)
unfolding sort_module_list
sort_nodes defaults secondary_sort [] = some []
sort_nodes defaults secondary_sort (n ∷ ns) =
    let rest = sort_nodes defaults secondary_sort ns in
    elim n.modules [
      | none ↦ elim rest [ none ↦ none | some ns' ↦ some (n ∷ ns') ]
      | some ms ↦ elim (sort_module_list ms defaults secondary_sort) [
        | none ↦ none
        | some ms' ↦ elim rest [
          | none ↦ none
          | some ns' ↦ some (record n { modules = some ms' } ∷ ns')
        ]
      ]
    ]

abbrev sorted_global : List String → Fields → String → Option (Option (List String))
sorted_global [] defaults secondary_sort = some none
sorted_global (m ∷ ms) defaults secondary_sort =
    elim (sort_module_list (m ∷ ms) defaults secondary_sort) [
      | none ↦ none
      | some l ↦ some (some l)
    ]

unfoldable pub reorder_node_modules : ModTopology → String → Option ModTopology
unfolding sort_nodes sort_module_list keep contains
reorder_node_modules t secondary_sort =
    let mod_list =
      modules_of t.modules ++ keep (λ m. not (contains m (modules_of t.modules))) t.extra_modules in
    elim (sorted_global mod_list t.defaults secondary_sort) [
      | none ↦ none
      | some l ↦ elim (sort_nodes t.defaults secondary_sort t.nodes) [
        | none ↦ none
        | some ns ↦ some (record t { modules = l; nodes = ns })
      ]
    ]

-- One error for each required module that is not in the list.
unfoldable pub missing_modules : List String → List String → List String
unfolding keep contains
missing_modules requires mods = keep (λ r. not (contains r mods)) requires

unfoldable pub errors_for : Reports → List String → Reports
errors_for one [] = []
errors_for one (r ∷ rs) = one ++ errors_for one rs

abbrev pub device_requires : Fields → String → List String
device_requires features m = text_list (get (inner_box (get features m)) "requires")

-- A node that uses the module needs what it requires, and what it requires on the node's device.
unfoldable pub node_errors : String → List String → ModNode → Reports
unfolding missing_modules errors_for get contains
node_errors m requires n =
    if contains m (modules_of n.modules)
    then errors_for (report incorrect_value "modules" ∷ [])
        (missing_modules (requires ++ device_requires n.features m) (modules_of n.modules))
    else []

unfoldable pub check_nodes : String → List String → List ModNode → Reports
unfolding node_errors
check_nodes m requires [] = []
check_nodes m requires (n ∷ ns) = node_errors m requires n ++ check_nodes m requires ns

-- mod_def and mod_def.requires
abbrev pub definition_of : ModTopology → String → Fields
definition_of t m = inner_box (get t.defaults m)

abbrev pub requires_of : ModTopology → String → List String
requires_of t m = text_list (get (definition_of t m) "requires")

unfoldable pub module_errors : ModTopology → String → Reports
unfolding check_nodes missing_modules errors_for get truthy texts elems
module_errors t m =
    if truthy (dict (definition_of t m))
    then errors_for (report missing_value "modules" ∷ [])
        (missing_modules (requires_of t m) (modules_of t.modules))
      ++ check_nodes m (requires_of t m) t.nodes
    else []

unfoldable pub check_each_module : ModTopology → List String → Reports
unfolding module_errors
check_each_module t [] = []
check_each_module t (m ∷ ms) = module_errors t m ++ check_each_module t ms

unfoldable pub check_module_dependencies : ModTopology → Reports
unfolding check_each_module
check_module_dependencies t = check_each_module t (modules_of t.modules)

-- check_supported_node_devices, on one module of a node
abbrev provider_support : Option Value → String → Reports
provider_support (some (dict support)) provider = elim (get support provider) [
  | none ↦ report incorrect_value "modules" ∷ []
  | some v ↦ if truthy v then [] else report incorrect_value "modules" ∷ []
]
provider_support (some v) provider = []
provider_support none provider = report incorrect_value "modules" ∷ []

abbrev device_name : Option Value → String
device_name (some (str s)) = s
device_name _ = ""

unfoldable pub unsupported : Fields → ModNode → String → Reports
unfolding get has truthy get_provider
unsupported defaults n m =
    let supported_on = inner_box (get (inner_box (get defaults m)) "supported_on") in
    if not (has defaults m)
    then report incorrect_value "modules" ∷ []
    else provider_support (get supported_on (device_name (get n.settings "device")))
        (get_provider n.settings defaults)

unfoldable pub unsupported_modules : Fields → ModNode → List String → Reports
unfolding unsupported
unsupported_modules defaults n [] = []
unsupported_modules defaults n (m ∷ ms) =
    unsupported defaults n m ++ unsupported_modules defaults n ms

unfoldable pub check_supported_node_devices : Fields → List ModNode → Reports
unfolding unsupported_modules
check_supported_node_devices defaults [] = []
check_supported_node_devices defaults (n ∷ ns) =
    unsupported_modules defaults n (modules_of n.modules)
    ++ check_supported_node_devices defaults ns
