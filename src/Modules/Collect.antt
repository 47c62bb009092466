-- ===== src/Modules/Collect.antt =====
-- netsim/modules/__init__.py: list_of_modules and adjust_global_modules
use netlab.Prelude.{
  Bool, true, false, map, String, Option, none, some, List, [], ◌∷◌, ◌++◌, if◌then◌else◌,
}
use netlab.Prelude.Texts.{contains, sorted}
use netlab.Log.{Reports}
use netlab.Data.{
  Value, null, str, list, dict, Fields, end, entry, get, has, put, pop, keys, elems, items,
}
use netlab.Types.Framework.{Request, Outcome, done, raised, execute_test}
use netlab.Types.Scalars.{ListOptions, must_be_list}
use netlab.Modules.Attributes.{inner_box, texts}
use netlab.Modules.Usage.{ModNode, modules_of}

-- sorted(set(mods))
unfoldable pub once_each : List String → List String
unfolding contains
once_each [] = []
once_each (m ∷ ms) = let rest = once_each ms in if contains m rest then rest else m ∷ rest

unfoldable pub node_modules : List ModNode → List String
node_modules [] = []
node_modules (n ∷ ns) = modules_of n.modules ++ node_modules ns

-- list_of_modules: the dictionaries of the defaults that say which devices they are supported on. The
-- list is made once; the defaults do not change in between.
abbrev is_module : Value → Bool
is_module (dict b) = has b "supported_on"
is_module v = false

unfoldable pub list_of_modules : Fields → List String
unfolding has
list_of_modules end = []
list_of_modules (entry m v defaults) =
    let rest = list_of_modules defaults in if is_module v then m ∷ rest else rest

abbrev pub module_list : ListOptions
module_list = record { make_list = false; empty = true; min_length = none; max_length = none }

abbrev pub module_request : List String → Request
module_request known = record {
  create_empty = some false;
  true_value = none;
  valid_values = map str (sorted known);
  context = record { abort = false; silent = false };
  module_name = "";
}

-- list(topology.module), which a value that is no list or dictionary does not have
abbrev pub module_names : Option Value → Option (List String)
module_names none = some []
module_names (some (list xs)) = some (texts (elems xs))
module_names (some (dict b)) = some (keys b)
module_names (some v) = none

abbrev pub with_modules : Fields → List String → Fields
with_modules topology [] = pop topology "module"
with_modules topology (m ∷ ms) =
    put topology "module" (list (items (map str (sorted (once_each (m ∷ ms))))))

abbrev pub adjusted :
    List ModNode → Fields → Reports → Option (List String) → Option (Fields × Reports)
adjusted nodes topology errors none = none
adjusted nodes topology errors (some names) =
    some (with_modules topology (names ++ node_modules nodes), errors)

abbrev pub after_check : List ModNode → Outcome → Option (Fields × Reports)
after_check nodes (raised errors) = none
after_check nodes (done topology v errors) =
    adjusted nodes topology errors (module_names (get topology "module"))

-- The list of the topology is checked and, where it is one name, made a list; then the modules of the
-- nodes are added. `none` is an exception.
unfoldable pub adjust_global_modules : Fields → List ModNode → Option (Fields × Reports)
unfolding list_of_modules sorted once_each node_modules execute_test get has put pop texts elems
    items keys
adjust_global_modules topology nodes =
    let known = list_of_modules (inner_box (get topology "defaults")) in
    after_check nodes (
      if has topology "module"
      then execute_test (must_be_list none module_list) (module_request known) "module" topology
      else done topology null [])
