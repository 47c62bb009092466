-- ===== src/Modules/ReferenceLists.antt =====
-- netsim/modules/_dataplane.py: validate_object_reference_list on the Boxes that hold the list, with the
-- call of must_be_list that comes first. The list is the key `inner` of the Box `outer`.
use netlab.Prelude.{String, Bool, false, Option, none, some, List, [], ◌∷◌, ◌++◌, if◌then◌else◌}
use netlab.Log.{Reports}
use netlab.Data.{Value, list, dict, Fields, get, put, items}
use netlab.Modules.Attributes.{inner_box, texts, text_list}
use netlab.Modules.Collect.{module_list}
use netlab.Modules.References.{RefScope, RefCheck, text_values, validate_object_reference_list}
use netlab.Types.Dotted.{execute_dotted}
use netlab.Types.Framework.{Request, Outcome, done, raised}
use netlab.Types.Scalars.{must_be_list}

-- The name of the list, 'outer.inner', and what it refers to.
pub record ReferenceList : Type 0 where
  pub dotted : String
  pub outer : String
  pub inner : String
  pub dictionary : String
  pub module_name : String

-- The objects and the list of a node or of the topology.
abbrev pub ref_scope : ReferenceList → Fields → RefScope
ref_scope l b = record {
  objects = elim (get b l.dictionary) [ none ↦ none | some v ↦ some (inner_box (some v)) ];
  refs = elim (get (inner_box (get b l.outer)) l.inner) [
    | none ↦ none
    | some v ↦ some (text_list (some v))
  ];
}

abbrev list_request_of : String → Request
list_request_of m = record {
  create_empty = some false;
  true_value = none;
  valid_values = [];
  context = record { abort = false; silent = false };
  module_name = m;
}

abbrev stored_refs : ReferenceList → Fields → Option (List String) → Option (List String) → Fields
stored_refs l parent (some (r ∷ rs)) refs = parent
stored_refs l parent given none = parent
stored_refs l parent given (some []) = parent
stored_refs l parent given (some refs) =
    put parent l.outer
      (dict (put (inner_box (get parent l.outer)) l.inner (list (items (text_values refs)))))

-- Whether the list is valid, the parent after the call, and the errors.
abbrev Validated : Type 0
Validated = Option (Bool × Fields × Reports)

-- must_be_list returns the list, or None where it has reported an error.
abbrev returned_refs : ReferenceList → Fields → Value → RefScope
returned_refs l parent v = record (ref_scope l parent) { refs = some (text_list (some v)) }

abbrev with_references : ReferenceList → Fields → RefScope → Reports → RefCheck → Validated
with_references l parent scope errors r =
    some (r.ok, stored_refs l parent scope.refs r.refs, errors ++ r.errors)

-- The parent is the topology, or a node.
abbrev validated :
    ReferenceList → Bool → (Value → Bool) → Bool → Bool → Fields → Outcome → Validated
validated l create_default default_filter merge_topology is_topology topology (raised errors) = none
validated l create_default default_filter merge_topology is_topology topology
      (done parent v errors) =
    let scope = returned_refs l parent v in
    with_references l parent scope errors (
      validate_object_reference_list scope (ref_scope l (if is_topology then parent else topology))
        create_default default_filter merge_topology l.module_name)

unfoldable pub validate_references :
    ReferenceList → Bool → (Value → Bool) → Bool → Bool → Fields → Fields → Validated
unfolding execute_dotted validate_object_reference_list get put items text_values texts
validate_references l create_default default_filter merge_topology is_topology parent topology =
    validated l create_default default_filter merge_topology is_topology topology (
      execute_dotted (must_be_list none module_list) (list_request_of l.module_name) l.dotted
        l.outer l.inner parent)
