-- ===== src/Modules/References.antt =====
-- validate_object_reference_list and validate_link_module_usage of netsim/modules/_dataplane.py, and
-- check_extra_modules of netsim/modules/__init__.py
use netlab.Prelude.{
  String, Bool, true, false, not, ◌&&◌, ◌||◌, Option, none, some, List, [], ◌∷◌, ◌++◌, ◌==◌, keep,
  any, is_some, if◌then◌else◌,
}
use netlab.Prelude.Texts.{contains}
use netlab.Log.{Category, report, incorrect_value, warning, Reports}
use netlab.Data.{Value, str, list, dict, Fields, end, entry, get, has, put, elems, items}
use netlab.Data.Appending.{append_to_list}
use netlab.Modules.Attributes.{texts, text_list}
use netlab.Modules.Usage.{ModNode, modules_of}

-- A node, another parent object, or the topology: its reference dictionary and its list of
-- references, which must_be_list has made a list.
pub record RefScope : Type 0 where
  pub objects : Option Fields
  pub refs : Option (List String)

pub record RefCheck : Type 0 where
  pub ok : Bool
  pub refs : Option (List String)
  pub errors : Reports

abbrev pub objects_of : RefScope → Fields
objects_of s = elim s.objects [ none ↦ end | some b ↦ b ]

abbrev pub known_in : RefScope → RefScope → String → Bool
known_in parent topology r = has (objects_of parent) r || has (objects_of topology) r

unfoldable pub filtered_keys : (Value → Bool) → Fields → List String
filtered_keys default_filter end = []
filtered_keys default_filter (entry k v b) =
    let rest = filtered_keys default_filter b in if default_filter v then k ∷ rest else rest

unfoldable pub append_missing : List String → List String → List String
unfolding contains
append_missing refs [] = refs
append_missing refs (k ∷ ks) =
    append_missing (if contains k refs then refs else (refs ++ (k ∷ []))) ks

abbrev pub merged_refs : Bool → Option (List String) → List String → List String
merged_refs merge_topology none refs = refs
merged_refs merge_topology (some l) refs = if merge_topology then append_missing refs l else refs

-- One error for each name that is neither a local nor a global object.
unfoldable pub reference_errors : RefScope → RefScope → String → List String → Reports
unfolding has
reference_errors parent topology m [] = []
reference_errors parent topology m (r ∷ rs) =
    (if known_in parent topology r then [] else report incorrect_value m ∷ [])
    ++ reference_errors parent topology m rs

abbrev pub no_errors : Reports → Bool
no_errors [] = true
no_errors (e ∷ es) = false

unfoldable pub checked_list : RefScope → RefScope → String → List String → RefCheck
unfolding reference_errors
checked_list parent topology m l =
    let errors = reference_errors parent topology m l in
    record { ok = no_errors errors; refs = some l; errors = errors }

abbrev pub unchecked : RefScope → RefCheck
unchecked parent = record { ok = true; refs = parent.refs; errors = [] }

abbrev pub default_list : RefScope → RefScope → String → List String → RefCheck
default_list parent topology m [] = unchecked parent
default_list parent topology m (r ∷ rs) = checked_list parent topology m (r ∷ rs)

abbrev pub created_list : RefScope → RefScope → Bool → (Value → Bool) → Bool → String → RefCheck
created_list parent topology create_default default_filter merge_topology m =
    if not (is_some parent.objects) || not create_default
    then unchecked parent
    else default_list parent topology m (
        merged_refs merge_topology topology.refs (filtered_keys default_filter (objects_of parent)))

abbrev pub given_list : RefScope → RefScope → RefCheck → String → Option (List String) → RefCheck
given_list parent topology otherwise m none = otherwise
given_list parent topology otherwise m (some []) = otherwise
given_list parent topology otherwise m (some (r ∷ rs)) = checked_list parent topology m (r ∷ rs)

unfoldable pub validate_object_reference_list :
    RefScope → RefScope → Bool → (Value → Bool) → Bool → String → RefCheck
unfolding checked_list append_missing filtered_keys
validate_object_reference_list parent topology create_default default_filter merge_topology m =
    given_list parent topology
      (created_list parent topology create_default default_filter merge_topology m) m parent.refs

abbrev of_node : String → List ModNode → List String
of_node name [] = []
of_node name (n ∷ ns) = if n.name == name then modules_of n.modules else of_node name ns

abbrev box_fields : Value → Fields
box_fields (dict b) = b
box_fields v = end

abbrev text_of : Option Value → String
text_of (some (str s)) = s
text_of _ = ""

abbrev value_list : Option Value → List Value
value_list (some (list l)) = elems l
value_list _ = []

abbrev link_with : Option Fields → Fields → Fields
link_with none link = link
link_with (some l) link = l

-- The link remembers the module about which there is a warning.
unfoldable pub validate_link_module_usage :
    Fields → List ModNode → String → Category → Fields × Reports
unfolding any contains get has put elems append_to_list
validate_link_module_usage link nodes m category =
    if not (has link m)
    then (link, [])
    else if any (λ intf. contains m (of_node (text_of (get (box_fields intf) "node")) nodes))
        (value_list (get link "interfaces"))
    then (link, [])
    else (
      link_with (append_to_list (some link) "_warning_extra_mod" (str m) false).0 link,
      report category m ∷ [],
    )

unfoldable pub text_values : List String → List Value
text_values [] = []
text_values (s ∷ ss) = str s ∷ text_values ss

abbrev warn_extra : Fields → List String → Fields × Reports
warn_extra l [] = (l, [])
warn_extra l (m ∷ ms) = (
  link_with
      (append_to_list (some l) "_warning_extra_mod" (list (items (text_values (m ∷ ms)))) true).0 l,
  report warning "modules" ∷ [],
)

-- `mod_list` has the modules of the attached nodes; a module is warned about once.
unfoldable pub check_extra_modules : Fields → List String → List String → Fields × Reports
unfolding keep contains get has put elems items texts text_values append_to_list
check_extra_modules l mod_list topo_mods =
    let extra_mod = keep (λ m. has l m && not (contains m mod_list)) topo_mods in
    if has l "vlan"
    then (l, [])
    else warn_extra l
        (keep (λ m. not (contains m (text_list (get l "_warning_extra_mod")))) extra_mod)
