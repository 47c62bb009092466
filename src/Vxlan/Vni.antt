-- ===== src/Vxlan/Vni.antt =====
-- netsim/modules/vxlan.py: register_static_vni and assign_vni. `start_vni` is defaults.vxlan.start_vni.
use netlab.Prelude.{
  ℕ, suc, ◌+◌, ◌-◌, String, Bool, true, false, not, ◌&&◌, Option, none, some, List, [], ◌∷◌, ◌++◌,
  ltb, if◌then◌else◌,
}
use netlab.Log.{Reports, report, incorrect_type}
use netlab.Data.{
  ℤ, pos, negsuc, Value, bool, int, dict, Fields, get, has, put, is_in, value_eq, truthy,
}
use netlab.Data.Appending.{append_new}
use netlab.Ids.{
  Vars, ids_of, update, build_id_set, get_id_set, create_id_set, extend_id_set, set_id_counter,
  get_next_id, extended,
}
use netlab.Modules.Attributes.{inner_box, texts, text_list}
use netlab.Types.Framework.{Request, Outcome, done, raised, execute_test, value_or_none}
use netlab.Types.Scalars.{must_be_int}

abbrev pub max_vni : ℕ
max_vni = 16777215

-- The static identifiers of the nodes are added, node by node; `none` is a fatal error.
unfoldable pub extend_from_nodes : String → String → String → List Fields → Vars → Option Vars
unfolding extend_id_set build_id_set
extend_from_nodes name dsname attr [] vars = some vars
extend_from_nodes name dsname attr (n ∷ ns) vars =
    elim (extended name (build_id_set n dsname attr) vars) [
      | none ↦ none
      | some vars' ↦ extend_from_nodes name dsname attr ns vars'
    ]

unfoldable pub register_static_vni : ℕ → Fields → List Fields → Vars → Option Vars
unfolding extend_from_nodes extend_id_set create_id_set set_id_counter build_id_set
register_static_vni start_vni topology nodes vars =
    elim (extended "vni" (build_id_set topology "vlans" "vni") (create_id_set "vni" vars).1) [
      | none ↦ none
      | some vars' ↦
          extend_from_nodes "vni" "vlans" "vni" nodes
            (set_id_counter "vni" start_vni max_vni vars').1
    ]

-- What the loop over the VLANs reads: the VLANs of the topology, whether `toponode` is the topology,
-- and the first VNI; and what it changes.
pub record Scope : Type 0 where
  pub global_vlans : Fields
  pub is_topology : Bool
  pub start_vni : ℕ

pub record Vlans : Type 0 where
  pub vlans : Fields
  pub vars : Vars
  pub errors : Reports

abbrev pub add_id : ℕ → ℤ → ℤ
add_id start (pos n) = pos (start + n)
add_id start (negsuc n) = if ltb n start then pos (start - suc n) else negsuc (n - start)

-- A number as the sum takes it: True is 1.
abbrev pub int_number : Value → Option ℤ
int_number (int n) = some n
int_number (bool true) = some (pos 1)
int_number (bool false) = some (pos 0)
int_number v = none

abbrev pub with_vni : String → Fields → ℤ → Vars → Vlans → Vlans
with_vni vname vlan_data vni vars s = record {
  vlans = put s.vlans vname (dict (put vlan_data "vni" (int vni)));
  vars = vars;
  errors = s.errors;
}

abbrev pub used_vnis : Vars → List Value
used_vnis vars = ids_of (vars "vni").value

-- vni_ids.add(n)
abbrev pub add_vni : ℤ → Vars → Vars
add_vni n vars =
    update vars "vni" (record (vars "vni") { value = some (append_new (used_vnis vars) (int n)) })

abbrev pub next_vni : String → Fields → Vlans → Option (ℕ × Vars) → Option Vlans
next_vni vname vlan_data s none = none
next_vni vname vlan_data s (some (n, vars)) = some (with_vni vname vlan_data (pos n) vars s)

-- The VNI built from the VLAN identifier, or the next one that is free.
abbrev pub take_vni : String → Fields → ℤ → Vlans → Option Vlans
take_vni vname vlan_data vni_default s =
    if is_in (int vni_default) (used_vnis s.vars)
    then next_vni vname vlan_data s (get_next_id "vni" s.vars)
    else some (with_vni vname vlan_data vni_default (add_vni vni_default s.vars) s)

-- `none` where the identifier is no number, which the sum does not take, or no VNI is left.
abbrev pub default_vni : Scope → String → Fields → Vlans → Option ℤ → Option Vlans
default_vni scope vname vlan_data s none = none
default_vni scope vname vlan_data s (some i) = take_vni vname vlan_data (add_id scope.start_vni i) s

abbrev pub auto_vni : Scope → String → Fields → Vlans → Option Vlans
auto_vni scope vname vlan_data s =
    default_vni scope vname vlan_data s (int_number (value_or_none (get vlan_data "id")))

abbrev pub vni_request : Request
vni_request = record {
  create_empty = none;
  true_value = none;
  valid_values = [];
  context = record { abort = false; silent = false };
  module_name = "vxlan";
}

abbrev pub checked_vni : String → Vlans → Outcome → Option Vlans
checked_vni vname s (raised errors) = none
checked_vni vname s (done vlan_data v errors) = some (record {
  vlans = put s.vlans vname (dict vlan_data);
  vars = s.vars;
  errors = s.errors ++ errors;
})

abbrev pub redefined : Scope → String → Fields → Reports
redefined scope vname vlan_data =
    if has vlan_data "vni"
      && not (
          value_eq (value_or_none (get vlan_data "vni"))
            (value_or_none (get (inner_box (get scope.global_vlans vname)) "vni")))
    then report incorrect_type "vxlan" ∷ []
    else []

abbrev pub report_all : Vlans → Reports → Vlans
report_all s more = record s { errors = s.errors ++ more }

abbrev pub and_then : Option Vlans → (Vlans → Option Vlans) → Option Vlans
and_then none f = none
and_then (some s) f = f s

abbrev pub with_vlans : Fields → Option Vlans → Option (Fields × Vars × Reports)
with_vlans toponode none = none
with_vlans toponode (some s) = some (
  if has toponode "vlans" then put toponode "vlans" (dict s.vlans) else toponode,
  s.vars,
  s.errors,
)

abbrev pub scope_of : ℕ → Fields → Fields → Scope
scope_of start_vni toponode topology = record {
  global_vlans = inner_box (get topology "vlans");
  is_topology = value_eq (dict toponode) (dict topology);
  start_vni = start_vni;
}

abbrev pub start_of : Fields → Vars → Vlans
start_of toponode vars = record {
  vlans = inner_box (get toponode "vlans");
  vars = (get_id_set "vni" vars).1;
  errors = [];
}

-- `int_of` is Python's int() on a text.
module _ (int_of : String → Option ℤ) where
  -- What the `vni` of the VLAN asks for: nothing, False, True, or a number.
  abbrev pub vni_wanted : Scope → String → Fields → Vlans → Option Value → Option Vlans
  vni_wanted scope vname vlan_data s none = auto_vni scope vname vlan_data s
  vni_wanted scope vname vlan_data s (some (bool false)) = some s
  vni_wanted scope vname vlan_data s (some (bool true)) = auto_vni scope vname vlan_data s
  vni_wanted scope vname vlan_data s (some v) = checked_vni vname s (
      execute_test (must_be_int int_of (some (pos 2)) (some (pos max_vni))) vni_request "vni"
        vlan_data)

  -- One round of the loop. A VLAN of `toponode` is a dictionary by then.
  unfoldable pub assign_vlan : Scope → String → Vlans → Option Vlans
  unfolding get has put is_in value_eq append_new get_next_id execute_test
  assign_vlan scope vname s =
      let vlan_data = inner_box (get s.vlans vname) in
      if not (has s.vlans vname)
      then some s
      else if has scope.global_vlans vname && not scope.is_topology
      then some (report_all s (redefined scope vname vlan_data))
      else vni_wanted scope vname vlan_data s (get vlan_data "vni")

  unfoldable pub assign_vlans : Scope → List String → Vlans → Option Vlans
  unfolding assign_vlan
  assign_vlans scope [] s = some s
  assign_vlans scope (v ∷ vs) s = and_then (assign_vlan scope v s) (λ s'. assign_vlans scope vs s')

  -- `toponode` is the topology or a node, its `vxlan.vlans` a list of names. The objects are compared
  -- before the loop: what the loop changes in the topology it changes in both, and a node is none.
  unfoldable pub assign_vni : ℕ → Fields → Fields → Vars → Option (Fields × Vars × Reports)
  unfolding assign_vlans get has put truthy texts get_id_set value_eq
  assign_vni start_vni toponode topology vars =
      let vxlan_vlans = get (inner_box (get toponode "vxlan")) "vlans" in
      if not (truthy (value_or_none vxlan_vlans))
      then some (toponode, vars, [])
      else with_vlans toponode (
          assign_vlans (scope_of start_vni toponode topology) (text_list vxlan_vlans)
            (start_of toponode vars))
