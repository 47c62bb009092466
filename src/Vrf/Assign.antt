-- ===== src/Vrf/Assign.antt =====
-- netsim/modules/vrf.py: vrf_needs_id, set_vrf_auto_id and set_vrf_ids.
use netlab.Prelude.{
  String, Bool, true, false, not, ◌&&◌, Option, none, some, List, [], ◌∷◌, ◌++◌, if◌then◌else◌,
}
use netlab.Log.{Reports, report, missing_value}
use netlab.Data.{Value, null, pos, int, str, dict, Fields, get, has, put, keys, truthy}
use netlab.Ids.{Vars}
use netlab.Modules.Attributes.{inner_box}
use netlab.Types.Framework.{value_or_none}
use netlab.Vrf.Normal.{vrf_or_else, get_rd_as_number}
use netlab.Vrf.Search.{Search, found, get_next_vrf_id}

unfoldable pub vrf_needs_id : Fields → Bool
unfolding get truthy
vrf_needs_id vrf =
    not (truthy (value_or_none (get vrf "rd")) && truthy (value_or_none (get vrf "id")))

abbrev put_missing : String → Value → Fields → Fields
put_missing k v b = if has b k then b else put b k v

-- A key that is there keeps its value, also None.
unfoldable pub set_vrf_auto_id : Fields → Value × Value → Fields
unfolding has put
set_vrf_auto_id vrf value = put_missing "rd" value.1 (put_missing "id" value.0 vrf)

-- The loop's state, and whether it was left by `return`.
pub record VrfIds : Type 0 where
  pub vrfs : Fields
  pub asn : Value
  pub vars : Vars
  pub errors : Reports
  pub stopped : Bool

abbrev pub vrf_with_vrf : String → Fields → Value → VrfIds → VrfIds
vrf_with_vrf vname vdata asn s = record {
  vrfs = put s.vrfs vname (dict vdata);
  asn = asn;
  vars = s.vars;
  errors = s.errors;
  stopped = s.stopped;
}

abbrev without_asn : String → Fields → Value → VrfIds → VrfIds
without_asn vname vdata asn s = record {
  vrfs = put s.vrfs vname (dict vdata);
  asn = asn;
  vars = s.vars;
  errors = s.errors ++ (report missing_value "vrf" ∷ []);
  stopped = true;
}

-- b.k, an empty Box where the key is missing
abbrev pub box_value : Fields → String → Value
box_value b k = elim (get b k) [ none ↦ dict Fields.end | some v ↦ v ]

-- `rd_text` is f'{asn}:{id}'.
module _ (rd_text : Value → Value → String) where
  -- `none` where get_next_vrf_id does not return.
  abbrev drawn_vrf : String → Fields → Value → VrfIds → Search → Option VrfIds
  drawn_vrf vname vdata asn s (found i vars) = some (record {
    vrfs =
        put s.vrfs vname
          (dict (set_vrf_auto_id vdata (int (pos i), str (rd_text asn (int (pos i))))));
    asn = asn;
    vars = vars;
    errors = s.errors;
    stopped = s.stopped;
  })
  drawn_vrf vname vdata asn s r = none

  abbrev auto_vrf : String → Fields → Value → VrfIds → Option VrfIds
  auto_vrf vname vdata asn s =
      if truthy asn
      then drawn_vrf vname vdata asn s (get_next_vrf_id rd_text asn s.vars)
      else some (without_asn vname vdata asn s)

  -- A VRF of a node that is a global VRF too.
  abbrev global_vrf : Fields → String → Fields → Value → VrfIds → Option VrfIds
  global_vrf topo_vrf vname vdata asn s =
      if not (has vdata "rd")
      then some (vrf_with_vrf vname (put vdata "rd" (box_value topo_vrf "rd")) asn s)
      else if truthy asn && not (truthy (value_or_none (get vdata "rd")))
      then some
          (vrf_with_vrf vname (put vdata "rd" (str (rd_text asn (box_value vdata "id")))) asn s)
      else auto_vrf vname vdata asn s

  abbrev with_topo_id : Fields → Fields → Fields
  with_topo_id topo_vrf vdata =
      if truthy (value_or_none (get vdata "id"))
      then vdata
      else put vdata "id" (box_value topo_vrf "id")

  module _ (is_global : Bool) (obj topology : Fields) where
    abbrev set_vrf_id : String → Fields → VrfIds → Option VrfIds
    set_vrf_id vname vdata s =
        let asn = vrf_or_else s.asn (get_rd_as_number obj topology) in
        let topo_vrfs = inner_box (get topology "vrfs") in
        let topo_vrf = inner_box (get topo_vrfs vname) in
        if not is_global && has topo_vrfs vname
        then global_vrf topo_vrf vname (with_topo_id topo_vrf vdata) asn s
        else auto_vrf vname vdata asn s

    unfoldable pub one_vrf_id : String → VrfIds → Option VrfIds
    unfolding vrf_needs_id set_vrf_auto_id get_next_vrf_id get_rd_as_number get has put truthy
    one_vrf_id vname s =
        let vdata = inner_box (get s.vrfs vname) in
        if s.stopped
        then some s
        else if not (vrf_needs_id vdata)
        then some s
        else set_vrf_id vname vdata s

    abbrev pub vrf_then : Option VrfIds → (VrfIds → Option VrfIds) → Option VrfIds
    vrf_then none f = none
    vrf_then (some s) f = f s

    unfoldable pub vrf_ids_of : List String → VrfIds → Option VrfIds
    unfolding one_vrf_id
    vrf_ids_of [] s = some s
    vrf_ids_of (vname ∷ names) s = vrf_then (one_vrf_id vname s) (λ s'. vrf_ids_of names s')

    abbrev stored_vrfs : Option VrfIds → Option (Fields × Vars × Reports)
    stored_vrfs none = none
    stored_vrfs (some s) = some (put obj "vrfs" (dict s.vrfs), s.vars, s.errors)

    -- `none` where no identifier is left.
    unfoldable pub set_vrf_ids : Vars → Option (Fields × Vars × Reports)
    unfolding vrf_ids_of get put keys
    set_vrf_ids vars = elim (get obj "vrfs") [
      | none ↦ some (obj, vars, [])
      | some v ↦ stored_vrfs (
          vrf_ids_of (keys (inner_box (some v))) (record {
            vrfs = inner_box (some v);
            asn = null;
            vars = vars;
            errors = [];
            stopped = false;
          }))
    ]
