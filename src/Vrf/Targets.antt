-- ===== src/Vrf/Targets.antt =====
-- netsim/modules/vrf.py: get_vrf_id, set_import_export_rt and validate_vrf_route_leaking.
use netlab.Prelude.{
  String, Bool, true, false, not, ◌&&◌, ◌||◌, Option, none, some, List, [], ◌∷◌, ◌++◌, is_some,
  length, ltb, if◌then◌else◌,
}
use netlab.Log.{Reports, report, incorrect_value, missing_value}
use netlab.Data.{
  ℤ, Value, null, bool, int, str, list, dict, nil, cons, Fields, get, has, put, keys, elems, items,
  truthy, value_eq,
}
use netlab.Modules.Attributes.{inner_box}
use netlab.Modules.References.{text_values}
use netlab.Types.Framework.{Request, Outcome, done, raised, execute_test, value_or_none}
use netlab.Types.Scalars.{ListOptions, must_be_list}
use netlab.Types.Numbers.{split_colon}
use netlab.Vrf.Assign.{box_value}
use netlab.Vrf.Normal.{vrf_or_else, inner_value, get_rd_as_number, parse_rdrt_value}

abbrev rd_of : Value → Option (Value × Reports)
rd_of (dict vdata) = elim (get vdata "rd") [ none ↦ none | some rd ↦ some (rd, []) ]
rd_of null = some (null, report missing_value "vrf" ∷ [])
rd_of v = none

-- The route distinguisher of a VRF, None with an error for an unknown one; `none` is the fatal error
-- of a VRF that is no dictionary or has none yet.
unfoldable pub get_vrf_id : String → Fields → Fields → Option (Value × Reports)
unfolding get truthy
get_vrf_id vname obj topology =
    rd_of (vrf_or_else (inner_value topology "vrfs" vname) (inner_value obj "vrfs" vname))

-- The list so far, the AS number once it is known, and the errors.
pub record Targets : Type 0 where
  pub rtlist : List Value
  pub asn : Value
  pub errors : Reports

abbrev add_target : Value → Targets → Targets
add_target v t = record t { rtlist = t.rtlist ++ (v ∷ []) }

abbrev refuse_target : Reports → Targets → Targets
refuse_target errors t = record t { errors = t.errors ++ errors }

abbrev list_options : ListOptions
list_options = record { make_list = false; empty = true; min_length = none; max_length = none }

abbrev list_request : Request
list_request = record {
  create_empty = none;
  true_value = none;
  valid_values = [];
  context = record { abort = false; silent = false };
  module_name = "";
}

-- The elements of a list, the keys of a dictionary.
abbrev iterated : Value → List Value
iterated (list xs) = elems xs
iterated (dict b) = text_values (keys b)
iterated v = []

-- `rd_text` is f'{asn}:{value}', `int_of` Python's int() on a text, and `is_address` says that
-- ipaddress takes a text as an IPv4 address.
module _ (int_of : String → Option ℤ) (is_address : String → Bool)
    (rd_text : Value → Value → String) (is_global : Bool) (topology : Fields) where
  abbrev referred : Targets → Option (Value × Reports) → Option Targets
  referred t none = none
  referred t (some (null, errors)) = some (refuse_target errors t)
  referred t (some (rd, errors)) = some (add_target rd t)

  abbrev integer_target : Value → Value → Targets → Option Targets
  integer_target v asn t =
      if truthy asn
      then some (add_target (str (rd_text asn v)) (record t { asn = asn }))
      else some (refuse_target (report missing_value "vrf" ∷ []) (record t { asn = asn }))

  abbrev text_target : Fields → String → Targets → Option Targets
  text_target obj s t =
      if ltb 1 (length (split_colon s))
      then (if is_some (parse_rdrt_value int_of is_address s)
          then some (add_target (str s) t)
          else some (refuse_target (report incorrect_value "vrf" ∷ []) t))
      else referred t (get_vrf_id s obj topology)

  -- An integer, a text with a colon, the name of a VRF; anything else is an error.
  unfoldable pub add_rt_value : Fields → Value → Targets → Option Targets
  unfolding get_rd_as_number parse_rdrt_value split_colon get_vrf_id truthy
  add_rt_value obj (str s) t = text_target obj s t
  add_rt_value obj (int n) t =
      integer_target (int n) (vrf_or_else t.asn (get_rd_as_number obj topology)) t
  add_rt_value obj (bool b) t =
      integer_target (bool b) (vrf_or_else t.asn (get_rd_as_number obj topology)) t
  add_rt_value obj v t = some (refuse_target (report incorrect_value "vrf" ∷ []) t)

  abbrev targets_then : Option Targets → (Targets → Option Targets) → Option Targets
  targets_then none f = none
  targets_then (some t) f = f t

  unfoldable pub add_rt_values : Fields → List Value → Targets → Option Targets
  unfolding add_rt_value
  add_rt_values obj [] t = some t
  add_rt_values obj (v ∷ vs) t = targets_then (add_rt_value obj v t) (λ t'. add_rt_values obj vs t')

  -- The object, the AS number once it is known, and the errors.
  pub record RtState : Type 0 where
    pub obj : Fields
    pub asn : Value
    pub errors : Reports

  abbrev vrf_vrf_data : Fields → String → Fields
  vrf_vrf_data obj vname = inner_box (get (inner_box (get obj "vrfs")) vname)

  abbrev put_vrf_data : Fields → String → Fields → Fields
  put_vrf_data obj vname vdata =
      put obj "vrfs" (dict (put (inner_box (get obj "vrfs")) vname (dict vdata)))

  abbrev with_targets : String → String → Fields → RtState → Option Targets → Option RtState
  with_targets vname rtname vdata s none = none
  with_targets vname rtname vdata s (some t) = some (record {
    obj = put_vrf_data s.obj vname (put vdata rtname (list (items t.rtlist)));
    asn = t.asn;
    errors = t.errors;
  })

  abbrev given_targets : String → String → RtState → Outcome → Option RtState
  given_targets vname rtname s (raised errors) = none
  given_targets vname rtname s (done vdata v errors) =
      let obj = put_vrf_data s.obj vname vdata in
      with_targets vname rtname vdata s (
        add_rt_values obj (iterated (value_or_none (get vdata rtname)))
          (record { rtlist = []; asn = s.asn; errors = s.errors ++ errors }))

  -- Without a value: that of the global VRF, or the route distinguisher.
  abbrev default_targets : Fields → String → String → Value
  default_targets vdata vname rtname =
      let topo_vrfs = inner_box (get topology "vrfs") in
      if not is_global && has topo_vrfs vname
      then box_value (inner_box (get topo_vrfs vname)) rtname
      else list (cons (box_value vdata "rd") nil)

  unfoldable pub set_rt : String → String → RtState → Option RtState
  unfolding add_rt_values execute_test get has put elems items keys text_values
  set_rt vname rtname s =
      let vdata = vrf_vrf_data s.obj vname in
      if has vdata rtname
      then given_targets vname rtname s
          (execute_test (must_be_list none list_options) list_request rtname vdata)
      else some (record s {
        obj = put_vrf_data s.obj vname (put vdata rtname (default_targets vdata vname rtname));
      })

  abbrev rt_then : Option RtState → (RtState → Option RtState) → Option RtState
  rt_then none f = none
  rt_then (some s) f = f s

  unfoldable pub set_rts : List String → RtState → Option RtState
  unfolding set_rt
  set_rts [] s = some s
  set_rts (vname ∷ names) s =
      rt_then (rt_then (set_rt vname "import" s) (set_rt vname "export")) (λ s'. set_rts names s')

  abbrev rt_result : Option RtState → Option (Fields × Reports)
  rt_result none = none
  rt_result (some s) = some (s.obj, s.errors)

  unfoldable pub set_import_export_rt : Fields → Option (Fields × Reports)
  unfolding set_rts get keys
  set_import_export_rt obj = elim (get obj "vrfs") [
    | none ↦ some (obj, [])
    | some v ↦
        rt_result
          (set_rts (keys (inner_box (some v))) (record { obj = obj; asn = null; errors = [] }))
  ]

-- Routes leak where the import or the export targets are not just the route distinguisher.
abbrev pub leaks_routes : Fields → Bool
leaks_routes vdata =
    let simple_rt = list (cons (box_value vdata "rd") nil) in
    not (value_eq (elim (get vdata "import") [ none ↦ list nil | some v ↦ v ]) simple_rt)
    || not (value_eq (elim (get vdata "export") [ none ↦ list nil | some v ↦ v ]) simple_rt)

abbrev with_leaking_as : Fields → Fields × Reports
with_leaking_as node =
    if truthy (inner_value node "bgp" "as")
    then (node, [])
    else if truthy (inner_value node "vrf" "as")
    then (
      put node "bgp" (dict (put (inner_box (get node "bgp")) "as" (inner_value node "vrf" "as"))),
      [],
    )
    else (node, report missing_value "vrf" ∷ [])

abbrev leaking_vrf : String → Fields → Fields → Fields × Reports
leaking_vrf vname vdata node =
    if leaks_routes vdata
    then with_leaking_as (
        put node "vrfs" (
          dict (
            put (inner_box (get node "vrfs")) vname
              (dict (put vdata "_leaked_routes" (bool true))))))
    else (node, [])

leaking_vrfs : List String → Fields × Reports → Fields × Reports
unfolding get put truthy value_eq
leaking_vrfs [] r = r
leaking_vrfs (vname ∷ names) (node, errors) =
    let r = leaking_vrf vname (inner_box (get (inner_box (get node "vrfs")) vname)) node in
    leaking_vrfs names (r.0, errors ++ r.1)

unfoldable pub validate_vrf_route_leaking : Fields → Fields × Reports
unfolding leaking_vrfs get keys
validate_vrf_route_leaking node = leaking_vrfs (keys (inner_box (get node "vrfs"))) (node, [])
