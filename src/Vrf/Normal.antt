-- ===== src/Vrf/Normal.antt =====
-- netsim/modules/vrf.py: get_node_vrf_data, get_rd_as_number, parse_rdrt_value,
-- validate_vrf_loopback, normalize_vrf_dict and normalize_vrf_ids.
use netlab.Prelude.{
  String, Bool, true, false, not, ◌&&◌, ◌||◌, Option, none, some, List, [], ◌∷◌, ◌++◌, is_some,
  if◌then◌else◌,
}
use netlab.Prelude.Texts.{contains}
use netlab.Log.{Reports, report, incorrect_value, incorrect_attr, missing_value}
use netlab.Data.{ℤ, Value, null, bool, int, str, dict, Fields, get, has, put, keys, truthy}
use netlab.Modules.Attributes.{inner_box, texts, text_list}
use netlab.Types.Framework.{value_or_none}
use netlab.Types.Numbers.{split_colon}

-- `merge` is the `+` of python-box.
unfoldable pub get_node_vrf_data :
    (Fields → Fields → Fields) → String → Fields → Fields → Option Value
unfolding get has
get_node_vrf_data merge vname node topology =
    let topo_data = get (inner_box (get topology "vrfs")) vname in
    if not (has (inner_box (get node "vrfs")) vname)
    then topo_data
    else some
        (dict (merge (inner_box topo_data) (inner_box (get (inner_box (get node "vrfs")) vname))))

-- a or b
abbrev pub vrf_or_else : Value → Value → Value
vrf_or_else a b = if truthy a then a else b

-- obj.get('outer.inner',None)
abbrev pub inner_value : Fields → String → String → Value
inner_value obj outer inner = value_or_none (get (inner_box (get obj outer)) inner)

unfoldable pub get_rd_as_number : Fields → Fields → Value
unfolding get truthy
get_rd_as_number obj topology = vrf_or_else (inner_value obj "bgp" "as") (
    vrf_or_else (inner_value obj "vrf" "as")
      (vrf_or_else (inner_value topology "bgp" "as") (inner_value topology "vrf" "as")))

-- `int_of` is Python's int() on a text, and `is_address` says that ipaddress takes a text as an IPv4
-- address.
module _ (int_of : String → Option ℤ) (is_address : String → Bool) where
  abbrev with_address_part : String → Option ℤ → Option (List Value)
  with_address_part asn none = none
  with_address_part asn (some vid) = if is_address asn then some (str asn ∷ int vid ∷ []) else none

  abbrev two_parts : String → Option ℤ → Option ℤ → Option (List Value)
  two_parts asn (some n) (some vid) = some (int n ∷ int vid ∷ [])
  two_parts asn none vid = with_address_part asn vid
  two_parts asn (some n) none = none

  abbrev parsed_rdrt : List String → Option (List Value)
  parsed_rdrt (asn ∷ vid ∷ []) = two_parts asn (int_of asn) (int_of vid)
  parsed_rdrt parts = none

  -- str(value) is the argument
  unfoldable pub parse_rdrt_value : String → Option (List Value)
  unfolding split_colon
  parse_rdrt_value value = parsed_rdrt (split_colon value)

-- A loopback that is no dictionary is not checked. `validate_attributes` is that of
-- netsim/data/validate.py on the loopback attributes: the loopback and its errors.
unfoldable pub validate_vrf_loopback :
    (Fields → Fields × Reports) → Bool → Fields → Fields × Reports
unfolding get has put
validate_vrf_loopback validate_attributes is_global vdata = elim (get vdata "loopback") [
  | some (dict lb) ↦
      let r = validate_attributes lb in
      (
        put vdata "loopback" (dict r.0),
        (if is_global && (has lb "ipv4" || has lb "ipv6")
              then report incorrect_attr "vrf" ∷ []
              else [])
            ++ r.1,
      )
  | _ ↦ (vdata, [])
]

-- The VRFs of an object, the AS number once it is known, and whether the loop was left by `return`.
pub record Normalized : Type 0 where
  pub vrfs : Fields
  pub asn : Value
  pub errors : Reports
  pub stopped : Bool

abbrev pub put_vrf : String → Fields → Value → Reports → Bool → Normalized → Normalized
put_vrf vname vdata asn errors stopped s = record {
  vrfs = put s.vrfs vname (dict vdata);
  asn = asn;
  errors = s.errors ++ errors;
  stopped = stopped;
}

abbrev is_integer : Value → Bool
is_integer (int n) = true
is_integer (bool b) = true
is_integer v = false

abbrev reserved_name : Fields → String → Reports
reserved_name topology vname =
    let attributes =
      inner_box (get (inner_box (get (inner_box (get topology "defaults")) "vrf")) "attributes") in
    if contains vname (text_list (get attributes "reserved"))
    then report incorrect_value "vrf" ∷ []
    else []

-- `rd_text` is f'{asn}:{rd}', and `text` is str(value).
module _ (int_of : String → Option ℤ) (is_address : String → Bool)
    (rd_text : Value → Value → String) (text : Value → String) where
  abbrev integer_rd : String → Fields → Value → Value → Reports → Normalized → Normalized
  integer_rd vname vdata rd asn errors s =
      if truthy asn
      then put_vrf vname (put vdata "rd" (str (rd_text asn rd))) asn errors false s
      else put_vrf vname vdata asn (errors ++ (report missing_value "vrf" ∷ [])) true s

  abbrev rd_errors : Value → Reports
  rd_errors rd =
      if is_some (parse_rdrt_value int_of is_address (text rd))
      then []
      else report incorrect_value "vrf" ∷ []

  -- The rules on the route distinguisher: none, None, an integer, or a text.
  abbrev normal_rd : Value → String → Fields → Reports → Normalized → Option Value → Normalized
  normal_rd asn vname vdata errors s none = put_vrf vname vdata s.asn errors false s
  normal_rd asn vname vdata errors s (some null) = put_vrf vname vdata s.asn errors false s
  normal_rd asn vname vdata errors s (some rd) =
      if is_integer rd
      then integer_rd vname vdata rd asn errors s
      else put_vrf vname vdata s.asn (errors ++ rd_errors rd) false s

  module _ (validate_attributes : Fields → Fields × Reports) (is_global : Bool)
      (obj topology : Fields) where
    abbrev normal_vrf : String → Normalized → Normalized
    normal_vrf vname s =
        let r =
          validate_vrf_loopback validate_attributes is_global (inner_box (get s.vrfs vname)) in
        normal_rd (vrf_or_else s.asn (get_rd_as_number obj topology)) vname r.0
          (reserved_name topology vname ++ r.1) s (get r.0 "rd")

    unfoldable pub normal_vrfs : List String → Normalized → Normalized
    unfolding get put truthy contains texts validate_vrf_loopback get_rd_as_number parse_rdrt_value
    normal_vrfs [] s = s
    normal_vrfs (vname ∷ names) s = normal_vrfs names (if s.stopped then s else normal_vrf vname s)

    -- The object after the call: a VRF that is None has become a dictionary.
    unfoldable pub normalize_vrf_dict : Fields × Reports
    unfolding normal_vrfs get put keys
    normalize_vrf_dict = elim (get obj "vrfs") [
      | none ↦ (obj, [])
      | some v ↦
          let s =
            normal_vrfs (keys (inner_box (some v)))
              (record { vrfs = inner_box (some v); asn = null; errors = []; stopped = false }) in
          (put obj "vrfs" (dict s.vrfs), s.errors)
    ]

  -- The topology, then its nodes, each with its own attributes of loopbacks.
  module _ (validate_attributes : Fields → Fields → Fields × Reports) where
    unfoldable pub normalize_nodes : Fields → List Fields → List Fields × Reports
    unfolding normalize_vrf_dict
    normalize_nodes topology [] = ([], [])
    normalize_nodes topology (n ∷ ns) =
        let r = normalize_vrf_dict (validate_attributes n) false n topology in
        let rest = normalize_nodes topology ns in (r.0 ∷ rest.0, r.1 ++ rest.1)

    unfoldable pub normalize_vrf_ids : Fields → List Fields → Fields × List Fields × Reports
    unfolding normalize_nodes normalize_vrf_dict
    normalize_vrf_ids topology nodes =
        let t = normalize_vrf_dict (validate_attributes topology) true topology topology in
        let r = normalize_nodes t.0 nodes in (t.0, r.0, t.1 ++ r.1)
