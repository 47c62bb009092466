-- ===== src/Evpn/Transit.antt =====
-- netsim/modules/evpn.py: register_static_transit_vni, get_next_vni and vrf_transit_vni.
use netlab.Prelude.{
  ℕ, zero, suc, ◌+◌, String, Bool, true, false, not, ◌&&◌, ◌||◌, Option, none, some, List, [], ◌∷◌,
  ◌++◌, ◌==◌, eqb, length, if◌then◌else◌,
}
use netlab.Log.{Reports, report, incorrect_value}
use netlab.Data.{
  ℤ, pos, Value, null, int, str, dict, Fields, get, has, put, keys, is_in, value_eq, truthy,
}
use netlab.Data.Appending.{append_new}
use netlab.Ids.{Vars, ids_of, update, get_id_set}
use netlab.Modules.Attributes.{inner_box}
use netlab.Types.Framework.{Request, Outcome, done, raised, execute_test, value_or_none}
use netlab.Types.Scalars.{must_be_int, must_be_dict}
use netlab.Types.Dotted.{execute_dotted}

-- vrf_data.get('evpn.transit_vni',None)
abbrev pub transit_of : Fields → Value
transit_of vrf_data = value_or_none (get (inner_box (get vrf_data "evpn")) "transit_vni")

abbrev pub evpn_error : Reports
evpn_error = report incorrect_value "evpn" ∷ []

abbrev dict_request : Request
dict_request = record {
  create_empty = some false;
  true_value = none;
  valid_values = [];
  context = record { abort = false; silent = false };
  module_name = "";
}

-- The VRFs, the identifiers, and the errors so far.
pub record Registered : Type 0 where
  pub vrfs : Fields
  pub vars : Vars
  pub errors : Reports

abbrev register_vni : Value → Registered → Registered
register_vni (int vni) s =
    let vni_set = ids_of (s.vars "vni").value in
    if is_in (int vni) vni_set then record s { errors = s.errors ++ evpn_error } else record s {
      vars =
          update s.vars "vni"
            (record (s.vars "vni") { value = some (append_new vni_set (int vni)) });
    }
register_vni v s = s

abbrev register_checked : String → Registered → Outcome → Option Registered
register_checked vrf_name s (raised errors) = none
register_checked vrf_name s (done vrf_data v errors) = some (
    register_vni (transit_of vrf_data)
      (record s { vrfs = put s.vrfs vrf_name (dict vrf_data); errors = s.errors ++ errors }))

abbrev registered_then : Option Registered → (Registered → Option Registered) → Option Registered
registered_then none f = none
registered_then (some s) f = f s

unfoldable pub register_transit_vnis : List String → Registered → Option Registered
unfolding execute_test is_in append_new get put
register_transit_vnis [] s = some s
register_transit_vnis (vrf_name ∷ names) s =
    registered_then
      (register_checked vrf_name s
        (execute_test must_be_dict dict_request "evpn" (inner_box (get s.vrfs vrf_name))))
      (λ s'. register_transit_vnis names s')

-- The VRFs of the topology after the call, the identifiers, and the errors.
unfoldable pub register_static_transit_vni : Fields → Vars → Option Registered
unfolding register_transit_vnis get_id_set get keys
register_static_transit_vni topology vars =
    let vrfs = inner_box (get topology "vrfs") in
    register_transit_vnis (keys vrfs)
      (record { vrfs = vrfs; vars = (get_id_set "vni" vars).1; errors = [] })

-- get_next_vni: the `while True` loop on fuel; `none` where that is used up.
unfoldable pub next_vni_from : ℕ → ℕ → List Value → Option ℕ
unfolding is_in
next_vni_from zero start_vni used_vni_list = none
next_vni_from (suc fuel) start_vni used_vni_list =
    let more = next_vni_from fuel (start_vni + 1) used_vni_list in
    if is_in (int (pos (start_vni + 1))) used_vni_list then more else some (start_vni + 1)

unfoldable pub get_next_vni : ℕ → List Value → Option ℕ
unfolding next_vni_from
get_next_vni start_vni used_vni_list =
    next_vni_from (suc (length used_vni_list)) start_vni used_vni_list

-- The first pass of vrf_transit_vni: the static VNIs.
pub record StaticVnis : Type 0 where
  pub vni_list : List Value
  pub vni_error : Bool
  pub vni_count : ℕ
  pub errors : Reports

abbrev is_set : Value → Bool
is_set null = false
is_set v = true

abbrev count_vni : Value → StaticVnis → StaticVnis
count_vni vni s = if is_set vni then record s { vni_count = s.vni_count + 1 } else s

abbrev list_vni : Value → StaticVnis → StaticVnis
list_vni (int vni) s =
    if is_in (int vni) s.vni_list
    then record s { errors = s.errors ++ evpn_error }
    else record s { vni_list = s.vni_list ++ (int vni ∷ []) }
list_vni vni s = s

abbrev static_vni : String → Value → StaticVnis → StaticVnis
static_vni evpn_transport vni s =
    if truthy vni && not (evpn_transport == "vxlan")
    then record s { vni_error = true; errors = s.errors ++ evpn_error }
    else list_vni vni (count_vni vni s)

unfoldable pub static_vnis : String → Fields → List String → StaticVnis → StaticVnis
unfolding get is_in truthy
static_vnis evpn_transport vrfs [] s = s
static_vnis evpn_transport vrfs (vrf_name ∷ names) s =
    static_vnis evpn_transport vrfs names
      (static_vni evpn_transport (transit_of (inner_box (get vrfs vrf_name))) s)

-- The second pass: numbers for the VRFs that ask for one.
pub record TransitVnis : Type 0 where
  pub vrfs : Fields
  pub vni_start : ℕ
  pub errors : Reports

abbrev vni_for_true : ℕ → Request
vni_for_true vni_start = record {
  create_empty = none;
  true_value = some (int (pos vni_start));
  valid_values = [];
  context = record { abort = false; silent = false };
  module_name = "evpn";
}

abbrev after_start : Value → List Value → ℕ → Option ℕ
after_start transit_vni vni_list vni_start =
    let next = get_next_vni vni_start vni_list in
    if value_eq transit_vni (int (pos vni_start)) then next else some vni_start

abbrev numbered_vrf : String → Fields → Reports → TransitVnis → Option ℕ → Option TransitVnis
numbered_vrf vrf_name vrf_data errors s none = none
numbered_vrf vrf_name vrf_data errors s (some vni_start) = some (record {
  vrfs = put s.vrfs vrf_name (dict vrf_data);
  vni_start = vni_start;
  errors = s.errors ++ errors;
})

abbrev tested_vrf : List Value → String → TransitVnis → Outcome → Option TransitVnis
tested_vrf vni_list vrf_name s (raised errors) = none
tested_vrf vni_list vrf_name s (done vrf_data transit_vni errors) =
    numbered_vrf vrf_name vrf_data errors s (after_start transit_vni vni_list s.vni_start)

abbrev is_name : Value → Bool
is_name (str s) = true
is_name v = false

-- The third pass: the VNI of the VRF that is named.
abbrev foreign_vni : String → Fields → String → Value → Fields × Reports
foreign_vni vrf_name vrfs other (int vni) = (
  put vrfs vrf_name (
      dict (
        put (inner_box (get vrfs vrf_name)) "evpn" (
          dict (
            put (inner_box (get (inner_box (get vrfs vrf_name)) "evpn")) "transit_vni"
              (int vni))))),
  [],
)
foreign_vni vrf_name vrfs other v = (vrfs, evpn_error)

abbrev share_vni : String → Fields → Value → Fields × Reports
share_vni vrf_name vrfs (str other) =
    if has vrfs other
    then foreign_vni vrf_name vrfs other (transit_of (inner_box (get vrfs other)))
    else (vrfs, evpn_error)
share_vni vrf_name vrfs v = (vrfs, [])

unfoldable pub shared_vnis : List String → Fields × Reports → Fields × Reports
unfolding get has put
shared_vnis [] r = r
shared_vnis (vrf_name ∷ names) (vrfs, errors) =
    let r = share_vni vrf_name vrfs (transit_of (inner_box (get vrfs vrf_name))) in
    shared_vnis names (r.0, errors ++ r.1)

-- `int_of` is Python's int() on a text; `none` where a type test raises an exception.
module _ (int_of : String → Option ℤ) where
  abbrev number_vrf : List Value → String → TransitVnis → Option TransitVnis
  number_vrf vni_list vrf_name s =
      let vrf_data = inner_box (get s.vrfs vrf_name) in
      if is_name (transit_of vrf_data)
      then some s
      else tested_vrf vni_list vrf_name s (
          execute_dotted (must_be_int int_of (some (pos 4096)) (some (pos 16777215)))
            (vni_for_true s.vni_start) "evpn.transit_vni" "evpn" "transit_vni" vrf_data)

  abbrev transit_then : Option TransitVnis → (TransitVnis → Option TransitVnis) → Option TransitVnis
  transit_then none f = none
  transit_then (some s) f = f s

  unfoldable pub number_vrf_vnis : List Value → List String → TransitVnis → Option TransitVnis
  unfolding execute_dotted get_next_vni get put value_eq
  number_vrf_vnis vni_list [] s = some s
  number_vrf_vnis vni_list (vrf_name ∷ names) s =
      transit_then (number_vrf vni_list vrf_name s) (λ s'. number_vrf_vnis vni_list names s')

  abbrev with_shared : List String → Option TransitVnis → Option (Fields × Reports)
  with_shared names none = none
  with_shared names (some s) = some (shared_vnis names (s.vrfs, s.errors))

  abbrev after_static : ℕ → Fields → StaticVnis → Option (Fields × Reports)
  after_static start_transit_vni vrfs s =
      if s.vni_error || eqb s.vni_count 0
      then some (vrfs, s.errors)
      else with_shared (keys vrfs) (
          number_vrf_vnis s.vni_list (keys vrfs)
            (record { vrfs = vrfs; vni_start = start_transit_vni; errors = s.errors }))

  -- The VRFs of the topology after the call, and the errors.
  unfoldable pub vrf_transit_vni : ℕ → String → Fields → Option (Fields × Reports)
  unfolding static_vnis number_vrf_vnis shared_vnis keys
  vrf_transit_vni start_transit_vni evpn_transport vrfs = after_static start_transit_vni vrfs (
      static_vnis evpn_transport vrfs (keys vrfs)
        (record { vni_list = []; vni_error = false; vni_count = 0; errors = [] }))
