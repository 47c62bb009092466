-- ===== src/Modules/Attributes.antt =====
-- Attributes of devices and modules, and how they are inherited. `merge` is the `+` of python-box, and
-- `lookup` its `get` with a dotted key.
use netlab.Prelude.{String, Bool, not, Option, none, some, List, [], ◌∷◌, ◌++◌, keep, if◌then◌else◌}
use netlab.Data.{Value, str, list, dict, Fields, end, get, has, pop, keys, elems, truthy}
use netlab.Data.Walks.{removed_attributes}
use netlab.Data.Merging.{merge_with_removed_attributes}

abbrev pub inner_box : Option Value → Fields
inner_box (some (dict b)) = b
inner_box _ = end

abbrev text_in : Option Value → String
text_in (some (str s)) = s
text_in _ = ""

-- n.get('provider') or the provider of the topology
unfoldable pub get_provider : Fields → Fields → String
unfolding get
get_provider node defaults = elim (get node "provider") [
  | none ↦ text_in (get defaults "provider")
  | some v ↦ text_in (some v)
]

module _ (merge : Fields → Fields → Fields) where
  -- The attribute of a device, and that of the device with the provider.
  abbrev pub device_value : Option Value → Option Value → Option Value
  device_value value none = value
  device_value (some (dict b)) (some (dict c)) = some (dict (merge b c))
  device_value value (some v) = some v

  -- `none` is the fatal error about an unknown device.
  unfoldable pub get_device_attribute : Fields → String → Fields → Option (Option Value)
  unfolding get has get_provider
  get_device_attribute node attr defaults =
      let devices = inner_box (get defaults "devices") in
      let devtype = text_in (get node "device") in
      let devdata = inner_box (get devices devtype) in
      let pdata = inner_box (get devdata (get_provider node defaults)) in
      if not (has devices devtype)
      then none
      else some (device_value (get devdata attr) (get pdata attr))

  -- Features that are set and no dictionary are a fatal error.
  abbrev pub device_features : Fields → Option Value → Option Fields
  device_features n_features none = some n_features
  device_features n_features (some (dict b)) =
      if truthy (dict b) then some (merge b n_features) else some n_features
  device_features n_features (some v) = if truthy v then none else some n_features

  unfoldable pub get_device_features : Fields → Fields → Option Fields
  unfolding get_device_attribute get truthy
  get_device_features node defaults = elim (get_device_attribute node "features" defaults) [
    | none ↦ none
    | some features ↦ device_features (inner_box (get node "_features")) features
  ]

-- The attributes that are not copied from defaults to the topology or the nodes.
abbrev pub no_propagate_list : List String
no_propagate_list =
    "attributes" ∷ "extra_attributes" ∷ "features" ∷ "hooks" ∷ "requires" ∷ "supported_on"
    ∷ "no_propagate" ∷ "config_after" ∷ "transform_after" ∷ "warnings" ∷ []

unfoldable pub texts : List Value → List String
texts [] = []
texts (str s ∷ vs) = s ∷ texts vs
texts (v ∷ vs) = texts vs

abbrev pub text_list : Option Value → List String
text_list (some (list xs)) = texts (elems xs)
text_list _ = []

unfoldable pub pop_each : List String → Fields → Fields
unfolding pop
pop_each [] b = b
pop_each (k ∷ ks) b = pop_each ks (pop b k)

-- Python's `"no_propagate" in k` on texts is the argument `names_it`.
module _ (names_it : String → Bool) where
  unfoldable pub not_propagated : Fields → List String
  unfolding keep keys texts elems get
  not_propagated mod_settings =
      no_propagate_list
      ++ (text_list (get mod_settings "no_propagate") ++ keep names_it (keys mod_settings))

  unfoldable pub get_propagated_global_module_params : Fields → Fields → Fields
  unfolding pop_each not_propagated
  get_propagated_global_module_params settings mod_settings =
      pop_each (not_propagated mod_settings) settings

-- The objects that the caller of get_effective_module_attribute supplies.
pub record Supplied : Type 0 where
  pub intf : Option Fields
  pub link : Option Fields
  pub node : Option Fields
  pub topology : Option Fields
  pub defaults : Option Fields

abbrev if_given : Option Fields → List Fields → List Fields
if_given none objs = objs
if_given (some obj) objs = obj ∷ objs

-- The order in which the loop takes them.
abbrev pub supplied_objects : Supplied → List Fields
supplied_objects s =
    if_given s.intf
      (if_given s.link (if_given s.node (if_given s.topology (if_given s.defaults []))))

module _ (lookup : Fields → String → Option Value) where
  abbrev composed : Option Fields → Fields → Fields
  composed none value = value
  composed (some c) value =
      if truthy (dict c) then merge_with_removed_attributes c value none else value

  abbrev composite : Option Fields → Option Value
  composite none = none
  composite (some c) = some (dict c)

  -- What an object's value does: it is passed over, is merged, or ends the search.
  abbrev pub inherited :
      (Option Fields → Option Value) → Bool → Option Fields → Option Value → Option Value
  inherited search merge_dict c none = search c
  inherited search merge_dict c (some (dict value)) =
      if not (truthy (dict value))
      then search c
      else if merge_dict
      then search (some (composed c value))
      else some (dict value)
  inherited search merge_dict c (some value) = if not (truthy value) then search c else some value

  unfoldable pub inherit : String → Bool → Option Fields → List Fields → Option Value
  unfolding removed_attributes merge_with_removed_attributes truthy
  inherit path merge_dict c [] = composite c
  inherit path merge_dict c (obj ∷ objs) =
      if removed_attributes obj path
      then composite c
      else inherited (λ c'. inherit path merge_dict c' objs) merge_dict c (lookup obj path)

  unfoldable pub get_effective_module_attribute : String → Supplied → Bool → Option Value
  unfolding inherit
  get_effective_module_attribute path supplied merge_dict =
      inherit path merge_dict none (supplied_objects supplied)
