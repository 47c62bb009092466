-- ===== src/Data/Walks.antt =====
-- removed_attributes, null_to_string, remove_null_values, cleanup_internal_attributes and
-- bool_to_defaults: the walks over a nested Box.
use Prim.Native.Char.{code}
use Prim.Native.String.{String}
use netlab.Prelude.{Bool, true, false, Option, none, some, List, [], ◌∷◌, ◌==◌, if◌then◌else◌, eqb}
use netlab.Prelude.Texts.{contains}
use netlab.Data.Box.{
  Value, null, bool, str, list, dict, Fields, end, entry, get, has, put, pop, elems, is_in,
}

-- path.split('.')
unfoldable pub split_path : String → List String
split_path String.[] = "" ∷ []
split_path (String.◌∷◌ c s) = elim (split_path s) [
  | [] ↦ []
  | w ∷ ws ↦ if eqb (code c) b'.' then "" ∷ w ∷ ws else String.◌∷◌ c w ∷ ws
]

-- s in v, for a list or a dictionary
unfoldable pub name_in : String → Value → Bool
name_in s (list xs) = is_in (str s) (elems xs)
name_in s (dict b) = has b s
name_in s _ = false

abbrev pub listed_in : Option Value → String → Bool
listed_in none s = false
listed_in (some v) s = name_in s v

-- k in data.get('_removed_attr',[])
unfoldable pub is_removed : Fields → String → Bool
is_removed d k = listed_in (get d "_removed_attr") k

removed_on : Fields → List String → Bool
unfolding is_removed name_in get
removed_on d [] = false
removed_on d (p ∷ path) =
    if is_removed d p
    then true
    else (elim (get d p) [ some (dict below) ↦ removed_on below path | _ ↦ false ])

unfoldable pub removed_attributes : Fields → String → Bool
unfolding removed_on split_path
removed_attributes d path = removed_on d (split_path path)

unfoldable mutual
  pub null_in_value : Value → Value
  null_in_value null = str ""
  null_in_value (dict b) = dict (null_in_fields b)
  null_in_value v = v

  pub null_in_fields : Fields → Fields
  null_in_fields end = end
  null_in_fields (entry k v b) = entry k (null_in_value v) (null_in_fields b)

unfoldable pub null_to_string : Fields → Fields
unfolding null_in_value null_in_fields
null_to_string d = null_in_fields d

abbrev pub keep_entry : String → Option Value → Fields → Fields
keep_entry k none b = b
keep_entry k (some v) b = entry k v b

unfoldable mutual
  -- the value that stays, if any
  pub without_null : Value → Option Value
  without_null null = none
  without_null (dict b) = some (dict (without_nulls b))
  without_null v = some v

  pub without_nulls : Fields → Fields
  without_nulls end = end
  without_nulls (entry k v b) = keep_entry k (without_null v) (without_nulls b)

unfoldable pub remove_null_values : Fields → Fields
unfolding without_null without_nulls
remove_null_values d = without_nulls d

unfoldable mutual
  pub clean_value : List String → Value → Value
  clean_value a_list (dict b) = dict (clean_fields a_list b)
  clean_value a_list v = v

  pub clean_fields : List String → Fields → Fields
  clean_fields a_list end = end
  clean_fields a_list (entry k v b) =
      if contains k a_list
      then clean_fields a_list b
      else entry k (clean_value a_list v) (clean_fields a_list b)

unfoldable pub cleanup_internal_attributes : Fields → List String → Fields
unfolding clean_value clean_fields
cleanup_internal_attributes bx a_list = clean_fields a_list bx

abbrev pub map_fields : (String → Value → Option Value) → Fields → Fields
map_fields f end = end
map_fields f (entry k v b) = keep_entry k (f k v) (map_fields f b)

-- A Boolean attribute: `false` is removed, `true` becomes the default if there is one.
abbrev pub default_of : Value → Value → Option Value
default_of defvalue (bool false) = none
default_of null (bool true) = some (bool true)
default_of defvalue (bool true) = some defvalue
default_of defvalue v = some v

unfoldable mutual
  -- obj[attr] after the call, from the default value and the old one
  pub attr_defaults : Value → Value → Option Value
  attr_defaults (dict defaults) (dict old) =
      some (dict (map_fields (λ k v. key_defaults defaults k v) old))
  attr_defaults defvalue (dict old) = some (dict old)
  attr_defaults defvalue old = default_of defvalue old

  -- the recursive call for a key of the default dictionary
  pub key_defaults : Fields → String → Value → Option Value
  key_defaults end k v = some v
  key_defaults (entry j d defaults) k v =
      if j == k then attr_defaults d v else key_defaults defaults k v

unfoldable pub bool_to_defaults : Fields → String → Value → Fields
unfolding attr_defaults key_defaults get
bool_to_defaults obj attr defvalue = elim (get obj attr) [
  | none ↦ obj
  | some old ↦ elim (attr_defaults defvalue old) [
    | none ↦ pop obj attr
    | some new ↦ put obj attr new
  ]
]
