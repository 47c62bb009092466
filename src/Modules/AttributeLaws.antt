-- ===== src/Modules/AttributeLaws.antt =====
-- What an object inherits, and what it does not
use netlab.Prelude.{
  String, ◌≡◌, refl, ◌∙◌, Bool, true, false, Option, none, some, List, [], ◌∷◌, ◌++◌, arith,
  if◌then◌else◌, ap, keep, ◌||◌, ◌&&◌, eq_iff,
}
use netlab.Prelude.Texts.{contains, contains-append}
use netlab.Data.{
  Value, null, bool, int, str, list, dict, Fields, get, pop, get-pop, truthy, has, keys,
  contains-keys,
}
use netlab.Data.Walks.{removed_attributes}
use netlab.Modules.Attributes.{
  pop_each, text_list, no_propagate_list, inherited, not_propagated,
  get_propagated_global_module_params, inherit, get_effective_module_attribute, Supplied,
  supplied_objects,
}

pub get-pop_each :
    (ks : List String) (b : Fields) (k : String)
    → get (pop_each ks b) k ≡ (if contains k ks then none else get b k)
unfolding pop_each contains
get-pop_each [] b k = refl
get-pop_each (j ∷ ks) b k = ground (arith, get-pop_each ks (pop b j) k, get-pop b j k)

pub contains-keep :
    (p : String → Bool) (k : String) (xs : List String)
    → contains k (keep p xs) ≡ (p k && contains k xs)
unfolding contains keep
contains-keep p k [] = ground arith
contains-keep p k (x ∷ xs) = ground (arith, contains-keep p k xs, eq_iff x k)

-- Which settings are withheld: the ten that never are propagated, those that the module lists under
-- `no_propagate`, and those whose names are keys of the module's defaults with 'no_propagate' in them.
abbrev pub withheld : (String → Bool) → Fields → String → Bool
withheld names_it mod_settings k =
    contains k (
      "attributes" ∷ "extra_attributes" ∷ "features" ∷ "hooks" ∷ "requires" ∷ "supported_on"
      ∷ "no_propagate" ∷ "config_after" ∷ "transform_after" ∷ "warnings" ∷ [])
    || (contains k (text_list (get mod_settings "no_propagate"))
        || (names_it k && has mod_settings k))

contains-not_propagated :
    (names_it : String → Bool) (mod_settings : Fields) (k : String)
    → contains k (not_propagated names_it mod_settings) ≡ withheld names_it mod_settings k
unfolding not_propagated
contains-not_propagated names_it mod_settings k =
    let listed = text_list (get mod_settings "no_propagate") in
    contains-append k no_propagate_list (listed ++ keep names_it (keys mod_settings))
    ∙ ap (λ b. contains k no_propagate_list || b)
        (contains-append k listed (keep names_it (keys mod_settings))
          ∙ ap (λ b. contains k listed || b)
              (contains-keep names_it k (keys mod_settings)
                ∙ ap (λ b. names_it k && b) (contains-keys mod_settings k)))

-- Of the settings of a module all are propagated, with their values, but the ten that never are, those
-- that the module's defaults list under `no_propagate`, and those whose names are keys of the defaults
-- with 'no_propagate' in them.
pub get-get_propagated_global_module_params :
    (names_it : String → Bool) (settings mod_settings : Fields) (k : String)
    → get (get_propagated_global_module_params names_it settings mod_settings) k
      ≡ (if withheld names_it mod_settings k then none else get settings k)
unfolding get_propagated_global_module_params
get-get_propagated_global_module_params names_it settings mod_settings k =
    get-pop_each (not_propagated names_it mod_settings) settings k
    ∙ ap (λ b. if b then none else get settings k) (contains-not_propagated names_it mod_settings k)

abbrev pub Falsy : Option Value → Type 0
Falsy none = Unit
Falsy (some v) = truthy v ≡ false

abbrev pub Scalar : Value → Type 0
Scalar (dict b) = ⊥
Scalar v = Unit

module _ (lookup : Fields → String → Option Value) where
  -- The objects neither have the attribute nor had it removed.
  abbrev pub Silent : String → List Fields → Type 0
  Silent path [] = Unit
  Silent path (o ∷ os) =
      (removed_attributes o path ≡ false) × (Falsy (lookup o path) × Silent path os)

  inherit_passes :
      (path : String) (merge_dict : Bool) (c : Option Fields) (o : Fields) (os : List Fields)
      → removed_attributes o path ≡ false
      → Falsy (lookup o path)
      → inherit lookup path merge_dict c (o ∷ os) ≡ inherit lookup path merge_dict c os
  unfolding inherit
  inherit_passes path merge_dict c o os kept h =
      rw kept (passes (λ c'. inherit lookup path merge_dict c' os) (lookup o path) h)
    where
      passes :
          (search : Option Fields → Option Value) (v : Option Value)
          → Falsy v
          → inherited lookup search merge_dict c v ≡ search c
      passes search none k = refl
      passes search (some (dict b)) k = rw k refl
      passes search (some null) k = refl
      passes search (some (bool b)) k = rw k refl
      passes search (some (int n)) k = rw k refl
      passes search (some (str s)) k = rw k refl
      passes search (some (list l)) k = rw k refl

  pub inherit-Silent :
      (path : String) (merge_dict : Bool) (os rest : List Fields)
      → Silent path os
      → inherit lookup path merge_dict none (os ++ rest) ≡ inherit lookup path merge_dict none rest
  inherit-Silent path merge_dict [] rest h = refl
  inherit-Silent path merge_dict (o ∷ os) rest h =
      inherit_passes path merge_dict none o (os ++ rest) h.0 h.1.0
      ∙ inherit-Silent path merge_dict os rest h.1.1

  -- Behind supplied objects that are silent about an attribute, an object from which it was removed ends the
  -- search with nothing, whatever stands further out.
  pub get_effective_module_attribute_removed :
      (path : String) (merge_dict : Bool) (supplied : Supplied) (inner outer : List Fields)
      (o : Fields)
      → supplied_objects supplied ≡ inner ++ (o ∷ outer)
      → Silent path inner
      → removed_attributes o path ≡ true
      → get_effective_module_attribute lookup path supplied merge_dict ≡ none
  unfolding get_effective_module_attribute inherit
  get_effective_module_attribute_removed path merge_dict supplied inner outer o split silent
        removed =
      ap (inherit lookup path merge_dict none) split
      ∙ inherit-Silent path merge_dict inner (o ∷ outer) silent
      ∙ rw removed refl

  -- Behind supplied objects that are silent about an attribute, the first one with a set value that is no
  -- dictionary decides, whatever stands further out.
  pub get_effective_module_attribute_nearest :
      (path : String) (merge_dict : Bool) (supplied : Supplied) (inner outer : List Fields)
      (o : Fields) (v : Value)
      → supplied_objects supplied ≡ inner ++ (o ∷ outer)
      → Silent path inner
      → removed_attributes o path ≡ false
      → lookup o path ≡ some v
      → Scalar v
      → truthy v ≡ true
      → get_effective_module_attribute lookup path supplied merge_dict ≡ some v
  unfolding get_effective_module_attribute inherit
  get_effective_module_attribute_nearest path merge_dict supplied inner outer o v split silent kept
        found scalar set =
      ap (inherit lookup path merge_dict none) split
      ∙ inherit-Silent path merge_dict inner (o ∷ outer) silent
      ∙ rw (kept, found) (taken (λ c'. inherit lookup path merge_dict c' outer) v scalar set)
    where
      taken :
          (search : Option Fields → Option Value) (v : Value)
          → Scalar v
          → truthy v ≡ true
          → inherited lookup search merge_dict none (some v) ≡ some v
      taken search null k t = absurd (cc t)
      taken search (dict b) k t = absurd k
      taken search (bool b) k t = rw t refl
      taken search (int n) k t = rw t refl
      taken search (str s) k t = rw t refl
      taken search (list l) k t = rw t refl
