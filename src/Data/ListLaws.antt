-- ===== src/Data/ListLaws.antt =====
-- Lists that are used as ordered sets: append_to_list and kw_list_transform.
use mathlib.Core.List.{append-nil, append_assoc}
use netlab.Prelude.{
  ◌≡◌, refl, sym, subst, ◌∙◌, ◌==◌, some_inj, Option, none, if◌then◌else◌, Bool, true, false, ◌||◌,
  some, List, [], ◌∷◌, ◌++◌, String, arith, ap, eq_iff, Bool-cases, inl, inr, any,
}
use netlab.Data.Box.{
  Value, null, bool, int, str, list, dict, Fields, get, put, items, elems, value_eq, is_in, get-put,
}
use netlab.Data.Appending.{append_new, append_each, append_to_list, old_list, new_elements}
use netlab.Data.Keywords.{kw_lookup, transform_from, kw_list_transform}

pub value_eq-str : (v : Value) (s : String) → value_eq v (str s) ≡ true → v ≡ str s
unfolding value_eq
value_eq-str (str t) s h = ground (arith, eq_iff t s)
value_eq-str null s h = cc
value_eq-str (bool b) s h = cc
value_eq-str (int n) s h = cc
value_eq-str (list xs) s h = cc
value_eq-str (dict b) s h = cc

pub is_in-append :
    (v : Value) (xs ys : List Value) → is_in v (xs ++ ys) ≡ (is_in v xs || is_in v ys)
unfolding is_in
is_in-append v [] ys = refl
is_in-append v (x ∷ xs) ys = ground (arith, is_in-append v xs ys)

pub is_in-append_new :
    (s : String) (xs : List Value) (x : Value)
    → is_in (str s) (append_new xs x) ≡ (is_in (str s) xs || value_eq x (str s))
unfolding append_new is_in
is_in-append_new s xs x = ground (arith, value_eq-str x s, is_in-append (str s) xs (x ∷ []))

pub is_in-append_each :
    (s : String) (xs ys : List Value)
    → is_in (str s) (append_each xs ys) ≡ (is_in (str s) xs || is_in (str s) ys)
unfolding append_each is_in
is_in-append_each s xs [] = ground arith
is_in-append_each s xs (y ∷ ys) =
    ground (arith, is_in-append_each s (append_new xs y) ys, is_in-append_new s xs y)

-- No element equals one that stands before it.
abbrev pub UniqueAfter : List Value → List Value → Type 0
UniqueAfter seen [] = Unit
UniqueAfter seen (x ∷ xs) = (is_in x seen ≡ false) × UniqueAfter (seen ++ x ∷ []) xs

abbrev pub IsUnique : List Value → Type 0
IsUnique = UniqueAfter []

pub UniqueAfter-append_one :
    (seen xs : List Value) (x : Value)
    → UniqueAfter seen xs
    → is_in x (seen ++ xs) ≡ false
    → UniqueAfter seen (xs ++ x ∷ [])
UniqueAfter-append_one seen [] x u h = (rw append-nil at h, tt)
UniqueAfter-append_one seen (y ∷ ys) x u h =
    (u.0, UniqueAfter-append_one (seen ++ y ∷ []) ys x u.1 (rw append_assoc h))

pub append_new-IsUnique : (xs : List Value) (x : Value) → IsUnique xs → IsUnique (append_new xs x)
unfolding append_new
append_new-IsUnique xs x u = elim (Bool-cases (is_in x xs)) [
  | inl old ↦ rw old u
  | inr new ↦ rw new (UniqueAfter-append_one [] xs x u new)
]

append_each-IsUnique : (xs ys : List Value) → IsUnique xs → IsUnique (append_each xs ys)
unfolding append_each
append_each-IsUnique xs [] u = u
append_each-IsUnique xs (y ∷ ys) u =
    append_each-IsUnique (append_new xs y) ys (append_new-IsUnique xs y u)

transform_from-IsUnique :
    (t : Fields) (xs : List Value) (kws : List String)
    → IsUnique xs
    → IsUnique (transform_from t xs kws)
unfolding transform_from
transform_from-IsUnique t xs [] u = u
transform_from-IsUnique t xs (kw ∷ kws) u =
    transform_from-IsUnique t (append_each xs (kw_lookup t kw)) kws
      (append_each-IsUnique xs (kw_lookup t kw) u)

is_in-transform_from :
    (s : String) (t : Fields) (xs : List Value) (kws : List String)
    → is_in (str s) (transform_from t xs kws)
      ≡ (is_in (str s) xs || any (λ kw. is_in (str s) (kw_lookup t kw)) kws)
unfolding transform_from any
is_in-transform_from s t xs [] = ground arith
is_in-transform_from s t xs (kw ∷ kws) = ground (
  arith,
  is_in-transform_from s t (append_each xs (kw_lookup t kw)) kws,
  is_in-append_each s xs (kw_lookup t kw),
)

-- The transformed list names each device keyword once, and it names a text exactly when some
-- netlab keyword of the list is translated to it.
pub kw_list_transform_set :
    (t : Fields) (kws : List String) (s : String)
    → IsUnique (kw_list_transform t kws)
      × (is_in (str s) (kw_list_transform t kws) ≡ any (λ kw. is_in (str s) (kw_lookup t kw)) kws)
unfolding kw_list_transform is_in
kw_list_transform_set t kws s =
    (transform_from-IsUnique t [] kws tt, is_in-transform_from s t [] kws)

append_each-extends : (xs ys : List Value) → (more : List Value) × (append_each xs ys ≡ xs ++ more)
unfolding append_each append_new
append_each-extends xs [] = ([], sym (append-nil xs))
append_each-extends xs (y ∷ ys) = elim (Bool-cases (is_in y xs)) [
  | inl old ↦ rw old (append_each-extends xs ys)
  | inr new ↦
      let (more, e) = append_each-extends (xs ++ (y ∷ [])) ys in
      rw new (y ∷ more, e ∙ append_assoc xs (y ∷ []) more)
]

-- What a Box holds under a name, as a list: a single value counts as a list of it.
abbrev pub held_values : Option Value → List Value
held_values none = []
held_values (some (list xs)) = elems xs
held_values (some v) = v ∷ []

-- What is to be added: an item, or, where lists are flattened, the elements of a list.
abbrev pub added_values : Value → Bool → List Value
added_values (list xs) true = elems xs
added_values (list xs) false = list xs ∷ []
added_values v flatten = v ∷ []

old_list-held : (o : Option Value) → old_list o ≡ held_values o
old_list-held none = refl
old_list-held (some null) = refl
old_list-held (some (bool b)) = refl
old_list-held (some (int n)) = refl
old_list-held (some (str s)) = refl
old_list-held (some (list xs)) = refl
old_list-held (some (dict b)) = refl

new_elements-added : (v : Value) (flatten : Bool) → new_elements v flatten ≡ added_values v flatten
new_elements-added null flatten = refl
new_elements-added (bool b) flatten = refl
new_elements-added (int n) flatten = refl
new_elements-added (str s) flatten = refl
new_elements-added (list xs) true = refl
new_elements-added (list xs) false = refl
new_elements-added (dict b) flatten = refl

-- Where a Box holds no value twice under a name, append_to_list leaves a list there, the one that it
-- returns, and every other key as it was. The list has no value twice, begins with what was held, and
-- has a text exactly when it was held or is one of the values that were to be added.
pub append_to_list_set :
    (bx result : Fields) (name key : String) (item : Value) (flatten : Bool) (out : List Value)
    (s : String)
    → IsUnique (held_values (get bx name))
    → append_to_list (some bx) name item flatten ≡ (some result, out)
    → (get result key ≡ (if name == key then some (list (items out)) else get bx key))
      × IsUnique out
      × ((more : List Value) × (out ≡ held_values (get bx name) ++ more))
      × (is_in (str s) out ≡ (
          is_in (str s) (held_values (get bx name)) || is_in (str s) (added_values item flatten)))
unfolding append_to_list
append_to_list_set bx result name key item flatten out s unique h =
    let held = held_values (get bx name) in
    let added = added_values item flatten in
    let list_out : append_each held added ≡ out =
      ap (λ xs. append_each xs added) (sym (old_list-held (get bx name)))
      ∙ ap (λ ys. append_each (old_list (get bx name)) ys) (sym (new_elements-added item flatten))
      ∙ ap (λ (r : Option Fields × List Value). r.1) h in
    let stored : put bx name
          (list (items (append_each (old_list (get bx name)) (new_elements item flatten))))
        ≡ result =
      some_inj (ap (λ (r : Option Fields × List Value). r.0) h) in
    let (more, longer) = append_each-extends held added in
    (
      ap (λ b. get b key) (sym stored)
          ∙ get-put bx name key
              (list (items (append_each (old_list (get bx name)) (new_elements item flatten))))
          ∙ ap (λ xs. if name == key then some (list (items xs)) else get bx key)
              (ap (λ (r : Option Fields × List Value). r.1) h),
      subst IsUnique list_out (append_each-IsUnique held added unique),
      (more, sym list_out ∙ longer),
      ap (is_in (str s)) (sym list_out) ∙ is_in-append_each s held added,
    )
