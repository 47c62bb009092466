-- ===== src/Data/Appending.antt =====
-- get_a_list, append_to_list, is_true_int and find_in_list.
use netlab.Prelude.{
  ℕ, suc, Bool, true, false, Option, none, some, List, [], ◌∷◌, ◌++◌, String, if◌then◌else◌,
}
use mathlib.Core.Option
use netlab.Data.Box.{Value, int, list, dict, Fields, get, put, elems, items, is_in, value_eq}

-- `none` where the program ends: a dictionary cannot be made a list
unfoldable pub get_a_list : Value → Option (List Value)
unfolding elems
get_a_list (list xs) = some (elems xs)
get_a_list (dict b) = none
get_a_list x = some (x ∷ [])

unfoldable pub append_new : List Value → Value → List Value
unfolding is_in
append_new xs x = if is_in x xs then xs else xs ++ (x ∷ [])

unfoldable pub append_each : List Value → List Value → List Value
unfolding append_new
append_each xs [] = xs
append_each xs (y ∷ ys) = append_each (append_new xs y) ys

abbrev pub old_list : Option Value → List Value
old_list none = []
old_list (some (list xs)) = elems xs
old_list (some v) = v ∷ []

abbrev pub new_elements : Value → Bool → List Value
new_elements (list xs) true = elems xs
new_elements item _ = item ∷ []

-- The Box after the call, and the list that is returned.
unfoldable pub append_to_list : Option Fields → String → Value → Bool → Option Fields × List Value
unfolding append_each elems
append_to_list none list_name item flatten = (none, [])
append_to_list (some bx) list_name item flatten =
    let result = append_each (old_list (get bx list_name)) (new_elements item flatten) in
    (some (put bx list_name (list (items result))), result)

unfoldable pub is_true_int : Value → Bool
is_true_int (int n) = true
is_true_int v = false

-- target.index(v)
unfoldable pub index_of : Value → List Value → Option ℕ
unfolding value_eq
index_of v [] = none
index_of v (t ∷ ts) =
    let rest = index_of v ts in if value_eq t v then some 0 else Option.map suc rest

unfoldable pub find_in_list : List Value → List Value → Option ℕ
unfolding index_of
find_in_list [] target = none
find_in_list (v ∷ vs) target =
    let rest = find_in_list vs target in elim (index_of v target) [ some i ↦ some i | none ↦ rest ]
