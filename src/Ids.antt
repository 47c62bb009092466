-- ===== src/Ids.antt =====
-- netsim/modules/_dataplane.py: the shared sets of identifiers, static or auto-assigned. The global
-- Box that holds them (global_vars) is the state `Vars`, passed from call to call.
pub mod Counter
pub mod Drawing
use netlab.Prelude.{
  ℕ, zero, suc, ◌+◌, ◌-◌, String, Bool, true, false, Option, none, some, List, [], ◌∷◌, ◌==◌, ltb,
  if◌then◌else◌,
}
use netlab.Data.{Value, ℤ, pos, int, str, dict, Fields, get, values, is_in}
use netlab.Data.Appending.{append_new, append_each}

-- The Box `<name>_id` of the global variables. A field is missing until it is first set.
pub record IdVar : Type 0 where
  pub value : Option (List Value)
  pub next : Option ℕ
  pub max : Option ℕ

abbrev pub Vars : Type 0
Vars = String → IdVar

abbrev pub unset : IdVar
unset = record { value = none; next = none; max = none }

abbrev pub update : Vars → String → IdVar → Vars
update vars name v j = if name == j then v else vars j

abbrev usable : Value → Option Value
usable (int n) = some (int n)
usable (str s) = some (str s)
usable v = none

-- The condition of the comprehension: a dictionary with an int or a text under the attribute.
abbrev pub static_id : String → Value → Option Value
static_id attr (dict b) = elim (get b attr) [ none ↦ none | some v ↦ usable v ]
static_id attr v = none

collect : String → List Value → List Value → List Value
collect attr found [] = found
collect attr found (v ∷ vs) =
    collect attr (elim (static_id attr v) [ none ↦ found | some x ↦ append_new found x ]) vs

-- `none` where log.fatal ends the program
unfoldable pub build_id_set : Fields → String → String → Option (List Value)
unfolding collect get values append_new
build_id_set obj dsname attr = elim (get obj dsname) [
  | none ↦ some []
  | some (dict ds) ↦ some (collect attr [] (values ds))
  | some other ↦ none
]

abbrev pub ids_of : Option (List Value) → List Value
ids_of none = []
ids_of (some xs) = xs

unfoldable pub get_id_set : String → Vars → List Value × Vars
get_id_set name vars =
    let xs = ids_of (vars name).value in
    (xs, update vars name (record (vars name) { value = some xs }))

unfoldable pub create_id_set : String → Vars → List Value × Vars
create_id_set name vars = ([], update vars name (record (vars name) { value = some [] }))

unfoldable pub extend_id_set : String → List Value → Vars → List Value × Vars
unfolding get_id_set append_each
extend_id_set name add_set vars =
    let xs = append_each (get_id_set name vars).0 add_set in
    let vars' = (get_id_set name vars).1 in
    (xs, update vars' name (record (vars' name) { value = some xs }))

-- The set extended by what build_id_set found, or its fatal error.
abbrev pub extended : String → Option (List Value) → Vars → Option Vars
extended name none vars = none
extended name (some ids) vars = some (extend_id_set name ids vars).1

unfoldable pub is_id_used : String → Value → Vars → Bool × Vars
unfolding get_id_set is_in
is_id_used name v vars = (is_in v (get_id_set name vars).0, (get_id_set name vars).1)

-- An empty set is falsy too, and is made anew.
unfoldable pub set_id_counter : String → ℕ → ℕ → Vars → ℕ × Vars
set_id_counter name start max_value vars = (
  start,
  update vars name
      (record { value = some (ids_of (vars name).value); next = some start; max = some max_value }),
)

-- The `while True` loop on the set, the next value and the maximum: the identifier it returns.
-- A round goes on only while the value is used and its successor is not above the maximum.
pub search_from : ℕ → List Value → ℕ → ℕ → Option ℕ
unfolding is_in
search_from zero used next max_value = none
search_from (suc fuel) used next max_value =
    let rest = search_from fuel used (next + 1) max_value in
    elim (is_in (int (pos next)) used) [
      | false ↦ some next
      | true ↦ if ltb max_value (next + 1) then none else rest
    ]

-- The identifier that was found is added to the set, and the counter stays on it.
abbrev pub drawn : String → Vars → List Value → ℕ → Option ℕ → Option (ℕ × Vars)
drawn name vars used max_value none = none
drawn name vars used max_value (some i) = some (
  i,
  update vars name (record {
    value = some (append_new used (int (pos i)));
    next = some i;
    max = some max_value;
  }),
)

next_from : String → Vars → Option ℕ → Option (List Value) → Option ℕ → Option (ℕ × Vars)
unfolding search_from append_new
next_from name vars (some start) (some used) (some max_value) =
    drawn name vars used max_value (search_from (suc (max_value - start)) used start max_value)
next_from name vars _ _ _ = none

-- `none` where the program ends: no counter, no set, or no identifier left (FatalError)
unfoldable pub get_next_id : String → Vars → Option (ℕ × Vars)
unfolding next_from
get_next_id name vars = next_from name vars (vars name).next (vars name).value (vars name).max

-- nodes.py reserve_id
unfoldable pub reserve_id : ℕ → Vars → Bool × Vars
unfolding is_id_used extend_id_set
reserve_id n_id vars =
    let r = is_id_used "node_id" (int (pos n_id)) vars in
    if r.0 then (false, r.1) else (true, (extend_id_set "node_id" (int (pos n_id) ∷ []) r.1).1)
