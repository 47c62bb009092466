-- ===== src/Types/Framework.antt =====
-- type_test, get_value_to_check, post_validation and check_valid_values. The key has no dots.
use netlab.Prelude.{
  String, Bool, true, false, not, ◌&&◌, Option, none, some, List, [], ◌∷◌, ◌++◌, any, keep, ◌||◌,
  if◌then◌else◌,
}
use netlab.Log.{report, incorrect_value, incorrect_type, Category, Reports}
use netlab.Data.{Value, null, bool, str, list, Fields, get, has, put, pop, is_in, elems}
use netlab.Data.Appending.{append_to_list}

-- err_stat: _valid, _valid with _transform, _type, or _value
pub data Status : Type 0 where
  valid : Status
  replaced : Value → Status
  wrong_type : Status
  wrong_value : Status

-- The keys _abort, and _silent or _raw_status, of the validation context.
pub record Context : Type 0 where
  pub abort : Bool
  pub silent : Bool

-- What a type test is declared with, and what its caller gives.
pub record TypeTest : Type 0 where
  pub false_value : Option Value
  pub empty_value : Option Value
  pub test : Value → Status

pub record Request : Type 0 where
  pub create_empty : Option Bool
  pub true_value : Option Value
  pub valid_values : List Value
  pub context : Context
  pub module_name : String

-- The parent object and the value that is returned, or an exception.
pub data Outcome : Type 0 where
  done : Fields → Value → Reports → Outcome
  raised : Reports → Outcome

-- The parent and the value, or an exception.
pub data Fetched : Type 0 where
  fetched : Fields → Value → Fetched
  missing : Fetched

abbrev pub default_true : Option Bool → Bool
default_true none = true
default_true (some b) = b

abbrev pub value_or_none : Option Value → Value
value_or_none none = null
value_or_none (some v) = v

abbrev with_removed : Option Fields → Fields → Fields
with_removed none b = b
with_removed (some c) b = c

-- bool-to-data-type conversions; the false value that there is none for removes the attribute
abbrev pub convert_bool : TypeTest → Request → String → Fields → Value → Fetched
convert_bool t r key parent (bool true) = elim r.true_value [
  | none ↦ fetched parent (bool true)
  | some v ↦ fetched (put parent key v) v
]
convert_bool t r key parent (bool false) = elim t.false_value [
  | none ↦
      fetched
        (with_removed (append_to_list (some (pop parent key)) "_removed_attr" (str key) false).0
          (pop parent key))
        null
  | some v ↦ fetched (put parent key v) v
]
convert_bool t r key parent v = fetched parent v

abbrev pub create_or_leave : TypeTest → Request → String → Fields → Option Value → Fetched
create_or_leave t r key parent none = fetched parent null
create_or_leave t r key parent (some e) =
    if default_true r.create_empty
    then convert_bool t r key (put parent key e) e
    else if r.context.abort
    then missing
    else fetched parent null

abbrev pub fetch : TypeTest → Request → String → Fields → Value → Fetched
fetch t r key parent null = create_or_leave t r key parent t.empty_value
fetch t r key parent v = convert_bool t r key parent v

unfoldable pub get_value_to_check : TypeTest → Request → String → Fields → Fetched
unfolding get put pop append_to_list
get_value_to_check t r key parent = fetch t r key parent (value_or_none (get parent key))

abbrev pub fails : Context → Category → String → Fields → Outcome
fails c category m parent =
    let errors = if c.silent then [] else report category m ∷ [] in
    if c.abort then raised errors else done parent null errors

abbrev category_of : Status → Category
category_of wrong_value = incorrect_value
category_of s = incorrect_type

-- The value and the parent after a test.
unfoldable pub post_validation : Request → String → Fields → Value → Status → Outcome
unfolding put
post_validation r key parent value valid = done parent value []
post_validation r key parent value (replaced v) = done (put parent key v) v []
post_validation r key parent value wrong_type = fails r.context incorrect_type r.module_name parent
post_validation r key parent value wrong_value =
    fails r.context incorrect_value r.module_name parent

abbrev is_text_value : Value → Bool
is_text_value (str s) = true
is_text_value v = false

-- ','.join(f) raises an exception where an element is no text, and so does the join of the valid values
-- for the error message.
abbrev pub unexpected : List Value → Value → List Value
unexpected expected (list xs) = keep (λ x. not (is_in x expected)) (elems xs)
unexpected expected v = if is_in v expected then [] else (v ∷ [])

abbrev is_list_value : Value → Bool
is_list_value (list xs) = true
is_list_value v = false

-- `none` is that exception.
abbrev pub rejects : Request → Value → List Value → Option Bool
rejects r v [] = some false
rejects r v (x ∷ xs) =
    if (is_list_value v && any (λ y. not (is_text_value y)) (x ∷ xs))
      || (not r.context.silent && any (λ y. not (is_text_value y)) r.valid_values)
    then none
    else some true

unfoldable pub check_valid_values : Request → Value → Option Bool
unfolding keep is_in elems any
check_valid_values r v = rejects r v (unexpected r.valid_values v)

-- The value stays where it is not one of the valid values, after the error.
abbrev pub with_valid_values : Request → Fields → Value → Reports → Option Bool → Outcome
with_valid_values r parent v errors none = raised errors
with_valid_values r parent v errors (some false) = done parent v errors
with_valid_values r parent v errors (some true) =
    let more = if r.context.silent then [] else report incorrect_value r.module_name ∷ [] in
    if r.context.abort then raised (errors ++ more) else done parent v (errors ++ more)

abbrev pub no_values : List Value → Bool
no_values [] = true
no_values (v ∷ vs) = false

abbrev pub is_valid : Status → Bool
is_valid valid = true
is_valid (replaced v) = true
is_valid s = false

abbrev pub check_values : Request → Status → Outcome → Outcome
check_values r s (raised errors) = raised errors
check_values r s (done parent v errors) =
    if not (no_values r.valid_values) && is_valid s
    then with_valid_values r parent v errors (check_valid_values r v)
    else done parent v errors

-- A key that is not in the parent after the conversions is not tested.
abbrev pub tested : TypeTest → Request → String → Fetched → Outcome
tested t r key missing = raised []
tested t r key (fetched parent v) =
    if not (has parent key)
    then done parent v []
    else check_values r (t.test v) (post_validation r key parent v (t.test v))

unfoldable pub execute_test : TypeTest → Request → String → Fields → Outcome
unfolding get_value_to_check post_validation check_valid_values has get
execute_test t r key parent = tested t r key (get_value_to_check t r key parent)
