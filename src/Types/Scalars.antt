-- ===== src/Types/Scalars.antt =====
-- Tests of lists, dictionaries, texts, identifiers, numbers and Booleans. `int_of` is Python's int() on
-- a text, `none` where it raises an exception.
use Prim.Native.Char.{code}
use netlab.Prelude.{
  ℕ, suc, String, Bool, true, false, not, ◌&&◌, ◌||◌, Option, none, some, List, length, leb, ltb,
  eqb, ◌==◌, if◌then◌else◌,
}
use netlab.Data.{
  ℤ, pos, negsuc, Value, null, bool, int, str, list, dict, nil, cons, end, elems, items,
}
use netlab.Types.Framework.{Status, valid, replaced, wrong_type, wrong_value, TypeTest}

abbrev pub length_below : Option ℕ → ℕ → Bool
length_below none n = false
length_below (some m) n = ltb n m

abbrev pub length_above : Option ℕ → ℕ → Bool
length_above none n = false
length_above (some m) n = ltb m n

pub record ListOptions : Type 0 where
  pub make_list : Bool
  pub empty : Bool
  pub min_length : Option ℕ
  pub max_length : Option ℕ

abbrev pub needs_two : Option ℕ → Bool
needs_two none = false
needs_two (some m) = leb 2 m

-- value.rstrip().split("\n") is the argument `split_lines`, where the caller asks for it.
module _ (split_lines : Option (String → List Value)) where
  abbrev pub as_list_value : Value → Value
  as_list_value (str s) = elim split_lines [
    | none ↦ list (cons (str s) nil)
    | some f ↦ list (items (f s))
  ]
  as_list_value v = list (cons v nil)

  unfoldable pub list_status : ListOptions → Value → Status
  unfolding elems items
  list_status o (list xs) =
      if length_below o.min_length (length (elems xs))
      then wrong_value
      else if length_above o.max_length (length (elems xs))
      then wrong_value
      else if not o.empty && eqb (length (elems xs)) 0
      then wrong_value
      else valid
  list_status o null =
      if needs_two o.min_length
      then wrong_type
      else if o.make_list
      then replaced (as_list_value null)
      else wrong_type
  list_status o (dict b) =
      if needs_two o.min_length
      then wrong_type
      else if o.make_list
      then replaced (as_list_value (dict b))
      else wrong_type
  list_status o v = if needs_two o.min_length then wrong_type else replaced (as_list_value v)

  abbrev pub must_be_list : ListOptions → TypeTest
  must_be_list o = record {
    false_value = some (list nil);
    empty_value = some (list nil);
    test = list_status o;
  }

unfoldable pub dict_status : Value → Status
dict_status (dict b) = valid
dict_status v = wrong_type

abbrev pub must_be_dict : TypeTest
must_be_dict = record {
  false_value = some (dict end);
  empty_value = some (dict end);
  test = dict_status;
}

unfoldable pub string_status : Value → Status
string_status (str s) = valid
string_status v = wrong_type

abbrev pub must_be_string : TypeTest
must_be_string = record { false_value = none; empty_value = none; test = string_status }

abbrev pub is_letter : ℕ → Bool
is_letter c = (leb b'a' c && leb c b'z') || (leb b'A' c && leb c b'Z') || eqb c b'_'

abbrev pub is_inner : ℕ → Bool
is_inner c = is_letter c || (leb b'0' c && leb c b'9') || eqb c b'-'

unfoldable pub all_inner : String → Bool
all_inner String.[] = true
all_inner (String.◌∷◌ c s) = is_inner (code c) && all_inner s

unfoldable pub text_length : String → ℕ
text_length String.[] = 0
text_length (String.◌∷◌ c s) = suc (text_length s)

-- [a-zA-Z_][a-zA-Z0-9_-]{0,n-1}
unfoldable pub matches_id : ℕ → String → Bool
unfolding all_inner text_length
matches_id id_length String.[] = false
matches_id id_length (String.◌∷◌ c s) =
    is_letter (code c) && (all_inner s && ltb (text_length s) id_length)

unfoldable pub id_validator : ℕ → Value → Status
unfolding matches_id
id_validator id_length (str s) = if matches_id id_length s then valid else wrong_type
id_validator id_length v = wrong_type

abbrev pub must_be_id : ℕ → TypeTest
must_be_id max_length = record {
  false_value = none;
  empty_value = none;
  test = id_validator max_length;
}

-- a < b
abbrev pub is_less : ℤ → ℤ → Bool
is_less (pos m) (pos n) = ltb m n
is_less (pos m) (negsuc n) = false
is_less (negsuc m) (pos n) = true
is_less (negsuc m) (negsuc n) = ltb n m

abbrev pub out_of_range : Option ℤ → Option ℤ → ℤ → Bool
out_of_range none none v = false
out_of_range (some lo) none v = is_less v lo
out_of_range none (some hi) v = is_less hi v
out_of_range (some lo) (some hi) v = is_less v lo || is_less hi v

-- check_num_type of an integer type; the limits are numbers, names of constants being resolved.
unfoldable pub check_num_type : Option ℤ → Option ℤ → Value → Status
check_num_type min_value max_value (int v) =
    if out_of_range min_value max_value v then wrong_value else valid
check_num_type min_value max_value (bool b) = wrong_value
check_num_type min_value max_value v = wrong_type

module _ (int_of : String → Option ℤ) where
  -- A text that int() accepts is not checked against the limits.
  unfoldable pub int_status : Option ℤ → Option ℤ → Value → Status
  unfolding check_num_type
  int_status min_value max_value (str s) = elim (int_of s) [
    | none ↦ check_num_type min_value max_value (str s)
    | some n ↦ replaced (int n)
  ]
  int_status min_value max_value v = check_num_type min_value max_value v

  abbrev pub must_be_int : Option ℤ → Option ℤ → TypeTest
  must_be_int min_value max_value = record {
    false_value = none;
    empty_value = none;
    test = int_status min_value max_value;
  }

unfoldable pub bool_status : Value → Status
bool_status (bool b) = valid
bool_status (str s) =
    if s == "True" || s == "true"
    then replaced (bool true)
    else if s == "False" || s == "false"
    then replaced (bool false)
    else wrong_type
bool_status v = wrong_type

abbrev pub must_be_bool : TypeTest
must_be_bool = record { false_value = some (bool false); empty_value = none; test = bool_status }

unfoldable pub bool_false_status : Value → Status
bool_false_status (bool false) = valid
bool_false_status v = wrong_type

abbrev pub must_be_bool_false : TypeTest
must_be_bool_false = record {
  false_value = some (bool false);
  empty_value = none;
  test = bool_false_status;
}
