-- ===== src/Examples/TypesRuns.antt =====
-- Attributes of a node that are tested: a list, an identifier and an AS number
use netlab.Prelude.{
  ℕ, ◌/◌, ◌%◌, ◌≡◌, ◌↔◌, refl, String, true, false, List, [], ◌∷◌, Option, none, some, arith, ◌==◌,
  if◌then◌else◌,
}
use netlab.Data.{
  ℤ, pos, Value, int, str, list, cons, nil, Fields, end, entry, get, has, put, is_in, elems,
  value_eq,
}
use netlab.Data.Walks.{split_path}
use netlab.Types.Framework.{replaced, valid, Request, done, execute_test}
use netlab.Types.FrameworkLaws.{Accepted}
use netlab.Types.Scalars.{ListOptions, must_be_int, list_status, int_status}
use netlab.Types.ScalarLaws.{IsList, must_be_list_accepts, ◌≤ℤ◌, must_be_int_bounds}
use netlab.Types.Numbers.{asn_status}
use netlab.Types.NumberLaws.{asdot_round_trip}

abbrev plain_list : ListOptions
plain_list = record { make_list = false; empty = true; min_length = none; max_length = none }

abbrev asked : List Value → Request
asked vs = record {
  create_empty = none;
  true_value = none;
  valid_values = vs;
  context = record { abort = false; silent = false };
  module_name = "nodes";
}

abbrev node_data : Fields
node_data = entry "module" (str "bgp") (entry "id" (int (pos 5)) (entry "as" (str "500") end))

abbrev listed_data : Fields
listed_data =
    entry "module" (list (cons (str "bgp") nil))
      (entry "id" (int (pos 5)) (entry "as" (str "500") end))

must_be_list_example :
    Accepted IsList
      (asked (str "bgp" ∷ str "ospf" ∷ []))
      "module"
      listed_data
      (list (cons (str "bgp") nil))
unfolding execute_test list_status get put has is_in elems value_eq
must_be_list_example =
    must_be_list_accepts none plain_list (asked (str "bgp" ∷ str "ospf" ∷ [])) "module" node_data
      listed_data (list (cons (str "bgp") nil)) refl refl

abbrev number_in : String → Option ℤ
number_in s = if s == "500" then some (pos 500) else if s == "1" then some (pos 1) else none

int_bounds_example :
    (execute_test (must_be_int number_in (some (pos 1)) (some (pos 150))) (asked []) "id" node_data
      ≡ done node_data (int (pos 5)) [])
    ↔ ((pos 1 ≤ℤ pos 5) × (pos 5 ≤ℤ pos 150))
unfolding get
int_bounds_example =
    must_be_int_bounds number_in (pos 1) (pos 150) (pos 5) (asked []) "id" node_data refl refl

-- The integer 500 is not within the limits, but the text '500' is taken.
text_taken :
    execute_test (must_be_int number_in (some (pos 1)) (some (pos 150))) (asked []) "as" node_data
    ≡ done (put node_data "as" (int (pos 500))) (int (pos 500)) []
unfolding execute_test int_status get put has
text_taken = refl

asdot_example :
    (n : ℕ) × ((asn_status number_in (str "1.500") ≡ replaced (int (pos n)))
      × ((n / 65536 ≡ 1) × ((n % 65536 ≡ 500) × (asn_status number_in (int (pos n)) ≡ valid))))
unfolding split_path
asdot_example =
    asdot_round_trip number_in "1.500" "1" "500" 1 500 refl refl refl (omega arith) (omega arith)
      (omega arith)
