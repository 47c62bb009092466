-- ===== src/Types/ScalarLaws.antt =====
-- Lists and integers: what their tests accept
use netlab.Prelude.{
  ℕ, ◌+◌, ◌≤◌, String, ◌≡◌, refl, sym, ap, subst, ◌∙◌, ◌↔◌, inl, inr, Bool, true, false, not, ◌&&◌,
  ◌||◌, Option, none, some, List, [], arith, if◌then◌else◌, Bool-cases, or_left, or_right, length,
  eqb,
}
use netlab.Log.{incorrect_value}
use netlab.Data.{ℤ, pos, negsuc, Value, null, bool, int, str, list, dict, Fields, get, elems}
use netlab.Types.Framework.{
  Status, valid, replaced, wrong_type, wrong_value, Context, Request, Outcome, fetched, done,
  raised, execute_test, get_value_to_check, post_validation, check_values, tested, fetch,
  value_or_none, no_values, fails, TypeTest,
}
use netlab.Types.FrameworkLaws.{Guards, Accepted, execute_test_accepts, has_of_get}
use netlab.Types.Scalars.{
  ListOptions, as_list_value, list_status, must_be_list, length_below, length_above, needs_two,
  is_less, out_of_range, check_num_type, int_status, must_be_int,
}

abbrev pub IsList : Value → Type 0
IsList (list l) = Unit
IsList v = ⊥

as_list_value-IsList :
    (split_lines : Option (String → List Value)) (v : Value) → IsList (as_list_value split_lines v)
as_list_value-IsList none (str s) = tt
as_list_value-IsList (some f) (str s) = tt
as_list_value-IsList o null = tt
as_list_value-IsList o (bool b) = tt
as_list_value-IsList o (int n) = tt
as_list_value-IsList o (list l) = tt
as_list_value-IsList o (dict b) = tt

-- A status whose replacement, if any, is a list.
abbrev GivesList : Status → Type 0
GivesList (replaced w) = IsList w
GivesList s = Unit

if-GivesList :
    (c : Bool) (s u : Status) → GivesList s → GivesList u → GivesList (if c then s else u)
if-GivesList true s u hs hu = hs
if-GivesList false s u hs hu = hu

module _ (split_lines : Option (String → List Value)) (o : ListOptions) where
  list_status-valid : (v : Value) → list_status split_lines o v ≡ valid → IsList v
  unfolding list_status
  list_status-valid (list l) h = tt
  list_status-valid null h = absurd (ground arith)
  list_status-valid (dict b) h = absurd (ground arith)
  list_status-valid (bool b) h = absurd (ground arith)
  list_status-valid (int n) h = absurd (ground arith)
  list_status-valid (str s) h = absurd (ground arith)

  scalar :
      (v : Value)
      → GivesList
          (if needs_two o.min_length then wrong_type else replaced (as_list_value split_lines v))
  scalar v =
      if-GivesList (needs_two o.min_length) wrong_type (replaced (as_list_value split_lines v)) tt
        (as_list_value-IsList split_lines v)

  list_status-GivesList : (v : Value) → GivesList (list_status split_lines o v)
  unfolding list_status
  list_status-GivesList (list l) =
      elim (Bool-cases (length_below o.min_length (length (elems l)))) [
        | inl c ↦ rw c tt
        | inr c ↦ rw c (elim (Bool-cases (length_above o.max_length (length (elems l)))) [
          | inl d ↦ rw d tt
          | inr d ↦
              rw d (if-GivesList (not o.empty && eqb (length (elems l)) 0) wrong_value valid tt tt)
        ])
      ]
  list_status-GivesList null =
      if-GivesList (needs_two o.min_length) wrong_type
        (if o.make_list then replaced (as_list_value split_lines null) else wrong_type) tt
        (if-GivesList o.make_list (replaced (as_list_value split_lines null)) wrong_type
          (as_list_value-IsList split_lines null) tt)
  list_status-GivesList (dict b) =
      if-GivesList (needs_two o.min_length) wrong_type
        (if o.make_list then replaced (as_list_value split_lines (dict b)) else wrong_type) tt
        (if-GivesList o.make_list (replaced (as_list_value split_lines (dict b))) wrong_type
          (as_list_value-IsList split_lines (dict b)) tt)
  list_status-GivesList (bool b) = scalar (bool b)
  list_status-GivesList (int n) = scalar (int n)
  list_status-GivesList (str s) = scalar (str s)

  all_guarded : Guards IsList (must_be_list split_lines o)
  all_guarded = record {
    on_valid = list_status-valid;
    on_replaced = λ v w h. subst GivesList h (list_status-GivesList v);
  }

  -- Where must_be_list reports nothing, and is asked to report, it returns None, or a list that it
  -- leaves in the parent and whose elements are among the valid values if there are any.
  pub must_be_list_accepts :
      (r : Request) (key : String) (parent p : Fields) (v : Value)
      → r.context.silent ≡ false
      → execute_test (must_be_list split_lines o) r key parent ≡ done p v []
      → Accepted IsList r key p v
  must_be_list_accepts r key parent p v loud h =
      execute_test_accepts IsList (must_be_list split_lines o) r key parent p v all_guarded loud h

abbrev pos_part : ℤ → ℕ
pos_part (pos n) = n
pos_part (negsuc n) = 0

abbrev neg_part : ℤ → ℕ
neg_part (pos n) = 0
neg_part (negsuc n) = n + 1

infix 50 ◌≤ℤ◌
abbrev pub ◌≤ℤ◌ : ℤ → ℤ → Type 0
a ≤ℤ b = pos_part a + neg_part b ≤ pos_part b + neg_part a

is_less-le : (a b : ℤ) → (is_less a b ≡ false) ↔ (b ≤ℤ a)
is_less-le (pos m) (pos n) = (λ h. ground arith, λ h. ground arith)
is_less-le (pos m) (negsuc n) = (λ h. omega arith, λ h. refl)
is_less-le (negsuc m) (pos n) = (λ h. absurd (cc h), λ h. absurd (omega arith))
is_less-le (negsuc m) (negsuc n) = (λ h. ground arith, λ h. ground arith)

-- With no list of valid values the outcome is that of the test.
unconstrained :
    (r : Request) (s : Status) (o : Outcome)
    → no_values r.valid_values ≡ true
    → check_values r s o ≡ o
unconstrained r s (raised errors) h = refl
unconstrained r s (done p v errors) h = rw h refl

present :
    (t : TypeTest) (r : Request) (key : String) (parent : Fields) (v w : Value)
    → get parent key ≡ some w
    → no_values r.valid_values ≡ true
    → tested t r key (fetched parent v) ≡ post_validation r key parent v (t.test v)
present t r key parent v w here any_value =
    rw (has_of_get parent key w here)
      (unconstrained r (t.test v) (post_validation r key parent v (t.test v)) any_value)

-- The test of a stored integer, as far as the limits go.
int_outcome :
    (int_of : String → Option ℤ) (lo hi : Option ℤ) (r : Request) (key : String) (parent : Fields)
    (v : ℤ)
    → get parent key ≡ some (int v)
    → no_values r.valid_values ≡ true
    → execute_test (must_be_int int_of lo hi) r key parent ≡ (
        if out_of_range lo hi v
        then fails r.context incorrect_value r.module_name parent
        else done parent (int v) [])
unfolding execute_test get_value_to_check int_status check_num_type post_validation
int_outcome int_of lo hi r key parent v here any_value =
    ap
      (λ o.
        tested (must_be_int int_of lo hi) r key
          (fetch (must_be_int int_of lo hi) r key parent (value_or_none o)))
      here
    ∙ present (must_be_int int_of lo hi) r key parent (int v) (int v) here any_value
    ∙ branch (out_of_range lo hi v)
  where
    branch :
        (c : Bool)
        → post_validation r key parent (int v) (if c then wrong_value else valid) ≡ (
            if c
            then fails r.context incorrect_value r.module_name parent
            else done parent (int v) [])
    branch true = refl
    branch false = refl

failed-ne-done :
    (c : Context) (m : String) (parent : Fields) (v : ℤ)
    → fails c incorrect_value m parent ≡ done parent (int v) []
    → ⊥
failed-ne-done c m parent v h = elim (Bool-cases c.abort) [
  | inl a ↦ absurd (cc (rw a at h))
  | inr a ↦ absurd (cc (rw a at h))
]

accepted_in_range :
    (c : Bool) (x : Context) (m : String) (parent : Fields) (v : ℤ)
    → (if c then fails x incorrect_value m parent else done parent (int v) [])
      ≡ done parent (int v) []
    → c ≡ false
accepted_in_range true x m parent v h = absurd (failed-ne-done x m parent v h)
accepted_in_range false x m parent v h = refl

-- must_be_int takes a stored integer as it is, and without a report, exactly when it is within the
-- limits.
pub must_be_int_bounds :
    (int_of : String → Option ℤ) (lo hi v : ℤ) (r : Request) (key : String) (parent : Fields)
    → get parent key ≡ some (int v)
    → no_values r.valid_values ≡ true
    → (execute_test (must_be_int int_of (some lo) (some hi)) r key parent ≡ done parent (int v) [])
      ↔ ((lo ≤ℤ v) × (v ≤ℤ hi))
must_be_int_bounds int_of lo hi v r key parent here any_value = (
  (λ accepted.
      let within =
        accepted_in_range (out_of_range (some lo) (some hi) v) r.context r.module_name parent v
          (sym outcome ∙ accepted) in
      (
        (is_less-le v lo).0 (or_left (is_less v lo) (is_less hi v) within),
        (is_less-le hi v).0 (or_right (is_less v lo) (is_less hi v) within),
      )),
  (λ within. outcome ∙ rw ((is_less-le v lo).1 within.0, (is_less-le hi v).1 within.1) refl),
)
  where
    outcome : execute_test (must_be_int int_of (some lo) (some hi)) r key parent ≡ (
        if is_less v lo || is_less hi v
        then fails r.context incorrect_value r.module_name parent
        else done parent (int v) [])
    outcome = int_outcome int_of (some lo) (some hi) r key parent v here any_value
