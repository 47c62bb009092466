-- ===== src/Types/FrameworkLaws.antt =====
-- What a type test leaves in the parent object
use netlab.Prelude.{
  String, ◌≡◌, refl, ◌∙◌, subst, ◌⊎◌, inl, inr, Bool, true, false, not, ◌&&◌, Option, none, some,
  List, [], ◌∷◌, arith, eq_refl, if◌then◌else◌, Bool-cases, Option-cases,
}
use netlab.Log.{Reports, Category, incorrect_value, incorrect_type}
use netlab.Data.{Value, null, bool, int, str, list, dict, Fields, get, has, put, get-put}
use netlab.Types.Framework.{
  Status, valid, replaced, wrong_type, wrong_value, TypeTest, Request, Outcome, done, raised,
  Fetched, fetched, default_true, missing, value_or_none, convert_bool, create_or_leave, fetch,
  get_value_to_check, fails, post_validation, unexpected, rejects, check_valid_values,
  with_valid_values, check_values, tested, execute_test, no_values, is_valid,
}

-- Every value that the test accepts, or puts in place of one, is of the type.
pub record Guards {ℓ} (P : Value → Type ℓ) (t : TypeTest) : Type ℓ where
  pub on_valid : (v : Value) → t.test v ≡ valid → P v
  pub on_replaced : (v w : Value) → t.test v ≡ replaced w → P w

-- The value comes from the parent, if the parent has the key.
abbrev FromParent : String → Fetched → Type 0
FromParent key missing = Unit
FromParent key (fetched p v) = (v ≡ null) ⊎ (get p key ≡ some v)

put_there : (p : Fields) (key : String) (v : Value) → get (put p key v) key ≡ some v
put_there p key v = get-put p key key v ∙ rw (eq_refl key) refl

convert_bool-FromParent :
    (t : TypeTest) (r : Request) (key : String) (p : Fields) (v : Value)
    → get p key ≡ some v
    → FromParent key (convert_bool t r key p v)
convert_bool-FromParent t r key p (bool true) h = elim (Option-cases r.true_value) [
  | inl e ↦ rw e (inr h)
  | inr (w, e) ↦ rw e (inr (put_there p key w))
]
convert_bool-FromParent t r key p (bool false) h = elim (Option-cases t.false_value) [
  | inl e ↦ rw e (inl refl)
  | inr (w, e) ↦ rw e (inr (put_there p key w))
]
convert_bool-FromParent t r key p null h = inl refl
convert_bool-FromParent t r key p (int n) h = inr h
convert_bool-FromParent t r key p (str s) h = inr h
convert_bool-FromParent t r key p (list l) h = inr h
convert_bool-FromParent t r key p (dict b) h = inr h

create_or_leave-FromParent :
    (t : TypeTest) (r : Request) (key : String) (p : Fields) (o : Option Value)
    → FromParent key (create_or_leave t r key p o)
create_or_leave-FromParent t r key p none = inl refl
create_or_leave-FromParent t r key p (some e) = elim (Bool-cases (default_true r.create_empty)) [
  | inl c ↦ rw c (convert_bool-FromParent t r key (put p key e) e (put_there p key e))
  | inr c ↦ rw c (elim (Bool-cases r.context.abort) [ inl a ↦ rw a tt | inr a ↦ rw a (inl refl) ])
]

fetch-FromParent :
    (t : TypeTest) (r : Request) (key : String) (p : Fields) (o : Option Value)
    → get p key ≡ o
    → FromParent key (fetch t r key p (value_or_none o))
fetch-FromParent t r key p none h = create_or_leave-FromParent t r key p t.empty_value
fetch-FromParent t r key p (some null) h = create_or_leave-FromParent t r key p t.empty_value
fetch-FromParent t r key p (some (bool b)) h = convert_bool-FromParent t r key p (bool b) h
fetch-FromParent t r key p (some (int n)) h = convert_bool-FromParent t r key p (int n) h
fetch-FromParent t r key p (some (str s)) h = convert_bool-FromParent t r key p (str s) h
fetch-FromParent t r key p (some (list l)) h = convert_bool-FromParent t r key p (list l) h
fetch-FromParent t r key p (some (dict b)) h = convert_bool-FromParent t r key p (dict b) h

-- The value that a test returns is None, or it is the parent's, of the type, and one of the valid
-- values if there are any.
abbrev pub Among : Request → Value → Type 0
Among r v = (no_values r.valid_values ≡ true) ⊎ (unexpected r.valid_values v ≡ [])

abbrev pub Accepted : (Value → Type 0) → Request → String → Fields → Value → Type 0
Accepted P r key p v = (v ≡ null) ⊎ ((get p key ≡ some v) × (P v × Among r v))

abbrev Ensures : (Value → Type 0) → Request → String → Outcome → Type 0
Ensures P r key (raised errors) = Unit
Ensures P r key (done p v errors) = errors ≡ [] → Accepted P r key p v

rejects-nothing :
    (r : Request) (v : Value) (xs : List Value) → rejects r v xs ≡ some false → xs ≡ []
rejects-nothing r v [] h = refl
rejects-nothing r v (x ∷ xs) h = absurd (ground arith)

with_valid_values-Ensures :
    (P : Value → Type 0) (r : Request) (key : String) (p : Fields) (v : Value) (o : Option Bool)
    → r.context.silent ≡ false
    → check_valid_values r v ≡ o
    → get p key ≡ some v
    → P v
    → Ensures P r key (with_valid_values r p v [] o)
unfolding check_valid_values
with_valid_values-Ensures P r key p v none loud e stored typed = tt
with_valid_values-Ensures P r key p v (some false) loud e stored typed =
    λ h. inr (stored, (typed, inr (rejects-nothing r v (unexpected r.valid_values v) e)))
with_valid_values-Ensures P r key p v (some true) loud e stored typed =
    rw loud
      (elim (Bool-cases r.context.abort) [ inl a ↦ rw a tt | inr a ↦ rw a (λ h. absurd (cc h)) ])

accepted-Ensures :
    (P : Value → Type 0) (r : Request) (key : String) (p : Fields) (v : Value)
    → r.context.silent ≡ false
    → get p key ≡ some v
    → P v
    → Ensures P r key (
        if not (no_values r.valid_values) && true
        then with_valid_values r p v [] (check_valid_values r v)
        else done p v [])
accepted-Ensures P r key p v loud stored typed = elim (Bool-cases (no_values r.valid_values)) [
  | inl e ↦ rw e (λ h. inr (stored, (typed, inl e)))
  | inr e ↦
      rw e (with_valid_values-Ensures P r key p v (check_valid_values r v) loud refl stored typed)
]

failed-Ensures :
    (P : Value → Type 0) (r : Request) (key : String) (p : Fields) (c : Category) (s : Status)
    → is_valid s ≡ false
    → Ensures P r key (check_values r s (fails r.context c r.module_name p))
failed-Ensures P r key p c s h = elim (Bool-cases r.context.abort) [
  | inl a ↦ rw a tt
  | inr a ↦
      rw (a, h)
        (elim (Bool-cases (no_values r.valid_values)) [
          | inl e ↦ rw e (λ k. inl refl)
          | inr e ↦ rw e (λ k. inl refl)
        ])
]

null_values-Ensures :
    (P : Value → Type 0) (r : Request) (key : String) (p : Fields) (v : Value) (errors : Reports)
    (o : Option Bool)
    → v ≡ null
    → Ensures P r key (with_valid_values r p v errors o)
null_values-Ensures P r key p v errors none h = tt
null_values-Ensures P r key p v errors (some false) h = λ k. inl h
null_values-Ensures P r key p v errors (some true) h = elim (Bool-cases r.context.abort) [
  | inl a ↦ rw a tt
  | inr a ↦ rw a (λ k. inl h)
]

null-Ensures :
    (P : Value → Type 0) (r : Request) (key : String) (p : Fields) (v : Value)
    → v ≡ null
    → Ensures P r key (check_values r valid (done p v []))
null-Ensures P r key p v h = elim (Bool-cases (no_values r.valid_values)) [
  | inl e ↦ rw e (λ k. inl h)
  | inr e ↦ rw e (null_values-Ensures P r key p v [] (check_valid_values r v) h)
]

checked-Ensures :
    (P : Value → Type 0) (t : TypeTest) (r : Request) (key : String) (p : Fields) (v : Value)
    (s : Status)
    → Guards P t
    → r.context.silent ≡ false
    → t.test v ≡ s
    → FromParent key (fetched p v)
    → Ensures P r key (check_values r s (post_validation r key p v s))
unfolding post_validation
checked-Ensures P t r key p v valid g loud e (inl nothing) = null-Ensures P r key p v nothing
checked-Ensures P t r key p v valid g loud e (inr stored) =
    accepted-Ensures P r key p v loud stored (g.on_valid v e)
checked-Ensures P t r key p v (replaced w) g loud e from =
    accepted-Ensures P r key (put p key w) w loud (put_there p key w) (g.on_replaced v w e)
checked-Ensures P t r key p v wrong_type g loud e from =
    failed-Ensures P r key p incorrect_type wrong_type refl
checked-Ensures P t r key p v wrong_value g loud e from =
    failed-Ensures P r key p incorrect_value wrong_value refl

pub has_of_get : (p : Fields) (key : String) (v : Value) → get p key ≡ some v → has p key ≡ true
unfolding has
has_of_get p key v h = rw h refl

absent-Accepted :
    (P : Value → Type 0) (r : Request) (key : String) (p : Fields) (v : Value)
    → has p key ≡ false
    → FromParent key (fetched p v)
    → Accepted P r key p v
unfolding has
absent-Accepted P r key p v h (inl nothing) = inl nothing
absent-Accepted P r key p v h (inr stored) = absurd (cc (rw stored at h))

tested-Ensures :
    (P : Value → Type 0) (t : TypeTest) (r : Request) (key : String) (f : Fetched)
    → Guards P t
    → r.context.silent ≡ false
    → FromParent key f
    → Ensures P r key (tested t r key f)
tested-Ensures P t r key missing g loud from = tt
tested-Ensures P t r key (fetched p v) g loud from = elim (Bool-cases (has p key)) [
  | inr e ↦ rw e (λ k. absent-Accepted P r key p v e from)
  | inl e ↦ rw e (checked-Ensures P t r key p v (t.test v) g loud refl from)
]

-- A type test that reports nothing, and is asked to report, returns None, or leaves in the parent the
-- value that it returns; that value is of the type, and one of the valid values if there are any.
pub execute_test_accepts :
    (P : Value → Type 0) (t : TypeTest) (r : Request) (key : String) (parent p : Fields) (v : Value)
    → Guards P t
    → r.context.silent ≡ false
    → execute_test t r key parent ≡ done p v []
    → Accepted P r key p v
unfolding execute_test get_value_to_check
execute_test_accepts P t r key parent p v g loud h =
    subst (Ensures P r key) h
      (tested-Ensures P t r key (get_value_to_check t r key parent) g loud
        (fetch-FromParent t r key parent (get parent key) refl))
      refl
