-- ===== src/Data/NullRemoval.antt =====
-- What the walks over nested dictionaries leave: no null, and no internal attribute.
use netlab.Prelude.{
  ◌≡◌, refl, Bool, true, false, ◌&&◌, Option, none, some, String, ap, arith, ◌==◌, eq_iff,
  if◌then◌else◌, Bool-cases, and_left, and_right, inl, inr,
}
use netlab.Prelude.Distinct.{IsDistinct}
use netlab.Data.Box.{
  Value, null, bool, int, str, list, dict, Fields, end, entry, get, has, keys, contains-keys,
}
use netlab.Data.Walks.{
  null_in_value, null_in_fields, null_to_string, keep_entry, without_null, without_nulls,
  remove_null_values,
}

mutual
  pub null_free : Value → Bool
  null_free null = false
  null_free (dict b) = fields_null_free b
  null_free v = true

  pub fields_null_free : Fields → Bool
  fields_null_free end = true
  fields_null_free (entry k v b) = null_free v && fields_null_free b

mutual
  unfolding null_free null_in_value

  null_free-null_in_value : (v : Value) → null_free (null_in_value v) ≡ true
  null_free-null_in_value (dict b) = null_free-null_in_fields b
  null_free-null_in_value null = refl
  null_free-null_in_value (bool b) = refl
  null_free-null_in_value (int n) = refl
  null_free-null_in_value (str s) = refl
  null_free-null_in_value (list xs) = refl

  null_free-null_in_fields : (b : Fields) → fields_null_free (null_in_fields b) ≡ true
  null_free-null_in_fields end = refl
  null_free-null_in_fields (entry k v b) =
      ground (arith, null_free-null_in_value v, null_free-null_in_fields b)

mutual
  unfolding null_free without_null

  without_null_fixed : (v : Value) → null_free v ≡ true → without_null v ≡ some v
  without_null_fixed null h = cc
  without_null_fixed (dict b) h = ap (λ c. some (dict c)) (without_nulls_fixed b h)
  without_null_fixed (bool b) h = refl
  without_null_fixed (int n) h = refl
  without_null_fixed (str s) h = refl
  without_null_fixed (list xs) h = refl

  without_nulls_fixed : (b : Fields) → fields_null_free b ≡ true → without_nulls b ≡ b
  without_nulls_fixed end h = refl
  without_nulls_fixed (entry k v b) h =
      rw (without_null_fixed v (and_left (null_free v) _ h))
        (ap (entry k v) (without_nulls_fixed b (and_right (null_free v) _ h)))

abbrev kept_null_free : Option Value → Bool
kept_null_free none = true
kept_null_free (some v) = null_free v

fields_null_free-keep_entry :
    (k : String) (o : Option Value) (b : Fields)
    → fields_null_free (keep_entry k o b) ≡ (kept_null_free o && fields_null_free b)
unfolding null_free
fields_null_free-keep_entry k none b = refl
fields_null_free-keep_entry k (some v) b = refl

mutual
  unfolding null_free without_null

  null_free-without_null : (v : Value) → kept_null_free (without_null v) ≡ true
  null_free-without_null null = refl
  null_free-without_null (dict b) = null_free-without_nulls b
  null_free-without_null (bool b) = refl
  null_free-without_null (int n) = refl
  null_free-without_null (str s) = refl
  null_free-without_null (list xs) = refl

  null_free-without_nulls : (b : Fields) → fields_null_free (without_nulls b) ≡ true
  null_free-without_nulls end = refl
  null_free-without_nulls (entry k v b) =
      rw
        (fields_null_free-keep_entry k (without_null v) (without_nulls b), null_free-without_null v)
        (null_free-without_nulls b)

-- After remove_null_values no dictionary, at any depth below dictionaries, holds a null.
pub remove_null_values-NullFree : (d : Fields) → fields_null_free (remove_null_values d) ≡ true
unfolding remove_null_values
remove_null_values-NullFree d = null_free-without_nulls d

-- null_to_string leaves nothing for remove_null_values to remove.
pub remove_null_values-null_to_string :
    (d : Fields) → remove_null_values (null_to_string d) ≡ null_to_string d
unfolding remove_null_values null_to_string
remove_null_values-null_to_string d =
    without_nulls_fixed (null_in_fields d) (null_free-null_in_fields d)

-- What a lookup finds after the nulls are gone.
abbrev pub pruned : Option Value → Option Value
pruned none = none
pruned (some null) = none
pruned (some (dict b)) = some (dict (remove_null_values b))
pruned (some v) = some v

without_null-eq-pruned : (v : Value) → without_null v ≡ pruned (some v)
unfolding without_null remove_null_values
without_null-eq-pruned null = refl
without_null-eq-pruned (dict b) = refl
without_null-eq-pruned (bool b) = refl
without_null-eq-pruned (int n) = refl
without_null-eq-pruned (str s) = refl
without_null-eq-pruned (list xs) = refl

get-keep_entry :
    (k j : String) (o : Option Value) (b : Fields)
    → get (keep_entry k o b) j
      ≡ (if k == j then (elim o [ none ↦ get b j | some v ↦ some v ]) else get b j)
unfolding get
get-keep_entry k j none b = ground arith
get-keep_entry k j (some v) b = ground arith

get-without_nulls_absent :
    (b : Fields) (k : String) → has b k ≡ false → get (without_nulls b) k ≡ none
unfolding without_null has get
get-without_nulls_absent end k h = refl
get-without_nulls_absent (entry j v b) k h = elim (Bool-cases (j == k)) [
  | inl same ↦ absurd_bool (rw same at h)
  | inr other ↦
      rw (get-keep_entry j k (without_null v) (without_nulls b), other)
        (get-without_nulls_absent b k (rw other at h))
]
  where
    absurd_bool : {A : Type 0} → true ≡ false → A
    absurd_bool e = cc

prune_or_rest :
    (b : Fields) (k : String) (w : Value)
    → get (without_nulls b) k ≡ none
    → (elim (pruned (some w)) [ none ↦ get (without_nulls b) k | some x ↦ some x ])
      ≡ pruned (some w)
prune_or_rest b k null h = h
prune_or_rest b k (dict c) h = refl
prune_or_rest b k (bool c) h = refl
prune_or_rest b k (int n) h = refl
prune_or_rest b k (str s) h = refl
prune_or_rest b k (list xs) h = refl

get-without_nulls :
    (b : Fields) (k : String) → IsDistinct (keys b) → get (without_nulls b) k ≡ pruned (get b k)
unfolding without_null get keys
get-without_nulls end k h = refl
get-without_nulls (entry j v b) k h = elim (Bool-cases (j == k)) [
  | inl same ↦
      rw (get-keep_entry j k (without_null v) (without_nulls b), same)
        (rw (without_null-eq-pruned v) (
          prune_or_rest b k v
            (get-without_nulls_absent b k (ground (arith, h.0, contains-keys b k, eq_iff j k)))))
  | inr other ↦
      rw (get-keep_entry j k (without_null v) (without_nulls b), other) (get-without_nulls b k h.1)
]

-- In a Box whose keys are distinct, remove_null_values removes exactly the keys with a null,
-- cleans the dictionaries below, and leaves every other value as it was.
pub get-remove_null_values :
    (d : Fields) (k : String)
    → IsDistinct (keys d)
    → get (remove_null_values d) k ≡ pruned (get d k)
get-remove_null_values d k h = unfold remove_null_values in get-without_nulls d k h
