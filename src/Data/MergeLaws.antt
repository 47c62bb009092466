-- ===== src/Data/MergeLaws.antt =====
-- What merge_with_removed_attributes leaves under every key.
use netlab.Prelude.{
  ◌≡◌, refl, ◌∙◌, Bool, true, false, not, ◌&&◌, ◌||◌, Option, none, some, List, String, ap, arith,
  ◌==◌, eq_iff, if◌then◌else◌,
}
use netlab.Prelude.Distinct.{IsDistinct}
use netlab.Data.Box.{
  Value, null, bool, int, str, list, dict, Fields, end, entry, get, has, keys, get-put,
  contains-keys,
}
use netlab.Data.Walks.{listed_in, is_removed}
use netlab.Data.Merging.{
  out_of_scope, write_key, merge_key, merge_values, merge_fields, merge_with_removed_attributes,
}

abbrev pub merged_under : Option Value → Value → (Value → Value) → Option Value
merged_under none v merge = some v
merged_under (some old) v merge = some (merge old)

get-write_key :
    (d : Fields) (k j : String) (v : Value) (merge : Value → Value) (o : Option Value)
    → get (write_key d k v merge o) j ≡ (if k == j then merged_under o v merge else get d j)
get-write_key d k j v merge none = get-put d k j v
get-write_key d k j v merge (some old) = get-put d k j (merge old)

get-merge_key :
    (d : Fields) (k j : String) (v : Value) (merge : Value → Value) (scope : Option (List String))
    → get (merge_key d k v merge scope) j ≡ (
        if k == j && not (is_removed d k || out_of_scope scope k)
        then merged_under (get d k) v merge
        else get d j)
unfolding merge_key
get-merge_key d k j v merge scope = ground (arith, get-write_key d k j v merge (get d k))

-- What this Box has under a key that both have, from the other's value and its own: two dictionaries
-- are merged in turn, and otherwise its own value stays.
abbrev pub under_both : Value → Value → Value
under_both (dict other) (dict own) = dict (merge_with_removed_attributes own other none)
under_both other own = own

merge_values-under_both : (v w : Value) → merge_values v w ≡ under_both v w
unfolding merge_values merge_with_removed_attributes
merge_values-under_both (dict b) (dict c) = refl
merge_values-under_both (dict b) null = refl
merge_values-under_both (dict b) (bool c) = refl
merge_values-under_both (dict b) (int n) = refl
merge_values-under_both (dict b) (str s) = refl
merge_values-under_both (dict b) (list xs) = refl
merge_values-under_both null w = refl
merge_values-under_both (bool b) w = refl
merge_values-under_both (int n) w = refl
merge_values-under_both (str s) w = refl
merge_values-under_both (list xs) w = refl

-- What the loop leaves under a key, from what both sides had and whether it may change.
abbrev pub merged_value : Bool → Option Value → Option Value → Option Value
merged_value true old new = old
merged_value false old none = old
merged_value false none (some v) = some v
merged_value false (some w) (some v) = some (under_both v w)

abbrev merged_by_values : Bool → Option Value → Option Value → Option Value
merged_by_values true old new = old
merged_by_values false old none = old
merged_by_values false none (some v) = some v
merged_by_values false (some w) (some v) = some (merge_values v w)

merged_by_values-merged_value :
    (kept : Bool) (old new : Option Value)
    → merged_by_values kept old new ≡ merged_value kept old new
merged_by_values-merged_value true old new = refl
merged_by_values-merged_value false none none = refl
merged_by_values-merged_value false (some w) none = refl
merged_by_values-merged_value false none (some v) = refl
merged_by_values-merged_value false (some w) (some v) = ap some (merge_values-under_both v w)

abbrev pub kept_back : Fields → Option (List String) → String → Bool
kept_back d_to m_scope k = is_removed d_to k || out_of_scope m_scope k

is_removed-merge_key :
    (d : Fields) (k j : String) (v : Value) (merge : Value → Value) (scope : Option (List String))
    → k == "_removed_attr" ≡ false
    → is_removed (merge_key d k v merge scope) j ≡ is_removed d j
unfolding is_removed
is_removed-merge_key d k j v merge scope h =
    ap (λ o. listed_in o j) (rw (get-merge_key d k "_removed_attr" v merge scope, h))

get-merge_fields :
    (d_with d_to : Fields) (m_scope : Option (List String)) (k : String)
    → IsDistinct (keys d_with)
    → has d_with "_removed_attr" ≡ false
    → get (merge_fields d_with d_to m_scope) k
      ≡ merged_by_values (kept_back d_to m_scope k) (get d_to k) (get d_with k)
unfolding merge_fields get has keys
get-merge_fields end d_to m_scope k d h = ground arith
get-merge_fields (entry j v rest) d_to m_scope k d h =
    let d' = merge_key d_to j v (λ old. merge_values v old) m_scope in
    rw
      (
        get-merge_fields rest d' m_scope k d.1 (ground arith),
        is_removed-merge_key d_to j k v (λ old. merge_values v old) m_scope (ground arith),
        get-merge_key d_to j k v (λ old. merge_values v old) m_scope,
      )
      (ground (arith, eq_iff j k, contains-keys rest k, eq_iff j "_removed_attr"))

-- When the other Box has distinct keys and no `_removed_attr` of its own, every key of the merged
-- Box is accounted for: a key that was removed here, or is out of scope, is untouched; a key only
-- here is untouched; a key only there is copied; under a key of both two dictionaries are merged
-- (without the scope), and in all other cases the value of this Box wins.
pub get-merge_with_removed_attributes :
    (d_to d_with : Fields) (m_scope : Option (List String)) (k : String)
    → IsDistinct (keys d_with)
    → has d_with "_removed_attr" ≡ false
    → get (merge_with_removed_attributes d_to d_with m_scope) k
      ≡ merged_value (is_removed d_to k || out_of_scope m_scope k) (get d_to k) (get d_with k)
unfolding merge_with_removed_attributes
get-merge_with_removed_attributes d_to d_with m_scope k d h =
    get-merge_fields d_with d_to m_scope k d h
    ∙ merged_by_values-merged_value (kept_back d_to m_scope k) (get d_to k) (get d_with k)
