-- ===== src/Examples/DataRuns.antt =====
-- netsim/data/__init__.py on small Boxes.
use netlab.Prelude.{◌≡◌, refl, true, false, ◌||◌, some, none, List, [], ◌∷◌, ◌++◌, any}
use netlab.Data.{
  Value, null, bool, int, pos, str, list, dict, cons, nil, Fields, end, entry, get, put, items,
  elems, is_in, value_eq, keys, has,
}
use netlab.Data.Walks.{
  is_removed, null_to_string, remove_null_values, removed_attributes, bool_to_defaults,
}
use netlab.Data.Merging.{merge_with_removed_attributes, out_of_scope}
use netlab.Data.Appending.{append_to_list, find_in_list}
use netlab.Data.Keywords.{kw_list_transform, kw_lookup}
use netlab.Prelude.Texts.{contains}
use netlab.Data.NullRemoval.{
  get-remove_null_values, fields_null_free, remove_null_values-NullFree,
  remove_null_values-null_to_string,
}
use netlab.Data.ListLaws.{
  IsUnique, kw_list_transform_set, append_to_list_set, held_values, added_values,
}
use netlab.Data.MergeLaws.{get-merge_with_removed_attributes, merged_value}

abbrev node : Fields
node = entry "mtu" null (
    entry "bgp" (dict (entry "as" (int (pos 65000)) (entry "rr" null end)))
      (entry "_removed_attr" (list (cons (str "ospf") nil)) end))

abbrev global : Fields
global =
    entry "ospf" (dict end)
      (entry "bgp" (dict (entry "next_hop_self" (bool true) end)) (entry "vlan" (bool false) end))

get-remove_null_values_example : get (remove_null_values node) "mtu" ≡ none
unfolding get keys contains
get-remove_null_values_example = get-remove_null_values node "mtu" (refl, (refl, (refl, tt)))

get-merge_example :
    get (merge_with_removed_attributes node global none) "ospf"
    ≡ merged_value
        (is_removed node "ospf" || out_of_scope none "ospf")
        (get node "ospf")
        (get global "ospf")
unfolding keys has contains
get-merge_example =
    get-merge_with_removed_attributes node global none "ospf" (refl, (refl, (refl, tt))) refl

merge_removed : get (merge_with_removed_attributes node global none) "ospf" ≡ none
unfolding merge_with_removed_attributes get is_in elems value_eq put
merge_removed = refl

removed_below : removed_attributes node "ospf.area" ≡ true
unfolding removed_attributes is_in elems value_eq
removed_below = refl

bool_to_defaults_runs :
    bool_to_defaults (entry "bfd" (bool true) end) "bfd" (dict (entry "timer" (int (pos 3)) end))
    ≡ entry "bfd" (dict (entry "timer" (int (pos 3)) end)) end
unfolding bool_to_defaults put
bool_to_defaults_runs = refl

append_to_list_runs :
    (append_to_list (some (entry "l" (str "a") end)) "l" (str "b") false).1 ≡ str "a" ∷ str "b" ∷ []
unfolding append_to_list get value_eq
append_to_list_runs = refl

find_in_list_runs : find_in_list (str "x" ∷ str "b" ∷ []) (str "a" ∷ str "b" ∷ []) ≡ some 1
unfolding find_in_list
find_in_list_runs = refl

kw_list_transform_runs :
    kw_list_transform
      (entry "a" null (entry "b" (bool false) (entry "c" (str "a") end)))
      ("a" ∷ "b" ∷ "c" ∷ "d" ∷ [])
    ≡ str "a" ∷ []
unfolding kw_list_transform value_eq
kw_list_transform_runs = refl

remove_null_values-NullFree_example : fields_null_free (remove_null_values node) ≡ true
remove_null_values-NullFree_example = remove_null_values-NullFree node

remove_null_values-null_to_string_example :
    remove_null_values (null_to_string node) ≡ null_to_string node
remove_null_values-null_to_string_example = remove_null_values-null_to_string node

abbrev lookup_table : Fields
lookup_table = entry "a" null (entry "c" (str "a") end)

kw_list_transform_set_example :
    IsUnique (kw_list_transform lookup_table ("a" ∷ "c" ∷ []))
    × (is_in (str "a") (kw_list_transform lookup_table ("a" ∷ "c" ∷ []))
        ≡ any (λ kw. is_in (str "a") (kw_lookup lookup_table kw)) ("a" ∷ "c" ∷ []))
kw_list_transform_set_example = kw_list_transform_set lookup_table ("a" ∷ "c" ∷ []) "a"

abbrev tagged : Fields
tagged = entry "tags" (list (cons (str "a") nil)) (entry "mtu" (int (pos 1500)) end)

abbrev more_tags : Value
more_tags = list (cons (str "b") (cons (str "a") nil))

abbrev all_tags : List Value
all_tags = str "a" ∷ str "b" ∷ []

abbrev with_tags : Fields
with_tags = put tagged "tags" (list (items all_tags))

tags_added : append_to_list (some tagged) "tags" more_tags true ≡ (some with_tags, all_tags)
unfolding append_to_list get put value_eq
tags_added = refl

append_to_list_set_example :
    (get with_tags "mtu" ≡ get tagged "mtu")
    × IsUnique all_tags
    × ((more : List Value) × (all_tags ≡ held_values (get tagged "tags") ++ more))
    × (is_in (str "b") all_tags ≡ (
        is_in (str "b") (held_values (get tagged "tags"))
        || is_in (str "b") (added_values more_tags true)))
unfolding get elems is_in
append_to_list_set_example =
    append_to_list_set tagged with_tags "tags" "mtu" more_tags true all_tags "b" (refl, tt)
      tags_added
